-- ===== src/Libc/Tests.antt =====
-- Runs of the memory functions on small blocks and strings.
use frotznet.Prelude.{ℕ, ◌≡◌, some, List, [], ◌∷◌, refl}
use frotznet.Libc.Strings.{strchr}

abbrev one_two : List ℕ
one_two = 1 ∷ 2 ∷ []

abbrev one_three : List ℕ
one_three = 1 ∷ 3 ∷ []

abbrev one_two_two : List ℕ
one_two_two = 1 ∷ 2 ∷ 2 ∷ []

found_two : strchr one_two_two 2 ≡ some 1
unfolding strchr
found_two = refl
