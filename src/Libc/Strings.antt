-- ===== src/Libc/Strings.antt =====
-- strncpy, strncmp, strchr and memcmp of lib/libc/string.c. A string is the list of its characters
-- before the NUL, none of which is 0.
pub mod Compare
use frotznet.Prelude.{
  ℕ, zero, suc, ◌+◌, Option, none, some, List, [], ◌∷◌, ◌==◌, if◌then◌else◌, get_elem?,
}
use frotznet.Prelude.Int.{ℤ, pos, negsuc}
use frotznet.Libc.Memory.{put, ◌>>=◌}

-- strncpy, to the cells of a block from `i` on
unfoldable pub strncpy : ℕ → List ℕ → ℕ → List ℕ → Option (List ℕ)
strncpy i src zero m = some m
strncpy i [] (suc size) m = put m i 0
strncpy i (c ∷ src) (suc size) m = put m i c >>= strncpy (suc i) src size

unfoldable pub strncmp : List ℕ → List ℕ → ℕ → ℤ
strncmp s1 s2 zero = pos 0
strncmp [] s2 (suc n) = negsuc 0
strncmp (c ∷ s1) [] (suc n) = negsuc 0
strncmp (c ∷ s1) (d ∷ s2) (suc n) = let rest = strncmp s1 s2 n in if c == d then rest else negsuc 0

-- strchr, as the index of the character; `none` is NULL.
unfoldable pub strchr : List ℕ → ℕ → Option ℕ
strchr [] c = none
strchr (d ∷ cs) c =
    if d == c then some 0 else elim (strchr cs c) [ none ↦ none | some i ↦ some (suc i) ]

-- memcmp of two blocks; `none` is a read outside of one.
unfoldable pub memcmp : List ℕ → List ℕ → ℕ → Option ℕ
memcmp d s zero = some 0
memcmp [] s (suc size) = none
memcmp (x ∷ d) [] (suc size) = none
memcmp (x ∷ d) (y ∷ s) (suc size) = let rest = memcmp d s size in if x == y then rest else some 1
