-- ===== src/Libblt/Hash/Tests.antt =====
-- Runs of the hash table: the keys 3 and 10 meet at the same node.
use frotznet.Prelude.{ℕ, ◌*◌, ◌≡◌, refl, Bool, true, false, Option, some, List, [], ◌∷◌, ltb}
use frotznet.Libblt.Hash.{Node, Table, ◌>>=◌, create, insert, lookup, remove, find_from}

-- A load of 4/5
abbrev over : ℕ → ℕ → Bool
over used size = ltb (size * 4) (used * 5)

abbrev under : ℕ → ℕ → Bool
under dirty size = ltb size (dirty * 5)

abbrev filled : Option Table
filled = insert over 2 3 30 1 create >>= insert over 2 10 100 1

both_found : ((filled >>= lookup 3) ≡ some (30, 1)) × ((filled >>= lookup 10) ≡ some (100, 1))
unfolding insert lookup create
both_found = (refl, refl)

gone : (filled >>= remove over under 2 3 >>= λ (d, t). lookup 3 t) ≡ some (0, 0)
unfolding insert lookup create remove
gone = refl

abbrev nodes : List Node
nodes = record { valid = true; dirty = false; key = 7; item = 70; dsize = 1 } ∷ []

found_seven : find_from 1 7 7 nodes 0 ≡ some (some 0)
unfolding find_from
found_seven = refl
