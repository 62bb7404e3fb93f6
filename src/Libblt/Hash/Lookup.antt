-- ===== src/Libblt/Hash/Lookup.antt =====
-- The probe loops of lib/libblt/hash.c.
use native.Mathlib.Nat.{mod-lt}
use frotznet.Prelude.{
  ℕ, zero, suc, ◌-◌, ◌<◌, ◌≡◌, refl, true, false, ◌&&◌, not, Option, none, some, List, arith, ◌==◌,
  if◌then◌else◌, get_elem?, Bool-cases, inl, inr,
}
use frotznet.Libblt.Hash.{Node, ◌>>=◌, rehash, back, find_from}

-- A node that hashtable_lookup or hashtable_remove finds is in use, not deleted, and has the key.
pub find_from-some :
    (fuel key size : ℕ) (nodes : List Node) (i j : ℕ)
    → find_from fuel key size nodes i ≡ some (some j)
    → (n : Node) × (get_elem? nodes j ≡ some n)
      × (n.valid ≡ true)
      × (n.dirty ≡ false)
      × (n.key ≡ key)
unfolding find_from
find_from-some zero key size nodes i j e = cc
find_from-some (suc fuel) key size nodes i j e =
    at (get_elem? nodes i) refl e
      (find_from-some fuel key size nodes (back i (rehash key size) size) j)
  where
    at :
        (o : Option Node)
        → get_elem? nodes i ≡ o
        → (o >>= λ n.
            if not n.valid
            then some none
            else if n.key == key && not n.dirty
            then some (some i)
            else find_from fuel key size nodes (back i (rehash key size) size))
          ≡ some (some j)
        → (find_from fuel key size nodes (back i (rehash key size) size) ≡ some (some j)
            → (n : Node) × (get_elem? nodes j ≡ some n)
              × (n.valid ≡ true)
              × (n.dirty ≡ false)
              × (n.key ≡ key))
        → (n : Node) × (get_elem? nodes j ≡ some n)
          × (n.valid ≡ true)
          × (n.dirty ≡ false)
          × (n.key ≡ key)
    at none f e h = cc
    at (some n) f e h = elim (Bool-cases n.valid) [
      | inr v ↦ ground (arith, e)
      | inl v ↦ elim (Bool-cases (n.key == key && not n.dirty)) [
        | inl u ↦ (n, ground (arith, e, f), v, ground arith, ground arith)
        | inr u ↦ h (ground (arith, e))
      ]
    ]

-- From a place of a table of more than two nodes, the next place that a key tries lies in the table.
pub back-lt : (i key size : ℕ) → 2 < size → i < size → back i (rehash key size) size < size
back-lt i key size h k = ground (arith, mod-lt key {m = size - 2} (omega arith))
