-- ===== src/Hiptop/KanaMap.antt =====
-- hiptop/jp_im/map.c: insert. The circular list is the list of its records behind the head, whose key is
-- 0, so that the search ends there.
use frotznet.Prelude.{
  ℕ, ◌≤◌, ◌<◌, ◌≡◌, refl, Bool, true, false, List, [], ◌∷◌, arith, ltb, leb, ◌==◌, if◌then◌else◌,
  Bool-cases, inl, inr,
}

pub record Rec : Type 0 where
  pub key : ℕ
  pub a : ℕ
  pub b : ℕ
  pub c : ℕ

unfoldable pub insert : Rec → List Rec → List Rec
insert r [] = r ∷ []
insert r (x ∷ xs) = let rest = insert r xs in if ltb r.key x.key then x ∷ rest else r ∷ x ∷ xs

-- The keys descend.
abbrev pub below : ℕ → List Rec → Bool
below k [] = true
below k (x ∷ xs) = leb x.key k

abbrev pub Sorted : List Rec → Type 0
Sorted [] = Unit
Sorted (x ∷ xs) = (below x.key xs ≡ true) × Sorted xs

-- The records with a key, in their order.
abbrev pub with_key : ℕ → List Rec → List Rec
with_key k [] = []
with_key k (x ∷ xs) = if x.key == k then x ∷ with_key k xs else with_key k xs

below-insert :
    (k : ℕ) (r : Rec) (xs : List Rec) → r.key ≤ k → below k xs ≡ true → below k (insert r xs) ≡ true
unfolding insert
below-insert k r [] h b = ground arith
below-insert k r (x ∷ xs) h b = ground arith

insert-Sorted : (r : Rec) (xs : List Rec) → Sorted xs → Sorted (insert r xs)
unfolding insert
insert-Sorted r [] s = (refl, tt)
insert-Sorted r (x ∷ xs) s = elim (Bool-cases (ltb r.key x.key)) [
  | inl more ↦
      rw (more, if◌then◌else◌) (below-insert x.key r xs (ground arith) s.0, insert-Sorted r xs s.1)
  | inr here ↦ rw (here, if◌then◌else◌) (ground arith, s)
]

below_none :
    (k : ℕ) (xs : List Rec) (m : ℕ) → below m xs ≡ true → Sorted xs → m < k → with_key k xs ≡ []
below_none k [] m b s h = refl
below_none k (x ∷ xs) m b s h =
    let other : (x.key == k) ≡ false = ground arith in
    rw (other, if◌then◌else◌) (below_none k xs x.key s.0 s.1 (ground arith))

with_key-insert :
    (r : Rec) (xs : List Rec) (k : ℕ)
    → Sorted xs
    → with_key k (insert r xs) ≡ (if r.key == k then r ∷ with_key k xs else with_key k xs)
unfolding insert
with_key-insert r [] k s = refl
with_key-insert r (x ∷ xs) k s = elim (Bool-cases (ltb r.key x.key)) [
  | inr here ↦ rw (here, if◌then◌else◌) refl
  | inl more ↦
      rw (more, if◌then◌else◌, with_key-insert r xs k s.1)
        (elim (Bool-cases (r.key == k)) [
          | inl same ↦
              let other : (x.key == k) ≡ false = ground arith in
              rw (same, other, if◌then◌else◌) refl
          | inr different ↦ rw (different, if◌then◌else◌) refl
        ])
]

-- insert keeps the records in descending order of their keys. The new one comes first among those with
-- its key, whose order is kept, and the records with another key are as before.
pub insert_lem :
    (r : Rec) (xs : List Rec) (k : ℕ)
    → Sorted xs
    → Sorted (insert r xs)
      × (with_key k (insert r xs) ≡ (if r.key == k then r ∷ with_key k xs else with_key k xs))
insert_lem r xs k s = (insert-Sorted r xs s, with_key-insert r xs k s)
