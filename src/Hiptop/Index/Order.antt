-- ===== src/Hiptop/Index/Order.antt =====
-- hiptop/dictionary/mkidx.c: COMPARE as the order by which qsort sorts the index.
use frotznet.Prelude.{inl, inr, ◌≤◌, ◌⊎◌, ℕ, zero, suc, ◌+◌, ◌<◌, ◌≡◌, refl, arith, ◌↔◌}
use frotznet.Prelude.Int.{ℤ, pos, pos_part, neg_part}
use frotznet.Hiptop.Index.{keymax, fold, compare_loop, compare_at}

-- A hiragana and its katakana, a capital and its small letter.
abbrev pub Kana : ℕ → ℕ → Type 0
Kana a b = (0x3041 ≤ a) × (a ≤ 0x3094) × (b ≡ a + 0x60)

abbrev pub Capital : ℕ → ℕ → Type 0
Capital a b = (b'A' ≤ a) × (a ≤ b'Z') × (b ≡ a + 0x20)

-- Two characters that count as the same.
abbrev pub Alike : ℕ → ℕ → Type 0
Alike a b = (a ≡ b) ⊎ (Kana a b ⊎ (Kana b a ⊎ (Capital a b ⊎ Capital b a)))

fold-Alike : (a b : ℕ) → fold a ≡ fold b → Alike a b
unfolding fold
fold-Alike a b h = grind arith

Alike-fold : (a b : ℕ) → Alike a b → fold a ≡ fold b
unfolding fold
Alike-fold a b (inl e) = ground arith
Alike-fold a b (inr (inl e)) = ground arith
Alike-fold a b (inr (inr (inl e))) = ground arith
Alike-fold a b (inr (inr (inr (inl e)))) = ground arith
Alike-fold a b (inr (inr (inr (inr e)))) = ground arith

-- What qsort asks of a comparison: one order of either argument, and no circles. Which elements are equal
-- by it: those whose keys have characters that count as the same. Which is less: the one with the smaller
-- character at the first place where they do not, katakana read as hiragana and capitals as small letters.
pub record IsOrder (d : ℕ → ℕ) (compare : ℕ → ℕ → ℤ) : Type 0 where
  pub opposite : (a b : ℕ) → pos_part (compare b a) ≡ neg_part (compare a b)
  pub transitive :
      (a b c : ℕ)
      → pos_part (compare a b) ≡ 0
      → pos_part (compare b c) ≡ 0
      → pos_part (compare a c) ≡ 0
  pub equal :
      (a b : ℕ) → (compare a b ≡ pos 0) ↔ ((k : ℕ) → k < keymax → Alike (d (a + k)) (d (b + k)))
  pub less :
      (a b k : ℕ)
      → k < keymax
      → ((j : ℕ) → j < k → Alike (d (a + j)) (d (b + j)))
      → fold (d (a + k)) < fold (d (b + k))
      → 0 < neg_part (compare a b)

+_zero : (p : ℕ) → p + 0 ≡ p
+_zero p = omega arith

+_suc : (p k : ℕ) → p + suc k ≡ p + 1 + k
+_suc p k = omega arith

module _ (d : ℕ → ℕ) where
  loop_opposite :
      (left x y p q : ℕ)
      → pos_part (compare_loop left y x q p d) ≡ neg_part (compare_loop left x y p q d)
  unfolding compare_loop
  loop_opposite zero x y p q = ground arith
  loop_opposite (suc left) x y p q =
      ground (arith, loop_opposite left (fold (d p)) (fold (d q)) (p + 1) (q + 1))

  loop_transitive :
      (left x y z p q r : ℕ)
      → x ≡ y
      → y ≡ z
      → pos_part (compare_loop left x y p q d) ≡ 0
      → pos_part (compare_loop left y z q r d) ≡ 0
      → pos_part (compare_loop left x z p r d) ≡ 0
  unfolding compare_loop
  loop_transitive zero x y z p q r e f h g = ground arith
  loop_transitive (suc left) x y z p q r e f h g =
      ground
        (arith, loop_transitive left (fold (d p)) (fold (d q)) (fold (d r)) (p + 1) (q + 1) (r + 1))

  loop_same :
      (left x y p q : ℕ)
      → x ≡ y
      → ((k : ℕ) → k < left → fold (d (p + k)) ≡ fold (d (q + k)))
      → compare_loop left x y p q d ≡ pos 0
  unfolding compare_loop
  loop_same zero x y p q e h = ground arith
  loop_same (suc left) x y p q e h =
      let first = (rw (+_zero p, +_zero q) at (h 0 (omega arith))) in
      let rest =
        loop_same left (fold (d p)) (fold (d q)) (p + 1) (q + 1) first
          λ k lt. rw (+_suc p k, +_suc q k) at (h (suc k) (omega arith)) in
      ground (arith, rest)

  loop_differs :
      (left x y p q : ℕ)
      → compare_loop left x y p q d ≡ pos 0
      → (k : ℕ) → k < left
      → fold (d (p + k)) ≡ fold (d (q + k))
  unfolding compare_loop
  loop_differs zero x y p q h k lt = absurd (omega arith)
  loop_differs (suc left) x y p q h zero lt =
      let first : fold (d p) ≡ fold (d q) = ground arith in rw (+_zero p, +_zero q) first
  loop_differs (suc left) x y p q h (suc k) lt =
      let rest : compare_loop left (fold (d p)) (fold (d q)) (p + 1) (q + 1) d ≡ pos 0 =
        ground arith in
      rw (+_suc p k, +_suc q k)
        (loop_differs left (fold (d p)) (fold (d q)) (p + 1) (q + 1) rest k (omega arith))

  loop_less :
      (left x y p q k : ℕ)
      → k < left
      → ((j : ℕ) → j < k → fold (d (p + j)) ≡ fold (d (q + j)))
      → fold (d (p + k)) < fold (d (q + k))
      → 0 < neg_part (compare_loop left x y p q d)
  unfolding compare_loop
  loop_less zero x y p q k lt h less = absurd (omega arith)
  loop_less (suc left) x y p q zero lt h less =
      let here : fold (d p) < fold (d q) = rw (+_zero p, +_zero q) at less in ground arith
  loop_less (suc left) x y p q (suc k) lt h less =
      let first = rw (+_zero p, +_zero q) at (h 0 (omega arith)) in
      let rest =
        loop_less left (fold (d p)) (fold (d q)) (p + 1) (q + 1) k (omega arith)
          (λ j l. rw (+_suc p j, +_suc q j) at (h (suc j) (omega arith)))
          (rw (+_suc p k, +_suc q k) at less) in
      ground (arith, first, rest)

-- COMPARE is an order, as qsort needs it, of the places of any text: exchanging its arguments changes the
-- sign of its result; where the first is not above the second nor the second above the third, the first is
-- not above the third; the result is 0 exactly where each of the 32 characters at the two places are the
-- same, a hiragana and its katakana, or a capital and its small letter; and it is negative where at the
-- first other place the first has the smaller character, as fold gives it.
pub compare_at-IsOrder : (d : ℕ → ℕ) → IsOrder d (λ a b. compare_at a b d)
unfolding compare_at
compare_at-IsOrder d = record {
  opposite = λ a b. loop_opposite d keymax 0 0 a b;
  transitive = λ a b c. loop_transitive d keymax 0 0 0 a b c refl refl;
  equal = λ a b. (
    (λ h k lt. fold-Alike (d (a + k)) (d (b + k)) (loop_differs d keymax 0 0 a b h k lt)),
    λ h. loop_same d keymax 0 0 a b refl (λ k lt. Alike-fold (d (a + k)) (d (b + k)) (h k lt)),
  );
  less = λ a b k lt h.
      loop_less d keymax 0 0 a b k lt (λ j l. Alike-fold (d (a + j)) (d (b + j)) (h j l));
}
