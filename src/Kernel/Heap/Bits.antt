-- ===== src/Kernel/Heap/Bits.antt =====
-- The flags of a page table entry as a sum.
use Prim.Native.Nat.{max, digits, bit_or, bit_or-bitwise}
use native.Mathlib.Nat.{le_refl}
use frotznet.Prelude.{ℕ, zero, suc, ◌+◌, ◌*◌, ◌/◌, ◌%◌, ◌≤◌, ◌≡◌, refl, arith}

-- The digits of an or, with fuel; any fuel that is not below the first number gives the same.
abbrev or_digits : ℕ → ℕ → ℕ → ℕ
or_digits = digits (λ rest. rest) max

same_digits : (f g x y : ℕ) → x ≤ f → x ≤ g → or_digits f x y ≡ or_digits g x y
same_digits zero zero x y hf hg = refl
same_digits zero (suc g) zero y hf hg = refl
same_digits (suc f) zero zero y hf hg = refl
same_digits (suc f) (suc g) zero y hf hg = refl
same_digits zero (suc g) (suc x) y hf hg = absurd (omega arith)
same_digits (suc f) zero (suc x) y hf hg = absurd (omega arith)
same_digits (suc f) (suc g) (suc x) y hf hg =
    let half = same_digits f g (suc x / 2) (y / 2) (omega arith) (omega arith) in rw half

lowest_digit : (x y : ℕ) → bit_or x y ≡ bit_or (x / 2) (y / 2) * 2 + max (x % 2) (y % 2)
lowest_digit zero y = simp bit_or-bitwise (omega arith)
lowest_digit (suc x) y =
    let half = same_digits x (suc x / 2) (suc x / 2) (y / 2) (omega arith) (le_refl _) in
    simp bit_or-bitwise (omega (arith, half))

or_none : (n x : ℕ) → x ≤ n → bit_or x 0 ≡ x
or_none zero zero le = refl
or_none zero (suc x) le = absurd (omega arith)
or_none (suc n) x le =
    let half = or_none n (x / 2) (omega arith) in omega (arith, lowest_digit x 0, half)

-- The flags 3 stand below the page.
pub entry_flags : (page : ℕ) → bit_or (page * 4096) 3 ≡ page * 4096 + 3
entry_flags page =
    let first : bit_or (page * 4096) 3 ≡ bit_or (page * 2048) 1 * 2 + 1 =
      let half : page * 4096 / 2 ≡ page * 2048 = omega arith in
      omega (arith, rw half at (lowest_digit (page * 4096) 3)) in
    let second : bit_or (page * 2048) 1 ≡ bit_or (page * 1024) 0 * 2 + 1 =
      let half : page * 2048 / 2 ≡ page * 1024 = omega arith in
      omega (arith, rw half at (lowest_digit (page * 2048) 1)) in
    omega (arith, first, second, or_none (page * 1024) (page * 1024) (le_refl _))
