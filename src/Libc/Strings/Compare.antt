-- ===== src/Libc/Strings/Compare.antt =====
-- strncmp, strchr and memcmp of lib/libc/string.c.
use frotznet.Prelude.{
  ℕ, zero, suc, ◌≤◌, ◌<◌, ◌≡◌, ◌↔◌, refl, Bool, false, Option, none, some, List, [], ◌∷◌, arith,
  ◌==◌, ◌||◌, length, take, get_elem?, Bool-cases, inl, inr,
}
use frotznet.Prelude.Int.{pos, negsuc}
use frotznet.Libc.Strings.{strncmp, strchr, memcmp}

-- strncmp is 0 exactly if both strings have `n` characters and the first `n` of them are the same.
pub strncmp_lem :
    (a b : List ℕ) (n : ℕ)
    → (strncmp a b n ≡ pos 0) ↔ ((take n a ≡ take n b) × (n ≤ length a) × (n ≤ length b))
unfolding strncmp
strncmp_lem a b zero = (λ e. (refl, omega arith, omega arith), λ e. refl)
strncmp_lem [] b (suc n) = (λ e. cc, λ e. absurd (omega (arith, e.1)))
strncmp_lem (c ∷ a) [] (suc n) = (λ e. cc, λ e. absurd (omega (arith, e.2)))
strncmp_lem (c ∷ a) (d ∷ b) (suc n) =
    (λ e. ground (arith, (strncmp_lem a b n).0), λ e. ground (arith, (strncmp_lem a b n).1))

-- Equal strings that are shorter than `n` do not compare as equal.
pub strncmp_short : (s : List ℕ) (n : ℕ) → length s < n → strncmp s s n ≡ negsuc 0
unfolding strncmp
strncmp_short s zero h = absurd (omega arith)
strncmp_short [] (suc n) h = refl
strncmp_short (c ∷ s) (suc n) h = ground (arith, strncmp_short s n)

-- memcmp inside of two blocks is 0 exactly if the bytes that it compares are the same.
pub memcmp_lem :
    (d s : List ℕ) (n : ℕ)
    → n ≤ length d
    → n ≤ length s
    → (memcmp d s n ≡ some 0) ↔ (take n d ≡ take n s)
unfolding memcmp
memcmp_lem d s zero h k = (λ e. refl, λ e. refl)
memcmp_lem [] s (suc n) h k = absurd (omega arith)
memcmp_lem (x ∷ d) [] (suc n) h k = absurd (omega arith)
memcmp_lem (x ∷ d) (y ∷ s) (suc n) h k =
    let rest = memcmp_lem d s n (omega arith) (omega arith) in
    (λ e. ground (arith, rest.0), λ e. ground (arith, rest.1))

abbrev pub seen : ℕ → List ℕ → Bool
seen c [] = false
seen c (d ∷ cs) = (d == c) || seen c cs

-- strchr finds a place of the character with none before it.
pub strchr_lem :
    (cs : List ℕ) (c i : ℕ)
    → strchr cs c ≡ some i
    → (get_elem? cs i ≡ some c) × (seen c (take i cs) ≡ false)
unfolding strchr
strchr_lem [] c i e = cc
strchr_lem (d ∷ cs) c i e = elim (Bool-cases (d == c)) [
  | inl f ↦ ground arith
  | inr f ↦ later i f (λ j. strchr_lem cs c j) (strchr cs c) refl (ground arith)
]
  where
    later :
        (i : ℕ)
        → (d == c) ≡ false
        → ((j : ℕ)
            → strchr cs c ≡ some j
            → (get_elem? cs j ≡ some c) × (seen c (take j cs) ≡ false))
        → (o : Option ℕ) → strchr cs c ≡ o
        → elim o as (λ _. Option ℕ) [ none ↦ none | some j ↦ some (suc j) ] ≡ some i
        → (get_elem? (d ∷ cs) i ≡ some c) × (seen c (take i (d ∷ cs)) ≡ false)
    later i f ih none g h = cc
    later zero f ih (some j) g h = absurd (ground arith)
    later (suc i) f ih (some j) g h = ground (arith, ih j g)
