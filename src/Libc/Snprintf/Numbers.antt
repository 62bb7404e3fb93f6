-- ===== src/Libc/Snprintf/Numbers.antt =====
-- The digits that snprintf.c writes, read back.
use frotznet.Prelude.{
  ℕ, zero, suc, ◌+◌, ◌-◌, ◌*◌, ◌/◌, ◌%◌, ◌^◌, ◌≤◌, ◌<◌, ◌≡◌, refl, ap, ◌∙◌, Bool, false, List, [],
  ◌∷◌, arith, ◌==◌, ltb, if◌then◌else◌, Bool-cases, inl, inr,
}
use native.Mathlib.Numerals.{unary_clauses}
use frotznet.Libc.Snprintf.{hexmap, hex, decimal, signed}

-- Reading the digits of a base.
abbrev pub read_decimal : ℕ → List ℕ → ℕ
read_decimal n [] = n
read_decimal n (c ∷ cs) = read_decimal (n * 10 + (c - 48)) cs

abbrev pub hex_value : ℕ → ℕ
hex_value c = if ltb c 58 then c - 48 else c - 87

abbrev pub read_hex : ℕ → List ℕ → ℕ
read_hex n [] = n
read_hex n (c ∷ cs) = read_hex (n * 16 + hex_value c) cs

hex_value-hexmap : (d : ℕ) → d < 16 → hex_value (hexmap d) ≡ d
hex_value-hexmap d h = ground arith

-- The value of the digits written for `u`, if `u` fits, is the value of those behind it, begun at `u`.
pub decimal_value :
    (n u : ℕ) (ds : List ℕ) → u < 10 ^ n → read_decimal 0 (decimal n u ds) ≡ read_decimal u ds
unfolding decimal
decimal_value zero u ds h = let e : u ≡ 0 = omega arith in rw e refl
decimal_value (suc n) u ds h =
    let back : u / 10 * 10 + (48 + u % 10 - 48) ≡ u = omega arith in
    elim (Bool-cases (u / 10 == 0)) [
      | inl last ↦
          let z : u / 10 ≡ 0 = ground arith in
          rw (last, if◌then◌else◌)
            (ap (λ v. read_decimal v ds)
              (let e : 0 * 10 + (48 + u % 10 - 48) ≡ u = omega arith in e))
      | inr more ↦
          rw (more, if◌then◌else◌)
            (decimal_value n (u / 10) ((48 + u % 10) ∷ ds)
                (let p : 10 ^ suc n ≡ 10 ^ n * 10 = simp unary_clauses in omega arith)
              ∙ ap (λ v. read_decimal v ds) back)
    ]

hex_lem : (n u : ℕ) (ds : List ℕ) → u < 16 ^ n → read_hex 0 (hex n u ds) ≡ read_hex u ds
unfolding hex
hex_lem zero u ds h = let e : u ≡ 0 = omega arith in rw e refl
hex_lem (suc n) u ds h =
    hex_lem n (u / 16) (hexmap (u % 16) ∷ ds)
      (let p : 16 ^ suc n ≡ 16 ^ n * 16 = simp unary_clauses in omega arith)
    ∙ rw (hex_value-hexmap (u % 16) (omega arith))
        (ap (λ v. read_hex v ds) (let e : u / 16 * 16 + u % 16 ≡ u = omega arith in e))

abbrev begins_with_minus : List ℕ → Bool
begins_with_minus [] = false
begins_with_minus (c ∷ cs) = c == b'-'

decimal_minus :
    (n u : ℕ) (ds : List ℕ)
    → begins_with_minus ds ≡ false
    → begins_with_minus (decimal n u ds) ≡ false
unfolding decimal
decimal_minus zero u ds h = h
decimal_minus (suc n) u ds h =
    let digit : ((48 + u % 10) == b'-') ≡ false = ground arith in
    elim (Bool-cases (u / 10 == 0)) [
      | inl last ↦ rw (last, if◌then◌else◌) digit
      | inr more ↦ rw (more, if◌then◌else◌) (decimal_minus n (u / 10) ((48 + u % 10) ∷ ds) digit)
    ]

-- Reading an int of 32 bits, with its sign.
abbrev pub read_int : List ℕ → ℕ
read_int [] = 0
read_int (c ∷ cs) = if c == b'-' then 0x100000000 - read_decimal 0 cs else read_decimal 0 (c ∷ cs)

read_int_unsigned : (cs : List ℕ) → begins_with_minus cs ≡ false → read_int cs ≡ read_decimal 0 cs
read_int_unsigned [] h = refl
read_int_unsigned (c ∷ cs) h = rw (h, if◌then◌else◌) refl

-- What %u writes of an unsigned int reads back as that number, and what %d writes of an int, taken as
-- its 32 bits, reads back as these.
pub read-decimal :
    (u : ℕ) → u < 0x100000000 → (read_decimal 0 (decimal 10 u []) ≡ u) × (read_int (signed u) ≡ u)
read-decimal u h = (
  decimal_value 10 u [] (omega arith),
  elim (Bool-cases (ltb u 0x80000000)) [
    | inl positive ↦
        rw (positive, if◌then◌else◌)
          (read_int_unsigned (decimal 10 u []) (decimal_minus 10 u [] refl)
            ∙ decimal_value 10 u [] (omega arith))
    | inr negative ↦
        rw (negative, if◌then◌else◌)
          (let big : 0x80000000 ≤ u = ground arith in
            ap (λ v. 0x100000000 - v) (decimal_value 10 (0x100000000 - u) [] (omega arith))
            ∙ omega arith)
  ],
)

-- What %x writes of an unsigned int, or with two modifiers of an unsigned long long, reads back as that
-- number.
pub read-hex :
    (u : ℕ)
    → (u < 0x100000000 → read_hex 0 (hex 8 u []) ≡ u)
      × (u < 0x10000000000000000 → read_hex 0 (hex 16 u []) ≡ u)
read-hex u = (λ h. hex_lem 8 u [] (omega arith), λ h. hex_lem 16 u [] (omega arith))
