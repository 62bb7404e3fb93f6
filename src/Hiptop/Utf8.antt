-- ===== src/Hiptop/Utf8.antt =====
-- hiptop/dictionary/mkidx.c: write_utf8. The masks and shifts are written as quotients and remainders,
-- and an or with bits that are clear as a sum.
use frotznet.Prelude.{
  ℕ, zero, suc, ap, ◌∙◌, ◌+◌, ◌*◌, ◌/◌, ◌%◌, ◌-◌, ◌<◌, ◌≡◌, refl, Bool, true, false, ◌&&◌, ◌||◌,
  Option, none, some, List, [], ◌∷◌, ◌++◌, arith, ltb, if◌then◌else◌, Bool-cases, inl, inr,
}
use frotznet.Kernel.Resource.Table.{has}

abbrev pub encode : ℕ → List ℕ
encode c =
    if ltb c 0x80
    then c ∷ []
    else if ltb c 0x800
    then (0xc0 + c / 64) ∷ (0x80 + c % 64) ∷ []
    else (0xe0 + c / 4096) ∷ (0x80 + c / 64 % 64) ∷ (0x80 + c % 64) ∷ []

unfoldable pub write_utf8 : List ℕ → List ℕ
write_utf8 [] = []
write_utf8 (c ∷ cs) = encode c ++ write_utf8 cs

abbrev pub with_char : ℕ → Option (List ℕ) → Option (List ℕ)
with_char c none = none
with_char c (some cs) = some (c ∷ cs)

-- What a byte means at the start of a character: the character, or how many bytes follow and the bits
-- that it carries.
pub data Lead : Type 0 where
  ascii : Lead
  first : ℕ → ℕ → Lead
  broken : Lead

abbrev pub lead : ℕ → Lead
lead b =
    if ltb b 0x80
    then ascii
    else if ltb b 0xc0
    then broken
    else if ltb b 0xe0
    then first 1 (b - 0xc0)
    else if ltb b 0xf0
    then first 2 (b - 0xe0)
    else broken

abbrev pub is_tail : ℕ → Bool
is_tail b = ltb 0x7f b && ltb b 0xc0

-- The least character that takes `n` bytes behind the first.
abbrev pub least : ℕ → ℕ
least zero = 0
least (suc zero) = 0x80
least (suc (suc n)) = 0x800

-- A surrogate, which UTF-8 does not have.
abbrev pub surrogate : ℕ → Bool
surrogate c = ltb 0xd7ff c && ltb c 0xe000

-- The character that the bits of `n` bytes behind the first have come to; a shorter one and a surrogate are
-- refused.
abbrev pub accept : ℕ → ℕ → Option (List ℕ) → Option (List ℕ)
accept n c rest = if ltb c (least n) || surrogate c then none else with_char c rest

-- A reader of UTF-8, for characters of up to three bytes: `left` of the `n` bytes behind the first are to
-- come, and `v` is the bits before.
unfoldable pub read_utf8 : ℕ → ℕ → ℕ → List ℕ → Option (List ℕ)
read_utf8 n zero v [] = some []
read_utf8 n (suc left) v [] = none
read_utf8 n zero v (b ∷ bs) = elim (lead b) [
  | ascii ↦ with_char b (read_utf8 0 0 0 bs)
  | first left bits ↦ read_utf8 left left bits bs
  | broken ↦ none
]
read_utf8 n (suc left) v (b ∷ bs) = elim (is_tail b) [
  | false ↦ none
  | true ↦ elim left [
    | zero ↦ accept n (v * 64 + (b - 0x80)) (read_utf8 0 0 0 bs)
    | suc more ↦ read_utf8 n (suc more) (v * 64 + (b - 0x80)) bs
  ]
]

tail_ok : (x : ℕ) → is_tail (0x80 + x % 64) ≡ true
tail_ok x = ground arith

read_ascii :
    (b v : ℕ) (bs : List ℕ)
    → lead b ≡ ascii
    → read_utf8 0 0 v (b ∷ bs) ≡ with_char b (read_utf8 0 0 0 bs)
unfolding read_utf8
read_ascii b v bs e = rw (read_utf8, e) refl

read_first :
    (b v n x : ℕ) (bs : List ℕ) → lead b ≡ first n x → read_utf8 0 0 v (b ∷ bs) ≡ read_utf8 n n x bs
unfolding read_utf8
read_first b v n x bs e = rw (read_utf8, e) refl

read_last :
    (n x v : ℕ) (bs : List ℕ)
    → read_utf8 n 1 v ((0x80 + x % 64) ∷ bs)
      ≡ accept n (v * 64 + (0x80 + x % 64 - 0x80)) (read_utf8 0 0 0 bs)
unfolding read_utf8
read_last n x v bs = let e = tail_ok x in rw (read_utf8, e) refl

read_next :
    (x v : ℕ) (bs : List ℕ)
    → read_utf8 2 2 v ((0x80 + x % 64) ∷ bs) ≡ read_utf8 2 1 (v * 64 + (0x80 + x % 64 - 0x80)) bs
unfolding read_utf8
read_next x v bs = let e = tail_ok x in rw (read_utf8, e) refl

accepted :
    (n c : ℕ) (rest : Option (List ℕ))
    → ltb c (least n) ≡ false
    → surrogate c ≡ false
    → accept n c rest ≡ with_char c rest
accepted n c rest long plain = rw (long, plain, if◌then◌else◌) refl

read-encode :
    (c : ℕ) (bs : List ℕ)
    → c < 0x10000
    → surrogate c ≡ false
    → read_utf8 0 0 0 (encode c ++ bs) ≡ with_char c (read_utf8 0 0 0 bs)
read-encode c bs h plain = elim (Bool-cases (ltb c 0x80)) [
  | inl one ↦ rw (one, if◌then◌else◌) (read_ascii c 0 bs (ground arith))
  | inr more ↦ elim (Bool-cases (ltb c 0x800)) [
    | inl two ↦
        let e : lead (0xc0 + c / 64) ≡ first 1 (0xc0 + c / 64 - 0xc0) = ground arith in
        let v : (0xc0 + c / 64 - 0xc0) * 64 + (0x80 + c % 64 - 0x80) ≡ c = omega arith in
        rw (more, two, if◌then◌else◌)
          (read_first (0xc0 + c / 64) 0 1 (0xc0 + c / 64 - 0xc0) ((0x80 + c % 64) ∷ bs) e
            ∙ read_last 1 c (0xc0 + c / 64 - 0xc0) bs
            ∙ ap (λ d. accept 1 d (read_utf8 0 0 0 bs)) v
            ∙ accepted 1 c (read_utf8 0 0 0 bs) (ground arith) plain)
    | inr three ↦
        let a = 0xe0 + c / 4096 - 0xe0 in
        let b = 0x80 + c / 64 % 64 - 0x80 in
        let e : lead (0xe0 + c / 4096) ≡ first 2 (0xe0 + c / 4096 - 0xe0) = ground arith in
        let v : (a * 64 + b) * 64 + (0x80 + c % 64 - 0x80) ≡ c = omega arith in
        rw (more, three, if◌then◌else◌)
          (read_first (0xe0 + c / 4096) 0 2 a ((0x80 + c / 64 % 64) ∷ (0x80 + c % 64) ∷ bs) e
            ∙ read_next (c / 64) a ((0x80 + c % 64) ∷ bs)
            ∙ read_last 2 c (a * 64 + b) bs
            ∙ ap (λ d. accept 2 d (read_utf8 0 0 0 bs)) v
            ∙ accepted 2 c (read_utf8 0 0 0 bs) (ground arith) plain)
  ]
]

read_nil : read_utf8 0 0 0 [] ≡ some []
unfolding read_utf8
read_nil = refl

-- What write_utf8 writes of 16-bit characters, none of which is a surrogate, reads back as these
-- characters, by a reader of UTF-8 that refuses surrogates and characters in more bytes than they need.
pub read-write_utf8 :
    (cs : List ℕ)
    → ((c : ℕ) → has c cs ≡ true → (c < 0x10000) × (surrogate c ≡ false))
    → read_utf8 0 0 0 (write_utf8 cs) ≡ some cs
unfolding write_utf8
read-write_utf8 [] h = read_nil
read-write_utf8 (c ∷ cs) h =
    read-encode c (write_utf8 cs) (h c (ground arith)).0 (h c (ground arith)).1
    ∙ ap (with_char c) (read-write_utf8 cs (λ d e. h d (ground arith)))
