-- ===== src/Netboot/Prompt/Address.antt =====
-- An address that is typed as four numbers in netboot.c.
use frotznet.Prelude.{
  ℕ, zero, suc, ◌+◌, ◌*◌, ◌-◌, ◌/◌, ◌%◌, ◌<◌, ◌≡◌, refl, sym, ap, ◌∙◌, Bool, true, false, ◌&&◌,
  List, [], ◌∷◌, ◌++◌, append-nil, append_assoc, arith, ◌==◌, ltb, leb, Bool-cases, inl, inr,
}
use frotznet.Libc.Snprintf.{decimal}
use frotznet.Libc.Snprintf.Numbers.{read_decimal, decimal_value}
use frotznet.Netboot.Prompt.{skip, rhs, read_ip, option, parse}

-- The digits of a number.
abbrev pub digits : List ℕ → Bool
digits [] = true
digits (c ∷ cs) = (leb b'0' c && leb c b'9') && digits cs

decimal-digits : (n u : ℕ) (ds : List ℕ) → digits ds ≡ true → digits (decimal n u ds) ≡ true
unfolding decimal
decimal-digits zero u ds h = h
decimal-digits (suc n) u ds h =
    let first : digits ((48 + u % 10) ∷ ds) ≡ true = ground arith in
    elim (Bool-cases (u / 10 == 0)) [
      | inl done ↦ rw done first
      | inr more ↦ rw more (decimal-digits n (u / 10) ((48 + u % 10) ∷ ds) first)
    ]

-- Digits are read up to the end or to a period.
read_ip-digits :
    (cs rest : List ℕ) (v b : ℕ) (bs : List ℕ)
    → digits cs ≡ true
    → read_ip (cs ++ rest) (v % 256) (b ∷ bs) ≡ read_ip rest (read_decimal v cs % 256) (b ∷ bs)
unfolding read_ip
read_ip-digits [] rest v b bs h = refl
read_ip-digits (c ∷ cs) rest v b bs h =
    let plain : (c == b'.') ≡ false = ground arith in
    let value : (v % 256 * 10 + c + 208) % 256 ≡ (v * 10 + (c - 48)) % 256 = ground arith in
    rw (plain, value) (read_ip-digits cs rest (v * 10 + (c - 48)) b bs (ground arith))

read_ip-number :
    (a : ℕ) (rest : List ℕ) (b : ℕ) (bs : List ℕ)
    → a < 256
    → read_ip (decimal 10 a [] ++ rest) 0 (b ∷ bs) ≡ read_ip rest a (b ∷ bs)
read_ip-number a rest b bs lt =
    let value : read_decimal 0 (decimal 10 a []) % 256 ≡ a =
      ap (λ n. n % 256) (decimal_value 10 a [] (omega arith)) ∙ omega arith in
    read_ip-digits (decimal 10 a []) rest 0 b bs (decimal-digits 10 a [] refl)
    ∙ ap (λ v. read_ip rest v (b ∷ bs)) value

read_ip-period :
    (rest : List ℕ) (v b : ℕ) (bs : List ℕ)
    → read_ip (b'.' ∷ rest) v (b ∷ bs) ≡ v ∷ read_ip rest 0 bs
unfolding read_ip
read_ip-period rest v b bs = refl

read_ip-last : (d b : ℕ) → d < 256 → read_ip (decimal 10 d []) 0 (b ∷ []) ≡ d ∷ []
unfolding read_ip
read_ip-last d b lt =
    ap (λ cs. read_ip cs 0 (b ∷ [])) (sym (append-nil (decimal 10 d [])))
    ∙ read_ip-number d [] b [] lt

-- A number, a period, and the rest.
abbrev pub part : ℕ → List ℕ → List ℕ
part a rest = decimal 10 a [] ++ (b'.' ∷ rest)

read_ip-part :
    (a : ℕ) (rest : List ℕ) (b : ℕ) (bs : List ℕ)
    → a < 256
    → read_ip (part a rest) 0 (b ∷ bs) ≡ a ∷ read_ip rest 0 bs
read_ip-part a rest b bs lt = read_ip-number a (b'.' ∷ rest) b bs lt ∙ read_ip-period rest a b bs

abbrev pub dotted : ℕ → ℕ → ℕ → ℕ → List ℕ
dotted a b c d = part a (part b (part c (decimal 10 d [])))

-- Characters above the space.
abbrev pub visible : List ℕ → Bool
visible [] = true
visible (c ∷ cs) = ltb b' ' c && visible cs

visible-append :
    (xs ys : List ℕ) → visible xs ≡ true → visible ys ≡ true → visible (xs ++ ys) ≡ true
visible-append [] ys h k = k
visible-append (x ∷ xs) ys h k = let ih = visible-append xs ys (ground arith) k in ground arith

digits-visible : (cs : List ℕ) → digits cs ≡ true → visible cs ≡ true
digits-visible [] h = refl
digits-visible (c ∷ cs) h = let ih = digits-visible cs (ground arith) in ground arith

number-visible : (a : ℕ) → visible (decimal 10 a []) ≡ true
number-visible a = digits-visible (decimal 10 a []) (decimal-digits 10 a [] refl)

part-visible : (a : ℕ) (rest : List ℕ) → visible rest ≡ true → visible (part a rest) ≡ true
part-visible a rest h =
    visible-append (decimal 10 a []) (b'.' ∷ rest) (number-visible a) (ground arith)

-- A value that goes on to the end is what the option gets.
parse-value :
    (cs name value ip : List ℕ)
    → visible cs ≡ true
    → parse cs (rhs name value) ip ≡ option name (value ++ cs) ip
unfolding parse
parse-value [] name value ip h = ap (λ v. option name v ip) (sym (append-nil value))
parse-value (c ∷ cs) name value ip h =
    let above : leb c b' ' ≡ false = ground arith in
    rw above (
      parse-value cs name (value ++ (c ∷ [])) ip (ground arith)
      ∙ ap (λ v. option name v ip) (append_assoc value (c ∷ []) cs))

-- The option "ip=" with the decimal digits of four bytes and periods between them, as snprintf prints
-- them, sets the address to these bytes.
pub parse-dotted :
    (a b c d w x y z : ℕ)
    → a < 256
    → b < 256
    → c < 256
    → d < 256
    → parse (b'i' ∷ b'p' ∷ b'=' ∷ dotted a b c d) skip (w ∷ x ∷ y ∷ z ∷ []) ≡ a ∷ b ∷ c ∷ d ∷ []
unfolding parse option
parse-dotted a b c d w x y z p q r s =
    parse-value (dotted a b c d) (b'i' ∷ b'p' ∷ []) [] (w ∷ x ∷ y ∷ z ∷ [])
      (part-visible a _ (part-visible b _ (part-visible c _ (number-visible d))))
    ∙ read_ip-part a _ w _ p
    ∙ ap (λ t. a ∷ t)
        (read_ip-part b _ x _ q
          ∙ ap (λ t. b ∷ t) (read_ip-part c _ y _ r ∙ ap (λ t. c ∷ t) (read_ip-last d z s)))
