-- ===== src/Libc/Snprintf/Room.antt =====
-- What snprintf.c writes, against the size of the buffer and the text between directives.
use frotznet.Prelude.{
  ℕ, zero, suc, ◌+◌, ◌-◌, ◌/◌, ◌%◌, ◌≤◌, ◌≡◌, refl, sym, subst, Option, Bool, true, false, none,
  some, List, [], ◌∷◌, ◌++◌, arith, ◌==◌, ltb, if◌then◌else◌, Bool-cases, Option-cases, inl, inr,
  length, take, length-append, length-take,
}
use frotznet.Libc.Snprintf.{
  Printer, Directive, string, character, short_hexadecimal, hexadecimal, decimal_int,
  decimal_unsigned, padded, byte, other, hexmap, hex, put_text, put_char, put_unsigned, put_signed,
  put_padded, last_four, decimal, signed, long_hex, byte_hex, no_mods, full, Arg, emit, emit_all,
  put_hex, next_word, next_wide, next_text, directive, directive_of, print, lengthen,
}

-- The room that is left counts the rest of the buffer.
abbrev Within : ℕ → Printer → Type 0
Within len p = length p.out + p.room ≤ len

length-hex : (n u : ℕ) (ds : List ℕ) → length (hex n u ds) ≡ n + length ds
unfolding hex
length-hex zero u ds = omega arith
length-hex (suc n) u ds = omega (arith, length-hex n (u / 16) (hexmap (u % 16) ∷ ds))

emit-Within : (len : ℕ) (cs : List ℕ) (p : Printer) → Within len p → Within len (emit cs p)
emit-Within len cs p w =
    omega (arith, w, length-append p.out (take p.room cs), length-take p.room cs)

emit_all-Within :
    (len : ℕ) (ds : List ℕ) (p : Printer)
    → length ds ≤ p.room
    → Within len p
    → Within len (emit_all ds p)
emit_all-Within len ds p h w = omega (arith, w, h, length-append p.out ds)

if_true {ℓ} : {A : Type ℓ} {b : Bool} {x : A} (y : A) → b ≡ true → (if b then x else y) ≡ x
if_true y e = rw (e, if◌then◌else◌) refl

pub if_false {ℓ} : {A : Type ℓ} {b : Bool} (x : A) {y : A} → b ≡ false → (if b then x else y) ≡ y
if_false x e = rw (e, if◌then◌else◌) refl

abbrev Fits : ℕ → Option Printer → Type 0
Fits len none = Unit
Fits len (some p) = Within len p

put_hex-Fits :
    (len n : ℕ) (o : Option (ℕ × List Arg)) (p : Printer)
    → n ≤ p.room
    → Within len p
    → Fits len (put_hex n o p)
put_hex-Fits len n none p h w = tt
put_hex-Fits len n (some (u, args)) p h w =
    emit_all-Within len (hex n u []) (record p { args = args })
      (omega (arith, h, length-hex n u [])) w

no_mods-Fits : (len : ℕ) (o : Option Printer) → Fits len o → Fits len (no_mods o)
no_mods-Fits len none h = tt
no_mods-Fits len (some p) h = h

full-Within : (len : ℕ) (p : Printer) → Within len p → Within len (full p)
full-Within len p w = omega (arith, w)

put_text-Fits :
    (len : ℕ) (o : Option (List ℕ × List Arg)) (p : Printer)
    → Within len p
    → Fits len (put_text o p)
put_text-Fits len none p w = tt
put_text-Fits len (some (s, args)) p w = emit-Within len s (record p { args = args }) w

put_char-Fits :
    (len : ℕ) (o : Option (ℕ × List Arg)) (p : Printer) → Within len p → Fits len (put_char o p)
put_char-Fits len none p w = tt
put_char-Fits len (some (c, args)) p w = emit-Within len (c % 256 ∷ []) (record p { args = args }) w

put_unsigned-Fits :
    (len : ℕ) (o : Option (ℕ × List Arg)) (p : Printer) → Within len p → Fits len (put_unsigned o p)
put_unsigned-Fits len none p w = tt
put_unsigned-Fits len (some (u, args)) p w =
    emit-Within len (decimal 10 u []) (record p { args = args }) w

put_signed-Fits :
    (len : ℕ) (o : Option (ℕ × List Arg)) (p : Printer) → Within len p → Fits len (put_signed o p)
put_signed-Fits len none p w = tt
put_signed-Fits len (some (u, args)) p w = emit-Within len (signed u) (record p { args = args }) w

put_padded-Fits :
    (len : ℕ) (o : Option (ℕ × List Arg)) (p : Printer) → Within len p → Fits len (put_padded o p)
put_padded-Fits len none p w = tt
put_padded-Fits len (some (u, args)) p w =
    emit-Within len (last_four (32 ∷ 32 ∷ 32 ∷ decimal 10 u [])) (record p { args = args }) w

-- All the digits are written, or none.
digits-Fits :
    (len n : ℕ) (o : Option Printer) (p : Printer)
    → Within len p
    → (n ≤ p.room → Fits len o)
    → Fits len (if ltb p.room n then some (full p) else o)
digits-Fits len n o p w h = elim (Bool-cases (ltb p.room n)) [
  | inl short ↦ rw (short, if◌then◌else◌) (full-Within len p w)
  | inr enough ↦ rw (enough, if◌then◌else◌) (h (ground arith))
]

long_hex-Fits : (len : ℕ) (p : Printer) → Within len p → Fits len (long_hex p)
long_hex-Fits len p w = elim (Bool-cases p.mod_ll) [
  | inl e ↦ subst (Fits len) (sym (if_true _ e)) (
      digits-Fits len 16 (no_mods (put_hex 16 (next_wide p.args) p)) p w (λ h.
        no_mods-Fits len (put_hex 16 (next_wide p.args) p)
          (put_hex-Fits len 16 (next_wide p.args) p h w)))
  | inr e ↦ subst (Fits len) (sym (if_false _ e)) (
      digits-Fits len 8 (no_mods (put_hex 8 (next_word p.args) p)) p w (λ h.
        no_mods-Fits len (put_hex 8 (next_word p.args) p)
          (put_hex-Fits len 8 (next_word p.args) p h w)))
]

byte_hex-Fits : (len : ℕ) (p : Printer) → Within len p → Fits len (byte_hex p)
byte_hex-Fits len p w = elim (Bool-cases (ltb p.room 2)) [
  | inl short ↦ rw (short, if◌then◌else◌) (full-Within len p w)
  | inr enough ↦ elim (Option-cases (next_word p.args)) [
    | inl e ↦ rw (enough, e, if◌then◌else◌) tt
    | inr ((n, args), e) ↦
        rw (enough, e, if◌then◌else◌)
          (emit_all-Within len (hexmap (n % 256 / 16) ∷ hexmap (n % 16) ∷ [])
            (record p { args = args }) (ground arith) w)
  ]
]

directive-Fits :
    (len : ℕ) (d : Directive) (c : ℕ) (p : Printer)
    → length p.out + p.room + 1 ≤ len
    → Fits len (directive d c p)
unfolding directive
directive-Fits len string c p w = put_text-Fits len (next_text p.args) p (omega arith)
directive-Fits len character c p w = put_char-Fits len (next_word p.args) p (omega arith)
directive-Fits len short_hexadecimal c p w =
    digits-Fits len 4 (put_hex 4 (next_word p.args) p) p (omega arith)
      (λ h. put_hex-Fits len 4 (next_word p.args) p h (omega arith))
directive-Fits len hexadecimal c p w = long_hex-Fits len p (omega arith)
directive-Fits len decimal_int c p w = put_signed-Fits len (next_word p.args) p (omega arith)
directive-Fits len decimal_unsigned c p w = put_unsigned-Fits len (next_word p.args) p (omega arith)
directive-Fits len padded c p w = put_padded-Fits len (next_word p.args) p (omega arith)
directive-Fits len byte c p w = byte_hex-Fits len p (omega arith)
directive-Fits len other c p w = omega (arith, length-append p.out (c ∷ []))

abbrev pub Short : ℕ → Option (List ℕ) → Type 0
Short len none = Unit
Short len (some out) = length out ≤ len

-- After a % one of the characters counted is not written yet.
abbrev Ready : ℕ → Bool → Printer → Type 0
Ready len false p = Within len p
Ready len true p = length p.out + p.room + 1 ≤ len

lengthen-Ready : (len : ℕ) (p : Printer) → Ready len true p → Ready len true (lengthen p)
lengthen-Ready len p w = ground (arith, w)

pub print-Short :
    (len : ℕ) (after : Bool) (fmt : List ℕ) (p : Printer)
    → Ready len after p
    → Short len (print after fmt p)
unfolding print
print-Short len false [] p w = omega arith
print-Short len false (c ∷ cs) p w = elim (Bool-cases (p.room == 0)) [
  | inl e ↦ rw (Short, e) (omega arith)
  | inr e ↦ elim (Bool-cases (c == b'%')) [
    | inl percent ↦ elim (Bool-cases (p.room == 1)) [
      | inl one ↦ rw (Short, e, percent, one) (omega arith)
      | inr more ↦
          rw (Short, e, percent, more)
            (print-Short len true cs (record p { room = p.room - 1 }) (ground arith))
    ]
    | inr plain ↦
        rw (Short, e, plain)
          (print-Short len false cs (record p { out = p.out ++ (c ∷ []); room = p.room - 1 })
            (let l = length-append p.out (c ∷ []) in ground arith))
  ]
]
print-Short len true [] p w = tt
print-Short len true (c ∷ cs) p w = elim (Bool-cases (c == b'l')) [
  | inl e ↦ rw (Short, e) (print-Short len true cs (lengthen p) (lengthen-Ready len p w))
  | inr e ↦ elim (Option-cases (directive (directive_of c) c p)) [
    | inl bad ↦ rw (Short, e, bad) tt
    | inr (p', d) ↦
        rw (Short, e, d)
          (print-Short len false cs p'
            (subst (Fits len) d (directive-Fits len (directive_of c) c p w)))
  ]
]
