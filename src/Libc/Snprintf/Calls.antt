-- ===== src/Libc/Snprintf/Calls.antt =====
-- Calls of va_snprintf in snprintf.c whose arguments are of the kinds that the format asks for.
use frotznet.Prelude.{
  ℕ, ◌-◌, ◌≤◌, ◌<◌, ◌≡◌, ◌⊎◌, refl, sym, ap, ◌∙◌, subst, Bool, true, false, Option, none, some,
  List, [], ◌∷◌, ◌++◌, arith, ◌==◌, ltb, if◌then◌else◌, Bool-cases, Option-cases, inl, inr, length,
}
use frotznet.Libc.Snprintf.{
  Arg, word, wide, text, full, no_mods, put_hex, Printer, Directive, string, character,
  short_hexadecimal, hexadecimal, decimal_int, decimal_unsigned, padded, byte, other, next_word,
  next_text, directive, directive_of, print, written, snprintf,
}
use frotznet.Libc.Snprintf.Room.{Short, print-Short, if_false}

-- The arguments that a directive leaves; `none` if the next one is of the wrong kind.
abbrev pub word_left : List Arg → Option (List Arg)
word_left (word u ∷ args) = some args
word_left _ = none

abbrev pub text_left : List Arg → Option (List Arg)
text_left (text s ∷ args) = some args
text_left _ = none

abbrev pub args_left : Directive → List Arg → Option (List Arg)
args_left string args = text_left args
args_left other args = some args
args_left _ args = word_left args

-- The arguments are of the kinds that the format asks for, and no modifier is used.
abbrev pub suits : Bool → List ℕ → List Arg → Bool
suits false [] args = true
suits false (c ∷ cs) args = elim (c == b'%') [
  | true ↦ suits true cs args
  | false ↦ suits false cs args
]
suits true [] args = false
suits true (c ∷ cs) args = elim (c == b'l') [
  | true ↦ false
  | false ↦ elim (args_left (directive_of c) args) [
    | none ↦ false
    | some left ↦ suits false cs left
  ]
]

-- A directive has taken its argument, or has found no room.
abbrev Taken : List Arg → Option Printer → Type 0
Taken left none = ⊥
Taken left (some p) = (p.mod_ll ≡ false) × ((p.args ≡ left) ⊎ (p.room ≡ 0))

word_taken :
    (args left : List Arg)
    → word_left args ≡ some left
    → (u : ℕ) × (next_word args ≡ some (u, left))
word_taken [] left h = absurd cc
word_taken (word u ∷ args) left h = (u, cc)
word_taken (wide u ∷ args) left h = absurd cc
word_taken (text s ∷ args) left h = absurd cc

text_taken :
    (args left : List Arg)
    → text_left args ≡ some left
    → (s : List ℕ) × (next_text args ≡ some (s, left))
text_taken [] left h = absurd cc
text_taken (word u ∷ args) left h = absurd cc
text_taken (wide u ∷ args) left h = absurd cc
text_taken (text s ∷ args) left h = (s, cc)

digits-Taken :
    (left : List Arg) (n : ℕ) (o : Option Printer) (p : Printer)
    → p.mod_ll ≡ false
    → Taken left o
    → Taken left (if ltb p.room n then some (full p) else o)
digits-Taken left n o p m h = elim (Bool-cases (ltb p.room n)) [
  | inl short ↦ rw (short, if◌then◌else◌) (m, inr refl)
  | inr enough ↦ rw (enough, if◌then◌else◌) h
]

directive-Taken :
    (d : Directive) (c : ℕ) (p : Printer) (left : List Arg)
    → p.mod_ll ≡ false
    → args_left d p.args ≡ some left
    → Taken left (directive d c p)
unfolding directive
directive-Taken string c p left m h =
    let t = text_taken p.args left h in rw (Taken, t.1) (m, inl refl)
directive-Taken character c p left m h =
    let t = word_taken p.args left h in rw (Taken, t.1) (m, inl refl)
directive-Taken short_hexadecimal c p left m h =
    let t = word_taken p.args left h in
    digits-Taken left 4 (put_hex 4 (next_word p.args) p) p m (rw (Taken, t.1) (m, inl refl))
directive-Taken hexadecimal c p left m h =
    let t = word_taken p.args left h in
    subst (Taken left) (sym (if_false _ m)) (
      digits-Taken left 8 (no_mods (put_hex 8 (next_word p.args) p)) p m
        (rw (Taken, t.1) (refl, inl refl)))
directive-Taken decimal_int c p left m h =
    let t = word_taken p.args left h in rw (Taken, t.1) (m, inl refl)
directive-Taken decimal_unsigned c p left m h =
    let t = word_taken p.args left h in rw (Taken, t.1) (m, inl refl)
directive-Taken padded c p left m h =
    let t = word_taken p.args left h in rw (Taken, t.1) (m, inl refl)
directive-Taken byte c p left m h =
    let t = word_taken p.args left h in
    elim (Bool-cases (ltb p.room 2)) [
      | inl short ↦ rw (Taken, short, if◌then◌else◌) (m, inr refl)
      | inr enough ↦ rw (Taken, enough, if◌then◌else◌, t.1) (m, inl refl)
    ]
directive-Taken other c p left m h = (m, inl cc)

abbrev IsSome : Option (List ℕ) → Type 0
IsSome none = ⊥
IsSome (some out) = Unit

-- Without room nothing more is read.
print-full : (fmt : List ℕ) (p : Printer) → p.room ≡ 0 → IsSome (print false fmt p)
unfolding print
print-full [] p h = tt
print-full (c ∷ cs) p h = let e : (p.room == 0) ≡ true = ground arith in rw (IsSome, e) tt

suits_percent :
    (c : ℕ) (cs : List ℕ) (args : List Arg)
    → (c == b'%') ≡ true
    → suits false (c ∷ cs) args ≡ suits true cs args
suits_percent c cs args e = rw (suits, e) refl

suits_plain :
    (c : ℕ) (cs : List ℕ) (args : List Arg)
    → (c == b'%') ≡ false
    → suits false (c ∷ cs) args ≡ suits false cs args
suits_plain c cs args e = rw (suits, e) refl

suits_long :
    (c : ℕ) (cs : List ℕ) (args : List Arg) → (c == b'l') ≡ true → suits true (c ∷ cs) args ≡ false
suits_long c cs args e = rw (suits, e) refl

suits_directive :
    (c : ℕ) (cs : List ℕ) (args : List Arg)
    → (c == b'l') ≡ false
    → suits true (c ∷ cs) args ≡ true
    → (left : List Arg) × (args_left (directive_of c) args ≡ some left)
      × (suits false cs left ≡ true)
suits_directive c cs args e h = elim (Option-cases (args_left (directive_of c) args)) [
  | inl bad ↦ let g : suits true (c ∷ cs) args ≡ false = rw (suits, e, bad) refl in absurd cc
  | inr (left, good) ↦
      let g : suits true (c ∷ cs) args ≡ suits false cs left = rw (suits, e, good) refl in
      (left, good, cc)
]

print-IsSome :
    (after : Bool) (fmt : List ℕ) (p : Printer)
    → p.mod_ll ≡ false
    → suits after fmt p.args ≡ true
    → IsSome (print after fmt p)
unfolding print
print-IsSome false [] p m h = tt
print-IsSome false (c ∷ cs) p m h = elim (Bool-cases (p.room == 0)) [
  | inl e ↦ rw (IsSome, e) tt
  | inr e ↦ elim (Bool-cases (c == b'%')) [
    | inl percent ↦ elim (Bool-cases (p.room == 1)) [
      | inl one ↦ rw (IsSome, e, percent, one) tt
      | inr more ↦
          rw (IsSome, e, percent, more)
            (print-IsSome true cs (record p { room = p.room - 1 }) m
              (let g = suits_percent c cs p.args percent in cc))
    ]
    | inr plain ↦
        rw (IsSome, e, plain)
          (print-IsSome false cs (record p { out = p.out ++ (c ∷ []); room = p.room - 1 }) m
            (let g = suits_plain c cs p.args plain in cc))
  ]
]
print-IsSome true [] p m h = absurd cc
print-IsSome true (c ∷ cs) p m h = elim (Bool-cases (c == b'l')) [
  | inl e ↦ absurd (let g = suits_long c cs p.args e in cc)
  | inr e ↦
      let g = suits_directive c cs p.args e h in
      let t = directive-Taken (directive_of c) c p g.0 m g.1 in
      elim (Option-cases (directive (directive_of c) c p)) [
        | inl bad ↦ absurd (subst (Taken g.0) bad t)
        | inr (p', d) ↦
            let t' = subst (Taken g.0) d t in
            rw (IsSome, e, d)
              (elim t'.1 [
                | inl left ↦ print-IsSome false cs p' t'.0 (ap (suits false cs) left ∙ g.2)
                | inr none_left ↦ print-full cs p' none_left
              ])
      ]
]

-- va_snprintf with a buffer of some size, a format that has no modifier l and does not end in a percent
-- sign that opens a directive, and arguments of the kinds that
-- the format asks for writes no more characters than the buffer has, and then a NUL.
pub snprintf-Short :
    (len : ℕ) (fmt : List ℕ) (args : List Arg)
    → 0 < len
    → suits false fmt args ≡ true
    → (out : List ℕ) × (snprintf len fmt args ≡ written out) × (length out ≤ len)
unfolding snprintf
snprintf-Short len fmt args pos h =
    let p : Printer = record { out = []; room = len; args = args; mod_l = false; mod_ll = false } in
    let some_room : (len == 0) ≡ false = ground arith in
    elim (Option-cases (print false fmt p)) [
      | inl e ↦ absurd (subst IsSome e (print-IsSome false fmt p refl h))
      | inr (out, e) ↦ (
        out,
        rw (some_room, if◌then◌else◌, e) refl,
        subst (Short len) e (print-Short len false fmt p (omega arith)),
      )
    ]
