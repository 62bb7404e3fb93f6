-- ===== src/Libc/Snprintf.antt =====
-- snprintf.c: va_snprintf. A string is the list of its characters before the NUL, and the output is the
-- list of the characters that are written, after which comes the NUL.
pub mod Numbers
pub mod Room
pub mod Calls
mod Tests
use frotznet.Prelude.{
  ℕ, zero, suc, ◌+◌, ◌-◌, ◌*◌, ◌/◌, ◌%◌, Bool, true, false, Option, none, some, List, [], ◌∷◌, ◌++◌,
  ◌==◌, ltb, if◌then◌else◌, ◌||◌, take, length, min,
}

-- An argument: an int or unsigned int of 32 bits, a long long of 64 bits, or a string.
pub data Arg : Type 0 where
  word : ℕ → Arg
  wide : ℕ → Arg
  text : List ℕ → Arg

-- The locals of va_snprintf: the characters written, what is left of `l`, the arguments that are to
-- come, mod_l and mod_ll.
pub record Printer : Type 0 where
  pub out : List ℕ
  pub room : ℕ
  pub args : List Arg
  pub mod_l : Bool
  pub mod_ll : Bool

-- va_arg of an int or an unsigned int; `none` where another kind of argument, or none, was passed.
abbrev pub next_word : List Arg → Option (ℕ × List Arg)
next_word (word u ∷ args) = some (u, args)
next_word _ = none

abbrev pub next_wide : List Arg → Option (ℕ × List Arg)
next_wide (wide u ∷ args) = some (u, args)
next_wide _ = none

abbrev pub next_text : List Arg → Option (List ℕ × List Arg)
next_text (text s ∷ args) = some (s, args)
next_text _ = none

-- hexmap
abbrev pub hexmap : ℕ → ℕ
hexmap d = if ltb d 10 then 48 + d else 87 + d

-- The last `n` hexadecimal digits.
unfoldable pub hex : ℕ → ℕ → List ℕ → List ℕ
hex zero u ds = ds
hex (suc n) u ds = hex n (u / 16) (hexmap (u % 16) ∷ ds)

-- The decimal digits, at most `n`.
unfoldable pub decimal : ℕ → ℕ → List ℕ → List ℕ
decimal zero u ds = ds
decimal (suc n) u ds =
    let ds = (48 + u % 10) ∷ ds in
    let rest = decimal n (u / 10) ds in if u / 10 == 0 then ds else rest

-- Characters are written while there is room.
abbrev pub emit : List ℕ → Printer → Printer
emit cs p = record p { out = p.out ++ take p.room cs; room = p.room - min p.room (length cs) }

-- %x and its kin: all the digits, or no room from here on.
abbrev pub emit_all : List ℕ → Printer → Printer
emit_all ds p = record p { out = p.out ++ ds; room = p.room - length ds }

abbrev pub full : Printer → Printer
full p = record p { room = 0 }

-- The digits of a %S or a %x.
abbrev pub put_hex : ℕ → Option (ℕ × List Arg) → Printer → Option Printer
put_hex n none p = none
put_hex n (some (u, args)) p = some (emit_all (hex n u []) (record p { args = args }))

abbrev pub no_mods : Option Printer → Option Printer
no_mods none = none
no_mods (some p) = some (record p { mod_l = false; mod_ll = false })

abbrev pub short_hex : Printer → Option Printer
short_hex p = if ltb p.room 4 then some (full p) else put_hex 4 (next_word p.args) p

abbrev pub long_hex : Printer → Option Printer
long_hex p =
    if p.mod_ll
    then if ltb p.room 16 then some (full p) else no_mods (put_hex 16 (next_wide p.args) p)
    else if ltb p.room 8
    then some (full p)
    else no_mods (put_hex 8 (next_word p.args) p)

abbrev pub byte_hex : Printer → Option Printer
byte_hex p = if ltb p.room 2 then some (full p) else elim (next_word p.args) [
  | none ↦ none
  | some (n, args) ↦
      some (emit_all (hexmap (n % 256 / 16) ∷ hexmap (n % 16) ∷ []) (record p { args = args }))
]

abbrev pub put_text : Option (List ℕ × List Arg) → Printer → Option Printer
put_text none p = none
put_text (some (s, args)) p = some (emit s (record p { args = args }))

abbrev pub put_char : Option (ℕ × List Arg) → Printer → Option Printer
put_char none p = none
put_char (some (c, args)) p = some (emit (c % 256 ∷ []) (record p { args = args }))

abbrev pub put_unsigned : Option (ℕ × List Arg) → Printer → Option Printer
put_unsigned none p = none
put_unsigned (some (u, args)) p = some (emit (decimal 10 u []) (record p { args = args }))

-- %d: a negative number is printed as a minus and the digits of its opposite.
abbrev pub signed : ℕ → List ℕ
signed n = if ltb n 0x80000000 then decimal 10 n [] else 45 ∷ decimal 10 (0x100000000 - n) []

abbrev pub put_signed : Option (ℕ × List Arg) → Printer → Option Printer
put_signed none p = none
put_signed (some (n, args)) p = some (emit (signed n) (record p { args = args }))

-- %U: the last four digits, with spaces before them.
abbrev pub last_four : List ℕ → List ℕ
last_four (a ∷ b ∷ c ∷ d ∷ e ∷ ds) = last_four (b ∷ c ∷ d ∷ e ∷ ds)
last_four ds = ds

abbrev pub put_padded : Option (ℕ × List Arg) → Printer → Option Printer
put_padded none p = none
put_padded (some (u, args)) p =
    some (emit (last_four (32 ∷ 32 ∷ 32 ∷ decimal 10 u [])) (record p { args = args }))

-- What a character after a % asks for, apart from the modifier.
pub data Directive : Type 0 where
  string character short_hexadecimal hexadecimal decimal_int decimal_unsigned padded byte other :
      Directive

abbrev pub directive_of : ℕ → Directive
directive_of c =
    if c == b's'
    then string
    else if c == b'c'
    then character
    else if c == b'S'
    then short_hexadecimal
    else if (c == b'x') || (c == b'p')
    then hexadecimal
    else if c == b'd'
    then decimal_int
    else if c == b'u'
    then decimal_unsigned
    else if c == b'U'
    then padded
    else if c == b'X'
    then byte
    else other

-- The switch of va_snprintf. An unknown character is printed, in the room of the %.
unfoldable pub directive : Directive → ℕ → Printer → Option Printer
unfolding hex decimal
directive string c p = put_text (next_text p.args) p
directive character c p = put_char (next_word p.args) p
directive short_hexadecimal c p = short_hex p
directive hexadecimal c p = long_hex p
directive decimal_int c p = put_signed (next_word p.args) p
directive decimal_unsigned c p = put_unsigned (next_word p.args) p
directive padded c p = put_padded (next_word p.args) p
directive byte c p = byte_hex p
directive other c p = some (record p { out = p.out ++ (c ∷ []) })

-- The modifier l.
abbrev pub lengthen : Printer → Printer
lengthen p =
    if p.mod_l
    then if p.mod_ll then p else record p { mod_l = false; mod_ll = true }
    else record p { mod_l = true }

-- The loop over the format, between directives and after a %; `none` where it reads past the NUL of the
-- format, or an argument of the wrong kind.
unfoldable pub print : Bool → List ℕ → Printer → Option (List ℕ)
unfolding directive
print false [] p = some p.out
print false (c ∷ cs) p = elim (p.room == 0) [
  | true ↦ some p.out
  | false ↦ elim (c == b'%') [
    | true ↦ elim (p.room == 1) [
      | true ↦ some p.out
      | false ↦ print true cs (record p { room = p.room - 1 })
    ]
    | false ↦ print false cs (record p { out = p.out ++ (c ∷ []); room = p.room - 1 })
  ]
]
print true [] p = none
print true (c ∷ cs) p = elim (c == b'l') [
  | true ↦ print true cs (lengthen p)
  | false ↦ elim (directive (directive_of c) c p) [ none ↦ none | some p' ↦ print false cs p' ]
]

-- va_snprintf with a buffer and a format that are not NULL: it leaves the buffer alone, writes the
-- characters and a NUL after them, or goes wrong.
pub data Printed : Type 0 where
  untouched : Printed
  written : List ℕ → Printed
  wild : Printed

abbrev pub printed : Option (List ℕ) → Printed
printed none = wild
printed (some cs) = written cs

unfoldable pub snprintf : ℕ → List ℕ → List Arg → Printed
unfolding print
snprintf len fmt args =
    if len == 0
    then untouched
    else printed (
        print false fmt
          (record { out = []; room = len; args = args; mod_l = false; mod_ll = false }))
