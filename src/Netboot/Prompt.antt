-- ===== src/Netboot/Prompt.antt =====
-- netboot.c: the console, from the codes of the keyboard to the options, and the reading of an address. A
-- character is between 0 and 127. An access outside of linebuf or param is `none`; param holds the
-- characters before its NUL.
pub mod Safe
pub mod Address
use frotznet.Prelude.{
  ℕ, zero, suc, ◌+◌, ◌*◌, ◌-◌, ◌%◌, Bool, true, false, ◌&&◌, ◌||◌, Option, none, some, List, [],
  ◌∷◌, ◌++◌, ◌==◌, ltb, leb, if◌then◌else◌, length, get_elem?, update,
}

-- The loops of read_ip, on the bytes that are left of the address. The value is kept as the byte that is
-- stored in the end.
unfoldable pub read_ip : List ℕ → ℕ → List ℕ → List ℕ
read_ip cs v [] = []
read_ip [] v (b ∷ bs) = v ∷ bs
read_ip (c ∷ cs) v (b ∷ bs) =
    let next = v ∷ read_ip cs 0 bs in
    let digit = read_ip cs ((v * 10 + c + 208) % 256) (b ∷ bs) in if c == b'.' then next else digit

abbrev pub is_ip : List ℕ → Bool
is_ip [] = false
is_ip (a ∷ []) = false
is_ip (a ∷ b ∷ []) = (a == b'i') && (b == b'p')
is_ip (a ∷ b ∷ c ∷ cs) = false

-- option; another name is only reported.
unfoldable pub option : List ℕ → List ℕ → List ℕ → List ℕ
unfolding read_ip
option name value ip = if is_ip name then read_ip value 0 ip else ip

-- Where parse stands: before a name, in a name, or in the value of one.
pub data State : Type 0 where
  skip : State
  lhs : List ℕ → State
  rhs : List ℕ → List ℕ → State

abbrev pub in_lhs : ℕ → List ℕ → State
in_lhs c name = if c == b'=' then rhs name [] else lhs (name ++ (c ∷ []))

-- The switch of parse on a character, and the address after it.
abbrev pub next_state : ℕ → State → State
next_state c skip = if ltb b' ' c then in_lhs c [] else skip
next_state c (lhs name) = in_lhs c name
next_state c (rhs name value) = if leb c b' ' then skip else rhs name (value ++ (c ∷ []))

abbrev pub options : ℕ → State → List ℕ → List ℕ
options c skip ip = ip
options c (lhs name) ip = ip
options c (rhs name value) ip = if leb c b' ' then option name value ip else ip

abbrev pub at_end : State → List ℕ → List ℕ
at_end skip ip = ip
at_end (lhs name) ip = ip
at_end (rhs name value) ip = option name value ip

-- parse
unfoldable pub parse : List ℕ → State → List ℕ → List ℕ
unfolding option
parse [] state ip = at_end state ip
parse (c ∷ cs) state ip = parse cs (next_state c state) (options c state ip)

-- The console: linebuf, lp, shift, the boot parameters and the address.
pub record Prompt : Type 0 where
  pub linebuf : ℕ → ℕ
  pub lp : ℕ
  pub shift : Bool
  pub param : List ℕ
  pub ip : List ℕ

abbrev pub esc : ℕ
esc = 27

abbrev pub bs : ℕ
bs = 8

abbrev pub tab : ℕ
tab = 9

abbrev pub cr : ℕ
cr = 13

abbrev pub put : ℕ → ℕ → Prompt → Option Prompt
put i c p = if ltb i 80 then some (record p { linebuf = update p.linebuf i c }) else none

-- The string from a place of linebuf on, with the number of places that are left.
unfoldable pub string_at : ℕ → (ℕ → ℕ) → ℕ → Option (List ℕ)
string_at zero buf i = none
string_at (suc left) buf i = elim (buf i == 0) [
  | true ↦ some []
  | false ↦ elim (string_at left buf (i + 1)) [ none ↦ none | some cs ↦ some (buf i ∷ cs) ]
]

-- Spaces from column 9 to 78, and the cursor at column 9.
abbrev pub blank : Prompt → Prompt
blank p = record p { linebuf = λ i. if leb 9 i && ltb i 79 then b' ' else p.linebuf i; lp = 9 }

-- "netboot> "
abbrev pub heading : List ℕ
heading = b'n' ∷ b'e' ∷ b't' ∷ b'b' ∷ b'o' ∷ b'o' ∷ b't' ∷ b'>' ∷ b' ' ∷ []

abbrev pub or_zero : Option ℕ → ℕ
or_zero none = 0
or_zero (some c) = c

-- con_puts of linebuf, which is read up to its NUL.
abbrev pub show_line : Prompt → Option Prompt
show_line p = elim (string_at 80 p.linebuf 0) [ none ↦ none | some cs ↦ some p ]

-- The empty line of newline.
abbrev pub cleared : Prompt → Prompt
cleared p =
    let q = blank (record p {
      linebuf = λ i. if ltb i 9 then or_zero (get_elem? heading i) else p.linebuf i;
    }) in
    record q { linebuf = update q.linebuf 79 0 }

-- newline
abbrev pub newline : Prompt → Option Prompt
newline p = show_line (cleared p)

-- What a command asks for.
pub data Asked : Type 0 where
  go : Asked
  boots : List ℕ → Asked
  sets : List ℕ → Asked

abbrev pub boot_asked : List ℕ → List ℕ → Asked
boot_asked cmd [] = sets cmd
boot_asked cmd (f ∷ value) = if f == b'=' then boots value else sets cmd

abbrev pub asked : List ℕ → Asked
asked [] = sets []
asked (a ∷ []) = sets (a ∷ [])
asked (a ∷ b ∷ []) = if (a == b'g') && (b == b'o') then go else sets (a ∷ b ∷ [])
asked (a ∷ b ∷ c ∷ []) = sets (a ∷ b ∷ c ∷ [])
asked (a ∷ b ∷ c ∷ d ∷ rest) =
    if ((a == b'b') && (b == b'o')) && ((c == b'o') && (d == b't'))
    then boot_asked (a ∷ b ∷ c ∷ d ∷ rest) rest
    else sets (a ∷ b ∷ c ∷ d ∷ rest)

-- What a key comes to: the console goes on, or it is left.
pub data Pressed : Type 0 where
  stays : Prompt → Pressed
  leaves : Prompt → Pressed

abbrev pub stay : Option Prompt → Option Pressed
stay none = none
stay (some p) = some (stays p)

-- command, and what follows it in keypress; param has room for 79 characters and the NUL.
abbrev pub command : Asked → Prompt → Option Pressed
command go p = some (leaves p)
command (boots value) p =
    if ltb (length value) 80 then stay (newline (record p { param = value })) else none
command (sets cmd) p = stay (newline (record p { ip = parse cmd skip p.ip }))

abbrev pub run_line : Option (List ℕ) → Prompt → Option Pressed
run_line none p = none
run_line (some cmd) p = command (asked cmd) p

abbrev pub enter : Option Prompt → Option Pressed
enter none = none
enter (some p) = run_line (string_at 71 p.linebuf 9) p

abbrev pub shown : Option Prompt → Option Pressed
shown none = none
shown (some p) = stay (show_line p)

abbrev pub moved : ℕ → Option Prompt → Option Prompt
moved lp none = none
moved lp (some p) = some (record p { lp = lp })

abbrev pub shown_again : Option Pressed → Option Pressed
shown_again none = none
shown_again (some (leaves p)) = some (leaves p)
shown_again (some (stays p)) = stay (show_line p)

-- keypress
unfoldable pub keypress : ℕ → Prompt → Option Pressed
unfolding parse string_at
keypress key p =
    if key == esc
    then shown (some (blank p))
    else if key == cr
    then shown_again (enter (put p.lp 0 p))
    else if key == bs
    then shown (if ltb 9 p.lp then moved (p.lp - 1) (put (p.lp - 1) b' ' p) else some p)
    else shown (if ltb p.lp 79 then moved (p.lp + 1) (put p.lp key p) else some p)

-- ScanTable and ShiftTable
abbrev pub scan_table : List ℕ
scan_table =
    b' ' ∷ esc ∷ b'1' ∷ b'2' ∷ b'3' ∷ b'4' ∷ b'5' ∷ b'6' ∷ b'7' ∷ b'8' ∷ b'9' ∷ b'0' ∷ b'-' ∷ b'='
    ∷ bs ∷ tab ∷ b'q' ∷ b'w' ∷ b'e' ∷ b'r' ∷ b't' ∷ b'y' ∷ b'u' ∷ b'i' ∷ b'o' ∷ b'p' ∷ b'[' ∷ b']'
    ∷ cr ∷ b' ' ∷ b'a' ∷ b's' ∷ b'd' ∷ b'f' ∷ b'g' ∷ b'h' ∷ b'j' ∷ b'k' ∷ b'l' ∷ b';' ∷ 39 ∷ b'~'
    ∷ b' ' ∷ 92 ∷ b'z' ∷ b'x' ∷ b'c' ∷ b'v' ∷ b'b' ∷ b'n' ∷ b'm' ∷ b',' ∷ b'.' ∷ b'/' ∷ b' ' ∷ b' '
    ∷ b' ' ∷ b' ' ∷ b' ' ∷ []

abbrev pub shift_table : List ℕ
shift_table =
    b' ' ∷ esc ∷ b'!' ∷ b'@' ∷ b'#' ∷ b'$' ∷ b'%' ∷ b'^' ∷ b'&' ∷ b'*' ∷ b'(' ∷ b')' ∷ b'_' ∷ b'+'
    ∷ b' ' ∷ b' ' ∷ b'Q' ∷ b'W' ∷ b'E' ∷ b'R' ∷ b'T' ∷ b'Y' ∷ b'U' ∷ b'I' ∷ b'O' ∷ b'P' ∷ b'{'
    ∷ b'}' ∷ cr ∷ b' ' ∷ b'A' ∷ b'S' ∷ b'D' ∷ b'F' ∷ b'G' ∷ b'H' ∷ b'J' ∷ b'K' ∷ b'L' ∷ b':' ∷ 34
    ∷ b'~' ∷ b' ' ∷ b'|' ∷ b'Z' ∷ b'X' ∷ b'C' ∷ b'V' ∷ b'B' ∷ b'N' ∷ b'M' ∷ b'<' ∷ b'>' ∷ b'?'
    ∷ b' ' ∷ b' ' ∷ b' ' ∷ b' ' ∷ b' ' ∷ []

abbrev pub press : Option ℕ → Prompt → Option Pressed
press none p = none
press (some key) p = keypress key p

-- The switch of console on a code of the keyboard.
unfoldable pub scan : ℕ → Prompt → Option Pressed
unfolding keypress
scan code p =
    if (code == 42) || (code == 54)
    then some (stays (record p { shift = true }))
    else if (code == 170) || (code == 182)
    then some (stays (record p { shift = false }))
    else if leb 128 code || leb 59 code
    then some (stays p)
    else press (get_elem? (if p.shift then shift_table else scan_table) code) p

abbrev pub then_run : (Prompt → Option Prompt) → Option Pressed → Option Prompt
then_run rest none = none
then_run rest (some (leaves p)) = some p
then_run rest (some (stays p)) = rest p

-- The loop of console over the codes that come.
unfoldable pub run_codes : List ℕ → Prompt → Option Prompt
unfolding scan
run_codes [] p = some p
run_codes (code ∷ codes) p = then_run (run_codes codes) (scan code p)

-- console
unfoldable pub console : List ℕ → Prompt → Option Prompt
unfolding run_codes
console codes p = then_run (run_codes codes) (stay (newline (record p { shift = false })))
