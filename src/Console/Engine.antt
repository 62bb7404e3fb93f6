-- ===== src/Console/Engine.antt =====
-- The state machine of srv/console2/vt100.c: next_char_send and the three interpreters of a character.
pub mod Safety
pub mod Commands
pub mod Sequences
use frotznet.Prelude.{
  ℕ, zero, suc, ◌+◌, ◌-◌, ◌*◌, ◌%◌, Bool, true, false, ◌&&◌, ◌||◌, not, Option, none, some, List,
  [], ◌∷◌, ◌++◌, ltb, leb, ◌==◌, if◌then◌else◌, length,
}
use Prim.Native.Nat.{bit_or, bit_and}
use frotznet.Prelude.Int.{ℤ, pos, negsuc, ◌-ℤ◌}
use frotznet.Console.Screen.{
  Mode, std_char, std_ansi, reading_ansi, charset_0, charset_1, Screen, int_max, max_ansi_elements,
  ◌>>=◌, checked, clear_virtscreen, clear_to_eol, position, move_by, delete_chars, scroll_at_cursor,
  scroll, set_scroll_region, change_character,
}

abbrev pub to_mode : Mode → Screen → Screen
to_mode m s = record s { mode = m }

-- The cursor goes down a line, and the region scrolls at its end (ESC D).
unfoldable pub index_down : Screen → Option Screen
unfolding scroll
index_down s =
    if leb s.bottom_scroll (s.ypos + 1)
    then (scroll (record s { ypos = s.ypos + 1 }) >>= λ s'. some (record s' { ypos = s'.ypos - 1 }))
    else some (record s { ypos = s.ypos + 1 })

-- ESC M: up a line; from above the region, or from line 0, the cursor stays and the lines below move.
unfoldable pub index_up : Screen → Option Screen
unfolding scroll_at_cursor
index_up s =
    if ltb s.ypos (s.top_scroll + 1)
    then scroll_at_cursor false s
    else some (record s { ypos = s.ypos - 1 })

-- The characters that std_interpret_ansi knows.
pub data Escape : Type 0 where
  open_0 open_1 open_csi save restore next_line index reverse_index again other : Escape

abbrev pub escape_of : ℕ → Escape
escape_of ch =
    if ch == b'('
    then open_0
    else if ch == b')'
    then open_1
    else if ch == b'['
    then open_csi
    else if ch == b'7'
    then save
    else if ch == b'8'
    then restore
    else if ch == b'E'
    then next_line
    else if ch == b'D'
    then index
    else if ch == b'M'
    then reverse_index
    else if ch == 27
    then again
    else other

abbrev pub done : Option Screen → Option Screen
done o = o >>= λ s. some (to_mode std_char s)

-- std_interpret_ansi
unfoldable pub escape : Escape → Screen → Option Screen
unfolding position index_down index_up
escape open_0 s = some (to_mode charset_0 s)
escape open_1 s = some (to_mode charset_1 s)
escape open_csi s =
    some (record s { number = 0; elements = []; reading_number = false; mode = reading_ansi })
escape save s =
    done (some (record s { old_attrib = s.attrib; old_xpos = s.xpos; old_ypos = s.ypos }))
escape restore s = done (position (record s { attrib = s.old_attrib }) (pos s.ypos) (pos s.xpos))
escape next_line s = done (index_down (record s { xpos = 0 }))
escape index s = done (index_down s)
escape reverse_index s = done (index_up s)
escape again s = some s
escape other s = done (some s)

-- The characters that std_interpret_char knows.
pub data Control : Type 0 where
  esc form_feed return line_feed tab backspace nul : Control
  printable : ℕ → Control

abbrev pub control_of : ℕ → Control
control_of ch =
    if ch == 27
    then esc
    else if ch == 12
    then form_feed
    else if ch == 13
    then return
    else if ch == 10
    then line_feed
    else if ch == 9
    then tab
    else if ch == 8
    then backspace
    else if ch == 0
    then nul
    else printable ch

-- A line feed: the region scrolls only if the cursor was on its last line.
unfoldable pub feed_line : Screen → Option Screen
unfolding scroll
feed_line s =
    let below = record s { ypos = s.ypos + 1 } in
    let stay = λ (s : Screen). some (record s { ypos = s.ypos - 1; xpos = 0 }) in
    if leb s.bottom_scroll (s.ypos + 1)
    then (if s.ypos + 1 == s.bottom_scroll then scroll below >>= stay else stay below)
    else some (record below { xpos = 0 })

-- The cursor after a character, with STRICT_VT100: it stays in the last column.
abbrev pub advance : Screen → Screen
advance s = record s { xpos = if leb s.columns (s.xpos + 1) then s.columns - 1 else s.xpos + 1 }

-- std_interpret_char
unfoldable pub control : Control → Screen → Option Screen
unfolding clear_virtscreen position feed_line change_character
control esc s = some (to_mode std_ansi s)
control form_feed s = clear_virtscreen s 2
control return s = some (record s { xpos = 0 })
control line_feed s = feed_line s
control tab s = position s (pos s.ypos) (pos (s.xpos + (8 - s.xpos % 8)))
control backspace s = some (record s { xpos = if s.xpos == 0 then s.columns - 1 else s.xpos - 1 })
control nul s = some s
control (printable ch) s = change_character s ch >>= λ s'. some (advance s')

-- (cur->ansi_elements > i) ? cur->ansi_element[i] : d
abbrev pub element : ℕ → ℕ → List ℕ → ℕ
element i d [] = d
element zero d (x ∷ xs) = x
element (suc i) d (x ∷ xs) = element i d xs

-- One element of ESC [ ... m
abbrev pub rendition : ℕ → ℕ → ℕ
rendition n attrib =
    if n == 0 || n == 27
    then 0x07
    else if n == 1
    then bit_or attrib 0x08
    else if n == 5
    then bit_or attrib 0x80
    else if n == 7
    then 0x70
    else if n == 21 || n == 22
    then bit_and attrib 0xF7
    else if n == 25
    then bit_and attrib 0x7F
    else if leb 30 n && leb n 37
    then bit_or (bit_and attrib 0xF8) (n - 30)
    else if leb 40 n && leb n 47
    then bit_or (bit_and attrib 0x8F) ((n - 40) * 16)
    else attrib

unfoldable pub renditions : List ℕ → ℕ → ℕ
renditions [] attrib = attrib
renditions (n ∷ ns) attrib = renditions ns (rendition n attrib)

-- while(lines > 0) { scroll_virt_up_at_cursor(cur, up); lines--; }
unfoldable pub scroll_lines : ℕ → Bool → Screen → Option Screen
unfolding scroll_at_cursor
scroll_lines zero up s = some s
scroll_lines (suc lines) up s = scroll_at_cursor up s >>= scroll_lines lines up

-- The final characters that special_reading_ansi knows.
pub data Final : Type 0 where
  more left right up down column line_down line_up row cursor erase_screen insert_lines delete_lines
        delete_characters erase_line save_cursor restore_cursor region attributes unknown :
      Final

abbrev pub final_of : ℕ → Final
final_of ch =
    if ch == b'?' || ch == b';'
    then more
    else if ch == b'D'
    then left
    else if ch == b'a' || ch == b'C'
    then right
    else if ch == b'A'
    then up
    else if ch == b'e' || ch == b'B'
    then down
    else if ch == b'`' || ch == b'G'
    then column
    else if ch == b'E'
    then line_down
    else if ch == b'F'
    then line_up
    else if ch == b'd'
    then row
    else if ch == b'f' || ch == b'H'
    then cursor
    else if ch == b'J'
    then erase_screen
    else if ch == b'L'
    then insert_lines
    else if ch == b'M'
    then delete_lines
    else if ch == b'P'
    then delete_characters
    else if ch == b'K'
    then erase_line
    else if ch == b's'
    then save_cursor
    else if ch == b'u'
    then restore_cursor
    else if ch == b'r'
    then region
    else if ch == b'm'
    then attributes
    else unknown

abbrev pub negated : ℕ → ℤ
negated zero = pos 0
negated (suc n) = negsuc n

-- The commands of special_reading_ansi, before its last line.
unfoldable pub command : Final → Screen → Option Screen
unfolding position move_by clear_virtscreen clear_to_eol delete_chars scroll_lines set_scroll_region
    renditions ◌-ℤ◌
command more s = some s
command left s = move_by s (pos 0) (negated (element 0 1 s.elements))
command right s = move_by s (pos 0) (pos (element 0 1 s.elements))
command up s = move_by s (negated (element 0 1 s.elements)) (pos 0)
command down s = move_by s (pos (element 0 1 s.elements)) (pos 0)
command column s = position s (pos s.ypos) (pos (element 0 1 s.elements - 1))
command line_down s = checked (pos (s.ypos + element 0 1 s.elements)) >>= λ y. position s y (pos 0)
command line_up s = position s (pos s.ypos -ℤ pos (element 0 1 s.elements)) (pos 0)
command row s = position s (pos (element 0 1 s.elements - 1)) (pos s.xpos)
command cursor s = position s (pos (element 0 1 s.elements - 1)) (pos (element 1 1 s.elements - 1))
command erase_screen s = clear_virtscreen s (element 0 0 s.elements)
command insert_lines s = scroll_lines (element 0 1 s.elements) false s
command delete_lines s = scroll_lines (element 0 1 s.elements) true s
command delete_characters s = delete_chars s (element 0 1 s.elements)
command erase_line s = clear_to_eol s (element 0 0 s.elements)
command save_cursor s = some (record s { old_xpos = s.xpos; old_ypos = s.ypos })
command restore_cursor s = position s (pos s.old_ypos) (pos s.old_xpos)
command region s =
    let low = element 0 1 s.elements in
    let high = element 1 s.rows s.elements in
    some (if leb low high then set_scroll_region s low high else s)
command attributes s =
    some (record s {
      attrib = renditions s.elements (elim s.elements [ [] ↦ 0x07 | _ ∷ _ ↦ s.attrib ]);
    })
command unknown s = some s

abbrev pub is_more : Final → Bool
is_more more = true
is_more _ = false

-- The end of a number: it becomes an element, if there is room, and is set back.
abbrev pub take_number : ℕ → Screen → Screen
take_number ch s =
    if s.reading_number || ch == b';'
    then record s {
      elements =
          if ltb (length s.elements) max_ansi_elements
          then s.elements ++ (s.number ∷ [])
          else s.elements;
      reading_number = false;
      number = 0;
    }
    else record s { number = 0 }

-- A digit; the number does not overflow an int.
abbrev pub read_digit : ℕ → Screen → Option Screen
read_digit d s =
    let n = s.number * 10 + d in
    if leb n int_max then some (record s { number = n; reading_number = true }) else none

abbrev pub is_digit : ℕ → Bool
is_digit ch = leb b'0' ch && leb ch b'9'

-- special_reading_ansi
unfoldable pub read_ansi : ℕ → Screen → Option Screen
unfolding command
read_ansi ch s =
    if is_digit ch
    then read_digit (ch - b'0') s
    else if is_more (final_of ch)
    then some (take_number ch s)
    else done (command (final_of ch) (take_number ch s))

-- char_to_virtscreen
abbrev pub interpret : Mode → ℕ → Screen → Option Screen
interpret std_char ch s = control (control_of ch) s
interpret std_ansi ch s = escape (escape_of ch) s
interpret reading_ansi ch s = read_ansi ch s
interpret charset_0 ch s = some (to_mode std_char s)
interpret charset_1 ch s = some (to_mode std_char s)

unfoldable pub feed : ℕ → Screen → Option Screen
unfolding control escape read_ansi
feed ch s = interpret s.mode ch s

unfoldable pub feed_all : List ℕ → Screen → Option Screen
unfolding feed
feed_all [] s = some s
feed_all (ch ∷ cs) s = feed ch s >>= feed_all cs
