-- ===== src/Console/Screen.antt =====
-- The screen of srv/console2/vt100.c and the operations on its cells. A result `none` is a fault: an
-- access outside of the cells, or a signed overflow. Positions are never negative between two calls;
-- where the code goes below 0 on the way, the model tests first or computes in ℤ. move_cursor, which
-- only places the hardware cursor, is left out.
pub mod Safety
pub mod Scroll
pub mod Content
use frotznet.Prelude.{
  ℕ, zero, suc, ◌+◌, ◌-◌, ◌*◌, ◌%◌, Bool, true, false, ◌&&◌, Option, none, some, List, [], ltb, leb,
  ◌==◌, if◌then◌else◌, length, min, replicate,
}
use Prim.Native.Nat.{bit_or}
use frotznet.Prelude.Int.{ℤ, pos, negsuc, ◌+ℤ◌}
use frotznet.Libc.Memory.{put, memset, copy_up, memmove}

-- The function that next_char_send points to.
pub data Mode : Type 0 where
  std_char std_ansi reading_ansi charset_0 charset_1 : Mode

-- struct virtscreen. `elements` holds the first ansi_elements entries of ansi_element.
pub record Screen : Type 0 where
  pub rows : ℕ
  pub columns : ℕ
  pub cells : List ℕ
  pub xpos : ℕ
  pub ypos : ℕ
  pub top_scroll : ℕ
  pub bottom_scroll : ℕ
  pub attrib : ℕ
  pub old_attrib : ℕ
  pub old_xpos : ℕ
  pub old_ypos : ℕ
  pub number : ℕ
  pub elements : List ℕ
  pub reading_number : Bool
  pub mode : Mode

abbrev pub int_max : ℕ
int_max = 0x7fffffff

abbrev pub max_ansi_elements : ℕ
max_ansi_elements = 16

infixl 5 ◌>>=◌
abbrev pub ◌>>=◌ {ℓ κ} : {A : Type ℓ} {B : Type κ} → Option A → (A → Option B) → Option B
none >>= f = none
some x >>= f = f x

abbrev pub with_cells : Screen → Option (List ℕ) → Option Screen
with_cells s none = none
with_cells s (some m) = some (record s { cells = m })

-- loc_in_virtscreen, as an index
abbrev pub loc : Screen → ℕ → ℕ → ℕ
loc s y x = y * s.columns + x

-- A character with the attribute, as the unsigned short of a cell.
abbrev pub cell : ℕ → ℕ → ℕ
cell attrib ch = bit_or ch (attrib * 256) % 0x10000

-- clear_region: from the first position to the second, both included.
unfoldable pub clear_region : Screen → ℕ → ℕ → ℕ → ℕ → Option Screen
unfolding memset
clear_region s y1 x1 y2 x2 =
    let first = loc s y1 x1 in
    with_cells s (memset first (cell s.attrib 0x20) (suc (loc s y2 x2) - first) s.cells)

abbrev pub home : Screen → Screen
home s = record s { xpos = 0; ypos = 0 }

unfoldable pub clear_virtscreen : Screen → ℕ → Option Screen
unfolding clear_region
clear_virtscreen s mode =
    if mode == 0
    then clear_region s s.ypos s.xpos (s.rows - 1) (s.columns - 1)
    else if mode == 1
    then clear_region s 0 0 s.ypos s.xpos
    else clear_region s 0 0 (s.rows - 1) (s.columns - 1) >>= λ s'. some (home s')

unfoldable pub clear_to_eol : Screen → ℕ → Option Screen
unfolding clear_region
clear_to_eol s mode =
    if mode == 0
    then clear_region s s.ypos s.xpos s.ypos (s.columns - 1)
    else if mode == 1
    then clear_region s s.ypos 0 s.ypos s.xpos
    else clear_region s s.ypos 0 s.ypos (s.columns - 1)

-- The sum of two ints that do not overflow.
abbrev pub checked : ℤ → Option ℤ
checked (pos n) = if leb n int_max then some (pos n) else none
checked (negsuc n) = if leb n int_max then some (negsuc n) else none

-- if(v < 0) v = 0; if(v >= limit) v = limit - 1;
abbrev pub clamp : ℕ → ℤ → ℕ
clamp limit (negsuc n) = if leb limit 0 then limit - 1 else 0
clamp limit (pos n) = if leb limit n then limit - 1 else n

abbrev pub place : Screen → ℤ → ℤ → Screen
place s y x = record s { xpos = clamp s.columns x; ypos = clamp s.rows y }

-- position_console with rel == 0 and rel == 1
unfoldable pub position : Screen → ℤ → ℤ → Option Screen
position s y x = some (place s y x)

unfoldable pub move_by : Screen → ℤ → ℤ → Option Screen
unfolding ◌+ℤ◌
move_by s dy dx =
    checked (pos s.xpos +ℤ dx) >>= λ x. checked (pos s.ypos +ℤ dy) >>= λ y. some (place s y x)

-- delete_chars_in_line
unfoldable pub delete_chars : Screen → ℕ → Option Screen
unfolding copy_up memset
delete_chars s count =
    let start = loc s s.ypos s.xpos in
    let blank = cell s.attrib 0x20 in
    checked (pos (s.xpos + count)) >>= λ _.
    if ltb (s.xpos + count) s.columns
    then with_cells s (
        copy_up (s.columns - (s.xpos + count)) start (start + count) s.cells
        >>= memset (start + (s.columns - (s.xpos + count))) blank count)
    else with_cells s (memset start blank (s.columns - s.xpos) s.cells)

-- The lines from `first` to `last` (not included) move up by one, and the last one is cleared. With no
-- line between them the code computes a length below 0, as an unsigned int, and runs off the cells.
unfoldable pub scroll_up : Screen → ℕ → ℕ → Option Screen
unfolding memmove memset
scroll_up s first last =
    let begin = loc s first 0 in
    let end = loc s last 0 in
    if ltb end (begin + s.columns)
    then none
    else with_cells s (
        memmove begin (begin + s.columns) (end - s.columns - begin) s.cells
        >>= memset (end - s.columns) (cell s.attrib 0x20) s.columns)

unfoldable pub scroll_down : Screen → ℕ → ℕ → Option Screen
unfolding memmove memset
scroll_down s first last =
    let begin = loc s first 0 in
    let end = loc s last 0 in
    if ltb end (begin + s.columns)
    then none
    else with_cells s (
        memmove (begin + s.columns) begin (end - s.columns - begin) s.cells
        >>= memset begin (cell s.attrib 0x20) s.columns)

-- scroll_virt_up_at_cursor; `up` is its `dir`.
unfoldable pub scroll_at_cursor : Bool → Screen → Option Screen
unfolding scroll_up scroll_down
scroll_at_cursor up s =
    if leb s.top_scroll s.ypos && ltb s.ypos s.bottom_scroll
    then (if up then scroll_up s s.ypos s.bottom_scroll else scroll_down s s.ypos s.bottom_scroll)
    else some s

-- scroll_virtscreen
unfoldable pub scroll : Screen → Option Screen
unfolding scroll_up
scroll s = scroll_up s s.top_scroll s.bottom_scroll

-- set_scroll_region
unfoldable pub set_scroll_region : Screen → ℕ → ℕ → Screen
set_scroll_region s low high = record s {
  top_scroll = low - 1;
  bottom_scroll = if leb s.rows high then s.rows else high;
}

unfoldable pub change_character : Screen → ℕ → Option Screen
change_character s ch = with_cells s (put s.cells (loc s s.ypos s.xpos) (cell s.attrib ch))

-- init_virtscreen, with the cells that malloc returned (of any content, but of the size asked for). It
-- leaves xpos and ypos as they were.
unfoldable pub init : Screen → List ℕ → ℕ → ℕ → Option Screen
unfolding clear_region
init s memory rows columns =
    clear_region
      (record s {
        rows = rows;
        columns = columns;
        cells = memory;
        bottom_scroll = rows;
        top_scroll = 0;
        number = 0;
        elements = [];
        reading_number = false;
        attrib = 7;
        old_attrib = 7;
        mode = std_char;
      })
      0 0 (rows - 1) (columns - 1)
    >>= λ s'. some (record s' { old_xpos = 0; old_ypos = 0 })
