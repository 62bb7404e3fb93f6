-- ===== src/Console/Engine/Commands.antt =====
-- The commands of special_reading_ansi of srv/console2/vt100.c, and single characters.
use frotznet.Prelude.{
  ℕ, zero, suc, ◌+◌, ◌-◌, ◌*◌, ◌≤◌, ◌<◌, ◌≡◌, refl, Bool, true, false, ◌||◌, List, [], ◌∷◌, ◌++◌,
  arith, ltb, leb, ◌==◌, if◌then◌else◌, length, Bool-cases, leb→le, inl, inr,
}
use frotznet.Prelude.Int.{pos, ◌+ℤ◌, ◌-ℤ◌}
use frotznet.Console.Screen.{
  Mode, std_char, std_ansi, reading_ansi, charset_0, charset_1, Screen, int_max, max_ansi_elements,
  checked, scroll_at_cursor,
}
use frotznet.Console.Screen.Safety.{
  IsScreen, Succeeds, SameFrame, SameFrame-IsScreen, Succeeds-bind, clear_virtscreen-IsScreen,
  clear_to_eol-IsScreen, position-IsScreen,
}
use frotznet.Console.Screen.Scroll.{
  scroll_at_cursor-SameFrame, set_scroll_region-IsScreen, move_by-IsScreen, delete_chars-IsScreen,
}
use frotznet.Console.Engine.{
  escape_of, control_of, element, scroll_lines, Final, more, left, right, up, down, column,
  line_down, line_up, row, cursor, erase_screen, insert_lines, delete_lines, delete_characters,
  erase_line, save_cursor, restore_cursor, region, attributes, unknown, final_of, negated, command,
  is_more, take_number, read_digit, is_digit, read_ansi, interpret, feed,
}
use frotznet.Console.Engine.Safety.{done-IsScreen, escape-IsScreen, control-IsScreen}

-- A number that can be added to a position with no overflow of an int.
abbrev pub IsSmall : Screen → ℕ → Type 0
IsSmall s n = n + s.rows + s.columns ≤ int_max

abbrev pub AllSmall : Screen → List ℕ → Type 0
AllSmall s [] = Unit {0}
AllSmall s (n ∷ ns) = IsSmall s n × AllSmall s ns

-- The screen is small, and so is each number that was read for the command.
pub record IsModest (s : Screen) : Type 0 where
  pub one : IsSmall s 1
  pub number : IsSmall s s.number
  pub elements : AllSmall s s.elements

-- The lines that ESC [ low ; high r names lie on the screen, if it is not ignored.
abbrev pub IsRegion : Screen → Type 0
IsRegion s =
    element 0 1 s.elements ≤ element 1 s.rows s.elements
    → (element 0 1 s.elements ≤ s.rows) × (0 < element 1 s.rows s.elements)

element-IsSmall :
    (s : Screen) (i d : ℕ) (ns : List ℕ) → IsSmall s d → AllSmall s ns → IsSmall s (element i d ns)
element-IsSmall s i d [] h a = h
element-IsSmall s zero d (n ∷ ns) h a = a.0
element-IsSmall s (suc i) d (n ∷ ns) h a = element-IsSmall s i d ns h a.1

scroll_lines-IsScreen :
    (lines : ℕ) (dir : Bool) (s : Screen)
    → IsScreen s
    → Succeeds IsScreen (scroll_lines lines dir s)
unfolding scroll_lines
scroll_lines-IsScreen zero dir s v = v
scroll_lines-IsScreen (suc lines) dir s v =
    Succeeds-bind (SameFrame s) IsScreen (scroll_at_cursor dir s) (scroll_lines lines dir)
      (scroll_at_cursor-SameFrame s v.size dir v.bottom)
      (λ t f. scroll_lines-IsScreen lines dir t (SameFrame-IsScreen s t v f))

module _ (s : Screen) (v : IsScreen s) (m : IsModest s) where
  small :
      (x : ℕ)
      → x < s.rows + s.columns
      → (e : ℕ) → IsSmall s e
      → Succeeds (λ z. Unit {0}) (checked (pos x +ℤ pos e))
  small x h e k = unfold ◌+ℤ◌ in ground arith

  small_negated :
      (x : ℕ)
      → x < s.rows + s.columns
      → (e : ℕ) → IsSmall s e
      → Succeeds (λ z. Unit {0}) (checked (pos x +ℤ negated e))
  small_negated x h zero k = small x h 0 k
  small_negated x h (suc e) k = unfold ◌+ℤ◌ in ground (arith, m.one)

  at : IsSmall s (element 0 1 s.elements)
  at = element-IsSmall s 0 1 s.elements m.one m.elements

  abbrev first : ℕ
  first = element 0 1 s.elements

  x_in : s.xpos < s.rows + s.columns
  x_in = omega (arith, v.column)

  y_in : s.ypos < s.rows + s.columns
  y_in = omega (arith, v.row)

  stays : (x : ℕ) → x < s.rows + s.columns → Succeeds (λ z. Unit {0}) (checked (pos x +ℤ pos 0))
  stays x h = small x h 0 (omega (arith, m.one))

  -- Every command of an escape sequence ESC [ ..., on a well-formed screen whose size and numbers are
  -- small, ends without a fault and leaves the screen well-formed: the cursor lies on it, and the region
  -- is a part of it with a line. A command that sets the region must name lines of the screen.
  pub command-IsScreen : (c : Final) → (c ≡ region → IsRegion s) → Succeeds IsScreen (command c s)
  unfolding command
  command-IsScreen more r = v
  command-IsScreen left r =
      move_by-IsScreen s v (pos 0) (negated first) (small_negated s.xpos x_in first at)
        (stays s.ypos y_in)
  command-IsScreen right r =
      move_by-IsScreen s v (pos 0) (pos first) (small s.xpos x_in first at) (stays s.ypos y_in)
  command-IsScreen up r =
      move_by-IsScreen s v (negated first) (pos 0) (stays s.xpos x_in)
        (small_negated s.ypos y_in first at)
  command-IsScreen down r =
      move_by-IsScreen s v (pos first) (pos 0) (stays s.xpos x_in) (small s.ypos y_in first at)
  command-IsScreen column r = position-IsScreen s v (pos s.ypos) (pos (first - 1))
  command-IsScreen line_down r =
      Succeeds-bind (λ z. Unit {0}) IsScreen (checked (pos (s.ypos + first))) _
        (ground (arith, at, v.row)) (λ y _. position-IsScreen s v y (pos 0))
  command-IsScreen line_up r = position-IsScreen s v (pos s.ypos -ℤ pos first) (pos 0)
  command-IsScreen row r = position-IsScreen s v (pos (first - 1)) (pos s.xpos)
  command-IsScreen cursor r =
      position-IsScreen s v (pos (first - 1)) (pos (element 1 1 s.elements - 1))
  command-IsScreen erase_screen r = clear_virtscreen-IsScreen s v (element 0 0 s.elements)
  command-IsScreen insert_lines r = scroll_lines-IsScreen first false s v
  command-IsScreen delete_lines r = scroll_lines-IsScreen first true s v
  command-IsScreen delete_characters r =
      delete_chars-IsScreen s v first (omega (arith, at, v.column))
  command-IsScreen erase_line r = clear_to_eol-IsScreen s v (element 0 0 s.elements)
  command-IsScreen save_cursor r = ground arith
  command-IsScreen restore_cursor r = position-IsScreen s v (pos s.old_ypos) (pos s.old_xpos)
  command-IsScreen region r = elim (Bool-cases (leb first (element 1 s.rows s.elements))) [
    | inl e ↦
        let (low, high) = r refl (leb→le _ _ e) in
        rw e (
          set_scroll_region-IsScreen s v first (element 1 s.rows s.elements) (leb→le _ _ e) low
            high)
    | inr e ↦ rw e v
  ]
  command-IsScreen attributes r = ground arith
  command-IsScreen unknown r = v

AllSmall-append :
    (s : Screen) (ns : List ℕ) (n : ℕ) → AllSmall s ns → IsSmall s n → AllSmall s (ns ++ (n ∷ []))
AllSmall-append s [] n a h = (h, tt)
AllSmall-append s (m ∷ ns) n a h = (a.0, AllSmall-append s ns n a.1 h)

take_number-IsModest : (ch : ℕ) (s : Screen) → IsModest s → IsModest (take_number ch s)
take_number-IsModest ch s m = elim (Bool-cases (s.reading_number || ch == b';')) [
  | inl e ↦ rw e (record { one = m.one; number = omega (arith, m.one); elements = pushed })
  | inr e ↦ rw e (record { one = m.one; number = omega (arith, m.one); elements = m.elements })
]
  where
    pushed : AllSmall s (
        if ltb (length s.elements) max_ansi_elements
        then s.elements ++ (s.number ∷ [])
        else s.elements)
    pushed = elim (Bool-cases (ltb (length s.elements) max_ansi_elements)) [
      | inl e ↦ rw e (AllSmall-append s s.elements s.number m.elements m.number)
      | inr e ↦ rw e m.elements
    ]

take_number-IsScreen : (ch : ℕ) (s : Screen) → IsScreen s → IsScreen (take_number ch s)
take_number-IsScreen ch s v = ground arith

-- What a character of an escape sequence must not do: overflow the number, or name a region off the
-- screen.
abbrev pub IsHarmless : Mode → ℕ → Screen → Type 0
IsHarmless reading_ansi ch s =
    (s.number * 10 + 9 ≤ int_max) × (final_of ch ≡ region → IsRegion (take_number ch s))
IsHarmless _ ch s = Unit

read_ansi-IsScreen :
    (ch : ℕ) (s : Screen)
    → IsScreen s
    → IsModest s
    → IsHarmless reading_ansi ch s
    → Succeeds IsScreen (read_ansi ch s)
unfolding read_ansi
read_ansi-IsScreen ch s v m h = elim (Bool-cases (is_digit ch)) [
  | inl e ↦ rw (e, Succeeds) (digit (ground arith))
  | inr e ↦
      rw (e, Succeeds)
        (elim (Bool-cases (is_more (final_of ch))) [
          | inl e ↦ rw (e, Succeeds) (take_number-IsScreen ch s v)
          | inr e ↦
              rw (e, Succeeds)
                (done-IsScreen (command (final_of ch) (take_number ch s)) (
                  command-IsScreen (take_number ch s) (take_number-IsScreen ch s v)
                    (take_number-IsModest ch s m) (final_of ch) h.1))
        ])
]
  where
    digit : (s.number * 10 + (ch - b'0') ≤ int_max) → Succeeds IsScreen (read_digit (ch - b'0') s)
    digit k = ground arith

interpret-IsScreen :
    (mode : Mode) (ch : ℕ) (s : Screen)
    → IsScreen s
    → IsModest s
    → IsHarmless mode ch s
    → Succeeds IsScreen (interpret mode ch s)
interpret-IsScreen std_char ch s v m h = control-IsScreen (control_of ch) s v
interpret-IsScreen std_ansi ch s v m h = escape-IsScreen (escape_of ch) s v
interpret-IsScreen reading_ansi ch s v m h = read_ansi-IsScreen ch s v m h
interpret-IsScreen charset_0 ch s v m h = ground arith
interpret-IsScreen charset_1 ch s v m h = ground arith

-- Every character, in every mode, is handled without a fault, and leaves the cursor on the screen, the
-- cells those of the screen and the region a part of it with a line: on a well-formed screen whose
-- size and pending numbers are small, if the character does not overflow the number that is read and
-- is not the end of a command that names a region off the screen.
pub feed-IsScreen :
    (ch : ℕ) (s : Screen)
    → IsScreen s
    → IsModest s
    → IsHarmless s.mode ch s
    → Succeeds IsScreen (feed ch s)
unfolding feed
feed-IsScreen ch s v m h = interpret-IsScreen s.mode ch s v m h
