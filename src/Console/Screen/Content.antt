-- ===== src/Console/Screen/Content.antt =====
-- The cells after a scroll of srv/console2/vt100.c.
use frotznet.Prelude.{
  ℕ, ◌+◌, ◌-◌, ◌*◌, ◌≤◌, ◌<◌, ◌≡◌, ◌&&◌, Option, some, List, arith, ltb, leb, if◌then◌else◌, length,
  get_elem?, ◌∙◌,
}
use frotznet.Libc.Memory.Laws.{memset_lem, memmove_lem}
use frotznet.Console.Screen.{Screen, ◌>>=◌, loc, cell, scroll_up}
use frotznet.Console.Screen.Scroll.{begin_end, end-le, fits}

-- The cell of a line and a column after the lines from `first` to `last` moved up by one.
abbrev pub shifted_up : Screen → ℕ → ℕ → ℕ → Option ℕ
shifted_up s first last i =
    if leb (loc s first 0) i && ltb (i + s.columns) (loc s last 0)
    then get_elem? s.cells (i + s.columns)
    else if leb (loc s first 0) i && ltb i (loc s last 0)
    then some (cell s.attrib 0x20)
    else get_elem? s.cells i

module _ (s : Screen) (size : length s.cells ≡ s.rows * s.columns) (first last : ℕ)
    (h : first < last) (k : last ≤ s.rows) where
  abbrev begin : ℕ
  begin = loc s first 0

  abbrev end : ℕ
  end = loc s last 0

  -- Scrolling the lines of a region of the screen up moves every cell of its lines but the first to the line above, fills the last
  -- line with blanks of the attribute, and leaves every other cell and the rest of the screen alone.
  scroll_up-shifted :
      (m : List ℕ) × (scroll_up s first last ≡ some (record s { cells = m }))
      × ((i : ℕ) → get_elem? m i ≡ shifted_up s first last i)
  unfolding scroll_up
  scroll_up-shifted =
      let room = begin_end s size first last h in
      let inside = end-le s size last k in
      let (m1, e1, w1) =
        memmove_lem begin (begin + s.columns) (end - s.columns - begin) s.cells
          (omega (arith, room, inside)) (omega (arith, room, inside)) in
      let (m2, e2, w2) =
        memset_lem (end - s.columns) (cell s.attrib 0x20) s.columns m1
          (omega (arith, room, inside, w1.length_kept)) in
      (
        m2,
        rw (fits s size first last h, e1, ◌>>=◌, e2),
        λ i. content m1 m2 i room (w1.cells i) (w2.cells i),
      )
    where
      content :
          (m1 m2 : List ℕ) (i : ℕ)
          → begin + s.columns ≤ end
          → get_elem? m1 i ≡ (
              if leb begin i && ltb i (begin + (end - s.columns - begin))
              then get_elem? s.cells (begin + s.columns + (i - begin))
              else get_elem? s.cells i)
          → get_elem? m2 i ≡ (
              if leb (end - s.columns) i && ltb i (end - s.columns + s.columns)
              then some (cell s.attrib 0x20)
              else get_elem? m1 i)
          → get_elem? m2 i ≡ shifted_up s first last i
      content m1 m2 i room e f = f ∙ grind (arith, e, room)
