-- ===== src/Console/Screen/Scroll.antt =====
-- The operations of srv/console2/vt100.c that move lines and characters, on a well-formed screen.
use frotznet.Prelude.{
  ℕ, ◌+◌, ◌-◌, ◌*◌, ◌≤◌, ◌<◌, ◌≡◌, refl, Bool, true, false, ◌&&◌, arith, ltb, leb, if◌then◌else◌,
  length, length-set, Bool-cases, inl, inr, lt→ltb, ltb→lt, ◌∙◌,
}
use frotznet.Prelude.Int.{ℤ, pos, ◌+ℤ◌}
use frotznet.Libc.Memory.{memset, copy_up, memmove}
use frotznet.Libc.Memory.Laws.{copy_up_total, memmove_lem}
use frotznet.Console.Screen.{
  Screen, int_max, ◌>>=◌, with_cells, loc, cell, checked, move_by, delete_chars, scroll_up,
  scroll_down, scroll_at_cursor, scroll, set_scroll_region, change_character,
}
use frotznet.Console.Screen.Safety.{
  IsScreen, Succeeds, SameFrame, with_cells-SameFrame, memset-Succeeds, loc-lt, Succeeds-bind,
  Succeeds-mono, framed-IsScreen, place-IsScreen,
}

module _ (s : Screen) (size : length s.cells ≡ s.rows * s.columns) where
  -- The lines of a region are blocks of cells.
  pub begin_end : (first last : ℕ) → first < last → loc s first 0 + s.columns ≤ loc s last 0
  begin_end first last h = grind arith

  pub end-le : (last : ℕ) → last ≤ s.rows → loc s last 0 ≤ length s.cells
  end-le last h = rw size (grind arith)

  copied-SameFrame :
      (d from n i c k : ℕ)
      → from + n ≤ length s.cells
      → d + n ≤ length s.cells
      → i + k ≤ length s.cells
      → Succeeds (SameFrame s) (with_cells s (memmove d from n s.cells >>= memset i c k))
  copied-SameFrame d from n i c k h1 h2 h3 =
      let (m, e, w) = memmove_lem d from n s.cells h1 h2 in
      with_cells-SameFrame s _ (
        rw (e, ◌>>=◌)
          (Succeeds-mono (λ t. length t ≡ length m) (λ t. length t ≡ length s.cells)
            (memset i c k m) (λ t f. f ∙ w.length_kept)
            (memset-Succeeds i c k m (omega (arith, w.length_kept)))))

  pub fits :
      (first last : ℕ) → first < last → ltb (loc s last 0) (loc s first 0 + s.columns) ≡ false
  fits first last h = ground (arith, begin_end first last h)

  -- A region with a line that lies on the screen scrolls inside the cells.
  pub scroll_up-SameFrame :
      (first last : ℕ)
      → first < last
      → last ≤ s.rows
      → Succeeds (SameFrame s) (scroll_up s first last)
  unfolding scroll_up
  scroll_up-SameFrame first last h k =
      rw (fits first last h, Succeeds)
        (copied-SameFrame (loc s first 0) (loc s first 0 + s.columns)
          (loc s last 0 - s.columns - loc s first 0) (loc s last 0 - s.columns) _ s.columns
          (omega (arith, begin_end first last h, end-le last k))
          (omega (arith, begin_end first last h, end-le last k))
          (omega (arith, begin_end first last h, end-le last k)))

  pub scroll_down-SameFrame :
      (first last : ℕ)
      → first < last
      → last ≤ s.rows
      → Succeeds (SameFrame s) (scroll_down s first last)
  unfolding scroll_down
  scroll_down-SameFrame first last h k =
      rw (fits first last h, Succeeds)
        (copied-SameFrame (loc s first 0 + s.columns) (loc s first 0)
          (loc s last 0 - s.columns - loc s first 0) (loc s first 0) _ s.columns
          (omega (arith, begin_end first last h, end-le last k))
          (omega (arith, begin_end first last h, end-le last k))
          (omega (arith, begin_end first last h, end-le last k)))

  pub scroll_at_cursor-SameFrame :
      (up : Bool) → s.bottom_scroll ≤ s.rows → Succeeds (SameFrame s) (scroll_at_cursor up s)
  unfolding scroll_at_cursor
  scroll_at_cursor-SameFrame up h =
      elim (Bool-cases (leb s.top_scroll s.ypos && ltb s.ypos s.bottom_scroll)) [
        | inl e ↦ rw (e, Succeeds) (by_direction up (ground arith))
        | inr e ↦ rw (e, Succeeds) (record { size = refl; same = refl })
      ]
    where
      by_direction :
          (up : Bool)
          → s.ypos < s.bottom_scroll
          → Succeeds (SameFrame s) (
              if up
              then scroll_up s s.ypos s.bottom_scroll
              else scroll_down s s.ypos s.bottom_scroll)
      by_direction true k = scroll_up-SameFrame s.ypos s.bottom_scroll k h
      by_direction false k = scroll_down-SameFrame s.ypos s.bottom_scroll k h

  pub scroll-SameFrame :
      s.top_scroll < s.bottom_scroll → s.bottom_scroll ≤ s.rows → Succeeds (SameFrame s) (scroll s)
  unfolding scroll
  scroll-SameFrame h k = scroll_up-SameFrame s.top_scroll s.bottom_scroll h k

module _ (s : Screen) (v : IsScreen s) where
  pub change_character-IsScreen : (ch : ℕ) → Succeeds IsScreen (change_character s ch)
  unfolding change_character
  change_character-IsScreen ch = framed-IsScreen s v _ (
      with_cells-SameFrame s _
        (rw (lt→ltb _ _ at_cursor, Succeeds) (length-set s.cells (loc s s.ypos s.xpos) _)))
    where
      at_cursor : loc s s.ypos s.xpos < length s.cells
      at_cursor = rw v.size (loc-lt s.xpos s.ypos s.rows s.columns v.column v.row)

  pub set_scroll_region-IsScreen :
      (low high : ℕ)
      → low ≤ high
      → low ≤ s.rows
      → 0 < high
      → IsScreen (set_scroll_region s low high)
  unfolding set_scroll_region
  set_scroll_region-IsScreen low high h k p = record {
    size = v.size;
    column = v.column;
    row = v.row;
    region = ground (arith, v.row);
    bottom = ground arith;
  }

  pub move_by-IsScreen :
      (dy dx : ℤ)
      → Succeeds (λ z. Unit {0}) (checked (pos s.xpos +ℤ dx))
      → Succeeds (λ z. Unit {0}) (checked (pos s.ypos +ℤ dy))
      → Succeeds IsScreen (move_by s dy dx)
  unfolding move_by
  move_by-IsScreen dy dx hx hy = Succeeds-bind _ IsScreen (checked (pos s.xpos +ℤ dx)) _ hx (λ x _.
      Succeeds-bind _ IsScreen (checked (pos s.ypos +ℤ dy)) _ hy (λ y _. place-IsScreen s v y x))

  row_end : loc s s.ypos s.xpos + (s.columns - s.xpos) ≤ length s.cells
  row_end = rw v.size (grind (arith, v.column, v.row))

  pub delete_chars-IsScreen :
      (count : ℕ) → s.xpos + count ≤ int_max → Succeeds IsScreen (delete_chars s count)
  unfolding delete_chars
  delete_chars-IsScreen count h =
      rw (fits_int, ◌>>=◌, Succeeds)
        (elim (Bool-cases (ltb (s.xpos + count) s.columns)) [
          | inl e ↦ rw (e, Succeeds) (moved (ltb→lt _ _ e))
          | inr e ↦
              rw (e, Succeeds)
                (framed-IsScreen s v _ (
                  with_cells-SameFrame s _
                    (memset-Succeeds (loc s s.ypos s.xpos) _ (s.columns - s.xpos) s.cells row_end)))
        ])
    where
      fits_int : leb (s.xpos + count) int_max ≡ true
      fits_int = ground arith

      moved :
          s.xpos + count < s.columns
          → Succeeds IsScreen (
              with_cells s (
                copy_up
                  (s.columns - (s.xpos + count))
                  (loc s s.ypos s.xpos)
                  (loc s s.ypos s.xpos + count)
                  s.cells
                >>= memset
                    (loc s s.ypos s.xpos + (s.columns - (s.xpos + count)))
                    (cell s.attrib 0x20)
                    count))
      moved k =
          let (m, e, w) =
            copy_up_total (s.columns - (s.xpos + count)) (loc s s.ypos s.xpos)
              (loc s s.ypos s.xpos + count) s.cells (omega (arith, row_end))
              (omega (arith, row_end)) in
          framed-IsScreen s v _ (
            with_cells-SameFrame s _ (
              rw (e, ◌>>=◌)
                (Succeeds-mono (λ t. length t ≡ length m) (λ t. length t ≡ length s.cells) _
                  (λ t f. f ∙ w)
                  (memset-Succeeds (loc s s.ypos s.xpos + (s.columns - (s.xpos + count))) _ count m
                    (omega (arith, row_end, w))))))
