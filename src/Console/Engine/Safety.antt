-- ===== src/Console/Engine/Safety.antt =====
-- std_interpret_char and std_interpret_ansi of srv/console2/vt100.c on a well-formed screen.
use frotznet.Prelude.{
  ◌+◌, ◌-◌, ◌%◌, false, Option, none, some, arith, ltb, leb, ◌==◌, Bool-cases, inl, inr,
}
use frotznet.Prelude.Int.{pos}
use frotznet.Console.Screen.{Screen, position, change_character, scroll_at_cursor, scroll}
use frotznet.Console.Screen.Safety.{
  IsScreen, Succeeds, SameFrame, SameFrame-IsScreen, Succeeds-bind, Succeeds-mono,
  clear_virtscreen-IsScreen, position-IsScreen,
}
use frotznet.Console.Screen.Scroll.{
  scroll_at_cursor-SameFrame, scroll-SameFrame, change_character-IsScreen,
}
use frotznet.Console.Engine.{
  index_down, index_up, Escape, open_0, open_1, open_csi, save, restore, next_line, index,
  reverse_index, again, other, done, escape, Control, esc, form_feed, return, line_feed, tab,
  backspace, nul, printable, feed_line, advance, control,
}

pub done-IsScreen : (o : Option Screen) → Succeeds IsScreen o → Succeeds IsScreen (done o)
done-IsScreen none h = h
done-IsScreen (some s) v = ground arith

-- A screen whose cursor may stand one line below the others, as before a scroll.
scrolled :
    (s : Screen) (v : IsScreen s)
    → Succeeds
        (SameFrame (record s { ypos = s.ypos + 1 }))
        (scroll (record s { ypos = s.ypos + 1 }))
scrolled s v = scroll-SameFrame (record s { ypos = s.ypos + 1 }) v.size v.region v.bottom

index_down-IsScreen : (s : Screen) → IsScreen s → Succeeds IsScreen (index_down s)
unfolding index_down
index_down-IsScreen s v = elim (Bool-cases (leb s.bottom_scroll (s.ypos + 1))) [
  | inl e ↦
      rw (e, Succeeds)
        (Succeeds-bind (SameFrame (record s { ypos = s.ypos + 1 })) IsScreen
          (scroll (record s { ypos = s.ypos + 1 })) _ (scrolled s v)
          (λ t f. ground (arith, f.size, f.same, v.size, v.row)))
  | inr e ↦ rw (e, Succeeds) (ground (arith, v.bottom))
]

index_up-IsScreen : (s : Screen) → IsScreen s → Succeeds IsScreen (index_up s)
unfolding index_up
index_up-IsScreen s v = elim (Bool-cases (ltb s.ypos (s.top_scroll + 1))) [
  | inl e ↦
      rw (e, Succeeds)
        (Succeeds-mono (SameFrame s) IsScreen (scroll_at_cursor false s)
          (λ t f. SameFrame-IsScreen s t v f) (scroll_at_cursor-SameFrame s v.size false v.bottom))
  | inr e ↦ rw (e, Succeeds) (ground arith)
]

-- ESC and a character leave a well-formed screen well-formed.
pub escape-IsScreen : (c : Escape) (s : Screen) → IsScreen s → Succeeds IsScreen (escape c s)
unfolding escape
escape-IsScreen open_0 s v = ground arith
escape-IsScreen open_1 s v = ground arith
escape-IsScreen open_csi s v = ground arith
escape-IsScreen save s v = ground arith
escape-IsScreen restore s v =
    done-IsScreen (position (record s { attrib = s.old_attrib }) (pos s.ypos) (pos s.xpos)) (
      position-IsScreen (record s { attrib = s.old_attrib }) (ground arith) (pos s.ypos)
        (pos s.xpos))
escape-IsScreen next_line s v =
    done-IsScreen (index_down (record s { xpos = 0 }))
      (index_down-IsScreen (record s { xpos = 0 }) (ground arith))
escape-IsScreen index s v = done-IsScreen (index_down s) (index_down-IsScreen s v)
escape-IsScreen reverse_index s v = done-IsScreen (index_up s) (index_up-IsScreen s v)
escape-IsScreen again s v = v
escape-IsScreen other s v = ground arith

feed_line-IsScreen : (s : Screen) → IsScreen s → Succeeds IsScreen (feed_line s)
unfolding feed_line
feed_line-IsScreen s v = elim (Bool-cases (leb s.bottom_scroll (s.ypos + 1))) [
  | inl e ↦
      rw (e, Succeeds)
        (elim (Bool-cases (s.ypos + 1 == s.bottom_scroll)) [
          | inl l ↦
              rw (l, Succeeds)
                (Succeeds-bind (SameFrame (record s { ypos = s.ypos + 1 })) IsScreen
                  (scroll (record s { ypos = s.ypos + 1 })) _ (scrolled s v)
                  (λ t f. ground (arith, f.size, f.same, v.size, v.row, v.column)))
          | inr l ↦ rw (l, Succeeds) (ground arith)
        ])
  | inr e ↦ rw (e, Succeeds) (ground (arith, v.bottom))
]

pub control-IsScreen : (c : Control) (s : Screen) → IsScreen s → Succeeds IsScreen (control c s)
unfolding control
control-IsScreen esc s v = ground arith
control-IsScreen form_feed s v = clear_virtscreen-IsScreen s v 2
control-IsScreen return s v = ground arith
control-IsScreen line_feed s v = feed_line-IsScreen s v
control-IsScreen tab s v = position-IsScreen s v (pos s.ypos) (pos (s.xpos + (8 - s.xpos % 8)))
control-IsScreen backspace s v = ground arith
control-IsScreen nul s v = v
control-IsScreen (printable ch) s v =
    Succeeds-bind IsScreen IsScreen (change_character s ch) (λ t. some (advance t))
      (change_character-IsScreen s v ch) (λ t w. advance-IsScreen t w)
  where
    advance-IsScreen : (t : Screen) → IsScreen t → IsScreen (advance t)
    advance-IsScreen t w = ground arith
