-- ===== src/Console/Engine/Sequences.antt =====
-- Some sequences of characters of srv/console2/vt100.c.
use frotznet.Prelude.{
  ℕ, ◌+◌, ◌-◌, ◌*◌, ◌≤◌, ◌<◌, ◌≡◌, ◌⊎◌, refl, true, none, some, [], ◌∷◌, arith, ltb, leb,
  if◌then◌else◌, inl, inr, ap, ◌∙◌,
}
use frotznet.Prelude.Int.{pos}
use frotznet.Console.Screen.{
  std_char, Screen, ◌>>=◌, loc, scroll, scroll_up, place, set_scroll_region,
}
use frotznet.Console.Screen.Safety.{IsScreen}
use frotznet.Console.Engine.{to_mode, restore, escape, index, index_down, region, command, element}

-- With no line in the region, or with the region off its top, a scroll runs off the cells.
scroll_faults : (s : Screen) → s.bottom_scroll ≤ s.top_scroll → 0 < s.columns → scroll s ≡ none
unfolding scroll scroll_up
scroll_faults s h p = rw (short, if◌then◌else◌) refl
  where
    lines : s.bottom_scroll * s.columns ≤ s.top_scroll * s.columns
    lines = grind (arith, h)

    short : ltb (loc s s.bottom_scroll 0) (loc s s.top_scroll 0 + s.columns) ≡ true
    short = ground (arith, lines)

-- On a well-formed screen ESC 8 takes the attribute back that ESC 7 saved, and leaves the cursor where it is, whatever position
-- was saved.
pub restore_keeps_cursor :
    (s : Screen)
    → IsScreen s
    → (t : Screen) × (escape restore s ≡ some t)
      × (t.attrib ≡ s.old_attrib)
      × (t.xpos ≡ s.xpos)
      × (t.ypos ≡ s.ypos)
unfolding escape
restore_keeps_cursor s v = (
  to_mode std_char (place (record s { attrib = s.old_attrib }) (pos s.ypos) (pos s.xpos)),
  refl,
  refl,
  ground (arith, v.column),
  ground (arith, v.row),
)

index_faults :
    (s : Screen)
    → s.bottom_scroll ≤ s.top_scroll
    → s.bottom_scroll ≤ s.ypos + 1
    → 0 < s.columns
    → escape index s ≡ none
unfolding escape index_down
index_faults s h k p =
    rw (at_end, if◌then◌else◌, scroll_faults (record s { ypos = s.ypos + 1 }) h p) refl
  where
    at_end : leb s.bottom_scroll (s.ypos + 1) ≡ true
    at_end = ground (arith, k)

region-set_scroll_region :
    (s : Screen) (low high : ℕ)
    → s.elements ≡ low ∷ high ∷ []
    → low ≤ high
    → command region s ≡ some (set_scroll_region s low high)
unfolding command
region-set_scroll_region s low high e le =
    ap
      (λ xs. some (
        if leb (element 0 1 xs) (element 1 s.rows xs)
        then set_scroll_region s (element 0 1 xs) (element 1 s.rows xs)
        else s))
      e
    ∙ rw leb-true refl
  where
    leb-true : leb low high ≡ true
    leb-true = ground arith

-- On a well-formed screen, a region with low = high = 0, or with low beyond the last line, is accepted and leaves no line to
-- scroll: from the last line of the screen, the next ESC D runs off the cells.
pub empty_region_faults :
    (s : Screen) (low high : ℕ)
    → IsScreen s
    → s.elements ≡ low ∷ high ∷ []
    → low ≤ high
    → (high ≡ 0) ⊎ (s.rows < low)
    → s.ypos + 1 ≡ s.rows
    → (command region s >>= escape index) ≡ none
unfolding set_scroll_region
empty_region_faults s low high v e le bad last =
    rw (region-set_scroll_region s low high e le, ◌>>=◌)
      (index_faults (set_scroll_region s low high) (empty bad) (ground (arith, last))
        (omega (arith, v.column)))
  where
    empty : (high ≡ 0) ⊎ (s.rows < low) → (if leb s.rows high then s.rows else high) ≤ low - 1
    empty (inl z) = ground (arith, z, v.row)
    empty (inr z) = ground (arith, z, le)
