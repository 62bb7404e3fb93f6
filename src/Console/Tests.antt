-- ===== src/Console/Tests.antt =====
-- Runs of the console on a screen of three lines of four columns.
use frotznet.Prelude.{◌≡◌, refl, inl, false, none, [], ◌∷◌, arith}
use frotznet.Console.Screen.{std_char, reading_ansi, Screen, ◌>>=◌}
use frotznet.Console.Screen.Safety.{IsScreen, Succeeds}
use frotznet.Console.Engine.{index, region, escape, command, feed}
use frotznet.Console.Engine.Commands.{IsModest, feed-IsScreen}
use frotznet.Console.Engine.Sequences.{empty_region_faults}

abbrev screen : Screen
screen = record {
  rows = 3;
  columns = 4;
  cells = 0 ∷ 1 ∷ 2 ∷ 3 ∷ 4 ∷ 5 ∷ 6 ∷ 7 ∷ 8 ∷ 9 ∷ 10 ∷ 11 ∷ [];
  xpos = 1;
  ypos = 2;
  top_scroll = 0;
  bottom_scroll = 3;
  attrib = 7;
  old_attrib = 7;
  old_xpos = 0;
  old_ypos = 0;
  number = 0;
  elements = [];
  reading_number = false;
  mode = std_char;
}

-- The screen in the middle of ESC [ 0 ; 0
abbrev asked : Screen
asked = record screen { elements = 0 ∷ 0 ∷ []; mode = reading_ansi }

screen-IsScreen : IsScreen screen
screen-IsScreen = record {
  size = refl;
  column = omega arith;
  row = omega arith;
  region = omega arith;
  bottom = omega arith;
}

asked-IsScreen : IsScreen asked
asked-IsScreen = record {
  size = refl;
  column = omega arith;
  row = omega arith;
  region = omega arith;
  bottom = omega arith;
}

screen-IsModest : IsModest screen
screen-IsModest = record { one = omega arith; number = omega arith; elements = tt }

feed-IsScreen_example : Succeeds IsScreen (feed b'a' screen)
feed-IsScreen_example = feed-IsScreen b'a' screen screen-IsScreen screen-IsModest tt

empty_region_faults_example : (command region asked >>= escape index) ≡ none
empty_region_faults_example =
    empty_region_faults asked 0 0 asked-IsScreen refl (omega arith) (inl refl) refl
