-- ===== src/Console/Screen/Safety.antt =====
-- The operations of srv/console2/vt100.c that clear and place, on a well-formed screen.
use frotznet.Prelude.{
  ℕ, suc, ◌+◌, ◌-◌, ◌*◌, ◌≤◌, ◌<◌, ◌≡◌, refl, Option, none, some, List, arith, ◌==◌, length,
  Bool-cases, ==_iff, inl, inr,
}
use frotznet.Prelude.Int.{ℤ, pos, negsuc}
use frotznet.Libc.Memory.{memset}
use frotznet.Libc.Memory.Laws.{memset_lem}
use frotznet.Console.Screen.{
  Screen, ◌>>=◌, with_cells, loc, clear_region, home, clear_virtscreen, clear_to_eol, clamp, place,
  position,
}

-- The cursor stands on the screen, the cells are those of the screen, and the region that scrolls has a
-- line and lies on it.
pub record IsScreen (s : Screen) : Type 0 where
  pub size : length s.cells ≡ s.rows * s.columns
  pub column : s.xpos < s.columns
  pub row : s.ypos < s.rows
  pub region : s.top_scroll < s.bottom_scroll
  pub bottom : s.bottom_scroll ≤ s.rows

-- The operation succeeds, and its result meets `P`.
abbrev pub Succeeds : {A : Type 0} → (A → Type 0) → Option A → Type 0
Succeeds P none = ⊥
Succeeds P (some a) = P a

-- Only the cells differ.
pub record SameFrame (s t : Screen) : Type 0 where
  pub size : length t.cells ≡ length s.cells
  pub same : t ≡ record s { cells = t.cells }

pub with_cells-SameFrame :
    (s : Screen) (o : Option (List ℕ))
    → Succeeds (λ m. length m ≡ length s.cells) o
    → Succeeds (SameFrame s) (with_cells s o)
with_cells-SameFrame s none h = h
with_cells-SameFrame s (some m) h = record { size = h; same = refl }

pub memset-Succeeds :
    (i c n : ℕ) (m : List ℕ)
    → i + n ≤ length m
    → Succeeds (λ m'. length m' ≡ length m) (memset i c n m)
memset-Succeeds i c n m h = let (m', e, w) = memset_lem i c n m h in rw e w.length_kept

-- A block of cells from a place on the screen to another lies in the cells.
pub loc-lt : (x y rows columns : ℕ) → x < columns → y < rows → y * columns + x < rows * columns
loc-lt x y rows columns h k = grind arith

pub clear_region-SameFrame :
    (s : Screen) (y1 x1 y2 x2 : ℕ)
    → length s.cells ≡ s.rows * s.columns
    → x2 < s.columns
    → y2 < s.rows
    → loc s y1 x1 ≤ loc s y2 x2
    → Succeeds (SameFrame s) (clear_region s y1 x1 y2 x2)
unfolding clear_region
clear_region-SameFrame s y1 x1 y2 x2 size hx hy le = with_cells-SameFrame s _ (
    memset-Succeeds (loc s y1 x1) _ (suc (loc s y2 x2) - loc s y1 x1) s.cells
      (omega (arith, loc-lt x2 y2 s.rows s.columns hx hy)))

-- A frame keeps the screen well-formed.
pub SameFrame-IsScreen : (s t : Screen) → IsScreen s → SameFrame s t → IsScreen t
SameFrame-IsScreen s t v f = ground (arith, f.size, f.same)

pub Succeeds-bind :
    {A B : Type 0} (P : A → Type 0) (Q : B → Type 0) (o : Option A) (f : A → Option B)
    → Succeeds P o
    → ((a : A) → P a → Succeeds Q (f a))
    → Succeeds Q (o >>= f)
Succeeds-bind P Q none f h g = h
Succeeds-bind P Q (some a) f h g = g a h

pub Succeeds-mono :
    {A : Type 0} (P Q : A → Type 0) (o : Option A)
    → ((a : A) → P a → Q a)
    → Succeeds P o
    → Succeeds Q o
Succeeds-mono P Q none g h = h
Succeeds-mono P Q (some a) g h = g a h

module _ (s : Screen) (v : IsScreen s) where
  pub framed-IsScreen : (o : Option Screen) → Succeeds (SameFrame s) o → Succeeds IsScreen o
  framed-IsScreen o h = Succeeds-mono (SameFrame s) IsScreen o (λ t f. SameFrame-IsScreen s t v f) h

  pub loc-le : (x1 x2 y1 y2 : ℕ) → y1 < y2 → x1 < s.columns → loc s y1 x1 ≤ loc s y2 x2
  loc-le x1 x2 y1 y2 h k = grind arith

  -- The place of the cursor lies between the first one and the last one.
  to_end : loc s s.ypos s.xpos ≤ loc s (s.rows - 1) (s.columns - 1)
  to_end = elim (Bool-cases (s.ypos == s.rows - 1)) [
    | inl e ↦ rw ((==_iff s.ypos (s.rows - 1)).0 e) (omega (arith, v.column))
    | inr e ↦ loc-le s.xpos (s.columns - 1) s.ypos (s.rows - 1) (ground (arith, v.row)) v.column
  ]

  clear-IsScreen :
      (y1 x1 y2 x2 : ℕ)
      → x2 < s.columns
      → y2 < s.rows
      → loc s y1 x1 ≤ loc s y2 x2
      → Succeeds IsScreen (clear_region s y1 x1 y2 x2)
  clear-IsScreen y1 x1 y2 x2 hx hy le =
      framed-IsScreen _ (clear_region-SameFrame s y1 x1 y2 x2 v.size hx hy le)

  home-IsScreen : (t : Screen) → IsScreen t → IsScreen (home t)
  home-IsScreen t w = record {
    size = w.size;
    column = omega (arith, w.column);
    row = omega (arith, w.row);
    region = w.region;
    bottom = w.bottom;
  }

  -- clear_virtscreen writes inside the cells of a well-formed screen in each of its modes, and leaves the
  -- screen well-formed.
  pub clear_virtscreen-IsScreen : (mode : ℕ) → Succeeds IsScreen (clear_virtscreen s mode)
  unfolding clear_virtscreen
  clear_virtscreen-IsScreen mode = elim (Bool-cases (mode == 0)) [
    | inl e ↦
        rw (e, Succeeds)
          (clear-IsScreen s.ypos s.xpos (s.rows - 1) (s.columns - 1) (omega (arith, v.column))
            (omega (arith, v.row)) to_end)
    | inr e ↦
        rw (e, Succeeds)
          (elim (Bool-cases (mode == 1)) [
            | inl e ↦
                rw (e, Succeeds) (clear-IsScreen 0 0 s.ypos s.xpos v.column v.row (omega arith))
            | inr e ↦
                rw (e, Succeeds)
                  (Succeeds-bind IsScreen IsScreen (clear_region s 0 0 (s.rows - 1) (s.columns - 1))
                    _
                    (clear-IsScreen 0 0 (s.rows - 1) (s.columns - 1) (omega (arith, v.column))
                      (omega (arith, v.row)) (omega arith))
                    home-IsScreen)
          ])
  ]

  pub clear_to_eol-IsScreen : (mode : ℕ) → Succeeds IsScreen (clear_to_eol s mode)
  unfolding clear_to_eol
  clear_to_eol-IsScreen mode = elim (Bool-cases (mode == 0)) [
    | inl e ↦
        rw (e, Succeeds)
          (clear-IsScreen s.ypos s.xpos s.ypos (s.columns - 1) (omega (arith, v.column)) v.row
            (omega (arith, v.column)))
    | inr e ↦
        rw (e, Succeeds)
          (elim (Bool-cases (mode == 1)) [
            | inl e ↦
                rw (e, Succeeds)
                  (clear-IsScreen s.ypos 0 s.ypos s.xpos v.column v.row (omega arith))
            | inr e ↦
                rw (e, Succeeds)
                  (clear-IsScreen s.ypos 0 s.ypos (s.columns - 1) (omega (arith, v.column)) v.row
                    (omega arith))
          ])
  ]

  pub clamp-lt : (limit : ℕ) (z : ℤ) → 0 < limit → clamp limit z < limit
  clamp-lt limit (pos n) h = ground arith
  clamp-lt limit (negsuc n) h = ground arith

  pub place-IsScreen : (y x : ℤ) → IsScreen (place s y x)
  place-IsScreen y x = record {
    size = v.size;
    column = clamp-lt s.columns x (omega (arith, v.column));
    row = clamp-lt s.rows y (omega (arith, v.row));
    region = v.region;
    bottom = v.bottom;
  }

  pub position-IsScreen : (y x : ℤ) → Succeeds IsScreen (position s y x)
  unfolding position
  position-IsScreen y x = place-IsScreen y x
