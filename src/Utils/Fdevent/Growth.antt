-- ===== src/Utils/Fdevent/Growth.antt =====
-- fdevent_register in utils/fdevent.c, which enlarges the table.
use frotznet.Prelude.{
  ◌||◌, ℕ, zero, suc, ◌*◌, ◌^◌, ◌≡◌, ◌≢◌, ◌≤◌, ◌<◌, ◌⊎◌, refl, ◌∙◌, Bool, true, false, some, arith,
  ◌==◌, ltb, if◌then◌else◌, update_self, update_ne, Bool-cases, inl, inr,
}
use native.Mathlib.Numerals.{unary_clauses}
use frotznet.Utils.Fdevent.{Ptr, World, swept, double_max, grown, enter, register}

double_max-above : (rounds max fd : ℕ) → fd < max * 2 ^ rounds → fd < double_max rounds max fd
unfolding double_max
double_max-above zero max fd h = omega arith
double_max-above (suc rounds) max fd h =
    let p : 2 ^ suc rounds ≡ 2 ^ rounds * 2 = simp unary_clauses in
    let ih = double_max-above rounds (max * 2) fd (grind arith) in ground arith

grown-above :
    (fd : ℕ) (w : World)
    → fd ≤ 32000
    → (w.table_max ≡ 0) ⊎ (256 ≤ w.table_max)
    → fd < (grown fd w).table_max
grown-above fd w small max =
    double_max-above 7 (if w.table_max == 0 then 256 else w.table_max) fd (ground arith)

-- With narrow pointers the memset reaches every new entry.
swept_all :
    (first : Bool) (width old max i : ℕ)
    → width ≡ 1
    → old ≤ i
    → i < max
    → swept first width old max i ≡ true
swept_all true width old max i e le lt = rw e (ground arith)
swept_all false width old max i e le lt = rw e (ground arith)

-- A table with room is there.
kept_spoilt : (b : Bool) (max fd : ℕ) → ltb fd max ≡ true → b ≡ (b || max == 0)
kept_spoilt true max fd h = refl
kept_spoilt false max fd h = ground arith

-- fdevent_register of a descriptor up to 32000, with a table that is not there yet or has 256 entries
-- or more and pointers as wide as an int: the table comes to have room for it, its entry is the fdevent, the
-- other entries are as they were, and those that are new are empty. A table that is not there yet is also
-- written before its start.
pub register-enters :
    (f : Ptr) (w : World)
    → (w.fdes f).fd ≤ 32000
    → (w.table_max ≡ 0) ⊎ (256 ≤ w.table_max)
    → w.pointer_ints ≡ 1
    → (w' : World) × (register f w ≡ some w')
      × ((w.fdes f).fd < w'.table_max)
      × (w'.table (w.fdes f).fd ≡ f)
      × ((i : ℕ) → (w.fdes f).fd ≢ i → i < w.table_max → w'.table i ≡ w.table i)
      × ((i : ℕ) → (w.fdes f).fd ≢ i → w.table_max ≤ i → i < w'.table_max → w'.table i ≡ 0)
      × (w'.spoilt ≡ (w.spoilt || w.table_max == 0))
unfolding register
register-enters f w small max thin =
    let fd = (w.fdes f).fd in
    elim (Bool-cases (ltb fd w.table_max)) [
      | inl room ↦ (
        enter f fd w,
        rw (room, if◌then◌else◌) refl,
        ground arith,
        update_self w.table fd f,
        λ i ne lt. update_ne w.table fd f i ne,
        λ i ne le low. absurd (omega arith),
        kept_spoilt w.spoilt w.table_max fd room,
      )
      | inr full ↦
          let fine : ltb 32000 fd ≡ false = ground arith in
          let g = grown fd w in
          (
            enter f fd g,
            rw (full, fine, if◌then◌else◌) refl,
            grown-above fd w small max,
            update_self g.table fd f,
            λ i ne lt.
                update_ne g.table fd f i ne
                ∙ (let e : ltb i w.table_max ≡ true = ground arith in rw (e, if◌then◌else◌) refl),
            λ i ne le low.
                update_ne g.table fd f i ne
                ∙ (let e : ltb i w.table_max ≡ false = ground arith in
                    let s =
                      swept_all (w.table_max == 0) w.pointer_ints w.table_max g.table_max i thin le
                        low in
                    rw (e, s, if◌then◌else◌) refl),
            refl,
          )
    ]
