-- ===== src/Kernel/Area/Fill.antt =====
-- The loops of area_create, area_clone and area_destroy over the pages of an area, in kernel/aspace.c.
use frotznet.Prelude.{
  ℕ, zero, suc, ◌+◌, ◌-◌, ◌<◌, ◌≡◌, refl, subst, true, false, ◌||◌, some, List, [], ◌∷◌, ◌++◌,
  arith, ltb, leb, if◌then◌else◌, Bool-cases, inl, inr, length, get_or,
}
use frotznet.Kernel.Resource.Table.{from_to}
use frotznet.Kernel.Memory.{Pages}
use frotznet.Kernel.Memory.Chain.{Free, getpage-Free}
use frotznet.Kernel.Aspace.{entry}
use frotznet.Kernel.Aspace.Span.{map_pages_lem}
use frotznet.Kernel.Area.{Filling, put_in, fill}

-- From slot `i` and entry `at` on stand the pages `ts`, and all else is as before.
pub record IsFilled (i at : ℕ) (ts : List ℕ) (f g : Filling) : Type 0 where
  pub slots :
      (j : ℕ)
      → g.slot j ≡ (if ltb j i || leb (i + length ts) j then f.slot j else get_or ts (j - i) 0)
  pub entries :
      (v : ℕ)
      → g.ptab v
        ≡ (if ltb v at || leb (at + length ts) v then f.ptab v else entry (get_or ts (v - at) 0) 7)

skip : (ts : List ℕ) (t i j d : ℕ) → i < j → get_or (t ∷ ts) (j - i) d ≡ get_or ts (j - (i + 1)) d
skip ts t i j d h = let e : j - i ≡ suc (j - (i + 1)) = omega arith in rw e refl

IsFilled-put :
    (i at t : ℕ) (ts : List ℕ) (p : Pages) (f g : Filling)
    → IsFilled (i + 1) (at + 1) ts (put_in i t at p f) g
    → IsFilled i at (t ∷ ts) f g
IsFilled-put i at t ts p f g h = record {
  slots = λ j.
      let s = h.slots j in
      elim (Bool-cases (ltb i j)) [
        | inl above ↦ rw (skip ts t i j 0 (ground arith)) (ground arith)
        | inr below ↦
            let e : get_or (t ∷ ts) (i - i) 0 ≡ t =
              (let z : i - i ≡ 0 = omega arith in rw z refl) in
            ground arith
      ];
  entries = λ v.
      let s = h.entries v in
      let m = map_pages_lem t at 1 7 f.ptab v in
      elim (Bool-cases (ltb at v)) [
        | inl above ↦ rw (skip ts t at v 0 (ground arith)) (ground arith)
        | inr below ↦
            let e : get_or (t ∷ ts) (at - at) 0 ≡ t =
              (let z : at - at ≡ 0 = omega arith in rw z refl) in
            let self : t + (at - at) ≡ t = omega arith in ground arith
      ];
}

pub fill-Free :
    (ts rest : List ℕ) (i page at : ℕ) (f : Filling)
    → Free f.pages.pagelist f.pages.freepage (ts ++ rest)
    → (g : Filling) × (fill false (length ts) i page at f ≡ some g)
      × IsFilled i at ts f g
      × Free g.pages.pagelist g.pages.freepage rest
unfolding fill
fill-Free [] rest i page at f c =
    (f, refl, record { slots = λ j. ground arith; entries = λ v. ground arith }, c)
fill-Free (t ∷ ts) rest i page at f c =
    let got = getpage-Free t (ts ++ rest) f.pages c in
    let g = put_in i t at got.0 f in
    let ih = fill-Free ts rest (i + 1) t (at + 1) g got.2 in
    (ih.0, rw (fill, got.1) ih.1, IsFilled-put i at t ts got.0 f ih.0 ih.2, ih.3)

abbrev Physmap : ℕ → ℕ → ℕ → ℕ → Filling → ℕ → Type 0
Physmap n i page at f first =
    (g : Filling) × (fill true n i page at f ≡ some g)
    × IsFilled i at (from_to first n) f g
    × (g.pages ≡ f.pages)

pub fill-Physmap : (n i page at : ℕ) (f : Filling) → Physmap n i page at f page
unfolding fill
fill-Physmap zero i page at f =
    (f, refl, record { slots = λ j. ground arith; entries = λ v. ground arith }, refl)
fill-Physmap (suc n) i page at f =
    let next : page + 1 ≡ suc page = omega arith in
    let ih =
      subst (λ q. Physmap n (i + 1) (page + 1) (at + 1) (put_in i page at f.pages f) q) next
        (fill-Physmap n (i + 1) (page + 1) (at + 1) (put_in i page at f.pages f)) in
    (ih.0, ih.1, IsFilled-put i at page (from_to (suc page) n) f.pages f ih.0 ih.2, ih.3)
