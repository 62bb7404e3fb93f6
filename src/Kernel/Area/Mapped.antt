-- ===== src/Kernel/Area/Mapped.antt =====
-- The page table of an address space and its areas, across the calls of kernel/aspace.c.
use frotznet.Prelude.{
  ℕ, ◌+◌, ◌-◌, ◌≤◌, ◌<◌, ◌≡◌, ◌≢◌, refl, sym, ap, ◌∙◌, subst, Bool, true, false, ◌||◌, some, List,
  [], ◌∷◌, ◌++◌, arith, ltb, leb, if◌then◌else◌, length, Bool-cases, inl, inr, ◌%◌, ◌*◌, ◌/◌,
  ℕ_discrete,
}
use frotznet.Prelude.Int.{pos}
use frotznet.Kernel.State.{Ptr}
use frotznet.Kernel.Resource.Table.{has, Distinct}
use frotznet.Kernel.Resource.Removal.{has-append, Distinct-append}
use frotznet.Kernel.Aspace.{Area, Vm, entry}
use frotznet.Kernel.Aspace.Span.{locate_span-Free}
use frotznet.Kernel.Area.{pages_of, create}
use frotznet.Kernel.Area.Create.{place, Supplied, IsCreated, create_lem}

-- Every area of the address space `a` is mapped: its pages stand in its group's slots and its entries
-- of the page table, which are in the table and belong to no other area.
pub record IsMapped (a : Ptr) (m : Vm) : Type 0 where
  pub distinct : Distinct (m.spaces a).areas
  pub mapped :
      (x : Ptr) (i : ℕ)
      → has x (m.spaces a).areas ≡ true
      → i < (m.areas x).length
      → (m.spaces a).ptab ((m.areas x).virt_addr + i)
        ≡ entry ((m.groups (m.areas x).pgroup).slot i) 7
  pub inside :
      (x : Ptr)
      → has x (m.spaces a).areas ≡ true
      → (m.areas x).virt_addr + (m.areas x).length ≤ 1024
  pub apart :
      (x y : Ptr) (i j : ℕ)
      → has x (m.spaces a).areas ≡ true
      → has y (m.spaces a).areas ≡ true
      → x ≢ y
      → i < (m.areas x).length
      → j < (m.areas y).length
      → (m.areas x).virt_addr + i ≢ (m.areas y).virt_addr + j

used_ne : (p : ℕ) → entry p 7 ≢ 0
used_ne p e = omega arith

pub if_false {ℓ} : {A : Type ℓ} {b : Bool} (x : A) {y : A} → b ≡ false → (if b then x else y) ≡ y
if_false x e = rw (e, if◌then◌else◌) refl

-- A page of an area is used, and no page of a free span is.
outside :
    (a x : Ptr) (m : Vm) (at n i : ℕ)
    → IsMapped a m
    → has x (m.spaces a).areas ≡ true
    → i < (m.areas x).length
    → ((v : ℕ) → at ≤ v → v < at + n → (m.spaces a).ptab v ≡ 0)
    → (ltb ((m.areas x).virt_addr + i) at || leb (at + n) ((m.areas x).virt_addr + i)) ≡ true
outside a x m at n i im h lt free =
    let v = (m.areas x).virt_addr + i in
    let e = im.mapped x i h lt in
    let z = free v in
    elim (Bool-cases (ltb v at || leb (at + n) v)) [
      | inl out ↦ out
      | inr within ↦
          absurd (
            used_ne ((m.groups (m.areas x).pgroup).slot i)
              (sym e ∙ z (ground arith) (ground arith)))
    ]

pub if_true {ℓ} : {A : Type ℓ} {b : Bool} {x : A} (y : A) → b ≡ true → (if b then x else y) ≡ x
if_true y e = rw (e, if◌then◌else◌) refl

-- A new area on a free span joins the others.
module _ (a pg area at flags : ℕ) (ts rest : List ℕ) (m m' : Vm) (im : IsMapped a m)
    (new : has area (m.spaces a).areas ≡ false)
    (own : (x : Ptr) → has x (m.spaces a).areas ≡ true → pg ≢ (m.areas x).pgroup)
    (fits : at + length ts ≤ 1024)
    (free : (v : ℕ) → at ≤ v → v < at + length ts → (m.spaces a).ptab v ≡ 0)
    (c : IsCreated a pg area at flags ts rest m m') where
  abbrev Cell : Ptr → ℕ → Area → Type 0
  Cell x i r =
      i < r.length → (m'.spaces a).ptab (r.virt_addr + i) ≡ entry ((m'.groups r.pgroup).slot i) 7

  abbrev Out : ℕ → Type 0
  Out v = (ltb v at || leb (at + length ts) v) ≡ true

  old : (x : Ptr) → has x (m'.spaces a).areas ≡ true → area ≢ x → has x (m.spaces a).areas ≡ true
  old x h ne =
      let e = has-append x (m.spaces a).areas (area ∷ []) in
      let h' : has x ((m.spaces a).areas ++ (area ∷ [])) ≡ true = ap (has x) (sym c.areas) ∙ h in
      ground arith

  mapped_new : (i : ℕ) → Cell area i (m'.areas area)
  mapped_new i = subst (Cell area i) (sym c.area_is) (λ lt.
      let d : at + i - at ≡ i = omega arith in
      let e = c.entries (at + i) in
      let s = c.slots i lt in
      let within : (ltb (at + i) at || leb (at + length ts) (at + i)) ≡ false = ground arith in
      e ∙ if_false _ within ∙ rw d (ap (λ p. entry p 7) (sym s)))

  mapped_old :
      (x : Ptr) (i : ℕ) → area ≢ x → has x (m.spaces a).areas ≡ true → Cell x i (m'.areas x)
  mapped_old x i ne h = subst (Cell x i) (sym (c.other_areas x ne)) (λ lt.
      c.entries ((m.areas x).virt_addr + i)
      ∙ if_true _ (outside a x m at (length ts) i im h lt free)
      ∙ im.mapped x i h lt
      ∙ ap (λ g. entry (g.slot i) 7) (sym (c.other_groups (m.areas x).pgroup (own x h))))

  range_new : (i : ℕ) → i < (m'.areas area).length → Out ((m'.areas area).virt_addr + i) → ⊥
  range_new i =
      subst (λ r. i < r.length → Out (r.virt_addr + i) → ⊥) (sym c.area_is) (λ lt out. ground arith)

  beyond_old :
      (x : Ptr) (i : ℕ)
      → area ≢ x
      → has x (m.spaces a).areas ≡ true
      → i < (m'.areas x).length
      → Out ((m'.areas x).virt_addr + i)
  beyond_old x i ne h =
      subst (λ r. i < r.length → Out (r.virt_addr + i)) (sym (c.other_areas x ne))
        (λ lt. outside a x m at (length ts) i im h lt free)

  apart_old :
      (x y : Ptr) (i j : ℕ)
      → area ≢ x
      → area ≢ y
      → has x (m.spaces a).areas ≡ true
      → has y (m.spaces a).areas ≡ true
      → x ≢ y
      → i < (m'.areas x).length
      → j < (m'.areas y).length
      → (m'.areas x).virt_addr + i ≢ (m'.areas y).virt_addr + j
  apart_old x y i j nx ny hx hy ne =
      subst
        (λ r. i < r.length → j < (m'.areas y).length → r.virt_addr + i ≢ (m'.areas y).virt_addr + j)
        (sym (c.other_areas x nx))
        (subst
          (λ r. i < (m.areas x).length → j < r.length → (m.areas x).virt_addr + i ≢ r.virt_addr + j)
          (sym (c.other_areas y ny)) (im.apart x y i j hx hy ne))

  IsCreated-IsMapped : IsMapped a m'
  IsCreated-IsMapped = record {
    distinct =
        subst Distinct (sym c.areas) (Distinct-append (m.spaces a).areas area im.distinct new);
    mapped = λ x i h. elim (ℕ_discrete area x) [
      | yes same ↦ subst (λ y. Cell y i (m'.areas y)) same (mapped_new i)
      | no other ↦ mapped_old x i other (old x h other)
    ];
    inside = λ x h. elim (ℕ_discrete area x) [
      | yes same ↦
          subst (λ y. (m'.areas y).virt_addr + (m'.areas y).length ≤ 1024) same
            (subst (λ r. r.virt_addr + r.length ≤ 1024) (sym c.area_is) fits)
      | no other ↦
          subst (λ r. r.virt_addr + r.length ≤ 1024) (sym (c.other_areas x other))
            (im.inside x (old x h other))
    ];
    apart = λ x y i j hx hy ne. elim (ℕ_discrete area x) [
      | yes same ↦ elim (ℕ_discrete area y) [
        | yes same' ↦ absurd (ne (sym same ∙ same'))
        | no other ↦
            subst
              (λ z.
                i < (m'.areas z).length
                → j < (m'.areas y).length
                → (m'.areas z).virt_addr + i ≢ (m'.areas y).virt_addr + j)
              same
              (λ li lj e.
                range_new i li (subst Out (sym e) (beyond_old y j other (old y hy other) lj)))
      ]
      | no other ↦ elim (ℕ_discrete area y) [
        | yes same ↦
            subst
              (λ z.
                i < (m'.areas x).length
                → j < (m'.areas z).length
                → (m'.areas x).virt_addr + i ≢ (m'.areas z).virt_addr + j)
              same
              (λ li lj e. range_new j lj (subst Out e (beyond_old x i other (old x hx other) li)))
        | no other' ↦ apart_old x y i j other other' (old x hx other) (old y hy other') ne
      ]
    ];
  }

-- area_create on a well-formed address space, with enough pages and a free resource number, of an area
-- and a group that are new: where locate_span finds a span that ends in the table, it returns the number
-- and the address of the area, and every area, the new one among them, is mapped to its pages by entries
-- of its own.
pub create-IsMapped :
    (a pg area : Ptr) (junk : ℕ → ℕ) (size virt addr flags : ℕ) (ts rest : List ℕ) (m : Vm)
    → IsMapped a m
    → has area (m.spaces a).areas ≡ false
    → ((x : Ptr) → has x (m.spaces a).areas ≡ true → pg ≢ (m.areas x).pgroup)
    → place a size virt m ≢ 0
    → place a size virt m + pages_of size ≤ 1024
    → Supplied flags addr (pages_of size) m.pages ts rest
    → m.kernel.rfree ≢ 0
    → (m' : Vm) × (create a pg area junk size virt addr flags m
        ≡ some (
          record { result = pos m.kernel.rfree; addr = place a size virt m * 4096 % 0x100000000 },
          m',
        ))
      × ((m'.spaces a).areas ≡ (m.spaces a).areas ++ (area ∷ []))
      × IsMapped a m'
create-IsMapped a pg area junk size virt addr flags ts rest m im new own found fits s bound =
    let at = place a size virt m in
    let r = create_lem a pg area junk size virt addr flags ts rest m found s bound in
    let n = s.0 in
    (
      r.0,
      r.1,
      r.2.areas,
      IsCreated-IsMapped a pg area at flags ts rest m r.0 im new own (omega arith)
          (λ v h h'.
            locate_span-Free (virt / 4096) (pages_of size) (m.spaces a).ptab v found h (omega arith)
              (omega arith))
          r.2,
    )
