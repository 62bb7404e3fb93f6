-- ===== src/Kernel/Area/Create.antt =====
-- What area_create and area_create_uber leave behind, in kernel/aspace.c.
use frotznet.Prelude.{
  ℕ, zero, suc, ◌+◌, ◌-◌, ◌*◌, ◌/◌, ◌%◌, ◌<◌, ◌≡◌, ◌≢◌, refl, sym, ap, ◌∙◌, subst, Bool, false,
  ◌||◌, some, List, [], ◌∷◌, ◌++◌, arith, ◌==◌, ltb, leb, if◌then◌else◌, update, update_self,
  update_ne, length, get_or, Bool-cases, inl, inr,
}
use frotznet.Prelude.Int.{pos}
use frotznet.Kernel.State.{Ptr, rsrc_area, Kernel}
use frotznet.Kernel.Resource.{bind, assign}
use frotznet.Kernel.Resource.Table.{from_to}
use frotznet.Kernel.Memory.{Pages}
use frotznet.Kernel.Memory.Chain.{Free}
use frotznet.Kernel.Aspace.{Group, Aspace, Vm, entry, locate_span}
use frotznet.Kernel.Area.{
  is_physmap, pages_of, Filling, fill, zero_slots, chain_of, new_group, caller, store_new, Answer,
  create_at, bind_area, create,
}
use frotznet.Kernel.Area.Fill.{IsFilled, fill-Free, fill-Physmap}

-- The page where area_create puts an area.
abbrev pub place : Ptr → ℕ → ℕ → Vm → ℕ
place a size virt m = locate_span (virt / 4096) (pages_of size) (m.spaces a).ptab

-- The pages that area_create takes, and what is left of the free ones: under AREA_PHYSMAP the ones from
-- `addr` on, and else the first free ones.
abbrev pub Supplied : ℕ → ℕ → ℕ → Pages → List ℕ → List ℕ → Type 0
Supplied flags addr n p ts rest =
    (n ≡ length ts)
    × (if is_physmap flags
        then (ts ≡ from_to (addr / 4096) n) × Free p.pagelist p.freepage rest
        else Free p.pagelist p.freepage (ts ++ rest))

-- The state after area_create has put `area`, of the pages `ts` in the group `pg`, at the page `at`.
pub record IsCreated (a pg area at flags : ℕ) (ts rest : List ℕ) (m m' : Vm) : Type 0 where
  pub areas : (m'.spaces a).areas ≡ (m.spaces a).areas ++ (area ∷ [])
  pub entries :
      (v : ℕ)
      → (m'.spaces a).ptab v ≡ (
          if ltb v at || leb (at + length ts) v
          then (m.spaces a).ptab v
          else entry (get_or ts (v - at) 0) 7)
  pub slots : (j : ℕ) → j < length ts → (m'.groups pg).slot j ≡ get_or ts j 0
  pub area_is :
      m'.areas area
      ≡ record { pgroup = pg; virt_addr = at; length = length ts; maxlength = length ts }
  pub group_is : m'.groups pg ≡ new_group (length ts) flags area (m'.groups pg).slot
  pub other_areas : (x : Ptr) → area ≢ x → m'.areas x ≡ m.areas x
  pub other_groups : (x : Ptr) → pg ≢ x → m'.groups x ≡ m.groups x
  pub other_spaces : (x : Ptr) → a ≢ x → m'.spaces x ≡ m.spaces x
  pub free : Free m'.pages.pagelist m'.pages.freepage rest
  pub kernel : m'.kernel ≡ assign area rsrc_area (caller m) m.kernel

-- The slots that are zeroed lie behind the pages.
zero_slots_lem : (i left j : ℕ) (slot : ℕ → ℕ) → j < i → zero_slots i left slot j ≡ slot j
unfolding zero_slots
zero_slots_lem i zero j slot h = refl
zero_slots_lem i (suc left) j slot h =
    zero_slots_lem (i + 1) left j (update slot i 0) (omega arith)
    ∙ update_ne slot i 0 j (λ e. omega arith)

abbrev result_of : Ptr → ℕ → Vm → Answer
result_of area at m = record { result = pos m.kernel.rfree; addr = at * 4096 % 0x100000000 }

abbrev made : ℕ → ℕ → ℕ → ℕ → ℕ → ℕ → Filling → Vm → Vm
made a pg area at flags n f m = record (store_new a pg area n at flags f m) {
  kernel = assign area rsrc_area (caller m) m.kernel;
}

abbrev new_space : Ptr → Ptr → Filling → Vm → Aspace
new_space a area f m = record (m.spaces a) {
  areas = (m.spaces a).areas ++ (area ∷ []);
  ptab = f.ptab;
}

abbrev filled_group : ℕ → ℕ → ℕ → Filling → Group
filled_group size flags area f =
    new_group size flags area (zero_slots size (6 * chain_of size - size) f.slot)

made-IsCreated :
    (a pg area at flags : ℕ) (ts rest : List ℕ) (m : Vm) (f g : Filling)
    → f.ptab ≡ (m.spaces a).ptab
    → IsFilled 0 at ts f g
    → Free g.pages.pagelist g.pages.freepage rest
    → IsCreated a pg area at flags ts rest m (made a pg area at flags (length ts) g m)
made-IsCreated a pg area at flags ts rest m f g e h c =
    let space = update_self m.spaces a (new_space a area g m) in
    let group = update_self m.groups pg (filled_group (length ts) flags area g) in
    record {
      areas = ap (λ s. s.areas) space;
      entries = λ v.
          ap (λ s. s.ptab v) space
          ∙ h.entries v
          ∙ ap
              (λ t.
                if ltb v at || leb (at + length ts) v then t v else entry (get_or ts (v - at) 0) 7)
              e;
      slots = λ j lt.
          let d : j - 0 ≡ j = omega arith in
          ap (λ s. s.slot j) group
          ∙ zero_slots_lem (length ts) (6 * chain_of (length ts) - length ts) j g.slot lt
          ∙ h.slots j
          ∙ rw d (ground arith);
      area_is = update_self m.areas area _;
      group_is = group ∙ ap (λ s. new_group (length ts) flags area s.slot) (sym group);
      other_areas = λ x ne. update_ne m.areas area _ x ne;
      other_groups = λ x ne. update_ne m.groups pg _ x ne;
      other_spaces = λ x ne. update_ne m.spaces a _ x ne;
      free = c;
      kernel = refl;
    }

-- The loop of area_create, on the pages that it is supplied with.
fill-Supplied :
    (flags addr n at : ℕ) (ts rest : List ℕ) (f : Filling)
    → Supplied flags addr n f.pages ts rest
    → (g : Filling) × (fill (is_physmap flags) n 0 (addr / 4096) at f ≡ some g)
      × IsFilled 0 at ts f g
      × Free g.pages.pagelist g.pages.freepage rest
fill-Supplied flags addr n at ts rest f s = elim (Bool-cases (is_physmap flags)) [
  | inl phys ↦
      let t : (ts ≡ from_to (addr / 4096) n) × Free f.pages.pagelist f.pages.freepage rest =
        subst
          (λ b.
            if b
            then (ts ≡ from_to (addr / 4096) n) × Free f.pages.pagelist f.pages.freepage rest
            else Free f.pages.pagelist f.pages.freepage (ts ++ rest))
          phys s.1 in
      let r = fill-Physmap n 0 (addr / 4096) at f in
      (
        r.0,
        rw phys r.1,
        subst (λ us. IsFilled 0 at us f r.0) (sym t.0) r.2,
        subst (λ p. Free p.pagelist p.freepage rest) (sym r.3) t.1,
      )
  | inr own ↦
      let t : Free f.pages.pagelist f.pages.freepage (ts ++ rest) =
        subst
          (λ b.
            if b
            then (ts ≡ from_to (addr / 4096) n) × Free f.pages.pagelist f.pages.freepage rest
            else Free f.pages.pagelist f.pages.freepage (ts ++ rest))
          own s.1 in
      let r = fill-Free ts rest 0 (addr / 4096) at f t in (r.0, rw (own, s.0) r.1, r.2, r.3)
]

assign-id :
    (area : Ptr) (owner : Ptr) (k : Kernel)
    → ((assign area rsrc_area owner k).resources area).id ≡ k.rfree
unfolding assign
assign-id area owner k = ap (λ r. r.id) (update_self k.resources area _)

pub bind-assign :
    (r owner : Ptr) (k : Kernel)
    → k.rfree ≢ 0
    → bind r rsrc_area owner k ≡ some (assign r rsrc_area owner k)
unfolding bind
bind-assign r owner k h = let e : (k.rfree == 0) ≡ false = ground arith in rw e refl

pub bind_area-bound :
    (area owner : Ptr) (m : Vm)
    → m.kernel.rfree ≢ 0
    → bind_area area owner m
      ≡ some (m.kernel.rfree, record m { kernel = assign area rsrc_area owner m.kernel })
bind_area-bound area owner m h =
    rw (bind_area, bind-assign area owner m.kernel h)
      (ap (λ id. some (id, record m { kernel = assign area rsrc_area owner m.kernel }))
        (assign-id area owner m.kernel))

create_at-made :
    (a pg area : Ptr) (junk : ℕ → ℕ) (n at addr flags : ℕ) (m : Vm) (g : Filling)
    → fill
        (is_physmap flags)
        n
        0
        (addr / 4096)
        at
        (record { slot = junk; ptab = (m.spaces a).ptab; pages = m.pages })
      ≡ some g
    → m.kernel.rfree ≢ 0
    → create_at a pg area junk n at addr flags m
      ≡ some (result_of area at m, made a pg area at flags n g m)
create_at-made a pg area junk n at addr flags m g e h =
    rw (create_at, e, bind_area-bound area (caller m) (store_new a pg area n at flags g m) h) refl

if_false {ℓ} :
    {A : Type ℓ} {b : Bool} (x : A) {y z : A} → b ≡ false → y ≡ z → (if b then x else y) ≡ z
if_false x e h = rw (e, if◌then◌else◌) h

-- area_create
pub create_lem :
    (a pg area : Ptr) (junk : ℕ → ℕ) (size virt addr flags : ℕ) (ts rest : List ℕ) (m : Vm)
    → place a size virt m ≢ 0
    → Supplied flags addr (pages_of size) m.pages ts rest
    → m.kernel.rfree ≢ 0
    → (m' : Vm) × (create a pg area junk size virt addr flags m
        ≡ some (
          record { result = pos m.kernel.rfree; addr = place a size virt m * 4096 % 0x100000000 },
          m',
        ))
      × IsCreated a pg area (place a size virt m) flags ts rest m m'
unfolding create
create_lem a pg area junk size virt addr flags ts rest m found s bound =
    let at = place a size virt m in
    let f : Filling = record { slot = junk; ptab = (m.spaces a).ptab; pages = m.pages } in
    let r = fill-Supplied flags addr (pages_of size) at ts rest f s in
    let same : pages_of size ≡ length ts = s.0 in
    let there : (at == 0) ≡ false = ground arith in
    let room : (m.kernel.rfree == 0) ≡ false = ground arith in
    (
      made a pg area at flags (length ts) r.0 m,
      if_false _ there (create_at-made a pg area junk (pages_of size) at addr flags m r.0 r.1 bound)
          ∙ ap (λ n. some (result_of area at m, made a pg area at flags n r.0 m)) same,
      made-IsCreated a pg area at flags ts rest m f r.0 refl r.2 r.3,
    )
