-- ===== src/Kernel/Area/RoundTrip.antt =====
-- area_destroy after area_create, in kernel/aspace.c.
use frotznet.Prelude.{
  ℕ, suc, ◌+◌, ◌*◌, ◌/◌, ◌%◌, ◌≤◌, ◌<◌, ◌≡◌, ◌≢◌, refl, sym, ap, ◌∙◌, subst, true, false, ◌||◌,
  some, List, [], ◌∷◌, ◌++◌, arith, ◌==◌, ltb, leb, if◌then◌else◌, length, get_or, Bool-cases, inl,
  inr,
}
use frotznet.Prelude.Int.{pos}
use frotznet.Kernel.State.{Ptr, rsrc_area, Kernel, err_none}
use frotznet.Kernel.Resource.{find, assign, list_remove}
use frotznet.Kernel.Resource.Table.{has, Distinct}
use frotznet.Kernel.Resource.Removal.{list_remove-append, has-last}
use frotznet.Kernel.Memory.{Pages}
use frotznet.Kernel.Memory.Chain.{Free}
use frotznet.Kernel.Aspace.{Group, Vm, clr}
use frotznet.Kernel.Aspace.Span.{locate_span-Free, clr_lem}
use frotznet.Kernel.Area.{is_physmap, pages_of, caller, chain_of, new_group, create}
use frotznet.Kernel.Area.Teardown.{put_chain, drop_group, remove_area, destroy, destroy_at}
use frotznet.Kernel.Area.Drop.{put_all, pushed, slots_of, put_chain_lem, put_all-Free}
use frotznet.Kernel.Area.Create.{place, Supplied, IsCreated, create_lem}
use frotznet.Kernel.Area.Mapped.{if_true, if_false}
use frotznet.Kernel.Area.Destroy.{cleared_is}

slots_of_get :
    (ts : List ℕ) (i : ℕ) (slot : ℕ → ℕ)
    → ((j : ℕ) → j < length ts → slot (i + j) ≡ get_or ts j 0)
    → slots_of slot i (length ts) ≡ ts
slots_of_get [] i slot h = refl
slots_of_get (t ∷ ts) i slot h =
    let e : i + 0 ≡ i = omega arith in
    let first : slot i ≡ t = ap slot (sym e) ∙ h 0 (omega arith) in
    rw
      (
        first,
        slots_of_get ts (i + 1) slot (λ j lt.
            let e' : i + 1 + j ≡ i + suc j = omega arith in ap slot e' ∙ h (suc j) (omega arith)),
      )
      refl

find-assign :
    (area owner : Ptr) (k : Kernel)
    → k.rfree < k.rmax
    → find rsrc_area k.rfree (assign area rsrc_area owner k) ≡ some area
unfolding find assign
find-assign area owner k h =
    let here : (k.rfree == k.rfree) ≡ true = ground arith in
    let this : (area == area) ≡ true = ground arith in
    let inside : ltb k.rfree k.rmax ≡ true = ground arith in
    rw (inside, here, if◌then◌else◌, this, if◌then◌else◌) refl

-- The pages after area_destroy of an area of the group `g`.
abbrev after : Group → Ptr → Pages → Pages
after g area p =
    let left = (g.refcount + 0xffffffff) % 0x100000000 in
    if left == 0
    then drop_group (record g { areas = list_remove area g.areas; refcount = left }) p
    else p

after-last :
    (g : Group) (area : Ptr) (p : Pages)
    → g.refcount ≡ 1
    → is_physmap g.flags ≡ false
    → after g area p ≡ put_chain g.chain 0 g.size g.slot p
after-last g area p e own = rw (e, own, if◌then◌else◌, if◌then◌else◌) refl

-- The only area of its group goes: its pages are free again.
pages_back :
    (a pg area at flags : ℕ) (ts rest : List ℕ) (m m' : Vm)
    → is_physmap flags ≡ false
    → IsCreated a pg area at flags ts rest m m'
    → (remove_area a area m').pages ≡ put_all ts m'.pages
pages_back a pg area at flags ts rest m m' own c =
    let g = new_group (length ts) flags area (m'.groups pg).slot in
    ap (λ r. after (m'.groups r.pgroup) area m'.pages) c.area_is
    ∙ ap (λ g. after g area m'.pages) c.group_is
    ∙ after-last g area m'.pages refl own
    ∙ put_chain_lem (chain_of (length ts)) 0 (length ts) (m'.groups pg).slot m'.pages (omega arith)
    ∙ ap (λ us. put_all us m'.pages)
        (slots_of_get ts 0 (m'.groups pg).slot
          (λ j lt. let e : 0 + j ≡ j = omega arith in rw e (c.slots j lt)))

-- The span of the area is free again, as it was.
ptab_back :
    (a pg area at flags : ℕ) (ts rest : List ℕ) (m m' : Vm)
    → ((v : ℕ) → at ≤ v → v < at + length ts → (m.spaces a).ptab v ≡ 0)
    → IsCreated a pg area at flags ts rest m m'
    → (v : ℕ) → ((remove_area a area m').spaces a).ptab v ≡ (m.spaces a).ptab v
ptab_back a pg area at flags ts rest m m' free c v =
    let old = c.entries v in
    let z = free v in
    ap (λ s. s.ptab v) (cleared_is a area m')
    ∙ ap (λ r. clr r.virt_addr r.length (m'.spaces a).ptab v) c.area_is
    ∙ clr_lem at (length ts) (m'.spaces a).ptab v
    ∙ elim (Bool-cases (ltb v at || leb (at + length ts) v)) [
      | inl out ↦ if_true _ out ∙ old ∙ if_true _ out
      | inr within ↦ if_false _ within ∙ sym (z (ground arith) (ground arith))
    ]

destroy-found :
    (a id area : ℕ) (m : Vm)
    → find rsrc_area id m.kernel ≡ some area
    → has area (m.spaces a).areas ≡ true
    → destroy a id m ≡ (err_none, remove_area a area m)
unfolding destroy
destroy-found a id area m e h = rw (e, destroy_at, h, if◌then◌else◌) refl

-- area_create without AREA_PHYSMAP on a well-formed address space, with enough pages that are free and a
-- free resource number, of a new area and where locate_span finds a span that ends in the table, and
-- then area_destroy of the number that it returned: the call succeeds, the page table and the list of
-- areas are as before, and the pages that were taken are free again, before the others.
pub create-destroy :
    (a pg area : Ptr) (junk : ℕ → ℕ) (size virt addr flags : ℕ) (ts rest : List ℕ) (m : Vm)
    → has area (m.spaces a).areas ≡ false
    → is_physmap flags ≡ false
    → place a size virt m ≢ 0
    → place a size virt m + pages_of size ≤ 1024
    → pages_of size ≡ length ts
    → Free m.pages.pagelist m.pages.freepage (ts ++ rest)
    → Distinct (ts ++ rest)
    → ((t : ℕ) → has t ts ≡ true → t ≢ 0)
    → m.kernel.rfree ≢ 0
    → m.kernel.rfree < m.kernel.rmax
    → (m' : Vm) × (create a pg area junk size virt addr flags m
        ≡ some (
          record { result = pos m.kernel.rfree; addr = place a size virt m * 4096 % 0x100000000 },
          m',
        ))
      × let back = destroy a m.kernel.rfree m' in
        (back.0 ≡ err_none)
        × ((v : ℕ) → (back.1.spaces a).ptab v ≡ (m.spaces a).ptab v)
        × ((back.1.spaces a).areas ≡ (m.spaces a).areas)
        × Free back.1.pages.pagelist back.1.pages.freepage (pushed ts rest)
create-destroy a pg area junk size virt addr flags ts rest m new own found fits n free distinct
      nonzero bound below =
    let supply : Supplied flags addr (pages_of size) m.pages ts rest =
      (n, rw (own, if◌then◌else◌) free) in
    let r = create_lem a pg area junk size virt addr flags ts rest m found supply bound in
    let at = place a size virt m in
    let c = r.2 in
    let new' : has area (r.0.spaces a).areas ≡ true =
      ap (has area) c.areas ∙ has-last area (m.spaces a).areas in
    let done =
      destroy-found a m.kernel.rfree area r.0
        (ap (find rsrc_area m.kernel.rfree) c.kernel ∙ find-assign area (caller m) m.kernel below)
        new' in
    (
      r.0,
      r.1,
      (
        ap (λ o. o.0) done,
        λ v.
            ap (λ o. (o.1.spaces a).ptab v) done
            ∙ ptab_back a pg area at flags ts rest m r.0
                (λ v h h'.
                  locate_span-Free (virt / 4096) (pages_of size) (m.spaces a).ptab v found h
                    (omega arith) (omega arith))
                c v,
        ap (λ o. (o.1.spaces a).areas) done
            ∙ ap (λ s. s.areas) (cleared_is a area r.0)
            ∙ ap (list_remove area) c.areas
            ∙ list_remove-append area (m.spaces a).areas new,
        subst (λ p. Free p.pagelist p.freepage (pushed ts rest))
            (sym (ap (λ o. o.1.pages) done ∙ pages_back a pg area at flags ts rest m r.0 own c))
            (put_all-Free ts rest r.0.pages c.free distinct nonzero),
      ),
    )
