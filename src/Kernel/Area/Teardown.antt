-- ===== src/Kernel/Area/Teardown.antt =====
-- area_destroy and aspace_destroy of kernel/aspace.c.
use frotznet.Prelude.{ℕ, zero, suc, ◌+◌, ◌-◌, ◌%◌, Option, none, some, [], ◌∷◌, ◌==◌, if◌then◌else◌}
use frotznet.Prelude.Int.{ℤ}
use frotznet.Kernel.State.{Ptr, rsrc_area, err_none, err_resource}
use frotznet.Kernel.Resource.{find, list_remove}
use frotznet.Kernel.Resource.Table.{has}
use frotznet.Kernel.Task.{release}
use frotznet.Kernel.Memory.{Pages, putpage}
use frotznet.Kernel.Aspace.{Group, Vm, clr}
use frotznet.Kernel.Area.{is_physmap, put_group, put_space}

-- The inner loop of area_destroy: at most six pages of a phys_page_t, and no more than `size`.
unfoldable pub put_slots : ℕ → ℕ → ℕ → (ℕ → ℕ) → Pages → Pages
unfolding putpage
put_slots zero i size slot p = p
put_slots (suc left) i size slot p =
    let rest = put_slots left (i + 1) (size - 1) slot (putpage (slot i) p) in
    if size == 0 then p else rest

-- The loop of area_destroy over the phys_page_t's, where it gives the pages back.
unfoldable pub put_chain : ℕ → ℕ → ℕ → (ℕ → ℕ) → Pages → Pages
unfolding put_slots
put_chain zero i size slot p = p
put_chain (suc chain) i size slot p =
    put_chain chain (i + 6) (size - 6) slot (put_slots 6 i size slot p)

-- The teardown of a page group that no area refers to; a physical mapping keeps its pages.
abbrev pub drop_group : Group → Pages → Pages
drop_group g p = if is_physmap g.flags then p else put_chain g.chain 0 g.size g.slot p

-- area_destroy when the area is in the address space.
abbrev pub remove_area : Ptr → Ptr → Vm → Vm
remove_area a area m =
    let r = m.areas area in
    let s = m.spaces a in
    let space = record s {
      areas = list_remove area s.areas;
      ptab = clr r.virt_addr r.length s.ptab;
    } in
    let g = m.groups r.pgroup in
    let g' = record g {
      areas = list_remove area g.areas;
      refcount = (g.refcount + 0xffffffff) % 0x100000000;
    } in
    let m' = put_space a space (put_group r.pgroup g' m) in
    record m' {
      pages = if g'.refcount == 0 then drop_group g' m.pages else m.pages;
      kernel = release area m.kernel;
    }

abbrev pub destroy_at : Ptr → Option Ptr → Vm → ℤ × Vm
destroy_at a none m = (err_resource, m)
destroy_at a (some area) m =
    if has area (m.spaces a).areas then (err_none, remove_area a area m) else (err_resource, m)

-- area_destroy
unfoldable pub destroy : Ptr → ℕ → Vm → ℤ × Vm
unfolding find list_remove clr put_chain release
destroy a id m = destroy_at a (find rsrc_area id m.kernel) m

-- The loop of aspace_destroy, with a bound on its rounds.
unfoldable pub destroy_areas : ℕ → Ptr → Vm → Option Vm
unfolding destroy
destroy_areas zero a m = none
destroy_areas (suc rounds) a m = elim (m.spaces a).areas [
  | [] ↦ some m
  | area ∷ _ ↦ destroy_areas rounds a (destroy a (m.kernel.resources area).id m).1
]

-- aspace_destroy, up to the release of its resource; the two pages and the blocks go back to kernel/memory.c.
unfoldable pub destroy_space : ℕ → Ptr → Vm → Option Vm
unfolding destroy_areas release
destroy_space rounds a m = elim (destroy_areas rounds a m) [
  | none ↦ none
  | some m' ↦ some (record m' { kernel = release a m'.kernel })
]
