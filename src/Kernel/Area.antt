-- ===== src/Kernel/Area.antt =====
-- The calls on areas, in kernel/aspace.c. A call is given the addresses that kmalloc returns. The slots
-- of the phys_page_t's that it allocates hold what `junk` says until they are written. A call is `none`
-- where the kernel panics, without a free page or a free resource number.
pub mod Teardown
pub mod Resize
pub mod Fill
pub mod Drop
pub mod Create
pub mod Mapped
pub mod Destroy
pub mod RoundTrip
mod Tests
use frotznet.Prelude.{
  ℕ, zero, suc, ◌+◌, ◌-◌, ◌*◌, ◌/◌, ◌%◌, Bool, true, false, not, Option, none, some, List, [], ◌∷◌,
  ◌++◌, ◌==◌, ltb, leb, if◌then◌else◌, update,
}
use Prim.Native.Nat.{bit_and}
use frotznet.Prelude.Int.{ℤ, pos}
use frotznet.Kernel.State.{Ptr, null, rsrc_area, Kernel, err_none, err_resource, err_memory}
use frotznet.Kernel.Resource.{find, bind, list_remove}
use frotznet.Kernel.Resource.Table.{has}
use frotznet.Kernel.Task.{release}
use frotznet.Kernel.Memory.{Pages, putpage, getpage}
use frotznet.Kernel.Aspace.{Group, Area, Aspace, Vm, map_pages, clr, locate_span}

-- AREA_PHYSMAP
abbrev pub is_physmap : ℕ → Bool
is_physmap flags = not (bit_and flags 1 == 0)

-- A size in bytes as a number of pages, at least one.
unfoldable pub pages_of : ℕ → ℕ
pages_of size =
    let pages = if size % 4096 == 0 then size / 4096 else size / 4096 + 1 in
    if ltb pages 1 then 1 else pages

-- What the loops that fill a page group change: its slots, the page table and the free pages.
pub record Filling : Type 0 where
  pub slot : ℕ → ℕ
  pub ptab : ℕ → ℕ
  pub pages : Pages

-- The page for one round: the given one of a physical mapping, or else a free one.
abbrev pub next_page : Bool → ℕ → Pages → Option (ℕ × Pages)
next_page physmap page pages = if physmap then some (page, pages) else getpage pages

-- One round: the page is mapped at `at` and stands in slot `i`.
abbrev pub put_in : ℕ → ℕ → ℕ → Pages → Filling → Filling
put_in i page at pages f = record {
  slot = update f.slot i page;
  ptab = map_pages page at 1 7 f.ptab;
  pages = pages;
}

-- The loop of area_create over the pages, `left` of them to go.
unfoldable pub fill : Bool → ℕ → ℕ → ℕ → ℕ → Filling → Option Filling
unfolding getpage map_pages
fill physmap zero i page at f = some f
fill physmap (suc left) i page at f = elim (next_page physmap page f.pages) [
  | none ↦ none
  | some taken ↦
      let next = if physmap then taken.0 + 1 else taken.0 in
      fill physmap left (i + 1) next (at + 1) (put_in i taken.0 at taken.1 f)
]

-- The slots that are left over in the last phys_page_t are zeroed.
unfoldable pub zero_slots : ℕ → ℕ → (ℕ → ℕ) → ℕ → ℕ
zero_slots i zero slot = slot
zero_slots i (suc left) slot = zero_slots (i + 1) left (update slot i 0)

-- The number of phys_page_t's for `size` pages, six in each.
abbrev pub chain_of : ℕ → ℕ
chain_of size = (size + 5) / 6

-- A page group of `size` pages with its one area.
abbrev pub new_group : ℕ → ℕ → Ptr → (ℕ → ℕ) → Group
new_group size flags area slot = record {
  size = size;
  refcount = 1;
  flags = flags;
  areas = area ∷ [];
  chain = chain_of size;
  slot = slot;
}

abbrev pub put_area : Ptr → Area → Vm → Vm
put_area area r m = record m { areas = update m.areas area r }

abbrev pub put_group : Ptr → Group → Vm → Vm
put_group pg g m = record m { groups = update m.groups pg g }

abbrev pub put_space : Ptr → Aspace → Vm → Vm
put_space a s m = record m { spaces = update m.spaces a s }

-- rsrc_bind of the area to `owner`; the result is its number.
abbrev pub bind_area : Ptr → Ptr → Vm → Option (ℕ × Vm)
bind_area area owner m = elim (bind area rsrc_area owner m.kernel) [
  | none ↦ none
  | some k ↦ some ((k.resources area).id, record m { kernel = k })
]

-- The answer of a call: its result and what it leaves in *addr.
pub record Answer : Type 0 where
  pub result : ℤ
  pub addr : ℕ

abbrev pub answer_area : ℕ → Option (ℕ × Vm) → Option (Answer × Vm)
answer_area addr none = none
answer_area addr (some (id, m)) = some (record { result = pos id; addr = addr }, m)

-- The owner of the running task, who gets the new area.
abbrev pub caller : Vm → Ptr
caller m = (m.kernel.resources m.kernel.current).owner

-- What area_create stores when its loop has ended.
abbrev pub store_new : Ptr → Ptr → Ptr → ℕ → ℕ → ℕ → Filling → Vm → Vm
store_new a pg area size at flags f m =
    let s = m.spaces a in
    let space = record s { areas = s.areas ++ (area ∷ []); ptab = f.ptab } in
    let r : Area = record { pgroup = pg; virt_addr = at; length = size; maxlength = size } in
    let slot = zero_slots size (6 * chain_of size - size) f.slot in
    let m = put_space a space (put_area area r (put_group pg (new_group size flags area slot) m)) in
    record m { pages = f.pages }

-- area_create from the place `at` on.
abbrev pub create_at : Ptr → Ptr → Ptr → (ℕ → ℕ) → ℕ → ℕ → ℕ → ℕ → Vm → Option (Answer × Vm)
create_at a pg area junk size at addr flags m =
    let f : Filling = record { slot = junk; ptab = (m.spaces a).ptab; pages = m.pages } in
    elim (fill (is_physmap flags) size 0 (addr / 4096) at f) [
      | none ↦ none
      | some f' ↦
          let m' = store_new a pg area size at flags f' m in
          answer_area (at * 4096 % 0x100000000) (bind_area area (caller m) m')
    ]

-- area_create in the address space `a`; `addr` is what *addr holds before the call.
unfoldable pub create : Ptr → Ptr → Ptr → (ℕ → ℕ) → ℕ → ℕ → ℕ → ℕ → Vm → Option (Answer × Vm)
unfolding pages_of locate_span fill zero_slots bind
create a pg area junk size virt addr flags m =
    let size = pages_of size in
    let at = locate_span (virt / 4096) size (m.spaces a).ptab in
    if at == 0
    then some (record { result = err_memory; addr = addr }, m)
    else create_at a pg area junk size at addr flags m

-- The loop of area_create_uber, which maps nothing.
unfoldable pub number_slots : ℕ → ℕ → ℕ → (ℕ → ℕ) → ℕ → ℕ
number_slots i page zero slot = slot
number_slots i page (suc left) slot = number_slots (i + 1) (page + 1) left (update slot i page)

-- area_create_uber
unfoldable pub create_uber : Ptr → Ptr → (ℕ → ℕ) → ℕ → ℕ → Vm → Option (ℕ × Vm)
unfolding pages_of number_slots zero_slots bind
create_uber pg area junk size addr m =
    let size = pages_of size in
    let slot =
      zero_slots size (6 * chain_of size - size) (number_slots 0 (addr / 4096) size junk) in
    let r : Area = record { pgroup = pg; virt_addr = 0; length = size; maxlength = size } in
    bind_area area m.kernel.kernel_team
      (put_area area r (put_group pg (new_group size 1 area slot) m))

-- The loop of area_clone, from slot `i` on.
unfoldable pub map_slots : ℕ → ℕ → ℕ → (ℕ → ℕ) → (ℕ → ℕ) → ℕ → ℕ
unfolding map_pages
map_slots zero i at slot ptab = ptab
map_slots (suc left) i at slot ptab =
    map_slots left (i + 1) (at + 1) slot (map_pages (slot i) at 1 7 ptab)

-- area_clone of the area `old` to the place `at`.
abbrev pub store_clone : Ptr → Ptr → Ptr → ℕ → Vm → Vm
store_clone a area old at m =
    let r = m.areas old in
    let g = m.groups r.pgroup in
    let g = record g {
      refcount = (g.refcount + 1) % 0x100000000;
      areas = g.areas ++ (area ∷ []);
    } in
    let s = m.spaces a in
    let space = record s {
      areas = s.areas ++ (area ∷ []);
      ptab = map_slots r.length 0 at g.slot s.ptab;
    } in
    put_space a space (put_area area (record r { virt_addr = at }) (put_group r.pgroup g m))

abbrev pub clone_at : Ptr → Ptr → ℕ → ℕ → Option Ptr → Vm → Option (Answer × Vm)
clone_at a area virt addr none m = some (record { result = err_resource; addr = addr }, m)
clone_at a area virt addr (some old) m =
    let at = locate_span (virt / 4096) (m.areas old).length (m.spaces a).ptab in
    if at == 0
    then some (record { result = err_memory; addr = addr }, m)
    else answer_area (at * 4096 % 0x100000000)
        (bind_area area (caller m) (store_clone a area old at m))

-- area_clone
unfoldable pub clone : Ptr → Ptr → ℕ → ℕ → ℕ → Vm → Option (Answer × Vm)
unfolding find locate_span map_slots bind
clone a area id virt addr m = clone_at a area virt addr (find rsrc_area id m.kernel) m
