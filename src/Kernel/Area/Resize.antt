-- ===== src/Kernel/Area/Resize.antt =====
-- area_resize of kernel/aspace.c.
use frotznet.Prelude.{
  ℕ, zero, suc, ◌+◌, ◌-◌, ◌*◌, ◌/◌, ◌%◌, Option, none, some, ◌==◌, leb, if◌then◌else◌,
}
use frotznet.Prelude.Int.{ℤ, pos}
use frotznet.Kernel.State.{Ptr, rsrc_area, err_resource, err_memory}
use frotznet.Kernel.Resource.{find}
use frotznet.Kernel.Memory.{getpage}
use frotznet.Kernel.Aspace.{Vm, map_pages, locate_span}
use frotznet.Kernel.Area.{Filling, put_in, put_area, put_group, put_space}

-- The loop of area_resize: a phys_page_t is appended when the slots of the last one are used up.
unfoldable pub extend : ℕ → ℕ → ℕ → ℕ → Filling → Option (ℕ × Filling)
unfolding getpage map_pages
extend zero i at chain f = some (chain, f)
extend (suc left) i at chain f = elim (getpage f.pages) [
  | none ↦ none
  | some taken ↦
      extend left (i + 1) (at + 1) (if i % 6 == 0 then chain + 1 else chain)
        (put_in i taken.0 at taken.1 f)
]

-- area_resize by `more` pages, which follow the group's size of pages.
abbrev pub resize_by : Ptr → Ptr → ℕ → Vm → Option (ℤ × Vm)
resize_by a area more m =
    let r = m.areas area in
    let g = m.groups r.pgroup in
    let s = m.spaces a in
    let f : Filling = record { slot = g.slot; ptab = s.ptab; pages = m.pages } in
    elim (extend more g.size (r.virt_addr + g.size) g.chain f) [
      | none ↦ none
      | some (chain, f') ↦
          let g' = record g { size = g.size + more; chain = chain; slot = f'.slot } in
          let r' = record r { length = r.length + more; maxlength = r.maxlength + more } in
          let s' = record s { ptab = f'.ptab } in
          let m' = put_space a s' (put_area area r' (put_group r.pgroup g' m)) in
          some (pos 0, record m' { pages = f'.pages })
    ]

abbrev pub resize_at : Ptr → ℕ → Option Ptr → Vm → Option (ℤ × Vm)
resize_at a size none m = some (err_resource, m)
resize_at a size (some area) m =
    let r = m.areas area in
    let g = m.groups r.pgroup in
    let more = size / 4096 - g.size in
    let at = locate_span (r.virt_addr + g.size) more (m.spaces a).ptab in
    if leb size (g.size * 4096)
    then some (pos 0, m)
    else if at == r.virt_addr + g.size
    then resize_by a area more m
    else some (err_memory, m)

-- area_resize
unfoldable pub resize : Ptr → ℕ → ℕ → Vm → Option (ℤ × Vm)
unfolding find locate_span extend
resize a id size m = resize_at a size (find rsrc_area id m.kernel) m
