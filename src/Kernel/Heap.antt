-- ===== src/Kernel/Heap.antt =====
-- kernel/memory.c: the kernel's own pages, in the table `high` that maps its space, and the pools on top
-- of them. `none` is a panic, or the stop in the debugger.
mod Bits
pub mod Map
pub mod Get
pub mod Free
mod Tests
use frotznet.Prelude.{
  ℕ, zero, suc, ◌+◌, ◌-◌, ◌*◌, ◌/◌, ◌%◌, Option, none, some, List, [], ◌∷◌, ltb, leb, ◌==◌,
  if◌then◌else◌, update,
}
use frotznet.Kernel.State.{Ptr}
use frotznet.Kernel.Memory.{
  Pages, Pool, putpage, getpage, kfree, init_pages, list_pages, list_start,
}
use frotznet.Kernel.Aspace.{map_high}

-- The globals; `freevpages` has the node and the data of each element of freevpagelist, and `pools` is
-- km_map.
pub record Heap : Type 0 where
  pub pages : Pages
  pub high : ℕ → ℕ
  pub nextmem : ℕ
  pub freevpages : List (Ptr × Ptr)
  pub pools : ℕ → Pool

abbrev pub kmmax : ℕ
kmmax = 7

-- KM16, the pool of a node_t
abbrev pub km16 : ℕ
km16 = 0

-- The entry of an address in the table.
abbrev pub vpage_of : Ptr → ℕ
vpage_of vaddr = vaddr / 0x1000 % 0x400

abbrev pub put_pool : ℕ → Pool → Heap → Heap
put_pool size m h = record h { pools = update h.pools size m }

-- kfreeP
unfoldable pub kfree_pool : ℕ → Ptr → Heap → Option Heap
unfolding kfree
kfree_pool size block h =
    if leb kmmax size then none else some (put_pool size (kfree block (h.pools size)) h)

-- nextmem -= 4096 * count, on 32 bits
abbrev pub lower : ℕ → ℕ → ℕ
lower nextmem count = (nextmem + 0x100000000 - 4096 * count % 0x100000000) % 0x100000000

-- aspace_maphi of flat
abbrev pub map_flat : ℕ → Ptr → ℕ → ℕ → Heap → Heap
map_flat page vaddr len flags h = record h {
  high = map_high page (vpage_of vaddr) len flags h.high;
}

-- The page of kgetpage, where `pg` is the physical one: an address that is free again, or the next below.
abbrev pub place_page : List (Ptr × Ptr) → ℕ → Heap → Option (Ptr × Heap)
place_page [] pg h =
    let next = lower h.nextmem 1 in some (next, map_flat pg next 1 3 (record h { nextmem = next }))
place_page ((node, page) ∷ rest) pg h =
    elim (kfree_pool km16 node (record h { freevpages = rest })) [
      | none ↦ none
      | some h' ↦
          if h'.high (vpage_of page) == 0 then some (page, map_flat pg page 1 3 h') else none
    ]

-- kgetpage, without the physical address
unfoldable pub kgetpage : Heap → Option (Ptr × Heap)
unfolding getpage kfree_pool map_high
kgetpage h = elim (getpage h.pages) [
  | none ↦ none
  | some (pg, pages) ↦
      if ltb h.nextmem 0x80050000
      then none
      else place_page h.freevpages pg (record h { pages = pages })
]

-- The loop of kgetpages.
unfoldable pub map_each : ℕ → Ptr → Heap → Option Heap
map_each zero vaddr h = some h
map_each (suc count) vaddr h = elim (getpage h.pages) [
  | none ↦ none
  | some (pg, pages) ↦
      map_each count (vaddr + 4096) (map_flat pg vaddr 1 3 (record h { pages = pages }))
]

abbrev pub pages_at : Ptr → Option Heap → Option (Ptr × Heap)
pages_at vaddr none = none
pages_at vaddr (some h) = some (vaddr, h)

unfoldable pub kgetpages : ℕ → Heap → Option (Ptr × Heap)
unfolding kgetpage map_each
kgetpages count h =
    let next = lower h.nextmem count in
    if count == 1
    then kgetpage h
    else pages_at next (map_each count next (record h { nextmem = next }))

unfoldable pub kmappages : ℕ → ℕ → ℕ → Heap → Ptr × Heap
unfolding map_high
kmappages phys count flags h =
    let next = lower h.nextmem count in
    (next, map_flat phys next count flags (record h { nextmem = next }))

-- A block from the fresh page of a pool; a new page comes where it was the last.
abbrev pub new_page : ℕ → Ptr → Option (Ptr × Heap) → Option (Ptr × Heap)
new_page size block none = none
new_page size block (some (page, h)) =
    some (block, put_pool size (record (h.pools size) { fresh_chain = page }) h)

abbrev pub take : List Ptr → ℕ → Heap → Option (Ptr × Heap)
take (b ∷ bs) size h =
    let m = h.pools size in
    let m' = record m {
      used_count = m.used_count + 1;
      free_count = m.free_count - 1;
      free_chain = bs;
    } in
    some (b, put_pool size m' h)
take [] size h =
    let m = h.pools size in
    let left = m.fresh_count - 1 in
    let m' = record m { used_count = m.used_count + 1 } in
    if left == 0
    then new_page size m.fresh_chain
        (kgetpages 1 (put_pool size (record m' { fresh_count = 4096 / m.size }) h))
    else some (
      m.fresh_chain,
      put_pool size (record m' { fresh_count = left; fresh_chain = m.fresh_chain + m.size }) h,
    )

-- kmallocP
unfoldable pub kmalloc_pool : ℕ → Heap → Option (Ptr × Heap)
unfolding kgetpages
kmalloc_pool size h = if leb kmmax size then none else take (h.pools size).free_chain size h

-- The pool for a size, by the table of the code.
abbrev pub size_map : ℕ → ℕ
size_map size =
    if leb size 16
    then km16
    else if leb size 32
    then 1
    else if leb size 64
    then 2
    else if leb size 96
    then 3
    else if leb size 128
    then 4
    else if leb size 192
    then 5
    else 6

-- kmallocB
unfoldable pub kmalloc_size : ℕ → Heap → Option (Ptr × Heap)
unfolding kmalloc_pool
kmalloc_size size h = if ltb size 256 then kmalloc_pool (size_map size) h else none

-- kfreeB
unfoldable pub kfree_size : ℕ → Ptr → Heap → Option Heap
unfolding kfree_pool
kfree_size size block h = if ltb size 256 then kfree_pool (size_map size) block h else none

abbrev pub free_vpage : Ptr → Option (Ptr × Heap) → Option Heap
free_vpage vaddr none = none
free_vpage vaddr (some (node, h)) = some (record h { freevpages = (node, vaddr) ∷ h.freevpages })

unfoldable pub kfreepage : Ptr → Heap → Option Heap
unfolding putpage kmalloc_pool
kfreepage vaddr h =
    let vpage = vpage_of vaddr in
    if h.high vpage == 0
    then none
    else free_vpage vaddr (
        kmalloc_pool km16 (record h {
          pages = putpage (h.high vpage / 0x1000) h.pages;
          high = update h.high vpage 0;
        }))

-- The pools' first pages.
unfoldable pub fill_pools : ℕ → ℕ → Heap → Option Heap
unfolding kgetpages
fill_pools zero i h = some h
fill_pools (suc left) i h = elim (kgetpages 1 h) [
  | none ↦ none
  | some (page, h') ↦
      fill_pools left (i + 1) (put_pool i (record (h'.pools i) { fresh_chain = page }) h')
]

unfoldable pub memory_init : ℕ → ℕ → Heap → Option Heap
unfolding init_pages map_high fill_pools
memory_init bottom top h =
    let count = list_pages bottom top in
    let h' = (kmappages (list_start bottom top) count 3 h).1 in
    fill_pools kmmax 0 (record h' { pages = init_pages bottom top h'.pages })
