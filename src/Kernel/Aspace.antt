-- ===== src/Kernel/Aspace.antt =====
-- kernel/aspace.h and the page tables of kernel/aspace.c. A page table is a function from the number of
-- an entry, so that a write past its 1024 entries can be seen. Masks are written as remainders.
pub mod Span
use frotznet.Prelude.{
  ℕ, zero, suc, ◌+◌, ◌-◌, ◌*◌, ◌/◌, ◌%◌, Bool, ◌||◌, List, [], Option, none, some, ◌==◌, ltb,
  if◌then◌else◌, update,
}
use Prim.Native.Nat.{bit_or}
use frotznet.Kernel.State.{Ptr, rsrc_aspace, Kernel}
use frotznet.Kernel.Resource.{bind}
use frotznet.Kernel.Memory.{Pages}

-- struct __pagegroup_t. `chain` is the number of phys_page_t's on `pages`, and slot i is addr[i % 6] of
-- the one at place i / 6.
pub record Group : Type 0 where
  pub size : ℕ
  pub refcount : ℕ
  pub flags : ℕ
  pub areas : List Ptr
  pub chain : ℕ
  pub slot : ℕ → ℕ

-- struct __area_t
pub record Area : Type 0 where
  pub pgroup : Ptr
  pub virt_addr : ℕ
  pub length : ℕ
  pub maxlength : ℕ

-- struct __aspace_t; `pdir` and `ptab` are the contents of the two pages.
pub record Aspace : Type 0 where
  pub areas : List Ptr
  pub pdir : ℕ → ℕ
  pub ptab : ℕ → ℕ
  pub pdirphys : ℕ

-- The objects by address, the one high table that all address spaces share, the pages and the rest of
-- the kernel.
pub record Vm : Type 0 where
  pub spaces : Ptr → Aspace
  pub areas : Ptr → Area
  pub groups : Ptr → Group
  pub high : ℕ → ℕ
  pub pages : Pages
  pub kernel : Kernel

-- A page table entry: an address of 32 bits, and twelve bits of flags.
abbrev pub entry : ℕ → ℕ → ℕ
entry page flags = page * 4096 % 0x100000000 + flags % 4096

-- aspace_protect
unfoldable pub protect : ℕ → ℕ → (ℕ → ℕ) → ℕ → ℕ
protect virt flags ptab = update ptab virt (ptab virt / 4096 * 4096 + flags % 4096)

-- The loop of aspace_map.
unfoldable pub map_pages : ℕ → ℕ → ℕ → ℕ → (ℕ → ℕ) → ℕ → ℕ
map_pages page virt zero flags ptab = ptab
map_pages page virt (suc len) flags ptab =
    map_pages (page + 1) (virt + 1) len flags (update ptab virt (entry page flags))

-- The loop of aspace_maphi, from entry `at` on; the flags are not masked.
unfoldable pub map_high : ℕ → ℕ → ℕ → ℕ → (ℕ → ℕ) → ℕ → ℕ
map_high page at zero flags high = high
map_high page at (suc len) flags high =
    map_high (page + 1) (at + 1) len flags
      (update high at (bit_or (page * 4096 % 0x100000000) flags))

-- aspace_maphi
unfoldable pub maphi : ℕ → ℕ → ℕ → ℕ → Vm → Vm
unfolding map_high
maphi page virt len flags m = record m { high = map_high page (virt % 1024) len flags m.high }

-- aspace_clr
unfoldable pub clr : ℕ → ℕ → (ℕ → ℕ) → ℕ → ℕ
clr virt zero ptab = ptab
clr virt (suc len) ptab = clr (virt + 1) len (update ptab virt 0)

-- The loop of locate_span; it ends after the last entry, `left` rounds from here.
unfoldable pub search_span : ℕ → ℕ → ℕ → ℕ → ℕ → (ℕ → ℕ) → ℕ
search_span zero len start found at ptab = at
search_span (suc left) len start found at ptab =
    let free = ptab start == 0 in
    let found' = if free then found + 1 else 0 in
    let at' = if free then (if found == 0 then start else at) else 0 in
    let rest = search_span left len (start + 1) found' at' ptab in
    if ltb found len then rest else at

-- The place where locate_span begins: the 2 MB line if none, or none in the table, is given.
unfoldable pub span_start : ℕ → ℕ
span_start start = if ltb start 1 || ltb 1023 start then 512 else start

-- locate_span
unfoldable pub locate_span : ℕ → ℕ → (ℕ → ℕ) → ℕ
unfolding search_span span_start
locate_span start len ptab =
    let first = span_start start in search_span (1024 - first) len first 0 0 ptab

-- aspace_create, given the addresses of the aspace_t and its team and of the two pages, and _cr3.
unfoldable pub create : Ptr → ℕ → ℕ → ℕ → Vm → Option Vm
unfolding bind
create a directory table cr3 m =
    let space : Aspace = record {
      areas = [];
      pdir =
          update (update (λ _. 0) 0 (bit_or table 7)) 512
            (bit_or ((cr3 + 2 * 4096) % 0x100000000) 3);
      ptab = λ _. 0;
      pdirphys = directory;
    } in
    elim (bind a rsrc_aspace m.kernel.kernel_team m.kernel) [
      | none ↦ none
      | some k ↦ some (record m { spaces = update m.spaces a space; kernel = k })
    ]
