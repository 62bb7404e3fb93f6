-- ===== src/Kernel/Memory.antt =====
-- kernel/memory.c: the chain of free pages, and the pools of small blocks. The next pointers that stand
-- in free blocks are kept as the list of the blocks. A call is given the page that kgetpages(1) returns.
pub mod Chain
pub mod Blocks
mod Tests
use frotznet.Prelude.{
  ℕ, zero, suc, ◌+◌, ◌-◌, ◌/◌, ◌%◌, Option, none, some, List, [], ◌∷◌, ◌==◌, if◌then◌else◌, update,
}
use frotznet.Kernel.State.{Ptr}

-- pagelist, freepage, used_pages and total_pages; used_pages is a uint32 and wraps around.
pub record Pages : Type 0 where
  pub pagelist : ℕ → ℕ
  pub freepage : ℕ
  pub used_pages : ℕ
  pub total_pages : ℕ

unfoldable pub putpage : ℕ → Pages → Pages
putpage number p = record p {
  pagelist = update p.pagelist number p.freepage;
  freepage = number;
  used_pages = (p.used_pages + 0xffffffff) % 0x100000000;
}

-- getpage; `none` is the panic without a free page.
unfoldable pub getpage : Pages → Option (ℕ × Pages)
getpage p =
    if p.freepage == 0
    then none
    else some (
      p.freepage,
      record p { freepage = p.pagelist p.freepage; used_pages = (p.used_pages + 1) % 0x100000000 },
    )

-- The loop of memory_init that chains the pages from `bottom` up to `bottom + count - 1`, from the top.
-- `bottom` is not 0: from 0 on the loop of the code, which compares unsigned ints, does not end.
unfoldable pub chain_pages : ℕ → ℕ → Pages → Pages
chain_pages bottom zero p = p
chain_pages bottom (suc count) p =
    let page = bottom + count in
    chain_pages bottom count (record p {
      total_pages = p.total_pages + 1;
      pagelist = update p.pagelist page p.freepage;
      freepage = page;
    })

-- The pages that hold the pagelist: their number, and the first of them.
abbrev pub list_pages : ℕ → ℕ → ℕ
list_pages bottom top = (top - bottom) / 1024 + 1

abbrev pub list_start : ℕ → ℕ → ℕ
list_start bottom top = top - list_pages bottom top

-- memory_init, what it does with the pages.
unfoldable pub init_pages : ℕ → ℕ → Pages → Pages
unfolding chain_pages
init_pages bottom top p =
    chain_pages bottom (list_start bottom top + 1 - bottom)
      (record p { total_pages = 0; used_pages = 0; freepage = 0 })

-- struct _km_map
pub record Pool : Type 0 where
  pub size : ℕ
  pub used_count : ℕ
  pub fresh_count : ℕ
  pub free_count : ℕ
  pub free_chain : List Ptr
  pub fresh_chain : Ptr

-- The table of the pools, with a fresh page each.
abbrev pub pool : ℕ → ℕ → Ptr → Pool
pool size fresh page = record {
  size = size;
  used_count = 0;
  fresh_count = fresh;
  free_count = 0;
  free_chain = [];
  fresh_chain = page;
}

-- A block is cut off the fresh page, and a new page is taken when none is left.
abbrev pub cut_block : Ptr → Pool → Ptr × Pool
cut_block page m =
    let left = m.fresh_count - 1 in
    (
      m.fresh_chain,
      record m {
        used_count = m.used_count + 1;
        fresh_count = if left == 0 then 4096 / m.size else left;
        fresh_chain = if left == 0 then page else m.fresh_chain + m.size;
      },
    )

abbrev pub take_block : Ptr → List Ptr → Pool → Ptr × Pool
take_block page [] m = cut_block page m
take_block page (b ∷ bs) m =
    (b, record m { used_count = m.used_count + 1; free_count = m.free_count - 1; free_chain = bs })

-- kmallocP on a pool
unfoldable pub kmalloc : Ptr → Pool → Ptr × Pool
kmalloc page m = take_block page m.free_chain m

-- kfreeP on a pool
unfoldable pub kfree : Ptr → Pool → Pool
kfree block m = record m {
  free_count = m.free_count + 1;
  used_count = m.used_count - 1;
  free_chain = block ∷ m.free_chain;
}
