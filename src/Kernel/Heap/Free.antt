-- ===== src/Kernel/Heap/Free.antt =====
-- kernel/memory.c: kfreepage, after kgetpage too.
use frotznet.Prelude.{
  ℕ, ap, ◌∙◌, ◌+◌, ◌-◌, ◌*◌, ◌/◌, ◌≤◌, ◌<◌, ◌≡◌, ◌≢◌, refl, false, some, List, [], ◌∷◌, arith, ◌==◌,
  update, update_self, update_ne,
}
use frotznet.Kernel.State.{Ptr}
use frotznet.Kernel.Memory.{Pages, Pool, putpage}
use frotznet.Kernel.Heap.{Heap, km16, vpage_of, put_pool, kgetpage, take, kmalloc_pool, kfreepage}
use frotznet.Kernel.Heap.Map.{addresses, Page, IsHeap, Listed-update, unlisted_mapped}
use frotznet.Kernel.Heap.Get.{Gets, kgetpage-Gets}

-- A node for the list, while the pool has a block that is not the last of its page.
node_taken :
    (bs : List Ptr) (h : Heap)
    → 1 < (h.pools km16).fresh_count
    → (node : Ptr) × (m : Pool) × (take bs km16 h ≡ some (node, put_pool km16 m h))
node_taken [] h more =
    let m = h.pools km16 in
    let left : (m.fresh_count - 1 == 0) ≡ false = ground arith in
    (
      m.fresh_chain,
      record m {
        used_count = m.used_count + 1;
        fresh_count = m.fresh_count - 1;
        fresh_chain = m.fresh_chain + m.size;
      },
      rw left refl,
    )
node_taken (b ∷ bs) h more =
    let m = h.pools km16 in
    (
      b,
      record m { used_count = m.used_count + 1; free_count = m.free_count - 1; free_chain = bs },
      refl,
    )

-- What kfreepage makes of a heap in which `v` is mapped.
pub record Frees (h : Heap) (v : Ptr) (h' : Heap) : Type 0 where
  pub high : h'.high ≡ update h.high (vpage_of v) 0
  pub pages : h'.pages ≡ putpage (h.high (vpage_of v) / 4096) h.pages
  pub listed : addresses h'.freevpages ≡ v ∷ addresses h.freevpages
  pub heap : IsHeap h'

-- kfreepage of a page that is mapped succeeds, while the pool of the nodes need not be refilled.
kfreepage-Frees :
    (h : Heap) (v : Ptr)
    → IsHeap h
    → Page h.nextmem v
    → h.high (vpage_of v) ≢ 0
    → 1 < (h.pools km16).fresh_count
    → (h' : Heap) × (kfreepage v h ≡ some h') × Frees h v h'
unfolding kfreepage kmalloc_pool
kfreepage-Frees h v ok page used more =
    let there : (h.high (vpage_of v) == 0) ≡ false = ground arith in
    let unmapped = record h {
      pages = putpage (h.high (vpage_of v) / 4096) h.pages;
      high = update h.high (vpage_of v) 0;
    } in
    let (node, m, e) = node_taken (h.pools km16).free_chain unmapped more in
    let out = unlisted_mapped h.high h.nextmem v h.freevpages used ok.listed in
    (
      record (put_pool km16 m unmapped) { freevpages = (node, v) ∷ h.freevpages },
      rw (kfreepage, there, kmalloc_pool, e) refl,
      record {
        high = refl;
        pages = refl;
        listed = refl;
        heap = record {
          aligned = ok.aligned;
          bounds = ok.bounds;
          below = λ i le lt.
              update_ne h.high (vpage_of v) 0 i (omega (arith, page, ok.bounds)) ∙ ok.below i le lt;
          listed = (
            page,
            update_self h.high (vpage_of v) 0,
            out,
            Listed-update h.high h.nextmem v 0 h.freevpages ok.bounds.0 page out ok.listed,
          );
        };
      },
    )

-- The heap after a page was taken and given back: the table and the chain of free pages are as they
-- were, and the address is the first of those that are free again.
pub record Back (h : Heap) (v : Ptr) (h' : Heap) : Type 0 where
  pub high : (i : ℕ) → h'.high i ≡ h.high i
  pub freepage : h'.pages.freepage ≡ h.pages.freepage
  pub pagelist : (i : ℕ) → h'.pages.pagelist i ≡ h.pages.pagelist i
  pub heap : IsHeap h'

Gets-entry :
    (h : Heap) (v : Ptr) (h' : Heap)
    → Gets h v h'
    → h'.high (vpage_of v) ≡ h.pages.freepage * 4096 + 3
Gets-entry h v h' g =
    ap (λ (m : ℕ → ℕ). m (vpage_of v)) g.high
    ∙ update_self h.high (vpage_of v) (h.pages.freepage * 4096 + 3)

update-update_back : (f : ℕ → ℕ) (p x y : ℕ) → f p ≡ y → (i : ℕ) → update (update f p x) p y i ≡ f i
update-update_back f p x y e i = ground arith

update_back : (f : ℕ → ℕ) (p y : ℕ) → f p ≡ y → (i : ℕ) → update f p y i ≡ f i
update_back f p y e i = ground arith

Gets-Frees-Back : (h : Heap) (v : Ptr) (h' h'' : Heap) → Gets h v h' → Frees h' v h'' → Back h v h''
unfolding putpage
Gets-Frees-Back h v h' h'' g f =
    let n = h.pages.freepage in
    let page : h'.high (vpage_of v) / 4096 ≡ n = omega (arith, Gets-entry h v h' g) in
    record {
      high = λ i.
          rw (f.high, g.high) (update-update_back h.high (vpage_of v) (n * 4096 + 3) 0 g.empty i);
      freepage = ap (λ (p : Pages). p.freepage) f.pages ∙ page;
      pagelist = λ i.
          rw (f.pages, page, g.pagelist, g.freepage)
            (update_back h.pages.pagelist n (h.pages.pagelist n) refl i);
      heap = f.heap;
    }

-- Where IsHeap holds, some page below the number 2 ^ 20 is the first free one, nextmem is 0x80050000 or
-- more and the fresh page of the nodes' pool has two blocks or more, kgetpage and then kfreepage of its
-- result both succeed. Every entry of the kernel's table, the first free page and the list of the pages
-- are then as before, and IsHeap holds: nothing is mapped from entry 0x4f, behind the image of the kernel, up to
-- nextmem, and the addresses on freevpagelist
-- are pages from there on, not mapped and all different.
pub kfreepage-kgetpage :
    (h : Heap)
    → IsHeap h
    → 0x80050000 ≤ h.nextmem
    → h.pages.freepage ≢ 0
    → h.pages.freepage < 0x100000
    → 1 < (h.pools km16).fresh_count
    → (v : Ptr) × (h' : Heap) × (h'' : Heap) × (kgetpage h ≡ some (v, h'))
      × (kfreepage v h' ≡ some h'')
      × Back h v h''
kfreepage-kgetpage h ok room some_free small more =
    let (v, h', e, g) = kgetpage-Gets h ok room some_free small in
    let there : h'.high (vpage_of v) ≢ 0 = λ z. absurd (omega (arith, z, Gets-entry h v h' g)) in
    let (h'', e', f) = kfreepage-Frees h' v g.heap g.page there (rw g.fresh more) in
    (v, h', h'', e, e', Gets-Frees-Back h v h' h'' g f)
