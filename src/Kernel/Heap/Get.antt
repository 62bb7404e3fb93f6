-- ===== src/Kernel/Heap/Get.antt =====
-- kernel/memory.c: kgetpage on the table of the kernel's space.
use frotznet.Prelude.{
  ◌∙◌, ◌+◌, ◌-◌, ◌*◌, ◌%◌, ◌≤◌, ◌<◌, ◌≡◌, ◌≢◌, refl, subst, true, false, some, List, [], ◌∷◌, arith,
  ltb, ◌==◌, update, update_ne,
}
use frotznet.Kernel.State.{Ptr}
use frotznet.Kernel.Memory.{Pages, getpage, kfree}
use frotznet.Kernel.Heap.{
  Heap, km16, vpage_of, put_pool, kfree_pool, lower, map_flat, place_page, kgetpage,
}
use frotznet.Kernel.Heap.Map.{Page, Listed, IsHeap, Listed-update, mapped}

-- What kgetpage makes of a heap: the page that was the first of the free ones is mapped at `v`, where
-- nothing was.
pub record Gets (h : Heap) (v : Ptr) (h' : Heap) : Type 0 where
  pub page : Page h'.nextmem v
  pub empty : h.high (vpage_of v) ≡ 0
  pub high : h'.high ≡ update h.high (vpage_of v) (h.pages.freepage * 4096 + 3)
  pub pagelist : h'.pages.pagelist ≡ h.pages.pagelist
  pub freepage : h'.pages.freepage ≡ h.pages.pagelist h.pages.freepage
  pub fresh : (h'.pools km16).fresh_count ≡ (h.pools km16).fresh_count
  pub heap : IsHeap h'

module _ (h : Heap) (ok : IsHeap h) (room : 0x80050000 ≤ h.nextmem)
    (small : h.pages.freepage < 0x100000) where
  -- The pages when the first free one is taken.
  abbrev rest_pages : Pages
  rest_pages = record h.pages {
    freepage = h.pages.pagelist h.pages.freepage;
    used_pages = (h.pages.used_pages + 1) % 0x100000000;
  }

  below-Gets :
      h.freevpages ≡ []
      → (v : Ptr) × (h' : Heap) × (place_page [] h.pages.freepage (record h { pages = rest_pages })
          ≡ some (v, h'))
        × Gets h v h'
  below-Gets none_listed =
      let v = lower h.nextmem 1 in
      let at : v ≡ h.nextmem - 4096 = omega (arith, ok.bounds) in
      let entry = mapped h.pages.freepage (vpage_of v) h.high small in
      let page : Page v v =
        (omega (arith, ok.aligned, ok.bounds), omega arith, omega (arith, ok.bounds)) in
      let x = h.pages.freepage * 4096 + 3 in
      (
        v,
        map_flat h.pages.freepage v 1 3 (record h { pages = rest_pages; nextmem = v }),
        refl,
        record {
          page = page;
          empty =
              ok.below (vpage_of v) (omega (arith, ok.bounds, ok.aligned))
                (omega (arith, ok.bounds, ok.aligned));
          high = entry;
          pagelist = refl;
          freepage = refl;
          fresh = refl;
          heap = record {
            aligned = page.0;
            bounds = (omega (arith, ok.bounds), omega (arith, ok.bounds));
            below = λ i le lt. rw entry (
                update_ne h.high (vpage_of v) x i (omega (arith, ok.bounds, ok.aligned))
                ∙ ok.below i le (omega (arith, ok.bounds)));
            listed = rw none_listed tt;
          };
        },
      )

  listed-Gets :
      (node page : Ptr) (rest : List (Ptr × Ptr))
      → h.freevpages ≡ (node, page) ∷ rest
      → (v : Ptr) × (h' : Heap) × (place_page
            ((node, page) ∷ rest)
            h.pages.freepage
            (record h { pages = rest_pages })
          ≡ some (v, h'))
        × Gets h v h'
  unfolding kfree_pool kfree
  listed-Gets node page rest e =
      let first = subst (Listed h.high h.nextmem) e ok.listed in
      let entry = mapped h.pages.freepage (vpage_of page) h.high small in
      let x = h.pages.freepage * 4096 + 3 in
      let free : (h.high (vpage_of page) == 0) ≡ true = ground (arith, first.1) in
      let freed =
        put_pool km16 (kfree node (h.pools km16))
          (record h { pages = rest_pages; freevpages = rest }) in
      (
        page,
        map_flat h.pages.freepage page 1 3 freed,
        rw free refl,
        record {
          page = first.0;
          empty = first.1;
          high = entry;
          pagelist = refl;
          freepage = refl;
          fresh = refl;
          heap = record {
            aligned = ok.aligned;
            bounds = ok.bounds;
            below = λ i le lt. rw entry (
                update_ne h.high (vpage_of page) x i (omega (arith, first.0, ok.bounds))
                ∙ ok.below i le lt);
            listed =
                rw entry
                  (Listed-update h.high h.nextmem page x rest ok.bounds.0 first.0 first.2 first.3);
          };
        },
      )

  placed-Gets :
      (l : List (Ptr × Ptr))
      → h.freevpages ≡ l
      → (v : Ptr) × (h' : Heap) × (place_page l h.pages.freepage (record h { pages = rest_pages })
          ≡ some (v, h'))
        × Gets h v h'
  placed-Gets [] e = below-Gets e
  placed-Gets ((node, page) ∷ rest) e = listed-Gets node page rest e

-- With a free page and room in the kernel's space, kgetpage succeeds: it maps the first free page at an
-- address of the kernel where nothing was, and what IsHeap says still holds.
pub kgetpage-Gets :
    (h : Heap)
    → IsHeap h
    → 0x80050000 ≤ h.nextmem
    → h.pages.freepage ≢ 0
    → h.pages.freepage < 0x100000
    → (v : Ptr) × (h' : Heap) × (kgetpage h ≡ some (v, h')) × Gets h v h'
unfolding kgetpage getpage
kgetpage-Gets h ok room some_free small =
    let (v, h', e, gets) = placed-Gets h ok room small h.freevpages refl in
    let free : (h.pages.freepage == 0) ≡ false = ground arith in
    let enough : ltb h.nextmem 0x80050000 ≡ false = ground arith in
    (v, h', rw (kgetpage, getpage, free, enough) e, gets)
