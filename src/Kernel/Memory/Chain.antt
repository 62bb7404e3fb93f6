-- ===== src/Kernel/Memory/Chain.antt =====
-- The chain of free pages of kernel/memory.c.
use frotznet.Prelude.{
  ℕ, zero, suc, ◌+◌, ◌-◌, ◌≤◌, ◌<◌, ◌≡◌, ◌≢◌, refl, true, false, some, List, [], ◌∷◌, ◌++◌, arith,
  ◌==◌, if◌then◌else◌, update, Bool-cases, inl, inr, append-nil, update_self, ap, subst, sym, ◌∙◌,
  ◌%◌,
}
use frotznet.Kernel.Resource.Table.{has, from_to, has-from_to}
use frotznet.Kernel.Memory.{Pages, putpage, getpage, chain_pages, list_start, init_pages}

-- The free pages, from the first that getpage gives.
abbrev pub Free : (ℕ → ℕ) → ℕ → List ℕ → Type 0
Free m f [] = f ≡ 0
Free m f (i ∷ is) = (f ≡ i) × (i ≢ 0) × Free m (m i) is

Free-frame :
    (m : ℕ → ℕ) (n v : ℕ) (f : ℕ) (is : List ℕ)
    → has n is ≡ false
    → Free m f is
    → Free (update m n v) f is
Free-frame m n v f [] h c = c
Free-frame m n v f (i ∷ is) h c =
    let same : update m n v i ≡ m i = ground arith in
    (c.0, c.1, rw same (Free-frame m n v (m i) is (ground arith) c.2))

-- putpage of a page that is not free puts it first among the free pages.
pub putpage-Free :
    (n : ℕ) (is : List ℕ) (p : Pages)
    → Free p.pagelist p.freepage is
    → has n is ≡ false
    → n ≢ 0
    → Free (putpage n p).pagelist (putpage n p).freepage (n ∷ is)
unfolding putpage
putpage-Free n is p c h ne = (
  refl,
  ne,
  subst (λ f. Free (update p.pagelist n p.freepage) f is) (sym (ground arith))
      (Free-frame p.pagelist n p.freepage p.freepage is h c),
)

-- getpage takes the first free page.
pub getpage-Free :
    (n : ℕ) (is : List ℕ) (p : Pages)
    → Free p.pagelist p.freepage (n ∷ is)
    → (q : Pages) × (getpage p ≡ some (n, q)) × Free q.pagelist q.freepage is
unfolding getpage
getpage-Free n is p c =
    let e : (p.freepage == 0) ≡ false = ground (arith, c.0, c.1) in
    let q = record p { freepage = p.pagelist n; used_pages = (p.used_pages + 1) % 0x100000000 } in
    (q, rw (e, if◌then◌else◌, c.0) refl, c.2)

from_to-append : (i n : ℕ) (is : List ℕ) → from_to i (suc n) ++ is ≡ from_to i n ++ ((i + n) ∷ is)
from_to-append i zero is = ap (λ j. j ∷ is) (omega arith)
from_to-append i (suc n) is =
    ap (λ js. i ∷ js)
      (from_to-append (suc i) n is ∙ ap (λ j. from_to (suc i) n ++ (j ∷ is)) (omega arith))

not_has : (n : ℕ) (is : List ℕ) → (has n is ≡ true → ⊥) → has n is ≡ false
not_has n is h = elim (Bool-cases (has n is)) [ inl e ↦ absurd (h e) | inr e ↦ e ]

chain_pages-Free :
    (bottom count : ℕ) (is : List ℕ) (p : Pages)
    → 0 < bottom
    → Free p.pagelist p.freepage is
    → ((i : ℕ) → has i is ≡ true → bottom + count ≤ i)
    → Free
        (chain_pages bottom count p).pagelist
        (chain_pages bottom count p).freepage
        (from_to bottom count ++ is)
unfolding chain_pages
chain_pages-Free bottom zero is p pos c out = c
chain_pages-Free bottom (suc count) is p pos c out =
    let page = bottom + count in
    let fresh : has page is ≡ false = not_has page is (λ h. omega (arith, out page h)) in
    let q = record p {
      total_pages = p.total_pages + 1;
      pagelist = update p.pagelist page p.freepage;
      freepage = page;
    } in
    let next =
      subst (λ f. Free (update p.pagelist page p.freepage) f is)
        (sym (update_self p.pagelist page p.freepage))
        (Free-frame p.pagelist page p.freepage p.freepage is fresh c) in
    subst
      (λ js. Free (chain_pages bottom count q).pagelist (chain_pages bottom count q).freepage js)
      (sym (from_to-append bottom count is))
      (chain_pages-Free bottom count (page ∷ is) q pos (refl, omega arith, next)
        (λ i e. ground (arith, out i)))

-- memory_init, with a bottom page that is not 0 and room for the pagelist, puts the pages from the bottom one up to the first page of the pagelist on the chain of
-- free pages, in order: that page, which holds the list itself, is among them.
init_pages-Free :
    (bottom top : ℕ) (p : Pages)
    → 0 < bottom
    → bottom ≤ list_start bottom top
    → Free
        (init_pages bottom top p).pagelist
        (init_pages bottom top p).freepage
        (from_to bottom (list_start bottom top + 1 - bottom))
      × (has (list_start bottom top) (from_to bottom (list_start bottom top + 1 - bottom)) ≡ true)
unfolding init_pages
init_pages-Free bottom top p pos h = (
  subst (λ is. Free (init_pages bottom top p).pagelist (init_pages bottom top p).freepage is)
      (append-nil _)
      (chain_pages-Free bottom (list_start bottom top + 1 - bottom) []
        (record p { total_pages = 0; used_pages = 0; freepage = 0 }) pos refl (λ i e. cc)),
  (has-from_to bottom (list_start bottom top + 1 - bottom) (list_start bottom top)).1
      (h, omega (arith, h)),
)
