-- ===== src/Kernel/Ring/Search.antt =====
-- The first entry of a ring that holds an item, and the list without it: openblt/kernel/list.c.
use frotznet.Prelude.{
  ◌+◌, ◌≡◌, refl, true, false, ◌||◌, Option, none, some, List, [], ◌∷◌, arith, ◌==◌, if◌then◌else◌,
  length, Bool-cases, inl, inr, map, ap, ==_iff,
}
use frotznet.Kernel.State.{Ptr}
use frotznet.Kernel.Resource.{list_remove}
use frotznet.Kernel.Resource.Table.{has, Distinct}
use frotznet.Kernel.Ring.{Links}
use frotznet.Kernel.Ring.Refine.{Joins, Joins-frame}

-- The neighbours of a node on a path lie on it.
pub prev_in :
    (h : Links) (a x : Ptr) (ns : List Ptr) (b : Ptr)
    → Joins h a ns b
    → has x ns ≡ true
    → has (h.prev x) (a ∷ ns) ≡ true
prev_in h a x [] b p i = cc
prev_in h a x (n ∷ ns) b p i = ground (arith, p.1, prev_in h n x ns b p.2)

pub next_in :
    (h : Links) (a x : Ptr) (ns : List Ptr) (b : Ptr)
    → Joins h a ns b
    → has x ns ≡ true
    → (has (h.next x) ns || (h.next x == b)) ≡ true
next_in h a x [] b p i = cc
next_in h a x (n ∷ []) b p i = ground (arith, p.2.0)
next_in h a x (n ∷ m ∷ ns) b p i = ground (arith, p.2.0, next_in h n x (m ∷ ns) b p.2)

pub has-list_remove :
    (i x : Ptr) (ns : List Ptr) → has i ns ≡ false → has i (list_remove x ns) ≡ false
unfolding list_remove
has-list_remove i x [] h = refl
has-list_remove i x (n ∷ ns) h = ground (arith, has-list_remove i x ns)

pub Distinct-list_remove : (x : Ptr) (ns : List Ptr) → Distinct ns → Distinct (list_remove x ns)
unfolding list_remove
Distinct-list_remove x [] d = tt
Distinct-list_remove x (n ∷ ns) d = elim (Bool-cases (n == x)) [
  | inl e ↦ rw e d.1
  | inr e ↦ rw e (has-list_remove n x ns d.0, Distinct-list_remove x ns d.1)
]

pub length-list_remove :
    (x : Ptr) (ns : List Ptr) → has x ns ≡ true → length (list_remove x ns) + 1 ≡ length ns
unfolding list_remove
length-list_remove x [] h = cc
length-list_remove x (n ∷ ns) h = ground (arith, length-list_remove x ns)

module _ (l x : Ptr) (h k : Links)
    (f : (i : Ptr) → k.next i ≡ (if h.prev x == i then h.next x else h.next i))
    (g : (i : Ptr) → k.prev i ≡ (if h.next x == i then h.prev x else h.prev i)) where
  pub without_first :
      (a n : Ptr) (ns : List Ptr)
      → n ≡ x
      → Joins h a (n ∷ ns) l
      → Distinct (a ∷ n ∷ ns)
      → has l (n ∷ ns) ≡ false
      → Joins k a ns l
  without_first a n [] e p d out =
      (ground (arith, f a, p.1, p.2.0), ground (arith, g l, p.1, p.2.0))
  without_first a n (m ∷ ns) e p d out = (
    ground (arith, f a, p.1, p.2.0),
    ground (arith, g m, p.1, p.2.0),
    Joins-frame h k m ns l (λ i o. ground (arith, f i, p.1, d.0))
        (λ i o. ground (arith, g i, p.2.0, d.1.1.0)) p.2.2,
  )

  -- The path without the node `x`.
  pub removed :
      (a : Ptr) (ns : List Ptr)
      → Joins h a ns l
      → Distinct (a ∷ ns)
      → has l ns ≡ false
      → has x ns ≡ true
      → Joins k a (list_remove x ns) l
  unfolding list_remove
  removed a [] p d out i = cc
  removed a (n ∷ ns) p d out i = elim (Bool-cases (n == x)) [
    | inl e ↦ rw e (without_first a n ns ((==_iff n x).0 e) p d out)
    | inr e ↦ rw e (
      ground (arith, f a, p.0, d.0, prev_in h n x ns l p.2),
      ground (arith, g n, p.1, d.1.0, next_in h n x ns l p.2),
      removed n ns p.2 d.1 (ground arith) (ground arith),
    )
  ]

-- The first node whose item is `d`.
abbrev pub search : (Ptr → Ptr) → Ptr → List Ptr → Option Ptr
search item d [] = none
search item d (n ∷ ns) = if item n == d then some n else search item d ns

pub search-has :
    (item : Ptr → Ptr) (d x : Ptr) (ns : List Ptr) → search item d ns ≡ some x → has x ns ≡ true
search-has item d x [] e = cc
search-has item d x (n ∷ ns) e = ground (arith, search-has item d x ns)

pub search-list_remove :
    (item : Ptr → Ptr) (d x : Ptr) (ns : List Ptr)
    → Distinct ns
    → search item d ns ≡ some x
    → map item (list_remove x ns) ≡ list_remove d (map item ns)
unfolding list_remove
search-list_remove item d x [] u e = refl
search-list_remove item d x (n ∷ ns) u e = elim (Bool-cases (item n == d)) [
  | inl f ↦ let same : (n == x) ≡ true = ground arith in rw (f, same) refl
  | inr f ↦
      let later : search item d ns ≡ some x = ground arith in
      let other : (n == x) ≡ false = ground (arith, search-has item d x ns later, u.0) in
      rw (f, other, if◌then◌else◌)
        (ap (λ xs. item n ∷ xs) (search-list_remove item d x ns u.1 later))
]

pub absent-list_remove :
    (item : Ptr → Ptr) (d : Ptr) (ns : List Ptr)
    → search item d ns ≡ none
    → list_remove d (map item ns) ≡ map item ns
unfolding list_remove
absent-list_remove item d [] e = refl
absent-list_remove item d (n ∷ ns) e =
    let other : (item n == d) ≡ false = ground arith in
    rw (other, if◌then◌else◌) (ap (λ xs. item n ∷ xs) (absent-list_remove item d ns (ground arith)))

pub search-absent :
    (item : Ptr → Ptr) (d : Ptr) (ns : List Ptr)
    → search item d ns ≡ none
    → has d (map item ns) ≡ false
search-absent item d [] e = refl
search-absent item d (n ∷ ns) e = ground (arith, search-absent item d ns)

pub search-present :
    (item : Ptr → Ptr) (d x : Ptr) (ns : List Ptr)
    → search item d ns ≡ some x
    → has d (map item ns) ≡ true
search-present item d x [] e = cc
search-present item d x (n ∷ ns) e = ground (arith, search-present item d x ns)
