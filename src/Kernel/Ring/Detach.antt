-- ===== src/Kernel/Ring/Detach.antt =====
-- Taking an item out of a ring of kernel/list.c.
use frotznet.Prelude.{
  ℕ, zero, suc, ◌<◌, ◌≡◌, refl, true, false, Option, none, some, List, [], ◌∷◌, arith, ◌==◌,
  if◌then◌else◌, length, Bool-cases, inl, inr, map, ap, ◌∙◌, sym, subst,
}
use frotznet.Prelude.Int.{ℤ, negsuc}
use frotznet.Kernel.State.{Ptr, err_none}
use frotznet.Kernel.Resource.{list_remove}
use frotznet.Kernel.Resource.Table.{has}
use frotznet.Kernel.Ring.{Links, unlink, unlink_back, detach_node, detach_head, detach_from, detach}
use frotznet.Kernel.Ring.Refine.{Joins, IsRing}
use frotznet.Kernel.Ring.Search.{
  removed, without_first, prev_in, next_in, has-list_remove, Distinct-list_remove,
  length-list_remove, search, search-has, search-list_remove, absent-list_remove, search-absent,
  search-present,
}

abbrev outcome : Ptr → Links → Option Ptr → ℤ × Links
outcome l h none = (negsuc 0, h)
outcome l h (some x) = (err_none, unlink_back l x h)

-- With fuel for each node and the end, the loop takes out the first node whose item is `d`.
detach_from-outcome :
    (l d : Ptr) (h : Links) (fuel : ℕ) (a : Ptr) (ns : List Ptr)
    → Joins h a ns l
    → has l ns ≡ false
    → length ns < fuel
    → detach_from fuel l d (h.next a) h ≡ outcome l h (search h.item d ns)
unfolding detach_from
detach_from-outcome l d h zero a ns p out lt = absurd (omega arith)
detach_from-outcome l d h (suc fuel) a [] p out lt =
    let e : (h.next a == l) ≡ true = ground (arith, p.0) in rw (e, if◌then◌else◌) refl
detach_from-outcome l d h (suc fuel) a (n ∷ ns) p out lt =
    let e : (n == l) ≡ false = ground arith in
    let rest = detach_from-outcome l d h fuel n ns p.2 (ground arith) (omega arith) in
    rw (p.0, e, if◌then◌else◌)
      (elim (Bool-cases (h.item n == d)) [
        | inl f ↦ rw (f, if◌then◌else◌) refl
        | inr f ↦ rw (f, if◌then◌else◌) rest
      ])

module _ (l : Ptr) (ns ds : List Ptr) (h : Links) (r : IsRing l ns ds h) where
  unlinked :
      (x d : Ptr)
      → search h.item d ns ≡ some x
      → IsRing l (list_remove x ns) (list_remove d ds) (unlink_back l x h)
  unlinked x d e =
      let i = search-has h.item d x ns e in
      record {
        path =
            removed l x h (unlink_back l x h)
              (λ j. ground (arith, next_in h l x ns l r.path i, prev_in h l x ns l r.path i))
              (λ j. ground (arith)) l ns r.path r.distinct r.distinct.0 i;
        distinct = (has-list_remove l x ns r.distinct.0, Distinct-list_remove x ns r.distinct.1);
        counted = ground (arith, r.counted, length-list_remove x ns i);
        items = search-list_remove h.item d x ns r.distinct.1 e ∙ ap (list_remove d) r.items;
      }

  detached_at :
      (d : Ptr) (o : Option Ptr)
      → search h.item d ns ≡ o
      → (ms : List Ptr) × IsRing l ms (list_remove d ds) (outcome l h o).1
        × ((outcome l h o).0 ≡ (if has d ds then err_none else negsuc 0))
  detached_at d none e = (
    ns,
    record {
      path = r.path;
      distinct = r.distinct;
      counted = r.counted;
      items = sym (absent-list_remove h.item d ns e) ∙ ap (list_remove d) r.items;
    },
    rw (sym r.items, search-absent h.item d ns e) refl,
  )
  detached_at d (some x) e =
      (list_remove x ns, unlinked x d e, rw (sym r.items, search-present h.item d x ns e) refl)

  -- list_detach and list_remove on the ring of a list take the first entry that is equal out of the
  -- list, and return ERR_NONE if there is one and -1 if not.
  pub detach-IsRing :
      (d : Ptr)
      → (ms : List Ptr) × IsRing l ms (list_remove d ds) (detach l d h).1
        × ((detach l d h).0 ≡ (if has d ds then err_none else negsuc 0))
  unfolding detach
  detach-IsRing d =
      let e =
        detach_from-outcome l d h (suc (h.count l)) l ns r.path r.distinct.0
          (omega (arith, r.counted)) in
      rw e (detached_at d (search h.item d ns) refl)

abbrev pub head : List Ptr → Option Ptr
head [] = none
head (d ∷ ds) = some d

abbrev pub tail : List Ptr → List Ptr
tail [] = []
tail (d ∷ ds) = ds

-- What taking the first item off leaves.
abbrev pub Popped : Ptr → List Ptr → Option Ptr × Links → Type 0
Popped l ds (d, k) = (d ≡ head ds) × ((ms : List Ptr) × IsRing l ms (tail ds) k)

module _ (l : Ptr) (h : Links) where
  without_head :
      (n : Ptr) (ns : List Ptr)
      → IsRing l (n ∷ ns) (map h.item (n ∷ ns)) h
      → IsRing l ns (map h.item ns) (unlink l n h)
  without_head n ns r = record {
    path =
        without_first l n h (unlink l n h) (λ j. ground arith)
          (λ j. ground (arith, r.path.1, r.distinct.0)) l n ns refl r.path r.distinct r.distinct.0;
    distinct = (ground (arith, r.distinct.0), r.distinct.1.1);
    counted = ground (arith, r.counted);
    items = refl;
  }

  at_list : ((ms : List Ptr) × IsRing l ms [] h) → Popped l [] (detach_node l l h)
  at_list u = let e : (l == l) ≡ true = ground arith in rw (e, if◌then◌else◌) (refl, u)

  at_node :
      (n : Ptr) {ds : List Ptr}
      → (n == l) ≡ false
      → ((ms : List Ptr) × IsRing l ms ds (unlink l n h))
      → Popped l (h.item n ∷ ds) (detach_node l n h)
  at_node n e u = rw (e, if◌then◌else◌, Popped) (refl, u)

  popped :
      (ns ds : List Ptr)
      → IsRing l ns ds h
      → map h.item ns ≡ ds
      → Popped l ds (detach_node l (h.next l) h)
  popped [] ds r e =
      subst (λ z. Popped l ds (detach_node l z h)) (sym r.path.0)
        (subst (λ z. Popped l z (detach_node l l h)) e
          (at_list (
            [],
            record { path = r.path; distinct = r.distinct; counted = r.counted; items = refl },
          )))
  popped (n ∷ ns) ds r e =
      subst (λ z. Popped l ds (detach_node l z h)) (sym r.path.0)
        (subst (λ z. Popped l z (detach_node l n h)) e
          (at_node n (ground (arith, r.distinct.0)) (
            ns,
            without_head n ns (record {
              path = r.path;
              distinct = r.distinct;
              counted = r.counted;
              items = refl;
            }),
          )))

-- list_detach_head and list_remove_head take the first item off the list, if there is one.
pub detach_head-IsRing :
    (l : Ptr) (ns ds : List Ptr) (h : Links) → IsRing l ns ds h → Popped l ds (detach_head l h)
unfolding detach_head
detach_head-IsRing l ns ds h r = popped l h ns ds r r.items
