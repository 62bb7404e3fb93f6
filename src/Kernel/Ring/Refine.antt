-- ===== src/Kernel/Ring/Refine.antt =====
-- The rings of kernel/list.c as lists of nodes and of items.
use mathlib.Core.List.{map-append}
use frotznet.Prelude.{
  ◌≡◌, ◌≢◌, refl, true, false, ◌||◌, List, [], ◌∷◌, ◌++◌, arith, ◌==◌, if◌then◌else◌, update,
  length, length-append, map, update_self, ◌∙◌,
}
use frotznet.Kernel.State.{Ptr}
use frotznet.Kernel.Resource.Table.{has, Distinct}
use frotznet.Kernel.Ring.{Links, init, attach_head, attach_tail, add_head, add_tail}

-- From `a` over the nodes `ns` to `b`, forwards by next and backwards by prev.
abbrev pub Joins : Links → Ptr → List Ptr → Ptr → Type 0
Joins h a [] b = (h.next a ≡ b) × (h.prev b ≡ a)
Joins h a (n ∷ ns) b = (h.next a ≡ n) × (h.prev n ≡ a) × Joins h n ns b

-- The list at `l` has the nodes `ns`, which hold the items `ds`.
pub record IsRing (l : Ptr) (ns ds : List Ptr) (h : Links) : Type 0 where
  pub path : Joins h l ns l
  pub distinct : Distinct (l ∷ ns)
  pub counted : h.count l ≡ length ns
  pub items : map h.item ns ≡ ds

-- list_init makes the empty list.
pub init-IsRing : (l : Ptr) (h : Links) → IsRing l [] [] (init l h)
unfolding init
init-IsRing l h = record {
  path = (ground arith, ground arith);
  distinct = (refl, tt);
  counted = ground arith;
  items = refl;
}

module _ (h k : Links) where
  -- A path does not see a write to another node.
  pub Joins-frame :
      (a : Ptr) (ns : List Ptr) (b : Ptr)
      → ((i : Ptr) → has i (a ∷ ns) ≡ true → k.next i ≡ h.next i)
      → ((i : Ptr) → (has i ns || (i == b)) ≡ true → k.prev i ≡ h.prev i)
      → Joins h a ns b
      → Joins k a ns b
  Joins-frame a [] b f g p = (ground (arith, f a, p.0), ground (arith, g b, p.1))
  Joins-frame a (n ∷ ns) b f g p = (
    ground (arith, f a, p.0),
    ground (arith, g n, p.1),
    Joins-frame n ns b (λ i e. f i (ground arith)) (λ i e. g i (ground arith)) p.2,
  )

prev_on_path :
    (h : Links) (a : Ptr) (ns : List Ptr) (b : Ptr)
    → Joins h a ns b
    → has (h.prev b) (a ∷ ns) ≡ true
prev_on_path h a [] b p = ground (arith, p.1)
prev_on_path h a (n ∷ ns) b p = ground (arith, prev_on_path h n ns b p.2)

module _ (l n : Ptr) (h : Links) where
  -- The node is put between the last one and the list.
  appended :
      (a : Ptr) (ns : List Ptr) (k : Links)
      → Joins h a ns l
      → Distinct (a ∷ ns)
      → has l ns ≡ false
      → has n (a ∷ ns) ≡ false
      → n ≢ l
      → ((i : Ptr) → k.next i ≡ (if n == i then l else if h.prev l == i then n else h.next i))
      → ((i : Ptr) → k.prev i ≡ (if l == i then n else if n == i then h.prev l else h.prev i))
      → Joins k a (ns ++ (n ∷ [])) l
  appended a [] k p d out fresh ne f g = (
    ground (arith, f a, p.1),
    ground (arith, g n, p.1),
    (ground (arith, f n), ground (arith, g l)),
  )
  appended a (m ∷ ns) k p d out fresh ne f g = (
    ground (arith, f a, p.0, prev_on_path h m ns l p.2),
    ground (arith, g m, p.1),
    appended m ns k p.2 d.1 (ground arith) (ground arith) ne f g,
  )

has-snoc : (i n : Ptr) (ns : List Ptr) → has i (ns ++ (n ∷ [])) ≡ (has i ns || (i == n))
has-snoc i n [] = ground arith
has-snoc i n (m ∷ ns) = ground (arith, has-snoc i n ns)

Distinct-snoc :
    (n : Ptr) (ns : List Ptr) → Distinct ns → has n ns ≡ false → Distinct (ns ++ (n ∷ []))
Distinct-snoc n [] d h = (refl, tt)
Distinct-snoc n (m ∷ ns) d h =
    (ground (arith, has-snoc m n ns, d.0), Distinct-snoc n ns d.1 (ground arith))

-- A write to the item of another node is not seen.
map-frame :
    (f : Ptr → Ptr) (n v : Ptr) (ns : List Ptr)
    → has n ns ≡ false
    → map (update f n v) ns ≡ map f ns
map-frame f n v [] h = refl
map-frame f n v (m ∷ ns) h =
    let e : update f n v m ≡ f m = ground arith in rw (e, map-frame f n v ns (ground arith)) refl

module _ (l n d : Ptr) (ns ds : List Ptr) (h : Links) (r : IsRing l ns ds h)
    (fresh : has n (l ∷ ns) ≡ false) where
  -- list_add_tail with a node that is not in the ring puts the item at the end of the list.
  pub add_tail-IsRing : IsRing l (ns ++ (n ∷ [])) (ds ++ (d ∷ [])) (add_tail l n d h)
  unfolding add_tail attach_tail
  add_tail-IsRing = record {
    path =
        appended l n h l ns (add_tail l n d h) r.path r.distinct r.distinct.0 fresh (ground arith)
          (λ i. ground (arith, prev_on_path h l ns l r.path))
          (λ i. ground (arith, prev_on_path h l ns l r.path));
    distinct = Distinct-snoc n (l ∷ ns) r.distinct fresh;
    counted = ground (arith, r.counted, length-append {0} ns (n ∷ []));
    items =
        map-append (update h.item n d) ns (n ∷ [])
        ∙ rw (map-frame h.item n d ns (ground arith), r.items, update_self h.item n d) refl;
  }

  -- list_add_head with a node that is not in the ring puts the item at the head of the list.
  pub add_head-IsRing : IsRing l (n ∷ ns) (d ∷ ds) (add_head l n d h)
  unfolding add_head attach_head
  add_head-IsRing = record {
    path = prepended ns r.path r.distinct fresh;
    distinct = (ground (arith, r.distinct.0), (ground arith, r.distinct.1));
    counted = ground (arith, r.counted);
    items = rw (update_self h.item n d, map-frame h.item n d ns (ground arith), r.items) refl;
  }
    where
      prepended :
          (ns : List Ptr)
          → Joins h l ns l
          → Distinct (l ∷ ns)
          → has n (l ∷ ns) ≡ false
          → Joins (add_head l n d h) l (n ∷ ns) l
      prepended [] p u fresh =
          (ground arith, ground (arith, p.0), (ground (arith, p.0), ground (arith, p.0)))
      prepended (m ∷ ns) p u fresh = (
        ground arith,
        ground (arith, p.0),
        (
          ground (arith, p.0, u.0),
          ground (arith, p.0, u.0),
          Joins-frame h (add_head l n d h) m ns l (λ i e. ground (arith, u.0, p.0))
              (λ i e. ground (arith, p.0, u.0, u.1.0)) p.2,
        ),
      )
