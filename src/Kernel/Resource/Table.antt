-- ===== src/Kernel/Resource/Table.antt =====
-- The resource map of kernel/resource.c with its chain of free entries.
use frotznet.Prelude.{
  ℕ, zero, suc, ◌+◌, ◌<◌, ◌≤◌, ◌≡◌, ◌≢◌, ◌↔◌, refl, Bool, true, false, ◌||◌, none, some, List, [],
  ◌∷◌, arith, ◌==◌, if◌then◌else◌, update,
}
use frotznet.Kernel.State.{Ptr, RsrcType, rsrc_none, same_type, Slot, Kernel}
use frotznet.Kernel.Resource.{find, assign, init}

-- The numbers on the chain that begins at `f`.
abbrev pub Chain : (ℕ → Slot) → ℕ → List ℕ → Type 0
Chain m f [] = f ≡ 0
Chain m f (i ∷ is) = (f ≡ i) × (i ≢ 0) × Chain m (m i).next is

abbrev pub has : ℕ → List ℕ → Bool
has i [] = false
has i (j ∷ js) = (i == j) || has i js

abbrev pub Distinct : List ℕ → Type 0
Distinct [] = Unit
Distinct (i ∷ is) = (has i is ≡ false) × Distinct is

pub record IsTable (k : Kernel) (free : List ℕ) : Type 0 where
  pub chain : Chain k.rmap k.rfree free
  pub distinct : Distinct free
  pub inside : (i : ℕ) → has i free ≡ true → i < k.rmax
  pub unused : (i : ℕ) → has i free ≡ true → (k.rmap i).resource ≡ k.null_resource
  pub nobody : (k.resources k.null_resource).kind ≡ rsrc_none
  pub bound :
      (i : ℕ)
      → i < k.rmax
      → i ≢ 0
      → has i free ≡ false
      → ((k.rmap i).resource ≢ k.null_resource) × ((k.resources (k.rmap i).resource).id ≡ i)

-- A chain does not see an entry that is not on it.
pub Chain-frame :
    (m n : ℕ → Slot) (f : ℕ) (is : List ℕ)
    → ((i : ℕ) → has i is ≡ true → (n i).next ≡ (m i).next)
    → Chain m f is
    → Chain n f is
Chain-frame m n f [] same c = c
Chain-frame m n f (i ∷ is) same c =
    let rest = Chain-frame m n (m i).next is (λ j h. same j (ground arith)) c.2 in
    (c.0, c.1, rw (same i (ground arith)) rest)

-- `r` is no entry of the map yet.
abbrev pub IsFresh : Ptr → Kernel → Type 0
IsFresh r k = (r ≢ k.null_resource) × ((i : ℕ) → (k.rmap i).resource ≢ r)

module _ (r : Ptr) (type : RsrcType) (owner : Ptr) (k : Kernel) where
  assign-rmap :
      (assign r type owner k).rmap
      ≡ update k.rmap k.rfree (record (k.rmap k.rfree) { resource = r })
  unfolding assign
  assign-rmap = refl

  assign-rmax : (assign r type owner k).rmax ≡ k.rmax
  unfolding assign
  assign-rmax = refl

  assign-rfree : (assign r type owner k).rfree ≡ (k.rmap k.rfree).next
  unfolding assign
  assign-rfree = refl

  assign-null : (assign r type owner k).null_resource ≡ k.null_resource
  unfolding assign
  assign-null = refl

  assign-resources :
      (assign r type owner k).resources
      ≡ update k.resources r
          (record { id = k.rfree; kind = type; owner = owner; rights = []; queue = []; name = [] })
  unfolding assign
  assign-resources = refl

  -- rsrc_find after rsrc_bind: the first free number finds the new resource, under its own type and no
  -- other, and every other number finds what it found before.
  pub assign-find :
      (i : ℕ) (free : List ℕ)
      → IsTable k (i ∷ free)
      → IsFresh r k
      → (t : RsrcType) (j : ℕ)
      → find t j (assign r type owner k)
        ≡ (if j == i then (if same_type type t then some r else none) else find t j k)
  unfolding find
  assign-find i free v fresh t j =
      rw (assign-rmax, assign-rmap, assign-resources)
        (ground (arith, v.chain.0, v.inside i, fresh.1 j))

  -- rsrc_bind of a resource that is no entry of the map yet takes the first number off the chain of free
  -- ones and keeps the map well-formed: the chain has no number twice and lies in the map, and every
  -- other number but 0 is bound to a resource that carries it.
  pub assign-IsTable :
      (i : ℕ) (free : List ℕ)
      → IsTable k (i ∷ free)
      → IsFresh r k
      → IsTable (assign r type owner k) free
  assign-IsTable i free v fresh = record {
    chain =
        rw (assign-rmap, assign-rfree, v.chain.0)
          (Chain-frame k.rmap (update k.rmap i (record (k.rmap i) { resource = r })) (k.rmap i).next
            free (λ j h. ground (arith, v.distinct.0)) v.chain.2);
    distinct = v.distinct.1;
    inside = λ j h. rw assign-rmax (v.inside j (ground arith));
    unused =
        λ j h. rw (assign-rmap, assign-null) (ground (arith, v.unused j, v.distinct.0, v.chain.0));
    nobody = rw (assign-resources, assign-null) (ground (arith, v.nobody));
    bound = λ j lt ne out.
        rw (assign-rmap, assign-null, assign-resources)
          (ground (arith, v.bound j (rw assign-rmax at lt) ne, v.chain.0, fresh.0, fresh.1 j));
  }

-- The chain of rsrc_init.
abbrev pub from_to : ℕ → ℕ → List ℕ
from_to i zero = []
from_to i (suc n) = i ∷ from_to (suc i) n

pub has-from_to : (i n j : ℕ) → (has j (from_to i n) ≡ true) ↔ ((i ≤ j) × (j < i + n))
has-from_to i zero j = (λ h. cc, λ h. absurd (omega arith))
has-from_to i (suc n) j = (
  λ h. ground (arith, (has-from_to (suc i) n j).0),
  λ h. ground (arith, (has-from_to (suc i) n j).1),
)

Distinct-from_to : (i n : ℕ) → Distinct (from_to i n)
Distinct-from_to i zero = tt
Distinct-from_to i (suc n) =
    (ground (arith, (has-from_to (suc i) n i).0), Distinct-from_to (suc i) n)

Chain-from_to :
    (m : ℕ → Slot) (size : ℕ)
    → ((j : ℕ) → (m j).next ≡ (if j + 1 == size then 0 else j + 1))
    → (i n : ℕ) → 0 < i
    → i + suc n ≡ size
    → Chain m i (from_to i (suc n))
Chain-from_to m size h i zero pos e = (refl, omega arith, ground (arith, h i))
Chain-from_to m size h i (suc n) pos e = (
  refl,
  omega arith,
  rw (h i)
      (ground arith, omega arith, (Chain-from_to m size h (suc i) n (omega arith) (omega arith)).2),
)

-- rsrc_init on at least two entries makes a well-formed map in which every entry but 0 is free, in order.
pub init-IsTable : (n : ℕ) (k : Kernel) → IsTable (init (suc (suc n)) k) (from_to 1 (suc n))
unfolding init
init-IsTable n k = record {
  chain =
      Chain-from_to (init (suc (suc n)) k).rmap (suc (suc n)) (λ j. refl) 1 n (omega arith)
        (omega arith);
  distinct = Distinct-from_to 1 (suc n);
  inside = λ i h. omega (arith, (has-from_to 1 (suc n) i).0 h);
  unused = λ i h. refl;
  nobody = ground arith;
  bound = λ i lt ne out. ground (arith, (has-from_to 1 (suc n) i).1);
}
