-- ===== src/Kernel/Memory/Blocks.antt =====
-- The blocks of the pools of kernel/memory.c.
use native.Mathlib.Nat.{div-mul-le_self, le-div_iff_mul-le}
use frotznet.Prelude.{
  ℕ, zero, suc, ◌+◌, ◌-◌, ◌*◌, ◌/◌, ◌≤◌, ◌<◌, ◌≡◌, ◌≢◌, ◌⊎◌, inl, inr, refl, true, false, ◌||◌,
  List, [], ◌∷◌, arith, ◌==◌, if◌then◌else◌, length, Bool-cases, sym, subst, ap,
}
use frotznet.Kernel.State.{Ptr}
use frotznet.Kernel.Resource.Table.{has, Distinct}
use frotznet.Kernel.Memory.{Pool, kmalloc, kfree, take_block}

-- No block begins in the `n` bytes from `a` on.
abbrev pub Outside : Ptr → ℕ → Ptr → Type 0
Outside a n b = (b < a) ⊎ (a + n ≤ b)

-- A pool whose blocks `live` are in use and whose blocks `free` are free: they are all different and do
-- not begin in the part of the fresh page that is left.
pub record IsPool (live free : List Ptr) (m : Pool) : Type 0 where
  pub size : (0 < m.size) × (m.size ≤ 4096)
  pub chain : m.free_chain ≡ free
  pub used_counted : m.used_count ≡ length live
  pub free_counted : m.free_count ≡ length free
  pub fresh : 0 < m.fresh_count
  pub distinct : Distinct live × Distinct free
  pub apart : (b : Ptr) → has b live ≡ true → has b free ≡ false
  pub outside :
      (b : Ptr)
      → (has b live || has b free) ≡ true
      → Outside m.fresh_chain (m.fresh_count * m.size) b

has_not : (b : Ptr) (bs : List Ptr) → (has b bs ≡ true → ⊥) → has b bs ≡ false
has_not b bs h = elim (Bool-cases (has b bs)) [ inl e ↦ absurd (h e) | inr e ↦ e ]

-- kmallocP on a well-formed pool with a free block gives the first of them, which is then in use, and
-- leaves the pool well-formed: the blocks in use and the free ones are counted and all different.
pub kmalloc_recycles :
    (page : Ptr) (live : List Ptr) (b : Ptr) (free : List Ptr) (m : Pool)
    → IsPool live (b ∷ free) m
    → ((kmalloc page m).0 ≡ b) × IsPool (b ∷ live) free (kmalloc page m).1
unfolding kmalloc
kmalloc_recycles page live b free m v =
    subst (λ c. ((take_block page c m).0 ≡ b) × IsPool (b ∷ live) free (take_block page c m).1)
      (sym v.chain)
      (
        refl,
        record {
          size = v.size;
          chain = refl;
          used_counted = ground (arith, v.used_counted);
          free_counted = ground (arith, v.free_counted);
          fresh = v.fresh;
          distinct =
              ((has_not b live (λ h. ground (arith, v.apart b)), v.distinct.0), v.distinct.1.1);
          apart = λ c h. ground (arith, v.apart c, v.distinct.1.0);
          outside = λ c h. v.outside c (ground arith);
        },
      )

one_less : (n s : ℕ) → 0 < n → (n - 1) * s + s ≡ n * s
one_less zero s h = absurd (omega arith)
one_less (suc n) s h = grind arith

module _ (page : Ptr) (live : List Ptr) (m : Pool) (v : IsPool live [] m) where
  fresh-has : has m.fresh_chain live ≡ false
  fresh-has = has_not m.fresh_chain live (λ h. elim (v.outside m.fresh_chain (ground arith)) [
    | inl e ↦ omega arith
    | inr e ↦ absurd (short e)
  ])
    where
      short : m.fresh_chain + m.fresh_count * m.size ≤ m.fresh_chain → ⊥
      short e = grind (arith, v.fresh, v.size.0)

  -- kmallocP on a well-formed pool without a free block cuts one off the fresh page that was not in use,
  -- takes the page that it is given when none is left, and leaves the pool well-formed, if no block
  -- begins in the page that it is given.
  pub kmalloc_cuts :
      ((b : Ptr) → (has b live || (b == m.fresh_chain)) ≡ true → Outside page 4096 b)
      → ((kmalloc page m).0 ≡ m.fresh_chain) × IsPool (m.fresh_chain ∷ live) [] (kmalloc page m).1
  unfolding kmalloc
  kmalloc_cuts new =
      subst
        (λ c.
          ((take_block page c m).0 ≡ m.fresh_chain)
          × IsPool (m.fresh_chain ∷ live) [] (take_block page c m).1)
        (sym v.chain)
        (
          refl,
          record {
            size = v.size;
            chain = v.chain;
            used_counted = ground (arith, v.used_counted);
            free_counted = v.free_counted;
            fresh = more;
            distinct = ((fresh-has, v.distinct.0), tt);
            apart = λ c h. refl;
            outside = λ c h. beyond c (ground arith);
          },
        )
    where
      more : 0 < (if m.fresh_count - 1 == 0 then 4096 / m.size else m.fresh_count - 1)
      more = elim (Bool-cases (m.fresh_count - 1 == 0)) [
        | inl e ↦ rw (e, if◌then◌else◌) ((le-div_iff_mul-le v.size.0).1 (omega (arith, v.size.1)))
        | inr e ↦ rw (e, if◌then◌else◌) (ground arith)
      ]

      at_new : (c : Ptr) → Outside page 4096 c → Outside page (4096 / m.size * m.size) c
      at_new c (inl h) = inl h
      at_new c (inr h) = inr (omega (arith, h, div-mul-le_self 4096 m.size))

      size_of :
          m.fresh_count - 1 ≢ 0 → (m.fresh_count - 1) * m.size + m.size ≡ m.fresh_count * m.size
      size_of ne = one_less m.fresh_count m.size v.fresh

      after_cut :
          (c : Ptr)
          → m.fresh_count - 1 ≢ 0
          → (c ≡ m.fresh_chain) ⊎ Outside m.fresh_chain (m.fresh_count * m.size) c
          → Outside (m.fresh_chain + m.size) ((m.fresh_count - 1) * m.size) c
      after_cut c ne (inl h) = inl (omega (arith, v.size.0))
      after_cut c ne (inr (inl h)) = inl (omega (arith, h))
      after_cut c ne (inr (inr h)) = inr (omega (arith, h, size_of ne))

      where_is :
          (c : Ptr)
          → (has c live || (c == m.fresh_chain)) ≡ true
          → (c ≡ m.fresh_chain) ⊎ Outside m.fresh_chain (m.fresh_count * m.size) c
      where_is c h = elim (Bool-cases (c == m.fresh_chain)) [
        | inl e ↦ inl (ground arith)
        | inr e ↦ inr (v.outside c (ground arith))
      ]

      beyond :
          (c : Ptr)
          → (has c live || (c == m.fresh_chain)) ≡ true
          → Outside
              (if m.fresh_count - 1 == 0 then page else m.fresh_chain + m.size)
              ((if m.fresh_count - 1 == 0 then 4096 / m.size else m.fresh_count - 1) * m.size)
              c
      beyond c h = elim (Bool-cases (m.fresh_count - 1 == 0)) [
        | inl e ↦ rw (e, Outside, if◌then◌else◌) (at_new c (new c h))
        | inr e ↦ rw (e, Outside, if◌then◌else◌) (after_cut c (ground arith) (where_is c h))
      ]

-- kfreeP of a block in use of a well-formed pool puts it first among the free ones, and leaves the pool
-- well-formed.
pub kfree-IsPool :
    (live free : List Ptr) (b : Ptr) (m : Pool)
    → IsPool (b ∷ live) free m
    → IsPool live (b ∷ free) (kfree b m)
unfolding kfree
kfree-IsPool live free b m v = record {
  size = v.size;
  chain = ap (λ c. b ∷ c) v.chain;
  used_counted = ground (arith, v.used_counted);
  free_counted = ground (arith, v.free_counted);
  fresh = v.fresh;
  distinct = (v.distinct.0.1, (v.apart b (ground arith), v.distinct.1));
  apart = λ c h. ground (arith, v.apart c, v.distinct.0.0);
  outside = λ c h. v.outside c (ground arith);
}
