-- ===== src/Kernel/Heap/Map.antt =====
-- kernel/memory.c: the table of the kernel's space and the list of the pages that are free again.
use frotznet.Prelude.{
  ℕ, ◌∙◌, ◌+◌, ◌-◌, ◌*◌, ◌/◌, ◌%◌, ◌≤◌, ◌<◌, ◌≡◌, ◌≢◌, refl, false, List, [], ◌∷◌, arith, ◌==◌,
  Bool-cases, inl, inr, update, update_ne,
}
use frotznet.Kernel.State.{Ptr}
use frotznet.Kernel.Resource.Table.{has}
use frotznet.Kernel.Aspace.{map_high}
use frotznet.Kernel.Heap.{Heap, vpage_of}
use frotznet.Kernel.Heap.Bits.{entry_flags}

abbrev pub addresses : List (Ptr × Ptr) → List Ptr
addresses [] = []
addresses ((node, page) ∷ rest) = page ∷ addresses rest

-- An address of a page that kgetpage has handed out at some time.
abbrev pub Page : ℕ → Ptr → Type 0
Page nextmem v = (v % 4096 ≡ 0) × (nextmem ≤ v) × (v < 0x80400000)

-- The pages on freevpagelist: none of them is mapped, and none is there twice.
abbrev pub Listed : (ℕ → ℕ) → ℕ → List (Ptr × Ptr) → Type 0
Listed high nextmem [] = Unit
Listed high nextmem ((node, page) ∷ rest) =
    Page nextmem page
    × (high (vpage_of page) ≡ 0)
    × (has page (addresses rest) ≡ false)
    × Listed high nextmem rest

-- The first entry behind those that boot.c maps for the image of the kernel, which is below the lowest page
-- that kgetpage hands out.
abbrev pub kernel_end : ℕ
kernel_end = 0x4f

-- No page is mapped between the image of the kernel and nextmem.
pub record IsHeap (h : Heap) : Type 0 where
  pub aligned : h.nextmem % 4096 ≡ 0
  pub bounds : (0x80000000 ≤ h.nextmem) × (h.nextmem ≤ 0x80400000)
  pub below : (i : ℕ) → kernel_end ≤ i → i < (h.nextmem - 0x80000000) / 4096 → h.high i ≡ 0
  pub listed : Listed h.high h.nextmem h.freevpages

pub pages_apart :
    (n v w : ℕ) → 0x80000000 ≤ n → Page n v → Page n w → v ≢ w → vpage_of v ≢ vpage_of w
pages_apart n v w low p q ne e = ne (omega (arith, p.0, p.1, p.2, q.0, q.1, q.2))

pub Listed-update :
    (high : ℕ → ℕ) (n v x : ℕ) (l : List (Ptr × Ptr))
    → 0x80000000 ≤ n
    → Page n v
    → has v (addresses l) ≡ false
    → Listed high n l
    → Listed (update high (vpage_of v) x) n l
Listed-update high n v x [] low p out h = tt
Listed-update high n v x ((node, page) ∷ rest) low p out h =
    let apart = pages_apart n v page low p h.0 (ground arith) in
    (
      h.0,
      update_ne high (vpage_of v) x (vpage_of page) apart ∙ h.1,
      h.2,
      Listed-update high n v x rest low p (ground arith) h.3,
    )

pub Listed-lower :
    (high : ℕ → ℕ) (n m : ℕ) (l : List (Ptr × Ptr)) → m ≤ n → Listed high n l → Listed high m l
Listed-lower high n m [] le h = tt
Listed-lower high n m ((node, page) ∷ rest) le h =
    ((h.0.0, omega (arith, h.0.1), h.0.2), h.1, h.2, Listed-lower high n m rest le h.3)

-- Behind the pages of the list there is none.
pub unlisted_below :
    (high : ℕ → ℕ) (n v : ℕ) (l : List (Ptr × Ptr))
    → v < n
    → Listed high n l
    → has v (addresses l) ≡ false
unlisted_below high n v [] lt h = refl
unlisted_below high n v ((node, page) ∷ rest) lt h =
    let other : (v == page) ≡ false = ground (arith, h.0.1) in
    rw other (unlisted_below high n v rest lt h.3)

-- A page that is mapped is not on the list.
pub unlisted_mapped :
    (high : ℕ → ℕ) (n v : ℕ) (l : List (Ptr × Ptr))
    → high (vpage_of v) ≢ 0
    → Listed high n l
    → has v (addresses l) ≡ false
unlisted_mapped high n v [] ne h = refl
unlisted_mapped high n v ((node, page) ∷ rest) ne h = elim (Bool-cases (v == page)) [
  | inl same ↦ let e : page ≡ v = ground arith in absurd (ne (rw e at h.1))
  | inr other ↦ rw other (unlisted_mapped high n v rest ne h.3)
]

-- The entry of a page that is mapped with the flags 3.
pub mapped :
    (pg at : ℕ) (high : ℕ → ℕ)
    → pg < 0x100000
    → map_high pg at 1 3 high ≡ update high at (pg * 4096 + 3)
unfolding map_high
mapped pg at high lt =
    let fits : pg * 4096 % 0x100000000 ≡ pg * 4096 = omega arith in rw (fits, entry_flags pg) refl
