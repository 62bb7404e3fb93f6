-- ===== src/Vfs/Server/Descriptors.antt =====
-- The search for a free descriptor in srv/vfs/vfs.c.
use frotznet.Prelude.{
  ℕ, zero, suc, ◌+◌, ◌≤◌, ◌<◌, ◌≡◌, ◌≢◌, refl, Option, none, some, arith, subst, Option-cases, inl,
  inr, ℕ_discrete,
}
use frotznet.Vfs.Server.{Ofile, free_fd}

module _ {V C : Type 0} where
  -- The search ends at the lowest free descriptor.
  abbrev pub IsLowest : ℕ → ℕ → ℕ → (ℕ → Option (Ofile V C)) → Type 0
  IsLowest i end fd table =
      (i ≤ fd) × (fd < end) × (table fd ≡ none) × ((j : ℕ) → i ≤ j → j < fd → table j ≢ none)

  pub free_fd-IsLowest :
      (left i : ℕ) (table : ℕ → Option (Ofile V C)) (free : ℕ)
      → i ≤ free
      → free < i + left
      → table free ≡ none
      → (fd : ℕ) × (free_fd left i table ≡ some fd) × IsLowest i (i + left) fd table
  unfolding free_fd
  free_fd-IsLowest zero i table free le lt e = absurd (omega arith)
  free_fd-IsLowest (suc left) i table free le lt e = elim (Option-cases (table i)) [
    | inl empty ↦ (
      i,
      rw (free_fd, empty) refl,
      (omega arith, omega arith, empty, λ j a b. absurd (omega arith)),
    )
    | inr (o, taken) ↦
        let r = free_fd-IsLowest left (i + 1) table free (ground arith) (omega arith) e in
        (
          r.0,
          rw (free_fd, taken) r.1,
          (
            omega (arith, r.2.0),
            omega (arith, r.2.1),
            r.2.2,
            λ j a b. elim (ℕ_discrete i j) [
              | yes same ↦ subst (λ k. table k ≢ none) same (λ n. absurd cc)
              | no other ↦ r.2.3 j (ground arith) b
            ],
          ),
        )
  ]

  pub free_fd-none :
      (left i : ℕ) (table : ℕ → Option (Ofile V C)) (fd : ℕ)
      → free_fd left i table ≡ some fd
      → table fd ≡ none
  unfolding free_fd
  free_fd-none zero i table fd = λ e. absurd cc
  free_fd-none (suc left) i table fd = elim (Option-cases (table i)) [
    | inl empty ↦
        rw (free_fd, empty) (λ e. let same : i ≡ fd = cc in subst (λ k. table k ≡ none) same empty)
    | inr (o, taken) ↦ rw (free_fd, taken) (free_fd-none left (i + 1) table fd)
  ]
