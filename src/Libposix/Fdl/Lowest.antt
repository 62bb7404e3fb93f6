-- ===== src/Libposix/Fdl/Lowest.antt =====
-- _fdl_alloc_descriptor and the calls on the descriptor that it gives, in lib/libposix/fdl.c.
use frotznet.Prelude.{
  ℕ, zero, suc, ◌+◌, ◌≡◌, ◌≢◌, ◌≤◌, ◌<◌, ap, subst, Option, none, some, arith, update, update_self,
  update_ne, Option-cases, ℕ_discrete, inl, inr,
}
use frotznet.Prelude.Int.{pos}
use frotznet.Libposix.Fdl.{
  Handler, Filedesc, Files, max_fds, search, place, alloc_descriptor, read, read_with, close_with,
  close, perform, close_by,
}

not_above : (a b : ℕ) → (b < a → ⊥) → a ≤ b
not_above a b h = ground arith

module _ {W : Type 0} where
  -- What a search finds: no free entry, or the first.
  abbrev Found : ℕ → ℕ → (ℕ → Option (Filedesc W)) → Option ℕ → Type 0
  Found i end table none = (j : ℕ) → i ≤ j → j < end → table j ≢ none
  Found i end table (some f) =
      (i ≤ f) × (f < end) × (table f ≡ none) × ((j : ℕ) → i ≤ j → j < f → table j ≢ none)

  widen :
      (i end : ℕ) (table : ℕ → Option (Filedesc W)) (o : Option ℕ)
      → table i ≢ none
      → Found (i + 1) end table o
      → Found i end table o
  widen i end table none ne h = λ j le lt. elim (ℕ_discrete i j) [
    | yes e ↦ subst (λ k. table k ≢ none) e ne
    | no other ↦ h j (ground arith) lt
  ]
  widen i end table (some f) ne (a, b, c, d) = (
    omega arith,
    b,
    c,
    λ j le lt. elim (ℕ_discrete i j) [
      | yes e ↦ subst (λ k. table k ≢ none) e ne
      | no other ↦ d j (ground arith) lt
    ],
  )

  search-Found :
      (left i : ℕ) (table : ℕ → Option (Filedesc W))
      → Found i (i + left) table (search left i table)
  unfolding search
  search-Found zero i table = λ j h k. absurd (omega arith)
  search-Found (suc left) i table = elim (Option-cases (table i)) [
    | inl e ↦ rw (Found, e) (omega arith, omega arith, e, λ j h k. absurd (omega arith))
    | inr (d, e) ↦
        rw (search, e)
          (widen i (i + suc left) table (search left (i + 1) table) (λ n. absurd cc)
            (let s : i + 1 + left ≡ i + suc left = omega arith in
              subst (λ end. Found (i + 1) end table (search left (i + 1) table)) s
                (search-Found left (i + 1) table)))
  ]

  -- _fdl_alloc_descriptor, with a descriptor below MAX_FDS that is free, gives the lowest one, and the other
  -- entries of the table are as before. A read or a close on it then goes to the handler's operation with
  -- its cookie, or to ENOSYS where the handler has none.
  pub alloc_descriptor-lowest :
      (handler : Handler W) (cookie : ℕ) (p : Files W) (free : ℕ)
      → free < max_fds
      → p.table free ≡ none
      → (fd : ℕ) × (p' : Files W) × (alloc_descriptor handler cookie p ≡ (pos fd, p'))
        × (fd ≤ free)
        × (p.table fd ≡ none)
        × ((j : ℕ) → j < fd → p.table j ≢ none)
        × ((j : ℕ) → fd ≢ j → p'.table j ≡ p.table j)
        × ((buf count : ℕ) → read fd buf count p' ≡ some (perform handler.read cookie buf count p'))
        × (close fd p' ≡ some (close_by fd handler.close cookie p'))
  unfolding alloc_descriptor read close
  alloc_descriptor-lowest handler cookie p free small e =
      elim (Option-cases (search max_fds 0 p.table)) [
        | inl nothing ↦ absurd (
            subst (Found 0 256 p.table) nothing (search-Found 256 0 p.table) free (omega arith)
              (omega arith) e)
        | inr (fd, s) ↦
            let found = subst (Found 0 256 p.table) s (search-Found 256 0 p.table) in
            let d : Filedesc W = record { imp = handler; cookie = cookie } in
            let p' = record p { table = update p.table fd (some d) } in
            let entry = update_self p.table fd (some d) in
            (
              fd,
              p',
              ap (λ o. place handler cookie o p) s,
              not_above fd free (λ lt. found.3 free (omega arith) lt e),
              found.2,
              λ j lt. found.3 j (omega arith) lt,
              λ j ne. update_ne p.table fd (some d) j ne,
              λ buf count. ap (λ o. read_with o buf count p') entry,
              ap (λ o. close_with fd o p') entry,
            )
      ]
