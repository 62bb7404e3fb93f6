-- ===== src/Libc/Memory/Laws.antt =====
-- memset, memcpy and memmove of lib/libc/string.c inside a block, cell by cell.
use frotznet.Prelude.{
  ℕ, zero, suc, ◌+◌, ◌-◌, ◌≤◌, ◌<◌, ◌≡◌, refl, ◌&&◌, Option, some, List, [], ◌∷◌, arith, ltb, leb,
  ◌==◌, if◌then◌else◌, get_elem?, set, length, length-set, get_elem?-set_self, get_elem?-set_ne,
  Bool-cases, inl, inr, lt→ltb, ltb→lt,
}
use frotznet.Libc.Memory.{put, memset, copy_up, copy_down, memmove}

module _ {A : Type 0} where
  -- `m'` is `m` with the cells from `d` on, `n` of them, read by `f`.
  pub record Written (f : ℕ → Option A) (d n : ℕ) (m m' : List A) : Type 0 where
    pub length_kept : length m' ≡ length m
    pub cells : (i : ℕ) → get_elem? m' i ≡ (if leb d i && ltb i (d + n) then f i else get_elem? m i)

  get_elem?_total : (m : List A) (i : ℕ) → i < length m → (v : A) × (get_elem? m i ≡ some v)
  get_elem?_total [] i h = elim h [ ]
  get_elem?_total (x ∷ m) zero h = (x, refl)
  get_elem?_total (x ∷ m) (suc i) h = get_elem?_total m i (omega arith)

  put_total : (m : List A) (i : ℕ) (v : A) → i < length m → put m i v ≡ some (set m i v)
  put_total m i v h = rw (lt→ltb i (length m) h)

  get_elem?-set :
      (m : List A) (i j : ℕ) (v : A)
      → i < length m
      → get_elem? (set m i v) j ≡ (if i == j then some v else get_elem? m j)
  get_elem?-set m i j v h =
      ground (arith, get_elem?-set_self m i v h, get_elem?-set_ne m {i = i} {j = j} v)

  -- memset inside the block succeeds, sets the cells asked for, and leaves every other cell.
  pub memset_lem :
      (i : ℕ) (c : A) (n : ℕ) (m : List A)
      → i + n ≤ length m
      → (m' : List A) × (memset i c n m ≡ some m') × Written (λ j. some c) i n m m'
  unfolding memset
  memset_lem i c zero m h = (m, refl, record { length_kept = refl; cells = λ j. ground arith })
  memset_lem i c (suc n) m h =
      let (m', e, w) = memset_lem (suc i) c n (set m i c) (omega (arith, length-set m i c)) in
      (
        m',
        rw (put_total m i c (omega arith)) e,
        record {
          length_kept = omega (arith, w.length_kept, length-set m i c);
          cells = λ j. ground (arith, w.cells j, get_elem?-set m i j c);
        },
      )

  pub copy_up_lem :
      (n d s : ℕ) (m : List A)
      → d < s
      → s + n ≤ length m
      → (m' : List A) × (copy_up n d s m ≡ some m')
        × Written (λ i. get_elem? m (s + (i - d))) d n m m'
  unfolding copy_up
  copy_up_lem zero d s m lt h = (m, refl, record { length_kept = refl; cells = λ j. ground arith })
  copy_up_lem (suc n) d s m lt h =
      let (v, ev) = get_elem?_total m s (omega arith) in
      let (m', e, w) =
        copy_up_lem n (suc d) (suc s) (set m d v) (omega arith) (omega (arith, length-set m d v)) in
      (
        m',
        rw (ev, put_total m d v (omega arith)) e,
        record {
          length_kept = omega (arith, w.length_kept, length-set m d v);
          cells = λ j.
              ground (
                arith,
                w.cells j,
                get_elem?-set m d j v,
                get_elem?-set m d (suc s + (j - suc d)) v,
              );
        },
      )

  pub copy_down_lem :
      (n d s : ℕ) (m : List A)
      → s ≤ d
      → d + n ≤ length m
      → (m' : List A) × (copy_down n d s m ≡ some m')
        × Written (λ i. get_elem? m (s + (i - d))) d n m m'
  unfolding copy_down
  copy_down_lem zero d s m le h =
      (m, refl, record { length_kept = refl; cells = λ j. ground arith })
  copy_down_lem (suc n) d s m le h =
      let (v, ev) = get_elem?_total m (s + n) (omega arith) in
      let (m', e, w) =
        copy_down_lem n d s (set m (d + n) v) le (omega (arith, length-set m (d + n) v)) in
      (
        m',
        rw (ev, put_total m (d + n) v (omega arith)) e,
        record {
          length_kept = omega (arith, w.length_kept, length-set m (d + n) v);
          cells = λ j. ground (
            arith,
            w.cells j,
            get_elem?-set m (d + n) j v,
            get_elem?-set m (d + n) (s + (j - d)) v,
          );
        },
      )

  -- memmove inside the block: it succeeds, and afterwards every cell of the destination holds what the
  -- source held before, also where the two overlap; every other cell is unchanged.
  pub memmove_lem :
      (d s n : ℕ) (m : List A)
      → s + n ≤ length m
      → d + n ≤ length m
      → (m' : List A) × (memmove d s n m ≡ some m')
        × Written (λ i. get_elem? m (s + (i - d))) d n m m'
  unfolding memmove
  memmove_lem d s n m hs hd = elim (Bool-cases (ltb d s)) [
    | inl e ↦ let (m', f, w) = copy_up_lem n d s m (ltb→lt d s e) hs in (m', rw e f, w)
    | inr e ↦ let (m', f, w) = copy_down_lem n d s m (ground arith) hd in (m', rw e f, w)
  ]

  -- Copying upwards inside the block succeeds and keeps its length, however the two parts lie.
  pub copy_up_total :
      (n d s : ℕ) (m : List A)
      → d + n ≤ length m
      → s + n ≤ length m
      → (m' : List A) × (copy_up n d s m ≡ some m') × (length m' ≡ length m)
  unfolding copy_up
  copy_up_total zero d s m hd hs = (m, refl, refl)
  copy_up_total (suc n) d s m hd hs =
      let (v, ev) = get_elem?_total m s (omega arith) in
      let (m', e, w) =
        copy_up_total n (suc d) (suc s) (set m d v) (omega (arith, length-set m d v))
          (omega (arith, length-set m d v)) in
      (m', rw (ev, put_total m d v (omega arith)) e, omega (arith, w, length-set m d v))
