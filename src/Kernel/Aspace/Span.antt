-- ===== src/Kernel/Aspace/Span.antt =====
-- locate_span and the loops over a page table, in kernel/aspace.c.
use frotznet.Prelude.{
  ℕ, zero, suc, ◌+◌, ◌≤◌, ◌<◌, ◌≡◌, ◌≢◌, arith, Bool-cases, inl, inr, ltb, ◌==◌, leb, ◌||◌, ◌-◌,
  if◌then◌else◌, update, refl, ◌∙◌,
}
use frotznet.Kernel.Aspace.{entry, map_pages, clr, search_span, span_start, locate_span}

-- The last `found` entries before `start` are free, and begin at `at`.
record IsRun (ptab : ℕ → ℕ) (start found at : ℕ) : Type 0 where
  ends : 0 < found → at + found ≡ start
  none_yet : found ≡ 0 → at ≡ 0
  free : (i : ℕ) → start ≤ i + found → i < start → ptab i ≡ 0

grow :
    {ptab : ℕ → ℕ} {start found at : ℕ}
    → ptab start ≡ 0
    → IsRun ptab start found at
    → IsRun ptab (start + 1) (found + 1) (if found == 0 then start else at)
grow {ptab} {start} {found} {at} e r = record {
  ends = λ h. let f = r.ends in let n = r.none_yet in ground arith;
  none_yet = λ h. absurd (omega arith);
  free = λ i h h'.
      let f = r.free i in
      elim (Bool-cases (i == start)) [
        | inl same ↦ let q : i ≡ start = ground arith in rw (q, e)
        | inr other ↦ f (ground arith) (ground arith)
      ];
}

restart : (ptab : ℕ → ℕ) (start : ℕ) → IsRun ptab (start + 1) 0 0
restart ptab start = record {
  ends = λ h. absurd (omega arith);
  none_yet = λ h. refl;
  free = λ i h h'. absurd (omega arith);
}

search_span-Free :
    (left len start found at : ℕ) (ptab : ℕ → ℕ)
    → start + left ≡ 1024
    → found ≤ len
    → IsRun ptab start found at
    → (i : ℕ) → search_span left len start found at ptab ≢ 0
    → search_span left len start found at ptab ≤ i
    → i < search_span left len start found at ptab + len
    → i < 1024
    → ptab i ≡ 0
unfolding search_span
search_span-Free zero len start found at ptab e le r i =
    λ h a b c. let f = r.free i in let g = r.ends in let n = r.none_yet in ground arith
search_span-Free (suc left) len start found at ptab e le r i = elim (Bool-cases (ltb found len)) [
  | inr full ↦
      rw full λ h a b c. let f = r.free i in let g = r.ends in let n = r.none_yet in ground arith
  | inl more ↦ elim (Bool-cases (ptab start == 0)) [
    | inl free ↦
        rw (more, free)
          (search_span-Free left len (start + 1) (found + 1) (if found == 0 then start else at) ptab
            (omega arith) (ground arith) (grow (ground arith) r) i)
    | inr used ↦
        rw (more, used)
          (search_span-Free left len (start + 1) 0 0 ptab (omega arith) (omega arith)
            (restart ptab start) i)
  ]
]

search_span-first :
    (left len start found at : ℕ) (ptab : ℕ → ℕ)
    → start + left ≡ 1024
    → found ≤ len
    → IsRun ptab start found at
    → 0 < len
    → (b : ℕ) → start ≤ b + found
    → b + len ≤ 1024
    → ((i : ℕ) → b ≤ i → i < b + len → ptab i ≡ 0)
    → (search_span left len start found at ptab ≤ b)
      × (start ≤ search_span left len start found at ptab + found)
unfolding search_span
search_span-first zero len start found at ptab e le r pos b near fits free =
    let g = r.ends in ground arith
search_span-first (suc left) len start found at ptab e le r pos b near fits free =
    elim (Bool-cases (ltb found len)) [
      | inr full ↦ rw full (let g = r.ends in ground arith)
      | inl more ↦ elim (Bool-cases (ptab start == 0)) [
        | inl e0 ↦
            rw (more, e0)
              (let ih =
                  search_span-first left len (start + 1) (found + 1)
                    (if found == 0 then start else at) ptab (omega arith) (ground arith)
                    (grow (ground arith) r) pos b (omega arith) fits free in
                ground arith)
        | inr used ↦
            rw (more, used)
              (let outside = free start in
                let ih =
                  search_span-first left len (start + 1) 0 0 ptab (omega arith) (omega arith)
                    (restart ptab start) pos b (ground arith) fits free in
                ground arith)
      ]
    ]

nothing_found : (ptab : ℕ → ℕ) (start : ℕ) → IsRun ptab start 0 0
nothing_found ptab start = record {
  ends = λ h. absurd (omega arith);
  none_yet = λ h. refl;
  free = λ i h h'. absurd (omega arith);
}

span_start-inside : (start : ℕ) → (1 ≤ span_start start) × (span_start start ≤ 1023)
unfolding span_start
span_start-inside start = ground arith

-- The entries from the one that locate_span gives, which is not 0, are free, as far as the span reaches
-- in the table.
pub locate_span-Free :
    (start len : ℕ) (ptab : ℕ → ℕ) (i : ℕ)
    → locate_span start len ptab ≢ 0
    → locate_span start len ptab ≤ i
    → i < locate_span start len ptab + len
    → i < 1024
    → ptab i ≡ 0
unfolding locate_span
locate_span-Free start len ptab i =
    let inside = span_start-inside start in
    search_span-Free (1024 - span_start start) len (span_start start) 0 0 ptab (omega arith)
      (omega arith) (nothing_found ptab (span_start start)) i

-- locate_span, asked for one page or more, gives the first span in the table that is free and long
-- enough, from the place where it begins on, if there is one.
pub locate_span-first :
    (start len : ℕ) (ptab : ℕ → ℕ) (b : ℕ)
    → 0 < len
    → span_start start ≤ b
    → b + len ≤ 1024
    → ((i : ℕ) → b ≤ i → i < b + len → ptab i ≡ 0)
    → let at = locate_span start len ptab in
      (span_start start ≤ at) × (at ≤ b) × ((i : ℕ) → at ≤ i → i < at + len → ptab i ≡ 0)
unfolding locate_span
locate_span-first start len ptab b pos near fits free =
    let inside = span_start-inside start in
    let found =
      search_span-first (1024 - span_start start) len (span_start start) 0 0 ptab (omega arith)
        (omega arith) (nothing_found ptab (span_start start)) pos b (omega arith) fits free in
    (
      omega arith,
      found.0,
      λ i h h'.
          search_span-Free (1024 - span_start start) len (span_start start) 0 0 ptab (omega arith)
            (omega arith) (nothing_found ptab (span_start start)) i (omega arith) h h'
            (omega arith),
    )

-- A run of aspace_map writes its own entries and no other.
pub map_pages_lem :
    (page virt len flags : ℕ) (ptab : ℕ → ℕ) (i : ℕ)
    → map_pages page virt len flags ptab i
      ≡ (if ltb i virt || leb (virt + len) i then ptab i else entry (page + (i - virt)) flags)
unfolding map_pages
map_pages_lem page virt zero flags ptab i = ground arith
map_pages_lem page virt (suc len) flags ptab i =
    let ih =
      map_pages_lem (page + 1) (virt + 1) len flags (update ptab virt (entry page flags)) i in
    elim (Bool-cases (ltb virt i)) [
      | inl above ↦
          let shift : page + 1 + (i - (virt + 1)) ≡ page + (i - virt) = ground arith in
          ih ∙ rw shift (ground arith)
      | inr below ↦ let self : page + (virt - virt) ≡ page = omega arith in ground arith
    ]

pub clr_lem :
    (virt len : ℕ) (ptab : ℕ → ℕ) (i : ℕ)
    → clr virt len ptab i ≡ (if ltb i virt || leb (virt + len) i then ptab i else 0)
unfolding clr
clr_lem virt zero ptab i = ground arith
clr_lem virt (suc len) ptab i =
    let ih = clr_lem (virt + 1) len (update ptab virt 0) i in ground arith
