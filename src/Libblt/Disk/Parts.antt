-- ===== src/Libblt/Disk/Parts.antt =====
-- The partitions that disk_alloc of lib/libblt/disk.c counts and writes.
use frotznet.Prelude.{
  ℕ, ◌+◌, ◌≡◌, refl, ◌∙◌, false, List, [], ◌∷◌, arith, ◌==◌, if◌then◌else◌, length, length-append,
  Bool-cases, inl, inr,
}
use frotznet.Libblt.Disk.{
  Entry, Slice, has_label, count_slices, count_parts, fill_entries, fill_slices, fill_labels,
  disk_alloc,
}

length-fill_slices :
    (type i j : ℕ) (ss : List Slice) → length (fill_slices type i j ss) ≡ count_slices ss
unfolding fill_slices
length-fill_slices type i j [] = refl
length-fill_slices type i j (s ∷ ss) =
    let ih = length-fill_slices type i (j + 1) ss in
    elim (Bool-cases (s.p_fstype == 0)) [
      | inl unused ↦ rw (unused, if◌then◌else◌) ih
      | inr used ↦ rw (used, if◌then◌else◌) (omega (arith, ih))
    ]

length-fill :
    (label : ℕ → List Slice) (i : ℕ) (es : List Entry)
    → length (fill_entries i es) + length (fill_labels label i es) ≡ count_parts label es
unfolding fill_entries fill_labels count_parts
length-fill label i [] = omega arith
length-fill label i (e ∷ es) =
    let ih = length-fill label (i + 1) es in
    let ss = label (e.start_sect_num + 1) in
    let slices = length-fill_slices e.type i 0 ss in
    let both = length-append (fill_slices e.type i 0 ss) (fill_labels label (i + 1) es) in
    elim (Bool-cases (e.type == 0)) [
      | inl empty ↦
          let none : has_label e ≡ false = ground arith in rw (empty, none, if◌then◌else◌) ih
      | inr used ↦ elim (Bool-cases (has_label e)) [
        | inl bsd ↦ rw (used, bsd, if◌then◌else◌) (omega (arith, ih, slices, both))
        | inr plain ↦ rw (used, plain, if◌then◌else◌) (omega (arith, ih))
      ]
    ]

-- disk_alloc writes as many partitions as it has counted, and so as it has allocated, whatever the device
-- holds.
pub disk_alloc-filled :
    (label : ℕ → List Slice) (es : List Entry)
    → length (disk_alloc label es).partition ≡ (disk_alloc label es).numparts
unfolding disk_alloc
disk_alloc-filled label es =
    length-append (fill_entries 0 es) (fill_labels label 0 es) ∙ length-fill label 0 es
