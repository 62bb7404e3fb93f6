-- ===== src/Libblt/Disk.antt =====
-- lib/libblt/disk.c. The device is what its blocks read as: the four entries of the partition table of
-- block 0, and the slices of the BSD label in a block.
pub mod Parts
mod Tests
use frotznet.Prelude.{ℕ, ◌+◌, Bool, true, false, ◌||◌, List, [], ◌∷◌, ◌++◌, ◌==◌, if◌then◌else◌}

-- fdisk_partition, the fields that disk_alloc reads.
pub record Entry : Type 0 where
  pub type : ℕ
  pub start_sect_num : ℕ
  pub num_sects : ℕ

-- An element of d_partitions of a bsd_disklabel.
pub record Slice : Type 0 where
  pub p_fstype : ℕ
  pub p_offset : ℕ
  pub p_size : ℕ

-- partition_t; the name holds the characters before the NUL.
pub record Partition : Type 0 where
  pub name : List ℕ
  pub type : ℕ
  pub start : ℕ
  pub size : ℕ

-- FDISK_TYPE_FREEBSD and FDISK_TYPE_OPENBSD
abbrev pub freebsd : ℕ
freebsd = 0xa5

abbrev pub openbsd : ℕ
openbsd = 0xa6

abbrev pub has_label : Entry → Bool
has_label e = (e.type == freebsd) || (e.type == openbsd)

-- BSD_FS_SWAP and BSD_FS_BSDFFS
abbrev pub bsd_swap : ℕ
bsd_swap = 1

abbrev pub bsd_ffs : ℕ
bsd_ffs = 7

-- blt_internal_code
unfoldable pub internal_code : ℕ → ℕ → ℕ
internal_code fdisk fstype =
    if fdisk == freebsd
    then if fstype == bsd_ffs then 0x100 else if fstype == bsd_swap then 0x101 else 0
    else if fdisk == openbsd
    then if fstype == bsd_ffs then 0x102 else if fstype == bsd_swap then 0x103 else 0
    else 0

-- The slices that are in use, counted.
abbrev pub count_slices : List Slice → ℕ
count_slices [] = 0
count_slices (s ∷ ss) = if s.p_fstype == 0 then count_slices ss else 1 + count_slices ss

-- The first loop of disk_alloc: numparts.
unfoldable pub count_parts : (ℕ → List Slice) → List Entry → ℕ
count_parts label [] = 0
count_parts label (e ∷ es) =
    let rest = count_parts label es in
    if e.type == 0
    then rest
    else if has_label e
    then 1 + count_slices (label (e.start_sect_num + 1)) + rest
    else 1 + rest

-- The loop that fills in the entries of the partition table, from entry `i` on.
unfoldable pub fill_entries : ℕ → List Entry → List Partition
fill_entries i [] = []
fill_entries i (e ∷ es) =
    let rest = fill_entries (i + 1) es in
    if e.type == 0
    then rest
    else record {
      name = (b'0' + i) ∷ [];
      type = e.type;
      start = e.start_sect_num;
      size = e.num_sects;
    }
      ∷ rest

-- The slices of a label, from slice `j` on.
unfoldable pub fill_slices : ℕ → ℕ → ℕ → List Slice → List Partition
unfolding internal_code
fill_slices type i j [] = []
fill_slices type i j (s ∷ ss) =
    let rest = fill_slices type i (j + 1) ss in
    if s.p_fstype == 0
    then rest
    else record {
      name = (b'0' + i) ∷ (b'a' + j) ∷ [];
      type = internal_code type s.p_fstype;
      start = s.p_offset;
      size = s.p_size;
    }
      ∷ rest

-- The loop that fills in the slices of all labels.
unfoldable pub fill_labels : (ℕ → List Slice) → ℕ → List Entry → List Partition
unfolding fill_slices
fill_labels label i [] = []
fill_labels label i (e ∷ es) =
    let rest = fill_labels label (i + 1) es in
    if has_label e then fill_slices e.type i 0 (label (e.start_sect_num + 1)) ++ rest else rest

-- disk_t
pub record Disk : Type 0 where
  pub numparts : ℕ
  pub partition : List Partition

-- disk_alloc; the partitions are those that it writes, in their order.
unfoldable pub disk_alloc : (ℕ → List Slice) → List Entry → Disk
unfolding count_parts fill_entries fill_labels
disk_alloc label es = record {
  numparts = count_parts label es;
  partition = fill_entries 0 es ++ fill_labels label 0 es;
}
