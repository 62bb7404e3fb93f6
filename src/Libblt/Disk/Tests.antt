-- ===== src/Libblt/Disk/Tests.antt =====
-- A run of disk_alloc of lib/libblt/disk.c on a disk with an ext2 and a FreeBSD partition.
use frotznet.Prelude.{ℕ, ◌≡◌, refl, List, [], ◌∷◌, length}
use frotznet.Libblt.Disk.{Entry, Slice, count_parts, disk_alloc}
use frotznet.Libblt.Disk.Parts.{disk_alloc-filled}

abbrev entries : List Entry
entries =
    record { type = 0x83; start_sect_num = 63; num_sects = 1000 }
    ∷ record { type = 0; start_sect_num = 0; num_sects = 0 }
    ∷ record { type = 0xa5; start_sect_num = 1063; num_sects = 2000 }
    ∷ []

abbrev slices : ℕ → List Slice
slices block =
    record { p_fstype = 7; p_offset = 1063; p_size = 1500 }
    ∷ record { p_fstype = 1; p_offset = 2563; p_size = 500 }
    ∷ record { p_fstype = 0; p_offset = 0; p_size = 0 }
    ∷ []

counts : (disk_alloc slices entries).numparts ≡ 4
unfolding disk_alloc count_parts
counts = refl

disk_alloc-filled_example :
    length (disk_alloc slices entries).partition ≡ (disk_alloc slices entries).numparts
disk_alloc-filled_example = disk_alloc-filled slices entries
