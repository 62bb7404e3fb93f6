-- ===== src/Vfs/Mounts.antt =====
-- srv/vfs/fs.c and srv/vfs/super.c: the drivers, and the file systems that are mounted. The mount of a
-- driver is given.
pub mod Longest
mod Tests
use frotznet.Prelude.{
  ℕ, ◌+◌, Bool, true, false, not, ◌&&◌, Option, none, some, List, [], ◌∷◌, ◌++◌, ◌==◌, ltb,
  if◌then◌else◌, length,
}
use frotznet.Prelude.Int.{ℤ, pos, negsuc}
use frotznet.Libc.Strings.{strncmp}

-- struct fs_type: its name, and the result of its mount with the data.
pub record Driver : Type 0 where
  pub name : List ℕ
  pub mount : List ℕ → ℤ

-- struct superblock
pub record Superblock : Type 0 where
  pub sb_dir : List ℕ
  pub driver : List ℕ

-- fs_drivers and mount_list
pub record Vfs : Type 0 where
  pub drivers : List Driver
  pub mounts : List Superblock

-- strcmp, as a test for equality
abbrev pub same_name : List ℕ → List ℕ → Bool
same_name [] [] = true
same_name [] (d ∷ ds) = false
same_name (c ∷ cs) [] = false
same_name (c ∷ cs) (d ∷ ds) = (c == d) && same_name cs ds

-- The loop of fs_register: it compares with every driver but the last.
unfoldable pub taken : List ℕ → List Driver → Bool
taken name [] = false
taken name (p ∷ []) = false
taken name (p ∷ q ∷ ps) =
    let rest = taken name (q ∷ ps) in if same_name p.name name then true else rest

-- fs_register
unfoldable pub fs_register : Driver → Vfs → ℤ × Vfs
unfolding taken
fs_register driver v =
    if taken driver.name v.drivers
    then (pos 1, v)
    else (pos 0, record v { drivers = v.drivers ++ (driver ∷ []) })

abbrev pub is_zero : ℤ → Bool
is_zero (pos n) = n == 0
is_zero (negsuc n) = false

-- The loop of fs_find.
unfoldable pub find_from : List ℕ → List Superblock → Option Superblock → ℕ → Option Superblock
unfolding strncmp
find_from node [] best bestlen = best
find_from node (s ∷ ss) best bestlen =
    let len = length s.sb_dir in
    let better = is_zero (strncmp s.sb_dir node len) && ltb bestlen len in
    find_from node ss (if better then some s else best) (if better then len else bestlen)

-- fs_find
unfoldable pub fs_find : List ℕ → Vfs → Option Superblock
unfolding find_from
fs_find node v = find_from node v.mounts none 0

-- The loop of vfs_mount that looks for the driver.
unfoldable pub find_driver : List ℕ → List Driver → Option Driver
find_driver type [] = none
find_driver type (d ∷ ds) =
    let rest = find_driver type ds in if same_name d.name type then some d else rest

abbrev pub mount_with : Option Driver → List ℕ → List ℕ → Vfs → ℤ × Vfs
mount_with none dir options v = (pos 1, v)
mount_with (some d) dir options v =
    let res = d.mount options in
    if is_zero res
    then (res, record v { mounts = record { sb_dir = dir; driver = d.name } ∷ v.mounts })
    else (res, v)

-- vfs_mount
unfoldable pub vfs_mount : List ℕ → List ℕ → List ℕ → Vfs → ℤ × Vfs
unfolding find_driver
vfs_mount dir type options v = mount_with (find_driver type v.drivers) dir options v
