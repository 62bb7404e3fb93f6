-- ===== src/Vfs/Bootfs.antt =====
-- srv/vfs/bootfs.c, with vget of srv/vfs/vnode.c: the files of the boot directory, which never change. An
-- offset or a size is not negative. A call is `none` where the code reads through an unset v_data.
pub mod Walk
use frotznet.Prelude.{
  ℕ, zero, suc, ◌+◌, ◌-◌, ◌*◌, ◌/◌, ◌%◌, Bool, not, ◌&&◌, Option, none, some, List, [], ◌∷◌, ◌==◌,
  ltb, leb, if◌then◌else◌, take,
}
use frotznet.Vfs.Mounts.{same_name}
use frotznet.Vfs.Rootfs.{Dirent, Cookie}

-- boot_entry
pub record Entry : Type 0 where
  pub be_name : List ℕ
  pub be_offset : ℕ
  pub be_type : ℕ
  pub be_vsize : ℕ

-- struct bootfs_inode
pub record Inode : Type 0 where
  pub i_ino : ℕ
  pub i_offset : ℕ
  pub i_size : ℕ
  pub i_name : List ℕ

-- sb_data, with the bytes from d_bootdir on, and inode_max.
pub record Boot : Type 0 where
  pub d_bootdir : ℕ → ℕ
  pub inode_list : List Inode
  pub inode_max : ℕ

-- struct vnode; v_data is unset until bootfs_read_vnode finds the inode.
pub record Vnode : Type 0 where
  pub v_vnid : ℕ
  pub v_data : Option Inode

-- struct stat, the fields that bootfs_rstat sets to more than a constant.
pub record Stat : Type 0 where
  pub st_ino : ℕ
  pub st_size : ℕ
  pub st_blocks : ℕ

-- BOOTDIR_DIRECTORY, "SBBB/Directory"
abbrev pub directory : List ℕ
directory =
    b'S' ∷ b'B' ∷ b'B' ∷ b'B' ∷ b'/' ∷ b'D' ∷ b'i' ∷ b'r' ∷ b'e' ∷ b'c' ∷ b't' ∷ b'o' ∷ b'r' ∷ b'y'
    ∷ []

-- bootfs_inew, with a number that bootfs_mount takes from inode_max; strlcpy keeps 31 characters.
abbrev pub inew : ℕ → List ℕ → ℕ → ℕ → Inode
inew ino name offset size = record {
  i_ino = ino;
  i_offset = offset;
  i_size = size;
  i_name = take 31 name;
}

abbrev pub is_file : Entry → Bool
is_file e = not (e.be_type == 0) && not (same_name e.be_name directory)

abbrev pub add_entry : Entry → Boot → Boot
add_entry e b =
    if is_file e
    then record b {
      inode_list = inew b.inode_max e.be_name e.be_offset e.be_vsize ∷ b.inode_list;
      inode_max = b.inode_max + 1;
    }
    else b

-- The loop of bootfs_mount over the entries of the boot directory.
unfoldable pub fill_inodes : List Entry → Boot → Boot
fill_inodes [] b = b
fill_inodes (e ∷ es) b = fill_inodes es (add_entry e b)

-- bootfs_read_vnode
unfoldable pub read_vnode : ℕ → List Inode → Option Inode
read_vnode n [] = none
read_vnode n (i ∷ is) = let rest = read_vnode n is in if i.i_ino == n then some i else rest

-- vget
unfoldable pub vget : ℕ → Boot → Vnode
unfolding read_vnode
vget n b = record { v_vnid = n; v_data = read_vnode n b.inode_list }

-- bootfs_mount, with the inode_max that is left from the mounts before: sb_root and sb_data.
unfoldable pub mount : List Entry → (ℕ → ℕ) → ℕ → Vnode × Boot
unfolding fill_inodes vget
mount entries image max =
    let dots : Boot = record {
      d_bootdir = image;
      inode_list = inew max (b'.' ∷ []) 0 0 ∷ inew (max + 1) (b'.' ∷ b'.' ∷ []) 0 0 ∷ [];
      inode_max = max + 2;
    } in
    let b = fill_inodes entries dots in (vget 0 b, b)

-- The loop of bootfs_walk.
unfoldable pub find_name : List ℕ → List Inode → Option ℕ
find_name path [] = none
find_name path (i ∷ is) =
    let rest = find_name path is in if same_name i.i_name path then some i.i_ino else rest

abbrev pub vget_found : Boot → Option ℕ → Option Vnode
vget_found b none = none
vget_found b (some n) = some (vget n b)

-- bootfs_walk; `none` is NULL.
unfoldable pub walk : Vnode → List ℕ → Boot → Option Vnode
unfolding find_name vget
walk parent path b = if parent.v_vnid == 0 then vget_found b (find_name path b.inode_list) else none

-- The loop of bootfs_opendir, which puts each entry before the others.
unfoldable pub entries : List Inode → List Dirent → List Dirent
entries [] head = head
entries (i ∷ is) head = entries is (record { d_fileno = i.i_ino; d_name = take 33 i.i_name } ∷ head)

-- bootfs_opendir; `none` is ENOTDIR.
unfoldable pub opendir : Vnode → Boot → Option Cookie
unfolding entries
opendir dir b =
    let head = entries b.inode_list [] in
    if dir.v_vnid == 0 then some (record { head = head; current = head }) else none

-- bootfs_rewinddir
unfoldable pub rewinddir : Cookie → Cookie
rewinddir c = record c { current = c.head }

abbrev pub read_entry : List Dirent → Cookie → Option (Dirent × Cookie)
read_entry [] c = none
read_entry (d ∷ ds) c = some (record d { d_name = take 32 d.d_name }, record c { current = ds })

-- bootfs_readdir; `none` is its result 1, at the end.
unfoldable pub readdir : Cookie → Option (Dirent × Cookie)
readdir c = read_entry c.current c

-- memcpy from the boot directory.
unfoldable pub bytes_at : (ℕ → ℕ) → ℕ → ℕ → List ℕ
bytes_at image a zero = []
bytes_at image a (suc n) = image a ∷ bytes_at image (a + 1) n

-- bootfs_read of `count` bytes from `offset` on: the bytes that it writes, *numread of them.
unfoldable pub read : Inode → ℕ → ℕ → Boot → List ℕ
unfolding bytes_at
read inode count offset b =
    if leb inode.i_size offset
    then []
    else bytes_at b.d_bootdir (inode.i_offset * 0x1000 + offset)
        (if leb count (inode.i_size - offset) then count else inode.i_size - offset)

-- bootfs_rstat
unfoldable pub rstat : Inode → Stat
rstat inode = record {
  st_ino = inode.i_ino;
  st_size = inode.i_size;
  st_blocks =
      if inode.i_size % 0x1000 == 0 then inode.i_size / 0x1000 else inode.i_size / 0x1000 + 1;
}
