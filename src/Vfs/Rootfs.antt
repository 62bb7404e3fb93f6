-- ===== src/Vfs/Rootfs.antt =====
-- srv/vfs/rootfs.c, with vget of srv/vfs/vnode.c: the root file system, a flat list of directories. A vnode
-- keeps the number of its inode, and v_data, when it is set, stands for the list from that inode on.
pub mod Walk
mod Tests
use frotznet.Prelude.{
  ℕ, ◌+◌, Bool, true, false, Option, none, some, List, [], ◌∷◌, ◌++◌, ◌==◌, if◌then◌else◌, take,
}
use frotznet.Prelude.Int.{ℤ, pos, negsuc}
use frotznet.Vfs.Mounts.{same_name}

-- struct rootfs_inode
pub record Inode : Type 0 where
  pub i_ino : ℕ
  pub i_name : List ℕ

-- sb_data of the superblock, and inode_max.
pub record Root : Type 0 where
  pub inodes : List Inode
  pub inode_max : ℕ

-- struct vnode; `found` tells whether rootfs_read_vnode has set v_data.
pub record Vnode : Type 0 where
  pub v_vnid : ℕ
  pub found : Bool

-- rootfs_inew and the end of rootfs_mkdir: a new inode behind the others.
abbrev pub add_inode : List ℕ → Root → Root
add_inode name r = record {
  inodes = r.inodes ++ (record { i_ino = r.inode_max; i_name = name } ∷ []);
  inode_max = r.inode_max + 1;
}

-- The list from the inode with a number on.
unfoldable pub from_ino : ℕ → List Inode → Option (List Inode)
from_ino n [] = none
from_ino n (i ∷ is) = let rest = from_ino n is in if i.i_ino == n then some (i ∷ is) else rest

abbrev pub is_some : Option (List Inode) → Bool
is_some none = false
is_some (some is) = true

-- vget, with rootfs_read_vnode; its failure is not seen.
unfoldable pub vget : ℕ → Root → Vnode
unfolding from_ino
vget n r = record { v_vnid = n; found = is_some (from_ino n r.inodes) }

-- rootfs_mount: the file system, and its root vnode.
unfoldable pub mount : Root → Vnode × Root
unfolding vget
mount r =
    let dot = record r {
      inodes = record { i_ino = r.inode_max; i_name = b'.' ∷ [] } ∷ [];
      inode_max = r.inode_max + 1;
    } in
    let both = add_inode (b'.' ∷ b'.' ∷ []) dot in (vget 0 both, both)

-- The loop of rootfs_walk.
unfoldable pub find_name : List ℕ → List Inode → Option ℕ
find_name path [] = none
find_name path (i ∷ is) =
    let rest = find_name path is in if same_name i.i_name path then some i.i_ino else rest

-- What a walk comes to: v_data of the parent was not set, no such name, or a vnode.
pub data Walked : Type 0 where
  wild : Walked
  missing : Walked
  walked : Vnode → Walked

abbrev pub got : Root → Option ℕ → Walked
got r none = missing
got r (some n) = walked (vget n r)

abbrev pub walk_from : List ℕ → Root → Option (List Inode) → Walked
walk_from path r none = wild
walk_from path r (some is) = got r (find_name path is)

-- rootfs_walk
unfoldable pub walk : Vnode → List ℕ → Root → Walked
unfolding vget find_name from_ino
walk parent path r =
    if parent.found then walk_from path r (from_ino parent.v_vnid r.inodes) else wild

-- rootfs_mkdir
unfoldable pub mkdir : Vnode → List ℕ → Root → ℤ × Root
mkdir parent name r = if parent.v_vnid == 0 then (pos 0, add_inode name r) else (negsuc 0, r)

-- struct dirent, its number and name, and the cookie of an open directory.
pub record Dirent : Type 0 where
  pub d_fileno : ℕ
  pub d_name : List ℕ

pub record Cookie : Type 0 where
  pub head : List Dirent
  pub current : List Dirent

-- The loop of rootfs_opendir, which puts each entry before the others.
unfoldable pub entries : List Inode → List Dirent → List Dirent
entries [] head = head
entries (i ∷ is) head = entries is (record { d_fileno = i.i_ino; d_name = take 33 i.i_name } ∷ head)

-- rootfs_opendir; `none` is ENOTDIR.
unfoldable pub opendir : Vnode → Root → Option Cookie
unfolding entries
opendir dir r =
    let head = entries r.inodes [] in
    if dir.v_vnid == 0 then some (record { head = head; current = head }) else none

-- rootfs_rewinddir
unfoldable pub rewinddir : Cookie → Cookie
rewinddir c = record c { current = c.head }

abbrev pub read_entry : List Dirent → Cookie → Option (Dirent × Cookie)
read_entry [] c = none
read_entry (d ∷ ds) c = some (record d { d_name = take 32 d.d_name }, record c { current = ds })

-- rootfs_readdir; `none` is its result 1, at the end.
unfoldable pub readdir : Cookie → Option (Dirent × Cookie)
readdir c = read_entry c.current c
