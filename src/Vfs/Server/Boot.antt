-- ===== src/Vfs/Server/Boot.antt =====
-- srv/vfs/bootfs.c: bootfs_vnode_ops, with bootfs_open, the operations that do nothing, and the cookie.
use frotznet.Prelude.{ℕ, ◌*◌, Option, none, some, List}
use frotznet.Vfs.Rootfs.{Dirent, Cookie}
use frotznet.Vfs.Bootfs
use frotznet.Vfs.Bootfs.{Inode, Boot, Vnode, Stat}
use frotznet.Vfs.Server.{VnodeOps}

-- union bootfs_cookie: a directory, or the place of a file.
pub data BootCookie : Type 0 where
  u_dir : Cookie → BootCookie
  u_file : ℕ → BootCookie

-- ENOTDIR
abbrev pub enotdir : ℕ
enotdir = 20

abbrev pub dir_opened : Option Cookie → Boot → ℕ × BootCookie × Boot
dir_opened none b = (enotdir, u_file 0, b)
dir_opened (some c) b = (0, u_dir c, b)

abbrev pub rewind_union : BootCookie → BootCookie
rewind_union (u_dir c) = u_dir (Bootfs.rewinddir c)
rewind_union (u_file a) = u_file a

abbrev pub entry_read : Option (Dirent × Cookie) → Option (Dirent × BootCookie)
entry_read none = none
entry_read (some (d, c)) = some (d, u_dir c)

abbrev pub read_union : BootCookie → Option (Dirent × BootCookie)
read_union (u_dir c) = entry_read (Bootfs.readdir c)
read_union (u_file a) = none

-- bootfs_open
abbrev pub open_inode : Option Inode → Boot → Option (ℕ × BootCookie × Boot)
open_inode none b = none
open_inode (some i) b = some (0, u_file (i.i_offset * 0x1000), b)

abbrev pub read_inode : Option Inode → ℕ → ℕ → Boot → Option (ℕ × List ℕ × Boot)
read_inode none count offset b = none
read_inode (some i) count offset b = some (0, Bootfs.read i count offset b, b)

abbrev pub stat_inode : Option Inode → Option (ℕ × Stat)
stat_inode none = none
stat_inode (some i) = some (0, Bootfs.rstat i)

-- bootfs_vnode_ops
abbrev pub bootfs_vnode_ops : VnodeOps Boot Vnode BootCookie
bootfs_vnode_ops = record {
  walk = λ v path b. some (Bootfs.walk v path b);
  mkdir = none;
  opendir = some (λ v b. some (dir_opened (Bootfs.opendir v b) b));
  closedir = some (λ v c b. b);
  free_dircookie = none;
  rewinddir = rewind_union;
  readdir = read_union;
  open_file = some (λ v b. open_inode v.v_data b);
  close = some (λ v c b. (0, b));
  free_cookie = some (λ c b. b);
  read = some (λ v count offset c b. read_inode v.v_data count offset b);
  rstat = some (λ v b. stat_inode v.v_data);
}
