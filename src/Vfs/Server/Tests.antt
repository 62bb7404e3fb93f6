-- ===== src/Vfs/Server/Tests.antt =====
-- Runs of srv/vfs/vfs.c, srv/vfs/bootfs.c and srv/vfs/shm.c, with a boot directory of one file.
use frotznet.Prelude.{
  ℕ, ◌*◌, ◌-◌, ◌<◌, ◌≤◌, ◌≡◌, ◌≢◌, refl, inl, some, none, List, [], ◌∷◌, ◌++◌, map, arith, ◌==◌,
  if◌then◌else◌, length, min, take, drop,
}
use frotznet.Prelude.Int.{pos}
use frotznet.Libc.Strings.{strncmp}
use frotznet.Vfs.Mounts.{Superblock, Vfs, fs_find, find_from, vfs_mount}
use frotznet.Vfs.Rootfs.{Cookie}
use frotznet.Vfs.Bootfs.{Entry, Boot, Vnode, mount, walk, bytes_at, readdir, rewinddir, directory}
use frotznet.Vfs.Bootfs.Walk.{inode_of}
use frotznet.Vfs.Shm.{shm_write_dir}
use frotznet.Vfs.Shm.Listing.{copied, shm_write_dir-lists}
use frotznet.Vfs.Server.{Server, Ofile, Client, Cmd, Given, Answer, vfs_ok, result, answer, free_fd}
use frotznet.Vfs.Server.Requests
use frotznet.Vfs.Server.Requests.{opened}
use frotznet.Vfs.Server.Boot.{BootCookie, u_file, bootfs_vnode_ops}
use frotznet.Vfs.Server.Main.{handle}
use frotznet.Vfs.Server.Reads.{sum, read_all}
use frotznet.Vfs.Server.OpenReads.{open_file-reads}
use frotznet.Vfs.Server.Handle.{handle-keeps}
use frotznet.Vfs.Server.Tell.{Action, tell_parse, tell_cmd, perform}
use frotznet.Vfs.Server.Tell.Parse.{mount_text, tell_parse-mounts}

-- "rc", three bytes in the first page behind the directory.
abbrev rc : Entry
rc = record { be_name = b'r' ∷ b'c' ∷ []; be_offset = 1; be_type = 4; be_vsize = 3 }

abbrev listing : Entry
listing = record { be_name = directory; be_offset = 0; be_type = 1; be_vsize = 1 }

abbrev image : ℕ → ℕ
image a = a

abbrev mounted : Vnode × Boot
mounted = mount (listing ∷ rc ∷ []) image 0

-- "/boot"
abbrev boot : List ℕ
boot = b'/' ∷ b'b' ∷ b'o' ∷ b'o' ∷ b't' ∷ []

abbrev super : Superblock
super = record { sb_dir = boot; driver = b'b' ∷ [] }

abbrev server : Server Boot Vnode BootCookie
server = record {
  vfs = record { drivers = []; mounts = super ∷ [] };
  sb_vops = λ s. bootfs_vnode_ops;
  sb_root = λ s. mounted.0;
  v_sb = λ v. super;
}

abbrev given : Given
given = record { area = 7; port = 8; names = λ i. []; behind = []; o_pos = 0; errno = 0 }

abbrev client : Client Vnode BootCookie
client = record {
  in_port = 1;
  out = 2;
  filename_area = 3;
  cwd = b'/' ∷ [];
  ofile = λ i. none;
  nameptr = λ i. boot ++ (b'/' ∷ b'r' ∷ b'c' ∷ []);
}

abbrev open_rc : Cmd
open_rc = record { cmd = 21; arg = λ k. 0 }

rc_found : fs_find (client.nameptr 0) server.vfs ≡ some super
unfolding fs_find find_from strncmp
rc_found = refl

open_file-reads_example :
    (fd : ℕ) × (c' : Client Vnode BootCookie) × (Requests.open_file server given client open_rc
        mounted.1
      ≡ some (answer (result vfs_ok 0 (some fd)) c' mounted.1))
    × (client.ofile fd ≡ none)
    × ((j : ℕ) → j < fd → client.ofile j ≢ none)
    × ((ns : List ℕ)
        → read_all server fd ns c' mounted.1 ≡ some (bytes_at image (1 * 0x1000) (min (sum ns) 3)))
open_file-reads_example =
    open_file-reads server given client open_rc super (listing ∷ []) rc [] image 0 4 refl refl
      (omega arith) refl refl rc_found refl (λ v. refl) refl

abbrev a_file : Ofile Vnode BootCookie
a_file = record {
  o_vnode = record { v_vnid = 2; v_data = some (inode_of rc 2) };
  o_cookie = u_file 0x1000;
  area = 7;
  offset = 0;
  length = 0;
  o_pos = 1;
}

-- A client with descriptor 0 open.
abbrev reader : Client Vnode BootCookie
reader = record client { ofile = λ i. if i == 0 then some a_file else none }

abbrev opens_rc : Answer Boot Vnode BootCookie
opens_rc =
    opened 1 (record { v_vnid = 2; v_data = some (inode_of rc 2) }) 0 open_rc
      (0, u_file 0x1000, mounted.1) given reader

opening : handle server given 1 reader open_rc mounted.1 ≡ some opens_rc
unfolding handle Requests.open_file free_fd fs_find find_from strncmp walk mount
opening = refl

handle-keeps_example : opens_rc.client.ofile 0 ≡ some a_file
handle-keeps_example =
    handle-keeps reader 0 a_file refl server given 1 open_rc mounted.1 opens_rc refl (inl refl)
      opening

-- Two entries, and room for two: one is said to be written.
abbrev two : Cookie
two = record {
  head =
      record { d_fileno = 1; d_name = b'a' ∷ [] }
      ∷ record { d_fileno = 0; d_name = b'b' ∷ [] }
      ∷ [];
  current = [];
}

shm_write_dir-lists_example :
    let r = shm_write_dir rewinddir readdir 0 2 two in
    (r.1.written ≡ map copied (take 2 (drop 0 two.head)))
    × (length (drop 0 two.head) < 2 → r.0 ≡ length (drop 0 two.head))
    × (2 ≤ length (drop 0 two.head) → r.0 ≡ 2 - 1)
shm_write_dir-lists_example = shm_write_dir-lists 0 2 two

abbrev none_mounted : Vfs
none_mounted = record {
  drivers = record { name = b'b' ∷ []; mount = λ o. pos 0 } ∷ [];
  mounts = [];
}

-- "mount b /boot x"
tell_parse-mounts_example :
    (actions : List Action) × (tell_parse (mount_text (b'b' ∷ []) boot (b'x' ∷ [])) ≡ some actions)
    × (perform actions none_mounted ≡ (vfs_mount boot (b'b' ∷ []) (b'x' ∷ []) none_mounted).1)
tell_parse-mounts_example =
    tell_parse-mounts (b'b' ∷ []) boot (b'x' ∷ []) none_mounted refl refl (refl, λ e. absurd cc)

-- "mount b /boot": the search for the options runs off the string.
mount_without_options :
    tell_parse (b'm' ∷ b'o' ∷ b'u' ∷ b'n' ∷ b't' ∷ b' ' ∷ b'b' ∷ b' ' ∷ boot) ≡ none
unfolding tell_parse tell_cmd
mount_without_options = refl
