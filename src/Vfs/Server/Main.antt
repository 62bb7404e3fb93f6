-- ===== src/Vfs/Server/Main.antt =====
-- srv/vfs/vfs.c: the switch of vfs_main over the commands, and the messages that carry the data of a read.
use frotznet.Prelude.{
  ℕ, zero, suc, ◌/◌, Option, none, some, List, [], ◌∷◌, ◌==◌, ltb, if◌then◌else◌, length, take,
  drop, update,
}
use frotznet.Vfs.Shm.{shm_write_dir}
use frotznet.Vfs.Server.{Server, Ofile, Client, Cmd, Answer, Given, vfs_ok}
use frotznet.Vfs.Server.Requests

abbrev pub vfs_openconn : ℕ
vfs_openconn = 1

abbrev pub vfs_mkdir : ℕ
vfs_mkdir = 10

abbrev pub vfs_opendir : ℕ
vfs_opendir = 17

abbrev pub vfs_closedir : ℕ
vfs_closedir = 18

abbrev pub vfs_scroll_area : ℕ
vfs_scroll_area = 19

abbrev pub vfs_open : ℕ
vfs_open = 21

abbrev pub vfs_close : ℕ
vfs_close = 22

abbrev pub vfs_read : ℕ
vfs_read = 23

abbrev pub vfs_rstat : ℕ
vfs_rstat = 27

-- sizeof (struct dirent): two numbers, a name of 33 bytes, and a byte that fills it up.
abbrev pub dirent_size : ℕ
dirent_size = 40

module _ {W V C : Type 0} where
  -- The entries of the directory that is open as `o`, written to its area.
  abbrev pub list_dir : Server W V C → ℕ → Ofile V C → ℕ → Answer W V C → Answer W V C
  list_dir s fd o len a =
      let ops = s.sb_vops (s.v_sb o.o_vnode) in
      let r = shm_write_dir ops.rewinddir ops.readdir 0 (len / dirent_size) o.o_cookie in
      record a {
        res = record a.res { numents = some r.0 };
        client = record a.client {
          ofile = update a.client.ofile fd (some (record o { o_cookie = r.1.cookie }));
        };
        listed = r.1.written;
      }

  abbrev pub list_entry :
      Server W V C → ℕ → ℕ → Answer W V C → Option (Ofile V C) → Option (Answer W V C)
  list_entry s fd len a none = none
  list_entry s fd len a (some o) = some (list_dir s fd o len a)

  abbrev pub list_at : Server W V C → Option ℕ → ℕ → Answer W V C → Option (Answer W V C)
  list_at s none len a = none
  list_at s (some fd) len a = list_entry s fd len a (a.client.ofile fd)

  abbrev pub list_opened : Server W V C → ℕ → Option (Answer W V C) → Option (Answer W V C)
  list_opened s len none = none
  list_opened s len (some a) =
      if a.res.status == vfs_ok then list_at s a.res.first len a else some a

  -- The switch of vfs_main, for the client that the port of the message stands for. A command that is not
  -- in it is answered with the result of the message before, which has been freed.
  unfoldable pub handle : Server W V C → Given → ℕ → Client V C → Cmd → W → Option (Answer W V C)
  handle s g src c vc w =
      if vc.cmd == vfs_openconn
      then some (Requests.openconn src (vc.arg 0) g w)
      else if vc.cmd == vfs_scroll_area
      then Requests.scroll_area c vc w
      else if vc.cmd == vfs_opendir
      then list_opened s (vc.arg 3) (Requests.opendir s g c vc w)
      else if vc.cmd == vfs_closedir
      then Requests.closedir s g c vc w
      else if vc.cmd == vfs_open
      then Requests.open_file s g c vc w
      else if vc.cmd == vfs_close
      then Requests.close s c vc w
      else if vc.cmd == vfs_read
      then Requests.read s c vc w
      else if vc.cmd == vfs_rstat
      then Requests.rstat s c vc w
      else if vc.cmd == vfs_mkdir
      then Requests.mkdir s c vc w
      else none

-- The loop of vfs_main over data of at least a page: a message for each page but the last.
unfoldable pub pages : ℕ → List ℕ → List (List ℕ)
pages zero bytes = bytes ∷ []
pages (suc n) bytes =
    let rest = take 0x1000 bytes ∷ pages n (drop 0x1000 bytes) in
    if ltb 0x1000 (length bytes) then rest else bytes ∷ []

-- The messages that carry the data of a read.
unfoldable pub messages : List ℕ → List (List ℕ)
unfolding pages
messages bytes =
    if ltb (length bytes) 0x1000 then bytes ∷ [] else pages (length bytes / 0x1000) bytes
