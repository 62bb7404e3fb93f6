-- ===== src/Vfs/Server/OpenReads.antt =====
-- From the boot directory to the reads of a client: bootfs_mount, vfs_open and vfs_read together.
use frotznet.Prelude.{
  ℕ, suc, ◌+◌, ◌*◌, ◌<◌, ◌≡◌, ◌≢◌, refl, ap, ◌∙◌, true, false, Option, none, some, List, [], ◌∷◌,
  ◌++◌, arith, ltb, length, take, drop, length-append, min, update_self,
}
use frotznet.Vfs.Mounts.{Superblock, fs_find}
use frotznet.Vfs.Bootfs.{Entry, Boot, Vnode, is_file, mount, bytes_at}
use frotznet.Vfs.Bootfs.Walk.{has_file, inode_of, mount-walk}
use frotznet.Vfs.Server.{Server, Client, Cmd, Given, vfs_ok, result, answer, max_fds, string_from}
use frotznet.Vfs.Server.Requests
use frotznet.Vfs.Server.Requests.{opened}
use frotznet.Vfs.Server.Boot.{BootCookie, u_file, bootfs_vnode_ops}
use frotznet.Vfs.Server.Descriptors.{free_fd-IsLowest}
use frotznet.Vfs.Server.Reads.{sum, read_all, IsOpen, read_all-IsOpen}

drop-append : (xs : List ℕ) (y : ℕ) (ys : List ℕ) → drop (length xs + 1) (xs ++ (y ∷ ys)) ≡ ys
drop-append [] y ys = refl
drop-append (x ∷ xs) y ys =
    let e : length (x ∷ xs) + 1 ≡ suc (length xs + 1) = omega arith in rw e (drop-append xs y ys)

string_from-append :
    (xs : List ℕ) (y : ℕ) (ys : List ℕ) → string_from (length xs + 1) (xs ++ (y ∷ ys)) ≡ some ys
string_from-append xs y ys =
    let fits : ltb (length (xs ++ (y ∷ ys))) (length xs + 1) ≡ false =
      ground (arith, length-append {0} xs (y ∷ ys)) in
    rw (fits, drop-append xs y ys) refl

-- The bytes that are read, in the image that is mounted.
placed :
    {image bootdir : ℕ → ℕ} {a a' : ℕ} {size size' : ℕ}
    → bootdir ≡ image
    → a ≡ a'
    → size ≡ size'
    → (ns : List ℕ)
    → ◌≡◌ {A = Option (List ℕ)}
        (some (bytes_at bootdir a (min (sum ns) size)))
        (some (bytes_at image a' (min (sum ns) size')))
placed p q r ns = rw (p, q, r) refl

-- A file of the boot directory is found by its path, the directory of its file system, a slash and its
-- name. vfs_open of that path, with a free descriptor, succeeds on the lowest one, and reads of it, each
-- of any size, then give one after the other the bytes of the file from its offset on, until all that are
-- asked for have come or the file has ended. That holds on a server where the vnodes are those of this
-- file system, and where no file behind it in the boot directory has its name, cut to 31 characters.
pub open_file-reads :
    (s : Server Boot Vnode BootCookie) (g : Given) (c : Client Vnode BootCookie) (vc : Cmd)
    (super : Superblock) (before : List Entry) (e : Entry) (after : List Entry) (image : ℕ → ℕ)
    (max free : ℕ)
    → is_file e ≡ true
    → has_file (take 31 e.be_name) after ≡ false
    → free < max_fds
    → c.ofile free ≡ none
    → c.nameptr (vc.arg 0) ≡ super.sb_dir ++ (b'/' ∷ take 31 e.be_name)
    → fs_find (c.nameptr (vc.arg 0)) s.vfs ≡ some super
    → s.sb_vops super ≡ bootfs_vnode_ops
    → ((v : Vnode) → s.v_sb v ≡ super)
    → let mounted = mount (before ++ (e ∷ after)) image max in
      s.sb_root super ≡ mounted.0
      → (fd : ℕ) × (c' : Client Vnode BootCookie) × (Requests.open_file s g c vc mounted.1
          ≡ some (answer (result vfs_ok 0 (some fd)) c' mounted.1))
        × (c.ofile fd ≡ none)
        × ((j : ℕ) → j < fd → c.ofile j ≢ none)
        × ((ns : List ℕ)
            → read_all s fd ns c' mounted.1
              ≡ some (bytes_at image (e.be_offset * 0x1000) (min (sum ns) e.be_vsize)))
unfolding Requests.open_file
open_file-reads s g c vc super before e after image max free file alone small empty path found ops
      vnodes root =
    let b = (mount (before ++ (e ∷ after)) image max).1 in
    let slot = free_fd-IsLowest max_fds 0 c.ofile free (omega arith) (omega arith) empty in
    let fd = slot.0 in
    let w = mount-walk before e after image max file alone in
    let i = inode_of e w.0 in
    let v : Vnode = record { v_vnid = w.0; v_data = some i } in
    let a = opened fd v 0 vc (0, u_file (i.i_offset * 0x1000), b) g c in
    let now : IsOpen s fd i (omega (arith, slot.2.1)) a.client 0 = record {
      o = record {
        o_vnode = v;
        o_cookie = u_file (i.i_offset * 0x1000);
        area = g.area;
        offset = vc.arg 2;
        length = vc.arg 3;
        o_pos = 0;
      };
      entry = update_self c.ofile fd _;
      inode = refl;
      at = refl;
      ops = ap s.sb_vops (vnodes v) ∙ ops;
    } in
    (
      fd,
      a.client,
      rw
          (
            slot.1,
            found,
            ops,
            root,
            path,
            string_from-append super.sb_dir b'/' (take 31 e.be_name),
            w.1,
          )
          refl,
      slot.2.2,
      λ j lt. slot.2.3 j (omega arith) lt,
      λ ns.
          read_all-IsOpen s fd i (omega (arith, slot.2.1)) ns a.client 0 b now (omega arith)
          ∙ placed w.2 (omega arith) (omega arith) ns,
    )
