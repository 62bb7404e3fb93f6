-- ===== src/Vfs/Server/Requests.antt =====
-- srv/vfs/vfs.c: vfs_openconn, vfs_scroll_area, vfs_mkdir, vfs_opendir, vfs_closedir, vfs_open, vfs_close,
-- vfs_read, vfs_rstat.
use frotznet.Prelude.{
  ℕ, ◌+◌, Option, none, some, List, [], ◌∷◌, ◌==◌, if◌then◌else◌, length, update,
}
use frotznet.Vfs.Mounts.{same_name, Superblock, fs_find}
use frotznet.Vfs.Path.{path_combine}
use frotznet.Vfs.Server.{
  Server, Client, Cmd, Answer, Given, max_fds, vfs_ok, enoent, ebadf, emfile, enosys, Attempt, done,
  fault, ◌>>=◌, need, known, result, status_of, answer, settle, free_fd, slot, string_from,
}

-- An operation that only releases, if the driver has it.
abbrev pub release : {W C : Type 0} → Option (C → W → W) → C → W → W
release none cookie w = w
release (some f) cookie w = f cookie w

module _ {W V C : Type 0} where
  -- vfs_openconn; the client of a connection is new.
  unfoldable pub openconn : ℕ → ℕ → Given → W → Answer W V C
  openconn rport area g w =
      answer (result vfs_ok 0 (some g.port))
        (record {
          in_port = rport;
          out = g.port;
          filename_area = area;
          cwd = b'/' ∷ [];
          ofile = λ i. none;
          nameptr = g.names;
        })
        w

  -- vfs_scroll_area; shm_write is empty.
  unfoldable pub scroll_area : Client V C → Cmd → W → Option (Answer W V C)
  scroll_area c vc w = settle c w (do
    entry ← known (slot (vc.arg 0) c)
    o ← known entry
    done (answer (result vfs_ok 0 none) c w))

  -- The new descriptor, with what the driver says of it.
  abbrev pub opened : ℕ → V → ℕ → Cmd → ℕ × C × W → Given → Client V C → Answer W V C
  opened i v pos vc r g c =
      answer (result (status_of r.0) r.0 (some i))
        (record c {
          ofile = update c.ofile i (
              some (record {
                o_vnode = v;
                o_cookie = r.1;
                area = g.area;
                offset = vc.arg 2;
                length = vc.arg 3;
                o_pos = pos;
              }));
        })
        r.2

  -- The vnode of a directory: the root, or what is found behind the directory of the file system and the
  -- character after it.
  abbrev pub directory_at : Server W V C → Superblock → List ℕ → W → Option (Option V)
  directory_at s super dir w =
      if same_name dir super.sb_dir
      then some (some (s.sb_root super))
      else elim (string_from (length super.sb_dir + 1) dir) [
        | none ↦ none
        | some rest ↦ (s.sb_vops super).walk (s.sb_root super) rest w
      ]

  -- vfs_opendir
  unfoldable pub opendir : Server W V C → Given → Client V C → Cmd → W → Option (Answer W V C)
  opendir s g c vc w = settle c w (do
    i ← need emfile (free_fd max_fds 0 c.ofile)
    dir ← known (path_combine c.cwd (c.nameptr (vc.arg 0)) g.behind)
    super ← need enoent (fs_find dir s.vfs)
    f ← need enosys (s.sb_vops super).opendir
    found ← known (directory_at s super dir w)
    v ← need enoent found
    r ← known (f v w)
    done (opened i v g.o_pos vc r g c))

  -- vfs_closedir; errno of the new result is read before it is set.
  unfoldable pub closedir : Server W V C → Given → Client V C → Cmd → W → Option (Answer W V C)
  closedir s g c vc w = settle c w (do
    entry ← known (slot (vc.arg 0) c)
    o ← need ebadf entry
    let ops = s.sb_vops (s.v_sb o.o_vnode)
    f ← need enosys ops.closedir
    let w1 = f o.o_vnode o.o_cookie w
    let w2 = if g.errno == 0 then release ops.free_dircookie o.o_cookie w1 else w1
    done (answer (result vfs_ok 0 none) (record c { ofile = update c.ofile (vc.arg 0) none }) w2))

  -- vfs_open
  unfoldable pub open_file : Server W V C → Given → Client V C → Cmd → W → Option (Answer W V C)
  unfolding free_fd
  open_file s g c vc w = settle c w (do
    let path = c.nameptr (vc.arg 0)
    i ← need emfile (free_fd max_fds 0 c.ofile)
    super ← need enoent (fs_find path s.vfs)
    f ← need enosys (s.sb_vops super).open_file
    rest ← known (string_from (length super.sb_dir + 1) path)
    found ← known ((s.sb_vops super).walk (s.sb_root super) rest w)
    v ← need enoent found
    r ← known (f v w)
    done (opened i v 0 vc r g c))

  -- vfs_close; the descriptor stays.
  unfoldable pub close : Server W V C → Client V C → Cmd → W → Option (Answer W V C)
  close s c vc w = settle c w (do
    entry ← known (slot (vc.arg 0) c)
    o ← need ebadf entry
    let ops = s.sb_vops (s.v_sb o.o_vnode)
    f ← need enosys ops.close
    let r = f o.o_vnode o.o_cookie w
    done (answer (result (status_of r.0) r.0 none) c (release ops.free_cookie o.o_cookie r.1)))

  -- vfs_read
  unfoldable pub read : Server W V C → Client V C → Cmd → W → Option (Answer W V C)
  read s c vc w = settle c w (do
    entry ← known (slot (vc.arg 0) c)
    o ← need ebadf entry
    f ← need enosys (s.sb_vops (s.v_sb o.o_vnode)).read
    r ← known (f o.o_vnode (vc.arg 1) o.o_pos o.o_cookie w)
    let numread = length r.1
    let moved = record o { o_pos = o.o_pos + numread }
    done (record {
      res = result (status_of r.0) r.0 (some numread);
      client = record c { ofile = update c.ofile (vc.arg 0) (some moved) };
      fs = r.2;
      sent = some r.1;
      listed = [];
    }))

  -- vfs_rstat
  unfoldable pub rstat : Server W V C → Client V C → Cmd → W → Option (Answer W V C)
  rstat s c vc w = settle c w (do
    let path = c.nameptr (vc.arg 0)
    super ← need enoent (fs_find path s.vfs)
    f ← need enosys (s.sb_vops super).rstat
    rest ← known (string_from (length super.sb_dir + 1) path)
    found ← known ((s.sb_vops super).walk (s.sb_root super) rest w)
    v ← need enoent found
    r ← known (f v w)
    done (answer (record (result (status_of r.0) r.0 none) { stat = some r.1 }) c w))

  abbrev pub make :
      Option (V → List ℕ → ℕ → W → ℕ × W)
      → V
      → ℕ
      → Option (List ℕ)
      → Client V C
      → W
      → Attempt (Answer W V C)
  make none root mode rest c w = done (answer (result enosys 0 none) c w)
  make (some f) root mode none c w = fault
  make (some f) root mode (some s) c w =
      let r = f root s mode w in done (answer (result r.0 0 none) c r.1)

  -- vfs_mkdir, in the answer of vfs_main: what it returns is the status.
  unfoldable pub mkdir : Server W V C → Client V C → Cmd → W → Option (Answer W V C)
  mkdir s c vc w = settle c w (do
    let dir = c.nameptr (vc.arg 0)
    super ← known (fs_find dir s.vfs)
    make (s.sb_vops super).mkdir (s.sb_root super) (vc.arg 1)
        (string_from (length super.sb_dir) dir) c w)
