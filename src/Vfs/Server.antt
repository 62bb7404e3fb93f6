-- ===== src/Vfs/Server.antt =====
-- srv/vfs/vfs.c: the requests of a client, over the operations that a driver has. A call is `none` where the
-- code reads or writes outside of an object or through NULL. A word is a natural number.
pub mod Requests
pub mod Main
pub mod Descriptors
pub mod Tell
pub mod Boot
pub mod Reads
pub mod Messages
pub mod Keeps
pub mod OpenReads
pub mod Handle
mod Tests
use frotznet.Prelude.{
  ℕ, zero, suc, ◌+◌, Option, none, some, List, [], ◌∷◌, ◌==◌, ltb, if◌then◌else◌, length, drop,
}
use frotznet.Vfs.Mounts.{Superblock, Vfs}
use frotznet.Vfs.Rootfs.{Dirent}
use frotznet.Vfs.Bootfs.{Stat}

-- struct vnode_ops: the operations that the server calls, on the state W of the drivers, vnodes V and
-- cookies C. An operation that a driver lacks is NULL.
pub record VnodeOps (W V C : Type 0) : Type 0 where
  pub walk : V → List ℕ → W → Option (Option V)
  pub mkdir : Option (V → List ℕ → ℕ → W → ℕ × W)
  pub opendir : Option (V → W → Option (ℕ × C × W))
  pub closedir : Option (V → C → W → W)
  pub free_dircookie : Option (C → W → W)
  pub rewinddir : C → C
  pub readdir : C → Option (Dirent × C)
  pub open_file : Option (V → W → Option (ℕ × C × W))
  pub close : Option (V → C → W → ℕ × W)
  pub free_cookie : Option (C → W → W)
  pub read : Option (V → ℕ → ℕ → C → W → Option (ℕ × List ℕ × W))
  pub rstat : Option (V → W → Option (ℕ × Stat))

-- mount_list with the drivers, and what the superblocks and vnodes point to.
pub record Server (W V C : Type 0) : Type 0 where
  pub vfs : Vfs
  pub sb_vops : Superblock → VnodeOps W V C
  pub sb_root : Superblock → V
  pub v_sb : V → Superblock

-- struct ofile
pub record Ofile (V C : Type 0) : Type 0 where
  pub o_vnode : V
  pub o_cookie : C
  pub area : ℕ
  pub offset : ℕ
  pub length : ℕ
  pub o_pos : ℕ

-- struct client; `nameptr` gives the string at an offset of the shared area.
pub record Client (V C : Type 0) : Type 0 where
  pub in_port : ℕ
  pub out : ℕ
  pub filename_area : ℕ
  pub cwd : List ℕ
  pub ofile : ℕ → Option (Ofile V C)
  pub nameptr : ℕ → List ℕ

-- vfs_cmd_t
pub record Cmd : Type 0 where
  pub cmd : ℕ
  pub arg : ℕ → ℕ

-- vfs_res_t, with the first words of its data where they are set, and the struct stat behind it.
pub record Res : Type 0 where
  pub status : ℕ
  pub errno : ℕ
  pub first : Option ℕ
  pub numents : Option ℕ
  pub stat : Option Stat

-- What a request answers: the result, the client and the drivers' state after it, the data of a read, and
-- the entries that are written to the area of a directory.
pub record Answer (W V C : Type 0) : Type 0 where
  pub res : Res
  pub client : Client V C
  pub fs : W
  pub sent : Option (List ℕ)
  pub listed : List Dirent

-- What comes from outside: the results of area_clone and port_create, and what new memory holds.
pub record Given : Type 0 where
  pub area : ℕ
  pub port : ℕ
  pub names : ℕ → List ℕ
  pub behind : List ℕ
  pub o_pos : ℕ
  pub errno : ℕ

abbrev pub max_fds : ℕ
max_fds = 256

abbrev pub vfs_ok : ℕ
vfs_ok = 1

abbrev pub vfs_error : ℕ
vfs_error = 2

abbrev pub enoent : ℕ
enoent = 2

abbrev pub ebadf : ℕ
ebadf = 9

abbrev pub emfile : ℕ
emfile = 24

abbrev pub enosys : ℕ
enosys = 78

-- A request goes on, or is refused with an error number, or the server faults.
pub data Attempt (A : Type 0) : Type 0 where
  done : A → Attempt A
  refused : ℕ → Attempt A
  fault : Attempt A

infixl 5 ◌>>=◌
abbrev pub ◌>>=◌ : {A B : Type 0} → Attempt A → (A → Attempt B) → Attempt B
done a >>= f = f a
refused e >>= f = refused e
fault >>= f = fault

abbrev pub need : {A : Type 0} → ℕ → Option A → Attempt A
need e none = refused e
need e (some a) = done a

abbrev pub known : {A : Type 0} → Option A → Attempt A
known none = fault
known (some a) = done a

abbrev pub result : ℕ → ℕ → Option ℕ → Res
result status errno first = record {
  status = status;
  errno = errno;
  first = first;
  numents = none;
  stat = none;
}

abbrev pub status_of : ℕ → ℕ
status_of errno = if errno == 0 then vfs_ok else vfs_error

module _ {W V C : Type 0} where
  abbrev pub answer : Res → Client V C → W → Answer W V C
  answer r c w = record { res = r; client = c; fs = w; sent = none; listed = [] }

  abbrev pub settle : Client V C → W → Attempt (Answer W V C) → Option (Answer W V C)
  settle c w (done a) = some a
  settle c w (refused e) = some (answer (result vfs_error e none) c w)
  settle c w fault = none

module _ {V C : Type 0} where
  -- The lowest descriptor from `i` on that is free.
  unfoldable pub free_fd : ℕ → ℕ → (ℕ → Option (Ofile V C)) → Option ℕ
  free_fd zero i table = none
  free_fd (suc left) i table = elim (table i) [
    | none ↦ some i
    | some o ↦ free_fd left (i + 1) table
  ]

  -- An element of ofile; the table ends at MAX_FDS.
  abbrev pub slot : ℕ → Client V C → Option (Option (Ofile V C))
  slot fd c = if ltb fd max_fds then some (c.ofile fd) else none

-- The string from an index on, its NUL included.
abbrev pub string_from : ℕ → List ℕ → Option (List ℕ)
string_from n s = if ltb (length s) n then none else some (drop n s)
