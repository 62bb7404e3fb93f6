-- ===== src/Vfs/Shm.antt =====
-- srv/vfs/shm.c: shm_write_dir, over the rewinddir and readdir of a driver; shm_write is empty.
pub mod Listing
use frotznet.Prelude.{
  ℕ, zero, suc, ◌-◌, Bool, true, false, Option, none, some, List, [], ◌∷◌, if◌then◌else◌, length,
}
use frotznet.Vfs.Rootfs.{Dirent}

-- What the loops leave: the entries that are written one behind the other, whether a readdir failed, and
-- the cookie.
pub record Written (C : Type 0) : Type 0 where
  pub written : List Dirent
  pub ended : Bool
  pub cookie : C

module _ {C : Type 0} (readdir : C → Option (Dirent × C)) where
  -- The first loop, whose results are not looked at.
  unfoldable pub skip_entries : ℕ → C → C
  skip_entries zero c = c
  skip_entries (suc n) c = elim (readdir c) [
    | none ↦ skip_entries n c
    | some (d, c') ↦ skip_entries n c'
  ]

  abbrev pub before : Dirent → Written C → Written C
  before d w = record w { written = d ∷ w.written }

  -- The second loop, over the entries that fit.
  unfoldable pub write_entries : ℕ → C → Written C
  write_entries zero c = record { written = []; ended = false; cookie = c }
  write_entries (suc n) c = elim (readdir c) [
    | none ↦ record { written = []; ended = true; cookie = c }
    | some (d, c') ↦ before d (write_entries n c')
  ]

-- *numents: one less than the rounds of the loop, of which the last, if readdir failed, wrote nothing.
abbrev pub numents : {C : Type 0} → Written C → ℕ
numents w = if w.ended then length w.written else length w.written - 1

-- shm_write_dir, with the number of entries that fit into `len` bytes.
unfoldable pub shm_write_dir :
    {C : Type 0} → (C → C) → (C → Option (Dirent × C)) → ℕ → ℕ → C → ℕ × Written C
unfolding skip_entries write_entries
shm_write_dir rewinddir readdir skip fit c =
    let w = write_entries readdir fit (skip_entries readdir skip (rewinddir c)) in (numents w, w)
