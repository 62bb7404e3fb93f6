-- ===== src/Libposix/Fdl.antt =====
-- lib/libposix/fdl.c: the table of file descriptors. The operations of a handler change a state W of their
-- own, and take their arguments as words. A call is `none` where the code reads through a NULL pointer. A
-- descriptor is not negative, and the semaphore around the search lets one task in at a time.
pub mod Lowest
mod Tests
use frotznet.Prelude.{
  ℕ, zero, suc, ◌+◌, Option, none, some, ◌==◌, if◌then◌else◌, update, List, [], ◌∷◌,
}
use frotznet.Prelude.Int.{ℤ, pos, negsuc}

-- fdl_type: an operation that the handler lacks is NULL. The first word is the cookie.
pub record Handler (W : Type 0) : Type 0 where
  pub read : Option (ℕ → ℕ → ℕ → W → ℤ × W)
  pub write : Option (ℕ → ℕ → ℕ → W → ℤ × W)
  pub ioctl : Option (ℕ → ℕ → ℕ → W → ℤ × W)
  pub close : Option (ℕ → W → ℤ × W)

-- __filedesc
pub record Filedesc (W : Type 0) : Type 0 where
  pub imp : Handler W
  pub cookie : ℕ

-- fd_table, errno and the handlers' state.
pub record Files (W : Type 0) : Type 0 where
  pub table : ℕ → Option (Filedesc W)
  pub errno : ℕ
  pub state : W

abbrev pub max_fds : ℕ
max_fds = 256

-- ENOSYS
abbrev pub enosys : ℕ
enosys = 78

module _ {W : Type 0} where
  -- __libc_init_fdl
  unfoldable pub init : Files W → Files W
  init p = record p { table = λ i. none }

  -- The search of _fdl_alloc_descriptor from `i` on.
  unfoldable pub search : ℕ → ℕ → (ℕ → Option (Filedesc W)) → Option ℕ
  search zero i table = none
  search (suc left) i table = elim (table i) [ none ↦ some i | some d ↦ search left (i + 1) table ]

  abbrev pub place : Handler W → ℕ → Option ℕ → Files W → ℤ × Files W
  place handler cookie none p = (negsuc 0, p)
  place handler cookie (some i) p = (
    pos i,
    record p { table = update p.table i (some (record { imp = handler; cookie = cookie })) },
  )

  -- _fdl_alloc_descriptor
  unfoldable pub alloc_descriptor : Handler W → ℕ → Files W → ℤ × Files W
  unfolding search
  alloc_descriptor handler cookie p = place handler cookie (search max_fds 0 p.table) p

  -- _fdl_free_descriptor
  unfoldable pub free_descriptor : ℕ → Files W → Files W
  free_descriptor fd p = record p { table = update p.table fd none }

  -- An operation on three words, or ENOSYS.
  abbrev pub perform : Option (ℕ → ℕ → ℕ → W → ℤ × W) → ℕ → ℕ → ℕ → Files W → ℤ × Files W
  perform none cookie a b p = (negsuc 0, record p { errno = enosys })
  perform (some f) cookie a b p = let r = f cookie a b p.state in (r.0, record p { state = r.1 })

  abbrev pub read_with : Option (Filedesc W) → ℕ → ℕ → Files W → Option (ℤ × Files W)
  read_with none buf count p = none
  read_with (some d) buf count p = some (perform d.imp.read d.cookie buf count p)

  abbrev pub write_with : Option (Filedesc W) → ℕ → ℕ → Files W → Option (ℤ × Files W)
  write_with none buf count p = none
  write_with (some d) buf count p = some (perform d.imp.write d.cookie buf count p)

  abbrev pub ioctl_with : Option (Filedesc W) → ℕ → ℕ → Files W → Option (ℤ × Files W)
  ioctl_with none request argp p = none
  ioctl_with (some d) request argp p = some (perform d.imp.ioctl d.cookie request argp p)

  abbrev pub close_by : ℕ → Option (ℕ → W → ℤ × W) → ℕ → Files W → ℤ × Files W
  close_by fd none cookie p = (negsuc 0, record p { errno = enosys })
  close_by fd (some f) cookie p =
      let r = f cookie p.state in (r.0, record p { state = r.1; table = update p.table fd none })

  abbrev pub close_with : ℕ → Option (Filedesc W) → Files W → Option (ℤ × Files W)
  close_with fd none p = none
  close_with fd (some d) p = some (close_by fd d.imp.close d.cookie p)

  -- _read, _write, _ioctl and _close
  unfoldable pub read : ℕ → ℕ → ℕ → Files W → Option (ℤ × Files W)
  read fd buf count p = read_with (p.table fd) buf count p

  unfoldable pub write : ℕ → ℕ → ℕ → Files W → Option (ℤ × Files W)
  write fd buf count p = write_with (p.table fd) buf count p

  unfoldable pub ioctl : ℕ → ℕ → ℕ → Files W → Option (ℤ × Files W)
  ioctl fd request argp p = ioctl_with (p.table fd) request argp p

  unfoldable pub close : ℕ → Files W → Option (ℤ × Files W)
  close fd p = close_with fd (p.table fd) p
