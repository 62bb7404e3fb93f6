-- ===== src/Libposix/Fdl/Tests.antt =====
-- Runs of lib/libposix/fdl.c with a handler that counts its reads.
use frotznet.Prelude.{ℕ, ◌+◌, ◌≡◌, refl, none, some, ◌==◌, if◌then◌else◌}
use frotznet.Prelude.Int.{pos, negsuc}
use frotznet.Libposix.Fdl.{Handler, Files, enosys, read, write}

abbrev counter : Handler ℕ
counter = record {
  read = some (λ cookie buf count n. (pos count, n + 1));
  write = none;
  ioctl = none;
  close = some (λ cookie n. (pos 0, n));
}

-- Two descriptors are in use.
abbrev files : Files ℕ
files = record {
  table = λ i.
      if i == 0
      then some (record { imp = counter; cookie = 7 })
      else if i == 1
      then some (record { imp = counter; cookie = 8 })
      else none;
  errno = 0;
  state = 0;
}

reads : read 1 4096 12 files ≡ some (pos 12, record files { state = 1 })
unfolding read
reads = refl

writes : write 1 4096 12 files ≡ some (negsuc 0, record files { errno = enosys })
unfolding write
writes = refl

-- A descriptor that is not in use: NULL is read through.
read_unused : read 2 4096 12 files ≡ none
unfolding read
read_unused = refl
