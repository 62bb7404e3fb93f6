-- ===== src/Vfs/Mounts/Tests.antt =====
-- Runs of srv/vfs/fs.c with two mounts.
use frotznet.Prelude.{◌≡◌, refl, some, [], ◌∷◌}
use frotznet.Prelude.Int.{pos}
use frotznet.Libc.Strings.{strncmp}
use frotznet.Vfs.Mounts.{Driver, Superblock, Vfs, taken, fs_register, find_from, fs_find}
use frotznet.Vfs.Mounts.Longest.{Longest, fs_find-Longest}

abbrev root_mount : Superblock
root_mount = record { sb_dir = b'/' ∷ []; driver = b'r' ∷ [] }

abbrev boot_mount : Superblock
boot_mount = record { sb_dir = b'/' ∷ b'b' ∷ []; driver = b'b' ∷ [] }

abbrev driver : Driver
driver = record { name = b'r' ∷ []; mount = λ options. pos 0 }

abbrev mounted : Vfs
mounted = record { drivers = driver ∷ []; mounts = root_mount ∷ boot_mount ∷ [] }

below_boot : fs_find (b'/' ∷ b'b' ∷ b'/' ∷ b'x' ∷ []) mounted ≡ some boot_mount
unfolding fs_find find_from strncmp
below_boot = refl

-- The same driver is registered twice: the last one is not compared.
registered_twice :
    fs_register driver mounted ≡ (pos 0, record mounted { drivers = driver ∷ driver ∷ [] })
unfolding fs_register taken
registered_twice = refl

fs_find-Longest_example :
    Longest (b'/' ∷ b'b' ∷ []) mounted.mounts (fs_find (b'/' ∷ b'b' ∷ []) mounted)
fs_find-Longest_example = fs_find-Longest (b'/' ∷ b'b' ∷ []) mounted
