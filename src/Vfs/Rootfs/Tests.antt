-- ===== src/Vfs/Rootfs/Tests.antt =====
-- Runs of srv/vfs/rootfs.c: a mount, and a directory "a" in it.
use frotznet.Prelude.{◌<◌, arith, ℕ, ◌≡◌, refl, some, true, List, [], ◌∷◌}
use frotznet.Prelude.Int.{pos}
use frotznet.Vfs.Rootfs.{Root, vget, from_ino, find_name, mount, mkdir, walk, walked, missing}
use frotznet.Vfs.Rootfs.Walk.{IsRoot, root, mkdir-walk}

abbrev nothing : Root
nothing = record { inodes = []; inode_max = 0 }

-- "." and ".."
abbrev fresh : Root
fresh = record {
  inodes =
      record { i_ino = 0; i_name = b'.' ∷ [] }
      ∷ record { i_ino = 1; i_name = b'.' ∷ b'.' ∷ [] }
      ∷ [];
  inode_max = 2;
}

mounts : mount nothing ≡ (root, fresh)
unfolding mount vget from_ino
mounts = refl

abbrev a : List ℕ
a = b'a' ∷ []

-- From the directory ".." the one before it is not seen, and the one behind it is.
walk_from_a_directory : walk (record { v_vnid = 1; found = true }) (b'.' ∷ []) fresh ≡ missing
unfolding walk from_ino find_name
walk_from_a_directory = refl

mkdir-walk_example :
    let r' = (mkdir root a fresh).1 in
    ((mkdir root a fresh).0 ≡ pos 0)
    × (walk root a r' ≡ walked (record { v_vnid = 2; found = true }))
    × (from_ino 2 r'.inodes ≡ some (record { i_ino = 2; i_name = a } ∷ []))
    × ((path : List ℕ) (n : ℕ) → find_name path fresh.inodes ≡ some n → n < 2)
    × ((path : List ℕ) (n : ℕ)
        → find_name path fresh.inodes ≡ some n
        → walk root path r' ≡ walked (vget n r'))
    × IsRoot r'
unfolding find_name
mkdir-walk_example =
    mkdir-walk a fresh
      (record {
        first = record { i_ino = 0; i_name = b'.' ∷ [] };
        others = record { i_ino = 1; i_name = b'.' ∷ b'.' ∷ [] } ∷ [];
        split = refl;
        zero_first = refl;
        below = (omega arith, (omega arith, tt));
      })
      refl
