-- ===== src/Vfs/Bootfs/Walk.antt =====
-- The files that a mount of srv/vfs/bootfs.c makes, found by their names.
use frotznet.Prelude.{
  ℕ, ◌+◌, ◌≤◌, ◌≡◌, refl, ◌∙◌, Bool, true, false, ◌||◌, ◌&&◌, Option, none, some, List, [], ◌∷◌,
  ◌++◌, arith, ◌==◌, take, Bool-cases, inl, inr,
}
use frotznet.Vfs.Mounts.{same_name}
use frotznet.Vfs.Rootfs.Walk.{same_name_self}
use frotznet.Vfs.Bootfs.{
  Entry, Inode, Boot, inew, is_file, add_entry, fill_inodes, read_vnode, vget, mount, find_name,
  walk,
}

-- Among the entries is a file with this name, which the file system cuts to 31 characters.
abbrev pub has_file : List ℕ → List Entry → Bool
has_file name [] = false
has_file name (e ∷ es) = (is_file e && same_name (take 31 e.be_name) name) || has_file name es

-- No inode has a number that is still to be given.
abbrev Below : Boot → Type 0
Below b = (n : ℕ) → b.inode_max ≤ n → read_vnode n b.inode_list ≡ none

-- The name leads to the inode, and its number too.
record Named (name : List ℕ) (i : Inode) (b : Boot) : Type 0 where
  by_name : find_name name b.inode_list ≡ some i.i_ino
  by_number : read_vnode i.i_ino b.inode_list ≡ some i

add_entry-Below : (e : Entry) (b : Boot) → Below b → Below (add_entry e b)
unfolding read_vnode
add_entry-Below e b h = elim (Bool-cases (is_file e)) [
  | inl f ↦ rw f (λ n le. ground (arith, h n))
  | inr f ↦ rw f h
]

add_entry-Named :
    (e : Entry) (name : List ℕ) (i : Inode) (b : Boot)
    → (is_file e && same_name (take 31 e.be_name) name) ≡ false
    → Below b
    → Named name i b
    → Named name i (add_entry e b)
unfolding read_vnode find_name
add_entry-Named e name i b other h d = elim (Bool-cases (is_file e)) [
  | inl f ↦
      let differs : same_name (take 31 e.be_name) name ≡ false = rw f at other in
      let old : (b.inode_max == i.i_ino) ≡ false = ground (arith, h i.i_ino, d.by_number) in
      rw f (record { by_name = rw differs d.by_name; by_number = rw old d.by_number })
  | inr f ↦ rw f d
]

fill_inodes-Named :
    (es : List Entry) (name : List ℕ) (i : Inode) (b : Boot)
    → has_file name es ≡ false
    → Below b
    → Named name i b
    → Named name i (fill_inodes es b)
unfolding fill_inodes
fill_inodes-Named [] name i b e h d = d
fill_inodes-Named (x ∷ es) name i b e h d =
    fill_inodes-Named es name i (add_entry x b) (ground arith) (add_entry-Below x b h)
      (add_entry-Named x name i b (ground arith) h d)

fill_inodes-Below : (es : List Entry) (b : Boot) → Below b → Below (fill_inodes es b)
unfolding fill_inodes
fill_inodes-Below [] b h = h
fill_inodes-Below (e ∷ es) b h = fill_inodes-Below es (add_entry e b) (add_entry-Below e b h)

fill_inodes-append :
    (es fs : List Entry) (b : Boot) → fill_inodes (es ++ fs) b ≡ fill_inodes fs (fill_inodes es b)
unfolding fill_inodes
fill_inodes-append [] fs b = refl
fill_inodes-append (e ∷ es) fs b = fill_inodes-append es fs (add_entry e b)

fill_inodes-d_bootdir : (es : List Entry) (b : Boot) → (fill_inodes es b).d_bootdir ≡ b.d_bootdir
unfolding fill_inodes
fill_inodes-d_bootdir [] b = refl
fill_inodes-d_bootdir (e ∷ es) b = fill_inodes-d_bootdir es (add_entry e b) ∙ kept
  where
    kept : (add_entry e b).d_bootdir ≡ b.d_bootdir
    kept = ground arith

-- The inode that an entry gives.
abbrev pub inode_of : Entry → ℕ → Inode
inode_of e ino = inew ino e.be_name e.be_offset e.be_vsize

new-Named :
    (e : Entry) (b : Boot)
    → is_file e ≡ true
    → Named (take 31 e.be_name) (inode_of e b.inode_max) (add_entry e b)
unfolding find_name read_vnode
new-Named e b f =
    rw f (record { by_name = rw (same_name_self (take 31 e.be_name)); by_number = ground arith })

-- "." and "..", as bootfs_mount begins.
abbrev dots : (ℕ → ℕ) → ℕ → Boot
dots image max = record {
  d_bootdir = image;
  inode_list = inew max (b'.' ∷ []) 0 0 ∷ inew (max + 1) (b'.' ∷ b'.' ∷ []) 0 0 ∷ [];
  inode_max = max + 2;
}

dots-Below : (image : ℕ → ℕ) (max : ℕ) → Below (dots image max)
unfolding read_vnode
dots-Below image max n le = ground arith

Named-walk :
    (name : List ℕ) (i : Inode) (b : Boot) (found : Option Inode)
    → Named name i b
    → walk (record { v_vnid = 0; v_data = found }) name b
      ≡ some (record { v_vnid = i.i_ino; v_data = some i })
unfolding walk vget
Named-walk name i b found d = rw (d.by_name, d.by_number)

-- bootfs_walk after bootfs_mount: the name of a file that no file behind it in the boot directory has too,
-- cut to 31 characters, leads from the root to a vnode of the file, with its offset and its size. The
-- bytes of the boot directory are those that were mounted.
pub mount-walk :
    (before : List Entry) (e : Entry) (after : List Entry) (image : ℕ → ℕ) (max : ℕ)
    → is_file e ≡ true
    → has_file (take 31 e.be_name) after ≡ false
    → let mounted = mount (before ++ (e ∷ after)) image max in
      (ino : ℕ) × (walk mounted.0 (take 31 e.be_name) mounted.1
        ≡ some (record { v_vnid = ino; v_data = some (inode_of e ino) }))
      × (mounted.1.d_bootdir ≡ image)
unfolding mount vget
mount-walk before e after image max file alone =
    let b = fill_inodes before (dots image max) in
    let below = fill_inodes-Below before (dots image max) (dots-Below image max) in
    let named =
      fill_inodes-Named after (take 31 e.be_name) (inode_of e b.inode_max) (add_entry e b) alone
        (add_entry-Below e b below) (new-Named e b file) in
    rw (fill_inodes-append before (e ∷ after) (dots image max)) (
      b.inode_max,
      Named-walk (take 31 e.be_name) (inode_of e b.inode_max) _ _ named,
      fill_inodes-d_bootdir after (add_entry e b)
          ∙ fill_inodes-d_bootdir (e ∷ []) b
          ∙ fill_inodes-d_bootdir before (dots image max),
    )
