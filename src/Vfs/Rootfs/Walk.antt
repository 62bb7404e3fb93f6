-- ===== src/Vfs/Rootfs/Walk.antt =====
-- rootfs_mkdir and rootfs_walk of srv/vfs/rootfs.c.
use frotznet.Prelude.{
  ℕ, ◌+◌, ◌<◌, ◌≡◌, refl, sym, ap, ◌∙◌, true, false, Option, none, some, List, [], ◌∷◌, ◌++◌, arith,
  ◌==◌, if◌then◌else◌, Bool-cases, inl, inr,
}
use frotznet.Prelude.Int.{pos}
use frotznet.Vfs.Mounts.{same_name}
use frotznet.Vfs.Rootfs.{
  Inode, Root, Vnode, add_inode, from_ino, vget, find_name, walked, got, walk_from, walk, mkdir,
}

-- The numbers of some inodes are below one.
abbrev pub Below : ℕ → List Inode → Type 0
Below n [] = Unit
Below n (i ∷ is) = (i.i_ino < n) × Below n is

Below-add :
    (n : ℕ) (name : List ℕ) (is : List Inode)
    → Below n is
    → Below (n + 1) (is ++ (record { i_ino = n; i_name = name } ∷ []))
Below-add n name [] h = (omega arith, tt)
Below-add n name (i ∷ is) h = (omega (arith, h.0), Below-add n name is h.1)

-- The file system after rootfs_mount and any rootfs_mkdir: inode 0 comes first, and the numbers are below
-- the next one.
pub record IsRoot (r : Root) : Type 0 where
  pub first : Inode
  pub others : List Inode
  pub split : r.inodes ≡ first ∷ others
  pub zero_first : first.i_ino ≡ 0
  pub below : Below r.inode_max r.inodes

pub same_name_self : (n : List ℕ) → same_name n n ≡ true
same_name_self [] = refl
same_name_self (c ∷ n) = let ih = same_name_self n in ground arith

find_name-append :
    (path : List ℕ) (is js : List Inode)
    → find_name path (is ++ js)
      ≡ elim (find_name path is) as (λ _. Option ℕ) [ none ↦ find_name path js | some n ↦ some n ]
unfolding find_name
find_name-append path [] js = refl
find_name-append path (i ∷ is) js =
    let ih = find_name-append path is js in
    elim (Bool-cases (same_name i.i_name path)) [
      | inl e ↦ rw (find_name, e, if◌then◌else◌) refl
      | inr e ↦ rw (find_name, e, if◌then◌else◌) ih
    ]

-- The vnode of the root.
abbrev pub root : Vnode
root = record { v_vnid = 0; found = true }

-- A walk from the root looks through all inodes.
from_zero :
    (first : Inode) (is : List Inode)
    → first.i_ino ≡ 0
    → from_ino 0 (first ∷ is) ≡ some (first ∷ is)
unfolding from_ino
from_zero first is e =
    let h : (first.i_ino == 0) ≡ true = ground arith in rw (from_ino, h, if◌then◌else◌) refl

walk-root :
    (path : List ℕ) (r : Root) → IsRoot r → walk root path r ≡ got r (find_name path r.inodes)
unfolding walk
walk-root path r i =
    let all : from_ino 0 r.inodes ≡ some r.inodes =
      ap (from_ino 0) i.split ∙ from_zero i.first i.others i.zero_first ∙ ap some (sym i.split) in
    ap (walk_from path r) all

add_inode-IsRoot : (name : List ℕ) (r : Root) → IsRoot r → IsRoot (add_inode name r)
add_inode-IsRoot name r i = record {
  first = i.first;
  others = i.others ++ (record { i_ino = r.inode_max; i_name = name } ∷ []);
  split = ap (λ is. is ++ (record { i_ino = r.inode_max; i_name = name } ∷ [])) i.split;
  zero_first = i.zero_first;
  below = Below-add r.inode_max name r.inodes i.below;
}

find_name-new :
    (name : List ℕ) (r : Root)
    → find_name name r.inodes ≡ none
    → find_name name (add_inode name r).inodes ≡ some r.inode_max
unfolding find_name
find_name-new name r h =
    find_name-append name r.inodes (record { i_ino = r.inode_max; i_name = name } ∷ [])
    ∙ rw (h, same_name_self name, if◌then◌else◌) refl

find_name-old :
    (name path : List ℕ) (n : ℕ) (r : Root)
    → find_name path r.inodes ≡ some n
    → find_name path (add_inode name r).inodes ≡ some n
find_name-old name path n r h =
    find_name-append path r.inodes (record { i_ino = r.inode_max; i_name = name } ∷ []) ∙ rw h refl

-- The list from the new inode on is that inode alone.
from_ino-new :
    (n : ℕ) (name : List ℕ) (is : List Inode)
    → Below n is
    → from_ino n (is ++ (record { i_ino = n; i_name = name } ∷ []))
      ≡ some (record { i_ino = n; i_name = name } ∷ [])
unfolding from_ino
from_ino-new n name [] h =
    let e : (n == n) ≡ true = ground arith in rw (from_ino, e, if◌then◌else◌) refl
from_ino-new n name (i ∷ is) h =
    let e : (i.i_ino == n) ≡ false = ground (arith, h.0) in
    rw (from_ino, e, if◌then◌else◌) (from_ino-new n name is h.1)

find_name-below :
    (path : List ℕ) (n m : ℕ) (is : List Inode) → Below n is → find_name path is ≡ some m → m < n
unfolding find_name
find_name-below path n m [] h = λ e. absurd cc
find_name-below path n m (i ∷ is) h = elim (Bool-cases (same_name i.i_name path)) [
  | inl same ↦ rw (find_name, same, if◌then◌else◌) (λ e. ground (arith, h.0))
  | inr other ↦ rw (find_name, other, if◌then◌else◌) (find_name-below path n m is h.1)
]

-- rootfs_mkdir in the root, of a name that is not there: it succeeds, and a walk to the name then leads to
-- the new inode, whose number no name led to before. A walk to a name that was there leads to the number
-- that it led to. The first inode of the file system is still 0, and all numbers are below the next one.
pub mkdir-walk :
    (name : List ℕ) (r : Root)
    → IsRoot r
    → find_name name r.inodes ≡ none
    → let r' = (mkdir root name r).1 in
      ((mkdir root name r).0 ≡ pos 0)
      × (walk root name r' ≡ walked (record { v_vnid = r.inode_max; found = true }))
      × (from_ino r.inode_max r'.inodes ≡ some (record { i_ino = r.inode_max; i_name = name } ∷ []))
      × ((path : List ℕ) (n : ℕ) → find_name path r.inodes ≡ some n → n < r.inode_max)
      × ((path : List ℕ) (n : ℕ)
          → find_name path r.inodes ≡ some n
          → walk root path r' ≡ walked (vget n r'))
      × IsRoot r'
unfolding mkdir
mkdir-walk name r i new =
    let r' = add_inode name r in
    let i' = add_inode-IsRoot name r i in
    let made = from_ino-new r.inode_max name r.inodes i.below in
    let vget_new : walked (vget r.inode_max r')
        ≡ walked (record { v_vnid = r.inode_max; found = true }) =
      unfold vget in rw made refl in
    (
      refl,
      walk-root name r' i' ∙ ap (got r') (find_name-new name r new) ∙ vget_new,
      made,
      λ path n h. find_name-below path r.inode_max n r.inodes i.below h,
      λ path n h. walk-root path r' i' ∙ ap (got r') (find_name-old name path n r h),
      i',
    )
