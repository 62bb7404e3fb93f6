-- ===== src/Vfs/Shm/Listing.antt =====
-- shm_write_dir of srv/vfs/shm.c on a directory of srv/vfs/bootfs.c.
use frotznet.Prelude.{
  ℕ, zero, suc, ◌-◌, ◌≤◌, ◌<◌, ◌≡◌, refl, ap, true, false, List, [], ◌∷◌, map, arith, ltb, length,
  take, drop,
}
use frotznet.Vfs.Rootfs.{Dirent, Cookie}
use frotznet.Vfs.Bootfs.{readdir, rewinddir}
use frotznet.Vfs.Shm.{Written, skip_entries, write_entries, shm_write_dir}

-- An entry as bootfs_readdir copies it.
abbrev pub copied : Dirent → Dirent
copied d = record d { d_name = take 32 d.d_name }

abbrev at : List Dirent → List Dirent → Cookie
at head current = record { head = head; current = current }

skip_entries-drop :
    (n : ℕ) (head ds : List Dirent) → skip_entries readdir n (at head ds) ≡ at head (drop n ds)
unfolding skip_entries readdir
skip_entries-drop zero head ds = refl
skip_entries-drop (suc zero) head [] = refl
skip_entries-drop (suc (suc n)) head [] = skip_entries-drop (suc n) head []
skip_entries-drop (suc n) head (d ∷ ds) = skip_entries-drop n head ds

-- What the second loop leaves on the entries `ds`.
abbrev Leaves : ℕ → List Dirent → List Dirent → Written Cookie
Leaves n head ds = record {
  written = map copied (take n ds);
  ended = ltb (length ds) n;
  cookie = at head (drop n ds);
}

write_entries-Leaves :
    (n : ℕ) (head ds : List Dirent) → write_entries readdir n (at head ds) ≡ Leaves n head ds
unfolding write_entries readdir
write_entries-Leaves zero head ds = let e : ltb (length ds) 0 ≡ false = ground arith in rw e refl
write_entries-Leaves (suc n) head [] = let e : ltb 0 (suc n) ≡ true = ground arith in rw e refl
write_entries-Leaves (suc n) head (d ∷ ds) =
    let e : ltb (length ds) n ≡ ltb (suc (length ds)) (suc n) = ground arith in
    rw (write_entries-Leaves n head ds)
      (ap (λ b. record (Leaves (suc n) head (d ∷ ds)) { ended = b }) e)

length-copied : (n : ℕ) (ds : List Dirent) → n ≤ length ds → length (map copied (take n ds)) ≡ n
length-copied zero ds h = refl
length-copied (suc n) [] h = absurd (omega arith)
length-copied (suc n) (d ∷ ds) h = ap suc (length-copied n ds (omega arith))

length-copied_all :
    (n : ℕ) (ds : List Dirent) → length ds < n → length (map copied (take n ds)) ≡ length ds
length-copied_all zero ds h = absurd (omega arith)
length-copied_all (suc n) [] h = refl
length-copied_all (suc n) (d ∷ ds) h = ap suc (length-copied_all n ds (omega arith))

-- shm_write_dir on an open directory of bootfs writes the entries from `skip` on, as many as fit, one
-- behind the other. Where there is room for one more, it says how many these are. Where the room is used
-- up it says one less.
pub shm_write_dir-lists :
    (skip fit : ℕ) (c : Cookie)
    → let r = shm_write_dir rewinddir readdir skip fit c in
      (r.1.written ≡ map copied (take fit (drop skip c.head)))
      × (length (drop skip c.head) < fit → r.0 ≡ length (drop skip c.head))
      × (fit ≤ length (drop skip c.head) → r.0 ≡ fit - 1)
unfolding shm_write_dir rewinddir
shm_write_dir-lists skip fit c =
    let rest = drop skip c.head in
    rw (skip_entries-drop skip c.head c.head, write_entries-Leaves fit c.head rest)
      (
        refl,
        λ roomy.
            let e : ltb (length rest) fit ≡ true = ground arith in
            rw e (length-copied_all fit rest roomy),
        λ tight.
            let e : ltb (length rest) fit ≡ false = ground arith in
            rw e (ap (λ n. n - 1) (length-copied fit rest tight)),
      )
