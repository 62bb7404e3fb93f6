-- ===== src/Vfs/Server/Keeps.antt =====
-- What the requests of srv/vfs/vfs.c leave of the descriptors that are open.
use frotznet.Prelude.{
  ℕ, ◌+◌, ◌≡◌, ◌≢◌, ◌⊎◌, inl, inr, refl, subst, Option, none, some, List, length, update_ne,
}
use frotznet.Vfs.Mounts.{fs_find}
use frotznet.Vfs.Path.{path_combine}
use frotznet.Vfs.Server.{
  Server, Client, Cmd, Answer, Given, max_fds, vfs_error, enoent, ebadf, emfile, enosys, Attempt,
  done, refused, fault, ◌>>=◌, need, known, result, answer, settle, free_fd, slot, string_from,
}
use frotznet.Vfs.Server.Requests
use frotznet.Vfs.Server.Requests.{opened, directory_at, make}
use frotznet.Vfs.Server.Descriptors.{free_fd-none}

-- A request that is done has the property.
abbrev Ensures : {A : Type 0} → (A → Type 0) → Attempt A → Type 0
Ensures P (done a) = P a
Ensures P (refused e) = Unit {0}
Ensures P fault = Unit {0}

module _ {A B : Type 0} (P : B → Type 0) where
  need-then :
      (e : ℕ) (o : Option A) (f : A → Attempt B)
      → ((a : A) → o ≡ some a → Ensures P (f a))
      → Ensures P (need e o >>= f)
  need-then e none f h = tt
  need-then e (some a) f h = h a refl

  known-then :
      (o : Option A) (f : A → Attempt B)
      → ((a : A) → o ≡ some a → Ensures P (f a))
      → Ensures P (known o >>= f)
  known-then none f h = tt
  known-then (some a) f h = h a refl

module _ {W V C : Type 0} where
  settle-Ensures :
      (P : Answer W V C → Type 0) (c : Client V C) (w : W) (m : Attempt (Answer W V C))
      (a : Answer W V C)
      → Ensures P m
      → ((e : ℕ) → P (answer (result vfs_error e none) c w))
      → settle c w m ≡ some a
      → P a
  settle-Ensures P c w (done b) a h r e = let same : b ≡ a = cc in subst P same h
  settle-Ensures P c w (refused n) a h r e =
      let same : answer (result vfs_error n none) c w ≡ a = cc in subst P same (r n)
  settle-Ensures P c w fault a h r e = absurd cc

  -- The new descriptor was free, and the others are as before; or there is none, and no descriptor changes.
  abbrev pub Opens : Client V C → Answer W V C → Type 0
  Opens c a =
      ((a.res.first ≡ none) × (a.client ≡ c))
      ⊎ ((i : ℕ) × (a.res.first ≡ some i)
          × (c.ofile i ≡ none)
          × ((j : ℕ) → i ≢ j → a.client.ofile j ≡ c.ofile j))

  opened-Opens :
      (i : ℕ) (v : V) (pos : ℕ) (vc : Cmd) (r : ℕ × C × W) (g : Given) (c : Client V C)
      → c.ofile i ≡ none
      → Opens c (opened i v pos vc r g c)
  opened-Opens i v pos vc r g c empty = inr (i, refl, empty, λ j ne. update_ne c.ofile i _ j ne)

  pub open_file-Opens :
      (s : Server W V C) (g : Given) (c : Client V C) (vc : Cmd) (w : W) (a : Answer W V C)
      → Requests.open_file s g c vc w ≡ some a
      → Opens c a
  unfolding Requests.open_file
  open_file-Opens s g c vc w a e =
      settle-Ensures (Opens c) c w _ a
        (need-then (Opens c) emfile (free_fd max_fds 0 c.ofile) _ λ i h.
          need-then (Opens c) enoent (fs_find (c.nameptr (vc.arg 0)) s.vfs) _ λ super _.
            need-then (Opens c) enosys (s.sb_vops super).open_file _ λ f _.
              known-then (Opens c) (string_from (length super.sb_dir + 1) (c.nameptr (vc.arg 0))) _
                λ rest _.
                  known-then (Opens c) ((s.sb_vops super).walk (s.sb_root super) rest w) _
                    λ found _. need-then (Opens c) enoent found _ λ v _.
                      known-then (Opens c) (f v w) _
                        λ r _. opened-Opens i v 0 vc r g c (free_fd-none max_fds 0 c.ofile i h))
        (λ n. inl (refl, refl)) e

  pub opendir-Opens :
      (s : Server W V C) (g : Given) (c : Client V C) (vc : Cmd) (w : W) (a : Answer W V C)
      → Requests.opendir s g c vc w ≡ some a
      → Opens c a
  unfolding Requests.opendir
  opendir-Opens s g c vc w a e =
      settle-Ensures (Opens c) c w _ a
        (need-then (Opens c) emfile (free_fd max_fds 0 c.ofile) _ λ i h.
          known-then (Opens c) (path_combine c.cwd (c.nameptr (vc.arg 0)) g.behind) _ λ dir _.
            need-then (Opens c) enoent (fs_find dir s.vfs) _ λ super _.
              need-then (Opens c) enosys (s.sb_vops super).opendir _ λ f _.
                known-then (Opens c) (directory_at s super dir w) _ λ found _.
                  need-then (Opens c) enoent found _ λ v _.
                    known-then (Opens c) (f v w) _
                      λ r _. opened-Opens i v g.o_pos vc r g c (free_fd-none max_fds 0 c.ofile i h))
        (λ n. inl (refl, refl)) e

  -- Only the named descriptor may change.
  abbrev pub KeepsBut : ℕ → Client V C → Answer W V C → Type 0
  KeepsBut fd c a = (j : ℕ) → fd ≢ j → a.client.ofile j ≡ c.ofile j

  pub closedir-KeepsBut :
      (s : Server W V C) (g : Given) (c : Client V C) (vc : Cmd) (w : W) (a : Answer W V C)
      → Requests.closedir s g c vc w ≡ some a
      → KeepsBut (vc.arg 0) c a
  unfolding Requests.closedir
  closedir-KeepsBut s g c vc w a e =
      let P = KeepsBut (vc.arg 0) c in
      settle-Ensures P c w _ a
        (known-then P (slot (vc.arg 0) c) _ λ entry _. need-then P ebadf entry _ λ o _.
          need-then P enosys (s.sb_vops (s.v_sb o.o_vnode)).closedir _
            λ f _. λ j ne. update_ne c.ofile (vc.arg 0) none j ne)
        (λ n j ne. refl) e

  pub read-KeepsBut :
      (s : Server W V C) (c : Client V C) (vc : Cmd) (w : W) (a : Answer W V C)
      → Requests.read s c vc w ≡ some a
      → KeepsBut (vc.arg 0) c a
  unfolding Requests.read
  read-KeepsBut s c vc w a e =
      let P = KeepsBut (vc.arg 0) c in
      settle-Ensures P c w _ a
        (known-then P (slot (vc.arg 0) c) _ λ entry _. need-then P ebadf entry _ λ o _.
          need-then P enosys (s.sb_vops (s.v_sb o.o_vnode)).read _ λ f _.
            known-then P (f o.o_vnode (vc.arg 1) o.o_pos o.o_cookie w) _
              λ r _. λ j ne. update_ne c.ofile (vc.arg 0) _ j ne)
        (λ n j ne. refl) e

  abbrev pub Same : Client V C → Answer W V C → Type 0
  Same c a = a.client ≡ c

  pub close-Same :
      (s : Server W V C) (c : Client V C) (vc : Cmd) (w : W) (a : Answer W V C)
      → Requests.close s c vc w ≡ some a
      → Same c a
  unfolding Requests.close
  close-Same s c vc w a e =
      settle-Ensures (Same c) c w _ a
        (known-then (Same c) (slot (vc.arg 0) c) _ λ entry _.
          need-then (Same c) ebadf entry _
            λ o _. need-then (Same c) enosys (s.sb_vops (s.v_sb o.o_vnode)).close _ λ f _. refl)
        (λ n. refl) e

  pub scroll_area-Same :
      (c : Client V C) (vc : Cmd) (w : W) (a : Answer W V C)
      → Requests.scroll_area c vc w ≡ some a
      → Same c a
  unfolding Requests.scroll_area
  scroll_area-Same c vc w a e =
      settle-Ensures (Same c) c w _ a
        (known-then (Same c) (slot (vc.arg 0) c) _
          λ entry _. known-then (Same c) entry _ λ o _. refl)
        (λ n. refl) e

  pub rstat-Same :
      (s : Server W V C) (c : Client V C) (vc : Cmd) (w : W) (a : Answer W V C)
      → Requests.rstat s c vc w ≡ some a
      → Same c a
  unfolding Requests.rstat
  rstat-Same s c vc w a e =
      settle-Ensures (Same c) c w _ a
        (need-then (Same c) enoent (fs_find (c.nameptr (vc.arg 0)) s.vfs) _ λ super _.
          need-then (Same c) enosys (s.sb_vops super).rstat _ λ f _.
            known-then (Same c) (string_from (length super.sb_dir + 1) (c.nameptr (vc.arg 0))) _
              λ rest _.
                known-then (Same c) ((s.sb_vops super).walk (s.sb_root super) rest w) _ λ found _.
                  need-then (Same c) enoent found _
                    λ v _. known-then (Same c) (f v w) _ λ r _. refl)
        (λ n. refl) e

  make-Same :
      (op : Option (V → List ℕ → ℕ → W → ℕ × W)) (root : V) (mode : ℕ) (rest : Option (List ℕ))
      (c : Client V C) (w : W)
      → Ensures (Same c) (make op root mode rest c w)
  make-Same none root mode rest c w = refl
  make-Same (some f) root mode none c w = tt
  make-Same (some f) root mode (some s) c w = refl

  pub mkdir-Same :
      (s : Server W V C) (c : Client V C) (vc : Cmd) (w : W) (a : Answer W V C)
      → Requests.mkdir s c vc w ≡ some a
      → Same c a
  unfolding Requests.mkdir
  mkdir-Same s c vc w a e =
      settle-Ensures (Same c) c w _ a
        (known-then (Same c) (fs_find (c.nameptr (vc.arg 0)) s.vfs) _
          λ super _. make-Same (s.sb_vops super).mkdir (s.sb_root super) (vc.arg 1) _ c w)
        (λ n. refl) e
