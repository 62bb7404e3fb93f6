-- ===== src/Vfs/Server/Handle.antt =====
-- What a command of srv/vfs/vfs.c leaves of the descriptors that are open.
use frotznet.Prelude.{
  ℕ, ◌≡◌, ◌≢◌, ◌⊎◌, inl, inr, refl, subst, ◌∙◌, Bool, true, false, ◌||◌, Option, none, some, arith,
  ◌==◌, if◌then◌else◌, update_ne,
}
use frotznet.Vfs.Server.{Server, Ofile, Client, Cmd, Answer, Given, vfs_ok}
use frotznet.Vfs.Server.Main.{
  handle, vfs_openconn, vfs_mkdir, vfs_opendir, vfs_closedir, vfs_scroll_area, vfs_open, vfs_close,
  vfs_read, vfs_rstat, list_opened, list_at, list_entry, list_dir,
}
use frotznet.Vfs.Server.Keeps.{
  Opens, KeepsBut, Same, open_file-Opens, opendir-Opens, closedir-KeepsBut, read-KeepsBut,
  close-Same, scroll_area-Same, rstat-Same, mkdir-Same,
}

if-some :
    {A : Type 0} (P : Type 0) (b : Bool) (x y : Option A) (a : A)
    → (b ≡ true → x ≡ some a → P)
    → (b ≡ false → y ≡ some a → P)
    → (if b then x else y) ≡ some a
    → P
if-some P true x y a f g e = f refl e
if-some P false x y a f g e = g refl e

-- The commands that change the descriptor that they name.
abbrev pub changes : ℕ → Bool
changes cmd = (cmd == vfs_closedir) || (cmd == vfs_read)

module _ {W V C : Type 0} (c : Client V C) (j : ℕ) (o : Ofile V C)
    (taken : c.ofile j ≡ some o) where
  abbrev Kept : Answer W V C → Type 0
  Kept a = a.client.ofile j ≡ some o

  Same-Kept : (a : Answer W V C) → Same c a → Kept a
  Same-Kept a h = rw h taken

  Opens-Kept : (a : Answer W V C) → Opens c a → Kept a
  Opens-Kept a (inl h) = rw h.1 taken
  Opens-Kept a (inr (i, _, empty, others)) = others j (λ e. absurd cc) ∙ taken

  KeepsBut-Kept : (fd : ℕ) (a : Answer W V C) → fd ≢ j → KeepsBut fd c a → Kept a
  KeepsBut-Kept fd a ne h = h j ne ∙ taken

  -- The new descriptor is another one.
  new-ne : (fd : ℕ) (a : Answer W V C) → a.res.first ≡ some fd → Opens c a → fd ≢ j
  new-ne fd a e (inl h) = λ same. absurd cc
  new-ne fd a e (inr (i, f, empty, _)) = λ same. absurd cc

  list_entry-Kept :
      (s : Server W V C) (fd len : ℕ) (a : Answer W V C) (entry : Option (Ofile V C))
      (b : Answer W V C)
      → fd ≢ j
      → Kept a
      → list_entry s fd len a entry ≡ some b
      → Kept b
  list_entry-Kept s fd len a none b ne k d = absurd cc
  list_entry-Kept s fd len a (some x) b ne k d =
      let same : list_dir s fd x len a ≡ b = cc in
      subst Kept same (update_ne a.client.ofile fd _ j ne ∙ k)

  list_at-Kept :
      (s : Server W V C) (first : Option ℕ) (len : ℕ) (a b : Answer W V C)
      → a.res.first ≡ first
      → Opens c a
      → list_at s first len a ≡ some b
      → Kept b
  list_at-Kept s none len a b e h d = absurd cc
  list_at-Kept s (some fd) len a b e h d =
      list_entry-Kept s fd len a (a.client.ofile fd) b (new-ne fd a e h) (Opens-Kept a h) d

  list_opened-Kept :
      (s : Server W V C) (len : ℕ) (r : Option (Answer W V C)) (b : Answer W V C)
      → ((a : Answer W V C) → r ≡ some a → Opens c a)
      → list_opened s len r ≡ some b
      → Kept b
  list_opened-Kept s len none b h d = absurd cc
  list_opened-Kept s len (some a) b h d =
      if-some (Kept b) (a.res.status == vfs_ok) (list_at s a.res.first len a) (some a) b
        (λ _ e. list_at-Kept s a.res.first len a b refl (h a refl) e)
        (λ _ e. let same : a ≡ b = cc in subst Kept same (Opens-Kept a (h a refl))) d

  -- A command of a client that has a connection, if it is answered, leaves each open descriptor as it
  -- was, but for that which a VFS_CLOSEDIR or a VFS_READ names. So a new file or directory never takes a
  -- descriptor that is open.
  pub handle-keeps :
      (s : Server W V C) (g : Given) (src : ℕ) (vc : Cmd) (w : W) (a : Answer W V C)
      → (vc.cmd == vfs_openconn) ≡ false
      → (changes vc.cmd ≡ false) ⊎ (vc.arg 0 ≢ j)
      → handle s g src c vc w ≡ some a
      → a.client.ofile j ≡ some o
  unfolding handle
  handle-keeps s g src vc w a connected other =
      let K = Kept a in
      if-some K (vc.cmd == vfs_openconn) _ _ a (λ e _. absurd cc)
        λ _.
          if-some K (vc.cmd == vfs_scroll_area) _ _ a
            (λ _ e. Same-Kept a (scroll_area-Same c vc w a e))
            λ _.
              if-some K (vc.cmd == vfs_opendir) _ _ a
                (λ _ e. list_opened-Kept s (vc.arg 3) _ a (λ b. opendir-Opens s g c vc w b) e)
                λ _.
                  if-some K (vc.cmd == vfs_closedir) _ _ a
                    (λ t e.
                      KeepsBut-Kept (vc.arg 0) a (named t other) (closedir-KeepsBut s g c vc w a e))
                    λ _.
                      if-some K (vc.cmd == vfs_open) _ _ a
                        (λ _ e. Opens-Kept a (open_file-Opens s g c vc w a e))
                        λ _.
                          if-some K (vc.cmd == vfs_close) _ _ a
                            (λ _ e. Same-Kept a (close-Same s c vc w a e))
                            λ _.
                              if-some K (vc.cmd == vfs_read) _ _ a
                                (λ t e.
                                  KeepsBut-Kept (vc.arg 0) a (named_read t other)
                                    (read-KeepsBut s c vc w a e))
                                λ _.
                                  if-some K (vc.cmd == vfs_rstat) _ _ a
                                    (λ _ e. Same-Kept a (rstat-Same s c vc w a e))
                                    λ _.
                                      if-some K (vc.cmd == vfs_mkdir) _ _ a
                                        (λ _ e. Same-Kept a (mkdir-Same s c vc w a e))
                                        (λ _ e. absurd cc)
    where
      named :
          (vc.cmd == vfs_closedir) ≡ true → (changes vc.cmd ≡ false) ⊎ (vc.arg 0 ≢ j) → vc.arg 0 ≢ j
      named t (inl f) = absurd (ground arith)
      named t (inr ne) = ne

      named_read :
          (vc.cmd == vfs_read) ≡ true → (changes vc.cmd ≡ false) ⊎ (vc.arg 0 ≢ j) → vc.arg 0 ≢ j
      named_read t (inl f) = absurd (ground arith)
      named_read t (inr ne) = ne
