-- ===== src/Vfs/Server/Tell/Parse.antt =====
-- A mount command of vfs_tell_parse in srv/vfs/vfs.c.
use frotznet.Prelude.{
  ℕ, zero, suc, ◌-◌, ◌≤◌, ◌≡◌, ◌≢◌, refl, ap, ◌∙◌, Bool, true, false, not, ◌&&◌, some, List, [],
  ◌∷◌, ◌++◌, arith, ◌==◌, length, take, length-append, append_assoc,
}
use frotznet.Vfs.Mounts.{Vfs, vfs_mount}
use frotznet.Vfs.Server.Tell.{
  mount, Action, mounts, words, at_space, mount_dir, mount_type, one_action, tell_cmd, join,
  cut_last, tell_whole, tell_words, tell_parse, perform,
}

-- A word has a character, and no space.
abbrev pub no_space : List ℕ → Bool
no_space [] = true
no_space (x ∷ xs) = not (x == b' ') && no_space xs

abbrev pub IsWord : List ℕ → Type 0
IsWord w = (no_space w ≡ true) × (w ≢ [])

-- A word and what stands behind it.
words-space : (w rest : List ℕ) → no_space w ≡ true → words (w ++ (b' ' ∷ rest)) ≡ w ∷ words rest
unfolding words
words-space [] rest h = refl
words-space (x ∷ w) rest h =
    let other : (x == b' ') ≡ false = ground arith in
    rw (other, words-space w rest (ground arith)) refl

words-word : (w : List ℕ) (x : ℕ) → no_space (x ∷ w) ≡ true → words (x ∷ w) ≡ (x ∷ w) ∷ []
unfolding words
words-word [] x h = let other : (x == b' ') ≡ false = ground arith in rw other refl
words-word (y ∷ w) x h =
    let other : (x == b' ') ≡ false = ground arith in rw (other, words-word w y (ground arith)) refl

at_space-append :
    (w rest : List ℕ) → no_space w ≡ true → at_space (w ++ (b' ' ∷ rest)) ≡ some (w, rest)
unfolding at_space
at_space-append [] rest h = refl
at_space-append (x ∷ w) rest h =
    let other : (x == b' ') ≡ false = ground arith in
    rw (other, at_space-append w rest (ground arith)) refl

cut_last-append : (xs : List ℕ) (x : ℕ) → cut_last (xs ++ (x ∷ [])) ≡ some xs
unfolding cut_last
cut_last-append [] x = refl
cut_last-append (y ∷ []) x = refl
cut_last-append (y ∷ z ∷ xs) x = rw (cut_last-append (z ∷ xs) x) refl

take-all : (xs : List ℕ) (n : ℕ) → length xs ≤ n → take n xs ≡ xs
take-all [] zero h = refl
take-all [] (suc n) h = refl
take-all (x ∷ xs) zero h = absurd (omega arith)
take-all (x ∷ xs) (suc n) h = ap (λ ys. x ∷ ys) (take-all xs n (omega arith))

-- The text "mount", a type, a directory and options, with a space between them.
abbrev pub mount_text : List ℕ → List ℕ → List ℕ → List ℕ
mount_text type dir options = mount ++ (b' ' ∷ (type ++ (b' ' ∷ (dir ++ (b' ' ∷ options)))))

join_lem :
    (type dir options : List ℕ)
    → join (type ∷ dir ∷ options ∷ []) ≡ (type ++ (b' ' ∷ (dir ++ (b' ' ∷ options)))) ++ (b' ' ∷ [])
unfolding join
join_lem type dir options = simp append_assoc

words-mount_text :
    (type dir options : List ℕ)
    → no_space type ≡ true
    → no_space dir ≡ true
    → IsWord options
    → words (mount_text type dir options) ≡ mount ∷ type ∷ dir ∷ options ∷ []
words-mount_text type dir [] t d o = absurd (o.1 refl)
words-mount_text type dir (x ∷ options) t d o =
    words-space mount _ refl
    ∙ ap (λ ws. mount ∷ ws)
        (words-space type _ t
          ∙ ap (λ ws. type ∷ ws)
              (words-space dir _ d ∙ ap (λ ws. dir ∷ ws) (words-word options x o.0)))

-- The message "mount", with a type and a directory that have no space and options that are one word,
-- mounts what it names: vfs_tell_parse does what vfs_mount of the directory, the type and the options
-- does, and no more. The buffer for the words is long enough.
pub tell_parse-mounts :
    (type dir options : List ℕ) (v : Vfs)
    → no_space type ≡ true
    → no_space dir ≡ true
    → IsWord options
    → (actions : List Action) × (tell_parse (mount_text type dir options) ≡ some actions)
      × (perform actions v ≡ (vfs_mount dir type options v).1)
unfolding tell_parse tell_cmd
tell_parse-mounts type dir options v t d o =
    let full = type ++ (b' ' ∷ (dir ++ (b' ' ∷ options))) in
    let room : length (full ++ (b' ' ∷ [])) ≤ length (mount_text type dir options) - 1 - 1 =
      omega (arith, length-append {0} full (b' ' ∷ [])) in
    (
      mounts dir type options ∷ [],
      ap (tell_words (length (mount_text type dir options) - 1))
            (words-mount_text type dir options t d o)
          ∙ ap
              (λ j.
                tell_whole mount (cut_last (take (length (mount_text type dir options) - 1 - 1) j)))
              (join_lem type dir options)
          ∙ ap (λ j. tell_whole mount (cut_last j)) (take-all (full ++ (b' ' ∷ [])) _ room)
          ∙ ap (tell_whole mount) (cut_last-append full b' ')
          ∙ ap (λ a. one_action (mount_type a)) (at_space-append type (dir ++ (b' ' ∷ options)) t)
          ∙ ap (λ a. one_action (mount_dir type a)) (at_space-append dir options d),
      refl,
    )
