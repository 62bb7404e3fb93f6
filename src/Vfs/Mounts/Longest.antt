-- ===== src/Vfs/Mounts/Longest.antt =====
-- fs_find of srv/vfs/fs.c.
use frotznet.Prelude.{
  ℕ, ◌≤◌, ◌<◌, ◌≡◌, ◌⊎◌, refl, sym, ap, ◌∙◌, subst, true, false, ◌&&◌, Option, none, some, List, [],
  ◌∷◌, arith, ltb, if◌then◌else◌, length, take, Bool-cases, inl, inr,
}
use frotznet.Prelude.Int.{ℤ, pos, negsuc}
use frotznet.Libc.Strings.{strncmp}
use frotznet.Libc.Strings.Compare.{strncmp_lem}
use frotznet.Vfs.Mounts.{Superblock, Vfs, is_zero, find_from, fs_find}

-- The path begins with the directory of the mount.
abbrev pub Begins : List ℕ → Superblock → Type 0
Begins node s = (take (length s.sb_dir) node ≡ s.sb_dir) × (length s.sb_dir ≤ length node)

-- No mount that the path begins with has a directory longer than `k`.
abbrev pub AtMost : List ℕ → ℕ → List Superblock → Type 0
AtMost node k [] = Unit
AtMost node k (s ∷ ss) = (Begins node s → length s.sb_dir ≤ k) × AtMost node k ss

abbrev pub Among : Superblock → List Superblock → Type 0
Among s [] = ⊥
Among s (t ∷ ts) = (s ≡ t) ⊎ Among s ts

-- The longest one that the path begins with.
abbrev pub Longest : List ℕ → List Superblock → Option Superblock → Type 0
Longest node ms none = AtMost node 0 ms
Longest node ms (some s) =
    Among s ms × Begins node s × (0 < length s.sb_dir) × AtMost node (length s.sb_dir) ms

take-length : (xs : List ℕ) → take (length xs) xs ≡ xs
take-length [] = refl
take-length (x ∷ xs) = ap (λ ys. x ∷ ys) (take-length xs)

zero_is : (z : ℤ) → is_zero z ≡ true → z ≡ pos 0
zero_is (pos n) h = let e : n ≡ 0 = ground arith in ap pos e
zero_is (negsuc n) h = absurd cc

begin_match :
    (node : List ℕ) (s : Superblock)
    → is_zero (strncmp s.sb_dir node (length s.sb_dir)) ≡ true
    → Begins node s
begin_match node s h =
    let c = (strncmp_lem s.sb_dir node (length s.sb_dir)).0 (zero_is _ h) in
    (sym c.0 ∙ take-length s.sb_dir, c.2)

begin_mismatch :
    (node : List ℕ) (s : Superblock)
    → is_zero (strncmp s.sb_dir node (length s.sb_dir)) ≡ false
    → Begins node s
    → ⊥
begin_mismatch node s h b =
    let e =
      (strncmp_lem s.sb_dir node (length s.sb_dir)).1
        (take-length s.sb_dir ∙ sym b.0, omega arith, b.1) in
    (let f = ap is_zero e in cc)

-- What is found so far.
abbrev Best : List ℕ → Option Superblock → ℕ → Type 0
Best node none k = k ≡ 0
Best node (some s) k = Begins node s × (0 < k) × (length s.sb_dir ≡ k)

abbrev From : Option Superblock → Option Superblock → List Superblock → Type 0
From best none ms = Unit
From best (some s) ms = (best ≡ some s) ⊎ Among s ms

-- One round that does not take the mount, and one that does.
skipped :
    (node : List ℕ) (s : Superblock) (ss : List Superblock) (best : Option Superblock) (k : ℕ)
    → (is_zero (strncmp s.sb_dir node (length s.sb_dir)) && ltb k (length s.sb_dir)) ≡ false
    → find_from node (s ∷ ss) best k ≡ find_from node ss best k
unfolding find_from
skipped node s ss best k e = rw (find_from, e, if◌then◌else◌) refl

accepted :
    (node : List ℕ) (s : Superblock) (ss : List Superblock) (best : Option Superblock) (k : ℕ)
    → (is_zero (strncmp s.sb_dir node (length s.sb_dir)) && ltb k (length s.sb_dir)) ≡ true
    → find_from node (s ∷ ss) best k ≡ find_from node ss (some s) (length s.sb_dir)
unfolding find_from
accepted node s ss best k e = rw (find_from, e, if◌then◌else◌) refl

abbrev Found : List ℕ → List Superblock → Option Superblock → ℕ → Option Superblock → Type 0
Found node ms best k r = (j : ℕ) × (k ≤ j) × Best node r j × AtMost node j ms × From best r ms

later :
    (best r : Option Superblock) (s : Superblock) (ss : List Superblock)
    → From best r ss
    → From best r (s ∷ ss)
later best none s ss h = tt
later best (some t) s ss (inl e) = inl e
later best (some t) s ss (inr a) = inr (inr a)

instead :
    (best r : Option Superblock) (s : Superblock) (ss : List Superblock)
    → From (some s) r ss
    → From best r (s ∷ ss)
instead best none s ss h = tt
instead best (some t) s ss (inl e) = inr (inl (let f : t ≡ s = cc in f))
instead best (some t) s ss (inr a) = inr (inr a)

find_from-Found :
    (node : List ℕ) (ms : List Superblock) (best : Option Superblock) (k : ℕ)
    → Best node best k
    → Found node ms best k (find_from node ms best k)
unfolding find_from
find_from-Found node [] none k b = (k, omega arith, b, tt, tt)
find_from-Found node [] (some s) k b = (k, omega arith, b, tt, inl refl)
find_from-Found node (s ∷ ss) best k b =
    let len = length s.sb_dir in
    elim (Bool-cases (is_zero (strncmp s.sb_dir node len))) [
      | inr other ↦
          let ih = find_from-Found node ss best k b in
          subst (Found node (s ∷ ss) best k)
            (sym (skipped node s ss best k (ap (λ c. c && ltb k len) other)))
            (
              ih.0,
              ih.1,
              ih.2,
              ((λ h. absurd (begin_mismatch node s other h)), ih.3),
              later best _ s ss ih.4,
            )
      | inl same ↦ elim (Bool-cases (ltb k len)) [
        | inl longer ↦
            let c : (is_zero (strncmp s.sb_dir node len) && ltb k len) ≡ true =
              ap (λ c. c && ltb k len) same ∙ longer in
            let ih =
              find_from-Found node ss (some s) len (begin_match node s same, ground arith, refl) in
            subst (Found node (s ∷ ss) best k) (sym (accepted node s ss best k c))
              (ih.0, ground (arith, ih.1), ih.2, ((λ h. ih.1), ih.3), instead best _ s ss ih.4)
        | inr shorter ↦
            let c : (is_zero (strncmp s.sb_dir node len) && ltb k len) ≡ false =
              ap (λ c. c && ltb k len) same ∙ shorter in
            let ih = find_from-Found node ss best k b in
            subst (Found node (s ∷ ss) best k) (sym (skipped node s ss best k c))
              (ih.0, ih.1, ih.2, ((λ h. ground (arith, ih.1)), ih.3), later best _ s ss ih.4)
      ]
    ]

to_Longest :
    (node : List ℕ) (ms : List Superblock) (r : Option Superblock)
    → Found node ms none 0 r
    → Longest node ms r
to_Longest node ms none h = subst (λ j. AtMost node j ms) h.2 h.3
to_Longest node ms (some s) h = (
  elim h.4 [ inl e ↦ absurd cc | inr a ↦ a ],
  h.2.0,
  subst (λ j. 0 < j) (sym h.2.2) h.2.1,
  subst (λ j. AtMost node j ms) (sym h.2.2) h.3,
)

-- fs_find gives a mount whose directory the path begins with, and that is not empty, and no mount that
-- the path begins with has a longer one; if it gives none, the path begins with no directory but empty
-- ones.
pub fs_find-Longest : (node : List ℕ) (v : Vfs) → Longest node v.mounts (fs_find node v)
unfolding fs_find
fs_find-Longest node v = to_Longest node v.mounts _ (find_from-Found node v.mounts none 0 refl)
