-- ===== src/Hiptop/Index/Lines.antt =====
-- hiptop/dictionary/mkidx.c: fixup on a text of lines.
use frotznet.Prelude.{
  ℕ, ap, ◌∙◌, ◌+◌, ◌≤◌, ◌<◌, ◌≡◌, refl, subst, Bool, true, false, none, some, List, [], ◌∷◌, ◌++◌,
  append_assoc, arith, length, update, update_self, update_ne, Option-cases, inl, inr,
}
use frotznet.Hiptop.Index.{skips, fixup_loop, fixup}
use frotznet.Kernel.Resource.Table.{has}

-- The memory from `i` on.
abbrev pub Holds : (ℕ → ℕ) → ℕ → List ℕ → Type 0
Holds d i [] = Unit
Holds d i (x ∷ xs) = (d i ≡ x) × Holds d (i + 1) xs

-- The first of a text, or what stands behind it.
abbrev next : List ℕ → ℕ → ℕ
next [] after = after
next (c ∷ cs) after = c

-- fixup of a text as a list, of which `after` stands behind.
trim : Bool → List ℕ → ℕ → List ℕ
trim first [] after = []
trim first (c ∷ cs) after = elim (skips first c (next cs after)) [
  | some first' ↦ trim first' cs after
  | none ↦ c ∷ trim first cs after
]

pub Holds-update :
    (d : ℕ → ℕ) (i j v : ℕ) (xs : List ℕ) → j < i → Holds d i xs → Holds (update d j v) i xs
Holds-update d i j v [] lt h = tt
Holds-update d i j v (x ∷ xs) lt h = (ground arith, Holds-update d (i + 1) j v xs (omega arith) h.1)

next_of :
    (d : ℕ → ℕ) (i after : ℕ) (xs : List ℕ) → Holds d i (xs ++ (after ∷ [])) → d i ≡ next xs after
next_of d i after [] h = h.0
next_of d i after (x ∷ xs) h = h.0

-- The outcome of the loop that has written up to `j`: the list's text is there, and what was written
-- before stays.
abbrev Trims : ℕ → (ℕ → ℕ) → List ℕ → ℕ × (ℕ → ℕ) → Type 0
Trims j d out r = (r.0 ≡ j + length out) × Holds r.1 j out × ((k : ℕ) → k < j → r.1 k ≡ d k)

fixup_loop-Trims :
    (xs : List ℕ) (i j after : ℕ) (first : Bool) (d : ℕ → ℕ)
    → j ≤ i
    → Holds d i (xs ++ (after ∷ []))
    → Trims j d (trim first xs after) (fixup_loop (length xs) i j first d)
unfolding fixup_loop trim
fixup_loop-Trims [] i j after first d le h = (omega arith, tt, λ k lt. refl)
fixup_loop-Trims (c ∷ cs) i j after first d le h =
    let seen = next_of d (i + 1) after cs h.1 in
    let here = h.0 in
    elim (Option-cases (skips first c (next cs after))) [
      | inl kept ↦
          let d' = update d j (d i) in
          let ih =
            fixup_loop-Trims cs (i + 1) (j + 1) after first d' (omega arith)
              (Holds-update d (i + 1) j (d i) (cs ++ (after ∷ [])) (omega arith) h.1) in
          rw (fixup_loop, trim, here, seen, kept)
            (
              omega (arith, ih.0),
              (ih.2 j (omega arith) ∙ update_self d j (d i) ∙ here, ih.1),
              λ k lt. ih.2 k (omega arith) ∙ update_ne d j (d i) k (ground arith),
            )
      | inr (first', skipped) ↦
          rw (fixup_loop, trim, here, seen, skipped)
            (fixup_loop-Trims cs (i + 1) j after first' d (omega arith) h.1)
    ]

-- A line of the dictionary, and what fixup leaves of it.
pub record Line : Type 0 where
  pub head : List ℕ
  pub gloss : List ℕ

abbrev pub text : Line → List ℕ
text l = l.head ++ (b'/' ∷ (l.gloss ++ (b'/' ∷ 10 ∷ [])))

abbrev pub trimmed : Line → List ℕ
trimmed l = l.head ++ (l.gloss ++ (10 ∷ []))

abbrev pub IsLine : Line → Type 0
IsLine l = (has b'/' l.head ≡ false) × (has 10 l.gloss ≡ false)

abbrev pub Lines : List Line → Type 0
Lines [] = Unit
Lines (l ∷ ls) = IsLine l × Lines ls

abbrev pub join : (Line → List ℕ) → List Line → List ℕ
join f [] = []
join f (l ∷ ls) = f l ++ join f ls

trim-head :
    (head rest : List ℕ) (after : ℕ)
    → has b'/' head ≡ false
    → trim true (head ++ rest) after ≡ head ++ trim true rest after
unfolding trim
trim-head [] rest after h = refl
trim-head (c ∷ cs) rest after h =
    let e : skips true c (next (cs ++ rest) after) ≡ none = ground arith in
    rw (trim, e) (ap (λ t. c ∷ t) (trim-head cs rest after (ground arith)))

trim-gloss :
    (gloss rest : List ℕ) (after : ℕ)
    → has 10 gloss ≡ false
    → trim false (gloss ++ (b'/' ∷ rest)) after ≡ gloss ++ trim false (b'/' ∷ rest) after
unfolding trim
trim-gloss [] rest after h = refl
trim-gloss (c ∷ []) rest after h =
    let e : skips false c b'/' ≡ none = ground arith in rw (trim, e) refl
trim-gloss (c ∷ c' ∷ cs) rest after h =
    let e : skips false c c' ≡ none = ground arith in
    rw (trim, e) (ap (λ t. c ∷ t) (trim-gloss (c' ∷ cs) rest after (ground arith)))

trim_end :
    (rest : List ℕ) (after : ℕ) → trim false (b'/' ∷ 10 ∷ rest) after ≡ 10 ∷ trim true rest after
unfolding trim
trim_end rest after =
    let e : skips true 10 (next rest after) ≡ none = ground arith in rw (trim, e) refl

trim-text :
    (l : Line) (rest : List ℕ) (after : ℕ)
    → IsLine l
    → trim true (text l ++ rest) after ≡ trimmed l ++ trim true rest after
unfolding trim
trim-text l rest after (h, g) =
    let tail = l.gloss ++ (b'/' ∷ 10 ∷ []) in
    simp append_assoc (
      trim-head l.head (b'/' ∷ (l.gloss ++ (b'/' ∷ 10 ∷ rest))) after h
      ∙ ap (λ t. l.head ++ t)
          (trim-gloss l.gloss (10 ∷ rest) after g ∙ ap (λ t. l.gloss ++ t) (trim_end rest after)))

trim-join :
    (ls : List Line) (after : ℕ) → Lines ls → trim true (join text ls) after ≡ join trimmed ls
unfolding trim
trim-join [] after h = refl
trim-join (l ∷ ls) after (h, hs) =
    trim-text l (join text ls) after h ∙ ap (λ t. trimmed l ++ t) (trim-join ls after hs)

-- Of a text of lines, each a head with no slash, a slash, a gloss with no line feed and a slash before
-- the line feed, fixup leaves in the memory, from its start on, the heads and glosses without these two
-- slashes, and returns the size of that. What it reads behind the text does not matter.
pub fixup-Holds :
    (ls : List Line) (after : ℕ) (d : ℕ → ℕ)
    → Lines ls
    → Holds d 0 (join text ls ++ (after ∷ []))
    → ((fixup (length (join text ls)) d).0 ≡ length (join trimmed ls))
      × Holds (fixup (length (join text ls)) d).1 0 (join trimmed ls)
unfolding fixup
fixup-Holds ls after d hs h =
    let done = fixup_loop-Trims (join text ls) 0 0 after true d (omega arith) h in
    let e = trim-join ls after hs in
    (
      omega (arith, done.0, ap length e),
      subst (Holds (fixup (length (join text ls)) d).1 0) e done.1,
    )
