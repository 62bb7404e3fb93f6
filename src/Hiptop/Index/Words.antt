-- ===== src/Hiptop/Index/Words.antt =====
-- hiptop/dictionary/mkidx.c: the index that the loop of main builds, as the words of the text.
use frotznet.Prelude.{
  ℕ, suc, ◌∙◌, ◌+◌, ◌≡◌, refl, subst, Bool, true, false, none, some, ◌&&◌, ◌||◌, not, List, [], ◌∷◌,
  ◌++◌, append_assoc, append-nil, arith, length, update_self, ltb, ◌==◌, if◌then◌else◌, Bool-cases,
  inl, inr,
}
use frotznet.Hiptop.Index.{
  idx_size, is_start, is_cont, exclude, excluded, Scan, enter, advance, scan, build_index,
}
use frotznet.Hiptop.Index.Key.{one_of, InWord, advance-InWord, excluded-one_of, exclude-Short}
use frotznet.Hiptop.Index.Lines.{Holds}

-- No character starts a word; all continue one.
abbrev pub Gap : List ℕ → Type 0
Gap [] = Unit
Gap (c ∷ cs) = (is_start c ≡ false) × Gap cs

abbrev pub Conts : List ℕ → Type 0
Conts [] = Unit
Conts (c ∷ cs) = (is_cont c ≡ true) × Conts cs

-- A gap, a word and the character that ends it.
pub record Token : Type 0 where
  pub gap : List ℕ
  pub first : ℕ
  pub others : List ℕ
  pub stop : ℕ

pub record IsToken (t : Token) : Type 0 where
  pub gap : Gap t.gap
  pub first : is_start t.first ≡ true
  pub others : Conts t.others
  pub stop : is_cont t.stop ≡ false

abbrev pub Tokens : List Token → Type 0
Tokens [] = Unit
Tokens (t ∷ ts) = IsToken t × Tokens ts

abbrev pub word : Token → List ℕ
word t = t.first ∷ t.others

abbrev pub text : Token → List ℕ
text t = t.gap ++ (t.first ∷ (t.others ++ (t.stop ∷ [])))

abbrev pub texts : List Token → List ℕ
texts [] = []
texts (t ∷ ts) = text t ++ texts ts

-- The words that the index is to have: those that start with no ASCII letter, and those of three letters
-- or more that EXCLUDE does not name.
abbrev pub wanted : Token → Bool
wanted t = not (ltb t.first 128) || (ltb 2 (length (word t)) && not (one_of exclude (word t)))

-- The places of the wanted words, where the text starts at `i`.
abbrev pub places : ℕ → List Token → List ℕ
places i [] = []
places i (t ∷ ts) =
    (if wanted t then (i + length t.gap) ∷ [] else []) ++ places (i + length (text t)) ts

-- The end of the text: a gap, and a word that the text's end cuts.
abbrev pub Cut : List ℕ → Type 0
Cut [] = Unit
Cut (c ∷ cs) = (is_start c ≡ true) × Conts cs

-- The loop over a list.
run : ℕ → List ℕ → Scan → Scan
run i [] s = s
run i (c ∷ cs) s = run (i + 1) cs (advance i c s)

scan-run :
    (xs : List ℕ) (i : ℕ) (d : ℕ → ℕ) (s : Scan)
    → Holds d i xs
    → scan (length xs) i d s ≡ run i xs s
unfolding scan run
scan-run [] i d s h = refl
scan-run (x ∷ xs) i d s h =
    let here = h.0 in rw (scan, here) (scan-run xs (i + 1) d (advance i x s) h.1)

run-append :
    (xs ys : List ℕ) (i : ℕ) (s : Scan) → run i (xs ++ ys) s ≡ run (i + length xs) ys (run i xs s)
unfolding run
run-append [] ys i s = let e : i + 0 ≡ i = omega arith in rw e refl
run-append (x ∷ xs) ys i s =
    let e : i + suc (length xs) ≡ i + 1 + length xs = omega arith in
    rw e (run-append xs ys (i + 1) (advance i x s))

-- The loop is between words, with an index.
abbrev Between : List ℕ → Scan → Type 0
Between idx s = (s.p ≡ 0) × (s.idx ≡ idx)

run-Between :
    (gap : List ℕ) (i : ℕ) (idx : List ℕ) (s : Scan)
    → Gap gap
    → Between idx s
    → Between idx (run i gap s)
unfolding run
run-Between [] i idx s g b = b
run-Between (c ∷ cs) i idx s g b =
    let stays : advance i c s ≡ s = unfold advance in rw (b.0, g.0, if◌then◌else◌) refl in
    rw (run, stays) (run-Between cs (i + 1) idx s g.1 b)

run-InWord :
    (cs w : List ℕ) (i start : ℕ) (idx : List ℕ) (s : Scan)
    → Conts cs
    → InWord start idx w s
    → InWord start idx (w ++ cs) (run i cs s)
unfolding run
run-InWord [] w i start idx s g v = rw append-nil v
run-InWord (c ∷ cs) w i start idx s g v =
    subst (λ (t : List ℕ). InWord start idx t (run (i + 1) cs (advance i c s)))
      (append_assoc w (c ∷ []) cs)
      (run-InWord cs (w ++ (c ∷ [])) (i + 1) start idx (advance i c s) g.1
        (advance-InWord i c start idx w s g.0 v))

-- The first character of a word.
advance-begins :
    (i c : ℕ) (idx : List ℕ) (s : Scan)
    → is_start c ≡ true
    → Between idx s
    → InWord i idx (c ∷ []) (advance i c s)
unfolding advance
advance-begins i c idx s e b =
    rw (b.0, e, if◌then◌else◌)
      record {
        starts = refl;
        indexed = b.1;
        size = omega arith;
        holds = (update_self s.key 0 c, tt);
        begun = omega arith;
      }

run-word :
    (c : ℕ) (cs : List ℕ) (i : ℕ) (idx : List ℕ) (s : Scan)
    → is_start c ≡ true
    → Conts cs
    → Between idx s
    → InWord i idx (c ∷ cs) (run i (c ∷ cs) s)
unfolding run
run-word c cs i idx s e g b =
    run-InWord cs (c ∷ []) (i + 1) i idx (advance i c s) g (advance-begins i c idx s e b)

-- What enter adds, in one test.
enter-idx :
    (s : Scan)
    → (enter s).idx
      ≡ s.idx
        ++ (if not (ltb (s.key 0) 128) || (ltb 2 s.p && not (excluded exclude s.p s.key))
            then s.start ∷ []
            else [])
unfolding enter
enter-idx s = elim (Bool-cases (ltb (s.key 0) 128)) [
  | inr other ↦ rw (enter, other) refl
  | inl ascii ↦ elim (Bool-cases (ltb 2 s.p)) [
    | inr short ↦ rw (enter, ascii, short, append-nil) refl
    | inl long ↦ elim (Bool-cases (excluded exclude s.p s.key)) [
      | inl out ↦ rw (enter, ascii, long, out, append-nil) refl
      | inr in_it ↦ rw (enter, ascii, long, in_it) refl
    ]
  ]
]

-- The character behind a word.
advance-enters :
    (i start : ℕ) (t : Token) (idx : List ℕ) (s : Scan)
    → is_cont t.stop ≡ false
    → InWord start idx (word t) s
    → Between (idx ++ (if wanted t then start ∷ [] else [])) (advance i t.stop s)
unfolding advance
advance-enters i start t idx s e v =
    let within : (s.p == 0) ≡ false = ground (arith, v.size) in
    let key = v.holds.0 in
    let named = excluded-one_of (word t) s.p s.key v.size v.holds exclude exclude-Short in
    let long : ltb 2 s.p ≡ ltb 2 (length (word t)) = ground (arith, v.size) in
    rw (within, e, if◌then◌else◌)
      (refl, enter-idx s ∙ rw (key, named, long, v.starts, v.indexed) refl)

-- A token, behind an index.
run-text :
    (t : Token) (i : ℕ) (idx : List ℕ) (s : Scan)
    → IsToken t
    → Between idx s
    → Between (idx ++ (if wanted t then (i + length t.gap) ∷ [] else [])) (run i (text t) s)
unfolding run
run-text t i idx s v b =
    let at = i + length t.gap in
    let before = run-Between t.gap i idx s v.gap b in
    let inside = run-word t.first t.others at idx (run i t.gap s) v.first v.others before in
    let end = at + length (word t) in
    rw (run-append t.gap (t.first ∷ (t.others ++ (t.stop ∷ []))) i s) (
      rw (run-append (word t) (t.stop ∷ []) at (run i t.gap s))
        (advance-enters end at t idx (run at (word t) (run i t.gap s)) v.stop inside))

run-texts :
    (ts : List Token) (i : ℕ) (idx : List ℕ) (s : Scan)
    → Tokens ts
    → Between idx s
    → Between (idx ++ places i ts) (run i (texts ts) s)
unfolding run
run-texts [] i idx s v b = rw append-nil b
run-texts (t ∷ ts) i idx s v b =
    let here = if wanted t then (i + length t.gap) ∷ [] else [] in
    let next = run i (text t) s in
    rw (run-append (text t) (texts ts) i s) (
      subst (λ (l : List ℕ). Between l (run (i + length (text t)) (texts ts) next))
        (append_assoc idx here (places (i + length (text t)) ts))
        (run-texts ts (i + length (text t)) (idx ++ here) next v.1 (run-text t i idx s v.0 b)))

run-Cut :
    (cut : List ℕ) (i : ℕ) (idx : List ℕ) (s : Scan)
    → Cut cut
    → Between idx s
    → (run i cut s).idx ≡ idx
unfolding run
run-Cut [] i idx s c b = b.1
run-Cut (c ∷ cs) i idx s (e, g) b = (run-word c cs i idx s e g b).indexed

-- The index that main builds of a text has the place of every wanted word, and no other, in the order of
-- the text: of a text of words, each behind a gap in which no word starts and before a character that
-- does not continue it, and at the end a gap and perhaps a word. This last one, which the end of the text
-- cuts, is not in the index. With more than idx_size wanted words the loop writes behind the block of the
-- index instead.
pub build_index-places :
    (ts : List Token) (gap cut : List ℕ) (d : ℕ → ℕ)
    → Tokens ts
    → Gap gap
    → Cut cut
    → Holds d 0 (texts ts ++ (gap ++ cut))
    → build_index (length (texts ts ++ (gap ++ cut))) d
      ≡ (if ltb idx_size (length (places 0 ts)) then none else some (places 0 ts))
unfolding build_index
build_index-places ts gap cut d v g c h =
    let begin : Scan = record { p = 0; start = 0; key = λ k. 0; idx = [] } in
    let words = run-texts ts 0 [] begin v (refl, refl) in
    let here = 0 + length (texts ts) in
    let behind = run-Between gap here (places 0 ts) (run 0 (texts ts) begin) g words in
    let after = run here gap (run 0 (texts ts) begin) in
    let found : (run 0 (texts ts ++ (gap ++ cut)) begin).idx ≡ places 0 ts =
      rw (run-append (texts ts) (gap ++ cut) 0 begin) (
        rw (run-append gap cut here (run 0 (texts ts) begin))
          (run-Cut cut (here + length gap) (places 0 ts) after c behind)) in
    rw (build_index, scan-run (texts ts ++ (gap ++ cut)) 0 d begin h, found) refl
