-- ===== src/Hiptop/Index/Key.antt =====
-- hiptop/dictionary/mkidx.c: the key of the word that the loop of main is in, and the search of EXCLUDE.
use frotznet.Prelude.{
  ℕ, zero, suc, ap, ◌∙◌, ◌+◌, ◌≤◌, ◌<◌, ◌≡◌, refl, subst, Bool, true, false, ◌&&◌, ◌||◌, List, [],
  ◌∷◌, ◌++◌, arith, length, take, length-take, min, update, update_ne, ltb, ◌==◌, if◌then◌else◌,
  Bool-cases, inl, inr,
}
use frotznet.Hiptop.Index.{keymax, is_cont, exclude, agrees, excluded, Scan, advance}
use frotznet.Hiptop.Index.Lines.{Holds}

-- Are two words the same?
abbrev pub same : List ℕ → List ℕ → Bool
same [] [] = true
same [] (c ∷ cs) = false
same (c ∷ cs) [] = false
same (c ∷ cs) (d ∷ ds) = (c == d) && same cs ds

abbrev pub one_of : List (List ℕ) → List ℕ → Bool
one_of [] w = false
one_of (e ∷ es) w = same e w || one_of es w

take_all : (n : ℕ) (xs : List ℕ) → length xs ≤ n → take n xs ≡ xs
take_all zero [] h = refl
take_all zero (x ∷ xs) h = absurd (omega arith)
take_all (suc n) [] h = refl
take_all (suc n) (x ∷ xs) h = ap (λ t. x ∷ t) (take_all n xs (omega arith))

take-append : (n : ℕ) (xs ys : List ℕ) → n ≤ length xs → take n (xs ++ ys) ≡ take n xs
take-append zero xs ys h = refl
take-append (suc n) [] ys h = absurd (omega arith)
take-append (suc n) (x ∷ xs) ys h = ap (λ t. x ∷ t) (take-append n xs ys (omega arith))

pub length-snoc : (xs : List ℕ) (c : ℕ) → length (xs ++ (c ∷ [])) ≡ length xs + 1
length-snoc [] c = refl
length-snoc (x ∷ xs) c = omega (arith, length-snoc xs c)

-- A character written behind the text.
Holds-snoc :
    (key : ℕ → ℕ) (i c : ℕ) (xs : List ℕ)
    → Holds key i xs
    → Holds (update key (i + length xs) c) i (xs ++ (c ∷ []))
Holds-snoc key i c [] h = (ground arith, tt)
Holds-snoc key i c (x ∷ xs) h =
    let e : i + 1 + length xs ≡ i + suc (length xs) = omega arith in
    (
      update_ne key (i + suc (length xs)) c i (omega arith) ∙ h.0,
      subst (λ p. Holds (update key p c) (i + 1) (xs ++ (c ∷ []))) e
          (Holds-snoc key (i + 1) c xs h.1),
    )

Holds-after :
    (key : ℕ → ℕ) (i p c : ℕ) (xs : List ℕ)
    → i + length xs ≤ p
    → Holds key i xs
    → Holds (update key p c) i xs
Holds-after key i p c [] le h = tt
Holds-after key i p c (x ∷ xs) le h =
    (update_ne key p c i (omega arith) ∙ h.0, Holds-after key (i + 1) p c xs (omega arith) h.1)

-- The loop is in the word `w`, which starts at `start`; `idx` is the index before it.
pub record InWord (start : ℕ) (idx : List ℕ) (w : List ℕ) (s : Scan) : Type 0 where
  pub starts : s.start ≡ start
  pub indexed : s.idx ≡ idx
  pub size : s.p ≡ min (length w) keymax
  pub holds : Holds s.key 0 (take keymax w)
  pub begun : 0 < length w

advance-Holds :
    (p c : ℕ) (w : List ℕ) (key : ℕ → ℕ)
    → p ≡ min (length w) keymax
    → Holds key 0 (take keymax w)
    → Holds (update key p c) 0 (take keymax (w ++ (c ∷ [])))
advance-Holds p c w key e h = elim (Bool-cases (ltb (length w) keymax)) [
  | inl short ↦
      let at : p ≡ 0 + length w = ground arith in
      let old = take_all keymax w (ground arith) in
      let new = take_all keymax (w ++ (c ∷ [])) (ground (arith, length-snoc w c)) in
      rw (at, new) (Holds-snoc key 0 c w (subst (Holds key 0) old h))
  | inr long ↦
      let same = take-append keymax w (c ∷ []) (ground arith) in
      rw same (Holds-after key 0 p c (take keymax w) (ground (arith, length-take keymax w)) h)
]

pub advance-InWord :
    (i c start : ℕ) (idx w : List ℕ) (s : Scan)
    → is_cont c ≡ true
    → InWord start idx w s
    → InWord start idx (w ++ (c ∷ [])) (advance i c s)
unfolding advance
advance-InWord i c start idx w s cont v =
    let within : (s.p == 0) ≡ false = ground (arith, v.size, v.begun) in
    rw (within, cont, if◌then◌else◌)
      record {
        starts = v.starts;
        indexed = v.indexed;
        size = ground (arith, v.size, length-snoc w c);
        holds = advance-Holds s.p c w s.key v.size v.holds;
        begun = omega (arith, length-snoc w c);
      }

agrees-same :
    (e w : List ℕ) (k : ℕ) (key : ℕ → ℕ)
    → length e ≡ length w
    → Holds key k w
    → agrees e k key ≡ same e w
unfolding agrees
agrees-same [] [] k key l h = refl
agrees-same [] (d ∷ ds) k key l h = absurd (omega arith)
agrees-same (c ∷ cs) [] k key l h = absurd (omega arith)
agrees-same (c ∷ cs) (d ∷ ds) k key l h =
    let first = h.0 in
    let rest = agrees-same cs ds (k + 1) key (omega arith) h.1 in
    rw (agrees, first, rest) (elim (Bool-cases (c == d)) [ inl y ↦ rw y refl | inr n ↦ rw n refl ])

same-length : (e w : List ℕ) → same e w ≡ true → length e ≡ length w
same-length [] [] h = refl
same-length [] (d ∷ ds) h = cc
same-length (c ∷ cs) [] h = cc
same-length (c ∷ cs) (d ∷ ds) h = ap suc (same-length cs ds (ground arith))

-- All of some words are shorter than the key.
abbrev pub Short : List (List ℕ) → Type 0
Short [] = Unit
Short (e ∷ es) = (length e < keymax) × Short es

module _ (w : List ℕ) (p : ℕ) (key : ℕ → ℕ) (size : p ≡ min (length w) keymax)
    (h : Holds key 0 (take keymax w)) where
  entry-same : (e : List ℕ) → length e < keymax → ((length e == p) && agrees e 0 key) ≡ same e w
  entry-same e lt = elim (Bool-cases (length e == p)) [
    | inl eq ↦
        let l : length e ≡ length w = ground arith in
        let all = take_all keymax w (omega arith) in
        rw (eq, agrees-same e w 0 key l (subst (Holds key 0) all h)) refl
    | inr ne ↦ elim (Bool-cases (same e w)) [
      | inl y ↦ absurd (ground (arith, same-length e w y))
      | inr n ↦ rw (ne, n) refl
    ]
  ]

  pub excluded-one_of : (es : List (List ℕ)) → Short es → excluded es p key ≡ one_of es w
  unfolding excluded
  excluded-one_of [] s = refl
  excluded-one_of (e ∷ es) (lt, s) =
      rw (excluded, entry-same e lt, excluded-one_of es s)
        (elim (Bool-cases (same e w)) [ inl y ↦ rw y refl | inr n ↦ rw n refl ])

pub exclude-Short : Short exclude
unfolding exclude
exclude-Short = omega arith
