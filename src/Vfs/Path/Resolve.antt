-- ===== src/Vfs/Path/Resolve.antt =====
-- path_concat of srv/vfs/path.c against the resolution of a path component by component.
use frotznet.Prelude.{
  ℕ, ◌≡◌, refl, sym, ap, ◌∙◌, Bool, true, false, ◌&&◌, not, some, List, [], ◌∷◌, ◌++◌, arith, ◌==◌,
  if◌then◌else◌, append-nil, Bool-cases, inl, inr,
}
use frotznet.Vfs.Path.{
  period, plain, kind, between, inside, followed, unwind, Up, up, concat, trim, trimmed, forwards,
  backwards, path_concat,
}

-- A component: a name, a period or two periods.
pub data Part : Type 0 where
  name : List ℕ → Part
  here : Part
  above : Part

-- No character of a name is a slash.
abbrev pub no_slash : List ℕ → Bool
no_slash [] = true
no_slash (c ∷ cs) = not (c == b'/') && no_slash cs

-- What follows a period that begins a name: a character that is neither a period nor a slash.
abbrev pub is_hidden : List ℕ → Bool
is_hidden [] = false
is_hidden (c ∷ cs) = not (c == b'.') && not (c == b'/') && no_slash cs

-- A name is a component that does not begin with two periods and is no single period.
abbrev pub is_name : List ℕ → Bool
is_name [] = false
is_name (c ∷ cs) = if c == b'.' then is_hidden cs else not (c == b'/') && no_slash cs

abbrev pub are_names : List Part → Bool
are_names [] = true
are_names (name n ∷ ps) = is_name n && are_names ps
are_names (here ∷ ps) = are_names ps
are_names (above ∷ ps) = are_names ps

-- The text of components, each with a slash behind it.
abbrev pub text : List Part → List ℕ
text [] = []
text (name n ∷ ps) = n ++ (b'/' ∷ text ps)
text (here ∷ ps) = b'.' ∷ b'/' ∷ text ps
text (above ∷ ps) = b'.' ∷ b'.' ∷ b'/' ∷ text ps

-- A directory is the list of its names, the last one first; this is its path, backwards, with a slash at
-- the end.
abbrev pub dir : List (List ℕ) → List ℕ
dir [] = b'/' ∷ []
dir (n ∷ ns) = b'/' ∷ backwards n (dir ns)

abbrev pub parent : List (List ℕ) → List (List ℕ)
parent [] = []
parent (n ∷ ns) = ns

abbrev pub resolve : List (List ℕ) → List Part → List (List ℕ)
resolve ns [] = ns
resolve ns (name n ∷ ps) = resolve (n ∷ ns) ps
resolve ns (here ∷ ps) = resolve ns ps
resolve ns (above ∷ ps) = resolve (parent ns) ps

inside_lem :
    (n cs out : List ℕ)
    → no_slash n ≡ true
    → concat inside (n ++ (b'/' ∷ cs)) out ≡ concat between cs (b'/' ∷ backwards n out)
unfolding concat
inside_lem [] cs out h = refl
inside_lem (c ∷ n) cs out h =
    let ih = inside_lem n cs (c ∷ out) (ground arith) in
    elim (Bool-cases (c == b'.')) [
      | inl dot ↦ let e : kind c ≡ period = ground arith in rw (concat, e) ih
      | inr other ↦ let e : kind c ≡ plain = ground arith in rw (concat, e) ih
    ]

-- A name that begins with a period.
hidden_lem :
    (n cs out : List ℕ)
    → is_hidden n ≡ true
    → concat between (b'.' ∷ (n ++ (b'/' ∷ cs))) out
      ≡ concat between cs (b'/' ∷ backwards n (b'.' ∷ out))
unfolding concat
hidden_lem [] cs out h = absurd cc
hidden_lem (c ∷ n) cs out h =
    let e : kind c ≡ plain = ground arith in
    rw (concat, e) (inside_lem n cs (c ∷ b'.' ∷ out) (ground arith))

name_lem :
    (n cs out : List ℕ)
    → is_name n ≡ true
    → concat between (n ++ (b'/' ∷ cs)) out ≡ concat between cs (b'/' ∷ backwards n out)
unfolding concat
name_lem [] cs out h = absurd cc
name_lem (c ∷ n) cs out h = elim (Bool-cases (c == b'.')) [
  | inr other ↦
      let e : kind c ≡ plain = ground arith in
      rw (concat, e) (inside_lem n cs (c ∷ out) (ground arith))
  | inl dot ↦ let e : c ≡ b'.' = ground arith in rw e (hidden_lem n cs out (ground arith))
]

unwind-append : (m out : List ℕ) → no_slash m ≡ true → unwind (m ++ (b'/' ∷ out)) ≡ b'/' ∷ out
unfolding unwind
unwind-append [] [] h = refl
unwind-append [] (x ∷ xs) h = refl
unwind-append (c ∷ []) out h =
    let e : (c == b'/') ≡ false = ground arith in rw (e, if◌then◌else◌) (unwind-append [] out refl)
unwind-append (c ∷ d ∷ m) out h =
    let e : (c == b'/') ≡ false = ground arith in
    rw (e, if◌then◌else◌) (unwind-append (d ∷ m) out (ground arith))

unwind-backwards :
    (n m out : List ℕ)
    → no_slash n ≡ true
    → no_slash m ≡ true
    → unwind (backwards n (m ++ (b'/' ∷ out))) ≡ b'/' ∷ out
unwind-backwards [] m out h k = unwind-append m out k
unwind-backwards (c ∷ n) m out h k = unwind-backwards n (c ∷ m) out (ground arith) (ground arith)

backwards-cons :
    (n : List ℕ) (y : ℕ) (ys : List ℕ) → (z : ℕ) × (zs : List ℕ) × (backwards n (y ∷ ys) ≡ z ∷ zs)
backwards-cons [] y ys = (y, ys, refl)
backwards-cons (c ∷ n) y ys = backwards-cons n c (y ∷ ys)

dir-cons : (ns : List (List ℕ)) → (zs : List ℕ) × (dir ns ≡ b'/' ∷ zs)
dir-cons [] = ([], refl)
dir-cons (n ∷ ns) = (backwards n (dir ns), refl)

hidden-no_slash : (n : List ℕ) → is_hidden n ≡ true → no_slash n ≡ true
hidden-no_slash [] h = refl
hidden-no_slash (c ∷ n) h = ground arith

name-no_slash : (n : List ℕ) → is_name n ≡ true → no_slash n ≡ true
name-no_slash [] h = refl
name-no_slash (c ∷ n) h = elim (Bool-cases (c == b'.')) [
  | inl dot ↦ let rest = hidden-no_slash n (ground arith) in ground arith
  | inr other ↦ ground arith
]

-- Two periods below a directory lead to it.
up-dir : (n : List ℕ) (ns : List (List ℕ)) → is_name n ≡ true → up (dir (n ∷ ns)) ≡ Up.goes (dir ns)
up-dir n ns h =
    let d = dir-cons ns in
    let b = backwards-cons n b'/' d.0 in
    let back : unwind (backwards n (b'/' ∷ d.0)) ≡ b'/' ∷ d.0 =
      unwind-backwards n [] d.0 (name-no_slash n h) refl in
    ap (λ zs. up (b'/' ∷ backwards n zs)) d.1
    ∙ ap (λ zs. up (b'/' ∷ zs)) b.2
    ∙ ap Up.goes (ap unwind (sym b.2) ∙ back ∙ sym d.1)

abbrev pub all_names : List (List ℕ) → Bool
all_names [] = true
all_names (n ∷ ns) = is_name n && all_names ns

followed_slash : (cs out : List ℕ) → concat followed (b'/' ∷ cs) out ≡ concat between cs out
unfolding concat
followed_slash cs out = refl

above_lem :
    (ns : List (List ℕ)) (cs : List ℕ)
    → all_names ns ≡ true
    → concat between (b'.' ∷ b'.' ∷ b'/' ∷ cs) (dir ns) ≡ concat between cs (dir (parent ns))
unfolding concat
above_lem [] cs h = refl
above_lem (n ∷ ns) cs h =
    let e = up-dir n ns (ground arith) in rw (concat, e) (followed_slash cs (dir ns))

concat_end : (out : List ℕ) → concat between [] out ≡ some out
unfolding concat
concat_end out = refl

here_lem : (cs out : List ℕ) → concat between (b'.' ∷ b'/' ∷ cs) out ≡ concat between cs out
unfolding concat
here_lem cs out = refl

parent-names : (ns : List (List ℕ)) → all_names ns ≡ true → all_names (parent ns) ≡ true
parent-names [] h = refl
parent-names (n ∷ ns) h = ground arith

concat-text :
    (ps : List Part) (ns : List (List ℕ))
    → all_names ns ≡ true
    → are_names ps ≡ true
    → concat between (text ps) (dir ns) ≡ some (dir (resolve ns ps))
concat-text [] ns h k = concat_end (dir ns)
concat-text (name n ∷ ps) ns h k =
    name_lem n (text ps) (dir ns) (ground arith)
    ∙ concat-text ps (n ∷ ns) (ground arith) (ground arith)
concat-text (here ∷ ps) ns h k = here_lem (text ps) (dir ns) ∙ concat-text ps ns h k
concat-text (above ∷ ps) ns h k =
    above_lem ns (text ps) h ∙ concat-text ps (parent ns) (parent-names ns h) k

-- The path of a directory, with a slash at the end, and without one unless it is the root.
abbrev pub path : List (List ℕ) → List ℕ
path [] = b'/' ∷ []
path (n ∷ ns) = path ns ++ (n ++ (b'/' ∷ []))

abbrev pub shown : List (List ℕ) → List ℕ
shown [] = b'/' ∷ []
shown (n ∷ ns) = path ns ++ n

backwards-append : (xs ys zs : List ℕ) → backwards (xs ++ ys) zs ≡ backwards ys (backwards xs zs)
backwards-append [] ys zs = refl
backwards-append (x ∷ xs) ys zs = backwards-append xs ys (x ∷ zs)

backwards_twice : (xs ys zs : List ℕ) → backwards (backwards xs ys) zs ≡ backwards ys (xs ++ zs)
backwards_twice [] ys zs = refl
backwards_twice (x ∷ xs) ys zs = backwards_twice xs (x ∷ ys) zs

backwards-path : (ns : List (List ℕ)) → backwards (path ns) [] ≡ dir ns
backwards-path [] = refl
backwards-path (n ∷ ns) =
    backwards-append (path ns) (n ++ (b'/' ∷ [])) []
    ∙ backwards-append n (b'/' ∷ []) (backwards (path ns) [])
    ∙ ap (λ ys. b'/' ∷ backwards n ys) (backwards-path ns)

forwards-dir : (ns : List (List ℕ)) → forwards (trim (dir ns)) ≡ some (shown ns)
forwards-dir [] = refl
forwards-dir (n ∷ ns) =
    let d = dir-cons ns in
    let b = backwards-cons n b'/' d.0 in
    let split : backwards n (dir ns) ≡ b.0 ∷ b.1 = ap (backwards n) d.1 ∙ b.2 in
    let whole : backwards n (dir ns) ≡ backwards (path ns ++ n) [] =
      sym (backwards-append (path ns) n [] ∙ ap (backwards n) (backwards-path ns)) in
    ap (λ ys. forwards (trim (b'/' ∷ ys))) split
    ∙ ap (λ ys. some (backwards ys [])) (sym split ∙ whole)
    ∙ ap some (backwards_twice (path ns ++ n) [] [] ∙ append-nil (path ns ++ n))

-- path_concat of the path of a directory, with a slash at the end, and components with a slash behind
-- each, which are names, periods and pairs of periods, where no name begins with two periods: it gives the path of the directory that these
-- lead to one by one, where two periods lead from the root to the root.
pub path_concat-resolve :
    (ns : List (List ℕ)) (ps : List Part)
    → all_names ns ≡ true
    → are_names ps ≡ true
    → path_concat (path ns) (text ps) ≡ some (shown (resolve ns ps))
unfolding path_concat
path_concat-resolve ns ps h k =
    ap (λ out. forwards (trimmed (concat between (text ps) out))) (backwards-path ns)
    ∙ ap (λ o. forwards (trimmed o)) (concat-text ps ns h k)
    ∙ forwards-dir (resolve ns ps)
