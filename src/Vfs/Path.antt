-- ===== src/Vfs/Path.antt =====
-- srv/vfs/path.c. The characters that path_concat has written are a list, the last one first, so that its
-- length is the distance of `c` from `s`. A call is `none` where it leaves one of its strings.
pub mod Resolve
mod Tests
use frotznet.Prelude.{ℕ, Option, none, some, List, [], ◌∷◌, ◌++◌, ◌==◌, if◌then◌else◌}

pub data Kind : Type 0 where
  slash period plain : Kind

abbrev pub kind : ℕ → Kind
kind c = if c == b'/' then slash else if c == b'.' then period else plain

-- Where the loop of path_concat is in `t`: between components, in a normal component, behind a period
-- that begins one, or behind two periods that were followed.
pub data Mode : Type 0 where
  between inside dotted followed : Mode

-- The loop that goes back to the slash before the last component, or to the beginning.
unfoldable pub unwind : List ℕ → List ℕ
unwind [] = []
unwind (x ∷ []) = x ∷ []
unwind (x ∷ y ∷ ys) = let rest = unwind (y ∷ ys) in if x == b'/' then x ∷ y ∷ ys else rest

-- What two periods do: at the root the second one is read again, as the first one of a component.
pub data Up : Type 0 where
  lost : Up
  root : Up
  goes : List ℕ → Up

abbrev pub up : List ℕ → Up
up [] = lost
up (x ∷ []) = root
up (x ∷ y ∷ ys) = goes (unwind (y ∷ ys))

-- The loop of path_concat.
unfoldable pub concat : Mode → List ℕ → List ℕ → Option (List ℕ)
unfolding unwind
concat dotted [] out = none
concat between [] out = some out
concat inside [] out = some out
concat followed [] out = some out
concat between (c ∷ cs) out = elim (kind c) [
  | slash ↦ concat between cs (c ∷ out)
  | period ↦ concat dotted cs out
  | plain ↦ concat inside cs (c ∷ out)
]
concat inside (c ∷ cs) out = elim (kind c) [
  | slash ↦ concat between cs (c ∷ out)
  | period ↦ concat inside cs (c ∷ out)
  | plain ↦ concat inside cs (c ∷ out)
]
concat dotted (c ∷ cs) out = elim (kind c) [
  | slash ↦ concat between cs out
  | period ↦ elim (up out) [
    | lost ↦ none
    | root ↦ concat dotted cs out
    | goes back ↦ concat followed cs back
  ]
  | plain ↦ concat inside cs (c ∷ b'.' ∷ out)
]
concat followed (c ∷ cs) out = elim (kind c) [
  | slash ↦ concat between cs out
  | period ↦ concat dotted cs out
  | plain ↦ concat inside cs (c ∷ out)
]

-- A slash at the end goes, unless it is the root; the character before an empty string is read.
abbrev pub trim : List ℕ → Option (List ℕ)
trim [] = none
trim (x ∷ []) = some (x ∷ [])
trim (x ∷ y ∷ ys) = if x == b'/' then some (y ∷ ys) else some (x ∷ y ∷ ys)

abbrev pub backwards : List ℕ → List ℕ → List ℕ
backwards [] ys = ys
backwards (x ∷ xs) ys = backwards xs (x ∷ ys)

abbrev pub trimmed : Option (List ℕ) → Option (List ℕ)
trimmed none = none
trimmed (some out) = trim out

abbrev pub forwards : Option (List ℕ) → Option (List ℕ)
forwards none = none
forwards (some out) = some (backwards out [])

-- path_concat: the string that `s` comes to be.
unfoldable pub path_concat : List ℕ → List ℕ → Option (List ℕ)
unfolding concat
path_concat s t = forwards (trimmed (concat between t (backwards s [])))

-- path_combine. The slash behind `s` is written without a NUL after it, so the string goes on with what
-- the buffer holds there before the call, `behind`; the character in its place does not matter.
unfoldable pub path_combine : List ℕ → List ℕ → List ℕ → Option (List ℕ)
unfolding path_concat
path_combine s [] behind = path_concat (s ++ (b'/' ∷ behind)) []
path_combine s (c ∷ cs) behind =
    if c == b'/' then path_concat [] (c ∷ cs) else path_concat (s ++ (b'/' ∷ behind)) (c ∷ cs)
