-- ===== src/Hiptop/Index.antt =====
-- hiptop/dictionary/mkidx.c: the characters of a word, the words that are left out, fixup, and the loop
-- of main over the text. Characters are the 16-bit units of the file, in a memory `d`.
pub mod Key
pub mod Words
pub mod Lines
pub mod Order
mod Tests
use Prim.Native.Char.{code}
use Prim.Native.String.{String}
use frotznet.Prelude.{
  ℕ, zero, suc, ◌+◌, ◌-◌, Bool, true, false, ◌&&◌, ◌||◌, Option, none, some, List, [], ◌∷◌, ◌++◌,
  ltb, leb, ◌==◌, if◌then◌else◌, length, update, not,
}
use frotznet.Prelude.Int.{ℤ, sub_ℕ}
use frotznet.Hiptop.Utf8.{write_utf8, with_char}

abbrev pub keymax : ℕ
keymax = 32

abbrev pub is_letter : ℕ → Bool
is_letter x = (leb b'a' x && leb x b'z') || (leb b'A' x && leb x b'Z')

-- START
unfoldable pub is_start : ℕ → Bool
is_start x = is_letter x || ltb 0x3000 x

-- CONT
unfoldable pub is_cont : ℕ → Bool
is_cont x = is_letter x || (ltb 255 x || (x == b'-' || (x == b'.' || (leb b'0' x && leb x b'9'))))

abbrev pub codes : String → List ℕ
codes String.[] = []
codes (String.◌∷◌ c s) = code c ∷ codes s

-- EXCLUDE
unfoldable pub exclude : List (List ℕ)
exclude =
    codes "abbr"
    ∷ codes "col"
    ∷ codes "vul"
    ∷ codes "vulg"
    ∷ codes "then"
    ∷ codes "and"
    ∷ codes "conj"
    ∷ codes "int"
    ∷ codes "pron"
    ∷ codes "suf"
    ∷ codes "syn"
    ∷ codes "ant"
    ∷ codes "from"
    ∷ codes "adv"
    ∷ codes "adj"
    ∷ codes "hon"
    ∷ codes "hum"
    ∷ codes "pol"
    ∷ codes "adj-na"
    ∷ codes "adj-no"
    ∷ codes "adj-pn"
    ∷ codes "v5aru"
    ∷ codes "v5b"
    ∷ codes "v5g"
    ∷ codes "v5k"
    ∷ codes "v5k-s"
    ∷ codes "v5m"
    ∷ codes "v5r"
    ∷ codes "v5s"
    ∷ codes "v5t"
    ∷ codes "v5u"
    ∷ codes "etc"
    ∷ []

-- Does a word stand in key, from its element `k` on?
unfoldable pub agrees : List ℕ → ℕ → (ℕ → ℕ) → Bool
agrees [] k key = true
agrees (c ∷ cs) k key = if c == key k then agrees cs (k + 1) key else false

-- The search of EXCLUDE: a word of length `p` that is the key's first `p` characters.
unfoldable pub excluded : List (List ℕ) → ℕ → (ℕ → ℕ) → Bool
excluded [] p key = false
excluded (w ∷ ws) p key = if length w == p && agrees w 0 key then true else excluded ws p key

-- The variables of the loop. `key` has keymax + 1 elements.
pub record Scan : Type 0 where
  pub p : ℕ
  pub start : ℕ
  pub key : ℕ → ℕ
  pub idx : List ℕ

abbrev pub add : Scan → Scan
add s = record s { idx = s.idx ++ (s.start ∷ []) }

-- A word has ended.
unfoldable pub enter : Scan → Scan
enter s =
    if ltb (s.key 0) 128
    then (if ltb 2 s.p then (if excluded exclude s.p s.key then s else add s) else s)
    else add s

-- The body of the loop at `i`, where `c` is data[i].
unfoldable pub advance : ℕ → ℕ → Scan → Scan
advance i c s =
    if s.p == 0
    then (if is_start c then record s { key = update s.key 0 c; p = 1; start = i } else s)
    else if is_cont c
    then record s { key = update s.key s.p c; p = if ltb s.p keymax then s.p + 1 else s.p }
    else record (enter s) { p = 0 }

-- The loop, with `left` characters to come.
unfoldable pub scan : ℕ → ℕ → (ℕ → ℕ) → Scan → Scan
scan zero i d s = s
scan (suc left) i d s = scan left (i + 1) d (advance i (d i) s)

-- The block that idx points to has room for this many; there is no check in the code.
abbrev pub idx_size : ℕ
idx_size = 1000000

-- The index; `none` is a write behind the block.
unfoldable pub build_index : ℕ → (ℕ → ℕ) → Option (List ℕ)
build_index dsz d =
    let idx = (scan dsz 0 d record { p = 0; start = 0; key = λ k. 0; idx = [] }).idx in
    if ltb idx_size (length idx) then none else some idx

-- One round of fixup: the new `first` where the character is skipped, and none where it is kept.
abbrev pub skips : Bool → ℕ → ℕ → Option Bool
skips first c next =
    if first && c == b'/' then some false else if next == 10 && c == b'/' then some true else none

unfoldable pub fixup_loop : ℕ → ℕ → ℕ → Bool → (ℕ → ℕ) → ℕ × (ℕ → ℕ)
fixup_loop zero i j first d = (j, d)
fixup_loop (suc left) i j first d = elim (skips first (d i) (d (i + 1))) [
  | some first' ↦ fixup_loop left (i + 1) j first' d
  | none ↦ fixup_loop left (i + 1) (j + 1) first (update d j (d i))
]

-- The new size, and the memory.
unfoldable pub fixup : ℕ → (ℕ → ℕ) → ℕ × (ℕ → ℕ)
fixup dsz d = fixup_loop dsz 0 0 true d

-- COMPARE's view of a character: katakana as hiragana, capitals as small letters.
unfoldable pub fold : ℕ → ℕ
fold a =
    let b = if leb 0x30a1 a && leb a 0x30f4 then a - 0x60 else a in
    if leb b'A' b && leb b b'Z' then b + 0x20 else b

-- The loop of COMPARE and the difference that it returns; `a` and `b` are those of the round before.
unfoldable pub compare_loop : ℕ → ℕ → ℕ → ℕ → ℕ → (ℕ → ℕ) → ℤ
compare_loop zero a b aptr bptr d = sub_ℕ a b
compare_loop (suc left) a b aptr bptr d =
    let a' = fold (d aptr) in
    let b' = fold (d bptr) in
    let rest = compare_loop left a' b' (aptr + 1) (bptr + 1) d in
    if a' == b' then rest else sub_ℕ a' b'

-- COMPARE, of two elements of the index
unfoldable pub compare_at : ℕ → ℕ → (ℕ → ℕ) → ℤ
compare_at aptr bptr d = compare_loop keymax 0 0 aptr bptr d

-- The loop of EJECT from `p` on: the characters that it passes. Nothing bounds it but the text, so it
-- is on fuel.
unfoldable pub eject_loop : ℕ → ℕ → (ℕ → ℕ) → Option (List ℕ)
eject_loop zero p d = none
eject_loop (suc fuel) p d =
    let rest = eject_loop fuel (p + 1) d in
    let c = d p in
    if leb 32 c && not (c == b')' || (c == b'[' || (c == b']' || (c == b',' || c == b'/'))))
    then with_char c rest
    else some []

-- What EJECT prints.
unfoldable pub eject : ℕ → ℕ → (ℕ → ℕ) → Option (List ℕ)
eject fuel x d = elim (eject_loop fuel (x + 1) d) [
  | none ↦ none
  | some cs ↦ some (write_utf8 (d x ∷ cs) ++ (10 ∷ []))
]

-- The first characters from `p` on.
abbrev pub chars : ℕ → ℕ → (ℕ → ℕ) → List ℕ
chars zero p d = []
chars (suc n) p d = d p ∷ chars n (p + 1) d

-- What main writes to the two files, for `dsz` characters: the index and the text. `qsort` is the host
-- library's.
unfoldable pub build : ((ℕ → ℕ → ℤ) → List ℕ → List ℕ) → ℕ → (ℕ → ℕ) → Option (List ℕ × List ℕ)
build qsort dsz d =
    let (size, d') = fixup dsz d in
    elim (build_index size d') [
      | none ↦ none
      | some idx ↦ some (qsort (λ a b. compare_at a b d') idx, chars size 0 d')
    ]
