-- ===== src/Libdl/Sym/Words.antt =====
-- lib/libdl/sym.c: the words that relocations are of, as bytes of the memory.
use frotznet.Prelude.{
  ℕ, ◌+◌, ◌/◌, ◌<◌, ◌≤◌, update, ◌%◌, ◌≡◌, ◌≢◌, refl, ◌∙◌, List, [], ◌∷◌, arith, update_self,
  update_ne, ◌⊎◌, inl, inr,
}
use frotznet.Libdl.Sym.{read_word, put_word, Lib, Rel, word_at}

-- A byte outside of the words of some relocations, a word that overlaps none of them, and relocations whose
-- words do not overlap.
abbrev pub Outside : Lib → List Rel → ℕ → Type 0
Outside lib [] b = Unit
Outside lib (r ∷ rs) b = ((b < word_at lib r) ⊎ (word_at lib r + 4 ≤ b)) × Outside lib rs b

abbrev pub Apart : Lib → List Rel → ℕ → Type 0
Apart lib [] a = Unit
Apart lib (r ∷ rs) a = ((a + 4 ≤ word_at lib r) ⊎ (word_at lib r + 4 ≤ a)) × Apart lib rs a

abbrev pub AllApart : Lib → List Rel → Type 0
AllApart lib [] = Unit
AllApart lib (r ∷ rs) = Apart lib rs (word_at lib r) × AllApart lib rs

-- No word of the first relocations overlaps one of the second.
abbrev pub Across : Lib → List Rel → List Rel → Type 0
Across lib [] ds = Unit
Across lib (r ∷ rs) ds = Apart lib ds (word_at lib r) × Across lib rs ds

Apart-Outside :
    (lib : Lib) (rs : List Rel) (a i : ℕ) → i < 4 → Apart lib rs a → Outside lib rs (a + i)
Apart-Outside lib [] a i lt h = tt
Apart-Outside lib (r ∷ rs) a i lt h = (
  elim h.0 [ inl e ↦ inl (omega arith) | inr e ↦ inr (omega arith) ],
  Apart-Outside lib rs a i lt h.1,
)

Across-add :
    (lib : Lib) (r : Rel) (rs ds : List Rel)
    → Apart lib ds (word_at lib r)
    → Across lib ds rs
    → Across lib ds (r ∷ rs)
Across-add lib r rs [] h x = tt
Across-add lib r rs (d ∷ ds) h x = (
  (elim h.0 [ inl e ↦ inr (omega arith) | inr e ↦ inl (omega arith) ], x.0),
  Across-add lib r rs ds h.1 x.1,
)

Across-nil : (lib : Lib) (ds : List Rel) → Across lib ds []
Across-nil lib [] = tt
Across-nil lib (d ∷ ds) = (tt, Across-nil lib ds)

pub Across-back : (lib : Lib) (rs ds : List Rel) → Across lib rs ds → Across lib ds rs
Across-back lib [] ds x = Across-nil lib ds
Across-back lib (r ∷ rs) ds x = Across-add lib r rs ds x.0 (Across-back lib rs ds x.1)

-- Two memories have the same words for some relocations.
abbrev pub Agree : Lib → List Rel → (ℕ → ℕ) → (ℕ → ℕ) → Type 0
Agree lib [] m n = Unit
Agree lib (r ∷ rs) m n =
    (read_word (word_at lib r) m ≡ read_word (word_at lib r) n) × Agree lib rs m n

pub read_same :
    (lib : Lib) (ds : List Rel) (a : ℕ) (m n : ℕ → ℕ)
    → Apart lib ds a
    → ((b : ℕ) → Outside lib ds b → m b ≡ n b)
    → read_word a m ≡ read_word a n
read_same lib ds a m n h f =
    let zero_th = f (a + 0) (Apart-Outside lib ds a 0 (omega arith) h) in
    let here : m a ≡ n a = (let e : a + 0 ≡ a = omega arith in rw e at zero_th) in
    let one = f (a + 1) (Apart-Outside lib ds a 1 (omega arith) h) in
    let two = f (a + 2) (Apart-Outside lib ds a 2 (omega arith) h) in
    let three = f (a + 3) (Apart-Outside lib ds a 3 (omega arith) h) in
    rw (here, one, two, three) refl

pub Across-Agree :
    (lib : Lib) (rs ds : List Rel) (m n : ℕ → ℕ)
    → Across lib rs ds
    → ((b : ℕ) → Outside lib ds b → m b ≡ n b)
    → Agree lib rs m n
Across-Agree lib [] ds m n x f = tt
Across-Agree lib (r ∷ rs) ds m n x f =
    (read_same lib ds (word_at lib r) m n x.0 f, Across-Agree lib rs ds m n x.1 f)

pub read-put_word : (a v : ℕ) (m : ℕ → ℕ) → v < 0x100000000 → read_word a (put_word a v m) ≡ v
read-put_word a v m lt =
    let m1 = update m a (v % 0x100) in
    let m2 = update m1 (a + 1) (v / 0x100 % 0x100) in
    let m3 = update m2 (a + 2) (v / 0x10000 % 0x100) in
    let x = v / 0x1000000 % 0x100 in
    let b3 = update_self m3 (a + 3) x in
    let b2 : put_word a v m (a + 2) ≡ v / 0x10000 % 0x100 =
      update_ne m3 (a + 3) x (a + 2) (omega arith) ∙ update_self m2 (a + 2) (v / 0x10000 % 0x100) in
    let b1 : put_word a v m (a + 1) ≡ v / 0x100 % 0x100 =
      update_ne m3 (a + 3) x (a + 1) (omega arith)
      ∙ update_ne m2 (a + 2) (v / 0x10000 % 0x100) (a + 1) (omega arith)
      ∙ update_self m1 (a + 1) (v / 0x100 % 0x100) in
    let b0 : put_word a v m a ≡ v % 0x100 =
      update_ne m3 (a + 3) x a (omega arith)
      ∙ update_ne m2 (a + 2) (v / 0x10000 % 0x100) a (omega arith)
      ∙ update_ne m1 (a + 1) (v / 0x100 % 0x100) a (omega arith)
      ∙ update_self m a (v % 0x100) in
    omega (arith, b0, b1, b2, b3)

pub put_word_other : (a v b : ℕ) (m : ℕ → ℕ) → (b < a) ⊎ (a + 4 ≤ b) → put_word a v m b ≡ m b
put_word_other a v b m h =
    let far : (i : ℕ) → i < 4 → a + i ≢ b =
      λ i lt e. elim h [ inl low ↦ absurd (omega arith) | inr high ↦ absurd (omega arith) ] in
    let m1 = update m a (v % 0x100) in
    let m2 = update m1 (a + 1) (v / 0x100 % 0x100) in
    let m3 = update m2 (a + 2) (v / 0x10000 % 0x100) in
    let first : a ≢ b = λ e. far 0 (omega arith) (omega arith) in
    update_ne m3 (a + 3) (v / 0x1000000 % 0x100) b (far 3 (omega arith))
    ∙ update_ne m2 (a + 2) (v / 0x10000 % 0x100) b (far 2 (omega arith))
    ∙ update_ne m1 (a + 1) (v / 0x100 % 0x100) b (far 1 (omega arith))
    ∙ update_ne m a (v % 0x100) b first

-- A write of a word leaves those that do not overlap it.
pub put-Agree :
    (lib : Lib) (rs : List Rel) (a v : ℕ) (m : ℕ → ℕ)
    → Apart lib rs a
    → Agree lib rs (put_word a v m) m
put-Agree lib [] a v m h = tt
put-Agree lib (r ∷ rs) a v m h =
    let b = word_at lib r in
    let clear : (i : ℕ) → i < 4 → (b + i < a) ⊎ (a + 4 ≤ b + i) =
      λ i lt. elim h.0 [ inl e ↦ inr (omega arith) | inr e ↦ inl (omega arith) ] in
    let start : (b < a) ⊎ (a + 4 ≤ b) = elim h.0 [
      | inl e ↦ inr (omega arith)
      | inr e ↦ inl (omega arith)
    ] in
    let here = put_word_other a v b m start in
    let one = put_word_other a v (b + 1) m (clear 1 (omega arith)) in
    let two = put_word_other a v (b + 2) m (clear 2 (omega arith)) in
    let three = put_word_other a v (b + 3) m (clear 3 (omega arith)) in
    (omega (arith, here, one, two, three), put-Agree lib rs a v m h.1)
