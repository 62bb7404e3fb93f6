-- ===== src/Libdl/Sym/Relocate.antt =====
-- __dl_patch_section of lib/libdl/sym.c.
use frotznet.Prelude.{
  ℕ, ◌+◌, ◌<◌, ◌==◌, if◌then◌else◌, Bool-cases, ◌%◌, ◌≡◌, ◌≢◌, refl, sym, ap, ◌∙◌, subst, List, [],
  ◌∷◌, arith, ◌⊎◌, inl, inr,
}
use frotznet.Libdl.Sym.Words.{
  Outside, Apart, AllApart, Across, Agree, read_same, Across-Agree, Across-back, put-Agree,
  put_word_other, read-put_word,
}
use frotznet.Libdl.Sym.{
  read_word, Lib, Rel, relocate, done, Target, kept, address, unknown, no_entry, target, word_at,
  patched_word, patch_section, patch_data, patchup,
}

-- A relocation that can be done: its symbol is found, or it has none and needs none.
abbrev pub Found : Target → ℕ → Type 0
Found kept type = (type ≢ 1) × (type ≢ 2)
Found (address a) type = Unit
Found unknown type = ⊥
Found no_entry type = ⊥

abbrev pub AllFound : Lib → List Lib → List Rel → Type 0
AllFound lib chain [] = Unit
AllFound lib chain (r ∷ rs) = Found (target lib chain r) (r.info % 256) × AllFound lib chain rs

abbrev pub symbol_of : Target → ℕ
symbol_of (address a) = a
symbol_of _ = 0

-- What the ELF for i386 asks of a word at `a`, before and after, for the symbol at `s`, where the library is
-- at `hdr`: R_386_32, R_386_PC32 and R_386_RELATIVE; the other types are not done.
abbrev pub Asks : ℕ → ℕ → ℕ → ℕ → ℕ → ℕ → Type 0
Asks type hdr s a old new =
    if type == 1
    then (new ≡ (old + s) % 0x100000000)
    else if type == 2
    then ((new + a) % 0x100000000 ≡ (old + s) % 0x100000000)
    else if type == 8
    then (new ≡ (old + hdr) % 0x100000000)
    else (new ≡ old)

relocate-Asks :
    (type hdr s a w : ℕ)
    → a < 0x100000000
    → w < 0x100000000
    → Asks type hdr s a w (relocate type hdr s a w)
unfolding relocate
relocate-Asks type hdr s a w la lw = elim (Bool-cases (type == 1)) [
  | inl one ↦ rw (relocate, one, if◌then◌else◌) refl
  | inr e ↦ elim (Bool-cases (type == 2)) [
    | inl two ↦ rw (relocate, e, two, if◌then◌else◌) (omega arith)
    | inr f ↦ elim (Bool-cases (type == 8)) [
      | inl eight ↦ rw (relocate, e, f, eight, if◌then◌else◌) refl
      | inr g ↦ rw (relocate, e, f, g, if◌then◌else◌) (omega arith)
    ]
  ]
]

-- Without a symbol, the one of the relocation before does not matter.
no_symbol :
    (type hdr s a w : ℕ) → type ≢ 1 → type ≢ 2 → relocate type hdr s a w ≡ relocate type hdr 0 a w
unfolding relocate
no_symbol type hdr s a w h k = ground arith

relocate_fits : (type hdr s a w : ℕ) → relocate type hdr s a w < 0x100000000
unfolding relocate
relocate_fits type hdr s a w = ground arith

-- Each relocation's word is what its type asks for.
abbrev pub Relocated : Lib → List Lib → List Rel → (ℕ → ℕ) → (ℕ → ℕ) → Type 0
Relocated lib chain [] old new = Unit
Relocated lib chain (r ∷ rs) old new =
    let a = word_at lib r in
    Asks (r.info % 256) lib.hdr (symbol_of (target lib chain r)) a (read_word a old)
      (read_word a new)
    × Relocated lib chain rs old new

Relocated-frame :
    (lib : Lib) (chain : List Lib) (rs : List Rel) (old old' new : ℕ → ℕ)
    → Agree lib rs old' old
    → Relocated lib chain rs old' new
    → Relocated lib chain rs old new
Relocated-frame lib chain [] old old' new h r = tt
Relocated-frame lib chain (r ∷ rs) old old' new h p =
    let a = word_at lib r in
    (
      subst
          (λ (w : ℕ).
            Asks (r.info % 256) lib.hdr (symbol_of (target lib chain r)) a w (read_word a new))
          h.0 p.0,
      Relocated-frame lib chain rs old old' new h.1 p.1,
    )

Relocated-later :
    (lib : Lib) (chain : List Lib) (rs : List Rel) (old new new' : ℕ → ℕ)
    → Agree lib rs new new'
    → Relocated lib chain rs old new
    → Relocated lib chain rs old new'
Relocated-later lib chain [] old new new' h r = tt
Relocated-later lib chain (r ∷ rs) old new new' h p =
    let a = word_at lib r in
    (
      subst
          (λ (w : ℕ).
            Asks (r.info % 256) lib.hdr (symbol_of (target lib chain r)) a (read_word a old) w)
          h.0 p.0,
      Relocated-later lib chain rs old new new' h.1 p.1,
    )

-- What a run over the relocations comes to.
abbrev Result : Lib → List Lib → ℕ → List Rel → (ℕ → ℕ) → Type 0
Result lib chain s rs words =
    (new : ℕ → ℕ) × (patch_section lib chain s rs words ≡ done new)
    × Relocated lib chain rs words new
    × ((b : ℕ) → Outside lib rs b → new b ≡ words b)

prepend :
    (lib : Lib) (chain : List Lib) (s : ℕ) (r : Rel) (rs : List Rel) (words new : ℕ → ℕ)
    → (let a = word_at lib r in
        let type = r.info % 256 in
        relocate type lib.hdr s a (read_word a words)
        ≡ relocate type lib.hdr (symbol_of (target lib chain r)) a (read_word a words))
    → Apart lib rs (word_at lib r)
    → Relocated lib chain rs (patched_word lib r s words) new
    → ((b : ℕ) → Outside lib rs b → new b ≡ patched_word lib r s words b)
    → Relocated lib chain (r ∷ rs) words new × ((b : ℕ) → Outside lib (r ∷ rs) b → new b ≡ words b)
prepend lib chain s r rs words new e out rest frame =
    let a = word_at lib r in
    let type = r.info % 256 in
    let old = read_word a words in
    let t = symbol_of (target lib chain r) in
    let v = relocate type lib.hdr s a old in
    let is_v : read_word a new ≡ relocate type lib.hdr t a old =
      read_same lib rs a new (patched_word lib r s words) out frame
      ∙ read-put_word a v words (relocate_fits type lib.hdr s a old)
      ∙ e in
    (
      (
        subst (λ (w : ℕ). Asks type lib.hdr t a old w) (sym is_v)
            (relocate-Asks type lib.hdr t a old (omega arith) (omega arith)),
        Relocated-frame lib chain rs words (patched_word lib r s words) new
            (put-Agree lib rs a v words out) rest,
      ),
      λ b h. frame b h.1 ∙ put_word_other a v b words h.0,
    )

patch_kept :
    (lib : Lib) (chain : List Lib) (s : ℕ) (r : Rel) (rs : List Rel) (words : ℕ → ℕ)
    → target lib chain r ≡ kept
    → patch_section lib chain s (r ∷ rs) words
      ≡ patch_section lib chain s rs (patched_word lib r s words)
unfolding patch_section
patch_kept lib chain s r rs words e = rw (patch_section, e) refl

patch_address :
    (lib : Lib) (chain : List Lib) (s a : ℕ) (r : Rel) (rs : List Rel) (words : ℕ → ℕ)
    → target lib chain r ≡ address a
    → patch_section lib chain s (r ∷ rs) words
      ≡ patch_section lib chain a rs (patched_word lib r a words)
unfolding patch_section
patch_address lib chain s a r rs words e = rw (patch_section, e) refl

Target-cases :
    (t : Target) (type : ℕ)
    → Found t type
    → ((t ≡ kept) × (type ≢ 1) × (type ≢ 2)) ⊎ ((a : ℕ) × (t ≡ address a))
Target-cases kept type h = inl (refl, h.0, h.1)
Target-cases (address a) type h = inr (a, refl)
Target-cases unknown type h = absurd h
Target-cases no_entry type h = absurd h

patch-Result :
    (lib : Lib) (chain : List Lib) (s : ℕ) (rs : List Rel) (words : ℕ → ℕ)
    → AllFound lib chain rs
    → AllApart lib rs
    → Result lib chain s rs words
unfolding patch_section
patch-Result lib chain s [] words f d = (words, refl, tt, λ b h. refl)
patch-Result lib chain s (r ∷ rs) words f d =
    let type = r.info % 256 in
    elim (Target-cases (target lib chain r) type f.0) [
      | inl (e, one, two) ↦
          let ih = patch-Result lib chain s rs (patched_word lib r s words) f.1 d.1 in
          let here =
            no_symbol type lib.hdr s (word_at lib r) (read_word (word_at lib r) words) one two
            ∙ ap
                (λ t.
                  relocate type lib.hdr (symbol_of t) (word_at lib r)
                    (read_word (word_at lib r) words))
                (sym e) in
          let p = prepend lib chain s r rs words ih.0 here d.0 ih.2 ih.3 in
          (ih.0, patch_kept lib chain s r rs words e ∙ ih.1, p.0, p.1)
      | inr (a, e) ↦
          let ih = patch-Result lib chain a rs (patched_word lib r a words) f.1 d.1 in
          let here =
            ap
              (λ t.
                relocate type lib.hdr (symbol_of t) (word_at lib r)
                  (read_word (word_at lib r) words))
              (sym e) in
          let p = prepend lib chain a r rs words ih.0 here d.0 ih.2 ih.3 in
          (ih.0, patch_address lib chain s a r rs words e ∙ ih.1, p.0, p.1)
    ]

-- __dl_patchup, where the symbol of each relocation is found, those without a symbol are not of a type
-- that adds one, and the four bytes of no two relocations overlap: it succeeds, the word of each relocation
-- comes to be what the ELF asks for it by its own symbol, and every byte outside of these words is as
-- before.
pub patchup-Relocated :
    (lib : Lib) (chain : List Lib) (text_rels data_rels : List Rel) (words : ℕ → ℕ)
    → AllFound lib chain text_rels
    → AllFound lib chain data_rels
    → AllApart lib text_rels
    → AllApart lib data_rels
    → Across lib text_rels data_rels
    → (new : ℕ → ℕ) × (patchup lib chain text_rels data_rels words ≡ done new)
      × Relocated lib chain text_rels words new
      × Relocated lib chain data_rels words new
      × ((b : ℕ) → Outside lib text_rels b → Outside lib data_rels b → new b ≡ words b)
unfolding patchup
patchup-Relocated lib chain text_rels data_rels words f g d e apart =
    let first = patch-Result lib chain 0 text_rels words f d in
    let second = patch-Result lib chain 0 data_rels first.0 g e in
    let back = Across-back lib text_rels data_rels apart in
    (
      second.0,
      ap (patch_data lib chain data_rels) first.1 ∙ second.1,
      Relocated-later lib chain text_rels words first.0 second.0
          (Across-Agree lib text_rels data_rels first.0 second.0 apart (λ b h. sym (second.3 b h)))
          first.2,
      Relocated-frame lib chain data_rels words first.0 second.0
          (Across-Agree lib data_rels text_rels first.0 words back first.3) second.2,
      λ b h k. second.3 b k ∙ first.3 b h,
    )
