-- ===== src/Libdl/Sym.antt =====
-- lib/libdl/sym.c. A symbol table is the list of its symbols with their names, memory is a function from
-- addresses to bytes, the least byte of a word first, and the chain that begins at `file` is a list. A relocation of a symbol
-- that is not in the table of its library is `wild`.
pub mod Words
pub mod Relocate
mod Tests
use frotznet.Prelude.{
  ℕ, zero, suc, ◌+◌, ◌-◌, ◌*◌, ◌/◌, ◌%◌, Bool, true, false, ◌&&◌, Option, none, some, List, [], ◌∷◌,
  ◌==◌, if◌then◌else◌, update, get_elem?,
}
use frotznet.Prelude.Int.{ℤ, pos, negsuc}

-- elf32_sym_t, with its name
pub record Symbol : Type 0 where
  pub name : List ℕ
  pub value : ℕ

-- lib_t; `hdr` is the address of the header.
pub record Lib : Type 0 where
  pub hdr : ℕ
  pub symtab : List Symbol
  pub dynsym : List Symbol

-- elf32_rel_t
pub record Rel : Type 0 where
  pub offset : ℕ
  pub info : ℕ

-- strcmp, as a test for equality
abbrev pub same_name : List ℕ → List ℕ → Bool
same_name [] [] = true
same_name [] (d ∷ ds) = false
same_name (c ∷ cs) [] = false
same_name (c ∷ cs) (d ∷ ds) = (c == d) && same_name cs ds

abbrev pub first_named : List ℕ → List Symbol → Option ℕ
first_named name [] = none
first_named name (s ∷ ss) = if same_name s.name name then some s.value else first_named name ss

abbrev pub address_in : ℕ → Option ℕ → ℕ → ℕ
address_in hdr none other = other
address_in hdr (some value) other = (hdr + value) % 0x100000000

-- _dlsym; 0 is NULL.
unfoldable pub dlsym : Lib → List ℕ → ℕ
dlsym lib symbol =
    address_in lib.hdr (first_named symbol lib.dynsym)
      (address_in lib.hdr (first_named symbol lib.symtab) 0)

abbrev pub value_or_0 : Option ℕ → ℕ
value_or_0 none = 0
value_or_0 (some value) = value

-- __dl_lookup_sym
unfoldable pub lookup_sym : Lib → List ℕ → ℕ
lookup_sym lib name = value_or_0 (first_named name lib.symtab)

-- The search along the chain. The first library, which is `file`, is not relocated.
unfoldable pub search_chain : Bool → List ℕ → List Lib → Option ℕ
unfolding lookup_sym
search_chain is_file name [] = none
search_chain is_file name (p ∷ ps) =
    let sym = lookup_sym p name in
    let rest = search_chain false name ps in
    if sym == 0 then rest else some (if is_file then sym else (sym + p.hdr) % 0x100000000)

-- The address of a name, in the library itself or else along the chain.
unfoldable pub resolve : Lib → List Lib → List ℕ → Option ℕ
unfolding lookup_sym search_chain
resolve lib chain name =
    let sym = lookup_sym lib name in
    let other = search_chain true name chain in
    if sym == 0 then other else some ((sym + lib.hdr) % 0x100000000)

-- R_386_32, R_386_PC32 and R_386_RELATIVE; other types leave the word.
unfoldable pub relocate : ℕ → ℕ → ℕ → ℕ → ℕ → ℕ
relocate type hdr sym address word =
    if type == 1
    then (word + sym) % 0x100000000
    else if type == 2
    then (word + sym + (0x100000000 - address)) % 0x100000000
    else if type == 8
    then (word + hdr) % 0x100000000
    else word % 0x100000000

-- A word of the memory, which may be at any address.
abbrev pub read_word : ℕ → (ℕ → ℕ) → ℕ
read_word a bytes =
    (bytes a + bytes (a + 1) * 0x100 + bytes (a + 2) * 0x10000 + bytes (a + 3) * 0x1000000)
    % 0x100000000

abbrev pub put_word : ℕ → ℕ → (ℕ → ℕ) → ℕ → ℕ
put_word a v bytes =
    update
      (update (update (update bytes a (v % 0x100)) (a + 1) (v / 0x100 % 0x100)) (a + 2)
        (v / 0x10000 % 0x100))
      (a + 3) (v / 0x1000000 % 0x100)

-- What __dl_patch_section does to the memory, and its result.
pub data Patched : Type 0 where
  done : (ℕ → ℕ) → Patched
  unresolved : (ℕ → ℕ) → Patched
  wild : Patched

-- What the symbol of a relocation comes to: `kept` if it has none.
pub data Target : Type 0 where
  kept : Target
  address : ℕ → Target
  unknown : Target
  no_entry : Target

abbrev pub target_of : Option ℕ → Target
target_of none = unknown
target_of (some a) = address a

abbrev pub target_named : Lib → List Lib → Option Symbol → Target
target_named lib chain none = no_entry
target_named lib chain (some s) = target_of (resolve lib chain s.name)

unfoldable pub target : Lib → List Lib → Rel → Target
unfolding resolve
target lib chain r =
    if r.info / 256 == 0 then kept else target_named lib chain (get_elem? lib.dynsym (r.info / 256))

abbrev pub word_at : Lib → Rel → ℕ
word_at lib r = (lib.hdr + r.offset) % 0x100000000

abbrev pub patched_word : Lib → Rel → ℕ → (ℕ → ℕ) → ℕ → ℕ
patched_word lib r sym words =
    let a = word_at lib r in
    put_word a (relocate (r.info % 256) lib.hdr sym a (read_word a words)) words

-- __dl_patch_section; `sym` is the local that keeps its value from one relocation to the next.
unfoldable pub patch_section : Lib → List Lib → ℕ → List Rel → (ℕ → ℕ) → Patched
unfolding target relocate
patch_section lib chain sym [] words = done words
patch_section lib chain sym (r ∷ rs) words = elim (target lib chain r) [
  | kept ↦ patch_section lib chain sym rs (patched_word lib r sym words)
  | address a ↦ patch_section lib chain a rs (patched_word lib r a words)
  | unknown ↦ unresolved words
  | no_entry ↦ wild
]

-- What __dl_patchup makes of the result for .rel.text: it goes on with .rel.data.
abbrev pub patch_data : Lib → List Lib → List Rel → Patched → Patched
patch_data lib chain data_rels (done words) = patch_section lib chain 0 data_rels words
patch_data lib chain data_rels (unresolved words) = unresolved words
patch_data lib chain data_rels wild = wild

-- __dl_patchup, given the relocations of the two sections.
unfoldable pub patchup : Lib → List Lib → List Rel → List Rel → (ℕ → ℕ) → Patched
unfolding patch_section
patchup lib chain text_rels data_rels words =
    patch_data lib chain data_rels (patch_section lib chain 0 text_rels words)
