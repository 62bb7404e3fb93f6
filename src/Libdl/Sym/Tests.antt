-- ===== src/Libdl/Sym/Tests.antt =====
-- A run of __dl_patchup of lib/libdl/sym.c: a library at 0x1000 with a symbol f, and a program with g.
use frotznet.Prelude.{inl, ℕ, ◌≡◌, refl, some, List, [], ◌∷◌, arith}
use frotznet.Libdl.Sym.{
  Lib, Symbol, Rel, done, resolve, lookup_sym, search_chain, target, patchup, dlsym,
}
use frotznet.Libdl.Sym.Words.{Outside}
use frotznet.Libdl.Sym.Relocate.{Relocated, patchup-Relocated}

abbrev f : Symbol
f = record { name = b'f' ∷ []; value = 0x20 }

abbrev g : Symbol
g = record { name = b'g' ∷ []; value = 0x8000 }

abbrev nameless : Symbol
nameless = record { name = []; value = 0 }

abbrev library : Lib
library = record {
  hdr = 0x1000;
  symtab = f ∷ [];
  dynsym = nameless ∷ f ∷ record g { value = 0 } ∷ [];
}

abbrev chain : List Lib
chain = record { hdr = 0x400000; symtab = g ∷ []; dynsym = [] } ∷ []

-- A word with f, and one with the distance of g.
abbrev text_rels : List Rel
text_rels = record { offset = 0x100; info = 0x101 } ∷ []

abbrev data_rels : List Rel
data_rels = record { offset = 0x200; info = 0x202 } ∷ []

abbrev memory : ℕ → ℕ
memory a = 4

in_the_library : resolve library chain f.name ≡ some 0x1020
unfolding resolve lookup_sym search_chain
in_the_library = refl

in_the_program : resolve library chain g.name ≡ some 0x8000
unfolding resolve lookup_sym search_chain
in_the_program = refl

by_name : dlsym library f.name ≡ 0x1020
unfolding dlsym
by_name = refl

patchup-Relocated_example :
    (new : ℕ → ℕ) × (patchup library chain text_rels data_rels memory ≡ done new)
    × Relocated library chain text_rels memory new
    × Relocated library chain data_rels memory new
    × ((b : ℕ) → Outside library text_rels b → Outside library data_rels b → new b ≡ 4)
unfolding target resolve lookup_sym search_chain
patchup-Relocated_example =
    patchup-Relocated library chain text_rels data_rels memory (tt, tt) (tt, tt) (tt, tt) (tt, tt)
      ((inl (omega arith), tt), tt)
