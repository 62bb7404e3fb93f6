-- ===== src/Hiptop/Tests.antt =====
-- Runs of write_utf8 (hiptop/dictionary/mkidx.c) and insert (hiptop/jp_im/map.c).
use frotznet.Prelude.{ℕ, ◌≡◌, refl, some, List, [], ◌∷◌, arith}
use frotznet.Hiptop.Utf8.{write_utf8, read_utf8, read-write_utf8}
use frotznet.Hiptop.KanaMap.{Rec}

-- A letter, a letter with an accent and a kana.
abbrev word : List ℕ
word = 0x61 ∷ 0xe9 ∷ 0x304b ∷ []

writes : write_utf8 word ≡ 0x61 ∷ 0xc3 ∷ 0xa9 ∷ 0xe3 ∷ 0x81 ∷ 0x8b ∷ []
unfolding write_utf8
writes = refl

read-write_utf8_example : read_utf8 0 0 0 (write_utf8 word) ≡ some word
read-write_utf8_example = read-write_utf8 word (λ c h. (ground arith, ground arith))

abbrev ka : Rec
ka = record { key = 0x6b61; a = 0x304b; b = 0; c = 0 }

abbrev two : List Rec
two =
    record { key = 0x6b61; a = 0x30ab; b = 0; c = 0 }
    ∷ record { key = 0x61; a = 0x3042; b = 0; c = 0 }
    ∷ []
