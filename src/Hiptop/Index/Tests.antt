-- ===== src/Hiptop/Index/Tests.antt =====
-- Runs of the parts of hiptop/dictionary/mkidx.c on small texts.
use frotznet.Prelude.{
  ltb, none, if◌then◌else◌, ℕ, ◌≡◌, refl, some, List, [], ◌∷◌, ◌++◌, arith, length, get_or,
}
use frotznet.Prelude.Int.{pos}
use frotznet.Hiptop.Index.{
  idx_size, codes, exclude, is_start, is_cont, build_index, fixup, compare_at, compare_loop, fold,
  eject, eject_loop,
}
use frotznet.Hiptop.Utf8.{write_utf8}
use frotznet.Hiptop.Index.Lines.{Holds, Line, text, trimmed, join, fixup-Holds}
use frotznet.Hiptop.Index.Words.{Token, Tokens, texts, places, build_index-places}
use frotznet.Hiptop.Index.Order.{IsOrder, compare_at-IsOrder}

abbrev lines : List Line
lines =
    record { head = codes "a [b] "; gloss = codes "cat/dog" }
    ∷ record { head = codes "c "; gloss = codes "" }
    ∷ []

abbrev memory_of : List ℕ → ℕ → ℕ
memory_of xs k = get_or xs k 7

fixup-Holds_example :
    ((fixup (length (join text lines)) (memory_of (join text lines))).0
      ≡ length (join trimmed lines))
    × Holds
        (fixup (length (join text lines)) (memory_of (join text lines))).1
        0
        (join trimmed lines)
fixup-Holds_example =
    fixup-Holds lines 7 (memory_of (join text lines)) ((refl, refl), ((refl, refl), tt))
      (ground arith)

-- "the cat, adv 1 カ)": "adv" is excluded, and the katakana is a word of one character.
abbrev words : List Token
words =
    record { gap = []; first = b't'; others = codes "he"; stop = b' ' }
    ∷ record { gap = codes " "; first = b'c'; others = codes "at"; stop = b',' }
    ∷ record { gap = codes " "; first = b'a'; others = codes "dv"; stop = b' ' }
    ∷ record { gap = codes "1 "; first = 0x30ab; others = []; stop = b')' }
    ∷ []

abbrev phrase : List ℕ
phrase = texts words ++ (codes " " ++ codes "end")

words-Tokens : Tokens words
unfolding is_start is_cont
words-Tokens = (
  record { gap = tt; first = refl; others = (refl, (refl, tt)); stop = refl },
  (
    record { gap = (refl, tt); first = refl; others = (refl, (refl, tt)); stop = refl },
    (
      record { gap = (refl, tt); first = refl; others = (refl, (refl, tt)); stop = refl },
      (record { gap = (refl, (refl, tt)); first = refl; others = tt; stop = refl }, tt),
    ),
  ),
)

build_index-places_example :
    build_index (length phrase) (memory_of phrase)
    ≡ (if ltb idx_size (length (places 0 words)) then none else some (places 0 words))
unfolding is_start is_cont
build_index-places_example =
    build_index-places words (codes " ") (codes "end") (memory_of phrase) words-Tokens (refl, tt)
      (refl, (refl, (refl, tt))) (ground arith)

places_of_words : places 0 words ≡ 0 ∷ 5 ∷ 16 ∷ []
unfolding exclude
places_of_words = refl

compare_at-IsOrder_example : IsOrder (memory_of phrase) (λ a b. compare_at a b (memory_of phrase))
compare_at-IsOrder_example = compare_at-IsOrder (memory_of phrase)

-- Where two keys part, the difference of the characters, "the cat" and "cat".
compared : compare_at 0 5 (memory_of phrase) ≡ pos 17
unfolding compare_at compare_loop fold
compared = refl

ejected : eject 9 5 (memory_of phrase) ≡ some (codes "cat" ++ (10 ∷ []))
unfolding eject eject_loop write_utf8
ejected = refl
