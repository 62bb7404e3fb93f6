-- ===== src/Libc/Snprintf/Tests.antt =====
-- Runs of va_snprintf in snprintf.c.
use frotznet.Prelude.{ℕ, ◌≡◌, ◌≤◌, refl, List, [], ◌∷◌, arith, length}
use frotznet.Libc.Snprintf.{Arg, word, text, decimal, directive, print, signed, written, snprintf}
use frotznet.Libc.Snprintf.Numbers.{read_decimal, read_int, read-decimal}
use frotznet.Libc.Snprintf.Calls.{snprintf-Short}

-- "n=%d%s" of -42 and "ok"
abbrev format : List ℕ
format = b'n' ∷ b'=' ∷ b'%' ∷ b'd' ∷ b'%' ∷ b's' ∷ []

abbrev arguments : List Arg
arguments = word 0xffffffd6 ∷ text (b'o' ∷ b'k' ∷ []) ∷ []

prints :
    snprintf 20 format arguments ≡ written (b'n' ∷ b'=' ∷ b'-' ∷ b'4' ∷ b'2' ∷ b'o' ∷ b'k' ∷ [])
unfolding snprintf print directive decimal
prints = refl

-- A text as long as the buffer fills it, and the NUL comes after its end.
fills_the_buffer : snprintf 2 (b'n' ∷ b'=' ∷ []) [] ≡ written (b'n' ∷ b'=' ∷ [])
unfolding snprintf print
fills_the_buffer = refl

snprintf-Short_example :
    (out : List ℕ) × (snprintf 6 format arguments ≡ written out) × (length out ≤ 6)
snprintf-Short_example = snprintf-Short 6 format arguments (omega arith) refl

read-decimal_example :
    (read_decimal 0 (decimal 10 4000000000 []) ≡ 4000000000)
    × (read_int (signed 4000000000) ≡ 4000000000)
read-decimal_example = read-decimal 4000000000 (omega arith)
