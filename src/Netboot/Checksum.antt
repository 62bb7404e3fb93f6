-- ===== src/Netboot/Checksum.antt =====
-- ipchksum of netboot.c: a header that is sent passes the test of the one who receives it.
use frotznet.Prelude.{
  ℕ, suc, ◌+◌, ◌*◌, ◌-◌, ◌%◌, ◌≤◌, ◌<◌, ◌≡◌, ap, List, [], ◌∷◌, ◌++◌, arith, ltb, Bool-cases, inl,
  inr,
}
use frotznet.Netboot.Packets.{Ip, Loader, words, pairs, sum_words, ipchksum, ack_ip}

abbrev pub total : List ℕ → ℕ
total [] = 0
total (w ∷ ws) = w + total ws

-- Each number is less than a bound.
abbrev pub AllBelow : ℕ → List ℕ → Type 0
AllBelow n [] = Unit {0}
AllBelow n (w ∷ ws) = (w < n) × AllBelow n ws

-- The sum of the loop: within 16 bits, zero only if all is, and equal to the total up to 0xffff.
record Folded (t r : ℕ) : Type 0 where
  small : r ≤ 0xffff
  positive : 0 < t → 0 < r
  carries : ℕ
  equal : t ≡ r + carries * 0xffff

sum_words-Folded :
    (ws : List ℕ) (s : ℕ)
    → AllBelow 0x10000 ws
    → s ≤ 0xffff
    → Folded (s + total ws) (sum_words ws s)
unfolding sum_words
sum_words-Folded [] s h le = record {
  small = le;
  positive = λ p. omega arith;
  carries = 0;
  equal = omega arith;
}
sum_words-Folded (w ∷ ws) s (lt, h) le = elim (Bool-cases (ltb 0xffff (s + w))) [
  | inl over ↦
      let f = sum_words-Folded ws (s + w - 0xffff) h (ground arith) in
      rw over (record {
        small = f.small;
        positive = λ p. f.positive (ground arith);
        carries = suc f.carries;
        equal = ground (arith, f.equal);
      })
  | inr fits ↦
      let f = sum_words-Folded ws (s + w) h (ground arith) in
      rw fits (record {
        small = f.small;
        positive = λ p. f.positive (omega arith);
        carries = f.carries;
        equal = omega (arith, f.equal);
      })
]

-- Two sums, of which the second has what the first lacks to 0xffff.
ipchksum-zero :
    (ws vs : List ℕ)
    → AllBelow 0x10000 ws
    → AllBelow 0x10000 vs
    → total vs ≡ total ws + ipchksum ws
    → ipchksum vs ≡ 0
unfolding ipchksum
ipchksum-zero ws vs h k e =
    let f = sum_words-Folded ws 0 h (omega arith) in
    let g = sum_words-Folded vs 0 k (omega arith) in
    let whole : sum_words vs 0 ≡ 0xffff =
      omega (arith, f.small, f.equal, f.positive, g.small, g.equal, g.positive, e) in
    ap (λ r. 0xffff - r % 0x10000) whole

ipchksum-lt : (ws : List ℕ) → ipchksum ws < 0x10000
unfolding ipchksum
ipchksum-lt ws = omega arith

pairs-AllBelow : (bs : List ℕ) → AllBelow 256 bs → AllBelow 0x10000 (pairs bs)
pairs-AllBelow [] h = tt
pairs-AllBelow (a ∷ []) h = tt
pairs-AllBelow (a ∷ b ∷ bs) (p, (q, h)) = (omega arith, pairs-AllBelow bs h)

AllBelow-append : (n : ℕ) (xs ys : List ℕ) → AllBelow n xs → AllBelow n ys → AllBelow n (xs ++ ys)
AllBelow-append n [] ys h k = k
AllBelow-append n (x ∷ xs) ys (p, h) k = (p, AllBelow-append n xs ys h k)

-- An acknowledgement passes the test of handle_ip where it arrives: the checksum over its header, with the
-- checksum that was put into it, is 0.
pub ack_ip-checks :
    (l : Loader)
    → AllBelow 256 l.ip_pointer
    → AllBelow 256 l.server_ip
    → ipchksum (words (ack_ip l)) ≡ 0
ack_ip-checks l p q =
    let blank : Ip = record (ack_ip l) { chk = 0 } in
    let addresses =
      AllBelow-append 0x10000 (pairs l.ip_pointer) (pairs l.server_ip)
        (pairs-AllBelow l.ip_pointer p) (pairs-AllBelow l.server_ip q) in
    let low = ipchksum-lt (words blank) in
    ipchksum-zero (words blank) (words (ack_ip l))
      (
        omega arith,
        (omega arith, (omega arith, (omega arith, (omega arith, (omega arith, addresses))))),
      )
      (omega arith, (omega arith, (omega arith, (omega arith, (omega arith, (low, addresses))))))
      (omega arith)
