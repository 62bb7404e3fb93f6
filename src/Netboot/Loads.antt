-- ===== src/Netboot/Loads.antt =====
-- A program that netboot.c loads over the network, block by block.
use frotznet.Prelude.{
  ℕ, ◌+◌, ◌*◌, ◌-◌, ◌<◌, ◌≡◌, refl, sym, ap, ◌∙◌, subst, Bool, true, false, ◌&&◌, ◌||◌, List, [],
  ◌∷◌, arith, ◌==◌, ltb, leb, if◌then◌else◌, Bool-cases, inl, inr,
}
use frotznet.Netboot.Packets.{
  Packet, Sent, arp_packet, netboot_packet, Loader, ip_proto_udp, cmd_load, cmd_ack, netboot_port,
  netboot_base, ntohs, same_bytes, words, ipchksum, copy_block, receive,
}

-- A packet for this loader that carries a block of a program.
pub record IsLoad (ip : List ℕ) (image : ℕ → ℕ) (p : Packet) : Type 0 where
  pub type : p.ether.type ≡ 8
  pub addressed : same_bytes p.ip.dst ip ≡ true
  pub checked : ipchksum (words p.ip) ≡ 0
  pub proto : p.ip.proto ≡ ip_proto_udp
  pub port : ntohs p.udp.udp_dst ≡ netboot_port
  pub cmd : ntohs p.boot.cmd ≡ cmd_load
  pub block : (i : ℕ) → i < 1024 → p.boot.bytes i ≡ image (ntohs p.boot.blk * 1024 + i)

abbrev pub AllLoad : List ℕ → (ℕ → ℕ) → List Packet → Type 0
AllLoad ip image [] = Unit {0}
AllLoad ip image (p ∷ ps) = IsLoad ip image p × AllLoad ip image ps

-- The packets, as they come.
unfoldable pub receive_all : ℕ → List Packet → Loader → Loader
receive_all entry [] l = l
receive_all entry (p ∷ ps) l = receive_all entry ps (receive entry p l)

-- A byte of the program lies in the block of a packet, or of one among many.
abbrev pub in_block : Packet → ℕ → Bool
in_block p a = leb (ntohs p.boot.blk * 1024) a && ltb a (ntohs p.boot.blk * 1024 + 1024)

abbrev pub in_blocks : List Packet → ℕ → Bool
in_blocks [] a = false
in_blocks (p ∷ ps) a = in_block p a || in_blocks ps a

-- The blocks that have been acknowledged, the last one first.
abbrev pub acked : List Sent → List ℕ
acked [] = []
acked (arp_packet e a ∷ ss) = acked ss
acked (netboot_packet e i u cmd blk ∷ ss) =
    if ntohs cmd == cmd_ack then blk ∷ acked ss else acked ss

abbrev pub blocks : List Packet → List ℕ → List ℕ
blocks [] done = done
blocks (p ∷ ps) done = blocks ps (p.boot.blk ∷ done)

-- What a load leaves.
record Loads (p : Packet) (l l' : Loader) : Type 0 where
  memory : l'.memory ≡ copy_block (ntohs p.boot.blk * 1024 + netboot_base) p.boot.bytes l.memory
  ip : l'.ip ≡ l.ip
  acks : acked l'.sent ≡ p.boot.blk ∷ acked l.sent

receive-Loads :
    (entry : ℕ) (image : ℕ → ℕ) (p : Packet) (l : Loader)
    → IsLoad l.ip image p
    → Loads p l (receive entry p l)
unfolding receive
receive-Loads entry image p l h = elim (Bool-cases l.got_server) [
  | inl known ↦
      rw (h.type, h.addressed, h.checked, h.proto, h.port, h.cmd, known)
        (record { memory = refl; ip = refl; acks = refl })
  | inr new ↦
      rw (h.type, h.addressed, h.checked, h.proto, h.port, h.cmd, new)
        (record { memory = refl; ip = refl; acks = refl })
]

copied :
    (image : ℕ → ℕ) (p : Packet) (memory : ℕ → ℕ) (a : ℕ)
    → ((i : ℕ) → i < 1024 → p.boot.bytes i ≡ image (ntohs p.boot.blk * 1024 + i))
    → copy_block (ntohs p.boot.blk * 1024 + netboot_base) p.boot.bytes memory (netboot_base + a)
      ≡ (if in_block p a then image a else memory (netboot_base + a))
copied image p memory a h = elim (Bool-cases (in_block p a)) [
  | inl inside ↦
      let from = ntohs p.boot.blk * 1024 in
      let w : leb (from + netboot_base) (netboot_base + a)
            && ltb (netboot_base + a) (from + netboot_base + 1024)
          ≡ true =
        ground arith in
      let at : from + (a - from) ≡ a = ground arith in
      let i : netboot_base + a - (from + netboot_base) ≡ a - from = ground arith in
      rw (inside, w, i) (h (a - from) (ground arith) ∙ ap image at)
  | inr outside ↦
      let from = ntohs p.boot.blk * 1024 in
      let w : leb (from + netboot_base) (netboot_base + a)
            && ltb (netboot_base + a) (from + netboot_base + 1024)
          ≡ false =
        ground arith in
      rw (outside, w) refl
]

below :
    (p : Packet) (memory : ℕ → ℕ) (a : ℕ)
    → a < netboot_base
    → copy_block (ntohs p.boot.blk * 1024 + netboot_base) p.boot.bytes memory a ≡ memory a
below p memory a lt =
    let w : leb (ntohs p.boot.blk * 1024 + netboot_base) a ≡ false = ground arith in rw w refl

-- The packets of a load, in any order and as often as they come, leave the program in memory: from the
-- base on, each byte in a block that came is that of the program, and each other byte is as before, as is
-- all memory below the base. Each packet is acknowledged with its block.
pub receive_all-loads :
    (entry : ℕ) (image : ℕ → ℕ) (ps : List Packet) (l : Loader)
    → AllLoad l.ip image ps
    → let l' = receive_all entry ps l in
      ((a : ℕ)
        → l'.memory (netboot_base + a)
          ≡ (if in_blocks ps a then image a else l.memory (netboot_base + a)))
      × ((a : ℕ) → a < netboot_base → l'.memory a ≡ l.memory a)
      × (acked l'.sent ≡ blocks ps (acked l.sent))
unfolding receive_all
receive_all-loads entry image [] l h = (λ a. refl, λ a lt. refl, refl)
receive_all-loads entry image (p ∷ ps) l (h, hs) =
    let k = receive entry p l in
    let step = receive-Loads entry image p l h in
    let (inside, low, acks) =
      receive_all-loads entry image ps k (subst (λ ip. AllLoad ip image ps) (sym step.ip) hs) in
    (
      λ a.
          inside a
          ∙ joined p ps image a (k.memory (netboot_base + a)) (l.memory (netboot_base + a)) (
              ap (λ (m : ℕ → ℕ). m (netboot_base + a)) step.memory
              ∙ copied image p l.memory a h.block),
      λ a lt. low a lt ∙ ap (λ (m : ℕ → ℕ). m a) step.memory ∙ below p l.memory a lt,
      acks ∙ ap (blocks ps) step.acks,
    )
  where
    joined :
        (p : Packet) (ps : List Packet) (image : ℕ → ℕ) (a x y : ℕ)
        → x ≡ (if in_block p a then image a else y)
        → (if in_blocks ps a then image a else x)
          ≡ (if in_block p a || in_blocks ps a then image a else y)
    joined p ps image a x y e = ground arith
