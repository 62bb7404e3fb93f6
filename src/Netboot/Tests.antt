-- ===== src/Netboot/Tests.antt =====
-- Runs of netboot.c: a block that is loaded, an address and a command that are typed.
use frotznet.Prelude.{
  ℕ, ◌+◌, ◌<◌, ◌≡◌, refl, false, none, some, List, [], ◌∷◌, arith, if◌then◌else◌, length,
}
use frotznet.Netboot.Packets.{Arp, Packet, Loader, netboot_base, words, ipchksum, ack_ip}
use frotznet.Netboot.Checksum.{ack_ip-checks}
use frotznet.Netboot.Loads.{receive_all, acked, blocks, in_blocks, receive_all-loads}
use frotznet.Netboot.Prompt.{Prompt, skip, parse, console}
use frotznet.Netboot.Prompt.Safe.{console-stays_within}
use frotznet.Netboot.Prompt.Address.{dotted, parse-dotted}

-- The bytes 10.10.10.10
abbrev tens : List ℕ
tens = 10 ∷ 10 ∷ 10 ∷ 10 ∷ []

abbrev loader : Loader
loader = record {
  ip = tens;
  ip_pointer = 3 ∷ 0 ∷ 9 ∷ 0 ∷ [];
  prom = [];
  got_ip = false;
  reset = false;
  got_server = false;
  server_ip = 0 ∷ 0 ∷ 0 ∷ 0 ∷ [];
  server_mac = [];
  id = 1;
  memory = λ a. 0;
  sent = [];
  started = none;
}

ack_ip-checks_example : ipchksum (words (ack_ip loader)) ≡ 0
ack_ip-checks_example = ack_ip-checks loader (omega arith) (omega arith)

-- The program has its own addresses for bytes.
abbrev image : ℕ → ℕ
image a = a

abbrev no_arp : Arp
no_arp = record {
  hard_type = 0;
  prot_type = 0;
  hard_size = 0;
  prot_size = 0;
  op = 0;
  enet_sender = [];
  ip_sender = [];
  enet_target = [];
  ip_target = [];
}

-- Block 2, to port 4242.
abbrev second : Packet
second = record {
  ether = record { dst = []; src = []; type = 8 };
  arp = no_arp;
  ip = record {
    hdr_len = 5;
    version = 4;
    tos = 0;
    len = 0;
    id = 0;
    off = 0;
    ttl = 0;
    proto = 17;
    chk = 55974;
    src = 0 ∷ 0 ∷ 0 ∷ 0 ∷ [];
    dst = tens;
  };
  udp = record { udp_src = 0; udp_dst = 0x9210; udp_len = 0; udp_chk = 0 };
  boot = record { cmd = 0x100; blk = 0x200; bytes = λ i. 2048 + i };
}

checked : ipchksum (words second.ip) ≡ 0
unfolding ipchksum
checked = refl

receive_all-loads_example :
    let l' = receive_all 0 (second ∷ []) loader in
    ((a : ℕ) → l'.memory (netboot_base + a) ≡ (if in_blocks (second ∷ []) a then image a else 0))
    × ((a : ℕ) → a < netboot_base → l'.memory a ≡ 0)
    × (acked l'.sent ≡ blocks (second ∷ []) [])
receive_all-loads_example = receive_all-loads 0 image (second ∷ []) loader (
  record {
    type = refl;
    addressed = refl;
    checked = checked;
    proto = refl;
    port = refl;
    cmd = refl;
    block = λ i lt. refl;
  },
  tt,
)

-- "go", and more codes than the line has columns.
abbrev prompt : Prompt
prompt = record { linebuf = λ i. 0; lp = 0; shift = false; param = []; ip = tens }

console-stays_within_example :
    (q : Prompt) × (console (34 ∷ 24 ∷ 28 ∷ []) prompt ≡ some q) × (length q.param < 80)
console-stays_within_example = console-stays_within (34 ∷ 24 ∷ 28 ∷ []) prompt (omega arith)

parse-dotted_example :
    parse (b'i' ∷ b'p' ∷ b'=' ∷ dotted 128 174 38 207) skip tens ≡ 128 ∷ 174 ∷ 38 ∷ 207 ∷ []
parse-dotted_example =
    parse-dotted 128 174 38 207 10 10 10 10 (omega arith) (omega arith) (omega arith) (omega arith)
