-- ===== src/Netboot/Packets.antt =====
-- netboot.c: the handlers of packets. A packet is read through the structs that the code casts it to; an
-- address is the list of its bytes. A number of 16 bits is as the processor reads it, with the first byte
-- low, and ntohs swaps its bytes. What the card sends is a list, the last packet first.
use frotznet.Prelude.{
  ℕ, ◌+◌, ◌*◌, ◌-◌, ◌/◌, ◌%◌, Bool, true, false, not, ◌&&◌, ◌||◌, Option, some, List, [], ◌∷◌, ◌++◌,
  ◌==◌, ltb, leb, if◌then◌else◌,
}

-- net_ether
pub record Ether : Type 0 where
  pub dst : List ℕ
  pub src : List ℕ
  pub type : ℕ

-- net_arp
pub record Arp : Type 0 where
  pub hard_type : ℕ
  pub prot_type : ℕ
  pub hard_size : ℕ
  pub prot_size : ℕ
  pub op : ℕ
  pub enet_sender : List ℕ
  pub ip_sender : List ℕ
  pub enet_target : List ℕ
  pub ip_target : List ℕ

-- net_ip
pub record Ip : Type 0 where
  pub hdr_len : ℕ
  pub version : ℕ
  pub tos : ℕ
  pub len : ℕ
  pub id : ℕ
  pub off : ℕ
  pub ttl : ℕ
  pub proto : ℕ
  pub chk : ℕ
  pub src : List ℕ
  pub dst : List ℕ

-- net_udp
pub record Udp : Type 0 where
  pub udp_src : ℕ
  pub udp_dst : ℕ
  pub udp_len : ℕ
  pub udp_chk : ℕ

-- net_boot
pub record Boot : Type 0 where
  pub cmd : ℕ
  pub blk : ℕ
  pub bytes : ℕ → ℕ

-- A packet that is received, through each struct.
pub record Packet : Type 0 where
  pub ether : Ether
  pub arp : Arp
  pub ip : Ip
  pub udp : Udp
  pub boot : Boot

-- A packet that is sent: arp_packet, or netboot_packet up to blk.
pub data Sent : Type 0 where
  arp_packet : Ether → Arp → Sent
  netboot_packet : Ether → Ip → Udp → ℕ → ℕ → Sent

-- The globals, and the memory. `ip_pointer` is the bytes of the variable `ip`, which points to the address.
-- `started` is where the code was entered.
pub record Loader : Type 0 where
  pub ip : List ℕ
  pub ip_pointer : List ℕ
  pub prom : List ℕ
  pub got_ip : Bool
  pub reset : Bool
  pub got_server : Bool
  pub server_ip : List ℕ
  pub server_mac : List ℕ
  pub id : ℕ
  pub memory : ℕ → ℕ
  pub sent : List Sent
  pub started : Option ℕ

abbrev pub arp_op_request : ℕ
arp_op_request = 1

abbrev pub arp_op_reply : ℕ
arp_op_reply = 2

abbrev pub rarp_op_reply : ℕ
rarp_op_reply = 4

abbrev pub ip_proto_udp : ℕ
ip_proto_udp = 17

abbrev pub cmd_load : ℕ
cmd_load = 1

abbrev pub cmd_exec : ℕ
cmd_exec = 2

abbrev pub cmd_ack : ℕ
cmd_ack = 3

abbrev pub netboot_port : ℕ
netboot_port = 4242

abbrev pub netboot_base : ℕ
netboot_base = 0x100000

-- ntohs and htons
abbrev pub ntohs : ℕ → ℕ
ntohs n = n / 256 % 256 + n % 256 * 256

-- memcmp of addresses, as a test for equality
abbrev pub same_bytes : List ℕ → List ℕ → Bool
same_bytes [] [] = true
same_bytes [] (b ∷ bs) = false
same_bytes (a ∷ as') [] = false
same_bytes (a ∷ as') (b ∷ bs) = (a == b) && same_bytes as' bs

-- Two bytes of an address, as the checksum reads them.
abbrev pub pairs : List ℕ → List ℕ
pairs [] = []
pairs (a ∷ []) = []
pairs (a ∷ b ∷ bs) = (a + b * 256) ∷ pairs bs

-- The ten words of an IP header.
abbrev pub words : Ip → List ℕ
words h =
    (h.hdr_len + h.version * 16 + h.tos * 256)
    ∷ h.len
    ∷ h.id
    ∷ h.off
    ∷ (h.ttl + h.proto * 256)
    ∷ h.chk
    ∷ (pairs h.src ++ pairs h.dst)

-- The loop of ipchksum.
unfoldable pub sum_words : List ℕ → ℕ → ℕ
sum_words [] sum = sum
sum_words (w ∷ ws) sum = sum_words ws (if ltb 0xffff (sum + w) then sum + w - 0xffff else sum + w)

-- ipchksum
unfoldable pub ipchksum : List ℕ → ℕ
unfolding sum_words
ipchksum ws = 0xffff - sum_words ws 0 % 0x10000

-- memcpy of a block of 1024 bytes.
abbrev pub copy_block : ℕ → (ℕ → ℕ) → (ℕ → ℕ) → ℕ → ℕ
copy_block addr bytes memory a =
    if leb addr a && ltb a (addr + 1024) then bytes (a - addr) else memory a

abbrev pub take_server : Packet → Loader → Loader
take_server p l =
    if l.got_server
    then l
    else record l { server_mac = p.ether.src; server_ip = p.ip.src; got_server = true }

abbrev pub load_block : Packet → Loader → Loader
load_block p l =
    let addr = ntohs p.boot.blk * 1024 + netboot_base in
    if ntohs p.boot.cmd == cmd_load
    then record l { memory = copy_block addr p.boot.bytes l.memory }
    else l

-- The header of an answer. ntohs names its argument twice, so that id is raised twice; its two parts are
-- taken in their order. The source is the pointer, not the address.
abbrev pub ack_ip : Loader → Ip
ack_ip l =
    let blank : Ip = record {
      hdr_len = 5;
      version = 4;
      tos = 0;
      len = ntohs 36;
      id = l.id / 256 % 256 + (l.id + 1) % 256 * 256;
      off = 0;
      ttl = 128;
      proto = ip_proto_udp;
      chk = 0;
      src = l.ip_pointer;
      dst = l.server_ip;
    } in
    record blank { chk = ipchksum (words blank) }

abbrev pub ack : Packet → Loader → Sent
ack p l =
    netboot_packet (record { dst = l.server_mac; src = l.prom; type = ntohs 0x800 }) (ack_ip l)
      (record { udp_src = p.udp.udp_dst; udp_dst = p.udp.udp_src; udp_len = ntohs 12; udp_chk = 0 })
      (ntohs cmd_ack) p.boot.blk

-- The end of handle_udp, with the code address of the second entry of the boot directory.
abbrev pub answer : ℕ → Packet → Loader → Loader
answer entry p l =
    let l' = record l { id = l.id + 2 } in
    if ntohs p.boot.cmd == cmd_exec
    then record l' { started = some (entry + 0x1000 + netboot_base) }
    else record l' { sent = ack p l ∷ l.sent }

-- handle_udp
unfoldable pub handle_udp : ℕ → Packet → Loader → Loader
unfolding ipchksum
handle_udp entry p l =
    let cmd = ntohs p.boot.cmd in
    if ntohs p.udp.udp_dst == netboot_port
    then (if (cmd == cmd_load) || (cmd == cmd_exec)
        then answer entry p (load_block p (take_server p l))
        else l)
    else l

-- handle_ip
unfoldable pub handle_ip : ℕ → Packet → Loader → Loader
unfolding ipchksum handle_udp
handle_ip entry p l =
    if same_bytes p.ip.dst l.ip && ((ipchksum (words p.ip) == 0) && (p.ip.proto == ip_proto_udp))
    then handle_udp entry p l
    else l

-- handle_rarp
unfoldable pub handle_rarp : Packet → Loader → Loader
handle_rarp p l =
    if (ntohs p.arp.op == rarp_op_reply)
      && (same_bytes p.arp.enet_target l.prom && not (same_bytes p.arp.ip_target l.ip))
    then record l { ip = p.arp.ip_target; got_ip = true; reset = true }
    else l

-- The answer of handle_arp.
abbrev pub arp_answer : Packet → Loader → Sent
arp_answer p l =
    arp_packet (record { dst = p.ether.src; src = l.prom; type = ntohs 0x806 })
      (record {
        hard_type = ntohs 1;
        prot_type = ntohs 0x800;
        hard_size = 6;
        prot_size = 4;
        op = ntohs arp_op_reply;
        enet_sender = l.prom;
        ip_sender = l.ip;
        enet_target = p.arp.enet_sender;
        ip_target = p.arp.ip_sender;
      })

-- handle_arp
unfoldable pub handle_arp : Packet → Loader → Loader
handle_arp p l =
    if (ntohs p.arp.op == arp_op_request) && same_bytes p.arp.ip_target l.ip
    then record l { sent = arp_answer p l ∷ l.sent }
    else l

-- receive, on the two bytes of the type
unfoldable pub receive : ℕ → Packet → Loader → Loader
unfolding handle_ip handle_rarp handle_arp
receive entry p l =
    let first = p.ether.type % 256 in
    let second = p.ether.type / 256 in
    if (first == 0x80) && (second == 0x35)
    then handle_rarp p l
    else if not (first == 0x08)
    then l
    else if second == 0x06
    then handle_arp p l
    else if second == 0x00
    then handle_ip entry p l
    else l
