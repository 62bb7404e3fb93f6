-- ===== src/Kernel/Port.antt =====
-- kernel/port.c: message ports. A call that has to wait is split at the switch to another task: its
-- loop is entered again by `send_again` or `recv_again` when its task runs again.
pub mod Bounds
pub mod Owners
pub mod Calls
pub mod Liveness
pub mod Fifo
use frotznet.Prelude.{
  ℕ, ◌+◌, ◌-◌, ltb, leb, ◌==◌, Bool, false, ◌&&◌, ◌||◌, not, Option, none, some, List, [], ◌∷◌,
  ◌++◌, if◌then◌else◌, length, take, min, ◌⊎◌, inl, inr,
}
use frotznet.Prelude.Int.{ℤ, pos, negsuc, ◌+ℤ◌, ◌-ℤ◌}
use frotznet.Kernel.State.{
  Ptr, null, rsrc_port, rsrc_queue, Message, Port, Kernel, put_port, err_none, err_permission,
  err_resource, err_memory, err_sendport, err_recvport, err_would_block,
}
use frotznet.Kernel.Resource.{find, bind, set_name}
use frotznet.Kernel.Task.{Outcome, returns, halts, is_empty, wait_on, wake_one, release}

-- MAX_MSGCOUNT, the options of port.h, and the end of the addresses that a task may pass
abbrev pub max_msgcount : ℕ
max_msgcount = 16

abbrev pub opt_nowait : ℕ
opt_nowait = 1

abbrev pub opt_setrestrict : ℕ
opt_setrestrict = 2

abbrev pub opt_slave : ℕ
opt_slave = 4

abbrev pub user_top : ℕ
user_top = 0x400000

abbrev pub is_eq : ℤ → ℤ → Bool
is_eq (pos a) (pos b) = a == b
is_eq (negsuc a) (negsuc b) = a == b
is_eq _ _ = false

-- The names, once both resources are bound.
abbrev pub name_both : Ptr → Ptr → Option (List ℕ) → Option Kernel → Outcome ℕ
name_both p q name none = halts
name_both p q name (some k) =
    let k' = set_name q name (set_name p name k) in returns (k'.resources p).id k'

abbrev pub bind_queue : Ptr → Ptr → Option (List ℕ) → Option Kernel → Outcome ℕ
bind_queue p q name none = halts
bind_queue p q name (some k) =
    name_both p q name (bind q rsrc_queue (k.resources k.current).owner k)

abbrev pub new_port : ℕ → Ptr → Port
new_port restrict q = record {
  msgcount = 0;
  slaved = 0;
  messages = [];
  refcount = pos 1;
  nowait = 0;
  restrict = restrict;
  sendqueue = q;
}

-- port_create; kmalloc returns `p` for the port and `q` for its send queue.
unfoldable pub create : Ptr → Ptr → ℕ → Option (List ℕ) → Kernel → Outcome ℕ
unfolding bind set_name
create p q restrict name k =
    let owner = (k.resources k.current).owner in
    bind_queue p q name (bind p rsrc_port owner (put_port p (new_port restrict q) k))

-- port_destroy
unfoldable pub destroy : ℕ → Kernel → Outcome ℤ
unfolding find release
destroy id k = elim (find rsrc_port id k) [
  | none ↦ returns err_resource k
  | some p ↦
      if is_eq (k.ports p).refcount (pos 1)
      then returns err_none (release (k.ports p).sendqueue (release p k))
      else returns err_resource k
]

-- A port gains or loses a slave.
abbrev pub refer : Ptr → Kernel → Kernel
refer m k = put_port m (record (k.ports m) { refcount = (k.ports m).refcount +ℤ pos 1 }) k

abbrev pub unrefer : Ptr → Kernel → Kernel
unrefer m k = put_port m (record (k.ports m) { refcount = (k.ports m).refcount -ℤ pos 1 }) k

abbrev pub link : Ptr → ℕ → Kernel → Outcome ℤ
link p arg k = returns err_none (put_port p (record (k.ports p) { slaved = arg }) k)

-- The old master is dropped; it must be there.
abbrev pub drop_master : Ptr → ℕ → Option Ptr → Kernel → Outcome ℤ
drop_master p arg none k = halts
drop_master p arg (some m) k = link p arg (unrefer m k)

abbrev pub enslave : Ptr → ℕ → Kernel → Outcome ℤ
enslave p arg k =
    let old = (k.ports p).slaved in
    if old == 0 then link p arg k else drop_master p arg (find rsrc_port old k) k

abbrev pub new_master : Ptr → ℕ → Option Ptr → Kernel → Outcome ℤ
new_master p arg none k = returns err_resource k
new_master p arg (some m) k =
    if not ((k.resources m).owner == (k.resources k.current).owner)
    then returns err_permission k
    else enslave p arg (refer m k)

-- PORT_OPT_SLAVE: with arg 0 the old master is only dropped.
abbrev pub set_master : Ptr → ℕ → Kernel → Outcome ℤ
set_master p arg k = if arg == 0 then enslave p arg k else new_master p arg (find rsrc_port arg k) k

abbrev pub option_at : ℕ → ℕ → Option Ptr → Kernel → Outcome ℤ
option_at opt arg none k = returns err_resource k
option_at opt arg (some p) k =
    if not ((k.resources p).owner == (k.resources k.current).owner)
    then returns err_permission k
    else if opt == opt_setrestrict
    then returns err_none (put_port p (record (k.ports p) { restrict = arg }) k)
    else if opt == opt_slave
    then set_master p arg k
    else if opt == opt_nowait
    then returns err_none (put_port p (record (k.ports p) { nowait = arg }) k)
    else returns err_permission k

-- port_option
unfoldable pub option : ℕ → ℕ → ℕ → Kernel → Outcome ℤ
unfolding find ◌+ℤ◌ ◌-ℤ◌
option port opt arg k = option_at opt arg (find rsrc_port port k) k

-- What a task asks to send: the address and the bytes there, and the page that kgetpages returns if
-- the pool is empty.
pub record Request : Type 0 where
  pub src : ℕ
  pub dst : ℕ
  pub address : ℕ
  pub bytes : List ℕ
  pub code : ℕ
  pub fresh_page : Ptr

-- The page that carries the bytes: none below 256 of them, and one of the pool first.
abbrev pub carrier : Request → List Ptr → Ptr × List Ptr
carrier r pool =
    if ltb (length r.bytes) 256
    then (null, pool)
    else elim pool [ [] ↦ (r.fresh_page, []) | page ∷ rest ↦ (page, rest) ]

abbrev pub message : Request → Ptr → Message
message r page = record {
  code = r.code;
  from_port = r.src;
  to_port = r.dst;
  bytes = r.bytes;
  page = page;
}

-- The message is put at the end of the chain.
abbrev pub append_message : Ptr → Request → Kernel → Kernel
append_message p r k =
    let (page, pool) = carrier r k.msg_pool in
    let port = k.ports p in
    put_port p
      (record port {
        messages = port.messages ++ (message r page ∷ []);
        msgcount = port.msgcount + 1;
      })
      (record k { msg_pool = pool })

-- A task that sleeps on the port is woken; on its master, if it has become a slave meanwhile.
abbrev pub wake_receiver : Ptr → Kernel → Kernel
wake_receiver p k =
    if (k.ports p).slaved == 0
    then wake_one p k
    else elim (find rsrc_port (k.ports p).slaved k) [ none ↦ k | some m ↦ wake_one m k ]

unfoldable pub deliver : Ptr → Request → Kernel → Outcome ℤ
unfolding find wake_one
deliver p r k =
    if ltb user_top r.address || ltb 4096 (length r.bytes)
    then returns err_memory k
    else returns (pos (length r.bytes)) (wake_receiver p (append_message p r k))

-- The loop of port_send on the port that takes the message.
unfoldable pub send_loop : Ptr → Request → Kernel → Outcome ℤ
unfolding wait_on deliver
send_loop p r k =
    if ltb (k.ports p).msgcount max_msgcount
    then deliver p r k
    else if (k.ports p).nowait == 0
    then wait_on (k.ports p).sendqueue k
    else returns err_would_block k

-- ... when its task runs again
unfoldable pub send_again : Ptr → Request → Kernel → Outcome ℤ
unfolding send_loop
send_again p r k =
    let status = (k.tasks k.current).status in
    if is_eq status err_none then send_loop p r k else returns status k

-- The port that takes a message for `dst`: its master, if it is a slave.
unfoldable pub target : ℕ → Kernel → ℤ ⊎ Ptr
unfolding find
target dst k = elim (find rsrc_port dst k) [
  | none ↦ inl err_recvport
  | some p ↦ if (k.ports p).slaved == 0 then inr p else elim (find rsrc_port (k.ports p).slaved k) [
    | none ↦ inl err_resource
    | some m ↦ if (k.ports m).slaved == 0 then inr m else inl err_resource
  ]
]

-- port_send
unfoldable pub send : Request → Kernel → Outcome ℤ
unfolding target send_loop
send r k = elim (find rsrc_port r.src k) [
  | none ↦ returns err_sendport k
  | some f ↦ elim (target r.dst k) [ inl e ↦ returns e k | inr p ↦ send_loop p r k ]
]

-- What port_recv stores for its caller: the sender's port, the code, and the bytes that fit.
pub record Delivery : Type 0 where
  pub from : ℕ
  pub code : ℕ
  pub bytes : List ℕ

-- A page goes back to the pool.
abbrev pub recycle : Message → List Ptr → List Ptr
recycle m pool = if ltb (length m.bytes) 256 then pool else m.page ∷ pool

-- The first message leaves the chain.
abbrev pub unchain : Ptr → List Message → Kernel → Kernel
unchain p rest k = put_port p (record (k.ports p) { messages = rest }) k

-- A task that waits to send is woken.
abbrev pub wake_sender : Ptr → Kernel → Kernel
wake_sender p k =
    let q = (k.ports p).sendqueue in
    if not (is_empty (k.resources q).queue) && leb (k.ports p).msgcount max_msgcount
    then wake_one q k
    else k

-- p->msgcount--, at a count that is not 0
abbrev pub uncount : Ptr → Kernel → Kernel
uncount p k = put_port p (record (k.ports p) { msgcount = (k.ports p).msgcount - 1 }) k

unfoldable pub take_message : Ptr → List Message → Kernel → Kernel
unfolding wake_one
take_message p rest k = uncount p (wake_sender p (unchain p rest k))

abbrev pub receive : Ptr → ℕ → List Message → Kernel → Outcome (ℤ × Option Delivery)
receive p size [] k = halts
receive p size (m ∷ rest) k =
    let k = take_message p rest k in
    returns
      (
        pos (min size (length m.bytes)),
        some (record { from = m.from_port; code = m.code; bytes = take size m.bytes }),
      )
      (record k { msg_pool = recycle m k.msg_pool })

-- The loop of port_recv. With no message at a positive count the code reads through NULL.
unfoldable pub recv_loop : Ptr → ℕ → Kernel → Outcome (ℤ × Option Delivery)
unfolding wait_on take_message
recv_loop p size k =
    if (k.ports p).msgcount == 0
    then (if (k.ports p).nowait == 0 then wait_on p k else returns (err_would_block, none) k)
    else receive p size (k.ports p).messages k

unfoldable pub recv_again : Ptr → ℕ → Kernel → Outcome (ℤ × Option Delivery)
unfolding recv_loop
recv_again p size k =
    let status = (k.tasks k.current).status in
    if is_eq status err_none then recv_loop p size k else returns (status, none) k

-- port_recv
unfoldable pub recv : ℕ → ℕ → ℕ → Kernel → Outcome (ℤ × Option Delivery)
unfolding find recv_loop
recv dst address size k = elim (find rsrc_port dst k) [
  | none ↦ returns (err_recvport, none) k
  | some p ↦
      if not ((k.tasks k.current).team == k.kernel_team) && ltb user_top address
      then returns (err_memory, none) k
      else recv_loop p size k
]
