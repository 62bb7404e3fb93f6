-- ===== src/Kernel/Port/Bounds.antt =====
-- The message count of a port and its chain, over port_send and port_recv of kernel/port.c.
use frotznet.Prelude.{
  ℕ, ◌-◌, ◌≤◌, ◌≡◌, refl, ◌⊎◌, inl, inr, true, ◌&&◌, ◌||◌, not, List, [], ◌∷◌, arith, ◌==◌, ltb,
  leb, if◌then◌else◌, update, length, length-append, sym, subst, Bool-cases, Option-cases,
}
use frotznet.Prelude.Int.{ℤ}
use frotznet.Kernel.State.{Ptr, rsrc_port, Message, Port, Kernel, put_port, err_none}
use frotznet.Kernel.Resource.{find}
use frotznet.Kernel.Task.{returns, is_empty, wait_on, wake_one}
use frotznet.Kernel.Task.Frame.{SameObjects, wake_one-SameObjects}
use frotznet.Kernel.Task.Switch.{Leaves, Leaves-mono, wait_on-SameObjects}
use frotznet.Kernel.Port.{
  max_msgcount, user_top, carrier, message, is_eq, Request, append_message, wake_receiver, deliver,
  send_loop, send_again, target, send, unchain, wake_sender, take_message, receive, recv_loop,
  recv_again, recv,
}

abbrev pub IsPort : Port → Type 0
IsPort p = (p.msgcount ≡ length p.messages) × (p.msgcount ≤ 16)

abbrev pub Ports : Kernel → Type 0
Ports k = (p : Ptr) → IsPort (k.ports p)

-- Waking a task does not touch a port.
pub wake_one-ports : (r : Ptr) (k : Kernel) → (wake_one r k).ports ≡ k.ports
wake_one-ports r k = (wake_one-SameObjects r k).ports

pub Ports-same : (k l : Kernel) → l.ports ≡ k.ports → Ports k → Ports l
Ports-same k l e v = subst (λ f. (p : Ptr) → IsPort (f p)) (sym e) v

pub Ports-put :
    (p : Ptr) (port : Port) (k : Kernel) → IsPort port → Ports k → Ports (put_port p port k)
Ports-put p port k h v q = elim (Bool-cases (p == q)) [
  | inl e ↦ rw (e, update, if◌then◌else◌) h
  | inr e ↦ rw (e, update, if◌then◌else◌) (v q)
]

pub wait-Ports : (A : Type 0) (r : Ptr) (k : Kernel) → Ports k → Leaves {A = A} Ports (wait_on r k)
wait-Ports A r k v =
    Leaves-mono A (SameObjects k) Ports (wait_on r k) (λ l s. Ports-same k l s.ports v)
      (wait_on-SameObjects A r k)

pub wake_receiver-ports : (p : Ptr) (k : Kernel) → (wake_receiver p k).ports ≡ k.ports
wake_receiver-ports p k = elim (Bool-cases ((k.ports p).slaved == 0)) [
  | inl e ↦ rw e (wake_one-ports p k)
  | inr e ↦ rw e (elim (Option-cases (find rsrc_port (k.ports p).slaved k)) [
    | inl f ↦ rw f refl
    | inr (m, f) ↦ rw f (wake_one-ports m k)
  ])
]

deliver-Ports :
    (p : Ptr) (r : Request) (k : Kernel)
    → ltb (k.ports p).msgcount max_msgcount ≡ true
    → Ports k
    → Leaves Ports (deliver p r k)
unfolding deliver
deliver-Ports p r k room v =
    elim (Bool-cases (ltb user_top r.address || ltb 4096 (length r.bytes))) [
      | inl e ↦ rw (e, Leaves) v
      | inr e ↦
          rw (e, Leaves)
            (Ports-same (append_message p r k) (wake_receiver p (append_message p r k))
              (wake_receiver-ports p (append_message p r k))
              (Ports-put p _ (record k { msg_pool = (carrier r k.msg_pool).1 })
                (ground (
                  arith,
                  v p,
                  length-append {0} (k.ports p).messages (message r (carrier r k.msg_pool).0 ∷ []),
                ))
                v))
    ]

pub send_loop-Ports :
    (p : Ptr) (r : Request) (k : Kernel) → Ports k → Leaves Ports (send_loop p r k)
unfolding send_loop
send_loop-Ports p r k v = elim (Bool-cases (ltb (k.ports p).msgcount max_msgcount)) [
  | inl room ↦ rw (room, Leaves) (deliver-Ports p r k room v)
  | inr full ↦
      rw (full, Leaves)
        (elim (Bool-cases ((k.ports p).nowait == 0)) [
          | inl e ↦ rw (e, Leaves) (wait-Ports ℤ (k.ports p).sendqueue k v)
          | inr e ↦ rw (e, Leaves) v
        ])
]

pub send_again-Ports :
    (p : Ptr) (r : Request) (k : Kernel) → Ports k → Leaves Ports (send_again p r k)
unfolding send_again
send_again-Ports p r k v = elim (Bool-cases (is_eq (k.tasks k.current).status err_none)) [
  | inl e ↦ rw (e, Leaves) (send_loop-Ports p r k v)
  | inr e ↦ rw (e, Leaves) v
]

pub send-Ports : (r : Request) (k : Kernel) → Ports k → Leaves Ports (send r k)
unfolding send
send-Ports r k v = elim (Option-cases (find rsrc_port r.src k)) [
  | inl e ↦ rw (e, Leaves) v
  | inr (f, e) ↦ rw (e, Leaves) (sent (target r.dst k))
]
  where
    sent : (t : ℤ ⊎ Ptr) → Leaves Ports (elim t [ inl e ↦ returns e k | inr p ↦ send_loop p r k ])
    sent (inl e) = v
    sent (inr p) = send_loop-Ports p r k v

wake_sender-ports : (p : Ptr) (k : Kernel) → (wake_sender p k).ports ≡ k.ports
wake_sender-ports p k =
    elim (Bool-cases (
      not (is_empty (k.resources (k.ports p).sendqueue).queue)
      && leb (k.ports p).msgcount max_msgcount)) [
        | inl e ↦ rw e (wake_one-ports (k.ports p).sendqueue k)
        | inr e ↦ rw e refl
      ]

-- What taking a message does to the ports.
pub take_message-port :
    (p : Ptr) (rest : List Message) (k : Kernel) (q : Ptr)
    → (take_message p rest k).ports q ≡ (
        if p == q
        then record (k.ports p) { messages = rest; msgcount = (k.ports p).msgcount - 1 }
        else k.ports q)
unfolding take_message
take_message-port p rest k q = rw (wake_sender-ports p (unchain p rest k)) (ground arith)

pub wake_receiver-run_queue : (p : Ptr) (k : Kernel) → (wake_receiver p k).run_queue ≡ k.run_queue
wake_receiver-run_queue p k = elim (Bool-cases ((k.ports p).slaved == 0)) [
  | inl e ↦ rw e (wake_one-SameObjects p k).run_queue
  | inr e ↦ rw e (elim (Option-cases (find rsrc_port (k.ports p).slaved k)) [
    | inl f ↦ rw f refl
    | inr (m, f) ↦ rw f (wake_one-SameObjects m k).run_queue
  ])
]

pub take_message-run_queue :
    (p : Ptr) (rest : List Message) (k : Kernel) → (take_message p rest k).run_queue ≡ k.run_queue
unfolding take_message
take_message-run_queue p rest k =
    let l = unchain p rest k in
    elim (Bool-cases (
      not (is_empty (l.resources (l.ports p).sendqueue).queue)
      && leb (l.ports p).msgcount max_msgcount)) [
        | inl e ↦ rw e (wake_one-SameObjects (l.ports p).sendqueue l).run_queue
        | inr e ↦ rw e refl
      ]

-- One message less on the chain, and in the count.
take-Ports :
    (p : Ptr) (m : Message) (rest : List Message) (k : Kernel)
    → (k.ports p).messages ≡ m ∷ rest
    → Ports k
    → Ports (take_message p rest k)
take-Ports p m rest k e v q = rw (take_message-port p rest k q) (ground (arith, v p, v q))

receive-Ports :
    (p : Ptr) (size : ℕ) (ms : List Message) (k : Kernel)
    → (k.ports p).messages ≡ ms
    → Ports k
    → Leaves Ports (receive p size ms k)
receive-Ports p size [] k e v = tt
receive-Ports p size (m ∷ rest) k e v = take-Ports p m rest k e v

pub recv_loop-Ports :
    (p : Ptr) (size : ℕ) (k : Kernel) → Ports k → Leaves Ports (recv_loop p size k)
unfolding recv_loop
recv_loop-Ports p size k v = elim (Bool-cases ((k.ports p).msgcount == 0)) [
  | inr some_left ↦ rw (some_left, Leaves) (receive-Ports p size (k.ports p).messages k refl v)
  | inl empty ↦
      rw (empty, Leaves)
        (elim (Bool-cases ((k.ports p).nowait == 0)) [
          | inl e ↦ rw (e, Leaves) (wait-Ports _ p k v)
          | inr e ↦ rw (e, Leaves) v
        ])
]

pub recv_again-Ports :
    (p : Ptr) (size : ℕ) (k : Kernel) → Ports k → Leaves Ports (recv_again p size k)
unfolding recv_again
recv_again-Ports p size k v = elim (Bool-cases (is_eq (k.tasks k.current).status err_none)) [
  | inl e ↦ rw (e, Leaves) (recv_loop-Ports p size k v)
  | inr e ↦ rw (e, Leaves) v
]

pub recv-Ports :
    (dst address size : ℕ) (k : Kernel) → Ports k → Leaves Ports (recv dst address size k)
unfolding recv
recv-Ports dst address size k v = elim (Option-cases (find rsrc_port dst k)) [
  | inl e ↦ rw (e, Leaves) v
  | inr (p, e) ↦
      rw (e, Leaves)
        (elim (Bool-cases
          (not ((k.tasks k.current).team == k.kernel_team) && ltb user_top address)) [
            | inl e ↦ rw (e, Leaves) v
            | inr e ↦ rw (e, Leaves) (recv_loop-Ports p size k v)
          ])
]
