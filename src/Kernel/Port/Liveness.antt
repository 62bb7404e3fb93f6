-- ===== src/Kernel/Port/Liveness.antt =====
-- port_send and port_recv of kernel/port.c in a kernel whose tasks are alive.
use frotznet.Prelude.{
  ℕ, ◌≢◌, refl, inl, inr, ◌||◌, Option, List, [], ◌∷◌, arith, ◌==◌, ltb, length, Bool-cases,
  Option-cases,
}
use frotznet.Prelude.Int.{ℤ}
use frotznet.Kernel.State.{Ptr, rsrc_port, Message, Kernel}
use frotznet.Kernel.Resource.{find}
use frotznet.Kernel.Task.Alive.{Alive, GoesOn, wake_one-Alive, wait_on-GoesOn}
use frotznet.Kernel.Port.{
  max_msgcount, user_top, Request, append_message, wake_receiver, deliver, send_loop, Delivery,
  unchain, wake_sender, take_message, receive, recv_loop,
}
use frotznet.Kernel.Port.Bounds.{IsPort}

wake_receiver-Alive : (p : Ptr) (k : Kernel) → Alive k → Alive (wake_receiver p k)
wake_receiver-Alive p k v = elim (Bool-cases ((k.ports p).slaved == 0)) [
  | inl e ↦ rw e (wake_one-Alive p k v)
  | inr e ↦ rw e (elim (Option-cases (find rsrc_port (k.ports p).slaved k)) [
    | inl f ↦ rw f v
    | inr (m, f) ↦ rw f (wake_one-Alive m k v)
  ])
]

wake_sender-Alive : (p : Ptr) (k : Kernel) → Alive k → Alive (wake_sender p k)
wake_sender-Alive p k v = ground (arith, v, wake_one-Alive (k.ports p).sendqueue k v)

take_message-Alive :
    (p : Ptr) (rest : List Message) (k : Kernel) → Alive k → Alive (take_message p rest k)
unfolding take_message
take_message-Alive p rest k v = wake_sender-Alive p (unchain p rest k) v

-- While no task is dead and some task lives, port_send on a port returns or sleeps.
pub send_loop-GoesOn : (p : Ptr) (r : Request) (k : Kernel) → Alive k → GoesOn (send_loop p r k)
unfolding send_loop deliver
send_loop-GoesOn p r k v = elim (Bool-cases (ltb (k.ports p).msgcount max_msgcount)) [
  | inl room ↦
      rw (room, GoesOn)
        (elim (Bool-cases (ltb user_top r.address || ltb 4096 (length r.bytes))) [
          | inl e ↦ rw (e, GoesOn) v
          | inr e ↦ rw (e, GoesOn) (wake_receiver-Alive p (append_message p r k) v)
        ])
  | inr full ↦
      rw (full, GoesOn)
        (elim (Bool-cases ((k.ports p).nowait == 0)) [
          | inl e ↦ rw (e, GoesOn) (wait_on-GoesOn ℤ (k.ports p).sendqueue k v)
          | inr e ↦ rw (e, GoesOn) v
        ])
]

receive-GoesOn :
    (p : Ptr) (size : ℕ) (ms : List Message) (k : Kernel)
    → length ms ≢ 0
    → Alive k
    → GoesOn (receive p size ms k)
receive-GoesOn p size [] k h v = absurd (h refl)
receive-GoesOn p size (m ∷ rest) k h v = take_message-Alive p rest k v

-- ... and port_recv on a port whose count is that of its chain.
pub recv_loop-GoesOn :
    (p : Ptr) (size : ℕ) (k : Kernel) → IsPort (k.ports p) → Alive k → GoesOn (recv_loop p size k)
unfolding recv_loop
recv_loop-GoesOn p size k h v = elim (Bool-cases ((k.ports p).msgcount == 0)) [
  | inr e ↦ rw (e, GoesOn) (receive-GoesOn p size (k.ports p).messages k (ground (arith, h)) v)
  | inl e ↦
      rw (e, GoesOn)
        (elim (Bool-cases ((k.ports p).nowait == 0)) [
          | inl f ↦ rw (f, GoesOn) (wait_on-GoesOn (ℤ × Option Delivery) p k v)
          | inr f ↦ rw (f, GoesOn) v
        ])
]
