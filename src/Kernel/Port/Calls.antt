-- ===== src/Kernel/Port/Calls.antt =====
-- port_send and port_recv of kernel/port.c, by their outcomes.
use frotznet.Prelude.{
  ℕ, ◌+◌, ◌≡◌, ◌≢◌, refl, ◌⊎◌, inl, inr, Bool, true, false, ◌||◌, Option, none, some, List, [], ◌∷◌,
  ◌++◌, arith, ◌==◌, ltb, if◌then◌else◌, length, take, min, ◌∙◌, Bool-cases,
}
use frotznet.Prelude.Int.{ℤ, pos}
use frotznet.Kernel.State.{Ptr, Message, Kernel, err_memory, err_would_block}
use frotznet.Kernel.Task.{Outcome, returns, sleeps, halts, wait_on}
use frotznet.Kernel.Task.Switch.{Leaves, SleptOn, wait_on-SleptOn, wait_on_sleeps}
use frotznet.Kernel.Task.Alive.{Alive, wait_on-ne-halts}
use frotznet.Kernel.Port.{
  max_msgcount, user_top, carrier, message, Request, append_message, wake_receiver, deliver,
  send_loop, Delivery, receive, recv_loop,
}
use frotznet.Kernel.Port.Bounds.{
  IsPort, wake_receiver-ports, wake_receiver-run_queue, take_message-port, take_message-run_queue,
}

module _ (p : Ptr) (r : Request) (k : Kernel) where
  abbrev pub sent_message : Message
  sent_message = message r (carrier r k.msg_pool).0

  -- The message stands at the end of the chain of `p`, and no other port has changed.
  pub record Queued (l : Kernel) : Type 0 where
    pub messages : (l.ports p).messages ≡ (k.ports p).messages ++ (sent_message ∷ [])
    pub msgcount : (l.ports p).msgcount ≡ (k.ports p).msgcount + 1
    pub others : (q : Ptr) → q ≢ p → l.ports q ≡ k.ports q
    pub sendqueue : (l.ports p).sendqueue ≡ (k.ports p).sendqueue
    pub run_queue : l.run_queue ≡ k.run_queue

  abbrev pub has_room : Bool
  has_room = ltb (k.ports p).msgcount max_msgcount

  abbrev pub is_bad : Bool
  is_bad = ltb user_top r.address || ltb 4096 (length r.bytes)

  -- What the loop of port_send does, by its outcome.
  abbrev pub Sends : Outcome ℤ → Type 0
  Sends (returns a l) =
      ((has_room ≡ true) × (is_bad ≡ false) × (a ≡ pos (length r.bytes)) × Queued l)
      ⊎ ((has_room ≡ true) × (is_bad ≡ true) × (a ≡ err_memory) × (l ≡ k))
      ⊎ ((has_room ≡ false) × ((k.ports p).nowait ≢ 0) × (a ≡ err_would_block) × (l ≡ k))
  Sends (sleeps l) =
      (has_room ≡ false)
      × ((k.ports p).nowait ≡ 0)
      × (l.ports ≡ k.ports)
      × ((l.resources (k.ports p).sendqueue).queue
          ≡ (k.resources (k.ports p).sendqueue).queue ++ (k.current ∷ []))
      × (l.run_queue ≡ k.run_queue)
  Sends halts = (has_room ≡ false) × ((k.ports p).nowait ≡ 0) × ¬ Alive k

  delivered-Queued : Queued (wake_receiver p (append_message p r k))
  delivered-Queued =
      let e = wake_receiver-ports p (append_message p r k) in
      record {
        messages = rw e (ground arith);
        msgcount = rw e (ground arith);
        others = λ q h. rw e (ground arith);
        sendqueue = rw e (ground arith);
        run_queue = wake_receiver-run_queue p (append_message p r k);
      }

  deliver-Sends : has_room ≡ true → Sends (deliver p r k)
  unfolding deliver
  deliver-Sends room = elim (Bool-cases is_bad) [
    | inl e ↦ rw (e, Sends) (inr (inl (room, e, refl, refl)))
    | inr e ↦ rw (e, Sends) (inl (room, e, refl, delivered-Queued))
  ]

  slept-Sends :
      (o : Outcome ℤ)
      → has_room ≡ false
      → (k.ports p).nowait ≡ 0
      → ((a : ℤ) (l : Kernel) → o ≢ returns a l)
      → (Alive k → o ≢ halts)
      → Leaves (SleptOn (k.ports p).sendqueue k) o
      → Sends o
  slept-Sends (returns a l) full wait never lives w = absurd (never a l refl)
  slept-Sends (sleeps l) full wait never lives w =
      (full, wait, w.objects.ports, w.own_queue, w.objects.run_queue)
  slept-Sends halts full wait never lives w = (full, wait, λ alive. lives alive refl)

  -- port_send on the port that takes the message, with a send queue that is not the run queue. With room and a good address and size it queues the
  -- message last and returns the size; a bad one is refused with ERR_MEMORY and nothing changes. A full
  -- port refuses with ERR_WOULD_BLOCK under PORT_OPT_NOWAIT, and otherwise the task sleeps at the end
  -- of the send queue and no port changes; the kernel halts only then, and only if a task is dead or none
  -- lives.
  pub send_loop-Sends : (k.ports p).sendqueue ≢ k.run_queue → Sends (send_loop p r k)
  unfolding send_loop
  send_loop-Sends ne = elim (Bool-cases has_room) [
    | inl room ↦ rw (room, if◌then◌else◌) (deliver-Sends room)
    | inr full ↦
        rw (full, if◌then◌else◌)
          (elim (Bool-cases ((k.ports p).nowait == 0)) [
            | inl e ↦
                rw (e, if◌then◌else◌)
                  (slept-Sends (wait_on (k.ports p).sendqueue k) full (ground arith)
                    (wait_on_sleeps (k.ports p).sendqueue k)
                    (wait_on-ne-halts ℤ (k.ports p).sendqueue k)
                    (wait_on-SleptOn ℤ (k.ports p).sendqueue k ne))
            | inr e ↦ rw (e, if◌then◌else◌) (inr (inr (full, ground arith, refl, refl)))
          ])
  ]

-- What the caller of port_recv gets of a message when its buffer has `size` bytes.
abbrev pub view : ℕ → Message → Delivery
view size m = record { from = m.from_port; code = m.code; bytes = take size m.bytes }

module _ (p : Ptr) (size : ℕ) (k : Kernel) where
  pub record Taken (m : Message) (l : Kernel) : Type 0 where
    pub messages : (k.ports p).messages ≡ m ∷ (l.ports p).messages
    pub msgcount : (k.ports p).msgcount ≡ (l.ports p).msgcount + 1
    pub others : (q : Ptr) → q ≢ p → l.ports q ≡ k.ports q
    pub sendqueue : (l.ports p).sendqueue ≡ (k.ports p).sendqueue
    pub run_queue : l.run_queue ≡ k.run_queue

  abbrev pub Receives : Outcome (ℤ × Option Delivery) → Type 0
  Receives (returns (a, d) l) =
      ((m : Message) × (a ≡ pos (min size (length m.bytes))) × (d ≡ some (view size m)) × Taken m l)
      ⊎ (((k.ports p).msgcount ≡ 0)
          × ((k.ports p).nowait ≢ 0)
          × (a ≡ err_would_block)
          × (d ≡ none)
          × (l ≡ k))
  Receives (sleeps l) =
      ((k.ports p).msgcount ≡ 0)
      × ((k.ports p).nowait ≡ 0)
      × (l.ports ≡ k.ports)
      × ((l.resources p).queue ≡ (k.resources p).queue ++ (k.current ∷ []))
      × (l.run_queue ≡ k.run_queue)
  Receives halts = ((k.ports p).msgcount ≡ 0) × ((k.ports p).nowait ≡ 0) × ¬ Alive k

  receive-Receives :
      (ms : List Message)
      → (k.ports p).messages ≡ ms
      → (k.ports p).msgcount ≢ 0
      → IsPort (k.ports p)
      → Receives (receive p size ms k)
  receive-Receives [] e ne v = absurd (ne (v.0 ∙ ground arith))
  receive-Receives (m ∷ rest) e ne v = inl (
    m,
    refl,
    refl,
    record {
      messages = rw (take_message-port p rest k p) (ground arith);
      msgcount = rw (take_message-port p rest k p) (ground arith);
      others = λ q h. rw (take_message-port p rest k q) (ground arith);
      sendqueue = rw (take_message-port p rest k p) (ground arith);
      run_queue = take_message-run_queue p rest k;
    },
  )

  slept-Receives :
      (o : Outcome (ℤ × Option Delivery))
      → (k.ports p).msgcount ≡ 0
      → (k.ports p).nowait ≡ 0
      → ((a : ℤ × Option Delivery) (l : Kernel) → o ≢ returns a l)
      → (Alive k → o ≢ halts)
      → Leaves (SleptOn p k) o
      → Receives o
  slept-Receives (returns a l) empty wait never lives w = absurd (never a l refl)
  slept-Receives (sleeps l) empty wait never lives w =
      (empty, wait, w.objects.ports, w.own_queue, w.objects.run_queue)
  slept-Receives halts empty wait never lives w = (empty, wait, λ alive. lives alive refl)

  -- port_recv on a port that is not the run queue and whose count is that of its chain. With a message it takes the first one, gives
  -- the caller the sender, the code and the bytes that fit, and returns how many those are. On an empty
  -- port it refuses with ERR_WOULD_BLOCK under PORT_OPT_NOWAIT, and otherwise the task sleeps at the
  -- end of the port's queue and no port changes; the kernel halts only then, and only if a task is dead or
  -- none lives, so that it never reads through a missing message.
  pub recv_loop-Receives : p ≢ k.run_queue → IsPort (k.ports p) → Receives (recv_loop p size k)
  unfolding recv_loop
  recv_loop-Receives ne v = elim (Bool-cases ((k.ports p).msgcount == 0)) [
    | inr e ↦ rw (e, if◌then◌else◌) (receive-Receives (k.ports p).messages refl (ground arith) v)
    | inl e ↦
        rw (e, if◌then◌else◌)
          (elim (Bool-cases ((k.ports p).nowait == 0)) [
            | inl e' ↦
                rw (e', if◌then◌else◌)
                  (slept-Receives (wait_on p k) (ground arith) (ground arith) (wait_on_sleeps p k)
                    (wait_on-ne-halts (ℤ × Option Delivery) p k)
                    (wait_on-SleptOn (ℤ × Option Delivery) p k ne))
            | inr e' ↦ rw (e', if◌then◌else◌) (inr (ground arith, ground arith, refl, refl, refl))
          ])
  ]
