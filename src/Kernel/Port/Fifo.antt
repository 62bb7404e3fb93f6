-- ===== src/Kernel/Port/Fifo.antt =====
-- The traffic of one port of kernel/port.c over a sequence of calls.
use mathlib.Core.List.{map-append}
use mathlib.Core.Path.{◌≡⟨◌⟩◌, ◌∎}
use frotznet.Prelude.{
  ℕ, ◌≡◌, ◌≢◌, inl, inr, Option, none, some, List, [], ◌∷◌, ◌++◌, arith, map, append_assoc, sym,
  ◌∙◌, ap, length, length-append, ltb, true,
}
use frotznet.Prelude.Int.{ℤ, pos, negsuc}
use frotznet.Kernel.State.{Ptr, Message, Kernel}
use frotznet.Kernel.Task.{Outcome, returns, sleeps, halts}
use frotznet.Kernel.Port.{Request, send_loop, Delivery, recv_loop, max_msgcount}
use frotznet.Kernel.Port.Bounds.{IsPort}
use frotznet.Kernel.Task.Alive.{Alive, GoesOn}
use frotznet.Kernel.Port.Liveness.{send_loop-GoesOn, recv_loop-GoesOn}
use frotznet.Kernel.Port.Calls.{
  sent_message, view, Queued, Taken, Sends, Receives, send_loop-Sends, recv_loop-Receives,
}

-- Both sides of a balance grow by the same items.
grow {ℓ κ} :
    {A : Type ℓ} {B : Type κ} (f : A → B) (a s q xs : List A) (g : List B)
    → map f (a ++ s) ≡ g ++ map f q
    → map f (a ++ (s ++ xs)) ≡ g ++ map f (q ++ xs)
grow f a s q xs g h =
    map f (a ++ (s ++ xs))
    ≡⟨ ap (map f) (sym (append_assoc a s xs)) ⟩ map f ((a ++ s) ++ xs)
    ≡⟨ (rw (map-append f (a ++ s) xs)) ⟩ map f (a ++ s) ++ map f xs
    ≡⟨ ap (λ t. t ++ map f xs) h ⟩ (g ++ map f q) ++ map f xs
    ≡⟨ append_assoc g (map f q) (map f xs) ⟩ g ++ (map f q ++ map f xs)
    ≡⟨ (rw (map-append f q xs)) ⟩ g ++ map f (q ++ xs) ∎

-- A call on the port, of whatever task.
pub data Event : Type 0 where
  sends : Request → Event
  receives : Event

-- What was accepted and what was handed out so far.
pub record Log : Type 0 where
  pub sent : List Message
  pub got : List Delivery

module _ (p : Ptr) (size : ℕ) where
  abbrev pub after_send : Request → Kernel → Log → Outcome ℤ → Option (Kernel × Log)
  after_send r k log (returns (pos n) l) =
      some (l, record log { sent = log.sent ++ (sent_message p r k ∷ []) })
  after_send r k log (returns (negsuc n) l) = some (l, log)
  after_send r k log (sleeps l) = some (l, log)
  after_send r k log halts = none

  abbrev pub after_recv : Log → Outcome (ℤ × Option Delivery) → Option (Kernel × Log)
  after_recv log (returns (a, some d) l) = some (l, record log { got = log.got ++ (d ∷ []) })
  after_recv log (returns (a, none) l) = some (l, log)
  after_recv log (sleeps l) = some (l, log)
  after_recv log halts = none

  abbrev pub exchange : Event → Kernel × Log → Option (Kernel × Log)
  exchange (sends r) (k, log) = after_send r k log (send_loop p r k)
  exchange receives (k, log) = after_recv log (recv_loop p size k)

  abbrev pub and_then :
      Option (Kernel × Log) → (Kernel × Log → Option (Kernel × Log)) → Option (Kernel × Log)
  and_then none f = none
  and_then (some s) f = f s

  unfoldable pub traffic : List Event → Kernel × Log → Option (Kernel × Log)
  traffic [] s = some s
  traffic (e ∷ es) s = and_then (exchange e s) (traffic es)

  -- The messages `ms` at the start and those accepted since have been handed out in order, up to those
  -- that still wait.
  pub record Balanced (ms : List Message) (k : Kernel) (log : Log) : Type 0 where
    pub order : map (view size) (ms ++ log.sent) ≡ log.got ++ map (view size) (k.ports p).messages
    pub port : IsPort (k.ports p)
    pub apart : p ≢ k.run_queue
    pub apart_queue : (k.ports p).sendqueue ≢ k.run_queue
    pub alive : Alive k

  abbrev pub StaysBalanced : List Message → Option (Kernel × Log) → Type 0
  StaysBalanced ms none = ⊥
  StaysBalanced ms (some (k, log)) = Balanced ms k log

  module _ (ms : List Message) (k : Kernel) (log : Log) (v : Balanced ms k log) where
    moved :
        (l : Kernel) → Alive l → l.ports ≡ k.ports → l.run_queue ≡ k.run_queue → Balanced ms l log
    moved l a e f = record {
      order = rw e v.order;
      port = rw e v.port;
      apart = rw f v.apart;
      apart_queue = rw (e, f) v.apart_queue;
      alive = a;
    }

    queued :
        (r : Request) (l : Kernel)
        → Alive l
        → Queued p r k l
        → ltb (k.ports p).msgcount max_msgcount ≡ true
        → Balanced ms l (record log { sent = log.sent ++ (sent_message p r k ∷ []) })
    queued r l a q room = record {
      order = rw q.messages (
          grow (view size) ms log.sent (k.ports p).messages (sent_message p r k ∷ []) log.got
            v.order);
      port = (
        rw q.messages (
            ground (
              arith,
              v.port,
              q.msgcount,
              length-append {0} (k.ports p).messages (sent_message p r k ∷ []),
            )),
        ground (arith, v.port, q.msgcount),
      );
      apart = rw q.run_queue v.apart;
      apart_queue = rw (q.sendqueue, q.run_queue) v.apart_queue;
      alive = a;
    }

    taken :
        (m : Message) (l : Kernel)
        → Alive l
        → Taken p size k m l
        → Balanced ms l (record log { got = log.got ++ (view size m ∷ []) })
    taken m l a t = record {
      order =
          v.order
          ∙ (ap (λ ms. log.got ++ map (view size) ms) t.messages
              ∙ sym
                  (append_assoc log.got (view size m ∷ []) (map (view size) (l.ports p).messages)));
      port = (
        omega (arith, v.port.0, ap length t.messages, t.msgcount),
        omega (arith, v.port.1, t.msgcount),
      );
      apart = rw t.run_queue v.apart;
      apart_queue = rw (t.sendqueue, t.run_queue) v.apart_queue;
      alive = a;
    }

    sent_step :
        (r : Request) (o : Outcome ℤ)
        → Sends p r k o
        → GoesOn o
        → StaysBalanced ms (after_send r k log o)
    sent_step r (returns a l) (inl (room, good, e, q)) g = rw e (queued r l g q room)
    sent_step r (returns a l) (inr (inl (room, bad, e, same))) g = rw (e, same) v
    sent_step r (returns a l) (inr (inr (full, nowait, e, same))) g = rw (e, same) v
    sent_step r (sleeps l) h g = moved l g h.2 h.4
    sent_step r halts h g = g

    recv_step :
        (o : Outcome (ℤ × Option Delivery))
        → Receives p size k o
        → GoesOn o
        → StaysBalanced ms (after_recv log o)
    recv_step (returns (a, d) l) (inl (m, e, got, t)) g = rw got (taken m l g t)
    recv_step (returns (a, d) l) (inr (empty, nowait, e, got, same)) g = rw (got, same) v
    recv_step (sleeps l) h g = moved l g h.2 h.4
    recv_step halts h g = g

    exchange-Balanced : (e : Event) → StaysBalanced ms (exchange e (k, log))
    exchange-Balanced (sends r) =
        sent_step r _ (send_loop-Sends p r k v.apart_queue) (send_loop-GoesOn p r k v.alive)
    exchange-Balanced receives =
        recv_step _ (recv_loop-Receives p size k v.apart v.port)
          (recv_loop-GoesOn p size k v.port v.alive)

  continue :
      (ms : List Message) (f : Kernel × Log → Option (Kernel × Log))
      → ((l : Kernel) (log : Log) → Balanced ms l log → StaysBalanced ms (f (l, log)))
      → (o : Option (Kernel × Log)) → StaysBalanced ms o
      → StaysBalanced ms (and_then o f)
  continue ms f h none b = b
  continue ms f h (some (l, log)) b = h l log b

  -- Over any sequence of port_send and port_recv on a port, of whatever tasks, the messages that were
  -- accepted are handed out in their order, each once, with its sender, its code and the bytes that
  -- fit; what is left over waits on the chain, of which the count is the length. At the start the count is
  -- that of the chain, and the port and its send queue are not the run queue. The kernel does not
  -- halt on the way, and no task dies, if none is dead and some task lives at the start.
  pub traffic-Balanced :
      (ms : List Message) (es : List Event) (k : Kernel) (log : Log)
      → Balanced ms k log
      → StaysBalanced ms (traffic es (k, log))
  unfolding traffic
  traffic-Balanced ms [] k log v = v
  traffic-Balanced ms (e ∷ es) k log v =
      continue ms (traffic es) (λ l log' h. traffic-Balanced ms es l log' h) (exchange e (k, log))
        (exchange-Balanced ms k log v e)
