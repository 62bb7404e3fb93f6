-- ===== src/Kernel/System.antt =====
-- The kernel's calls on ports and semaphores in any order, by whatever tasks: between two calls the
-- processor may have gone to another task, and a task that sleeps goes on by the calls `…_again`.
use frotznet.Prelude.{ℕ, Option, none, some, List, [], ◌∷◌}
use frotznet.Prelude.Int.{ℤ}
use frotznet.Kernel.State.{Ptr, Kernel}
use frotznet.Kernel.Task.{Outcome, returns, sleeps, halts, thr_wait}
use frotznet.Kernel.Task.Switch.{Leaves}
use frotznet.Kernel.Port.{Request}
use frotznet.Kernel.Port
use frotznet.Kernel.Sem
use frotznet.Kernel.Others.{
  sem_create-Ports, sem_destroy-Ports, acquire-Ports, release_one-Ports, thr_wait-Ports,
}
use frotznet.Kernel.Port.Bounds.{Ports, send-Ports, send_again-Ports, recv-Ports, recv_again-Ports}
use frotznet.Kernel.Port.Owners.{create-Ports, destroy-Ports, option-Ports}

pub data Call : Type 0 where
  port_creates : Ptr → Ptr → ℕ → Option (List ℕ) → Call
  port_destroys : ℕ → Call
  port_options : ℕ → ℕ → ℕ → Call
  sends : Request → Call
  sends_again : Ptr → Request → Call
  receives : ℕ → ℕ → ℕ → Call
  receives_again : Ptr → ℕ → Call
  sem_creates : Ptr → ℤ → Option (List ℕ) → Call
  sem_destroys acquires releases waits : ℕ → Call

-- The state that a call leaves to the next one.
abbrev pub after : {A : Type 0} → Outcome A → Option Kernel
after (returns a k) = some k
after (sleeps k) = some k
after halts = none

pub step : Call → Kernel → Option Kernel
step (port_creates p q restrict name) k = after (Port.create p q restrict name k)
step (port_destroys id) k = after (Port.destroy id k)
step (port_options port opt arg) k = after (Port.option port opt arg k)
step (sends r) k = after (Port.send r k)
step (sends_again p r) k = after (Port.send_again p r k)
step (receives dst address size) k = after (Port.recv dst address size k)
step (receives_again p size) k = after (Port.recv_again p size k)
step (sem_creates s count name) k = after (Sem.create s count name k)
step (sem_destroys id) k = after (Sem.destroy id k)
step (acquires id) k = after (Sem.acquire id k)
step (releases id) k = after (Sem.release_one id k)
step (waits id) k = after (thr_wait id k)

abbrev pub and_then : Option Kernel → (Kernel → Option Kernel) → Option Kernel
and_then none f = none
and_then (some k) f = f k

pub run : List Call → Kernel → Option Kernel
unfolding step
run [] k = some k
run (c ∷ cs) k = and_then (step c k) (run cs)

abbrev pub Every : (Kernel → Type 0) → Option Kernel → Type 0
Every P none = Unit
Every P (some k) = P k

after-Every : (A : Type 0) (P : Kernel → Type 0) (o : Outcome A) → Leaves P o → Every P (after o)
after-Every A P (returns a k) h = h
after-Every A P (sleeps k) h = h
after-Every A P halts h = tt

step-Ports : (c : Call) (k : Kernel) → Ports k → Every Ports (step c k)
unfolding step
step-Ports (port_creates p q restrict name) k v =
    after-Every ℕ Ports _ (create-Ports p q restrict name k v)
step-Ports (port_destroys id) k v = after-Every ℤ Ports _ (destroy-Ports id k v)
step-Ports (port_options port opt arg) k v = after-Every ℤ Ports _ (option-Ports port opt arg k v)
step-Ports (sends r) k v = after-Every ℤ Ports _ (send-Ports r k v)
step-Ports (sends_again p r) k v = after-Every ℤ Ports _ (send_again-Ports p r k v)
step-Ports (receives dst address size) k v = after-Every _ Ports _ (recv-Ports dst address size k v)
step-Ports (receives_again p size) k v = after-Every _ Ports _ (recv_again-Ports p size k v)
step-Ports (sem_creates s count name) k v =
    after-Every ℕ Ports _ (sem_create-Ports s count name k v)
step-Ports (sem_destroys id) k v = after-Every ℤ Ports _ (sem_destroy-Ports id k v)
step-Ports (acquires id) k v = after-Every ℤ Ports _ (acquire-Ports id k v)
step-Ports (releases id) k v = after-Every ℤ Ports _ (release_one-Ports id k v)
step-Ports (waits id) k v = after-Every ℤ Ports _ (thr_wait-Ports id k v)

continue :
    (P : Kernel → Type 0) (f : Kernel → Option Kernel) (o : Option Kernel)
    → ((k : Kernel) → P k → Every P (f k))
    → Every P o
    → Every P (and_then o f)
continue P f none h b = tt
continue P f (some k) h b = h k b

-- After any sequence of calls on ports, semaphores and threads that the kernel survives, the count of every port is the length of its
-- chain of messages and at most MAX_MSGCOUNT, if it was so before.
pub run-Ports : (cs : List Call) (k : Kernel) → Ports k → Every Ports (run cs k)
unfolding run
run-Ports [] k v = v
run-Ports (c ∷ cs) k v =
    continue Ports (run cs) (step c k) (λ l h. run-Ports cs l h) (step-Ports c k v)
