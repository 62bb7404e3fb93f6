-- ===== src/Kernel/Others.antt =====
-- The calls of kernel/sem.c and thr_wait, and the ports.
use frotznet.Prelude.{ℕ, Option, none, some, List, [], ◌∷◌, ◌==◌, Bool-cases, inl, inr}
use frotznet.Prelude.Int.{ℤ, pos, ltb_ℤ}
use frotznet.Kernel.State.{Ptr, rsrc_sem, rsrc_task, Kernel, put_sem, err_none}
use frotznet.Kernel.Resource.{find, assign, bind, dequeue, detached}
use frotznet.Kernel.Task.{wait_at, thr_wait, preempt, release}
use frotznet.Kernel.Task.Switch.{Leaves, preempt-Switched}
use frotznet.Kernel.Task.Release.{release-ports}
use frotznet.Kernel.Sem.{
  inc, dec, destroy_at, acquire_at, acquire, hand_over, release_at, release_one,
}
use frotznet.Kernel.Sem
use frotznet.Kernel.Port.Bounds.{Ports, Ports-same, wait-Ports}
use frotznet.Kernel.Port.Owners.{set_name-Ports}

acquire_at-Ports : (o : Option Ptr) (k : Kernel) → Ports k → Leaves Ports (acquire_at o k)
acquire_at-Ports none k v = v
acquire_at-Ports (some s) k v = elim (Bool-cases (ltb_ℤ (pos 0) (k.sems s))) [
  | inl e ↦ rw (e, Leaves) v
  | inr e ↦ rw (e, Leaves) (wait-Ports ℤ s (put_sem s (dec (k.sems s)) k) v)
]

pub acquire-Ports : (id : ℕ) (k : Kernel) → Ports k → Leaves Ports (acquire id k)
unfolding acquire
acquire-Ports id k v = acquire_at-Ports (find rsrc_sem id k) k v

detached-Ports :
    (s : Ptr) (q : List Ptr) (k : Kernel) → Ports k → Ports (hand_over (detached s q k))
detached-Ports s [] k v = v
detached-Ports s (t ∷ ts) k v =
    let l = (detached s (t ∷ ts) k).1 in
    Ports-same l (preempt t err_none l) (preempt-Switched t err_none l).objects.ports v

release_at-Ports : (o : Option Ptr) (k : Kernel) → Ports k → Leaves Ports (release_at o k)
unfolding dequeue
release_at-Ports none k v = v
release_at-Ports (some s) k v =
    detached-Ports s (k.resources s).queue (put_sem s (inc (k.sems s)) k) v

pub release_one-Ports : (id : ℕ) (k : Kernel) → Ports k → Leaves Ports (release_one id k)
unfolding release_one
release_one-Ports id k v = release_at-Ports (find rsrc_sem id k) k v

destroy_at-Ports : (o : Option Ptr) (k : Kernel) → Ports k → Leaves Ports (destroy_at o k)
destroy_at-Ports none k v = v
destroy_at-Ports (some s) k v = Ports-same k (release s k) (release-ports s k) v

pub sem_destroy-Ports : (id : ℕ) (k : Kernel) → Ports k → Leaves Ports (Sem.destroy id k)
unfolding Sem.destroy
sem_destroy-Ports id k v = destroy_at-Ports (find rsrc_sem id k) k v

pub sem_create-Ports :
    (s : Ptr) (count : ℤ) (name : Option (List ℕ)) (k : Kernel)
    → Ports k
    → Leaves Ports (Sem.create s count name k)
unfolding Sem.create bind assign
sem_create-Ports s count name k v = elim (Bool-cases (k.rfree == 0)) [
  | inl e ↦ rw (e, Leaves) tt
  | inr e ↦
      rw (e, Leaves)
        (set_name-Ports s name (assign s rsrc_sem (k.resources k.current).owner (put_sem s count k))
          v)
]

wait_at-Ports : (o : Option Ptr) (k : Kernel) → Ports k → Leaves Ports (wait_at o k)
wait_at-Ports none k v = v
wait_at-Ports (some t) k v = wait-Ports ℤ t k v

pub thr_wait-Ports : (id : ℕ) (k : Kernel) → Ports k → Leaves Ports (thr_wait id k)
unfolding thr_wait
thr_wait-Ports id k v = wait_at-Ports (find rsrc_task id k) k v
