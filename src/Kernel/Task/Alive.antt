-- ===== src/Kernel/Task/Alive.antt =====
-- The switch of kernel/kernel.c while tasks are alive.
use frotznet.Prelude.{
  ◌≡◌, ◌≢◌, refl, sym, ap, ◌∙◌, subst, true, ◌&&◌, not, if◌then◌else◌, ◌++◌, false, Option, none,
  some, List, [], ◌∷◌, arith, ◌==◌, Bool-cases, inl, inr,
}
use frotznet.Prelude.Int.{ℤ, pos}
use frotznet.Kernel.State.{Ptr, Task, Kernel, put_task, err_none}
use frotznet.Kernel.Resource.{enqueue, dequeue, detached}
use frotznet.Kernel.Task.{
  run, dispatch, dispatch_next, requeue_current, is_empty, is_running, is_dead, swtch, wake,
  wake_first, wake_one, Outcome, returns, sleeps, halts, asleep, wait_on,
}

abbrev pub Alive : Kernel → Type 0
Alive k = ((t : Ptr) → is_dead (k.tasks t).flags ≡ false) × (k.live_tasks ≢ 0)

put_task-Alive :
    (a : Ptr) (t : Task) (k : Kernel) → is_dead t.flags ≡ false → Alive k → Alive (put_task a t k)
put_task-Alive a t k h v = (λ u. ground (arith, v.0 u), v.1)

enqueue-Alive : (r t : Ptr) (k : Kernel) → Alive k → Alive (enqueue r t k)
unfolding enqueue
enqueue-Alive r t k v = (λ u. ground (arith, v.0 u), v.1)

detached-Alive : (r : Ptr) (q : List Ptr) (k : Kernel) → Alive k → Alive (detached r q k).1
detached-Alive r [] k v = v
detached-Alive r (t ∷ ts) k v = (λ u. ground (arith, v.0 u), v.1)

dequeue-Alive : (r : Ptr) (k : Kernel) → Alive k → Alive (dequeue r k).1
unfolding dequeue
dequeue-Alive r k v = detached-Alive r (k.resources r).queue k v

run-Alive : (t : Ptr) (k : Kernel) → Alive k → Alive (run t k)
run-Alive t k v = (λ u. ground (arith, v.0 u), v.1)

dispatch-Alive : (t : Ptr) (k : Kernel) → Alive k → (l : Kernel) × (dispatch t k ≡ some l) × Alive l
dispatch-Alive t k v = (run t k, rw (v.0 t) refl, run-Alive t k v)

dispatch_next-Alive :
    (o : Option Ptr) (k : Kernel)
    → Alive k
    → (l : Kernel) × (dispatch_next (o, k) ≡ some l) × Alive l
dispatch_next-Alive (some t) k v = dispatch-Alive t k v
dispatch_next-Alive none k v =
    let e : (k.live_tasks == 0) ≡ false = ground (arith, v.1) in
    rw e (dispatch-Alive k.idle_task k v)

requeue_current-Alive : (k : Kernel) → Alive k → Alive (requeue_current k)
requeue_current-Alive k v = elim (Bool-cases (k.current == k.idle_task)) [
  | inl e ↦ rw e v
  | inr e ↦ rw e (enqueue-Alive k.run_queue k.current k v)
]

next-Alive :
    (q : Ptr) (k : Kernel)
    → Alive k
    → (l : Kernel) × (dispatch_next (dequeue q k) ≡ some l) × Alive l
next-Alive q k v = dispatch_next-Alive (dequeue q k).0 (dequeue q k).1 (dequeue-Alive q k v)

swtch-some : (k : Kernel) → Alive k → (l : Kernel) × (swtch k ≡ some l) × Alive l
unfolding swtch
swtch-some k v = elim (Bool-cases (is_running (k.tasks k.current).flags)) [
  | inl e ↦ rw e (elim (Bool-cases (is_empty (k.resources k.run_queue).queue)) [
    | inl q ↦ rw q (k, refl, v)
    | inr q ↦ rw q (next-Alive k.run_queue (requeue_current k) (requeue_current-Alive k v))
  ])
  | inr e ↦ rw e (elim (Bool-cases (is_empty (k.resources k.run_queue).queue)) [
    | inl q ↦ rw q (next-Alive k.run_queue k v)
    | inr q ↦ rw q (next-Alive k.run_queue k v)
  ])
]

-- The tasks that wait for the processor when swtch is called, the running one last, unless it idles.
abbrev pub waiting : Kernel → List Ptr
waiting k =
    if is_running (k.tasks k.current).flags && not (k.current == k.idle_task)
    then (k.resources k.run_queue).queue ++ (k.current ∷ [])
    else (k.resources k.run_queue).queue

abbrev pub first_or : Ptr → List Ptr → Ptr
first_or idle [] = idle
first_or idle (t ∷ ts) = t

abbrev pub others : List Ptr → List Ptr
others [] = []
others (t ∷ ts) = ts

-- The first of some tasks runs, or the idle task, and the others wait.
pub record Runs (k : Kernel) (ts : List Ptr) (l : Kernel) : Type 0 where
  pub current : l.current ≡ first_or k.idle_task ts
  pub running : is_running (l.tasks l.current).flags ≡ true
  pub queue : (l.resources k.run_queue).queue ≡ others ts

-- A switch to the first of some tasks.
abbrev Switches : Kernel → List Ptr → Option Kernel → Type 0
Switches k ts o = (l : Kernel) × (o ≡ some l) × Alive l × Runs k ts l

next-Switches :
    (q : List Ptr) (k : Kernel)
    → (k.resources k.run_queue).queue ≡ q
    → Alive k
    → Switches k q (dispatch_next (detached k.run_queue q k))
next-Switches [] k e v =
    let some_live : (k.live_tasks == 0) ≡ false = ground (arith, v.1) in
    (
      run k.idle_task k,
      rw (some_live, v.0 k.idle_task) refl,
      run-Alive k.idle_task k v,
      record { current = refl; running = ground arith; queue = e },
    )
next-Switches (t ∷ ts) k e v =
    let l = (detached k.run_queue (t ∷ ts) k).1 in
    let w = detached-Alive k.run_queue (t ∷ ts) k v in
    (
      run t l,
      rw (w.0 t) refl,
      run-Alive t l w,
      record { current = refl; running = ground arith; queue = ground arith },
    )

-- The running task goes on.
stays-Switches :
    (k : Kernel) (ts : List Ptr)
    → Alive k
    → k.current ≡ first_or k.idle_task ts
    → is_running (k.tasks k.current).flags ≡ true
    → (k.resources k.run_queue).queue ≡ others ts
    → Switches k ts (some k)
stays-Switches k ts v first runs rest =
    (k, refl, v, record { current = first; running = runs; queue = rest })

module _ (k : Kernel) (v : Alive k) where
  rests-Switches :
      (q : List Ptr)
      → (k.resources k.run_queue).queue ≡ q
      → Switches k q
          (if is_empty q && false then some k else dispatch_next (detached k.run_queue q k))
  rests-Switches [] e = next-Switches [] k e v
  rests-Switches (t ∷ ts) e = next-Switches (t ∷ ts) k e v

  module _ (runs : is_running (k.tasks k.current).flags ≡ true) where
    idle-Switches :
        (q : List Ptr)
        → (k.resources k.run_queue).queue ≡ q
        → k.current ≡ k.idle_task
        → Switches k q
            (if is_empty q && true then some k else dispatch_next (detached k.run_queue q k))
    idle-Switches [] e idle = stays-Switches k [] v idle runs e
    idle-Switches (t ∷ ts) e idle = next-Switches (t ∷ ts) k e v

    busy-Switches :
        (q : List Ptr)
        → (k.resources k.run_queue).queue ≡ q
        → Switches k (q ++ (k.current ∷ [])) (
            if is_empty q && true
            then some k
            else dispatch_next (dequeue k.run_queue (enqueue k.run_queue k.current k)))
    unfolding dequeue enqueue
    busy-Switches [] e = stays-Switches k (k.current ∷ []) v refl runs e
    busy-Switches (t ∷ ts) e =
        let k' = enqueue k.run_queue k.current k in
        let q : (k'.resources k.run_queue).queue ≡ t ∷ (ts ++ (k.current ∷ [])) = ground arith in
        let (l, done, alive, r) =
          next-Switches (t ∷ (ts ++ (k.current ∷ []))) k' q
            (enqueue-Alive k.run_queue k.current k v) in
        (
          l,
          ap (λ (ns : List Ptr). dispatch_next (detached k.run_queue ns k')) q ∙ done,
          alive,
          record { current = r.current; running = r.running; queue = r.queue },
        )

  swtch-Switches : Switches k (waiting k) (swtch k)
  unfolding swtch dequeue
  swtch-Switches =
      let q = (k.resources k.run_queue).queue in
      elim (Bool-cases (is_running (k.tasks k.current).flags)) [
        | inr rests ↦ rw (rests, if◌then◌else◌) (rests-Switches q refl)
        | inl runs ↦ elim (Bool-cases (k.current == k.idle_task)) [
          | inl idle ↦
              let same : k.current ≡ k.idle_task = ground arith in
              rw (runs, idle, if◌then◌else◌) (idle-Switches runs q refl same)
          | inr other ↦ rw (runs, other, if◌then◌else◌) (busy-Switches runs q refl)
        ]
      ]

-- While no task is dead and some task lives, swtch finds a task to run, and none dies. The first of those
-- that wait for the processor gets it, where the one that was running is the last of them unless it is
-- the idle task; the idle task gets it where none waits. The others stay on the run queue in their order.
pub swtch-Alive :
    (k : Kernel) → Alive k → (l : Kernel) × (swtch k ≡ some l) × Alive l × Runs k (waiting k) l
swtch-Alive k v = swtch-Switches k v

-- wait_on always goes to sleep: another task runs, and none dies.
pub wait_on-Alive :
    (A : Type 0) (r : Ptr) (k : Kernel)
    → Alive k
    → (l : Kernel) × (wait_on {A = A} r k ≡ sleeps l) × Alive l
unfolding wait_on
wait_on-Alive A r k v =
    let t = record (k.tasks k.current) { status = pos 0 } in
    let n = put_task k.current t k in
    let w = put_task-Alive k.current t k (v.0 k.current) v in
    let (l, e, a) = swtch-some (enqueue r k.current n) (enqueue-Alive r k.current n w) in
    (l, rw (e, asleep) refl, a)

wake-Alive : (t : Ptr) (status : ℤ) (k : Kernel) → Alive k → Alive (wake t status k)
unfolding wake
wake-Alive t status k v =
    let u = record (k.tasks t) { status = status } in
    enqueue-Alive k.run_queue t (put_task t u k) (put_task-Alive t u k (v.0 t) v)

wake_first-Alive : (o : Option Ptr) (k : Kernel) → Alive k → Alive (wake_first (o, k))
wake_first-Alive none k v = v
wake_first-Alive (some t) k v = wake-Alive t err_none k v

pub wake_one-Alive : (r : Ptr) (k : Kernel) → Alive k → Alive (wake_one r k)
unfolding wake_one
wake_one-Alive r k v = wake_first-Alive (dequeue r k).0 (dequeue r k).1 (dequeue-Alive r k v)

pub wait_on-ne-halts : (A : Type 0) (r : Ptr) (k : Kernel) → Alive k → wait_on {A = A} r k ≢ halts
wait_on-ne-halts A r k v h =
    let (l, e, a) = wait_on-Alive A r k v in absurd (subst slept (sym e ∙ h) tt)
  where
    slept : Outcome A → Type 0
    slept (sleeps l) = Unit
    slept _ = ⊥

-- The call does not halt, and no task dies.
abbrev pub GoesOn : {A : Type 0} → Outcome A → Type 0
GoesOn (returns a k) = Alive k
GoesOn (sleeps k) = Alive k
GoesOn halts = ⊥

pub wait_on-GoesOn : (A : Type 0) (r : Ptr) (k : Kernel) → Alive k → GoesOn {A = A} (wait_on r k)
wait_on-GoesOn A r k v = let (l, e, a) = wait_on-Alive A r k v in rw (e, GoesOn) a
