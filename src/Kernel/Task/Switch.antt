-- ===== src/Kernel/Task/Switch.antt =====
-- swtch, preempt and wait_on of kernel/kernel.c and kernel/task.c: what they leave alone.
use frotznet.Prelude.{
  ◌≡◌, ◌≢◌, refl, ◌∙◌, Option, none, some, [], ◌∷◌, ◌++◌, arith, ◌==◌, Bool-cases, inl, inr, sym,
}
use frotznet.Prelude.Int.{ℤ, pos}
use frotznet.Kernel.State.{Ptr, Task, Kernel, put_task}
use frotznet.Kernel.Resource.{enqueue, dequeue}
use frotznet.Kernel.Task.{
  run, dispatch, dispatch_next, requeue_current, is_empty, is_running, is_dead, swtch, preempt,
  Outcome, returns, sleeps, halts, asleep, wait_on,
}
use frotznet.Kernel.Task.Frame.{
  SameObjects, SameObjects-refl, SameObjects-trans, enqueue-SameObjects, dequeue-SameObjects,
}

pub record Switched (k l : Kernel) : Type 0 where
  pub objects : SameObjects k l
  pub queue : (r : Ptr) → r ≢ k.run_queue → (l.resources r).queue ≡ (k.resources r).queue

Switched-refl : (k : Kernel) → Switched k k
Switched-refl k = record { objects = SameObjects-refl k; queue = λ r h. refl }

Switched-trans : (k l m : Kernel) → Switched k l → Switched l m → Switched k m
Switched-trans k l m s t = record {
  objects = SameObjects-trans k l m s.objects t.objects;
  queue = λ r h. t.queue r (λ e. h (e ∙ s.objects.run_queue)) ∙ s.queue r h;
}

enqueue-Switched : (task : Ptr) (k : Kernel) → Switched k (enqueue k.run_queue task k)
enqueue-Switched task k = record {
  objects = enqueue-SameObjects k.run_queue task k;
  queue = λ r h. unfold enqueue in ground arith;
}

dequeue-Switched : (k : Kernel) → Switched k (dequeue k.run_queue k).1
dequeue-Switched k = record {
  objects = dequeue-SameObjects k.run_queue k;
  queue = λ r h. unfold dequeue in ground arith;
}

run-Switched : (task : Ptr) (k : Kernel) → Switched k (run task k)
run-Switched task k = record {
  objects = record {
    rmap = refl;
    rfree = refl;
    rmax = refl;
    null_resource = refl;
    kind = λ a. refl;
    id = λ a. refl;
    owner = λ a. refl;
    ports = refl;
    sems = refl;
    run_queue = refl;
    msg_pool = refl;
  };
  queue = λ r h. refl;
}

requeue_current-Switched : (k : Kernel) → Switched k (requeue_current k)
requeue_current-Switched k = elim (Bool-cases (k.current == k.idle_task)) [
  | inl e ↦ rw e (Switched-refl k)
  | inr e ↦ rw e (enqueue-Switched k.current k)
]

abbrev pub Every : (Kernel → Type 0) → Option Kernel → Type 0
Every P none = Unit
Every P (some k) = P k

dispatch-Every : (task : Ptr) (k l : Kernel) → Switched k l → Every (Switched k) (dispatch task l)
dispatch-Every task k l s = elim (Bool-cases (is_dead (l.tasks task).flags)) [
  | inl e ↦ rw e tt
  | inr e ↦ rw e (Switched-trans k l _ s (run-Switched task l))
]

dispatch_next-Every :
    (o : Option Ptr) (k l : Kernel) → Switched k l → Every (Switched k) (dispatch_next (o, l))
dispatch_next-Every (some t) k l s = dispatch-Every t k l s
dispatch_next-Every none k l s = elim (Bool-cases (l.live_tasks == 0)) [
  | inl e ↦ rw e tt
  | inr e ↦ rw e (dispatch-Every l.idle_task k l s)
]

next-Every :
    (q : Ptr) (k l : Kernel)
    → q ≡ l.run_queue
    → Switched k l
    → Every (Switched k) (dispatch_next (dequeue q l))
next-Every q k l e s = rw e (
    dispatch_next-Every (dequeue l.run_queue l).0 k (dequeue l.run_queue l).1
      (Switched-trans k l _ s (dequeue-Switched l)))

-- Where swtch finds a task to run, it changes no port, no semaphore, no entry of the resource map and no
-- queue but the run queue.
pub swtch-Switched : (k : Kernel) → Every (Switched k) (swtch k)
unfolding swtch
swtch-Switched k = elim (Bool-cases (is_running (k.tasks k.current).flags)) [
  | inl e ↦ rw e (elim (Bool-cases (is_empty (k.resources k.run_queue).queue)) [
    | inl q ↦ rw q (Switched-refl k)
    | inr q ↦
        let s = requeue_current-Switched k in
        rw q (next-Every k.run_queue k (requeue_current k) (sym s.objects.run_queue) s)
  ])
  | inr e ↦ rw e (elim (Bool-cases (is_empty (k.resources k.run_queue).queue)) [
    | inl q ↦ rw q (next-Every k.run_queue k k refl (Switched-refl k))
    | inr q ↦ rw q (next-Every k.run_queue k k refl (Switched-refl k))
  ])
]

put_task-SameObjects : (task : Ptr) (t : Task) (k : Kernel) → SameObjects k (put_task task t k)
put_task-SameObjects task t k = record {
  rmap = refl;
  rfree = refl;
  rmax = refl;
  null_resource = refl;
  kind = λ a. refl;
  id = λ a. refl;
  owner = λ a. refl;
  ports = refl;
  sems = refl;
  run_queue = refl;
  msg_pool = refl;
}

put_task-Switched : (task : Ptr) (t : Task) (k : Kernel) → Switched k (run task (put_task task t k))
put_task-Switched task t k = record {
  objects = record {
    rmap = refl;
    rfree = refl;
    rmax = refl;
    null_resource = refl;
    kind = λ a. refl;
    id = λ a. refl;
    owner = λ a. refl;
    ports = refl;
    sems = refl;
    run_queue = refl;
    msg_pool = refl;
  };
  queue = λ r h. refl;
}

-- preempt changes no port, no semaphore, no entry of the resource map and no queue but the run queue.
pub preempt-Switched : (task : Ptr) (status : ℤ) (k : Kernel) → Switched k (preempt task status k)
unfolding preempt
preempt-Switched task status k =
    let l = requeue_current k in
    let t = record (l.tasks task) { status = status } in
    Switched-trans k l _ (requeue_current-Switched k) (put_task-Switched task t l)

-- What a call leaves behind, whether it returns or its task sleeps.
abbrev pub Leaves : {A : Type 0} → (Kernel → Type 0) → Outcome A → Type 0
Leaves P (returns a k) = P k
Leaves P (sleeps k) = P k
Leaves P halts = Unit {0}

-- A task that sleeps on `r` changes the queue of `r`, and no object.
pub record SleptOn (r : Ptr) (k l : Kernel) : Type 0 where
  pub objects : SameObjects k l
  pub own_queue : (l.resources r).queue ≡ (k.resources r).queue ++ (k.current ∷ [])
  pub queue : (q : Ptr) → q ≢ r → q ≢ k.run_queue → (l.resources q).queue ≡ (k.resources q).queue

asleep-Leaves :
    (A : Type 0) (P Q : Kernel → Type 0) (o : Option Kernel)
    → ((k : Kernel) → P k → Q k)
    → Every P o
    → Leaves {A = A} Q (asleep o)
asleep-Leaves A P Q none h e = tt
asleep-Leaves A P Q (some k) h e = h k e

-- wait_on on a resource other than the run queue puts the current task at the end of its queue, and
-- changes no other queue but the run queue, no port, no semaphore and no entry of the resource map,
-- where it finds another task to run.
pub wait_on-SleptOn :
    (A : Type 0) (r : Ptr) (k : Kernel)
    → r ≢ k.run_queue
    → Leaves {A = A} (SleptOn r k) (wait_on r k)
unfolding wait_on
wait_on-SleptOn A r k ne =
    let l = put_task k.current (record (k.tasks k.current) { status = pos 0 }) k in
    let m = enqueue r k.current l in
    let e =
      SameObjects-trans k l m (put_task-SameObjects k.current _ k)
        (enqueue-SameObjects r k.current l) in
    asleep-Leaves A (Switched m) (SleptOn r k) (swtch m)
      (λ n s. record {
        objects = SameObjects-trans k m n e s.objects;
        own_queue = s.queue r ne ∙ ground arith;
        queue = λ q h h'. s.queue q h' ∙ ground arith;
      })
      (swtch-Switched m)

asleep_sleeps : (A : Type 0) (o : Option Kernel) (a : A) (l : Kernel) → asleep o ≢ returns a l
asleep_sleeps A none a l e = cc
asleep_sleeps A (some k) a l e = cc

-- wait_on never goes on at once.
pub wait_on_sleeps :
    {A : Type 0} (r : Ptr) (k : Kernel) (a : A) (l : Kernel) → wait_on r k ≢ returns a l
unfolding wait_on
wait_on_sleeps {A} r k a l = asleep_sleeps A _ a l

pub Leaves-mono :
    (A : Type 0) (P Q : Kernel → Type 0) (o : Outcome A)
    → ((k : Kernel) → P k → Q k)
    → Leaves P o
    → Leaves Q o
Leaves-mono A P Q (returns a k) h p = h k p
Leaves-mono A P Q (sleeps k) h p = h k p
Leaves-mono A P Q halts h p = tt

pub wait_on-SameObjects :
    (A : Type 0) (r : Ptr) (k : Kernel) → Leaves {A = A} (SameObjects k) (wait_on r k)
unfolding wait_on
wait_on-SameObjects A r k =
    let l = put_task k.current (record (k.tasks k.current) { status = pos 0 }) k in
    let m = enqueue r k.current l in
    let e =
      SameObjects-trans k l m (put_task-SameObjects k.current _ k)
        (enqueue-SameObjects r k.current l) in
    asleep-Leaves A (Switched m) (SameObjects k) (swtch m)
      (λ n s. SameObjects-trans k m n e s.objects) (swtch-Switched m)
