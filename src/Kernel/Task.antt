-- ===== src/Kernel/Task.antt =====
-- kernel/task.c (task_wake, wait_on, thr_wait), kernel/kernel.c (swtch, preempt) and the release of a
-- resource, which wakes its sleepers. A call that sleeps ends in the state in which another task runs.
pub mod Frame
pub mod Release
pub mod Switch
pub mod Alive
use frotznet.Prelude.{
  ℕ, ◌+◌, Bool, true, false, ◌&&◌, Option, none, some, List, [], ◌∷◌, ◌==◌, if◌then◌else◌, update,
}
use frotznet.Prelude.Int.{ℤ, pos}
use frotznet.Kernel.State.{
  Ptr, rsrc_none, rsrc_task, TaskFlag, t_running, t_dead, Kernel, put_resource, put_task, put_queue,
  err_none, err_resource,
}
use frotznet.Kernel.Resource.{find, list_remove, disown, enqueue, dequeue}

-- task_wake
unfoldable pub wake : Ptr → ℤ → Kernel → Kernel
unfolding enqueue
wake task status k =
    enqueue k.run_queue task (put_task task (record (k.tasks task) { status = status }) k)

abbrev pub is_running : TaskFlag → Bool
is_running t_running = true
is_running _ = false

abbrev pub is_dead : TaskFlag → Bool
is_dead t_dead = true
is_dead _ = false

-- A task takes the processor.
abbrev pub run : Ptr → Kernel → Kernel
run task k =
    let t = k.tasks task in
    record (put_task task (record t { flags = t_running; scount = t.scount + 1 }) k) {
      current = task;
    }

abbrev pub dispatch : Ptr → Kernel → Option Kernel
dispatch task k = if is_dead (k.tasks task).flags then none else some (run task k)

abbrev pub dispatch_next : Option Ptr × Kernel → Option Kernel
dispatch_next (some task, k) = dispatch task k
dispatch_next (none, k) = if k.live_tasks == 0 then none else dispatch k.idle_task k

abbrev pub requeue_current : Kernel → Kernel
requeue_current k = if k.current == k.idle_task then k else enqueue k.run_queue k.current k

abbrev pub is_empty : List Ptr → Bool
is_empty [] = true
is_empty (_ ∷ _) = false

-- swtch; `none` where no task is left to run, or a dead one comes up.
unfoldable pub swtch : Kernel → Option Kernel
unfolding dequeue
swtch k =
    let running = is_running (k.tasks k.current).flags in
    if is_empty (k.resources k.run_queue).queue && running
    then some k
    else dispatch_next (dequeue k.run_queue (if running then requeue_current k else k))

-- preempt: the running task is put on the run queue, and `task` takes the processor.
unfoldable pub preempt : Ptr → ℤ → Kernel → Kernel
preempt task status k =
    let k = requeue_current k in
    run task (put_task task (record (k.tasks task) { status = status }) k)

-- How a system call goes on: it returns, or its task sleeps and another one runs, or the kernel
-- stops (a panic, or no task left).
pub data Outcome (A : Type 0) : Type 0 where
  returns : A → Kernel → Outcome A
  sleeps : Kernel → Outcome A
  halts : Outcome A

abbrev pub asleep : {A : Type 0} → Option Kernel → Outcome A
asleep none = halts
asleep (some k) = sleeps k

-- wait_on, up to the switch to another task. When `current` runs again, wait_on returns its status.
unfoldable pub wait_on : {A : Type 0} → Ptr → Kernel → Outcome A
unfolding enqueue swtch
wait_on r k =
    let t = record (k.tasks k.current) { status = pos 0 } in
    asleep (swtch (enqueue r k.current (put_task k.current t k)))

abbrev pub wait_at : Option Ptr → Kernel → Outcome ℤ
wait_at none k = returns err_resource k
wait_at (some task) k = wait_on task k

-- thr_wait, up to the switch; it then returns ERR_NONE whatever the status is.
unfoldable pub thr_wait : ℕ → Kernel → Outcome ℤ
unfolding find wait_on
thr_wait id k = wait_at (find rsrc_task id k) k

-- The head of a queue is made ready and woken, if there is one.
abbrev pub wake_first : Option Ptr × Kernel → Kernel
wake_first (none, k) = k
wake_first (some task, k) = wake task err_none k

unfoldable pub wake_one : Ptr → Kernel → Kernel
unfolding dequeue wake
wake_one r k = wake_first (dequeue r k)

-- The loop of rsrc_release over the tasks that wait for `r`, which is not the run queue.
unfoldable pub wake_all : Ptr → List Ptr → Kernel → Kernel
unfolding wake
wake_all r [] k = k
wake_all r (task ∷ ts) k = wake_all r ts (wake task err_resource (put_queue r ts k))

-- rsrc_release
unfoldable pub release : Ptr → Kernel → Kernel
unfolding list_remove wake_all
release r k =
    let id = (k.resources r).id in
    let k = disown r k in
    let k = record k { resource_list = list_remove r k.resource_list } in
    let k = wake_all r (k.resources r).queue k in
    let k = put_resource r (record (k.resources r) { kind = rsrc_none; id = 0 }) k in
    record k {
      rmap = update k.rmap id (record { resource = k.null_resource; next = k.rfree });
      rfree = id;
    }
