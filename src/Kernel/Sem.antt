-- ===== src/Kernel/Sem.antt =====
-- kernel/sem.c: counting semaphores. A negative count says how many tasks sleep.
pub mod Count
use frotznet.Prelude.{ℕ, Option, none, some, List, if◌then◌else◌}
use frotznet.Prelude.Int.{ℤ, pos, negsuc, ◌+ℤ◌, ◌-ℤ◌, ltb_ℤ}
use frotznet.Kernel.State.{Ptr, rsrc_sem, Kernel, put_sem, err_none, err_resource}
use frotznet.Kernel.Resource.{find, bind, set_name, dequeue}
use frotznet.Kernel.Task.{Outcome, returns, halts, wait_on, preempt, release}

-- sem_create; `s` is the address that kmalloc returns.
unfoldable pub create : Ptr → ℤ → Option (List ℕ) → Kernel → Outcome ℕ
unfolding bind set_name
create s count name k =
    let owner = (k.resources k.current).owner in
    elim (bind s rsrc_sem owner (put_sem s count k)) [
      | none ↦ halts
      | some k' ↦ let k'' = set_name s name k' in returns (k''.resources s).id k''
    ]

abbrev pub destroy_at : Option Ptr → Kernel → Outcome ℤ
destroy_at none k = returns err_resource k
destroy_at (some s) k = returns err_none (release s k)

-- sem_destroy
unfoldable pub destroy : ℕ → Kernel → Outcome ℤ
unfolding find release
destroy id k = destroy_at (find rsrc_sem id k) k

-- count++ and count-- on an int, which wraps around.
unfoldable pub inc : ℤ → ℤ
inc c = if ltb_ℤ c (pos 0x7fffffff) then c +ℤ pos 1 else negsuc 0x7fffffff

unfoldable pub dec : ℤ → ℤ
dec c = if ltb_ℤ (negsuc 0x7fffffff) c then c -ℤ pos 1 else pos 0x7fffffff

-- One unit is taken: the task goes on if there was one, and sleeps if not.
abbrev pub acquire_at : Option Ptr → Kernel → Outcome ℤ
acquire_at none k = returns err_resource k
acquire_at (some s) k =
    let k' = put_sem s (dec (k.sems s)) k in
    if ltb_ℤ (pos 0) (k.sems s) then returns err_none k' else wait_on s k'

-- sem_acquire, up to the switch if the task has to wait.
unfoldable pub acquire : ℕ → Kernel → Outcome ℤ
unfolding find dec wait_on
acquire id k = acquire_at (find rsrc_sem id k) k

-- The rest of sem_acquire when the task runs again: the status of the wait is its result.
unfoldable pub acquired : Kernel → Outcome ℤ
acquired k = returns (k.tasks k.current).status k

abbrev pub hand_over : Option Ptr × Kernel → Kernel
hand_over (none, k) = k
hand_over (some task, k) = preempt task err_none k

abbrev pub release_at : Option Ptr → Kernel → Outcome ℤ
release_at none k = returns err_resource k
release_at (some s) k = returns err_none (hand_over (dequeue s (put_sem s (inc (k.sems s)) k)))

-- sem_release: a task that waits takes the processor at once. The result is the caller's, which
-- `preempt` has put on the run queue in that case.
unfoldable pub release_one : ℕ → Kernel → Outcome ℤ
unfolding find inc dequeue preempt
release_one id k = release_at (find rsrc_sem id k) k
