-- ===== src/Kernel/Sem/Count.antt =====
-- The count of a semaphore of kernel/sem.c and the tasks that sleep on it.
use frotznet.Prelude.{
  ℕ, ◌<◌, ◌≡◌, ◌≢◌, refl, inl, inr, true, false, some, List, [], ◌∷◌, ◌++◌, arith, length,
  length-append, if◌then◌else◌, Bool-cases, sym, ◌∙◌, subst,
}
use frotznet.Prelude.Int.{ℤ, pos, pos_part, neg_part, ◌+ℤ◌, ◌-ℤ◌, ltb_ℤ}
use frotznet.Kernel.State.{Ptr, rsrc_sem, Kernel, put_sem, err_none}
use frotznet.Kernel.Resource.{find, detached}
use frotznet.Kernel.Task.{Outcome, returns, sleeps, halts, wait_on, preempt}
use frotznet.Kernel.Task.Switch.{Leaves, SleptOn, wait_on-SleptOn, preempt-Switched, wait_on_sleeps}
use frotznet.Kernel.Task.Alive.{Alive, wait_on-ne-halts}
use frotznet.Kernel.Sem.{inc, dec, acquire, acquire_at, release_one, release_at, hand_over}

-- The sleepers are as many as the count is below zero.
abbrev pub Counts : Ptr → Kernel → Type 0
Counts s k = length (k.resources s).queue ≡ neg_part (k.sems s)

-- After a call the count of `s` is `c`, its sleepers agree with it, and no other count has moved.
pub record Counted (s : Ptr) (c : ℤ) (k l : Kernel) : Type 0 where
  pub count : l.sems s ≡ c
  pub sleepers : Counts s l
  pub others : (a : Ptr) → a ≢ s → l.sems a ≡ k.sems a

dec_lem : (c : ℤ) → neg_part c < 0x80000000 → dec c ≡ c -ℤ pos 1
unfolding dec ◌-ℤ◌
dec_lem c h = ground arith

inc_lem : (c : ℤ) → pos_part c < 0x7fffffff → inc c ≡ c +ℤ pos 1
unfolding inc ◌+ℤ◌
inc_lem c h = ground arith

module _ (id : ℕ) (s : Ptr) (k : Kernel) (found : find rsrc_sem id k ≡ some s)
    (ne : s ≢ k.run_queue) (v : Counts s k) where
  taken : Kernel
  taken = put_sem s (k.sems s -ℤ pos 1) k

  slept-Counted :
      (l : Kernel)
      → ltb_ℤ (pos 0) (k.sems s) ≡ false
      → SleptOn s taken l
      → Counted s (k.sems s -ℤ pos 1) k l
  unfolding taken ◌-ℤ◌
  slept-Counted l low w = record {
    count = rw w.objects.sems (ground arith);
    sleepers = rw (w.own_queue, w.objects.sems, length-append {0}) (ground arith);
    others = λ a h. rw w.objects.sems (ground arith);
  }

  -- A count that stays at 0 or above leaves no sleeper.
  sleepers_taken : ltb_ℤ (pos 0) (k.sems s) ≡ true → Counts s taken
  unfolding taken ◌-ℤ◌
  sleepers_taken e = ground arith

  -- What sem_acquire does: it goes on at a positive count and sleeps at the end of the queue at any other.
  abbrev pub Acquires : Outcome ℤ → Type 0
  Acquires (returns a l) =
      (a ≡ err_none)
      × (ltb_ℤ (pos 0) (k.sems s) ≡ true)
      × ((l.resources s).queue ≡ (k.resources s).queue)
      × Counted s (k.sems s -ℤ pos 1) k l
  Acquires (sleeps l) =
      (ltb_ℤ (pos 0) (k.sems s) ≡ false)
      × ((l.resources s).queue ≡ (k.resources s).queue ++ (k.current ∷ []))
      × Counted s (k.sems s -ℤ pos 1) k l
  Acquires halts = (ltb_ℤ (pos 0) (k.sems s) ≡ false) × ¬ Alive k

  slept-Acquires :
      (o : Outcome ℤ)
      → ltb_ℤ (pos 0) (k.sems s) ≡ false
      → ((a : ℤ) (l : Kernel) → o ≢ returns a l)
      → (Alive taken → o ≢ halts)
      → Leaves (SleptOn s taken) o
      → Acquires o
  unfolding taken
  slept-Acquires (returns a l) low never lives w = absurd (never a l refl)
  slept-Acquires (sleeps l) low never lives w = (low, w.own_queue, slept-Counted l low w)
  slept-Acquires halts low never lives w = (low, λ alive. lives alive refl)

  -- sem_acquire on a semaphore whose sleepers are as many as its count is below zero takes one from
  -- it, if the count is above the least int and the semaphore's queue is not the run queue. At a positive count it returns ERR_NONE at once; at any other the task goes to the end of the
  -- queue, or, only if a task is dead or none lives, the kernel halts. The sleepers stay as many as the count is
  -- below zero, and no other semaphore changes.
  pub acquire-Acquires : neg_part (k.sems s) < 0x80000000 → Acquires (acquire id k)
  unfolding acquire taken
  acquire-Acquires fits =
      let less = dec_lem (k.sems s) fits in
      subst (λ o. Acquires (acquire_at o k)) (sym found)
        (elim (Bool-cases (ltb_ℤ (pos 0) (k.sems s))) [
          | inl e ↦
              rw (less, e, if◌then◌else◌)
                (
                  refl,
                  e,
                  refl,
                  record {
                    count = ground arith;
                    sleepers = sleepers_taken e;
                    others = λ a h. ground arith;
                  },
                )
          | inr e ↦
              rw (less, e, if◌then◌else◌)
                (slept-Acquires (wait_on s taken) e (wait_on_sleeps s taken)
                  (wait_on-ne-halts ℤ s taken) (wait_on-SleptOn ℤ s taken ne))
        ])

  -- What sem_release leaves: with no sleeper the caller goes on; else the first one runs, with ERR_NONE.
  abbrev pub Releases : List Ptr → Kernel → Type 0
  Releases [] l =
      (l.current ≡ k.current) × ((l.resources s).queue ≡ []) × Counted s (k.sems s +ℤ pos 1) k l
  Releases (t ∷ ts) l =
      (l.current ≡ t)
      × ((l.tasks t).status ≡ err_none)
      × ((l.resources s).queue ≡ ts)
      × Counted s (k.sems s +ℤ pos 1) k l

  given : Kernel
  given = put_sem s (k.sems s +ℤ pos 1) k

  hand_over-Releases :
      (q : List Ptr) → (k.resources s).queue ≡ q → Releases q (hand_over (detached s q given))
  unfolding given ◌+ℤ◌
  hand_over-Releases [] e = (
    refl,
    e,
    record { count = ground arith; sleepers = ground arith; others = λ a h. ground arith },
  )
  hand_over-Releases (t ∷ ts) e =
      let l = (detached s (t ∷ ts) given).1 in
      let w = preempt-Switched t err_none l in
      let q : ((preempt t err_none l).resources s).queue ≡ ts = w.queue s ne ∙ ground arith in
      (
        unfold preempt in refl,
        unfold preempt in ground arith,
        q,
        record {
          count = rw w.objects.sems (ground arith);
          sleepers = rw (q, w.objects.sems) (ground arith);
          others = λ a h. rw w.objects.sems (ground arith);
        },
      )

  -- sem_release on a semaphore whose sleepers are as many as its count is below zero, whose count is below
  -- the largest int and whose queue is not the run queue adds one to it and
  -- returns ERR_NONE. With no sleeper the caller goes on; else the first sleeper leaves the queue and
  -- takes the processor with the status ERR_NONE. The sleepers stay as many as the count is below zero,
  -- and no other semaphore changes.
  pub release-Releases :
      pos_part (k.sems s) < 0x7fffffff
      → (l : Kernel) × (release_one id k ≡ returns err_none l) × Releases (k.resources s).queue l
  unfolding release_one given
  release-Releases fits = (
    hand_over (detached s (k.resources s).queue given),
    subst
        (λ o.
          release_at o k ≡ returns err_none (hand_over (detached s (k.resources s).queue given)))
        (sym found) (let more = inc_lem (k.sems s) fits in rw more refl),
    hand_over-Releases (k.resources s).queue refl,
  )
