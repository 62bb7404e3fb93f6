-- ===== src/Utils/Fdevent/Steps.antt =====
-- The calls of utils/fdevent.c as steps, and the queue of pending events across them.
use frotznet.Prelude.{
  ℕ, zero, suc, ◌+◌, ◌-◌, ◌≡◌, refl, sym, ap, ◌∙◌, subst, Bool, true, false, none, some, List, [],
  ◌∷◌, arith, ◌==◌, if◌then◌else◌, update, update_self, Bool-cases, Option-cases, inl, inr,
}
use frotznet.Prelude.Int.{ℤ, pos, negsuc}
use frotznet.Kernel.Resource.{list_remove}
use frotznet.Utils.Fdevent.{
  Ptr, Events, Fde, World, nothing, same_events, put, update_sets, plist_remove, plist_dequeue,
  without, install, mark_created, create, destroy, remove, dequeued,
}
use frotznet.Utils.Fdevent.Loop.{
  events_at, want, prune, set, signal, Ready, process_from, process, process_result, due, called,
}
use frotznet.Utils.Fdevent.Queue.{IsQueue, Queued, write-IsQueue, drop-IsQueue, signal-Queued}
use frotznet.Utils.Fdevent.Registry.{install-Queued, remove-Queued}

process_from-Queued :
    (left i n : ℕ) (r : Ready) (w w' : World)
    → process_from left i n r w ≡ some w'
    → Queued w
    → Queued w'
unfolding process_from
process_from-Queued zero i n r w w' = λ e q. let s : w ≡ w' = cc in subst Queued s q
process_from-Queued (suc left) i n r w w' = elim (Bool-cases (n == 0)) [
  | inl stop ↦ rw (process_from, stop) λ e q. (let s : w ≡ w' = cc in subst Queued s q)
  | inr go ↦ elim (Bool-cases (same_events (events_at i r) nothing)) [
    | inl quiet ↦ rw (process_from, go, quiet) (process_from-Queued left (i + 1) n r w w')
    | inr busy ↦ elim (Bool-cases (w.table i == 0)) [
      | inl missing ↦ rw (process_from, go, busy, missing) λ e q. absurd cc
      | inr there ↦
          rw (process_from, go, busy, there)
            λ e q.
              process_from-Queued left (i + 1) (n - 1) r (signal (w.table i) (events_at i r) w) w' e
                (signal-Queued (w.table i) (events_at i r) w q)
    ]
  ]
]

process-Queued : (r : Ready) (w w' : World) → process r w ≡ some w' → Queued w → Queued w'
unfolding process
process-Queued r w w' e q = go r.result e
  where
    go : (n : ℤ) → process_result n r w ≡ some w' → Queued w'
    go (pos n) e = process_from-Queued w.select_n 0 n r w w' e q
    go (negsuc n) e = elim (Bool-cases r.interrupted) [
      | inl yes' ↦ (let s : w ≡ w' = cc in subst Queued s q)
      | inr no' ↦ absurd cc
    ]

update_sets-Queued : (f : Ptr) (e : Events) (w : World) → Queued w → Queued (update_sets f e w)
unfolding update_sets
update_sets-Queued f e w q = write-IsQueue w.queue w.fdes f _ refl q

prune-Queued :
    (f : Ptr) (e : Events) (w : World) → (w.fdes f).pending ≡ true → Queued w → Queued (prune f e w)
unfolding plist_remove
prune-Queued f e w busy q = elim (Bool-cases (same_events (without (w.fdes f).events e) nothing)) [
  | inl quiet ↦ rw (prune, quiet, if◌then◌else◌) (drop-IsQueue w.queue w.fdes f _ refl q)
  | inr loud ↦ rw (prune, loud, if◌then◌else◌) (write-IsQueue w.queue w.fdes f _ (sym busy) q)
]

-- The wanted events of an fdevent are written, and the sets for select if it is active.
rewrite-Queued :
    (f : Ptr) (e : Events) (w : World)
    → Queued w
    → Queued (put f (record (w.fdes f) { wanted = e }) w)
      × (((put f (record (w.fdes f) { wanted = e }) w).fdes f).pending ≡ (w.fdes f).pending)
rewrite-Queued f e w q = (
  write-IsQueue w.queue w.fdes f (record (w.fdes f) { wanted = e }) refl q,
  ap (λ y. y.pending) (update_self w.fdes f (record (w.fdes f) { wanted = e })),
)

want-Queued :
    (active : Bool) (f : Ptr) (e : Events) (w : World)
    → Queued w
    → Queued (want active f e w) × (((want active f e w).fdes f).pending ≡ (w.fdes f).pending)
unfolding update_sets
want-Queued true f e w q =
    let r = rewrite-Queued f e (update_sets f e w) (update_sets-Queued f e w q) in
    (r.0, r.1 ∙ ap (λ y. y.pending) (update_self w.fdes f (record (w.fdes f) { wanted = e })))
want-Queued false f e w q = rewrite-Queued f e w q

set_if-Queued :
    (same pending : Bool) (f : Ptr) (e : Events) (w w' : World)
    → Queued w
    → Queued w'
    → (w'.fdes f).pending ≡ pending
    → Queued (if same then w else if pending then prune f e w' else w')
set_if-Queued true pending f e w w' q q' h = q
set_if-Queued false true f e w w' q q' h = prune-Queued f e w' h q'
set_if-Queued false false f e w w' q q' h = q'

set-Queued : (f : Ptr) (e : Events) (w : World) → Queued w → Queued (set f e w)
unfolding set
set-Queued f e w q =
    let x = w.fdes f in
    let n = want-Queued x.active f e w q in
    set_if-Queued (same_events x.wanted e) x.pending f e w (want x.active f e w) q n.0 n.1

-- What the callback sees: its fdevent is off the queue.
pop-IsQueue :
    (g : Ptr) (q : List Ptr) (fdes : Ptr → Fde) (x : Fde)
    → x.pending ≡ false
    → IsQueue (g ∷ q) fdes
    → IsQueue q (update fdes g x)
unfolding list_remove
pop-IsQueue g q fdes x e i =
    let h : (g == g) ≡ true = ground arith in
    let one : list_remove g (g ∷ q) ≡ q = rw (h, if◌then◌else◌) refl in
    subst (λ ns. IsQueue ns (update fdes g x)) one (drop-IsQueue (g ∷ q) fdes g x e i)

called-Queued :
    (q : List Ptr) (f : Ptr) (e : Events) (w w' : World)
    → called (dequeued q w) ≡ some (f, e, w')
    → IsQueue q w.fdes
    → Queued w'
called-Queued [] f e w w' h i = absurd cc
called-Queued (g ∷ gs) f e w w' h i =
    let x = record (w.fdes g) { events = nothing; pending = false } in
    let s : put g x (record w { queue = gs }) ≡ w' = cc in
    subst Queued s (pop-IsQueue g gs w.fdes x refl i)

due-Queued : (f : Ptr) (e : Events) (w w' : World) → due w ≡ some (f, e, w') → Queued w → Queued w'
unfolding due plist_dequeue
due-Queued f e w w' h q = called-Queued w.queue f e w w' h q

create-Queued :
    (f : Ptr) (fd : ℤ) (w w' : World)
    → create f fd w ≡ some w'
    → (w.fdes f).pending ≡ false
    → Queued w
    → Queued w'
unfolding create
create-Queued f fd w w' e idle q = elim (Option-cases (install f fd w)) [
  | inl bad ↦ absurd (let h = ap (mark_created f) bad in cc)
  | inr (v, i) ↦
      let x = record (v.fdes f) { created = true } in
      let h : put f x v ≡ w' = (let h = ap (mark_created f) i in cc) in
      subst Queued h (write-IsQueue v.queue v.fdes f x refl (install-Queued f fd w v i idle q))
]

destroy-Queued : (f : Ptr) (w w' : World) → destroy f w ≡ some w' → Queued w → Queued w'
unfolding destroy
destroy-Queued f w w' e q = go (f == 0) (w.fdes f).created e
  where
    go :
        (null created : Bool)
        → (if null then some w else if created then remove f w else none) ≡ some w'
        → Queued w'
    go true created e = let h : w ≡ w' = cc in subst Queued h q
    go false true e = remove-Queued f w w' e q
    go false false e = absurd cc

-- A call: fdevent_set, which _add and _del are, fdevent_install and fdevent_remove that do not fail,
-- fdevent_create, at an address of an fdevent that is not pending, fdevent_destroy,
-- fdevent_process with what select reports, or a round of fdevent_loop up to the callback.
pub data Step : World → World → Type 0 where
  sets : (f : Ptr) (e : Events) (w : World) → Step w (set f e w)
  installs :
      (f : Ptr) (fd : ℤ) (w w' : World)
      → (w.fdes f).pending ≡ false
      → install f fd w ≡ some w'
      → Step w w'
  creates :
      (f : Ptr) (fd : ℤ) (w w' : World)
      → (w.fdes f).pending ≡ false
      → create f fd w ≡ some w'
      → Step w w'
  destroys : (f : Ptr) (w w' : World) → destroy f w ≡ some w' → Step w w'
  removes : (f : Ptr) (w w' : World) → remove f w ≡ some w' → Step w w'
  processes : (r : Ready) (w w' : World) → process r w ≡ some w' → Step w w'
  calls : (f : Ptr) (e : Events) (w w' : World) → due w ≡ some (f, e, w') → Step w w'

-- Any number of calls, in any order: those of the callbacks are among them.
pub data Steps : World → World → Type 0 where
  stop : (w : World) → Steps w w
  step : (w w' w'' : World) → Step w w' → Steps w' w'' → Steps w w''

Step-Queued : (w w' : World) → Step w w' → Queued w → Queued w'
Step-Queued w w' (sets f e _) q = set-Queued f e w q
Step-Queued w w' (installs f fd _ _ idle h) q = install-Queued f fd w w' h idle q
Step-Queued w w' (creates f fd _ _ idle h) q = create-Queued f fd w w' h idle q
Step-Queued w w' (destroys f _ _ h) q = destroy-Queued f w w' h q
Step-Queued w w' (removes f _ _ h) q = remove-Queued f w w' h q
Step-Queued w w' (processes r _ _ h) q = process-Queued r w w' h q
Step-Queued w w' (calls f e _ _ h) q = due-Queued f e w w' h q

-- After any sequence of calls in the build with select, each of which succeeds and none of which installs
-- or creates a pending fdevent anew, the queue holds each pending fdevent once and no other, if it was so before.
pub steps-Queued : (w w' : World) → Steps w w' → Queued w → Queued w'
steps-Queued w w' (stop _) q = q
steps-Queued w w' (step _ v _ s t) q = steps-Queued v w' t (Step-Queued w v s q)
