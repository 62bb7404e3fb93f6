-- ===== src/Utils/Fdevent/Registry.antt =====
-- The calls of utils/fdevent.c that install and remove an fdevent, and the queue of pending events.
use frotznet.Prelude.{
  ℕ, ◌≡◌, refl, sym, ap, subst, Bool, true, false, ◌&&◌, Option, none, some, ◌==◌, ltb,
  if◌then◌else◌, update, Option-cases, inl, inr,
}
use frotznet.Prelude.Int.{ℤ, pos, negsuc}
use frotznet.Utils.Fdevent.{
  Ptr, Fde, World, nothing, put, plist_remove, init, register, install, disconnect, unregister,
  reset, remove, cleared, connected, connect, enter, grown,
}
use frotznet.Utils.Fdevent.Queue.{IsQueue, Queued, write-IsQueue, drop-IsQueue}

-- The queue and the fdevents are as they were.
abbrev Same : World → World → Type 0
Same w w' = (w'.queue ≡ w.queue) × (w'.fdes ≡ w.fdes)

init-Same : (first : Bool) (w : World) → Same w (if first then init w else w)
unfolding init
init-Same true w = (refl, refl)
init-Same false w = (refl, refl)

choice-Same :
    (small large : Bool) (a b w w' : World)
    → (if small then some a else if large then none else some b) ≡ some w'
    → Same w a
    → Same w b
    → Same w w'
choice-Same true large a b w w' e s t = let h : a ≡ w' = cc in subst (Same w) h s
choice-Same false true a b w w' e s t = absurd cc
choice-Same false false a b w w' e s t = let h : b ≡ w' = cc in subst (Same w) h t

register-Same : (f : Ptr) (w w' : World) → register f w ≡ some w' → Same w w'
unfolding register
register-Same f w w' e =
    let fd = (w.fdes f).fd in
    choice-Same (ltb fd w.table_max) (ltb 32000 fd) (enter f fd w) (enter f fd (grown fd w)) w w' e
      (refl, refl) (init-Same (w.table_max == 0) w)

one-Same :
    (b : Bool) (a w w' : World) → (if b then some a else none) ≡ some w' → Same w a → Same w w'
one-Same true a w w' e s = let h : a ≡ w' = cc in subst (Same w) h s
one-Same false a w w' e s = absurd cc

unregister-Same : (f : Ptr) (w w' : World) → unregister f w ≡ some w' → Same w w'
unfolding unregister
unregister-Same f w w' e =
    let x = w.fdes f in one-Same (ltb x.fd w.table_max && (w.table x.fd == f)) _ w w' e (refl, refl)

Same-Queued : (w w' : World) → Same w w' → Queued w → Queued w'
Same-Queued w w' s q =
    subst (λ fdes. IsQueue w'.queue fdes) (sym s.1) (subst (λ ns. IsQueue ns w.fdes) (sym s.0) q)

connected-Queued :
    (fd : ℕ) (o : Option World) (w w' : World)
    → connected fd o ≡ some w'
    → ((v : World) → o ≡ some v → Same w v)
    → Queued w
    → Queued w'
unfolding connect
connected-Queued fd none w w' e s q = absurd cc
connected-Queued fd (some v) w w' e s q =
    let h : connect fd v ≡ w' = cc in subst Queued h (Same-Queued w v (s v refl) q)

pub install-Queued :
    (f : Ptr) (fd : ℤ) (w w' : World)
    → install f fd w ≡ some w'
    → (w.fdes f).pending ≡ false
    → Queued w
    → Queued w'
unfolding install
install-Queued f (negsuc n) w w' e idle q = absurd cc
install-Queued f (pos fd) w w' e idle q =
    let x : Fde = record {
      fd = fd;
      wanted = nothing;
      active = true;
      pending = false;
      created = false;
      events = nothing;
    } in
    connected-Queued fd (register f (put f x w)) (put f x w) w' e (register-Same f (put f x w))
      (write-IsQueue w.queue w.fdes f x (sym idle) q)

-- With its fdevent cleared, the queue is right.
abbrev Leaves : Ptr → World → Type 0
Leaves f w = IsQueue w.queue (update w.fdes f (cleared (w.fdes f)))

Same-Leaves : (f : Ptr) (w w' : World) → Same w w' → Leaves f w → Leaves f w'
Same-Leaves f w w' s q =
    subst (λ fdes. IsQueue w'.queue (update fdes f (cleared (fdes f)))) (sym s.1)
      (subst (λ ns. IsQueue ns (update w.fdes f (cleared (w.fdes f)))) (sym s.0) q)

unlisted-Leaves :
    (pending : Bool) (f : Ptr) (w : World)
    → (w.fdes f).pending ≡ pending
    → Queued w
    → Leaves f (if pending then plist_remove f w else w)
unfolding plist_remove
unlisted-Leaves true f w e q = drop-IsQueue w.queue w.fdes f (cleared (w.fdes f)) refl q
unlisted-Leaves false f w e q = write-IsQueue w.queue w.fdes f (cleared (w.fdes f)) (sym e) q

reset-Queued :
    (active : Bool) (f fd : ℕ) (w w' : World)
    → reset f (if active then unregister f (disconnect fd w) else some w) ≡ some w'
    → Leaves f w
    → Queued w'
unfolding disconnect
reset-Queued false f fd w w' e q =
    let h : put f (cleared (w.fdes f)) w ≡ w' = cc in subst Queued h q
reset-Queued true f fd w w' e q = elim (Option-cases (unregister f (disconnect fd w))) [
  | inl bad ↦ absurd (let h = ap (reset f) bad in cc)
  | inr (v, u) ↦
      let h : put f (cleared (v.fdes f)) v ≡ w' = (let h = ap (reset f) u in cc) in
      subst Queued h (Same-Leaves f (disconnect fd w) v (unregister-Same f (disconnect fd w) v u) q)
]

pub remove-Queued : (f : Ptr) (w w' : World) → remove f w ≡ some w' → Queued w → Queued w'
unfolding remove
remove-Queued f w w' e q =
    let x = w.fdes f in
    reset-Queued x.active f x.fd (if x.pending then plist_remove f w else w) w' e
      (unlisted-Leaves x.pending f w refl q)
