-- ===== src/Utils/Fdevent/Loop.antt =====
-- The events that are wanted, and the loop of utils/fdevent.c that finds and delivers them.
use frotznet.Prelude.{
  ℕ, zero, suc, ◌+◌, ◌-◌, Bool, true, false, not, Option, none, some, ◌==◌, if◌then◌else◌,
}
use frotznet.Prelude.Int.{ℤ, pos, negsuc}
use frotznet.Utils.Fdevent.{
  Ptr, Events, nothing, same_events, with, without, World, put, update_sets, plist_enqueue,
  plist_remove, plist_dequeue,
}

-- What fdevent_set does to a pending fdevent: the events that are wanted are dropped.
abbrev pub prune : Ptr → Events → World → World
prune f e w =
    let events = without (w.fdes f).events e in
    let quiet = same_events events nothing in
    let x = record (w.fdes f) { events = events; pending = not quiet } in
    put f x (if quiet then plist_remove f w else w)

-- The wanted events are written, and the sets for select if the fdevent is active.
abbrev pub want : Bool → Ptr → Events → World → World
want active f e w =
    let w' = if active then update_sets f e w else w in put f (record (w'.fdes f) { wanted = e }) w'

-- fdevent_set
unfoldable pub set : Ptr → Events → World → World
unfolding update_sets plist_remove
set f e w =
    let x = w.fdes f in
    let w' = want x.active f e w in
    if same_events x.wanted e then w else if x.pending then prune f e w' else w'

-- fdevent_add and fdevent_del
unfoldable pub add : Ptr → Events → World → World
unfolding set
add f e w = set f (with (w.fdes f).wanted e) w

unfoldable pub del : Ptr → Events → World → World
unfolding set
del f e w = set f (without (w.fdes f).wanted e) w

-- What select reports: its result, whether an error is EINTR, and the sets that it leaves.
pub record Ready : Type 0 where
  pub result : ℤ
  pub interrupted : Bool
  pub readable : ℕ → Bool
  pub writable : ℕ → Bool
  pub failed : ℕ → Bool

abbrev pub events_at : ℕ → Ready → Events
events_at i r = record {
  read = r.readable i;
  write = r.writable i;
  error = r.failed i;
  dont_close = false;
}

-- An fdevent gets its events and joins the queue, if it is not on it.
abbrev pub signal : Ptr → Events → World → World
signal f e w =
    let x = w.fdes f in
    let w' = if x.pending then w else plist_enqueue f w in
    put f (record x { events = with x.events e; pending = true }) w'

-- The loop of fdevent_process, from descriptor `i` on.
unfoldable pub process_from : ℕ → ℕ → ℕ → Ready → World → Option World
unfolding plist_enqueue
process_from zero i n r w = some w
process_from (suc left) i n r w = elim (n == 0) [
  | true ↦ some w
  | false ↦ elim (same_events (events_at i r) nothing) [
    | true ↦ process_from left (i + 1) n r w
    | false ↦ elim (w.table i == 0) [
      | true ↦ none
      | false ↦ process_from left (i + 1) (n - 1) r (signal (w.table i) (events_at i r) w)
    ]
  ]
]

-- fdevent_process
abbrev pub process_result : ℤ → Ready → World → Option World
process_result (negsuc n) r w = if r.interrupted then some w else none
process_result (pos n) r w = process_from w.select_n 0 n r w

unfoldable pub process : Ready → World → Option World
unfolding process_from
process r w = process_result r.result r w

-- The fdevent whose callback is due, its events, and the state in which the callback runs.
abbrev pub called : Option (Ptr × World) → Option (Ptr × Events × World)
called none = none
called (some (f, w)) =
    let x = w.fdes f in some (f, x.events, put f (record x { events = nothing; pending = false }) w)

-- One round of the inner loop of fdevent_loop, up to the callback.
unfoldable pub due : World → Option (Ptr × Events × World)
unfolding plist_dequeue
due w = called (plist_dequeue w)
