-- ===== src/Utils/Fdevent.antt =====
-- utils/fdevent.c, built with select: file descriptors and the events that wait for their callbacks. An
-- fdevent is known by its address, and list_pending is the list of the addresses on it. FATAL and exit
-- are `none`. A write outside of the object that it is meant for is kept as the flag `spoilt`.
pub mod Loop
pub mod Queue
pub mod Registry
pub mod Steps
pub mod Process
pub mod Growth
mod Tests
use frotznet.Prelude.{
  ℕ, zero, suc, ◌+◌, ◌-◌, ◌*◌, Bool, true, false, not, ◌&&◌, ◌||◌, Option, none, some, List, [],
  ◌∷◌, ◌++◌, ◌==◌, ltb, leb, if◌then◌else◌, update,
}
use frotznet.Prelude.Int.{ℤ, pos, negsuc}
use frotznet.Kernel.Resource.{list_remove}

abbrev pub Ptr : Type 0
Ptr = ℕ

-- FDE_READ, FDE_WRITE, FDE_ERROR and FDE_DONT_CLOSE: the bits of FDE_EVENTMASK that have a meaning.
pub record Events : Type 0 where
  pub read : Bool
  pub write : Bool
  pub error : Bool
  pub dont_close : Bool

abbrev pub nothing : Events
nothing = record { read = false; write = false; error = false; dont_close = false }

abbrev pub same : Bool → Bool → Bool
same true b = b
same false b = not b

abbrev pub same_events : Events → Events → Bool
same_events a b =
    same a.read b.read
    && same a.write b.write
    && same a.error b.error
    && same a.dont_close b.dont_close

-- a | b and a & ~b
abbrev pub with : Events → Events → Events
with a b = record {
  read = a.read || b.read;
  write = a.write || b.write;
  error = a.error || b.error;
  dont_close = a.dont_close || b.dont_close;
}

abbrev pub without : Events → Events → Events
without a b = record {
  read = a.read && not b.read;
  write = a.write && not b.write;
  error = a.error && not b.error;
  dont_close = a.dont_close && not b.dont_close;
}

-- fdevent: `wanted` and the three flags are the word `state`. The callback and its argument are not kept.
pub record Fde : Type 0 where
  pub fd : ℕ
  pub wanted : Events
  pub active : Bool
  pub pending : Bool
  pub created : Bool
  pub events : Events

-- fd_table, fd_table_max (0 stands for -1, before the first call), the sets for select, select_n,
-- list_pending, and the descriptors that were closed; whether the code has written outside of its objects,
-- how many ints a pointer is wide, what realloc leaves in entries that were not there
-- before, and how many descriptors an fd_set has a bit for.
pub record World : Type 0 where
  pub fdes : Ptr → Fde
  pub table : ℕ → Ptr
  pub table_max : ℕ
  pub read_fds : ℕ → Bool
  pub write_fds : ℕ → Bool
  pub error_fds : ℕ → Bool
  pub select_n : ℕ
  pub queue : List Ptr
  pub closed : List ℕ
  pub spoilt : Bool
  pub pointer_ints : ℕ
  pub given : ℕ → Ptr
  pub fd_setsize : ℕ

abbrev pub put : Ptr → Fde → World → World
put f x w = record w { fdes = update w.fdes f x }

-- fdevent_init
unfoldable pub init : World → World
init w = record w { read_fds = λ i. false; write_fds = λ i. false; error_fds = λ i. false }

-- fdevent_connect
unfoldable pub connect : ℕ → World → World
connect fd w = record w { select_n = if leb w.select_n fd then fd + 1 else w.select_n }

-- The loop of fdevent_disconnect: the last descriptor with an entry.
unfoldable pub last_used : ℕ → ℕ → ℕ → (ℕ → Ptr) → ℕ
last_used zero i n table = n
last_used (suc left) i n table = last_used left (i + 1) (if table i == 0 then n else i) table

-- fdevent_disconnect, while the descriptor's own entry is still there.
unfoldable pub disconnect : ℕ → World → World
unfolding last_used
disconnect fd w = record w {
  read_fds = update w.read_fds fd false;
  write_fds = update w.write_fds fd false;
  error_fds = update w.error_fds fd false;
  select_n = last_used w.select_n 0 0 w.table + 1;
  spoilt = w.spoilt || leb w.fd_setsize fd;
}

-- fdevent_update
unfoldable pub update_sets : Ptr → Events → World → World
update_sets f e w =
    let fd = (w.fdes f).fd in
    let w' = put f (record (w.fdes f) { wanted = e }) w in
    record w' {
      read_fds = update w.read_fds fd e.read;
      write_fds = update w.write_fds fd e.write;
      error_fds = update w.error_fds fd e.error;
      spoilt = w.spoilt || leb w.fd_setsize fd;
    }

-- The loop of fdevent_register that doubles fd_table_max, with a bound on its rounds.
unfoldable pub double_max : ℕ → ℕ → ℕ → ℕ
double_max zero max fd = max
double_max (suc rounds) max fd =
    let more = double_max rounds (max * 2) fd in if leb max fd then more else max

-- The entries behind `old` that the memset of fdevent_register clears: it takes as many ints as there are
-- entries from fd_table_max, before it is raised, up to `max`, and begins there, which is one entry before
-- the table if it was -1. An entry that is cleared in part counts as one that is not.
abbrev pub swept : Bool → ℕ → ℕ → ℕ → ℕ → Bool
swept first width old max i =
    if first then leb ((i + 2) * width) (max + 1) else leb ((i + 1 - old) * width) (max - old)

-- The larger table. Seven rounds lead from 256 past every descriptor that is let through.
abbrev pub grown : ℕ → World → World
grown fd w =
    let first = w.table_max == 0 in
    let w' = if first then init w else w in
    let max = double_max 7 (if first then 256 else w.table_max) fd in
    record w' {
      table_max = max;
      table = λ i.
          if ltb i w.table_max
          then w.table i
          else if swept first w.pointer_ints w.table_max max i
          then 0
          else w.given i;
      spoilt = w.spoilt || first;
    }

abbrev pub enter : Ptr → ℕ → World → World
enter f fd w = record w { table = update w.table fd f }

-- fdevent_register of a descriptor that is not negative.
unfoldable pub register : Ptr → World → Option World
unfolding init double_max
register f w =
    let fd = (w.fdes f).fd in
    if ltb fd w.table_max
    then some (enter f fd w)
    else if ltb 32000 fd
    then none
    else some (enter f fd (grown fd w))

-- fdevent_unregister
unfoldable pub unregister : Ptr → World → Option World
unregister f w =
    let x = w.fdes f in
    if ltb x.fd w.table_max && (w.table x.fd == f)
    then some (record w {
      table = update w.table x.fd 0;
      closed = if x.wanted.dont_close then w.closed else x.fd ∷ w.closed;
    })
    else none

-- fdevent_plist_enqueue, _remove and _dequeue
unfoldable pub plist_enqueue : Ptr → World → World
plist_enqueue f w = record w { queue = w.queue ++ (f ∷ []) }

unfoldable pub plist_remove : Ptr → World → World
unfolding list_remove
plist_remove f w = record w { queue = list_remove f w.queue }

abbrev pub dequeued : List Ptr → World → Option (Ptr × World)
dequeued [] w = none
dequeued (f ∷ fs) w = some (f, record w { queue = fs })

unfoldable pub plist_dequeue : World → Option (Ptr × World)
plist_dequeue w = dequeued w.queue w

abbrev pub connected : ℕ → Option World → Option World
connected fd none = none
connected fd (some w) = some (connect fd w)

-- fdevent_install; a negative descriptor is FATAL.
unfoldable pub install : Ptr → ℤ → World → Option World
unfolding register connect
install f (negsuc n) w = none
install f (pos fd) w =
    let x : Fde = record {
      fd = fd;
      wanted = nothing;
      active = true;
      pending = false;
      created = false;
      events = nothing;
    } in
    connected fd (register f (put f x w))

abbrev pub mark_created : Ptr → Option World → Option World
mark_created f none = none
mark_created f (some w) = some (put f (record (w.fdes f) { created = true }) w)

-- fdevent_create at the address that malloc returns.
unfoldable pub create : Ptr → ℤ → World → Option World
unfolding install
create f fd w = mark_created f (install f fd w)

abbrev pub cleared : Fde → Fde
cleared x = record x {
  wanted = nothing;
  active = false;
  pending = false;
  created = false;
  events = nothing;
}

abbrev pub reset : Ptr → Option World → Option World
reset f none = none
reset f (some w) = some (put f (cleared (w.fdes f)) w)

-- fdevent_remove
unfoldable pub remove : Ptr → World → Option World
unfolding plist_remove disconnect unregister
remove f w =
    let x = w.fdes f in
    let w' = if x.pending then plist_remove f w else w in
    reset f (if x.active then unregister f (disconnect x.fd w') else some w')

-- fdevent_destroy
unfoldable pub destroy : Ptr → World → Option World
unfolding remove
destroy f w = if f == 0 then some w else if (w.fdes f).created then remove f w else none
