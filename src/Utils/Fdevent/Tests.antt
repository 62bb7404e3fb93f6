-- ===== src/Utils/Fdevent/Tests.antt =====
-- Runs of utils/fdevent.c with two descriptors.
use frotznet.Prelude.{
  ℕ, ◌≡◌, ◌≢◌, ◌≤◌, ◌<◌, refl, true, false, inl, some, [], ◌∷◌, arith, ◌==◌, if◌then◌else◌,
}
use frotznet.Prelude.Int.{pos}
use frotznet.Kernel.Resource.{list_remove}
use frotznet.Utils.Fdevent.{Ptr, Events, World, nothing, update_sets, plist_remove, register}
use frotznet.Utils.Fdevent.Loop.{Ready, events_at, set, process}
use frotznet.Utils.Fdevent.Queue.{Queued}
use frotznet.Utils.Fdevent.Steps.{sets, step, stop, steps-Queued}
use frotznet.Utils.Fdevent.Growth.{register-enters}
use frotznet.Utils.Fdevent.Process.{is_ready, Signalled, signal_all, process-signal_all}

abbrev reading : Events
reading = record nothing { read = true }

abbrev writing : Events
writing = record nothing { write = true }

abbrev both : Events
both = record reading { write = true }

-- The fdevents 10 and 11 stand for the descriptors 0 and 1. The first one is pending, with both events.
abbrev two : World
two = record {
  fdes = λ f. record {
    fd = if f == 11 then 1 else 0;
    wanted = both;
    active = true;
    pending = f == 10;
    created = false;
    events = if f == 10 then both else nothing;
  };
  table = λ i. if i == 0 then 10 else 11;
  table_max = 256;
  read_fds = λ i. true;
  write_fds = λ i. true;
  error_fds = λ i. false;
  select_n = 2;
  queue = 10 ∷ [];
  closed = [];
  spoilt = false;
  pointer_ints = 1;
  given = λ i. 99;
  fd_setsize = 1024;
}

-- The first fdevent is to wait for reading only. The event that is dropped is the one that is wanted.
set_drops_the_wanted : ((set 10 reading two).fdes 10).events ≡ writing
unfolding set update_sets plist_remove list_remove
set_drops_the_wanted = refl

abbrev second_ready : Ready
second_ready = record {
  result = pos 1;
  interrupted = false;
  readable = λ i. i == 1;
  writable = λ i. false;
  failed = λ i. false;
}

two-Queued : Queued two
two-Queued = record { distinct = (refl, tt); listed = λ f. ground arith }

steps-Queued_example : Queued (set 11 reading two)
steps-Queued_example =
    steps-Queued two (set 11 reading two)
      (step two (set 11 reading two) (set 11 reading two) (sets 11 reading two)
        (stop (set 11 reading two)))
      two-Queued

process-signal_all_example :
    (process second_ready two ≡ some (signal_all two.select_n 0 second_ready two))
    × ((j : ℕ)
        → j < two.select_n
        → is_ready j second_ready ≡ true
        → Signalled
            (events_at j second_ready)
            (two.fdes (two.table j))
            ((signal_all two.select_n 0 second_ready two).fdes (two.table j)))
    × ((f : Ptr)
        → ((j : ℕ) → is_ready j second_ready ≡ true → two.table j ≢ f)
        → (signal_all two.select_n 0 second_ready two).fdes f ≡ two.fdes f)
process-signal_all_example =
    process-signal_all second_ready two refl (λ j h e. ground arith) (λ i j ne a b e. ground arith)

-- A world with no table yet.
abbrev fresh : World
fresh = record two {
  fdes = λ f. record {
    fd = 300;
    wanted = nothing;
    active = true;
    pending = false;
    created = false;
    events = nothing;
  };
  table_max = 0;
  queue = [];
}

register-enters_example :
    (w' : World) × (register 10 fresh ≡ some w')
    × (300 < w'.table_max)
    × (w'.table 300 ≡ 10)
    × ((i : ℕ) → 300 ≢ i → i < 0 → w'.table i ≡ fresh.table i)
    × ((i : ℕ) → 300 ≢ i → 0 ≤ i → i < w'.table_max → w'.table i ≡ 0)
    × (w'.spoilt ≡ true)
register-enters_example = register-enters 10 fresh (omega arith) (inl refl) refl
