-- ===== src/Kernel/Tests.antt =====
-- Runs of the kernel's calls on a small kernel: two tasks, one port with its send queue, one semaphore.
use frotznet.Prelude.{
  ◌≡◌, refl, true, Option, none, some, List, [], ◌∷◌, arith, ◌==◌, if◌then◌else◌,
}
use frotznet.Prelude.Int.{pos, negsuc}
use frotznet.Kernel.State.{
  Ptr, rsrc_none, rsrc_port, rsrc_sem, t_running, t_ready, t_waiting, Kernel, err_none,
}
use frotznet.Kernel.Resource.{find, assign}
use frotznet.Kernel.Resource.Table.{IsTable, assign-find}
use frotznet.Kernel.Task.{returns, swtch, release}
use frotznet.Kernel.Task.Release.{release-IsTable}
use frotznet.Kernel.Task.Switch.{Every, Switched, swtch-Switched}
use frotznet.Kernel.Task.Alive.{Alive, Runs, waiting, swtch-Alive}
use frotznet.Kernel.Sem.{acquire, release_one}
use frotznet.Kernel.Sem.Count.{Acquires, Releases, acquire-Acquires, release-Releases}
use frotznet.Kernel.Port.{Request, send_loop, recv_loop, new_port, Delivery}
use frotznet.Kernel.Port.Bounds.{Ports}
use frotznet.Kernel.Port.Calls.{Sends, Receives, send_loop-Sends, recv_loop-Receives}
use frotznet.Kernel.Port.Fifo.{sends, receives, Log, StaysBalanced, traffic, traffic-Balanced}
use frotznet.Kernel.System
use frotznet.Kernel.System.{Call, run-Ports}

abbrev run_queue : Ptr
run_queue = 1000

abbrev nobody : Ptr
nobody = 1001

abbrev first_task : Ptr
first_task = 2000

abbrev second_task : Ptr
second_task = 2001

abbrev idle : Ptr
idle = 2002

abbrev a_port : Ptr
a_port = 3000

abbrev a_queue : Ptr
a_queue = 3001

abbrev a_sem : Ptr
a_sem = 3002

-- The semaphore is bound at 1, with the second task asleep on it, and the entries 2 and 3 are free.
abbrev small : Kernel
small = record {
  resources = λ a. record {
    id = if a == a_sem then 1 else 0;
    kind = if a == a_sem then rsrc_sem else rsrc_none;
    owner = 0;
    rights = [];
    queue = if a == a_sem then second_task ∷ [] else [];
    name = [];
  };
  tasks = λ a. record {
    waiting_on = 0;
    status = pos 0;
    wait_time = 0;
    flags = if a == first_task then t_running else if a == second_task then t_waiting else t_ready;
    scount = 0;
    team = 0;
  };
  ports = λ a. new_port 0 a_queue;
  sems = λ a. negsuc 0;
  teams = λ a. [];
  rmap =
      λ i. record { resource = if i == 1 then a_sem else nobody; next = if i == 2 then 3 else 0 };
  rmax = 4;
  rfree = 2;
  null_resource = nobody;
  resource_list = a_sem ∷ [];
  current = first_task;
  run_queue = run_queue;
  idle_task = idle;
  kernel_team = 0;
  live_tasks = 2;
  msg_pool = [];
}

abbrev hello : Request
hello = record { src = 1; dst = 1; address = 0; bytes = 104 ∷ 105 ∷ []; code = 7; fresh_page = 0 }

abbrev nothing : Log
nothing = record { sent = []; got = [] }

small-IsTable : IsTable small (2 ∷ 3 ∷ [])
small-IsTable = record {
  chain = (refl, omega arith, (refl, omega arith, refl));
  distinct = (refl, (refl, tt));
  inside = λ i h. ground arith;
  unused = λ i h. ground arith;
  nobody = refl;
  bound = λ i lt ne out. ground arith;
}

abbrev handed_out : Option (Kernel × Log) → List Delivery
handed_out none = []
handed_out (some (k, log)) = log.got

-- Of "hi", a buffer of one byte gets the "h".
send_receive :
    handed_out (traffic a_port 1 (sends hello ∷ receives ∷ []) (small, nothing))
    ≡ record { from = 1; code = 7; bytes = 104 ∷ [] } ∷ []
unfolding traffic send_loop recv_loop
send_receive = refl

small-Alive : Alive small
small-Alive = (λ t. ground arith, omega arith)

traffic-Balanced_example :
    StaysBalanced a_port 1 []
      (traffic a_port 1 (sends hello ∷ sends hello ∷ receives ∷ []) (small, nothing))
traffic-Balanced_example =
    traffic-Balanced a_port 1 [] (sends hello ∷ sends hello ∷ receives ∷ []) small nothing (record {
      order = refl;
      port = (refl, omega arith);
      apart = omega arith;
      apart_queue = omega arith;
      alive = small-Alive;
    })

send_loop-Sends_example : Sends a_port hello small (send_loop a_port hello small)
send_loop-Sends_example = send_loop-Sends a_port hello small (omega arith)

recv_loop-Receives_example : Receives a_port 2 small (recv_loop a_port 2 small)
recv_loop-Receives_example = recv_loop-Receives a_port 2 small (omega arith) (refl, omega arith)

run-Ports_example :
    System.Every Ports (System.run (System.sends hello ∷ System.receives 1 0 2 ∷ []) small)
run-Ports_example =
    run-Ports (System.sends hello ∷ System.receives 1 0 2 ∷ []) small (λ p. (refl, omega arith))

found_sem : find rsrc_sem 1 small ≡ some a_sem
unfolding find
found_sem = refl

acquire-Acquires_example : Acquires 1 a_sem small found_sem (omega arith) refl (acquire 1 small)
acquire-Acquires_example = acquire-Acquires 1 a_sem small found_sem (omega arith) refl (omega arith)

release-Releases_example :
    (l : Kernel) × (release_one 1 small ≡ returns err_none l)
    × Releases 1 a_sem small found_sem (omega arith) refl (second_task ∷ []) l
release-Releases_example = release-Releases 1 a_sem small found_sem (omega arith) refl (omega arith)

-- The address that kmalloc returns for the next object.
abbrev new_object : Ptr
new_object = 4000

assign-find_example :
    find rsrc_port 2 (assign new_object rsrc_port 0 small)
    ≡ (if 2 == 2 then (if true then some new_object else none) else find rsrc_port 2 small)
assign-find_example =
    assign-find new_object rsrc_port 0 small 2 (3 ∷ []) small-IsTable
      (omega arith, λ i. ground arith) rsrc_port 2

release-IsTable_example : IsTable (release a_sem small) (1 ∷ 2 ∷ 3 ∷ [])
release-IsTable_example =
    release-IsTable a_sem small 1 (2 ∷ 3 ∷ []) small-IsTable
      (refl, λ j h. ground arith, omega arith) (omega arith) (omega arith) refl

swtch-Switched_example : Every (Switched small) (swtch small)
swtch-Switched_example = swtch-Switched small

swtch-Alive_example : (l : Kernel) × (swtch small ≡ some l) × Alive l × Runs small (waiting small) l
swtch-Alive_example = swtch-Alive small small-Alive
