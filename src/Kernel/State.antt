-- ===== src/Kernel/State.antt =====
-- The kernel's data: resource.h, task.h, port.h, sem.h, team.h, and the globals of resource.c,
-- task.c, kernel.c and port.c. An object is known by its address, 0 is NULL, and a resource that is
-- the first field of an object has the object's address. A list_t is the list of its data pointers.
use frotznet.Prelude.{ℕ, Bool, List, true, false, update}
use frotznet.Prelude.Int.{ℤ, pos, negsuc}

abbrev pub Ptr : Type 0
Ptr = ℕ

abbrev pub null : Ptr
null = 0

-- include/blt/error.h
abbrev pub err_none : ℤ
err_none = pos 0

abbrev pub err_permission : ℤ
err_permission = negsuc 0

abbrev pub err_resource : ℤ
err_resource = negsuc 1

abbrev pub err_memory : ℤ
err_memory = negsuc 2

abbrev pub err_sendport : ℤ
err_sendport = negsuc 3

abbrev pub err_recvport : ℤ
err_recvport = negsuc 4

abbrev pub err_would_block : ℤ
err_would_block = negsuc 5

pub data RsrcType : Type 0 where
  rsrc_none rsrc_task rsrc_aspace rsrc_port rsrc_sem rsrc_right rsrc_area rsrc_queue rsrc_team :
      RsrcType

abbrev pub same_type : RsrcType → RsrcType → Bool
same_type rsrc_none rsrc_none = true
same_type rsrc_task rsrc_task = true
same_type rsrc_aspace rsrc_aspace = true
same_type rsrc_port rsrc_port = true
same_type rsrc_sem rsrc_sem = true
same_type rsrc_right rsrc_right = true
same_type rsrc_area rsrc_area = true
same_type rsrc_queue rsrc_queue = true
same_type rsrc_team rsrc_team = true
same_type _ _ = false

-- struct __resource_t. The name holds the characters before the NUL.
pub record Resource : Type 0 where
  pub id : ℕ
  pub kind : RsrcType
  pub owner : Ptr
  pub rights : List Ptr
  pub queue : List Ptr
  pub name : List ℕ

pub data TaskFlag : Type 0 where
  t_kernel t_running t_ready t_dead t_waiting t_sleep_irq t_sleep_timer t_sleep_paging : TaskFlag

-- struct __task_t, the fields that the scheduler, the wait queues and the ports use.
pub record Task : Type 0 where
  pub waiting_on : Ptr
  pub status : ℤ
  pub wait_time : ℕ
  pub flags : TaskFlag
  pub scount : ℕ
  pub team : Ptr

-- struct __message_t. Its size is the number of its bytes, and `page` is the page that carries
-- them, 0 where they stand in a block of the pools.
pub record Message : Type 0 where
  pub code : ℕ
  pub from_port : ℕ
  pub to_port : ℕ
  pub bytes : List ℕ
  pub page : Ptr

-- struct __port_t. The chain from `first` to `last` is a list, oldest first.
pub record Port : Type 0 where
  pub msgcount : ℕ
  pub slaved : ℕ
  pub messages : List Message
  pub refcount : ℤ
  pub nowait : ℕ
  pub restrict : ℕ
  pub sendqueue : Ptr

-- typedef struct _rtab
pub record Slot : Type 0 where
  pub resource : Ptr
  pub next : ℕ

-- The objects by address, the resource map, and the globals.
pub record Kernel : Type 0 where
  pub resources : Ptr → Resource
  pub tasks : Ptr → Task
  pub ports : Ptr → Port
  pub sems : Ptr → ℤ
  pub teams : Ptr → List Ptr
  pub rmap : ℕ → Slot
  pub rmax : ℕ
  pub rfree : ℕ
  pub null_resource : Ptr
  pub resource_list : List Ptr
  pub current : Ptr
  pub run_queue : Ptr
  pub idle_task : Ptr
  pub kernel_team : Ptr
  pub live_tasks : ℕ
  pub msg_pool : List Ptr

-- Writes to one object.
abbrev pub put_resource : Ptr → Resource → Kernel → Kernel
put_resource a r k = record k { resources = update k.resources a r }

abbrev pub put_task : Ptr → Task → Kernel → Kernel
put_task a t k = record k { tasks = update k.tasks a t }

abbrev pub put_port : Ptr → Port → Kernel → Kernel
put_port a p k = record k { ports = update k.ports a p }

abbrev pub put_sem : Ptr → ℤ → Kernel → Kernel
put_sem a c k = record k { sems = update k.sems a c }

abbrev pub put_queue : Ptr → List Ptr → Kernel → Kernel
put_queue a q k = put_resource a (record (k.resources a) { queue = q }) k
