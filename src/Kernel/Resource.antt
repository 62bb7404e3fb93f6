-- ===== src/Kernel/Resource.antt =====
-- kernel/resource.c: the resource map with its chain of free entries, and the wait queues.
pub mod Table
pub mod Removal
use frotznet.Prelude.{
  ℕ, zero, suc, ◌+◌, ◌&&◌, ◌||◌, Option, none, some, List, [], ◌∷◌, ◌++◌, ◌==◌, ltb, leb,
  if◌then◌else◌, update,
}
use frotznet.Kernel.State.{
  Ptr, null, RsrcType, rsrc_none, rsrc_queue, same_type, Resource, t_waiting, t_ready, Slot, Kernel,
  put_resource, put_task, put_queue,
}

-- rsrc_find; the id is compared as a uint32.
unfoldable pub find : RsrcType → ℕ → Kernel → Option Ptr
find type id k =
    if ltb id k.rmax && same_type (k.resources (k.rmap id).resource).kind type
    then some (k.rmap id).resource
    else none

-- list_remove on the data pointers: the first entry that is equal.
unfoldable pub list_remove : Ptr → List Ptr → List Ptr
list_remove x [] = []
list_remove x (y ∷ ys) = if y == x then ys else y ∷ list_remove x ys

-- if(r->owner) list_remove(&r->owner->resources, r)
abbrev pub disown : Ptr → Kernel → Kernel
disown r k =
    let owner = (k.resources r).owner in
    record k {
      teams =
          if owner == null then k.teams else update k.teams owner (list_remove r (k.teams owner));
    }

-- if(owner) list_add_tail(&owner->resources, r)
abbrev pub own : Ptr → Ptr → Kernel → Kernel
own owner r k = record k {
  teams = if owner == null then k.teams else update k.teams owner (k.teams owner ++ (r ∷ []));
}

unfoldable pub set_owner : Ptr → Ptr → Kernel → Kernel
set_owner r owner k =
    let k = disown r k in own owner r (put_resource r (record (k.resources r) { owner = owner }) k)

-- rsrc_identify; `none` where the entry's owner is NULL, which the code dereferences.
unfoldable pub identify : ℕ → Kernel → Option ℕ
identify id k =
    let r = k.resources (k.rmap id).resource in
    if leb k.rmax id || same_type r.kind rsrc_none
    then some 0
    else if r.owner == null
    then none
    else some (k.resources r.owner).id

-- rsrc_bind with the first free entry.
unfoldable pub assign : Ptr → RsrcType → Ptr → Kernel → Kernel
assign r type owner k =
    let id = k.rfree in
    let entry = record (k.rmap id) { resource = r } in
    let fields : Resource = record {
      id = id;
      kind = type;
      owner = owner;
      rights = [];
      queue = [];
      name = [];
    } in
    let k = record k { rfree = (k.rmap id).next; rmap = update k.rmap id entry } in
    let k = own owner r (put_resource r fields k) in
    record k { resource_list = k.resource_list ++ (r ∷ []) }

-- rsrc_bind; `none` is the panic of an exhausted map.
unfoldable pub bind : Ptr → RsrcType → Ptr → Kernel → Option Kernel
unfolding assign
bind r type owner k = if k.rfree == 0 then none else some (assign r type owner k)

-- The copy loop of rsrc_set_name, with `room` characters left.
unfoldable pub copy_name : ℕ → List ℕ → List ℕ
copy_name zero cs = []
copy_name (suc room) [] = []
copy_name (suc room) (c ∷ cs) = let rest = copy_name room cs in if c == 0 then [] else c ∷ rest

-- rsrc_set_name; `none` is a NULL name.
unfoldable pub set_name : Ptr → Option (List ℕ) → Kernel → Kernel
unfolding copy_name
set_name r none k = put_resource r (record (k.resources r) { name = [] }) k
set_name r (some cs) k = put_resource r (record (k.resources r) { name = copy_name 31 cs }) k

-- queue_create; `r` is the address that kmalloc returns.
unfoldable pub queue_create : Ptr → Option (List ℕ) → Ptr → Kernel → Option (ℕ × Kernel)
unfolding bind set_name
queue_create r name team k = elim (bind r rsrc_queue team k) [
  | none ↦ none
  | some k' ↦ let k'' = set_name r name k' in some ((k''.resources r).id, k'')
]

-- list_attach_tail(&rsrc->queue, &task->node), with the fields of the task that sleeps there.
unfoldable pub enqueue_at : ℕ → Ptr → Ptr → Kernel → Kernel
enqueue_at wake_time r task k =
    let t = record (k.tasks task) { wait_time = wake_time; flags = t_waiting; waiting_on = r } in
    put_queue r ((k.resources r).queue ++ (task ∷ [])) (put_task task t k)

unfoldable pub enqueue : Ptr → Ptr → Kernel → Kernel
unfolding enqueue_at
enqueue r task k = enqueue_at 0 r task k

unfoldable pub enqueue_ordered : Ptr → Ptr → ℕ → Kernel → Kernel
unfolding enqueue_at
enqueue_ordered r task wake_time k = enqueue_at wake_time r task k

-- What follows list_detach_head in rsrc_dequeue.
abbrev pub detached : Ptr → List Ptr → Kernel → Option Ptr × Kernel
detached r [] k = (none, k)
detached r (t ∷ ts) k =
    let task = record (k.tasks t) { waiting_on = null; flags = t_ready } in
    (some t, put_task t task (put_queue r ts k))

unfoldable pub dequeue : Ptr → Kernel → Option Ptr × Kernel
dequeue r k = detached r (k.resources r).queue k

-- rsrc_queue_peek; on an empty queue the code returns no value, which is `none`.
unfoldable pub queue_peek : Ptr → Kernel → Option Ptr
queue_peek r k = elim (k.resources r).queue [ [] ↦ none | t ∷ _ ↦ some t ]

-- rsrc_init: entry 0 is never handed out, and the others are chained in order.
unfoldable pub init : ℕ → Kernel → Kernel
init size k =
    let slot : ℕ → Slot =
      λ i. record { resource = k.null_resource; next = if i + 1 == size then 0 else i + 1 } in
    let nobody : Resource = record {
      id = 0;
      kind = rsrc_none;
      owner = null;
      rights = [];
      queue = [];
      name = [];
    } in
    put_resource k.null_resource nobody
      (record k { rmap = slot; rmax = size; rfree = 1; resource_list = [] })
