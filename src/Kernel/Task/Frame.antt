-- ===== src/Kernel/Task/Frame.antt =====
-- The objects that waking and sleeping do not write, in kernel/task.c and kernel/resource.c.
use frotznet.Prelude.{◌≡◌, refl, ◌∙◌, List, [], ◌∷◌, Option, some, none, arith}
use frotznet.Prelude.Int.{ℤ}
use frotznet.Kernel.State.{Ptr, Kernel, put_queue, err_resource}
use frotznet.Kernel.Resource.{enqueue, dequeue}
use frotznet.Kernel.Task.{wake, wake_one, wake_first, wake_all}

pub record SameObjects (k k' : Kernel) : Type 0 where
  pub rmap : k'.rmap ≡ k.rmap
  pub rfree : k'.rfree ≡ k.rfree
  pub rmax : k'.rmax ≡ k.rmax
  pub null_resource : k'.null_resource ≡ k.null_resource
  pub kind : (a : Ptr) → (k'.resources a).kind ≡ (k.resources a).kind
  pub id : (a : Ptr) → (k'.resources a).id ≡ (k.resources a).id
  pub owner : (a : Ptr) → (k'.resources a).owner ≡ (k.resources a).owner
  pub ports : k'.ports ≡ k.ports
  pub sems : k'.sems ≡ k.sems
  pub run_queue : k'.run_queue ≡ k.run_queue
  pub msg_pool : k'.msg_pool ≡ k.msg_pool

pub SameObjects-refl : (k : Kernel) → SameObjects k k
SameObjects-refl k = record {
  rmap = refl;
  rfree = refl;
  rmax = refl;
  null_resource = refl;
  kind = λ a. refl;
  id = λ a. refl;
  owner = λ a. refl;
  ports = refl;
  sems = refl;
  run_queue = refl;
  msg_pool = refl;
}

pub SameObjects-trans : (k l m : Kernel) → SameObjects k l → SameObjects l m → SameObjects k m
SameObjects-trans k l m s t = record {
  rmap = t.rmap ∙ s.rmap;
  rfree = t.rfree ∙ s.rfree;
  rmax = t.rmax ∙ s.rmax;
  null_resource = t.null_resource ∙ s.null_resource;
  kind = λ a. t.kind a ∙ s.kind a;
  id = λ a. t.id a ∙ s.id a;
  owner = λ a. t.owner a ∙ s.owner a;
  ports = t.ports ∙ s.ports;
  sems = t.sems ∙ s.sems;
  run_queue = t.run_queue ∙ s.run_queue;
  msg_pool = t.msg_pool ∙ s.msg_pool;
}

pub put_queue-SameObjects : (r : Ptr) (q : List Ptr) (k : Kernel) → SameObjects k (put_queue r q k)
put_queue-SameObjects r q k = record {
  rmap = refl;
  rfree = refl;
  rmax = refl;
  null_resource = refl;
  kind = λ a. ground arith;
  id = λ a. ground arith;
  owner = λ a. ground arith;
  ports = refl;
  sems = refl;
  run_queue = refl;
  msg_pool = refl;
}

pub enqueue-SameObjects : (r task : Ptr) (k : Kernel) → SameObjects k (enqueue r task k)
unfolding enqueue
enqueue-SameObjects r task k = record {
  rmap = refl;
  rfree = refl;
  rmax = refl;
  null_resource = refl;
  kind = λ a. ground arith;
  id = λ a. ground arith;
  owner = λ a. ground arith;
  ports = refl;
  sems = refl;
  run_queue = refl;
  msg_pool = refl;
}

pub wake-SameObjects : (task : Ptr) (status : ℤ) (k : Kernel) → SameObjects k (wake task status k)
unfolding wake
wake-SameObjects task status k = record {
  rmap = refl;
  rfree = refl;
  rmax = refl;
  null_resource = refl;
  kind = λ a. ground arith;
  id = λ a. ground arith;
  owner = λ a. ground arith;
  ports = refl;
  sems = refl;
  run_queue = refl;
  msg_pool = refl;
}

pub dequeue-SameObjects : (r : Ptr) (k : Kernel) → SameObjects k (dequeue r k).1
unfolding dequeue
dequeue-SameObjects r k = record {
  rmap = ground arith;
  rfree = ground arith;
  rmax = ground arith;
  null_resource = ground arith;
  kind = λ a. ground arith;
  id = λ a. ground arith;
  owner = λ a. ground arith;
  ports = ground arith;
  sems = ground arith;
  run_queue = ground arith;
  msg_pool = ground arith;
}

wake_first-SameObjects :
    (t : Option Ptr) (k l : Kernel) → SameObjects k l → SameObjects k (wake_first (t, l))
wake_first-SameObjects none k l s = s
wake_first-SameObjects (some t) k l s = SameObjects-trans k l _ s (wake-SameObjects t _ l)

pub wake_one-SameObjects : (r : Ptr) (k : Kernel) → SameObjects k (wake_one r k)
unfolding wake_one
wake_one-SameObjects r k =
    wake_first-SameObjects (dequeue r k).0 k (dequeue r k).1 (dequeue-SameObjects r k)

pub wake_all-SameObjects : (r : Ptr) (ts : List Ptr) (k : Kernel) → SameObjects k (wake_all r ts k)
unfolding wake_all
wake_all-SameObjects r [] k = SameObjects-refl k
wake_all-SameObjects r (t ∷ ts) k =
    let l = put_queue r ts k in
    let m = wake t err_resource l in
    SameObjects-trans k l _ (put_queue-SameObjects r ts k)
      (SameObjects-trans l m _ (wake-SameObjects t err_resource l) (wake_all-SameObjects r ts m))
