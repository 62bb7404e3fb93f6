-- ===== src/Kernel/Task/Release.antt =====
-- rsrc_release of kernel/resource.c: the map, and the tasks that sleep.
use frotznet.Prelude.{
  ℕ, ◌<◌, ◌≡◌, ◌≢◌, refl, true, false, none, List, [], ◌∷◌, ◌++◌, arith, ◌==◌, if◌then◌else◌,
  update, append_assoc, append-nil, sym, ◌∙◌, ap, subst,
}
use frotznet.Kernel.State.{Ptr, RsrcType, rsrc_none, same_type, Kernel, put_queue, err_resource}
use frotznet.Kernel.Resource.{find, disown, list_remove}
use frotznet.Kernel.Resource.Table.{IsTable, Chain, Chain-frame, has}
use frotznet.Kernel.Task.{wake, wake_all, release}
use frotznet.Kernel.Task.Frame.{SameObjects, wake_all-SameObjects}

same_type_none : (t : RsrcType) → t ≢ rsrc_none → same_type rsrc_none t ≡ false
same_type_none t ne = ground arith

module _ (r : Ptr) (k : Kernel) where
  -- The state when every sleeper has been woken.
  woken : Kernel
  woken =
      let l = disown r k in
      wake_all r (l.resources r).queue (record l { resource_list = list_remove r l.resource_list })

  woken-SameObjects : SameObjects k woken
  unfolding woken
  woken-SameObjects =
      let l = disown r k in
      let m = record l { resource_list = list_remove r l.resource_list } in
      let s = wake_all-SameObjects r (l.resources r).queue m in
      record {
        rmap = s.rmap;
        rfree = s.rfree;
        rmax = s.rmax;
        null_resource = s.null_resource;
        kind = s.kind;
        id = s.id;
        owner = s.owner;
        ports = s.ports;
        sems = s.sems;
        run_queue = s.run_queue;
        msg_pool = s.msg_pool;
      }

  release-rmap :
      (release r k).rmap
      ≡ update k.rmap (k.resources r).id (record { resource = k.null_resource; next = k.rfree })
  unfolding release woken
  release-rmap = let s = woken-SameObjects in rw (s.rmap, s.null_resource, s.rfree)

  release-resources :
      (release r k).resources
      ≡ update woken.resources r (record (woken.resources r) { kind = rsrc_none; id = 0 })
  unfolding release woken
  release-resources = refl

  pub release-ports : (release r k).ports ≡ k.ports
  unfolding release woken
  release-ports = woken-SameObjects.ports

  release-rmax : (release r k).rmax ≡ k.rmax
  unfolding release woken
  release-rmax = woken-SameObjects.rmax

  release-null : (release r k).null_resource ≡ k.null_resource
  unfolding release woken
  release-null = woken-SameObjects.null_resource

  release-rfree : (release r k).rfree ≡ (k.resources r).id
  unfolding release
  release-rfree = refl

  release-kind :
      (a : Ptr)
      → ((release r k).resources a).kind ≡ (if r == a then rsrc_none else (k.resources a).kind)
  release-kind a = rw release-resources (ground (arith, woken-SameObjects.kind a))

  release-id :
      (a : Ptr) → ((release r k).resources a).id ≡ (if r == a then 0 else (k.resources a).id)
  release-id a = rw release-resources (ground (arith, woken-SameObjects.id a))

  -- `r` is bound at `i`, and nowhere else.
  abbrev pub IsBound : ℕ → Type 0
  IsBound i =
      ((k.resources r).id ≡ i) × ((j : ℕ) → (k.rmap j).resource ≡ r → j ≡ i) × (r ≢ k.null_resource)

  -- rsrc_find after rsrc_release of a resource that is bound at one number of a well-formed map: that
  -- number finds nothing, and every other one finds what it found before.
  pub release-find :
      (i : ℕ) (free : List ℕ)
      → IsTable k free
      → IsBound i
      → (t : RsrcType) → t ≢ rsrc_none
      → (j : ℕ) → find t j (release r k) ≡ (if j == i then none else find t j k)
  unfolding find
  release-find i free v at t ne j =
      rw (release-rmax, release-rmap)
        (ground (
          arith,
          release-kind (k.rmap j).resource,
          release-kind k.null_resource,
          v.nobody,
          at.1 j,
          same_type_none t ne,
        ))

  -- rsrc_release of a resource that is bound at one number, not 0, of a well-formed map keeps the map
  -- well-formed, with that number at the head of the chain of free ones.
  pub release-IsTable :
      (i : ℕ) (free : List ℕ)
      → IsTable k free
      → IsBound i
      → i ≢ 0
      → i < k.rmax
      → has i free ≡ false
      → IsTable (release r k) (i ∷ free)
  release-IsTable i free v at ne lt out = record {
    chain = (
      release-rfree ∙ at.0,
      ne,
      subst (λ f. Chain (release r k).rmap f free) (sym released_next)
          (Chain-frame k.rmap (release r k).rmap k.rfree free same v.chain),
    );
    distinct = (out, v.distinct);
    inside = λ j h. rw release-rmax (ground (arith, v.inside j));
    unused = λ j h. rw (release-rmap, release-null, at.0) (ground (arith, v.unused j));
    nobody = rw (release-null, release-kind) (ground (arith, v.nobody));
    bound = λ j l n o.
        rw (release-rmap, release-null, release-id, at.0)
          (ground (arith, v.bound j (rw release-rmax at l) n, at.1 j, at.2));
  }
    where
      released_next : ((release r k).rmap i).next ≡ k.rfree
      released_next = rw release-rmap (ground arith)

      same : (j : ℕ) → has j free ≡ true → ((release r k).rmap j).next ≡ (k.rmap j).next
      same j h = rw release-rmap (ground arith)

-- Each woken task stands at the end of the run queue, in the order of its sleep, with the status.
module _ (r : Ptr) where
  wake_all-queue :
      (ts : List Ptr) (k : Kernel)
      → r ≢ k.run_queue
      → ((wake_all r ts k).resources k.run_queue).queue ≡ (k.resources k.run_queue).queue ++ ts
  unfolding wake_all wake
  wake_all-queue [] k ne = sym (append-nil _)
  wake_all-queue (t ∷ ts) k ne =
      let m = wake t err_resource (put_queue r ts k) in
      let one : (m.resources k.run_queue).queue ≡ (k.resources k.run_queue).queue ++ (t ∷ []) =
        ground arith in
      wake_all-queue ts m ne ∙ (ap (λ q. q ++ ts) one ∙ append_assoc _ (t ∷ []) ts)

  wake_all-status :
      (ts : List Ptr) (k : Kernel) (t : Ptr)
      → ((wake_all r ts k).tasks t).status ≡ (if has t ts then err_resource else (k.tasks t).status)
  unfolding wake_all wake
  wake_all-status [] k t = refl
  wake_all-status (u ∷ ts) k t =
      ground (arith, wake_all-status ts (wake u err_resource (put_queue r ts k)) t)

  wake_all-empty :
      (ts : List Ptr) (k : Kernel)
      → r ≢ k.run_queue
      → (k.resources r).queue ≡ ts
      → ((wake_all r ts k).resources r).queue ≡ []
  unfolding wake_all wake
  wake_all-empty [] k ne e = e
  wake_all-empty (t ∷ ts) k ne e = wake_all-empty ts _ ne (ground arith)

module _ (r : Ptr) (k : Kernel) (ne : r ≢ k.run_queue) where
  -- rsrc_release of a resource other than the run queue wakes every task that sleeps on it: they stand at the end of the run
  -- queue in their order, each has the status ERR_RESOURCE and no other task's status has changed, and
  -- the wait queue is empty.
  pub release_wakes :
      (((release r k).resources k.run_queue).queue
        ≡ (k.resources k.run_queue).queue ++ (k.resources r).queue)
      × (((release r k).resources r).queue ≡ [])
      × ((t : Ptr)
          → ((release r k).tasks t).status
            ≡ (if has t (k.resources r).queue then err_resource else (k.tasks t).status))
  unfolding release
  release_wakes =
      let l = disown r k in
      let m = record l { resource_list = list_remove r l.resource_list } in
      let ts = (k.resources r).queue in
      (
        ground (arith, wake_all-queue r ts m ne),
        ground (arith, wake_all-empty r ts m ne refl),
        λ t. wake_all-status r ts m t,
      )
