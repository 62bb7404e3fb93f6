-- ===== src/Kernel/Port/Owners.antt =====
-- The message count of a port and its chain, over the calls that make, remove and link ports.
use frotznet.Prelude.{
  ℕ, ◌≡◌, refl, inl, inr, not, Option, none, some, List, arith, ◌==◌, ◌∙◌, Bool-cases, Option-cases,
}
use frotznet.Prelude.Int.{pos}
use frotznet.Kernel.State.{Ptr, RsrcType, rsrc_port, rsrc_queue, Port, Kernel, put_port}
use frotznet.Kernel.Resource.{find, bind, assign, set_name}
use frotznet.Kernel.Task.{release}
use frotznet.Kernel.Task.Switch.{Every, Leaves}
use frotznet.Kernel.Task.Release.{release-ports}
use frotznet.Kernel.Port.{
  opt_nowait, opt_slave, opt_setrestrict, is_eq, create, destroy, refer, unrefer, link, drop_master,
  enslave, new_master, set_master, option_at, option, new_port, name_both, bind_queue,
}
use frotznet.Kernel.Port.Bounds.{Ports, Ports-same, Ports-put}

pub destroy-Ports : (id : ℕ) (k : Kernel) → Ports k → Leaves Ports (destroy id k)
unfolding destroy
destroy-Ports id k v = elim (Option-cases (find rsrc_port id k)) [
  | inl e ↦ rw (e, Leaves) v
  | inr (p, e) ↦
      rw (e, Leaves)
        (elim (Bool-cases (is_eq (k.ports p).refcount (pos 1))) [
          | inl e ↦
              rw (e, Leaves)
                (Ports-same k (release (k.ports p).sendqueue (release p k))
                  (release-ports (k.ports p).sendqueue (release p k) ∙ release-ports p k) v)
          | inr e ↦ rw (e, Leaves) v
        ])
]

assign-Ports :
    (r : Ptr) (t : RsrcType) (owner : Ptr) (k : Kernel) → Ports k → Every Ports (bind r t owner k)
unfolding bind assign
assign-Ports r t owner k v = elim (Bool-cases (k.rfree == 0)) [ inl e ↦ rw e tt | inr e ↦ rw e v ]

pub set_name-Ports :
    (r : Ptr) (name : Option (List ℕ)) (k : Kernel) → Ports k → Ports (set_name r name k)
unfolding set_name
set_name-Ports r none k v = v
set_name-Ports r (some cs) k v = v

pub create-Ports :
    (p q : Ptr) (restrict : ℕ) (name : Option (List ℕ)) (k : Kernel)
    → Ports k
    → Leaves Ports (create p q restrict name k)
unfolding create
create-Ports p q restrict name k v = queued _ (
    assign-Ports p rsrc_port _ (put_port p (new_port restrict q) k)
      (Ports-put p (new_port restrict q) k (refl, omega arith) v))
  where
    named : (o : Option Kernel) → Every Ports o → Leaves Ports (name_both p q name o)
    named none h = tt
    named (some l) h = set_name-Ports q name _ (set_name-Ports p name l h)

    queued : (o : Option Kernel) → Every Ports o → Leaves Ports (bind_queue p q name o)
    queued none h = tt
    queued (some l) h = named _ (assign-Ports q rsrc_queue (l.resources l.current).owner l h)

-- The fields that port_option writes are not those of the queue.
put-Ports :
    (p : Ptr) (port : Port) (k : Kernel)
    → port.msgcount ≡ (k.ports p).msgcount
    → port.messages ≡ (k.ports p).messages
    → Ports k
    → Ports (put_port p port k)
put-Ports p port k e f v = Ports-put p port k (rw (e, f) (v p)) v

enslave-Ports : (p : Ptr) (arg : ℕ) (k : Kernel) → Ports k → Leaves Ports (enslave p arg k)
enslave-Ports p arg k v = elim (Bool-cases ((k.ports p).slaved == 0)) [
  | inl e ↦ rw (e, Leaves) (linked k v)
  | inr e ↦ rw (e, Leaves) (dropped (find rsrc_port (k.ports p).slaved k))
]
  where
    linked : (l : Kernel) → Ports l → Leaves Ports (link p arg l)
    linked l h = put-Ports p (record (l.ports p) { slaved = arg }) l refl refl h

    dropped : (o : Option Ptr) → Leaves Ports (drop_master p arg o k)
    dropped none = tt
    dropped (some m) = linked (unrefer m k) (put-Ports m _ k refl refl v)

set_master-Ports : (p : Ptr) (arg : ℕ) (k : Kernel) → Ports k → Leaves Ports (set_master p arg k)
set_master-Ports p arg k v = elim (Bool-cases (arg == 0)) [
  | inl e ↦ rw (e, Leaves) (enslave-Ports p arg k v)
  | inr e ↦ rw (e, Leaves) (mastered (find rsrc_port arg k))
]
  where
    mastered : (o : Option Ptr) → Leaves Ports (new_master p arg o k)
    mastered none = v
    mastered (some m) =
        elim (Bool-cases (not ((k.resources m).owner == (k.resources k.current).owner))) [
          | inl e ↦ rw (e, Leaves) (v)
          | inr e ↦ rw (e, Leaves) (enslave-Ports p arg (refer m k) (put-Ports m _ k refl refl v))
        ]

pub option-Ports : (port opt arg : ℕ) (k : Kernel) → Ports k → Leaves Ports (option port opt arg k)
unfolding option
option-Ports port opt arg k v = opted (find rsrc_port port k)
  where
    opted : (o : Option Ptr) → Leaves Ports (option_at opt arg o k)
    opted none = v
    opted (some p) =
        elim (Bool-cases (not ((k.resources p).owner == (k.resources k.current).owner))) [
          | inl e ↦ rw (e, Leaves) (v)
          | inr e ↦
              rw (e, Leaves)
                (elim (Bool-cases (opt == opt_setrestrict)) [
                  | inl e ↦ rw (e, Leaves) (put-Ports p _ k refl refl v)
                  | inr e ↦
                      rw (e, Leaves)
                        (elim (Bool-cases (opt == opt_slave)) [
                          | inl e ↦ rw (e, Leaves) (set_master-Ports p arg k v)
                          | inr e ↦
                              rw (e, Leaves)
                                (elim (Bool-cases (opt == opt_nowait)) [
                                  | inl e ↦ rw (e, Leaves) (put-Ports p _ k refl refl v)
                                  | inr e ↦ rw (e, Leaves) (v)
                                ])
                        ])
                ])
        ]
