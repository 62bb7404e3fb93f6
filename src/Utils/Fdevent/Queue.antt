-- ===== src/Utils/Fdevent/Queue.antt =====
-- The queue of pending events in utils/fdevent.c.
use frotznet.Prelude.{
  ℕ, ◌≡◌, ◌≢◌, refl, sym, ap, ◌∙◌, subst, true, false, List, [], ◌∷◌, ◌++◌, arith, ◌==◌,
  if◌then◌else◌, update, update_self, update_ne, Bool-cases, inl, inr, ℕ_discrete,
}
use frotznet.Kernel.Resource.{list_remove}
use frotznet.Kernel.Resource.Table.{has, Distinct}
use frotznet.Kernel.Resource.Removal.{
  has-append, Distinct-append, Distinct-removed, removed_out, has-last,
}
use frotznet.Utils.Fdevent.{Ptr, Events, Fde, World, plist_enqueue}
use frotznet.Utils.Fdevent.Loop.{signal}

-- The queue holds each pending fdevent once, and no other.
pub record IsQueue (queue : List Ptr) (fdes : Ptr → Fde) : Type 0 where
  pub distinct : Distinct queue
  pub listed : (f : Ptr) → has f queue ≡ (fdes f).pending

pub write-IsQueue :
    (q : List Ptr) (fdes : Ptr → Fde) (f : Ptr) (x : Fde)
    → x.pending ≡ (fdes f).pending
    → IsQueue q fdes
    → IsQueue q (update fdes f x)
write-IsQueue q fdes f x e i = record {
  distinct = i.distinct;
  listed = λ g. elim (ℕ_discrete f g) [
    | yes same ↦
        subst (λ h. has h q ≡ (update fdes f x h).pending) same
          (i.listed f ∙ sym e ∙ ap (λ y. y.pending) (sym (update_self fdes f x)))
    | no other ↦ i.listed g ∙ ap (λ y. y.pending) (sym (update_ne fdes f x g other))
  ];
}

has-kept : (g f : ℕ) (ns : List ℕ) → f ≢ g → has g (list_remove f ns) ≡ has g ns
unfolding list_remove
has-kept g f [] ne = refl
has-kept g f (n ∷ ns) ne = let ih = has-kept g f ns ne in ground arith

pub drop-IsQueue :
    (q : List Ptr) (fdes : Ptr → Fde) (f : Ptr) (x : Fde)
    → x.pending ≡ false
    → IsQueue q fdes
    → IsQueue (list_remove f q) (update fdes f x)
drop-IsQueue q fdes f x e i = record {
  distinct = Distinct-removed f q i.distinct;
  listed = λ g. elim (ℕ_discrete f g) [
    | yes same ↦
        subst (λ h. has h (list_remove f q) ≡ (update fdes f x h).pending) same
          (removed_out f q i.distinct ∙ sym e ∙ ap (λ y. y.pending) (sym (update_self fdes f x)))
    | no other ↦
        has-kept g f q other ∙ i.listed g ∙ ap (λ y. y.pending) (sym (update_ne fdes f x g other))
  ];
}

push-IsQueue :
    (q : List Ptr) (fdes : Ptr → Fde) (f : Ptr) (x : Fde)
    → x.pending ≡ true
    → (fdes f).pending ≡ false
    → IsQueue q fdes
    → IsQueue (q ++ (f ∷ [])) (update fdes f x)
push-IsQueue q fdes f x e new i = record {
  distinct = Distinct-append q f i.distinct (i.listed f ∙ new);
  listed = λ g.
      let h = has-append g q (f ∷ []) in
      elim (ℕ_discrete f g) [
        | yes same ↦
            subst (λ h. has h (q ++ (f ∷ [])) ≡ (update fdes f x h).pending) same
              (has-last f q ∙ sym e ∙ ap (λ y. y.pending) (sym (update_self fdes f x)))
        | no other ↦
            (let unequal : (g == f) ≡ false =
                (let n : g ≢ f = λ s. other (sym s) in ground arith) in
              let same : has g (q ++ (f ∷ [])) ≡ has g q = ground arith in
              same ∙ i.listed g ∙ ap (λ y. y.pending) (sym (update_ne fdes f x g other)))
      ];
}

abbrev pub Queued : World → Type 0
Queued w = IsQueue w.queue w.fdes

pub signal-Queued : (f : Ptr) (e : Events) (w : World) → Queued w → Queued (signal f e w)
unfolding plist_enqueue
signal-Queued f e w i = elim (Bool-cases (w.fdes f).pending) [
  | inl busy ↦ rw (signal, busy, if◌then◌else◌) (write-IsQueue w.queue w.fdes f _ (sym busy) i)
  | inr idle ↦ rw (signal, idle, if◌then◌else◌) (push-IsQueue w.queue w.fdes f _ refl idle i)
]
