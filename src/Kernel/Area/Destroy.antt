-- ===== src/Kernel/Area/Destroy.antt =====
-- area_destroy, in kernel/aspace.c.
use frotznet.Prelude.{
  ℕ, ◌+◌, ◌-◌, ◌<◌, ◌≡◌, ◌≢◌, sym, ap, ◌∙◌, subst, true, false, ◌||◌, arith, ltb, leb,
  if◌then◌else◌, update_self, update_ne, Bool-cases, Option-cases, inl, inr, ℕ_discrete,
}
use frotznet.Kernel.State.{Ptr, rsrc_area}
use frotznet.Kernel.Resource.{find, list_remove}
use frotznet.Kernel.Resource.Table.{has, Distinct}
use frotznet.Kernel.Resource.Removal.{has-removed, Distinct-removed, removed_out}
use frotznet.Kernel.Aspace.{Aspace, Vm, entry, clr}
use frotznet.Kernel.Aspace.Span.{clr_lem}
use frotznet.Kernel.Area.Teardown.{remove_area, destroy, destroy_at}
use frotznet.Kernel.Area.Mapped.{IsMapped, if_true}

abbrev pub cleared : Ptr → Ptr → Vm → Aspace
cleared a area m = record (m.spaces a) {
  areas = list_remove area (m.spaces a).areas;
  ptab = clr (m.areas area).virt_addr (m.areas area).length (m.spaces a).ptab;
}

pub cleared_is : (a area : Ptr) (m : Vm) → (remove_area a area m).spaces a ≡ cleared a area m
cleared_is a area m = update_self m.spaces a (cleared a area m)

same_slots :
    (a area pg i : ℕ) (m : Vm) → ((remove_area a area m).groups pg).slot i ≡ (m.groups pg).slot i
same_slots a area pg i m = elim (ℕ_discrete (m.areas area).pgroup pg) [
  | yes e ↦
      subst (λ q. ((remove_area a area m).groups q).slot i ≡ (m.groups q).slot i) e
        (ap (λ g. g.slot i) (update_self m.groups (m.areas area).pgroup _))
  | no ne ↦ ap (λ g. g.slot i) (update_ne m.groups (m.areas area).pgroup _ pg ne)
]

-- What is left of an address space without one of its areas.
module _ (a area : Ptr) (m : Vm) (im : IsMapped a m)
    (there : has area (m.spaces a).areas ≡ true) where
  kept :
      (x : Ptr)
      → has x ((remove_area a area m).spaces a).areas ≡ true
      → (has x (m.spaces a).areas ≡ true) × (area ≢ x)
  kept x h =
      let h' : has x (list_remove area (m.spaces a).areas) ≡ true =
        ap (λ s. has x s.areas) (sym (cleared_is a area m)) ∙ h in
      let out = removed_out area (m.spaces a).areas im.distinct in
      (
        has-removed x area (m.spaces a).areas h',
        λ e.
            let out' = subst (λ y. has y (list_remove area (m.spaces a).areas) ≡ false) e out in cc,
      )

  kept_cell :
      (x : Ptr) (i : ℕ)
      → has x (m.spaces a).areas ≡ true
      → area ≢ x
      → i < (m.areas x).length
      → ((remove_area a area m).spaces a).ptab ((m.areas x).virt_addr + i)
        ≡ entry ((m.groups (m.areas x).pgroup).slot i) 7
  kept_cell x i h ne lt =
      let v = (m.areas x).virt_addr + i in
      let r = m.areas area in
      let far = im.apart area x (v - r.virt_addr) i there h ne in
      let out : (ltb v r.virt_addr || leb (r.virt_addr + r.length) v) ≡ true = ground arith in
      ap (λ s. s.ptab v) (cleared_is a area m)
      ∙ clr_lem r.virt_addr r.length (m.spaces a).ptab v
      ∙ if_true _ out
      ∙ im.mapped x i h lt

  remove_area-IsMapped : IsMapped a (remove_area a area m)
  remove_area-IsMapped = record {
    distinct =
        subst (λ s. Distinct s.areas) (sym (cleared_is a area m))
          (Distinct-removed area (m.spaces a).areas im.distinct);
    mapped = λ x i h lt.
        let k = kept x h in
        kept_cell x i k.0 k.1 lt
        ∙ ap (λ p. entry p 7) (sym (same_slots a area (m.areas x).pgroup i m));
    inside = λ x h. im.inside x (kept x h).0;
    apart = λ x y i j hx hy. im.apart x y i j (kept x hx).0 (kept y hy).0;
  }

-- area_destroy on a well-formed address space, of whatever number: every area that is left is still
-- mapped to its pages by entries of its own.
pub destroy-IsMapped : (a id : ℕ) (m : Vm) → IsMapped a m → IsMapped a (destroy a id m).1
unfolding destroy
destroy-IsMapped a id m im = elim (Option-cases (find rsrc_area id m.kernel)) [
  | inl e ↦ rw (e, destroy_at) im
  | inr (area, e) ↦ elim (Bool-cases (has area (m.spaces a).areas)) [
    | inl h ↦ rw (e, destroy_at, h, if◌then◌else◌) (remove_area-IsMapped a area m im h)
    | inr h ↦ rw (e, destroy_at, h, if◌then◌else◌) im
  ]
]
