-- ===== src/Kernel/Resource/Removal.antt =====
-- Lists of addresses as kernel/resource.c and other code keep them: appending and removing one.
use frotznet.Prelude.{
  ℕ, ◌≡◌, refl, ap, true, false, ◌||◌, List, [], ◌∷◌, ◌++◌, arith, ◌==◌, if◌then◌else◌, Bool-cases,
  inl, inr,
}
use frotznet.Kernel.Resource.{list_remove}
use frotznet.Kernel.Resource.Table.{has, Distinct}

pub has-append : (x : ℕ) (ts us : List ℕ) → has x (ts ++ us) ≡ (has x ts || has x us)
has-append x [] us = refl
has-append x (t ∷ ts) us = let ih = has-append x ts us in ground arith

pub Distinct-append :
    (xs : List ℕ) (x : ℕ) → Distinct xs → has x xs ≡ false → Distinct (xs ++ (x ∷ []))
Distinct-append [] x d h = (refl, tt)
Distinct-append (y ∷ ys) x d h =
    ((let e = has-append y ys (x ∷ []) in ground arith), Distinct-append ys x d.1 (ground arith))

pub has-removed : (i x : ℕ) (ns : List ℕ) → has i (list_remove x ns) ≡ true → has i ns ≡ true
unfolding list_remove
has-removed i x [] h = h
has-removed i x (n ∷ ns) h = let ih = has-removed i x ns in ground arith

pub Distinct-removed : (x : ℕ) (ns : List ℕ) → Distinct ns → Distinct (list_remove x ns)
unfolding list_remove
Distinct-removed x [] d = d
Distinct-removed x (n ∷ ns) d =
    let ih = Distinct-removed x ns d.1 in
    elim (Bool-cases (n == x)) [
      | inl e ↦ rw (e, if◌then◌else◌) d.1
      | inr e ↦ rw (e, if◌then◌else◌) (let h = has-removed n x ns in ground (arith, d.0), ih)
    ]

pub removed_out : (x : ℕ) (ns : List ℕ) → Distinct ns → has x (list_remove x ns) ≡ false
unfolding list_remove
removed_out x [] d = refl
removed_out x (n ∷ ns) d = let ih = removed_out x ns d.1 in ground (arith, d.0)

pub list_remove-append :
    (x : ℕ) (ns : List ℕ) → has x ns ≡ false → list_remove x (ns ++ (x ∷ [])) ≡ ns
unfolding list_remove
list_remove-append x [] h = let e : (x == x) ≡ true = ground arith in rw (e, if◌then◌else◌) refl
list_remove-append x (n ∷ ns) h =
    let e : (n == x) ≡ false = ground arith in
    rw (e, if◌then◌else◌) (ap (λ ms. n ∷ ms) (list_remove-append x ns (ground arith)))

pub has-last : (x : ℕ) (ns : List ℕ) → has x (ns ++ (x ∷ [])) ≡ true
has-last x [] = ground arith
has-last x (n ∷ ns) = let ih = has-last x ns in ground arith
