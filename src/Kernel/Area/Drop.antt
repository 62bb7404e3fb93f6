-- ===== src/Kernel/Area/Drop.antt =====
-- The loops of area_destroy that give the pages of an area back, in kernel/aspace.c.
use frotznet.Prelude.{
  ℕ, zero, suc, ◌+◌, ◌-◌, ◌*◌, ◌≤◌, ◌≡◌, ◌≢◌, refl, sym, ap, ◌∙◌, true, false, List, [], ◌∷◌, ◌++◌,
  arith, ◌==◌, if◌then◌else◌,
}
use frotznet.Kernel.Resource.Table.{has, Distinct}
use frotznet.Kernel.Resource.Removal.{has-append}
use frotznet.Kernel.Memory.{Pages, putpage}
use frotznet.Kernel.Memory.Chain.{Free, putpage-Free}
use frotznet.Kernel.Area.Teardown.{put_slots, put_chain}

-- putpage of the pages, one after the other.
abbrev pub put_all : List ℕ → Pages → Pages
put_all [] p = p
put_all (t ∷ ts) p = put_all ts (putpage t p)

-- The list with the pages put in front of it, one after the other.
abbrev pub pushed : List ℕ → List ℕ → List ℕ
pushed [] is = is
pushed (t ∷ ts) is = pushed ts (t ∷ is)

-- The slots from `i` on, `n` of them.
abbrev pub slots_of : (ℕ → ℕ) → ℕ → ℕ → List ℕ
slots_of slot i zero = []
slots_of slot i (suc n) = slot i ∷ slots_of slot (i + 1) n

abbrev fewer : ℕ → ℕ → ℕ
fewer zero size = zero
fewer (suc left) zero = zero
fewer (suc left) (suc size) = suc (fewer left size)

put_slots_lem :
    (left i size : ℕ) (slot : ℕ → ℕ) (p : Pages)
    → put_slots left i size slot p ≡ put_all (slots_of slot i (fewer left size)) p
unfolding put_slots
put_slots_lem zero i size slot p = refl
put_slots_lem (suc left) i zero slot p = refl
put_slots_lem (suc left) i (suc size) slot p =
    let e : suc size - 1 ≡ size = omega arith in
    let more : (suc size == 0) ≡ false = ground arith in
    rw (e, more, if◌then◌else◌) (put_slots_lem left (i + 1) size slot (putpage (slot i) p))

slots_of_split :
    (slot : ℕ → ℕ) (k i size : ℕ)
    → slots_of slot i size ≡ slots_of slot i (fewer k size) ++ slots_of slot (i + k) (size - k)
slots_of_split slot zero i size =
    let e : i + 0 ≡ i = omega arith in let e' : size - 0 ≡ size = omega arith in rw (e, e') refl
slots_of_split slot (suc k) i zero = let e : 0 - suc k ≡ 0 = omega arith in rw e refl
slots_of_split slot (suc k) i (suc size) =
    let e : i + suc k ≡ i + 1 + k = omega arith in
    let e' : suc size - suc k ≡ size - k = omega arith in
    rw (e, e') (ap (λ is. slot i ∷ is) (slots_of_split slot k (i + 1) size))

put_all-append : (ts us : List ℕ) (p : Pages) → put_all (ts ++ us) p ≡ put_all us (put_all ts p)
put_all-append [] us p = refl
put_all-append (t ∷ ts) us p = put_all-append ts us (putpage t p)

-- area_destroy gives back the pages of a group that its phys_page_t's have room for, slot by slot.
pub put_chain_lem :
    (chain i size : ℕ) (slot : ℕ → ℕ) (p : Pages)
    → size ≤ 6 * chain
    → put_chain chain i size slot p ≡ put_all (slots_of slot i size) p
unfolding put_chain
put_chain_lem zero i size slot p h = let e : size ≡ 0 = omega arith in rw e refl
put_chain_lem (suc chain) i size slot p h =
    put_chain_lem chain (i + 6) (size - 6) slot (put_slots 6 i size slot p) (omega arith)
    ∙ ap (put_all (slots_of slot (i + 6) (size - 6))) (put_slots_lem 6 i size slot p)
    ∙ sym (put_all-append (slots_of slot i (fewer 6 size)) (slots_of slot (i + 6) (size - 6)) p)
    ∙ ap (λ ts. put_all ts p) (sym (slots_of_split slot 6 i size))

-- A page that stands before the list may as well stand inside.
Distinct-insert :
    (t : ℕ) (ts is : List ℕ)
    → has t (ts ++ is) ≡ false
    → Distinct (ts ++ is)
    → Distinct (ts ++ (t ∷ is))
Distinct-insert t [] is out d = (out, d)
Distinct-insert t (u ∷ us) is out d = (
  (let a = has-append u us is in let b = has-append u us (t ∷ is) in ground arith),
  Distinct-insert t us is (ground arith) d.1,
)

-- Pages that are not 0, that differ and are not free yet, come to stand before the free ones.
pub put_all-Free :
    (ts is : List ℕ) (p : Pages)
    → Free p.pagelist p.freepage is
    → Distinct (ts ++ is)
    → ((t : ℕ) → has t ts ≡ true → t ≢ 0)
    → Free (put_all ts p).pagelist (put_all ts p).freepage (pushed ts is)
put_all-Free [] is p c d ne = c
put_all-Free (t ∷ ts) is p c d ne =
    put_all-Free ts (t ∷ is) (putpage t p)
      (putpage-Free t is p c (let a = has-append t ts is in ground (arith, d.0))
        (ne t (ground arith)))
      (Distinct-insert t ts is d.0 d.1) (λ u h. ne u (ground arith))
