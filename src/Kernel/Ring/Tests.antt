-- ===== src/Kernel/Ring/Tests.antt =====
-- Runs of the list operations on a ring of two nodes.
use frotznet.Prelude.{◌≡◌, refl, List, [], ◌∷◌, ◌==◌, if◌then◌else◌}
use frotznet.Prelude.Int.{negsuc}
use frotznet.Kernel.State.{Ptr, err_none}
use frotznet.Kernel.Resource.{list_remove}
use frotznet.Kernel.Resource.Table.{has}
use frotznet.Kernel.Ring.{Links, init, add_tail, detach}
use frotznet.Kernel.Ring.Refine.{IsRing, init-IsRing, add_tail-IsRing}
use frotznet.Kernel.Ring.Detach.{detach-IsRing}

abbrev empty : Links
empty = record { next = λ a. 0; prev = λ a. 0; item = λ a. 0; count = λ a. 0 }

-- The list at 10 with the nodes 20 and 21, which hold 7 and 8.
abbrev two : Links
two = record {
  next = λ a. if a == 10 then 20 else if a == 20 then 21 else 10;
  prev = λ a. if a == 10 then 21 else if a == 20 then 10 else 20;
  item = λ a. if a == 20 then 7 else 8;
  count = λ a. 2;
}

two-IsRing : IsRing 10 (20 ∷ 21 ∷ []) (7 ∷ 8 ∷ []) two
two-IsRing = record {
  path = (refl, refl, (refl, refl, (refl, refl)));
  distinct = (refl, (refl, (refl, tt)));
  counted = refl;
  items = refl;
}

init-IsRing_example : IsRing 10 [] [] (init 10 empty)
init-IsRing_example = init-IsRing 10 empty

add_tail-IsRing_example : IsRing 10 (20 ∷ 21 ∷ 22 ∷ []) (7 ∷ 8 ∷ 9 ∷ []) (add_tail 10 22 9 two)
add_tail-IsRing_example = add_tail-IsRing 10 22 9 (20 ∷ 21 ∷ []) (7 ∷ 8 ∷ []) two two-IsRing refl

detach-IsRing_example :
    (ms : List Ptr) × IsRing 10 ms (list_remove 8 (7 ∷ 8 ∷ [])) (detach 10 8 two).1
    × ((detach 10 8 two).0 ≡ (if has 8 (7 ∷ 8 ∷ []) then err_none else negsuc 0))
detach-IsRing_example = detach-IsRing 10 (20 ∷ 21 ∷ []) (7 ∷ 8 ∷ []) two two-IsRing 8
