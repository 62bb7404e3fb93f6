-- ===== src/Kernel/Ring.antt =====
-- kernel/list.c: doubly linked rings. A list is known by the address of its list_t, which stands in the
-- ring as the node before the first and after the last. `kmalloc` is the address that a call is given.
pub mod Refine
mod Tests
pub mod Search
pub mod Detach
use frotznet.Prelude.{ℕ, zero, suc, ◌+◌, ◌-◌, Option, none, some, ◌==◌, if◌then◌else◌, update}
use frotznet.Prelude.Int.{ℤ, negsuc}
use frotznet.Kernel.State.{Ptr, err_none}

-- The nodes and the lists, by address.
pub record Links : Type 0 where
  pub next : Ptr → Ptr
  pub prev : Ptr → Ptr
  pub item : Ptr → Ptr
  pub count : Ptr → ℕ

abbrev pub put_next : Ptr → Ptr → Links → Links
put_next a v h = record h { next = update h.next a v }

abbrev pub put_prev : Ptr → Ptr → Links → Links
put_prev a v h = record h { prev = update h.prev a v }

abbrev pub put_item : Ptr → Ptr → Links → Links
put_item a v h = record h { item = update h.item a v }

abbrev pub put_count : Ptr → ℕ → Links → Links
put_count a v h = record h { count = update h.count a v }

unfoldable pub init : Ptr → Links → Links
init list h = put_count list 0 (put_prev list list (put_next list list h))

-- list_attach_head
unfoldable pub attach_head : Ptr → Ptr → Links → Links
attach_head list node h =
    let h = put_next node (h.next list) h in
    let h = put_prev (h.next node) node h in
    let h = put_next list node (put_prev node list h) in put_count list (h.count list + 1) h

-- list_attach_tail
unfoldable pub attach_tail : Ptr → Ptr → Links → Links
attach_tail list node h =
    let h = put_prev node (h.prev list) h in
    let h = put_next (h.prev node) node h in
    let h = put_prev list node (put_next node list h) in put_count list (h.count list + 1) h

-- list_add_head and list_add_tail; `node` is what kmalloc returns.
unfoldable pub add_head : Ptr → Ptr → Ptr → Links → Links
unfolding attach_head
add_head list node item h = attach_head list node (put_item node item h)

unfoldable pub add_tail : Ptr → Ptr → Ptr → Links → Links
unfolding attach_tail
add_tail list node item h = attach_tail list node (put_item node item h)

unfoldable pub peek_head : Ptr → Links → Option Ptr
peek_head list h = if h.next list == list then none else some (h.item (h.next list))

unfoldable pub peek_tail : Ptr → Links → Option Ptr
peek_tail list h = if h.prev list == list then none else some (h.item (h.prev list))

-- The neighbours of a node are joined, and the count, which is not 0 in a ring with a node, goes down.
abbrev pub unlink : Ptr → Ptr → Links → Links
unlink list node h =
    let h = put_next (h.prev node) (h.next node) h in
    let h = put_prev (h.next node) (h.prev node) h in put_count list (h.count list - 1) h

-- The same in the order of list_detach and list_remove.
abbrev pub unlink_back : Ptr → Ptr → Links → Links
unlink_back list node h =
    let h = put_prev (h.next node) (h.prev node) h in
    let h = put_next (h.prev node) (h.next node) h in put_count list (h.count list - 1) h

-- The node is taken out, unless it is the list.
abbrev pub detach_node : Ptr → Ptr → Links → Option Ptr × Links
detach_node list node h =
    if node == list then (none, h) else (some (h.item node), unlink list node h)

-- list_detach_head and list_remove_head, which also frees the node.
unfoldable pub detach_head : Ptr → Links → Option Ptr × Links
detach_head list h = detach_node list (h.next list) h

-- list_detach_tail and list_remove_tail
unfoldable pub detach_tail : Ptr → Links → Option Ptr × Links
detach_tail list h = detach_node list (h.prev list) h

-- The loop of list_detach and list_remove, from `node` on. The fuel bounds the nodes that it looks at;
-- with none left the result is that of an item that is not there.
unfoldable pub detach_from : ℕ → Ptr → Ptr → Ptr → Links → ℤ × Links
detach_from zero list item node h = (negsuc 0, h)
detach_from (suc fuel) list item node h =
    let rest = detach_from fuel list item (h.next node) h in
    if node == list
    then (negsuc 0, h)
    else if h.item node == item
    then (err_none, unlink_back list node h)
    else rest

-- list_detach and list_remove; a ring has as many nodes as its count says.
unfoldable pub detach : Ptr → Ptr → Links → ℤ × Links
unfolding detach_from
detach list item h = detach_from (suc (h.count list)) list item (h.next list) h
