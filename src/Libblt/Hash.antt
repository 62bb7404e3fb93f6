-- ===== src/Libblt/Hash.antt =====
-- lib/libblt/hash.c: a hash table with open addressing. A key is the unsigned int that % sees. The
-- tests of the load, which compare floats, are given: `over` for that of hashtable_insert, `under` for
-- that of hashtable_remove. `none` is a read outside of an array, or a loop that has not ended when its
-- fuel is used up; a loop that meets no free node does not end.
pub mod Lookup
mod Tests
use frotznet.Prelude.{
  ℕ, zero, suc, ◌+◌, ◌-◌, ◌%◌, Bool, true, false, ◌&&◌, not, Option, none, some, List, [], ◌∷◌,
  ◌==◌, leb, if◌then◌else◌, get_elem?, set, length, replicate,
}

-- hashnode_t
pub record Node : Type 0 where
  pub valid : Bool
  pub dirty : Bool
  pub key : ℕ
  pub item : ℕ
  pub dsize : ℕ

-- hashtable_t, without max_load
pub record Table : Type 0 where
  pub size_index : ℕ
  pub used : ℕ
  pub dirty : ℕ
  pub nodes : List Node

abbrev pub table_size : List ℕ
table_size =
    7 ∷ 19 ∷ 43 ∷ 103 ∷ 229 ∷ 463 ∷ 1021 ∷ 2083 ∷ 4219 ∷ 8539 ∷ 17191 ∷ 34471 ∷ 69031 ∷ 138079
    ∷ 276373 ∷ 552751 ∷ 1105549 ∷ 2211259 ∷ 4422619 ∷ 8845453 ∷ 17691043 ∷ 35382091 ∷ 70764259
    ∷ 141528559 ∷ 283057213 ∷ 566115259 ∷ []

infixl 5 ◌>>=◌
abbrev pub ◌>>=◌ : {A B : Type 0} → Option A → (A → Option B) → Option B
none >>= f = none
some x >>= f = f x

abbrev pub hash : ℕ → ℕ → ℕ
hash key size = key % size

abbrev pub rehash : ℕ → ℕ → ℕ
rehash key size = 1 + key % (size - 2)

-- i -= c; if(i < 0) i += size;
abbrev pub back : ℕ → ℕ → ℕ → ℕ
back i c size = if leb c i then i - c else i + size - c

abbrev pub unused : Node
unused = record { valid = false; dirty = false; key = 0; item = 0; dsize = 0 }

-- hashtable_new
unfoldable pub create : Table
create = record { size_index = 0; used = 0; dirty = 0; nodes = replicate 7 unused }

-- The loop of hashtable_insert, from the node that is tried next.
unfoldable pub free_from : ℕ → ℕ → ℕ → List Node → ℕ → Option ℕ
free_from zero key size nodes i = none
free_from (suc fuel) key size nodes i =
    let i' = back i (rehash key size) size in
    let rest = free_from fuel key size nodes i' in
    get_elem? nodes i' >>= λ n. if n.valid && not n.dirty then rest else some i'

-- The node is written.
abbrev pub fill : ℕ → ℕ → ℕ → Table → ℕ → Node → Table
fill key item dsize t i n = record t {
  used = if n.dirty then t.used else t.used + 1;
  nodes =
      set t.nodes i (record { valid = true; dirty = false; key = key; item = item; dsize = dsize });
}

-- hashtable_insert after its test of the load
unfoldable pub put_node : ℕ → ℕ → ℕ → Table → Option Table
unfolding free_from
put_node key item dsize t = get_elem? table_size t.size_index >>= λ size.
    get_elem? t.nodes (hash key size) >>= λ n.
    (if n.valid
      then free_from (length t.nodes) key size t.nodes (hash key size)
      else some (hash key size))
    >>= λ i. get_elem? t.nodes i >>= λ n'. some (fill key item dsize t i n')

-- The second loop of hashtable_rebuild
abbrev pub copy_nodes : (Node → Table → Option Table) → List Node → Table → Option Table
copy_nodes insert [] t = some t
copy_nodes insert (n ∷ ns) t =
    (if n.valid && not n.dirty then insert n t else some t) >>= copy_nodes insert ns

-- hashtable_rebuild to the size of an index, with the insertion that it calls
abbrev pub rebuild : (Node → Table → Option Table) → ℕ → Table → Option Table
rebuild insert index t = get_elem? table_size index >>= λ size.
    copy_nodes insert t.nodes
      (record { size_index = index; used = 0; dirty = 0; nodes = replicate size unused })

module _ (over : ℕ → ℕ → Bool) where
  -- hashtable_insert; the fuel bounds the nesting of rebuilds.
  unfoldable pub insert : ℕ → ℕ → ℕ → ℕ → Table → Option Table
  unfolding put_node
  insert zero key item dsize t = none
  insert (suc fuel) key item dsize t = get_elem? table_size t.size_index >>= λ size.
      (if over t.used size
        then rebuild (λ n t'. insert fuel n.key n.item n.dsize t') (t.size_index + 1) t
        else some t)
      >>= put_node key item dsize

-- The index of the next smaller table, if there is one.
abbrev pub smaller : ℕ → ℕ
smaller index = if index == 0 then 0 else index - 1

-- The loop of hashtable_lookup and of hashtable_remove: the place of the key, if it is there.
unfoldable pub find_from : ℕ → ℕ → ℕ → List Node → ℕ → Option (Option ℕ)
find_from zero key size nodes i = none
find_from (suc fuel) key size nodes i =
    let rest = find_from fuel key size nodes (back i (rehash key size) size) in
    get_elem? nodes i >>= λ n.
    if not n.valid then some none else if n.key == key && not n.dirty then some (some i) else rest

abbrev pub read : Table → Option ℕ → Option (ℕ × ℕ)
read t none = some (0, 0)
read t (some i) = get_elem? t.nodes i >>= λ n. some (n.item, n.dsize)

-- hashtable_lookup: the data and its size, both 0 if the key is not there.
unfoldable pub lookup : ℕ → Table → Option (ℕ × ℕ)
unfolding find_from
lookup key t = get_elem? table_size t.size_index >>= λ size.
    find_from (suc (length t.nodes)) key size t.nodes (hash key size) >>= read t

-- A node that was found is marked as deleted.
abbrev pub mark : Table → ℕ → Node → Table
mark t i n = record t { nodes = set t.nodes i (record n { dirty = true }); dirty = t.dirty + 1 }

module _ (over under : ℕ → ℕ → Bool) where
  abbrev pub remove_at : ℕ → Table → ℕ → Option ℕ → Option ((ℕ × ℕ) × Table)
  remove_at fuel t size none = some ((0, 0), t)
  remove_at fuel t size (some i) = get_elem? t.nodes i >>= λ n.
      let t' = mark t i n in
      (if under t'.dirty size && not (t.size_index == 0)
        then rebuild (λ n t'. insert over fuel n.key n.item n.dsize t') (smaller t.size_index) t'
        else some t')
      >>= λ t''. some ((n.item, n.dsize), t'')

  -- hashtable_remove; the table is rebuilt at the smaller size when too many nodes are deleted.
  unfoldable pub remove : ℕ → ℕ → Table → Option ((ℕ × ℕ) × Table)
  unfolding find_from insert
  remove fuel key t = get_elem? table_size t.size_index >>= λ size.
      find_from (suc (length t.nodes)) key size t.nodes (hash key size) >>= remove_at fuel t size
