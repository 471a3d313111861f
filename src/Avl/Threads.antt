-- ===== src/Avl/Threads.antt =====
-- The whole operations of src/common/avl.c on a tree and the list through its nodes: avl_init,
-- avl_insert, avl_insert_before, avl_insert_after, avl_remove and avl_delete. Nodes of one key stand
-- next to each other in the list; the first of them is the leader, and it alone is in the tree.
pub mod Placed
pub mod Apart
pub mod Inserted
pub mod Whole
pub mod Removed
pub mod Deleted
use olsrd_hybrid_plc.Prelude.{
  ℕ, zero, suc, ◌+◌, ◌-◌, Bool, true, false, Option, none, some, List, [], ◌∷◌, ltb, ◌==◌,
  if◌then◌else◌,
}
use olsrd_hybrid_plc.Prelude.Int.{ℤ, pos, negsuc}
use olsrd_hybrid_plc.Avl.{
  Item, Tree, leaf, node, Frame, plug, avl_find_rec, insert_at, there, grown, null_pointer, eqb_ℤ,
}
use olsrd_hybrid_plc.Avl.Delete.{delete_worker}

-- A node of the list: whether it is a leader.
abbrev pub Entry : Type 0
Entry = Item × Bool

pub record AvlTree : Type 0 where
  pub root : Tree
  pub nodes : List Entry
  pub count : ℕ

abbrev pub avl_init : AvlTree
avl_init = record { root = leaf; nodes = []; count = 0 }

-- In front of the node of this identity.
abbrev pub insert_before : ℕ → Entry → List Entry → List Entry
insert_before i new [] = []
insert_before i new ((x, b) ∷ es) =
    if x.1 == i then new ∷ (x, b) ∷ es else (x, b) ∷ insert_before i new es

-- Behind the nodes that are no leaders: where `last` comes to stand, and `avl_insert_after` there.
abbrev pub behind_group : Entry → List Entry → List Entry
behind_group new [] = new ∷ []
behind_group new ((x, b) ∷ es) = if b then new ∷ (x, b) ∷ es else (x, b) ∷ behind_group new es

abbrev pub insert_behind : ℕ → Entry → List Entry → List Entry
insert_behind i new [] = []
insert_behind i new ((x, b) ∷ es) =
    if x.1 == i then (x, b) ∷ behind_group new es else (x, b) ∷ insert_behind i new es

-- The list after the insertion of a new leader at the node `x` of this balance.
abbrev pub insert_thread : Item → Item → ℤ → List Entry → List Entry
insert_thread new x b nodes =
    if eqb_ℤ b (pos 1)
    then insert_before (x.1) (new, true) nodes
    else if eqb_ℤ b (negsuc 0)
    then insert_behind (x.1) (new, true) nodes
    else if ltb (new.0) (x.0)
    then insert_before (x.1) (new, true) nodes
    else insert_behind (x.1) (new, true) nodes

-- `avl_insert` at the node that was found: the return value, and the tree.
abbrev pub insert_found : Bool → Item → AvlTree → Tree → List Frame → Option (ℤ × AvlTree)
insert_found allow_duplicates new t leaf path = none
insert_found allow_duplicates new t (node l x b r) path = elim (insert_at new (node l x b r) path) [
  | null_pointer ↦ none
  | there y ↦
      if allow_duplicates
      then some (
        pos 0,
        record {
          root = t.root;
          nodes = insert_behind (x.1) (new, false) (t.nodes);
          count = t.count + 1;
        },
      )
      else some (negsuc 0, t)
  | grown root' ↦
      some (
        pos 0,
        record { root = root'; nodes = insert_thread new x b (t.nodes); count = t.count + 1 },
      )
]

unfoldable pub avl_insert : Bool → Item → AvlTree → Option (ℤ × AvlTree)
unfolding avl_find_rec insert_at
avl_insert allow_duplicates new t = elim (t.root) [
  | leaf ↦
      some
        (pos 0, record { root = node leaf new (pos 0) leaf; nodes = (new, true) ∷ []; count = 1 })
  | node l x b r ↦
      let (found, path) = avl_find_rec (new.0) (node l x b r) [] in
      insert_found allow_duplicates new t found path
]

abbrev pub avl_remove : ℕ → List Entry → List Entry
avl_remove i [] = []
avl_remove i ((x, b) ∷ es) = if x.1 == i then es else (x, b) ∷ avl_remove i es

-- The node behind this one, where it is no leader.
abbrev pub duplicate_in_front : List Entry → Option Item
duplicate_in_front [] = none
duplicate_in_front ((x, b) ∷ es) = if b then none else some x

abbrev pub duplicate_behind : ℕ → List Entry → Option Item
duplicate_behind i [] = none
duplicate_behind i ((x, b) ∷ es) = if x.1 == i then duplicate_in_front es else duplicate_behind i es

abbrev pub make_leader : ℕ → List Entry → List Entry
make_leader i [] = []
make_leader i ((x, b) ∷ es) = if x.1 == i then (x, true) ∷ es else (x, b) ∷ make_leader i es

-- `avl_delete` of a leader, by its place in the tree.
unfoldable pub avl_delete_leader : Tree → Item → ℤ → Tree → List Frame → AvlTree → Option AvlTree
unfolding delete_worker
avl_delete_leader l x b r path t = elim (duplicate_behind (x.1) (t.nodes)) [
  | some next ↦ some (record {
    root = plug (node l next b r) path;
    nodes = avl_remove (x.1) (make_leader (next.1) (t.nodes));
    count = t.count - 1;
  })
  | none ↦ elim (delete_worker l x b r path) [
    | none ↦ none
    | some root' ↦
        some (record { root = root'; nodes = avl_remove (x.1) (t.nodes); count = t.count - 1 })
  ]
]

-- `avl_delete` of a node that is no leader.
unfoldable pub avl_delete_duplicate : Item → AvlTree → AvlTree
avl_delete_duplicate x t = record {
  root = t.root;
  nodes = avl_remove (x.1) (t.nodes);
  count = t.count - 1;
}
