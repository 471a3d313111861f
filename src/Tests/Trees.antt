-- ===== src/Tests/Trees.antt =====
-- src/common/avl.c on concrete inputs.
use olsrd_hybrid_plc.Prelude.{◌≡◌, refl, true, false, some, [], ◌∷◌, arith}
use olsrd_hybrid_plc.Prelude.Int.{pos, negsuc}
use olsrd_hybrid_plc.Avl.{Tree, leaf, node, insert_node, there, grown, avl_find}
use olsrd_hybrid_plc.Avl.Inorder.{inorder}
use olsrd_hybrid_plc.Avl.Balance.{IsAvl}
use olsrd_hybrid_plc.Avl.Order.{Sorted, find_item}
use olsrd_hybrid_plc.Avl.Find.{avl_find-find_item}
use olsrd_hybrid_plc.Avl.Threads.{AvlTree, avl_insert, avl_delete_leader}
use olsrd_hybrid_plc.Avl.Threads.Inserted.{Well, InsertOk}
use olsrd_hybrid_plc.Avl.Threads.Whole.{avl_insert-InsertOk}
use olsrd_hybrid_plc.Avl.Threads.Deleted.{DeleteOk, avl_delete_leader-DeleteOk}
use olsrd_hybrid_plc.Avl.Delete.{delete_worker}
use olsrd_hybrid_plc.Avl.Delete.Worker.{without, DeletedOk, delete_worker-Ok}

-- The keys 10 and 20, the greater one below.
abbrev two_nodes : Tree
two_nodes = node leaf (10, 1) (pos 1) (node leaf (20, 2) (pos 0) leaf)

two_nodes-Sorted : Sorted (inorder two_nodes)
two_nodes-Sorted = omega arith

two_nodes-IsAvl : IsAvl two_nodes
two_nodes-IsAvl = (refl, tt, (refl, tt, tt))

-- A third key between them asks for a double rotation.
insert_node_double :
    insert_node (15, 3) two_nodes
    ≡ grown (node (node leaf (10, 1) (pos 0) leaf) (15, 3) (pos 0) (node leaf (20, 2) (pos 0) leaf))
unfolding insert_node
insert_node_double = refl

insert_node_there : insert_node (20, 3) two_nodes ≡ there (20, 2)
unfolding insert_node
insert_node_there = refl

avl_find-find_item_example : avl_find two_nodes 20 ≡ find_item 20 (inorder two_nodes)
avl_find-find_item_example = avl_find-find_item two_nodes 20 two_nodes-Sorted

abbrev four_nodes : Tree
four_nodes =
    node (node leaf (10, 1) (pos 0) leaf) (20, 2) (pos 1)
      (node leaf (25, 4) (pos 1) (node leaf (30, 3) (pos 0) leaf))

four_nodes-Sorted : Sorted (inorder four_nodes)
four_nodes-Sorted = omega arith

four_nodes-IsAvl : IsAvl four_nodes
four_nodes-IsAvl = (refl, (refl, tt, tt), (refl, tt, (refl, tt, tt)))

-- The root goes, and its neighbour on the right stands in its place.
delete_worker_root :
    delete_worker
      (node leaf (10, 1) (pos 0) leaf)
      (20, 2)
      (pos 1)
      (node leaf (25, 4) (pos 1) (node leaf (30, 3) (pos 0) leaf))
      []
    ≡ some (node (node leaf (10, 1) (pos 0) leaf) (25, 4) (pos 0) (node leaf (30, 3) (pos 0) leaf))
unfolding delete_worker
delete_worker_root = refl

delete_worker-Ok_example : DeletedOk (without (20, 2) (inorder four_nodes)) (
    delete_worker
      (node leaf (10, 1) (pos 0) leaf)
      (20, 2)
      (pos 1)
      (node leaf (25, 4) (pos 1) (node leaf (30, 3) (pos 0) leaf))
      [])
delete_worker-Ok_example =
    delete_worker-Ok (node leaf (10, 1) (pos 0) leaf)
      (node leaf (25, 4) (pos 1) (node leaf (30, 3) (pos 0) leaf)) (20, 2) (pos 1) []
      four_nodes-Sorted four_nodes-IsAvl

-- The two keys, with a duplicate of the first one.
abbrev threaded : AvlTree
threaded = record {
  root = two_nodes;
  nodes = ((10, 1), true) ∷ ((10, 5), false) ∷ ((20, 2), true) ∷ [];
  count = 3;
}

threaded-Well : Well threaded
threaded-Well = (
  two_nodes-Sorted,
  two_nodes-IsAvl,
  refl,
  ((refl, (refl, tt)), ((refl, tt), (tt, tt))),
  refl,
  refl,
)

avl_insert-InsertOk_example : InsertOk true (15, 3) threaded (avl_insert true (15, 3) threaded)
avl_insert-InsertOk_example =
    avl_insert-InsertOk true (15, 3) threaded threaded-Well (refl, (refl, (refl, tt)))

avl_delete_leader-DeleteOk_example :
    DeleteOk
      (10, 1)
      threaded
      (avl_delete_leader leaf (10, 1) (pos 1) (node leaf (20, 2) (pos 0) leaf) [] threaded)
avl_delete_leader-DeleteOk_example =
    avl_delete_leader-DeleteOk leaf (node leaf (20, 2) (pos 0) leaf) (10, 1) (pos 1) [] threaded
      refl threaded-Well

-- An insertion of a key that is there returns -1 where duplicates are not allowed.
avl_insert_refused : avl_insert false (10, 7) threaded ≡ some (negsuc 0, threaded)
unfolding avl_insert
avl_insert_refused = refl
