-- ===== src/Avl/Threads/Deleted.antt =====
-- avl_delete of src/common/avl.c for a leader: the tree and the list through its nodes stay together.
use olsrd_hybrid_plc.Prelude.{
  suc, ◌-◌, ◌≡◌, refl, sym, ap, ◌∙◌, Option, none, some, List, ◌∷◌, ◌++◌, arith, length,
}
use olsrd_hybrid_plc.Prelude.Int.{ℤ}
use olsrd_hybrid_plc.Avl.{Item, Tree, node, Frame, plug}
use olsrd_hybrid_plc.Avl.Inorder.{inorder, before, after}
use olsrd_hybrid_plc.Avl.Balance.{height, IsAvl, plug-IsAvl}
use olsrd_hybrid_plc.Avl.Order.{Sorted, Sorted-parts}
use olsrd_hybrid_plc.Avl.Delete.{delete_worker}
use olsrd_hybrid_plc.Avl.Delete.Worker.{
  DeletedOk, delete_worker-Ok, around, without, without_around, unplug-IsAvl, swapped,
  swapped-around,
}
use olsrd_hybrid_plc.Avl.Threads.{
  Entry, AvlTree, avl_remove, duplicate_behind, make_leader, avl_delete_leader,
}
use olsrd_hybrid_plc.Avl.Threads.Placed.{leaders, Distinct}
use olsrd_hybrid_plc.Avl.Threads.Inserted.{Well}
use olsrd_hybrid_plc.Avl.Threads.Removed.{removed_alone, promoted}

-- The leaders after the deletion: a duplicate in the place of `x`, or none.
abbrev pub remaining : Item → List Entry → List Item
remaining x es = elim (duplicate_behind (x.1) es) [
  | none ↦ without x (leaders es)
  | some next ↦ swapped x next (leaders es)
]

abbrev pub DeleteOk : Item → AvlTree → Option AvlTree → Type 0
DeleteOk x t none = ⊥
DeleteOk x t (some t') =
    IsAvl (t'.root)
    × (leaders (t'.nodes) ≡ inorder (t'.root))
    × (leaders (t'.nodes) ≡ remaining x (t.nodes))
    × (length (t.nodes) ≡ suc (length (t'.nodes)))
    × (t'.count ≡ length (t'.nodes))

relabelled-IsAvl :
    (l r : Tree) (x y : Item) (b : ℤ) (path : List Frame)
    → IsAvl (plug (node l x b r) path)
    → IsAvl (plug (node l y b r) path)
relabelled-IsAvl l r x y b path a =
    let (here, p) = unplug-IsAvl (node l x b r) path a in
    plug-IsAvl (height (node l x b r)) (node l y b r) path refl here p

by_worker :
    (l r : Tree) (x : Item) (b : ℤ) (path : List Frame) (t : AvlTree) (o : Option Tree)
    → Sorted (inorder (plug (node l x b r) path))
    → Distinct (t.nodes)
    → leaders (t.nodes) ≡ inorder (plug (node l x b r) path)
    → t.count ≡ length (t.nodes)
    → duplicate_behind (x.1) (t.nodes) ≡ none
    → DeletedOk (without x (inorder (plug (node l x b r) path))) o
    → DeleteOk x t (elim o as (λ o. Option AvlTree) [
      | none ↦ none
      | some root' ↦
          some (record { root = root'; nodes = avl_remove (x.1) (t.nodes); count = t.count - 1 })
    ])
by_worker l r x b path t none s d e c lone ok = elim ok [ ]
by_worker l r x b path t (some root') s d e c lone (items, avl) =
    let (done, shorter) =
      removed_alone (t.nodes) (before path ++ inorder l) (inorder r ++ after path) x d
        (e ∙ around l r x b path) in
    let list : leaders (avl_remove (x.1) (t.nodes))
        ≡ without x (inorder (plug (node l x b r) path)) =
      done ∙ sym (without_around l r x b path s) in
    rw (lone, remaining)
      (
        avl,
        list ∙ sym items,
        list ∙ ap (λ l. without x l) (sym e),
        shorter,
        omega (arith, c, shorter),
      )

by_duplicate :
    (l r : Tree) (x next : Item) (b : ℤ) (path : List Frame) (t : AvlTree)
    → Sorted (inorder (plug (node l x b r) path))
    → IsAvl (plug (node l x b r) path)
    → Distinct (t.nodes)
    → leaders (t.nodes) ≡ inorder (plug (node l x b r) path)
    → t.count ≡ length (t.nodes)
    → duplicate_behind (x.1) (t.nodes) ≡ some next
    → DeleteOk x t (
        some (record {
          root = plug (node l next b r) path;
          nodes = avl_remove (x.1) (make_leader (next.1) (t.nodes));
          count = t.count - 1;
        }))
by_duplicate l r x next b path t s a d e c g =
    let front : List Item = before path ++ inorder l in
    let behind : List Item = inorder r ++ after path in
    let shape : leaders (t.nodes) ≡ front ++ (x ∷ behind) = e ∙ around l r x b path in
    let (done, shorter) = promoted (t.nodes) front behind x next d shape g in
    let s' : Sorted (front ++ (x ∷ behind)) = rw (around l r x b path) at s in
    let (below, above, _, _) = Sorted-parts front x behind s' in
    rw (g, remaining)
      (
        relabelled-IsAvl l r x next b path a,
        done ∙ sym (around l r next b path),
        done
            ∙ sym (swapped-around x next front behind below above)
            ∙ ap (λ l. swapped x next l) (sym shape),
        shorter,
        omega (arith, c, shorter),
      )

-- In a tree that is well-formed together with its list, the deletion of a leader, wherever it stands in
-- the tree, follows no null pointer. The tree is balanced after it, its items are the leaders of the
-- list, and there is one node less. Where a duplicate stood behind the leader, it takes its place in
-- the tree; else the key is gone from it.
pub avl_delete_leader-DeleteOk :
    (l r : Tree) (x : Item) (b : ℤ) (path : List Frame) (t : AvlTree)
    → plug (node l x b r) path ≡ t.root
    → Well t
    → DeleteOk x t (avl_delete_leader l x b r path t)
unfolding avl_delete_leader
avl_delete_leader-DeleteOk l r x b path t at (s, a, e, d, h, c) =
    let s' : Sorted (inorder (plug (node l x b r) path)) = rw at s in
    let a' : IsAvl (plug (node l x b r) path) = rw at a in
    let e' : leaders (t.nodes) ≡ inorder (plug (node l x b r) path) = e ∙ ap inorder (sym at) in
    go (duplicate_behind (x.1) (t.nodes)) refl
      (λ lone.
        by_worker l r x b path t (delete_worker l x b r path) s' d e' c lone
          (delete_worker-Ok l r x b path s' a'))
      (λ next g. by_duplicate l r x next b path t s' a' d e' c g)
  where
    go :
        (o : Option Item)
        → duplicate_behind (x.1) (t.nodes) ≡ o
        → (duplicate_behind (x.1) (t.nodes) ≡ none
            → DeleteOk x t (elim (delete_worker l x b r path) as (λ o. Option AvlTree) [
              | none ↦ none
              | some root' ↦
                  some (record {
                    root = root';
                    nodes = avl_remove (x.1) (t.nodes);
                    count = t.count - 1;
                  })
            ]))
        → ((next : Item)
            → duplicate_behind (x.1) (t.nodes) ≡ some next
            → DeleteOk x t (
                some (record {
                  root = plug (node l next b r) path;
                  nodes = avl_remove (x.1) (make_leader (next.1) (t.nodes));
                  count = t.count - 1;
                })))
        → DeleteOk x t (elim o as (λ o. Option AvlTree) [
          | some next ↦ some (record {
            root = plug (node l next b r) path;
            nodes = avl_remove (x.1) (make_leader (next.1) (t.nodes));
            count = t.count - 1;
          })
          | none ↦ elim (delete_worker l x b r path) [
            | none ↦ none
            | some root' ↦
                some
                  (record { root = root'; nodes = avl_remove (x.1) (t.nodes); count = t.count - 1 })
          ]
        ])
    go none g alone duplicate = alone g
    go (some next) g alone duplicate = duplicate next g
