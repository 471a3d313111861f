-- ===== src/Avl/Delete/Items.antt =====
-- The items after the rebalancing of a deletion.
use olsrd_hybrid_plc.Prelude.{
  refl, Bool, true, false, Option, none, some, List, [], ◌∷◌, if◌then◌else◌,
}
use olsrd_hybrid_plc.Prelude.Int.{ℤ, pos, negsuc, ◌+ℤ◌, ◌-ℤ◌}
use olsrd_hybrid_plc.Avl.{
  Item, Tree, node, Frame, at_left, at_right, plug, rotate_left, rotate_right, rotate_left_right,
  rotate_right_left, eqb_ℤ, balance_is,
}
use olsrd_hybrid_plc.Avl.Inorder.{
  inorder, inorder-plug, Keeps, relabel, plugged-Keeps, rotate_left-Keeps, rotate_right-Keeps,
  rotate_left_right-Keeps, rotate_right_left-Keeps,
}
use olsrd_hybrid_plc.Avl.Delete.{post_delete}

-- One of five results, by four tests.
one_of_five :
    (p q s u : Bool) (o1 o2 o3 o4 o5 : Option Tree) (items : List Item)
    → Keeps o1 items
    → Keeps o2 items
    → Keeps o3 items
    → Keeps o4 items
    → Keeps o5 items
    → Keeps (if p then o1 else if q then o2 else if s then o3 else if u then o4 else o5) items
one_of_five true q s u o1 o2 o3 o4 o5 items k1 k2 k3 k4 k5 = k1
one_of_five false true s u o1 o2 o3 o4 o5 items k1 k2 k3 k4 k5 = k2
one_of_five false false true u o1 o2 o3 o4 o5 items k1 k2 k3 k4 k5 = k3
one_of_five false false false true o1 o2 o3 o4 o5 items k1 k2 k3 k4 k5 = k4
one_of_five false false false false o1 o2 o3 o4 o5 items k1 k2 k3 k4 k5 = k5

-- A rotation and what is done with its result.
rotated-Keeps :
    (o : Option Tree) (t : Tree) (path : List Frame) (up : Tree → Option Tree)
    → Keeps o (inorder t)
    → ((s : Tree) → Keeps (up s) (inorder (plug s path)))
    → Keeps (elim o as (λ u. Option Tree) [ none ↦ none | some s ↦ up s ]) (inorder (plug t path))
rotated-Keeps none t path up k f = tt
rotated-Keeps (some s) t path up k f = rw (inorder-plug t path, ← k, ← inorder-plug s path) (f s)

-- The rebalancing after a deletion leaves the items.
pub post_delete-Keeps :
    (t : Tree) (path : List Frame) → Keeps (post_delete t path) (inorder (plug t path))
unfolding post_delete
post_delete-Keeps t [] = refl
post_delete-Keeps t (at_left x b r ∷ path) =
    let b' : ℤ = b +ℤ pos 1 in
    let now : Tree = node t x b' r in
    rw (relabel t r x b b' path) (
      one_of_five (eqb_ℤ b' (pos 0)) (eqb_ℤ b' (pos 1)) (balance_is (pos 0) r)
        (balance_is (pos 1) r) _ _ _ _ _ (inorder (plug now path)) (post_delete-Keeps now path) refl
        (plugged-Keeps (rotate_left now) now path (rotate_left-Keeps now))
        (rotated-Keeps (rotate_left now) now path (λ s. post_delete s path) (rotate_left-Keeps now)
          (λ s. post_delete-Keeps s path))
        (rotated-Keeps (rotate_right_left now) now path (λ s. post_delete s path)
          (rotate_right_left-Keeps now) (λ s. post_delete-Keeps s path)))
post_delete-Keeps t (at_right l x b ∷ path) =
    let b' : ℤ = b -ℤ pos 1 in
    let now : Tree = node l x b' t in
    rw (relabel l t x b b' path) (
      one_of_five (eqb_ℤ b' (pos 0)) (eqb_ℤ b' (negsuc 0)) (balance_is (pos 0) l)
        (balance_is (negsuc 0) l) _ _ _ _ _ (inorder (plug now path)) (post_delete-Keeps now path)
        refl (plugged-Keeps (rotate_right now) now path (rotate_right-Keeps now))
        (rotated-Keeps (rotate_right now) now path (λ s. post_delete s path)
          (rotate_right-Keeps now) (λ s. post_delete-Keeps s path))
        (rotated-Keeps (rotate_left_right now) now path (λ s. post_delete s path)
          (rotate_left_right-Keeps now) (λ s. post_delete-Keeps s path)))
