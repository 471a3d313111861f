-- ===== src/Avl/Delete.antt =====
-- The removal of a node from the tree: avl_post_delete, avl_local_min and avl_delete_worker of
-- src/common/avl.c. A node is given by its subtree and its path.
pub mod Items
pub mod Levels
pub mod Worker
use olsrd_hybrid_plc.Prelude.{
  suc, ◌+◌, Bool, true, false, Option, none, some, List, [], ◌∷◌, ◌==◌, if◌then◌else◌, ◌&&◌,
}
use olsrd_hybrid_plc.Prelude.Int.{ℤ, pos, negsuc, ◌+ℤ◌, ◌-ℤ◌}
use olsrd_hybrid_plc.Avl.{
  Item, Tree, leaf, node, Frame, at_left, at_right, plug, plugged, rotate_left, rotate_right,
  rotate_left_right, rotate_right_left, eqb_ℤ, balance_is,
}

-- `avl_post_delete` at the root of a subtree that lost a level, with what lies above it. The same
-- steps stand in `avl_delete_worker` for a leaf, whose subtree is empty then.
unfoldable pub post_delete : Tree → List Frame → Option Tree
unfolding rotate_left rotate_right rotate_left_right rotate_right_left ◌+ℤ◌ ◌-ℤ◌
post_delete t [] = some t
post_delete t (at_left x b r ∷ path) =
    let b' = b +ℤ pos 1 in
    let above = post_delete (node t x b' r) path in
    let single : Option Tree = elim (rotate_left (node t x b' r)) [
      | none ↦ none
      | some s ↦ post_delete s path
    ] in
    let double : Option Tree = elim (rotate_right_left (node t x b' r)) [
      | none ↦ none
      | some s ↦ post_delete s path
    ] in
    if eqb_ℤ b' (pos 0)
    then above
    else if eqb_ℤ b' (pos 1)
    then some (plug (node t x b' r) path)
    else if balance_is (pos 0) r
    then plugged (rotate_left (node t x b' r)) path
    else if balance_is (pos 1) r
    then single
    else double
post_delete t (at_right l x b ∷ path) =
    let b' = b -ℤ pos 1 in
    let above = post_delete (node l x b' t) path in
    let single : Option Tree = elim (rotate_right (node l x b' t)) [
      | none ↦ none
      | some s ↦ post_delete s path
    ] in
    let double : Option Tree = elim (rotate_left_right (node l x b' t)) [
      | none ↦ none
      | some s ↦ post_delete s path
    ] in
    if eqb_ℤ b' (pos 0)
    then above
    else if eqb_ℤ b' (negsuc 0)
    then some (plug (node l x b' t) path)
    else if balance_is (pos 0) l
    then plugged (rotate_right (node l x b' t)) path
    else if balance_is (negsuc 0) l
    then single
    else double

-- The leftmost node of a subtree: its item, its right subtree and its path.
unfoldable pub local_min : Tree → Item → ℤ → Tree → List Frame → Item × Tree × List Frame
local_min leaf x b r path = (x, r, path)
local_min (node ll lx lb lr) x b r path = local_min ll lx lb lr (at_left x b r ∷ path)

-- The node of the item `m` takes the place of the node of `x`.
abbrev pub swap_item : Item → Item → Item → Item
swap_item x m y = if (y.0 == x.0) && (y.1 == x.1) then m else y

abbrev pub put_instead : Item → Item → Tree → Tree
put_instead x m leaf = leaf
put_instead x m (node l y b r) = node (put_instead x m l) (swap_item x m y) b (put_instead x m r)

abbrev pub put_instead_in : Item → Item → Option Tree → Option Tree
put_instead_in x m none = none
put_instead_in x m (some t) = some (put_instead x m t)

-- The root after the removal of the node with these subtrees, item and path.
unfoldable pub delete_worker : Tree → Item → ℤ → Tree → List Frame → Option Tree
unfolding post_delete local_min
delete_worker leaf x b leaf path = post_delete leaf path
delete_worker leaf x b (node rl rx rb rr) path = post_delete (node rl rx rb rr) path
delete_worker (node ll lx lb lr) x b leaf path = post_delete (node ll lx lb lr) path
delete_worker (node ll lx lb lr) x b (node rl rx rb rr) path =
    let (m, below, above) = local_min rl rx rb rr (at_right (node ll lx lb lr) x b ∷ path) in
    put_instead_in x m (post_delete below above)
