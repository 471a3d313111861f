-- ===== src/Avl.antt =====
-- The AVL trees of src/common/avl.c, which hold most tables of the daemon. A node is its key, the
-- number by which the tree's comparison orders it, and its identity, which stands for its address.
-- The pointers to the parents are a path: what lies above a subtree, the nearest first.
pub mod Inorder
pub mod Balance
pub mod Order
pub mod Insert
pub mod Find
pub mod Delete
pub mod Threads
use olsrd_hybrid_plc.Prelude.{
  ℕ, suc, ◌+◌, Bool, true, false, Option, none, some, List, [], ◌∷◌, ltb, ◌==◌, if◌then◌else◌,
}
use olsrd_hybrid_plc.Prelude.Int.{ℤ, pos, negsuc, pos_part, neg_part, ltb_ℤ, ◌+ℤ◌, ◌-ℤ◌}

abbrev pub Item : Type 0
Item = ℕ × ℕ

pub data Tree : Type 0 where
  leaf : Tree
  node : Tree → Item → ℤ → Tree → Tree

-- A parent and its other subtree: the subtree below is the left one or the right one.
pub data Frame : Type 0 where
  at_left : Item → ℤ → Tree → Frame
  at_right : Tree → Item → ℤ → Frame

abbrev pub plug : Tree → List Frame → Tree
plug t [] = t
plug t (at_left x b r ∷ path) = plug (node t x b r) path
plug t (at_right l x b ∷ path) = plug (node l x b t) path

abbrev pub eqb_ℤ : ℤ → ℤ → Bool
eqb_ℤ a b = pos_part a + neg_part b == pos_part b + neg_part a

-- `MIN` and `MAX` of two balances.
abbrev pub min_ℤ : ℤ → ℤ → ℤ
min_ℤ a b = if ltb_ℤ a b then a else b

abbrev pub max_ℤ : ℤ → ℤ → ℤ
max_ℤ a b = if ltb_ℤ a b then b else a

-- The subtree after a rotation at its root; `none` follows a null pointer.
unfoldable pub rotate_right : Tree → Option Tree
unfolding ◌+ℤ◌ ◌-ℤ◌
rotate_right leaf = none
rotate_right (node leaf x b r) = none
rotate_right (node (node ll lx lb lr) x b r) =
    let b' = b +ℤ (pos 1 -ℤ min_ℤ lb (pos 0)) in
    let lb' = lb +ℤ (pos 1 +ℤ max_ℤ b' (pos 0)) in some (node ll lx lb' (node lr x b' r))

unfoldable pub rotate_left : Tree → Option Tree
unfolding ◌+ℤ◌ ◌-ℤ◌
rotate_left leaf = none
rotate_left (node l x b leaf) = none
rotate_left (node l x b (node rl rx rb rr)) =
    let b' = b -ℤ (pos 1 +ℤ max_ℤ rb (pos 0)) in
    let rb' = rb -ℤ (pos 1 -ℤ min_ℤ b' (pos 0)) in some (node (node l x b' rl) rx rb' rr)

abbrev pub balance_is : ℤ → Tree → Bool
balance_is n leaf = false
balance_is n (node l x b r) = eqb_ℤ b n

-- Both rotations of a double rotation: the child's first.
unfoldable pub rotate_left_right : Tree → Option Tree
unfolding rotate_left rotate_right
rotate_left_right leaf = none
rotate_left_right (node l x b r) = elim (rotate_left l) [
  | none ↦ none
  | some l' ↦ rotate_right (node l' x b r)
]

unfoldable pub rotate_right_left : Tree → Option Tree
unfolding rotate_left rotate_right
rotate_right_left leaf = none
rotate_right_left (node l x b r) = elim (rotate_right r) [
  | none ↦ none
  | some r' ↦ rotate_left (node l x b r')
]

abbrev pub plugged : Option Tree → List Frame → Option Tree
plugged none path = none
plugged (some t) path = some (plug t path)

-- `post_insert` at the root of a subtree that grew, with what lies above it.
unfoldable pub post_insert : Tree → List Frame → Option Tree
unfolding rotate_left rotate_right rotate_left_right rotate_right_left ◌+ℤ◌ ◌-ℤ◌
post_insert t [] = some t
post_insert t (at_left x b r ∷ path) =
    let b' = b -ℤ pos 1 in
    let above = post_insert (node t x b' r) path in
    if eqb_ℤ b' (pos 0)
    then some (plug (node t x b' r) path)
    else if eqb_ℤ b' (negsuc 0)
    then above
    else if balance_is (negsuc 0) t
    then plugged (rotate_right (node t x b' r)) path
    else plugged (rotate_left_right (node t x b' r)) path
post_insert t (at_right l x b ∷ path) =
    let b' = b +ℤ pos 1 in
    let above = post_insert (node l x b' t) path in
    if eqb_ℤ b' (pos 0)
    then some (plug (node l x b' t) path)
    else if eqb_ℤ b' (pos 1)
    then above
    else if balance_is (pos 1) t
    then plugged (rotate_left (node l x b' t)) path
    else plugged (rotate_right_left (node l x b' t)) path

abbrev pub or_here {ℓ} : {A : Type ℓ} → Tree → A → A → A
or_here leaf here deeper = here
or_here (node l x b r) here deeper = deeper

-- `avl_find_rec`: the node with the key, or the last one on the way to it, with its path.
unfoldable pub avl_find_rec : ℕ → Tree → List Frame → Tree × List Frame
avl_find_rec key leaf path = (leaf, path)
avl_find_rec key (node l x b r) path =
    let in_left = avl_find_rec key l (at_left x b r ∷ path) in
    let in_right = avl_find_rec key r (at_right l x b ∷ path) in
    if ltb key x.0
    then or_here l (node l x b r, path) in_left
    else if ltb x.0 key
    then or_here r (node l x b r, path) in_right
    else (node l x b r, path)

unfoldable pub avl_find : Tree → ℕ → Option Item
unfolding avl_find_rec
avl_find root key = elim (avl_find_rec key root []).0 [
  | leaf ↦ none
  | node l x b r ↦ if x.0 == key then some x else none
]

-- What an insertion does to the tree: a node of the key is there, or the new root.
pub data Inserted : Type 0 where
  there : Item → Inserted
  grown : Tree → Inserted
  null_pointer : Inserted

abbrev pub grown_to : Option Tree → Inserted
grown_to none = null_pointer
grown_to (some t) = grown t

-- The pointers of `avl_insert` at the node that was found.
unfoldable pub insert_at : Item → Tree → List Frame → Inserted
unfolding post_insert
insert_at new leaf path = grown (node leaf new (pos 0) leaf)
insert_at new (node l x b r) path =
    let below = node leaf new (pos 0) leaf in
    if new.0 == x.0
    then there x
    else if eqb_ℤ b (pos 1)
    then grown (plug (node below x (pos 0) r) path)
    else if eqb_ℤ b (negsuc 0)
    then grown (plug (node l x (pos 0) below) path)
    else if ltb new.0 x.0
    then grown_to (post_insert (node below x (negsuc 0) r) path)
    else grown_to (post_insert (node l x (pos 1) below) path)

unfoldable pub insert_node : Item → Tree → Inserted
unfolding avl_find_rec insert_at
insert_node new root = let (found, path) = avl_find_rec new.0 root [] in insert_at new found path
