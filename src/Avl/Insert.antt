-- ===== src/Avl/Insert.antt =====
-- The insertion of an item.
pub mod Locate
use olsrd_hybrid_plc.NetBuffer.Bytes.{append_assoc}
use olsrd_hybrid_plc.Prelude.{
  ℕ, zero, suc, ◌≤◌, ◌<◌, ◌≡◌, ◌≢◌, ◌⊎◌, inl, inr, refl, sym, ap, ◌∙◌, max, Bool, true, false,
  Bool-cases, Option, none, some, List, [], ◌∷◌, ◌++◌, arith, ltb, ◌==◌, if◌then◌else◌,
}
use olsrd_hybrid_plc.Prelude.Int.{ℤ, pos, negsuc}
use olsrd_hybrid_plc.Avl.{
  Item, Tree, leaf, node, Frame, at_left, at_right, plug, avl_find_rec, or_here, post_insert,
  insert_at, insert_node, Inserted, there, grown, null_pointer, grown_to, eqb_ℤ,
}
use olsrd_hybrid_plc.Avl.Inorder.{inorder, before, after, inorder-plug, Keeps, post_insert-Keeps}
use olsrd_hybrid_plc.Avl.Balance.{
  height, Level, IsAvl, PathAvl, Skew, Valid, plug-IsAvl, post_insert-Valid,
}
use olsrd_hybrid_plc.Avl.Order.{
  find_item, find_item-Below, find_item-Above, find_item-before, Below, Above, Sorted, Below-append,
  Above-append, Below-trans, Above-trans, Sorted-parts, place, place-append, place-Above,
}
use olsrd_hybrid_plc.Avl.Insert.Locate.{Around, before-Below, after-Above, Located, IsNode, locate}

-- The new items with the new one in its place, in a balanced tree.
abbrev pub Grows : Item → List Item → Tree → Type 0
Grows new items t = (inorder t ≡ place new items) × IsAvl t

-- An item with the key is there, or the tree grows.
abbrev pub InsertedOk : Item → List Item → Inserted → Type 0
InsertedOk new items null_pointer = ⊥
InsertedOk new items (there x) = (x.0 ≡ new.0) × (find_item new.0 items ≡ some x)
InsertedOk new items (grown t) = (find_item new.0 items ≡ none) × Grows new items t

place_inside :
    (new : Item) (path : List Frame) (mid : List Item)
    → Around new.0 path
    → place new (before path ++ (mid ++ after path)) ≡ before path ++ place new (mid ++ after path)
place_inside new path mid a =
    place-append new (before path) (mid ++ after path) (before-Below new.0 path a)

-- On the left of `x`, which has no left child.
place_left :
    (new x : Item) (b b' b'' : ℤ) (r : Tree) (path : List Frame)
    → Around new.0 path
    → new.0 < x.0
    → inorder (plug (node (node leaf new b' leaf) x b'' r) path)
      ≡ place new (inorder (plug (node leaf x b r) path))
place_left new x b b' b'' r path a lt =
    let t : ltb new.0 x.0 ≡ true = ground arith in
    rw (
      inorder-plug (node (node leaf new b' leaf) x b'' r) path,
      inorder-plug (node leaf x b r) path,
      place_inside new path (x ∷ inorder r) a,
      t,
    )

place_right :
    (new x : Item) (b b' b'' : ℤ) (l : Tree) (path : List Frame)
    → Around new.0 path
    → x.0 < new.0
    → Below x.0 (inorder l)
    → inorder (plug (node l x b'' (node leaf new b' leaf)) path)
      ≡ place new (inorder (plug (node l x b leaf) path))
place_right new x b b' b'' l path a lt below =
    let t : ltb new.0 x.0 ≡ false = ground arith in
    let mid : place new ((inorder l ++ (x ∷ [])) ++ after path)
        ≡ (inorder l ++ (x ∷ [])) ++ (new ∷ after path) =
      place-append new (inorder l ++ (x ∷ [])) (after path) (
        Below-append new.0 (inorder l) (x ∷ [])
          (Below-trans x.0 new.0 (inorder l) (omega arith) below) (lt, tt))
      ∙ ap (λ ys. (inorder l ++ (x ∷ [])) ++ ys)
          (place-Above new (after path) (after-Above new.0 path a)) in
    rw (
      inorder-plug (node l x b'' (node leaf new b' leaf)) path,
      inorder-plug (node l x b leaf) path,
      place_inside new path (inorder l ++ (x ∷ [])) a,
      mid,
      append_assoc (inorder l) (x ∷ new ∷ []) (after path),
      append_assoc (inorder l) (x ∷ []) (new ∷ after path),
    )

rebalanced :
    (new : Item) (items : List Item) (o : Option Tree) (t : Tree)
    → Valid o
    → Keeps o (inorder t)
    → inorder t ≡ place new items
    → find_item new.0 items ≡ none
    → InsertedOk new items (grown_to o)
rebalanced new items none t v k e f = elim v [ ]
rebalanced new items (some t') t v k e f = (f, (k ∙ e, v))

find_inside :
    (key : ℕ) (t : Tree) (path : List Frame)
    → Around key path
    → find_item key (inorder (plug t path)) ≡ find_item key (inorder t)
find_inside key t path a =
    rw
      (
        inorder-plug t path,
        find_item-Below key (before path) (inorder t ++ after path) (before-Below key path a),
      )
      (find_item-before key (inorder t) (after path) (after-Above key path a))

absent_left :
    (key : ℕ) (x : Item) (r : Tree)
    → key < x.0
    → Sorted (x ∷ inorder r)
    → find_item key (x ∷ inorder r) ≡ none
absent_left key x r lt (above, s) =
    find_item-Above key (x ∷ inorder r) (lt, Above-trans key x.0 (inorder r) (omega arith) above)

absent_right :
    (key : ℕ) (x : Item) (l : Tree)
    → x.0 < key
    → Sorted (inorder l ++ (x ∷ []))
    → find_item key (inorder l ++ (x ∷ [])) ≡ none
absent_right key x l gt s =
    let (below, _, _, _) = Sorted-parts (inorder l) x [] s in
    let t : (x.0 == key) ≡ false = ground arith in
    rw (
      find_item-Below key (inorder l) (x ∷ [])
          (Below-trans x.0 key (inorder l) (omega arith) below),
      t,
    )

found_here :
    (key : ℕ) (l r : Tree) (x : Item)
    → key ≡ x.0
    → Sorted (inorder l ++ (x ∷ inorder r))
    → find_item key (inorder l ++ (x ∷ inorder r)) ≡ some x
found_here key l r x same s =
    let (below, _, _, _) = Sorted-parts (inorder l) x (inorder r) s in
    let t : (x.0 == key) ≡ true = ground arith in
    rw (
      find_item-Below key (inorder l) (x ∷ inorder r)
          (Below-trans x.0 key (inorder l) (omega arith) below),
      t,
    )

-- The new item goes to the left of a node without a left child.
goes_left :
    (new x : Item) (b : ℤ) (r : Tree) (path : List Frame)
    → Around new.0 path
    → new.0 < x.0
    → Sorted (x ∷ inorder r)
    → Level 0 b (height r)
    → IsAvl r
    → PathAvl (height (node leaf x b r)) path
    → InsertedOk new (inorder (plug (node leaf x b r) path)) (insert_at new (node leaf x b r) path)
unfolding insert_at
goes_left new x (pos (suc (suc k))) r path a lt s level vr p = elim level [ ]
goes_left new x (negsuc (suc k)) r path a lt s level vr p = elim level [ ]
goes_left new x (negsuc zero) r path a lt s level vr p = absurd (omega arith)
goes_left new x (pos (suc zero)) r path a lt s level vr p =
    let t : (new.0 == x.0) ≡ false = ground arith in
    let same : suc (max 0 (height r)) ≡ 2 = omega arith in
    rw t (
      find_inside new.0 (node leaf x (pos 1) r) path a ∙ absent_left new.0 x r lt s,
      (
        place_left new x (pos 1) (pos 0) (pos 0) r path a lt,
        plug-IsAvl 2 (node (node leaf new (pos 0) leaf) x (pos 0) r) path (omega arith)
            (omega arith, (refl, tt, tt), vr) (rw same at p),
      ),
    )
goes_left new x (pos zero) r path a lt s level vr p =
    let t : (new.0 == x.0) ≡ false = ground arith in
    let u : ltb new.0 x.0 ≡ true = ground arith in
    let below : Tree = node leaf new (pos 0) leaf in
    let same : suc (max 0 (height r)) ≡ 1 = omega arith in
    rw (t, u)
      (rebalanced new (inorder (plug (node leaf x (pos 0) r) path))
        (post_insert (node below x (negsuc 0) r) path) (plug (node below x (negsuc 0) r) path)
        (post_insert-Valid 1 (node below x (negsuc 0) r) path (omega arith)
          (omega arith, (refl, tt, tt), vr) tt (rw same at p))
        (post_insert-Keeps (node below x (negsuc 0) r) path)
        (place_left new x (pos 0) (pos 0) (negsuc 0) r path a lt)
        (find_inside new.0 (node leaf x (pos 0) r) path a ∙ absent_left new.0 x r lt s))

-- The new item goes to the right of a node without a right child.
goes_right :
    (new x : Item) (b : ℤ) (l : Tree) (path : List Frame)
    → Around new.0 path
    → x.0 < new.0
    → Sorted (inorder l ++ (x ∷ []))
    → Level (height l) b 0
    → IsAvl l
    → PathAvl (height (node l x b leaf)) path
    → InsertedOk new (inorder (plug (node l x b leaf) path)) (insert_at new (node l x b leaf) path)
unfolding insert_at
goes_right new x (pos (suc (suc k))) l path a gt s level vl p = elim level [ ]
goes_right new x (negsuc (suc k)) l path a gt s level vl p = elim level [ ]
goes_right new x (pos (suc zero)) l path a gt s level vl p = absurd (omega arith)
goes_right new x (negsuc zero) l path a gt s level vl p =
    let t : (new.0 == x.0) ≡ false = ground arith in
    let same : suc (max (height l) 0) ≡ 2 = omega arith in
    let (below, _, _, _) = Sorted-parts (inorder l) x [] s in
    rw t (
      find_inside new.0 (node l x (negsuc 0) leaf) path a ∙ absent_right new.0 x l gt s,
      (
        place_right new x (negsuc 0) (pos 0) (pos 0) l path a gt below,
        plug-IsAvl 2 (node l x (pos 0) (node leaf new (pos 0) leaf)) path (omega arith)
            (omega arith, vl, (refl, tt, tt)) (rw same at p),
      ),
    )
goes_right new x (pos zero) l path a gt s level vl p =
    let t : (new.0 == x.0) ≡ false = ground arith in
    let u : ltb new.0 x.0 ≡ false = ground arith in
    let below : Tree = node leaf new (pos 0) leaf in
    let same : suc (max (height l) 0) ≡ 1 = omega arith in
    let (smaller, _, _, _) = Sorted-parts (inorder l) x [] s in
    rw (t, u)
      (rebalanced new (inorder (plug (node l x (pos 0) leaf) path))
        (post_insert (node l x (pos 1) below) path) (plug (node l x (pos 1) below) path)
        (post_insert-Valid 1 (node l x (pos 1) below) path (omega arith)
          (omega arith, vl, (refl, tt, tt)) tt (rw same at p))
        (post_insert-Keeps (node l x (pos 1) below) path)
        (place_right new x (pos 0) (pos 0) (pos 1) l path a gt smaller)
        (find_inside new.0 (node l x (pos 0) leaf) path a ∙ absent_right new.0 x l gt s))

pub insert_at-Ok :
    (new : Item) (root t : Tree) (path : List Frame)
    → Located new.0 root t path
    → InsertedOk new (inorder root) (insert_at new t path)
insert_at-Ok new root leaf path loc = elim loc [ ]
insert_at-Ok new root (node l x b r) path (e, a, s, (level, vl, vr), p, inl same) =
    let t : (new.0 == x.0) ≡ true = ground arith in
    let items : find_item new.0 (inorder root) ≡ some x =
      rw (← e) (find_inside new.0 (node l x b r) path a ∙ found_here new.0 l r x same s) in
    unfold insert_at in rw t (sym same, items)
insert_at-Ok new root (node leaf x b r) path (e, a, s, (level, vl, vr), p, inr (inl (lt, _))) =
    rw (← e) (goes_left new x b r path a lt s level vr p)
insert_at-Ok new root (node (node ll lx lb lr) x b r) path (e, a, s, v, p, inr (inl (lt, q))) =
    absurd (ground (arith, q))
insert_at-Ok new root (node l x b leaf) path (e, a, s, (level, vl, vr), p, inr (inr (gt, _))) =
    rw (← e) (goes_right new x b l path a gt s level vl p)
insert_at-Ok new root (node l x b (node rl rx rb rr)) path (e, a, s, v, p, inr (inr (gt, q))) =
    absurd (ground (arith, q))

-- In a balanced tree whose keys increase in order, either an item with the key is there and is
-- returned, or the tree grows: the new item stands in its place among the others, the tree is
-- balanced, and no null pointer is followed.
pub insert_node-Ok :
    (new : Item) (root : Tree)
    → Sorted (inorder root)
    → IsAvl root
    → InsertedOk new (inorder root) (insert_node new root)
unfolding insert_node insert_at
insert_node-Ok new leaf s v = (refl, (refl, (refl, tt, tt)))
insert_node-Ok new (node l x b r) s v =
    insert_at-Ok new (node l x b r) (avl_find_rec new.0 (node l x b r) []).0
      (avl_find_rec new.0 (node l x b r) []).1
      (locate new.0 (node l x b r) (node l x b r) [] tt refl tt s v tt)
