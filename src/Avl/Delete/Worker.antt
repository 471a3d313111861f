-- ===== src/Avl/Delete/Worker.antt =====
-- The removal of a node: the items without the node's, in a balanced tree.
use olsrd_hybrid_plc.NetBuffer.Bytes.{append_assoc}
use olsrd_hybrid_plc.Prelude.{
  suc, ◌≡◌, refl, sym, subst, ap, ◌∙◌, max, true, false, ◌&&◌, Option, none, some, List, [], ◌∷◌,
  ◌++◌, arith, ◌==◌, if◌then◌else◌,
}
use olsrd_hybrid_plc.Prelude.Int.{ℤ}
use olsrd_hybrid_plc.Avl.{Item, Tree, leaf, node, Frame, at_left, at_right, plug}
use olsrd_hybrid_plc.Avl.Inorder.{inorder, before, after, inorder-plug, Keeps, append_nil}
use olsrd_hybrid_plc.Avl.Balance.{height, IsAvl, PathAvl, Valid}
use olsrd_hybrid_plc.Avl.Order.{Below, Above, Sorted, Sorted-parts}
use olsrd_hybrid_plc.Avl.Delete.{
  post_delete, local_min, swap_item, put_instead, put_instead_in, delete_worker,
}
use olsrd_hybrid_plc.Avl.Delete.Items.{post_delete-Keeps}
use olsrd_hybrid_plc.Avl.Delete.Levels.{post_delete-Valid}

-- The list without the node of the item.
abbrev pub without : Item → List Item → List Item
without x [] = []
without x (y ∷ ys) = if (y.0 == x.0) && (y.1 == x.1) then ys else y ∷ without x ys

without-Below :
    (x : Item) (xs ys : List Item) → Below x.0 xs → without x (xs ++ (x ∷ ys)) ≡ xs ++ ys
without-Below x [] ys b =
    let t : (x.0 == x.0) ≡ true = ground arith in
    let u : (x.1 == x.1) ≡ true = ground arith in rw (t, u)
without-Below x (y ∷ xs) ys (lt, b) =
    let t : (y.0 == x.0) ≡ false = ground arith in rw (t, without-Below x xs ys b)

abbrev pub swapped : Item → Item → List Item → List Item
swapped x m [] = []
swapped x m (y ∷ ys) = swap_item x m y ∷ swapped x m ys

swapped-append :
    (x m : Item) (xs ys : List Item) → swapped x m (xs ++ ys) ≡ swapped x m xs ++ swapped x m ys
swapped-append x m [] ys = refl
swapped-append x m (y ∷ xs) ys = rw (swapped-append x m xs ys)

swapped-Below : (x m : Item) (xs : List Item) → Below x.0 xs → swapped x m xs ≡ xs
swapped-Below x m [] b = refl
swapped-Below x m (y ∷ xs) (lt, b) =
    let t : (y.0 == x.0) ≡ false = ground arith in rw (t, swapped-Below x m xs b)

swapped-Above : (x m : Item) (xs : List Item) → Above x.0 xs → swapped x m xs ≡ xs
swapped-Above x m [] b = refl
swapped-Above x m (y ∷ xs) (lt, b) =
    let t : (y.0 == x.0) ≡ false = ground arith in rw (t, swapped-Above x m xs b)

pub swapped-around :
    (x m : Item) (a c : List Item)
    → Below x.0 a
    → Above x.0 c
    → swapped x m (a ++ (x ∷ c)) ≡ a ++ (m ∷ c)
swapped-around x m a c smaller greater =
    let t : (x.0 == x.0) ≡ true = ground arith in
    let u : (x.1 == x.1) ≡ true = ground arith in
    rw
      (swapped-append x m a (x ∷ c), swapped-Below x m a smaller, swapped-Above x m c greater, t, u)

inorder-put_instead :
    (x m : Item) (t : Tree) → inorder (put_instead x m t) ≡ swapped x m (inorder t)
inorder-put_instead x m leaf = refl
inorder-put_instead x m (node l y b r) = rw (
  swapped-append x m (inorder l) (y ∷ inorder r),
  inorder-put_instead x m l,
  inorder-put_instead x m r,
)

height-put_instead : (x m : Item) (t : Tree) → height (put_instead x m t) ≡ height t
height-put_instead x m leaf = refl
height-put_instead x m (node l y b r) = rw (height-put_instead x m l, height-put_instead x m r)

put_instead-IsAvl : (x m : Item) (t : Tree) → IsAvl t → IsAvl (put_instead x m t)
put_instead-IsAvl x m leaf a = tt
put_instead-IsAvl x m (node l y b r) (level, al, ar) = (
  rw (height-put_instead x m l, height-put_instead x m r) level,
  put_instead-IsAvl x m l al,
  put_instead-IsAvl x m r ar,
)

pub unplug-IsAvl :
    (t : Tree) (path : List Frame) → IsAvl (plug t path) → IsAvl t × PathAvl (height t) path
unplug-IsAvl t [] a = (a, tt)
unplug-IsAvl t (at_left x b r ∷ path) a =
    let ((level, at, ar), p) = unplug-IsAvl (node t x b r) path a in (at, (level, ar, p))
unplug-IsAvl t (at_right l x b ∷ path) a =
    let ((level, al, at), p) = unplug-IsAvl (node l x b t) path a in (at, (level, al, p))

-- What the leftmost node leaves behind.
abbrev Leftmost : Item × Tree × List Frame → List Item → List Frame → Type 0
Leftmost (m, below, above) items path =
    (before above ≡ before path)
    × (m ∷ (inorder below ++ after above) ≡ items ++ after path)
    × IsAvl below
    × PathAvl (suc (height below)) above

local_min-Leftmost :
    (l : Tree) (x : Item) (b : ℤ) (r : Tree) (path : List Frame)
    → IsAvl (node l x b r)
    → PathAvl (height (node l x b r)) path
    → Leftmost (local_min l x b r path) (inorder (node l x b r)) path
unfolding local_min
local_min-Leftmost leaf x b r path (level, al, ar) p =
    let same : suc (max 0 (height r)) ≡ suc (height r) = omega arith in
    (refl, refl, ar, rw same at p)
local_min-Leftmost (node ll lx lb lr) x b r path (level, al, ar) p =
    let (front, items, avl, up) =
      local_min-Leftmost ll lx lb lr (at_left x b r ∷ path) al (level, ar, p) in
    (
      front,
      items ∙ sym (append_assoc (inorder (node ll lx lb lr)) (x ∷ inorder r) (after path)),
      avl,
      up,
    )

-- A balanced tree of these items, and no null pointer.
abbrev pub DeletedOk : List Item → Option Tree → Type 0
DeletedOk items none = ⊥
DeletedOk items (some t) = (inorder t ≡ items) × IsAvl t

deleted :
    (o : Option Tree) (items items' : List Item)
    → Keeps o items
    → Valid o
    → items ≡ items'
    → DeletedOk items' o
deleted none items items' k v e = elim v [ ]
deleted (some t) items items' k v e = (k ∙ e, v)

deleted-put_instead :
    (x m : Item) (o : Option Tree) (items items' : List Item)
    → DeletedOk items o
    → swapped x m items ≡ items'
    → DeletedOk items' (put_instead_in x m o)
deleted-put_instead x m none items items' d e = elim d [ ]
deleted-put_instead x m (some t) items items' (k, v) e =
    (inorder-put_instead x m t ∙ ap (λ l. swapped x m l) k ∙ e, put_instead-IsAvl x m t v)

-- The items around a node, in two lists.
pub around :
    (l r : Tree) (x : Item) (b : ℤ) (path : List Frame)
    → inorder (plug (node l x b r) path)
      ≡ (before path ++ inorder l) ++ (x ∷ (inorder r ++ after path))
around l r x b path =
    inorder-plug (node l x b r) path
    ∙ ap (λ ys. before path ++ ys) (append_assoc (inorder l) (x ∷ inorder r) (after path))
    ∙ sym (append_assoc (before path) (inorder l) (x ∷ (inorder r ++ after path)))

pub without_around :
    (l r : Tree) (x : Item) (b : ℤ) (path : List Frame)
    → Sorted (inorder (plug (node l x b r) path))
    → without x (inorder (plug (node l x b r) path))
      ≡ (before path ++ inorder l) ++ (inorder r ++ after path)
without_around l r x b path s =
    let s' : Sorted ((before path ++ inorder l) ++ (x ∷ (inorder r ++ after path))) =
      rw (around l r x b path) at s in
    let (below, _, _, _) = Sorted-parts (before path ++ inorder l) x (inorder r ++ after path) s' in
    rw (around l r x b path)
      (without-Below x (before path ++ inorder l) (inorder r ++ after path) below)

-- A node with at most one child: the child takes its place.
lifted :
    (l r child : Tree) (x : Item) (b : ℤ) (path : List Frame)
    → inorder child ≡ inorder l ++ inorder r
    → suc (height child) ≡ height (node l x b r)
    → IsAvl child
    → Sorted (inorder (plug (node l x b r) path))
    → PathAvl (height (node l x b r)) path
    → DeletedOk (without x (inorder (plug (node l x b r) path))) (post_delete child path)
lifted l r child x b path e h avl s p =
    deleted (post_delete child path) (inorder (plug child path)) _ (post_delete-Keeps child path)
      (post_delete-Valid (height child) child path refl avl (rw h p))
      (inorder-plug child path
        ∙ ap (λ ys. before path ++ (ys ++ after path)) e
        ∙ ap (λ ys. before path ++ ys) (append_assoc (inorder l) (inorder r) (after path))
        ∙ sym (append_assoc (before path) (inorder l) (inorder r ++ after path))
        ∙ sym (without_around l r x b path s))

-- A node with two children: the leftmost node on its right takes its place.
replaced :
    (l rl rr : Tree) (x rx : Item) (b rb : ℤ) (path : List Frame) (found : Item × Tree × List Frame)
    → Leftmost found (inorder (node rl rx rb rr)) (at_right l x b ∷ path)
    → Sorted (inorder (plug (node l x b (node rl rx rb rr)) path))
    → DeletedOk
        (without x (inorder (plug (node l x b (node rl rx rb rr)) path)))
        (put_instead_in x found.0 (post_delete found.1 found.2))
replaced l rl rr x rx b rb path (m, below, above) (front, items, avl, up) s =
    let r : Tree = node rl rx rb rr in
    let a : List Item = before path ++ inorder l in
    let c : List Item = inorder below ++ after above in
    let shape : inorder (plug below above) ≡ a ++ (x ∷ c) =
      inorder-plug below above
      ∙ ap (λ ys. ys ++ c) front
      ∙ ap (λ ys. ys ++ c) (sym (append_assoc (before path) (inorder l) (x ∷ [])))
      ∙ append_assoc a (x ∷ []) c in
    let s' : Sorted (a ++ (x ∷ (inorder r ++ after path))) = rw (around l r x b path) at s in
    let (smaller, greater, _, _) = Sorted-parts a x (inorder r ++ after path) s' in
    let greater' : Above x.0 (m ∷ c) = subst (λ ys. Above x.0 ys) (sym items) greater in
    deleted-put_instead x m (post_delete below above) (a ++ (x ∷ c)) _
      (deleted (post_delete below above) (inorder (plug below above)) (a ++ (x ∷ c))
        (post_delete-Keeps below above) (post_delete-Valid (height below) below above refl avl up)
        shape)
      (swapped-around x m a c smaller (greater'.1)
        ∙ ap (λ ys. a ++ ys) items
        ∙ sym (without_around l r x b path s))

append_empty : (t : Tree) → inorder t ≡ inorder t ++ inorder leaf
append_empty t = sym (append_nil (inorder t))

-- Wherever a node stands in a balanced tree whose keys increase in order, its removal leaves the
-- other items in their order, in a balanced tree, and no null pointer is followed.
pub delete_worker-Ok :
    (l r : Tree) (x : Item) (b : ℤ) (path : List Frame)
    → Sorted (inorder (plug (node l x b r) path))
    → IsAvl (plug (node l x b r) path)
    → DeletedOk (without x (inorder (plug (node l x b r) path))) (delete_worker l x b r path)
unfolding delete_worker
delete_worker-Ok leaf leaf x b path s a =
    let (_, p) = unplug-IsAvl (node leaf x b leaf) path a in
    lifted leaf leaf leaf x b path refl refl tt s p
delete_worker-Ok leaf (node rl rx rb rr) x b path s a =
    let ((_, _, ar), p) = unplug-IsAvl (node leaf x b (node rl rx rb rr)) path a in
    lifted leaf (node rl rx rb rr) (node rl rx rb rr) x b path refl (omega arith) ar s p
delete_worker-Ok (node ll lx lb lr) leaf x b path s a =
    let ((_, al, _), p) = unplug-IsAvl (node (node ll lx lb lr) x b leaf) path a in
    lifted (node ll lx lb lr) leaf (node ll lx lb lr) x b path (append_empty (node ll lx lb lr))
      (omega arith) al s p
delete_worker-Ok (node ll lx lb lr) (node rl rx rb rr) x b path s a =
    let l : Tree = node ll lx lb lr in
    let ((level, al, ar), p) = unplug-IsAvl (node l x b (node rl rx rb rr)) path a in
    replaced l rl rr x rx b rb path (local_min rl rx rb rr (at_right l x b ∷ path))
      (local_min-Leftmost rl rx rb rr (at_right l x b ∷ path) ar (level, al, p)) s
