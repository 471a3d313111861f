-- ===== src/Avl/Order.antt =====
-- Search trees: the items by their keys, the search, and the place of a new item.
use olsrd_hybrid_plc.Prelude.{
  ℕ, ◌≤◌, ◌<◌, ◌≡◌, inl, inr, refl, true, false, Bool-cases, Option, none, some, List, [], ◌∷◌,
  ◌++◌, arith, ltb, ◌==◌, if◌then◌else◌,
}
use olsrd_hybrid_plc.Avl.{Item, Tree, leaf, node, Frame, at_left, at_right, avl_find_rec, or_here}
use olsrd_hybrid_plc.Avl.Inorder.{inorder}

abbrev pub Below : ℕ → List Item → Type 0
Below k [] = Unit {0}
Below k (x ∷ xs) = (x.0 < k) × Below k xs

abbrev pub Above : ℕ → List Item → Type 0
Above k [] = Unit {0}
Above k (x ∷ xs) = (k < x.0) × Above k xs

-- The keys increase.
abbrev pub Sorted : List Item → Type 0
Sorted [] = Unit {0}
Sorted (x ∷ xs) = Above x.0 xs × Sorted xs

pub Below-append : (k : ℕ) (xs ys : List Item) → Below k xs → Below k ys → Below k (xs ++ ys)
Below-append k [] ys a b = b
Below-append k (x ∷ xs) ys (h, a) b = (h, Below-append k xs ys a b)

pub Above-append : (k : ℕ) (xs ys : List Item) → Above k xs → Above k ys → Above k (xs ++ ys)
Above-append k [] ys a b = b
Above-append k (x ∷ xs) ys (h, a) b = (h, Above-append k xs ys a b)

pub Below-trans : (j k : ℕ) (xs : List Item) → j ≤ k → Below j xs → Below k xs
Below-trans j k [] h a = tt
Below-trans j k (x ∷ xs) h (lt, a) = (omega arith, Below-trans j k xs h a)

pub Above-trans : (j k : ℕ) (xs : List Item) → j ≤ k → Above k xs → Above j xs
Above-trans j k [] h a = tt
Above-trans j k (x ∷ xs) h (lt, a) = (omega arith, Above-trans j k xs h a)

Above-append_parts : (k : ℕ) (xs ys : List Item) → Above k (xs ++ ys) → Above k xs × Above k ys
Above-append_parts k [] ys a = (tt, a)
Above-append_parts k (x ∷ xs) ys (h, a) = let (b, c) = Above-append_parts k xs ys a in ((h, b), c)

-- The parts of a sorted list around an item.
pub Sorted-parts :
    (xs : List Item) (x : Item) (ys : List Item)
    → Sorted (xs ++ (x ∷ ys))
    → Below x.0 xs × Above x.0 ys × Sorted xs × Sorted ys
Sorted-parts [] x ys (a, s) = (tt, a, tt, s)
Sorted-parts (w ∷ xs) x ys (a, s) =
    let (below, above, left, right) = Sorted-parts xs x ys s in
    let (front, (lt, _)) = Above-append_parts w.0 xs (x ∷ ys) a in
    ((lt, below), above, (front, left), right)

-- A new item in front of the first one with a greater key.
abbrev pub place : Item → List Item → List Item
place new [] = new ∷ []
place new (x ∷ xs) = if ltb new.0 x.0 then new ∷ x ∷ xs else x ∷ place new xs

pub place-append :
    (new : Item) (xs ys : List Item) → Below new.0 xs → place new (xs ++ ys) ≡ xs ++ place new ys
place-append new [] ys b = refl
place-append new (x ∷ xs) ys (h, b) =
    let t : ltb new.0 x.0 ≡ false = ground arith in rw (t, place-append new xs ys b)

pub place-Above : (new : Item) (xs : List Item) → Above new.0 xs → place new xs ≡ new ∷ xs
place-Above new [] a = refl
place-Above new (x ∷ xs) (h, a) = let t : ltb new.0 x.0 ≡ true = ground arith in rw t

abbrev pub find_item : ℕ → List Item → Option Item
find_item key [] = none
find_item key (x ∷ xs) = if x.0 == key then some x else find_item key xs

pub find_item-Below :
    (key : ℕ) (xs ys : List Item) → Below key xs → find_item key (xs ++ ys) ≡ find_item key ys
find_item-Below key [] ys b = refl
find_item-Below key (x ∷ xs) ys (h, b) =
    let t : (x.0 == key) ≡ false = ground arith in rw t (find_item-Below key xs ys b)

pub find_item-Above : (key : ℕ) (xs : List Item) → Above key xs → find_item key xs ≡ none
find_item-Above key [] a = refl
find_item-Above key (x ∷ xs) (h, a) =
    let t : (x.0 == key) ≡ false = ground arith in rw t (find_item-Above key xs a)

pub find_item-before :
    (key : ℕ) (xs ys : List Item) → Above key ys → find_item key (xs ++ ys) ≡ find_item key xs
find_item-before key [] ys a = find_item-Above key ys a
find_item-before key (x ∷ xs) ys a = ground (arith, find_item-before key xs ys a)

find_item-front :
    (key : ℕ) (x : Item) (xs ys : List Item)
    → key < x.0
    → Above x.0 ys
    → find_item key (xs ++ (x ∷ ys)) ≡ find_item key xs
find_item-front key x [] ys h a =
    let t : (x.0 == key) ≡ false = ground arith in
    rw t (find_item-Above key ys (Above-trans key x.0 ys (omega arith) a))
find_item-front key x (w ∷ xs) ys h a = ground (arith, find_item-front key x xs ys h a)

-- The end of `avl_find` at the node that the search reached.
abbrev pub reached : ℕ → Tree → Option Item
reached key leaf = none
reached key (node l x b r) = if x.0 == key then some x else none

pub reached_lem :
    (key : ℕ) (t : Tree) (path : List Frame)
    → Sorted (inorder t)
    → reached key (avl_find_rec key t path).0 ≡ find_item key (inorder t)
unfolding avl_find_rec
reached_lem key leaf path s = refl
reached_lem key (node l x b r) path s =
    let (below, above, sl, sr) = Sorted-parts (inorder l) x (inorder r) s in
    elim (Bool-cases (ltb key x.0)) [
      | inl lt ↦
          rw (lt, find_item-front key x (inorder l) (inorder r) (ground arith) above)
            (left l (reached_lem key l (at_left x b r ∷ path) sl) (ground arith))
      | inr ge ↦ elim (Bool-cases (ltb x.0 key)) [
        | inl gt ↦
            let t : (x.0 == key) ≡ false = ground arith in
            rw
              (
                ge,
                gt,
                find_item-Below key (inorder l) (x ∷ inorder r)
                    (Below-trans x.0 key (inorder l) (ground arith) below),
                t,
              )
              (right r (reached_lem key r (at_right l x b ∷ path) sr) (ground arith))
        | inr le ↦
            let t : (x.0 == key) ≡ true = ground arith in
            rw
              (
                ge,
                le,
                find_item-Below key (inorder l) (x ∷ inorder r)
                    (Below-trans x.0 key (inorder l) (ground arith) below),
                t,
              )
              refl
      ]
    ]
  where
    left :
        (m : Tree)
        → reached key (avl_find_rec key m (at_left x b r ∷ path)).0 ≡ find_item key (inorder m)
        → key < x.0
        → reached key (or_here m (node l x b r, path) (avl_find_rec key m (at_left x b r ∷ path))).0
          ≡ find_item key (inorder m)
    left leaf ih lt = ground arith
    left (node ml mx mb mr) ih lt = ih

    right :
        (m : Tree)
        → reached key (avl_find_rec key m (at_right l x b ∷ path)).0 ≡ find_item key (inorder m)
        → x.0 < key
        → reached key
            (or_here m (node l x b r, path) (avl_find_rec key m (at_right l x b ∷ path))).0
          ≡ find_item key (inorder m)
    right leaf ih lt = ground arith
    right (node ml mx mb mr) ih lt = ih
