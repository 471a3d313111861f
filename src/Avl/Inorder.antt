-- ===== src/Avl/Inorder.antt =====
-- The items of a tree in their order, which rotations leave.
use olsrd_hybrid_plc.Prelude.{
  ◌≡◌, refl, sym, ap, ◌∙◌, Bool, true, false, Option, none, some, Option-cases, List, [], ◌∷◌, ◌++◌,
  arith, inl, inr, if◌then◌else◌,
}
use olsrd_hybrid_plc.Prelude.Int.{ℤ, pos, negsuc, ◌+ℤ◌, ◌-ℤ◌}
use olsrd_hybrid_plc.NetBuffer.Bytes.{append_assoc}
use olsrd_hybrid_plc.Avl.{
  Item, Tree, leaf, node, Frame, at_left, at_right, plug, plugged, rotate_left, rotate_right,
  rotate_left_right, rotate_right_left, post_insert, eqb_ℤ, balance_is,
}

abbrev pub inorder : Tree → List Item
inorder leaf = []
inorder (node l x b r) = inorder l ++ (x ∷ inorder r)

-- What stands in front of a subtree and behind it.
abbrev pub before : List Frame → List Item
before [] = []
before (at_left x b r ∷ path) = before path
before (at_right l x b ∷ path) = before path ++ (inorder l ++ (x ∷ []))

abbrev pub after : List Frame → List Item
after [] = []
after (at_left x b r ∷ path) = x ∷ (inorder r ++ after path)
after (at_right l x b ∷ path) = after path

pub append_nil {ℓ} : {A : Type ℓ} (xs : List A) → xs ++ [] ≡ xs
append_nil [] = refl
append_nil (x ∷ xs) = ap (λ l. x ∷ l) (append_nil xs)

pub inorder-plug :
    (t : Tree) (path : List Frame)
    → inorder (plug t path) ≡ before path ++ (inorder t ++ after path)
inorder-plug t [] = sym (append_nil (inorder t))
inorder-plug t (at_left x b r ∷ path) =
    inorder-plug (node t x b r) path
    ∙ ap (λ l. before path ++ l) (append_assoc (inorder t) (x ∷ inorder r) (after path))
inorder-plug t (at_right l x b ∷ path) = inorder-plug (node l x b t) path ∙ simp append_assoc refl

-- A result with the same items, or a null pointer.
abbrev pub Keeps : Option Tree → List Item → Type 0
Keeps none items = Unit {0}
Keeps (some t) items = inorder t ≡ items

pub rotate_right-Keeps : (t : Tree) → Keeps (rotate_right t) (inorder t)
unfolding rotate_right
rotate_right-Keeps leaf = tt
rotate_right-Keeps (node leaf x b r) = tt
rotate_right-Keeps (node (node ll lx lb lr) x b r) =
    sym (append_assoc (inorder ll) (lx ∷ inorder lr) (x ∷ inorder r))

pub rotate_left-Keeps : (t : Tree) → Keeps (rotate_left t) (inorder t)
unfolding rotate_left
rotate_left-Keeps leaf = tt
rotate_left-Keeps (node l x b leaf) = tt
rotate_left-Keeps (node l x b (node rl rx rb rr)) =
    append_assoc (inorder l) (x ∷ inorder rl) (rx ∷ inorder rr)

pub Keeps-some :
    (o : Option Tree) (t : Tree) (items : List Item)
    → Keeps o items
    → o ≡ some t
    → inorder t ≡ items
Keeps-some none t items k h = absurd (ground (arith, h))
Keeps-some (some t') t items k h =
    ap (λ (o : Option Tree). elim o [ none ↦ [] | some s ↦ inorder s ]) (sym h) ∙ k

pub rotate_left_right-Keeps : (t : Tree) → Keeps (rotate_left_right t) (inorder t)
unfolding rotate_left_right
rotate_left_right-Keeps leaf = tt
rotate_left_right-Keeps (node l x b r) = elim (Option-cases (rotate_left l)) [
  | inl stuck ↦ rw (stuck, rotate_left_right) tt
  | inr (l', done) ↦
      let same : inorder l' ≡ inorder l =
        Keeps-some (rotate_left l) l' (inorder l) (rotate_left-Keeps l) done in
      rw (done, rotate_left_right) (rw (← same) (rotate_right-Keeps (node l' x b r)))
]

pub rotate_right_left-Keeps : (t : Tree) → Keeps (rotate_right_left t) (inorder t)
unfolding rotate_right_left
rotate_right_left-Keeps leaf = tt
rotate_right_left-Keeps (node l x b r) = elim (Option-cases (rotate_right r)) [
  | inl stuck ↦ rw (stuck, rotate_right_left) tt
  | inr (r', done) ↦
      let same : inorder r' ≡ inorder r =
        Keeps-some (rotate_right r) r' (inorder r) (rotate_right-Keeps r) done in
      rw (done, rotate_right_left) (rw (← same) (rotate_left-Keeps (node l x b r')))
]

pub plugged-Keeps :
    (o : Option Tree) (t : Tree) (path : List Frame)
    → Keeps o (inorder t)
    → Keeps (plugged o path) (inorder (plug t path))
plugged-Keeps none t path k = tt
plugged-Keeps (some t') t path k =
    inorder-plug t' path ∙ ap (λ l. before path ++ (l ++ after path)) k ∙ sym (inorder-plug t path)

-- The balance of a node does not matter.
pub relabel :
    (l r : Tree) (x : Item) (b b' : ℤ) (path : List Frame)
    → inorder (plug (node l x b r) path) ≡ inorder (plug (node l x b' r) path)
relabel l r x b b' path = inorder-plug (node l x b r) path ∙ sym (inorder-plug (node l x b' r) path)

-- One of four results, by three tests.
pub one_of_four :
    (p q s : Bool) (o1 o2 o3 o4 : Option Tree) (items : List Item)
    → Keeps o1 items
    → Keeps o2 items
    → Keeps o3 items
    → Keeps o4 items
    → Keeps (if p then o1 else if q then o2 else if s then o3 else o4) items
one_of_four true q s o1 o2 o3 o4 items k1 k2 k3 k4 = k1
one_of_four false true s o1 o2 o3 o4 items k1 k2 k3 k4 = k2
one_of_four false false true o1 o2 o3 o4 items k1 k2 k3 k4 = k3
one_of_four false false false o1 o2 o3 o4 items k1 k2 k3 k4 = k4

-- The rebalancing after an insertion leaves the items.
pub post_insert-Keeps :
    (t : Tree) (path : List Frame) → Keeps (post_insert t path) (inorder (plug t path))
unfolding post_insert
post_insert-Keeps t [] = refl
post_insert-Keeps t (at_left x b r ∷ path) =
    let b' : ℤ = b -ℤ pos 1 in
    rw (relabel t r x b b' path) (
      one_of_four (eqb_ℤ b' (pos 0)) (eqb_ℤ b' (negsuc 0)) (balance_is (negsuc 0) t) _ _ _ _
        (inorder (plug (node t x b' r) path)) refl (post_insert-Keeps (node t x b' r) path)
        (plugged-Keeps (rotate_right (node t x b' r)) (node t x b' r) path
          (rotate_right-Keeps (node t x b' r)))
        (plugged-Keeps (rotate_left_right (node t x b' r)) (node t x b' r) path
          (rotate_left_right-Keeps (node t x b' r))))
post_insert-Keeps t (at_right l x b ∷ path) =
    let b' : ℤ = b +ℤ pos 1 in
    rw (relabel l t x b b' path) (
      one_of_four (eqb_ℤ b' (pos 0)) (eqb_ℤ b' (pos 1)) (balance_is (pos 1) t) _ _ _ _
        (inorder (plug (node l x b' t) path)) refl (post_insert-Keeps (node l x b' t) path)
        (plugged-Keeps (rotate_left (node l x b' t)) (node l x b' t) path
          (rotate_left-Keeps (node l x b' t)))
        (plugged-Keeps (rotate_right_left (node l x b' t)) (node l x b' t) path
          (rotate_right_left-Keeps (node l x b' t))))
