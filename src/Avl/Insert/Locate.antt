-- ===== src/Avl/Insert/Locate.antt =====
-- The node that avl_find_rec of src/common/avl.c ends at, seen from the root.
use olsrd_hybrid_plc.Prelude.{
  ℕ, ◌<◌, ◌≡◌, ◌⊎◌, inl, inr, refl, Bool-cases, List, [], ◌∷◌, ◌++◌, arith, ltb,
}
use olsrd_hybrid_plc.Avl.{Tree, leaf, node, Frame, at_left, at_right, plug, avl_find_rec, or_here}
use olsrd_hybrid_plc.Avl.Inorder.{inorder, before, after}
use olsrd_hybrid_plc.Avl.Balance.{height, IsAvl, PathAvl}
use olsrd_hybrid_plc.Avl.Order.{
  Below, Above, Sorted, Below-append, Above-append, Below-trans, Above-trans, Sorted-parts,
}

-- The key belongs at the end of the path.
abbrev pub Around : ℕ → List Frame → Type 0
Around key [] = Unit {0}
Around key (at_left x b r ∷ path) = (key < x.0) × Above x.0 (inorder r) × Around key path
Around key (at_right l x b ∷ path) = (x.0 < key) × Below x.0 (inorder l) × Around key path

pub before-Below : (key : ℕ) (path : List Frame) → Around key path → Below key (before path)
before-Below key [] a = tt
before-Below key (at_left x b r ∷ path) (lt, above, a) = before-Below key path a
before-Below key (at_right l x b ∷ path) (lt, below, a) =
    Below-append key (before path) (inorder l ++ (x ∷ [])) (before-Below key path a) (
      Below-append key (inorder l) (x ∷ []) (Below-trans x.0 key (inorder l) (omega arith) below)
        (lt, tt))

pub after-Above : (key : ℕ) (path : List Frame) → Around key path → Above key (after path)
after-Above key [] a = tt
after-Above key (at_left x b r ∷ path) (lt, above, a) = (
  lt,
  Above-append key (inorder r) (after path) (Above-trans key x.0 (inorder r) (omega arith) above)
      (after-Above key path a),
)
after-Above key (at_right l x b ∷ path) (lt, below, a) = after-Above key path a

-- The node that the search ends at: the key is its own, or belongs where it has no child.
abbrev pub Located : ℕ → Tree → Tree → List Frame → Type 0
Located key root leaf path = ⊥
Located key root (node l x b r) path =
    (plug (node l x b r) path ≡ root)
    × Around key path
    × Sorted (inorder (node l x b r))
    × IsAvl (node l x b r)
    × PathAvl (height (node l x b r)) path
    × ((key ≡ x.0) ⊎ ((key < x.0) × (l ≡ leaf)) ⊎ ((x.0 < key) × (r ≡ leaf)))

abbrev pub IsNode : Tree → Type 0
IsNode leaf = ⊥
IsNode (node l x b r) = Unit {0}

pub locate :
    (key : ℕ) (root t : Tree) (path : List Frame)
    → IsNode t
    → plug t path ≡ root
    → Around key path
    → Sorted (inorder t)
    → IsAvl t
    → PathAvl (height t) path
    → Located key root (avl_find_rec key t path).0 (avl_find_rec key t path).1
unfolding avl_find_rec
locate key root leaf path n e a s v p = elim n [ ]
locate key root (node l x b r) path n e a s (level, vl, vr) p =
    let (below, above, sl, sr) = Sorted-parts (inorder l) x (inorder r) s in
    elim (Bool-cases (ltb key x.0)) [
      | inl lt ↦ rw lt (
          left l refl (ground arith) (λ i.
            locate key root l (at_left x b r ∷ path) i e (ground arith, above, a) sl vl
              (level, vr, p)))
      | inr ge ↦ elim (Bool-cases (ltb x.0 key)) [
        | inl gt ↦
            rw (ge, gt)
              (right r refl (ground arith) (λ i.
                locate key root r (at_right l x b ∷ path) i e (ground arith, below, a) sr vr
                  (level, vl, p)))
        | inr le ↦ rw (ge, le) (e, a, s, (level, vl, vr), p, inl (ground arith))
      ]
    ]
  where
    left :
        (m : Tree)
        → l ≡ m
        → key < x.0
        → (IsNode m
            → Located key root
                (avl_find_rec key m (at_left x b r ∷ path)).0
                (avl_find_rec key m (at_left x b r ∷ path)).1)
        → Located key root
            (or_here m (node l x b r, path) (avl_find_rec key m (at_left x b r ∷ path))).0
            (or_here m (node l x b r, path) (avl_find_rec key m (at_left x b r ∷ path))).1
    left leaf q lt ih = (e, a, s, (level, vl, vr), p, inr (inl (lt, q)))
    left (node ml mx mb mr) q lt ih = ih tt

    right :
        (m : Tree)
        → r ≡ m
        → x.0 < key
        → (IsNode m
            → Located key root
                (avl_find_rec key m (at_right l x b ∷ path)).0
                (avl_find_rec key m (at_right l x b ∷ path)).1)
        → Located key root
            (or_here m (node l x b r, path) (avl_find_rec key m (at_right l x b ∷ path))).0
            (or_here m (node l x b r, path) (avl_find_rec key m (at_right l x b ∷ path))).1
    right leaf q gt ih = (e, a, s, (level, vl, vr), p, inr (inr (gt, q)))
    right (node ml mx mb mr) q gt ih = ih tt
