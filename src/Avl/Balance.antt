-- ===== src/Avl/Balance.antt =====
-- The heights of the subtrees and the balances of the nodes.
use olsrd_hybrid_plc.Prelude.{
  ◌⊎◌, inl, inr, ℕ, zero, suc, ◌≡◌, refl, max, true, false, Option, none, some, List, [], ◌∷◌,
  arith,
}
use olsrd_hybrid_plc.Prelude.Int.{ℤ, pos, negsuc, ◌+ℤ◌, ◌-ℤ◌}
use olsrd_hybrid_plc.Avl.{
  Item, Tree, leaf, node, Frame, at_left, at_right, plug, plugged, rotate_left, rotate_right,
  rotate_left_right, rotate_right_left, post_insert, balance_is,
}

abbrev pub height : Tree → ℕ
height leaf = 0
height (node l x b r) = suc (max (height l) (height r))

-- The balance of a node with subtrees of these heights.
abbrev pub Level : ℕ → ℤ → ℕ → Type 0
Level hl (pos zero) hr = hl ≡ hr
Level hl (pos (suc zero)) hr = hr ≡ suc hl
Level hl (pos (suc (suc n))) hr = ⊥
Level hl (negsuc zero) hr = hl ≡ suc hr
Level hl (negsuc (suc n)) hr = ⊥

abbrev pub IsAvl : Tree → Type 0
IsAvl leaf = Unit {0}
IsAvl (node l x b r) = Level (height l) b (height r) × IsAvl l × IsAvl r

-- A path whose subtree at the end has the height `h`.
abbrev pub PathAvl : ℕ → List Frame → Type 0
PathAvl h [] = Unit {0}
PathAvl h (at_left x b r ∷ path) =
    Level h b (height r) × IsAvl r × PathAvl (suc (max h (height r))) path
PathAvl h (at_right l x b ∷ path) =
    Level (height l) b h × IsAvl l × PathAvl (suc (max (height l) h)) path

pub plug-IsAvl :
    (h : ℕ) (t : Tree) (path : List Frame)
    → height t ≡ h
    → IsAvl t
    → PathAvl h path
    → IsAvl (plug t path)
plug-IsAvl h t [] e a p = a
plug-IsAvl h t (at_left x b r ∷ path) e a (level, ar, p) =
    plug-IsAvl (suc (max h (height r))) (node t x b r) path (omega (arith, e)) (rw e level, a, ar) p
plug-IsAvl h t (at_right l x b ∷ path) e a (level, al, p) =
    plug-IsAvl (suc (max (height l) h)) (node l x b t) path (omega (arith, e)) (rw e level, al, a) p

-- A subtree that is higher on one side.
abbrev pub Skew : Tree → Type 0
Skew leaf = ⊥
Skew (node l x (pos zero) r) = ⊥
Skew (node l x (pos (suc n)) r) = Unit {0}
Skew (node l x (negsuc n) r) = Unit {0}

-- A result that is a tree of this height.
abbrev pub Rotated : Option Tree → ℕ → Type 0
Rotated none h = ⊥
Rotated (some t) h = IsAvl t × (height t ≡ h)

-- The left subtree is two levels higher than the right one.
pub left_high :
    (l r : Tree) (x : Item)
    → IsAvl l
    → IsAvl r
    → Skew l
    → height l ≡ suc (suc (height r))
    → ((balance_is (negsuc 0) l ≡ true)
        × Rotated (rotate_right (node l x (negsuc 1) r)) (suc (suc (height r))))
      ⊎ ((balance_is (negsuc 0) l ≡ false)
          × Rotated (rotate_left_right (node l x (negsuc 1) r)) (suc (suc (height r))))
unfolding rotate_left rotate_right rotate_left_right ◌+ℤ◌ ◌-ℤ◌
left_high leaf r x al ar s h = elim s [ ]
left_high (node ll lx (pos zero) lr) r x al ar s h = elim s [ ]
left_high (node ll lx (pos (suc (suc n))) lr) r x al ar s h = elim (al.0) [ ]
left_high (node ll lx (negsuc (suc n)) lr) r x al ar s h = elim (al.0) [ ]
left_high (node ll lx (negsuc zero) lr) r x (level, all, alr) ar s h =
    inl (refl, ((omega arith, all, (omega arith, alr, ar)), omega arith))
left_high (node ll lx (pos (suc zero)) leaf) r x (level, all, alr) ar s h = absurd (omega arith)
left_high (node ll lx (pos (suc zero)) (node m mx (pos zero) n)) r x (level, all, (lm, am, an)) ar s
      h =
    inr (refl, ((omega arith, (omega arith, all, am), (omega arith, an, ar)), omega arith))
left_high (node ll lx (pos (suc zero)) (node m mx (pos (suc zero)) n)) r x
      (level, all, (lm, am, an)) ar s h =
    inr (refl, ((omega arith, (omega arith, all, am), (omega arith, an, ar)), omega arith))
left_high (node ll lx (pos (suc zero)) (node m mx (negsuc zero) n)) r x (level, all, (lm, am, an))
      ar s h =
    inr (refl, ((omega arith, (omega arith, all, am), (omega arith, an, ar)), omega arith))
left_high (node ll lx (pos (suc zero)) (node m mx (pos (suc (suc k))) n)) r x
      (level, all, (lm, am, an)) ar s h =
    elim lm [ ]
left_high (node ll lx (pos (suc zero)) (node m mx (negsuc (suc k)) n)) r x
      (level, all, (lm, am, an)) ar s h =
    elim lm [ ]

-- The right subtree is two levels higher than the left one.
pub right_high :
    (l r : Tree) (x : Item)
    → IsAvl l
    → IsAvl r
    → Skew r
    → height r ≡ suc (suc (height l))
    → ((balance_is (pos 1) r ≡ true)
        × Rotated (rotate_left (node l x (pos 2) r)) (suc (suc (height l))))
      ⊎ ((balance_is (pos 1) r ≡ false)
          × Rotated (rotate_right_left (node l x (pos 2) r)) (suc (suc (height l))))
unfolding rotate_left rotate_right rotate_right_left ◌+ℤ◌ ◌-ℤ◌
right_high l leaf x al ar s h = elim s [ ]
right_high l (node rl rx (pos zero) rr) x al ar s h = elim s [ ]
right_high l (node rl rx (pos (suc (suc n))) rr) x al ar s h = elim (ar.0) [ ]
right_high l (node rl rx (negsuc (suc n)) rr) x al ar s h = elim (ar.0) [ ]
right_high l (node rl rx (pos (suc zero)) rr) x al (level, arl, arr) s h =
    inl (refl, ((omega arith, (omega arith, al, arl), arr), omega arith))
right_high l (node leaf rx (negsuc zero) rr) x al (level, arl, arr) s h = absurd (omega arith)
right_high l (node (node m mx (pos zero) n) rx (negsuc zero) rr) x al (level, (lm, am, an), arr) s
      h =
    inr (refl, ((omega arith, (omega arith, al, am), (omega arith, an, arr)), omega arith))
right_high l (node (node m mx (pos (suc zero)) n) rx (negsuc zero) rr) x al
      (level, (lm, am, an), arr) s h =
    inr (refl, ((omega arith, (omega arith, al, am), (omega arith, an, arr)), omega arith))
right_high l (node (node m mx (negsuc zero) n) rx (negsuc zero) rr) x al (level, (lm, am, an), arr)
      s h =
    inr (refl, ((omega arith, (omega arith, al, am), (omega arith, an, arr)), omega arith))
right_high l (node (node m mx (pos (suc (suc k))) n) rx (negsuc zero) rr) x al
      (level, (lm, am, an), arr) s h =
    elim lm [ ]
right_high l (node (node m mx (negsuc (suc k)) n) rx (negsuc zero) rr) x al
      (level, (lm, am, an), arr) s h =
    elim lm [ ]

-- A result that is a balanced tree, and no null pointer.
abbrev pub Valid : Option Tree → Type 0
Valid none = ⊥
Valid (some t) = IsAvl t

pub plugged-Valid :
    (o : Option Tree) (h : ℕ) (path : List Frame)
    → Rotated o h
    → PathAvl h path
    → Valid (plugged o path)
plugged-Valid none h path r p = elim r [ ]
plugged-Valid (some t) h path (a, e) p = plug-IsAvl h t path e a p

-- A subtree that grew by a level, and is higher on one side, is made part of a balanced tree.
pub post_insert-Valid :
    (h : ℕ) (t : Tree) (path : List Frame)
    → height t ≡ suc h
    → IsAvl t
    → Skew t
    → PathAvl h path
    → Valid (post_insert t path)
unfolding post_insert ◌+ℤ◌ ◌-ℤ◌
post_insert-Valid h t [] e a s p = a
post_insert-Valid h t (at_left x (pos zero) r ∷ path) e a s (level, ar, p) =
    post_insert-Valid (suc (max h (height r))) (node t x (negsuc 0) r) path (omega arith)
      (omega arith, a, ar) tt p
post_insert-Valid h t (at_left x (pos (suc zero)) r ∷ path) e a s (level, ar, p) =
    plug-IsAvl (suc (max h (height r))) (node t x (pos 0) r) path (omega arith) (omega arith, a, ar)
      p
post_insert-Valid h t (at_left x (pos (suc (suc k))) r ∷ path) e a s (level, ar, p) = elim level [ ]
post_insert-Valid h t (at_left x (negsuc (suc k)) r ∷ path) e a s (level, ar, p) = elim level [ ]
post_insert-Valid h t (at_left x (negsuc zero) r ∷ path) e a s (level, ar, p) =
    let same : suc (max h (height r)) ≡ suc (suc (height r)) = omega arith in
    let p' : PathAvl (suc (suc (height r))) path = rw same at p in
    elim (left_high t r x a ar s (omega arith)) [
      | inl (test, done) ↦
          rw test (
            plugged-Valid (rotate_right (node t x (negsuc 1) r)) (suc (suc (height r))) path done
              p')
      | inr (test, done) ↦ rw test (
          plugged-Valid (rotate_left_right (node t x (negsuc 1) r)) (suc (suc (height r))) path done
            p')
    ]
post_insert-Valid h t (at_right l x (pos zero) ∷ path) e a s (level, al, p) =
    post_insert-Valid (suc (max (height l) h)) (node l x (pos 1) t) path (omega arith)
      (omega arith, al, a) tt p
post_insert-Valid h t (at_right l x (negsuc zero) ∷ path) e a s (level, al, p) =
    plug-IsAvl (suc (max (height l) h)) (node l x (pos 0) t) path (omega arith) (omega arith, al, a)
      p
post_insert-Valid h t (at_right l x (pos (suc (suc k))) ∷ path) e a s (level, al, p) =
    elim level [ ]
post_insert-Valid h t (at_right l x (negsuc (suc k)) ∷ path) e a s (level, al, p) = elim level [ ]
post_insert-Valid h t (at_right l x (pos (suc zero)) ∷ path) e a s (level, al, p) =
    let same : suc (max (height l) h) ≡ suc (suc (height l)) = omega arith in
    let p' : PathAvl (suc (suc (height l))) path = rw same at p in
    elim (right_high l t x al a s (omega arith)) [
      | inl (test, done) ↦
          rw test
            (plugged-Valid (rotate_left (node l x (pos 2) t)) (suc (suc (height l))) path done p')
      | inr (test, done) ↦ rw test (
          plugged-Valid (rotate_right_left (node l x (pos 2) t)) (suc (suc (height l))) path done
            p')
    ]
