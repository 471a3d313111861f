-- ===== src/Avl/Delete/Levels.antt =====
-- The heights and the balances after the rebalancing of a deletion.
use olsrd_hybrid_plc.Prelude.{ℕ, zero, suc, ◌≡◌, max, List, [], ◌∷◌, arith, inl, inr}
use olsrd_hybrid_plc.Prelude.Int.{pos, negsuc, ◌+ℤ◌, ◌-ℤ◌}
use olsrd_hybrid_plc.Avl.{
  Tree, leaf, node, Frame, at_left, at_right, rotate_left, rotate_right, rotate_left_right,
  rotate_right_left,
}
use olsrd_hybrid_plc.Avl.Balance.{height, IsAvl, PathAvl, Valid, plug-IsAvl, left_high, right_high}
use olsrd_hybrid_plc.Avl.Delete.{post_delete}

-- A subtree that lost a level is made part of a balanced tree, and no null pointer is followed.
pub post_delete-Valid :
    (h : ℕ) (t : Tree) (path : List Frame)
    → height t ≡ h
    → IsAvl t
    → PathAvl (suc h) path
    → Valid (post_delete t path)
unfolding post_delete ◌+ℤ◌ ◌-ℤ◌ rotate_left rotate_right rotate_left_right rotate_right_left
post_delete-Valid h t [] e a p = a
post_delete-Valid h t (at_left x (pos zero) r ∷ path) e a (level, ar, p) =
    plug-IsAvl (suc (max (suc h) (height r))) (node t x (pos 1) r) path (omega arith)
      (omega arith, a, ar) p
post_delete-Valid h t (at_left x (negsuc zero) r ∷ path) e a (level, ar, p) =
    let same : suc (max (suc h) (height r)) ≡ suc (suc h) = omega arith in
    post_delete-Valid (suc h) (node t x (pos 0) r) path (omega arith) (omega arith, a, ar)
      (rw same at p)
post_delete-Valid h t (at_left x (pos (suc (suc k))) r ∷ path) e a (level, ar, p) = elim level [ ]
post_delete-Valid h t (at_left x (negsuc (suc k)) r ∷ path) e a (level, ar, p) = elim level [ ]
post_delete-Valid h t (at_left x (pos (suc zero)) leaf ∷ path) e a (level, ar, p) =
    absurd (omega arith)
post_delete-Valid h t (at_left x (pos (suc zero)) (node rl rx (pos (suc (suc k))) rr) ∷ path) e a
      (level, ar, p) =
    elim (ar.0) [ ]
post_delete-Valid h t (at_left x (pos (suc zero)) (node rl rx (negsuc (suc k)) rr) ∷ path) e a
      (level, ar, p) =
    elim (ar.0) [ ]
post_delete-Valid h t (at_left x (pos (suc zero)) (node rl rx (pos zero) rr) ∷ path) e a
      (level, (lr, arl, arr), p) =
    let same : suc (max (suc h) (height (node rl rx (pos zero) rr))) ≡ suc (suc (suc h)) =
      omega arith in
    plug-IsAvl (suc (suc (suc h))) (node (node t x (pos 1) rl) rx (negsuc 0) rr) path (omega arith)
      (omega arith, (omega arith, a, arl), arr) (rw same at p)
post_delete-Valid h t (at_left x (pos (suc zero)) (node rl rx (pos (suc zero)) rr) ∷ path) e a
      (level, (lr, arl, arr), p) =
    let same : suc (max (suc h) (height (node rl rx (pos 1) rr))) ≡ suc (suc (suc h)) =
      omega arith in
    post_delete-Valid (suc (suc h)) (node (node t x (pos 0) rl) rx (pos 0) rr) path (omega arith)
      (omega arith, (omega arith, a, arl), arr) (rw same at p)
post_delete-Valid h t (at_left x (pos (suc zero)) (node leaf rx (negsuc zero) rr) ∷ path) e a
      (level, (lr, arl, arr), p) =
    absurd (omega arith)
post_delete-Valid h t
      (at_left x (pos (suc zero)) (node (node m mx mb n) rx (negsuc zero) rr) ∷ path) e a
      (level, ar, p) =
    let r : Tree = node (node m mx mb n) rx (negsuc 0) rr in
    let same : suc (max (suc h) (height r)) ≡ suc (suc (suc h)) = omega arith in
    let low : suc (suc (height t)) ≡ suc (suc h) = omega arith in
    elim (right_high t r x a ar tt (omega arith)) [
      | inl (test, done) ↦ absurd (ground (arith, test))
      | inr (test, (avl, high)) ↦
          post_delete-Valid (suc (suc h)) _ path (rw low at high) avl (rw same at p)
    ]
post_delete-Valid h t (at_right l x (pos zero) ∷ path) e a (level, al, p) =
    plug-IsAvl (suc (max (height l) (suc h))) (node l x (negsuc 0) t) path (omega arith)
      (omega arith, al, a) p
post_delete-Valid h t (at_right l x (pos (suc zero)) ∷ path) e a (level, al, p) =
    let same : suc (max (height l) (suc h)) ≡ suc (suc h) = omega arith in
    post_delete-Valid (suc h) (node l x (pos 0) t) path (omega arith) (omega arith, al, a)
      (rw same at p)
post_delete-Valid h t (at_right l x (pos (suc (suc k))) ∷ path) e a (level, al, p) = elim level [ ]
post_delete-Valid h t (at_right l x (negsuc (suc k)) ∷ path) e a (level, al, p) = elim level [ ]
post_delete-Valid h t (at_right leaf x (negsuc zero) ∷ path) e a (level, al, p) =
    absurd (omega arith)
post_delete-Valid h t (at_right (node ll lx (pos (suc (suc k))) lr) x (negsuc zero) ∷ path) e a
      (level, al, p) =
    elim (al.0) [ ]
post_delete-Valid h t (at_right (node ll lx (negsuc (suc k)) lr) x (negsuc zero) ∷ path) e a
      (level, al, p) =
    elim (al.0) [ ]
post_delete-Valid h t (at_right (node ll lx (pos zero) lr) x (negsuc zero) ∷ path) e a
      (level, (ll', all, alr), p) =
    let same : suc (max (height (node ll lx (pos 0) lr)) (suc h)) ≡ suc (suc (suc h)) =
      omega arith in
    plug-IsAvl (suc (suc (suc h))) (node ll lx (pos 1) (node lr x (negsuc 0) t)) path (omega arith)
      (omega arith, all, (omega arith, alr, a)) (rw same at p)
post_delete-Valid h t (at_right (node ll lx (negsuc zero) lr) x (negsuc zero) ∷ path) e a
      (level, (ll', all, alr), p) =
    let same : suc (max (height (node ll lx (negsuc 0) lr)) (suc h)) ≡ suc (suc (suc h)) =
      omega arith in
    post_delete-Valid (suc (suc h)) (node ll lx (pos 0) (node lr x (pos 0) t)) path (omega arith)
      (omega arith, all, (omega arith, alr, a)) (rw same at p)
post_delete-Valid h t (at_right (node ll lx (pos (suc zero)) leaf) x (negsuc zero) ∷ path) e a
      (level, (ll', all, alr), p) =
    absurd (omega arith)
post_delete-Valid h t
      (at_right (node ll lx (pos (suc zero)) (node m mx mb n)) x (negsuc zero) ∷ path) e a
      (level, al, p) =
    let l : Tree = node ll lx (pos 1) (node m mx mb n) in
    let same : suc (max (height l) (suc h)) ≡ suc (suc (suc h)) = omega arith in
    let low : suc (suc (height t)) ≡ suc (suc h) = omega arith in
    elim (left_high l t x al a tt (omega arith)) [
      | inl (test, done) ↦ absurd (ground (arith, test))
      | inr (test, (avl, high)) ↦
          post_delete-Valid (suc (suc h)) _ path (rw low at high) avl (rw same at p)
    ]
