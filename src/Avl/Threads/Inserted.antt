-- ===== src/Avl/Threads/Inserted.antt =====
-- Where avl_insert of src/common/avl.c places a new leader in the list through the nodes.
use olsrd_hybrid_plc.Prelude.{
  ℕ, zero, suc, ◌+◌, ◌<◌, ◌≡◌, ◌⊎◌, refl, sym, subst, ap, ◌∙◌, Bool, true, false, Bool-cases, inl,
  inr, Option, none, some, List, [], ◌∷◌, ◌++◌, arith, ltb, ◌==◌, if◌then◌else◌, length,
}
use olsrd_hybrid_plc.Prelude.Int.{ℤ, pos, negsuc}
use olsrd_hybrid_plc.Avl.{Item, Tree, leaf, node, Frame}
use olsrd_hybrid_plc.Avl.Inorder.{inorder, before, after}
use olsrd_hybrid_plc.Avl.Balance.{height, Level, IsAvl}
use olsrd_hybrid_plc.Avl.Order.{
  Below, Above, Sorted, Sorted-parts, Below-append, Below-trans, Above-trans, place, place-append,
  place-Above, find_item,
}
use olsrd_hybrid_plc.Avl.Insert.Locate.{before-Below, after-Above, Located}
use olsrd_hybrid_plc.Avl.Delete.Worker.{around}
use olsrd_hybrid_plc.Avl.Threads.{Entry, AvlTree, insert_before, insert_behind, insert_thread}
use olsrd_hybrid_plc.Avl.Threads.Placed.{
  leaders, Fresh, Distinct, leaders-insert_before, leaders-insert_behind,
}
use olsrd_hybrid_plc.Avl.Threads.Apart.{
  insert_before-Distinct, insert_behind-Distinct, Headed, insert_before-Headed,
  insert_behind-Headed,
}

-- The keys of the tree increase in order, it is balanced, its items are the leaders of the list, the
-- first node of which is one, every node has its identity, and the count is that of the nodes.
abbrev pub Well : AvlTree → Type 0
Well t =
    Sorted (inorder (t.root))
    × IsAvl (t.root)
    × (leaders (t.nodes) ≡ inorder (t.root))
    × Distinct (t.nodes)
    × Headed (t.nodes)
    × (t.count ≡ length (t.nodes))

-- What an insertion is to return, and the leaders after it.
abbrev pub refused : Bool → Item → List Item → Bool
refused allow_duplicates new items = elim (find_item (new.0) items) [
  | none ↦ false
  | some x ↦ if allow_duplicates then false else true
]

abbrev pub placed : Item → List Item → List Item
placed new items = elim (find_item (new.0) items) [ none ↦ place new items | some x ↦ items ]

abbrev pub InsertOk : Bool → Item → AvlTree → Option (ℤ × AvlTree) → Type 0
InsertOk allow_duplicates new t none = ⊥
InsertOk allow_duplicates new t (some (code, t')) =
    Well t'
    × (code ≡ (if refused allow_duplicates new (leaders (t.nodes)) then negsuc 0 else pos 0))
    × (t'.count
        ≡ (if refused allow_duplicates new (leaders (t.nodes)) then t.count else t.count + 1))
    × (leaders (t'.nodes) ≡ placed new (leaders (t.nodes)))

-- On the left of a node without a left child the new one goes in front, else behind.
thread_left :
    (new x : Item) (b : ℤ) (hr : ℕ) (nodes : List Entry)
    → new.0 < x.0
    → Level 0 b hr
    → insert_thread new x b nodes ≡ insert_before (x.1) (new, true) nodes
thread_left new x (pos zero) hr nodes lt level =
    let t : ltb (new.0) (x.0) ≡ true = ground arith in rw t
thread_left new x (pos (suc zero)) hr nodes lt level = refl
thread_left new x (pos (suc (suc k))) hr nodes lt level = elim level [ ]
thread_left new x (negsuc zero) hr nodes lt level = absurd (omega arith)
thread_left new x (negsuc (suc k)) hr nodes lt level = elim level [ ]

thread_right :
    (new x : Item) (b : ℤ) (hl : ℕ) (nodes : List Entry)
    → x.0 < new.0
    → Level hl b 0
    → insert_thread new x b nodes ≡ insert_behind (x.1) (new, true) nodes
thread_right new x (pos zero) hl nodes gt level =
    let t : ltb (new.0) (x.0) ≡ false = ground arith in rw t
thread_right new x (negsuc zero) hl nodes gt level = refl
thread_right new x (pos (suc (suc k))) hl nodes gt level = elim level [ ]
thread_right new x (pos (suc zero)) hl nodes gt level = absurd (omega arith)
thread_right new x (negsuc (suc k)) hl nodes gt level = elim level [ ]

-- The new leader is placed among the leaders.
abbrev pub Threaded : Item → List Entry → List Entry → Type 0
Threaded new es es' =
    (leaders es' ≡ place new (leaders es))
    × (length es' ≡ length es + 1)
    × (Fresh (new.1) es → Distinct es → Distinct es')
    × (Headed es → Headed es')

in_front_lem :
    (new x : Item) (es : List Entry) (front behind : List Item)
    → Distinct es
    → leaders es ≡ front ++ (x ∷ behind)
    → Below (new.0) front
    → new.0 < x.0
    → Threaded new es (insert_before (x.1) (new, true) es)
in_front_lem new x es front behind d e below lt =
    let t : ltb (new.0) (x.0) ≡ true = ground arith in
    let (done, longer) = leaders-insert_before es front behind x new d e in
    let here : place new (x ∷ behind) ≡ new ∷ x ∷ behind = rw t in
    (
      done
          ∙ ap (λ l. front ++ l) (sym here)
          ∙ sym (place-append new front (x ∷ behind) below)
          ∙ ap (λ l. place new l) (sym e),
      longer,
      (λ f d. insert_before-Distinct (x.1) new true es f d),
      (λ h. insert_before-Headed (x.1) new es h),
    )

behind_lem :
    (new x : Item) (es : List Entry) (front behind : List Item)
    → Distinct es
    → leaders es ≡ front ++ (x ∷ behind)
    → Below (new.0) front
    → x.0 < new.0
    → Above (new.0) behind
    → Threaded new es (insert_behind (x.1) (new, true) es)
behind_lem new x es front behind d e below gt above =
    let t : ltb (new.0) (x.0) ≡ false = ground arith in
    let (done, longer) = leaders-insert_behind es front behind x new d e in
    let here : place new (x ∷ behind) ≡ x ∷ new ∷ behind = rw (t, place-Above new behind above) in
    (
      done
          ∙ ap (λ l. front ++ l) (sym here)
          ∙ sym (place-append new front (x ∷ behind) below)
          ∙ ap (λ l. place new l) (sym e),
      longer,
      (λ f d. insert_behind-Distinct (x.1) new true es f d),
      (λ h. insert_behind-Headed (x.1) (new, true) es h),
    )

-- The node that the search ends at has the key, or the new leader is placed beside it.
pub beside_found :
    (new : Item) (root l r : Tree) (x : Item) (b : ℤ) (path : List Frame) (es : List Entry)
    → Located (new.0) root (node l x b r) path
    → Distinct es
    → leaders es ≡ inorder root
    → (leaders es ≡ (before path ++ inorder l) ++ (x ∷ (inorder r ++ after path)))
      × ((new.0 ≡ x.0) ⊎ Threaded new es (insert_thread new x b es))
beside_found new root l r x b path es (e, a, s, v, p, side) d q =
    let shape : leaders es ≡ (before path ++ inorder l) ++ (x ∷ (inorder r ++ after path)) =
      q ∙ ap inorder (sym e) ∙ around l r x b path in
    (
      shape,
      elim side [
        | inl same ↦ inl same
        | inr (inl (lt, q')) ↦ inr (on_left l q' shape lt v)
        | inr (inr (gt, q')) ↦ inr (on_right r q' shape gt v s)
      ],
    )
  where
    on_left :
        (l : Tree)
        → l ≡ leaf
        → leaders es ≡ (before path ++ inorder l) ++ (x ∷ (inorder r ++ after path))
        → new.0 < x.0
        → IsAvl (node l x b r)
        → Threaded new es (insert_thread new x b es)
    on_left leaf q' shape lt (level, _, _) =
        subst (λ es'. Threaded new es es') (sym (thread_left new x b (height r) es lt level))
          (in_front_lem new x es (before path ++ []) (inorder r ++ after path) d shape
            (Below-append (new.0) (before path) [] (before-Below (new.0) path a) tt) lt)
    on_left (node ll lx lb lr) q' shape lt v = absurd (ground (arith, q'))

    on_right :
        (r : Tree)
        → r ≡ leaf
        → leaders es ≡ (before path ++ inorder l) ++ (x ∷ (inorder r ++ after path))
        → x.0 < new.0
        → IsAvl (node l x b r)
        → Sorted (inorder l ++ (x ∷ inorder r))
        → Threaded new es (insert_thread new x b es)
    on_right leaf q' shape gt (level, _, _) s =
        let (below, _, _, _) = Sorted-parts (inorder l) x [] s in
        subst (λ es'. Threaded new es es') (sym (thread_right new x b (height l) es gt level))
          (behind_lem new x es (before path ++ inorder l) (after path) d shape
            (Below-append (new.0) (before path) (inorder l) (before-Below (new.0) path a)
              (Below-trans (x.0) (new.0) (inorder l) (omega arith) below))
            gt (after-Above (new.0) path a))
    on_right (node rl rx rb rr) q' shape gt v s = absurd (ground (arith, q'))

place-Above_low :
    (k : ℕ) (new : Item) (xs : List Item) → k < new.0 → Above k xs → Above k (place new xs)
place-Above_low k new [] h a = (h, tt)
place-Above_low k new (x ∷ xs) h (lt, a) = elim (Bool-cases (ltb (new.0) (x.0))) [
  | inl t ↦ rw t (h, (lt, a))
  | inr t ↦ rw t (lt, place-Above_low k new xs h a)
]

pub place-Sorted :
    (new : Item) (xs : List Item) → Sorted xs → find_item (new.0) xs ≡ none → Sorted (place new xs)
place-Sorted new [] s absent = (tt, tt)
place-Sorted new (x ∷ xs) (a, s) absent = elim (Bool-cases (x.0 == new.0)) [
  | inl here ↦ absurd (ground (arith, rw here at absent))
  | inr other ↦
      let absent' : find_item (new.0) xs ≡ none = rw other at absent in
      elim (Bool-cases (ltb (new.0) (x.0))) [
        | inl t ↦ rw t ((ground arith, Above-trans (new.0) (x.0) xs (ground arith) a), (a, s))
        | inr t ↦
            rw t (place-Above_low (x.0) new xs (ground arith) a, place-Sorted new xs s absent')
      ]
]
