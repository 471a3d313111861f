-- ===== src/Avl/Threads/Whole.antt =====
-- avl_insert of src/common/avl.c as a whole: the tree and the list through its nodes stay together.
use olsrd_hybrid_plc.Prelude.{
  ℕ, ◌+◌, ◌≡◌, ◌⊎◌, refl, sym, subst, ap, ◌∙◌, Bool, true, false, Bool-cases, inl, inr, Option,
  none, some, List, [], ◌∷◌, ◌++◌, arith, ◌==◌, if◌then◌else◌, length,
}
use olsrd_hybrid_plc.Prelude.Int.{ℤ, pos, negsuc}
use olsrd_hybrid_plc.Avl.{
  Item, Tree, leaf, node, Frame, avl_find_rec, insert_at, Inserted, there, grown, null_pointer,
}
use olsrd_hybrid_plc.Avl.Inorder.{inorder, before, after}
use olsrd_hybrid_plc.Avl.Balance.{IsAvl}
use olsrd_hybrid_plc.Avl.Order.{Sorted, place, find_item}
use olsrd_hybrid_plc.Avl.Insert.{InsertedOk, insert_at-Ok}
use olsrd_hybrid_plc.Avl.Insert.Locate.{Located, locate}
use olsrd_hybrid_plc.Avl.Threads.{AvlTree, insert_behind, insert_thread, insert_found, avl_insert}
use olsrd_hybrid_plc.Avl.Threads.Placed.{leaders, Fresh}
use olsrd_hybrid_plc.Avl.Threads.Apart.{
  insert_behind-Distinct, leaders-duplicate, length-insert_behind, insert_behind-Headed,
  no_leader_no_node,
}
use olsrd_hybrid_plc.Avl.Threads.Inserted.{
  refused, placed, Well, InsertOk, Threaded, beside_found, place-Sorted,
}

find_present :
    (key : ℕ) (front behind : List Item) (x : Item)
    → key ≡ x.0
    → find_item key (front ++ (x ∷ behind)) ≡ none
    → ⊥
find_present key [] behind x same absent = ground (arith, absent)
find_present key (y ∷ front) behind x same absent = elim (Bool-cases (y.0 == key)) [
  | inl t ↦ ground (arith, rw t at absent)
  | inr t ↦ find_present key front behind x same (rw t at absent)
]

refused_lem :
    (new y : Item) (t : AvlTree)
    → find_item (new.0) (leaders (t.nodes)) ≡ some y
    → Well t
    → InsertOk false new t (some (negsuc 0, t))
refused_lem new y t found w = rw (found, refused, placed) (w, refl, refl, refl)

-- `insert_found` by the result of the insertion in the tree.
by_result :
    (allow_duplicates : Bool) (new x : Item) (b : ℤ) (t : AvlTree) (front behind : List Item)
    (ins : Inserted)
    → InsertedOk new (inorder (t.root)) ins
    → Well t
    → Fresh (new.1) (t.nodes)
    → leaders (t.nodes) ≡ front ++ (x ∷ behind)
    → (new.0 ≡ x.0) ⊎ Threaded new (t.nodes) (insert_thread new x b (t.nodes))
    → InsertOk allow_duplicates new t (elim ins as (λ i. Option (ℤ × AvlTree)) [
      | null_pointer ↦ none
      | there y ↦
          if allow_duplicates
          then some (
            pos 0,
            record {
              root = t.root;
              nodes = insert_behind (x.1) (new, false) (t.nodes);
              count = t.count + 1;
            },
          )
          else some (negsuc 0, t)
      | grown root' ↦ some (
        pos 0,
        record { root = root'; nodes = insert_thread new x b (t.nodes); count = t.count + 1 },
      )
    ])
by_result dups new x b t front behind null_pointer ok w f shape side = elim ok [ ]
by_result true new x b t front behind (there y) (same, present) (s, a, l, d, h, c) f shape side =
    let found : find_item (new.0) (leaders (t.nodes)) ≡ some y =
      ap (λ items. find_item (new.0) items) l ∙ present in
    let kept : leaders (insert_behind (x.1) (new, false) (t.nodes)) ≡ leaders (t.nodes) =
      leaders-duplicate (x.1) (t.nodes) new in
    let longer : length (insert_behind (x.1) (new, false) (t.nodes)) ≡ length (t.nodes) + 1 =
      length-insert_behind (t.nodes) front behind x (new, false) d shape in
    rw (found, refused, placed)
      (
        (
          s,
          a,
          kept ∙ l,
          insert_behind-Distinct (x.1) new false (t.nodes) f d,
          insert_behind-Headed (x.1) (new, false) (t.nodes) h,
          omega (arith, c, longer),
        ),
        refl,
        refl,
        kept,
      )
by_result false new x b t front behind (there y) (same, present) w f shape side =
    let (s, a, l, d, h, c) = w in
    let found : find_item (new.0) (leaders (t.nodes)) ≡ some y =
      ap (λ items. find_item (new.0) items) l ∙ present in
    refused_lem new y t found w
by_result dups new x b t front behind (grown root') (absent, grows) w f shape (inl same) =
    let (s, a, l, d, h, c) = w in
    absurd (
      find_present (new.0) front behind x same
        (ap (λ items. find_item (new.0) items) (sym shape ∙ l) ∙ absent))
by_result dups new x b t front behind (grown root') (absent, (items, avl)) (s, a, l, d, h, c) f
      shape (inr (done, longer, apart, headed)) =
    let missing : find_item (new.0) (leaders (t.nodes)) ≡ none =
      ap (λ items. find_item (new.0) items) l ∙ absent in
    let sorted : Sorted (inorder root') =
      subst (λ l. Sorted l) (sym items) (place-Sorted new (inorder (t.root)) s absent) in
    rw (missing, refused, placed)
      (
        (
          sorted,
          avl,
          done ∙ ap (λ l. place new l) l ∙ sym items,
          apart f d,
          headed h,
          omega (arith, c, longer),
        ),
        refl,
        refl,
        done,
      )

found-InsertOk :
    (allow_duplicates : Bool) (new : Item) (t : AvlTree) (found : Tree) (path : List Frame)
    → Located (new.0) (t.root) found path
    → Well t
    → Fresh (new.1) (t.nodes)
    → InsertOk allow_duplicates new t (insert_found allow_duplicates new t found path)
found-InsertOk dups new t leaf path loc w f = elim loc [ ]
found-InsertOk dups new t (node l x b r) path loc w f =
    let (s, a, same, d, h, c) = w in
    let (shape, side) = beside_found new (t.root) l r x b path (t.nodes) loc d same in
    by_result dups new x b t (before path ++ inorder l) (inorder r ++ after path)
      (insert_at new (node l x b r) path) (insert_at-Ok new (t.root) (node l x b r) path loc) w f
      shape side

-- `avl_insert` by the root.
by_root : Bool → Item → AvlTree → Tree → Option (ℤ × AvlTree)
by_root dups new t leaf =
    some (pos 0, record { root = node leaf new (pos 0) leaf; nodes = (new, true) ∷ []; count = 1 })
by_root dups new t (node l x b r) =
    let (found, path) = avl_find_rec (new.0) (node l x b r) [] in insert_found dups new t found path

first_lem :
    (dups : Bool) (new : Item) (t : AvlTree)
    → Well t
    → leaders (t.nodes) ≡ []
    → InsertOk dups new t (by_root dups new t leaf)
unfolding by_root
first_lem dups new t (s, a, same, d, h, c) empty =
    let none_here : length (t.nodes) ≡ 0 = no_leader_no_node (t.nodes) h empty in
    rw (empty, refused, placed)
      (
        ((tt, tt), (refl, tt, tt), refl, (tt, tt), refl, refl),
        refl,
        omega (arith, c, none_here),
        ap (λ l. place new l) (sym empty),
      )

-- In a tree that is well-formed together with its list, an insertion of a new node follows no null
-- pointer and leaves both so. It is refused, and returns -1, where there is a node of the key and
-- duplicates are not allowed; else it returns 0 and there is one node more. A node of a new key is
-- placed among the leaders by its key; a duplicate changes none of them.
pub avl_insert-InsertOk :
    (allow_duplicates : Bool) (new : Item) (t : AvlTree)
    → Well t
    → Fresh (new.1) (t.nodes)
    → InsertOk allow_duplicates new t (avl_insert allow_duplicates new t)
unfolding avl_insert by_root
avl_insert-InsertOk dups new t w f = go (t.root) refl
  where
    go : (root : Tree) → t.root ≡ root → InsertOk dups new t (by_root dups new t root)
    go leaf e = let (s, a, same, d, h, c) = w in first_lem dups new t w (same ∙ ap inorder e)
    go (node l x b r) e =
        let (s, a, same, d, h, c) = w in
        let s' : Sorted (inorder (node l x b r)) = subst (λ root. Sorted (inorder root)) e s in
        let a' : IsAvl (node l x b r) = subst (λ root. IsAvl root) e a in
        let loc : Located (new.0) (t.root) (avl_find_rec (new.0) (node l x b r) []).0
            (avl_find_rec (new.0) (node l x b r) []).1 =
          locate (new.0) (t.root) (node l x b r) [] tt (sym e) tt s' a' tt in
        found-InsertOk dups new t (avl_find_rec (new.0) (node l x b r) []).0
          (avl_find_rec (new.0) (node l x b r) []).1 loc w f
