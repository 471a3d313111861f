-- ===== src/Avl/Threads/Placed.antt =====
-- Where a new node comes to stand in the list through the nodes of a tree of src/common/avl.c.
use olsrd_hybrid_plc.Prelude.{
  ℕ, suc, ◌+◌, ◌≡◌, refl, sym, ap, ◌∙◌, true, false, List, [], ◌∷◌, ◌++◌, arith, ◌==◌,
  if◌then◌else◌, length,
}
use olsrd_hybrid_plc.Avl.{Item}
use olsrd_hybrid_plc.Avl.Threads.{Entry, insert_before, behind_group, insert_behind}

abbrev pub leaders : List Entry → List Item
leaders [] = []
leaders ((x, b) ∷ es) = if b then x ∷ leaders es else leaders es

-- No node of the list has the identity.
abbrev pub Fresh : ℕ → List Entry → Type 0
Fresh i [] = Unit {0}
Fresh i ((x, b) ∷ es) = ((x.1 == i) ≡ false) × Fresh i es

-- Every node has an identity of its own.
abbrev pub Distinct : List Entry → Type 0
Distinct [] = Unit {0}
Distinct ((x, b) ∷ es) = Fresh (x.1) es × Distinct es

first_or : Item → List Item → Item
first_or d [] = d
first_or d (x ∷ xs) = x

rest_of : List Item → List Item
rest_of [] = []
rest_of (x ∷ xs) = xs

pub same_first : (x y : Item) (xs ys : List Item) → x ∷ xs ≡ y ∷ ys → x ≡ y
unfolding first_or
same_first x y xs ys e = ap (λ l. first_or x l) e

pub same_rest : (x y : Item) (xs ys : List Item) → x ∷ xs ≡ y ∷ ys → xs ≡ ys
unfolding rest_of
same_rest x y xs ys e = ap rest_of e

pub no_item : (front behind : List Item) (x : Item) → [] ≡ front ++ (x ∷ behind) → ⊥
no_item [] behind x e = ground (arith, e)
no_item (y ∷ front) behind x e = ground (arith, e)

-- A leader of the list has no fresh identity.
pub leader_differs :
    (i : ℕ) (es : List Entry) (front behind : List Item) (x : Item)
    → Fresh i es
    → leaders es ≡ front ++ (x ∷ behind)
    → (x.1 == i) ≡ false
leader_differs i [] front behind x f e = absurd (no_item front behind x e)
leader_differs i ((y, false) ∷ es) front behind x (h, f) e = leader_differs i es front behind x f e
leader_differs i ((y, true) ∷ es) [] behind x (h, f) e =
    let same : y ≡ x = same_first y x (leaders es) behind e in
    ap (λ (z : Item). z.1 == i) (sym same) ∙ h
leader_differs i ((y, true) ∷ es) (z ∷ front) behind x (h, f) e =
    leader_differs i es front behind x f (same_rest y z (leaders es) (front ++ (x ∷ behind)) e)

pub flip : (i j : ℕ) → (i == j) ≡ false → (j == i) ≡ false
flip i j h = ground (arith, h)

-- A leader goes in front of the leader `x`, and the list has one node more.
pub leaders-insert_before :
    (es : List Entry) (front behind : List Item) (x new : Item)
    → Distinct es
    → leaders es ≡ front ++ (x ∷ behind)
    → (leaders (insert_before (x.1) (new, true) es) ≡ front ++ (new ∷ x ∷ behind))
      × (length (insert_before (x.1) (new, true) es) ≡ length es + 1)
leaders-insert_before [] front behind x new d e = absurd (no_item front behind x e)
leaders-insert_before ((y, false) ∷ es) front behind x new (f, d) e =
    let other : (y.1 == x.1) ≡ false =
      flip (x.1) (y.1) (leader_differs (y.1) es front behind x f e) in
    let (done, longer) = leaders-insert_before es front behind x new d e in
    rw other (done, ap suc longer ∙ omega arith)
leaders-insert_before ((y, true) ∷ es) [] behind x new (f, d) e =
    let same : y ≡ x = same_first y x (leaders es) behind e in
    let here : (y.1 == x.1) ≡ true = ap (λ (z : Item). y.1 == z.1) (sym same) ∙ ground arith in
    rw here (ap (λ l. new ∷ l) e, omega arith)
leaders-insert_before ((y, true) ∷ es) (z ∷ front) behind x new (f, d) e =
    let e' : leaders es ≡ front ++ (x ∷ behind) =
      same_rest y z (leaders es) (front ++ (x ∷ behind)) e in
    let other : (y.1 == x.1) ≡ false =
      flip (x.1) (y.1) (leader_differs (y.1) es front behind x f e') in
    let (done, longer) = leaders-insert_before es front behind x new d e' in
    let first : y ≡ z = same_first y z (leaders es) (front ++ (x ∷ behind)) e in
    rw other (
      ap (λ l. y ∷ l) done ∙ ap (λ (w : Item). w ∷ (front ++ (new ∷ x ∷ behind))) first,
      ap suc longer ∙ omega arith,
    )

leaders-behind_group :
    (es : List Entry) (new : Item) → leaders (behind_group (new, true) es) ≡ new ∷ leaders es
leaders-behind_group [] new = refl
leaders-behind_group ((y, true) ∷ es) new = refl
leaders-behind_group ((y, false) ∷ es) new = leaders-behind_group es new

pub length-behind_group :
    (es : List Entry) (new : Entry) → length (behind_group new es) ≡ length es + 1
length-behind_group [] new = omega arith
length-behind_group ((y, true) ∷ es) new = omega arith
length-behind_group ((y, false) ∷ es) new = omega (arith, length-behind_group es new)

-- A leader goes behind the nodes of the leader `x`, and the list has one node more.
pub leaders-insert_behind :
    (es : List Entry) (front behind : List Item) (x new : Item)
    → Distinct es
    → leaders es ≡ front ++ (x ∷ behind)
    → (leaders (insert_behind (x.1) (new, true) es) ≡ front ++ (x ∷ new ∷ behind))
      × (length (insert_behind (x.1) (new, true) es) ≡ length es + 1)
leaders-insert_behind [] front behind x new d e = absurd (no_item front behind x e)
leaders-insert_behind ((y, false) ∷ es) front behind x new (f, d) e =
    let other : (y.1 == x.1) ≡ false =
      flip (x.1) (y.1) (leader_differs (y.1) es front behind x f e) in
    let (done, longer) = leaders-insert_behind es front behind x new d e in
    rw other (done, ap suc longer ∙ omega arith)
leaders-insert_behind ((y, true) ∷ es) [] behind x new (f, d) e =
    let same : y ≡ x = same_first y x (leaders es) behind e in
    let here : (y.1 == x.1) ≡ true = ap (λ (z : Item). y.1 == z.1) (sym same) ∙ ground arith in
    rw here (
      ap (λ l. y ∷ l) (leaders-behind_group es new)
          ∙ ap (λ (w : Item). w ∷ new ∷ leaders es) same
          ∙ ap (λ l. x ∷ new ∷ l) (same_rest y x (leaders es) behind e),
      omega (arith, length-behind_group es (new, true)),
    )
leaders-insert_behind ((y, true) ∷ es) (z ∷ front) behind x new (f, d) e =
    let e' : leaders es ≡ front ++ (x ∷ behind) =
      same_rest y z (leaders es) (front ++ (x ∷ behind)) e in
    let other : (y.1 == x.1) ≡ false =
      flip (x.1) (y.1) (leader_differs (y.1) es front behind x f e') in
    let (done, longer) = leaders-insert_behind es front behind x new d e' in
    let first : y ≡ z = same_first y z (leaders es) (front ++ (x ∷ behind)) e in
    rw other (
      ap (λ l. y ∷ l) done ∙ ap (λ (w : Item). w ∷ (front ++ (x ∷ new ∷ behind))) first,
      ap suc longer ∙ omega arith,
    )
