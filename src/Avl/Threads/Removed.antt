-- ===== src/Avl/Threads/Removed.antt =====
-- The list through the nodes of a tree of src/common/avl.c after avl_delete.
use olsrd_hybrid_plc.Prelude.{
  ℕ, suc, ◌≡◌, refl, sym, subst, ap, ◌∙◌, true, false, Bool-cases, inl, inr, Option, none, some,
  List, [], ◌∷◌, ◌++◌, arith, ◌==◌, length,
}
use olsrd_hybrid_plc.Avl.{Item}
use olsrd_hybrid_plc.Avl.Threads.{
  Entry, avl_remove, duplicate_in_front, duplicate_behind, make_leader,
}
use olsrd_hybrid_plc.Avl.Threads.Placed.{
  leaders, Fresh, Distinct, no_item, leader_differs, flip, same_first, same_rest,
}

-- A list with these leaders that lost one node.
abbrev pub Lost : List Item → List Entry → List Entry → Type 0
Lost items es es' = (leaders es' ≡ items) × (length es ≡ suc (length es'))

-- A leader without duplicates is taken out.
pub removed_alone :
    (es : List Entry) (front behind : List Item) (x : Item)
    → Distinct es
    → leaders es ≡ front ++ (x ∷ behind)
    → Lost (front ++ behind) es (avl_remove (x.1) es)
removed_alone [] front behind x d e = absurd (no_item front behind x e)
removed_alone ((y, false) ∷ es) front behind x (f, d) e =
    let other : (y.1 == x.1) ≡ false =
      flip (x.1) (y.1) (leader_differs (y.1) es front behind x f e) in
    let (done, shorter) = removed_alone es front behind x d e in rw other (done, ap suc shorter)
removed_alone ((y, true) ∷ es) [] behind x (f, d) e =
    let here : (y.1 == x.1) ≡ true =
      ap (λ (z : Item). y.1 == z.1) (sym (same_first y x (leaders es) behind e)) ∙ ground arith in
    rw here (same_rest y x (leaders es) behind e, refl)
removed_alone ((y, true) ∷ es) (z ∷ front) behind x (f, d) e =
    let e' : leaders es ≡ front ++ (x ∷ behind) =
      same_rest y z (leaders es) (front ++ (x ∷ behind)) e in
    let other : (y.1 == x.1) ≡ false =
      flip (x.1) (y.1) (leader_differs (y.1) es front behind x f e') in
    let (done, shorter) = removed_alone es front behind x d e' in
    let first : y ≡ z = same_first y z (leaders es) (front ++ (x ∷ behind)) e in
    rw other (ap (λ l. y ∷ l) done ∙ ap (λ (w : Item). w ∷ (front ++ behind)) first, ap suc shorter)

-- The node behind a leader has no fresh identity.
in_front_differs :
    (j : ℕ) (es : List Entry) (next : Item)
    → Fresh j es
    → duplicate_in_front es ≡ some next
    → (next.1 == j) ≡ false
in_front_differs j [] next f e = absurd (ground (arith, e))
in_front_differs j ((y, true) ∷ es) next f e = absurd (ground (arith, e))
in_front_differs j ((y, false) ∷ es) next (h, f) e =
    ap (λ (o : Option Item). elim o [ none ↦ false | some z ↦ z.1 == j ]) (sym e) ∙ h

duplicate_differs :
    (i j : ℕ) (es : List Entry) (next : Item)
    → Fresh j es
    → duplicate_behind i es ≡ some next
    → (next.1 == j) ≡ false
duplicate_differs i j [] next f e = absurd (ground (arith, e))
duplicate_differs i j ((y, b) ∷ es) next (h, f) e = elim (Bool-cases (y.1 == i)) [
  | inl t ↦ in_front_differs j es next f (rw t at e)
  | inr t ↦ duplicate_differs i j es next f (rw t at e)
]

-- The duplicate behind a leader takes its place.
promoted_here :
    (y next : Item) (es : List Entry)
    → Fresh (y.1) es
    → duplicate_in_front es ≡ some next
    → Lost
        (next ∷ leaders es)
        ((y, true) ∷ es)
        (avl_remove (y.1) (make_leader (next.1) ((y, true) ∷ es)))
promoted_here y next [] f e = absurd (ground (arith, e))
promoted_here y next ((z, true) ∷ es) f e = absurd (ground (arith, e))
promoted_here y next ((z, false) ∷ es) (h, f) e =
    let same : z ≡ next = ap (λ (o : Option Item). elim o [ none ↦ z | some w ↦ w ]) e in
    let other : (y.1 == next.1) ≡ false =
      flip (next.1) (y.1) (ap (λ (w : Item). w.1 == y.1) (sym same) ∙ h) in
    let here : (z.1 == next.1) ≡ true = ap (λ (w : Item). z.1 == w.1) (sym same) ∙ ground arith in
    let self : (y.1 == y.1) ≡ true = ground arith in
    rw (other, here, self) (ap (λ (w : Item). w ∷ leaders es) same, refl)

pub promoted :
    (es : List Entry) (front behind : List Item) (x next : Item)
    → Distinct es
    → leaders es ≡ front ++ (x ∷ behind)
    → duplicate_behind (x.1) es ≡ some next
    → Lost (front ++ (next ∷ behind)) es (avl_remove (x.1) (make_leader (next.1) es))
promoted [] front behind x next d e g = absurd (no_item front behind x e)
promoted ((y, false) ∷ es) front behind x next (f, d) e g =
    let other : (y.1 == x.1) ≡ false =
      flip (x.1) (y.1) (leader_differs (y.1) es front behind x f e) in
    let g' : duplicate_behind (x.1) es ≡ some next = rw other at g in
    let apart : (y.1 == next.1) ≡ false =
      flip (next.1) (y.1) (duplicate_differs (x.1) (y.1) es next f g') in
    let (done, shorter) = promoted es front behind x next d e g' in
    rw (apart, other) (done, ap suc shorter)
promoted ((y, true) ∷ es) [] behind x next (f, d) e g =
    let same : y ≡ x = same_first y x (leaders es) behind e in
    let here : (y.1 == x.1) ≡ true = ap (λ (z : Item). y.1 == z.1) (sym same) ∙ ground arith in
    let g' : duplicate_in_front es ≡ some next = rw here at g in
    let (done, shorter) = promoted_here y next es f g' in
    subst
      (λ (z : Item).
        Lost (next ∷ behind) ((y, true) ∷ es)
          (avl_remove (z.1) (make_leader (next.1) ((y, true) ∷ es))))
      same (done ∙ ap (λ l. next ∷ l) (same_rest y x (leaders es) behind e), shorter)
promoted ((y, true) ∷ es) (z ∷ front) behind x next (f, d) e g =
    let e' : leaders es ≡ front ++ (x ∷ behind) =
      same_rest y z (leaders es) (front ++ (x ∷ behind)) e in
    let other : (y.1 == x.1) ≡ false =
      flip (x.1) (y.1) (leader_differs (y.1) es front behind x f e') in
    let g' : duplicate_behind (x.1) es ≡ some next = rw other at g in
    let apart : (y.1 == next.1) ≡ false =
      flip (next.1) (y.1) (duplicate_differs (x.1) (y.1) es next f g') in
    let (done, shorter) = promoted es front behind x next d e' g' in
    let first : y ≡ z = same_first y z (leaders es) (front ++ (x ∷ behind)) e in
    rw (apart, other)
      (
        ap (λ l. y ∷ l) done ∙ ap (λ (w : Item). w ∷ (front ++ (next ∷ behind))) first,
        ap suc shorter,
      )
