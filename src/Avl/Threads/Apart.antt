-- ===== src/Avl/Threads/Apart.antt =====
-- A new node keeps the identities in the list of src/common/avl.c apart; a duplicate changes no leader.
use olsrd_hybrid_plc.Prelude.{
  ℕ, suc, ◌+◌, ◌≡◌, refl, sym, ap, ◌∙◌, Bool, true, false, Bool-cases, inl, inr, List, [], ◌∷◌,
  ◌++◌, arith, ◌==◌, length,
}
use olsrd_hybrid_plc.Avl.{Item}
use olsrd_hybrid_plc.Avl.Threads.{Entry, insert_before, behind_group, insert_behind}
use olsrd_hybrid_plc.Avl.Threads.Placed.{
  leaders, Fresh, Distinct, no_item, leader_differs, flip, same_rest, same_first,
  length-behind_group,
}

insert_before-Fresh :
    (i j : ℕ) (x : Item) (b : Bool) (es : List Entry)
    → (x.1 == i) ≡ false
    → Fresh i es
    → Fresh i (insert_before j (x, b) es)
insert_before-Fresh i j x b [] h f = tt
insert_before-Fresh i j x b ((y, c) ∷ es) h (g, f) = elim (Bool-cases (y.1 == j)) [
  | inl t ↦ rw t (h, (g, f))
  | inr t ↦ rw t (g, insert_before-Fresh i j x b es h f)
]

pub insert_before-Distinct :
    (j : ℕ) (x : Item) (b : Bool) (es : List Entry)
    → Fresh (x.1) es
    → Distinct es
    → Distinct (insert_before j (x, b) es)
insert_before-Distinct j x b [] f d = tt
insert_before-Distinct j x b ((y, c) ∷ es) (g, f) (k, d) = elim (Bool-cases (y.1 == j)) [
  | inl t ↦ rw t ((g, f), (k, d))
  | inr t ↦ rw t (
    insert_before-Fresh (y.1) j x b es (flip (y.1) (x.1) g) k,
    insert_before-Distinct j x b es f d,
  )
]

behind_group-Fresh :
    (i : ℕ) (x : Item) (b : Bool) (es : List Entry)
    → (x.1 == i) ≡ false
    → Fresh i es
    → Fresh i (behind_group (x, b) es)
behind_group-Fresh i x b [] h f = (h, tt)
behind_group-Fresh i x b ((y, true) ∷ es) h (g, f) = (h, (g, f))
behind_group-Fresh i x b ((y, false) ∷ es) h (g, f) = (g, behind_group-Fresh i x b es h f)

behind_group-Distinct :
    (x : Item) (b : Bool) (es : List Entry)
    → Fresh (x.1) es
    → Distinct es
    → Distinct (behind_group (x, b) es)
behind_group-Distinct x b [] f d = (tt, tt)
behind_group-Distinct x b ((y, true) ∷ es) f d = (f, d)
behind_group-Distinct x b ((y, false) ∷ es) (g, f) (k, d) =
    (behind_group-Fresh (y.1) x b es (flip (y.1) (x.1) g) k, behind_group-Distinct x b es f d)

insert_behind-Fresh :
    (i j : ℕ) (x : Item) (b : Bool) (es : List Entry)
    → (x.1 == i) ≡ false
    → Fresh i es
    → Fresh i (insert_behind j (x, b) es)
insert_behind-Fresh i j x b [] h f = tt
insert_behind-Fresh i j x b ((y, c) ∷ es) h (g, f) = elim (Bool-cases (y.1 == j)) [
  | inl t ↦ rw t (g, behind_group-Fresh i x b es h f)
  | inr t ↦ rw t (g, insert_behind-Fresh i j x b es h f)
]

pub insert_behind-Distinct :
    (j : ℕ) (x : Item) (b : Bool) (es : List Entry)
    → Fresh (x.1) es
    → Distinct es
    → Distinct (insert_behind j (x, b) es)
insert_behind-Distinct j x b [] f d = tt
insert_behind-Distinct j x b ((y, c) ∷ es) (g, f) (k, d) = elim (Bool-cases (y.1 == j)) [
  | inl t ↦
      rw t
        (behind_group-Fresh (y.1) x b es (flip (y.1) (x.1) g) k, behind_group-Distinct x b es f d)
  | inr t ↦ rw t (
    insert_behind-Fresh (y.1) j x b es (flip (y.1) (x.1) g) k,
    insert_behind-Distinct j x b es f d,
  )
]

leaders-duplicate_group :
    (es : List Entry) (new : Item) → leaders (behind_group (new, false) es) ≡ leaders es
leaders-duplicate_group [] new = refl
leaders-duplicate_group ((y, true) ∷ es) new = refl
leaders-duplicate_group ((y, false) ∷ es) new = leaders-duplicate_group es new

pub leaders-duplicate :
    (i : ℕ) (es : List Entry) (new : Item) → leaders (insert_behind i (new, false) es) ≡ leaders es
leaders-duplicate i [] new = refl
leaders-duplicate i ((y, b) ∷ es) new = elim (Bool-cases (y.1 == i)) [
  | inl t ↦ rw (t, leaders-duplicate_group es new)
  | inr t ↦ rw (t, leaders-duplicate i es new)
]

-- A node behind those of the leader `x` is one more.
pub length-insert_behind :
    (es : List Entry) (front behind : List Item) (x : Item) (new : Entry)
    → Distinct es
    → leaders es ≡ front ++ (x ∷ behind)
    → length (insert_behind (x.1) new es) ≡ length es + 1
length-insert_behind [] front behind x new d e = absurd (no_item front behind x e)
length-insert_behind ((y, false) ∷ es) front behind x new (f, d) e =
    let other : (y.1 == x.1) ≡ false =
      flip (x.1) (y.1) (leader_differs (y.1) es front behind x f e) in
    rw other (ap suc (length-insert_behind es front behind x new d e) ∙ omega arith)
length-insert_behind ((y, true) ∷ es) [] behind x new (f, d) e =
    let here : (y.1 == x.1) ≡ true =
      ap (λ (z : Item). y.1 == z.1) (sym (same_first y x (leaders es) behind e)) ∙ ground arith in
    rw here (omega (arith, length-behind_group es new))
length-insert_behind ((y, true) ∷ es) (z ∷ front) behind x new (f, d) e =
    let e' : leaders es ≡ front ++ (x ∷ behind) =
      same_rest y z (leaders es) (front ++ (x ∷ behind)) e in
    let other : (y.1 == x.1) ≡ false =
      flip (x.1) (y.1) (leader_differs (y.1) es front behind x f e') in
    rw other (ap suc (length-insert_behind es front behind x new d e') ∙ omega arith)

-- The first node of the list is a leader.
abbrev pub Headed : List Entry → Type 0
Headed [] = Unit {0}
Headed ((x, b) ∷ es) = b ≡ true

pub insert_before-Headed :
    (j : ℕ) (x : Item) (es : List Entry) → Headed es → Headed (insert_before j (x, true) es)
insert_before-Headed j x [] h = tt
insert_before-Headed j x ((y, c) ∷ es) h = elim (Bool-cases (y.1 == j)) [
  | inl t ↦ rw t refl
  | inr t ↦ rw t h
]

pub insert_behind-Headed :
    (j : ℕ) (x : Entry) (es : List Entry) → Headed es → Headed (insert_behind j x es)
insert_behind-Headed j x [] h = tt
insert_behind-Headed j x ((y, c) ∷ es) h = elim (Bool-cases (y.1 == j)) [
  | inl t ↦ rw t h
  | inr t ↦ rw t h
]

-- Without leaders there are no nodes.
pub no_leader_no_node : (es : List Entry) → Headed es → leaders es ≡ [] → length es ≡ 0
no_leader_no_node [] h e = refl
no_leader_no_node ((y, true) ∷ es) h e = absurd (ground (arith, e))
no_leader_no_node ((y, false) ∷ es) h e = absurd (ground (arith, h))
