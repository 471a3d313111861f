-- ===== src/Spf/Candidates.antt =====
-- The candidate tree of src/olsr_spf.c: which entries it holds, with which costs, and in which order.
use olsrd_hybrid_plc.Prelude.{
  All, ℕ, ◌≤◌, ◌≡◌, refl, sym, ap, ◌∙◌, false, Bool-cases, inl, inr, Option, none, some, List, [],
  ◌∷◌, arith, ltb, ◌==◌, if◌then◌else◌,
}
use olsrd_hybrid_plc.Spf.{add_cand_tree, del_cand_tree}

-- The cost under which an entry is a candidate.
abbrev pub key_of : ℕ → List (ℕ × ℕ) → Option ℕ
key_of v [] = none
key_of v ((k, a) ∷ tree) = if a == v then some k else key_of v tree

-- An entry is a candidate once at most.
abbrev pub Single : List (ℕ × ℕ) → Type 0
Single [] = Unit {0}
Single ((k, a) ∷ tree) = (key_of a tree ≡ none) × Single tree

abbrev pub From : ℕ → List (ℕ × ℕ) → Type 0
From d tree = All (λ (c : ℕ × ℕ). d ≤ c.0) tree

-- The costs do not decrease.
abbrev pub Ascending : List (ℕ × ℕ) → Type 0
Ascending [] = Unit {0}
Ascending ((k, a) ∷ tree) = From k tree × Ascending tree

From-trans : (d k : ℕ) (tree : List (ℕ × ℕ)) → d ≤ k → From k tree → From d tree
From-trans d k [] h f = tt
From-trans d k ((j, a) ∷ tree) h (g, f) = (omega (arith, h, g), From-trans d k tree h f)

pub From-key_of : (d v k : ℕ) (tree : List (ℕ × ℕ)) → From d tree → key_of v tree ≡ some k → d ≤ k
From-key_of d v k [] f e = absurd (ground (arith, e))
From-key_of d v k ((j, a) ∷ tree) (g, f) e = elim (Bool-cases (a == v)) [
  | inl t ↦ let same : j ≡ k = ground (arith, rw t at e) in omega (arith, g, same)
  | inr t ↦ From-key_of d v k tree f (rw t at e)
]

pub key_of-add_cand_tree :
    (cost v w : ℕ) (tree : List (ℕ × ℕ))
    → key_of v tree ≡ none
    → key_of w (add_cand_tree cost v tree) ≡ (if v == w then some cost else key_of w tree)
key_of-add_cand_tree cost v w [] e = refl
key_of-add_cand_tree cost v w ((k, a) ∷ tree) e = elim (Bool-cases (a == v)) [
  | inl t ↦ absurd (ground (arith, rw t at e))
  | inr t ↦
      let ih : key_of w (add_cand_tree cost v tree)
          ≡ (if v == w then some cost else key_of w tree) =
        key_of-add_cand_tree cost v w tree (rw t at e) in
      elim (Bool-cases (ltb cost k)) [
        | inl lt ↦ rw lt refl
        | inr ge ↦ rw ge (elim (Bool-cases (a == w)) [
          | inl here ↦ let other : (v == w) ≡ false = ground (arith, t, here) in rw (here, other)
          | inr there ↦ rw there ih
        ])
      ]
]

pub From-add_cand_tree :
    (d cost v : ℕ) (tree : List (ℕ × ℕ))
    → d ≤ cost
    → From d tree
    → From d (add_cand_tree cost v tree)
From-add_cand_tree d cost v [] h f = (h, tt)
From-add_cand_tree d cost v ((k, a) ∷ tree) h (g, f) = elim (Bool-cases (ltb cost k)) [
  | inl lt ↦ rw lt (h, (g, f))
  | inr ge ↦ rw ge (g, From-add_cand_tree d cost v tree h f)
]

pub add_cand_tree-Ascending :
    (cost v : ℕ) (tree : List (ℕ × ℕ)) → Ascending tree → Ascending (add_cand_tree cost v tree)
add_cand_tree-Ascending cost v [] a = (tt, tt)
add_cand_tree-Ascending cost v ((k, b) ∷ tree) (f, a) = elim (Bool-cases (ltb cost k)) [
  | inl lt ↦ rw lt ((ground arith, From-trans cost k tree (ground arith) f), (f, a))
  | inr ge ↦
      rw ge
        (From-add_cand_tree k cost v tree (ground arith) f, add_cand_tree-Ascending cost v tree a)
]

pub add_cand_tree-Single :
    (cost v : ℕ) (tree : List (ℕ × ℕ))
    → key_of v tree ≡ none
    → Single tree
    → Single (add_cand_tree cost v tree)
add_cand_tree-Single cost v [] e s = (refl, tt)
add_cand_tree-Single cost v ((k, a) ∷ tree) e (f, s) = elim (Bool-cases (a == v)) [
  | inl t ↦ absurd (ground (arith, rw t at e))
  | inr t ↦
      let e' : key_of v tree ≡ none = rw t at e in
      elim (Bool-cases (ltb cost k)) [
        | inl lt ↦ rw lt (rw t e', (f, s))
        | inr ge ↦
            let other : (v == a) ≡ false = ground (arith, t) in
            rw ge (
              key_of-add_cand_tree cost v a tree e' ∙ (rw other f),
              add_cand_tree-Single cost v tree e' s,
            )
      ]
]

-- A candidate is taken out: nothing else changes.
abbrev pub TakenOut : ℕ → List (ℕ × ℕ) → Option (List (ℕ × ℕ)) → Type 0
TakenOut v tree none = ⊥
TakenOut v tree (some rest) =
    ((w : ℕ) → key_of w rest ≡ (if v == w then none else key_of w tree))
    × Single rest
    × Ascending rest
    × ((d : ℕ) → From d tree → From d rest)

taken_here :
    (v k a : ℕ) (tree : List (ℕ × ℕ)) (w : ℕ)
    → a ≡ v
    → key_of a tree ≡ none
    → key_of w tree ≡ (if v == w then none else if a == w then some k else key_of w tree)
taken_here v k a tree w same missing = elim (Bool-cases (v == w)) [
  | inl t ↦
      let here : a ≡ w = ground (arith, same, t) in
      rw t (ap (λ x. key_of x tree) (sym here) ∙ missing)
  | inr t ↦ let other : (a == w) ≡ false = ground (arith, same, t) in rw (t, other)
]

taken_there :
    (v k a : ℕ) (tree : List (ℕ × ℕ)) (o : Option (List (ℕ × ℕ)))
    → (a == v) ≡ false
    → key_of a tree ≡ none
    → Single tree
    → From k tree
    → TakenOut v tree o
    → TakenOut v
        ((k, a) ∷ tree)
        (elim o as (λ o. Option (List (ℕ × ℕ))) [ none ↦ none | some rest ↦ some ((k, a) ∷ rest) ])
taken_there v k a tree none other missing s f out = elim out [ ]
taken_there v k a tree (some rest) other missing s f (keys, s', asc, low) =
    let other' : (v == a) ≡ false = ground (arith, other) in
    ((λ w. step w), (keys a ∙ (rw other' missing), s'), (low k f, asc), (λ d g. (g.0, low d (g.1))))
  where
    step : (w : ℕ) → key_of w ((k, a) ∷ rest) ≡ (if v == w then none else key_of w ((k, a) ∷ tree))
    step w = elim (Bool-cases (a == w)) [
      | inl here ↦ let apart : (v == w) ≡ false = ground (arith, other, here) in rw (here, apart)
      | inr there ↦ rw there (keys w)
    ]

pub del_cand_tree-TakenOut :
    (v k : ℕ) (tree : List (ℕ × ℕ))
    → key_of v tree ≡ some k
    → Single tree
    → Ascending tree
    → TakenOut v tree (del_cand_tree v tree)
del_cand_tree-TakenOut v k [] e s asc = absurd (ground (arith, e))
del_cand_tree-TakenOut v k ((j, a) ∷ tree) e (f, s) (g, asc) = elim (Bool-cases (a == v)) [
  | inl t ↦
      let same : a ≡ v = ground (arith, t) in
      rw (t, del_cand_tree) ((λ w. taken_here v j a tree w same f), s, asc, (λ d h. h.1))
  | inr t ↦
      rw (t, del_cand_tree)
        (taken_there v j a tree (del_cand_tree v tree) t f s g
          (del_cand_tree-TakenOut v k tree (rw t at e) s asc))
]
