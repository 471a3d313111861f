-- ===== src/Spf/Invariant.antt =====
-- What the rounds of the shortest path calculation of src/olsr_spf.c keep.
use olsrd_hybrid_plc.Prelude.{
  mem, ℕ, ◌+◌, ◌≤◌, ◌<◌, ◌≡◌, ◌⊎◌, sym, ap, ◌∙◌, Bool, true, Bool-cases, inl, inr, none, some, List,
  arith, ltb, ◌==◌, if◌then◌else◌,
}
use olsrd_hybrid_plc.Spf.{SpfEdge, Spf, route_cost_broken, del_if_candidate}
use olsrd_hybrid_plc.Spf.Candidates.{
  key_of, Single, From, Ascending, TakenOut, del_cand_tree-TakenOut,
}
use olsrd_hybrid_plc.Spf.Graph.{Graph, Has, Leads, Walk, cost_at, edges_at, known}

-- `vertices` says which entries there are; no cost but that of an entry without a path is above `b`.
pub record Inv (g : Graph) (root : ℕ) (vertices : ℕ → Bool) (b : ℕ) (s : Spf) : Type 0 where
  pub graph : (v : ℕ) → edges_at (s.tcs) v ≡ g v
  pub there : (v : ℕ) → known (s.tcs) v ≡ vertices v
  pub single : Single (s.cand_tree)
  pub ascending : Ascending (s.cand_tree)
  pub keys :
      (v k : ℕ)
      → key_of v (s.cand_tree) ≡ some k
      → (cost_at (s.tcs) v ≡ k) × (k < route_cost_broken)
  pub held :
      (v : ℕ)
      → cost_at (s.tcs) v < route_cost_broken
      → (mem v (s.path_list) ≡ true) ⊎ ((k : ℕ) × (key_of v (s.cand_tree) ≡ some k))
  pub apart : (v : ℕ) → mem v (s.path_list) ≡ true → key_of v (s.cand_tree) ≡ none
  pub low : (v : ℕ) → mem v (s.path_list) ≡ true → From (cost_at (s.tcs) v) (s.cand_tree)
  pub relaxed :
      (u v : ℕ) (e : SpfEdge)
      → mem u (s.path_list) ≡ true
      → Has e (g u)
      → Leads e v
      → cost_at (s.tcs) v ≤ cost_at (s.tcs) u + e.cost
  pub sound : (v : ℕ) → cost_at (s.tcs) v < route_cost_broken → Walk g root v (cost_at (s.tcs) v)
  pub named : (v : ℕ) → mem v (s.path_list) ≡ true → vertices v ≡ true
  pub source : cost_at (s.tcs) root ≡ 0
  pub capped : (v : ℕ) → cost_at (s.tcs) v ≤ route_cost_broken
  pub bound : (v : ℕ) → cost_at (s.tcs) v < route_cost_broken → cost_at (s.tcs) v ≤ b

-- During a round: `u` is the candidate of the least cost `d`.
pub record Exploring (u d : ℕ) (s : Spf) : Type 0 where
  pub current : key_of u (s.cand_tree) ≡ some d
  pub floor : From d (s.cand_tree)

-- Nothing became dearer, and the path list is the same.
pub record Improved (s s' : Spf) : Type 0 where
  pub cheaper : (w : ℕ) → cost_at (s'.tcs) w ≤ cost_at (s.tcs) w
  pub same_paths : s'.path_list ≡ s.path_list

-- The candidate tree without an entry that is about to be improved.
pub del_if_candidate-TakenOut :
    (cost a : ℕ) (tree : List (ℕ × ℕ))
    → Single tree
    → Ascending tree
    → (cost < route_cost_broken → (k : ℕ) × (key_of a tree ≡ some k))
    → (((cost < route_cost_broken) → ⊥) → key_of a tree ≡ none)
    → TakenOut a tree (del_if_candidate cost a tree)
del_if_candidate-TakenOut cost a tree s asc found missing =
    elim (Bool-cases (ltb cost route_cost_broken)) [
      | inl lt ↦
          let (k, e) = found (ground (arith, lt)) in rw lt (del_cand_tree-TakenOut a k tree e s asc)
      | inr ge ↦
          let e : key_of a tree ≡ none = missing (λ h. ground (arith, ge, h)) in
          rw ge ((λ w. unchanged e w), s, asc, (λ d h. h))
    ]
  where
    unchanged :
        key_of a tree ≡ none → (w : ℕ) → key_of w tree ≡ (if a == w then none else key_of w tree)
    unchanged e w = elim (Bool-cases (a == w)) [
      | inl t ↦
          let here : a ≡ w = ground (arith, t) in rw t (ap (λ x. key_of x tree) (sym here) ∙ e)
      | inr t ↦ rw t
    ]
