-- ===== src/Spf/Relaxed.antt =====
-- The exploration of an edge by olsr_spf_relax of src/olsr_spf.c keeps the invariant.
use olsrd_hybrid_plc.Prelude.{
  mem, ℕ, ◌≤◌, ◌<◌, ◌≡◌, ◌⊎◌, refl, sym, subst, ap, ◌∙◌, Bool, true, false, Bool-cases, inl, inr,
  none, some, List, arith, ◌==◌, if◌then◌else◌, find, put,
}
use olsrd_hybrid_plc.Spf.{Vertex, Spf, route_cost_broken, add_cand_tree, better}
use olsrd_hybrid_plc.Spf.Candidates.{
  key_of, Single, From, Ascending, From-key_of, key_of-add_cand_tree, From-add_cand_tree,
  add_cand_tree-Ascending, add_cand_tree-Single,
}
use olsrd_hybrid_plc.Spf.Graph.{
  Graph, Walk, cost_of, cost_at, edges_of, is_some, cost_at-put, edges_at-put, known-put,
}
use olsrd_hybrid_plc.Spf.Invariant.{Inv, Exploring}

-- What the two tests of an address give.
pub same_of : (a w : ℕ) → (a == w) ≡ true → a ≡ w
same_of a w t = ground (arith, t)

module _ (g : Graph) (root : ℕ) (vertices : ℕ → Bool) (b u d : ℕ) where
  module _ (s : Spf) (h : Inv g root vertices b s) (x : Exploring u d s) where
    -- An entry with a path is not dearer than the current one.
    settled_low : (w : ℕ) → mem w (s.path_list) ≡ true → cost_at (s.tcs) w ≤ d
    settled_low w m = From-key_of (cost_at (s.tcs) w) u d (s.cand_tree) (h.low w m) (x.current)

    pub dearer_unsettled : (a : ℕ) → d < cost_at (s.tcs) a → mem a (s.path_list) ≡ false
    dearer_unsettled a lt = elim (Bool-cases (mem a (s.path_list))) [
      | inl m ↦ let le : cost_at (s.tcs) a ≤ d = settled_low a m in absurd (omega (arith, lt, le))
      | inr m ↦ m
    ]

    module _ (tc m : Vertex) (a new : ℕ) (tree : List (ℕ × ℕ)) (known_a : find a (s.tcs) ≡ some m)
        (above : d ≤ new) (below : new ≤ b) (limit : b < route_cost_broken)
        (gain : new < m.path_cost) (walk : Walk g root a new)
        (keys_left : (w : ℕ)
          → key_of w tree ≡ (if a == w then none else key_of w (s.cand_tree))) where
      after : Spf
      after = record {
        tcs = put a (better tc new m) (s.tcs);
        cand_tree = add_cand_tree new a tree;
        path_list = s.path_list;
      }

      pub cost_a : cost_at (s.tcs) a ≡ m.path_cost
      cost_a = ap cost_of known_a

      pub unsettled : mem a (s.path_list) ≡ false
      unsettled = dearer_unsettled a (omega (arith, cost_a, gain, above))

      pub cost_here : (w : ℕ) → (a == w) ≡ true → cost_at (put a (better tc new m) (s.tcs)) w ≡ new
      cost_here w t = cost_at-put a w (better tc new m) (s.tcs) ∙ (rw t refl)

      cost_other :
          (w : ℕ)
          → (a == w) ≡ false
          → cost_at (put a (better tc new m) (s.tcs)) w ≡ cost_at (s.tcs) w
      cost_other w t = cost_at-put a w (better tc new m) (s.tcs) ∙ (rw t refl)

      left_a : key_of a tree ≡ none
      left_a = let self : (a == a) ≡ true = ground arith in keys_left a ∙ (rw self refl)

      key_here : (w : ℕ) → (a == w) ≡ true → key_of w (add_cand_tree new a tree) ≡ some new
      key_here w t = key_of-add_cand_tree new a w tree left_a ∙ (rw t refl)

      pub key_other :
          (w : ℕ) → (a == w) ≡ false → key_of w (add_cand_tree new a tree) ≡ key_of w (s.cand_tree)
      key_other w t = key_of-add_cand_tree new a w tree left_a ∙ (rw t (keys_left w ∙ (rw t refl)))

      settled_other : (w : ℕ) → mem w (s.path_list) ≡ true → (a == w) ≡ false
      settled_other w in_list = elim (Bool-cases (a == w)) [
        | inl t ↦ absurd (
            ground (arith, sym unsettled ∙ ap (λ v. mem v (s.path_list)) (same_of a w t) ∙ in_list))
        | inr t ↦ t
      ]

      pub cheaper_lem : (w : ℕ) → cost_at (put a (better tc new m) (s.tcs)) w ≤ cost_at (s.tcs) w
      cheaper_lem w = elim (Bool-cases (a == w)) [
        | inl t ↦
            let here : cost_at (s.tcs) w ≡ m.path_cost =
              ap (λ v. cost_at (s.tcs) v) (sym (same_of a w t)) ∙ cost_a in
            omega (arith, cost_here w t, here, gain)
        | inr t ↦ omega (arith, cost_other w t)
      ]

      pub improved-Inv :
          Single tree
          → Ascending tree
          → ((k : ℕ) → From k (s.cand_tree) → From k tree)
          → Inv g root vertices b (record {
            tcs = put a (better tc new m) (s.tcs);
            cand_tree = add_cand_tree new a tree;
            path_list = s.path_list;
          })
      improved-Inv single ascending from = record {
        graph = λ v. edges_at-put a v (better tc new m) (s.tcs) (ap edges_of known_a) ∙ h.graph v;
        there = λ v. known-put a v (better tc new m) (s.tcs) (ap is_some known_a) ∙ h.there v;
        single = add_cand_tree-Single new a tree left_a single;
        ascending = add_cand_tree-Ascending new a tree ascending;
        keys = keys';
        held = held';
        apart = λ w in_list. key_other w (settled_other w in_list) ∙ h.apart w in_list;
        low = λ w in_list.
            subst (λ c. From c (add_cand_tree new a tree))
              (sym (cost_other w (settled_other w in_list)))
              (From-add_cand_tree (cost_at (s.tcs) w) new a tree
                (omega (arith, settled_low w in_list, above))
                (from (cost_at (s.tcs) w) (h.low w in_list)));
        relaxed = λ v w e in_list has leads. omega (
          arith,
          cheaper_lem w,
          h.relaxed v w e in_list has leads,
          cost_other v (settled_other v in_list),
        );
        sound = sound';
        named = h.named;
        source = omega (arith, cheaper_lem root, h.source);
        capped = λ w. omega (arith, cheaper_lem w, h.capped w);
        bound = λ w lt. bound' w lt;
      }
        where
          keys' :
              (w k : ℕ)
              → key_of w (add_cand_tree new a tree) ≡ some k
              → (cost_at (put a (better tc new m) (s.tcs)) w ≡ k) × (k < route_cost_broken)
          keys' w k e = elim (Bool-cases (a == w)) [
            | inl t ↦
                let same : new ≡ k = ground (arith, sym (key_here w t) ∙ e) in
                (cost_here w t ∙ same, omega (arith, same, below, limit))
            | inr t ↦ let (c, lt) = h.keys w k (sym (key_other w t) ∙ e) in (cost_other w t ∙ c, lt)
          ]

          held' :
              (w : ℕ)
              → cost_at (put a (better tc new m) (s.tcs)) w < route_cost_broken
              → (mem w (s.path_list) ≡ true)
                ⊎ ((k : ℕ) × (key_of w (add_cand_tree new a tree) ≡ some k))
          held' w lt = elim (Bool-cases (a == w)) [
            | inl t ↦ inr (new, key_here w t)
            | inr t ↦ elim (h.held w (omega (arith, lt, cost_other w t))) [
              | inl settled ↦ inl settled
              | inr (k, e) ↦ inr (k, key_other w t ∙ e)
            ]
          ]

          sound' :
              (w : ℕ)
              → cost_at (put a (better tc new m) (s.tcs)) w < route_cost_broken
              → Walk g root w (cost_at (put a (better tc new m) (s.tcs)) w)
          sound' w lt = elim (Bool-cases (a == w)) [
            | inl t ↦
                subst (λ c. Walk g root w c) (sym (cost_here w t))
                  (subst (λ v. Walk g root v new) (same_of a w t) walk)
            | inr t ↦
                subst (λ c. Walk g root w c) (sym (cost_other w t))
                  (h.sound w (omega (arith, lt, cost_other w t)))
          ]

          bound' :
              (w : ℕ)
              → cost_at (put a (better tc new m) (s.tcs)) w < route_cost_broken
              → cost_at (put a (better tc new m) (s.tcs)) w ≤ b
          bound' w lt = elim (Bool-cases (a == w)) [
            | inl t ↦ omega (arith, cost_here w t, below)
            | inr t ↦ omega (arith, cost_other w t, h.bound w (omega (arith, lt, cost_other w t)))
          ]
