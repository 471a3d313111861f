-- ===== src/Spf/Settled.antt =====
-- The end of a round of olsr_spf_run_full of src/olsr_spf.c: the entry gets its path.
use olsrd_hybrid_plc.Prelude.{
  find, mem, mem-snoc, ℕ, ◌+◌, ◌≤◌, ◌<◌, ◌≡◌, ◌⊎◌, refl, sym, subst, ap, ◌∙◌, Bool, true, false,
  Bool-cases, inl, inr, Option, none, some, List, [], ◌∷◌, ◌++◌, arith, ◌==◌,
}
use olsrd_hybrid_plc.Spf.{
  SpfEdge, Vertex, Spf, route_cost_broken, del_cand_tree, relax_edge, relax, settle,
}
use olsrd_hybrid_plc.Spf.Candidates.{key_of, From, TakenOut, del_cand_tree-TakenOut}
use olsrd_hybrid_plc.Spf.Graph.{Graph, Has, Leads, cost_of, cost_at, is_some}
use olsrd_hybrid_plc.Spf.Invariant.{Inv, Exploring, Improved}
use olsrd_hybrid_plc.Spf.Explored.{Explored, relax_edge-Explored}

mem-snoc_cases :
    (w u : ℕ) (list : List ℕ)
    → mem w (list ++ (u ∷ [])) ≡ true
    → (mem w list ≡ true) ⊎ (((mem w list) ≡ false) × ((u == w) ≡ true))
mem-snoc_cases w u list h = elim (Bool-cases (mem w list)) [
  | inl t ↦ inl t
  | inr t ↦ inr (t, rw t at (sym (mem-snoc w u list) ∙ h))
]

module _ (g : Graph) (root : ℕ) (vertices : ℕ → Bool) (b u d : ℕ) where
  -- After the exploration of some edges of `u`.
  abbrev pub AllExplored : Spf → List SpfEdge → Option Spf → Type 0
  AllExplored s es none = ⊥
  AllExplored s es (some s') =
      Inv g root vertices b s'
      × Exploring u d s'
      × Improved s s'
      × ((e : SpfEdge) (v : ℕ) → Has e es → Leads e v → cost_at (s'.tcs) v ≤ d + e.cost)

  pub relax-AllExplored :
      (es : List SpfEdge) (s : Spf)
      → Inv g root vertices b s
      → Exploring u d s
      → ((e : SpfEdge)
          → Has e es
          → Has e (g u) × (d + e.cost ≤ b) × ((v : ℕ) → Leads e v → vertices v ≡ true))
      → b < route_cost_broken
      → vertices u ≡ true
      → AllExplored s es (relax u es s)
  unfolding relax
  relax-AllExplored [] s h x allowed limit known_u = (
    h,
    x,
    record { cheaper = λ w. omega arith; same_paths = refl },
    (λ e v has leads. elim has [ ]),
  )
  relax-AllExplored (e ∷ es) s h x allowed limit known_u =
      let (has, room, closed) = allowed e (inl refl) in
      first (relax_edge u e s)
        (relax_edge-Explored g root vertices b u d s h x e has room limit known_u closed)
        (λ s' h' x'. relax-AllExplored es s' h' x' (λ e' has'. allowed e' (inr has')) limit known_u)
    where
      rest_lem :
          (s' : Spf)
          → Improved s s'
          → ((v : ℕ) → Leads e v → cost_at (s'.tcs) v ≤ d + e.cost)
          → (o : Option Spf) → AllExplored s' es o
          → AllExplored s (e ∷ es) o
      rest_lem s' i here none all = elim all [ ]
      rest_lem s' i here (some q) (h', x', i', all) = (
        h',
        x',
        record {
          cheaper = λ w. omega (arith, i.cheaper w, i'.cheaper w);
          same_paths = i'.same_paths ∙ i.same_paths;
        },
        explored,
      )
        where
          explored :
              (e' : SpfEdge) (v : ℕ)
              → Has e' (e ∷ es)
              → Leads e' v
              → cost_at (q.tcs) v ≤ d + e'.cost
          explored e' v (inl same) leads =
              let le : cost_at (s'.tcs) v ≤ d + e.cost =
                here v (subst (λ (z : SpfEdge). Leads z v) (sym same) leads) in
              let cost : e.cost ≡ e'.cost = ap (λ (z : SpfEdge). z.cost) same in
              omega (arith, le, cost, i'.cheaper v)
          explored e' v (inr has) leads = all e' v has leads

      first :
          (o : Option Spf)
          → Explored g root vertices b u d s h x e o
          → ((s' : Spf)
              → Inv g root vertices b s'
              → Exploring u d s'
              → AllExplored s' es (relax u es s'))
          → AllExplored s
              (e ∷ es)
              (elim o as (λ o. Option Spf) [ none ↦ none | some s' ↦ relax u es s' ])
      first none all more = elim all [ ]
      first (some s') (h', x', i, here) more = rest_lem s' i here (relax u es s') (more s' h' x')

  -- After the move to the path list.
  abbrev pub Settled : Spf → Option Spf → Type 0
  Settled s none = ⊥
  Settled s (some s') = Inv g root vertices b s' × (s'.path_list ≡ s.path_list ++ (u ∷ []))

  module _ (s : Spf) (h : Inv g root vertices b s) (x : Exploring u d s)
      (all : (e : SpfEdge) (v : ℕ) → Has e (g u) → Leads e v → cost_at (s.tcs) v ≤ d + e.cost) where
    cost_u : cost_at (s.tcs) u ≡ d
    cost_u = (h.keys u d (x.current)).0

    settled_lem :
        (o : Option (List (ℕ × ℕ)))
        → TakenOut u (s.cand_tree) o
        → Settled s (elim o as (λ o. Option Spf) [
          | none ↦ none
          | some tree ↦
              some (record { tcs = s.tcs; cand_tree = tree; path_list = s.path_list ++ (u ∷ []) })
        ])
    settled_lem none out = elim out [ ]
    settled_lem (some tree) (keys_left, single', ascending', from) = (
      record {
        graph = h.graph;
        there = h.there;
        single = single';
        ascending = ascending';
        keys = keys';
        held = held';
        apart = apart';
        low = low';
        relaxed = relaxed';
        sound = h.sound;
        named = named';
        source = h.source;
        capped = h.capped;
        bound = h.bound;
      },
      refl,
    )
      where
        known_u : vertices u ≡ true
        known_u = go (find u (s.tcs)) refl
          where
            go : (o : Option Vertex) → find u (s.tcs) ≡ o → vertices u ≡ true
            go none e =
                let c : cost_at (s.tcs) u ≡ route_cost_broken = ap cost_of e in
                absurd (omega (arith, c, h.keys u d (x.current)))
            go (some tc) e = sym (h.there u) ∙ ap is_some e

        named' : (w : ℕ) → mem w (s.path_list ++ (u ∷ [])) ≡ true → vertices w ≡ true
        named' w m = elim (mem-snoc_cases w u (s.path_list) m) [
          | inl in_list ↦ h.named w in_list
          | inr (_, t) ↦
              let here : u ≡ w = ground (arith, t) in subst (λ v. vertices v ≡ true) here known_u
        ]

        other_key : (w : ℕ) → (u == w) ≡ false → key_of w tree ≡ key_of w (s.cand_tree)
        other_key w t = keys_left w ∙ (rw t refl)

        keys' :
            (w k : ℕ) → key_of w tree ≡ some k → (cost_at (s.tcs) w ≡ k) × (k < route_cost_broken)
        keys' w k e = elim (Bool-cases (u == w)) [
          | inl t ↦ absurd (ground (arith, rw t at (sym (keys_left w) ∙ e)))
          | inr t ↦ h.keys w k (sym (other_key w t) ∙ e)
        ]

        held' :
            (w : ℕ)
            → cost_at (s.tcs) w < route_cost_broken
            → (mem w (s.path_list ++ (u ∷ [])) ≡ true) ⊎ ((k : ℕ) × (key_of w tree ≡ some k))
        held' w lt = elim (h.held w lt) [
          | inl in_list ↦ inl (mem-snoc w u (s.path_list) ∙ (rw in_list refl))
          | inr (k, e) ↦ elim (Bool-cases (u == w)) [
            | inl t ↦ inl (
                mem-snoc w u (s.path_list) ∙ elim (Bool-cases (mem w (s.path_list))) [
                  | inl m ↦ rw m refl
                  | inr m ↦ rw (m, t) refl
                ])
            | inr t ↦ inr (k, other_key w t ∙ e)
          ]
        ]

        apart' : (w : ℕ) → mem w (s.path_list ++ (u ∷ [])) ≡ true → key_of w tree ≡ none
        apart' w m = elim (Bool-cases (u == w)) [
          | inl t ↦ keys_left w ∙ (rw t refl)
          | inr t ↦ elim (mem-snoc_cases w u (s.path_list) m) [
            | inl in_list ↦ other_key w t ∙ h.apart w in_list
            | inr (_, t') ↦ absurd (ground (arith, sym t ∙ t'))
          ]
        ]

        low' : (w : ℕ) → mem w (s.path_list ++ (u ∷ [])) ≡ true → From (cost_at (s.tcs) w) tree
        low' w m = elim (mem-snoc_cases w u (s.path_list) m) [
          | inl in_list ↦ from (cost_at (s.tcs) w) (h.low w in_list)
          | inr (_, t) ↦
              let here : u ≡ w = ground (arith, t) in
              subst (λ v. From (cost_at (s.tcs) v) tree) here
                (subst (λ c. From c tree) (sym cost_u) (from d (x.floor)))
        ]

        relaxed' :
            (w v : ℕ) (e : SpfEdge)
            → mem w (s.path_list ++ (u ∷ [])) ≡ true
            → Has e (g w)
            → Leads e v
            → cost_at (s.tcs) v ≤ cost_at (s.tcs) w + e.cost
        relaxed' w v e m has leads = elim (mem-snoc_cases w u (s.path_list) m) [
          | inl in_list ↦ h.relaxed w v e in_list has leads
          | inr (_, t) ↦
              let here : u ≡ w = ground (arith, t) in
              let le : cost_at (s.tcs) v ≤ d + e.cost =
                all e v (subst (λ z. Has e (g z)) (sym here) has) leads in
              let same : cost_at (s.tcs) w ≡ d = ap (λ z. cost_at (s.tcs) z) (sym here) ∙ cost_u in
              omega (arith, le, same)
        ]

    pub settle-Settled : Settled s (settle u s)
    settle-Settled =
        settled_lem (del_cand_tree u (s.cand_tree))
          (del_cand_tree-TakenOut u d (s.cand_tree) (x.current) (h.single) (h.ascending))
