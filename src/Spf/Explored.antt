-- ===== src/Spf/Explored.antt =====
-- The exploration of the edges of an entry by olsr_spf_relax of src/olsr_spf.c.
use olsrd_hybrid_plc.Prelude.{
  ℕ, ◌+◌, ◌%◌, ◌^◌, ◌≤◌, ◌<◌, ◌≡◌, refl, sym, subst, ap, ◌∙◌, Bool, true, false, Bool-cases, inl,
  inr, Option, none, some, Option-cases, List, arith, ltb, ◌==◌, if◌then◌else◌, find, put,
}
use olsrd_hybrid_plc.Spf.{
  SpfEdge, Vertex, Spf, link_cost_broken, route_cost_broken, add_cand_tree, del_if_candidate,
  better, improve, relax_edge,
}
use olsrd_hybrid_plc.Spf.Candidates.{key_of, TakenOut, From-add_cand_tree}
use olsrd_hybrid_plc.Spf.Graph.{Graph, Has, Leads, Walk, along, cost_of, cost_at, known_entry}
use olsrd_hybrid_plc.Spf.Invariant.{Inv, Exploring, Improved, del_if_candidate-TakenOut}
use olsrd_hybrid_plc.Spf.Relaxed.{
  same_of, cost_here, key_other, cheaper_lem, improved-Inv, dearer_unsettled,
}

module _ (g : Graph) (root : ℕ) (vertices : ℕ → Bool) (b u d : ℕ) where
  -- A state that keeps the invariant in the round of `u`, with nothing dearer than in `s`, and the
  -- entry at `a` not dearer than `c`.
  abbrev pub Advanced : Spf → ℕ → ℕ → Option Spf → Type 0
  Advanced s a c none = ⊥
  Advanced s a c (some s') =
      Inv g root vertices b s' × Exploring u d s' × Improved s s' × (cost_at (s'.tcs) a ≤ c)

  module _ (s : Spf) (h : Inv g root vertices b s) (x : Exploring u d s) where
    module _ (tc m : Vertex) (a new : ℕ) (known_a : find a (s.tcs) ≡ some m) (above : d ≤ new)
        (below : new ≤ b) (limit : b < route_cost_broken) (walk : Walk g root a new) where
      -- The candidate tree loses the entry where it is in it.
      taken_out :
          new < m.path_cost
          → TakenOut a (s.cand_tree) (del_if_candidate (m.path_cost) a (s.cand_tree))
      taken_out gain =
          let cost : cost_at (s.tcs) a ≡ m.path_cost = ap cost_of known_a in
          del_if_candidate-TakenOut (m.path_cost) a (s.cand_tree) (h.single) (h.ascending)
            (λ lt. elim (h.held a (omega (arith, cost, lt))) [
              | inl settled ↦ absurd (
                  ground (
                    arith,
                    sym (
                          dearer_unsettled g root vertices b u d s h x a
                            (omega (arith, cost, gain, above)))
                        ∙ settled,
                  ))
              | inr found ↦ found
            ])
            (λ unheld. elim (Option-cases (key_of a (s.cand_tree))) [
              | inl missing ↦ missing
              | inr (k, e) ↦
                  let (same, lt) = h.keys a k e in absurd (unheld (omega (arith, same, lt, cost)))
            ])

      taken_lem :
          new < m.path_cost
          → (o : Option (List (ℕ × ℕ))) → TakenOut a (s.cand_tree) o
          → Advanced s a new (elim o as (λ o. Option Spf) [
            | none ↦ none
            | some tree ↦ some (record {
              tcs = put a (better tc new m) (s.tcs);
              cand_tree = add_cand_tree new a tree;
              path_list = s.path_list;
            })
          ])
      taken_lem gain none out = elim out [ ]
      taken_lem gain (some tree) (keys_left, single, ascending, from) =
          let cost : cost_at (s.tcs) a ≡ m.path_cost = ap cost_of known_a in
          let cost_u : cost_at (s.tcs) u ≡ d = (h.keys u d (x.current)).0 in
          let apart : (a == u) ≡ false = elim (Bool-cases (a == u)) [
            | inl t ↦
                let same : cost_at (s.tcs) a ≡ cost_at (s.tcs) u =
                  ap (λ v. cost_at (s.tcs) v) (same_of a u t) in
                absurd (omega (arith, same, cost, cost_u, gain, above))
            | inr t ↦ t
          ] in
          let self : (a == a) ≡ true = ground arith in
          (
            improved-Inv g root vertices b u d s h x tc m a new tree known_a above below limit gain
                walk keys_left single ascending from,
            record {
              current =
                  key_other g root vertices b u d s h x tc m a new tree known_a above below limit
                    gain walk keys_left u apart
                  ∙ x.current;
              floor = From-add_cand_tree d new a tree above (from d (x.floor));
            },
            record {
              cheaper =
                  cheaper_lem g root vertices b u d s h x tc m a new tree known_a above below limit
                    gain walk keys_left;
              same_paths = refl;
            },
            omega (
              arith,
              cost_here g root vertices b u d s h x tc m a new tree known_a above below limit gain
                  walk keys_left a self,
            ),
          )

      improve-Advanced : Advanced s a new (improve tc new a m s)
      improve-Advanced = elim (Bool-cases (ltb new (m.path_cost))) [
        | inr worse ↦
            let cost : cost_at (s.tcs) a ≡ m.path_cost = ap cost_of known_a in
            let le : m.path_cost ≤ new = ground (arith, worse) in
            rw (worse, improve)
              (
                h,
                x,
                record { cheaper = λ w. omega arith; same_paths = refl },
                omega (arith, cost, le),
              )
        | inl gain_test ↦
            let gain : new < m.path_cost = ground (arith, gain_test) in
            rw (gain_test, improve)
              (taken_lem gain (del_if_candidate (m.path_cost) a (s.cand_tree)) (taken_out gain))
      ]

    -- The state after an edge, whose target is not dearer than by it.
    abbrev pub Explored : SpfEdge → Option Spf → Type 0
    Explored e none = ⊥
    Explored e (some s') =
        Inv g root vertices b s'
        × Exploring u d s'
        × Improved s s'
        × ((v : ℕ) → Leads e v → cost_at (s'.tcs) v ≤ d + e.cost)

    unchanged_lem : (e : SpfEdge) → ((v : ℕ) → Leads e v → ⊥) → Explored e (some s)
    unchanged_lem e dead_end = (
      h,
      x,
      record { cheaper = λ w. omega arith; same_paths = refl },
      (λ v leads. absurd (dead_end v leads)),
    )

    advanced_lem :
        (e : SpfEdge) (a c : ℕ) (o : Option Spf)
        → e.edge_inv ≡ some a
        → c ≡ d + e.cost
        → Advanced s a c o
        → Explored e o
    advanced_lem e a c none inv same adv = elim adv [ ]
    advanced_lem e a c (some s') inv same (i, x', better_now, le) = (
      i,
      x',
      better_now,
      (λ v leads.
          let here : a ≡ v = ground (arith, sym inv ∙ leads.0) in
          let le' : cost_at (s'.tcs) v ≤ c = subst (λ w. cost_at (s'.tcs) w ≤ c) here le in
          omega (arith, le', same)),
    )

    pub relax_edge-Explored :
        (e : SpfEdge)
        → Has e (g u)
        → d + e.cost ≤ b
        → b < route_cost_broken
        → vertices u ≡ true
        → ((v : ℕ) → Leads e v → vertices v ≡ true)
        → Explored e (relax_edge u e s)
    unfolding relax_edge
    relax_edge-Explored e has room limit known_u closed = by_inverse (e.edge_inv) refl
      where
        step :
            (a : ℕ)
            → e.edge_inv ≡ some a
            → (e.cost == link_cost_broken) ≡ false
            → Explored e (elim (find u (s.tcs)) as (λ o. Option Spf) [
              | none ↦ none
              | some tc ↦ elim (find a (s.tcs)) [
                | none ↦ none
                | some new_tc ↦ improve tc ((tc.path_cost + e.cost) % 2 ^ 32) a new_tc s
              ]
            ])
        step a inv whole =
            let (tc, found_u, cost_u, _) = known_entry u (s.tcs) (h.there u ∙ known_u) in
            let (m, found_a, _, _) = known_entry a (s.tcs) (h.there a ∙ closed a (inv, whole)) in
            let cost_d : tc.path_cost ≡ d = sym cost_u ∙ (h.keys u d (x.current)).0 in
            let low_d : d < route_cost_broken = (h.keys u d (x.current)).1 in
            let sum : (tc.path_cost + e.cost) % 2 ^ 32 ≡ d + e.cost =
              omega (arith, cost_d, room, limit) in
            let walk : Walk g root a (d + e.cost) =
              subst (λ c. Walk g root a (c + e.cost)) ((h.keys u d (x.current)).0)
                (along u a (cost_at (s.tcs) u) e
                  (h.sound u (omega (arith, (h.keys u d (x.current)).0, low_d))) has
                  (inv, whole)) in
            rw (found_u, found_a)
              (subst (λ c. Explored e (improve tc c a m s)) (sym sum)
                (advanced_lem e a (d + e.cost) (improve tc (d + e.cost) a m s) inv refl
                  (improve-Advanced tc m a (d + e.cost) found_a (omega arith) room limit walk)))

        by_inverse :
            (o : Option ℕ)
            → e.edge_inv ≡ o
            → Explored e (elim o as (λ o. Option Spf) [
              | none ↦ some s
              | some a ↦
                  if e.cost == link_cost_broken
                  then some s
                  else (elim (find u (s.tcs)) as (λ o. Option Spf) [
                    | none ↦ none
                    | some tc ↦ elim (find a (s.tcs)) [
                      | none ↦ none
                      | some new_tc ↦ improve tc ((tc.path_cost + e.cost) % 2 ^ 32) a new_tc s
                    ]
                  ])
            ])
        by_inverse none inv = unchanged_lem e (λ v leads. ground (arith, sym inv ∙ leads.0))
        by_inverse (some a) inv = elim (Bool-cases (e.cost == link_cost_broken)) [
          | inl broken ↦
              rw broken (unchanged_lem e (λ v leads. ground (arith, sym broken ∙ leads.1)))
          | inr whole ↦ rw whole (step a inv whole)
        ]
