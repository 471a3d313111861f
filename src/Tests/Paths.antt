-- ===== src/Tests/Paths.antt =====
-- src/olsr_spf.c on a triangle in which the way round is cheaper than the direct edge.
use olsrd_hybrid_plc.Prelude.{
  All, mem, ℕ, ◌≤◌, ◌≡◌, refl, subst, true, Bool-cases, inl, inr, none, some, List, [], ◌∷◌, arith,
  ◌==◌, find,
}
use olsrd_hybrid_plc.Spf.{SpfEdge, Vertex, calculate_paths, run_full, relax, relax_edge, spf_start}
use olsrd_hybrid_plc.Spf.Graph.{Has, Leads, edges_at, cost_at}
use olsrd_hybrid_plc.Spf.Shortest.{Bounded, Shortest}
use olsrd_hybrid_plc.Spf.Start.{names_of, calculate_paths-Shortest}

abbrev edge_to : ℕ → ℕ → SpfEdge
edge_to a c = record { edge_inv = some a; cost = c }

abbrev vertex : List SpfEdge → Vertex
vertex es = record { path_cost = 9; next_hop = none; hops = 4; edge_tree = es }

abbrev pub triangle : List (ℕ × Vertex)
triangle =
    (3, vertex (edge_to 4 5 ∷ edge_to 7 1 ∷ []))
    ∷ (4, vertex (edge_to 3 5 ∷ []))
    ∷ (7, vertex (edge_to 4 2 ∷ []))
    ∷ []

abbrev cost_after : ℕ → ℕ
cost_after v = elim (calculate_paths 3 ((4, 40) ∷ (7, 70) ∷ []) triangle) [
  | none ↦ 99
  | some s ↦ cost_at (s.tcs) v
]

the_way_round : cost_after 4 ≡ 3
unfolding calculate_paths run_full relax relax_edge spf_start
the_way_round = refl

abbrev Fits : SpfEdge → Type 0
Fits e = (e.cost ≤ 5) × ((v : ℕ) → Leads e v → mem v (names_of triangle) ≡ true)

edge_to-Fits : (a c : ℕ) → c ≤ 5 → mem a (names_of triangle) ≡ true → Fits (edge_to a c)
edge_to-Fits a c le m = (
  le,
  (λ v leads.
      let here : a ≡ v = ground (arith, leads.0) in
      subst (λ w. mem w (names_of triangle) ≡ true) here m),
)

all_has : (P : SpfEdge → Type 0) (e : SpfEdge) (es : List SpfEdge) → All P es → Has e es → P e
all_has P e [] ps has = elim has [ ]
all_has P e (d ∷ es) (p, ps) (inl same) = subst P same p
all_has P e (d ∷ es) (p, ps) (inr has) = all_has P e es ps has

all_edges :
    (P : SpfEdge → Type 0) (tcs : List (ℕ × Vertex))
    → All (λ (x : ℕ × Vertex). All P (x.1.edge_tree)) tcs
    → (u : ℕ) (e : SpfEdge) → Has e (edges_at tcs u)
    → P e
unfolding find
all_edges P [] ps u e has = elim has [ ]
all_edges P ((a, tc) ∷ tcs) (p, ps) u e has = elim (Bool-cases (a == u)) [
  | inl t ↦ all_has P e (tc.edge_tree) p (rw t at has)
  | inr t ↦ all_edges P tcs ps u e (rw t at has)
]

triangle-Fits : (u : ℕ) (e : SpfEdge) → Has e (edges_at triangle u) → Fits e
triangle-Fits = all_edges Fits triangle (
  (edge_to-Fits 4 5 (omega arith) refl, (edge_to-Fits 7 1 (omega arith) refl, tt)),
  ((edge_to-Fits 3 5 (omega arith) refl, tt), ((edge_to-Fits 4 2 (omega arith) refl, tt), tt)),
)

pub triangle-Bounded : Bounded (edges_at triangle) (names_of triangle) 5
triangle-Bounded = record {
  dear = λ u e has. (triangle-Fits u e has).0;
  closed = λ u v e has leads. (triangle-Fits u e has).1 v leads;
  short = omega arith;
}

calculate_paths-Shortest_example :
    Shortest (edges_at triangle) 3 (calculate_paths 3 ((4, 40) ∷ (7, 70) ∷ []) triangle)
unfolding find
calculate_paths-Shortest_example =
    calculate_paths-Shortest 3 ((4, 40) ∷ (7, 70) ∷ []) triangle 5 refl triangle-Bounded
