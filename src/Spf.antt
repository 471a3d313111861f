-- ===== src/Spf.antt =====
-- The shortest path calculation of src/olsr_spf.c over the entries of the link-state database. An
-- entry is named by its address, a link by a number. The candidate tree is the list through its nodes,
-- in which a node stands behind those of the same cost.
pub mod Candidates
pub mod Graph
pub mod Invariant
pub mod Relaxed
pub mod Explored
pub mod Settled
pub mod Unvisited
pub mod Shortest
pub mod Start
use olsrd_hybrid_plc.Prelude.{
  ℕ, zero, suc, ◌+◌, ◌-◌, ◌%◌, ◌^◌, Bool, true, false, Option, none, some, List, [], ◌∷◌, ◌++◌, map,
  ltb, ◌==◌, if◌then◌else◌, find, put, length,
}

abbrev pub link_cost_broken : ℕ
link_cost_broken = 2 ^ 22

abbrev pub route_cost_broken : ℕ
route_cost_broken = 2 ^ 32 - 1

-- `struct tc_edge_entry`: `edge_inv` is the entry that the inverse edge belongs to.
pub record SpfEdge : Type 0 where
  pub edge_inv : Option ℕ
  pub cost : ℕ

-- `struct tc_entry`.
pub record Vertex : Type 0 where
  pub path_cost : ℕ
  pub next_hop : Option ℕ
  pub hops : ℕ
  pub edge_tree : List SpfEdge

pub record Spf : Type 0 where
  pub tcs : List (ℕ × Vertex)
  pub cand_tree : List (ℕ × ℕ)
  pub path_list : List ℕ

abbrev pub add_cand_tree : ℕ → ℕ → List (ℕ × ℕ) → List (ℕ × ℕ)
add_cand_tree cost tc [] = (cost, tc) ∷ []
add_cand_tree cost tc ((k, a) ∷ tree) =
    if ltb cost k then (cost, tc) ∷ (k, a) ∷ tree else (k, a) ∷ add_cand_tree cost tc tree

-- `none` where the entry is not in the tree, which is not defined then.
abbrev pub del_cand_tree : ℕ → List (ℕ × ℕ) → Option (List (ℕ × ℕ))
del_cand_tree tc [] = none
del_cand_tree tc ((k, a) ∷ tree) =
    if a == tc then some tree else (elim (del_cand_tree tc tree) as (λ o. Option (List (ℕ × ℕ))) [
      | none ↦ none
      | some rest ↦ some ((k, a) ∷ rest)
    ])

-- The candidate tree without an entry that has a path already.
abbrev pub del_if_candidate : ℕ → ℕ → List (ℕ × ℕ) → Option (List (ℕ × ℕ))
del_if_candidate cost tc tree =
    if ltb cost route_cost_broken then del_cand_tree tc tree else some tree

abbrev pub or_own : Option ℕ → Option ℕ → Option ℕ
or_own none own = own
or_own (some link) own = some link

-- The entry `new_tc` with a better path, over `tc`.
abbrev pub better : Vertex → ℕ → Vertex → Vertex
better tc new_cost new_tc = record {
  path_cost = new_cost;
  next_hop = or_own (tc.next_hop) (new_tc.next_hop);
  hops = (tc.hops + 1) % 2 ^ 8;
  edge_tree = new_tc.edge_tree;
}

-- One edge of `tc`, to the entry at `a`.
abbrev pub improve : Vertex → ℕ → ℕ → Vertex → Spf → Option Spf
improve tc new_cost a new_tc s =
    if ltb new_cost (new_tc.path_cost)
    then (elim (del_if_candidate (new_tc.path_cost) a (s.cand_tree)) as (λ o. Option Spf) [
      | none ↦ none
      | some tree ↦ some (record {
        tcs = put a (better tc new_cost new_tc) (s.tcs);
        cand_tree = add_cand_tree new_cost a tree;
        path_list = s.path_list;
      })
    ])
    else some s

unfoldable pub relax_edge : ℕ → SpfEdge → Spf → Option Spf
unfolding find put
relax_edge u e s = elim (e.edge_inv) [
  | none ↦ some s
  | some a ↦
      if e.cost == link_cost_broken then some s else (elim (find u (s.tcs)) as (λ o. Option Spf) [
        | none ↦ none
        | some tc ↦ elim (find a (s.tcs)) [
          | none ↦ none
          | some new_tc ↦ improve tc ((tc.path_cost + e.cost) % 2 ^ 32) a new_tc s
        ]
      ])
]

unfoldable pub relax : ℕ → List SpfEdge → Spf → Option Spf
unfolding relax_edge
relax u [] s = some s
relax u (e ∷ es) s = elim (relax_edge u e s) [ none ↦ none | some s' ↦ relax u es s' ]

-- The end of a round: the entry moves from the candidate tree to the path list.
abbrev pub settle : ℕ → Spf → Option Spf
settle u s = elim (del_cand_tree u (s.cand_tree)) [
  | none ↦ none
  | some tree ↦ some (record { tcs = s.tcs; cand_tree = tree; path_list = s.path_list ++ (u ∷ []) })
]

abbrev pub round : ℕ → Spf → Option Spf
round u s = elim (find u (s.tcs)) [
  | none ↦ none
  | some tc ↦ elim (relax u (tc.edge_tree) s) [ none ↦ none | some s' ↦ settle u s' ]
]

-- `none` where a null pointer is followed or the fuel is used up.
unfoldable pub run_full : ℕ → Spf → Option Spf
unfolding relax find
run_full zero s = none
run_full (suc fuel) s = elim (s.cand_tree) [
  | [] ↦ some s
  | (k, u) ∷ tree ↦ elim (round u s) [ none ↦ none | some s' ↦ run_full fuel s' ]
]

-- The vertices as `olsr_calculate_routing_table` prepares them, with the next hops of the neighbours.
abbrev pub clear_vertex : Vertex → Vertex
clear_vertex tc = record {
  path_cost = route_cost_broken;
  next_hop = none;
  hops = 0;
  edge_tree = tc.edge_tree;
}

abbrev pub clear_vertices : List (ℕ × Vertex) → List (ℕ × Vertex)
clear_vertices [] = []
clear_vertices ((a, tc) ∷ tcs) = (a, clear_vertex tc) ∷ clear_vertices tcs

abbrev pub with_cost : ℕ → Vertex → Vertex
with_cost c tc = record {
  path_cost = c;
  next_hop = tc.next_hop;
  hops = tc.hops;
  edge_tree = tc.edge_tree;
}

abbrev pub with_next_hop : ℕ → Vertex → Vertex
with_next_hop link tc = record {
  path_cost = tc.path_cost;
  next_hop = some link;
  hops = tc.hops;
  edge_tree = tc.edge_tree;
}

abbrev pub write : ℕ → (Vertex → Vertex) → List (ℕ × Vertex) → List (ℕ × Vertex)
write a f [] = []
write a f ((b, tc) ∷ tcs) = if b == a then (b, f tc) ∷ tcs else (b, tc) ∷ write a f tcs

-- The neighbours that have an edge with an inverse, with their best links.
abbrev pub set_next_hops : List (ℕ × ℕ) → List (ℕ × Vertex) → List (ℕ × Vertex)
set_next_hops [] tcs = tcs
set_next_hops ((a, link) ∷ hops) tcs = set_next_hops hops (write a (with_next_hop link) tcs)

unfoldable pub spf_start : ℕ → List (ℕ × ℕ) → List (ℕ × Vertex) → Spf
spf_start myself hops tcs = record {
  tcs = set_next_hops hops (write myself (with_cost 0) (clear_vertices tcs));
  cand_tree = add_cand_tree 0 myself [];
  path_list = [];
}

unfoldable pub calculate_paths : ℕ → List (ℕ × ℕ) → List (ℕ × Vertex) → Option Spf
unfolding run_full spf_start
calculate_paths myself hops tcs = run_full (suc (length tcs)) (spf_start myself hops tcs)
