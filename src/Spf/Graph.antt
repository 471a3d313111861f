-- ===== src/Spf/Graph.antt =====
-- The graph of src/olsr_spf.c: its edges, the walks from a vertex and what they cost, and the costs
-- and edges that the entries hold.
use olsrd_hybrid_plc.Prelude.{
  ℕ, ◌+◌, ◌≡◌, ◌⊎◌, refl, sym, ap, ◌∙◌, Bool, true, false, Bool-cases, inl, inr, Option, none, some,
  List, [], ◌∷◌, arith, ◌==◌, if◌then◌else◌, find, put, find-put,
}
use olsrd_hybrid_plc.Spf.{SpfEdge, Vertex, link_cost_broken, route_cost_broken}

abbrev pub Graph : Type 0
Graph = ℕ → List SpfEdge

abbrev pub Has : SpfEdge → List SpfEdge → Type 0
Has e [] = ⊥
Has e (d ∷ es) = (d ≡ e) ⊎ Has e es

-- An edge to `v` that has an inverse and is not broken.
abbrev pub Leads : SpfEdge → ℕ → Type 0
Leads e v = (e.edge_inv ≡ some v) × ((e.cost == link_cost_broken) ≡ false)

-- The walks from `root` with their costs.
pub data Walk (g : Graph) (root : ℕ) : ℕ → ℕ → Type 0 where
  at_root : Walk g root root 0
  along :
      (u v c : ℕ) (e : SpfEdge)
      → Walk g root u c
      → Has e (g u)
      → Leads e v
      → Walk g root v (c + e.cost)

abbrev pub cost_of : Option Vertex → ℕ
cost_of none = route_cost_broken
cost_of (some tc) = tc.path_cost

abbrev pub edges_of : Option Vertex → List SpfEdge
edges_of none = []
edges_of (some tc) = tc.edge_tree

abbrev pub is_some : Option Vertex → Bool
is_some none = false
is_some (some tc) = true

abbrev pub cost_at : List (ℕ × Vertex) → ℕ → ℕ
cost_at tcs v = cost_of (find v tcs)

abbrev pub edges_at : List (ℕ × Vertex) → ℕ → List SpfEdge
edges_at tcs v = edges_of (find v tcs)

abbrev pub known : List (ℕ × Vertex) → ℕ → Bool
known tcs v = is_some (find v tcs)

-- What is read of an entry after a write.
read-put :
    {A : Type 0} (f : Option Vertex → A) (a w : ℕ) (tc : Vertex) (tcs : List (ℕ × Vertex))
    → f (find w (put a tc tcs)) ≡ (if a == w then f (some tc) else f (find w tcs))
read-put f a w tc tcs = ap f (find-put a w tc tcs) ∙ branch (a == w)
  where
    branch :
        (p : Bool)
        → f (if p then some tc else find w tcs) ≡ (if p then f (some tc) else f (find w tcs))
    branch true = refl
    branch false = refl

-- A write that keeps what is read.
kept-put :
    {A : Type 0} (f : Option Vertex → A) (a w : ℕ) (tc : Vertex) (tcs : List (ℕ × Vertex))
    → f (find a tcs) ≡ f (some tc)
    → f (find w (put a tc tcs)) ≡ f (find w tcs)
kept-put f a w tc tcs same = read-put f a w tc tcs ∙ branch
  where
    branch : (if a == w then f (some tc) else f (find w tcs)) ≡ f (find w tcs)
    branch = elim (Bool-cases (a == w)) [
      | inl t ↦
          let here : a ≡ w = ground (arith, t) in rw t (sym same ∙ ap (λ x. f (find x tcs)) here)
      | inr t ↦ rw t
    ]

pub cost_at-put :
    (a w : ℕ) (tc : Vertex) (tcs : List (ℕ × Vertex))
    → cost_at (put a tc tcs) w ≡ (if a == w then tc.path_cost else cost_at tcs w)
cost_at-put a w tc tcs = read-put cost_of a w tc tcs

pub edges_at-put :
    (a w : ℕ) (tc : Vertex) (tcs : List (ℕ × Vertex))
    → edges_at tcs a ≡ tc.edge_tree
    → edges_at (put a tc tcs) w ≡ edges_at tcs w
edges_at-put a w tc tcs same = kept-put edges_of a w tc tcs same

pub known-put :
    (a w : ℕ) (tc : Vertex) (tcs : List (ℕ × Vertex))
    → known tcs a ≡ true
    → known (put a tc tcs) w ≡ known tcs w
known-put a w tc tcs same = kept-put is_some a w tc tcs same

pub known_entry :
    (v : ℕ) (tcs : List (ℕ × Vertex))
    → known tcs v ≡ true
    → (tc : Vertex) × (find v tcs ≡ some tc)
      × (cost_at tcs v ≡ tc.path_cost)
      × (edges_at tcs v ≡ tc.edge_tree)
known_entry v tcs k = go (find v tcs) refl
  where
    go :
        (o : Option Vertex)
        → find v tcs ≡ o
        → (tc : Vertex) × (find v tcs ≡ some tc)
          × (cost_at tcs v ≡ tc.path_cost)
          × (edges_at tcs v ≡ tc.edge_tree)
    go none e = absurd (ground (arith, rw e at k))
    go (some tc) e = (tc, e, rw e refl, rw e refl)
