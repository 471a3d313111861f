-- ===== src/Spf/Shortest.antt =====
-- The paths that olsr_spf_run_full of src/olsr_spf.c finds are the shortest ones.
use native.Mathlib.Nat.{mul-le-mul_left, mul-suc}
use olsrd_hybrid_plc.Prelude.{
  mem, ℕ, zero, suc, ◌+◌, ◌*◌, ◌≤◌, ◌<◌, ◌≡◌, refl, sym, subst, ap, ◌∙◌, Bool, true, false,
  Bool-cases, inl, inr, Option, none, some, List, [], ◌∷◌, ◌++◌, arith, ltb, ◌==◌, find, length,
  length-append,
}
use olsrd_hybrid_plc.Spf.{SpfEdge, Vertex, Spf, route_cost_broken, relax, settle, round, run_full}
use olsrd_hybrid_plc.Spf.Candidates.{key_of, From, Ascending}
use olsrd_hybrid_plc.Spf.Graph.{
  Graph, Has, Leads, Walk, at_root, along, cost_of, cost_at, known, known_entry,
}
use olsrd_hybrid_plc.Spf.Invariant.{Inv, Exploring, Improved}
use olsrd_hybrid_plc.Spf.Unvisited.{unvisited, unvisited-lt}
use olsrd_hybrid_plc.Spf.Settled.{AllExplored, relax-AllExplored, Settled, settle-Settled}

-- A larger bound.
widen :
    (g : Graph) (root : ℕ) (vertices : ℕ → Bool) (b b' : ℕ) (s : Spf)
    → b ≤ b'
    → Inv g root vertices b s
    → Inv g root vertices b' s
widen g root vertices b b' s le h = record {
  graph = h.graph;
  there = h.there;
  single = h.single;
  ascending = h.ascending;
  keys = h.keys;
  held = h.held;
  apart = h.apart;
  low = h.low;
  relaxed = h.relaxed;
  sound = h.sound;
  named = h.named;
  source = h.source;
  capped = h.capped;
  bound = λ v lt. omega (arith, h.bound v lt, le);
}

-- The edges cost at most `dearest`, lead to vertices, and the longest path costs less than
-- ROUTE_COST_BROKEN.
pub record Bounded (g : Graph) (names : List ℕ) (dearest : ℕ) : Type 0 where
  pub dear : (u : ℕ) (e : SpfEdge) → Has e (g u) → e.cost ≤ dearest
  pub closed : (u v : ℕ) (e : SpfEdge) → Has e (g u) → Leads e v → mem v names ≡ true
  pub short : dearest * length names < route_cost_broken

-- The path list names vertices, and the cost of every vertex is that of a walk, and of the cheapest one,
-- or ROUTE_COST_BROKEN.
abbrev pub Shortest : Graph → ℕ → Option Spf → Type 0
Shortest g root none = ⊥
Shortest g root (some s) =
    ((v : ℕ) → mem v (s.path_list) ≡ true → known (s.tcs) v ≡ true)
    × ((v : ℕ)
        → (cost_at (s.tcs) v < route_cost_broken → Walk g root v (cost_at (s.tcs) v))
          × (cost_at (s.tcs) v ≤ route_cost_broken)
          × ((c : ℕ) → Walk g root v c → cost_at (s.tcs) v ≤ c))

module _ (g : Graph) (root : ℕ) (names : List ℕ) (dearest : ℕ) (p : Bounded g names dearest) where
  abbrev vertices : ℕ → Bool
  vertices v = mem v names

  -- Between two rounds.
  pub record Between (s : Spf) : Type 0 where
    pub inv : Inv g root vertices (dearest * length (s.path_list)) s
    pub size : length (s.path_list) + unvisited names (s.path_list) ≤ length names

  abbrev Ended : Option Spf → Type 0
  Ended none = ⊥
  Ended (some s) = ((b : ℕ) × Inv g root vertices b s) × (s.cand_tree ≡ [])

  -- A round that ends, with one vertex less to visit.
  abbrev Rounded : Spf → Option Spf → Type 0
  Rounded s none = ⊥
  Rounded s (some s') =
      Between s' × (unvisited names (s'.path_list) < unvisited names (s.path_list))

  settled_lem :
      (s s1 : Spf) (u d b : ℕ) (o : Option Spf)
      → b ≡ dearest * suc (length (s.path_list))
      → s1.path_list ≡ s.path_list
      → Between s
      → mem u names ≡ true
      → mem u (s.path_list) ≡ false
      → Settled g root vertices b u d s1 o
      → Rounded s o
  settled_lem s s1 u d b none e same t named new done = elim done [ ]
  settled_lem s s1 u d b (some s') e same t named new (h, paths) =
      let all : s'.path_list ≡ s.path_list ++ (u ∷ []) = paths ∙ ap (λ l. l ++ (u ∷ [])) same in
      let longer : length (s'.path_list) ≡ suc (length (s.path_list)) =
        ap length all ∙ length-append (s.path_list) (u ∷ []) ∙ omega arith in
      let lt : unvisited names (s'.path_list) < unvisited names (s.path_list) =
        subst (λ l. unvisited names l < unvisited names (s.path_list)) (sym all)
          (unvisited-lt names (s.path_list) u named new) in
      (
        record {
          inv =
              widen g root vertices b (dearest * length (s'.path_list)) s'
                (omega (arith, e, ap (λ n. dearest * n) longer)) h;
          size = omega (arith, longer, lt, t.size);
        },
        lt,
      )

  module _ (s : Spf) (k u : ℕ) (tree : List (ℕ × ℕ)) (front : s.cand_tree ≡ (k, u) ∷ tree)
      (t : Between s) where
    key_u : key_of u (s.cand_tree) ≡ some k
    key_u = let self : (u == u) ≡ true = ground arith in rw front (rw self refl)

    floor_k : From k (s.cand_tree)
    floor_k =
        let a : Ascending ((k, u) ∷ tree) = subst Ascending front (t.inv.ascending) in
        subst (λ c. From k c) (sym front) (omega arith, a.0)

    cost_u : (cost_at (s.tcs) u ≡ k) × (k < route_cost_broken)
    cost_u = t.inv.keys u k key_u

    new_u : mem u (s.path_list) ≡ false
    new_u = elim (Bool-cases (mem u (s.path_list))) [
      | inl m ↦ absurd (ground (arith, sym (t.inv.apart u m) ∙ key_u))
      | inr m ↦ m
    ]

    known_u : known (s.tcs) u ≡ true
    known_u = go (find u (s.tcs)) refl
      where
        go : (o : Option Vertex) → find u (s.tcs) ≡ o → known (s.tcs) u ≡ true
        go none e =
            let c : cost_at (s.tcs) u ≡ route_cost_broken = ap cost_of e in
            absurd (omega (arith, c, cost_u.0, cost_u.1))
        go (some tc) e = rw e refl

    named_u : mem u names ≡ true
    named_u = sym (t.inv.there u) ∙ known_u

    abbrev wide : ℕ
    wide = dearest * suc (length (s.path_list))

    round-Rounded : Rounded s (round u s)
    round-Rounded =
        let (tc, found, _, edges) = known_entry u (s.tcs) known_u in
        let edges' : tc.edge_tree ≡ g u = sym edges ∙ t.inv.graph u in
        let more : wide ≡ dearest * length (s.path_list) + dearest =
          mul-suc dearest (length (s.path_list)) in
        let fits : wide ≤ dearest * length names =
          mul-le-mul_left dearest
            (omega (arith, t.size, unvisited-lt names (s.path_list) u named_u new_u)) in
        let limit : wide < route_cost_broken = omega (arith, fits, p.short) in
        let low : k ≤ dearest * length (s.path_list) =
          omega (arith, t.inv.bound u (omega (arith, cost_u.0, cost_u.1)), cost_u.0) in
        let inv' : Inv g root vertices wide s =
          widen g root vertices _ wide s (omega (arith, more)) (t.inv) in
        let x : Exploring u k s = record { current = key_u; floor = floor_k } in
        rw (found, round)
          (explored tc edges' (relax u (tc.edge_tree) s) (
            relax-AllExplored g root vertices wide u k (tc.edge_tree) s inv' x
              (λ e has.
                let has' : Has e (g u) = subst (λ es. Has e es) edges' has in
                (
                  has',
                  omega (arith, p.dear u e has', low, more),
                  (λ v leads. p.closed u v e has' leads),
                ))
              limit named_u))
      where
        explored :
            (tc : Vertex)
            → tc.edge_tree ≡ g u
            → (o : Option Spf) → AllExplored g root vertices wide u k s (tc.edge_tree) o
            → Rounded s (elim o as (λ o. Option Spf) [ none ↦ none | some s' ↦ settle u s' ])
        explored tc edges' none all = elim all [ ]
        explored tc edges' (some s') (h', x', i, all) = settled_at s' i (
            settle-Settled g root vertices wide u k s' h' x'
              (λ e v has leads. all e v (subst (λ es. Has e es) (sym edges') has) leads))
          where
            settled_at :
                (s1 : Spf)
                → Improved s s1
                → Settled g root vertices wide u k s1 (settle u s1)
                → Rounded s (settle u s1)
            settled_at s1 i done =
                settled_lem s s1 u k wide (settle u s1) refl (i.same_paths) t named_u new_u done

  -- With a round for each vertex without a path, and one more, the loop ends.
  run_full-Ended :
      (fuel : ℕ) (s : Spf)
      → Between s
      → unvisited names (s.path_list) < fuel
      → Ended (run_full fuel s)
  unfolding run_full
  run_full-Ended zero s t lt = absurd (omega (arith, lt))
  run_full-Ended (suc fuel) s t lt =
      by_tree (s.cand_tree) refl (λ s' t' less. run_full-Ended fuel s' t' less)
    where
      next :
          (o : Option Spf)
          → Rounded s o
          → ((s' : Spf)
              → Between s'
              → unvisited names (s'.path_list) < fuel
              → Ended (run_full fuel s'))
          → Ended (elim o as (λ o. Option Spf) [ none ↦ none | some s' ↦ run_full fuel s' ])
      next none r more = elim r [ ]
      next (some s') (t', less) more = more s' t' (omega (arith, lt, less))

      by_tree :
          (c : List (ℕ × ℕ))
          → s.cand_tree ≡ c
          → ((s' : Spf)
              → Between s'
              → unvisited names (s'.path_list) < fuel
              → Ended (run_full fuel s'))
          → Ended (elim c as (λ c. Option Spf) [
            | [] ↦ some s
            | ◌∷◌ (k, u) tree ↦ elim (round u s) [ none ↦ none | some s' ↦ run_full fuel s' ]
          ])
      by_tree [] e more = ((dearest * length (s.path_list), t.inv), e)
      by_tree ((k, u) ∷ tree) e more = next (round u s) (round-Rounded s k u tree e t) more

  -- Without candidates every cost is the least one of a walk.
  least :
      (s : Spf) (b : ℕ)
      → Inv g root vertices b s
      → s.cand_tree ≡ []
      → (v c : ℕ) → Walk g root v c
      → cost_at (s.tcs) v ≤ c
  least s b h e v c at_root = omega (arith, h.source)
  least s b h e v c (along u v' c' edge walk has leads) =
      let le : cost_at (s.tcs) u ≤ c' = least s b h e u c' walk in
      elim (Bool-cases (ltb (cost_at (s.tcs) u) route_cost_broken)) [
        | inl lt ↦ elim (h.held u (ground (arith, lt))) [
          | inl settled ↦ omega (arith, h.relaxed u v' edge settled has leads, le)
          | inr (k, held) ↦
              let empty : key_of u [] ≡ some k = subst (λ t. key_of u t ≡ some k) e held in
              absurd (ground (arith, empty))
        ]
        | inr ge ↦
            let far : route_cost_broken ≤ c' = ground (arith, ge, le) in
            omega (arith, h.capped v', far)
      ]

  ended_lem : (o : Option Spf) → Ended o → Shortest g root o
  ended_lem none d = elim d [ ]
  ended_lem (some s) ((b, h), e) = (
    (λ v m. h.there v ∙ h.named v m),
    (λ v. (h.sound v, h.capped v, (λ c walk. least s b h e v c walk))),
  )

  pub run_full-Shortest :
      (fuel : ℕ) (s : Spf)
      → Between s
      → unvisited names (s.path_list) < fuel
      → Shortest g root (run_full fuel s)
  run_full-Shortest fuel s t lt = ended_lem (run_full fuel s) (run_full-Ended fuel s t lt)
