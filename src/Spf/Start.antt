-- ===== src/Spf/Start.antt =====
-- The vertices as olsr_calculate_routing_table of src/olsr_spf.c prepares them, and the paths from there.
use olsrd_hybrid_plc.Prelude.{
  mem, ℕ, suc, ◌*◌, ◌≤◌, ◌<◌, ◌≡◌, ◌⊎◌, refl, sym, subst, ap, ◌∙◌, true, false, Bool-cases, inl,
  inr, Option, some, List, [], ◌∷◌, arith, ◌==◌, if◌then◌else◌, find, length,
}
use olsrd_hybrid_plc.Spf.{
  Vertex, Spf, route_cost_broken, clear_vertex, clear_vertices, with_cost, with_next_hop, write,
  set_next_hops, spf_start, calculate_paths,
}
use olsrd_hybrid_plc.Spf.Candidates.{key_of}
use olsrd_hybrid_plc.Spf.Graph.{Walk, at_root, cost_of, cost_at, edges_of, edges_at, is_some, known}
use olsrd_hybrid_plc.Spf.Invariant.{Inv}
use olsrd_hybrid_plc.Spf.Unvisited.{unvisited_none}
use olsrd_hybrid_plc.Spf.Shortest.{Bounded, Shortest, run_full-Shortest}

abbrev pub names_of : List (ℕ × Vertex) → List ℕ
names_of [] = []
names_of ((a, tc) ∷ tcs) = a ∷ names_of tcs

length-names_of : (tcs : List (ℕ × Vertex)) → length (names_of tcs) ≡ length tcs
length-names_of [] = refl
length-names_of ((a, tc) ∷ tcs) = ap (λ n. suc n) (length-names_of tcs)

known-names_of : (v : ℕ) (tcs : List (ℕ × Vertex)) → known tcs v ≡ mem v (names_of tcs)
unfolding find
known-names_of v [] = refl
known-names_of v ((a, tc) ∷ tcs) = elim (Bool-cases (a == v)) [
  | inl t ↦ rw t refl
  | inr t ↦ rw t (known-names_of v tcs)
]

-- What a write through a pointer keeps, and what it changes.
kept-write :
    {A : Type 0} (read : Option Vertex → A) (a w : ℕ) (f : Vertex → Vertex)
    (tcs : List (ℕ × Vertex))
    → ((tc : Vertex) → read (some (f tc)) ≡ read (some tc))
    → read (find w (write a f tcs)) ≡ read (find w tcs)
unfolding find
kept-write read a w f [] same = refl
kept-write read a w f ((b, tc) ∷ tcs) same = elim (Bool-cases (b == a)) [
  | inl t ↦ rw t (elim (Bool-cases (b == w)) [ inl h ↦ rw h (same tc) | inr h ↦ rw h refl ])
  | inr t ↦ rw t (elim (Bool-cases (b == w)) [
    | inl h ↦ rw h refl
    | inr h ↦ rw h (kept-write read a w f tcs same)
  ])
]

cost_at-write :
    (a w : ℕ) (c : ℕ) (tcs : List (ℕ × Vertex))
    → known tcs a ≡ true
    → cost_at (write a (with_cost c) tcs) w ≡ (if a == w then c else cost_at tcs w)
unfolding find
cost_at-write a w c [] k = absurd (ground (arith, k))
cost_at-write a w c ((b, tc) ∷ tcs) k = elim (Bool-cases (b == a)) [
  | inl t ↦
      let here : b ≡ a = ground (arith, t) in
      rw t (elim (Bool-cases (b == w)) [
        | inl h ↦ let h' : (a == w) ≡ true = ground (arith, here, h) in rw (h, h') refl
        | inr h ↦ let h' : (a == w) ≡ false = ground (arith, here, h) in rw (h, h') refl
      ])
  | inr t ↦
      let ih : cost_at (write a (with_cost c) tcs) w ≡ (if a == w then c else cost_at tcs w) =
        cost_at-write a w c tcs (rw t at k) in
      rw t (elim (Bool-cases (b == w)) [
        | inl h ↦ let h' : (a == w) ≡ false = ground (arith, t, h) in rw (h, h') refl
        | inr h ↦ rw h ih
      ])
]

kept-set_next_hops :
    {A : Type 0} (read : Option Vertex → A) (w : ℕ) (hops : List (ℕ × ℕ)) (tcs : List (ℕ × Vertex))
    → ((link : ℕ) (tc : Vertex) → read (some (with_next_hop link tc)) ≡ read (some tc))
    → read (find w (set_next_hops hops tcs)) ≡ read (find w tcs)
kept-set_next_hops read w [] tcs same = refl
kept-set_next_hops read w ((a, link) ∷ hops) tcs same =
    kept-set_next_hops read w hops (write a (with_next_hop link) tcs) same
    ∙ kept-write read a w (with_next_hop link) tcs (same link)

kept-clear_vertices :
    {A : Type 0} (read : Option Vertex → A) (w : ℕ) (tcs : List (ℕ × Vertex))
    → ((tc : Vertex) → read (some (clear_vertex tc)) ≡ read (some tc))
    → read (find w (clear_vertices tcs)) ≡ read (find w tcs)
unfolding find
kept-clear_vertices read w [] same = refl
kept-clear_vertices read w ((b, tc) ∷ tcs) same = elim (Bool-cases (b == w)) [
  | inl h ↦ rw h (same tc)
  | inr h ↦ rw h (kept-clear_vertices read w tcs same)
]

cost_at-clear_vertices :
    (w : ℕ) (tcs : List (ℕ × Vertex)) → cost_at (clear_vertices tcs) w ≡ route_cost_broken
unfolding find
cost_at-clear_vertices w [] = refl
cost_at-clear_vertices w ((b, tc) ∷ tcs) = elim (Bool-cases (b == w)) [
  | inl h ↦ rw h refl
  | inr h ↦ rw h (cost_at-clear_vertices w tcs)
]

module _ (myself : ℕ) (hops : List (ℕ × ℕ)) (tcs : List (ℕ × Vertex))
    (k : known tcs myself ≡ true) where
  abbrev start : List (ℕ × Vertex)
  start = set_next_hops hops (write myself (with_cost 0) (clear_vertices tcs))

  start_kept :
      {A : Type 0} (read : Option Vertex → A)
      → ((link : ℕ) (tc : Vertex) → read (some (with_next_hop link tc)) ≡ read (some tc))
      → ((tc : Vertex) → read (some (with_cost 0 tc)) ≡ read (some tc))
      → ((tc : Vertex) → read (some (clear_vertex tc)) ≡ read (some tc))
      → (v : ℕ) → read (find v start) ≡ read (find v tcs)
  start_kept read f1 f2 f3 v =
      kept-set_next_hops read v hops (write myself (with_cost 0) (clear_vertices tcs)) f1
      ∙ kept-write read myself v (with_cost 0) (clear_vertices tcs) f2
      ∙ kept-clear_vertices read v tcs f3

  start_cost : (v : ℕ) → cost_at start v ≡ (if myself == v then 0 else route_cost_broken)
  start_cost v =
      kept-set_next_hops cost_of v hops (write myself (with_cost 0) (clear_vertices tcs))
        (λ link tc. refl)
      ∙ cost_at-write myself v 0 (clear_vertices tcs)
          (kept-clear_vertices is_some myself tcs (λ tc. refl) ∙ k)
      ∙ ap (λ c. if myself == v then 0 else c) (cost_at-clear_vertices v tcs)

  start_cases :
      (v : ℕ)
      → (((myself == v) ≡ true) × (cost_at start v ≡ 0))
        ⊎ (((myself == v) ≡ false) × (cost_at start v ≡ route_cost_broken))
  start_cases v = elim (Bool-cases (myself == v)) [
    | inl t ↦ inl (t, start_cost v ∙ (rw t refl))
    | inr t ↦ inr (t, start_cost v ∙ (rw t refl))
  ]

  start_tree : (v c : ℕ) → key_of v ((0, myself) ∷ []) ≡ some c → ((myself == v) ≡ true) × (c ≡ 0)
  start_tree v c e = elim (Bool-cases (myself == v)) [
    | inl t ↦ (t, ground (arith, rw t at e))
    | inr t ↦ absurd (ground (arith, rw t at e))
  ]

  abbrev first : Spf
  first = record { tcs = start; cand_tree = (0, myself) ∷ []; path_list = [] }

  start-Inv : (b : ℕ) → Inv (edges_at tcs) myself (λ v. mem v (names_of tcs)) b first
  start-Inv b = record {
    graph = start_kept edges_of (λ link tc. refl) (λ tc. refl) (λ tc. refl);
    there = λ v.
        start_kept is_some (λ link tc. refl) (λ tc. refl) (λ tc. refl) v ∙ known-names_of v tcs;
    single = (refl, tt);
    ascending = (tt, tt);
    keys = λ v c e. keys v c (start_tree v c e);
    held = held;
    apart = λ v m. absurd (ground (arith, m));
    low = λ v m. absurd (ground (arith, m));
    relaxed = λ u v e m has leads. absurd (ground (arith, m));
    sound = sound;
    named = λ v m. absurd (ground (arith, m));
    source = source;
    capped = capped;
    bound = bound;
  }
    where
      keys :
          (v c : ℕ)
          → ((myself == v) ≡ true) × (c ≡ 0)
          → (cost_at start v ≡ c) × (c < route_cost_broken)
      keys v c (t, e) = (start_cost v ∙ (rw t (sym e)), omega (arith, e))

      held :
          (v : ℕ)
          → cost_at start v < route_cost_broken
          → (mem v [] ≡ true) ⊎ ((c : ℕ) × (key_of v ((0, myself) ∷ []) ≡ some c))
      held v lt = elim (start_cases v) [
        | inl (t, _) ↦ inr (0, rw t refl)
        | inr (_, c) ↦ absurd (omega (arith, c, lt))
      ]

      sound :
          (v : ℕ)
          → cost_at start v < route_cost_broken
          → Walk (edges_at tcs) myself v (cost_at start v)
      sound v lt = elim (start_cases v) [
        | inl (t, c) ↦
            let here : myself ≡ v = ground (arith, t) in
            subst (λ n. Walk (edges_at tcs) myself v n) (sym c)
              (subst (λ w. Walk (edges_at tcs) myself w 0) here at_root)
        | inr (_, c) ↦ absurd (omega (arith, c, lt))
      ]

      source : cost_at start myself ≡ 0
      source =
          let self : (myself == myself) ≡ true = ground arith in start_cost myself ∙ (rw self refl)

      capped : (v : ℕ) → cost_at start v ≤ route_cost_broken
      capped v = elim (start_cases v) [
        | inl (_, c) ↦ omega (arith, c)
        | inr (_, c) ↦ omega (arith, c)
      ]

      bound : (v : ℕ) → cost_at start v < route_cost_broken → cost_at start v ≤ b
      bound v lt = elim (start_cases v) [
        | inl (_, c) ↦ omega (arith, c)
        | inr (_, c) ↦ absurd (omega (arith, c, lt))
      ]

-- The calculation ends with a path list of entries, and the cost of every entry is then that of the cheapest walk from the own
-- entry over edges that have an inverse and are not broken, or ROUTE_COST_BROKEN where there is none
-- that is cheaper: provided that the own entry is in the database, that the edges lead to entries of
-- it, and that the dearest edge, times the number of entries, costs less than ROUTE_COST_BROKEN.
pub calculate_paths-Shortest :
    (myself : ℕ) (hops : List (ℕ × ℕ)) (tcs : List (ℕ × Vertex)) (dearest : ℕ)
    → known tcs myself ≡ true
    → Bounded (edges_at tcs) (names_of tcs) dearest
    → Shortest (edges_at tcs) myself (calculate_paths myself hops tcs)
unfolding calculate_paths spf_start
calculate_paths-Shortest myself hops tcs dearest k p =
    run_full-Shortest (edges_at tcs) myself (names_of tcs) dearest p (suc (length tcs))
      (first myself hops tcs k)
      (record {
        inv = start-Inv myself hops tcs k (dearest * 0);
        size = omega (arith, unvisited_none (names_of tcs));
      })
      (omega (arith, unvisited_none (names_of tcs), length-names_of tcs))
