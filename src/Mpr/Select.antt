-- ===== src/Mpr/Select.antt =====
-- The selection of the MPRs in src/mpr.c: the candidates, the loops of olsr_calculate_mpr and
-- olsr_optimize_mpr_set.
use olsrd_hybrid_plc.Prelude.{
  ℕ, zero, suc, ◌%◌, ◌^◌, Bool, true, false, ◌&&◌, Option, none, some, List, [], ◌∷◌, ltb, leb,
  ◌==◌, if◌then◌else◌, get_elem?, length,
}
use olsrd_hybrid_plc.Prelude.Int.{pos, pos_part, ltb_ℤ}
use olsrd_hybrid_plc.Mpr.{
  Neighbor, TwoHop, Tables, sym_status, not_sym, will_always, is_not_not_sym, with_neighbors,
  with_mpr, chosen_mpr,
}
use olsrd_hybrid_plc.Mpr.Count.{clear_mprs, calculate_two_hop_neighbors, check_mpr_changes}

abbrev pub not : Bool → Bool
not true = false
not false = true

-- A two-hop neighbour's only neighbour is symmetric and has this willingness.
abbrev pub one_link_to : Tables → ℕ → TwoHop → Bool
one_link_to s will t = elim (t.nblist) [
  | [] ↦ false
  | i ∷ is ↦ elim (get_elem? (s.neighbors) i) [
    | none ↦ false
    | some n ↦ (t.pointers == 1) && (n.willingness == will) && (n.status == sym_status)
  ]
]

-- The list of `olsr_find_2_hop_neighbors_with_1_link` in front of what is found so far, from the
-- two-hop neighbours that remain.
abbrev pub with_1_link : Tables → ℕ → List TwoHop → List TwoHop → List TwoHop
with_1_link s will [] found = found
with_1_link s will (t ∷ ts) found =
    if is_not_not_sym s (t.addr)
    then with_1_link s will ts found
    else if one_link_to s will t
    then with_1_link s will ts (t ∷ found)
    else with_1_link s will ts found

abbrev pub choose_first : ℕ → TwoHop → Tables × ℕ → Tables × ℕ
choose_first coverage t (s, count) = elim (t.nblist) [
  | [] ↦ (s, count)
  | i ∷ is ↦ elim (get_elem? (s.neighbors) i) [
    | none ↦ (s, count)
    | some n ↦ if n.is_mpr then (s, count) else chosen_mpr coverage i (s, count)
  ]
]

abbrev pub choose_links : ℕ → List TwoHop → Tables × ℕ → Tables × ℕ
choose_links coverage [] s = s
choose_links coverage (t ∷ ts) s = choose_links coverage ts (choose_first coverage t s)

-- The candidate with the most to cover among the neighbours from place `i` on, beyond what is
-- found so far.
unfoldable pub maximum_from : ℕ → List Neighbor → ℕ → ℕ → Option ℕ → Option ℕ
maximum_from will [] i most found = found
maximum_from will (n ∷ ns) i most found =
    if not (n.is_mpr) && (n.willingness == will) && ltb_ℤ (pos most) (n.nocov)
    then maximum_from will ns (suc i) (pos_part (n.nocov) % 2 ^ 16) (some i)
    else maximum_from will ns (suc i) most found

abbrev pub find_maximum_covered : ℕ → List Neighbor → Option ℕ
find_maximum_covered will ns = maximum_from will ns 0 0 none

-- The inner loop of a round; `none` where the fuel is used up.
unfoldable pub cover_maximum : ℕ → ℕ → ℕ → ℕ → Tables × ℕ → Option (Tables × ℕ)
unfolding chosen_mpr maximum_from
cover_maximum zero coverage total will s = none
cover_maximum (suc fuel) coverage total will (s, count) =
    elim (find_maximum_covered will (s.neighbors)) [
      | none ↦ some (s, count)
      | some i ↦
          let next = chosen_mpr coverage i (s, count) in
          elim (leb total (next.1)) [
            | true ↦ some next
            | false ↦ cover_maximum fuel coverage total will next
          ]
    ]

-- The rounds from a willingness down to the lowest one.
unfoldable pub select_down : ℕ → ℕ → ℕ → Tables × ℕ → Option (Tables × ℕ)
unfolding cover_maximum chosen_mpr
select_down coverage total zero s = some s
select_down coverage total (suc will) (s, count) =
    let links = choose_links coverage (with_1_link s (suc will) (s.two_hop_table) []) (s, count) in
    elim (leb total (links.1)) [
      | true ↦ some links
      | false ↦
          elim (cover_maximum (suc (length (links.0.neighbors))) coverage total (suc will) links) [
            | none ↦ none
            | some rounds ↦ elim (leb total (rounds.1)) [
              | true ↦ some rounds
              | false ↦ select_down coverage total will rounds
            ]
          ]
    ]

-- The neighbours from place `i` on that are chosen for their willingness.
abbrev pub add_will_always_from : ℕ → ℕ → List Neighbor → Tables × ℕ → Tables × ℕ
add_will_always_from coverage i [] s = s
add_will_always_from coverage i (n ∷ ns) s =
    if (n.status == not_sym)
    then add_will_always_from coverage (suc i) ns s
    else if (n.willingness == will_always)
    then add_will_always_from coverage (suc i) ns (chosen_mpr coverage i s)
    else add_will_always_from coverage (suc i) ns s

abbrev pub add_will_always_nodes : ℕ → Tables → Tables × ℕ
add_will_always_nodes coverage s = add_will_always_from coverage 0 (s.neighbors) (s, 0)

-- Whether a two-hop neighbour in the list needs this MPR.
abbrev pub needed : Tables → ℕ → List ℕ → Bool
needed s coverage [] = false
needed s coverage (h ∷ hs) = elim (get_elem? (s.two_hop_table) h) [
  | none ↦ needed s coverage hs
  | some t ↦
      if is_not_not_sym s (t.addr)
      then needed s coverage hs
      else if leb (t.covered) coverage
      then true
      else needed s coverage hs
]

abbrev pub optimize_neighbor : Tables → ℕ → ℕ → Neighbor → Neighbor
optimize_neighbor s coverage will n =
    if (n.willingness == will) && n.is_mpr && not (needed s coverage (n.two_hops))
    then with_mpr false (n.was_mpr) n
    else n

abbrev pub optimize_all : Tables → ℕ → ℕ → List Neighbor → List Neighbor
optimize_all s coverage will [] = []
optimize_all s coverage will (n ∷ ns) =
    optimize_neighbor s coverage will n ∷ optimize_all s coverage will ns

-- The passes over `steps` values of the willingness from `will` on.
abbrev pub optimize_passes : Tables → ℕ → ℕ → ℕ → List Neighbor → List Neighbor
optimize_passes s coverage zero will ns = ns
optimize_passes s coverage (suc steps) will ns =
    optimize_passes s coverage steps (suc will) (optimize_all s coverage will ns)

unfoldable pub optimize_mpr_set : ℕ → Tables → Tables
optimize_mpr_set coverage s = with_neighbors (optimize_passes s coverage 6 1 (s.neighbors)) s

-- The end of `olsr_calculate_mpr`: the tables, and whether `signal_link_changes(true)` is called.
abbrev pub finish_mpr : ℕ → ℕ → Tables → Tables × Bool
finish_mpr coverage tc_redundancy s =
    let s' = optimize_mpr_set coverage s in
    let (ns, changed) = check_mpr_changes (s'.neighbors) in
    (with_neighbors ns s', changed && ltb 0 tc_redundancy)

unfoldable pub calculate_mpr : ℕ → ℕ → Tables → Option (Tables × Bool)
unfolding select_down chosen_mpr clear_mprs calculate_two_hop_neighbors optimize_mpr_set
    check_mpr_changes
calculate_mpr coverage tc_redundancy s =
    let (counted, total) = calculate_two_hop_neighbors (clear_mprs s) in
    elim (select_down coverage total 6 (add_will_always_nodes coverage counted)) [
      | none ↦ none
      | some (s', count) ↦ some (finish_mpr coverage tc_redundancy s')
    ]
