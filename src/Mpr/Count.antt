-- ===== src/Mpr/Count.antt =====
-- What src/mpr.c does to the whole tables before and after the selection: olsr_clear_mprs,
-- olsr_clear_two_hop_processed, olsr_calculate_two_hop_neighbors and olsr_check_mpr_changes.
use olsrd_hybrid_plc.Prelude.{
  ℕ, ◌+◌, ◌%◌, ◌^◌, Bool, true, false, none, some, List, [], ◌∷◌, map, ◌==◌, if◌then◌else◌,
  get_elem?,
}
use olsrd_hybrid_plc.Prelude.Int.{pos}
use olsrd_hybrid_plc.Mpr.{
  Neighbor, TwoHop, Tables, not_sym, update, is_one_hop, with_neighbors, with_two_hops, with_nocov,
  with_mpr, with_covered, with_processed,
}

abbrev pub clear_mpr : Neighbor → Neighbor
clear_mpr n = if n.is_mpr then with_mpr false true n else n

abbrev pub clear_covered : List ℕ → List TwoHop → List TwoHop
clear_covered [] ts = ts
clear_covered (h ∷ hs) ts = clear_covered hs (update h (with_covered 0) ts)

abbrev pub clear_all_covered : List Neighbor → List TwoHop → List TwoHop
clear_all_covered [] ts = ts
clear_all_covered (n ∷ ns) ts = clear_all_covered ns (clear_covered (n.two_hops) ts)

unfoldable pub clear_mprs : Tables → Tables
clear_mprs s = record {
  neighbors = map clear_mpr (s.neighbors);
  two_hop_table = clear_all_covered (s.neighbors) (s.two_hop_table);
  mids = s.mids;
}

abbrev pub clear_two_hop_processed : List TwoHop → List TwoHop
clear_two_hop_processed ts = map (with_processed false) ts

-- The counts `count`, `n_count` and `sum`, and the two-hop neighbours.
pub record Counts : Type 0 where
  pub count : ℕ
  pub n_count : ℕ
  pub sum : ℕ
  pub table : List TwoHop

abbrev pub count_entry : Tables → ℕ → TwoHop → Counts → Counts
count_entry s h t c =
    let n' = (c.n_count + 1) % 2 ^ 16 in
    if is_one_hop s (t.addr)
    then c
    else if t.processed
    then record { count = c.count; n_count = n'; sum = c.sum; table = c.table }
    else record {
      count = (c.count + 1) % 2 ^ 16;
      n_count = n';
      sum = c.sum;
      table = update h (with_processed true) (c.table);
    }

abbrev pub count_entries : Tables → List ℕ → Counts → Counts
count_entries s [] c = c
count_entries s (h ∷ hs) c = elim (get_elem? (c.table) h) [
  | none ↦ count_entries s hs c
  | some t ↦ count_entries s hs (count_entry s h t c)
]

-- A neighbour with its share of the count, and the counts after it.
abbrev pub count_neighbor : Tables → Neighbor → Counts → Neighbor × Counts
count_neighbor s n c =
    let c' = count_entries s (n.two_hops) c in
    if n.status == not_sym then (with_nocov (pos (c.count)) n, c) else (
      with_nocov (pos (c'.n_count)) n,
      record {
        count = c'.count;
        n_count = c'.n_count;
        sum = (c'.sum + c'.count) % 2 ^ 16;
        table = c'.table;
      },
    )

abbrev pub count_neighbors : Tables → List Neighbor → Counts → List Neighbor × Counts
count_neighbors s [] c = ([], c)
count_neighbors s (n ∷ ns) c =
    let (n', c') = count_neighbor s n c in
    let (ns', c'') = count_neighbors s ns c' in (n' ∷ ns', c'')

unfoldable pub calculate_two_hop_neighbors : Tables → Tables × ℕ
calculate_two_hop_neighbors s =
    let start : Counts = record {
      count = 0;
      n_count = 0;
      sum = 0;
      table = clear_two_hop_processed (s.two_hop_table);
    } in
    let (ns, c) = count_neighbors s (s.neighbors) start in
    (with_neighbors ns (with_two_hops (c.table) s), c.sum)

-- The neighbours without their earlier state, and whether an MPR is one no more.
unfoldable pub check_mpr_changes : List Neighbor → List Neighbor × Bool
check_mpr_changes [] = ([], false)
check_mpr_changes (n ∷ ns) =
    let (ns', changed) = check_mpr_changes ns in
    let lost = if n.is_mpr then changed else true in
    if n.was_mpr then (with_mpr (n.is_mpr) false n ∷ ns', lost) else (n ∷ ns', changed)
