-- ===== src/Tests/Mprs.antt =====
-- src/mpr.c on concrete inputs.
use olsrd_hybrid_plc.Prelude.{
  All, ◌≡◌, refl, find, Bool, true, false, some, none, List, [], ◌∷◌, map, arith,
}
use olsrd_hybrid_plc.Prelude.Int.{pos}
use olsrd_hybrid_plc.Mpr.{Neighbor, TwoHop, Tables}
use olsrd_hybrid_plc.Mpr.Count.{check_mpr_changes}
use olsrd_hybrid_plc.Mpr.Select.{find_maximum_covered, calculate_mpr, optimize_mpr_set}
use olsrd_hybrid_plc.Mpr.Maximum.{Best, find_maximum_covered-Best}
use olsrd_hybrid_plc.Mpr.Calculated.{Calculated, calculate_mpr-Calculated}
use olsrd_hybrid_plc.Mpr.Optimized.{Pairwise, Optimized, optimize_mpr_set-Optimized}
use olsrd_hybrid_plc.Mpr.Changes.{any_lost, check_mpr_changes-any_lost}

-- A symmetric neighbour and one that is not, and a two-hop neighbour of both.
abbrev near : Neighbor
near = record {
  main_addr = 1;
  status = 1;
  willingness = 3;
  is_mpr = false;
  was_mpr = false;
  nocov = pos 1;
  two_hops = 0 ∷ [];
}

abbrev away : Neighbor
away = record {
  main_addr = 2;
  status = 0;
  willingness = 6;
  is_mpr = false;
  was_mpr = false;
  nocov = pos 1;
  two_hops = 0 ∷ [];
}

abbrev far : TwoHop
far = record { addr = 9; covered = 0; processed = false; pointers = 2; nblist = 0 ∷ 1 ∷ [] }

abbrev tables : Tables
tables = record { neighbors = near ∷ away ∷ []; two_hop_table = far ∷ []; mids = [] }

abbrev mprs_of : Tables → List Bool
mprs_of s = map (λ (n : Neighbor). n.is_mpr) (s.neighbors)

-- The asymmetric neighbour is the only MPR, since its count is not zero and its willingness is higher.
calculate_mpr_asymmetric :
    (elim (calculate_mpr 1 0 tables) as (λ o. List Bool) [
      | none ↦ []
      | some (s, changed) ↦ mprs_of s
    ])
    ≡ false ∷ true ∷ []
unfolding calculate_mpr find
calculate_mpr_asymmetric = refl

calculate_mpr-Calculated_example : Calculated (calculate_mpr 1 0 tables)
calculate_mpr-Calculated_example = calculate_mpr-Calculated 1 0 tables

find_maximum_covered-Best_example :
    Best 3 (near ∷ away ∷ []) (find_maximum_covered 3 (near ∷ away ∷ []))
find_maximum_covered-Best_example = find_maximum_covered-Best 3 (near ∷ away ∷ []) (omega arith)

-- Two MPRs: the two-hop neighbour of the first is covered once, that of the second twice.
abbrev only_mpr : Neighbor
only_mpr = record near { is_mpr = true }

abbrev spare_mpr : Neighbor
spare_mpr = record near { main_addr = 3; is_mpr = true; two_hops = 1 ∷ [] }

abbrev chosen : Tables
chosen = record {
  neighbors = only_mpr ∷ spare_mpr ∷ [];
  two_hop_table = record far { covered = 1 } ∷ record far { addr = 10; covered = 2 } ∷ [];
  mids = [];
}

the_needed_stays : mprs_of (optimize_mpr_set 1 chosen) ≡ true ∷ false ∷ []
unfolding optimize_mpr_set find
the_needed_stays = refl

optimize_mpr_set-Optimized_example :
    Pairwise (Optimized chosen 1) (chosen.neighbors) ((optimize_mpr_set 1 chosen).neighbors)
optimize_mpr_set-Optimized_example = optimize_mpr_set-Optimized 1 chosen

check_mpr_changes-any_lost_example :
    ((check_mpr_changes (near ∷ away ∷ [])).1 ≡ any_lost (near ∷ away ∷ []))
    × All (λ (n : Neighbor). n.was_mpr ≡ false) ((check_mpr_changes (near ∷ away ∷ [])).0)
check_mpr_changes-any_lost_example = check_mpr_changes-any_lost (near ∷ away ∷ [])
