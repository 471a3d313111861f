-- ===== src/Tests/Linkage.antt =====
-- src/link_set.c and src/mpr_selector_set.c on concrete inputs.
use olsrd_hybrid_plc.Prelude.{mem, ◌≡◌, refl, true, false, some, [], ◌∷◌, find, if◌then◌else◌}
use olsrd_hybrid_plc.Clock.{is_timed_out}
use olsrd_hybrid_plc.Links.{
  LinkEntry, Sensing, HelloNeighbor, get_best_link_to_neighbor, main_address, check_link_status,
  lookup_link_status, sym_link, unspec_link,
}
use olsrd_hybrid_plc.Links.Best.{Cheapest, AllSymmetric, get_best_link_to_neighbor-Cheapest}
use olsrd_hybrid_plc.Selectors.{chosen, expired, run_all}
use olsrd_hybrid_plc.Selectors.History.{holds, changes, run_all-holds}
use olsrd_hybrid_plc.Links.Reported.{statuses, last_of, check_link_status-last_of}

-- Two links to the neighbour 7: the first one is cheaper, and asymmetric in the second set.
abbrev dear : LinkEntry
dear = record {
  local_iface_addr = 1;
  neighbor_iface_addr = 7;
  if_name = some 0;
  link_sym_timer = true;
  asym_time = 5000;
  neighbor = 7;
  link_pending = false;
  lost_link_time = 0;
  linkcost = 4000;
}

abbrev cheap : LinkEntry
cheap = record {
  local_iface_addr = 2;
  neighbor_iface_addr = 7;
  if_name = some 1;
  link_sym_timer = true;
  asym_time = 5000;
  neighbor = 7;
  link_pending = false;
  lost_link_time = 0;
  linkcost = 2000;
}

abbrev cheap_asymmetric : LinkEntry
cheap_asymmetric = record {
  local_iface_addr = 2;
  neighbor_iface_addr = 7;
  if_name = some 1;
  link_sym_timer = false;
  asym_time = 5000;
  neighbor = 7;
  link_pending = false;
  lost_link_time = 0;
  linkcost = 2000;
}

abbrev symmetric_links : Sensing
symmetric_links = record {
  now = 1000;
  use_hysteresis = false;
  lq_level = 2;
  links = cheap ∷ dear ∷ [];
  ifnet = [];
  main_of = [];
  aliases_of = [];
}

abbrev mixed_links : Sensing
mixed_links = record {
  now = 1000;
  use_hysteresis = false;
  lq_level = 2;
  links = cheap_asymmetric ∷ dear ∷ [];
  ifnet = [];
  main_of = [];
  aliases_of = [];
}

all_symmetric : AllSymmetric symmetric_links (symmetric_links.links)
unfolding lookup_link_status
all_symmetric = (refl, (refl, tt))

get_best_link_to_neighbor-Cheapest_example :
    Cheapest symmetric_links
      (main_address symmetric_links 7)
      (get_best_link_to_neighbor symmetric_links 7)
get_best_link_to_neighbor-Cheapest_example =
    get_best_link_to_neighbor-Cheapest symmetric_links 7 all_symmetric

-- A cheaper asymmetric link in front is returned in place of a symmetric one.
get_best_link_asymmetric : get_best_link_to_neighbor mixed_links 7 ≡ some cheap_asymmetric
unfolding get_best_link_to_neighbor lookup_link_status is_timed_out find
get_best_link_asymmetric = refl

abbrev asym_report : HelloNeighbor
asym_report = record { address = 1; link = 1 }

abbrev sym_report : HelloNeighbor
sym_report = record { address = 1; link = 2 }

abbrev unspec_report : HelloNeighbor
unspec_report = record { address = 1; link = 0 }

-- An entry without a status does not count.
last_status : check_link_status 1 (asym_report ∷ unspec_report ∷ []) ≡ 1
unfolding check_link_status
last_status = refl

check_link_status-last_of_example :
    check_link_status 1 (sym_report ∷ asym_report ∷ unspec_report ∷ []) ≡ (
      if mem sym_link (statuses 1 (sym_report ∷ asym_report ∷ unspec_report ∷ []))
      then sym_link
      else last_of unspec_link (statuses 1 (sym_report ∷ asym_report ∷ unspec_report ∷ [])))
check_link_status-last_of_example =
    check_link_status-last_of 1 (sym_report ∷ asym_report ∷ unspec_report ∷ [])

-- A selector that is set again expires.
run_all-holds_example :
    (find 5 ((run_all (expired 5 ∷ chosen 5 300 ∷ chosen 5 200 ∷ [])).mprs_list)
      ≡ holds (expired 5 ∷ chosen 5 300 ∷ chosen 5 200 ∷ []) 5)
    × ((run_all (expired 5 ∷ chosen 5 300 ∷ chosen 5 200 ∷ [])).signals
        ≡ changes (expired 5 ∷ chosen 5 300 ∷ chosen 5 200 ∷ []))
run_all-holds_example = run_all-holds (expired 5 ∷ chosen 5 300 ∷ chosen 5 200 ∷ []) 5
