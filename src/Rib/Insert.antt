-- ===== src/Rib/Insert.antt =====
-- How paths come into the routing table of src/routing_table.c and leave it. The node of the link-state
-- database that a path belongs to is seen by its address, its hops and its cost, the link by its next hop.
use olsrd_hybrid_plc.Prelude.{
  ℕ, false, Option, none, some, List, [], ◌∷◌, ltb, ◌==◌, if◌then◌else◌, find, put, delete,
}
use olsrd_hybrid_plc.Prelude.Int.{negsuc}
use olsrd_hybrid_plc.Spf.{route_cost_broken}
use olsrd_hybrid_plc.Rib.{Metric, Nexthop, RtPath, RtEntry, prefix_len, points_to}

abbrev pub current_path : ℕ → Nexthop → Metric → ℕ → RtPath
current_path version nh met originator = record {
  rtp_nexthop = nh;
  rtp_metric = met;
  rtp_originator = originator;
  rtp_version = version;
}

abbrev pub with_paths : List (ℕ × RtPath) → RtEntry → RtEntry
with_paths paths rt = record {
  rt_best = rt.rt_best;
  rt_nexthop = rt.rt_nexthop;
  rt_metric = rt.rt_metric;
  rt_path_tree = paths;
  on_list = rt.on_list;
}

-- A path that is in the table already, at the pointer `p`; `none` where it is not.
unfoldable pub update_rt_path :
    ℕ → Nexthop → Metric → ℕ → ℕ → List (ℕ × RtEntry) → Option (List (ℕ × RtEntry))
unfolding find put
update_rt_path version nh met dst p tree = elim (find dst tree) [
  | none ↦ none
  | some rt ↦ elim (find p (rt.rt_path_tree)) [
    | none ↦ none
    | some rtp ↦ some (
        put dst
          (with_paths (put p (current_path version nh met (rtp.rtp_originator)) (rt.rt_path_tree))
            rt)
          tree)
  ]
]

abbrev pub fresh_entry : RtEntry
fresh_entry = record {
  rt_best = none;
  rt_nexthop = record { gateway = 0; iif_index = negsuc 0 };
  rt_metric = record { cost = 0; hops = 0 };
  rt_path_tree = [];
  on_list = false;
}

-- Into a tree without duplicates, in the order of the keys.
abbrev pub insert_entry : ℕ → RtEntry → List (ℕ × RtEntry) → List (ℕ × RtEntry)
insert_entry dst rt [] = (dst, rt) ∷ []
insert_entry dst rt ((j, r) ∷ tree) =
    if ltb dst j
    then (dst, rt) ∷ (j, r) ∷ tree
    else (if j == dst then (j, r) ∷ tree else (j, r) ∷ insert_entry dst rt tree)

abbrev pub insert_path : ℕ → RtPath → List (ℕ × RtPath) → List (ℕ × RtPath)
insert_path p rtp [] = (p, rtp) ∷ []
insert_path p rtp ((q, r) ∷ paths) =
    if ltb (rtp.rtp_originator) (r.rtp_originator)
    then (p, rtp) ∷ (q, r) ∷ paths
    else (if r.rtp_originator == rtp.rtp_originator
        then (q, r) ∷ paths
        else (q, r) ∷ insert_path p rtp paths)

-- The path that is new in the table, at the pointer `p`. Memory is there.
unfoldable pub insert_rt_path :
    ℕ → ℕ → ℕ → Nexthop → Metric → ℕ → ℕ → List (ℕ × RtEntry) → List (ℕ × RtEntry)
unfolding find put
insert_rt_path maxplen version originator nh met dst p tree =
    if met.cost == route_cost_broken
    then tree
    else (if ltb maxplen (prefix_len dst) then tree else (elim (find dst tree) [
      | none ↦
          insert_entry dst
            (with_paths (insert_path p (current_path version nh met originator) []) fresh_entry)
            tree
      | some rt ↦
          put dst
            (with_paths (insert_path p (current_path version nh met originator) (rt.rt_path_tree))
              rt)
            tree
    ]))

-- A path whose entry is at `dst`, and the gateway to the Internet: the entry keeps its best path.
unfoldable pub delete_rt_path :
    ℕ → ℕ → List (ℕ × RtEntry) → Option ℕ → List (ℕ × RtEntry) × Option ℕ
unfolding find put delete
delete_rt_path dst p tree inetgw = (
  (elim (find dst tree) [
    | none ↦ tree
    | some rt ↦ put dst (with_paths (delete p (rt.rt_path_tree)) rt) tree
  ]),
  (if points_to inetgw p then none else inetgw),
)
