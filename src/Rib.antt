-- ===== src/Rib.antt =====
-- The routing table of src/routing_table.c, and its propagation to the kernel by src/process_routes.c.
-- A prefix is the number of the bytes of `struct olsr_ip_prefix`: the address, then the length. The
-- trees are lists in their order; a path is named by its pointer, which `rt_best` may hold after the
-- path is gone.
pub mod Fib
pub mod Paths
pub mod Best
pub mod Entry
pub mod Queued
pub mod Visit
pub mod Updated
pub mod Deleted
pub mod Changed
pub mod Agrees
pub mod Whole
pub mod Insert
pub mod Sorted
pub mod Kept
pub mod Gone
pub mod Routes
pub mod Table
use olsrd_hybrid_plc.Prelude.{
  ℕ, ◌+◌, ◌/◌, ◌%◌, ◌^◌, Bool, true, false, ◌&&◌, ◌||◌, Option, none, some, List, [], ◌∷◌, ◌++◌,
  ltb, ◌==◌, if◌then◌else◌, find, put, bit_and,
}
use olsrd_hybrid_plc.Prelude.Int.{ℤ, pos, negsuc}

pub record Metric : Type 0 where
  pub cost : ℕ
  pub hops : ℕ

pub record Nexthop : Type 0 where
  pub gateway : ℕ
  pub iif_index : ℤ

pub record RtPath : Type 0 where
  pub rtp_nexthop : Nexthop
  pub rtp_metric : Metric
  pub rtp_originator : ℕ
  pub rtp_version : ℕ

-- `on_list` is whether `rt_change_node` is in a queue.
pub record RtEntry : Type 0 where
  pub rt_best : Option ℕ
  pub rt_nexthop : Nexthop
  pub rt_metric : Metric
  pub rt_path_tree : List (ℕ × RtPath)
  pub on_list : Bool

-- The settings that are read. `replaced`: a route function is not the one of the start.
-- `nat_thresh` is the product with lq_nat_thresh, a float, as an olsr_linkcost.
pub record RibConf : Type 0 where
  pub ip6 : Bool
  pub host_emul : Bool
  pub replaced : Bool
  pub fibm_correct : Bool
  pub nat_thresh : ℕ → ℕ

abbrev pub prefix_addr : ℕ → ℕ
prefix_addr dst = dst / 2 ^ 8

abbrev pub prefix_len : ℕ → ℕ
prefix_len dst = dst % 2 ^ 8

abbrev pub is_linklocal : RibConf → ℕ → Bool
is_linklocal conf ip =
    conf.ip6 && (ip / 2 ^ 120 % 2 ^ 8 == 254) && (bit_and (ip / 2 ^ 112 % 2 ^ 8) 192 == 128)

abbrev pub same_ℤ : ℤ → ℤ → Bool
same_ℤ (pos n) (pos m) = n == m
same_ℤ (pos n) (negsuc m) = false
same_ℤ (negsuc n) (pos m) = false
same_ℤ (negsuc n) (negsuc m) = n == m

-- Not below 0.
abbrev pub is_index : ℤ → Bool
is_index (pos n) = true
is_index (negsuc n) = false

abbrev pub nh_change : Nexthop → Nexthop → Bool
nh_change nh1 nh2 =
    if nh1.gateway == nh2.gateway
    then (if same_ℤ (nh1.iif_index) (nh2.iif_index) then false else true)
    else true

abbrev pub hopcount_change : Metric → Metric → Bool
hopcount_change met1 met2 = if met1.hops == met2.hops then false else true

-- `none` where the best path is not there any more.
abbrev pub get_nh : RtEntry → Option Nexthop
get_nh rt = elim (rt.rt_best) [
  | none ↦ some (rt.rt_nexthop)
  | some p ↦ elim (find p (rt.rt_path_tree)) [ none ↦ none | some rtp ↦ some (rtp.rtp_nexthop) ]
]

abbrev pub points_to : Option ℕ → ℕ → Bool
points_to none p = false
points_to (some q) p = q == p

abbrev pub weigh : RibConf → Option ℕ → ℕ → RtPath → ℕ
weigh conf inetgw p rtp =
    if points_to inetgw p then conf.nat_thresh (rtp.rtp_metric.cost) else rtp.rtp_metric.cost

abbrev pub by_originator : RtPath → RtPath → Bool
by_originator rtp1 rtp2 = ltb (rtp1.rtp_originator) (rtp2.rtp_originator)

abbrev pub by_hops : RtPath → RtPath → Bool
by_hops rtp1 rtp2 =
    if ltb (rtp1.rtp_metric.hops) (rtp2.rtp_metric.hops)
    then true
    else (if ltb (rtp2.rtp_metric.hops) (rtp1.rtp_metric.hops)
        then false
        else by_originator rtp1 rtp2)

unfoldable pub cmp_rtp : RibConf → Option ℕ → ℕ × RtPath → ℕ × RtPath → Bool
cmp_rtp conf inetgw (p1, rtp1) (p2, rtp2) =
    if ltb (weigh conf inetgw p1 rtp1) (weigh conf inetgw p2 rtp2)
    then true
    else (if ltb (weigh conf inetgw p2 rtp2) (weigh conf inetgw p1 rtp1)
        then false
        else by_hops rtp1 rtp2)

abbrev pub best_from : RibConf → Option ℕ → ℕ × RtPath → List (ℕ × RtPath) → ℕ × RtPath
best_from conf inetgw best [] = best
best_from conf inetgw best (x ∷ paths) =
    best_from conf inetgw (if cmp_rtp conf inetgw x best then x else best) paths

abbrev pub with_best : Option ℕ → RtEntry → RtEntry
with_best best rt = record {
  rt_best = best;
  rt_nexthop = rt.rt_nexthop;
  rt_metric = rt.rt_metric;
  rt_path_tree = rt.rt_path_tree;
  on_list = rt.on_list;
}

-- The entry with its best path, and the Internet gateway; `none` where the assertion fails.
abbrev pub rt_best_of : RibConf → Option ℕ → ℕ → RtEntry → Option (RtEntry × Option ℕ)
rt_best_of conf inetgw dst rt = elim (rt.rt_path_tree) [
  | [] ↦ none
  | x ∷ paths ↦
      let best = best_from conf inetgw x paths in
      some (with_best (some (best.0)) rt, (if prefix_len dst == 0 then some (best.0) else inetgw))
]

abbrev pub current_paths : ℕ → List (ℕ × RtPath) → List (ℕ × RtPath)
current_paths version [] = []
current_paths version ((p, rtp) ∷ paths) =
    if version == rtp.rtp_version
    then (p, rtp) ∷ current_paths version paths
    else current_paths version paths

abbrev pub reset_best : ℕ → List (ℕ × RtPath) → Option ℕ → Option ℕ
reset_best version [] best = best
reset_best version ((p, rtp) ∷ paths) best =
    reset_best version paths
      (if version == rtp.rtp_version then best else (if points_to best p then none else best))

abbrev pub delete_outdated_routes : ℕ → RtEntry → RtEntry
delete_outdated_routes version rt = record {
  rt_best = reset_best version (rt.rt_path_tree) (rt.rt_best);
  rt_nexthop = rt.rt_nexthop;
  rt_metric = rt.rt_metric;
  rt_path_tree = current_paths version (rt.rt_path_tree);
  on_list = rt.on_list;
}

-- The gateway to the Internet and the queues. An entry in the queue of changes is in the tree, one in
-- the queue of deletions is not.
pub record Queues : Type 0 where
  pub current_inetgw : Option ℕ
  pub chg_kernel_list : List ℕ
  pub del_kernel_list : List (ℕ × RtEntry)

abbrev pub enqueue {ℓ} : {A : Type ℓ} → ℕ → Nexthop → A → List A → List A
enqueue dst nh x queue = if prefix_addr dst == nh.gateway then x ∷ queue else queue ++ (x ∷ [])

abbrev pub with_on_list : Bool → RtEntry → RtEntry
with_on_list b rt = record {
  rt_best = rt.rt_best;
  rt_nexthop = rt.rt_nexthop;
  rt_metric = rt.rt_metric;
  rt_path_tree = rt.rt_path_tree;
  on_list = b;
}

-- The flush of an entry that has left the tree; `none` also where it is in the queue of changes still.
abbrev pub flush : ℕ → RtEntry → Queues → Option Queues
flush dst rt q = if rt.on_list then none else (elim (get_nh rt) as (λ o. Option Queues) [
  | none ↦ none
  | some nh ↦ some (record {
    current_inetgw = q.current_inetgw;
    chg_kernel_list = q.chg_kernel_list;
    del_kernel_list = enqueue dst nh (dst, with_on_list true rt) (q.del_kernel_list);
  })
])

abbrev pub is_changed : RibConf → RtPath → RtEntry → Bool
is_changed conf rtp rt =
    nh_change (rtp.rtp_nexthop) (rt.rt_nexthop)
    || (conf.fibm_correct && hopcount_change (rtp.rtp_metric) (rt.rt_metric))

abbrev pub with_change : ℕ → Nexthop → Option ℕ → Queues → Queues
with_change dst nh inetgw q = record {
  current_inetgw = inetgw;
  chg_kernel_list = enqueue dst nh dst (q.chg_kernel_list);
  del_kernel_list = q.del_kernel_list;
}

abbrev pub with_inetgw : Option ℕ → Queues → Queues
with_inetgw inetgw q = record {
  current_inetgw = inetgw;
  chg_kernel_list = q.chg_kernel_list;
  del_kernel_list = q.del_kernel_list;
}

-- The election for an entry that has a path.
abbrev pub elect : RibConf → ℕ → RtEntry → Queues → Option (RtEntry × Queues)
elect conf dst rt q = elim (rt_best_of conf (q.current_inetgw) dst rt) [
  | none ↦ none
  | some (rt', inetgw) ↦ elim (rt'.rt_best) [
    | none ↦ none
    | some p ↦ elim (find p (rt'.rt_path_tree)) [
      | none ↦ none
      | some rtp ↦
          if is_changed conf rtp rt' && (if rt'.on_list then false else true)
          then some (with_on_list true rt', with_change dst (rtp.rtp_nexthop) inetgw q)
          else some (rt', with_inetgw inetgw q)
    ]
  ]
]

-- The entries in their order; an entry without paths leaves the tree.
unfoldable pub update_rib_routes :
    RibConf → ℕ → List (ℕ × RtEntry) → Queues → Option (List (ℕ × RtEntry) × Queues)
unfolding find cmp_rtp
update_rib_routes conf version [] q = some ([], q)
update_rib_routes conf version ((dst, rt0) ∷ tree) q =
    let rt = delete_outdated_routes version rt0 in
    elim (rt.rt_path_tree) as (λ paths. Option (List (ℕ × RtEntry) × Queues)) [
      | [] ↦ elim (flush dst rt q) [
        | none ↦ none
        | some q' ↦ update_rib_routes conf version tree q'
      ]
      | x ∷ paths ↦ elim (elect conf dst rt q) [
        | none ↦ none
        | some (rt', q') ↦ elim (update_rib_routes conf version tree q') [
          | none ↦ none
          | some (tree', q'') ↦ some ((dst, rt') ∷ tree', q'')
        ]
      ]
    ]
