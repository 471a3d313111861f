-- ===== src/Rib/Fib.antt =====
-- The queues of src/process_routes.c on their way to the kernel. The functions that the platform
-- exports routes with are parameters: they change a state of the kernel, and one says whether it failed.
use olsrd_hybrid_plc.Prelude.{
  ℕ, ◌+◌, ◌%◌, ◌^◌, Bool, true, false, ◌&&◌, ◌||◌, Option, none, some, List, [], ◌∷◌, ltb,
  if◌then◌else◌, find, put,
}
use olsrd_hybrid_plc.Rib.{
  Metric, RtPath, RtEntry, RibConf, Queues, prefix_addr, is_linklocal, is_index, with_on_list,
  get_nh, enqueue, update_rib_routes,
}

pub record Export (K : Type 0) : Type 0 where
  pub addroute : ℕ → RtEntry → K → K × Bool
  pub delroute : ℕ → RtEntry → K → K

-- A route over several hops to an address that is local to a link.
abbrev pub is_far_linklocal : RibConf → ℕ → Metric → Bool
is_far_linklocal conf dst met = ltb 1 (met.hops) && is_linklocal conf (prefix_addr dst)

abbrev pub bump_version : ℕ → ℕ
bump_version version = (version + 1) % 2 ^ 32

module _ {K : Type 0} (export : Export K) (conf : RibConf) where
  abbrev pub delete_kernel_route : ℕ → RtEntry → K → K
  delete_kernel_route dst rt kernel =
      if is_far_linklocal conf dst (rt.rt_metric)
      then kernel
      else (if conf.host_emul then kernel else export.delroute dst rt kernel)

  abbrev pub with_route : RtPath → RtEntry → RtEntry
  with_route rtp rt = record {
    rt_best = rt.rt_best;
    rt_nexthop = rtp.rtp_nexthop;
    rt_metric = rtp.rtp_metric;
    rt_path_tree = rt.rt_path_tree;
    on_list = rt.on_list;
  }

  -- `none` where the best path is not there.
  abbrev pub add_kernel_route : ℕ → RtEntry → K → Option (RtEntry × K)
  add_kernel_route dst rt kernel = elim (rt.rt_best) [
    | none ↦ none
    | some p ↦ elim (find p (rt.rt_path_tree)) as (λ o. Option (RtEntry × K)) [
      | none ↦ none
      | some rtp ↦
          if is_far_linklocal conf dst (rtp.rtp_metric)
          then some (rt, kernel)
          else (if conf.host_emul
              then some (rt, kernel)
              else (let answer = export.addroute dst rt kernel in
                  if answer.1 then some (with_route rtp rt, answer.0) else some (rt, answer.0)))
    ]
  ]

  abbrev pub deletes_first : RtEntry → Bool
  deletes_first rt = (conf.ip6 || conf.replaced) && is_index (rt.rt_nexthop.iif_index)

  abbrev pub change_route : ℕ → RtEntry → K → Option (RtEntry × K)
  change_route dst rt kernel =
      add_kernel_route dst rt
        (if deletes_first rt then delete_kernel_route dst rt kernel else kernel)

  -- The queue of changes, from its head.
  unfoldable pub chg_kernel_routes :
      List ℕ → List (ℕ × RtEntry) → K → Option (List (ℕ × RtEntry) × K)
  unfolding find put
  chg_kernel_routes [] tree kernel = some (tree, kernel)
  chg_kernel_routes (dst ∷ queue) tree kernel = elim (find dst tree) [
    | none ↦ none
    | some rt ↦ elim (change_route dst rt kernel) [
      | none ↦ none
      | some (rt', kernel') ↦
          chg_kernel_routes queue (put dst (with_on_list false rt') tree) kernel'
    ]
  ]

  -- The queue of deletions, from its tail.
  abbrev pub del_kernel_routes : List (ℕ × RtEntry) → K → K
  del_kernel_routes [] kernel = kernel
  del_kernel_routes ((dst, rt) ∷ queue) kernel =
      let kernel' = del_kernel_routes queue kernel in
      if is_index (rt.rt_nexthop.iif_index) then delete_kernel_route dst rt kernel' else kernel'

  abbrev pub update_kernel_routes :
      List (ℕ × RtEntry) → Queues → K → Option (List (ℕ × RtEntry) × K)
  update_kernel_routes tree q kernel =
      chg_kernel_routes (q.chg_kernel_list) tree (del_kernel_routes (q.del_kernel_list) kernel)

  abbrev pub with_queues_empty : Option ℕ → Queues
  with_queues_empty inetgw = record {
    current_inetgw = inetgw;
    chg_kernel_list = [];
    del_kernel_list = [];
  }

  -- The end of a calculation of routes: the table and the gateway, and the kernel.
  unfoldable pub update_routes :
      ℕ → List (ℕ × RtEntry) → Option ℕ → K → Option (List (ℕ × RtEntry) × Option ℕ × K)
  unfolding update_rib_routes chg_kernel_routes
  update_routes version tree inetgw kernel =
      elim (update_rib_routes conf version tree (with_queues_empty inetgw)) [
        | none ↦ none
        | some (tree', q) ↦ elim (update_kernel_routes tree' q kernel) [
          | none ↦ none
          | some (tree'', kernel') ↦ some (tree'', q.current_inetgw, kernel')
        ]
      ]

  unfoldable pub delete_all_kernel_routes :
      ℕ → List (ℕ × RtEntry) → Option ℕ → K → Option (List (ℕ × RtEntry) × Option ℕ × K)
  unfolding update_routes
  delete_all_kernel_routes version tree inetgw kernel =
      update_routes (bump_version version) tree inetgw kernel

  -- olsr_force_kernelroutes_refresh puts every entry in the queue of changes.
  abbrev pub enqueue_all : List (ℕ × RtEntry) → List ℕ → Option (List (ℕ × RtEntry) × List ℕ)
  enqueue_all [] queue = some ([], queue)
  enqueue_all ((dst, rt) ∷ tree) queue =
      let queue' =
        (if rt.on_list then some queue else (elim (get_nh rt) as (λ o. Option (List ℕ)) [
          | none ↦ none
          | some nh ↦ some (enqueue dst nh dst queue)
        ])) in
      elim queue' [
        | none ↦ none
        | some queue' ↦ elim (enqueue_all tree queue') [
          | none ↦ none
          | some (tree', queue'') ↦ some ((dst, with_on_list true rt) ∷ tree', queue'')
        ]
      ]

  unfoldable pub force_kernelroutes_refresh :
      List (ℕ × RtEntry) → K → Option (List (ℕ × RtEntry) × K)
  unfolding chg_kernel_routes
  force_kernelroutes_refresh tree kernel = elim (enqueue_all tree []) [
    | none ↦ none
    | some (tree', queue) ↦ chg_kernel_routes queue tree' kernel
  ]
