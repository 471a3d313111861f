-- ===== src/Rib/Whole.antt =====
-- An update of the routing table and of the kernel, by src/process_routes.c.
use olsrd_hybrid_plc.Prelude.{
  All, All-map, ℕ, ◌≡◌, refl, sym, ap, ◌∙◌, true, false, inl, inr, Option, none, some, List, [],
  arith, if◌then◌else◌, find, mem,
}
use olsrd_hybrid_plc.Rib.{
  Nexthop, RtPath, RtEntry, RibConf, Queues, is_index, is_linklocal, prefix_addr, update_rib_routes,
}
use olsrd_hybrid_plc.Rib.Fib.{
  Export, del_kernel_routes, update_kernel_routes, with_queues_empty, update_routes,
}
use olsrd_hybrid_plc.Rib.Paths.{All-found}
use olsrd_hybrid_plc.Rib.Entry.{Well, HasBest}
use olsrd_hybrid_plc.Rib.Queued.{fib, Ready, Queued, QueuedResult}
use olsrd_hybrid_plc.Rib.Updated.{update_rib_routes-Queued}
use olsrd_hybrid_plc.Rib.Deleted.{FibLaws, del_kernel_routes-fib}
use olsrd_hybrid_plc.Rib.Changed.{Succeeds, Safe}
use olsrd_hybrid_plc.Rib.Agrees.{
  all_of_found, Ripe, Finished, AppliedResult, chg_kernel_routes-Applied, InStep, Updated,
}

module _ {K : Type 0} (export : Export K) (conf : RibConf) (look : K → ℕ → Option Nexthop)
    (laws : FibLaws export look) (live : conf.host_emul ≡ false) where
  module _ (tree : List (ℕ × RtEntry)) (inetgw : Option ℕ) (kernel : K)
      (before : InStep export conf look laws live tree kernel)
      (safe : (w : ℕ) (rt : RtEntry) → find w tree ≡ some rt → Safe export conf w) where
    module _ (tree1 : List (ℕ × RtEntry)) (q : Queues) (h : Queued conf tree [] [] tree1 q) where
      -- With the kernel after its changes.
      applied_Updated :
          (o : Option (List (ℕ × RtEntry) × K))
          → AppliedResult export conf look laws live (q.chg_kernel_list) tree1 o
          → Updated export conf look laws live
              (elim o as (λ o. Option (List (ℕ × RtEntry) × Option ℕ × K)) [
                | none ↦ none
                | some (tree'', kernel') ↦ some (tree'', q.current_inetgw, kernel')
              ])
      applied_Updated none a = elim a [ ]
      applied_Updated (some (tree2, kernel2)) a = (
        record {
          apart = a.apart;
          well =
              All-map (λ x. Ripe export conf look laws live x) (λ x. Well conf (x.0) (x.1)) tree2
                (λ x r. r.0) (a.ripe);
          off =
              all_of_found (λ x. x.1.on_list ≡ false) tree2 (a.apart)
                (λ w rt e. (finished w rt e).0);
          agree = a.agree;
        },
        best,
      )
        where
          finished :
              (w : ℕ) (rt : RtEntry)
              → find w tree2 ≡ some rt
              → Finished export conf look laws live w rt
          finished w rt e = elim (a.finished w rt e) [
            | inl f ↦ f
            | inr (same, unqueued) ↦
                let (rtp, best, queued) =
                  All-found (Ready (q.chg_kernel_list)) tree1 w rt (h.ready) same in
                elim queued [
                  | inl m ↦ absurd (ground (arith, sym unqueued ∙ m))
                  | inr (off, nh) ↦ (off, (λ s l. (rtp, best, nh)))
                ]
          ]

          best :
              (w : ℕ) (rt : RtEntry)
              → find w tree2 ≡ some rt
              → Succeeds export
              → is_linklocal conf (prefix_addr w) ≡ false
              → (rtp : RtPath) × HasBest rt rtp × (look kernel2 w ≡ some (rtp.rtp_nexthop))
          best w rt e s l =
              let (rtp, (p, e1, e2), nh) = (finished w rt e).1 s l in
              let (well, _) =
                All-found (λ x. Ripe export conf look laws live x) tree2 w rt (a.ripe) e in
              let i : is_index (rtp.rtp_nexthop.iif_index) ≡ true =
                All-found (λ x. is_index (x.1.rtp_nexthop.iif_index) ≡ true) (rt.rt_path_tree) p rtp
                  (well.indices) e2 in
              let there : fib (some rt) ≡ some (rtp.rtp_nexthop) =
                ap (λ n. if is_index (n.iif_index) then some n else none) nh ∙ (rw i refl) in
              (rtp, (p, e1, e2), a.agree w ∙ ap fib e ∙ there)

      queued_Updated :
          Updated export conf look laws live
            (elim (update_kernel_routes export conf tree1 q kernel)
              as (λ o. Option (List (ℕ × RtEntry) × Option ℕ × K)) [
                | none ↦ none
                | some (tree'', kernel') ↦ some (tree'', q.current_inetgw, kernel')
              ])
      unfolding find
      queued_Updated = applied_Updated (update_kernel_routes export conf tree1 q kernel) (
          chg_kernel_routes-Applied export conf look laws live (q.chg_kernel_list) tree1
            (del_kernel_routes export conf (q.del_kernel_list) kernel) (h.apart) ripe
            (del_kernel_routes-fib export conf look laws live tree1 (q.del_kernel_list) kernel
              (h.near) (h.disjoint) (λ w. before.agree w ∙ sym (h.kept w)))
            known (λ w m. safe_known w (known w m)))
        where
          ripe : All (λ x. Ripe export conf look laws live x) tree1
          ripe =
              all_of_found (λ x. Ripe export conf look laws live x) tree1 (h.apart)
                (λ w rt e.
                  let (rtp, best, _) =
                    All-found (Ready (q.chg_kernel_list)) tree1 w rt (h.ready) e in
                  (All-found (λ x. Well conf (x.0) (x.1)) tree1 w rt (h.well) e, (rtp, best)))

          known :
              (w : ℕ) → mem w (q.chg_kernel_list) ≡ true → (rt : RtEntry) × (find w tree1 ≡ some rt)
          known w m = elim (h.known w m) [ inl m' ↦ absurd (ground (arith, m')) | inr k ↦ k ]

          safe_known : (w : ℕ) → ((rt : RtEntry) × (find w tree1 ≡ some rt)) → Safe export conf w
          safe_known w (rt, e) = go (find w tree) refl
            where
              go : (o : Option RtEntry) → find w tree ≡ o → Safe export conf w
              go none e' = absurd (ground (arith, sym ((h.absent w e').0) ∙ e))
              go (some r) e' = safe w r e'

    rib_Updated :
        (o : Option (List (ℕ × RtEntry) × Queues))
        → QueuedResult conf tree [] [] o
        → Updated export conf look laws live
            (elim o as (λ o. Option (List (ℕ × RtEntry) × Option ℕ × K)) [
              | none ↦ none
              | some (tree', q) ↦ elim (update_kernel_routes export conf tree' q kernel) [
                | none ↦ none
                | some (tree'', kernel') ↦ some (tree'', q.current_inetgw, kernel')
              ]
            ])
    rib_Updated none h = elim h [ ]
    rib_Updated (some (tree1, q)) h = queued_Updated tree1 q h

  -- Outside of the emulation of hosts, where the kernel's functions obey their laws and the table and
  -- the kernel are in step, and for each route of the table either none is deleted before its change or
  -- none is refused and this one is not to an address local to a link: an update does not follow a pointer
  -- that is gone and leaves the table and the kernel in step; if no route is refused, every route that is
  -- not to an address local to a link then has the next hop of its best path in the kernel.
  pub update_routes-InStep :
      (version : ℕ) (tree : List (ℕ × RtEntry)) (inetgw : Option ℕ) (kernel : K)
      → InStep export conf look laws live tree kernel
      → ((w : ℕ) (rt : RtEntry) → find w tree ≡ some rt → Safe export conf w)
      → Updated export conf look laws live (update_routes export conf version tree inetgw kernel)
  unfolding update_routes find
  update_routes-InStep version tree inetgw kernel before safe =
      rib_Updated tree inetgw kernel before safe
        (update_rib_routes conf version tree (with_queues_empty export conf inetgw))
        (update_rib_routes-Queued conf version tree (with_queues_empty export conf inetgw)
          (before.apart) (before.well) (before.off) (λ w. inr refl) tt)
