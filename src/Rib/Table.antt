-- ===== src/Rib/Table.antt =====
-- olsr_calculate_routing_table of src/olsr_spf.c: from the shortest paths to the kernel.
use olsrd_hybrid_plc.Prelude.{
  All, ℕ, ◌≡◌, refl, arith, true, false, Bool-cases, ◌||◌, inl, inr, Option, none, some, List, [],
  ◌∷◌, ◌==◌, find, mem,
}
use olsrd_hybrid_plc.Spf.{Vertex, Spf, calculate_paths}
use olsrd_hybrid_plc.Spf.Graph.{edges_at, known, known_entry}
use olsrd_hybrid_plc.Spf.Shortest.{Bounded, Shortest}
use olsrd_hybrid_plc.Spf.Start.{names_of, calculate_paths-Shortest}
use olsrd_hybrid_plc.Rib.{Nexthop, RtEntry, RibConf, is_index}
use olsrd_hybrid_plc.Rib.Fib.{Export, bump_version, update_routes}
use olsrd_hybrid_plc.Rib.Whole.{update_routes-InStep}
use olsrd_hybrid_plc.Rib.Deleted.{FibLaws}
use olsrd_hybrid_plc.Rib.Agrees.{InStep, Updated}
use olsrd_hybrid_plc.Rib.Routes.{Reached, reached_of, calculate_routes, calculate_routes-Updated}

-- The own entry is none when there is no main address. The next hops of the links and the prefixes of
-- the nodes are arguments.
unfoldable pub calculate_routing_table :
    {K : Type 0}
    → Export K
    → RibConf
    → (ℕ → Nexthop)
    → (ℕ → List (ℕ × ℕ))
    → ℕ
    → Option ℕ
    → List (ℕ × ℕ)
    → List (ℕ × Vertex)
    → ℕ
    → List (ℕ × RtEntry)
    → Option ℕ
    → K
    → Option (List (ℕ × RtEntry) × Option ℕ × K)
unfolding calculate_paths calculate_routes update_routes find
calculate_routing_table {K = K} export conf links prefixes maxplen none hops tcs version tree inetgw
      kernel =
    update_routes export conf (bump_version version) tree inetgw kernel
calculate_routing_table {K = K} export conf links prefixes maxplen (some myself) hops tcs version
      tree inetgw kernel =
    let version' = bump_version version in
    elim (calculate_paths myself hops tcs) as (λ o. Option (List (ℕ × RtEntry) × Option ℕ × K)) [
      | none ↦ none
      | some s ↦
          elim (reached_of links prefixes (s.path_list) (s.tcs))
            as (λ o. Option (List (ℕ × RtEntry) × Option ℕ × K)) [
              | none ↦ none
              | some nodes ↦ calculate_routes export conf maxplen version' nodes tree inetgw kernel
            ]
    ]

module _ (links : ℕ → Nexthop) (prefixes : ℕ → List (ℕ × ℕ))
    (index : (l : ℕ) → is_index ((links l).iif_index) ≡ true) where
  -- Nodes with interfaces.
  abbrev Indexed : Option (List Reached) → Type 0
  Indexed none = ⊥
  Indexed (some nodes) = All (λ (x : Reached). is_index (x.nexthop.iif_index) ≡ true) nodes

  reached_of-Indexed :
      (list : List ℕ) (tcs : List (ℕ × Vertex))
      → ((v : ℕ) → mem v list ≡ true → known tcs v ≡ true)
      → Indexed (reached_of links prefixes list tcs)
  reached_of-Indexed [] tcs named = tt
  reached_of-Indexed (a ∷ list) tcs named =
      let self : mem a (a ∷ list) ≡ true = (let t : (a == a) ≡ true = ground arith in rw t refl) in
      let later : (v : ℕ) → mem v list ≡ true → mem v (a ∷ list) ≡ true =
        λ v m. (elim (Bool-cases (a == v)) [ inl t ↦ rw t refl | inr t ↦ rw t m ]) in
      let (tc, found, _, _) = known_entry a tcs (named a self) in
      let rest : Indexed (reached_of links prefixes list tcs) =
        reached_of-Indexed list tcs (λ v m. named v (later v m)) in
      rw (found, reached_of) (by_hop tc (tc.next_hop) (reached_of links prefixes list tcs) rest)
    where
      by_hop :
          (tc : Vertex) (o : Option ℕ) (rest : Option (List Reached))
          → Indexed rest
          → Indexed (elim o as (λ o. Option (List Reached)) [
            | none ↦ rest
            | some link ↦ elim rest as (λ o. Option (List Reached)) [
              | none ↦ none
              | some reached ↦ some (
                  record {
                    addr = a;
                    nexthop = links link;
                    metric = record { cost = tc.path_cost; hops = tc.hops };
                    prefix_tree = prefixes a;
                  }
                  ∷ reached)
            ]
          ])
      by_hop tc none rest h = h
      by_hop tc (some link) none h = elim h [ ]
      by_hop tc (some link) (some reached) h = (index link, h)

module _ {K : Type 0} (export : Export K) (conf : RibConf) (look : K → ℕ → Option Nexthop)
    (laws : FibLaws export look) (live : conf.host_emul ≡ false) where
  -- Outside of the emulation of hosts, where the kernel's functions obey their laws: from a table and a
  -- kernel in step, with the own entry in the link-state database or none, shortest paths within the
  -- bounds, interfaces for the links, and no route that is deleted before its change, the calculation ends
  -- without following a null pointer or one that is gone, the table and the kernel are in step again,
  -- and if no route is refused every route of the kernel, except to an address local to a link, has the
  -- next hop of the best path of its prefix.
  pub calculate_routing_table-Updated :
      (links : ℕ → Nexthop) (prefixes : ℕ → List (ℕ × ℕ)) (maxplen : ℕ) (myself : Option ℕ)
      (hops : List (ℕ × ℕ)) (tcs : List (ℕ × Vertex)) (dearest version : ℕ)
      (tree : List (ℕ × RtEntry)) (inetgw : Option ℕ) (kernel : K)
      → ((m : ℕ) → myself ≡ some m → known tcs m ≡ true)
      → Bounded (edges_at tcs) (names_of tcs) dearest
      → ((l : ℕ) → is_index ((links l).iif_index) ≡ true)
      → (conf.ip6 || conf.replaced) ≡ false
      → InStep export conf look laws live tree kernel
      → Updated export conf look laws live (
          calculate_routing_table export conf links prefixes maxplen myself hops tcs version tree
            inetgw kernel)
  unfolding calculate_routing_table
  calculate_routing_table-Updated links prefixes maxplen none hops tcs dearest version tree inetgw
        kernel k p index never h =
      update_routes-InStep export conf look laws live (bump_version version) tree inetgw kernel h
        (λ w rt e. inl never)
  calculate_routing_table-Updated links prefixes maxplen (some myself) hops tcs dearest version tree
        inetgw kernel k p index never h =
      by_paths (calculate_paths myself hops tcs)
        (calculate_paths-Shortest myself hops tcs dearest (k myself refl) p)
    where
      by_nodes :
          (o : Option (List Reached))
          → Indexed links prefixes index o
          → Updated export conf look laws live
              (elim o as (λ o. Option (List (ℕ × RtEntry) × Option ℕ × K)) [
                | none ↦ none
                | some nodes ↦
                    calculate_routes export conf maxplen
                      (bump_version version)
                      nodes
                      tree
                      inetgw
                      kernel
              ])
      by_nodes none i = elim i [ ]
      by_nodes (some nodes) i =
          calculate_routes-Updated export conf look laws live kernel maxplen (bump_version version)
            nodes tree inetgw never i h

      by_paths :
          (o : Option Spf)
          → Shortest (edges_at tcs) myself o
          → Updated export conf look laws live
              (elim o as (λ o. Option (List (ℕ × RtEntry) × Option ℕ × K)) [
                | none ↦ none
                | some s ↦
                    elim (reached_of links prefixes (s.path_list) (s.tcs))
                      as (λ o. Option (List (ℕ × RtEntry) × Option ℕ × K)) [
                        | none ↦ none
                        | some nodes ↦
                            calculate_routes export conf maxplen
                              (bump_version version)
                              nodes
                              tree
                              inetgw
                              kernel
                      ]
              ])
      by_paths none s = elim s [ ]
      by_paths (some s) (named, _) =
          by_nodes (reached_of links prefixes (s.path_list) (s.tcs))
            (reached_of-Indexed links prefixes index (s.path_list) (s.tcs) named)
