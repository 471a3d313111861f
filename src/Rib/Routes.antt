-- ===== src/Rib/Routes.antt =====
-- The part of olsr_calculate_routing_table of src/olsr_spf.c that makes routes of the shortest paths.
use olsrd_hybrid_plc.Prelude.{
  All, ℕ, ◌≡◌, refl, sym, subst, ◌∙◌, arith, true, false, ◌||◌, inl, Option, none, some, List, [],
  ◌∷◌, find,
}
use olsrd_hybrid_plc.Spf.{Vertex}
use olsrd_hybrid_plc.Rib.{Metric, Nexthop, RtPath, RtEntry, RibConf, is_index}
use olsrd_hybrid_plc.Rib.Insert.{update_rt_path, insert_rt_path}
use olsrd_hybrid_plc.Rib.Fib.{Export, update_routes}
use olsrd_hybrid_plc.Rib.Deleted.{FibLaws}
use olsrd_hybrid_plc.Rib.Agrees.{InStep, Updated}
use olsrd_hybrid_plc.Rib.Whole.{update_routes-InStep}
use olsrd_hybrid_plc.Rib.Kept.{insert_rt_path-InStep, KeptInStep, update_rt_path-InStep}

-- A node that has a path with a next hop, and its prefixes with the pointers of their paths.
pub record Reached : Type 0 where
  pub addr : ℕ
  pub nexthop : Nexthop
  pub metric : Metric
  pub prefix_tree : List (ℕ × ℕ)

module _ (links : ℕ → Nexthop) (prefixes : ℕ → List (ℕ × ℕ)) where
  -- `none` where the path list names an entry that is not there.
  abbrev pub reached_of : List ℕ → List (ℕ × Vertex) → Option (List Reached)
  reached_of [] tcs = some []
  reached_of (a ∷ list) tcs =
      let rest = reached_of list tcs in
      elim (find a tcs) [
        | none ↦ none
        | some tc ↦ elim (tc.next_hop) [
          | none ↦ rest
          | some link ↦ elim rest [
            | none ↦ none
            | some reached ↦ some (
                record {
                  addr = a;
                  nexthop = links link;
                  metric = record { cost = tc.path_cost; hops = tc.hops };
                  prefix_tree = prefixes a;
                }
                ∷ reached)
          ]
        ]
      ]

-- One prefix of a node: a path that is in the table is updated, another one inserted.
abbrev pub route_prefix : ℕ → ℕ → Reached → ℕ → ℕ → List (ℕ × RtEntry) → Option (List (ℕ × RtEntry))
route_prefix maxplen version node p dst tree = elim (find dst tree) [
  | none ↦ some (insert_rt_path maxplen version (node.addr) (node.nexthop) (node.metric) dst p tree)
  | some rt ↦ elim (find p (rt.rt_path_tree)) [
    | none ↦
        some (insert_rt_path maxplen version (node.addr) (node.nexthop) (node.metric) dst p tree)
    | some rtp ↦ update_rt_path version (node.nexthop) (node.metric) dst p tree
  ]
]

abbrev pub route_prefixes :
    ℕ → ℕ → Reached → List (ℕ × ℕ) → List (ℕ × RtEntry) → Option (List (ℕ × RtEntry))
route_prefixes maxplen version node [] tree = some tree
route_prefixes maxplen version node ((p, dst) ∷ list) tree =
    elim (route_prefix maxplen version node p dst tree) [
      | none ↦ none
      | some tree' ↦ route_prefixes maxplen version node list tree'
    ]

abbrev pub route_nodes : ℕ → ℕ → List Reached → List (ℕ × RtEntry) → Option (List (ℕ × RtEntry))
route_nodes maxplen version [] tree = some tree
route_nodes maxplen version (node ∷ nodes) tree =
    elim (route_prefixes maxplen version node (node.prefix_tree) tree) [
      | none ↦ none
      | some tree' ↦ route_nodes maxplen version nodes tree'
    ]

module _ {K : Type 0} (export : Export K) (conf : RibConf) where
  unfoldable pub calculate_routes :
      ℕ
      → ℕ
      → List Reached
      → List (ℕ × RtEntry)
      → Option ℕ
      → K
      → Option (List (ℕ × RtEntry) × Option ℕ × K)
  unfolding find update_rt_path insert_rt_path update_routes
  calculate_routes maxplen version nodes tree inetgw kernel =
      elim (route_nodes maxplen version nodes tree) [
        | none ↦ none
        | some tree' ↦ update_routes export conf version tree' inetgw kernel
      ]

module _ {K : Type 0} (export : Export K) (conf : RibConf) (look : K → ℕ → Option Nexthop)
    (laws : FibLaws export look) (live : conf.host_emul ≡ false) (kernel : K) where
  abbrev Step : Option (List (ℕ × RtEntry)) → Type 0
  Step none = ⊥
  Step (some tree) = InStep export conf look laws live tree kernel

  route_prefix-Step :
      (maxplen version : ℕ) (node : Reached) (p dst : ℕ) (tree : List (ℕ × RtEntry))
      → is_index (node.nexthop.iif_index) ≡ true
      → InStep export conf look laws live tree kernel
      → Step (route_prefix maxplen version node p dst tree)
  route_prefix-Step maxplen version node p dst tree index h = by_entry (find dst tree) refl
    where
      updated :
          (o : Option (List (ℕ × RtEntry)))
          → KeptInStep export conf look laws live tree kernel h dst o
          → Step o
      updated none k = k
      updated (some tree') k = k

      by_path :
          (rt : RtEntry)
          → find dst tree ≡ some rt
          → (o : Option RtPath) → find p (rt.rt_path_tree) ≡ o
          → Step (elim o as (λ o. Option (List (ℕ × RtEntry))) [
            | none ↦
                some (
                  insert_rt_path maxplen version
                    (node.addr)
                    (node.nexthop)
                    (node.metric)
                    dst
                    p
                    tree)
            | some rtp ↦ update_rt_path version (node.nexthop) (node.metric) dst p tree
          ])
      by_path rt e none new =
          insert_rt_path-InStep export conf look laws live tree kernel h dst maxplen version
            (node.addr) (node.nexthop) (node.metric) p index
            (λ r e'.
              let same : rt ≡ r = ground (arith, sym e ∙ e') in
              subst (λ (x : RtEntry). find p (x.rt_path_tree) ≡ none) same new)
      by_path rt e (some rtp) found =
          updated (update_rt_path version (node.nexthop) (node.metric) dst p tree) (
            update_rt_path-InStep export conf look laws live tree kernel h dst version
              (node.nexthop) (node.metric) p rt rtp index e found)

      by_entry :
          (o : Option RtEntry)
          → find dst tree ≡ o
          → Step (elim o as (λ o. Option (List (ℕ × RtEntry))) [
            | none ↦
                some (
                  insert_rt_path maxplen version
                    (node.addr)
                    (node.nexthop)
                    (node.metric)
                    dst
                    p
                    tree)
            | some rt ↦ elim (find p (rt.rt_path_tree)) [
              | none ↦ some (
                  insert_rt_path maxplen version
                    (node.addr)
                    (node.nexthop)
                    (node.metric)
                    dst
                    p
                    tree)
              | some rtp ↦ update_rt_path version (node.nexthop) (node.metric) dst p tree
            ]
          ])
      by_entry none new =
          insert_rt_path-InStep export conf look laws live tree kernel h dst maxplen version
            (node.addr) (node.nexthop) (node.metric) p index
            (λ r e'. absurd (ground (arith, sym new ∙ e')))
      by_entry (some rt) e = by_path rt e (find p (rt.rt_path_tree)) refl

  route_prefixes-Step :
      (maxplen version : ℕ) (node : Reached) (list : List (ℕ × ℕ)) (tree : List (ℕ × RtEntry))
      → is_index (node.nexthop.iif_index) ≡ true
      → InStep export conf look laws live tree kernel
      → Step (route_prefixes maxplen version node list tree)
  route_prefixes-Step maxplen version node [] tree index h = h
  route_prefixes-Step maxplen version node ((p, dst) ∷ list) tree index h =
      after (route_prefix maxplen version node p dst tree)
        (route_prefix-Step maxplen version node p dst tree index h)
        (λ tree' h'. route_prefixes-Step maxplen version node list tree' index h')
    where
      after :
          (o : Option (List (ℕ × RtEntry)))
          → Step o
          → ((tree' : List (ℕ × RtEntry))
              → InStep export conf look laws live tree' kernel
              → Step (route_prefixes maxplen version node list tree'))
          → Step (elim o as (λ o. Option (List (ℕ × RtEntry))) [
            | none ↦ none
            | some tree' ↦ route_prefixes maxplen version node list tree'
          ])
      after none k rest = elim k [ ]
      after (some tree') k rest = rest tree' k

  route_nodes-Step :
      (maxplen version : ℕ) (nodes : List Reached) (tree : List (ℕ × RtEntry))
      → All (λ (x : Reached). is_index (x.nexthop.iif_index) ≡ true) nodes
      → InStep export conf look laws live tree kernel
      → Step (route_nodes maxplen version nodes tree)
  route_nodes-Step maxplen version [] tree index h = h
  route_nodes-Step maxplen version (node ∷ nodes) tree (i, index) h =
      after (route_prefixes maxplen version node (node.prefix_tree) tree)
        (route_prefixes-Step maxplen version node (node.prefix_tree) tree i h)
        (λ tree' h'. route_nodes-Step maxplen version nodes tree' index h')
    where
      after :
          (o : Option (List (ℕ × RtEntry)))
          → Step o
          → ((tree' : List (ℕ × RtEntry))
              → InStep export conf look laws live tree' kernel
              → Step (route_nodes maxplen version nodes tree'))
          → Step (elim o as (λ o. Option (List (ℕ × RtEntry))) [
            | none ↦ none
            | some tree' ↦ route_nodes maxplen version nodes tree'
          ])
      after none k rest = elim k [ ]
      after (some tree') k rest = rest tree' k

  -- From a table and a kernel in step, and nodes whose next hops have an interface: where no route is
  -- deleted before its change, the routes of all prefixes of the nodes go into the table and from there
  -- into the kernel, after which both are in step again, and every route has the next hop of its best path
  -- unless one is refused.
  pub calculate_routes-Updated :
      (maxplen version : ℕ) (nodes : List Reached) (tree : List (ℕ × RtEntry)) (inetgw : Option ℕ)
      → (conf.ip6 || conf.replaced) ≡ false
      → All (λ (x : Reached). is_index (x.nexthop.iif_index) ≡ true) nodes
      → InStep export conf look laws live tree kernel
      → Updated export conf look laws live
          (calculate_routes export conf maxplen version nodes tree inetgw kernel)
  unfolding calculate_routes
  calculate_routes-Updated maxplen version nodes tree inetgw never index h =
      after (route_nodes maxplen version nodes tree)
        (route_nodes-Step maxplen version nodes tree index h)
    where
      after :
          (o : Option (List (ℕ × RtEntry)))
          → Step o
          → Updated export conf look laws live
              (elim o as (λ o. Option (List (ℕ × RtEntry) × Option ℕ × K)) [
                | none ↦ none
                | some tree' ↦ update_routes export conf version tree' inetgw kernel
              ])
      after none k = elim k [ ]
      after (some tree') k =
          update_routes-InStep export conf look laws live version tree' inetgw kernel k
            (λ w rt e. inl never)
