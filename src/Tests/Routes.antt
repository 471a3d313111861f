-- ===== src/Tests/Routes.antt =====
-- src/routing_table.c and src/process_routes.c with a kernel that is a list of next hops.
use olsrd_hybrid_plc.Prelude.{
  ◌/◌, ℕ, ◌+◌, ◌*◌, ◌≡◌, refl, subst, ap, ◌∙◌, Bool, true, false, Bool-cases, inl, inr, Option,
  none, some, List, [], ◌∷◌, arith, ◌==◌, if◌then◌else◌, find, put, delete, find-put, find-delete,
}
use olsrd_hybrid_plc.Prelude.Int.{pos, negsuc}
use olsrd_hybrid_plc.Rib.{Nexthop, RtPath, RtEntry, RibConf, cmp_rtp, rt_best_of, update_rib_routes}
use olsrd_hybrid_plc.Rib.Insert.{delete_rt_path}
use olsrd_hybrid_plc.Rib.Fib.{
  Export, chg_kernel_routes, update_routes, delete_all_kernel_routes, with_queues_empty,
}
use olsrd_hybrid_plc.Rib.Best.{Winner, rt_best_of-Winner}
use olsrd_hybrid_plc.Rib.Queued.{fib}
use olsrd_hybrid_plc.Rib.Deleted.{FibLaws}
use olsrd_hybrid_plc.Rib.Agrees.{InStep, Updated}
use olsrd_hybrid_plc.Rib.Whole.{update_routes-InStep}
use olsrd_hybrid_plc.Rib.Routes.{Reached, reached_of}
use olsrd_hybrid_plc.Rib.Table.{calculate_routing_table, calculate_routing_table-Updated}
use olsrd_hybrid_plc.Spf.Graph.{known}
use olsrd_hybrid_plc.Spf.{calculate_paths, run_full, relax, relax_edge, spf_start}
use olsrd_hybrid_plc.Tests.Paths.{triangle, triangle-Bounded}
use olsrd_hybrid_plc.Rib.Gone.{Removed, delete_all_kernel_routes-Removed, delete_rt_path-dangling}

abbrev Fib : Type 0
Fib = List (ℕ × Nexthop)

abbrev best_nexthop : RtEntry → Option Nexthop
best_nexthop rt = elim (rt.rt_best) [
  | none ↦ none
  | some p ↦ elim (find p (rt.rt_path_tree)) [ none ↦ none | some rtp ↦ some (rtp.rtp_nexthop) ]
]

abbrev install : Option Nexthop → ℕ → Fib → Fib × Bool
install none dst fib = (fib, false)
install (some nh) dst fib = (put dst nh fib, true)

abbrev export_list : Export Fib
export_list = record {
  addroute = λ dst rt fib. install (best_nexthop rt) dst fib;
  delroute = λ dst rt fib. delete dst fib;
}

abbrev look_up : Fib → ℕ → Option Nexthop
look_up fib w = find w fib

install_added :
    (dst : ℕ) (kernel : Fib) (nh : Nexthop) (o : Option Nexthop)
    → o ≡ some nh
    → (w : ℕ) → find w ((install o dst kernel).0) ≡ (if dst == w then some nh else find w kernel)
install_added dst kernel nh none e w = absurd (ground (arith, e))
install_added dst kernel nh (some n) e w =
    let same : n ≡ nh = ground (arith, e) in
    find-put dst w n kernel ∙ ap (λ x. if dst == w then some x else find w kernel) same

install_refused :
    (dst : ℕ) (kernel : Fib) (o : Option Nexthop)
    → (install o dst kernel).1 ≡ false
    → (w : ℕ) → find w ((install o dst kernel).0) ≡ find w kernel
install_refused dst kernel none e w = refl
install_refused dst kernel (some n) e w = absurd (ground (arith, e))

list_laws : FibLaws export_list look_up
list_laws = record {
  added = λ dst rt kernel p rtp best path ok w.
      install_added dst kernel (rtp.rtp_nexthop) (best_nexthop rt) (chosen rt p rtp best path) w;
  refused = λ dst rt kernel no_route w. install_refused dst kernel (best_nexthop rt) no_route w;
  deleted = λ dst rt kernel w. find-delete dst w kernel;
}
  where
    chosen :
        (rt : RtEntry) (p : ℕ) (rtp : RtPath)
        → rt.rt_best ≡ some p
        → find p (rt.rt_path_tree) ≡ some rtp
        → best_nexthop rt ≡ some (rtp.rtp_nexthop)
    chosen rt p rtp best path =
        ap
          (λ (b : Option ℕ). elim b as (λ b. Option Nexthop) [
            | none ↦ none
            | some p ↦ elim (find p (rt.rt_path_tree)) as (λ o. Option Nexthop) [
              | none ↦ none
              | some rtp ↦ some (rtp.rtp_nexthop)
            ]
          ])
          best
        ∙ ap
            (λ (o : Option RtPath). elim o as (λ o. Option Nexthop) [
              | none ↦ none
              | some rtp ↦ some (rtp.rtp_nexthop)
            ])
            path

abbrev ipv4 : RibConf
ipv4 = record {
  ip6 = false;
  host_emul = false;
  replaced = false;
  fibm_correct = false;
  nat_thresh = λ c. c;
}

abbrev via : ℕ → ℕ → Nexthop
via g i = record { gateway = g; iif_index = pos i }

abbrev path : ℕ → ℕ → ℕ → ℕ → RtPath
path g c h v = record {
  rtp_nexthop = via g 2;
  rtp_metric = record { cost = c; hops = h };
  rtp_originator = g;
  rtp_version = v;
}

-- The host 5 has two current paths and no route yet, the host 9 a route whose path is outdated.
abbrev host : ℕ → ℕ
host a = a * 256 + 32

abbrev new_host : RtEntry
new_host = record {
  rt_best = none;
  rt_nexthop = record { gateway = 0; iif_index = negsuc 0 };
  rt_metric = record { cost = 0; hops = 0 };
  rt_path_tree = (100, path 5 70 2 8) ∷ (101, path 6 50 3 8) ∷ [];
  on_list = false;
}

abbrev old_host : RtEntry
old_host = record {
  rt_best = some 102;
  rt_nexthop = via 9 2;
  rt_metric = record { cost = 40; hops = 1 };
  rt_path_tree = (102, path 9 40 1 7) ∷ [];
  on_list = false;
}

abbrev two_hosts : List (ℕ × RtEntry)
two_hosts = (1312, new_host) ∷ (2336, old_host) ∷ []

abbrev one_route : Fib
one_route = (2336, via 9 2) ∷ []

abbrev after_update : Option Nexthop × Option Nexthop
after_update = elim (update_routes export_list ipv4 8 two_hosts none one_route) [
  | none ↦ (none, none)
  | some (tree, inetgw, kernel) ↦ (find 1312 kernel, find 2336 kernel)
]

the_cheaper_path : after_update ≡ (some (via 6 2), none)
unfolding update_routes update_rib_routes chg_kernel_routes find put delete cmp_rtp
the_cheaper_path = refl

two_hosts-InStep : InStep export_list ipv4 look_up list_laws refl two_hosts one_route
unfolding find
two_hosts-InStep = record {
  apart = (refl, (refl, tt));
  well = (
    record {
      apart = (refl, (refl, tt));
      indices = (refl, (refl, tt));
      live = tt;
      local = λ i. absurd (ground (arith, i));
    },
    (
      record {
        apart = (refl, tt);
        indices = (refl, tt);
        live = (path 9 40 1 7, refl);
        local = λ i. refl;
      },
      tt,
    ),
  );
  off = (refl, (refl, tt));
  agree = agree;
}
  where
    agree : (w : ℕ) → find w one_route ≡ fib (find w two_hosts)
    agree w = elim (Bool-cases (1312 == w)) [
      | inl t ↦ let other : (2336 == w) ≡ false = ground (arith, t) in rw (t, other) refl
      | inr t ↦ rw t (elim (Bool-cases (2336 == w)) [ inl s ↦ rw s refl | inr s ↦ rw s refl ])
    ]

update_routes-InStep_example :
    Updated export_list ipv4 look_up list_laws refl
      (update_routes export_list ipv4 8 two_hosts none one_route)
update_routes-InStep_example =
    update_routes-InStep export_list ipv4 look_up list_laws refl 8 two_hosts none one_route
      two_hosts-InStep (λ w rt e. inl refl)

delete_all_kernel_routes-Removed_example :
    Removed export_list ipv4 look_up list_laws refl
      (delete_all_kernel_routes export_list ipv4 8 two_hosts none one_route)
delete_all_kernel_routes-Removed_example =
    delete_all_kernel_routes-Removed export_list ipv4 look_up list_laws refl 8 two_hosts none
      one_route two_hosts-InStep ((refl, (refl, tt)), ((refl, tt), tt))

abbrev link_of : ℕ → Nexthop
link_of link = via link 2

abbrev host_prefix : ℕ → List (ℕ × ℕ)
host_prefix a = (100 + a, a * 256 + 32) ∷ []

-- The paths of the triangle, from the node 3 on, as routes.
abbrev nodes_of_triangle : Option (List Reached)
nodes_of_triangle = elim (calculate_paths 3 ((4, 40) ∷ (7, 70) ∷ []) triangle) [
  | none ↦ none
  | some s ↦ reached_of link_of host_prefix (s.path_list) (s.tcs)
]

abbrev seven : Reached
seven = record {
  addr = 7;
  nexthop = via 70 2;
  metric = record { cost = 1; hops = 1 };
  prefix_tree = (107, 1824) ∷ [];
}

abbrev four : Reached
four = record {
  addr = 4;
  nexthop = via 70 2;
  metric = record { cost = 3; hops = 2 };
  prefix_tree = (104, 1056) ∷ [];
}

the_path_list : nodes_of_triangle ≡ some (seven ∷ four ∷ [])
unfolding calculate_paths run_full relax relax_edge spf_start find
the_path_list = refl

abbrev KnownEntry : Option ℕ → Type 0
KnownEntry none = Unit {0}
KnownEntry (some m) = known triangle m ≡ true

own_known : (m : ℕ) → some 3 ≡ some m → known triangle m ≡ true
unfolding find
own_known m e = subst KnownEntry e refl

calculate_routing_table-Updated_example : Updated export_list ipv4 look_up list_laws refl (
    calculate_routing_table export_list ipv4 link_of host_prefix 32
      (some 3)
      ((4, 40) ∷ (7, 70) ∷ [])
      triangle
      7
      two_hosts
      none
      one_route)
unfolding find
calculate_routing_table-Updated_example =
    calculate_routing_table-Updated export_list ipv4 look_up list_laws refl link_of host_prefix 32
      (some 3) ((4, 40) ∷ (7, 70) ∷ []) triangle 5 7 two_hosts none one_route own_known
      triangle-Bounded (λ l. refl) refl two_hosts-InStep

delete_rt_path-dangling_example :
    update_rib_routes ipv4 8
      ((delete_rt_path 2336 102 two_hosts none).0)
      (with_queues_empty export_list ipv4 none)
    ≡ none
unfolding find
delete_rt_path-dangling_example =
    delete_rt_path-dangling ipv4 8 2336 102 old_host (path 9 40 1 7) two_hosts none
      (with_queues_empty export_list ipv4 none) refl refl refl

-- The default route, whose gateway is worth keeping at a third more of the cost.
abbrev nat_conf : RibConf
nat_conf = record {
  ip6 = false;
  host_emul = false;
  replaced = false;
  fibm_correct = false;
  nat_thresh = λ c. c * 2 / 3;
}

abbrev elected : Option ℕ → Option ℕ
elected inetgw = elim (rt_best_of nat_conf inetgw 0 new_host) [ none ↦ none | some (rt, gw) ↦ gw ]

the_gateway_stays : (elected (some 100) ≡ some 100) × (elected none ≡ some 101)
unfolding cmp_rtp
the_gateway_stays = (refl, refl)

rt_best_of-Winner_example :
    Winner nat_conf (some 100) 0 (new_host.rt_path_tree) (rt_best_of nat_conf (some 100) 0 new_host)
unfolding find
rt_best_of-Winner_example =
    rt_best_of-Winner nat_conf (some 100) 0 new_host (refl, (refl, tt)) (λ e. ground (arith, e))
