-- ===== src/Rib/Entry.antt =====
-- What an entry of the routing table of src/process_routes.c keeps.
use olsrd_hybrid_plc.Prelude.{
  Apart, All, ℕ, ◌≡◌, ◌⊎◌, refl, sym, subst, ◌∙◌, Bool, true, false, ◌&&◌, Bool-cases, inl, inr,
  Option, none, some, List, ◌∷◌, arith, ◌==◌, if◌then◌else◌, find,
}
use olsrd_hybrid_plc.Rib.{
  Metric, Nexthop, RtPath, RtEntry, RibConf, Queues, is_index, delete_outdated_routes, best_from,
  prefix_len, with_on_list, is_changed, elect, with_change, with_inetgw,
}
use olsrd_hybrid_plc.Rib.Fib.{is_far_linklocal}
use olsrd_hybrid_plc.Rib.Best.{best_from-All}
use olsrd_hybrid_plc.Rib.Paths.{
  Finds, Apart-Finds, Live, reset_best-Live, current_paths-Apart, current_paths-All,
}

-- The paths have interfaces, the best path is one of them, and a route that the kernel has is not one
-- over several hops to an address that is local to a link.
pub record Well (conf : RibConf) (dst : ℕ) (rt : RtEntry) : Type 0 where
  pub apart : Apart (rt.rt_path_tree)
  pub indices : All (λ x. is_index (x.1.rtp_nexthop.iif_index) ≡ true) (rt.rt_path_tree)
  pub live : Live (rt.rt_best) (rt.rt_path_tree)
  pub local :
      is_index (rt.rt_nexthop.iif_index) ≡ true → is_far_linklocal conf dst (rt.rt_metric) ≡ false

-- The best path of an entry, with its next hop.
abbrev pub HasBest : RtEntry → RtPath → Type 0
HasBest rt rtp = (p : ℕ) × (rt.rt_best ≡ some p) × (find p (rt.rt_path_tree) ≡ some rtp)

pub delete_outdated_routes-Well :
    (conf : RibConf) (version dst : ℕ) (rt : RtEntry)
    → Well conf dst rt
    → Well conf dst (delete_outdated_routes version rt)
delete_outdated_routes-Well conf version dst rt w = record {
  apart = current_paths-Apart version (rt.rt_path_tree) (w.apart);
  indices =
      current_paths-All (λ x. is_index (x.1.rtp_nexthop.iif_index) ≡ true) version (rt.rt_path_tree)
        (w.indices);
  live = reset_best-Live version (rt.rt_best) (rt.rt_path_tree) (w.live);
  local = w.local;
}

pub with_on_list-Well :
    (conf : RibConf) (b : Bool) (dst : ℕ) (rt : RtEntry)
    → Well conf dst rt
    → Well conf dst (with_on_list b rt)
with_on_list-Well conf b dst rt w = record {
  apart = w.apart;
  indices = w.indices;
  live = w.live;
  local = w.local;
}

module _ (conf : RibConf) (dst : ℕ) (q : Queues) where
  -- After an election: the entry has the best path of its paths, and is in the queue or has the next
  -- hop of that path.
  abbrev pub Elected : RtEntry → Option (RtEntry × Queues) → Type 0
  Elected rt none = ⊥
  Elected rt (some (rt', q')) =
      Well conf dst rt'
      × (rt'.rt_nexthop ≡ rt.rt_nexthop)
      × (q'.del_kernel_list ≡ q.del_kernel_list)
      × ((rtp : RtPath) × HasBest rt' rtp
          × (((q' ≡ with_inetgw (q'.current_inetgw) q)
                × (rt'.on_list ≡ false)
                × (is_changed conf rtp rt ≡ false))
              ⊎ ((q' ≡ with_change dst (rtp.rtp_nexthop) (q'.current_inetgw) q)
                  × (rt'.on_list ≡ true))))

  abbrev fields : Option ℕ → Nexthop → Metric → List (ℕ × RtPath) → Bool → RtEntry
  fields best nh met paths b = record {
    rt_best = best;
    rt_nexthop = nh;
    rt_metric = met;
    rt_path_tree = paths;
    on_list = b;
  }

  -- With the winner `p` as a variable.
  elected_lem :
      (best : Option ℕ) (nh : Nexthop) (met : Metric) (paths : List (ℕ × RtPath)) (p : ℕ)
      (rtp : RtPath) (gw : Option ℕ)
      → Well conf dst (fields best nh met paths false)
      → find p paths ≡ some rtp
      → (o : Option RtPath) → o ≡ some rtp
      → Elected (fields best nh met paths false) (elim o as (λ o. Option (RtEntry × Queues)) [
        | none ↦ none
        | some rtp ↦
            if is_changed conf rtp (fields (some p) nh met paths false) && true
            then some (fields (some p) nh met paths true, with_change dst (rtp.rtp_nexthop) gw q)
            else some (fields (some p) nh met paths false, with_inetgw gw q)
      ])
  elected_lem best nh met paths p rtp gw w found none e = absurd (ground (arith, e))
  elected_lem best nh met paths p rtp gw w found (some r) e =
      let same : r ≡ rtp = ground (arith, e) in
      let found' : find p paths ≡ some r = found ∙ sym e in
      let well : (b : Bool) → Well conf dst (fields (some p) nh met paths b) =
        λ b. record { apart = w.apart; indices = w.indices; live = (r, found'); local = w.local } in
      elim (Bool-cases (is_changed conf r (fields (some p) nh met paths false))) [
        | inl t ↦ rw t (well true, refl, refl, (r, (p, refl, found'), inr (refl, refl)))
        | inr t ↦ rw t (well false, refl, refl, (r, (p, refl, found'), inl (refl, refl, t)))
      ]

  elect-fields :
      (best : Option ℕ) (nh : Nexthop) (met : Metric) (x : ℕ × RtPath) (paths : List (ℕ × RtPath))
      → Well conf dst (fields best nh met (x ∷ paths) false)
      → Elected
          (fields best nh met (x ∷ paths) false)
          (elect conf dst (fields best nh met (x ∷ paths) false) q)
  elect-fields best nh met x paths w =
      let b = best_from conf (q.current_inetgw) x paths in
      let all : Finds (x ∷ paths) (x ∷ paths) = Apart-Finds (x ∷ paths) (w.apart) in
      let found : find (b.0) (x ∷ paths) ≡ some (b.1) =
        best_from-All conf (q.current_inetgw) (λ y. find (y.0) (x ∷ paths) ≡ some (y.1)) x paths
          (all.0) (all.1) in
      elected_lem best nh met (x ∷ paths) (b.0) (b.1)
        (if prefix_len dst == 0 then some (b.0) else q.current_inetgw) w found
        (find (b.0) (x ∷ paths)) found

  pub elect-Elected :
      (rt : RtEntry) (x : ℕ × RtPath) (paths : List (ℕ × RtPath))
      → rt.rt_path_tree ≡ x ∷ paths
      → rt.on_list ≡ false
      → Well conf dst rt
      → Elected rt (elect conf dst rt q)
  elect-Elected rt x paths e off w = whole (rt.rt_path_tree) (rt.on_list) e off w
    where
      whole :
          (m : List (ℕ × RtPath)) (b : Bool)
          → m ≡ x ∷ paths
          → b ≡ false
          → Well conf dst (fields (rt.rt_best) (rt.rt_nexthop) (rt.rt_metric) m b)
          → Elected
              (fields (rt.rt_best) (rt.rt_nexthop) (rt.rt_metric) m b)
              (elect conf dst (fields (rt.rt_best) (rt.rt_nexthop) (rt.rt_metric) m b) q)
      whole m true e off w = absurd (ground (arith, off))
      whole m false e off w =
          subst
            (λ l.
              Well conf dst (fields (rt.rt_best) (rt.rt_nexthop) (rt.rt_metric) l false)
              → Elected (fields (rt.rt_best) (rt.rt_nexthop) (rt.rt_metric) l false)
                  (elect conf dst (fields (rt.rt_best) (rt.rt_nexthop) (rt.rt_metric) l false) q))
            (sym e) (elect-fields (rt.rt_best) (rt.rt_nexthop) (rt.rt_metric) x paths) w
