-- ===== src/Rib/Visit.antt =====
-- An entry that stays in the table of src/process_routes.c, and one that leaves it.
use olsrd_hybrid_plc.Prelude.{
  All, ℕ, ◌≡◌, ◌⊎◌, refl, sym, ap, ◌∙◌, true, false, Bool-cases, inl, inr, Option, none, some, List,
  [], ◌∷◌, arith, ◌==◌, if◌then◌else◌, find, mem,
}
use olsrd_hybrid_plc.Rib.{
  Nexthop, RtPath, RtEntry, RibConf, Queues, is_index, nh_change, enqueue, with_on_list, is_changed,
  get_nh,
}
use olsrd_hybrid_plc.Rib.Paths.{Live}
use olsrd_hybrid_plc.Rib.Entry.{Well}
use olsrd_hybrid_plc.Rib.Queued.{
  find-enqueue, nh_change-same, pending, table, Disjoint, Ready, Near, Queued,
}

-- Without a best path the next hop is the one of the entry.
pub get_nh-none : (rt : RtEntry) → rt.rt_best ≡ none → get_nh rt ≡ some (rt.rt_nexthop)
get_nh-none rt e = rw e refl

pub Live-none : (best : Option ℕ) → Live best [] → best ≡ none
unfolding find
Live-none none live = refl
Live-none (some p) (rtp, e) = absurd (ground (arith, e))

pub Ready-longer :
    (chg chg' : List ℕ) (x : ℕ × RtEntry)
    → ((w : ℕ) → mem w chg ≡ true → mem w chg' ≡ true)
    → Ready chg x
    → Ready chg' x
Ready-longer chg chg' (dst, rt) longer (rtp, best, inl m) = (rtp, best, inl (longer dst m))
Ready-longer chg chg' (dst, rt) longer (rtp, best, inr h) = (rtp, best, inr h)

pub unchanged_nexthop :
    (conf : RibConf) (rtp : RtPath) (rt : RtEntry)
    → is_changed conf rtp rt ≡ false
    → rt.rt_nexthop ≡ rtp.rtp_nexthop
unchanged_nexthop conf rtp rt e = elim (Bool-cases (nh_change (rtp.rtp_nexthop) (rt.rt_nexthop))) [
  | inl t ↦ absurd (ground (arith, rw t at e))
  | inr t ↦ nh_change-same (rtp.rtp_nexthop) (rt.rt_nexthop) t
]

module _ (conf : RibConf) where
  -- Nothing is left to visit.
  pub Queued-nil :
      (q : Queues)
      → All (Near conf) (q.del_kernel_list)
      → Queued conf [] (q.chg_kernel_list) (q.del_kernel_list) [] q
  unfolding find
  Queued-nil q near = record {
    kept = λ w. refl;
    absent = λ w e. (refl, refl);
    apart = tt;
    disjoint = λ w. inl refl;
    well = tt;
    near = near;
    ready = tt;
    longer = λ w m. m;
    known = λ w m. inl m;
  }

  -- An entry that stays, before the entries of the rest.
  module _ (dst : ℕ) (rt rt' : RtEntry) (tree tree' : List (ℕ × RtEntry)) (chg chg1 : List ℕ)
      (del : List (ℕ × RtEntry)) (q' : Queues) (new : find dst tree ≡ none)
      (undeleted : find dst del ≡ none) (same : rt'.rt_nexthop ≡ rt.rt_nexthop)
      (w' : Well conf dst rt') (longer1 : (w : ℕ) → mem w chg ≡ true → mem w chg1 ≡ true)
      (only : (w : ℕ) → mem w chg1 ≡ true → (mem w chg ≡ true) ⊎ ((dst == w) ≡ true))
      (h : Queued conf tree chg1 del tree' q') where
    kept_after :
        (w : ℕ) → table ((dst, rt') ∷ tree') (q'.del_kernel_list) w ≡ table ((dst, rt) ∷ tree) del w
    unfolding find
    kept_after w = elim (Bool-cases (dst == w)) [
      | inl t ↦
          let here : dst ≡ w = ground (arith, t) in
          let before : find w del ≡ none = ap (λ v. find v del) (sym here) ∙ undeleted in
          let after : find w (q'.del_kernel_list) ≡ none =
            ap (λ v. find v (q'.del_kernel_list)) (sym here) ∙ (h.absent dst new).1 ∙ undeleted in
          rw (t, before, after) (ap (λ n. if is_index (n.iif_index) then some n else none) same)
      | inr t ↦ rw t (h.kept w)
    ]

    pub Queued-cons :
        Ready (q'.chg_kernel_list) (dst, rt')
        → Queued conf ((dst, rt) ∷ tree) chg del ((dst, rt') ∷ tree') q'
    unfolding find
    Queued-cons ready = record {
      kept = kept_after;
      absent = absent';
      apart = ((h.absent dst new).0, h.apart);
      disjoint = disjoint';
      well = (w', h.well);
      near = h.near;
      ready = (ready, h.ready);
      longer = λ w m. h.longer w (longer1 w m);
      known = λ w m. known' w (h.known w m);
    }
      where
        absent' :
            (w : ℕ)
            → find w ((dst, rt) ∷ tree) ≡ none
            → (find w ((dst, rt') ∷ tree') ≡ none) × (find w (q'.del_kernel_list) ≡ find w del)
        absent' w e = elim (Bool-cases (dst == w)) [
          | inl t ↦ absurd (ground (arith, rw t at e))
          | inr t ↦ rw t (h.absent w (rw t at e))
        ]

        disjoint' : Disjoint ((dst, rt') ∷ tree') (q'.del_kernel_list)
        disjoint' w = elim (Bool-cases (dst == w)) [
          | inl t ↦
              let here : dst ≡ w = ground (arith, t) in
              inr (
                ap (λ v. find v (q'.del_kernel_list)) (sym here) ∙ (h.absent dst new).1 ∙ undeleted)
          | inr t ↦ rw t (h.disjoint w)
        ]

        known' :
            (w : ℕ)
            → (mem w chg1 ≡ true) ⊎ ((r : RtEntry) × (find w tree' ≡ some r))
            → (mem w chg ≡ true) ⊎ ((r : RtEntry) × (find w ((dst, rt') ∷ tree') ≡ some r))
        known' w (inr (r, e)) = elim (Bool-cases (dst == w)) [
          | inl t ↦ inr (rt', rw t refl)
          | inr t ↦ inr (r, rw t e)
        ]
        known' w (inl m) = elim (only w m) [
          | inl before ↦ inl before
          | inr t ↦ inr (rt', rw t refl)
        ]

  -- An entry that leaves the table.
  pub Queued-flushed :
      (dst : ℕ) (rt0 rt : RtEntry) (nh : Nexthop) (tree tree' : List (ℕ × RtEntry)) (chg : List ℕ)
      (del : List (ℕ × RtEntry)) (q' : Queues)
      → find dst tree ≡ none
      → find dst del ≡ none
      → rt.rt_nexthop ≡ rt0.rt_nexthop
      → Queued conf tree chg (enqueue dst nh (dst, with_on_list true rt) del) tree' q'
      → Queued conf ((dst, rt0) ∷ tree) chg del tree' q'
  unfolding find
  Queued-flushed dst rt0 rt nh tree tree' chg del q' new undeleted same h = record {
    kept = λ w. h.kept w ∙ before w;
    absent = absent';
    apart = h.apart;
    disjoint = h.disjoint;
    well = h.well;
    near = h.near;
    ready = h.ready;
    longer = h.longer;
    known = h.known;
  }
    where
      del1 :
          (w : ℕ)
          → find w (enqueue dst nh (dst, with_on_list true rt) del)
            ≡ (if dst == w then some (with_on_list true rt) else find w del)
      del1 w = find-enqueue dst w nh (with_on_list true rt) del undeleted

      before :
          (w : ℕ)
          → table tree (enqueue dst nh (dst, with_on_list true rt) del) w
            ≡ table ((dst, rt0) ∷ tree) del w
      before w = elim (Bool-cases (dst == w)) [
        | inl t ↦
            let here : dst ≡ w = ground (arith, t) in
            let none_before : find w del ≡ none = ap (λ v. find v del) (sym here) ∙ undeleted in
            ap (λ o. pending o (find w tree)) (del1 w)
            ∙ (rw (t, none_before) (ap (λ n. if is_index (n.iif_index) then some n else none) same))
        | inr t ↦ ap (λ o. pending o (find w tree)) (del1 w) ∙ (rw t refl)
      ]

      absent' :
          (w : ℕ)
          → find w ((dst, rt0) ∷ tree) ≡ none
          → (find w tree' ≡ none) × (find w (q'.del_kernel_list) ≡ find w del)
      absent' w e = elim (Bool-cases (dst == w)) [
        | inl t ↦ absurd (ground (arith, rw t at e))
        | inr t ↦ let (a, b) = h.absent w (rw t at e) in (a, b ∙ del1 w ∙ (rw t refl))
      ]
