-- ===== src/Rib/Changed.antt =====
-- The changes of routes in the kernel by olsr_chg_kernel_routes of src/process_routes.c.
use olsrd_hybrid_plc.Prelude.{
  All, ℕ, ◌≡◌, ◌⊎◌, refl, sym, subst, ap, ◌∙◌, Bool, true, false, ◌&&◌, ◌||◌, Bool-cases, inl, inr,
  Option, none, some, List, [], ◌∷◌, arith, ltb, ◌==◌, if◌then◌else◌, find, put,
}
use olsrd_hybrid_plc.Rib.{
  Metric, Nexthop, RtPath, RtEntry, RibConf, is_index, is_linklocal, prefix_addr,
}
use olsrd_hybrid_plc.Rib.Fib.{
  Export, is_far_linklocal, delete_kernel_route, with_route, add_kernel_route, deletes_first,
  change_route,
}
use olsrd_hybrid_plc.Rib.Paths.{All-found}
use olsrd_hybrid_plc.Rib.Entry.{Well, HasBest}
use olsrd_hybrid_plc.Rib.Queued.{fib}
use olsrd_hybrid_plc.Rib.Deleted.{FibLaws, delete_kernel_route-look}

pub put-All :
    {A : Type 0} (P : ℕ × A → Type 0) (k : ℕ) (x : A) (m : List (ℕ × A))
    → P (k, x)
    → All P m
    → All P (put k x m)
unfolding put
put-All P k x [] p all = (p, tt)
put-All P k x ((j, y) ∷ m) p (q, all) = elim (Bool-cases (j == k)) [
  | inl t ↦ rw t (p, all)
  | inr t ↦ rw t (q, put-All P k x m p all)
]

-- The kernel has the next hop of the best path.
abbrev pub Done : RtEntry → Type 0
Done rt = (rtp : RtPath) × HasBest rt rtp × (rt.on_list ≡ false) × (rt.rt_nexthop ≡ rtp.rtp_nexthop)

-- No route is refused.
abbrev pub Succeeds : {K : Type 0} → Export K → Type 0
Succeeds {K = K} export =
    (dst : ℕ) (rt : RtEntry) (kernel : K) → (export.addroute dst rt kernel).1 ≡ true

-- A route is not deleted before its change, or comes back with it.
abbrev pub Safe : {K : Type 0} → Export K → RibConf → ℕ → Type 0
Safe export conf dst =
    ((conf.ip6 || conf.replaced) ≡ false)
    ⊎ (Succeeds export × (is_linklocal conf (prefix_addr dst) ≡ false))

module _ {K : Type 0} (export : Export K) (conf : RibConf) (look : K → ℕ → Option Nexthop)
    (laws : FibLaws export look) (live : conf.host_emul ≡ false) where
  -- The kernel is changed for this destination only, to what the entry says.
  abbrev pub Changed : ℕ → RtEntry → RtPath → K → Option (RtEntry × K) → Type 0
  Changed dst rt rtp kernel none = ⊥
  Changed dst rt rtp kernel (some (rt', kernel')) =
      Well conf dst rt'
      × HasBest rt' rtp
      × ((w : ℕ) → look kernel' w ≡ (if dst == w then fib (some rt') else look kernel w))
      × (Succeeds export
          → is_linklocal conf (prefix_addr dst) ≡ false
          → rt'.rt_nexthop ≡ rtp.rtp_nexthop)

  near_lem :
      (dst : ℕ) (met : Metric)
      → is_linklocal conf (prefix_addr dst) ≡ false
      → is_far_linklocal conf dst met ≡ false
  near_lem dst met e = elim (Bool-cases (ltb 1 (met.hops))) [ inl t ↦ rw t e | inr t ↦ rw t refl ]

  module _ (dst : ℕ) (rt : RtEntry) (rtp : RtPath) (kernel : K) (well : Well conf dst rt)
      (best : HasBest rt rtp) (agree : look kernel dst ≡ fib (some rt)) where
    has_index : is_index (rtp.rtp_nexthop.iif_index) ≡ true
    has_index =
        All-found (λ x. is_index (x.1.rtp_nexthop.iif_index) ≡ true) (rt.rt_path_tree) (best.0) rtp
          (well.indices) (best.2)

    -- The addition, to a kernel that has the old route or none.
    add_lem :
        (kernel1 : K)
        → ((w : ℕ) → (dst == w) ≡ false → look kernel1 w ≡ look kernel w)
        → (((w : ℕ) → look kernel1 w ≡ look kernel w)
            ⊎ (Succeeds export × (is_linklocal conf (prefix_addr dst) ≡ false)))
        → Changed dst rt rtp kernel (add_kernel_route export conf dst rt kernel1)
    add_lem kernel1 others safe = by_best (rt.rt_best) (best.1)
      where
        unchanged :
            (k : K)
            → ((w : ℕ) → look k w ≡ look kernel w)
            → (w : ℕ) → look k w ≡ (if dst == w then fib (some rt) else look kernel w)
        unchanged k same w = elim (Bool-cases (dst == w)) [
          | inl t ↦
              let here : dst ≡ w = ground (arith, t) in
              same w ∙ ap (λ v. look kernel v) (sym here) ∙ agree ∙ (rw t refl)
          | inr t ↦ same w ∙ (rw t refl)
        ]

        replaced :
            (k : K)
            → ((w : ℕ) → look k w ≡ (if dst == w then some (rtp.rtp_nexthop) else look kernel1 w))
            → (w : ℕ)
            → look k w
              ≡ (if dst == w then fib (some (with_route export conf rtp rt)) else look kernel w)
        replaced k new w = elim (Bool-cases (dst == w)) [
          | inl t ↦ new w ∙ (rw (t, has_index) refl)
          | inr t ↦ new w ∙ (rw t (others w t))
        ]

        by_answer :
            (b : Bool) (k : K)
            → is_far_linklocal conf dst (rtp.rtp_metric) ≡ false
            → (b ≡ true
                → (w : ℕ)
                → look k w ≡ (if dst == w then some (rtp.rtp_nexthop) else look kernel1 w))
            → (b ≡ false → (w : ℕ) → look k w ≡ look kernel1 w)
            → (Succeeds export → b ≡ true)
            → Changed dst rt rtp kernel
                (if b then some (with_route export conf rtp rt, k) else some (rt, k))
        by_answer true k near new old good = (
          record {
            apart = well.apart;
            indices = well.indices;
            live = well.live;
            local = λ i. near;
          },
          best,
          replaced k (new refl),
          (λ s l. refl),
        )
        by_answer false k near new old good = elim safe [
          | inl same ↦ (
            well,
            best,
            unchanged k (λ w. old refl w ∙ same w),
            (λ s l. absurd (ground (arith, good s))),
          )
          | inr (s, l) ↦ absurd (ground (arith, good s))
        ]

        outcome : Changed dst rt rtp kernel (
            if is_far_linklocal conf dst (rtp.rtp_metric)
            then some (rt, kernel1)
            else (if conf.host_emul
                then some (rt, kernel1)
                else (let answer = export.addroute dst rt kernel1 in
                    if answer.1
                    then some (with_route export conf rtp rt, answer.0)
                    else some (rt, answer.0))))
        outcome = elim (Bool-cases (is_far_linklocal conf dst (rtp.rtp_metric))) [
          | inl far ↦ elim safe [
            | inl same ↦ rw far (
              well,
              best,
              unchanged kernel1 same,
              (λ s l. absurd (ground (arith, sym far ∙ near_lem dst (rtp.rtp_metric) l))),
            )
            | inr (s, l) ↦ absurd (ground (arith, sym far ∙ near_lem dst (rtp.rtp_metric) l))
          ]
          | inr near ↦
              let answer = export.addroute dst rt kernel1 in
              rw (near, live)
                (by_answer (answer.1) (answer.0) near
                  (λ e w. laws.added dst rt kernel1 (best.0) rtp (best.1) (best.2) e w)
                  (λ e w. laws.refused dst rt kernel1 e w) (λ s. s dst rt kernel1))
        ]

        by_path :
            (o : Option RtPath)
            → o ≡ some rtp
            → Changed dst rt rtp kernel (elim o as (λ o. Option (RtEntry × K)) [
              | none ↦ none
              | some rtp ↦
                  if is_far_linklocal conf dst (rtp.rtp_metric)
                  then some (rt, kernel1)
                  else (if conf.host_emul
                      then some (rt, kernel1)
                      else (let answer = export.addroute dst rt kernel1 in
                          if answer.1
                          then some (with_route export conf rtp rt, answer.0)
                          else some (rt, answer.0)))
            ])
        by_path none e = absurd (ground (arith, e))
        by_path (some r) e =
            let same : r ≡ rtp = ground (arith, e) in
            subst
              (λ (r : RtPath). Changed dst rt rtp kernel (
                if is_far_linklocal conf dst (r.rtp_metric)
                then some (rt, kernel1)
                else (if conf.host_emul
                    then some (rt, kernel1)
                    else (let answer = export.addroute dst rt kernel1 in
                        if answer.1
                        then some (with_route export conf r rt, answer.0)
                        else some (rt, answer.0)))))
              (sym same) outcome

        by_best :
            (o : Option ℕ)
            → o ≡ some (best.0)
            → Changed dst rt rtp kernel (elim o as (λ o. Option (RtEntry × K)) [
              | none ↦ none
              | some p ↦ elim (find p (rt.rt_path_tree)) as (λ o. Option (RtEntry × K)) [
                | none ↦ none
                | some rtp ↦
                    if is_far_linklocal conf dst (rtp.rtp_metric)
                    then some (rt, kernel1)
                    else (if conf.host_emul
                        then some (rt, kernel1)
                        else (let answer = export.addroute dst rt kernel1 in
                            if answer.1
                            then some (with_route export conf rtp rt, answer.0)
                            else some (rt, answer.0)))
              ]
            ])
        by_best none e = absurd (ground (arith, e))
        by_best (some p) e =
            let here : p ≡ best.0 = ground (arith, e) in
            by_path (find p (rt.rt_path_tree)) (ap (λ x. find x (rt.rt_path_tree)) here ∙ best.2)

    pub change_route-Changed :
        Safe export conf dst → Changed dst rt rtp kernel (change_route export conf dst rt kernel)
    change_route-Changed (inl never) = rw (never) (add_lem kernel (λ w t. refl) (inl (λ w. refl)))
    change_route-Changed (inr (s, l)) =
        add_lem
          (if deletes_first export conf rt
            then delete_kernel_route export conf dst rt kernel
            else kernel)
          (λ w t. deleted w t (deletes_first export conf rt) refl) (inr (s, l))
      where
        deleted :
            (w : ℕ)
            → (dst == w) ≡ false
            → (b : Bool) → deletes_first export conf rt ≡ b
            → look (if b then delete_kernel_route export conf dst rt kernel else kernel) w
              ≡ look kernel w
        deleted w t true e =
            let i : is_index (rt.rt_nexthop.iif_index) ≡ true =
              and_right (conf.ip6 || conf.replaced) (is_index (rt.rt_nexthop.iif_index)) e in
            delete_kernel_route-look export conf look laws live dst rt kernel w
              (λ i. near_lem dst (rt.rt_metric) l) i
            ∙ (rw t refl)
          where
            and_right : (a b : Bool) → a && b ≡ true → b ≡ true
            and_right true true e = refl
            and_right true false e = e
            and_right false b e = absurd (ground (arith, e))
        deleted w t false e = refl
