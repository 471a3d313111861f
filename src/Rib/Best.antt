-- ===== src/Rib/Best.antt =====
-- The election of the best path by olsr_rt_best of src/routing_table.c.
use olsrd_hybrid_plc.Prelude.{
  Apart, All, All-map, ℕ, ◌≡◌, ◌≢◌, find, refl, ap, ◌⊎◌, ◌<◌, ◌≤◌, Bool, true, false, Bool-cases,
  inl, inr, Option, none, some, List, [], ◌∷◌, arith, ltb, ◌==◌, if◌then◌else◌,
}
use olsrd_hybrid_plc.Rib.{
  RtPath, RtEntry, RibConf, prefix_len, points_to, weigh, cmp_rtp, best_from, with_best, rt_best_of,
}
use olsrd_hybrid_plc.Rib.Paths.{Finds, Apart-Finds}

module _ (conf : RibConf) (inetgw : Option ℕ) where
  -- With what is compared as numbers.
  abbrev less : ℕ → ℕ → ℕ → ℕ → ℕ → ℕ → Bool
  less w1 h1 o1 w2 h2 o2 =
      if ltb w1 w2
      then true
      else (if ltb w2 w1
          then false
          else (if ltb h1 h2 then true else (if ltb h2 h1 then false else ltb o1 o2)))

  less_trans :
      (w1 h1 o1 w2 h2 o2 w3 h3 o3 : ℕ)
      → less w1 h1 o1 w2 h2 o2 ≡ true
      → less w3 h3 o3 w2 h2 o2 ≡ false
      → less w3 h3 o3 w1 h1 o1 ≡ false
  less_trans w1 h1 o1 w2 h2 o2 w3 h3 o3 a b = ground (arith, a, b)

  less_irrefl : (w h o : ℕ) → less w h o w h o ≡ false
  less_irrefl w h o = ground arith

  -- No path is better than this one.
  abbrev NoBetter : ℕ × RtPath → List (ℕ × RtPath) → Type 0
  NoBetter b paths = All (λ x. cmp_rtp conf inetgw x b ≡ false) paths

  cmp_rtp_trans :
      (x b y : ℕ × RtPath)
      → cmp_rtp conf inetgw x b ≡ true
      → cmp_rtp conf inetgw y b ≡ false
      → cmp_rtp conf inetgw y x ≡ false
  unfolding cmp_rtp
  cmp_rtp_trans (p1, x) (p2, b) (p3, y) h k =
      less_trans (weigh conf inetgw p1 x) (x.rtp_metric.hops) (x.rtp_originator)
        (weigh conf inetgw p2 b) (b.rtp_metric.hops) (b.rtp_originator) (weigh conf inetgw p3 y)
        (y.rtp_metric.hops) (y.rtp_originator) h k

  cmp_rtp_irrefl : (x : ℕ × RtPath) → cmp_rtp conf inetgw x x ≡ false
  unfolding cmp_rtp
  cmp_rtp_irrefl (p, x) = less_irrefl (weigh conf inetgw p x) (x.rtp_metric.hops) (x.rtp_originator)

  -- Nothing that was seen, and nothing that is left, is better than the winner.
  best_from-seen :
      (best : ℕ × RtPath) (seen paths : List (ℕ × RtPath))
      → NoBetter best seen
      → NoBetter (best_from conf inetgw best paths) seen
  best_from-seen best seen [] h = h
  best_from-seen best seen (x ∷ paths) h = elim (Bool-cases (cmp_rtp conf inetgw x best)) [
    | inl t ↦ rw t (
        best_from-seen x seen paths (
          All-map (λ y. cmp_rtp conf inetgw y best ≡ false) (λ y. cmp_rtp conf inetgw y x ≡ false)
            seen (λ y k. cmp_rtp_trans x best y t k) h))
    | inr t ↦ rw t (best_from-seen best seen paths h)
  ]

  best_from-rest :
      (best : ℕ × RtPath) (paths : List (ℕ × RtPath))
      → NoBetter (best_from conf inetgw best paths) paths
  best_from-rest best [] = tt
  best_from-rest best (x ∷ paths) =
      go (cmp_rtp conf inetgw x best) refl (best_from-rest x paths) (best_from-rest best paths)
    where
      go :
          (t : Bool)
          → cmp_rtp conf inetgw x best ≡ t
          → NoBetter (best_from conf inetgw x paths) paths
          → NoBetter (best_from conf inetgw best paths) paths
          → NoBetter (best_from conf inetgw (if t then x else best) paths) (x ∷ paths)
      go true e new old = ((best_from-seen x (x ∷ []) paths (cmp_rtp_irrefl x, tt)).0, new)
      go false e new old = ((best_from-seen best (x ∷ []) paths (e, tt)).0, old)

  best_from-NoBetter :
      (x : ℕ × RtPath) (paths : List (ℕ × RtPath))
      → NoBetter (best_from conf inetgw x paths) (x ∷ paths)
  best_from-NoBetter x paths =
      ((best_from-seen x (x ∷ []) paths (cmp_rtp_irrefl x, tt)).0, best_from-rest x paths)

  -- The winner is one of the paths.
  pub best_from-All :
      (P : ℕ × RtPath → Type 0) (x : ℕ × RtPath) (paths : List (ℕ × RtPath))
      → P x
      → All P paths
      → P (best_from conf inetgw x paths)
  best_from-All P x [] h all = h
  best_from-All P x (y ∷ paths) h (k, all) = elim (Bool-cases (cmp_rtp conf inetgw y x)) [
    | inl t ↦ rw t (best_from-All P y paths k all)
    | inr t ↦ rw t (best_from-All P x paths h all)
  ]

-- What a path costs: that of the current gateway to the Internet is weighed with the threshold.
abbrev pub Costs : RibConf → Option ℕ → ℕ × RtPath → ℕ → Type 0
Costs conf inetgw (p, rtp) w =
    ((inetgw ≡ some p) × (w ≡ conf.nat_thresh (rtp.rtp_metric.cost)))
    ⊎ ((inetgw ≡ some p → ⊥) × (w ≡ rtp.rtp_metric.cost))

-- By the cost, the hops and the originator, in this order.
abbrev pub AtMost : ℕ → RtPath → ℕ → RtPath → Type 0
AtMost w rtp w' rtp' =
    (w < w')
    ⊎ ((w ≡ w')
        × ((rtp.rtp_metric.hops < rtp'.rtp_metric.hops)
            ⊎ ((rtp.rtp_metric.hops ≡ rtp'.rtp_metric.hops)
                × (rtp.rtp_originator ≤ rtp'.rtp_originator))))

-- The elected path is one of the paths `m`, and comes before all of them in this order; it is the
-- gateway to the Internet for the default route.
abbrev pub Winner :
    RibConf → Option ℕ → ℕ → List (ℕ × RtPath) → Option (RtEntry × Option ℕ) → Type 0
Winner conf inetgw dst m none = ⊥
Winner conf inetgw dst m (some (rt', inetgw')) =
    (p : ℕ) × (rtp : RtPath) × (rt'.rt_best ≡ some p)
    × (find p m ≡ some rtp)
    × ((w : ℕ) × Costs conf inetgw (p, rtp) w
        × All (λ (x : ℕ × RtPath). (w' : ℕ) × Costs conf inetgw x w' × AtMost w rtp w' (x.1)) m)
    × (inetgw' ≡ (if prefix_len dst == 0 then some p else inetgw))

points_to-same : (inetgw : Option ℕ) (p : ℕ) → points_to inetgw p ≡ true → inetgw ≡ some p
points_to-same none p e = absurd (ground (arith, e))
points_to-same (some q) p e = let same : q ≡ p = ground (arith, e) in ap some same

points_to-other : (inetgw : Option ℕ) (p : ℕ) → points_to inetgw p ≡ false → inetgw ≡ some p → ⊥
points_to-other none p e h = ground (arith, h)
points_to-other (some q) p e h = let same : q ≡ p = ground (arith, h) in ground (arith, e, same)

weigh-Costs :
    (conf : RibConf) (inetgw : Option ℕ) (x : ℕ × RtPath)
    → Costs conf inetgw x (weigh conf inetgw (x.0) (x.1))
weigh-Costs conf inetgw (p, rtp) = elim (Bool-cases (points_to inetgw p)) [
  | inl t ↦ inl (points_to-same inetgw p t, rw (weigh, t) refl)
  | inr t ↦ inr (points_to-other inetgw p t, rw (weigh, t) refl)
]

-- What no better path means.
cmp_rtp-AtMost :
    (conf : RibConf) (inetgw : Option ℕ) (b x : ℕ × RtPath)
    → cmp_rtp conf inetgw x b ≡ false
    → AtMost (weigh conf inetgw (b.0) (b.1)) (b.1) (weigh conf inetgw (x.0) (x.1)) (x.1)
unfolding cmp_rtp
cmp_rtp-AtMost conf inetgw (p, b) (q, x) h =
    by_numbers (weigh conf inetgw p b) (b.rtp_metric.hops) (b.rtp_originator)
      (weigh conf inetgw q x) (x.rtp_metric.hops) (x.rtp_originator) h
  where
    by_numbers :
        (w1 h1 o1 w2 h2 o2 : ℕ)
        → less conf inetgw w2 h2 o2 w1 h1 o1 ≡ false
        → (w1 < w2) ⊎ ((w1 ≡ w2) × ((h1 < h2) ⊎ ((h1 ≡ h2) × (o1 ≤ o2))))
    by_numbers w1 h1 o1 w2 h2 o2 e = ground (arith, e)

-- The election of a route with a path, whose paths have different pointers, elects one of them that has
-- the least cost, among these the fewest hops, and among these the first originator, where the cost of
-- the current gateway to the Internet is weighed with the threshold; for the default route this path
-- is the gateway from then on.
pub rt_best_of-Winner :
    (conf : RibConf) (inetgw : Option ℕ) (dst : ℕ) (rt : RtEntry)
    → Apart (rt.rt_path_tree)
    → rt.rt_path_tree ≢ []
    → Winner conf inetgw dst (rt.rt_path_tree) (rt_best_of conf inetgw dst rt)
rt_best_of-Winner conf inetgw dst rt apart some_path = go (rt.rt_path_tree) apart some_path
  where
    go :
        (m : List (ℕ × RtPath))
        → Apart m
        → m ≢ []
        → Winner conf inetgw dst m (elim m as (λ m. Option (RtEntry × Option ℕ)) [
          | [] ↦ none
          | x ∷ paths ↦
              let best = best_from conf inetgw x paths in
              some (
                with_best (some (best.0)) rt,
                (if prefix_len dst == 0 then some (best.0) else inetgw),
              )
        ])
    go [] a ne = absurd (ne refl)
    go (x ∷ paths) a ne =
        let b = best_from conf inetgw x paths in
        let all : Finds (x ∷ paths) (x ∷ paths) = Apart-Finds (x ∷ paths) a in
        let found : find (b.0) (x ∷ paths) ≡ some (b.1) =
          best_from-All conf inetgw (λ y. find (y.0) (x ∷ paths) ≡ some (y.1)) x paths (all.0)
            (all.1) in
        (
          b.0,
          b.1,
          refl,
          found,
          (
            weigh conf inetgw (b.0) (b.1),
            weigh-Costs conf inetgw b,
            All-map (λ y. cmp_rtp conf inetgw y b ≡ false)
                (λ (y : ℕ × RtPath).
                  (w' : ℕ) × Costs conf inetgw y w'
                  × AtMost (weigh conf inetgw (b.0) (b.1)) (b.1) w' (y.1))
                (x ∷ paths)
                (λ y h. (
                  weigh conf inetgw (y.0) (y.1),
                  weigh-Costs conf inetgw y,
                  cmp_rtp-AtMost conf inetgw b y h,
                ))
                (best_from-NoBetter conf inetgw x paths),
          ),
          refl,
        )
