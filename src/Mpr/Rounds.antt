-- ===== src/Mpr/Rounds.antt =====
-- The inner loop of olsr_calculate_mpr: every turn makes one more MPR, so it ends.
use olsrd_hybrid_plc.Prelude.{
  ℕ, zero, suc, ◌+◌, ◌%◌, ◌^◌, ◌<◌, ◌≤◌, ◌≡◌, ◌⊎◌, refl, ap, ◌∙◌, Bool, true, false, Bool-cases,
  ◌&&◌, Option, none, some, inl, inr, List, [], ◌∷◌, leb, ◌==◌, if◌then◌else◌, get_elem?, length,
  arith,
}
use olsrd_hybrid_plc.Prelude.Int.{pos, pos_part, ltb_ℤ}
use olsrd_hybrid_plc.Mpr.{Neighbor, Tables, update, chosen_mpr}
use olsrd_hybrid_plc.Mpr.Select.{not, maximum_from, find_maximum_covered, cover_maximum}
use olsrd_hybrid_plc.Mpr.View.{Flags, view, mark, view-chosen_mpr}
use olsrd_hybrid_plc.Mpr.Maximum.{candidate}
use olsrd_hybrid_plc.Mpr.Marks.{Fitting, Keeping, willing_at_lem, chosen_mpr-Keeping, Keeping-trans}

abbrev pub unmarked : List Flags → ℕ
unmarked [] = 0
unmarked (f ∷ v) = if f.2 then unmarked v else suc (unmarked v)

unmarked-mark :
    (i : ℕ) (ns : List Neighbor) (n : Neighbor)
    → get_elem? ns i ≡ some n
    → n.is_mpr ≡ false
    → suc (unmarked (update i mark (view ns))) ≡ unmarked (view ns)
unmarked-mark i [] n at new = absurd (ground (arith, at))
unmarked-mark zero (m ∷ ns) n at new =
    let same : m.is_mpr ≡ n.is_mpr =
      ap (λ (o : Option Neighbor). elim o [ none ↦ false | some k ↦ k.is_mpr ]) at in
    let new' : m.is_mpr ≡ false = same ∙ new in rw new'
unmarked-mark (suc i) (m ∷ ns) n at new = elim (Bool-cases (m.is_mpr)) [
  | inl t ↦ rw t (unmarked-mark i ns n at new)
  | inr t ↦ rw t (ap suc (unmarked-mark i ns n at new))
]

pub unmarked_bound : (ns : List Neighbor) → unmarked (view ns) ≤ length ns
unmarked_bound [] = omega arith
unmarked_bound (n ∷ ns) = elim (Bool-cases (n.is_mpr)) [
  | inl t ↦ rw t (omega (arith, unmarked_bound ns))
  | inr t ↦ rw t (omega (arith, unmarked_bound ns))
]

-- A place beyond those passed, of a candidate.
abbrev Places : ℕ → List Neighbor → ℕ → Option ℕ → Option ℕ → Type 0
Places will ns i found r =
    (r ≡ found)
    ⊎ ((j : ℕ) × (n : Neighbor) × (r ≡ some (i + j))
        × (get_elem? ns j ≡ some n)
        × (candidate will n ≡ true))

later :
    (will : ℕ) (n : Neighbor) (ns : List Neighbor) (i : ℕ) (found r : Option ℕ)
    → Places will ns (suc i) found r
    → Places will (n ∷ ns) i found r
later will n ns i found r (inl e) = inl e
later will n ns i found r (inr (j, m, e, at, c)) = inr (suc j, m, e ∙ ap some (omega arith), at, c)

maximum_from-Places :
    (will : ℕ) (ns : List Neighbor) (i most : ℕ) (found : Option ℕ)
    → Places will ns i found (maximum_from will ns i most found)
unfolding maximum_from
maximum_from-Places will [] i most found = inl refl
maximum_from-Places will (n ∷ ns) i most found =
    let k : ℕ = pos_part (n.nocov) % 2 ^ 16 in
    here (candidate will n) (ltb_ℤ (pos most) (n.nocov)) refl
      (maximum_from-Places will ns (suc i) k (some i))
      (maximum_from-Places will ns (suc i) most found)
  where
    here :
        (p q : Bool) {a b : Option ℕ}
        → candidate will n ≡ p
        → Places will ns (suc i) (some i) a
        → Places will ns (suc i) found b
        → Places will (n ∷ ns) i found (if p && q then a else b)
    here false q c x y = later will n ns i found _ y
    here true false c x y = later will n ns i found _ y
    here true true c (inl e) y = inr (0, n, e ∙ ap some (omega arith), refl, c)
    here true true c (inr (j, m, e, at, c')) y = inr (suc j, m, e ∙ ap some (omega arith), at, c')

-- A result whose marks fit and whose neighbours are as willing, and not the end of the fuel.
abbrev pub Done : List Flags → Option (Tables × ℕ) → Type 0
Done v none = ⊥
Done v (some s) = Keeping v (view (s.0.neighbors))

pub Done-trans : (u v : List Flags) (o : Option (Tables × ℕ)) → Keeping u v → Done v o → Done u o
Done-trans u v none k d = elim d [ ]
Done-trans u v (some s) k d = Keeping-trans u v (view (s.0.neighbors)) k d

candidate_parts : (p q : Bool) → not p && q ≡ true → (p ≡ false) × (q ≡ true)
candidate_parts true q h = absurd (ground (arith, h))
candidate_parts false q h = (refl, h)

-- The loop ends within one turn for each neighbour that is no MPR yet.
pub cover_maximum-Done :
    (fuel coverage total will : ℕ) (s : Tables × ℕ)
    → unmarked (view (s.0.neighbors)) < fuel
    → Fitting (view (s.0.neighbors))
    → Done (view (s.0.neighbors)) (cover_maximum fuel coverage total (suc will) s)
unfolding cover_maximum
cover_maximum-Done zero coverage total will s u a = absurd (omega arith)
cover_maximum-Done (suc fuel) coverage total will (s, count) u a =
    turn (find_maximum_covered (suc will) (s.neighbors))
      (maximum_from-Places (suc will) (s.neighbors) 0 0 none)
      (λ i. cover_maximum-Done fuel coverage total will (chosen_mpr coverage i (s, count)))
  where
    turn :
        (o : Option ℕ)
        → Places (suc will) (s.neighbors) 0 none o
        → ((i : ℕ)
            → unmarked (view ((chosen_mpr coverage i (s, count)).0.neighbors)) < fuel
            → Fitting (view ((chosen_mpr coverage i (s, count)).0.neighbors))
            → Done
                (view ((chosen_mpr coverage i (s, count)).0.neighbors))
                (cover_maximum fuel coverage total (suc will) (chosen_mpr coverage i (s, count))))
        → Done (view (s.neighbors)) (elim o as (λ o. Option (Tables × ℕ)) [
          | none ↦ some (s, count)
          | some i ↦ elim (leb total ((chosen_mpr coverage i (s, count)).1)) [
            | true ↦ some (chosen_mpr coverage i (s, count))
            | false ↦
                cover_maximum fuel coverage total (suc will) (chosen_mpr coverage i (s, count))
          ]
        ])
    turn none p rest = (a, refl)
    turn (some i) (inl e) rest = absurd (ground (arith, e))
    turn (some i) (inr (j, n, e, at, c)) rest =
        let place : i ≡ j = ground (arith, e) in
        let at' : get_elem? (s.neighbors) i ≡ some n = rw place at in
        let (new, willed) = candidate_parts (n.is_mpr) (n.willingness == suc will) c in
        let lt : 0 < n.willingness = ground arith in
        let next : Tables × ℕ = chosen_mpr coverage i (s, count) in
        let kept : Keeping (view (s.neighbors)) (view (next.0.neighbors)) =
          chosen_mpr-Keeping coverage i (s, count) (willing_at_lem i (s.neighbors) n at' lt) a in
        let fewer : unmarked (view (next.0.neighbors)) < fuel =
          rw (view-chosen_mpr coverage i s count)
            (omega (arith, unmarked-mark i (s.neighbors) n at' new, u)) in
        elim (Bool-cases (leb total (next.1))) [
          | inl full ↦ rw full kept
          | inr short ↦
              rw short (Done-trans _ (view (next.0.neighbors)) _ kept (rest i fewer (kept.0)))
        ]
