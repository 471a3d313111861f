-- ===== src/Mpr/Maximum.antt =====
-- The candidate that olsr_find_maximum_covered returns.
use olsrd_hybrid_plc.Prelude.{
  All, All-map, ℕ, suc, ◌+◌, ◌%◌, ◌^◌, ◌<◌, ◌≤◌, ◌≡◌, ◌⊎◌, refl, sym, subst, ap, ◌∙◌, Bool, true,
  false, Bool-cases, ◌&&◌, Option, none, some, inl, inr, List, [], ◌∷◌, ◌==◌, get_elem?, arith,
}
use olsrd_hybrid_plc.Prelude.Int.{ℤ, pos, negsuc, pos_part, ltb_ℤ, ◌≤ℤ◌}
use olsrd_hybrid_plc.Mpr.{Neighbor}
use olsrd_hybrid_plc.Mpr.Select.{not, maximum_from, find_maximum_covered}

-- No MPR yet, with this willingness.
abbrev pub candidate : ℕ → Neighbor → Bool
candidate will n = not (n.is_mpr) && (n.willingness == will)

-- No candidate of the list has more to cover.
abbrev pub AtMost : ℕ → ℤ → List Neighbor → Type 0
AtMost will most ns = All (λ n. (candidate will n ≡ false) ⊎ (n.nocov ≤ℤ most)) ns

-- The place of a candidate that has the most to cover, or nothing where none has anything.
abbrev pub Best : ℕ → List Neighbor → Option ℕ → Type 0
Best will ns none = AtMost will (pos 0) ns
Best will ns (some j) =
    (n : Neighbor) × (get_elem? ns j ≡ some n)
    × (candidate will n ≡ true)
    × (0 < pos_part (n.nocov))
    × AtMost will (n.nocov) ns

-- The counts of the neighbours are those of 16 bits, less what is covered.
abbrev pub Bounded : List Neighbor → Type 0
Bounded ns = All (λ n. pos_part (n.nocov) < 2 ^ 16) ns

AtMost-trans :
    (will a b : ℕ) (ns : List Neighbor) → a ≤ b → AtMost will (pos a) ns → AtMost will (pos b) ns
AtMost-trans will a b ns h =
    All-map (λ n. (candidate will n ≡ false) ⊎ (n.nocov ≤ℤ pos a))
      (λ n. (candidate will n ≡ false) ⊎ (n.nocov ≤ℤ pos b)) ns
      (λ n p. elim p [ inl c ↦ inl c | inr le ↦ inr (omega (arith, le)) ])

-- The search among the neighbours that remain, beyond `most`.
abbrev Beyond : ℕ → List Neighbor → ℕ → ℕ → Option ℕ → Option ℕ → Type 0
Beyond will ns i most found r =
    (m : ℕ) × (most ≤ m)
    × AtMost will (pos m) ns
    × (((r ≡ found) × (m ≡ most))
        ⊎ ((j : ℕ) × (n : Neighbor) × (r ≡ some (i + j))
            × (get_elem? ns j ≡ some n)
            × (candidate will n ≡ true)
            × (n.nocov ≡ pos m)
            × (most < m)))

pos_of_positive : (a : ℤ) (most : ℕ) → ltb_ℤ (pos most) a ≡ true → pos (pos_part a) ≡ a
pos_of_positive (pos n) most h = refl
pos_of_positive (negsuc n) most h = absurd (ground (arith, h))

taken_lem :
    (will i most : ℕ) (n : Neighbor) (ns : List Neighbor) (found r : Option ℕ)
    → candidate will n ≡ true
    → ltb_ℤ (pos most) (n.nocov) ≡ true
    → Beyond will ns (suc i) (pos_part (n.nocov)) (some i) r
    → Beyond will (n ∷ ns) i most found r
taken_lem will i most n ns found r c more (m, le, a, inl (e, same)) =
    let exact : pos (pos_part (n.nocov)) ≡ n.nocov = pos_of_positive (n.nocov) most more in
    let lt : most < pos_part (n.nocov) = ground arith in
    (
      m,
      omega arith,
      (inr (omega (arith, lt, same)), a),
      inr (
        0,
        n,
        e ∙ ap some (omega arith),
        refl,
        c,
        sym exact ∙ ap pos (sym same),
        omega (arith, lt, same),
      ),
    )
taken_lem will i most n ns found r c more (m, le, a, inr (j, n', e, at, c', q, lt')) =
    let lt : most < pos_part (n.nocov) = ground arith in
    (
      m,
      omega arith,
      (inr (omega (arith, lt')), a),
      inr (suc j, n', e ∙ ap some (omega arith), at, c', q, omega arith),
    )

passed_lem :
    (will i most : ℕ) (n : Neighbor) (ns : List Neighbor) (found r : Option ℕ)
    → (candidate will n ≡ false) ⊎ (n.nocov ≤ℤ pos most)
    → Beyond will ns (suc i) most found r
    → Beyond will (n ∷ ns) i most found r
passed_lem will i most n ns found r skip (m, le, a, rest) =
    let here : (candidate will n ≡ false) ⊎ (n.nocov ≤ℤ pos m) = elim skip [
      | inl c ↦ inl c
      | inr below ↦ inr (omega (arith, below))
    ] in
    (
      m,
      le,
      (here, a),
      elim rest [
        | inl same ↦ inl same
        | inr (j, n', e, at, c', q, lt') ↦
            inr (suc j, n', e ∙ ap some (omega arith), at, c', q, lt')
      ],
    )

maximum_from_lem :
    (will : ℕ) (ns : List Neighbor) (i most : ℕ) (found : Option ℕ)
    → Bounded ns
    → Beyond will ns i most found (maximum_from will ns i most found)
unfolding maximum_from
maximum_from_lem will [] i most found b = (most, omega arith, tt, inl (refl, refl))
maximum_from_lem will (n ∷ ns) i most found (small, b) = elim (Bool-cases (candidate will n)) [
  | inr c ↦ past (rw c refl) (inl c) (maximum_from_lem will ns (suc i) most found b)
  | inl c ↦ elim (Bool-cases (ltb_ℤ (pos most) (n.nocov))) [
    | inr less ↦
        past (rw (c, less) refl) (inr (ground arith))
          (maximum_from_lem will ns (suc i) most found b)
    | inl more ↦
        let whole : pos_part (n.nocov) % 2 ^ 16 ≡ pos_part (n.nocov) = omega (arith, small) in
        let step : maximum_from will (n ∷ ns) i most found
            ≡ maximum_from will ns (suc i) (pos_part (n.nocov)) (some i) =
          rw (c, more, whole) refl in
        subst (λ r. Beyond will (n ∷ ns) i most found r) (sym step)
          (taken_lem will i most n ns found _ c more
            (maximum_from_lem will ns (suc i) (pos_part (n.nocov)) (some i) b))
  ]
]
  where
    past :
        maximum_from will (n ∷ ns) i most found ≡ maximum_from will ns (suc i) most found
        → (candidate will n ≡ false) ⊎ (n.nocov ≤ℤ pos most)
        → Beyond will ns (suc i) most found (maximum_from will ns (suc i) most found)
        → Beyond will (n ∷ ns) i most found (maximum_from will (n ∷ ns) i most found)
    past step skip later =
        subst (λ r. Beyond will (n ∷ ns) i most found r) (sym step)
          (passed_lem will i most n ns found _ skip later)

best_lem :
    (will : ℕ) (ns : List Neighbor) (r : Option ℕ) → Beyond will ns 0 0 none r → Best will ns r
best_lem will ns none (m, le, a, inl (e, same)) = AtMost-trans will m 0 ns (omega (arith, same)) a
best_lem will ns none (m, le, a, inr (j, n, e, at, c, q, lt)) = absurd (ground (arith, e))
best_lem will ns (some k) (m, le, a, inl (e, same)) = absurd (ground (arith, e))
best_lem will ns (some k) (m, le, a, inr (j, n, e, at, c, q, lt)) =
    let place : k ≡ j = ground (arith, e) in (n, rw place at, c, rw q lt, rw q a)

-- The neighbour that is returned is a candidate with something to cover, and no candidate of this
-- willingness has more; where none is returned, no candidate has anything to cover. The counts are
-- those of 16 bits.
pub find_maximum_covered-Best :
    (will : ℕ) (ns : List Neighbor) → Bounded ns → Best will ns (find_maximum_covered will ns)
find_maximum_covered-Best will ns b = best_lem will ns _ (maximum_from_lem will ns 0 0 none b)
