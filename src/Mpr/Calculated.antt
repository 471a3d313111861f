-- ===== src/Mpr/Calculated.antt =====
-- What olsr_calculate_mpr leaves: who is an MPR and who is not.
use olsrd_hybrid_plc.Prelude.{
  All, ℕ, zero, suc, ◌+◌, ◌<◌, ◌≤◌, ◌≡◌, refl, sym, ap, ◌∙◌, Bool, true, false, Bool-cases, ◌&&◌,
  Option, none, some, inl, inr, List, [], ◌∷◌, ◌++◌, map, leb, ◌==◌, if◌then◌else◌, length, arith,
}
use olsrd_hybrid_plc.Mpr.{Neighbor, Tables, not_sym, will_always, update, chosen_mpr}
use olsrd_hybrid_plc.Mpr.Count.{clear_mpr, clear_mprs, calculate_two_hop_neighbors}
use olsrd_hybrid_plc.Mpr.Select.{
  not, choose_links, with_1_link, select_down, add_will_always_from, add_will_always_nodes, needed,
  optimize_neighbor, optimize_all, optimize_passes, optimize_mpr_set, finish_mpr, calculate_mpr,
}
use olsrd_hybrid_plc.Mpr.View.{
  Flags, flags, view, mark, view-chosen_mpr, view-calculate_two_hop_neighbors,
  view-check_mpr_changes,
}
use olsrd_hybrid_plc.Mpr.Marks.{fitting, Fitting, Keeping, links-Keeping}
use olsrd_hybrid_plc.Mpr.Rounds.{unmarked_bound, Done, Done-trans, cover_maximum-Done}

-- The rounds end, and the marks fit after them.
select_down-Done :
    (coverage total will : ℕ) (s : Tables × ℕ)
    → Fitting (view (s.0.neighbors))
    → Done (view (s.0.neighbors)) (select_down coverage total will s)
unfolding select_down
select_down-Done coverage total zero s a = (a, refl)
select_down-Done coverage total (suc will) (s, count) a =
    let links : Tables × ℕ =
      choose_links coverage (with_1_link s (suc will) (s.two_hop_table) []) (s, count) in
    let kept : Keeping (view (s.neighbors)) (view (links.0.neighbors)) =
      links-Keeping coverage will (s, count) a in
    elim (Bool-cases (leb total (links.1))) [
      | inl full ↦ rw (full, select_down) kept
      | inr short ↦
          rw (short, select_down)
            (Done-trans (view (s.neighbors)) (view (links.0.neighbors)) _ kept (
              rounds (links.0.neighbors) _
                (cover_maximum-Done (suc (length (links.0.neighbors))) coverage total will links
                  (omega (arith, unmarked_bound (links.0.neighbors))) (kept.0))
                (λ next. select_down-Done coverage total will next)))
    ]
  where
    rounds :
        (ns : List Neighbor) (o : Option (Tables × ℕ))
        → Done (view ns) o
        → ((next : Tables × ℕ)
            → Fitting (view (next.0.neighbors))
            → Done (view (next.0.neighbors)) (select_down coverage total will next))
        → Done (view ns) (elim o as (λ o. Option (Tables × ℕ)) [
          | none ↦ none
          | some next ↦ elim (leb total (next.1)) [
            | true ↦ some next
            | false ↦ select_down coverage total will next
          ]
        ])
    rounds ns none d more = elim d [ ]
    rounds ns (some next) d more = elim (Bool-cases (leb total (next.1))) [
      | inl full ↦ rw full d
      | inr short ↦ rw short (Done-trans (view ns) (view (next.0.neighbors)) _ d (more next (d.0)))
    ]

-- A neighbour after the choice of those that want always to be MPRs.
abbrev always : Flags → Flags
always f = if f.0 == not_sym then f else if f.1 == will_always then mark f else f

update_at :
    (before : List Flags) (f : Flags) (v : List Flags)
    → update (length before) mark (before ++ (f ∷ v)) ≡ before ++ (mark f ∷ v)
update_at [] f v = refl
update_at (g ∷ before) f v = ap (λ l. g ∷ l) (update_at before f v)

snoc :
    (before : List Flags) (f : Flags) (v : List Flags)
    → (before ++ (f ∷ [])) ++ v ≡ before ++ (f ∷ v)
snoc [] f v = refl
snoc (g ∷ before) f v = ap (λ l. g ∷ l) (snoc before f v)

length-snoc : (before : List Flags) (f : Flags) → length (before ++ (f ∷ [])) ≡ suc (length before)
length-snoc [] f = refl
length-snoc (g ∷ before) f = ap suc (length-snoc before f)

-- Those and no others are chosen.
view-add_will_always_from :
    (coverage i : ℕ) (ns : List Neighbor) (s : Tables × ℕ) (before : List Flags)
    → length before ≡ i
    → view (s.0.neighbors) ≡ before ++ view ns
    → view ((add_will_always_from coverage i ns s).0.neighbors) ≡ before ++ map always (view ns)
view-add_will_always_from coverage i [] s before l e = e
view-add_will_always_from coverage i (n ∷ ns) s before l e =
    let pass : (next : Tables × ℕ) (f : Flags)
        → view (next.0.neighbors) ≡ before ++ (f ∷ view ns)
        → view ((add_will_always_from coverage (suc i) ns next).0.neighbors)
          ≡ before ++ (f ∷ map always (view ns)) =
      λ next f e'.
        view-add_will_always_from coverage (suc i) ns next (before ++ (f ∷ []))
          (length-snoc before f ∙ ap suc l) (e' ∙ sym (snoc before f (view ns)))
        ∙ snoc before f (map always (view ns)) in
    elim (Bool-cases (n.status == not_sym)) [
      | inl away ↦ rw away (pass s (flags n) e)
      | inr here ↦ elim (Bool-cases (n.willingness == will_always)) [
        | inl wants ↦
            rw (here, wants)
              (pass (chosen_mpr coverage i s) (mark (flags n)) (
                view-chosen_mpr coverage i (s.0) (s.1)
                ∙ ap (λ v. update i mark v) e
                ∙ ap (λ k. update k mark (before ++ (flags n ∷ view ns))) (sym l)
                ∙ update_at before (flags n) (view ns)))
        | inr not_always ↦ rw (here, not_always) (pass s (flags n) e)
      ]
    ]

-- No neighbour is an MPR.
abbrev AllUnmarked : List Flags → Type 0
AllUnmarked v = All (λ (f : Flags). f.2 ≡ false) v

always-Fitting : (v : List Flags) → AllUnmarked v → Fitting (map always v)
always-Fitting [] a = tt
always-Fitting ((st, will, m) ∷ v) (h, a) = (one st will m h, always-Fitting v a)
  where
    one : (st will : ℕ) (m : Bool) → m ≡ false → fitting (always (st, will, m)) ≡ true
    one st will true h = absurd (ground (arith, h))
    one st will false h = elim (Bool-cases (st == 0)) [
      | inl away ↦ ground arith
      | inr here ↦ elim (Bool-cases (will == 7)) [
        | inl wants ↦ ground arith
        | inr other ↦ ground arith
      ]
    ]

clear_mpr-unmarked : (ns : List Neighbor) → AllUnmarked (view (map clear_mpr ns))
clear_mpr-unmarked [] = tt
clear_mpr-unmarked (n ∷ ns) = elim (Bool-cases (n.is_mpr)) [
  | inl t ↦ rw t (refl, clear_mpr-unmarked ns)
  | inr t ↦ rw t (refl, clear_mpr-unmarked ns)
]

-- After the choice of those that want always to be MPRs the marks fit.
start-Fitting :
    (coverage : ℕ) (s : Tables)
    → Fitting (
        view (
          (add_will_always_nodes coverage
            (calculate_two_hop_neighbors (clear_mprs s)).0).0.neighbors))
unfolding clear_mprs
start-Fitting coverage s =
    let counted : Tables = (calculate_two_hop_neighbors (clear_mprs s)).0 in
    rw
      (
        view-add_will_always_from coverage 0 (counted.neighbors) (counted, 0) [] refl refl,
        view-calculate_two_hop_neighbors (clear_mprs s),
      )
      (always-Fitting (view (map clear_mpr (s.neighbors))) (clear_mpr-unmarked (s.neighbors)))

dropped :
    (st w : ℕ) (was : Bool) (will : ℕ)
    → 0 < will
    → will < 7
    → w ≡ will
    → fitting (st, w, was) ≡ true
    → fitting (st, w, false) ≡ true
dropped st w was will low high e h =
    let never : (w == 0) ≡ false = ground arith in
    let always : (w == 7) ≡ false = ground arith in
    elim (Bool-cases (st == 0)) [
      | inl t ↦ rw (never, always, t) refl
      | inr t ↦ rw (never, always, t) refl
    ]

optimize_neighbor-fitting :
    (s : Tables) (coverage will : ℕ) (n : Neighbor)
    → 0 < will
    → will < 7
    → fitting (flags n) ≡ true
    → fitting (flags (optimize_neighbor s coverage will n)) ≡ true
optimize_neighbor-fitting s coverage will n low high h =
    elim (Bool-cases
      ((n.willingness == will) && n.is_mpr && not (needed s coverage (n.two_hops)))) [
        | inl drop ↦
            let same : n.willingness ≡ will =
              first (n.willingness) (n.is_mpr) (not (needed s coverage (n.two_hops))) drop in
            rw drop (dropped (n.status) (n.willingness) (n.is_mpr) will low high same h)
        | inr stay ↦ rw stay h
      ]
  where
    first : (w : ℕ) (p q : Bool) → (w == will) && p && q ≡ true → w ≡ will
    first w p q e = ground (arith, e)

optimize_all-Fitting :
    (s : Tables) (coverage will : ℕ) (ns : List Neighbor)
    → 0 < will
    → will < 7
    → Fitting (view ns)
    → Fitting (view (optimize_all s coverage will ns))
optimize_all-Fitting s coverage will [] low high a = tt
optimize_all-Fitting s coverage will (n ∷ ns) low high (h, a) = (
  optimize_neighbor-fitting s coverage will n low high h,
  optimize_all-Fitting s coverage will ns low high a,
)

optimize_passes-Fitting :
    (s : Tables) (coverage steps will : ℕ) (ns : List Neighbor)
    → 0 < will
    → will + steps ≤ 7
    → Fitting (view ns)
    → Fitting (view (optimize_passes s coverage steps will ns))
optimize_passes-Fitting s coverage zero will ns low high a = a
optimize_passes-Fitting s coverage (suc steps) will ns low high a =
    optimize_passes-Fitting s coverage steps (suc will) (optimize_all s coverage will ns)
      (omega arith) (omega arith) (optimize_all-Fitting s coverage will ns low (omega arith) a)

finish_mpr-Fitting :
    (coverage tc_redundancy : ℕ) (s : Tables)
    → Fitting (view (s.neighbors))
    → Fitting (view ((finish_mpr coverage tc_redundancy s).0.neighbors))
unfolding optimize_mpr_set
finish_mpr-Fitting coverage tc_redundancy s a =
    rw (view-check_mpr_changes ((optimize_mpr_set coverage s).neighbors))
      (optimize_passes-Fitting s coverage 6 1 (s.neighbors) (omega arith) (omega arith) a)

-- The calculation ended, and the marks fit.
abbrev pub Calculated : Option (Tables × Bool) → Type 0
Calculated none = ⊥
Calculated (some (s, changed)) = Fitting (view (s.neighbors))

-- For any tables the calculation of the MPRs comes to its end. Then no neighbour whose willingness
-- is WILL_NEVER is an MPR, and every neighbour that is not NOT_SYM and whose willingness is
-- WILL_ALWAYS is one.
pub calculate_mpr-Calculated :
    (coverage tc_redundancy : ℕ) (s : Tables) → Calculated (calculate_mpr coverage tc_redundancy s)
unfolding calculate_mpr
calculate_mpr-Calculated coverage tc_redundancy s =
    let (counted, total) = calculate_two_hop_neighbors (clear_mprs s) in
    let start : Tables × ℕ = add_will_always_nodes coverage counted in
    ending _ (select_down coverage total 6 start)
      (select_down-Done coverage total 6 start (start-Fitting coverage s))
  where
    ending :
        (v : List Flags) (o : Option (Tables × ℕ))
        → Done v o
        → Calculated (elim o as (λ o. Option (Tables × Bool)) [
          | none ↦ none
          | some next ↦ some (finish_mpr coverage tc_redundancy (next.0))
        ])
    ending v none d = elim d [ ]
    ending v (some next) d = finish_mpr-Fitting coverage tc_redundancy (next.0) (d.0)
