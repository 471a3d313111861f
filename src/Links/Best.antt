-- ===== src/Links/Best.antt =====
-- The link that get_best_link_to_neighbor of src/link_set.c returns where all links are symmetric.
use olsrd_hybrid_plc.Prelude.{
  All, All-map, ℕ, suc, ◌≤◌, ◌≡◌, ◌⊎◌, refl, sym, subst, ap, ◌∙◌, Bool, true, false, Bool-cases,
  ◌&&◌, ◌||◌, Option, none, some, Option-cases, inl, inr, List, [], ◌∷◌, ltb, ◌==◌, if◌then◌else◌,
  get_elem?, arith,
}
use olsrd_hybrid_plc.Links.{
  LinkEntry, Sensing, Search, sym_link, max_if_metric, link_cost_broken, lookup_link_status,
  measure, visit, best_among, or_backup, main_address, get_best_link_to_neighbor,
}

-- Nothing better than `k`.
abbrev pub Dearer : Sensing → ℕ → LinkEntry → Type 0
Dearer s k e = elim (measure s e) [ none ↦ Unit {0} | some m ↦ k ≤ m ]

abbrev pub NoneBetter : Sensing → ℕ → ℕ → List LinkEntry → Type 0
NoneBetter s main k es = All (λ (e : LinkEntry). ((e.neighbor == main) ≡ false) ⊎ Dearer s k e) es

abbrev pub AllSymmetric : Sensing → List LinkEntry → Type 0
AllSymmetric s es = All (λ (e : LinkEntry). (lookup_link_status s e == sym_link) ≡ true) es

-- What the search among these links adds to `f`.
abbrev Found : Sensing → ℕ → List LinkEntry → Search → Search → Type 0
Found s main es f g =
    (g.current ≤ f.current)
    × NoneBetter s main (g.current) es
    × (g.backup_link ≡ f.backup_link)
    × (((g.good_link ≡ f.good_link) × (g.current ≡ f.current))
        ⊎ ((e : LinkEntry) × (j : ℕ) × (g.good_link ≡ some e)
            × (get_elem? es j ≡ some e)
            × ((e.neighbor == main) ≡ true)
            × (measure s e ≡ some (g.current))))

Dearer-trans : (s : Sensing) (a b : ℕ) (e : LinkEntry) → a ≤ b → Dearer s b e → Dearer s a e
Dearer-trans s a b e h = go (measure s e)
  where
    go :
        (o : Option ℕ)
        → (elim o as (λ o. Type 0) [ none ↦ Unit {0} | some m ↦ b ≤ m ])
        → (elim o as (λ o. Type 0) [ none ↦ Unit {0} | some m ↦ a ≤ m ])
    go none d = tt
    go (some m) d = omega (arith, d)

-- One link of the neighbour.
abbrev Visited : Sensing → LinkEntry → Search → Search → Type 0
Visited s e f g =
    (g.current ≤ f.current)
    × Dearer s (g.current) e
    × (g.backup_link ≡ f.backup_link)
    × (((g.good_link ≡ f.good_link) × (g.current ≡ f.current))
        ⊎ ((g.good_link ≡ some e) × (measure s e ≡ some (g.current))))

at_most : (m k : ℕ) (p : Bool) → ltb m k || ((m == k) && p) ≡ true → m ≤ k
at_most m k p h = ground (arith, h)

at_least : (m k : ℕ) (p : Bool) → ltb m k || ((m == k) && p) ≡ false → k ≤ m
at_least m k true h = ground (arith, h)
at_least m k false h = ground (arith, h)

visit-Visited :
    (s : Sensing) (remote : ℕ) (e : LinkEntry) (f : Search)
    → (lookup_link_status s e == sym_link) ≡ true
    → Visited s e f (visit s remote e f)
visit-Visited s remote e f symmetric = elim (Option-cases (measure s e)) [
  | inl unmeasured ↦
      let same : visit s remote e f ≡ f = rw (unmeasured, visit) refl in
      subst (λ g. Visited s e f g) (sym same)
        (
          omega arith,
          subst (λ o. elim o as (λ o. Type 0) [ none ↦ Unit {0} | some m ↦ f.current ≤ m ])
              (sym unmeasured) tt,
          refl,
          inl (refl, refl),
        )
  | inr (m, measured) ↦
      elim (Bool-cases
        (ltb m (f.current) || ((m == f.current) && (e.local_iface_addr == remote)))) [
          | inl better ↦
              let g : Search = record {
                current = m;
                good_link = some e;
                backup_link = f.backup_link;
              } in
              let same : visit s remote e f ≡ g = rw (measured, visit, better, symmetric) refl in
              subst (λ g. Visited s e f g) (sym same)
                (
                  at_most m (f.current) (e.local_iface_addr == remote) better,
                  subst (λ o. elim o as (λ o. Type 0) [ none ↦ Unit {0} | some k ↦ m ≤ k ])
                      (sym measured) (omega arith),
                  refl,
                  inr (refl, measured),
                )
          | inr worse ↦
              let same : visit s remote e f ≡ f = rw (measured, visit, worse) refl in
              subst (λ g. Visited s e f g) (sym same)
                (
                  omega arith,
                  subst (λ o. elim o as (λ o. Type 0) [ none ↦ Unit {0} | some k ↦ f.current ≤ k ])
                      (sym measured) (at_least m (f.current) (e.local_iface_addr == remote) worse),
                  refl,
                  inl (refl, refl),
                )
        ]
]

NoneBetter-trans :
    (s : Sensing) (main a b : ℕ) (es : List LinkEntry)
    → a ≤ b
    → NoneBetter s main b es
    → NoneBetter s main a es
NoneBetter-trans s main a b es h =
    All-map (λ (e : LinkEntry). ((e.neighbor == main) ≡ false) ⊎ Dearer s b e)
      (λ (e : LinkEntry). ((e.neighbor == main) ≡ false) ⊎ Dearer s a e) es
      (λ e p. elim p [ inl other ↦ inl other | inr d ↦ inr (Dearer-trans s a b e h d) ])

-- A link of another neighbour is passed over.
Found-passed :
    (s : Sensing) (main : ℕ) (e : LinkEntry) (es : List LinkEntry) (f g : Search)
    → (e.neighbor == main) ≡ false
    → Found s main es f g
    → Found s main (e ∷ es) f g
Found-passed s main e es f g other (le, all, same, inl kept) =
    (le, (inl other, all), same, inl kept)
Found-passed s main e es f g other (le, all, same, inr (e', j, good, at, ours, m)) =
    (le, (inl other, all), same, inr (e', suc j, good, at, ours, m))

Found-Visited :
    (s : Sensing) (main : ℕ) (e : LinkEntry) (es : List LinkEntry) (f f' g : Search)
    → (e.neighbor == main) ≡ true
    → Visited s e f f'
    → Found s main es f' g
    → Found s main (e ∷ es) f g
Found-Visited s main e es f f' g ours (le', d, same', step)
      (le, all, same, inr (e', j, good, at, ours', m)) =
    (
      omega (arith, le, le'),
      (inr (Dearer-trans s (g.current) (f'.current) e le d), all),
      same ∙ same',
      inr (e', suc j, good, at, ours', m),
    )
Found-Visited s main e es f f' g ours (le', d, same', inl (good', cur'))
      (le, all, same, inl (good, cur)) =
    (
      omega (arith, le, le'),
      (inr (Dearer-trans s (g.current) (f'.current) e le d), all),
      same ∙ same',
      inl (good ∙ good', cur ∙ cur'),
    )
Found-Visited s main e es f f' g ours (le', d, same', inr (good', m))
      (le, all, same, inl (good, cur)) =
    (
      omega (arith, le, le'),
      (inr (Dearer-trans s (g.current) (f'.current) e le d), all),
      same ∙ same',
      inr (e, 0, good ∙ good', refl, ours, m ∙ ap some (sym cur)),
    )

best_among-Found :
    (s : Sensing) (main remote : ℕ) (es : List LinkEntry) (f : Search)
    → AllSymmetric s es
    → Found s main es f (best_among s main remote es f)
best_among-Found s main remote [] f a = (omega arith, tt, refl, inl (refl, refl))
best_among-Found s main remote (e ∷ es) f (symmetric, a) = elim (Bool-cases (e.neighbor == main)) [
  | inl ours ↦
      let g : Search = best_among s main remote es (visit s remote e f) in
      let same : best_among s main remote (e ∷ es) f ≡ g = rw (ours, best_among) refl in
      subst (λ g. Found s main (e ∷ es) f g) (sym same)
        (Found-Visited s main e es f (visit s remote e f) g ours
          (visit-Visited s remote e f symmetric)
          (best_among-Found s main remote es (visit s remote e f) a))
  | inr other ↦
      let g : Search = best_among s main remote es f in
      let same : best_among s main remote (e ∷ es) f ≡ g = rw (other, best_among) refl in
      subst (λ g. Found s main (e ∷ es) f g) (sym same)
        (Found-passed s main e es f g other (best_among-Found s main remote es f a))
]

abbrev pub worst : Sensing → ℕ
worst s = if s.lq_level == 0 then max_if_metric else link_cost_broken

-- A link to the neighbour that is measured, not worse than the worst, and none of its links is better;
-- or no link to it is better than the worst.
abbrev pub Cheapest : Sensing → ℕ → Option LinkEntry → Type 0
Cheapest s main none = NoneBetter s main (worst s) (s.links)
Cheapest s main (some e) =
    (j : ℕ) × (m : ℕ) × (get_elem? (s.links) j ≡ some e)
    × ((e.neighbor == main) ≡ true)
    × (measure s e ≡ some m)
    × (m ≤ worst s)
    × NoneBetter s main m (s.links)

nothing_lem :
    (s : Sensing) (main : ℕ) (f g : Search)
    → f.good_link ≡ none
    → f.backup_link ≡ none
    → f.current ≡ worst s
    → Found s main (s.links) f g
    → Cheapest s main (or_backup g)
nothing_lem s main f g no_good no_backup start (le, all, same, inl (good, cur)) =
    let nothing : or_backup g ≡ none = rw (good ∙ no_good, or_backup) (same ∙ no_backup) in
    subst (λ o. Cheapest s main o) (sym nothing)
      (NoneBetter-trans s main (worst s) (g.current) (s.links) (omega (arith, cur, start)) all)
nothing_lem s main f g no_good no_backup start (le, all, same, inr (e, j, good, at, ours, m)) =
    let found : or_backup g ≡ some e = rw (good, or_backup) refl in
    subst (λ o. Cheapest s main o) (sym found)
      (j, g.current, at, ours, m, omega (arith, le, start), all)

-- Where all links are symmetric, the link that is returned is one to the neighbour, and no link to it
-- has a smaller cost, or an interface of a smaller metric where link quality is not used. Without a
-- link that is returned none of them is better than LINK_COST_BROKEN, or MAX_IF_METRIC.
pub get_best_link_to_neighbor-Cheapest :
    (s : Sensing) (remote : ℕ)
    → AllSymmetric s (s.links)
    → Cheapest s (main_address s remote) (get_best_link_to_neighbor s remote)
unfolding get_best_link_to_neighbor
get_best_link_to_neighbor-Cheapest s remote a =
    let start : Search = record { current = worst s; good_link = none; backup_link = none } in
    nothing_lem s (main_address s remote) start _ refl refl refl
      (best_among-Found s (main_address s remote) remote (s.links) start a)
