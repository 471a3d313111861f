-- ===== src/Mpr/Marks.antt =====
-- The marks that the parts of the selection set, and the end of its inner loop.
use olsrd_hybrid_plc.Prelude.{
  All, ℕ, zero, suc, ◌<◌, ◌≡◌, refl, sym, subst, ap, ◌∙◌, Bool, true, false, Bool-cases, ◌&&◌,
  Option, none, some, Option-cases, inl, inr, List, [], ◌∷◌, map, ◌==◌, if◌then◌else◌, get_elem?,
  arith,
}
use olsrd_hybrid_plc.Mpr.{
  Neighbor, TwoHop, Tables, not_sym, will_always, will_never, update, is_not_not_sym, chosen_mpr,
}
use olsrd_hybrid_plc.Mpr.Select.{not, one_link_to, with_1_link, choose_first, choose_links}
use olsrd_hybrid_plc.Mpr.View.{Flags, view, mark, view-chosen_mpr}

-- No neighbour that wants never to be an MPR is one, and every neighbour that is not asymmetric and
-- wants always to be one is one.
abbrev pub fitting : Flags → Bool
fitting f =
    not ((f.1 == will_never) && f.2)
    && not (not (f.0 == not_sym) && (f.1 == will_always) && not (f.2))

abbrev pub Fitting : List Flags → Type 0
Fitting v = All (λ f. fitting f ≡ true) v

abbrev pub wills : List Flags → List ℕ
wills v = map (λ f. f.1) v

pub wills-mark : (i : ℕ) (v : List Flags) → wills (update i mark v) ≡ wills v
wills-mark i [] = refl
wills-mark zero (f ∷ v) = refl
wills-mark (suc i) (f ∷ v) = ap (λ l. f.1 ∷ l) (wills-mark i v)

-- The neighbour at this place, where there is one, is willing.
abbrev pub WillingAt : List ℕ → ℕ → Type 0
WillingAt [] i = Unit {0}
WillingAt (w ∷ ws) zero = 0 < w
WillingAt (w ∷ ws) (suc i) = WillingAt ws i

Fitting-mark :
    (i : ℕ) (v : List Flags) → WillingAt (wills v) i → Fitting v → Fitting (update i mark v)
Fitting-mark i [] w a = tt
Fitting-mark zero (f ∷ v) w (h, a) = (marked f w, a)
  where
    marked : (f : Flags) → 0 < f.1 → fitting (mark f) ≡ true
    marked (st, zero, m) lt = absurd (omega arith)
    marked (st, suc k, m) lt = elim (Bool-cases (st == not_sym)) [
      | inl t ↦ ground arith
      | inr t ↦ ground arith
    ]
Fitting-mark (suc i) (f ∷ v) w (h, a) = (h, Fitting-mark i v w a)

-- The flags after a step, which leaves the willingness of all.
abbrev pub Keeping : List Flags → List Flags → Type 0
Keeping before after = Fitting after × (wills after ≡ wills before)

pub chosen_mpr-Keeping :
    (coverage i : ℕ) (s : Tables × ℕ)
    → WillingAt (wills (view (s.0.neighbors))) i
    → Fitting (view (s.0.neighbors))
    → Keeping (view (s.0.neighbors)) (view ((chosen_mpr coverage i s).0.neighbors))
chosen_mpr-Keeping coverage i (s, count) w a =
    rw (view-chosen_mpr coverage i s count)
      (Fitting-mark i (view (s.neighbors)) w a, wills-mark i (view (s.neighbors)))

-- The neighbour that a two-hop neighbour lists first is willing.
abbrev Linked : List ℕ → TwoHop → Type 0
Linked ws t = elim (t.nblist) [ [] ↦ Unit {0} | i ∷ is ↦ WillingAt ws i ]

pub willing_at_lem :
    (i : ℕ) (ns : List Neighbor) (n : Neighbor)
    → get_elem? ns i ≡ some n
    → 0 < n.willingness
    → WillingAt (wills (view ns)) i
willing_at_lem i [] n at lt = tt
willing_at_lem zero (m ∷ ns) n at lt =
    let same : m.willingness ≡ n.willingness =
      ap (λ (o : Option Neighbor). elim o [ none ↦ 0 | some k ↦ k.willingness ]) at in
    rw same lt
willing_at_lem (suc i) (m ∷ ns) n at lt = willing_at_lem i ns n at lt

willing : (p q : Bool) (w will : ℕ) → p && (w == suc will) && q ≡ true → 0 < w
willing p q w will h = ground (arith, h)

one_link_to-Linked :
    (s : Tables) (will : ℕ) (t : TwoHop)
    → one_link_to s (suc will) t ≡ true
    → Linked (wills (view (s.neighbors))) t
one_link_to-Linked s will t = go (t.nblist)
  where
    go :
        (l : List ℕ)
        → (elim l as (λ l. Bool) [
          | [] ↦ false
          | i ∷ is ↦ elim (get_elem? (s.neighbors) i) [
            | none ↦ false
            | some n ↦ (t.pointers == 1) && (n.willingness == suc will) && (n.status == 1)
          ]
        ])
          ≡ true
        → (elim l as (λ l. Type 0) [
          | [] ↦ Unit {0}
          | i ∷ is ↦ WillingAt (wills (view (s.neighbors))) i
        ])
    go [] h = tt
    go (i ∷ is) h = elim (Option-cases (get_elem? (s.neighbors) i)) [
      | inl missing ↦ absurd (ground (arith, rw missing at h))
      | inr (n, there) ↦
          let h' : (t.pointers == 1) && (n.willingness == suc will) && (n.status == 1) ≡ true =
            rw there at h in
          willing_at_lem i (s.neighbors) n there
            (willing (t.pointers == 1) (n.status == 1) (n.willingness) will h')
    ]

with_1_link-Linked :
    (s : Tables) (will : ℕ) (ts found : List TwoHop)
    → All (Linked (wills (view (s.neighbors)))) found
    → All (Linked (wills (view (s.neighbors)))) (with_1_link s (suc will) ts found)
with_1_link-Linked s will [] found a = a
with_1_link-Linked s will (t ∷ ts) found a = elim (Bool-cases (is_not_not_sym s (t.addr))) [
  | inl one ↦ rw (one, with_1_link) (with_1_link-Linked s will ts found a)
  | inr other ↦ elim (Bool-cases (one_link_to s (suc will) t)) [
    | inl link ↦
        rw (other, link, with_1_link)
          (with_1_link-Linked s will ts (t ∷ found) (one_link_to-Linked s will t link, a))
    | inr none_here ↦ rw (other, none_here, with_1_link) (with_1_link-Linked s will ts found a)
  ]
]

choose_first-Keeping :
    (coverage : ℕ) (t : TwoHop) (s : Tables × ℕ)
    → Linked (wills (view (s.0.neighbors))) t
    → Fitting (view (s.0.neighbors))
    → Keeping (view (s.0.neighbors)) (view ((choose_first coverage t s).0.neighbors))
choose_first-Keeping coverage t (s, count) = go (t.nblist)
  where
    go :
        (l : List ℕ)
        → (elim l as (λ l. Type 0) [
          | [] ↦ Unit {0}
          | i ∷ is ↦ WillingAt (wills (view (s.neighbors))) i
        ])
        → Fitting (view (s.neighbors))
        → Keeping (view (s.neighbors)) (
            view (
              (elim l as (λ l. Tables × ℕ) [
                | [] ↦ (s, count)
                | i ∷ is ↦ elim (get_elem? (s.neighbors) i) [
                  | none ↦ (s, count)
                  | some n ↦ if n.is_mpr then (s, count) else chosen_mpr coverage i (s, count)
                ]
              ]).0.neighbors))
    go [] w a = (a, refl)
    go (i ∷ is) w a = elim (Option-cases (get_elem? (s.neighbors) i)) [
      | inl missing ↦ rw missing (a, refl)
      | inr (n, there) ↦ elim (Bool-cases (n.is_mpr)) [
        | inl already ↦ rw (there, already) (a, refl)
        | inr new ↦ rw (there, new) (chosen_mpr-Keeping coverage i (s, count) w a)
      ]
    ]

pub Keeping-trans : (u v w : List Flags) → Keeping u v → Keeping v w → Keeping u w
Keeping-trans u v w (_, e) (a, e') = (a, e' ∙ e)

choose_links-Keeping :
    (coverage : ℕ) (ts : List TwoHop) (s : Tables × ℕ)
    → All (Linked (wills (view (s.0.neighbors)))) ts
    → Fitting (view (s.0.neighbors))
    → Keeping (view (s.0.neighbors)) (view ((choose_links coverage ts s).0.neighbors))
choose_links-Keeping coverage [] s l a = (a, refl)
choose_links-Keeping coverage (t ∷ ts) s (h, l) a =
    let next : Tables × ℕ = choose_first coverage t s in
    let first : Keeping (view (s.0.neighbors)) (view (next.0.neighbors)) =
      choose_first-Keeping coverage t s h a in
    let l' : All (Linked (wills (view (next.0.neighbors)))) ts =
      subst (λ ws. All (Linked ws) ts) (sym (first.1)) l in
    Keeping-trans _ (view (next.0.neighbors)) _ first
      (choose_links-Keeping coverage ts next l' (first.0))

-- The two-hop neighbours with one link are covered.
pub links-Keeping :
    (coverage will : ℕ) (s : Tables × ℕ)
    → Fitting (view (s.0.neighbors))
    → Keeping (view (s.0.neighbors)) (
        view (
          (choose_links coverage
            (with_1_link (s.0) (suc will) (s.0.two_hop_table) [])
            s).0.neighbors))
links-Keeping coverage will s a =
    choose_links-Keeping coverage (with_1_link (s.0) (suc will) (s.0.two_hop_table) []) s
      (with_1_link-Linked (s.0) will (s.0.two_hop_table) [] tt) a
