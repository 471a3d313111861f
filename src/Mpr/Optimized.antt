-- ===== src/Mpr/Optimized.antt =====
-- Which MPRs olsr_optimize_mpr_set of src/mpr.c keeps.
use olsrd_hybrid_plc.Prelude.{
  ℕ, zero, suc, ◌+◌, ◌≤◌, ◌≡◌, ◌↔◌, ◌⊎◌, refl, sym, ap, ◌∙◌, subst, Bool, true, false, Bool-cases,
  ◌&&◌, inl, inr, Option, none, some, List, [], ◌∷◌, leb, ltb, ◌==◌, arith, mem, get_elem?,
  if◌then◌else◌,
}
use olsrd_hybrid_plc.Mpr.{
  Neighbor, TwoHop, Tables, lookup_neighbor_table, is_not_not_sym, with_mpr, not_sym,
}
use olsrd_hybrid_plc.Mpr.Select.{
  not, needed, optimize_neighbor, optimize_all, optimize_passes, optimize_mpr_set,
}

-- The address is not that of a neighbour, or of one that is NOT_SYM.
abbrev pub NotNear : Tables → ℕ → Type 0
NotNear s dst =
    (lookup_neighbor_table s dst ≡ none)
    ⊎ ((m : Neighbor) × (lookup_neighbor_table s dst ≡ some m) × (m.status ≡ not_sym))

-- A two-hop neighbour in the list that is not near, and whose count says that no more MPRs cover it
-- than the coverage asks for.
abbrev pub Needs : Tables → ℕ → List ℕ → Type 0
Needs s coverage hs =
    (h : ℕ) × (t : TwoHop) × (mem h hs ≡ true)
    × (get_elem? (s.two_hop_table) h ≡ some t)
    × NotNear s (t.addr)
    × (t.covered ≤ coverage)

near_cases :
    (s : Tables) (dst : ℕ)
    → (NotNear s dst × (is_not_not_sym s dst ≡ false))
      ⊎ ((NotNear s dst → ⊥) × (is_not_not_sym s dst ≡ true))
near_cases s dst = go (lookup_neighbor_table s dst) refl
  where
    go :
        (o : Option Neighbor)
        → lookup_neighbor_table s dst ≡ o
        → (NotNear s dst × (is_not_not_sym s dst ≡ false))
          ⊎ ((NotNear s dst → ⊥) × (is_not_not_sym s dst ≡ true))
    go none e = inl (inl e, rw (is_not_not_sym, e) refl)
    go (some m) e = elim (Bool-cases (m.status == not_sym)) [
      | inl t ↦ inl (inr (m, e, ground (arith, t)), rw (is_not_not_sym, e, t) refl)
      | inr t ↦ inr (
        (λ near. elim near [
          | inl gone ↦ ground (arith, sym gone ∙ e)
          | inr (m', e', st) ↦
              let same : m' ≡ m = ground (arith, sym e' ∙ e) in
              let st' : m.status ≡ not_sym = subst (λ (x : Neighbor). x.status ≡ not_sym) same st in
              ground (arith, t, st')
        ]),
        rw (is_not_not_sym, e, t) refl,
      )
    ]

needed_sound :
    (s : Tables) (coverage : ℕ) (hs : List ℕ) → needed s coverage hs ≡ true → Needs s coverage hs
needed_sound s coverage [] e = absurd (ground (arith, e))
needed_sound s coverage (h ∷ hs) e =
    go (get_elem? (s.two_hop_table) h) refl (λ e'. later (needed_sound s coverage hs e')) e
  where
    later : Needs s coverage hs → Needs s coverage (h ∷ hs)
    later (k, t, m, at, away, few) =
        (k, t, (elim (Bool-cases (h == k)) [ inl a ↦ rw a refl | inr a ↦ rw a m ]), at, away, few)

    self : mem h (h ∷ hs) ≡ true
    self = let t : (h == h) ≡ true = ground arith in rw t refl

    go :
        (o : Option TwoHop)
        → get_elem? (s.two_hop_table) h ≡ o
        → (needed s coverage hs ≡ true → Needs s coverage (h ∷ hs))
        → (elim o as (λ o. Bool) [
          | none ↦ needed s coverage hs
          | some t ↦
              if is_not_not_sym s (t.addr)
              then needed s coverage hs
              else if leb (t.covered) coverage
              then true
              else needed s coverage hs
        ])
          ≡ true
        → Needs s coverage (h ∷ hs)
    go none at rest e' = rest e'
    go (some t) at rest e' = elim (near_cases s (t.addr)) [
      | inr (_, near) ↦ rest (rw near at e')
      | inl (away, test) ↦ elim (Bool-cases (leb (t.covered) coverage)) [
        | inl few ↦ (h, t, self, at, away, ground (arith, few))
        | inr many ↦ rest (rw (test, many) at e')
      ]
    ]

needed_complete :
    (s : Tables) (coverage : ℕ) (hs : List ℕ) → Needs s coverage hs → needed s coverage hs ≡ true
needed_complete s coverage [] (h, t, m, at, away, few) = absurd (ground (arith, m))
needed_complete s coverage (k ∷ hs) (h, t, m, at, away, few) = elim (Bool-cases (k == h)) [
  | inl here ↦
      let same : k ≡ h = ground (arith, here) in
      let at' : get_elem? (s.two_hop_table) k ≡ some t =
        ap (get_elem? (s.two_hop_table)) same ∙ at in
      let test : leb (t.covered) coverage ≡ true = ground (arith, few) in
      elim (near_cases s (t.addr)) [
        | inl (_, near) ↦ rw (at', needed) (rw (near, test) refl)
        | inr (no_way, _) ↦ absurd (no_way away)
      ]
  | inr there ↦
      let rest : needed s coverage hs ≡ true =
        needed_complete s coverage hs (h, t, rw there at m, at, away, few) in
      go (get_elem? (s.two_hop_table) k) rest
]
  where
    go :
        (o : Option TwoHop)
        → needed s coverage hs ≡ true
        → (elim o as (λ o. Bool) [
          | none ↦ needed s coverage hs
          | some t ↦
              if is_not_not_sym s (t.addr)
              then needed s coverage hs
              else if leb (t.covered) coverage
              then true
              else needed s coverage hs
        ])
          ≡ true
    go none rest = rest
    go (some t) rest = ground (arith, rest)

-- The neighbours after the passes from `low` to below `high`.
abbrev drop_unneeded : Tables → ℕ → ℕ → ℕ → Neighbor → Neighbor
drop_unneeded s coverage low high n =
    if leb low (n.willingness)
      && ltb (n.willingness) high
      && n.is_mpr
      && not (needed s coverage (n.two_hops))
    then with_mpr false (n.was_mpr) n
    else n

optimize_neighbor-drop_unneeded :
    (s : Tables) (coverage low will : ℕ) (n : Neighbor)
    → low ≤ will
    → optimize_neighbor s coverage will (drop_unneeded s coverage low will n)
      ≡ drop_unneeded s coverage low (suc will) n
optimize_neighbor-drop_unneeded s coverage low will n le =
    elim (Bool-cases (
      leb low (n.willingness)
      && ltb (n.willingness) will
      && n.is_mpr
      && not (needed s coverage (n.two_hops)))) [
        | inl drop ↦
            let stays : (n.willingness == will) && false && not (needed s coverage (n.two_hops))
                ≡ false =
              off (n.willingness == will) (not (needed s coverage (n.two_hops))) in
            let test : leb low (n.willingness)
                  && ltb (n.willingness) (suc will)
                  && n.is_mpr
                  && not (needed s coverage (n.two_hops))
                ≡ true =
              wider (n.willingness) (n.is_mpr) (not (needed s coverage (n.two_hops))) drop in
            rw (drop, stays, test) refl
        | inr keep ↦
            let same : leb low (n.willingness)
                  && ltb (n.willingness) (suc will)
                  && n.is_mpr
                  && not (needed s coverage (n.two_hops))
                ≡ ((n.willingness == will) && n.is_mpr && not (needed s coverage (n.two_hops))) =
              at_end (n.willingness) (n.is_mpr) (not (needed s coverage (n.two_hops))) keep in
            rw keep (ap (λ b. if b then with_mpr false (n.was_mpr) n else n) (sym same))
      ]
  where
    off : (a b : Bool) → a && false && b ≡ false
    off a b = ground arith

    wider :
        (w : ℕ) (p q : Bool)
        → leb low w && ltb w will && p && q ≡ true
        → leb low w && ltb w (suc will) && p && q ≡ true
    wider w p q e = ground (arith, e)

    at_end :
        (w : ℕ) (p q : Bool)
        → leb low w && ltb w will && p && q ≡ false
        → leb low w && ltb w (suc will) && p && q ≡ ((w == will) && p && q)
    at_end w p q e = ground (arith, e, le)

-- Two lists of the same length, place by place.
abbrev pub Pairwise : (Neighbor → Neighbor → Type 0) → List Neighbor → List Neighbor → Type 0
Pairwise R [] [] = Unit {0}
Pairwise R [] (y ∷ ys) = ⊥
Pairwise R (x ∷ xs) [] = ⊥
Pairwise R (x ∷ xs) (y ∷ ys) = R x y × Pairwise R xs ys

Pairwise-map :
    (R S : Neighbor → Neighbor → Type 0)
    → ((x y : Neighbor) → R x y → S x y)
    → (xs ys : List Neighbor) → Pairwise R xs ys
    → Pairwise S xs ys
Pairwise-map R S f [] [] a = tt
Pairwise-map R S f [] (y ∷ ys) a = elim a [ ]
Pairwise-map R S f (x ∷ xs) [] a = elim a [ ]
Pairwise-map R S f (x ∷ xs) (y ∷ ys) (h, a) = (f x y h, Pairwise-map R S f xs ys a)

abbrev IsDropped : Tables → ℕ → ℕ → ℕ → Neighbor → Neighbor → Type 0
IsDropped s coverage low high n n' = n' ≡ drop_unneeded s coverage low high n

optimize_all-Pairwise :
    (s : Tables) (coverage low will : ℕ) (ns ms : List Neighbor)
    → low ≤ will
    → Pairwise (IsDropped s coverage low will) ns ms
    → Pairwise (IsDropped s coverage low (suc will)) ns (optimize_all s coverage will ms)
optimize_all-Pairwise s coverage low will [] [] le a = tt
optimize_all-Pairwise s coverage low will [] (m ∷ ms) le a = elim a [ ]
optimize_all-Pairwise s coverage low will (n ∷ ns) [] le a = elim a [ ]
optimize_all-Pairwise s coverage low will (n ∷ ns) (m ∷ ms) le (h, a) = (
  ap (optimize_neighbor s coverage will) h
      ∙ optimize_neighbor-drop_unneeded s coverage low will n le,
  optimize_all-Pairwise s coverage low will ns ms le a,
)

optimize_passes-Pairwise :
    (s : Tables) (coverage low steps will : ℕ) (ns ms : List Neighbor)
    → low ≤ will
    → Pairwise (IsDropped s coverage low will) ns ms
    → Pairwise
        (IsDropped s coverage low (will + steps))
        ns
        (optimize_passes s coverage steps will ms)
optimize_passes-Pairwise s coverage low zero will ns ms le a =
    let same : will + 0 ≡ will = omega arith in rw same a
optimize_passes-Pairwise s coverage low (suc steps) will ns ms le a =
    let same : will + suc steps ≡ suc will + steps = omega arith in
    rw same (
      optimize_passes-Pairwise s coverage low steps (suc will) ns (optimize_all s coverage will ms)
        (omega (arith, le)) (optimize_all-Pairwise s coverage low will ns ms le a))

none-IsDropped :
    (s : Tables) (coverage : ℕ) (ns : List Neighbor) → Pairwise (IsDropped s coverage 1 1) ns ns
none-IsDropped s coverage [] = tt
none-IsDropped s coverage (n ∷ ns) =
    let test : leb 1 (n.willingness)
          && ltb (n.willingness) 1
          && n.is_mpr
          && not (needed s coverage (n.two_hops))
        ≡ false =
      empty (n.willingness) (n.is_mpr) (not (needed s coverage (n.two_hops))) in
    (
      ap (λ b. if b then with_mpr false (n.was_mpr) n else n) (sym test),
      none-IsDropped s coverage ns,
    )
  where
    empty : (w : ℕ) (p q : Bool) → leb 1 w && ltb w 1 && p && q ≡ false
    empty w p q = ground arith

-- A neighbour before and after the optimization.
abbrev pub Optimized : Tables → ℕ → Neighbor → Neighbor → Type 0
Optimized s coverage n n' =
    (n' ≡ with_mpr (n'.is_mpr) (n.was_mpr) n)
    × ((n'.is_mpr ≡ true) ↔ (
        (n.is_mpr ≡ true)
        × ((n.willingness ≡ 0) ⊎ ((7 ≤ n.willingness) ⊎ Needs s coverage (n.two_hops)))))

optimized_lem :
    (s : Tables) (coverage : ℕ) (n : Neighbor)
    → Optimized s coverage n (drop_unneeded s coverage 1 7 n)
optimized_lem s coverage n =
    elim (Bool-cases (
      leb 1 (n.willingness)
      && ltb (n.willingness) 7
      && n.is_mpr
      && not (needed s coverage (n.two_hops)))) [
        | inl drop ↦ rw drop (
          refl,
          (
            (λ e. absurd (ground (arith, e))),
            (λ (_, why). absurd (
                unneeded (n.willingness) (n.is_mpr) (needed s coverage (n.two_hops)) drop
                  (elim why [
                    | inl never ↦ inl never
                    | inr (inl always) ↦ inr (inl always)
                    | inr (inr needs) ↦ inr (inr (needed_complete s coverage (n.two_hops) needs))
                  ]))),
          ),
        )
        | inr keep ↦ rw keep (
          refl,
          (
            (λ mpr. (
              mpr,
              elim (reason (n.willingness) (n.is_mpr) (needed s coverage (n.two_hops)) keep mpr) [
                | inl never ↦ inl never
                | inr (inl always) ↦ inr (inl always)
                | inr (inr needs) ↦ inr (inr (needed_sound s coverage (n.two_hops) needs))
              ],
            )),
            (λ (mpr, _). mpr),
          ),
        )
      ]
  where
    unneeded :
        (w : ℕ) (p q : Bool)
        → leb 1 w && ltb w 7 && p && not q ≡ true
        → (w ≡ 0) ⊎ ((7 ≤ w) ⊎ (q ≡ true))
        → ⊥
    unneeded w p q e h = ground (arith, e, h)

    reason :
        (w : ℕ) (p q : Bool)
        → leb 1 w && ltb w 7 && p && not q ≡ false
        → p ≡ true
        → (w ≡ 0) ⊎ ((7 ≤ w) ⊎ (q ≡ true))
    reason w p q e mpr = ground (arith, e, mpr)

-- The optimization changes nothing of a neighbour but whether it is an MPR, and exactly these stay MPRs:
-- those of WILL_NEVER and of WILL_ALWAYS, and those that have a two-hop neighbour that is not a
-- neighbour, or one that is NOT_SYM, and whose count says that no more MPRs cover it than the
-- coverage asks for.
pub optimize_mpr_set-Optimized :
    (coverage : ℕ) (s : Tables)
    → Pairwise (Optimized s coverage) (s.neighbors) ((optimize_mpr_set coverage s).neighbors)
unfolding optimize_mpr_set
optimize_mpr_set-Optimized coverage s =
    Pairwise-map (IsDropped s coverage 1 7) (Optimized s coverage)
      (λ n n' e. subst (Optimized s coverage n) (sym e) (optimized_lem s coverage n)) (s.neighbors)
      (optimize_passes s coverage 6 1 (s.neighbors))
      (optimize_passes-Pairwise s coverage 1 6 1 (s.neighbors) (s.neighbors) (omega arith)
        (none-IsDropped s coverage (s.neighbors)))
