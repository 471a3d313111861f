-- ===== src/Mpr/View.antt =====
-- What the selection reads and marks of a neighbour, and how the steps change it.
use olsrd_hybrid_plc.Prelude.{
  ℕ, zero, suc, ◌+◌, ◌%◌, ◌^◌, ◌≡◌, refl, sym, ap, ◌∙◌, Bool, true, Bool-cases, none, Option-cases,
  inl, inr, List, [], ◌∷◌, map, leb, ◌==◌, get_elem?, arith,
}
use olsrd_hybrid_plc.Mpr.{
  Neighbor, TwoHop, Tables, sym_status, not_sym, update, is_one_hop, with_neighbors, set_mpr,
  one_less, uncover, cover, cover_all, chosen_mpr,
}
use olsrd_hybrid_plc.Mpr.Count.{
  Counts, count_neighbor, count_neighbors, calculate_two_hop_neighbors, check_mpr_changes,
}

-- The status, the willingness and the mark.
abbrev pub Flags : Type 0
Flags = ℕ × ℕ × Bool

abbrev pub flags : Neighbor → Flags
flags n = (n.status, n.willingness, n.is_mpr)

abbrev pub view : List Neighbor → List Flags
view ns = map flags ns

abbrev pub mark : Flags → Flags
mark f = (f.0, f.1, true)

view-update_same :
    (i : ℕ) (g : Neighbor → Neighbor) (ns : List Neighbor)
    → ((n : Neighbor) → flags (g n) ≡ flags n)
    → view (update i g ns) ≡ view ns
view-update_same i g [] h = refl
view-update_same zero g (n ∷ ns) h = ap (λ f. f ∷ view ns) (h n)
view-update_same (suc i) g (n ∷ ns) h = ap (λ v. flags n ∷ v) (view-update_same i g ns h)

view-update_mpr :
    (i : ℕ) (ns : List Neighbor) → view (update i set_mpr ns) ≡ update i mark (view ns)
view-update_mpr i [] = refl
view-update_mpr zero (n ∷ ns) = refl
view-update_mpr (suc i) (n ∷ ns) = ap (λ v. flags n ∷ v) (view-update_mpr i ns)

flags-one_less : (n : Neighbor) → flags (one_less n) ≡ flags n
flags-one_less n = elim (Bool-cases (n.status == sym_status)) [ inl t ↦ rw t | inr t ↦ rw t ]

view-uncover : (is : List ℕ) (ns : List Neighbor) → view (uncover is ns) ≡ view ns
view-uncover [] ns = refl
view-uncover (i ∷ is) ns =
    view-uncover is (update i one_less ns) ∙ view-update_same i one_less ns flags-one_less

view-cover :
    (coverage h : ℕ) (t : TwoHop) (s : Tables) (count : ℕ)
    → view ((cover coverage h t (s, count)).0.neighbors) ≡ view (s.neighbors)
view-cover coverage h t s count = elim (Bool-cases (is_one_hop s (t.addr))) [
  | inl one ↦ rw one
  | inr other ↦ elim (Bool-cases (leb coverage ((t.covered + 1) % 2 ^ 8))) [
    | inl full ↦ rw (other, full) (view-uncover (t.nblist) (s.neighbors))
    | inr short ↦ rw (other, short)
  ]
]

view-cover_all :
    (coverage : ℕ) (hs : List ℕ) (s : Tables) (count : ℕ)
    → view ((cover_all coverage hs (s, count)).0.neighbors) ≡ view (s.neighbors)
view-cover_all coverage [] s count = refl
view-cover_all coverage (h ∷ hs) s count = elim (Option-cases (get_elem? (s.two_hop_table) h)) [
  | inl missing ↦ rw (missing, cover_all) (view-cover_all coverage hs s count)
  | inr (t, there) ↦
      let next : Tables × ℕ = cover coverage h t (s, count) in
      rw (there, cover_all)
        (view-cover_all coverage hs (next.0) (next.1) ∙ view-cover coverage h t s count)
]

nothing_there {ℓ} :
    {A : Type ℓ} (i : ℕ) (g : A → A) (xs : List A) → get_elem? xs i ≡ none → update i g xs ≡ xs
nothing_there i g [] h = refl
nothing_there zero g (x ∷ xs) h = absurd (ground (arith, h))
nothing_there (suc i) g (x ∷ xs) h = ap (λ l. x ∷ l) (nothing_there i g xs h)

-- A choice marks the chosen one and nothing else.
pub view-chosen_mpr :
    (coverage i : ℕ) (s : Tables) (count : ℕ)
    → view ((chosen_mpr coverage i (s, count)).0.neighbors) ≡ update i mark (view (s.neighbors))
unfolding chosen_mpr
view-chosen_mpr coverage i s count = elim (Option-cases (get_elem? (s.neighbors) i)) [
  | inl missing ↦
      rw (missing, chosen_mpr)
        (ap view (sym (nothing_there i set_mpr (s.neighbors) missing))
          ∙ view-update_mpr i (s.neighbors))
  | inr (n, there) ↦
      rw (there, chosen_mpr)
        (view-cover_all coverage (n.two_hops) (with_neighbors (update i set_mpr (s.neighbors)) s)
            count
          ∙ view-update_mpr i (s.neighbors))
]

flags-count_neighbor :
    (s : Tables) (n : Neighbor) (c : Counts) → flags ((count_neighbor s n c).0) ≡ flags n
flags-count_neighbor s n c = elim (Bool-cases (n.status == not_sym)) [ inl t ↦ rw t | inr t ↦ rw t ]

view-count_neighbors :
    (s : Tables) (ns : List Neighbor) (c : Counts) → view ((count_neighbors s ns c).0) ≡ view ns
view-count_neighbors s [] c = refl
view-count_neighbors s (n ∷ ns) c =
    ap (λ f. f ∷ view ((count_neighbors s ns ((count_neighbor s n c).1)).0))
      (flags-count_neighbor s n c)
    ∙ ap (λ v. flags n ∷ v) (view-count_neighbors s ns ((count_neighbor s n c).1))

pub view-calculate_two_hop_neighbors :
    (s : Tables) → view ((calculate_two_hop_neighbors s).0.neighbors) ≡ view (s.neighbors)
unfolding calculate_two_hop_neighbors
view-calculate_two_hop_neighbors s = view-count_neighbors s (s.neighbors) _

pub view-check_mpr_changes : (ns : List Neighbor) → view ((check_mpr_changes ns).0) ≡ view ns
unfolding check_mpr_changes
view-check_mpr_changes [] = refl
view-check_mpr_changes (n ∷ ns) = elim (Bool-cases (n.was_mpr)) [
  | inl t ↦ rw t (ap (λ v. flags n ∷ v) (view-check_mpr_changes ns))
  | inr t ↦ rw t (ap (λ v. flags n ∷ v) (view-check_mpr_changes ns))
]
