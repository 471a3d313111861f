-- ===== src/Tc/Edges.antt =====
-- The edges of one node, in the order of their tree.
use olsrd_hybrid_plc.Prelude.{
  ℕ, ◌≤◌, ◌<◌, ◌≡◌, ◌≢◌, refl, Bool, true, false, Bool-cases, ◌&&◌, ◌||◌, inl, inr, List, [], ◌∷◌,
  arith, ltb, leb, if◌then◌else◌,
}
use olsrd_hybrid_plc.Tc.{
  TcEdge, avl_insert, delete_outdated_tc_edges, delete_revoked_tc_edges, seqno_greater_than,
}

module _ (order : ℕ → ℕ) where
  abbrev pub Above : ℕ → List TcEdge → Type 0
  Above k [] = Unit {0}
  Above k (e ∷ edges) = (k < order e.t_dest_addr) × Above k edges

  -- Each edge is in front of all that follow it.
  abbrev pub Ordered : List TcEdge → Type 0
  Ordered [] = Unit {0}
  Ordered (e ∷ edges) = Above (order e.t_dest_addr) edges × Ordered edges

  Above-trans : (j k : ℕ) (edges : List TcEdge) → j < k → Above k edges → Above j edges
  Above-trans j k [] h a = a
  Above-trans j k (e ∷ edges) h (lt, a) = (omega arith, Above-trans j k edges h a)

  Above-avl_insert :
      (k : ℕ) (e' : TcEdge) (edges : List TcEdge)
      → k < order e'.t_dest_addr
      → Above k edges
      → Above k (avl_insert order e' edges)
  unfolding avl_insert
  Above-avl_insert k e' [] h a = (h, a)
  Above-avl_insert k e' (e ∷ edges) h (lt, a) =
      elim (Bool-cases (ltb (order e'.t_dest_addr) (order e.t_dest_addr))) [
        | inl before ↦ rw before (h, (lt, a))
        | inr behind ↦ rw behind (lt, Above-avl_insert k e' edges h a)
      ]

  abbrev pub Absent : ℕ → List TcEdge → Type 0
  Absent k [] = Unit {0}
  Absent k (e ∷ edges) = (order e.t_dest_addr ≢ k) × Absent k edges

  -- The order of the tree is kept by the insertion of an address that is not in it.
  pub avl_insert-Ordered :
      (e' : TcEdge) (edges : List TcEdge)
      → Absent (order e'.t_dest_addr) edges
      → Ordered edges
      → Ordered (avl_insert order e' edges)
  unfolding avl_insert
  avl_insert-Ordered e' [] absent o = (absent, absent)
  avl_insert-Ordered e' (e ∷ edges) (ne, absent) (a, o) =
      elim (Bool-cases (ltb (order e'.t_dest_addr) (order e.t_dest_addr))) [
        | inl before ↦ rw before (
          (
            ground arith,
            Above-trans (order e'.t_dest_addr) (order e.t_dest_addr) edges (ground arith) a,
          ),
          (a, o),
        )
        | inr behind ↦ rw behind (
          Above-avl_insert (order e.t_dest_addr) e' edges (ground arith) a,
          avl_insert-Ordered e' edges absent o,
        )
      ]

-- The edges for which the test fails, and whether there are any others.
abbrev pub drop_if : (TcEdge → Bool) → List TcEdge → Bool × List TcEdge
drop_if p [] = (false, [])
drop_if p (e ∷ edges) =
    let (dropped, rest) = drop_if p edges in if p e then (true, rest) else (dropped, e ∷ rest)

-- The garbage collection drops exactly the edges of an older announcement, and says whether any.
pub delete_outdated-drop_if :
    (ansn : ℕ) (edges : List TcEdge)
    → delete_outdated_tc_edges ansn edges
      ≡ drop_if (λ (e : TcEdge). seqno_greater_than ansn e.ansn) edges
unfolding delete_outdated_tc_edges
delete_outdated-drop_if ansn [] = refl
delete_outdated-drop_if ansn (e ∷ edges) = rw (delete_outdated-drop_if ansn edges)

module _ (order : ℕ → ℕ) where
  abbrev pub is_revoked : ℕ → ℕ → ℕ → TcEdge → Bool
  is_revoked ansn lower upper e =
      leb (order lower) (order e.t_dest_addr)
      && ltb (order e.t_dest_addr) (order upper)
      && seqno_greater_than ansn e.ansn

  or_false : (b c : Bool) → (b || c) ≡ false → c ≡ false
  or_false true c h = ground arith
  or_false false c h = h

  before_border : {upper : ℕ} {x : ℕ} (b c : Bool) → upper ≤ x → (b && ltb x upper && c) ≡ false
  before_border b c h = ground arith

  keep-Above :
      (ansn lower upper k : ℕ) (edges : List TcEdge)
      → order upper ≤ k
      → Above order k edges
      → drop_if (is_revoked ansn lower upper) edges ≡ (false, edges)
  keep-Above ansn lower upper k [] h a = refl
  keep-Above ansn lower upper k (e ∷ edges) h (lt, a) =
      let not_revoked : is_revoked ansn lower upper e ≡ false =
        before_border (leb (order lower) (order e.t_dest_addr)) (seqno_greater_than ansn e.ansn)
          (ground arith) in
      rw (keep-Above ansn lower upper k edges h a, not_revoked) refl

  -- The loop may have passed the lower border already.
  revoked_from :
      (ansn lower upper : ℕ) (passed : Bool) (edges : List TcEdge)
      → Ordered order edges
      → ((passed ≡ true) → (k : ℕ) × (order lower ≤ k) × Above order k edges)
      → delete_revoked_tc_edges order ansn lower upper passed edges
        ≡ drop_if (is_revoked ansn lower upper) edges
  unfolding delete_revoked_tc_edges
  revoked_from ansn lower upper passed [] o h = refl
  revoked_from ansn lower upper passed (e ∷ edges) (a, o) h =
      let x : ℕ = order e.t_dest_addr in
      let reached : Bool = passed || leb (order lower) x in
      let low : (reached ≡ true) → order lower ≤ x = λ r.
        (elim (Bool-cases passed) as (λ q. order lower ≤ x) [
          | inl p ↦ let (k, l, (lt, _)) = h p in omega arith
          | inr p ↦ ground arith
        ]) in
      let rest = revoked_from ansn lower upper reached edges o (λ r. (x, low r, a)) in
      elim (Bool-cases reached) [
        | inl yet ↦
            let rest' = rw yet at rest in
            let from : leb (order lower) x ≡ true = (let l = low yet in ground arith) in
            elim (Bool-cases (leb (order upper) x)) [
              | inl over ↦
                  let t : ltb x (order upper) ≡ false = ground arith in
                  let kept = keep-Above ansn lower upper x edges (ground arith) a in
                  rw (yet, over, kept, from, t) refl
              | inr within ↦
                  let t : ltb x (order upper) ≡ true = ground arith in
                  rw (yet, within, from, t, rest') refl
            ]
        | inr not_yet ↦
            let rest' = rw not_yet at rest in
            let below : leb (order lower) x ≡ false =
              or_false passed (leb (order lower) x) not_yet in
            rw (not_yet, below, rest') refl
      ]

  -- In ordered edges exactly those from the lower border on and before the upper one are dropped that
  -- are of an older announcement, and the result says whether there were any.
  pub delete_revoked-drop_if :
      (ansn lower upper : ℕ) (edges : List TcEdge)
      → Ordered order edges
      → delete_revoked_tc_edges order ansn lower upper false edges
        ≡ drop_if (is_revoked ansn lower upper) edges
  delete_revoked-drop_if ansn lower upper edges o =
      revoked_from ansn lower upper false edges o (λ h. absurd (ground arith))
