-- ===== src/Rib/Sorted.antt =====
-- The insertions into the ordered trees of src/routing_table.c.
use olsrd_hybrid_plc.Prelude.{
  Apart, All, ℕ, ◌≡◌, refl, ap, ◌∙◌, false, Bool-cases, inl, inr, none, some, List, [], ◌∷◌, arith,
  ltb, ◌==◌, if◌then◌else◌, find,
}
use olsrd_hybrid_plc.Rib.{RtPath, RtEntry}
use olsrd_hybrid_plc.Rib.Insert.{insert_entry, insert_path}

pub find-insert_entry :
    (dst w : ℕ) (rt : RtEntry) (tree : List (ℕ × RtEntry))
    → find dst tree ≡ none
    → find w (insert_entry dst rt tree) ≡ (if dst == w then some rt else find w tree)
unfolding find
find-insert_entry dst w rt [] new = refl
find-insert_entry dst w rt ((j, r) ∷ tree) new = elim (Bool-cases (j == dst)) [
  | inl t ↦ absurd (ground (arith, rw t at new))
  | inr t ↦ elim (Bool-cases (ltb dst j)) [
    | inl lt ↦ rw lt refl
    | inr ge ↦
        let ih : find w (insert_entry dst rt tree) ≡ (if dst == w then some rt else find w tree) =
          find-insert_entry dst w rt tree (rw t at new) in
        rw (ge, t)
          (elim (Bool-cases (j == w)) [
            | inl s ↦ let t' : (dst == w) ≡ false = ground (arith, t, s) in rw (s, t') refl
            | inr s ↦ rw s ih
          ])
  ]
]

pub insert_entry-Apart :
    (dst : ℕ) (rt : RtEntry) (tree : List (ℕ × RtEntry))
    → find dst tree ≡ none
    → Apart tree
    → Apart (insert_entry dst rt tree)
unfolding find
insert_entry-Apart dst rt [] new a = (refl, tt)
insert_entry-Apart dst rt ((j, r) ∷ tree) new (newer, a) = elim (Bool-cases (j == dst)) [
  | inl t ↦ absurd (ground (arith, rw t at new))
  | inr t ↦ elim (Bool-cases (ltb dst j)) [
    | inl lt ↦ rw lt ((rw t (rw t at new)), (newer, a))
    | inr ge ↦
        let t' : (dst == j) ≡ false = ground (arith, t) in
        rw (ge, t)
          (
            find-insert_entry dst j rt tree (rw t at new) ∙ (rw t' newer),
            insert_entry-Apart dst rt tree (rw t at new) a,
          )
  ]
]

pub insert_entry-All :
    (P : ℕ × RtEntry → Type 0) (dst : ℕ) (rt : RtEntry) (tree : List (ℕ × RtEntry))
    → P (dst, rt)
    → All P tree
    → All P (insert_entry dst rt tree)
insert_entry-All P dst rt [] p all = (p, tt)
insert_entry-All P dst rt ((j, r) ∷ tree) p (q, all) = elim (Bool-cases (ltb dst j)) [
  | inl lt ↦ rw lt (p, (q, all))
  | inr ge ↦ elim (Bool-cases (j == dst)) [
    | inl t ↦ rw (ge, t) (q, all)
    | inr t ↦ rw (ge, t) (q, insert_entry-All P dst rt tree p all)
  ]
]

-- A pointer that is not that of the path finds what it found before.
pub find-insert_path :
    (p q : ℕ) (rtp : RtPath) (paths : List (ℕ × RtPath))
    → (p == q) ≡ false
    → find q (insert_path p rtp paths) ≡ find q paths
unfolding find
find-insert_path p q rtp [] t = rw t refl
find-insert_path p q rtp ((k, r) ∷ paths) t =
    elim (Bool-cases (ltb (rtp.rtp_originator) (r.rtp_originator))) [
      | inl lt ↦ rw (lt, t) refl
      | inr ge ↦ elim (Bool-cases (r.rtp_originator == rtp.rtp_originator)) [
        | inl s ↦ rw (ge, s) refl
        | inr s ↦
            rw (ge, s) (ap (λ o. if k == q then some r else o) (find-insert_path p q rtp paths t))
      ]
    ]

pub insert_path-Apart :
    (p : ℕ) (rtp : RtPath) (paths : List (ℕ × RtPath))
    → find p paths ≡ none
    → Apart paths
    → Apart (insert_path p rtp paths)
unfolding find
insert_path-Apart p rtp [] new a = (refl, tt)
insert_path-Apart p rtp ((k, r) ∷ paths) new (newer, a) = elim (Bool-cases (k == p)) [
  | inl t ↦ absurd (ground (arith, rw t at new))
  | inr t ↦ elim (Bool-cases (ltb (rtp.rtp_originator) (r.rtp_originator))) [
    | inl lt ↦ rw lt ((rw t (rw t at new)), (newer, a))
    | inr ge ↦ elim (Bool-cases (r.rtp_originator == rtp.rtp_originator)) [
      | inl s ↦ rw (ge, s) (newer, a)
      | inr s ↦
          let t' : (p == k) ≡ false = ground (arith, t) in
          rw (ge, s)
            (
              find-insert_path p k rtp paths t' ∙ newer,
              insert_path-Apart p rtp paths (rw t at new) a,
            )
    ]
  ]
]

pub insert_path-All :
    (P : ℕ × RtPath → Type 0) (p : ℕ) (rtp : RtPath) (paths : List (ℕ × RtPath))
    → P (p, rtp)
    → All P paths
    → All P (insert_path p rtp paths)
insert_path-All P p rtp [] h all = (h, tt)
insert_path-All P p rtp ((k, r) ∷ paths) h (q, all) =
    elim (Bool-cases (ltb (rtp.rtp_originator) (r.rtp_originator))) [
      | inl lt ↦ rw lt (h, (q, all))
      | inr ge ↦ elim (Bool-cases (r.rtp_originator == rtp.rtp_originator)) [
        | inl s ↦ rw (ge, s) (q, all)
        | inr s ↦ rw (ge, s) (q, insert_path-All P p rtp paths h all)
      ]
    ]
