-- ===== src/Rib/Paths.antt =====
-- The paths of a route in src/process_routes.c: which are left when the outdated ones are removed.
use olsrd_hybrid_plc.Prelude.{
  Apart, All, ℕ, ◌≡◌, ◌⊎◌, refl, subst, true, false, Bool-cases, inl, inr, Option, none, some, List,
  [], ◌∷◌, arith, ◌==◌, find,
}
use olsrd_hybrid_plc.Rib.{RtPath, current_paths, reset_best}

-- What is found is what is there.
pub All-found :
    {A : Type 0} (P : ℕ × A → Type 0) (m : List (ℕ × A)) (k : ℕ) (x : A)
    → All P m
    → find k m ≡ some x
    → P (k, x)
unfolding find
All-found P [] k x all e = absurd (ground (arith, e))
All-found P ((j, y) ∷ m) k x (p, all) e = elim (Bool-cases (j == k)) [
  | inl t ↦
      let e' : some y ≡ some x = rw t at e in
      let same : y ≡ x = ground (arith, e') in
      let here : j ≡ k = ground (arith, t) in
      subst (λ z. P (k, z)) same (subst (λ i. P (i, y)) here p)
  | inr t ↦ All-found P m k x all (rw t at e)
]

-- The entries are found, where `m` is the end of a list whose other keys are not in it.
abbrev pub Finds : {A : Type 0} → List (ℕ × A) → List (ℕ × A) → Type 0
Finds whole m = All (λ x. find (x.0) whole ≡ some (x.1)) m

Finds-cons :
    {A : Type 0} (k : ℕ) (x : A) (whole m : List (ℕ × A))
    → find k m ≡ none
    → Finds whole m
    → Finds ((k, x) ∷ whole) m
unfolding find
Finds-cons k x whole [] new all = tt
Finds-cons k x whole ((j, y) ∷ m) new (p, all) = elim (Bool-cases (j == k)) [
  | inl t ↦ absurd (ground (arith, rw t at new))
  | inr t ↦
      let t' : (k == j) ≡ false = ground (arith, t) in
      (rw t' p, Finds-cons k x whole m (rw t at new) all)
]

pub Apart-Finds : {A : Type 0} (m : List (ℕ × A)) → Apart m → Finds m m
unfolding find
Apart-Finds [] a = tt
Apart-Finds ((k, x) ∷ m) (new, a) =
    let self : (k == k) ≡ true = ground arith in
    (rw self refl, Finds-cons k x m m new (Apart-Finds m a))

current_paths-none :
    (v p : ℕ) (paths : List (ℕ × RtPath))
    → find p paths ≡ none
    → find p (current_paths v paths) ≡ none
unfolding find
current_paths-none v p [] e = refl
current_paths-none v p ((q, rtp) ∷ paths) e = elim (Bool-cases (q == p)) [
  | inl t ↦ absurd (ground (arith, rw t at e))
  | inr t ↦ elim (Bool-cases (v == rtp.rtp_version)) [
    | inl c ↦ rw c (rw t (current_paths-none v p paths (rw t at e)))
    | inr c ↦ rw c (current_paths-none v p paths (rw t at e))
  ]
]

pub current_paths-Apart :
    (v : ℕ) (paths : List (ℕ × RtPath)) → Apart paths → Apart (current_paths v paths)
current_paths-Apart v [] a = tt
current_paths-Apart v ((p, rtp) ∷ paths) (new, a) = elim (Bool-cases (v == rtp.rtp_version)) [
  | inl c ↦ rw c (current_paths-none v p paths new, current_paths-Apart v paths a)
  | inr c ↦ rw c (current_paths-Apart v paths a)
]

pub current_paths-All :
    (P : ℕ × RtPath → Type 0) (v : ℕ) (paths : List (ℕ × RtPath))
    → All P paths
    → All P (current_paths v paths)
current_paths-All P v [] all = tt
current_paths-All P v ((p, rtp) ∷ paths) (h, all) = elim (Bool-cases (v == rtp.rtp_version)) [
  | inl c ↦ rw c (h, current_paths-All P v paths all)
  | inr c ↦ rw c (current_paths-All P v paths all)
]

reset_none : (v : ℕ) (paths : List (ℕ × RtPath)) → reset_best v paths none ≡ none
reset_none v [] = refl
reset_none v ((p, rtp) ∷ paths) = elim (Bool-cases (v == rtp.rtp_version)) [
  | inl c ↦ rw c (reset_none v paths)
  | inr c ↦ rw c (reset_none v paths)
]

-- The best path is kept only if it is left.
reset_best-kept :
    (v p : ℕ) (rtp : RtPath) (paths : List (ℕ × RtPath))
    → find p paths ≡ some rtp
    → (reset_best v paths (some p) ≡ none)
      ⊎ ((reset_best v paths (some p) ≡ some p) × (find p (current_paths v paths) ≡ some rtp))
unfolding find
reset_best-kept v p rtp [] e = absurd (ground (arith, e))
reset_best-kept v p rtp ((q, r) ∷ paths) e = elim (Bool-cases (v == r.rtp_version)) [
  | inl c ↦ rw c (elim (Bool-cases (q == p)) [
    | inl t ↦ rw t (kept_rest paths (rw t at e))
    | inr t ↦ rw t (reset_best-kept v p rtp paths (rw t at e))
  ])
  | inr c ↦ rw c (elim (Bool-cases (q == p)) [
    | inl t ↦ let t' : (p == q) ≡ true = ground (arith, t) in rw t' (inl (reset_none v paths))
    | inr t ↦
        let t' : (p == q) ≡ false = ground (arith, t) in
        rw t' (reset_best-kept v p rtp paths (rw t at e))
  ])
]
  where
    kept_rest :
        (paths : List (ℕ × RtPath))
        → some r ≡ some rtp
        → (reset_best v paths (some p) ≡ none)
          ⊎ ((reset_best v paths (some p) ≡ some p) × (some r ≡ some rtp))
    kept_rest [] same = inr (refl, same)
    kept_rest ((q', r') ∷ paths) same = elim (Bool-cases (v == r'.rtp_version)) [
      | inl c ↦ rw c (kept_rest paths same)
      | inr c ↦ rw c (elim (Bool-cases (p == q')) [
        | inl t ↦ rw t (inl (reset_none v paths))
        | inr t ↦ rw t (kept_rest paths same)
      ])
    ]

-- The best path, if there is one, is a path of the route.
abbrev pub Live : Option ℕ → List (ℕ × RtPath) → Type 0
Live none paths = Unit {0}
Live (some p) paths = (rtp : RtPath) × (find p paths ≡ some rtp)

pub reset_best-Live :
    (v : ℕ) (best : Option ℕ) (paths : List (ℕ × RtPath))
    → Live best paths
    → Live (reset_best v paths best) (current_paths v paths)
reset_best-Live v none paths live = rw (reset_none v paths) tt
reset_best-Live v (some p) paths (rtp, e) = elim (reset_best-kept v p rtp paths e) [
  | inl gone ↦ rw gone tt
  | inr (kept, found) ↦ rw kept (rtp, found)
]
