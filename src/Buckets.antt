-- ===== src/Buckets.antt =====
-- The hash tables of the program: HASHSIZE circular lists, each read from its head. New elements are
-- queued at the head (QUEUE_ELEM of src/defs.h).
use olsrd_hybrid_plc.Prelude.{
  ℕ, zero, suc, ◌+◌, ◌≤◌, ◌<◌, ◌≡◌, refl, sym, ap, ℕ_discrete, List, [], ◌∷◌, ◌++◌, arith, ◌==◌,
  if◌then◌else◌, length, length-append,
}

abbrev pub Table : Type 0 → Type 0
Table V = ℕ → List V

module _ {V : Type 0} where
  unfoldable pub set_bucket : ℕ → List V → Table V → Table V
  set_bucket h l t i = if i == h then l else t i

  unfoldable pub queue_elem : ℕ → V → Table V → Table V
  unfolding set_bucket
  queue_elem h v t = set_bucket h (v ∷ t h) t

  -- A loop over the `n` buckets from `i` on.
  unfoldable pub walk : ℕ → ℕ → Table V → List V
  walk zero i t = []
  walk (suc n) i t = t i ++ walk n (i + 1) t

  walk-set_below :
      (n i h : ℕ) (l : List V) (t : Table V) → h < i → walk n i (set_bucket h l t) ≡ walk n i t
  unfolding walk set_bucket
  walk-set_below zero i h l t lt = refl
  walk-set_below (suc n) i h l t lt = ground (arith, walk-set_below n (i + 1) h l t)

  -- A changed bucket changes the walk by what its length changes.
  pub length-walk-set :
      (n i h : ℕ) (l : List V) (t : Table V)
      → i ≤ h
      → h < i + n
      → length (walk n i (set_bucket h l t)) + length (t h) ≡ length (walk n i t) + length l
  unfolding walk
  length-walk-set zero i h l t lo hi = absurd (omega arith)
  length-walk-set (suc n) i h l t lo hi = elim (ℕ_discrete i h) [
    | yes e ↦
        let here : set_bucket h l t i ≡ l = unfold set_bucket in ground arith in
        let there : t h ≡ t i = ap t (sym e) in
        rw (walk-set_below n (i + 1) h l t (omega arith), here, there)
          (omega
            (arith, length-append l (walk n (i + 1) t), length-append (t i) (walk n (i + 1) t)))
    | no d ↦
        let here : set_bucket h l t i ≡ t i = unfold set_bucket in ground arith in
        rw here (
          omega (
            arith,
            length-append (t i) (walk n (i + 1) (set_bucket h l t)),
            length-append (t i) (walk n (i + 1) t),
            length-walk-set n (i + 1) h l t (omega arith) (omega arith),
          ))
  ]
