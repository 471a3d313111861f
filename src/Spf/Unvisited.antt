-- ===== src/Spf/Unvisited.antt =====
-- The entries that have no path yet in olsr_spf_run_full of src/olsr_spf.c.
use olsrd_hybrid_plc.Prelude.{
  mem, mem-snoc, ℕ, suc, ◌≤◌, ◌<◌, ◌≡◌, refl, sym, ap, ◌∙◌, true, false, Bool-cases, inl, inr, List,
  [], ◌∷◌, ◌++◌, arith, ◌==◌, if◌then◌else◌, length,
}

-- The vertices without a path.
abbrev pub unvisited : List ℕ → List ℕ → ℕ
unvisited [] paths = 0
unvisited (a ∷ names) paths =
    if mem a paths then unvisited names paths else suc (unvisited names paths)

pub unvisited-le :
    (names paths : List ℕ) (u : ℕ) → unvisited names (paths ++ (u ∷ [])) ≤ unvisited names paths
unvisited-le [] paths u = omega arith
unvisited-le (a ∷ names) paths u = elim (Bool-cases (mem a paths)) [
  | inl t ↦ rw (mem-snoc a u paths, t) (unvisited-le names paths u)
  | inr t ↦ elim (Bool-cases (u == a)) [
    | inl here ↦ rw (mem-snoc a u paths, t, here) (omega (arith, unvisited-le names paths u))
    | inr there ↦ rw (mem-snoc a u paths, t, there) (omega (arith, unvisited-le names paths u))
  ]
]

pub unvisited-lt :
    (names paths : List ℕ) (u : ℕ)
    → mem u names ≡ true
    → mem u paths ≡ false
    → unvisited names (paths ++ (u ∷ [])) < unvisited names paths
unvisited-lt [] paths u m new = absurd (ground (arith, m))
unvisited-lt (a ∷ names) paths u m new = elim (Bool-cases (a == u)) [
  | inl here ↦
      let same : u ≡ a = ground (arith, here) in
      let new' : mem a paths ≡ false = ap (λ v. mem v paths) (sym same) ∙ new in
      let self : (u == a) ≡ true = ground (arith, same) in
      rw (mem-snoc a u paths, new', self) (omega (arith, unvisited-le names paths u))
  | inr there ↦
      let ih : unvisited names (paths ++ (u ∷ [])) < unvisited names paths =
        unvisited-lt names paths u (rw there at m) new in
      let other : (u == a) ≡ false = ground (arith, there) in
      elim (Bool-cases (mem a paths)) [
        | inl t ↦ rw (mem-snoc a u paths, t) ih
        | inr t ↦ rw (mem-snoc a u paths, t, other) (omega (arith, ih))
      ]
]

pub unvisited_none : (names : List ℕ) → unvisited names [] ≡ length names
unvisited_none [] = refl
unvisited_none (a ∷ names) = ap (λ n. suc n) (unvisited_none names)
