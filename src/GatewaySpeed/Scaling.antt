-- ===== src/GatewaySpeed/Scaling.antt =====
-- What the loop of `serialize_gw_speed` makes of a speed.
use native.Mathlib.Nat.{div-div-eq-div-mul, pow-suc, pow-succ', one-le-pow}
use olsrd_hybrid_plc.Prelude.{
  ℕ, zero, suc, ◌+◌, ◌*◌, ◌/◌, ◌%◌, ◌^◌, ◌≤◌, ◌<◌, ◌≡◌, ◌≢◌, ◌⊎◌, inl, inr, sym, ap, ◌∙◌, dec_lt,
  Bool-cases, true, false, ◌||◌, arith, ltb, ◌==◌,
}
use olsrd_hybrid_plc.GatewaySpeed.{scale}

-- `m` and `k` are what the loop makes of `s`, with a value that is not above `s` and near it.
abbrev pub Scaled : ℕ → ℕ → ℕ → Type 0
Scaled s m k =
    (0 < m)
    × (m ≤ 32)
    × (m * 10 ^ k ≤ s)
    × ((3 * (s + 1) ≤ 4 * (m * 10 ^ k)) ⊎ ((s ≤ 2) × (m * 10 ^ k ≡ s)))

test-false : (s : ℕ) → s ≤ 32 → s % 10 ≢ 0 → (ltb 32 s || (s % 10 == 0)) ≡ false
test-false s h n = ground arith

pub scale_done : (fuel s e : ℕ) → (ltb 32 s || (s % 10 == 0)) ≡ false → scale fuel s e ≡ (s, e + 0)
unfolding scale
scale_done zero s e done = ap (λ (t : ℕ). (s, t)) (omega arith)
scale_done (suc fuel) s e done = rw (done, scale) (ap (λ (t : ℕ). (s, t)) (omega arith))

Scaled-self : (s : ℕ) → 0 < s → s ≤ 32 → Scaled s s 0
Scaled-self s pos small = (
  pos,
  small,
  omega arith,
  elim (dec_lt 2 s) [ yes p ↦ inl (omega arith) | no p ↦ inr (omega arith, omega arith) ],
)

tenfold : (m k : ℕ) → m * 10 ^ (k + 1) ≡ 10 * (m * 10 ^ k)
tenfold m k = let e : k + 1 ≡ suc k = omega arith in rw (e, pow-suc 10 k) (omega arith)

one_round :
    (s m k : ℕ)
    → 0 < s
    → (ltb 32 s || (s % 10 == 0)) ≡ true
    → Scaled (s / 10) m k
    → Scaled s m (k + 1)
one_round s m k lo more (pos, small, below, near) =
    rw (tenfold m k) (pos, small, omega arith, still near)
  where
    still :
        (3 * (s / 10 + 1) ≤ 4 * (m * 10 ^ k)) ⊎ ((s / 10 ≤ 2) × (m * 10 ^ k ≡ s / 10))
        → (3 * (s + 1) ≤ 4 * (10 * (m * 10 ^ k))) ⊎ ((s ≤ 2) × (10 * (m * 10 ^ k) ≡ s))
    still (inl h) = inl (omega arith)
    still (inr (h, e)) = let last : s % 10 ≡ 0 = ground arith in inl (omega arith)

-- If the speed has a last digit that is not 0 and is at most 32 after `j` rounds, there are at most
-- that many.
pub scale_lem :
    (fuel j s e : ℕ)
    → j ≤ fuel
    → 0 < s
    → s / 10 ^ j ≤ 32
    → (s / 10 ^ j) % 10 ≢ 0
    → (m : ℕ) × (k : ℕ) × (k ≤ j) × (scale fuel s e ≡ (m, e + k)) × Scaled s m k
unfolding scale
scale_lem fuel zero s e enough lo hi last =
    let d : s / 10 ^ 0 ≡ s = omega arith in
    let small : s ≤ 32 = rw d at hi in
    let last' : s % 10 ≢ 0 = rw d at last in
    (s, 0, omega arith, scale_done fuel s e (test-false s small last'), Scaled-self s lo small)
scale_lem zero (suc j) s e enough lo hi last = absurd (omega arith)
scale_lem (suc fuel) (suc j) s e enough lo hi last = elim (Bool-cases (ltb 32 s || (s % 10 == 0))) [
  | inl more ↦
      let d : s / 10 / 10 ^ j ≡ s / 10 ^ suc j =
        div-div-eq-div-mul s 10 (10 ^ j) ∙ ap (λ (t : ℕ). s / t) (sym (pow-succ' 10 j)) in
      let (m, k, few, run, close) =
        scale_lem fuel j (s / 10) (e + 1) (omega arith) (ground arith) (rw d hi) (rw d last) in
      (
        m,
        k + 1,
        omega arith,
        rw (more, scale) (run ∙ ap (λ (t : ℕ). (m, t)) (omega arith)),
        one_round s m k lo more close,
      )
  | inr done ↦ (s, 0, omega arith, scale_done (suc fuel) s e done, Scaled-self s lo (ground arith))
]

skip : (j fuel s e : ℕ) → 10 ^ suc j ≤ s → scale (j + fuel) s e ≡ scale fuel (s / 10 ^ j) (e + j)
unfolding scale
skip zero fuel s e h =
    let z : 0 + fuel ≡ fuel = omega arith in
    let d : s / 10 ^ 0 ≡ s = omega arith in let n : e + 0 ≡ e = omega arith in rw (z, d, n)
skip (suc j) fuel s e h =
    let f : suc j + fuel ≡ suc (j + fuel) = omega arith in
    let d : s / 10 ^ suc j ≡ s / 10 / 10 ^ j =
      ap (λ (t : ℕ). s / t) (pow-succ' 10 j) ∙ sym (div-div-eq-div-mul s 10 (10 ^ j)) in
    let n : e + suc j ≡ e + 1 + j = omega arith in
    let big : 10 * 10 ^ suc j ≤ s = rw (← pow-succ' 10 (suc j)) h in
    let more : (ltb 32 s || (s % 10 == 0)) ≡ true =
      ground (arith, pow-succ' 10 j, one-le-pow j 10) in
    rw (f, d, n) (rw (more, scale) (skip j fuel (s / 10) (e + 1) (omega arith)))

pub bands :
    (s : ℕ)
    → (s / 10000000 ≡ 10) ⊎ (s / 10000000 ≡ 20) ⊎ (s / 10000000 ≡ 30)
    → scale 9 s 0 ≡ (s / 100000000, 8)
bands s h = skip 7 2 s 0 (omega arith) ∙ last_two
  where
    last_two : scale 2 (s / 10 ^ 7) (0 + 7) ≡ (s / 100000000, 8)
    last_two = unfold scale in ground arith
