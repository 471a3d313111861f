-- ===== src/GatewaySpeed/Announced.antt =====
-- What a node reads from the byte of a gateway's speed.
use olsrd_hybrid_plc.Prelude.{
  ℕ, zero, suc, ◌+◌, ◌-◌, ◌*◌, ◌/◌, ◌%◌, ◌^◌, ◌≤◌, ◌<◌, ◌≡◌, ◌≢◌, ◌⊎◌, inl, inr, refl, ap, ◌∙◌,
  dec_lt, Bool, true, false, ◌||◌, ◌&&◌, arith, ltb, ◌==◌, if◌then◌else◌, bit_or, bit_and,
  every_below, every_below_at,
}
use native.Mathlib.Nat.{pow-suc, one-le-pow, le-mul_of_pos_right}
use olsrd_hybrid_plc.GatewaySpeed.{times_ten, deserialize_gw_speed, scale, serialize_gw_speed}
use olsrd_hybrid_plc.GatewaySpeed.Scaling.{Scaled, scale_lem, bands}

times_ten_lem : (k m : ℕ) → m * 10 ^ k < 2 ^ 32 → times_ten k m ≡ m * 10 ^ k
unfolding times_ten
times_ten_lem zero m h = omega arith
times_ten_lem (suc k) m h =
    let p : m * 10 ^ suc k ≡ m * 10 * 10 ^ k = rw (pow-suc 10 k) (omega arith) in
    let big : m * 10 ≤ m * 10 * 10 ^ k =
      le-mul_of_pos_right (m * 10) (one-le-pow k 10 (omega arith)) in
    let same : (m * 10) % 2 ^ 32 ≡ m * 10 = ground (arith, p, big, h) in
    rw (p, same) (times_ten_lem k (m * 10) (rw p at h))

reads_back : ℕ → Bool
reads_back c =
    let byte = bit_or (c / 8 * 8) (c % 8) % 256 in (bit_and byte 7 == c % 8) && (byte / 8 == c / 8)

fields :
    (m k : ℕ)
    → 0 < m
    → m ≤ 32
    → k ≤ 7
    → let byte = bit_or ((m - 1) * 8) k % 256 in (bit_and byte 7 ≡ k) × (byte / 8 + 1 ≡ m)
unfolding reads_back every_below
fields m k pos small few =
    let c : ℕ = (m - 1) * 8 + k in
    let hi : c / 8 ≡ m - 1 = omega arith in
    let lo : c % 8 ≡ k = omega arith in
    let ok : reads_back c ≡ true = every_below_at reads_back 256 c (omega arith) refl in
    let (l, h) = parts c ok in
    let e : bit_or (c / 8 * 8) (c % 8) ≡ bit_or ((m - 1) * 8) k = rw (hi, lo) refl in
    ((rw e at l) ∙ lo, ap (λ (t : ℕ). t + 1) ((rw e at h) ∙ hi) ∙ omega arith)
  where
    parts :
        (c : ℕ)
        → reads_back c ≡ true
        → let byte = bit_or (c / 8 * 8) (c % 8) % 256 in
          (bit_and byte 7 ≡ c % 8) × (byte / 8 ≡ c / 8)
    parts c h = unfold reads_back in ground arith

-- A speed in the band is over in as many rounds as it has further digits, or in 7.
rounds :
    (s : ℕ)
    → 0 < s
    → s ≤ 320000000
    → s / 10000000 ≢ 10
    → s / 10000000 ≢ 20
    → s / 10000000 ≢ 30
    → (j : ℕ) × (j ≤ 7) × (s / 10 ^ j ≤ 32) × (s / 10 ^ j % 10 ≢ 0)
rounds s pos top n1 n2 n3 = elim (dec_lt s 10) [
  | yes p ↦ (0, omega arith, omega arith, λ e. omega arith)
  | no p0 ↦ elim (dec_lt s 100) [
    | yes p ↦ (1, omega arith, omega arith, λ e. omega arith)
    | no p1 ↦ elim (dec_lt s 1000) [
      | yes p ↦ (2, omega arith, omega arith, λ e. omega arith)
      | no p2 ↦ elim (dec_lt s 10000) [
        | yes p ↦ (3, omega arith, omega arith, λ e. omega arith)
        | no p3 ↦ elim (dec_lt s 100000) [
          | yes p ↦ (4, omega arith, omega arith, λ e. omega arith)
          | no p4 ↦ elim (dec_lt s 1000000) [
            | yes p ↦ (5, omega arith, omega arith, λ e. omega arith)
            | no p5 ↦ elim (dec_lt s 10000000) [
              | yes p ↦ (6, omega arith, omega arith, λ e. omega arith)
              | no p6 ↦ (7, omega arith, omega arith, λ e. omega arith)
            ]
          ]
        ]
      ]
    ]
  ]
]

decoded :
    (s m k : ℕ)
    → 0 < s
    → s ≤ 320000000
    → k ≤ 7
    → scale 9 s 0 ≡ (m, 0 + k)
    → Scaled s m k
    → let d = deserialize_gw_speed (serialize_gw_speed s) in (d ≤ s) × (3 * s ≤ 4 * d)
unfolding deserialize_gw_speed serialize_gw_speed
decoded s m k pos top few run (mpos, small, below, near) =
    let (lo_field, hi_field) = fields m k mpos small few in
    let test : (s == 0 || ltb 320000000 s) ≡ false = ground arith in
    let run' : scale 9 s 0 ≡ (m, k) = run ∙ ap (λ (t : ℕ). (m, t)) (omega arith) in
    let value : times_ten k m ≡ m * 10 ^ k = times_ten_lem k m (omega arith) in
    rw (test, run', lo_field, hi_field, value) (below, ground arith)

-- For a speed above 0 and up to 320 Gbit/s, in kbit/s, whose number of 10 Gbit/s is not 10, 20 or 30,
-- the speed that is read from the announced byte is not above it and not below three quarters of it.
pub deserialize-serialize :
    (s : ℕ)
    → 0 < s
    → s ≤ 320000000
    → s / 10000000 ≢ 10
    → s / 10000000 ≢ 20
    → s / 10000000 ≢ 30
    → let d = deserialize_gw_speed (serialize_gw_speed s) in (d ≤ s) × (3 * s ≤ 4 * d)
unfolding deserialize_gw_speed serialize_gw_speed
deserialize-serialize s pos top n1 n2 n3 =
    let (j, few, hi, last) = rounds s pos top n1 n2 n3 in
    let (m, k, le, run, (mpos, small, below, near)) = scale_lem 9 j s 0 (omega arith) pos hi last in
    decoded s m k pos top (omega arith) run (mpos, small, below, near)

-- For a speed of 100, 200 or 300 Gbit/s and less than 10 Gbit/s above it, the exponent 8 spills into
-- the mantissa: what is read from the byte is 2 or 4 kbit/s.
pub deserialize-spilled :
    (s : ℕ)
    → (s / 10000000 ≡ 10) ⊎ (s / 10000000 ≡ 20) ⊎ (s / 10000000 ≡ 30)
    → deserialize_gw_speed (serialize_gw_speed s) ≡ (if s / 10000000 == 30 then 4 else 2)
unfolding deserialize_gw_speed serialize_gw_speed times_ten
deserialize-spilled s band =
    let test : (s == 0 || ltb 320000000 s) ≡ false = ground arith in
    rw (test, bands s band)
      (elim band [
        | inl b ↦ let t : s / 100000000 ≡ 1 = omega arith in rw (t, b) refl
        | inr (inl b) ↦ let t : s / 100000000 ≡ 2 = omega arith in rw (t, b) refl
        | inr (inr b) ↦ let t : s / 100000000 ≡ 3 = omega arith in rw (t, b) refl
      ])
