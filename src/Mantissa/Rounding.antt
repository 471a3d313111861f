-- ===== src/Mantissa/Rounding.antt =====
-- How far an encoded time is from the time that is encoded.
use native.Mathlib.Nat.{pow-suc, pow-le-pow_right}
use olsrd_hybrid_plc.Prelude.{
  false, ℕ, zero, suc, ◌+◌, ◌-◌, ◌*◌, ◌/◌, ◌%◌, ◌^◌, ◌≤◌, ◌<◌, ◌≡◌, refl, arith, ltb, leb,
  if◌then◌else◌, ◌⊎◌, inl, inr, Bool-cases, dec_lt,
}
use olsrd_hybrid_plc.Mantissa.{count_bits, quotient, pack, finish, reltime_to_me, me_to_reltime}

-- The loop stops at the bit length of `u`.
count_bits_lem :
    (fuel u b : ℕ)
    → u < 2 ^ (b + fuel)
    → (b ≡ 0) ⊎ (2 ^ (b - 1) ≤ u)
    → (u < 2 ^ count_bits fuel u b)
      × ((count_bits fuel u b ≡ 0) ⊎ (2 ^ (count_bits fuel u b - 1) ≤ u))
unfolding count_bits
count_bits_lem zero u b h low = (rw (← add_zero b) h, low)
  where
    add_zero : (n : ℕ) → n + 0 ≡ n
    add_zero n = omega arith
count_bits_lem (suc fuel) u b h low = elim (Bool-cases (leb (2 ^ b) u)) [
  | inl more ↦
      let e : b + suc fuel ≡ b + 1 + fuel = omega arith in
      let f : b + 1 - 1 ≡ b = omega arith in
      let low' : 2 ^ (b + 1 - 1) ≤ u = rw f (ground arith) in
      rw (more, count_bits) (count_bits_lem fuel u (b + 1) (rw (← e) h) (inr low'))
  | inr done ↦ rw (done, count_bits) (ground arith, low)
]

-- The time that the fields `a` and `b` stand for.
abbrev value : ℕ → ℕ → ℕ
value a b = if leb 8 b then (16 + a) * 2 ^ (b - 8) * 1000 else (16 + a) * 1000 / 2 ^ (8 - b)

abbrev IsClose : ℕ → ℕ → Type 0
IsClose t r = (r ≤ t) × (16 * (t - r) ≤ t + 16)

-- At each `b` the quotient is a hexadecimal digit, and drops at most a sixteenth.
quotient-IsClose :
    (t b : ℕ)
    → (0 < b) × (b < 16)
    → 125 * 2 ^ b ≤ 2 * t
    → t < 125 * 2 ^ b
    → (quotient t b < 16) × IsClose t (value (quotient t b) b)
unfolding quotient
quotient-IsClose t zero h lo hi = absurd (omega arith)
quotient-IsClose t (suc zero) h lo hi = omega arith
quotient-IsClose t (suc (suc zero)) h lo hi = omega arith
quotient-IsClose t (suc (suc (suc zero))) h lo hi = omega arith
quotient-IsClose t (suc (suc (suc (suc zero)))) h lo hi = omega arith
quotient-IsClose t (suc (suc (suc (suc (suc zero))))) h lo hi = omega arith
quotient-IsClose t (suc (suc (suc (suc (suc (suc zero)))))) h lo hi = omega arith
quotient-IsClose t (suc (suc (suc (suc (suc (suc (suc zero))))))) h lo hi = omega arith
quotient-IsClose t (suc (suc (suc (suc (suc (suc (suc (suc zero)))))))) h lo hi = omega arith
quotient-IsClose t (suc (suc (suc (suc (suc (suc (suc (suc (suc zero))))))))) h lo hi = omega arith
quotient-IsClose t (suc (suc (suc (suc (suc (suc (suc (suc (suc (suc zero)))))))))) h lo hi =
    omega arith
quotient-IsClose t (suc (suc (suc (suc (suc (suc (suc (suc (suc (suc (suc zero))))))))))) h lo hi =
    omega arith
quotient-IsClose t (suc (suc (suc (suc (suc (suc (suc (suc (suc (suc (suc (suc zero)))))))))))) h lo
      hi =
    omega arith
quotient-IsClose t
      (suc (suc (suc (suc (suc (suc (suc (suc (suc (suc (suc (suc (suc zero))))))))))))) h lo hi =
    omega arith
quotient-IsClose t
      (suc (suc (suc (suc (suc (suc (suc (suc (suc (suc (suc (suc (suc (suc zero)))))))))))))) h lo
      hi =
    omega arith
quotient-IsClose t
      (suc (suc (suc (suc (suc (suc (suc (suc (suc (suc (suc (suc (suc (suc (suc zero)))))))))))))))
      h lo hi =
    omega arith
quotient-IsClose t
      (suc
        (suc (suc (suc (suc (suc (suc (suc (suc (suc (suc (suc (suc (suc (suc (suc b))))))))))))))))
      h lo hi =
    absurd (omega arith)

me_to_reltime-pack : (a b : ℕ) → a < 16 → b < 16 → me_to_reltime (pack a b) ≡ value a b
unfolding me_to_reltime pack
me_to_reltime-pack a b ha hb =
    let e : ((a * 16) % 256 + b % 16) / 16 ≡ a = omega arith in
    let f : ((a * 16) % 256 + b % 16) % 16 ≡ b = omega arith in rw (e, f)

finish-IsClose :
    (t b : ℕ)
    → 125 * 2 ^ b ≤ 2 * t
    → t < 125 * 2 ^ b
    → (0 < b) × (b < 16)
    → IsClose t (me_to_reltime (finish t (suc b)))
unfolding finish
finish-IsClose t b lo hi range =
    let (digit, close) = quotient-IsClose t b range lo hi in
    let q = quotient t b in
    let e : q % 16 ≡ q = omega arith in
    let f : (b + q / 16) % 256 ≡ b = omega arith in
    let g : ltb 15 b ≡ false = ground arith in
    rw (g, e, f, me_to_reltime-pack q b digit range.1) close

exponent-bounds :
    (t b : ℕ)
    → 125 ≤ t
    → t < 4096000
    → 2 ^ b ≤ t / 125 * 2
    → t / 125 * 2 < 2 ^ b * 2
    → (0 < b) × (b < 16)
exponent-bounds t zero lo hi low high = absurd (omega arith)
exponent-bounds t (suc b) lo hi low high = elim (dec_lt (suc b) 16) [
  | yes p ↦ (omega arith, p)
  | no p ↦
      let big : 2 ^ 16 ≤ 2 ^ suc b =
        pow-le-pow_right {n = 2} (omega arith) {i = 16} {j = suc b} (omega arith) in
      absurd (omega arith)
]

-- For a time from 125 ms to below 4096 s the byte stands for a time that is not longer, and shorter
-- by at most a sixteenth and a millisecond.
pub reltime_to_me-IsClose :
    (t : ℕ) → 125 ≤ t → t < 4096000 → IsClose t (me_to_reltime (reltime_to_me t))
unfolding reltime_to_me
reltime_to_me-IsClose t lo hi =
    split (count_bits 33 (t / 125 * 2) 0)
      (count_bits_lem 33 (t / 125 * 2) 0 (omega arith) (inl refl))
  where
    split :
        (c : ℕ)
        → (t / 125 * 2 < 2 ^ c) × ((c ≡ 0) ⊎ (2 ^ (c - 1) ≤ t / 125 * 2))
        → IsClose t (me_to_reltime (finish t c))
    split zero (above, _) = absurd (omega arith)
    split (suc b) (above, inl e) = absurd (omega arith)
    split (suc b) (above, inr below) =
        let e : suc b - 1 ≡ b = omega arith in
        let low : 2 ^ b ≤ t / 125 * 2 = rw e at below in
        let high : t / 125 * 2 < 2 ^ b * 2 = rw pow-suc at above in
        finish-IsClose t b (omega arith) (omega arith) (exponent-bounds t b lo hi low high)
