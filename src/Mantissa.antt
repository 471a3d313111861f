-- ===== src/Mantissa.antt =====
-- src/mantissa.c: the mantissa/exponent byte in which validity and emission times travel.
pub mod Rounding
pub mod Bytes
use olsrd_hybrid_plc.Prelude.{
  ℕ, zero, suc, ◌+◌, ◌-◌, ◌*◌, ◌/◌, ◌%◌, ◌^◌, true, false, ltb, leb, if◌then◌else◌,
}

-- `while (unscaled_interval >= (1U << b)) b++`. The interval is a 32-bit number, so that `b` stays
-- below 27 and a fuel of 33 is never used up.
count_bits : ℕ → ℕ → ℕ → ℕ
count_bits zero u b = b
count_bits (suc fuel) u b = elim (leb (2 ^ b) u) [ true ↦ count_bits fuel u (b + 1) | false ↦ b ]

-- The quotient `a` for 1 ≤ b ≤ 15, with the cast to `uint8_t`.
quotient : ℕ → ℕ → ℕ
quotient interval b =
    (if leb 5 b
      then (interval - 125 * 2 ^ (b - 1)) / (125 * 2 ^ (b - 5))
      else (interval - 125 * 2 ^ (b - 1)) * 2 ^ (5 - b) / 125)
    % 256

-- `(a << 4) | (b & 0x0F)`, as a byte.
pack : ℕ → ℕ → ℕ
pack a b = (a * 16) % 256 + b % 16

-- What follows the loop, from its `b`.
finish : ℕ → ℕ → ℕ
unfolding quotient pack
finish interval zero = pack 1 0
finish interval (suc b) =
    if ltb 15 b
    then pack 15 15
    else (let a = quotient interval b in pack (a % 16) ((b + a / 16) % 256))

unfoldable pub reltime_to_me : ℕ → ℕ
unfolding count_bits finish
reltime_to_me interval = finish interval (count_bits 33 (interval / 125 * 2) 0)

unfoldable pub me_to_reltime : ℕ → ℕ
me_to_reltime me =
    let a = me / 16 in
    let b = me % 16 in
    if leb 8 b then (16 + a) * 2 ^ (b - 8) * 1000 else (16 + a) * 1000 / 2 ^ (8 - b)
