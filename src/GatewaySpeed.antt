-- ===== src/GatewaySpeed.antt =====
-- The speeds that a smart gateway announces: `serialize_gw_speed` and `deserialize_gw_speed` of
-- src/gateway.c.
pub mod Scaling
pub mod Announced
use olsrd_hybrid_plc.Prelude.{
  ℕ, zero, suc, ◌+◌, ◌-◌, ◌*◌, ◌/◌, ◌%◌, ◌^◌, true, false, ◌||◌, ltb, ◌==◌, if◌then◌else◌, bit_or,
  bit_and,
}

-- `while (exp-- > 0) speed *= 10`, in 32 bits.
unfoldable pub times_ten : ℕ → ℕ → ℕ
times_ten zero speed = speed
times_ten (suc exp) speed = times_ten exp ((speed * 10) % 2 ^ 32)

unfoldable pub deserialize_gw_speed : ℕ → ℕ
unfolding times_ten
deserialize_gw_speed value = times_ten (bit_and value 7) (value / 8 + 1)

-- `while (speed > 32 || (speed % 10) == 0)`, on fuel. A speed that is not 0 stays so and loses a
-- digit in each round: for the speeds that are encoded 9 rounds are enough.
unfoldable pub scale : ℕ → ℕ → ℕ → ℕ × ℕ
scale zero speed exp = (speed, exp)
scale (suc fuel) speed exp = elim (ltb 32 speed || (speed % 10 == 0)) [
  | true ↦ scale fuel (speed / 10) (exp + 1)
  | false ↦ (speed, exp)
]

unfoldable pub serialize_gw_speed : ℕ → ℕ
unfolding scale
serialize_gw_speed speed =
    if speed == 0 || ltb 320000000 speed
    then 0
    else (let (mantissa, exp) = scale 9 speed 0 in bit_or ((mantissa - 1) * 8) exp % 256)
