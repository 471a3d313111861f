-- ===== src/Tc/Border.antt =====
-- `olsr_calculate_tc_border` of src/tc_set.c.
pub mod Value
use olsrd_hybrid_plc.Prelude.{
  ℕ, zero, suc, ◌+◌, ◌-◌, ◌*◌, ◌/◌, ◌%◌, ◌^◌, Bool, true, false, ◌&&◌, Option, none, some, ltb,
  ◌==◌, min, bit_and, bit_or, if◌then◌else◌,
}
use olsrd_hybrid_plc.Hashing.{IpVersion, ipsize}
use olsrd_hybrid_plc.Tc.{Conf}

-- The byte `s6_addr[ipsize - i - 1]` of an address.
unfoldable pub low_byte : ℕ → ℕ → ℕ
low_byte i a = a / 256 ^ i % 256

unfoldable pub set_low_byte : ℕ → ℕ → ℕ → ℕ
unfolding low_byte
set_low_byte i v a = a - low_byte i a * 256 ^ i + v * 256 ^ i

unfoldable pub clear_low_bytes : ℕ → ℕ → ℕ
unfolding set_low_byte
clear_low_bytes zero a = a
clear_low_bytes (suc n) a = set_low_byte n 0 (clear_low_bytes n a)

-- One border, for a flag that is not 0xff; `none` is a write in front of the address.
unfoldable pub border_bit : IpVersion → ℕ → ℕ → Option ℕ
unfolding low_byte set_low_byte clear_low_bytes
border_bit v flag a =
    let border = (flag + 255) % 256 in
    let i = border / 8 in
    let bit = bit_and border 7 in
    let cleared = clear_low_bytes i a in
    if ltb i (ipsize v)
    then some (
        set_low_byte i (bit_or (bit_and (low_byte i cleared) ((255 * 2 ^ bit) % 256)) (2 ^ bit))
          cleared)
    else none

-- `memset(ip, v, sizeof(ip))`, where `ip` is a pointer: as many bytes as a pointer has.
unfoldable pub fill : Conf → ℕ → ℕ → ℕ
fill c v a =
    let n = ipsize c.ip_version in
    let kept = n - min n c.sizeof_ptr in
    (256 ^ (n - kept) - 1) / 255 * v * 256 ^ kept + a % 256 ^ kept

unfoldable pub one_border : Conf → ℕ → ℕ → ℕ → Option ℕ
unfolding fill border_bit
one_border c v flag a = if flag == 0xff then some (fill c v a) else border_bit c.ip_version flag a

-- The result and the two borders.
unfoldable pub calculate_tc_border : Conf → ℕ → ℕ → ℕ → ℕ → Option (Bool × ℕ × ℕ)
unfolding one_border
calculate_tc_border c lower lower_ip upper upper_ip =
    if (lower == 0) && (upper == 0)
    then some (false, lower_ip, upper_ip)
    else (elim (one_border c 0 lower lower_ip) [
      | none ↦ none
      | some l ↦ elim (one_border c 0xff upper upper_ip) [
        | none ↦ none
        | some u ↦ some (true, l, u)
      ]
    ])
