-- ===== src/Prefix.antt =====
-- Prefix lengths and netmasks: `prefix_to_netmask` and `netmask_to_prefix` of src/ipcalc.c. A netmask
-- is the list of its bytes; the length of the list is the argument `len`.
pub mod RoundTrip
use olsrd_hybrid_plc.Prelude.{
  ℕ, zero, suc, ◌+◌, ◌-◌, ◌*◌, ◌%◌, ◌^◌, Bool, List, [], ◌∷◌, ltb, ◌==◌, if◌then◌else◌, replicate,
  length,
}

-- The bytes that were in the buffer, and the bits of the prefix that are left: the result is 0 when
-- the buffer is at its end before the last byte is written.
unfoldable pub prefix_to_netmask : List ℕ → ℕ → ℕ × List ℕ
prefix_to_netmask [] p = (0, [])
prefix_to_netmask (x ∷ a) p =
    if ltb 8 p
    then (let (done, rest) = prefix_to_netmask a (p - 8) in (done, 255 ∷ rest))
    else (1, (255 * 2 ^ (8 - p)) % 256 ∷ replicate (length a) 0)

-- The byte after those that are 0xff, and the 16-bit count so far.
unfoldable pub last_byte : ℕ → ℕ → ℕ
last_byte x prefix =
    if x == 0
    then prefix
    else if x == 128
    then (prefix + 1) % 2 ^ 16
    else if x == 192
    then (prefix + 2) % 2 ^ 16
    else if x == 224
    then (prefix + 3) % 2 ^ 16
    else if x == 240
    then (prefix + 4) % 2 ^ 16
    else if x == 248
    then (prefix + 5) % 2 ^ 16
    else if x == 252
    then (prefix + 6) % 2 ^ 16
    else if x == 254
    then (prefix + 7) % 2 ^ 16
    else if x == 255
    then (prefix + 8) % 2 ^ 16
    else 255

unfoldable pub leading_bytes : List ℕ → ℕ → ℕ
leading_bytes [] prefix = prefix
leading_bytes (x ∷ a) prefix =
    let more = leading_bytes a ((prefix + 8) % 2 ^ 16) in
    if x == 255 then more else last_byte x prefix

unfoldable pub netmask_to_prefix : List ℕ → ℕ
unfolding leading_bytes last_byte
netmask_to_prefix adr = leading_bytes adr 0 % 256
