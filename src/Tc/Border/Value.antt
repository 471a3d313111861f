-- ===== src/Tc/Border/Value.antt =====
-- The value of a border in `olsr_calculate_tc_border` of src/tc_set.c.
use native.Mathlib.Nat.{
  add-mul, div-div-eq-div-mul, mul-div_cancel, mul_assoc, mul_comm, one-le-pow, pow-suc, pow-zero,
}
use olsrd_hybrid_plc.Prelude.{
  ℕ, zero, suc, ◌+◌, ◌-◌, ◌*◌, ◌/◌, ◌%◌, ◌^◌, ◌≤◌, ◌<◌, ◌≡◌, ◌⊎◌, ◌∙◌, ap, sym, if◌then◌else◌, inl,
  inr, refl, Bool, true, false, Bool-cases, none, some, arith, ltb, ◌==◌, bit_and, bit_or,
  every_below, every_below_at,
}
use olsrd_hybrid_plc.Hashing.{IpVersion, af_inet, af_inet6, ipsize}
use olsrd_hybrid_plc.Tc.{Conf}
use olsrd_hybrid_plc.Tc.Border.{border_bit, clear_low_bytes, low_byte, one_border, set_low_byte}

pow-add : (n a b : ℕ) → n ^ (a + b) ≡ n ^ a * n ^ b
pow-add n a zero = let e : a + 0 ≡ a = omega arith in rw (e, pow-zero n) (omega arith)
pow-add n a (suc b) =
    ap (λ k. n ^ k) (omega arith)
    ∙ pow-suc n (a + b)
    ∙ ap (λ p. p * n) (pow-add n a b)
    ∙ mul_assoc (n ^ a) (n ^ b) n
    ∙ ap (λ p. n ^ a * p) (sym (pow-suc n b))

-- A byte has eight bits.
bytes_lem : (i : ℕ) → 2 ^ (8 * i) ≡ 256 ^ i
bytes_lem zero = refl
bytes_lem (suc i) =
    ap (λ k. 2 ^ k) (omega arith)
    ∙ pow-add 2 (8 * i) 8
    ∙ ap (λ p. p * 256) (bytes_lem i)
    ∙ sym (pow-suc 256 i)

low_byte-mul : (i q : ℕ) → low_byte i (q * 256 ^ i) ≡ q % 256
unfolding low_byte
low_byte-mul i q = ap (λ n. n % 256) (mul-div_cancel q (one-le-pow i 256 (omega arith)))

-- A byte of a number whose lower bytes are zero.
set_low_byte-mul : (i v q : ℕ) → set_low_byte i v (q * 256 ^ i) ≡ (q / 256 * 256 + v) * 256 ^ i
unfolding set_low_byte
set_low_byte-mul i v q =
    let split = ap (λ n. n * 256 ^ i) (parts q) ∙ add-mul (q / 256 * 256) (q % 256) (256 ^ i) in
    let whole = add-mul (q / 256 * 256) v (256 ^ i) in
    rw (low_byte-mul i q, whole) (omega (arith, split))
  where
    parts : (q : ℕ) → q ≡ q / 256 * 256 + q % 256
    parts q = omega arith

clear_low_bytes_lem : (n a : ℕ) → clear_low_bytes n a ≡ a / 256 ^ n * 256 ^ n
unfolding clear_low_bytes
clear_low_bytes_lem zero a = omega arith
clear_low_bytes_lem (suc n) a =
    rw
      (
        clear_low_bytes_lem n a,
        set_low_byte-mul n 0 (a / 256 ^ n),
        div-div-eq-div-mul a (256 ^ n) 256,
        pow-suc 256 n,
      )
      (shift (a / (256 ^ n * 256)) (256 ^ n))
  where
    shift : (x p : ℕ) → (x * 256 + 0) * p ≡ x * (p * 256)
    shift x p = ap (λ y. y * p) (omega arith) ∙ mul_assoc x 256 p ∙ ap (λ y. x * y) (mul_comm 256 p)

-- A number up to its bit `b`, with that bit set.
abbrev pub with_bit : ℕ → ℕ → ℕ
with_bit b n = n / 2 ^ suc b * 2 ^ suc b + 2 ^ b

-- The mask and the bit that the code writes to a byte.
unfoldable masked : ℕ → ℕ → ℕ
masked b d = bit_or (bit_and d ((255 * 2 ^ b) % 256)) (2 ^ b)

masked_ok : ℕ → ℕ → Bool
masked_ok b d = masked b d == with_bit b d

masked_lem : (b d : ℕ) → b < 8 → d < 256 → masked b d ≡ with_bit b d
unfolding masked masked_ok every_below
masked_lem b d low byte =
    let row = every_below_at (λ b. every_below (masked_ok b) 256) 8 b low refl in
    let one : masked_ok b d ≡ true = every_below_at (masked_ok b) 256 d byte row in
    same (masked b d) (with_bit b d) one
  where
    same : (m n : ℕ) → (m == n) ≡ true → m ≡ n
    same m n h = ground arith

-- A bit of the lowest byte is a bit of the number.
with_bit_lem : (b q : ℕ) → b < 8 → q / 256 * 256 + with_bit b (q % 256) ≡ with_bit b q
with_bit_lem zero q low = omega arith
with_bit_lem (suc zero) q low = omega arith
with_bit_lem (suc (suc zero)) q low = omega arith
with_bit_lem (suc (suc (suc zero))) q low = omega arith
with_bit_lem (suc (suc (suc (suc zero)))) q low = omega arith
with_bit_lem (suc (suc (suc (suc (suc zero))))) q low = omega arith
with_bit_lem (suc (suc (suc (suc (suc (suc zero)))))) q low = omega arith
with_bit_lem (suc (suc (suc (suc (suc (suc (suc zero))))))) q low = omega arith
with_bit_lem (suc (suc (suc (suc (suc (suc (suc (suc b)))))))) q low = absurd (omega arith)

-- A bit of a byte is a bit of the address.
with_bit-mul : (i b a : ℕ) → with_bit b (a / 256 ^ i) * 256 ^ i ≡ with_bit (8 * i + b) a
with_bit-mul i b a =
    rw (upper, lower, sym (bytes_lem i), div-div-eq-div-mul a (2 ^ (8 * i)) (2 ^ suc b))
      (shift (a / (2 ^ (8 * i) * 2 ^ suc b)) (2 ^ suc b) (2 ^ b) (2 ^ (8 * i)))
  where
    lower : 2 ^ (8 * i + b) ≡ 2 ^ (8 * i) * 2 ^ b
    lower = pow-add 2 (8 * i) b

    upper : 2 ^ suc (8 * i + b) ≡ 2 ^ (8 * i) * 2 ^ suc b
    upper = ap (λ k. 2 ^ k) (omega arith) ∙ pow-add 2 (8 * i) (suc b)

    shift : (x m n p : ℕ) → (x * m + n) * p ≡ x * (p * m) + p * n
    shift x m n p =
        add-mul (x * m) n p
        ∙ ap (λ y. y + n * p) (mul_assoc x m p ∙ ap (λ y. x * y) (mul_comm m p))
        ∙ ap (λ y. x * (p * m) + y) (mul_comm n p)

-- The place of a flag.
mod_eight : ℕ → Bool
mod_eight n = bit_and n 7 == n % 8

mod_eight_lem : (n : ℕ) → n < 256 → bit_and n 7 ≡ n % 8
unfolding mod_eight every_below
mod_eight_lem n byte =
    let one : mod_eight n ≡ true = every_below_at mod_eight 256 n byte refl in
    same (bit_and n 7) (n % 8) one
  where
    same : (m n : ℕ) → (m == n) ≡ true → m ≡ n
    same m n h = ground arith

value_lem :
    (i b a : ℕ)
    → b < 8
    → set_low_byte i (masked b (low_byte i (clear_low_bytes i a))) (clear_low_bytes i a)
      ≡ with_bit (8 * i + b) a
value_lem i b a low =
    let q : ℕ = a / 256 ^ i in
    rw
      (
        clear_low_bytes_lem i a,
        low_byte-mul i q,
        masked_lem b (q % 256) low (omega arith),
        set_low_byte-mul i (with_bit b (q % 256)) q,
        with_bit_lem b q low,
      )
      (with_bit-mul i b a)

border_bit-suc :
    (v : IpVersion) (x a : ℕ)
    → x < 254
    → border_bit v (suc x) a ≡ (if ltb (x / 8) (ipsize v) then some (with_bit x a) else none)
unfolding border_bit masked
border_bit-suc v x a byte =
    let border : (suc x + 255) % 256 ≡ x = omega arith in
    let joined : 8 * (x / 8) + x % 8 ≡ x = omega arith in
    rw (border, mod_eight_lem x (omega arith), value_lem (x / 8) (x % 8) a (omega arith), joined)
      refl

-- A flag from 1 to the number of the address's bits, and not 255, counts the address's bits from the
-- lowest one: the border is the address with that bit set and the lower ones zero. For 0 and for a
-- greater flag below 255 the computation writes in front of the address.
pub one_border-with_bit :
    (c : Conf) (v flag a : ℕ)
    → flag < 255
    → ((0 < flag)
        × (flag ≤ 8 * ipsize c.ip_version)
        × (one_border c v flag a ≡ some (a / 2 ^ flag * 2 ^ flag + 2 ^ (flag - 1))))
      ⊎ (((flag ≡ 0) ⊎ (8 * ipsize c.ip_version < flag)) × (one_border c v flag a ≡ none))
unfolding one_border border_bit
one_border-with_bit c v zero a byte = inr (inl refl, none_of c.ip_version)
  where
    none_of : (v : IpVersion) → border_bit v 0 a ≡ none
    none_of af_inet = refl
    none_of af_inet6 = refl
one_border-with_bit c v (suc x) a byte =
    let test : (suc x == 0xff) ≡ false = ground arith in
    let prev : suc x - 1 ≡ x = omega arith in
    let value = border_bit-suc c.ip_version x a (omega arith) in
    elim (Bool-cases (ltb (x / 8) (ipsize c.ip_version))) [
      | inl inside ↦ inl (omega arith, ground arith, rw (test, value, inside, prev) refl)
      | inr outside ↦ inr (inr (ground arith), rw (test, value, outside) refl)
    ]
