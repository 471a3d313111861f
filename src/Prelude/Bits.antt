-- ===== src/Prelude/Bits.antt =====
-- The binary digits of a number, and what `|`, `&`, `<<` and a mask do to each.
use Prim.Native.Nat.{
  ℕ, zero, suc, ◌+◌, ◌-◌, ◌*◌, ◌/◌, ◌%◌, ◌^◌, ◌≤◌, ◌<◌, min, max, digits, bit_and, bit_or,
  bit_and-bitwise, bit_or-bitwise,
}
use mathlib.Core.Path.{◌≡◌, refl, sym, ap, ap₂, ◌∙◌}
use mathlib.Core.Logic.{◌≢◌, ◌↔◌}
use native.Mathlib.Nat.{pow-suc, div-add-mod', le_refl}
use native.Mathlib.Decide.{dec_lt, ℕ_discrete}
use native.Mathlib.Omega.{arith}

abbrev pub bit : ℕ → ℕ → ℕ
bit a zero = a % 2
bit a (suc k) = bit (a / 2) k

pub bit-lt-two : (a k : ℕ) → bit a k < 2
bit-lt-two a zero = omega arith
bit-lt-two a (suc k) = bit-lt-two (a / 2) k

bit-zero : (k : ℕ) → bit 0 k ≡ 0
bit-zero zero = refl
bit-zero (suc k) = bit-zero k

-- A number with no digit set is zero.
bits-eq-zero : (n a : ℕ) → a ≤ n → ((k : ℕ) → bit a k ≡ 0) → a ≡ 0
bits-eq-zero zero a h z = omega arith
bits-eq-zero (suc n) a h z =
    omega (arith, z 0, bits-eq-zero n (a / 2) (omega (arith, z 0)) (λ k. z (suc k)))

module _ (z : ℕ → ℕ) (f : ℕ → ℕ → ℕ) where
  fuel_irrelevant : (m n a b : ℕ) → a ≤ m → a ≤ n → digits z f m a b ≡ digits z f n a b
  fuel_irrelevant zero zero a b p q = refl
  fuel_irrelevant zero (suc n) zero b p q = refl
  fuel_irrelevant (suc m) zero zero b p q = refl
  fuel_irrelevant (suc m) (suc n) zero b p q = refl
  fuel_irrelevant zero n (suc a) b p q = absurd (omega arith)
  fuel_irrelevant (suc m) zero (suc a) b p q = absurd (omega arith)
  fuel_irrelevant (suc m) (suc n) (suc a) b p q =
      rw (fuel_irrelevant m n (suc a / 2) (b / 2) (omega arith) (omega arith))

or_lowest : (a b : ℕ) → bit_or a b ≡ bit_or (a / 2) (b / 2) * 2 + max (a % 2) (b % 2)
or_lowest zero b = simp bit_or-bitwise (omega arith)
or_lowest (suc a) b = simp bit_or-bitwise (
    omega (
      arith,
      fuel_irrelevant (λ y. y) max a (suc a / 2) (suc a / 2) (b / 2) (omega arith) (omega arith),
    ))

and_lowest : (a b : ℕ) → bit_and a b ≡ bit_and (a / 2) (b / 2) * 2 + min (a % 2) (b % 2)
and_lowest zero b = simp bit_and-bitwise (omega arith)
and_lowest (suc a) b = simp bit_and-bitwise (
    omega (
      arith,
      fuel_irrelevant (λ y. 0) min a (suc a / 2) (suc a / 2) (b / 2) (omega arith) (omega arith),
    ))

pub bit-bit_or : (a b k : ℕ) → bit (bit_or a b) k ≡ max (bit a k) (bit b k)
bit-bit_or a b zero = omega (arith, or_lowest a b)
bit-bit_or a b (suc k) =
    let e : bit_or a b / 2 ≡ bit_or (a / 2) (b / 2) = omega (arith, or_lowest a b) in
    rw e (bit-bit_or (a / 2) (b / 2) k)

pub bit-bit_and : (a b k : ℕ) → bit (bit_and a b) k ≡ min (bit a k) (bit b k)
bit-bit_and a b zero = omega (arith, and_lowest a b)
bit-bit_and a b (suc k) =
    let e : bit_and a b / 2 ≡ bit_and (a / 2) (b / 2) = omega (arith, and_lowest a b) in
    rw e (bit-bit_and (a / 2) (b / 2) k)

double-pow : (q k : ℕ) → q * 2 ^ suc k ≡ 2 * (q * 2 ^ k)
double-pow q k = omega (arith, ap (λ (t : ℕ). q * t) (pow-suc 2 k))

-- `a << d` moves each digit `d` places up.
pub bit-shl : (a d k : ℕ) → bit (a * 2 ^ d) (d + k) ≡ bit a k
bit-shl a zero k =
    let e : a * 2 ^ 0 ≡ a = omega arith in let f : 0 + k ≡ k = omega arith in rw (e, f)
bit-shl a (suc d) k =
    let e : a * 2 ^ suc d / 2 ≡ a * 2 ^ d = omega (arith, double-pow a d) in
    let f : suc d + k ≡ suc (d + k) = omega arith in
    rw f (ap (λ t. bit t (d + k)) e ∙ bit-shl a d k)

pub bit-shl_low : (a d k : ℕ) → k < d → bit (a * 2 ^ d) k ≡ 0
bit-shl_low a zero k h = absurd (omega arith)
bit-shl_low a (suc d) zero h = omega (arith, double-pow a d)
bit-shl_low a (suc d) (suc k) h =
    let e : a * 2 ^ suc d / 2 ≡ a * 2 ^ d = omega (arith, double-pow a d) in
    rw e (bit-shl_low a d k (omega arith))

bit-add-shl : (q r w k : ℕ) → k < w → bit (q * 2 ^ w + r) k ≡ bit r k
bit-add-shl q r zero k h = absurd (omega arith)
bit-add-shl q r (suc w) zero h = omega (arith, double-pow q w)
bit-add-shl q r (suc w) (suc k) h =
    let e : (q * 2 ^ suc w + r) / 2 ≡ q * 2 ^ w + r / 2 = omega (arith, double-pow q w) in
    rw e (bit-add-shl q (r / 2) w k (omega arith))

-- Truncation to `w` bits keeps the digits below `w`.
pub bit-mod : (a w k : ℕ) → k < w → bit (a % 2 ^ w) k ≡ bit a k
bit-mod a w k h =
    sym (bit-add-shl (a / 2 ^ w) (a % 2 ^ w) w k h) ∙ ap (λ t. bit t k) (div-add-mod' a (2 ^ w))

one-shl : (d : ℕ) → 1 * 2 ^ d ≡ 2 ^ d
one-shl d = omega arith

pub bit-pow_self : (d : ℕ) → bit (2 ^ d) d ≡ 1
bit-pow_self d = let e : d + 0 ≡ d = omega arith in sym (ap₂ bit (one-shl d) e) ∙ bit-shl 1 d 0

pub bit-pow_ne : (d k : ℕ) → d ≢ k → bit (2 ^ d) k ≡ 0
bit-pow_ne d k h = elim (dec_lt k d) [
  | yes p ↦ ap (λ t. bit t k) (sym (one-shl d)) ∙ bit-shl_low 1 d k p
  | no p ↦
      let e : d + suc (k - d - 1) ≡ k = omega arith in
      sym (ap₂ bit (one-shl d) e) ∙ (bit-shl 1 d (suc (k - d - 1)) ∙ bit-zero (k - d - 1))
]

-- `(a & (1 << k)) != 0` tests the digit `k`.
pub bit_and-pow : (a k : ℕ) → (bit_and a (2 ^ k) ≡ 0) ↔ (bit a k ≡ 0)
bit_and-pow a k = (
  λ z. omega (arith, bit-bit_and a (2 ^ k) k, ap (λ t. bit t k) z, bit-pow_self k, bit-zero k),
  λ z. bits-eq-zero _ _ (le_refl _) (λ j. elim (ℕ_discrete k j) [
    | yes e ↦ omega (arith, bit-bit_and a (2 ^ k) j, ap (bit a) e, bit-pow_self k)
    | no n ↦ omega (arith, bit-bit_and a (2 ^ k) j, bit-pow_ne k j n)
  ]),
)

bit_and-le_fuel : (n a b : ℕ) → b ≤ n → bit_and a b ≤ b
bit_and-le_fuel n a zero h = omega (
  arith,
  bits-eq-zero (bit_and a 0) (bit_and a 0) (le_refl _)
      (λ k. omega (arith, bit-bit_and a 0 k, bit-zero k)),
)
bit_and-le_fuel zero a (suc b) h = absurd (omega arith)
bit_and-le_fuel (suc n) a (suc b) h =
    omega (arith, and_lowest a (suc b), bit_and-le_fuel n (a / 2) (suc b / 2) (omega arith))

pub bit_and-le : (a b : ℕ) → bit_and a b ≤ b
bit_and-le a b = bit_and-le_fuel b a b (le_refl b)
