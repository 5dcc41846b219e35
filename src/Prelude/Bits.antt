-- ===== src/Prelude/Bits.antt =====
-- Masks and single bits as arithmetic, for every width: the laws of `bit_and` and `bit_or` from
-- their binary digits.
use Prim.Native.Nat.{
  ℕ, zero, suc, ◌+◌, ◌-◌, ◌*◌, ◌/◌, ◌%◌, ◌^◌, ◌≤◌, ◌<◌, min, max, bit_and, bit_or, digits,
  bit_and-bitwise, bit_or-bitwise,
}
use mathlib.Core.Path.{◌≡◌, refl, sym, ap}
use native.Mathlib.Nat.{div-div-eq-div-mul, pow-succ', div-add-mod, div-one, mul-one}
use native.Mathlib.Omega.{arith}

-- The recursion of the native operations does not depend on its count, once that is large enough.
module _ (z : ℕ → ℕ) (f : ℕ → ℕ → ℕ) where
  digits_count : (n m a b : ℕ) → a ≤ n → a ≤ m → digits z f n a b ≡ digits z f m a b
  digits_count zero zero a b p q = refl
  digits_count zero (suc m) zero b p q = refl
  digits_count zero (suc m) (suc a) b p q = absurd (omega arith)
  digits_count (suc n) zero zero b p q = refl
  digits_count (suc n) zero (suc a) b p q = absurd (omega arith)
  digits_count (suc n) (suc m) zero b p q = refl
  digits_count (suc n) (suc m) (suc a) b p q =
      ap (λ (t : ℕ). t * 2 + f (suc a % 2) (b % 2))
        (digits_count n m (suc a / 2) (b / 2) (omega arith) (omega arith))

pub bit_and_step : (a b : ℕ) → bit_and a b ≡ bit_and (a / 2) (b / 2) * 2 + min (a % 2) (b % 2)
bit_and_step zero b = omega (arith, bit_and-bitwise 0 b, bit_and-bitwise 0 (b / 2))
bit_and_step (suc a) b = omega (
  arith,
  bit_and-bitwise (suc a) b,
  bit_and-bitwise (suc a / 2) (b / 2),
  digits_count (λ t. 0) min a (suc a / 2) (suc a / 2) (b / 2) (omega arith) (omega arith),
)

pub bit_or_step : (a b : ℕ) → bit_or a b ≡ bit_or (a / 2) (b / 2) * 2 + max (a % 2) (b % 2)
bit_or_step zero b = omega (arith, bit_or-bitwise 0 b, bit_or-bitwise 0 (b / 2))
bit_or_step (suc a) b = omega (
  arith,
  bit_or-bitwise (suc a) b,
  bit_or-bitwise (suc a / 2) (b / 2),
  digits_count (λ t. t) max a (suc a / 2) (suc a / 2) (b / 2) (omega arith) (omega arith),
)

zero-bit_and : (b : ℕ) → bit_and 0 b ≡ 0
zero-bit_and b = bit_and-bitwise 0 b

bit_and-zero_below : (n a : ℕ) → a ≤ n → bit_and a 0 ≡ 0
bit_and-zero_below n zero h = zero-bit_and 0
bit_and-zero_below zero (suc a) h = absurd (omega arith)
bit_and-zero_below (suc n) (suc a) h =
    omega (arith, bit_and_step (suc a) 0, bit_and-zero_below n (suc a / 2) (omega arith))

pub bit_and-zero : (a : ℕ) → bit_and a 0 ≡ 0
bit_and-zero a = bit_and-zero_below a a (omega arith)

zero-bit_or : (b : ℕ) → bit_or 0 b ≡ b
zero-bit_or b = bit_or-bitwise 0 b

pub bit_and-one : (a : ℕ) → bit_and a 1 ≡ a % 2
bit_and-one a = omega (arith, bit_and_step a 1, bit_and-zero (a / 2))

pub pow-pos : (k : ℕ) → 1 ≤ 2 ^ k
pow-pos zero = omega arith
pow-pos (suc k) = omega (arith, pow-succ' 2 k, pow-pos k)

-- Quotient and remainder by a doubled divisor.
halves : (a p : ℕ) → 1 ≤ p → (a / (2 * p) ≡ a / 2 / p) × (a % (2 * p) ≡ a / 2 % p * 2 + a % 2)
halves a p h =
    let quotient = sym (div-div-eq-div-mul a 2 p) in
    (
      quotient,
      omega (arith, div-add-mod a (2 * p), div-add-mod (a / 2) p, ap (λ (t : ℕ). p * t) quotient),
    )

-- `a & (2^k - 1)`
pub bit_and_mask : (k a : ℕ) → bit_and a (2 ^ k - 1) ≡ a % 2 ^ k
bit_and_mask zero a = omega (arith, bit_and-zero a)
bit_and_mask (suc k) a =
    rw (pow-succ' 2 k, (halves a (2 ^ k) (pow-pos k)).1)
      (omega (
        arith,
        pow-pos k,
        bit_and_step a (2 * 2 ^ k - 1),
        bit_and_mask k (a / 2),
        ap (bit_and (a / 2)) (pred_half (2 ^ k) (pow-pos k)),
      ))
  where
    pred_half : (p : ℕ) → 1 ≤ p → (2 * p - 1) / 2 ≡ p - 1
    pred_half p h = omega arith

-- `a & (m << k)`
pub bit_and_shifted : (k a m : ℕ) → bit_and a (m * 2 ^ k) ≡ bit_and (a / 2 ^ k) m * 2 ^ k
bit_and_shifted zero a m = rw (div-one a, mul-one m) (omega arith)
bit_and_shifted (suc k) a m =
    rw (pow-succ' 2 k, (halves a (2 ^ k) (pow-pos k)).0)
      (omega (
        arith,
        bit_and_step a (m * (2 * 2 ^ k)),
        bit_and_shifted k (a / 2) m,
        ap (bit_and (a / 2)) (double_half (m * 2 ^ k) (m * (2 * 2 ^ k)) (omega arith)),
      ))
  where
    double_half : (p q : ℕ) → q ≡ 2 * p → q / 2 ≡ p
    double_half p q h = omega arith

bit_or-zero_below : (n a : ℕ) → a ≤ n → bit_or a 0 ≡ a
bit_or-zero_below n zero h = zero-bit_or 0
bit_or-zero_below zero (suc a) h = absurd (omega arith)
bit_or-zero_below (suc n) (suc a) h =
    omega (arith, bit_or_step (suc a) 0, bit_or-zero_below n (suc a / 2) (omega arith))

-- `(a << k) | b`, where `b` fits in the bits below.
pub bit_or_shifted : (k a b : ℕ) → b < 2 ^ k → bit_or (a * 2 ^ k) b ≡ a * 2 ^ k + b
bit_or_shifted zero a zero h = omega (arith, bit_or-zero_below (a * 1) (a * 1) (omega arith))
bit_or_shifted zero a (suc b) h = absurd (omega arith)
bit_or_shifted (suc k) a b h =
    let double = pow-succ' 2 k in
    rw double (
      omega (
        arith,
        bit_or_step (a * (2 * 2 ^ k)) b,
        bit_or_shifted k a (b / 2) (omega arith),
        ap (λ (t : ℕ). bit_or t (b / 2)) (double_half (a * 2 ^ k) (a * (2 * 2 ^ k)) (omega arith)),
      ))
  where
    double_half : (p q : ℕ) → q ≡ 2 * p → q / 2 ≡ p
    double_half p q h = omega arith
