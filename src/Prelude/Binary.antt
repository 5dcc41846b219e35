-- ===== src/Prelude/Binary.antt =====
-- Numbers as sets of bits: the bits of `|`, `&`, a single bit and its complement in a word.
use Prim.Native.Nat.{ℕ, zero, suc, ◌-◌, ◌*◌, ◌/◌, ◌%◌, ◌^◌, ◌≤◌, ◌<◌, min, max, bit_and, bit_or}
use mathlib.Core.Path.{◌≡◌, refl, ap}
use mathlib.Core.Logic.{◌≢◌}
use native.Mathlib.Nat.{div-div-eq-div-mul, pow-succ', div-one}
use native.Mathlib.Omega.{arith}
use usbip_macos.Prelude.Bits.{bit_and_step, bit_or_step, bit_and_shifted, bit_and-one, pow-pos}

-- Bit `i` of a number, as 0 or 1.
unfoldable pub bit : ℕ → ℕ → ℕ
bit zero a = a % 2
bit (suc i) a = bit i (a / 2)

pub bit-or : (i a b : ℕ) → bit i (bit_or a b) ≡ max (bit i a) (bit i b)
unfolding bit
bit-or zero a b = omega (arith, bit_or_step a b)
bit-or (suc i) a b = rw (half, bit-or i (a / 2) (b / 2))
  where
    half : bit_or a b / 2 ≡ bit_or (a / 2) (b / 2)
    half = omega (arith, bit_or_step a b)

pub bit-and : (i a b : ℕ) → bit i (bit_and a b) ≡ min (bit i a) (bit i b)
unfolding bit
bit-and zero a b = omega (arith, bit_and_step a b)
bit-and (suc i) a b = rw (half, bit-and i (a / 2) (b / 2))
  where
    half : bit_and a b / 2 ≡ bit_and (a / 2) (b / 2)
    half = omega (arith, bit_and_step a b)

pub bit-lt : (i a : ℕ) → bit i a < 2
unfolding bit
bit-lt zero a = omega arith
bit-lt (suc i) a = bit-lt i (a / 2)

pub bit-zero : (i : ℕ) → bit i 0 ≡ 0
unfolding bit
bit-zero zero = refl
bit-zero (suc i) = bit-zero i

half-pow : (k : ℕ) → 1 * 2 ^ suc k / 2 ≡ 1 * 2 ^ k
half-pow k = omega (arith, pow-succ' 2 k)

pub bit-pow_same : (k : ℕ) → bit k (1 * 2 ^ k) ≡ 1
unfolding bit
bit-pow_same zero = refl
bit-pow_same (suc k) = rw (half-pow k, bit-pow_same k)

pub bit-pow_other : (i k : ℕ) → i ≢ k → bit i (1 * 2 ^ k) ≡ 0
unfolding bit
bit-pow_other zero zero h = absurd (h refl)
bit-pow_other zero (suc k) h = omega (arith, pow-succ' 2 k)
bit-pow_other (suc i) zero h = bit-zero i
bit-pow_other (suc i) (suc k) h = rw (half-pow k, bit-pow_other i k (λ e. h (ap suc e)))

bit-ones : (w i : ℕ) → i < w → bit i (2 ^ w - 1) ≡ 1
unfolding bit
bit-ones zero i h = absurd (omega arith)
bit-ones (suc w) zero h = omega (arith, pow-succ' 2 w, pow-pos w)
bit-ones (suc w) (suc i) h = rw (half, bit-ones w i (omega arith))
  where
    half : (2 ^ suc w - 1) / 2 ≡ 2 ^ w - 1
    half = omega (arith, pow-succ' 2 w, pow-pos w)

pow-lt : (k w : ℕ) → k < w → 2 ^ k < 2 ^ w
pow-lt k zero h = absurd (omega arith)
pow-lt zero (suc w) h = omega (arith, pow-succ' 2 w, pow-pos w)
pow-lt (suc k) (suc w) h = omega (arith, pow-succ' 2 w, pow-succ' 2 k, pow-lt k w (omega arith))

-- The word of `w` ones but for bit `k`.
half-hole : (w k : ℕ) → k < w → (2 ^ suc w - 1 - 1 * 2 ^ suc k) / 2 ≡ 2 ^ w - 1 - 1 * 2 ^ k
half-hole w k h = omega (arith, pow-succ' 2 w, pow-succ' 2 k, pow-pos k, pow-lt k w h)

pub bit-hole_same : (w k : ℕ) → k < w → bit k (2 ^ w - 1 - 1 * 2 ^ k) ≡ 0
unfolding bit
bit-hole_same zero k h = absurd (omega arith)
bit-hole_same (suc w) zero h = omega (arith, pow-succ' 2 w, pow-pos w)
bit-hole_same (suc w) (suc k) h = rw (half-hole w k (omega arith), bit-hole_same w k (omega arith))

pub bit-hole_other : (w k i : ℕ) → k < w → i < w → i ≢ k → bit i (2 ^ w - 1 - 1 * 2 ^ k) ≡ 1
unfolding bit
bit-hole_other zero k i h hi n = absurd (omega arith)
bit-hole_other (suc w) zero zero h hi n = absurd (n refl)
bit-hole_other (suc w) zero (suc i) h hi n = rw (half, bit-ones w i (omega arith))
  where
    half : (2 ^ suc w - 1 - 1 * 2 ^ 0) / 2 ≡ 2 ^ w - 1
    half = omega (arith, pow-succ' 2 w, pow-pos w)
bit-hole_other (suc w) (suc k) zero h hi n =
    omega (arith, pow-succ' 2 w, pow-succ' 2 k, pow-pos k, pow-lt k w (omega arith))
bit-hole_other (suc w) (suc k) (suc i) h hi n = rw (
  half-hole w k (omega arith),
  bit-hole_other w k i (omega arith) (omega arith) (λ e. n (ap suc e)),
)

pub bit-high : (w i a : ℕ) → a < 2 ^ w → w ≤ i → bit i a ≡ 0
unfolding bit
bit-high zero i a h hi = let is_zero : a ≡ 0 = omega arith in rw (is_zero, bit-zero i)
bit-high (suc w) zero a h hi = absurd (omega arith)
bit-high (suc w) (suc i) a h hi = bit-high w i (a / 2) (omega (arith, pow-succ' 2 w)) (omega arith)

-- A number is its bits.
pub bits-injective : (n a b : ℕ) → a ≤ n → b ≤ n → ((i : ℕ) → bit i a ≡ bit i b) → a ≡ b
unfolding bit
bits-injective zero a b ha hb h = omega arith
bits-injective (suc n) a b ha hb h =
    omega
      (arith, h 0, bits-injective n (a / 2) (b / 2) (omega arith) (omega arith) (λ i. h (suc i)))

bit-div : (i a : ℕ) → bit i a ≡ a / 2 ^ i % 2
unfolding bit
bit-div zero a = rw (div-one a)
bit-div (suc i) a = rw (pow-succ' 2 i, bit-div i (a / 2), div-div-eq-div-mul a 2 (2 ^ i))

-- The test of the code reads a bit.
pub bit_and-bit : (a i : ℕ) → bit_and a (1 * 2 ^ i) ≡ bit i a * 2 ^ i
bit_and-bit a i = rw (bit_and_shifted i a 1, bit_and-one (a / 2 ^ i), bit-div i a)
