-- ===== src/Prelude/Int.antt =====
-- Signed integers over the native numbers, and the 32-bit two's complement of an `i32`.
use Prim.Native.Nat.{ℕ, ◌-◌, ◌^◌, ◌<◌}
use mathlib.Core.Path.{◌≡◌}
use native.Mathlib.Omega.{arith}
use usbip_macos.Prelude.Tests.{ltb, if◌then◌else◌}

-- `negsuc n` is -(n + 1).
pub data ℤ : Type 0 where
  pos : ℕ → ℤ
  negsuc : ℕ → ℤ

abbrev pub IsI32 : ℤ → Type 0
IsI32 (pos n) = n < 2 ^ 31
IsI32 (negsuc n) = n < 2 ^ 31

-- The bit pattern of an `i32`, and the `i32` of a bit pattern.
abbrev pub to_bits : ℤ → ℕ
to_bits (pos n) = n
to_bits (negsuc n) = 2 ^ 32 - 1 - n

abbrev pub of_bits : ℕ → ℤ
of_bits w = if ltb w (2 ^ 31) then pos w else negsuc (2 ^ 32 - 1 - w)

pub of_bits-to_bits : (z : ℤ) → IsI32 z → of_bits (to_bits z) ≡ z
of_bits-to_bits (pos n) h = ground arith
of_bits-to_bits (negsuc n) h = ground arith

pub to_bits-lt : (z : ℤ) → IsI32 z → to_bits z < 2 ^ 32
to_bits-lt (pos n) h = omega arith
to_bits-lt (negsuc n) h = omega arith
