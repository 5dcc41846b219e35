-- ===== src/Hci/Intervals.antt =====
-- The URB intervals of src/hci.rs.
use usbip_macos.Prelude.{
  ℕ, zero, suc, ◌-◌, ◌*◌, ◌^◌, ◌≤◌, ◌<◌, min, max, inl, inr, Bool-cases, arith,
}
use usbip_macos.Prelude.Bits.{pow-pos}
use native.Mathlib.Nat.{pow-succ'}
use usbip_macos.Protocol.Types.{Speed}
use usbip_macos.Hci.Endpoints.{
  EndpointKind, control, isochronous, bulk, interrupt, is_fast, urb_interval,
}

pow_mono : (k n : ℕ) → k ≤ n → 2 ^ k ≤ 2 ^ n
pow_mono zero n h = omega (arith, pow-pos n)
pow_mono (suc k) zero h = absurd (omega arith)
pow_mono (suc k) (suc n) h = omega (arith, pow-succ' 2 n, pow-succ' 2 k, pow_mono k n (omega arith))

abbrev IsPeriodic : EndpointKind → Type 0
IsPeriodic control = ⊥
IsPeriodic isochronous = Unit
IsPeriodic bulk = ⊥
IsPeriodic interrupt = Unit

power-bounds :
    (b : ℕ) → (1 ≤ 1 * 2 ^ (min (max b 1) 16 - 1)) × (1 * 2 ^ (min (max b 1) 16 - 1) ≤ 2 ^ 15)
power-bounds b = (
  omega (arith, pow-pos (min (max b 1) 16 - 1)),
  omega (arith, pow_mono (min (max b 1) 16 - 1) 15 (omega arith)),
)

-- The interval of a periodic endpoint is between 1 and 32768, whatever the descriptor says.
pub urb_interval-bounds :
    (kind : EndpointKind) (size b : ℕ) (speed : Speed)
    → IsPeriodic kind
    → b < 256
    → (1 ≤ urb_interval (record { kind = kind; max_packet_size = size; b_interval = b }) speed)
      × (urb_interval (record { kind = kind; max_packet_size = size; b_interval = b }) speed
          ≤ 2 ^ 15)
unfolding urb_interval
urb_interval-bounds control size b speed p h = absurd p
urb_interval-bounds bulk size b speed p h = absurd p
urb_interval-bounds isochronous size b speed p h = power-bounds b
urb_interval-bounds interrupt size b speed p h = elim (Bool-cases (is_fast speed)) [
  | inl fast ↦ rw fast (power-bounds b)
  | inr slow ↦ rw slow (omega arith, omega arith)
]
