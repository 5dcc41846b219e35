-- ===== src/Host/Clock.antt =====
-- `FrameClock` of src/host.rs. `ticks i` is what the `i`-th call of `mach_absolute_time` returns.
use usbip_macos.Prelude.{
  ℕ, zero, suc, ◌+◌, ◌-◌, ◌*◌, ◌/◌, ◌%◌, ◌^◌, Bool, false, Option, none, some, leb, if◌then◌else◌,
}

-- The part of the clock that does not change.
pub record Timebase : Type 0 where
  pub epoch : ℕ
  pub numer : ℕ
  pub denom : ℕ

unfoldable pub frame_at : Timebase → ℕ → ℕ
frame_at tb ticks = (ticks - tb.epoch) * tb.numer / (tb.denom * 1000000) % 2 ^ 64

unfoldable pub start_of : Timebase → ℕ → ℕ
start_of tb frame = (tb.epoch + frame * tb.denom * 1000000 / tb.numer % 2 ^ 64) % 2 ^ 64

-- `last.is_some_and(|l| frame <= l)`
unfoldable pub is_reported : Option ℕ → ℕ → Bool
is_reported none frame = false
is_reported (some l) frame = leb frame l

-- The loop: the frame, and how often the time was read. `none` when the fuel runs out.
unfoldable pub next_frame : Timebase → (ℕ → ℕ) → Option ℕ → ℕ → ℕ → Option (ℕ × ℕ)
next_frame tb ticks last zero i = none
next_frame tb ticks last (suc fuel) i =
    let rest = next_frame tb ticks last fuel (suc i) in
    if is_reported last (frame_at tb (ticks i)) then rest else some (frame_at tb (ticks i), suc i)

-- `next`: the frame and the time at which it began, what was reported last, and the readings so far.
unfoldable pub next : Timebase → (ℕ → ℕ) → ℕ → Option ℕ → ℕ → Option ((ℕ × ℕ) × Option ℕ × ℕ)
next tb ticks fuel last i = elim (next_frame tb ticks last fuel i) [
  | none ↦ none
  | some (frame, j) ↦ some ((frame, start_of tb frame), some frame, j)
]
