-- ===== src/Host/Frames.antt =====
-- What the frame clock of src/host.rs reports.
use native.Mathlib.Nat.{
  div-mul-le_self, div-le_of_le-mul, mod-le, mul-le-mul_right, mul_assoc, mul_comm,
}
use usbip_macos.Prelude.{
  ℕ, zero, suc, ◌+◌, ◌-◌, ◌*◌, ◌/◌, ◌%◌, ◌^◌, ◌≤◌, ◌<◌, ◌≡◌, refl, sym, subst, false, Bool-cases,
  inl, inr, Option, none, some, arith,
}
use usbip_macos.Host.Clock.{Timebase, frame_at, start_of, is_reported, next_frame, next}

-- A frame later than the last that was reported.
abbrev pub Later : Option ℕ → ℕ → Type 0
Later none frame = Unit
Later (some l) frame = l < frame

is_reported-Later :
    (last : Option ℕ) (frame : ℕ) → is_reported last frame ≡ false → Later last frame
unfolding is_reported
is_reported-Later none frame h = _
is_reported-Later (some l) frame h = ground (arith, h)

Later-is_reported :
    (last : Option ℕ) (frame : ℕ) → Later last frame → is_reported last frame ≡ false
unfolding is_reported
Later-is_reported none frame h = refl
Later-is_reported (some l) frame h = ground (arith, h)

-- What a run of the loop gives: a later frame, read at a call from `i` up to the `m`-th after it.
abbrev Finds : Timebase → (ℕ → ℕ) → Option ℕ → ℕ → ℕ → Option (ℕ × ℕ) → Type 0
Finds tb ticks last i m o =
    (frame : ℕ) × (j : ℕ) × (o ≡ some (frame, suc j))
    × Later last frame
    × (i ≤ j)
    × (j ≤ i + m)
    × (frame ≡ frame_at tb (ticks j))

-- The loop of `next` ends once the time is in a later frame.
next_frame-Finds :
    (tb : Timebase) (ticks : ℕ → ℕ) (last : Option ℕ) (fuel i m : ℕ)
    → Later last (frame_at tb (ticks (i + m)))
    → m < fuel
    → Finds tb ticks last i m (next_frame tb ticks last fuel i)
unfolding next_frame
next_frame-Finds tb ticks last zero i m h lt = absurd (omega arith)
next_frame-Finds tb ticks last (suc fuel) i zero h lt =
    let now : Later last (frame_at tb (ticks i)) =
      subst (λ (k : ℕ). Later last (frame_at tb (ticks k))) (omega arith) h in
    (
      frame_at tb (ticks i),
      i,
      rw (Later-is_reported last (frame_at tb (ticks i)) now) refl,
      now,
      omega arith,
      omega arith,
      refl,
    )
next_frame-Finds tb ticks last (suc fuel) i (suc m) h lt =
    elim (Bool-cases (is_reported last (frame_at tb (ticks i)))) [
      | inr fresh ↦ (
        frame_at tb (ticks i),
        i,
        rw fresh refl,
        is_reported-Later last (frame_at tb (ticks i)) fresh,
        omega arith,
        omega arith,
        refl,
      )
      | inl old ↦
          let (frame, j, e, later, lo, hi, at_j) =
            next_frame-Finds tb ticks last fuel (suc i) m
              (subst (λ (k : ℕ). Later last (frame_at tb (ticks k))) (omega arith) h)
              (omega (arith, lt)) in
          (frame, j, rw old e, later, omega (arith, lo), omega (arith, hi), at_j)
    ]

-- A frame does not begin after a time that lies in it.
start_of-frame_at : (tb : Timebase) (t : ℕ) → tb.epoch ≤ t → start_of tb (frame_at tb t) ≤ t
unfolding start_of frame_at
start_of-frame_at tb t h =
    let unit = tb.denom * 1000000 in
    let count = (t - tb.epoch) * tb.numer / unit in
    let frame = count % 2 ^ 64 in
    let whole : frame * tb.denom * 1000000 ≤ (t - tb.epoch) * tb.numer = omega (
      arith,
      mul-le-mul_right unit (mod-le count (2 ^ 64)),
      div-mul-le_self ((t - tb.epoch) * tb.numer) unit,
      mul_assoc frame tb.denom 1000000,
    ) in
    omega (
      arith,
      h,
      mod-le (frame * tb.denom * 1000000 / tb.numer) (2 ^ 64),
      div-le_of_le-mul tb.numer {m = frame * tb.denom * 1000000} {n = t - tb.epoch}
          (omega (arith, whole, mul_comm tb.numer (t - tb.epoch))),
    )

-- As soon as one of the readings that the loop makes lies in a frame that is later than the last one
-- reported, `next` ends: the frame that it reports is later than that one and is remembered as the last,
-- and it began no later than the reading that it was computed from.
pub next-Later :
    (tb : Timebase) (ticks : ℕ → ℕ) (fuel : ℕ) (last : Option ℕ) (i m : ℕ)
    → Later last (frame_at tb (ticks (i + m)))
    → m < fuel
    → ((k : ℕ) → tb.epoch ≤ ticks k)
    → (frame : ℕ) × (time : ℕ) × (j : ℕ) × (next tb ticks fuel last i
        ≡ some ((frame, time), some frame, suc j))
      × Later last frame
      × (i ≤ j)
      × (j ≤ i + m)
      × (time ≤ ticks j)
unfolding next
next-Later tb ticks fuel last i m h lt after =
    let (frame, j, e, later, lo, hi, at_j) = next_frame-Finds tb ticks last fuel i m h lt in
    (
      frame,
      start_of tb frame,
      j,
      rw (e, next) refl,
      later,
      lo,
      hi,
      subst (λ (f : ℕ). start_of tb f ≤ ticks j) (sym at_j)
          (start_of-frame_at tb (ticks j) (after j)),
    )
