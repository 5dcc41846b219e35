-- ===== src/Engine/Sessions.antt =====
-- What src/engine.rs calls of a session, filled in by the model of src/client.rs.
use usbip_macos.Prelude.{
  ℕ, ◌+◌, ◌*◌, ◌<◌, ◌≡◌, refl, Bool, true, List, some, Option-cases, inl, inr, Result, err,
}
use usbip_macos.Wire.{Buf}
use usbip_macos.Protocol.Types.{Speed}
use usbip_macos.Client.State.{SubmitRequest, TransferError, disconnected, Shared}
use usbip_macos.Client.Session.{submit, unlink, check_request, is_closed, is_some_reason}
use usbip_macos.Hci.Messages.{Status}
use usbip_macos.Engine.Types.{Ring, Link, Work}
use usbip_macos.Engine.Pump.{pump}
use usbip_macos.Engine.Termination.{pump_ends}

module _ ⦃buf : Buf⦄ where
  instance abbrev pub session_link : Link Shared
  session_link = record { submit = submit; unlink = unlink }

  submit_closed :
      (req : SubmitRequest) (s : Shared)
      → is_closed s ≡ true
      → (r : Result TransferError ℕ × Shared) × (submit req s ≡ some r) × (is_closed r.1 ≡ true)
  unfolding submit is_closed is_some_reason
  submit_closed req s h = elim (Option-cases (check_request req)) [
    | inr (e, bad) ↦ ((err e, s), rw (bad, submit) refl, h)
    | inl good ↦ elim (Option-cases s.state.closed) [
      | inl open_session ↦ absurd (cc (h, open_session))
      | inr (reason, closed) ↦ ((err (disconnected reason), s), simp (good, closed, submit), h)
    ]
  ]

  unlink_closed :
      (n : ℕ) (s : Shared)
      → is_closed s ≡ true
      → (s' : Shared) × (unlink n s ≡ some s') × (is_closed s' ≡ true)
  unfolding unlink is_closed
  unlink_closed n s h = (s, rw (h, unlink) refl, h)

  -- Once the connection is gone, `pump` ends, with fuel for twice the messages that are left and two, on
  -- a ring of which an accepted completion leaves less.
  pub pump_closed_ends :
      {R : Type 0} ⦃rg : Ring R⦄ (left : R → ℕ)
      → ((r : R) (st : Status) (bs : List ℕ) (n : ℕ)
          → (Ring.complete_head rg st bs n r).0 ≡ true
          → left (Ring.complete_head rg st bs n r).1 < left r)
      → (speed : Speed) (fuel : ℕ) (gone : Bool) (w : Work R Shared) → is_closed w.session ≡ true
      → 2 * left w.ep.ring + 1 < fuel
      → (w' : Work R Shared) × (pump speed fuel gone w ≡ some w')
  pump_closed_ends left completes =
      pump_ends left completes (λ (s : Shared). is_closed s ≡ true) submit_closed unlink_closed
