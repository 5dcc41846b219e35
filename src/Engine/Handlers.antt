-- ===== src/Engine/Handlers.antt =====
-- The calls of src/engine.rs that a ring or a reply causes. `pause_endpoint` and `finish` hold the lock
-- from start to end; the others give it up before they unlink.
use usbip_macos.Prelude.{
  ℕ, Bool, true, false, not, ◌&&◌, ◌||◌, List, [], ◌∷◌, ◌++◌, Option, none, some, ◌==◌,
  if◌then◌else◌, bit_and, Result, ok, err,
}
use usbip_macos.Prelude.Int.{ℤ, pos, negsuc}
use usbip_macos.Protocol.Types.{Speed, dir_out, port_reset_setup}
use usbip_macos.Client.State.{
  SubmitRequest, new_request, reset_timed_out, TransferError, unlinked, disconnected, bad_request,
  reset_failed, TransferResult, completed, failed,
}
use usbip_macos.Engine.Types.{Ring, Link, InFlight, Work, Engine, address_of}
use usbip_macos.Engine.Pump.{is_finished, set_in_flight, unlink_flights, pump}
use usbip_macos.Engine.Table.{on_endpoint}

-- Whether a pause unlinks the reads of the endpoint: not for a control or an OUT endpoint.
unfoldable pub pauses : ℕ → Bool
pauses key = not (bit_and (address_of key) 0x80 == 0 || bit_and (address_of key) 0x7f == 0)

-- The flights before the one with this token, that one, and those after it.
unfoldable pub position : ℕ → List InFlight → Option (List InFlight × (InFlight × List InFlight))
position token [] = none
position token (f ∷ fs) =
    if f.token == token then some ([], (f, fs)) else elim (position token fs) [
      | none ↦ none
      | some (before, (g, after)) ↦ some (f ∷ before, (g, after))
    ]

-- `matches!(result, Err(TransferError::Unlinked(_)))`
unfoldable pub is_unlinked : TransferResult → Bool
is_unlinked (failed (unlinked st)) = true
is_unlinked (failed (disconnected r)) = false
is_unlinked (failed (bad_request r)) = false
is_unlinked (completed ret) = false

-- The status of the reply to a reset.
unfoldable pub reset_status : ℤ → Result TransferError (Unit {0})
reset_status (pos n) = if n == 0 then ok tt else err (bad_request (reset_failed (pos n)))
reset_status (negsuc n) = err (bad_request (reset_failed (negsuc n)))

-- What the blocking wait for the reply gives; `none` is the timeout.
unfoldable pub reset_outcome : Option TransferResult → Result TransferError (Unit {0})
reset_outcome none = err (disconnected reset_timed_out)
reset_outcome (some (completed ret)) = reset_status ret.status
reset_outcome (some (failed e)) = err e

abbrev pub reset_request : SubmitRequest
reset_request = record (new_request 0 dir_out 0) { setup = port_reset_setup }

module _ {S : Type 0} ⦃lk : Link S⦄ where
  open lk use {submit, unlink}

  -- `reply` is what comes back for the seqnum in time, if anything does.
  unfoldable pub reset_device :
      (ℕ → Option TransferResult) → S → Option (Result TransferError (Unit {0}) × S)
  reset_device reply s = elim (submit reset_request s) [
    | none ↦ none
    | some (err e, s') ↦ some (err e, s')
    | some (ok seqnum, s') ↦ some (reset_outcome (reply seqnum), s')
  ]

  unfoldable pub pause_flights : List InFlight → S → Option (List InFlight × S)
  pause_flights [] s = some ([], s)
  pause_flights (f ∷ fs) s =
      if is_finished f || f.unlinking
      then elim (pause_flights fs s) [ none ↦ none | some (gs, s') ↦ some (f ∷ gs, s') ]
      else elim (unlink f.seqnum s) [
        | none ↦ none
        | some s1 ↦ elim (pause_flights fs s1) [
          | none ↦ none
          | some (gs, s') ↦ some (record f { unlinking = true } ∷ gs, s')
        ]
      ]

module _ {R S : Type 0} ⦃lk : Link S⦄ where
  unfoldable pub drop_flights : Work R S → Option (Work R S)
  drop_flights w = elim (unlink_flights w.ep.in_flight w.session) [
    | none ↦ none
    | some s ↦ some (record (set_in_flight w []) { session = s })
  ]

  unfoldable pub reset_endpoint : ℕ → Engine R S → Option (Engine R S)
  reset_endpoint key e =
      on_endpoint (λ w. drop_flights (record w { ep = record w.ep { setup = none } })) key e

  unfoldable pub pause_work : Work R S → Option (Work R S)
  pause_work w = elim (pause_flights w.ep.in_flight w.session) [
    | none ↦ none
    | some (fs, s) ↦ some (record (set_in_flight w fs) { session = s })
  ]

  unfoldable pub pause_endpoint : ℕ → Engine R S → Option (Engine R S)
  pause_endpoint key e = if pauses key then on_endpoint pause_work key e else some e

module _ {R S : Type 0} ⦃rg : Ring R⦄ ⦃lk : Link S⦄ where
  open rg use {current}

  unfoldable pub sync_flights : Work R S → List InFlight → Option (Work R S)
  sync_flights w [] = some w
  sync_flights w (f ∷ fs) = if f.message == (current w.ep.ring).0 then some w else drop_flights w

  unfoldable pub sync_endpoint : ℕ → Engine R S → Option (Engine R S)
  sync_endpoint key e = on_endpoint (λ w. sync_flights w w.ep.in_flight) key e

  unfoldable pub doorbell : Speed → ℕ → ℕ → Engine R S → Option (Engine R S)
  doorbell speed fuel key e = on_endpoint (pump speed fuel false) key e

  -- The reply is kept for its flight, or the reads from it on are cancelled.
  unfoldable pub record_result :
      TransferResult → Work R S → List InFlight × (InFlight × List InFlight) → Option (Work R S)
  record_result result w (before, (f, after)) =
      if f.unlinking && is_unlinked result
      then elim (unlink_flights after w.session) [
        | none ↦ none
        | some s ↦ some (record (set_in_flight w before) { session = s })
      ]
      else some (set_in_flight w (before ++ record f { result = some result } ∷ after))

  unfoldable pub finish_work :
      Speed
      → ℕ
      → TransferResult
      → Work R S
      → Option (List InFlight × (InFlight × List InFlight))
      → Option (Work R S)
  finish_work speed fuel result w none = some w
  finish_work speed fuel result w (some found) = elim (record_result result w found) [
    | none ↦ none
    | some w' ↦ pump speed fuel false w'
  ]

  unfoldable pub finish : Speed → ℕ → ℕ → ℕ → TransferResult → Engine R S → Option (Engine R S)
  finish speed fuel key token result e =
      on_endpoint (λ w. finish_work speed fuel result w (position token w.ep.in_flight)) key e
