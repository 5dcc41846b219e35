-- ===== src/Host/Answers.antt =====
-- How src/host.rs answers a command, and reads what it points at.
use usbip_macos.Prelude.{
  ℕ, min, max, Bool, true, false, List, [], ◌∷◌, ◌++◌, Option, none, some, ◌==◌, if◌then◌else◌,
  Result, ok, err,
}
use usbip_macos.Hci.Messages.{RawMessage}
use usbip_macos.Hci.Endpoints.{EndpointInfo, control_endpoint, at, u16_le, parse}
use usbip_macos.Engine.Types.{Endpoint, Engine, device_of}
use usbip_macos.Host.State.{
  CiStatus, ci_success, ci_error, Answer, CommandError, rejected, failed_call, Calls, Shared,
}

-- How much of the memory is read.
unfoldable pub descriptor_length : List ℕ → ℕ
descriptor_length head =
    if at head 1 == 2 then max 4 (min (u16_le (at head 2) (at head 3)) 512) else 7

-- `unwrap_or(EndpointInfo::CONTROL)`. The outer option is `none` if `parse` runs out of fuel, which it
-- does not.
unfoldable pub or_control : Option (Option EndpointInfo) → Option EndpointInfo
or_control none = none
or_control (some none) = some control_endpoint
or_control (some (some info)) = some info

unfoldable pub endpoint_descriptor : (ℕ → ℕ → List ℕ) → RawMessage → Option EndpointInfo
endpoint_descriptor memory msg =
    if msg.data1 == 0
    then some control_endpoint
    else or_control (parse 2 (memory msg.data1 (descriptor_length (memory msg.data1 4))))

-- How a command ends: its result and the state, if it returns.
abbrev pub Outcome : Type 0 → Type 0 → Type 0
Outcome R S = Option (Result CommandError (Unit {0}) × Shared R S)

unfoldable pub status_of : Result CommandError (Unit {0}) → CiStatus
status_of (ok u) = ci_success
status_of (err e) = ci_error

-- What the system makes of the rings.
unfoldable pub move_rings :
    {R : Type 0} → (ℕ → R → R) → List (ℕ × Endpoint R) → List (ℕ × Endpoint R)
move_rings after [] = []
move_rings after ((k, ep) ∷ m) = (k, record ep { ring = after k ep.ring }) ∷ move_rings after m

module _ {R S : Type 0} where
  -- An answer is sent; the result says whether the system took it.
  unfoldable pub respond : Calls R → Answer → Shared R S → Bool × Shared R S
  respond calls a s = (
    calls.responded a,
    record s {
      answers = s.answers ++ a ∷ [];
      engine = record s.engine { endpoints = move_rings calls.ring_after s.engine.endpoints };
    },
  )

  -- `respond(status).map_err(describe)?; result`
  unfoldable pub conclude :
      Result CommandError (Unit {0})
      → Bool × Shared R S
      → Result CommandError (Unit {0}) × Shared R S
  conclude result (true, s) = (result, s)
  conclude result (false, s) = (err failed_call, s)

  -- `answer`, where `wrap` makes the answer from the status.
  unfoldable pub answer :
      Calls R → (CiStatus → Answer) → (Shared R S → Outcome R S) → Shared R S → Outcome R S
  answer calls wrap act s =
      if calls.inspected
      then elim (act s) [
        | none ↦ none
        | some (result, s') ↦ some (conclude result (respond calls (wrap (status_of result)) s'))
      ]
      else some (err rejected, (respond calls (wrap ci_error) s).1)

  -- A call of the engine.
  unfoldable pub with_engine : Shared R S → Option (Engine R S) → Outcome R S
  with_engine s none = none
  with_engine s (some e) = some (ok tt, record s { engine = e })

  abbrev pub no_act : Shared R S → Outcome R S
  no_act s = some (ok tt, s)

-- `retain(|k, _| k.0 != address)`
unfoldable pub retain_others : ℕ → List (ℕ × ℕ) → List (ℕ × ℕ)
retain_others address [] = []
retain_others address ((k, sm) ∷ m) =
    let rest = retain_others address m in if device_of k == address then rest else (k, sm) ∷ rest

-- The keys of a device.
unfoldable pub keys_of : ℕ → List ℕ → List ℕ
keys_of address [] = []
keys_of address (k ∷ ks) =
    let rest = keys_of address ks in if device_of k == address then k ∷ rest else rest
