-- ===== src/Host/Commands.antt =====
-- The commands and doorbells of src/host.rs. `none` is a call of the engine or of the clock that does
-- not return.
use usbip_macos.Prelude.{
  ℕ, ◌%◌, Bool, true, false, List, [], ◌∷◌, Option, none, some, Result, leb, ◌&&◌, ◌==◌,
  if◌then◌else◌, ok, err,
}
use usbip_macos.Prelude.Maps.{lookup, insert, remove, keys}
use usbip_macos.Protocol.Types.{Speed}
use usbip_macos.Client.State.{TransferError}
use usbip_macos.Hci.Constants.{
  controller_power_on, controller_pause, controller_frame_number, port_power_on, port_reset,
  port_status, device_create, device_destroy, device_pause, device_update, endpoint_create,
  endpoint_destroy, endpoint_pause, endpoint_update, endpoint_reset, endpoint_set_next_transfer,
}
use usbip_macos.Hci.Messages.{
  RawMessage, message_type, device_address, endpoint_address, decode_doorbell,
}
use usbip_macos.Hci.Addresses.{AddressPool, allocate, release}
use usbip_macos.Hci.Endpoints.{EndpointInfo}
use usbip_macos.Engine.Types.{Ring, Link, Engine, endpoint_key}
use usbip_macos.Engine.Table.{
  on_endpoint, add_endpoint, update_endpoint, remove_endpoint, remove_device,
}
use usbip_macos.Engine.Handlers.{
  reset_device, reset_endpoint, pause_endpoint, sync_endpoint, doorbell,
}
use usbip_macos.Host.State.{
  ci_success, ci_no_resources, answers_status, answers_frame, answers_address, failed_call,
  out_of_addresses, unknown_device, unknown_endpoint, Calls, Shared,
}
use usbip_macos.Host.Clock.{Timebase, next}
use usbip_macos.Host.Answers.{
  endpoint_descriptor, Outcome, respond, answer, with_engine, no_act, retain_others, keys_of,
}

module _ {R S : Type 0} ⦃rg : Ring R⦄ ⦃lk : Link S⦄ where
  unfoldable pub controller_command : Calls R → Shared R S → Outcome R S
  controller_command calls s = answer calls answers_status no_act s

  -- The answer carries the frame and its time.
  unfoldable pub answer_frame : Calls R → Shared R S → Option ((ℕ × ℕ) × Option ℕ × ℕ) → Outcome R S
  answer_frame calls s none = none
  answer_frame calls s (some ((frame, now), last, j)) =
      answer calls (λ st. answers_frame st frame now) no_act (record s { last_frame = last })

  unfoldable pub frame_command : Timebase → ℕ → Calls R → Shared R S → Outcome R S
  frame_command tb fuel calls s = answer_frame calls s (next tb calls.ticks fuel s.last_frame 0)

  -- The state of the link after a reset.
  unfoldable pub update_link : Calls R → Shared R S → Outcome R S
  update_link calls s = some (if calls.link_updated then ok tt else err failed_call, s)

  -- A failed reset is only logged.
  unfoldable pub device_reset :
      Calls R → Shared R S → Option (Result TransferError (Unit {0}) × S) → Outcome R S
  device_reset calls s none = none
  device_reset calls s (some (result, session)) =
      update_link calls (record s { engine = record s.engine { session = session } })

  -- The device is not reset before macOS has created it.
  unfoldable pub reset_port : Calls R → Shared R S → Outcome R S
  reset_port calls s =
      if s.enumerated
      then device_reset calls s (reset_device calls.reset_reply s.engine.session)
      else update_link calls s

  unfoldable pub port_act : Calls R → ℕ → Shared R S → Outcome R S
  port_act calls kind s = if kind == port_reset then reset_port calls s else no_act s

  unfoldable pub port_done : ℕ → Outcome R S → Outcome R S
  port_done kind none = none
  port_done kind (some (err e, s)) = some (err e, s)
  port_done kind (some (ok u, s)) =
      some (ok tt, if kind == port_power_on then record s { powered = true } else s)

  unfoldable pub port_command : Calls R → ℕ → Shared R S → Outcome R S
  port_command calls kind s =
      if calls.port
      then port_done kind (answer calls answers_status (port_act calls kind) s)
      else some (err failed_call, s)

  -- The new device has its address, or it is given back.
  unfoldable pub device_answered : ℕ → ℕ → Bool × Shared R S → Outcome R S
  device_answered address sm (true, s) =
      some (ok tt, record s { enumerated = true; devices = insert address sm s.devices })
  device_answered address sm (false, s) =
      some (err failed_call, record s { addresses = release address s.addresses })

  unfoldable pub address_device : Calls R → ℕ → Shared R S → Option (ℕ × AddressPool) → Outcome R S
  address_device calls sm s none =
      some (err out_of_addresses, (respond calls (answers_status ci_no_resources) s).1)
  address_device calls sm s (some (address, pool)) =
      device_answered address sm
        (respond calls (answers_address ci_success address) (record s { addresses = pool }))

  unfoldable pub create_device : Calls R → Option ℕ → Shared R S → Outcome R S
  create_device calls none s = some (err failed_call, s)
  create_device calls (some sm) s = address_device calls sm s (allocate s.addresses)

  unfoldable pub device_removed : ℕ → Shared R S → Option (Engine R S) → Outcome R S
  device_removed address s none = none
  device_removed address s (some e) = some (
    ok tt,
    record s {
      engine = e;
      endpoints = retain_others address s.endpoints;
      devices = remove address s.devices;
      addresses = release address s.addresses;
    },
  )

  unfoldable pub destroy_device : ℕ → Shared R S → Outcome R S
  destroy_device address s = device_removed address s (remove_device address s.engine)

  unfoldable pub pause_endpoints : List ℕ → Engine R S → Option (Engine R S)
  pause_endpoints [] e = some e
  pause_endpoints (k ∷ ks) e = elim (pause_endpoint k e) [
    | none ↦ none
    | some e' ↦ pause_endpoints ks e'
  ]

  unfoldable pub device_act : ℕ → ℕ → Shared R S → Outcome R S
  device_act kind address s =
      if kind == device_destroy
      then destroy_device address s
      else if kind == device_pause
      then with_engine s (pause_endpoints (keys_of address (keys s.endpoints)) s.engine)
      else no_act s

  unfoldable pub device_command : Calls R → ℕ → ℕ → Option ℕ → Shared R S → Outcome R S
  device_command calls kind address none s = some (err (unknown_device address), s)
  device_command calls kind address (some sm) s =
      answer calls answers_status (device_act kind address) s

  -- The state machine of a new endpoint, which the engine gets as a ring.
  unfoldable pub endpoint_answered :
      (ℕ → R) → ℕ → ℕ → Option EndpointInfo → Bool × Shared R S → Outcome R S
  endpoint_answered ring_of key sm info (false, s) = some (err failed_call, s)
  endpoint_answered ring_of key sm none (true, s) = none
  endpoint_answered ring_of key sm (some info) (true, s) =
      with_engine (record s { endpoints = insert key sm s.endpoints })
        (add_endpoint key info (ring_of sm) s.engine)

  unfoldable pub create_endpoint :
      (ℕ → R) → Calls R → RawMessage → Option (ℕ × ℕ × ℕ) → Shared R S → Outcome R S
  create_endpoint ring_of calls msg none s = some (err failed_call, s)
  create_endpoint ring_of calls msg (some (sm, device, address)) s =
      endpoint_answered ring_of (endpoint_key (device % 256) (address % 256)) sm
        (endpoint_descriptor calls.memory msg) (respond calls (answers_status ci_success) s)

  unfoldable pub destroy_endpoint : ℕ → Shared R S → Outcome R S
  destroy_endpoint key s =
      with_engine (record s { endpoints = remove key s.endpoints }) (remove_endpoint key s.engine)

  unfoldable pub change_endpoint : ℕ → Shared R S → Option EndpointInfo → Outcome R S
  change_endpoint key s none = none
  change_endpoint key s (some info) = with_engine s (update_endpoint key info s.engine)

  unfoldable pub endpoint_act : Calls R → RawMessage → ℕ → ℕ → Shared R S → Outcome R S
  endpoint_act calls msg kind key s =
      if kind == endpoint_destroy
      then destroy_endpoint key s
      else if kind == endpoint_pause
      then with_engine s (pause_endpoint key s.engine)
      else if kind == endpoint_update
      then change_endpoint key s (endpoint_descriptor calls.memory msg)
      else if kind == endpoint_reset
      then with_engine s (reset_endpoint key s.engine)
      else no_act s

  unfoldable pub endpoint_done : ℕ → ℕ → Outcome R S → Outcome R S
  endpoint_done kind key none = none
  endpoint_done kind key (some (err e, s)) = some (err e, s)
  endpoint_done kind key (some (ok u, s)) =
      if kind == endpoint_set_next_transfer
      then with_engine s (sync_endpoint key s.engine)
      else some (ok tt, s)

  unfoldable pub endpoint_command :
      Calls R → RawMessage → ℕ → ℕ → Option ℕ → Shared R S → Outcome R S
  endpoint_command calls msg kind key none s = some (err (unknown_endpoint key), s)
  endpoint_command calls msg kind key (some sm) s =
      endpoint_done kind key (answer calls answers_status (endpoint_act calls msg kind key) s)

-- `first..=last`
abbrev pub within : ℕ → ℕ → ℕ → Bool
within first last kind = leb first kind && leb kind last

module _ {R S : Type 0} ⦃rg : Ring R⦄ ⦃lk : Link S⦄ (ring_of : ℕ → R) (tb : Timebase)
    (fuel : ℕ) where
  unfoldable pub command : Calls R → RawMessage → Shared R S → Outcome R S
  command calls msg s =
      let kind = message_type msg in
      let device = device_address msg in
      let key = endpoint_key (device_address msg) (endpoint_address msg) in
      if within controller_power_on controller_pause kind
      then controller_command calls s
      else if kind == controller_frame_number
      then frame_command tb fuel calls s
      else if within port_power_on port_status kind
      then port_command calls kind s
      else if kind == device_create
      then create_device calls calls.new_device s
      else if within device_destroy device_update kind
      then device_command calls kind device (lookup device s.devices) s
      else if kind == endpoint_create
      then create_endpoint ring_of calls msg calls.new_endpoint_machine s
      else if within endpoint_destroy endpoint_set_next_transfer kind
      then endpoint_command calls msg kind key (lookup key s.endpoints) s
      else some (ok tt, s)

module _ {R S : Type 0} ⦃rg : Ring R⦄ ⦃lk : Link S⦄ where
  -- The ring of an endpoint, once its state machine has processed the doorbell.
  unfoldable pub set_ring : ℕ → R → Engine R S → Option (Engine R S)
  set_ring key r e = on_endpoint (λ w. some (record w { ep = record w.ep { ring = r } })) key e

  unfoldable pub run_doorbell :
      Speed → ℕ → ℕ → Shared R S → Option (Engine R S) → Option (Shared R S)
  run_doorbell speed fuel key s none = none
  run_doorbell speed fuel key s (some e) = elim (doorbell speed fuel key e) [
    | none ↦ none
    | some e' ↦ some (record s { engine = e' })
  ]

  unfoldable pub ring_bell : Speed → ℕ → ℕ → Shared R S → Option R → Option (Shared R S)
  ring_bell speed fuel key s none = some s
  ring_bell speed fuel key s (some r) = run_doorbell speed fuel key s (set_ring key r s.engine)

  -- `processed` is what the state machine of a key makes of the doorbell, unless it refuses it.
  unfoldable pub known_doorbell :
      Speed → ℕ → (ℕ → Option R) → ℕ → Option ℕ → Shared R S → Option (Shared R S)
  known_doorbell speed fuel processed key none s = some s
  known_doorbell speed fuel processed key (some sm) s = ring_bell speed fuel key s (processed key)

  unfoldable pub handle_doorbell : Speed → ℕ → (ℕ → Option R) → ℕ → Shared R S → Option (Shared R S)
  handle_doorbell speed fuel processed bell s =
      let d = decode_doorbell bell in
      let key = endpoint_key d.0 d.1.0 in
      known_doorbell speed fuel processed key (lookup key s.endpoints) s
