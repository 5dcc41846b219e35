-- ===== src/Engine/Requests.antt =====
-- What src/engine.rs makes of the messages of a ring.
use usbip_macos.Prelude.{
  ℕ, min, max, Bool, true, false, not, List, [], ◌∷◌, Option, none, some, ◌==◌, if◌then◌else◌,
  bit_and, bit_or,
}
use usbip_macos.Prelude.Int.{pos}
use usbip_macos.Protocol.Types.{
  Direction, dir_in, dir_out, is_out, of_endpoint, Speed, urb_iso_asap,
}
use usbip_macos.Client.State.{
  SubmitRequest, new_request, TransferError, unlinked, disconnected, bad_request,
}
use usbip_macos.Hci.Messages.{
  Transfer, setup, normal, status, isochronous, link_to, other, Status, success, offline,
  endpoint_stopped, error,
}
use usbip_macos.Hci.Endpoints.{at, u16_le, urb_interval}
use usbip_macos.Engine.Types.{
  Ring, Stage, control_data, control_status, normal_stage, isochronous_stage, Setup, Endpoint,
  address_of, Next, continues_next, stops_next, submits,
}

unfoldable pub error_status : TransferError → Status
error_status (disconnected reason) = offline
error_status (unlinked st) = endpoint_stopped
error_status (bad_request reason) = error

-- `key.1 & 0x7f == 0`
unfoldable pub is_control : ℕ → Bool
is_control key = bit_and (address_of key) 0x7f == 0

-- The direction of a control transfer, from its setup packet.
unfoldable pub setup_direction : List ℕ → Direction
setup_direction bytes = if not (bit_and (at bytes 0) 0x80 == 0) then dir_in else dir_out

module _ {R : Type 0} ⦃rg : Ring R⦄ where
  open rg use {read, complete_head}

  unfoldable pub complete : Endpoint R → Status → List ℕ → ℕ → Bool × Endpoint R
  complete ep st bytes length =
      let r = complete_head st bytes length ep.ring in (r.0, record ep { ring = r.1 })

  -- The data of an OUT transfer, from the buffer of the message `ahead` of the head.
  unfoldable pub out_data : Endpoint R → Direction → ℕ → ℕ → List ℕ
  out_data ep direction ahead length = if is_out direction then read ep.ring ahead length else []

  unfoldable pub control_request : Endpoint R → List ℕ → ℕ → SubmitRequest
  control_request ep bytes length =
      let direction = setup_direction bytes in
      record (new_request 0 direction length) {
        setup = bytes;
        payload = out_data ep direction 0 length;
      }

  unfoldable pub data_request :
      Speed → Endpoint R → ℕ → ℕ → Transfer → Option (SubmitRequest × Stage)
  data_request speed ep key ahead (normal length) =
      let direction = of_endpoint (address_of key) in
      some (
        record (new_request (address_of key) direction length) {
          interval = urb_interval ep.info speed;
          payload = out_data ep direction ahead length;
        },
        normal_stage,
      )
  data_request speed ep key ahead (isochronous length frame) =
      let direction = of_endpoint (address_of key) in
      some (
        record (new_request (address_of key) direction length) {
          payload = out_data ep direction ahead length;
          start_frame = elim frame [ some f ↦ f | none ↦ 0 ];
          transfer_flags = elim frame [ some f ↦ 0 | none ↦ bit_or 0 urb_iso_asap ];
          interval = max (urb_interval ep.info speed) 1;
          iso_packets =
              record { offset = 0; length = length; actual_length = 0; status = pos 0 } ∷ [];
        },
        isochronous_stage,
      )
  data_request speed ep key ahead t = none

  -- `continue_if`, with the endpoint after the completion.
  unfoldable pub continue_if : Bool × Endpoint R → Next × Endpoint R
  continue_if (true, ep) = (continues_next, ep)
  continue_if (false, ep) = (stops_next, ep)

  unfoldable pub control_data_stage : Endpoint R → ℕ → Option Setup → Next × Endpoint R
  control_data_stage ep length none = continue_if (complete ep error [] 0)
  control_data_stage ep length (some s) =
      if s.data_done then continue_if (complete ep error [] 0) else (
        submits (control_request ep s.bytes (min length (u16_le (at s.bytes 6) (at s.bytes 7))))
            control_data,
        ep,
      )

  unfoldable pub control_status_stage : Endpoint R → Option Setup → Next × Endpoint R
  control_status_stage ep none = continue_if (complete (record ep { setup = none }) success [] 0)
  control_status_stage ep (some s) =
      if s.data_done
      then continue_if (complete (record ep { setup = none }) success [] 0)
      else (submits (control_request ep s.bytes 0) control_status, ep)

  unfoldable pub submit_data : Endpoint R → Option (SubmitRequest × Stage) → Next × Endpoint R
  submit_data ep none = (stops_next, ep)
  submit_data ep (some (req, stage)) = (submits req stage, ep)

  unfoldable pub head_request : Speed → Endpoint R → ℕ → Transfer → Next × Endpoint R
  head_request speed ep key (setup bytes) =
      if is_control key
      then continue_if (
          complete (record ep { setup = some (record { bytes = bytes; data_done = false }) })
            success [] 0)
      else continue_if (complete ep error [] 0)
  head_request speed ep key (normal length) =
      if is_control key
      then control_data_stage ep length ep.setup
      else submit_data ep (data_request speed ep key 0 (normal length))
  head_request speed ep key status =
      if is_control key
      then control_status_stage ep ep.setup
      else continue_if (complete ep error [] 0)
  head_request speed ep key (isochronous length frame) =
      if is_control key
      then continue_if (complete ep error [] 0)
      else submit_data ep (data_request speed ep key 0 (isochronous length frame))
  head_request speed ep key (link_to needs_response) =
      if needs_response then continue_if (complete ep success [] 0) else (stops_next, ep)
  head_request speed ep key (other kind) = continue_if (complete ep error [] 0)
