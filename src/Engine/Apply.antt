-- ===== src/Engine/Apply.antt =====
-- `apply` of src/engine.rs: the head message is completed with the result of its URB.
use usbip_macos.Prelude.{
  ℕ, ◌/◌, ◌%◌, min, Bool, true, false, ◌&&◌, List, [], ◌∷◌, ◌++◌, Option, none, some, length, take,
  drop, leb, ◌==◌, if◌then◌else◌,
}
use usbip_macos.Protocol.Types.{is_in, IsoPacketDescriptor, RetSubmit}
use usbip_macos.Client.State.{TransferResult, completed, failed}
use usbip_macos.Hci.Messages.{Status, offline, from_urb_status, le_bytes}
use usbip_macos.Hci.Endpoints.{at}
use usbip_macos.Hci.Uas.{hide_uas}
use usbip_macos.Engine.Types.{
  Ring, Stage, control_data, control_status, normal_stage, isochronous_stage, InFlight, Setup, Work,
  Flow, continues, stops, goes_offline,
}
use usbip_macos.Engine.Requests.{error_status, complete}

-- The status and the data and the length of a completion.
pub record Completion : Type 0 where
  pub status : Status
  pub bytes : List ℕ
  pub length : ℕ

-- Linux reports isochronous results per packet.
unfoldable pub status_and_actual : Stage → RetSubmit → List IsoPacketDescriptor → Status × ℕ
status_and_actual isochronous_stage ret (p ∷ ps) = (from_urb_status p.status, p.actual_length)
status_and_actual isochronous_stage ret [] = (from_urb_status ret.status, ret.actual_length)
status_and_actual control_data ret ps = (from_urb_status ret.status, ret.actual_length)
status_and_actual control_status ret ps = (from_urb_status ret.status, ret.actual_length)
status_and_actual normal_stage ret ps = (from_urb_status ret.status, ret.actual_length)

unfoldable pub completion_of : InFlight → TransferResult → Completion
completion_of f (completed ret) =
    let r = status_and_actual f.stage ret ret.iso_packets in
    let n = min r.1 f.length in
    record {
      status = r.0;
      bytes = if is_in f.direction then take n ret.payload else [];
      length = n;
    }
completion_of f (failed e) = record { status = error_status e; bytes = []; length = 0 }

-- GET_DESCRIPTOR(CONFIGURATION)
unfoldable pub gets_configuration : Option Setup → Bool
gets_configuration none = false
gets_configuration (some s) = at s.bytes 0 == 0x80 && (at s.bytes 1 == 0x06 && at s.bytes 3 == 2)

-- A read too short to reach the interfaces gets the total length that the full read has.
unfoldable pub patch_total : Option (ℕ × ℕ) → List ℕ → List ℕ
patch_total none bytes = bytes
patch_total (some (original, hidden)) bytes =
    if leb 4 (length bytes) && (at bytes 2 == original % 256 && at bytes 3 == original / 256 % 256)
    then take 2 bytes ++ (le_bytes 2 hidden ++ drop 4 bytes)
    else bytes

unfoldable pub set_data_done : Option Setup → Option Setup
set_data_done none = none
set_data_done (some s) = some (record s { data_done = true })

module _ {R S : Type 0} where
  -- What is left of the data of a configuration, and the endpoint after it. `none` if `hide_uas` runs
  -- out of fuel.
  unfoldable pub filter_configuration :
      Work R S → List ℕ → Option (Option (ℕ × ℕ) × List ℕ) → Option (List ℕ × Work R S)
  filter_configuration w bytes none = none
  filter_configuration w bytes (some (some totals, out)) =
      some (out, record w { ep = record w.ep { hidden_config = some totals }; uas_warned = true })
  filter_configuration w bytes (some (none, out)) = some (patch_total w.ep.hidden_config out, w)

  unfoldable pub filter_control : Work R S → List ℕ → Option (List ℕ × Work R S)
  filter_control w bytes =
      if gets_configuration w.ep.setup
      then filter_configuration w bytes (hide_uas bytes)
      else some (bytes, w)

  -- The part of `apply` that depends on the stage: the data and the length to complete with.
  unfoldable pub finish_stage : Stage → Work R S → Completion → Option (Completion × Work R S)
  finish_stage control_data w c =
      elim (filter_control (record w { ep = record w.ep { setup = set_data_done w.ep.setup } })
        c.bytes) [
          | none ↦ none
          | some (bytes, w') ↦ some (
            record c {
              bytes = bytes;
              length =
                  if gets_configuration w'.ep.setup then min c.length (length bytes) else c.length;
            },
            w',
          )
        ]
  finish_stage control_status w c = some (c, record w { ep = record w.ep { setup = none } })
  finish_stage normal_stage w c = some (c, w)
  finish_stage isochronous_stage w c = some (c, w)

unfoldable pub flow_of : Bool → Status → Flow
flow_of false st = stops
flow_of true offline = goes_offline
flow_of true st = continues

module _ {R S : Type 0} ⦃rg : Ring R⦄ where
  unfoldable pub complete_work : Work R S → Completion → Flow × Work R S
  complete_work w c =
      let r = complete w.ep c.status c.bytes c.length in
      (flow_of r.0 c.status, record w { ep = r.1 })

  -- `none` if `hide_uas` runs out of fuel, which it does not.
  unfoldable pub apply : Work R S → InFlight → TransferResult → Option (Flow × Work R S)
  apply w f result = elim (finish_stage f.stage w (completion_of f result)) [
    | none ↦ none
    | some (c, w') ↦ some (complete_work w' c)
  ]
