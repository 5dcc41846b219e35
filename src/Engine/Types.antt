-- ===== src/Engine/Types.antt =====
-- The types of src/engine.rs, and what it uses of a ring and of a session. A key is the number of
-- its two bytes, `device + 256 * endpoint address`.
use usbip_macos.Prelude.{ℕ, ◌/◌, ◌%◌, ◌+◌, ◌*◌, Bool, List, Option, Result}
use usbip_macos.Protocol.Types.{Direction}
use usbip_macos.Client.State.{SubmitRequest, TransferError, TransferResult}
use usbip_macos.Hci.Messages.{Transfer, Status}
use usbip_macos.Hci.Endpoints.{EndpointInfo, EndpointKind, control, isochronous, bulk, interrupt}

-- The trait `Ring`. What only looks at the ring leaves it as it is. The error of `complete` is a
-- message for the log.
pub record Ring (R : Type 0) : Type 0 where
  pub active : R → Bool
  pub current : R → ℕ × Option Transfer
  pub peek : R → ℕ → Option (ℕ × Transfer)
  pub read : R → ℕ → ℕ → List ℕ
  pub complete_head : Status → List ℕ → ℕ → R → Bool × R

-- What the engine calls of `Session`. `none` is a call that does not return.
pub record Link (S : Type 0) : Type 0 where
  pub submit : SubmitRequest → S → Option (Result TransferError ℕ × S)
  pub unlink : ℕ → S → Option S

abbrev pub endpoint_key : ℕ → ℕ → ℕ
endpoint_key device address = device + 256 * address

abbrev pub device_of : ℕ → ℕ
device_of key = key % 256

abbrev pub address_of : ℕ → ℕ
address_of key = key / 256

unfoldable pub depth : EndpointKind → ℕ
depth isochronous = 32
depth bulk = 8
depth control = 1
depth interrupt = 1

pub data Stage : Type 0 where
  control_data control_status normal_stage isochronous_stage : Stage

pub record InFlight : Type 0 where
  pub token : ℕ
  pub message : ℕ
  pub stage : Stage
  pub direction : Direction
  pub length : ℕ
  pub seqnum : ℕ
  pub unlinking : Bool
  pub result : Option TransferResult

pub record Setup : Type 0 where
  pub bytes : List ℕ
  pub data_done : Bool

pub record Endpoint (R : Type 0) : Type 0 where
  pub ring : R
  pub info : EndpointInfo
  pub in_flight : List InFlight
  pub setup : Option Setup
  pub hidden_config : Option (ℕ × ℕ)

-- A task that waits for the reply to `seqnum` and then calls `finish` with the key and the token.
pub record Task : Type 0 where
  pub key : ℕ
  pub token : ℕ
  pub seqnum : ℕ

-- `State` and what `Inner` holds beside it, for a session `S`.
pub record Engine (R S : Type 0) : Type 0 where
  pub endpoints : List (ℕ × Endpoint R)
  pub next_token : ℕ
  pub session : S
  pub uas_warned : Bool
  pub tasks : List Task

-- One endpoint, borrowed from the engine's map while the lock is held, and the rest of the engine's
-- state.
pub record Work (R S : Type 0) : Type 0 where
  pub key : ℕ
  pub ep : Endpoint R
  pub next_token : ℕ
  pub session : S
  pub uas_warned : Bool
  pub tasks : List Task

-- How a round of the loop of `pump` ends: it goes on, with the flag that the connection is gone, or
-- it returns.
pub data Turn (R S : Type 0) : Type 0 where
  goes_on : Bool → Work R S → Turn R S
  ends : Work R S → Turn R S

pub data Flow : Type 0 where
  continues stops goes_offline : Flow

pub data Next : Type 0 where
  continues_next stops_next : Next
  submits : SubmitRequest → Stage → Next

-- How a call of `submit` ends. After `pump_again` the caller pumps, as the code does before it
-- returns that nothing is in flight.
pub data Submitted (R S : Type 0) : Type 0 where
  submitted refused pump_again : Work R S → Submitted R S
