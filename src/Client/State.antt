-- ===== src/Client/State.antt =====
-- The types of src/client.rs. A oneshot channel is a number, counted by `opened` in the order of
-- creation, and `answers` lists what has been sent on such channels, newest first. `frames` is the
-- unbounded channel to the writer, oldest first. The mutex is not modelled: each function below is
-- one critical section, or a sequence of them.
use usbip_macos.Prelude.{ℕ, List, [], ◌∷◌, Option, none, length}
use usbip_macos.Prelude.Int.{ℤ}
use usbip_macos.Wire.{IoError}
use usbip_macos.Protocol.Types.{Direction, IsoPacketDescriptor, RetSubmit, ProtocolError}

pub record SubmitRequest : Type 0 where
  pub ep : ℕ
  pub direction : Direction
  pub transfer_flags : ℕ
  pub length : ℕ
  pub setup : List ℕ
  pub payload : List ℕ
  pub start_frame : ℕ
  pub interval : ℕ
  pub iso_packets : List IsoPacketDescriptor

-- `SubmitRequest::new`
abbrev pub new_request : ℕ → Direction → ℕ → SubmitRequest
new_request ep direction length = record {
  ep = ep;
  direction = direction;
  transfer_flags = 0;
  length = length;
  setup = 0 ∷ 0 ∷ 0 ∷ 0 ∷ 0 ∷ 0 ∷ 0 ∷ 0 ∷ [];
  payload = [];
  start_frame = 0;
  interval = 0;
  iso_packets = [];
}

-- Why a session is closed, or a device reset has no answer, a constructor for each message.
pub data CloseReason : Type 0 where
  closed_by_client server_closed reset_timed_out : CloseReason
  write_failed : IoError → CloseReason
  protocol_error : ProtocolError → CloseReason

-- The messages of `TransferError::Invalid`.
pub data BadRequest : Type 0 where
  out_length : ℕ → ℕ → BadRequest
  in_with_data : BadRequest
  reset_failed : ℤ → BadRequest

pub data TransferError : Type 0 where
  unlinked : ℤ → TransferError
  disconnected : CloseReason → TransferError
  bad_request : BadRequest → TransferError

pub data TransferResult : Type 0 where
  completed : RetSubmit → TransferResult
  failed : TransferError → TransferResult

pub record PendingSubmit : Type 0 where
  pub direction : Direction
  pub length : ℕ
  pub reply : ℕ

-- The seqnum, direction and length of a transfer that a RET_UNLINK has resolved.
pub record Unlinked : Type 0 where
  pub seqnum : ℕ
  pub direction : Direction
  pub length : ℕ

pub record State : Type 0 where
  pub next_seqnum : ℕ
  pub submits : List (ℕ × PendingSubmit)
  pub unlinks : List (ℕ × ℕ)
  pub unlinked : List Unlinked
  pub closed : Option CloseReason

-- `Shared`: the state, the ends of the channels that it holds, and what was sent on them.
pub record Shared : Type 0 where
  pub devid : ℕ
  pub state : State
  pub frames : List (List ℕ)
  pub closed_tx : Option CloseReason
  pub opened : ℕ
  pub answers : List (ℕ × TransferResult)

-- `State::default`
abbrev pub default_state : State
default_state = record { next_seqnum = 0; submits = []; unlinks = []; unlinked = []; closed = none }

-- What `Session::start` shares between the tasks.
unfoldable pub start : ℕ → Shared
start devid = record {
  devid = devid;
  state = default_state;
  frames = [];
  closed_tx = none;
  opened = 0;
  answers = [];
}
