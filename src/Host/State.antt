-- ===== src/Host/State.antt =====
-- The state of src/host.rs, and what the calls of the operating system give while a command is
-- handled. A state machine of the system is a number.
use usbip_macos.Prelude.{ℕ, Bool, List, Option}
use usbip_macos.Protocol.Types.{Speed, unknown, low, full, high, wireless, super, super_plus}
use usbip_macos.Client.State.{TransferResult}
use usbip_macos.Hci.Messages.{
  Status, success, offline, timeout, endpoint_stopped, protocol_failure, transaction_error,
  overrun_error, stall_error, error,
}
use usbip_macos.Hci.Addresses.{AddressPool}
use usbip_macos.Engine.Types.{Engine}

-- `IOUSBHostCIMessageStatus`
pub data CiStatus : Type 0 where
  ci_success ci_offline ci_timeout ci_endpoint_stopped ci_protocol_error : CiStatus
  ci_transaction_error ci_overrun_error ci_stall_error ci_no_resources ci_error : CiStatus

unfoldable pub ci_status : Status → CiStatus
ci_status success = ci_success
ci_status offline = ci_offline
ci_status timeout = ci_timeout
ci_status endpoint_stopped = ci_endpoint_stopped
ci_status protocol_failure = ci_protocol_error
ci_status transaction_error = ci_transaction_error
ci_status overrun_error = ci_overrun_error
ci_status stall_error = ci_stall_error
ci_status error = ci_error

-- `IOUSBHostCIDeviceSpeed`
pub data CiSpeed : Type 0 where
  ci_low ci_full ci_high ci_super ci_super_plus : CiSpeed

unfoldable pub ci_speed : Speed → CiSpeed
ci_speed low = ci_low
ci_speed full = ci_full
ci_speed unknown = ci_full
ci_speed high = ci_high
ci_speed wireless = ci_high
ci_speed super = ci_super
ci_speed super_plus = ci_super_plus

-- What is sent back for a command: a status, with the frame and its time, or with the address of a new
-- device.
pub data Answer : Type 0 where
  answers_status : CiStatus → Answer
  answers_frame : CiStatus → ℕ → ℕ → Answer
  answers_address : CiStatus → ℕ → Answer

pub data CommandError : Type 0 where
  rejected failed_call out_of_addresses : CommandError
  unknown_device : ℕ → CommandError
  unknown_endpoint : ℕ → CommandError

-- What the calls of the operating system return for one command: whether the state machine takes it,
-- and the answer to it; the state machines that are made for it; the memory that it points at; the
-- readings of the time; and the reply to a reset, if it comes in time. With an answer the system may
-- change rings: `ring_after` is what the ring of a key becomes.
pub record Calls (R : Type 0) : Type 0 where
  pub inspected : Bool
  pub responded : Answer → Bool
  pub port : Bool
  pub link_updated : Bool
  pub new_device : Option ℕ
  pub new_endpoint_machine : Option (ℕ × ℕ × ℕ)
  pub memory : ℕ → ℕ → List ℕ
  pub ticks : ℕ → ℕ
  pub reset_reply : ℕ → Option TransferResult
  pub ring_after : ℕ → R → R

-- `Shared`, and the answers that were sent, in order.
pub record Shared (R S : Type 0) : Type 0 where
  pub engine : Engine R S
  pub speed : CiSpeed
  pub last_frame : Option ℕ
  pub devices : List (ℕ × ℕ)
  pub endpoints : List (ℕ × ℕ)
  pub addresses : AddressPool
  pub powered : Bool
  pub enumerated : Bool
  pub answers : List Answer
