-- ===== src/Hci/Messages.antt =====
-- The messages, doorbells and statuses of src/hci.rs. A shift to the right is a quotient, and the
-- cast to `u8` a remainder.
use usbip_macos.Prelude.{
  ℕ, zero, suc, ◌/◌, ◌%◌, ◌^◌, Bool, not, List, [], ◌∷◌, Option, none, some, ◌==◌, if◌then◌else◌,
  bit_and,
}
use usbip_macos.Prelude.Int.{ℤ, pos, negsuc}
use usbip_macos.Hci.Constants.{
  control_type_mask, control_valid, control_no_response, transfer_length_mask, iso_control_asap,
  iso_control_frame_mask, iso_control_frame_shift, setup_transfer, normal_transfer, status_transfer,
  isochronous_transfer, link,
}

pub record RawMessage : Type 0 where
  pub control : ℕ
  pub data0 : ℕ
  pub data1 : ℕ

unfoldable pub message_type : RawMessage → ℕ
message_type msg = bit_and msg.control control_type_mask

unfoldable pub is_valid : RawMessage → Bool
is_valid msg = not (bit_and msg.control control_valid == 0)

unfoldable pub needs_response : RawMessage → Bool
needs_response msg = bit_and msg.control control_no_response == 0

unfoldable pub device_address : RawMessage → ℕ
device_address msg = msg.data0 % 256

unfoldable pub endpoint_address : RawMessage → ℕ
endpoint_address msg = msg.data0 / 2 ^ 8 % 256

unfoldable pub transfer_length : RawMessage → ℕ
transfer_length msg = bit_and msg.data0 transfer_length_mask

unfoldable pub buffer : RawMessage → ℕ
buffer msg = msg.data1

-- The first `k` bytes of a number, the lowest first.
unfoldable pub le_bytes : ℕ → ℕ → List ℕ
le_bytes zero n = []
le_bytes (suc k) n = n % 256 ∷ le_bytes k (n / 256)

pub data Transfer : Type 0 where
  setup : List ℕ → Transfer
  normal : ℕ → Transfer
  status : Transfer
  isochronous : ℕ → Option ℕ → Transfer
  link_to : Bool → Transfer
  other : ℕ → Transfer

unfoldable pub decode : RawMessage → Option Transfer
unfolding message_type is_valid needs_response transfer_length le_bytes
decode msg =
    if not (is_valid msg)
    then none
    else if message_type msg == setup_transfer
    then some (setup (le_bytes 8 msg.data1))
    else if message_type msg == normal_transfer
    then some (normal (transfer_length msg))
    else if message_type msg == status_transfer
    then some status
    else if message_type msg == isochronous_transfer
    then some (
        isochronous (transfer_length msg) (
          if bit_and msg.control iso_control_asap == 0
          then some (bit_and msg.control iso_control_frame_mask / 2 ^ iso_control_frame_shift % 256)
          else none))
    else if message_type msg == link
    then some (link_to (needs_response msg))
    else some (other (message_type msg))

unfoldable pub decode_doorbell : ℕ → ℕ × (ℕ × ℕ)
decode_doorbell doorbell = (doorbell % 256, (doorbell / 2 ^ 8 % 256, doorbell / 2 ^ 16 % 2 ^ 16))

pub data Status : Type 0 where
  success : Status
  offline : Status
  timeout : Status
  endpoint_stopped : Status
  protocol_failure : Status
  transaction_error : Status
  overrun_error : Status
  stall_error : Status
  error : Status

-- The arms of the match, on a number that is not negative.
unfoldable pub of_errno : ℕ → Status
of_errno n =
    if n == 0
    then success
    else if n == 121
    then success
    else if n == 18
    then success
    else if n == 32
    then stall_error
    else if n == 75
    then overrun_error
    else if n == 71
    then protocol_failure
    else if n == 84
    then protocol_failure
    else if n == 62
    then timeout
    else if n == 110
    then timeout
    else if n == 19
    then offline
    else if n == 108
    then offline
    else if n == 2
    then endpoint_stopped
    else if n == 104
    then endpoint_stopped
    else if n == 70
    then transaction_error
    else if n == 63
    then transaction_error
    else error

-- No arm is a negative number, so a positive status is an error. The least `i32` has no negation:
-- it is an error where arithmetic wraps, as in a release build.
unfoldable pub from_urb_status : ℤ → Status
unfolding of_errno
from_urb_status (pos zero) = of_errno 0
from_urb_status (pos (suc n)) = error
from_urb_status (negsuc n) = if suc n == 2 ^ 31 then error else of_errno (suc n)
