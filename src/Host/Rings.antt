-- ===== src/Host/Rings.antt =====
-- `IoRing` of src/host.rs: the ring of an endpoint's state machine. `A` is the part of the system's
-- state that belongs to the ring: the state machine, its messages and their buffers.
use usbip_macos.Prelude.{
  ℕ, zero, suc, ◌+◌, ◌*◌, min, Bool, List, [], Option, none, some, length, take, ltb, ◌==◌,
  if◌then◌else◌,
}
use usbip_macos.Hci.Constants.{link}
use usbip_macos.Hci.Messages.{
  RawMessage, message_type, is_valid, transfer_length, buffer, Transfer, decode, Status,
}
use usbip_macos.Engine.Types.{Ring}
use usbip_macos.Host.State.{CiStatus, ci_status}

-- What the code uses of the state machine and of the memory. The result of `enqueue_completion` says
-- whether the completion was taken.
pub record Machine (A : Type 0) : Type 0 where
  pub is_active : A → Bool
  pub current_message : A → ℕ
  pub message_in : A → ℕ → RawMessage
  pub bytes_in : A → ℕ → ℕ → List ℕ
  pub copy_to : ℕ → List ℕ → A → A
  pub enqueue_completion : ℕ → CiStatus → ℕ → A → Bool × A

-- `size_of::<IOUSBHostCIMessage>()`
abbrev pub message_size : ℕ
message_size = 16

-- The walk, with `fuel` for the rounds that are left; a link to 0 is no pointer.
unfoldable pub walk : (ℕ → RawMessage) → ℕ → ℕ → ℕ → Option ℕ
walk message zero ptr remaining = none
walk message (suc fuel) ptr remaining =
    let msg = message ptr in
    let linked = walk message fuel msg.data1 remaining in
    let further = walk message fuel (ptr + message_size) in
    if is_valid msg
    then (if message_type msg == link
        then (if msg.data1 == 0 then none else linked)
        else elim remaining [ zero ↦ some ptr | suc k ↦ further k ])
    else none

module _ {A : Type 0} ⦃mc : Machine A⦄ where
  open mc use {is_active, current_message, message_in, bytes_in, copy_to, enqueue_completion}

  unfoldable pub message_at : A → ℕ → Option ℕ
  message_at a ahead = walk (message_in a) ((ahead + 1) * 4) (current_message a) ahead

  unfoldable pub current : A → ℕ × Option Transfer
  current a = (current_message a, decode (message_in a (current_message a)))

  unfoldable pub peek : A → ℕ → Option (ℕ × Transfer)
  peek a ahead = elim (message_at a ahead) [
    | none ↦ none
    | some ptr ↦ elim (decode (message_in a ptr)) [ none ↦ none | some t ↦ some (ptr, t) ]
  ]

  unfoldable pub read : A → ℕ → ℕ → List ℕ
  read a ahead length = elim (message_at a ahead) [
    | none ↦ []
    | some ptr ↦
        let msg = message_in a ptr in
        let n = min length (transfer_length msg) in if n == 0 then [] else bytes_in a (buffer msg) n
  ]

  -- The copy into the buffer of the head.
  unfoldable pub fill_buffer : RawMessage → List ℕ → A → A
  fill_buffer msg bytes a =
      let n = min (length bytes) (transfer_length msg) in
      if ltb 0 n then copy_to (buffer msg) (take n bytes) a else a

  unfoldable pub complete_head : Status → List ℕ → ℕ → A → Bool × A
  complete_head st bytes length a =
      let ptr = current_message a in
      let msg = message_in a ptr in
      enqueue_completion ptr (ci_status st) (min length (transfer_length msg))
        (fill_buffer msg bytes a)

  instance abbrev pub io_ring : Ring A
  io_ring = record {
    active = is_active;
    current = current;
    peek = peek;
    read = read;
    complete_head = complete_head;
  }
