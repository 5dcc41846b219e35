-- ===== src/Examples/Host.antt =====
-- A host that creates a device, a clock that stands still, a ring with a link, and the theorems there.
use usbip_macos.Prelude.{
  ℕ, suc, ◌+◌, ◌*◌, ◌≤◌, ◌≡◌, ◌↔◌, ◌⊎◌, refl, true, List, [], ◌∷◌, length, none, some, leb, arith,
  if◌then◌else◌, ok,
}
use usbip_macos.Prelude.Maps.{insert}
use usbip_macos.Protocol.Types.{high}
use usbip_macos.Hci.Constants.{control_valid, device_create}
use usbip_macos.Hci.Messages.{
  RawMessage, success, message_type, transfer_length, device_address, endpoint_address,
}
use usbip_macos.Hci.Addresses.{allocate, find_address}
use usbip_macos.Engine.Table.{new}
use usbip_macos.Host.State.{ci_success, answers_address, Calls, Shared}
use usbip_macos.Host.Clock.{Timebase, frame_at, next}
use usbip_macos.Host.Rings.{Machine, message_at, complete_head}
use usbip_macos.Host.Answers.{respond, move_rings}
use usbip_macos.Host.Commands.{command, create_device, address_device, device_answered}
use usbip_macos.Host.Frames.{Later, next-Later}
use usbip_macos.Host.Walk.{Within, message_at_iff, complete_head-bounded}
use usbip_macos.Host.Tables.{Consistent}
use usbip_macos.Host.Runs.{new_shared, started, runs_on, commands, Run-Consistent}
use usbip_macos.Host.Once.{AnsweredOnce}
use usbip_macos.Host.Replies.{command-AnsweredOnce}
use usbip_macos.Examples.Engine.{Messages, message_list, counter, two_reads}

abbrev calls : Calls Messages
calls = record {
  inspected = true;
  responded = λ a. true;
  port = true;
  link_updated = true;
  new_device = some 7;
  new_endpoint_machine = none;
  memory = λ p n. [];
  ticks = λ i. i;
  reset_reply = λ n. none;
  ring_after = λ k r. r;
}

abbrev ring_of : ℕ → Messages
ring_of sm = two_reads

-- The time advances by a quarter of a frame with each reading.
abbrev timebase : Timebase
timebase = record { epoch = 1000; numer = 1; denom = 1 }

abbrev ticks : ℕ → ℕ
ticks i = 1000 + 250000 * i

abbrev create_message : RawMessage
create_message = record { control = device_create + control_valid; data0 = 0; data1 = 0 }

abbrev at_start : Shared Messages ℕ
at_start = new_shared high 1

abbrev with_device : Shared Messages ℕ
with_device = record (new_shared high 1) {
  devices = (1, 7) ∷ [];
  addresses = record { used = 2 };
  enumerated = true;
  answers = answers_address ci_success 1 ∷ [];
}

created : command ring_of timebase 5 calls create_message at_start ≡ some (ok tt, with_device)
unfolding command create_device address_device device_answered respond move_rings allocate
    find_address insert new_shared new message_type device_address endpoint_address
created = refl

Run-Consistent_example : Consistent with_device
Run-Consistent_example =
    Run-Consistent ring_of timebase high 1
      (runs_on started (commands 5 calls create_message (ok tt) created))

command-AnsweredOnce_example :
    AnsweredOnce at_start (command ring_of timebase 5 calls create_message at_start)
command-AnsweredOnce_example = command-AnsweredOnce ring_of timebase 5 calls create_message at_start

-- Frame 0 was reported; frame 1 begins with the fourth reading after the first.
next-Later_example :
    (frame : ℕ) × (time : ℕ) × (j : ℕ) × (next timebase ticks 9 (some 0) 0
      ≡ some ((frame, time), some frame, suc j))
    × Later (some 0) frame
    × (0 ≤ j)
    × (j ≤ 0 + 4)
    × (time ≤ ticks j)
unfolding frame_at
next-Later_example =
    next-Later timebase ticks 9 (some 0) 0 4 (omega arith) (omega arith) (λ k. omega arith)

-- Two messages with a link between them. A buffer is not kept, and completions are counted.
abbrev linked_message : ℕ → RawMessage
linked_message p =
    if leb 300 p
    then record { control = 0x8039; data0 = 8; data1 = 5000 }
    else if leb 116 p
    then record { control = 0x803c; data0 = 0; data1 = 300 }
    else record { control = 0x8039; data0 = 4; data1 = 4000 }

instance abbrev linked_machine : Machine ℕ
linked_machine = record {
  is_active = λ n. true;
  current_message = λ n. 100;
  message_in = λ n. linked_message;
  bytes_in = λ n p k. [];
  copy_to = λ p bs n. n;
  enqueue_completion = λ p st k n. (true, suc n);
}

message_at_iff_example :
    (message_at {A = ℕ} 0 1 ≡ some 300) ↔ Within linked_message ((1 + 1) * 4) 100 1 300
message_at_iff_example = message_at_iff {A = ℕ} 0 1 300

complete_head-bounded_example :
    (a' : ℕ) × (m : ℕ) × (complete_head {A = ℕ} success (1 ∷ 2 ∷ 3 ∷ 4 ∷ 5 ∷ []) 5 0
      ≡ (true, suc a'))
    × (m ≤ transfer_length (linked_message 100))
    × ((a' ≡ 0) ⊎ ((bs : List ℕ) × (length bs ≤ transfer_length (linked_message 100)) × (a' ≡ 0)))
complete_head-bounded_example = complete_head-bounded {A = ℕ} success (1 ∷ 2 ∷ 3 ∷ 4 ∷ 5 ∷ []) 5 0
