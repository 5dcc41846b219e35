-- ===== src/Client/Session.antt =====
-- The operations of `Session` in src/client.rs.
use usbip_macos.Prelude.{
  ℕ, zero, suc, ◌+◌, ◌%◌, ◌^◌, Bool, true, false, ◌||◌, ◌&&◌, not, List, [], ◌∷◌, ◌++◌, Option,
  none, some, length, ◌==◌, if◌then◌else◌, bit_and, Result, ok, err,
}
use usbip_macos.Prelude.Maps.{contains_key, insert, keys}
use usbip_macos.Wire.{Buf}
use usbip_macos.Protocol.Types.{direction_code, is_out, is_in, CmdSubmit}
use usbip_macos.Protocol.Requests.{encode_submit, encode_unlink}
use usbip_macos.Client.State.{
  SubmitRequest, CloseReason, closed_by_client, TransferError, disconnected, bad_request,
  out_length, in_with_data, TransferResult, failed, PendingSubmit, State, Shared,
}

-- Sends the failure on the channel of each entry.
unfoldable pub fail_all :
    CloseReason → List (ℕ × PendingSubmit) → List (ℕ × TransferResult) → List (ℕ × TransferResult)
fail_all reason [] answers = answers
fail_all reason ((seqnum, p) ∷ pending) answers =
    fail_all reason pending ((p.reply, failed (disconnected reason)) ∷ answers)

-- What a thread has still to send when it leaves a critical section: an answer, or the failures and
-- the reason of a close.
pub data Sending : Type 0 where
  answering : ℕ → TransferResult → Sending
  disconnecting : CloseReason → List (ℕ × PendingSubmit) → Sending

-- One send, on a channel of `s`, and what is left to send after it.
unfoldable pub send_one : Sending → Shared → Option Sending × Shared
send_one (answering channel result) s = (none, record s { answers = (channel, result) ∷ s.answers })
send_one (disconnecting reason []) s = (none, record s { closed_tx = some reason })
send_one (disconnecting reason ((seqnum, p) ∷ pending)) s = (
  some (disconnecting reason pending),
  record s { answers = (p.reply, failed (disconnected reason)) ∷ s.answers },
)

-- The critical section of `Shared::close`, with what it takes; `none` for a session that is closed.
abbrev pub take_pending : CloseReason → Shared → Option (List (ℕ × PendingSubmit)) × Shared
take_pending reason s = elim s.state.closed [
  | some r ↦ (none, s)
  | none ↦ (
    some s.state.submits,
    record s { state = record s.state { closed = some reason; unlinks = []; submits = [] } },
  )
]

-- What `Shared::close` does after the critical section.
abbrev pub disconnect : CloseReason → Option (List (ℕ × PendingSubmit)) → Shared → Shared
disconnect reason none s = s
disconnect reason (some pending) s = record s {
  answers = fail_all reason pending s.answers;
  closed_tx = some reason;
}

-- `Shared::close`, where no other thread comes between its critical section and what it sends.
unfoldable pub close_with : CloseReason → Shared → Shared
unfolding fail_all
close_with reason s = let t = take_pending reason s in disconnect reason t.0 t.1

unfoldable pub close : Shared → Shared
unfolding close_with
close s = close_with closed_by_client s

-- The test of `next_seqnum` on a candidate.
unfoldable pub is_free : State → ℕ → Bool
is_free st c = not (c == 0) && (not (contains_key c st.submits) && not (contains_key c st.unlinks))

-- The loop of `next_seqnum` from the counter `c`. There are 2 ^ 32 candidates, so `none` stands for
-- a loop that finds none free and does not end.
unfoldable pub next_seqnum_loop : ℕ → State → ℕ → Option ℕ
unfolding is_free
next_seqnum_loop zero st c = none
next_seqnum_loop (suc fuel) st c =
    let c' = (c + 1) % 2 ^ 32 in
    let more = next_seqnum_loop fuel st c' in if is_free st c' then some c' else more

unfoldable pub next_seqnum : State → Option (ℕ × State)
next_seqnum st = elim (next_seqnum_loop (2 ^ 32) st st.next_seqnum) [
  | none ↦ none
  | some c ↦ some (c, record st { next_seqnum = c })
]

-- The `CmdSubmit` of a request under its seqnum.
unfoldable pub cmd_of : SubmitRequest → ℕ → ℕ → CmdSubmit
cmd_of req devid seqnum = record {
  seqnum = seqnum;
  devid = devid;
  direction = direction_code req.direction;
  ep = bit_and req.ep 0x0f;
  transfer_flags = req.transfer_flags;
  transfer_buffer_length = req.length;
  start_frame = req.start_frame;
  interval = req.interval;
  setup = req.setup;
  payload = req.payload;
  iso_packets = req.iso_packets;
}

-- The checks of `submit` that come before the lock.
unfoldable pub check_request : SubmitRequest → Option TransferError
check_request req =
    if is_out req.direction && not (length req.payload == req.length)
    then some (bad_request (out_length (length req.payload) req.length))
    else if is_in req.direction && not (length req.payload == 0)
    then some (bad_request in_with_data)
    else none

unfoldable pub any_target : ℕ → List (ℕ × ℕ) → Bool
any_target target [] = false
any_target target ((k, t) ∷ m) = t == target || any_target target m

unfoldable pub is_some_reason : Option CloseReason → Bool
is_some_reason none = false
is_some_reason (some r) = true

module _ ⦃buf : Buf⦄ where
  -- The entry and the frame of a request whose seqnum is found.
  unfoldable pub register : SubmitRequest → Shared → ℕ → State → Shared
  unfolding cmd_of encode_submit
  register req s seqnum st = record s {
    state = record st {
      submits =
          insert seqnum
            (record { direction = req.direction; length = req.length; reply = s.opened })
            st.submits;
    };
    frames = s.frames ++ encode_submit (cmd_of req s.devid seqnum) [] ∷ [];
    opened = s.opened + 1;
  }

  -- The result is the seqnum; the channel of the reply is `opened` before the call.
  unfoldable pub submit : SubmitRequest → Shared → Option (Result TransferError ℕ × Shared)
  unfolding check_request register next_seqnum
  submit req s = elim (check_request req) [
    | some e ↦ some (err e, s)
    | none ↦ elim s.state.closed [
      | some reason ↦ some (err (disconnected reason), s)
      | none ↦ elim (next_seqnum s.state) [
        | none ↦ none
        | some (seqnum, st) ↦ some (ok seqnum, register req s seqnum st)
      ]
    ]
  ]

  unfoldable pub request_unlink : ℕ → Shared → ℕ → State → Shared
  unfolding encode_unlink
  request_unlink target s seqnum st = record s {
    state = record st { unlinks = insert seqnum target st.unlinks };
    frames =
        s.frames
        ++ encode_unlink (record { seqnum = seqnum; devid = s.devid; unlink_seqnum = target }) []
          ∷ [];
  }

  unfoldable pub unlink : ℕ → Shared → Option Shared
  unfolding any_target is_some_reason request_unlink next_seqnum
  unlink target s =
      if is_some_reason s.state.closed
        || (not (contains_key target s.state.submits) || any_target target s.state.unlinks)
      then some s
      else elim (next_seqnum s.state) [
        | none ↦ none
        | some (seqnum, st) ↦ some (request_unlink target s seqnum st)
      ]

  unfoldable pub unlink_targets : List ℕ → Shared → Option Shared
  unfolding unlink
  unlink_targets [] s = some s
  unlink_targets (t ∷ ts) s = elim (unlink t s) [ none ↦ none | some s' ↦ unlink_targets ts s' ]

  unfoldable pub unlink_all : Shared → Option Shared
  unfolding unlink_targets
  unlink_all s = unlink_targets (keys s.state.submits) s

unfoldable pub pending : Shared → ℕ
pending s = length s.state.submits

unfoldable pub is_closed : Shared → Bool
unfolding is_some_reason
is_closed s = is_some_reason s.state.closed
