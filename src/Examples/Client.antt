-- ===== src/Examples/Client.antt =====
-- A session with two reads on endpoint 1, and the theorems at its states.
use mathlib.Core.List.{Perm}
use usbip_macos.Prelude.{
  ℕ, ◌^◌, ◌<◌, ◌≡◌, ◌≢◌, refl, List, [], ◌∷◌, ◌++◌, replicate, arith, Result, ok, false,
  if◌then◌else◌, ◌==◌, none, some,
}
use usbip_macos.Prelude.Int.{pos, negsuc}
use usbip_macos.Prelude.Maps.{lookup, contains_key}
use usbip_macos.Wire.{be_i32}
use usbip_macos.Protocol.Types.{dir_in, SubmitHeader, RetUnlink, invalid, unknown_seqnum}
use usbip_macos.Protocol.Headers.{reply_bytes, ret_submit_body}
use usbip_macos.Protocol.Payload.{ret_of}
use usbip_macos.Client.State.{
  default_state, PendingSubmit, Shared, SubmitRequest, TransferError, new_request, start,
  protocol_error, completed, failed, unlinked, closed_by_client,
}
use usbip_macos.Client.Session.{
  next_seqnum, next_seqnum_loop, register, submit, unlink, take_pending,
}
use usbip_macos.Client.Receive.{find_unlinked, read_one, read_round, read_ends}
use usbip_macos.Client.Seqnum.{next_seqnum_total, next_seqnum-IsFresh}
use usbip_macos.Client.Tables.{Inv}
use usbip_macos.Client.Steps.{
  Threads, to_disconnect, left, at_rest, Reach, here, next, submits, closes, Reach-Inv,
}
use usbip_macos.Client.Accounting.{answered, unsent, down_from, IsAccounted, Reach-IsAccounted}
use usbip_macos.Client.Closing.{closed-answered}
use usbip_macos.Client.Delivery.{IsAnswer, ret_submit_bytes, read_one-delivers, read_one-late}
use usbip_macos.Client.Failing.{HasFailed, read_round_unknown}
use usbip_macos.Client.Issues.{Submitted, submit_lem}
use usbip_macos.Client.Unlinking.{Unlinked, unlink_lem}
use usbip_macos.Examples.Instances.{big_endian, byte_stream}

abbrev read_two : SubmitRequest
read_two = new_request 0x81 dir_in 2

abbrev pending_read : PendingSubmit
pending_read = record { direction = dir_in; length = 2; reply = 0 }

-- The session after the first read.
abbrev one_pending : Shared
one_pending = register read_two (start 5) 1 (record default_state { next_seqnum = 1 })

first_read : submit read_two (start 5) ≡ some (ok 1, one_pending)
unfolding submit start register next_seqnum_loop contains_key
first_read = refl

-- The counter wraps from the last number to 1, past 0 and what is in use.
wraps :
    next_seqnum
      (record default_state { next_seqnum = 0xffff_ffff; submits = (1, pending_read) ∷ [] })
    ≡ some (2, record default_state { next_seqnum = 2; submits = (1, pending_read) ∷ [] })
unfolding next_seqnum next_seqnum_loop contains_key
wraps = refl

next_seqnum_total_example :
    (n : ℕ) × (next_seqnum default_state ≡ some (n, record default_state { next_seqnum = n }))
next_seqnum_total_example = next_seqnum_total default_state (omega arith)

next_seqnum-IsFresh_example :
    (◌≢◌ {A = ℕ} 2 0)
    × (2 < 2 ^ 32)
    × (contains_key 2 ((1, pending_read) ∷ []) ≡ false)
    × (contains_key {V = ℕ} 2 [] ≡ false)
    × (record default_state { next_seqnum = 2; submits = (1, pending_read) ∷ [] }
        ≡ record default_state { next_seqnum = 2; submits = (1, pending_read) ∷ [] })
next_seqnum-IsFresh_example = next_seqnum-IsFresh _ _ 2 wraps

abbrev one_read : Threads
one_read = at_rest one_pending

reached : Reach (at_rest (start 5)) one_read
reached = next here (submits read_two [] first_read)

Reach-Inv_example : Inv one_pending.state
Reach-Inv_example = Reach-Inv 5 one_read reached

-- A close has taken the read out of the table, and has sent nothing yet.
abbrev closing : Threads
closing =
    left (to_disconnect closed_by_client (take_pending closed_by_client one_pending).0)
      (take_pending closed_by_client one_pending).1 []

reached_closing : Reach (at_rest (start 5)) closing
reached_closing = next reached (closes closed_by_client one_pending [])

Reach-IsAccounted_example : IsAccounted closing
Reach-IsAccounted_example = Reach-IsAccounted 5 closing reached_closing

is_closed_now : closing.shared.state.closed ≡ some closed_by_client
unfolding register start
is_closed_now = refl

closed-answered_example :
    Perm
      (unsent closing.sending ++ answered closing.shared.answers)
      (down_from closing.shared.opened)
    × ((s : Shared) × Reach closing (at_rest s)
        × Perm (answered s.answers) (down_from closing.shared.opened))
closed-answered_example = closed-answered 5 closing closed_by_client reached_closing is_closed_now

-- A read under seqnum 9, and an unlink of it under seqnum 12.
abbrev waiting_session : Shared
waiting_session = record {
  devid = 5;
  state = record {
    next_seqnum = 12;
    submits = (9, pending_read) ∷ [];
    unlinks = (12, 9) ∷ [];
    unlinked = [];
    closed = none;
  };
  frames = [];
  closed_tx = none;
  opened = 1;
  answers = [];
}

-- The same session before the unlink.
abbrev busy_session : Shared
busy_session = record waiting_session { state = record waiting_session.state { unlinks = [] } }

abbrev header_nine : SubmitHeader
header_nine = record {
  seqnum = 9;
  status = pos 0;
  actual_length = 2;
  start_frame = 0;
  number_of_packets = 0;
  error_count = 0;
}

abbrev reply_nine : List ℕ
reply_nine = ret_submit_bytes header_nine (7 ∷ 8 ∷ []) [] (replicate 8 0) ++ (1 ∷ [])

header_nine-IsAnswer : IsAnswer header_nine (7 ∷ 8 ∷ []) [] (replicate 8 0) dir_in 2
header_nine-IsAnswer = record {
  header = omega arith;
  pad_length = refl;
  packets_few = omega arith;
  within = omega arith;
  data_size = refl;
  packets_counted = refl;
  packets_fit = tt;
}

abbrev undisturbed : Shared → Shared
undisturbed s = s

found_nine : lookup 9 waiting_session.state.submits ≡ some pending_read
unfolding lookup
found_nine = refl

read_one-delivers_example :
    (s' : Shared) × (r' : List ℕ) × (read_one undisturbed waiting_session reply_nine ≡ ok (s', r'))
    × (s'.answers ≡ (0, completed (ret_of header_nine (7 ∷ 8 ∷ []) [])) ∷ [])
    × ((k : ℕ)
        → lookup k s'.state.submits
          ≡ (if 9 == k then none else lookup k waiting_session.state.submits))
    × (r' ≡ 1 ∷ [])
read_one-delivers_example =
    read_one-delivers undisturbed waiting_session reply_nine header_nine (7 ∷ 8 ∷ [])
      (replicate 8 0) (1 ∷ []) [] pending_read found_nine found_nine header_nine-IsAnswer refl

-- The same session once the unlink is answered.
abbrev resolved_session : Shared
resolved_session = record waiting_session {
  state = record waiting_session.state {
    submits = [];
    unlinks = [];
    unlinked = record { seqnum = 9; direction = dir_in; length = 2 } ∷ [];
  };
  answers = (0, failed (unlinked (negsuc 103))) ∷ [];
}

gone_nine : lookup {V = PendingSubmit} 9 [] ≡ none
unfolding lookup
gone_nine = refl

known_nine :
    find_unlinked 9 resolved_session.state.unlinked
    ≡ some (record { seqnum = 9; direction = dir_in; length = 2 })
unfolding find_unlinked
known_nine = refl

read_one-late_example :
    (s' : Shared) × (r' : List ℕ) × (read_one undisturbed resolved_session reply_nine ≡ ok (s', r'))
    × (s'.answers ≡ (0, failed (unlinked (negsuc 103))) ∷ [])
    × (r' ≡ 1 ∷ [])
read_one-late_example =
    read_one-late undisturbed resolved_session reply_nine header_nine (7 ∷ 8 ∷ []) (replicate 8 0)
      (1 ∷ []) [] (record { seqnum = 9; direction = dir_in; length = 2 }) gone_nine known_nine
      gone_nine header_nine-IsAnswer refl

unknown_nine : find_unlinked 9 [] ≡ none
unfolding find_unlinked
unknown_nine = refl

abbrev header_only : List ℕ
header_only = reply_bytes 3 9 0 0 0 (ret_submit_body header_nine 0 (replicate 8 0)) ++ []

read_round_unknown_example :
    (s' : Shared) × (read_round false undisturbed (start 5) header_only ≡ read_ends s')
    × HasFailed (protocol_error (invalid (unknown_seqnum 9))) (start 5) s'
unfolding start
read_round_unknown_example =
    read_round_unknown undisturbed (start 5) header_only header_nine (replicate 8 0) []
      (omega arith) (omega arith) refl gone_nine unknown_nine refl refl

submit_lem_example :
    (r : Result TransferError ℕ) × (s' : Shared) × (submit read_two (start 5) ≡ some (r, s'))
    × Submitted read_two (start 5) r s'
unfolding start
submit_lem_example = submit_lem read_two (start 5) (omega arith)

unlink_lem_example : (s' : Shared) × (unlink 9 busy_session ≡ some s') × Unlinked 9 busy_session s'
unlink_lem_example = unlink_lem 9 busy_session (omega arith)

abbrev unlink_reply : RetUnlink
unlink_reply = record { seqnum = 12; status = negsuc 103 }

abbrev unlink_bytes : List ℕ
unlink_bytes = reply_bytes 4 12 0 0 0 (be_i32 (negsuc 103) ++ replicate 24 0) ++ []
