-- ===== src/Client/Receive.antt =====
-- The reader task of src/client.rs.
use usbip_macos.Prelude.{
  ℕ, Bool, ◌&&◌, not, List, [], ◌∷◌, ◌++◌, Option, none, some, length, drop, ◌==◌, if◌then◌else◌,
  Result, ok, err, ◌>>=◌,
}
use usbip_macos.Prelude.Maps.{lookup, remove, retain}
use usbip_macos.Wire.{Buf, Reader, unexpected_eof}
use usbip_macos.Protocol.Types.{
  Direction, is_in, RetSubmit, RetUnlink, SubmitHeader, Reply, ProtocolError, io, invalid,
  unknown_seqnum,
}
use usbip_macos.Protocol.Types
use usbip_macos.Protocol.Replies.{read_reply_header, read_submit_payload}
use usbip_macos.Client.State.{
  CloseReason, server_closed, protocol_error, TransferResult, completed, failed, unlinked,
  PendingSubmit, Unlinked, State, Shared,
}
use usbip_macos.Client.Session.{close_with, is_some_reason}

unfoldable pub find_unlinked : ℕ → List Unlinked → Option Unlinked
find_unlinked seqnum [] = none
find_unlinked seqnum (u ∷ us) = if u.seqnum == seqnum then some u else find_unlinked seqnum us

unfoldable pub forget_unlinked : ℕ → List Unlinked → List Unlinked
forget_unlinked seqnum [] = []
forget_unlinked seqnum (u ∷ us) =
    let rest = forget_unlinked seqnum us in if u.seqnum == seqnum then rest else u ∷ rest

-- The first critical section on a RET_SUBMIT: what was asked for under this seqnum.
unfoldable pub find_request : ℕ → State → Result ProtocolError (Direction × ℕ)
unfolding find_unlinked
find_request seqnum st = elim (lookup seqnum st.submits) [
  | some p ↦ ok (p.direction, p.length)
  | none ↦ elim (find_unlinked seqnum st.unlinked) [
    | some u ↦ ok (u.direction, u.length)
    | none ↦ err (invalid (unknown_seqnum seqnum))
  ]
]

abbrev pub send_to : Option PendingSubmit → TransferResult → Shared → Shared
send_to none result s = s
send_to (some p) result s = record s { answers = (p.reply, result) ∷ s.answers }

-- The second critical section on a RET_SUBMIT, with the entry that it takes.
unfoldable pub take_submit : ℕ → Shared → Option PendingSubmit × Shared
unfolding forget_unlinked
take_submit seqnum s = (
  lookup seqnum s.state.submits,
  record s {
    state = record s.state {
      unlinks = retain (λ t. not (t == seqnum)) s.state.unlinks;
      unlinked = forget_unlinked seqnum s.state.unlinked;
      submits = remove seqnum s.state.submits;
    };
  },
)

-- The critical section and the answer, where no other thread comes between them.
unfoldable pub finish_submit : ℕ → RetSubmit → Shared → Shared
unfolding take_submit
finish_submit seqnum ret s = let t = take_submit seqnum s in send_to t.0 (completed ret) t.1

-- At most 256 resolved transfers are kept; the oldest goes first.
unfoldable pub remember : Unlinked → List Unlinked → List Unlinked
remember u us = (if length us == 256 then drop 1 us else us) ++ u ∷ []

abbrev pub resolve : ℕ → Option PendingSubmit → Shared → Option PendingSubmit × Shared
resolve target none s = (none, s)
resolve target (some p) s = (
  some p,
  record s {
    state = record s.state {
      submits = remove target s.state.submits;
      unlinked =
          remember (record { seqnum = target; direction = p.direction; length = p.length })
            s.state.unlinked;
    };
  },
)

-- The critical section on a RET_UNLINK, with the entry that it takes.
unfoldable pub take_unlink : RetUnlink → Shared → Option PendingSubmit × Shared
unfolding remember
take_unlink ret s =
    let s' : Shared = record s {
      state = record s.state { unlinks = remove ret.seqnum s.state.unlinks };
    } in
    elim (lookup ret.seqnum s.state.unlinks) [
      | none ↦ (none, s')
      | some target ↦ resolve target (lookup target s.state.submits) s'
    ]

-- The critical section and the answer, where no other thread comes between them.
unfoldable pub finish_unlink : RetUnlink → Shared → Shared
unfolding take_unlink
finish_unlink ret s = let t = take_unlink ret s in send_to t.0 (failed (unlinked ret.status)) t.1

module _ {R : Type 0} ⦃buf : Buf⦄ ⦃rd : Reader R⦄ where
  -- `meanwhile` is what other threads do to the session while the payload is read.
  -- The answer follows its critical section at once here; `Steps` has other threads between the two.
  unfoldable pub read_reply :
      (Shared → Shared) → Shared → Reply → R → Result ProtocolError (Shared × R)
  unfolding find_request finish_submit finish_unlink
  read_reply meanwhile s (Types.submit h) r = do
    (direction, length) ← find_request h.seqnum s.state
    (ret, r) ← read_submit_payload r (Types.submit h) (is_in direction) length
    ok (finish_submit h.seqnum ret (meanwhile s), r)
  read_reply meanwhile s (Types.unlink ret) r = ok (finish_unlink ret s, r)

  unfoldable pub read_one : (Shared → Shared) → Shared → R → Result ProtocolError (Shared × R)
  unfolding read_reply
  read_one meanwhile s r = do (header, r) ← read_reply_header r; read_reply meanwhile s header r

-- The reason that `read_loop` closes the session with.
unfoldable pub close_reason : ProtocolError → CloseReason
close_reason (io unexpected_eof) = server_closed
close_reason e = protocol_error e

-- What a round of `read_loop` ends with: the task goes on, or has ended.
pub data ReadRound (R : Type 0) : Type 0 where
  reads_on : Shared → R → ReadRound R
  read_ends : Shared → ReadRound R

module _ {R : Type 0} where
  -- `meanwhile` is what other threads do to the session until the error is found.
  unfoldable pub after_read :
      (Shared → Shared) → Shared → Result ProtocolError (Shared × R) → ReadRound R
  unfolding close_reason
  after_read meanwhile s (ok (s', r)) = reads_on s' r
  after_read meanwhile s (err e) = read_ends (close_with (close_reason e) (meanwhile s))

module _ {R : Type 0} ⦃buf : Buf⦄ ⦃rd : Reader R⦄ where
  -- `sees_closed` is whether `select!` takes the branch of the close, if it can.
  unfoldable pub read_round : Bool → (Shared → Shared) → Shared → R → ReadRound R
  unfolding after_read read_one
  read_round sees_closed meanwhile s r =
      if sees_closed && is_some_reason s.closed_tx
      then read_ends s
      else after_read meanwhile s (read_one meanwhile s r)
