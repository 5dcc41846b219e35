-- ===== src/Client/Steps.antt =====
-- Every interleaving of the threads of src/client.rs as a sequence of steps: the critical sections of
-- the calls of clients, of the reader for each reply and of a close from any side, each send that
-- follows a critical section after the lock is released, and the writer's takes off the channel of
-- frames. A thread that has left a critical section goes on with its sends in their order, while the
-- other threads make any steps. (A thread of the code does nothing else before it has sent; the steps
-- leave that open, and so allow more orders than the code has.)
use usbip_macos.Prelude.{ℕ, ◌≡◌, List, [], ◌∷◌, ◌++◌, Option, none, some, Result, drop}
use usbip_macos.Wire.{Buf}
use usbip_macos.Protocol.Types.{RetSubmit, RetUnlink}
use usbip_macos.Client.State.{
  Shared, SubmitRequest, CloseReason, TransferError, TransferResult, PendingSubmit, completed,
  failed, unlinked, start,
}
use usbip_macos.Client.Session.{
  Sending, answering, disconnecting, send_one, take_pending, submit, unlink,
}
use usbip_macos.Client.Receive.{take_submit, take_unlink}
use usbip_macos.Client.Invariant.{take_submit-Inv, take_unlink-Inv}
use usbip_macos.Client.Tables.{
  Inv, start-Inv, take_pending-Inv, send_one-Inv, submit-Inv, unlink-Inv,
}

-- The session, and what each thread that has left a critical section has still to send.
pub record Threads : Type 0 where
  pub shared : Shared
  pub sending : List Sending

abbrev pub with_sending : Option Sending → List Sending → List Sending
with_sending none sending = sending
with_sending (some x) sending = x ∷ sending

-- What a thread has to send after it took an entry, or the entries of a close.
abbrev pub to_answer : Option PendingSubmit → TransferResult → Option Sending
to_answer none result = none
to_answer (some p) result = some (answering p.reply result)

abbrev pub to_disconnect : CloseReason → Option (List (ℕ × PendingSubmit)) → Option Sending
to_disconnect reason none = none
to_disconnect reason (some pending) = some (disconnecting reason pending)

-- After a critical section.
abbrev pub left : Option Sending → Shared → List Sending → Threads
left o s sending = record { shared = s; sending = with_sending o sending }

-- No thread is between a critical section and its sends.
abbrev pub at_rest : Shared → Threads
at_rest s = record { shared = s; sending = [] }

module _ ⦃buf : Buf⦄ where
  pub data Step : Threads → Threads → Type 0 where
    submits :
        (req : SubmitRequest) (xs : List Sending) {r : Result TransferError ℕ} {s s' : Shared}
        → submit req s ≡ some (r, s')
        → Step (left none s xs) (left none s' xs)
    unlinks :
        (target : ℕ) (xs : List Sending) {s s' : Shared}
        → unlink target s ≡ some s'
        → Step (left none s xs) (left none s' xs)
    closes :
        (reason : CloseReason) (s : Shared) (xs : List Sending)
        → Step
            (left none s xs)
            (left (to_disconnect reason (take_pending reason s).0) (take_pending reason s).1 xs)
    completes :
        (seqnum : ℕ) (ret : RetSubmit) (s : Shared) (xs : List Sending)
        → Step
            (left none s xs)
            (left (to_answer (take_submit seqnum s).0 (completed ret)) (take_submit seqnum s).1 xs)
    cancels :
        (ret : RetUnlink) (s : Shared) (xs : List Sending)
        → Step (left none s xs) (
            left
              (to_answer (take_unlink ret s).0 (failed (unlinked ret.status)))
              (take_unlink ret s).1
              xs)
    -- Any thread that has something to send may go on.
    sends :
        (before : List Sending) (x : Sending) (after : List Sending) (s : Shared)
        → Step
            (left none s (before ++ x ∷ after))
            (left none (send_one x s).1 (before ++ with_sending (send_one x s).0 after))
    takes :
        (s : Shared) (xs : List Sending)
        → Step (left none s xs) (left none (record s { frames = drop 1 s.frames }) xs)

  pub data Reach (s : Threads) : Threads → Type 0 where
    here : Reach s s
    next : {t u : Threads} → Reach s t → Step t u → Reach s u

  Step-Inv : {s t : Threads} → Step s t → Inv s.shared.state → Inv t.shared.state
  Step-Inv (submits req xs {r} {s} {s'} e) v = submit-Inv req s s' r e v
  Step-Inv (unlinks target xs {s} {s'} e) v = unlink-Inv target s s' e v
  Step-Inv (closes reason s xs) v = take_pending-Inv reason s v
  Step-Inv (completes seqnum ret s xs) v = take_submit-Inv seqnum s v
  Step-Inv (cancels ret s xs) v = take_unlink-Inv ret s v
  Step-Inv (sends before x after s) v = send_one-Inv x s v
  Step-Inv (takes s xs) v = v

  -- Every state that a session reaches from its start, by any interleaving, has well-formed tables:
  -- keys stand once, are neither 0 nor wider than 32 bits, and stand for a transfer or an unlink
  -- and not for both; each unlink is for a pending transfer that has no other; at most 256 resolved
  -- transfers are remembered; a closed session has nothing pending.
  pub Reach-Inv : (devid : ℕ) (t : Threads) → Reach (at_rest (start devid)) t → Inv t.shared.state
  Reach-Inv devid t here = start-Inv devid
  Reach-Inv devid t (next {t = u} r st) = Step-Inv st (Reach-Inv devid u r)
