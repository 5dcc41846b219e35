-- ===== src/Client/Failing.antt =====
-- What a reply to an unknown transfer does to the session: one round of `read_loop` of src/client.rs.
use mathlib.Core.List.{Perm, perm_middle}
use mathlib.Core.List.Perm
use usbip_macos.Prelude.{ℕ, ◌≤◌, ◌≡◌, refl, List, [], ◌∷◌, ◌++◌, length, false, none, some}
use usbip_macos.Prelude.Maps.{lookup}
use usbip_macos.Wire.{Buf, Reader}
use usbip_macos.Protocol.Types.{SubmitHeader, invalid, unknown_seqnum}
use usbip_macos.Protocol.Headers.{reply_bytes, ret_submit_body, IsHeader}
use usbip_macos.Client.State.{
  Shared, PendingSubmit, CloseReason, protocol_error, TransferResult, failed, disconnected,
}
use usbip_macos.Client.Session.{fail_all, close_with}
use usbip_macos.Client.Receive.{find_unlinked, close_reason, read_ends, after_read, read_round}
use usbip_macos.Client.Delivery.{read_one_unknown}

-- The failure of each transfer, on its channel.
abbrev pub failures : CloseReason → List (ℕ × PendingSubmit) → List (ℕ × TransferResult)
failures reason [] = []
failures reason ((k, p) ∷ m) = (p.reply, failed (disconnected reason)) ∷ failures reason m

fail_all-Perm :
    (reason : CloseReason) (m : List (ℕ × PendingSubmit)) (a : List (ℕ × TransferResult))
    → Perm (fail_all reason m a) (failures reason m ++ a)
unfolding fail_all
fail_all-Perm reason [] a = Perm.refl a
fail_all-Perm reason ((k, p) ∷ m) a =
    Perm.trans (fail_all-Perm reason m ((p.reply, failed (disconnected reason)) ∷ a))
      (perm_middle (failures reason m) a)

-- The session is closed for this reason, has nothing pending, and has failed all that was pending.
pub record HasFailed (reason : CloseReason) (s s' : Shared) : Type 0 where
  pub closed : s'.state.closed ≡ some reason
  pub published : s'.closed_tx ≡ some reason
  pub no_submits : s'.state.submits ≡ []
  pub no_unlinks : s'.state.unlinks ≡ []
  pub answered : Perm s'.answers (failures reason s.state.submits ++ s.answers)

close_with-HasFailed :
    (reason : CloseReason) (s : Shared)
    → s.state.closed ≡ none
    → HasFailed reason s (close_with reason s)
unfolding close_with
close_with-HasFailed reason s e = record {
  closed = rw e refl;
  published = rw e refl;
  no_submits = rw e refl;
  no_unlinks = rw e refl;
  answered = rw e (fail_all-Perm reason s.state.submits s.answers);
}

module _ {R : Type 0} ⦃buf : Buf⦄ ⦃rd : Reader R⦄ where
  open rd use {pending}

  -- A reply to a transfer that is neither pending nor remembered ends the reader, and closes a session
  -- that no other thread has closed: for that reason, with nothing pending any more and a failure sent
  -- on the channel of every transfer that was.
  pub read_round_unknown :
      (meanwhile : Shared → Shared) (s : Shared) (r : R) (h : SubmitHeader) (pad rest : List ℕ)
      → IsHeader h
      → h.number_of_packets ≤ 1024
      → length pad ≡ 8
      → lookup h.seqnum s.state.submits ≡ none
      → find_unlinked h.seqnum s.state.unlinked ≡ none
      → pending r ≡ reply_bytes 3 h.seqnum 0 0 0 (ret_submit_body h h.number_of_packets pad) ++ rest
      → (meanwhile s).state.closed ≡ none
      → (s' : Shared) × (read_round false meanwhile s r ≡ read_ends s')
        × HasFailed (protocol_error (invalid (unknown_seqnum h.seqnum))) (meanwhile s) s'
  unfolding read_round after_read close_reason
  read_round_unknown meanwhile s r h pad rest v few pads before unknown e unclosed = (
    close_with (protocol_error (invalid (unknown_seqnum h.seqnum))) (meanwhile s),
    rw (read_one_unknown meanwhile s r h pad rest v few pads before unknown e) refl,
    close_with-HasFailed (protocol_error (invalid (unknown_seqnum h.seqnum))) (meanwhile s)
        unclosed,
  )
