-- ===== src/Client/Accounting.antt =====
-- Each reply channel that `submit` opens is pending, about to be sent on, or has been sent on, once.
use mathlib.Core.List.{Perm, perm_middle}
use mathlib.Core.List.Perm
use native.Mathlib.Numerals.{add-one}
use usbip_macos.Prelude.{
  ℕ, zero, suc, ◌≡◌, inl, inr, refl, sym, ap, ◌∙◌, subst, List, [], ◌∷◌, ◌++◌, append_assoc, arith,
  ◌==◌, false, none, some, Option-cases, Bool-cases, Option, Result,
}
use usbip_macos.Prelude.Maps.{lookup, insert, remove, contains_key, UniqueKeys, remove_absent}
use usbip_macos.Wire.{Buf}
use usbip_macos.Protocol.Types.{RetSubmit, RetUnlink}
use usbip_macos.Client.State.{
  State, PendingSubmit, Shared, SubmitRequest, CloseReason, TransferResult, TransferError,
  completed, failed, unlinked, start,
}
use usbip_macos.Client.Session.{
  Sending, answering, disconnecting, send_one, take_pending, register, submit, request_unlink,
  unlink, next_seqnum,
}
use usbip_macos.Client.Receive.{resolve, take_submit, take_unlink}
use usbip_macos.Client.Seqnum.{next_seqnum-IsFresh}
use usbip_macos.Client.Branches.{
  SubmitBranches, submit_branches, UnlinkBranches, unlink_branches, take_pending_branches, cleared,
  snd_of_some, of_some,
}
use usbip_macos.Client.Tables.{Inv}
use usbip_macos.Client.Steps.{
  Threads, with_sending, to_answer, to_disconnect, left, at_rest, Step, submits, unlinks, closes,
  completes, cancels, sends, takes, Reach, here, next, Reach-Inv,
}

-- The channels that wait for an answer, and those that have one.
abbrev pub waiting : List (ℕ × PendingSubmit) → List ℕ
waiting [] = []
waiting ((k, p) ∷ m) = p.reply ∷ waiting m

abbrev pub answered : List (ℕ × TransferResult) → List ℕ
answered [] = []
answered ((c, r) ∷ a) = c ∷ answered a

-- The channels that a thread is about to send on.
abbrev pub channels : Sending → List ℕ
channels (answering c result) = c ∷ []
channels (disconnecting reason pending) = waiting pending

abbrev pub unsent : List Sending → List ℕ
unsent [] = []
unsent (x ∷ xs) = channels x ++ unsent xs

-- The channels opened so far.
abbrev pub down_from : ℕ → List ℕ
down_from zero = []
down_from (suc n) = n ∷ down_from n

abbrev Counted : List ℕ → Shared → Type 0
Counted us s = Perm (waiting s.state.submits ++ (us ++ answered s.answers)) (down_from s.opened)

-- The channels opened so far are those of the pending transfers, those that threads are about to send
-- on, and those that have been sent on.
abbrev pub IsAccounted : Threads → Type 0
IsAccounted t = Counted (unsent t.sending) t.shared

waiting-remove :
    (k : ℕ) (m : List (ℕ × PendingSubmit)) (p : PendingSubmit)
    → UniqueKeys m
    → lookup k m ≡ some p
    → Perm (waiting m) (p.reply ∷ waiting (remove k m))
unfolding lookup remove
waiting-remove k [] p u e = cc
waiting-remove k ((j, q) ∷ m) p u e = elim (Bool-cases (j == k)) [
  | inl hit ↦
      let same : q ≡ p = ground arith in
      let gone : remove k m ≡ m = remove_absent k m (ground arith) in
      rw (hit, gone, ap (λ (x : PendingSubmit). x.reply) same) (Perm.refl _)
  | inr miss ↦ rw miss (
      Perm.trans (Perm.cons q.reply (waiting-remove k m p u.1 (rw miss at e)))
        (Perm.swap p.reply q.reply (waiting (remove k m))))
]

absent_of_lookup :
    (k : ℕ) (m : List (ℕ × PendingSubmit)) → lookup k m ≡ none → contains_key k m ≡ false
unfolding lookup contains_key
absent_of_lookup k [] e = refl
absent_of_lookup k ((j, q) ∷ m) e = ground (arith, absent_of_lookup k m)

-- A transfer that leaves the table is about to be answered.
answer-perm :
    (k : ℕ) (m : List (ℕ × PendingSubmit)) (p : PendingSubmit) (ys zs : List ℕ)
    → UniqueKeys m
    → lookup k m ≡ some p
    → Perm (waiting m ++ ys) zs
    → Perm (waiting (remove k m) ++ (p.reply ∷ ys)) zs
answer-perm k m p ys zs u e v =
    Perm.trans (perm_middle (waiting (remove k m)) ys)
      (Perm.trans (Perm.append (Perm.symm (waiting-remove k m p u e)) (Perm.refl ys)) v)

-- A close is about to answer all that was waiting.
take_pending-IsAccounted :
    (reason : CloseReason) (s : Shared) (xs : List Sending)
    → Counted (unsent xs) s
    → IsAccounted
        (left (to_disconnect reason (take_pending reason s).0) (take_pending reason s).1 xs)
take_pending-IsAccounted reason s xs v = elim (take_pending_branches reason s) [
  | inl (r, e, same) ↦
      subst
        (λ (t : Option (List (ℕ × PendingSubmit)) × Shared).
          IsAccounted (left (to_disconnect reason t.0) t.1 xs))
        (sym same) v
  | inr (e, same) ↦
      subst
        (λ (t : Option (List (ℕ × PendingSubmit)) × Shared).
          IsAccounted (left (to_disconnect reason t.0) t.1 xs))
        (sym same)
        (unfold cleared in
          subst (λ (ys : List ℕ). Perm ys (down_from s.opened))
            (sym (append_assoc (waiting s.state.submits) (unsent xs) (answered s.answers))) v)
]

register-Counted :
    ⦃buf : Buf⦄ (us : List ℕ) (req : SubmitRequest) (s : Shared) (n : ℕ) (st : State)
    → next_seqnum s.state ≡ some (n, st)
    → Counted us s
    → Counted us (register req s n st)
unfolding register insert
register-Counted us req s n st e v =
    let (nonzero, small, new, new', same) = next_seqnum-IsFresh s.state st n e in
    rw (same, remove_absent n s.state.submits new, add-one) (Perm.cons s.opened v)

request_unlink-Counted :
    ⦃buf : Buf⦄ (us : List ℕ) (target : ℕ) (s : Shared) (n : ℕ) (st : State)
    → next_seqnum s.state ≡ some (n, st)
    → Counted us s
    → Counted us (request_unlink target s n st)
unfolding request_unlink
request_unlink-Counted us target s n st e v =
    let (nonzero, small, new, new', same) = next_seqnum-IsFresh s.state st n e in rw same v

submit-Counted :
    ⦃buf : Buf⦄ (us : List ℕ) (req : SubmitRequest) (s s' : Shared) (r : Result TransferError ℕ)
    → submit req s ≡ some (r, s')
    → Counted us s
    → Counted us s'
unfolding SubmitBranches
submit-Counted us req s s' r e v = elim (submit_branches req s) [
  | inl (bad, c, e') ↦ subst (Counted us) (snd_of_some (sym e' ∙ e)) v
  | inr (inl (reason, c, d, e')) ↦ subst (Counted us) (snd_of_some (sym e' ∙ e)) v
  | inr (inr (inl (c, d, n, e'))) ↦ cc
  | inr (inr (inr (n, st, c, d, f, e'))) ↦
      subst (Counted us) (snd_of_some (sym e' ∙ e)) (register-Counted us req s n st f v)
]

unlink-Counted :
    ⦃buf : Buf⦄ (us : List ℕ) (target : ℕ) (s s' : Shared)
    → unlink target s ≡ some s'
    → Counted us s
    → Counted us s'
unfolding UnlinkBranches
unlink-Counted us target s s' e v = elim (unlink_branches target s) [
  | inl (idle, e') ↦ subst (Counted us) (of_some (sym e' ∙ e)) v
  | inr (inl (busy, n, e')) ↦ cc
  | inr (inr (n, st, busy, f, e')) ↦
      subst (Counted us) (of_some (sym e' ∙ e)) (request_unlink-Counted us target s n st f v)
]

take_submit-IsAccounted :
    (seqnum : ℕ) (ret : RetSubmit) (s : Shared) (xs : List Sending)
    → Inv s.state
    → Counted (unsent xs) s
    → IsAccounted
        (left (to_answer (take_submit seqnum s).0 (completed ret)) (take_submit seqnum s).1 xs)
unfolding take_submit
take_submit-IsAccounted seqnum ret s xs i v = elim (Option-cases (lookup seqnum s.state.submits)) [
  | inl e ↦
      rw (e, remove_absent seqnum s.state.submits (absent_of_lookup seqnum s.state.submits e)) v
  | inr (p, e) ↦ rw e (
      answer-perm seqnum s.state.submits p (unsent xs ++ answered s.answers) (down_from s.opened)
        i.submits_unique e v)
]

resolve-IsAccounted :
    (result : TransferResult) (target : ℕ) (s : Shared) (xs : List Sending)
    → UniqueKeys s.state.submits
    → Counted (unsent xs) s
    → IsAccounted (
        left
          (to_answer (resolve target (lookup target s.state.submits) s).0 result)
          (resolve target (lookup target s.state.submits) s).1
          xs)
resolve-IsAccounted result target s xs u v = elim (Option-cases (lookup target s.state.submits)) [
  | inl e ↦ rw e v
  | inr (p, e) ↦ rw e (
      answer-perm target s.state.submits p (unsent xs ++ answered s.answers) (down_from s.opened) u
        e v)
]

take_unlink-IsAccounted :
    (ret : RetUnlink) (result : TransferResult) (s : Shared) (xs : List Sending)
    → Inv s.state
    → Counted (unsent xs) s
    → IsAccounted (left (to_answer (take_unlink ret s).0 result) (take_unlink ret s).1 xs)
unfolding take_unlink
take_unlink-IsAccounted ret result s xs i v =
    let s' : Shared = record s {
      state = record s.state { unlinks = remove ret.seqnum s.state.unlinks };
    } in
    elim (Option-cases (lookup ret.seqnum s.state.unlinks)) [
      | inl e ↦ rw (e, take_unlink) v
      | inr (target, e) ↦
          rw (e, take_unlink) (resolve-IsAccounted result target s' xs i.submits_unique v)
    ]

-- A send moves a channel from those that are about to be sent on to those that have been.
send_one-perm :
    (before : List Sending) (x : Sending) (after : List Sending) (s : Shared)
    → Perm
        (unsent (before ++ with_sending (send_one x s).0 after)
          ++ answered (send_one x s).1.answers)
        (unsent (before ++ x ∷ after) ++ answered s.answers)
unfolding send_one
send_one-perm [] (answering c result) after s = perm_middle (unsent after) (answered s.answers)
send_one-perm [] (disconnecting reason []) after s = Perm.refl _
send_one-perm [] (disconnecting reason ((k, p) ∷ m)) after s =
    perm_middle (waiting m ++ unsent after) (answered s.answers)
send_one-perm (b ∷ before) x after s =
    rw
      (
        append_assoc (channels b) (unsent (before ++ with_sending (send_one x s).0 after))
            (answered (send_one x s).1.answers),
        append_assoc (channels b) (unsent (before ++ x ∷ after)) (answered s.answers),
      )
      (Perm.append (Perm.refl (channels b)) (send_one-perm before x after s))

-- A send changes neither the tables nor the number of channels.
send_one-state :
    (x : Sending) (s : Shared)
    → ((send_one x s).1.state ≡ s.state) × ((send_one x s).1.opened ≡ s.opened)
unfolding send_one
send_one-state (answering c result) s = (refl, refl)
send_one-state (disconnecting reason []) s = (refl, refl)
send_one-state (disconnecting reason (p ∷ m)) s = (refl, refl)

send_one-IsAccounted :
    (before : List Sending) (x : Sending) (after : List Sending) (s : Shared)
    → Counted (unsent (before ++ x ∷ after)) s
    → Counted (unsent (before ++ with_sending (send_one x s).0 after)) (send_one x s).1
send_one-IsAccounted before x after s v =
    let (same, opened) = send_one-state x s in
    rw (same, opened)
      (Perm.trans
        (Perm.append (Perm.refl (waiting s.state.submits)) (send_one-perm before x after s)) v)

Step-IsAccounted :
    ⦃buf : Buf⦄ {s t : Threads} → Step s t → Inv s.shared.state → IsAccounted s → IsAccounted t
Step-IsAccounted (submits req xs {r} {s} {s'} e) i v = submit-Counted (unsent xs) req s s' r e v
Step-IsAccounted (unlinks target xs {s} {s'} e) i v = unlink-Counted (unsent xs) target s s' e v
Step-IsAccounted (closes reason s xs) i v = take_pending-IsAccounted reason s xs v
Step-IsAccounted (completes seqnum ret s xs) i v = take_submit-IsAccounted seqnum ret s xs i v
Step-IsAccounted (cancels ret s xs) i v =
    take_unlink-IsAccounted ret (failed (unlinked ret.status)) s xs i v
Step-IsAccounted (sends before x after s) i v = send_one-IsAccounted before x after s v
Step-IsAccounted (takes s xs) i v = v

-- At every moment, in every interleaving, the reply channels opened so far are those of the pending
-- transfers, those that a thread has taken out of the table and is about to send on, and those that
-- have been sent on, each once.
pub Reach-IsAccounted :
    ⦃buf : Buf⦄ (devid : ℕ) (t : Threads) → Reach (at_rest (start devid)) t → IsAccounted t
Reach-IsAccounted devid t here = unfold start in Perm.nil
Reach-IsAccounted devid t (next {t = u} r st) =
    Step-IsAccounted st (Reach-Inv devid u r) (Reach-IsAccounted devid u r)
