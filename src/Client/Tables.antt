-- ===== src/Client/Tables.antt =====
-- The tables of a session stay well formed under the calls of src/client.rs.
use usbip_macos.Prelude.{
  ℕ, ◌^◌, ◌<◌, ◌≤◌, ◌≡◌, ◌≢◌, inl, inr, refl, sym, subst, ◌∙◌, List, [], ◌∷◌, length, arith, true,
  false, none, some, Option, Result,
}
use usbip_macos.Prelude.Maps.{
  lookup, contains_key, UniqueKeys, lookup-insert, contains_key-insert, insert-UniqueKeys,
}
use usbip_macos.Wire.{Buf}
use usbip_macos.Client.State.{
  State, PendingSubmit, Shared, SubmitRequest, CloseReason, Unlinked, TransferError, start,
  default_state,
}
use usbip_macos.Client.Session.{
  take_pending, Sending, answering, disconnecting, send_one, next_seqnum, register, submit,
  any_target, request_unlink, unlink,
}
use usbip_macos.Client.Receive.{forget_unlinked}
use usbip_macos.Client.Branches.{
  SubmitBranches, submit_branches, UnlinkBranches, unlink_branches, not_idle, take_pending_branches,
  cleared, snd_of_some, of_some,
}
use usbip_macos.Client.Seqnum.{next_seqnum-IsFresh}

-- Every table has each key once; a seqnum stands for one thing, and is neither 0 nor more than 32
-- bits; an unlink is for a transfer that is pending, and there is one at most for each; at most 256
-- resolved transfers are remembered; and a closed session has nothing pending.
pub record Inv (st : State) : Type 0 where
  pub submits_unique : UniqueKeys st.submits
  pub unlinks_unique : UniqueKeys st.unlinks
  pub separate : (k : ℕ) → contains_key k st.unlinks ≡ true → contains_key k st.submits ≡ false
  pub submits_range : (k : ℕ) → contains_key k st.submits ≡ true → (k ≢ 0) × (k < 2 ^ 32)
  pub unlinks_range : (k : ℕ) → contains_key k st.unlinks ≡ true → (k ≢ 0) × (k < 2 ^ 32)
  pub targets : (k t : ℕ) → lookup k st.unlinks ≡ some t → contains_key t st.submits ≡ true
  pub targets_once :
      (j k t : ℕ) → lookup j st.unlinks ≡ some t → lookup k st.unlinks ≡ some t → j ≡ k
  pub memory : length st.unlinked ≤ 256
  pub closed_empty : (r : CloseReason) → st.closed ≡ some r → (st.submits ≡ []) × (st.unlinks ≡ [])

-- A session with nothing pending.
empty-Inv : (st : State) → st.submits ≡ [] → st.unlinks ≡ [] → length st.unlinked ≤ 256 → Inv st
unfolding lookup contains_key
empty-Inv st es eu hm = record {
  submits_unique = rw es tt;
  unlinks_unique = rw eu tt;
  separate = λ k h. rw es;
  submits_range = λ k h. ground arith;
  unlinks_range = λ k h. ground arith;
  targets = λ k t h. ground arith;
  targets_once = λ j k t h h'. ground arith;
  memory = hm;
  closed_empty = λ r h. (es, eu);
}

pub start-Inv : (devid : ℕ) → Inv (start devid).state
unfolding start
start-Inv devid = empty-Inv default_state refl refl (omega arith)

pub take_pending-Inv :
    (reason : CloseReason) (s : Shared) → Inv s.state → Inv (take_pending reason s).1.state
take_pending-Inv reason s v = elim (take_pending_branches reason s) [
  | inl (r, e, same) ↦
      subst (λ (t : Option (List (ℕ × PendingSubmit)) × Shared). Inv t.1.state) (sym same) v
  | inr (e, same) ↦
      subst (λ (t : Option (List (ℕ × PendingSubmit)) × Shared). Inv t.1.state) (sym same)
        (unfold cleared in empty-Inv (cleared reason s).state refl refl v.memory)
]

-- A send changes no table.
pub send_one-Inv : (x : Sending) (s : Shared) → Inv s.state → Inv (send_one x s).1.state
unfolding send_one
send_one-Inv (answering channel result) s v = v
send_one-Inv (disconnecting reason []) s v = v
send_one-Inv (disconnecting reason (p ∷ pending)) s v = v

register-Inv :
    ⦃buf : Buf⦄ (req : SubmitRequest) (s : Shared) (n : ℕ) (st : State)
    → next_seqnum s.state ≡ some (n, st)
    → s.state.closed ≡ none
    → Inv s.state
    → Inv (register req s n st).state
unfolding register
register-Inv req s n st e unclosed v =
    let (nonzero, small, new, new', same) = next_seqnum-IsFresh s.state st n e in
    let p : PendingSubmit = record {
      direction = req.direction;
      length = req.length;
      reply = s.opened;
    } in
    let m = s.state.submits in
    rw same (record {
      submits_unique = insert-UniqueKeys n p m v.submits_unique;
      unlinks_unique = v.unlinks_unique;
      separate = λ k h. ground (arith, v.separate k h, contains_key-insert k n p m);
      submits_range = λ k h. ground (arith, v.submits_range k, contains_key-insert k n p m);
      unlinks_range = v.unlinks_range;
      targets = λ k t h. ground (arith, v.targets k t h, contains_key-insert t n p m);
      targets_once = v.targets_once;
      memory = v.memory;
      closed_empty = λ r h. ground arith;
    })

any_target-free :
    (t : ℕ) (m : List (ℕ × ℕ)) → any_target t m ≡ false → (k : ℕ) → lookup k m ≢ some t
unfolding any_target lookup
any_target-free t [] h k e = cc
any_target-free t ((j, t') ∷ m) h k e = ground (arith, any_target-free t m (ground arith) k)

request_unlink-Inv :
    ⦃buf : Buf⦄ (target : ℕ) (s : Shared) (n : ℕ) (st : State)
    → next_seqnum s.state ≡ some (n, st)
    → s.state.closed ≡ none
    → contains_key target s.state.submits ≡ true
    → any_target target s.state.unlinks ≡ false
    → Inv s.state
    → Inv (request_unlink target s n st).state
unfolding request_unlink
request_unlink-Inv target s n st e unclosed there alone v =
    let (nonzero, small, new, new', same) = next_seqnum-IsFresh s.state st n e in
    let m = s.state.unlinks in
    let free = any_target-free target m alone in
    rw same (record {
      submits_unique = v.submits_unique;
      unlinks_unique = insert-UniqueKeys n target m v.unlinks_unique;
      separate = λ k h. ground (arith, v.separate k, contains_key-insert k n target m);
      submits_range = v.submits_range;
      unlinks_range = λ k h. ground (arith, v.unlinks_range k, contains_key-insert k n target m);
      targets = λ k t h. ground (arith, v.targets k t, lookup-insert k n target m);
      targets_once = λ j k t h h'. ground (
        arith,
        v.targets_once j k t,
        lookup-insert j n target m,
        lookup-insert k n target m,
        free j,
        free k,
      );
      memory = v.memory;
      closed_empty = λ r h. ground arith;
    })

-- `submit` keeps the tables well formed, on every branch.
pub submit-Inv :
    ⦃buf : Buf⦄ (req : SubmitRequest) (s s' : Shared) (r : Result TransferError ℕ)
    → submit req s ≡ some (r, s')
    → Inv s.state
    → Inv s'.state
unfolding SubmitBranches
submit-Inv req s s' r e v = elim (submit_branches req s) [
  | inl (bad, c, e') ↦ subst (λ (t : Shared). Inv t.state) (snd_of_some (sym e' ∙ e)) v
  | inr (inl (reason, c, d, e')) ↦ subst (λ (t : Shared). Inv t.state) (snd_of_some (sym e' ∙ e)) v
  | inr (inr (inl (c, d, n, e'))) ↦ cc
  | inr (inr (inr (n, st, c, d, f, e'))) ↦
      subst (λ (t : Shared). Inv t.state) (snd_of_some (sym e' ∙ e)) (register-Inv req s n st f d v)
]

pub unlink-Inv :
    ⦃buf : Buf⦄ (target : ℕ) (s s' : Shared)
    → unlink target s ≡ some s'
    → Inv s.state
    → Inv s'.state
unfolding UnlinkBranches
unlink-Inv target s s' e v = elim (unlink_branches target s) [
  | inl (idle, e') ↦ subst (λ (t : Shared). Inv t.state) (of_some (sym e' ∙ e)) v
  | inr (inl (busy, n, e')) ↦ cc
  | inr (inr (n, st, busy, f, e')) ↦
      let (unclosed, there, alone) = not_idle target s busy in
      subst (λ (t : Shared). Inv t.state) (of_some (sym e' ∙ e))
        (request_unlink-Inv target s n st f unclosed there alone v)
]

pub length-forget_unlinked :
    (n : ℕ) (us : List Unlinked) → length (forget_unlinked n us) ≤ length us
unfolding forget_unlinked
length-forget_unlinked n [] = omega arith
length-forget_unlinked n (u ∷ us) = ground (arith, length-forget_unlinked n us)
