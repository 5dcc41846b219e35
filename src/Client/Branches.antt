-- ===== src/Client/Branches.antt =====
-- What `submit`, `unlink` and `close` of src/client.rs do, branch by branch.
use usbip_macos.Prelude.{
  ℕ, ◌≡◌, refl, ◌⊎◌, inl, inr, ◌||◌, not, Bool, true, false, Option, none, some, Option-cases,
  Bool-cases, [], ok, err, arith,
}
use usbip_macos.Prelude.Maps.{contains_key}
use usbip_macos.Wire.{Buf}
use usbip_macos.Client.State.{
  State, Shared, SubmitRequest, CloseReason, TransferError, disconnected,
}
use usbip_macos.Client.Session.{
  take_pending, next_seqnum, check_request, register, submit, any_target, is_some_reason,
  request_unlink, unlink,
}

-- The new state of a session after a call that ended.
pub snd_of_some {ℓ} :
    {A : Type ℓ} {B : Type ℓ} {a a' : A} {b b' : B}
    → ◌≡◌ {A = Option (A × B)} (some (a, b)) (some (a', b'))
    → b ≡ b'
snd_of_some e = cc

pub of_some : {s t : Shared} → some s ≡ some t → s ≡ t
of_some e = cc

module _ ⦃buf : Buf⦄ (req : SubmitRequest) (s : Shared) where
  unfoldable pub SubmitBranches : Type 0
  SubmitBranches =
      ((e : TransferError) × (check_request req ≡ some e) × (submit req s ≡ some (err e, s)))
      ⊎ ((reason : CloseReason) × (check_request req ≡ none)
          × (s.state.closed ≡ some reason)
          × (submit req s ≡ some (err (disconnected reason), s)))
      ⊎ ((check_request req ≡ none)
          × (s.state.closed ≡ none)
          × (next_seqnum s.state ≡ none)
          × (submit req s ≡ none))
      ⊎ ((n : ℕ) × (st : State) × (check_request req ≡ none)
          × (s.state.closed ≡ none)
          × (next_seqnum s.state ≡ some (n, st))
          × (submit req s ≡ some (ok n, register req s n st)))

  -- `submit` refuses a bad request first and a closed session then, and else registers the request
  -- under the next seqnum.
  pub submit_branches : SubmitBranches
  unfolding submit SubmitBranches
  submit_branches = elim (Option-cases (check_request req)) [
    | inr (e, c) ↦ inl (e, c, ground arith)
    | inl c ↦ elim (Option-cases s.state.closed) [
      | inr (reason, d) ↦ inr (inl (reason, c, d, ground arith))
      | inl d ↦ elim (Option-cases (next_seqnum s.state)) [
        | inl n ↦ inr (inr (inl (c, d, n, ground arith)))
        | inr ((n, st), f) ↦ inr (inr (inr (n, st, c, d, f, ground arith)))
      ]
    ]
  ]

-- When `unlink` asks the server for nothing: the session is closed, the transfer unknown, or an
-- unlink of it under way.
unfoldable pub is_idle_unlink : ℕ → Shared → Bool
unfolding is_some_reason any_target
is_idle_unlink target s =
    is_some_reason s.state.closed
    || (not (contains_key target s.state.submits) || any_target target s.state.unlinks)

module _ ⦃buf : Buf⦄ (target : ℕ) (s : Shared) where
  unfoldable pub UnlinkBranches : Type 0
  UnlinkBranches =
      ((is_idle_unlink target s ≡ true) × (unlink target s ≡ some s))
      ⊎ ((is_idle_unlink target s ≡ false)
          × (next_seqnum s.state ≡ none)
          × (unlink target s ≡ none))
      ⊎ ((n : ℕ) × (st : State) × (is_idle_unlink target s ≡ false)
          × (next_seqnum s.state ≡ some (n, st))
          × (unlink target s ≡ some (request_unlink target s n st)))

  -- `unlink` sends nothing for a closed session, an unknown transfer or one that is being unlinked,
  -- and else registers the unlink under the next seqnum.
  pub unlink_branches : UnlinkBranches
  unfolding UnlinkBranches unlink is_idle_unlink
  unlink_branches = elim (Bool-cases (is_idle_unlink target s)) [
    | inl idle ↦ inl (idle, rw idle)
    | inr busy ↦ elim (Option-cases (next_seqnum s.state)) [
      | inl n ↦ inr (inl (busy, n, ground arith))
      | inr ((n, st), f) ↦ inr (inr (n, st, busy, f, ground arith))
    ]
  ]

pub not_idle :
    (target : ℕ) (s : Shared)
    → is_idle_unlink target s ≡ false
    → (s.state.closed ≡ none)
      × (contains_key target s.state.submits ≡ true)
      × (any_target target s.state.unlinks ≡ false)
unfolding is_idle_unlink is_some_reason
not_idle target s h = ground arith

module _ (reason : CloseReason) (s : Shared) where
  -- The session as its first close leaves the critical section.
  unfoldable pub cleared : Shared
  cleared = record s { state = record s.state { closed = some reason; unlinks = []; submits = [] } }

  pub take_pending_branches :
      ((r : CloseReason) × (s.state.closed ≡ some r) × (take_pending reason s ≡ (none, s)))
      ⊎ ((s.state.closed ≡ none) × (take_pending reason s ≡ (some s.state.submits, cleared)))
  unfolding cleared
  take_pending_branches = elim (Option-cases s.state.closed) [
    | inr (r, e) ↦ inl (r, e, rw e refl)
    | inl e ↦ inr (e, rw e refl)
  ]
