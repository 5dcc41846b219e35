-- ===== src/Client/Unlinking.antt =====
-- What `unlink` of src/client.rs does to the tables and to the channel of frames.
use usbip_macos.Prelude.{
  ℕ, ◌+◌, ◌^◌, ◌<◌, ◌≡◌, ◌≢◌, ◌⊎◌, inl, inr, refl, sym, ◌∙◌, true, false, ◌==◌, ==→eq, eq→==, ne→==,
  List, [], ◌∷◌, ◌++◌, length, Option, none, some, Bool-cases, arith,
}
use usbip_macos.Prelude.Maps.{lookup, contains_key, lookup-insert}
use usbip_macos.Wire.{Buf}
use usbip_macos.Protocol.Requests.{encode_unlink}
use usbip_macos.Client.State.{State, Shared, CloseReason}
use usbip_macos.Client.Session.{next_seqnum, any_target, request_unlink, unlink, is_some_reason}
use usbip_macos.Client.Seqnum.{next_seqnum_total, next_seqnum-IsFresh}
use usbip_macos.Client.Branches.{UnlinkBranches, unlink_branches, is_idle_unlink, not_idle}
use usbip_macos.Client.Issues.{IsUnused}

-- An unlink of this transfer is pending.
abbrev pub IsTarget : ℕ → List (ℕ × ℕ) → Type 0
IsTarget target [] = ⊥
IsTarget target ((k, t) ∷ m) = (t ≡ target) ⊎ IsTarget target m

module _ ⦃buf : Buf⦄ where
  -- The unlink of `target` is pending under `n`, and its frame is the last to be written.
  pub record IsRequested (target : ℕ) (s : Shared) (n : ℕ) (s' : Shared) : Type 0 where
    pub unused : IsUnused s.state n
    pub entry : lookup n s'.state.unlinks ≡ some target
    pub others : (k : ℕ) → k ≢ n → lookup k s'.state.unlinks ≡ lookup k s.state.unlinks
    pub same_submits : s'.state.submits ≡ s.state.submits
    pub same_unlinked : s'.state.unlinked ≡ s.state.unlinked
    pub still_open : s'.state.closed ≡ none
    pub same_answers : s'.answers ≡ s.answers
    pub framed :
        s'.frames
        ≡ s.frames
          ++ encode_unlink (record { seqnum = n; devid = s.devid; unlink_seqnum = target }) [] ∷ []

  -- What `unlink` makes of a target: nothing for a session that is closed, a transfer that is not
  -- pending, or one that an unlink is under way for; else a request.
  abbrev pub Unlinked : ℕ → Shared → Shared → Type 0
  Unlinked target s s' =
      ((s' ≡ s)
        × ((s.state.closed ≢ none)
            ⊎ (contains_key target s.state.submits ≡ false)
            ⊎ IsTarget target s.state.unlinks))
      ⊎ ((s.state.closed ≡ none)
          × (contains_key target s.state.submits ≡ true)
          × (¬ IsTarget target s.state.unlinks)
          × ((n : ℕ) × IsRequested target s n s'))

any_target-IsTarget :
    (target : ℕ) (m : List (ℕ × ℕ)) → any_target target m ≡ true → IsTarget target m
unfolding any_target
any_target-IsTarget target [] h = absurd (ground (arith, h))
any_target-IsTarget target ((k, t) ∷ m) h = elim (Bool-cases (t == target)) [
  | inl hit ↦ inl (==→eq t target hit)
  | inr miss ↦ inr (any_target-IsTarget target m (ground (arith, h, miss)))
]

IsTarget-any_target :
    (target : ℕ) (m : List (ℕ × ℕ)) → IsTarget target m → any_target target m ≡ true
unfolding any_target
IsTarget-any_target target [] v = absurd v
IsTarget-any_target target ((k, t) ∷ m) (inl e) = rw (eq→== t target e) refl
IsTarget-any_target target ((k, t) ∷ m) (inr v) = ground (arith, IsTarget-any_target target m v)

some_reason-open : (o : Option CloseReason) → is_some_reason o ≡ true → o ≢ none
unfolding is_some_reason
some_reason-open none h q = ground (arith, h)
some_reason-open (some r) h q = cc

module _ ⦃buf : Buf⦄ where
  request_unlink-IsRequested :
      (target : ℕ) (s : Shared) (n : ℕ) (st : State)
      → next_seqnum s.state ≡ some (n, st)
      → s.state.closed ≡ none
      → IsRequested target s n (request_unlink target s n st)
  unfolding request_unlink
  request_unlink-IsRequested target s n st e unclosed =
      let (nonzero, small, new, new', same) = next_seqnum-IsFresh s.state st n e in
      record {
        unused = (nonzero, small, new, new');
        entry = rw same (lookup-insert n n target s.state.unlinks ∙ rw (eq→== n n refl) refl);
        others = λ k d.
            rw same
              (lookup-insert k n target s.state.unlinks ∙ rw (ne→== n k (λ q. d (sym q))) refl);
        same_submits = rw same refl;
        same_unlinked = rw same refl;
        still_open = rw same unclosed;
        same_answers = refl;
        framed = refl;
      }

  idle-Unlinked : (target : ℕ) (s : Shared) → is_idle_unlink target s ≡ true → Unlinked target s s
  unfolding is_idle_unlink
  idle-Unlinked target s h = elim (Bool-cases (is_some_reason s.state.closed)) [
    | inl closed ↦ inl (refl, inl (some_reason-open s.state.closed closed))
    | inr unclosed ↦ elim (Bool-cases (contains_key target s.state.submits)) [
      | inr absent ↦ inl (refl, inr (inl absent))
      | inl there ↦ inl (
        refl,
        inr (inr (any_target-IsTarget target s.state.unlinks (ground (arith, h, unclosed, there)))),
      )
    ]
  ]

  -- While fewer than 2 ^ 32 - 1 seqnums are in use, `unlink` returns. For a closed session, a transfer
  -- that is not pending, or one that an unlink is pending for, nothing changes; else the unlink is
  -- pending under an unused seqnum, its frame follows those that wait, and no other entry changes.
  pub unlink_lem :
      (target : ℕ) (s : Shared)
      → length s.state.submits + length s.state.unlinks + 1 < 2 ^ 32
      → (s' : Shared) × (unlink target s ≡ some s') × Unlinked target s s'
  unfolding UnlinkBranches
  unlink_lem target s few = elim (unlink_branches target s) [
    | inl (idle, e) ↦ (s, e, idle-Unlinked target s idle)
    | inr (inl (busy, n, e)) ↦
        absurd (let (k, f) = next_seqnum_total s.state few in ground (arith, n, f))
    | inr (inr (n, st, busy, f, e)) ↦
        let (unclosed, there, alone) = not_idle target s busy in
        (
          request_unlink target s n st,
          e,
          inr (
            unclosed,
            there,
            λ v. ground (arith, alone, IsTarget-any_target target s.state.unlinks v),
            (n, request_unlink-IsRequested target s n st f unclosed),
          ),
        )
  ]
