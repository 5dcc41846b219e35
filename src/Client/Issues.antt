-- ===== src/Client/Issues.antt =====
-- What `submit` of src/client.rs does to the tables and to the channel of frames.
use usbip_macos.Prelude.{
  ℕ, ◌+◌, ◌^◌, ◌<◌, ◌≡◌, ◌≢◌, ◌⊎◌, inl, inr, refl, sym, ◌∙◌, true, false, eq→==, ne→==, [], ◌∷◌,
  ◌++◌, length, none, some, Result, ok, err, bit_and, Bool-cases, arith,
}
use usbip_macos.Prelude.Maps.{lookup, contains_key, lookup-insert}
use usbip_macos.Wire.{Buf}
use usbip_macos.Protocol.Types.{direction_code, is_in, is_out}
use usbip_macos.Protocol.Requests.{encode_submit}
use usbip_macos.Client.State.{
  State, PendingSubmit, Shared, SubmitRequest, CloseReason, TransferError, disconnected,
}
use usbip_macos.Client.Session.{next_seqnum, check_request, cmd_of, register, submit}
use usbip_macos.Client.Seqnum.{next_seqnum_total, next_seqnum-IsFresh}
use usbip_macos.Client.Branches.{SubmitBranches, submit_branches}

-- An OUT request has as much data as it announces, an IN request none.
abbrev pub IsValid : SubmitRequest → Type 0
IsValid req =
    (is_out req.direction ≡ true → length req.payload ≡ req.length)
    × (is_in req.direction ≡ true → length req.payload ≡ 0)

-- A number that is neither 0 nor wider than 32 bits and that stands for nothing yet.
abbrev pub IsUnused : State → ℕ → Type 0
IsUnused st n =
    (n ≢ 0)
    × (n < 2 ^ 32)
    × (contains_key n st.submits ≡ false)
    × (contains_key n st.unlinks ≡ false)

module _ ⦃buf : Buf⦄ where
  -- The request is pending under `n` with a new channel, and its frame is the last to be written.
  pub record IsIssued (req : SubmitRequest) (s : Shared) (n : ℕ) (s' : Shared) : Type 0 where
    pub unused : IsUnused s.state n
    pub entry :
        lookup n s'.state.submits
        ≡ some (record { direction = req.direction; length = req.length; reply = s.opened })
    pub others : (k : ℕ) → k ≢ n → lookup k s'.state.submits ≡ lookup k s.state.submits
    pub same_unlinks : s'.state.unlinks ≡ s.state.unlinks
    pub same_unlinked : s'.state.unlinked ≡ s.state.unlinked
    pub still_open : s'.state.closed ≡ none
    pub same_answers : s'.answers ≡ s.answers
    pub new_channel : s'.opened ≡ s.opened + 1
    pub framed :
        s'.frames
        ≡ s.frames
          ++ encode_submit
              (record {
                seqnum = n;
                devid = s.devid;
                direction = direction_code req.direction;
                ep = bit_and req.ep 0x0f;
                transfer_flags = req.transfer_flags;
                transfer_buffer_length = req.length;
                start_frame = req.start_frame;
                interval = req.interval;
                setup = req.setup;
                payload = req.payload;
                iso_packets = req.iso_packets;
              })
              []
            ∷ []

  -- What `submit` makes of a request.
  abbrev pub Submitted : SubmitRequest → Shared → Result TransferError ℕ → Shared → Type 0
  Submitted req s (ok n) s' = IsValid req × (s.state.closed ≡ none) × IsIssued req s n s'
  Submitted req s (err e) s' =
      (s' ≡ s)
      × ((¬ IsValid req)
          ⊎ (IsValid req
              × ((reason : CloseReason) × (s.state.closed ≡ some reason)
                  × (e ≡ disconnected reason))))

check_request-IsValid : (req : SubmitRequest) → check_request req ≡ none → IsValid req
unfolding check_request
check_request-IsValid req h = (λ o. ground (arith, h, o), λ i. ground (arith, h, i))

check_request-refuses :
    (req : SubmitRequest) (e : TransferError) → check_request req ≡ some e → ¬ IsValid req
unfolding check_request
check_request-refuses req e h v = elim (Bool-cases (is_out req.direction)) [
  | inl out ↦ elim (Bool-cases (is_in req.direction)) [
    | inl in_too ↦ ground (arith, h, v.0 out, v.1 in_too)
    | inr not_in ↦ ground (arith, h, v.0 out, not_in)
  ]
  | inr not_out ↦ elim (Bool-cases (is_in req.direction)) [
    | inl in_only ↦ ground (arith, h, v.1 in_only, not_out)
    | inr not_in ↦ ground (arith, h, not_out, not_in)
  ]
]

module _ ⦃buf : Buf⦄ where
  register-IsIssued :
      (req : SubmitRequest) (s : Shared) (n : ℕ) (st : State)
      → next_seqnum s.state ≡ some (n, st)
      → s.state.closed ≡ none
      → IsIssued req s n (register req s n st)
  unfolding register cmd_of
  register-IsIssued req s n st e unclosed =
      let (nonzero, small, new, new', same) = next_seqnum-IsFresh s.state st n e in
      let p : PendingSubmit = record {
        direction = req.direction;
        length = req.length;
        reply = s.opened;
      } in
      record {
        unused = (nonzero, small, new, new');
        entry = rw same (lookup-insert n n p s.state.submits ∙ rw (eq→== n n refl) refl);
        others = λ k d.
            rw same (lookup-insert k n p s.state.submits ∙ rw (ne→== n k (λ q. d (sym q))) refl);
        same_unlinks = rw same refl;
        same_unlinked = rw same refl;
        still_open = rw same unclosed;
        same_answers = refl;
        new_channel = refl;
        framed = refl;
      }

  -- While fewer than 2 ^ 32 - 1 seqnums are in use, `submit` returns. A request whose data do not fit
  -- its direction and length is refused, and any request to a closed session, and then nothing
  -- changes; every other request becomes pending under an unused seqnum with a new channel, and its
  -- frame follows those that wait; no other entry changes.
  pub submit_lem :
      (req : SubmitRequest) (s : Shared)
      → length s.state.submits + length s.state.unlinks + 1 < 2 ^ 32
      → (r : Result TransferError ℕ) × (s' : Shared) × (submit req s ≡ some (r, s'))
        × Submitted req s r s'
  unfolding SubmitBranches
  submit_lem req s few = elim (submit_branches req s) [
    | inl (bad, c, e) ↦ (err bad, s, e, (refl, inl (check_request-refuses req bad c)))
    | inr (inl (reason, c, d, e)) ↦ (
      err (disconnected reason),
      s,
      e,
      (refl, inr (check_request-IsValid req c, (reason, d, refl))),
    )
    | inr (inr (inl (c, d, n, e))) ↦
        absurd (let (k, f) = next_seqnum_total s.state few in ground (arith, n, f))
    | inr (inr (inr (n, st, c, d, f, e))) ↦ (
      ok n,
      register req s n st,
      e,
      (check_request-IsValid req c, d, register-IsIssued req s n st f d),
    )
  ]
