-- ===== src/Engine/Sends.antt =====
-- What `submit` and `fill` of src/engine.rs do are steps of the contract.
use usbip_macos.Prelude.{
  ℕ, zero, suc, ◌≤◌, ◌<◌, ◌≡◌, refl, sym, subst, true, false, Bool-cases, not, ◌&&◌, inl, inr, List,
  [], ◌∷◌, Option, none, some, Option-cases, length, Result, ok, err, arith,
}
use usbip_macos.Protocol.Types.{Speed}
use usbip_macos.Client.State.{SubmitRequest, TransferError}
use usbip_macos.Hci.Messages.{Transfer}
use usbip_macos.Hci.Endpoints.{EndpointKind, control, isochronous, bulk, interrupt}
use usbip_macos.Engine.Types.{
  Ring, Link, depth, Stage, InFlight, Work, Turn, goes_on, ends, Submitted, submitted, refused,
  pump_again,
}
use usbip_macos.Engine.Requests.{error_status, complete, data_request}
use usbip_macos.Engine.Pump.{
  is_offline, is_empty, is_full, accept, new_flight, reject, submit_result, submit_urb,
  fill_request, fill_message, fill_round, fill,
}
use usbip_macos.Engine.Contract.{
  View, view, view_of, IsNext, answers, issues, Leads, Leads-refl, Leads-Step, Leads-trans,
}

is_empty_lem : (fs : List InFlight) → is_empty fs ≡ true → fs ≡ []
unfolding is_empty
is_empty_lem [] h = refl
is_empty_lem (f ∷ fs) h = cc

pub depth-le : (k : EndpointKind) → depth k ≤ 32
unfolding depth
depth-le control = omega arith
depth-le isochronous = omega arith
depth-le bulk = omega arith
depth-le interrupt = omega arith

module _ {R : Type 0} ⦃rg : Ring R⦄ where
  open rg use {peek}

  IsNext-ahead :
      (r : R) (fs : List InFlight) (message : ℕ) (t : Transfer)
      → is_empty fs ≡ false
      → peek r (length fs) ≡ some (message, t)
      → IsNext r fs message
  unfolding IsNext is_empty
  IsNext-ahead r [] message t h e = cc
  IsNext-ahead r (f ∷ fs) message t h e = (t, e)

module _ {R S : Type 0} ⦃rg : Ring R⦄ where
  abbrev pub LeadsTurn : View R → Option (Turn R S) → Type 0
  LeadsTurn v none = Unit
  LeadsTurn v (some (goes_on gone w)) = Leads v (view_of w)
  LeadsTurn v (some (ends w)) = Leads v (view_of w)

  abbrev pub LeadsSubmitted : View R → R → Option (Submitted R S) → Type 0
  LeadsSubmitted v r none = Unit
  LeadsSubmitted v r (some (submitted w)) = Leads v (view_of w) × (w.ep.ring ≡ r)
  LeadsSubmitted v r (some (refused w)) = Leads v (view_of w)
  LeadsSubmitted v r (some (pump_again w)) = Leads v (view_of w)

  pub LeadsTurn-trans :
      (v : View R) (w : Work R S) (o : Option (Turn R S))
      → Leads v (view_of w)
      → LeadsTurn (view_of w) o
      → LeadsTurn v o
  LeadsTurn-trans v w none a b = _
  LeadsTurn-trans v w (some (goes_on gone u)) a b = Leads-trans a b
  LeadsTurn-trans v w (some (ends u)) a b = Leads-trans a b

module _ {R S : Type 0} ⦃rg : Ring R⦄ ⦃lk : Link S⦄ where
  open rg use {active, current, peek, complete_head}
  open lk use {submit}

  reject-Leads :
      (w : Work R S) (e : TransferError)
      → active w.ep.ring ≡ true
      → LeadsSubmitted (view_of w) w.ep.ring (some (reject w e))
  unfolding reject complete
  reject-Leads w e ac = elim (Bool-cases (is_empty w.ep.in_flight)) [
    | inr some_left ↦ rw some_left (Leads-refl (view_of w))
    | inl nothing ↦
        let st = error_status e in
        let done =
          subst
            (λ (fs : List InFlight).
              Leads (view w.ep.ring fs w.next_token)
                (view (complete_head st [] 0 w.ep.ring).1 fs w.next_token))
            (sym (is_empty_lem w.ep.in_flight nothing))
            (Leads-Step [] (answers w.ep.ring w.next_token st ac)) in
        elim (Bool-cases ((complete_head st [] 0 w.ep.ring).0 && not (is_offline st))) [
          | inl again ↦ rw (nothing, again) done
          | inr over ↦ rw (nothing, over) done
        ]
  ]

  -- A submission takes one step: a new URB for the next message, or an answer to the head.
  pub submit_urb-Leads :
      (w : Work R S) (message : ℕ) (req : SubmitRequest) (stage : Stage)
      → active w.ep.ring ≡ true
      → IsNext w.ep.ring w.ep.in_flight message
      → length w.ep.in_flight < 32
      → LeadsSubmitted (view_of w) w.ep.ring (submit_urb w message req stage)
  unfolding submit_urb submit_result accept new_flight
  submit_urb-Leads w message req stage ac nx few = elim (Option-cases (submit req w.session)) [
    | inl stuck ↦ rw (stuck, LeadsSubmitted) _
    | inr ((r, s), e) ↦ rw (e, LeadsSubmitted) (sent r s)
  ]
    where
      sent :
          (r : Result TransferError ℕ) (s : S)
          → LeadsSubmitted (view_of w) w.ep.ring (some (submit_result w message req stage r s))
      sent (ok seqnum) s = (
        Leads-Step [] (
            issues w.ep.ring w.ep.in_flight w.next_token (new_flight w message req stage seqnum) ac
              nx refl refl few),
        refl,
      )
      sent (err e) s = reject-Leads (record w { session = s }) e ac

  fill_round-Leads :
      (speed : Speed) (w : Work R S)
      → active w.ep.ring ≡ true
      → LeadsSubmitted (view_of w) w.ep.ring (fill_round speed w)
  unfolding fill_round fill_message fill_request is_full
  fill_round-Leads speed w ac = elim (Bool-cases (is_full w.ep)) [
    | inl full ↦ rw full (Leads-refl (view_of w))
    | inr room ↦ elim (Option-cases (peek w.ep.ring (length w.ep.in_flight))) [
      | inl nothing ↦ rw (room, nothing) (Leads-refl (view_of w))
      | inr ((message, t), e) ↦
          elim (Option-cases (data_request speed w.ep w.key (length w.ep.in_flight) t)) [
            | inl other ↦ rw (room, e, other) (Leads-refl (view_of w))
            | inr ((req, stage), d) ↦
                rw (room, e, d)
                  (submit_urb-Leads w message req stage ac
                    (IsNext-ahead w.ep.ring w.ep.in_flight message t (ground (arith, room)) e)
                    (ground (arith, room, depth-le w.ep.info.kind)))
          ]
    ]
  ]

  -- `submitted` is where the loop goes on.
  fill_on :
      (v : View R) (r : R) (speed : Speed) (fuel : ℕ)
      → ((w : Work R S) → active w.ep.ring ≡ true → LeadsTurn (view_of w) (fill speed fuel w))
      → active r ≡ true
      → (w : Work R S) → Leads v (view_of w)
      → w.ep.ring ≡ r
      → LeadsTurn v (fill speed fuel w)
  fill_on v r speed fuel ih ac w a e =
      LeadsTurn-trans v w (fill speed fuel w) a
        (ih w (subst (λ (t : R). active t ≡ true) (sym e) ac))

  fill-suc :
      (speed : Speed) (fuel : ℕ) (w : Work R S)
      → ((u : Work R S) → active u.ep.ring ≡ true → LeadsTurn (view_of u) (fill speed fuel u))
      → active w.ep.ring ≡ true
      → (o : Option (Submitted R S)) → fill_round speed w ≡ o
      → LeadsSubmitted (view_of w) w.ep.ring o
      → LeadsTurn (view_of w) (fill speed (suc fuel) w)
  unfolding fill
  fill-suc speed fuel w ih ac none e l = rw (e, LeadsTurn) _
  fill-suc speed fuel w ih ac (some (submitted u)) e l =
      rw (e, LeadsTurn) (fill_on (view_of w) w.ep.ring speed fuel ih ac u l.0 l.1)
  fill-suc speed fuel w ih ac (some (refused u)) e l = rw (e, LeadsTurn) l
  fill-suc speed fuel w ih ac (some (pump_again u)) e l = rw (e, LeadsTurn) l

  -- Whatever `fill` does is a sequence of steps.
  pub fill-Leads :
      (speed : Speed) (fuel : ℕ) (w : Work R S)
      → active w.ep.ring ≡ true
      → LeadsTurn (view_of w) (fill speed fuel w)
  unfolding fill
  fill-Leads speed zero w ac = _
  fill-Leads speed (suc fuel) w ac =
      fill-suc speed fuel w (fill-Leads speed fuel) ac (fill_round speed w) refl
        (fill_round-Leads speed w ac)
