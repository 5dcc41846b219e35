-- ===== src/Engine/Heads.antt =====
-- What `head_request` of src/engine.rs does is steps of the contract.
use usbip_macos.Prelude.{
  ℕ, ◌≡◌, refl, Bool, true, false, Bool-cases, inl, inr, [], Option, none, some, if◌then◌else◌,
}
use usbip_macos.Protocol.Types.{Speed}
use usbip_macos.Client.State.{SubmitRequest}
use usbip_macos.Hci.Messages.{
  Transfer, setup, normal, status, isochronous, link_to, other, Status, success, error,
}
use usbip_macos.Engine.Types.{
  Ring, Stage, control_data, control_status, Setup, Endpoint, Next, continues_next, stops_next,
  submits,
}
use usbip_macos.Engine.Requests.{
  is_control, complete, data_request, continue_if, control_data_stage, control_status_stage,
  submit_data, head_request,
}
use usbip_macos.Engine.Contract.{view, answers, Leads, Leads-refl, Leads-Step}

-- A property of what `head_request` does has three cases: the head is answered, left alone, or made into
-- a request.
module _ {R : Type 0} ⦃rg : Ring R⦄ (Q : Next × Endpoint R → Type 0) (ep : Endpoint R)
    (answered : (s : Option Setup) (st : Status)
      → Q (continue_if (complete (record ep { setup = s }) st [] 0)))
    (left_alone : Q (stops_next, ep))
    (sent : (req : SubmitRequest) (stage : Stage) → Q (submits req stage, ep)) where
  either : (b : Bool) (x y : Next × Endpoint R) → Q x → Q y → Q (if b then x else y)
  either true x y hx hy = hx
  either false x y hx hy = hy

  control_data_stage_cases : (length : ℕ) (s : Option Setup) → Q (control_data_stage ep length s)
  unfolding control_data_stage
  control_data_stage_cases length none = answered ep.setup error
  control_data_stage_cases length (some s) =
      either s.data_done _ _ (answered ep.setup error) (sent _ control_data)

  control_status_stage_cases : (s : Option Setup) → Q (control_status_stage ep s)
  unfolding control_status_stage
  control_status_stage_cases none = answered none success
  control_status_stage_cases (some s) =
      either s.data_done _ _ (answered none success) (sent _ control_status)

  submit_data_cases : (o : Option (SubmitRequest × Stage)) → Q (submit_data ep o)
  unfolding submit_data
  submit_data_cases none = left_alone
  submit_data_cases (some (req, stage)) = sent req stage

  pub head_request_cases :
      (speed : Speed) (key : ℕ) (t : Transfer) → Q (head_request speed ep key t)
  unfolding head_request
  head_request_cases speed key (setup bytes) =
      either (is_control key) _ _
        (answered (some (record { bytes = bytes; data_done = false })) success)
        (answered ep.setup error)
  head_request_cases speed key (normal length) =
      either (is_control key) _ _ (control_data_stage_cases length ep.setup)
        (submit_data_cases (data_request speed ep key 0 (normal length)))
  head_request_cases speed key status =
      either (is_control key) _ _ (control_status_stage_cases ep.setup) (answered ep.setup error)
  head_request_cases speed key (isochronous length frame) =
      either (is_control key) _ _ (answered ep.setup error)
        (submit_data_cases (data_request speed ep key 0 (isochronous length frame)))
  head_request_cases speed key (link_to needs_response) =
      either needs_response _ _ (answered ep.setup success) left_alone
  head_request_cases speed key (other kind) = answered ep.setup error

module _ {R : Type 0} ⦃rg : Ring R⦄ where
  open rg use {active, complete_head}

  -- With nothing in flight, the head is answered, left alone, or made into a request.
  abbrev pub LeadsNext : Endpoint R → ℕ → Next × Endpoint R → Type 0
  LeadsNext ep n (continues_next, e) =
      (e.in_flight ≡ ep.in_flight) × Leads (view ep.ring [] n) (view e.ring [] n)
  LeadsNext ep n (stops_next, e) =
      (e.in_flight ≡ ep.in_flight) × Leads (view ep.ring [] n) (view e.ring [] n)
  LeadsNext ep n (submits req stage, e) = e ≡ ep

  answered-Leads :
      (ep : Endpoint R) (n : ℕ) (s : Option Setup) (st : Status)
      → active ep.ring ≡ true
      → LeadsNext ep n (continue_if (complete (record ep { setup = s }) st [] 0))
  unfolding continue_if complete
  answered-Leads ep n s st ac = elim (Bool-cases (complete_head st [] 0 ep.ring).0) [
    | inl done ↦ rw (done, LeadsNext) (refl, Leads-Step [] (answers ep.ring n st ac))
    | inr rejected ↦ rw (rejected, LeadsNext) (refl, Leads-Step [] (answers ep.ring n st ac))
  ]

  pub head_request-Leads :
      (speed : Speed) (ep : Endpoint R) (key n : ℕ) (t : Transfer)
      → active ep.ring ≡ true
      → LeadsNext ep n (head_request speed ep key t)
  head_request-Leads speed ep key n t ac =
      head_request_cases (LeadsNext ep n) ep (λ s st. answered-Leads ep n s st ac)
        (refl, Leads-refl (view ep.ring [] n)) (λ req stage. refl) speed key t
