-- ===== src/Engine/Refinement.antt =====
-- `pump` of src/engine.rs implements the contract of an endpoint.
use usbip_macos.Prelude.{
  ℕ, zero, suc, ◌<◌, ◌≡◌, ◌≢◌, refl, sym, ◌∙◌, subst, Bool, true, false, Bool-cases, Option-cases,
  inl, inr, List, [], ◌∷◌, length, Option, none, some, ◌==◌, ==→eq, eq→==, arith,
}
use usbip_macos.Protocol.Types.{Speed}
use usbip_macos.Client.State.{SubmitRequest, TransferResult}
use usbip_macos.Hci.Messages.{Transfer}
use usbip_macos.Engine.Types.{
  Ring, Link, Stage, InFlight, Endpoint, Work, Turn, goes_on, ends, Flow, continues, stops,
  goes_offline, Next, continues_next, stops_next, submits, Submitted, submitted, refused,
  pump_again,
}
use usbip_macos.Engine.Requests.{head_request}
use usbip_macos.Engine.Pump.{
  set_in_flight, unlink_flights, fill_fuel, fill, submit_urb, head_submitted, head_next, turn_idle,
  flow_turn, turn_front, drop_stale, turn_on, turn, pump,
}
use usbip_macos.Engine.Contract.{
  View, view, view_of, IsNext, delivers, stales, Leads, Leads-refl, Leads-Step, Leads-trans,
  LeadsWork,
}
use usbip_macos.Engine.Delivery.{apply-Carries}
use usbip_macos.Engine.Sends.{
  LeadsTurn, LeadsTurn-trans, LeadsSubmitted, submit_urb-Leads, fill-Leads,
}
use usbip_macos.Engine.Heads.{LeadsNext, head_request-Leads}

module _ {R S : Type 0} ⦃rg : Ring R⦄ ⦃lk : Link S⦄ where
  open rg use {active, current}

  head_submitted-Leads :
      (speed : Speed) (v : View R) (r : R) (o : Option (Submitted R S))
      → active r ≡ true
      → LeadsSubmitted v r o
      → LeadsTurn v (head_submitted speed o)
  unfolding head_submitted
  head_submitted-Leads speed v r none ac l = _
  head_submitted-Leads speed v r (some (submitted w)) ac l =
      LeadsTurn-trans v w (fill speed fill_fuel w) l.0
        (fill-Leads speed fill_fuel w (subst (λ (t : R). active t ≡ true) (sym l.1) ac))
  head_submitted-Leads speed v r (some (refused w)) ac l = l
  head_submitted-Leads speed v r (some (pump_again w)) ac l = l

  Leads-idle :
      (w : Work R S) → w.ep.in_flight ≡ [] → Leads (view w.ep.ring [] w.next_token) (view_of w)
  Leads-idle w em =
      subst
        (λ (fs : List InFlight).
          Leads (view w.ep.ring [] w.next_token) (view w.ep.ring fs w.next_token))
        (sym em) (Leads-refl (view w.ep.ring [] w.next_token))

  -- With nothing in flight, the URB of the head goes out first.
  head_sent :
      (speed : Speed) (w : Work R S) (message : ℕ) (req : SubmitRequest) (stage : Stage)
      → active w.ep.ring ≡ true
      → w.ep.in_flight ≡ []
      → (current w.ep.ring).0 ≡ message
      → LeadsTurn
          (view w.ep.ring [] w.next_token)
          (head_submitted speed (submit_urb w message req stage))
  unfolding IsNext
  head_sent speed w message req stage ac em hd =
      head_submitted-Leads speed (view w.ep.ring [] w.next_token) w.ep.ring
        (submit_urb w message req stage) ac
        (subst
          (λ (fs : List InFlight).
            LeadsSubmitted (view w.ep.ring fs w.next_token) w.ep.ring
              (submit_urb w message req stage))
          em
          (submit_urb-Leads w message req stage ac
            (subst (λ (fs : List InFlight). IsNext w.ep.ring fs message) (sym em) hd)
            (subst (λ (fs : List InFlight). length fs < 32) (sym em) (omega arith))))

  head_next-Leads :
      (speed : Speed) (w : Work R S) (message : ℕ) (x : Next × Endpoint R)
      → active w.ep.ring ≡ true
      → w.ep.in_flight ≡ []
      → (current w.ep.ring).0 ≡ message
      → LeadsNext w.ep w.next_token x
      → LeadsTurn (view w.ep.ring [] w.next_token) (head_next speed w message x)
  unfolding head_next
  head_next-Leads speed w message (continues_next, e) ac em hd l =
      subst
        (λ (fs : List InFlight).
          Leads (view w.ep.ring [] w.next_token) (view e.ring fs w.next_token))
        (sym (l.0 ∙ em)) l.1
  head_next-Leads speed w message (stops_next, e) ac em hd l =
      subst
        (λ (fs : List InFlight).
          Leads (view w.ep.ring [] w.next_token) (view e.ring fs w.next_token))
        (sym (l.0 ∙ em)) l.1
  head_next-Leads speed w message (submits req stage, e) ac em hd l =
      subst
        (λ (ep : Endpoint R).
          LeadsTurn (view w.ep.ring [] w.next_token)
            (head_submitted speed (submit_urb (record w { ep = ep }) message req stage)))
        (sym l) (head_sent speed w message req stage ac em hd)

  turn_idle-Leads :
      (speed : Speed) (gone : Bool) (w : Work R S) (message : ℕ) (t : Option Transfer)
      → active w.ep.ring ≡ true
      → w.ep.in_flight ≡ []
      → (current w.ep.ring).0 ≡ message
      → LeadsTurn (view w.ep.ring [] w.next_token) (turn_idle speed gone w message t)
  unfolding turn_idle
  turn_idle-Leads speed gone w message none ac em hd = Leads-idle w em
  turn_idle-Leads speed true w message (some t) ac em hd = Leads-idle w em
  turn_idle-Leads speed false w message (some t) ac em hd =
      head_next-Leads speed w message (head_request speed w.ep w.key t) ac em hd
        (head_request-Leads speed w.ep w.key w.next_token t ac)

  flow_turn-Leads :
      (gone : Bool) (v : View R) (flow : Flow) (w : Work R S)
      → Leads v (view_of w)
      → LeadsTurn v (flow_turn gone (some (flow, w)))
  unfolding flow_turn
  flow_turn-Leads gone v continues w l = l
  flow_turn-Leads gone v goes_offline w l = l
  flow_turn-Leads gone v stops w l = l

  -- The reply of the front goes to its message, which is the head.
  turn_front-Leads :
      (speed : Speed) (gone : Bool) (w : Work R S) (f : InFlight) (fs : List InFlight)
      → (o : Option TransferResult) → active w.ep.ring ≡ true
      → w.ep.in_flight ≡ f ∷ fs
      → f.message ≡ (current w.ep.ring).0
      → f.result ≡ o
      → LeadsTurn (view w.ep.ring (f ∷ fs) w.next_token) (turn_front speed gone w f fs o)
  unfolding turn_front
  turn_front-Leads speed gone w f fs (some result) ac em hd er =
      let (flow, w', c, e, fit, from, same) = apply-Carries (set_in_flight w fs) f result in
      rw (e, LeadsTurn)
        (flow_turn-Leads gone (view w.ep.ring (f ∷ fs) w.next_token) flow w' (
          subst (Leads (view w.ep.ring (f ∷ fs) w.next_token)) (sym same) (
            Leads-Step (f.token ∷ [])
              (delivers w.ep.ring f fs w.next_token result c ac hd er fit from))))
  turn_front-Leads speed true w f fs none ac em hd er =
      subst (λ (t : List InFlight). Leads (view w.ep.ring t w.next_token) (view_of w)) em
        (Leads-refl (view_of w))
  turn_front-Leads speed false w f fs none ac em hd er =
      subst
        (λ (t : List InFlight). LeadsTurn (view w.ep.ring t w.next_token) (fill speed fill_fuel w))
        em (fill-Leads speed fill_fuel w ac)

  drop_stale-Leads :
      (gone : Bool) (w : Work R S) (f : InFlight) (fs : List InFlight)
      → active w.ep.ring ≡ true
      → f.message ≢ (current w.ep.ring).0
      → LeadsTurn (view w.ep.ring (f ∷ fs) w.next_token) (drop_stale gone w (f ∷ fs))
  unfolding drop_stale
  drop_stale-Leads gone w f fs ac moved = elim (Option-cases (unlink_flights (f ∷ fs) w.session)) [
    | inl stuck ↦ rw (stuck, LeadsTurn) _
    | inr (s, e) ↦ rw (e, LeadsTurn) (Leads-Step [] (stales w.ep.ring f fs w.next_token ac moved))
  ]

  turn_on-Leads :
      (speed : Speed) (gone : Bool) (w : Work R S) (fs : List InFlight)
      → active w.ep.ring ≡ true
      → w.ep.in_flight ≡ fs
      → LeadsTurn (view w.ep.ring fs w.next_token) (turn_on speed gone w (current w.ep.ring) fs)
  unfolding turn_on
  turn_on-Leads speed gone w [] ac em =
      turn_idle-Leads speed gone w (current w.ep.ring).0 (current w.ep.ring).1 ac em refl
  turn_on-Leads speed gone w (f ∷ fs) ac em =
      elim (Bool-cases (f.message == (current w.ep.ring).0)) [
        | inl here ↦
            rw (here, LeadsTurn)
              (turn_front-Leads speed gone w f fs f.result ac em
                (==→eq f.message (current w.ep.ring).0 here) refl)
        | inr moved ↦
            rw (moved, LeadsTurn)
              (drop_stale-Leads gone w f fs ac
                (λ q. ground (arith, moved, eq→== f.message (current w.ep.ring).0 q)))
      ]

  turn-Leads :
      (speed : Speed) (gone : Bool) (w : Work R S) → LeadsTurn (view_of w) (turn speed gone w)
  unfolding turn
  turn-Leads speed gone w = elim (Bool-cases (active w.ep.ring)) [
    | inl ac ↦ rw (ac, LeadsTurn) (turn_on-Leads speed gone w w.ep.in_flight ac refl)
    | inr idle ↦ rw (idle, LeadsTurn) (Leads-refl (view_of w))
  ]

  LeadsWork-trans :
      (v : View R) (u : Work R S) (o : Option (Work R S))
      → Leads v (view_of u)
      → LeadsWork (view_of u) o
      → LeadsWork v o
  LeadsWork-trans v u none a b = _
  LeadsWork-trans v u (some w) a b = Leads-trans a b

  pump-suc :
      (speed : Speed) (fuel : ℕ) (gone : Bool) (w : Work R S)
      → ((b : Bool) (u : Work R S) → LeadsWork (view_of u) (pump speed fuel b u))
      → (o : Option (Turn R S)) → turn speed gone w ≡ o
      → LeadsTurn (view_of w) o
      → LeadsWork (view_of w) (pump speed (suc fuel) gone w)
  unfolding pump
  pump-suc speed fuel gone w ih none e l = rw (e, LeadsWork) _
  pump-suc speed fuel gone w ih (some (goes_on b u)) e l =
      rw (e, LeadsWork) (LeadsWork-trans (view_of w) u (pump speed fuel b u) l (ih b u))
  pump-suc speed fuel gone w ih (some (ends u)) e l = rw (e, LeadsWork) l

  pub pump-LeadsWork :
      (speed : Speed) (fuel : ℕ) (gone : Bool) (w : Work R S)
      → LeadsWork (view_of w) (pump speed fuel gone w)
  unfolding pump
  pump-LeadsWork speed zero gone w = _
  pump-LeadsWork speed (suc fuel) gone w =
      pump-suc speed fuel gone w (pump-LeadsWork speed fuel) (turn speed gone w) refl
        (turn-Leads speed gone w)

  -- Whatever `pump` does to an endpoint is a sequence of steps of the contract.
  pub pump-Leads :
      (speed : Speed) (fuel : ℕ) (gone : Bool) (w w' : Work R S)
      → pump speed fuel gone w ≡ some w'
      → Leads (view_of w) (view_of w')
  pump-Leads speed fuel gone w w' e =
      subst (LeadsWork (view_of w)) e (pump-LeadsWork speed fuel gone w)
