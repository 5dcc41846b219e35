-- ===== src/Engine/Termination.antt =====
-- The loop of `pump` of src/engine.rs ends: every round takes a message off the ring or drops URBs that
-- are stale.
use usbip_macos.Prelude.{
  ℕ, zero, suc, ◌+◌, ◌*◌, ◌<◌, ◌≤◌, ◌≡◌, refl, sym, ap, subst, Bool, true, false, Bool-cases, inl,
  inr, List, [], ◌∷◌, Option, none, some, ◌==◌, arith, Result,
}
use usbip_macos.Protocol.Types.{Speed}
use usbip_macos.Client.State.{SubmitRequest, TransferError, TransferResult}
use usbip_macos.Hci.Messages.{Transfer, Status}
use usbip_macos.Engine.Types.{
  Ring, Link, InFlight, Setup, Endpoint, Work, Turn, goes_on, ends, Flow, continues, stops,
  goes_offline, Next, continues_next, stops_next, submits, Submitted, submitted, refused,
  pump_again,
}
use usbip_macos.Engine.Requests.{complete, head_request, continue_if}
use usbip_macos.Engine.Apply.{Completion, completion_of, apply, complete_work, flow_of}
use usbip_macos.Engine.Pump.{
  is_empty, set_in_flight, submit_urb, head_submitted, head_next, turn_idle, flow_turn, turn_front,
  drop_stale, turn_on, turn, pump,
}
use usbip_macos.Engine.Delivery.{completion_of-Fits, finish_stage-Same}
use usbip_macos.Engine.Heads.{head_request_cases}
use usbip_macos.Engine.Filling.{
  weight, Shrinks, Sends, unlink_flights_returns, completes_ep, submit_urb-Sends, fill-Shrinks,
  flag, flag-bound, flow_of-accepted, Some_subst, ring_of,
}

module _ {R S : Type 0} ⦃rg : Ring R⦄ ⦃lk : Link S⦄ (left : R → ℕ)
    (completes : (r : R) (st : Status) (bs : List ℕ) (n : ℕ)
      → (Ring.complete_head rg st bs n r).0 ≡ true
      → left (Ring.complete_head rg st bs n r).1 < left r)
    (P : S → Type 0)
    (submit_returns : (req : SubmitRequest) (s : S)
      → P s
      → (r : Result TransferError ℕ × S) × (Link.submit lk req s ≡ some r) × P r.1)
    (unlink_returns : (n : ℕ) (s : S)
      → P s
      → (s' : S) × (Link.unlink lk n s ≡ some s') × P s') where
  open rg use {active, current, peek, complete_head}
  open lk use {submit, unlink}

  head_submitted-Shrinks :
      (speed : Speed) (w : Work R S) (o : Option (Submitted R S))
      → Sends left P w o
      → Shrinks left P (weight left w.ep) (head_submitted speed o)
  unfolding head_submitted
  head_submitted-Shrinks speed w none v = absurd v
  head_submitted-Shrinks speed w (some (submitted u)) v =
      fill-Shrinks left completes P submit_returns unlink_returns speed (weight left w.ep) u v.1
  head_submitted-Shrinks speed w (some (refused u)) v = _
  head_submitted-Shrinks speed w (some (pump_again u)) v = (v.1, v.2)

  -- What a head without a URB leads to: a completed message, or an end.
  abbrev Answers : Endpoint R → Next × Endpoint R → Type 0
  Answers ep (continues_next, e) = 2 * left e.ring + 1 < 2 * left ep.ring
  Answers ep (stops_next, e) = Unit
  Answers ep (submits req stage, e) = e ≡ ep

  answered-Answers :
      (ep : Endpoint R) (s : Option Setup) (st : Status)
      → Answers ep (continue_if (complete (record ep { setup = s }) st [] 0))
  unfolding continue_if complete
  answered-Answers ep s st = elim (Bool-cases (complete_head st [] 0 ep.ring).0) [
    | inl done ↦ rw (done, Answers) (completes_ep left completes ep st [] 0 done)
    | inr over ↦ rw (over, Answers) _
  ]

  head_next-Shrinks :
      (speed : Speed) (w : Work R S) (message : ℕ) (x : Next × Endpoint R)
      → P w.session
      → Answers w.ep x
      → Shrinks left P (weight left w.ep) (head_next speed w message x)
  unfolding head_next
  head_next-Shrinks speed w message (continues_next, e) p v =
      (omega (arith, v, flag-bound (is_empty e.in_flight)), p)
  head_next-Shrinks speed w message (stops_next, e) p v = _
  head_next-Shrinks speed w message (submits req stage, e) p v =
      subst
        (λ (ep : Endpoint R).
          Shrinks left P (weight left w.ep)
            (head_submitted speed (submit_urb (record w { ep = ep }) message req stage)))
        (sym v)
        (head_submitted-Shrinks speed w (submit_urb w message req stage)
          (submit_urb-Sends left completes P submit_returns unlink_returns w message req stage p))

  turn_idle-Shrinks :
      (speed : Speed) (gone : Bool) (w : Work R S) (message : ℕ) (t : Option Transfer)
      → P w.session
      → Shrinks left P (weight left w.ep) (turn_idle speed gone w message t)
  unfolding turn_idle
  turn_idle-Shrinks speed gone w message none p = _
  turn_idle-Shrinks speed true w message (some t) p = _
  turn_idle-Shrinks speed false w message (some t) p =
      head_next-Shrinks speed w message (head_request speed w.ep w.key t) p (
        head_request_cases (Answers w.ep) w.ep (answered-Answers w.ep) _ (λ req stage. refl) speed
          w.key t)

  drop_stale-Shrinks :
      (gone : Bool) (w : Work R S) (f : InFlight) (fs : List InFlight)
      → P w.session
      → w.ep.in_flight ≡ f ∷ fs
      → Shrinks left P (weight left w.ep) (drop_stale gone w (f ∷ fs))
  unfolding drop_stale is_empty
  drop_stale-Shrinks gone w f fs p em =
      let (s, e, p') =
        unlink_flights_returns left completes P submit_returns unlink_returns (f ∷ fs) w.session
          p in
      rw (e, Shrinks, em) (omega arith, p')

  -- What `apply` keeps, and that it goes on only after a completion.
  abbrev Applied : Work R S → Option (Flow × Work R S) → Type 0
  Applied w none = ⊥
  Applied w (some (continues, u)) =
      (weight left u.ep < 2 * left w.ep.ring) × (u.session ≡ w.session)
  Applied w (some (goes_offline, u)) =
      (weight left u.ep < 2 * left w.ep.ring) × (u.session ≡ w.session)
  Applied w (some (stops, u)) = Unit

  complete_work-Applied :
      (w u : Work R S) (c : Completion)
      → u.ep.ring ≡ w.ep.ring
      → u.session ≡ w.session
      → Applied w (some (complete_work u c))
  unfolding complete_work complete flow_of
  complete_work-Applied w u c ring session =
      elim (Bool-cases (complete_head c.status c.bytes c.length u.ep.ring).0) [
        | inr over ↦ rw (over, Applied) _
        | inl done ↦
            let less : 2 * left (complete_head c.status c.bytes c.length u.ep.ring).1
                  + flag (is_empty u.ep.in_flight)
                < 2 * left w.ep.ring =
              omega (
                arith,
                completes_ep left completes u.ep c.status c.bytes c.length done,
                flag-bound (is_empty u.ep.in_flight),
                ap left ring,
              ) in
            rw done (
              flow_of-accepted
                (λ (flow : Flow). Applied w (
                  some (
                    flow,
                    record u {
                      ep = record u.ep {
                        ring = (complete_head c.status c.bytes c.length u.ep.ring).1;
                      };
                    },
                  )))
                (less, session) (less, session) c.status)
      ]

  apply-Applied :
      (w : Work R S) (f : InFlight) (result : TransferResult) → Applied w (apply w f result)
  unfolding apply
  apply-Applied w f result =
      let (p, e, same, session, v, k) =
        finish_stage-Same f.stage w f (completion_of f result) (completion_of-Fits f result) in
      rw (e, Applied) (complete_work-Applied w p.1 p.0 (ap ring_of same) session)

  flow_turn-Shrinks :
      (gone : Bool) (w : Work R S) (o : Option (Flow × Work R S)) (n : ℕ)
      → 2 * left w.ep.ring ≤ n
      → P w.session
      → Applied w o
      → Shrinks left P n (flow_turn gone o)
  unfolding flow_turn
  flow_turn-Shrinks gone w none n le p v = absurd v
  flow_turn-Shrinks gone w (some (continues, u)) n le p v =
      (omega (arith, v.0, le), subst P (sym v.1) p)
  flow_turn-Shrinks gone w (some (goes_offline, u)) n le p v =
      (omega (arith, v.0, le), subst P (sym v.1) p)
  flow_turn-Shrinks gone w (some (stops, u)) n le p v = _

  turn_front-Shrinks :
      (speed : Speed) (gone : Bool) (w : Work R S) (f : InFlight) (fs : List InFlight)
      → (o : Option TransferResult) → P w.session
      → Shrinks left P (weight left w.ep) (turn_front speed gone w f fs o)
  unfolding turn_front
  turn_front-Shrinks speed gone w f fs (some result) p =
      flow_turn-Shrinks gone w (apply (set_in_flight w fs) f result) (weight left w.ep)
        (omega arith) p (apply-Applied (set_in_flight w fs) f result)
  turn_front-Shrinks speed true w f fs none p = _
  turn_front-Shrinks speed false w f fs none p =
      fill-Shrinks left completes P submit_returns unlink_returns speed (weight left w.ep) w p

  turn_on-Shrinks :
      (speed : Speed) (gone : Bool) (w : Work R S) (fs : List InFlight)
      → P w.session
      → w.ep.in_flight ≡ fs
      → Shrinks left P (weight left w.ep) (turn_on speed gone w (current w.ep.ring) fs)
  unfolding turn_on
  turn_on-Shrinks speed gone w [] p em =
      turn_idle-Shrinks speed gone w (current w.ep.ring).0 (current w.ep.ring).1 p
  turn_on-Shrinks speed gone w (f ∷ fs) p em =
      elim (Bool-cases (f.message == (current w.ep.ring).0)) [
        | inl same ↦ rw (same, Shrinks) (turn_front-Shrinks speed gone w f fs f.result p)
        | inr moved ↦ rw (moved, Shrinks) (drop_stale-Shrinks gone w f fs p em)
      ]

  turn-Shrinks :
      (speed : Speed) (gone : Bool) (w : Work R S)
      → P w.session
      → Shrinks left P (weight left w.ep) (turn speed gone w)
  unfolding turn
  turn-Shrinks speed gone w p = elim (Bool-cases (active w.ep.ring)) [
    | inl ac ↦ rw (ac, Shrinks) (turn_on-Shrinks speed gone w w.ep.in_flight p refl)
    | inr idle ↦ rw (idle, Shrinks) _
  ]

  pump-suc_ends :
      (speed : Speed) (fuel n : ℕ) (gone : Bool) (w : Work R S)
      → ((b : Bool) (u : Work R S)
          → P u.session
          → weight left u.ep < fuel
          → (w' : Work R S) × (pump speed fuel b u ≡ some w'))
      → n ≤ fuel
      → (o : Option (Turn R S)) → turn speed gone w ≡ o
      → Shrinks left P n o
      → (w' : Work R S) × (pump speed (suc fuel) gone w ≡ some w')
  unfolding pump
  pump-suc_ends speed fuel n gone w ih le none e v = absurd v
  pump-suc_ends speed fuel n gone w ih le (some (goes_on b u)) e v =
      Some_subst (pump speed fuel b u) (pump speed (suc fuel) gone w) (rw (e, pump) refl)
        (ih b u v.1 (omega (arith, v.0, le)))
  pump-suc_ends speed fuel n gone w ih le (some (ends u)) e v = (u, rw (e, pump) refl)

  pump_within :
      (speed : Speed) (fuel : ℕ) (gone : Bool) (w : Work R S)
      → P w.session
      → weight left w.ep < fuel
      → (w' : Work R S) × (pump speed fuel gone w ≡ some w')
  pump_within speed zero gone w p enough = absurd (omega arith)
  pump_within speed (suc fuel) gone w p enough =
      pump-suc_ends speed fuel (weight left w.ep) gone w (pump_within speed fuel) (omega arith)
        (turn speed gone w) refl (turn-Shrinks speed gone w p)

  -- `pump` ends, in at most twice as many rounds as messages are left in the ring and two: on a ring of
  -- which an accepted completion leaves less, and while the calls of the session return.
  pub pump_ends :
      (speed : Speed) (fuel : ℕ) (gone : Bool) (w : Work R S)
      → P w.session
      → 2 * left w.ep.ring + 1 < fuel
      → (w' : Work R S) × (pump speed fuel gone w ≡ some w')
  pump_ends speed fuel gone w p enough =
      pump_within speed fuel gone w p (omega (arith, enough, flag-bound (is_empty w.ep.in_flight)))
