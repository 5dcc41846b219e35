-- ===== src/Engine/Filling.antt =====
-- The loop of `fill` of src/engine.rs ends, and what its submissions take off the ring.
use usbip_macos.Prelude.{
  ℕ, zero, suc, ◌+◌, ◌*◌, ◌<◌, ◌≤◌, ◌≡◌, refl, ◌∙◌, Bool, true, false, not, ◌&&◌, Bool-cases,
  Option-cases, inl, inr, List, [], ◌∷◌, length, length-append, Option, none, some, arith, Result,
  ok, err,
}
use usbip_macos.Protocol.Types.{Speed}
use usbip_macos.Client.State.{SubmitRequest, TransferError}
use usbip_macos.Hci.Messages.{Status, offline}
use usbip_macos.Engine.Types.{
  Ring, Link, Stage, InFlight, Endpoint, Work, Turn, goes_on, ends, Flow, continues, goes_offline,
  Submitted, submitted, refused, pump_again,
}
use usbip_macos.Engine.Requests.{error_status, complete, data_request}
use usbip_macos.Engine.Apply.{flow_of}
use usbip_macos.Engine.Pump.{
  is_finished, is_offline, is_empty, is_full, unlink_flights, fill_fuel, fill, fill_round,
  fill_message, fill_request, accept, reject, submit_result, submit_urb,
}
use usbip_macos.Engine.Contract.{View, view}
use usbip_macos.Engine.Sends.{depth-le}

abbrev pub flag : Bool → ℕ
flag true = 0
flag false = 1

and_left : (a b : Bool) → a && b ≡ true → a ≡ true
and_left true b h = refl
and_left false b h = h

pub flag-bound : (b : Bool) → flag b ≤ 1
flag-bound true = omega arith
flag-bound false = omega arith

is_full-false :
    {R : Type 0} (ep : Endpoint R)
    → is_full ep ≡ false
    → (is_empty ep.in_flight ≡ false) × (length ep.in_flight < 32)
unfolding is_full
is_full-false ep h = (ground (arith, h), ground (arith, h, depth-le ep.info.kind))

pub flow_of-accepted :
    (Q : Flow → Type 0) → Q continues → Q goes_offline → (st : Status) → Q (flow_of true st)
unfolding flow_of
flow_of-accepted Q on off st = elim st as (λ (k : Status). Q (flow_of true k)) [
  | offline ↦ off
  | _ ↦ on
]

pub Some_subst :
    {A : Type 0} (o o' : Option A) → o' ≡ o → (a : A) × (o ≡ some a) → (a : A) × (o' ≡ some a)
Some_subst o o' e (a, h) = (a, e ∙ h)

abbrev pub ring_of : {R : Type 0} → View R → R
ring_of (view r fs n) = r

-- What gets less in each round of `pump`: what is left of the ring counts twice, URBs in flight once.
abbrev pub weight : {R : Type 0} → (R → ℕ) → Endpoint R → ℕ
weight left ep = 2 * left ep.ring + flag (is_empty ep.in_flight)

module _ {R S : Type 0} (left : R → ℕ) (P : S → Type 0) where
  abbrev pub Shrinks : ℕ → Option (Turn R S) → Type 0
  Shrinks n none = ⊥
  Shrinks n (some (goes_on b w)) = (weight left w.ep < n) × P w.session
  Shrinks n (some (ends w)) = Unit

  abbrev pub Sends : Work R S → Option (Submitted R S) → Type 0
  Sends w none = ⊥
  Sends w (some (submitted u)) = (length u.ep.in_flight ≡ length w.ep.in_flight + 1) × P u.session
  Sends w (some (refused u)) = Unit
  Sends w (some (pump_again u)) =
      (is_empty w.ep.in_flight ≡ true) × (weight left u.ep < weight left w.ep) × P u.session

module _ {R S : Type 0} where
  abbrev pub Returns : Option (Turn R S) → Type 0
  Returns none = ⊥
  Returns (some (goes_on b w)) = ⊥
  Returns (some (ends w)) = Unit

module _ {R : Type 0} ⦃rg : Ring R⦄ (left : R → ℕ)
    (completes : (r : R) (st : Status) (bs : List ℕ) (n : ℕ)
      → (Ring.complete_head rg st bs n r).0 ≡ true
      → left (Ring.complete_head rg st bs n r).1 < left r) where
  open rg use {complete_head}

  pub completes_ep :
      (ep : Endpoint R) (st : Status) (bs : List ℕ) (n : ℕ)
      → (complete_head st bs n ep.ring).0 ≡ true
      → 2 * left (complete_head st bs n ep.ring).1 + 1 < 2 * left ep.ring
  completes_ep ep st bs n h = omega (arith, completes ep.ring st bs n h)

module _ {R S : Type 0} ⦃rg : Ring R⦄ ⦃lk : Link S⦄ (left : R → ℕ)
    (completes : (r : R) (st : Status) (bs : List ℕ) (n : ℕ)
      → (Ring.complete_head rg st bs n r).0 ≡ true
      → left (Ring.complete_head rg st bs n r).1 < left r)
    (P : S → Type 0)
    (submit_returns : (req : SubmitRequest) (s : S)
      → P s
      → (r : Result TransferError ℕ × S) × (Link.submit lk req s ≡ some r) × P r.1)
    (unlink_returns : (n : ℕ) (s : S)
      → P s
      → (s' : S) × (Link.unlink lk n s ≡ some s') × P s') where
  open rg use {active, current, peek, complete_head}
  open lk use {submit, unlink}

  pub unlink_flights_returns :
      (fs : List InFlight) (s : S) → P s → (s' : S) × (unlink_flights fs s ≡ some s') × P s'
  unfolding unlink_flights
  unlink_flights_returns [] s p = (s, refl, p)
  unlink_flights_returns (f ∷ fs) s p = elim (Bool-cases (is_finished f)) [
    | inl done ↦ let (s', e, p') = unlink_flights_returns fs s p in (s', rw done e, p')
    | inr waits ↦
        let (s1, e1, p1) = unlink_returns f.seqnum s p in
        let (s', e, p') = unlink_flights_returns fs s1 p1 in (s', rw (waits, e1) e, p')
  ]

  reject-Sends :
      (w : Work R S) (e : TransferError) → P w.session → Sends left P w (some (reject w e))
  unfolding reject complete
  reject-Sends w e p = elim (Bool-cases (is_empty w.ep.in_flight)) [
    | inr some_left ↦ rw some_left _
    | inl nothing ↦
        let st = error_status e in
        elim (Bool-cases ((complete_head st [] 0 w.ep.ring).0 && not (is_offline st))) [
          | inl again ↦
              rw (nothing, again)
                (
                  nothing,
                  omega (
                    arith,
                    completes_ep left completes w.ep st [] 0
                        (and_left (complete_head st [] 0 w.ep.ring).0 (not (is_offline st)) again),
                    flag-bound (is_empty w.ep.in_flight),
                  ),
                  p,
                )
          | inr over ↦ rw (nothing, over) _
        ]
  ]

  pub submit_urb-Sends :
      (w : Work R S) (message : ℕ) (req : SubmitRequest) (stage : Stage)
      → P w.session
      → Sends left P w (submit_urb w message req stage)
  unfolding submit_urb submit_result accept
  submit_urb-Sends w message req stage p =
      let (r, e, p') = submit_returns req w.session p in rw (e, Sends) (sent r.0 r.1 p')
    where
      sent :
          (r : Result TransferError ℕ) (s : S)
          → P s
          → Sends left P w (some (submit_result w message req stage r s))
      sent (ok seqnum) s p' = (length-append w.ep.in_flight _, p')
      sent (err e) s p' = reject-Sends (record w { session = s }) e p'

  fill_round-Sends :
      (speed : Speed) (w : Work R S)
      → P w.session
      → is_full w.ep ≡ false
      → Sends left P w (fill_round speed w)
  unfolding fill_round fill_message fill_request
  fill_round-Sends speed w p room = elim (Option-cases (peek w.ep.ring (length w.ep.in_flight))) [
    | inl nothing ↦ rw (room, nothing) _
    | inr ((message, t), e) ↦
        elim (Option-cases (data_request speed w.ep w.key (length w.ep.in_flight) t)) [
          | inl other ↦ rw (room, e, other) _
          | inr ((req, stage), d) ↦ rw (room, e, d) (submit_urb-Sends w message req stage p)
        ]
  ]

  fill-suc-Returns :
      (speed : Speed) (fuel : ℕ) (w : Work R S)
      → ((u : Work R S)
          → P u.session
          → length u.ep.in_flight ≡ length w.ep.in_flight + 1
          → Returns (fill speed fuel u))
      → is_empty w.ep.in_flight ≡ false
      → (o : Option (Submitted R S)) → fill_round speed w ≡ o
      → Sends left P w o
      → Returns (fill speed (suc fuel) w)
  unfolding fill
  fill-suc-Returns speed fuel w ih ne none e v = absurd v
  fill-suc-Returns speed fuel w ih ne (some (submitted u)) e v = rw (e, Returns) (ih u v.1 v.0)
  fill-suc-Returns speed fuel w ih ne (some (refused u)) e v = rw (e, Returns) _
  fill-suc-Returns speed fuel w ih ne (some (pump_again u)) e v = absurd (cc (ne, v.0))

  -- The loop of `fill` ends: each round adds one URB, and 32 are the most.
  fill-Returns :
      (speed : Speed) (fuel : ℕ) (w : Work R S)
      → P w.session
      → 0 < fuel
      → 32 < fuel + length w.ep.in_flight
      → Returns (fill speed fuel w)
  unfolding fill fill_round
  fill-Returns speed zero w p some_fuel enough = absurd (omega arith)
  fill-Returns speed (suc fuel) w p some_fuel enough = elim (Bool-cases (is_full w.ep)) [
    | inl full ↦ rw (full, Returns) _
    | inr room ↦
        let (ne, few) = is_full-false w.ep room in
        fill-suc-Returns speed fuel w
          (λ u q l.
            fill-Returns speed fuel u q (omega (arith, few, enough)) (omega (arith, enough, l)))
          ne (fill_round speed w) refl (fill_round-Sends speed w p room)
  ]

  Returns-Shrinks : (n : ℕ) (o : Option (Turn R S)) → Returns o → Shrinks left P n o
  Returns-Shrinks n none v = absurd v
  Returns-Shrinks n (some (goes_on b w)) v = absurd v
  Returns-Shrinks n (some (ends w)) v = _

  pub fill-Shrinks :
      (speed : Speed) (n : ℕ) (w : Work R S)
      → P w.session
      → Shrinks left P n (fill speed fill_fuel w)
  fill-Shrinks speed n w p =
      Returns-Shrinks n (fill speed fill_fuel w)
        (fill-Returns speed fill_fuel w p (omega arith) (omega arith))
