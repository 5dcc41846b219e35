-- ===== src/Engine/Pump.antt =====
-- `submit`, `fill` and `pump` of src/engine.rs, on one endpoint. `none` is a call that runs out of fuel
-- or that a call of the session does not return from.
use usbip_macos.Prelude.{
  ℕ, zero, suc, ◌+◌, Bool, true, false, not, ◌&&◌, ◌||◌, List, [], ◌∷◌, ◌++◌, Option, none, some,
  length, leb, ◌==◌, if◌then◌else◌, Result, ok, err,
}
use usbip_macos.Protocol.Types.{Speed}
use usbip_macos.Client.State.{SubmitRequest, TransferError, TransferResult}
use usbip_macos.Hci.Messages.{Transfer, Status, offline}
use usbip_macos.Engine.Types.{
  Ring, Link, depth, Stage, InFlight, Endpoint, Work, Turn, goes_on, ends, Flow, continues, stops,
  goes_offline, Next, continues_next, stops_next, submits, Submitted, submitted, refused,
  pump_again,
}
use usbip_macos.Engine.Requests.{error_status, complete, data_request, head_request}
use usbip_macos.Engine.Apply.{apply}

unfoldable pub is_finished : InFlight → Bool
is_finished f = elim f.result [ none ↦ false | some r ↦ true ]

unfoldable pub any_finished : List InFlight → Bool
any_finished [] = false
any_finished (f ∷ fs) = is_finished f || any_finished fs

unfoldable pub is_offline : Status → Bool
is_offline offline = true
is_offline st = false

unfoldable pub is_empty : List InFlight → Bool
is_empty [] = true
is_empty (f ∷ fs) = false

abbrev pub set_in_flight : {R S : Type 0} → Work R S → List InFlight → Work R S
set_in_flight w fs = record w { ep = record w.ep { in_flight = fs } }

-- Nothing more goes out: nothing is in flight, the depth is reached, or a reply waits.
unfoldable pub is_full : {R : Type 0} → Endpoint R → Bool
is_full ep =
    is_empty ep.in_flight
    || (leb (depth ep.info.kind) (length ep.in_flight) || any_finished ep.in_flight)

-- Each round of `fill` adds one to at most 32 in flight.
abbrev pub fill_fuel : ℕ
fill_fuel = 33

module _ {S : Type 0} ⦃lk : Link S⦄ where
  open lk use {unlink}

  -- Unlinks what has no result yet.
  unfoldable pub unlink_flights : List InFlight → S → Option S
  unlink_flights [] s = some s
  unlink_flights (f ∷ fs) s =
      if is_finished f
      then unlink_flights fs s
      else elim (unlink f.seqnum s) [ none ↦ none | some s' ↦ unlink_flights fs s' ]

module _ {R S : Type 0} ⦃rg : Ring R⦄ ⦃lk : Link S⦄ where
  open rg use {active, current, peek}
  open lk use {submit}

  unfoldable pub new_flight : Work R S → ℕ → SubmitRequest → Stage → ℕ → InFlight
  new_flight w message req stage seqnum = record {
    token = w.next_token;
    message = message;
    stage = stage;
    direction = req.direction;
    length = req.length;
    seqnum = seqnum;
    unlinking = false;
    result = none;
  }

  -- The reply to the request is awaited by a task.
  unfoldable pub accept : Work R S → ℕ → SubmitRequest → Stage → ℕ → S → Work R S
  accept w message req stage seqnum s = record w {
    ep = record w.ep { in_flight = w.ep.in_flight ++ new_flight w message req stage seqnum ∷ [] };
    next_token = w.next_token + 1;
    session = s;
    tasks = w.tasks ++ record { key = w.key; token = w.next_token; seqnum = seqnum } ∷ [];
  }

  -- Only the head can be completed; a failure further ahead is retried later.
  unfoldable pub reject : Work R S → TransferError → Submitted R S
  reject w e =
      if is_empty w.ep.in_flight
      then (let r = complete w.ep (error_status e) [] 0 in
          let w' : Work R S = record w { ep = r.1 } in
          if r.0 && not (is_offline (error_status e)) then pump_again w' else refused w')
      else refused w

  unfoldable pub submit_result :
      Work R S → ℕ → SubmitRequest → Stage → Result TransferError ℕ → S → Submitted R S
  submit_result w message req stage (ok seqnum) s = submitted (accept w message req stage seqnum s)
  submit_result w message req stage (err e) s = reject (record w { session = s }) e

  unfoldable pub submit_urb : Work R S → ℕ → SubmitRequest → Stage → Option (Submitted R S)
  submit_urb w message req stage = elim (submit req w.session) [
    | none ↦ none
    | some (r, s) ↦ some (submit_result w message req stage r s)
  ]

  -- One round of `fill`; `refused` is where the loop returns.
  unfoldable pub fill_request :
      Work R S → ℕ → Option (SubmitRequest × Stage) → Option (Submitted R S)
  fill_request w message none = some (refused w)
  fill_request w message (some (req, stage)) = submit_urb w message req stage

  unfoldable pub fill_message : Speed → Work R S → Option (ℕ × Transfer) → Option (Submitted R S)
  fill_message speed w none = some (refused w)
  fill_message speed w (some (message, t)) =
      fill_request w message (data_request speed w.ep w.key (length w.ep.in_flight) t)

  unfoldable pub fill_round : Speed → Work R S → Option (Submitted R S)
  fill_round speed w =
      if is_full w.ep
      then some (refused w)
      else fill_message speed w (peek w.ep.ring (length w.ep.in_flight))

  unfoldable pub fill : Speed → ℕ → Work R S → Option (Turn R S)
  fill speed zero w = none
  fill speed (suc fuel) w = elim (fill_round speed w) [
    | none ↦ none
    | some (submitted w') ↦ fill speed fuel w'
    | some (refused w') ↦ some (ends w')
    | some (pump_again w') ↦ some (goes_on false w')
  ]

  -- After the submission of the head.
  unfoldable pub head_submitted : Speed → Option (Submitted R S) → Option (Turn R S)
  head_submitted speed none = none
  head_submitted speed (some (submitted w)) = fill speed fill_fuel w
  head_submitted speed (some (refused w)) = some (ends w)
  head_submitted speed (some (pump_again w)) = some (goes_on false w)

  unfoldable pub head_next : Speed → Work R S → ℕ → Next × Endpoint R → Option (Turn R S)
  head_next speed w message (continues_next, ep) = some (goes_on false (record w { ep = ep }))
  head_next speed w message (stops_next, ep) = some (ends (record w { ep = ep }))
  head_next speed w message (submits req stage, ep) =
      head_submitted speed (submit_urb (record w { ep = ep }) message req stage)

  -- Nothing is in flight.
  unfoldable pub turn_idle : Speed → Bool → Work R S → ℕ → Option Transfer → Option (Turn R S)
  turn_idle speed gone w message none = some (ends w)
  turn_idle speed gone w message (some t) =
      if gone then some (ends w) else head_next speed w message (head_request speed w.ep w.key t)

  unfoldable pub flow_turn : Bool → Option (Flow × Work R S) → Option (Turn R S)
  flow_turn gone none = none
  flow_turn gone (some (continues, w)) = some (goes_on gone w)
  flow_turn gone (some (goes_offline, w)) = some (goes_on true w)
  flow_turn gone (some (stops, w)) = some (ends w)

  -- The front is in flight for the head.
  unfoldable pub turn_front :
      Speed → Bool → Work R S → InFlight → List InFlight → Option TransferResult → Option (Turn R S)
  turn_front speed gone w f fs (some result) = flow_turn gone (apply (set_in_flight w fs) f result)
  turn_front speed gone w f fs none = if gone then some (ends w) else fill speed fill_fuel w

  unfoldable pub drop_stale : Bool → Work R S → List InFlight → Option (Turn R S)
  drop_stale gone w fs = elim (unlink_flights fs w.session) [
    | none ↦ none
    | some s ↦ some (goes_on gone (record (set_in_flight w []) { session = s }))
  ]

  unfoldable pub turn_on :
      Speed → Bool → Work R S → ℕ × Option Transfer → List InFlight → Option (Turn R S)
  turn_on speed gone w head [] = turn_idle speed gone w head.0 head.1
  turn_on speed gone w head (f ∷ fs) =
      if f.message == head.0
      then turn_front speed gone w f fs f.result
      else drop_stale gone w (f ∷ fs)

  -- One round of the loop of `pump`; `gone` is its flag `offline`.
  unfoldable pub turn : Speed → Bool → Work R S → Option (Turn R S)
  turn speed gone w =
      if active w.ep.ring
      then turn_on speed gone w (current w.ep.ring) w.ep.in_flight
      else some (ends w)

  unfoldable pub pump : Speed → ℕ → Bool → Work R S → Option (Work R S)
  pump speed zero gone w = none
  pump speed (suc fuel) gone w = elim (turn speed gone w) [
    | none ↦ none
    | some (goes_on gone' w') ↦ pump speed fuel gone' w'
    | some (ends w') ↦ some w'
  ]
