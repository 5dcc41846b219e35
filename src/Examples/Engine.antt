-- ===== src/Examples/Engine.antt =====
-- An engine whose ring is a list of messages and whose session counts, with a bulk IN endpoint, and
-- the theorems at its states.
use usbip_macos.Prelude.{
  ℕ, zero, suc, ◌+◌, ◌≤◌, ◌<◌, ◌≡◌, refl, Bool, true, false, List, [], ◌∷◌, ◌++◌, length, Option,
  none, some, arith, ok,
}
use usbip_macos.Prelude.Int.{pos}
use usbip_macos.Prelude.Maps.{lookup, insert}
use usbip_macos.Protocol.Types.{dir_in, high, RetSubmit}
use usbip_macos.Client.State.{Shared, start, closed_by_client, completed}
use usbip_macos.Client.Session.{close_with, is_closed}
use usbip_macos.Hci.Messages.{Transfer, normal, Status, success}
use usbip_macos.Hci.Endpoints.{EndpointInfo, bulk, urb_interval}
use usbip_macos.Engine.Types.{Ring, Link, InFlight, Endpoint, Work, Engine, endpoint_key}
use usbip_macos.Engine.Types.{depth, normal_stage}
use usbip_macos.Engine.Apply.{Completion}
use usbip_macos.Engine.Contract.{view, view_of, Fits, Leads, Trace, pumped, replied}
use usbip_macos.Engine.Order.{Ascending, tokens}
use usbip_macos.Engine.Delivery.{apply_lem}
use usbip_macos.Engine.Refinement.{pump-Leads}
use usbip_macos.Engine.Calls.{no_calls, calls_on, doorbells, finishes, Calls-Ascending}
use usbip_macos.Engine.Apply.{
  apply, completion_of, status_and_actual, finish_stage, complete_work, flow_of,
}
use usbip_macos.Hci.Messages.{from_urb_status, of_errno}
use usbip_macos.Engine.Requests.{complete}
use usbip_macos.Engine.Pump.{turn_front, flow_turn}
use usbip_macos.Engine.Handlers.{finish_work, record_result, is_unlinked, position}
use usbip_macos.Protocol.Types.{of_endpoint}
use usbip_macos.Engine.Types.{Flow}
use usbip_macos.Engine.Pump.{
  pump, turn, turn_on, turn_idle, head_next, head_submitted, submit_urb, submit_result, accept,
  new_flight, fill, fill_round, fill_message, fill_request, is_full, is_empty, any_finished,
  is_finished,
}
use usbip_macos.Engine.Requests.{head_request, is_control, submit_data, data_request, out_data}
use usbip_macos.Engine.Table.{
  new_endpoint, new, add_endpoint, drop_endpoint, borrow, give_back, on_endpoint,
}
use usbip_macos.Engine.Handlers.{doorbell, finish}
use usbip_macos.Engine.Termination.{pump_ends}
use usbip_macos.Engine.Sessions.{session_link, pump_closed_ends}
use usbip_macos.Examples.Instances.{big_endian}

-- The messages that are left, each with its address, and those that were completed.
pub record Messages : Type 0 where
  pub waiting : List (ℕ × Transfer)
  pub completed_with : List (Status × List ℕ × ℕ)

abbrev pub head_of : List (ℕ × Transfer) → ℕ × Option Transfer
head_of [] = (0, none)
head_of ((m, t) ∷ ms) = (m, some t)

abbrev pub nth_of : ℕ → List (ℕ × Transfer) → Option (ℕ × Transfer)
nth_of n [] = none
nth_of zero (m ∷ ms) = some m
nth_of (suc n) (m ∷ ms) = nth_of n ms

abbrev pub completed_first : Status → List ℕ → ℕ → Messages → List (ℕ × Transfer) → Bool × Messages
completed_first st bs n r [] = (false, r)
completed_first st bs n r (m ∷ ms) =
    (true, record { waiting = ms; completed_with = r.completed_with ++ (st, bs, n) ∷ [] })

instance abbrev pub message_list : Ring Messages
message_list = record {
  active = λ r. true;
  current = λ r. head_of r.waiting;
  peek = λ r n. nth_of n r.waiting;
  read = λ r n k. [];
  complete_head = λ st bs n r. completed_first st bs n r r.waiting;
}

abbrev left_of : Messages → ℕ
left_of r = length r.waiting

completes_one :
    (r : Messages) (st : Status) (bs : List ℕ) (n : ℕ)
    → (completed_first st bs n r r.waiting).0 ≡ true
    → left_of (completed_first st bs n r r.waiting).1 < left_of r
completes_one r st bs n = go r.waiting refl
  where
    go :
        (ms : List (ℕ × Transfer))
        → r.waiting ≡ ms
        → (completed_first st bs n r ms).0 ≡ true
        → left_of (completed_first st bs n r ms).1 < length ms
    go [] e h = absurd (cc h)
    go (m ∷ ms) e h = omega arith

-- A session that hands out seqnums.
instance abbrev pub counter : Link ℕ
counter = record { submit = λ req s. some (ok s, s + 1); unlink = λ n s. some s }

abbrev read_key : ℕ
read_key = endpoint_key 1 0x81

abbrev bulk_info : EndpointInfo
bulk_info = record { kind = bulk; max_packet_size = 512; b_interval = 0 }

abbrev pub two_reads : Messages
two_reads = record { waiting = (100, normal 2) ∷ (116, normal 2) ∷ []; completed_with = [] }

abbrev idle_endpoint : Endpoint Messages
idle_endpoint = record {
  ring = two_reads;
  info = bulk_info;
  in_flight = [];
  setup = none;
  hidden_config = none;
}

abbrev idle_engine : Engine Messages ℕ
idle_engine = record {
  endpoints = (read_key, idle_endpoint) ∷ [];
  next_token = 0;
  session = 1;
  uas_warned = false;
  tasks = [];
}

added : add_endpoint {S = ℕ} read_key bulk_info two_reads (new 1) ≡ some idle_engine
unfolding add_endpoint new new_endpoint drop_endpoint insert lookup
added = refl

abbrev read_flight : ℕ → ℕ → ℕ → InFlight
read_flight token message seqnum = record {
  token = token;
  message = message;
  stage = normal_stage;
  direction = dir_in;
  length = 2;
  seqnum = seqnum;
  unlinking = false;
  result = none;
}

-- Both reads go out at once.
abbrev busy_engine : Engine Messages ℕ
busy_engine = record {
  endpoints =
      (
        read_key,
        record idle_endpoint { in_flight = read_flight 0 100 1 ∷ read_flight 1 116 2 ∷ [] },
      )
      ∷ [];
  next_token = 2;
  session = 3;
  uas_warned = false;
  tasks =
      record { key = read_key; token = 0; seqnum = 1 }
      ∷ record { key = read_key; token = 1; seqnum = 2 }
      ∷ [];
}

rung : doorbell high 6 read_key idle_engine ≡ some busy_engine
unfolding doorbell on_endpoint borrow give_back pump turn turn_on turn_idle head_next head_request
    is_control submit_data data_request head_submitted submit_urb submit_result accept new_flight
    fill fill_round fill_message fill_request is_full is_empty any_finished is_finished depth
    out_data urb_interval insert lookup of_endpoint
rung = refl

abbrev read_result : RetSubmit
read_result = record {
  seqnum = 1;
  status = pos 0;
  actual_length = 2;
  start_frame = 0;
  error_count = 0;
  payload = 7 ∷ 8 ∷ [];
  iso_packets = [];
}

abbrev read_work : Work Messages ℕ
read_work = borrow idle_engine read_key idle_endpoint

abbrev busy_work : Work Messages ℕ
busy_work =
    borrow busy_engine read_key
      (record idle_endpoint { in_flight = read_flight 0 100 1 ∷ read_flight 1 116 2 ∷ [] })

first_pump : pump high 6 false read_work ≡ some busy_work
unfolding borrow give_back pump turn turn_on turn_idle head_next head_request is_control submit_data
    data_request head_submitted submit_urb submit_result accept new_flight fill fill_round
    fill_message fill_request is_full is_empty any_finished is_finished depth out_data urb_interval
    insert lookup of_endpoint
first_pump = refl

abbrev one_left : Messages
one_left = record { waiting = (116, normal 2) ∷ []; completed_with = (success, 7 ∷ 8 ∷ [], 2) ∷ [] }

-- The first reply is delivered, and the second URB still waits.
abbrev delivered_engine : Engine Messages ℕ
delivered_engine = record busy_engine {
  endpoints =
      (read_key, record idle_endpoint { ring = one_left; in_flight = read_flight 1 116 2 ∷ [] })
      ∷ [];
}

finished : finish high 6 read_key 0 (completed read_result) busy_engine ≡ some delivered_engine
unfolding finish on_endpoint finish_work record_result is_unlinked position turn_front flow_turn
    apply complete completion_of status_and_actual finish_stage complete_work flow_of
    from_urb_status of_errno borrow give_back pump turn turn_on turn_idle head_next head_request
    is_control submit_data data_request head_submitted submit_urb submit_result accept new_flight
    fill fill_round fill_message fill_request is_full is_empty any_finished is_finished depth
    out_data urb_interval insert lookup of_endpoint
finished = refl

pump-Leads_example : Leads (view two_reads [] 0) (view_of busy_work)
unfolding borrow
pump-Leads_example = pump-Leads high 6 false read_work busy_work first_pump

Calls-Ascending_example :
    (ep' : Endpoint Messages) × (lookup read_key delivered_engine.endpoints ≡ some ep')
    × (ts : List ℕ) × (Trace
        (view two_reads [] 0)
        ts
        (pumped ∷ replied 0 (completed read_result) ∷ [])
        (view ep'.ring ep'.in_flight 2))
    × Ascending 0 (ts ++ tokens ep'.in_flight) 2
    × (length ep'.in_flight ≤ 32)
unfolding lookup
Calls-Ascending_example = Calls-Ascending high read_key idle_endpoint refl refl (
    calls_on (calls_on no_calls (doorbells 6 read_key rung))
      (finishes 6 read_key 0 (completed read_result) finished))

apply_lem_example :
    (flow : Flow) × (w' : Work Messages ℕ) × (c : Completion) × (apply read_work
        (read_flight 0 100 1)
        (completed read_result)
      ≡ some (flow, w'))
    × Fits (read_flight 0 100 1) c
    × (view_of w'
        ≡ view (completed_first c.status c.bytes c.length two_reads two_reads.waiting).1 [] 0)
unfolding borrow
apply_lem_example = apply_lem read_work (read_flight 0 100 1) (completed read_result)

pump_ends_example : (w' : Work Messages ℕ) × (pump high 6 false read_work ≡ some w')
unfolding borrow
pump_ends_example =
    pump_ends left_of completes_one (λ (s : ℕ). Unit) (λ req s p. ((ok s, s + 1), refl, _))
      (λ n s p. (s, refl, _)) high 6 false read_work _ (omega arith)

abbrev closed_session : Shared
closed_session = close_with closed_by_client (start 5)

abbrev closed_work : Work Messages Shared
closed_work = record {
  key = read_key;
  ep = idle_endpoint;
  next_token = 0;
  session = closed_session;
  uas_warned = false;
  tasks = [];
}

pump_closed_ends_example : (w' : Work Messages Shared) × (pump high 6 false closed_work ≡ some w')
unfolding is_closed close_with start
pump_closed_ends_example =
    pump_closed_ends left_of completes_one high 6 false closed_work refl (omega arith)
