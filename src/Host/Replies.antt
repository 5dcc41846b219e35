-- ===== src/Host/Replies.antt =====
-- How often src/host.rs answers a command.
use usbip_macos.Prelude.{
  ◌++◌, ℕ, ◌%◌, ◌≡◌, refl, ◌∙◌, Bool, true, false, inr, List, [], ◌∷◌, Option, none, some, ◌==◌,
  if◌then◌else◌, Result, ok, err,
}
use usbip_macos.Prelude.Maps.{lookup, remove, keys}
use usbip_macos.Client.State.{TransferError}
use usbip_macos.Hci.Constants.{
  port_power_on, port_reset, device_destroy, device_pause, endpoint_destroy, endpoint_pause,
  endpoint_update, endpoint_reset, endpoint_set_next_transfer, controller_power_on,
  controller_pause, controller_frame_number, port_status, device_create, device_update,
  endpoint_create,
}
use usbip_macos.Hci.Messages.{RawMessage, message_type, device_address, endpoint_address}
use usbip_macos.Hci.Endpoints.{EndpointInfo}
use usbip_macos.Hci.Addresses.{AddressPool, allocate}
use usbip_macos.Engine.Types.{Ring, Link, Engine, endpoint_key}
use usbip_macos.Engine.Table.{add_endpoint, update_endpoint, remove_endpoint, remove_device}
use usbip_macos.Engine.Handlers.{reset_device, reset_endpoint, pause_endpoint, sync_endpoint}
use usbip_macos.Host.State.{
  ci_success, ci_no_resources, Answer, answers_status, answers_frame, answers_address, Calls,
  Shared,
}
use usbip_macos.Host.Clock.{Timebase, next}
use usbip_macos.Host.Answers.{endpoint_descriptor, Outcome, respond, answer, no_act, keys_of}
use usbip_macos.Host.Commands.{
  controller_command, frame_command, update_link, device_reset, answer_frame, reset_port, port_act,
  port_done, port_command, device_answered, address_device, device_removed, create_device,
  destroy_device, pause_endpoints, device_act, device_command, endpoint_answered, create_endpoint,
  destroy_endpoint, change_endpoint, endpoint_act, endpoint_done, endpoint_command, within, command,
}
use usbip_macos.Host.Once.{
  AnsweredOnce, Silent, AllOnce, either, answer-Once, once_either, with_engine-Silent,
  with_engine-Once,
}

module _ {R S : Type 0} ⦃rg : Ring R⦄ ⦃lk : Link S⦄ where
  device_reset-Silent :
      (calls : Calls R) (s : Shared R S) (o : Option (Result TransferError (Unit {0}) × S))
      → Silent s.answers (device_reset calls s o)
  unfolding device_reset update_link
  device_reset-Silent calls s none = _
  device_reset-Silent calls s (some (result, session)) = refl

  port_act-Silent :
      (calls : Calls R) (kind : ℕ) (s : Shared R S) → Silent s.answers (port_act calls kind s)
  unfolding port_act reset_port update_link
  port_act-Silent calls kind s =
      either (Silent s.answers) (kind == port_reset) _ _
        (either (Silent s.answers) s.enumerated _ _
          (device_reset-Silent calls s (reset_device calls.reset_reply s.engine.session)) refl)
        refl

  port_done-Once :
      (sent : List Answer) (kind : ℕ) (o : Outcome R S)
      → AllOnce sent o
      → AllOnce sent (port_done kind o)
  unfolding port_done
  port_done-Once sent kind none v = _
  port_done-Once sent kind (some (err e, s)) v = v
  port_done-Once sent kind (some (ok u, s)) v =
      (v.0, same (kind == port_power_on) ∙ v.1, λ q. v.2 refl)
    where
      same : (b : Bool) → (if b then record s { powered = true } else s).answers ≡ s.answers
      same true = refl
      same false = refl

  port_command-Once :
      (calls : Calls R) (kind : ℕ) (s : Shared R S) → AnsweredOnce s (port_command calls kind s)
  unfolding port_command
  port_command-Once calls kind s =
      either (AnsweredOnce s) calls.port _ _
        (once_either s _ (
          port_done-Once s.answers kind (answer calls answers_status (port_act calls kind) s) (
            answer-Once calls answers_status (λ st. refl) (port_act calls kind) s
              (port_act-Silent calls kind s))))
        (inr refl)

  device_answered-Once :
      (sent : List Answer) (address sm : ℕ) (taken : Bool) (s : Shared R S)
      → s.answers ≡ sent ++ answers_address ci_success address ∷ []
      → AllOnce sent (device_answered address sm (taken, s))
  unfolding device_answered
  device_answered-Once sent address sm true s e = (answers_address ci_success address, e, λ q. refl)
  device_answered-Once sent address sm false s e =
      (answers_address ci_success address, e, λ q. refl)

  address_device-Once :
      (calls : Calls R) (sm : ℕ) (s : Shared R S) (o : Option (ℕ × AddressPool))
      → AllOnce s.answers (address_device calls sm s o)
  unfolding address_device respond
  address_device-Once calls sm s none = (answers_status ci_no_resources, refl, λ q. cc q)
  address_device-Once calls sm s (some (x, pool)) =
      device_answered-Once s.answers x sm (calls.responded (answers_address ci_success x)) _ refl

  create_device-Once :
      (calls : Calls R) (o : Option ℕ) (s : Shared R S) → AnsweredOnce s (create_device calls o s)
  unfolding create_device
  create_device-Once calls none s = inr refl
  create_device-Once calls (some sm) s =
      once_either s _ (address_device-Once calls sm s (allocate s.addresses))

  device_removed-Silent :
      (address : ℕ) (s : Shared R S) (o : Option (Engine R S))
      → Silent s.answers (device_removed address s o)
  unfolding device_removed
  device_removed-Silent address s none = _
  device_removed-Silent address s (some e) = refl

  device_act-Silent :
      (kind address : ℕ) (s : Shared R S) → Silent s.answers (device_act kind address s)
  unfolding device_act destroy_device
  device_act-Silent kind address s =
      either (Silent s.answers) (kind == device_destroy) _ _
        (device_removed-Silent address s (remove_device address s.engine))
        (either (Silent s.answers) (kind == device_pause) _ _
          (with_engine-Silent s.answers s
            (pause_endpoints (keys_of address (keys s.endpoints)) s.engine) refl)
          refl)

  device_command-Once :
      (calls : Calls R) (kind address : ℕ) (o : Option ℕ) (s : Shared R S)
      → AnsweredOnce s (device_command calls kind address o s)
  unfolding device_command
  device_command-Once calls kind address none s = inr refl
  device_command-Once calls kind address (some sm) s = once_either s _ (
      answer-Once calls answers_status (λ st. refl) (device_act kind address) s
        (device_act-Silent kind address s))

  endpoint_answered-Once :
      (ring_of : ℕ → R) (key sm : ℕ) (o : Option EndpointInfo) (sent : List Answer) (taken : Bool)
      → (s : Shared R S) → s.answers ≡ sent ++ answers_status ci_success ∷ []
      → AllOnce sent (endpoint_answered ring_of key sm o (taken, s))
  unfolding endpoint_answered
  endpoint_answered-Once ring_of key sm o sent false s e = (answers_status ci_success, e, λ q. refl)
  endpoint_answered-Once ring_of key sm none sent true s e = _
  endpoint_answered-Once ring_of key sm (some info) sent true s e =
      with_engine-Once sent _ (add_endpoint key info (ring_of sm) s.engine)
        (answers_status ci_success, e, λ q. refl)

  create_endpoint-Once :
      (ring_of : ℕ → R) (calls : Calls R) (msg : RawMessage) (o : Option (ℕ × ℕ × ℕ))
      → (s : Shared R S) → AnsweredOnce s (create_endpoint ring_of calls msg o s)
  unfolding create_endpoint respond
  create_endpoint-Once ring_of calls msg none s = inr refl
  create_endpoint-Once ring_of calls msg (some (sm, device, address)) s = once_either s _ (
      endpoint_answered-Once ring_of (endpoint_key (device % 256) (address % 256)) sm
        (endpoint_descriptor calls.memory msg) s.answers
        (calls.responded (answers_status ci_success)) _ refl)

  change_endpoint-Silent :
      (key : ℕ) (s : Shared R S) (o : Option EndpointInfo)
      → Silent s.answers (change_endpoint key s o)
  unfolding change_endpoint
  change_endpoint-Silent key s none = _
  change_endpoint-Silent key s (some info) =
      with_engine-Silent s.answers s (update_endpoint key info s.engine) refl

  endpoint_act-Silent :
      (calls : Calls R) (msg : RawMessage) (kind key : ℕ) (s : Shared R S)
      → Silent s.answers (endpoint_act calls msg kind key s)
  unfolding endpoint_act destroy_endpoint
  endpoint_act-Silent calls msg kind key s =
      either (Silent s.answers) (kind == endpoint_destroy) _ _
        (with_engine-Silent s.answers (record s { endpoints = remove key s.endpoints })
          (remove_endpoint key s.engine) refl)
        (either (Silent s.answers) (kind == endpoint_pause) _ _
          (with_engine-Silent s.answers s (pause_endpoint key s.engine) refl)
          (either (Silent s.answers) (kind == endpoint_update) _ _
            (change_endpoint-Silent key s (endpoint_descriptor calls.memory msg))
            (either (Silent s.answers) (kind == endpoint_reset) _ _
              (with_engine-Silent s.answers s (reset_endpoint key s.engine) refl) refl)))

  endpoint_done-Once :
      (sent : List Answer) (kind key : ℕ) (o : Outcome R S)
      → AllOnce sent o
      → AllOnce sent (endpoint_done kind key o)
  unfolding endpoint_done
  endpoint_done-Once sent kind key none v = _
  endpoint_done-Once sent kind key (some (err e, s)) v = v
  endpoint_done-Once sent kind key (some (ok u, s)) v =
      either (AllOnce sent) (kind == endpoint_set_next_transfer) _ _
        (with_engine-Once sent s (sync_endpoint key s.engine) v) v

  endpoint_command-Once :
      (calls : Calls R) (msg : RawMessage) (kind key : ℕ) (o : Option ℕ) (s : Shared R S)
      → AnsweredOnce s (endpoint_command calls msg kind key o s)
  unfolding endpoint_command
  endpoint_command-Once calls msg kind key none s = inr refl
  endpoint_command-Once calls msg kind key (some sm) s = once_either s _ (
      endpoint_done-Once s.answers kind key _ (
        answer-Once calls answers_status (λ st. refl) (endpoint_act calls msg kind key) s
          (endpoint_act-Silent calls msg kind key s)))

  answer_frame-Once :
      (calls : Calls R) (s : Shared R S) (o : Option ((ℕ × ℕ) × Option ℕ × ℕ))
      → AnsweredOnce s (answer_frame calls s o)
  unfolding answer_frame
  answer_frame-Once calls s none = _
  answer_frame-Once calls s (some ((frame, now), last, j)) = once_either s _ (
      answer-Once calls (λ st. answers_frame st frame now) (λ st. refl) no_act
        (record s { last_frame = last }) refl)

  -- A command that returns is answered exactly once, with success if its result is a success; or it
  -- changes nothing at all.
  pub command-AnsweredOnce :
      (ring_of : ℕ → R) (tb : Timebase) (fuel : ℕ) (calls : Calls R) (msg : RawMessage)
      → (s : Shared R S) → AnsweredOnce s (command ring_of tb fuel calls msg s)
  unfolding command controller_command frame_command
  command-AnsweredOnce ring_of tb fuel calls msg s =
      let kind = message_type msg in
      let device = device_address msg in
      let key = endpoint_key (device_address msg) (endpoint_address msg) in
      let by = either (AnsweredOnce s) in
      by (within controller_power_on controller_pause kind) _ _
        (once_either s _ (answer-Once calls answers_status (λ st. refl) no_act s refl))
        (by (kind == controller_frame_number) _ _
          (answer_frame-Once calls s (next tb calls.ticks fuel s.last_frame 0))
          (by (within port_power_on port_status kind) _ _ (port_command-Once calls kind s) (
            by (kind == device_create) _ _ (create_device-Once calls calls.new_device s) (
              by (within device_destroy device_update kind) _ _
                (device_command-Once calls kind device (lookup device s.devices) s)
                (by (kind == endpoint_create) _ _
                  (create_endpoint-Once ring_of calls msg calls.new_endpoint_machine s)
                  (by (within endpoint_destroy endpoint_set_next_transfer kind) _ _
                    (endpoint_command-Once calls msg kind key (lookup key s.endpoints) s)
                    (inr refl)))))))
