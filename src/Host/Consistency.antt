-- ===== src/Host/Consistency.antt =====
-- Every command of src/host.rs keeps the tables consistent.
use usbip_macos.Prelude.{
  ℕ, ◌%◌, refl, sym, ap, ◌∙◌, Bool, true, false, Option, none, some, ◌==◌, if◌then◌else◌, ok, err,
}
use usbip_macos.Prelude.Maps.{
  lookup, insert, remove, contains_key, contains_key-insert, contains_key-remove,
}
use usbip_macos.Hci.Constants.{
  port_power_on, device_destroy, endpoint_destroy, endpoint_pause, endpoint_update, endpoint_reset,
  endpoint_set_next_transfer, controller_power_on, controller_pause, controller_frame_number,
  port_status, device_create, device_update, endpoint_create,
}
use usbip_macos.Hci.Messages.{RawMessage, message_type, device_address, endpoint_address}
use usbip_macos.Hci.Endpoints.{EndpointInfo}
use usbip_macos.Engine.Types.{Ring, Link, endpoint_key}
use usbip_macos.Engine.Table.{add_endpoint, update_endpoint, remove_endpoint}
use usbip_macos.Engine.Handlers.{reset_endpoint, pause_endpoint, sync_endpoint}
use usbip_macos.Engine.Keys.{
  on_endpoint-HasKeys, add_endpoint-HasKeys, remove_endpoint-HasKeys, pause_endpoint-HasKeys,
}
use usbip_macos.Host.State.{ci_success, answers_status, answers_frame, Calls, Shared}
use usbip_macos.Host.Clock.{Timebase, next}
use usbip_macos.Host.Answers.{endpoint_descriptor, Outcome, respond, no_act}
use usbip_macos.Host.Commands.{
  controller_command, frame_command, answer_frame, endpoint_answered, create_endpoint,
  destroy_endpoint, change_endpoint, endpoint_act, endpoint_done, endpoint_command, within, command,
}
use usbip_macos.Host.Tables.{Consistent, Keeps, respond-Consistent, answer-Keeps, with_engine-Keeps}
use usbip_macos.Host.DeviceTables.{
  either, engine-Keeps, port_command-Keeps, create_device-Keeps, device_command-Keeps,
}

module _ {R S : Type 0} ⦃rg : Ring R⦄ ⦃lk : Link S⦄ where
  endpoint_answered-Keeps :
      (ring_of : ℕ → R) (key sm : ℕ) (o : Option EndpointInfo) (r : Bool × Shared R S)
      → Consistent r.1
      → Keeps (endpoint_answered ring_of key sm o r)
  unfolding endpoint_answered
  endpoint_answered-Keeps ring_of key sm o (false, s) c = c
  endpoint_answered-Keeps ring_of key sm none (true, s) c = _
  endpoint_answered-Keeps ring_of key sm (some info) (true, s) c =
      with_engine-Keeps (λ k. if key == k then true else contains_key k s.engine.endpoints)
        (record s { endpoints = insert key sm s.endpoints })
        (add_endpoint key info (ring_of sm) s.engine) c.pool_agrees
        (λ k.
          ap (λ (b : Bool). if key == k then true else b) (c.same_keys k)
          ∙ sym (contains_key-insert k key sm s.endpoints))
        (add_endpoint-HasKeys key info (ring_of sm) s.engine)

  create_endpoint-Keeps :
      (ring_of : ℕ → R) (calls : Calls R) (msg : RawMessage) (o : Option (ℕ × ℕ × ℕ))
      → (s : Shared R S) → Consistent s
      → Keeps (create_endpoint ring_of calls msg o s)
  unfolding create_endpoint
  create_endpoint-Keeps ring_of calls msg none s c = c
  create_endpoint-Keeps ring_of calls msg (some (sm, device, address)) s c =
      endpoint_answered-Keeps ring_of (endpoint_key (device % 256) (address % 256)) sm
        (endpoint_descriptor calls.memory msg) (respond calls (answers_status ci_success) s)
        (respond-Consistent calls (answers_status ci_success) s c)

  change_endpoint-Keeps :
      (key : ℕ) (s : Shared R S) (o : Option EndpointInfo)
      → Consistent s
      → Keeps (change_endpoint key s o)
  unfolding change_endpoint update_endpoint
  change_endpoint-Keeps key s none c = _
  change_endpoint-Keeps key s (some info) c =
      engine-Keeps s (update_endpoint key info s.engine) c (on_endpoint-HasKeys _ key s.engine)

  endpoint_act-Keeps :
      (calls : Calls R) (msg : RawMessage) (kind key : ℕ) (s : Shared R S)
      → Consistent s
      → Keeps (endpoint_act calls msg kind key s)
  unfolding endpoint_act destroy_endpoint reset_endpoint
  endpoint_act-Keeps calls msg kind key s c =
      either (kind == endpoint_destroy) _ _
        (with_engine-Keeps (λ k. if key == k then false else contains_key k s.engine.endpoints)
          (record s { endpoints = remove key s.endpoints }) (remove_endpoint key s.engine)
          c.pool_agrees
          (λ k.
            ap (λ (b : Bool). if key == k then false else b) (c.same_keys k)
            ∙ sym (contains_key-remove k key s.endpoints))
          (remove_endpoint-HasKeys key s.engine))
        (either (kind == endpoint_pause) _ _
          (engine-Keeps s (pause_endpoint key s.engine) c (pause_endpoint-HasKeys key s.engine))
          (either (kind == endpoint_update) _ _
            (change_endpoint-Keeps key s (endpoint_descriptor calls.memory msg) c)
            (either (kind == endpoint_reset) _ _
              (engine-Keeps s (reset_endpoint key s.engine) c (on_endpoint-HasKeys _ key s.engine))
              c)))

  endpoint_done-Keeps :
      (kind key : ℕ) (o : Outcome R S) → Keeps o → Keeps (endpoint_done kind key o)
  unfolding endpoint_done sync_endpoint
  endpoint_done-Keeps kind key none v = _
  endpoint_done-Keeps kind key (some (err e, s)) v = v
  endpoint_done-Keeps kind key (some (ok u, s)) v =
      either (kind == endpoint_set_next_transfer) _ _
        (engine-Keeps s (sync_endpoint key s.engine) v (on_endpoint-HasKeys _ key s.engine)) v

  endpoint_command-Keeps :
      (calls : Calls R) (msg : RawMessage) (kind key : ℕ) (o : Option ℕ) (s : Shared R S)
      → Consistent s
      → Keeps (endpoint_command calls msg kind key o s)
  unfolding endpoint_command
  endpoint_command-Keeps calls msg kind key none s c = c
  endpoint_command-Keeps calls msg kind key (some sm) s c = endpoint_done-Keeps kind key _ (
      answer-Keeps calls answers_status (endpoint_act calls msg kind key) s c
        (endpoint_act-Keeps calls msg kind key s c))

  answer_frame-Keeps :
      (calls : Calls R) (s : Shared R S) (o : Option ((ℕ × ℕ) × Option ℕ × ℕ))
      → Consistent s
      → Keeps (answer_frame calls s o)
  unfolding answer_frame
  answer_frame-Keeps calls s none c = _
  answer_frame-Keeps calls s (some ((frame, now), last, j)) c =
      let c' : Consistent (record s { last_frame = last }) = record {
        pool_agrees = c.pool_agrees;
        same_keys = c.same_keys;
      } in
      answer-Keeps calls (λ st. answers_frame st frame now) no_act _ c' c'

  pub command-Keeps :
      (ring_of : ℕ → R) (tb : Timebase) (fuel : ℕ) (calls : Calls R) (msg : RawMessage)
      → (s : Shared R S) → Consistent s
      → Keeps (command ring_of tb fuel calls msg s)
  unfolding command controller_command frame_command
  command-Keeps ring_of tb fuel calls msg s c =
      let kind = message_type msg in
      let device = device_address msg in
      let key = endpoint_key (device_address msg) (endpoint_address msg) in
      either (within controller_power_on controller_pause kind) _ _
        (answer-Keeps calls answers_status no_act s c c)
        (either (kind == controller_frame_number) _ _
          (answer_frame-Keeps calls s (next tb calls.ticks fuel s.last_frame 0) c)
          (either (within port_power_on port_status kind) _ _ (port_command-Keeps calls kind s c) (
            either (kind == device_create) _ _ (create_device-Keeps calls calls.new_device s c) (
              either (within device_destroy device_update kind) _ _
                (device_command-Keeps calls kind device (lookup device s.devices) s refl c)
                (either (kind == endpoint_create) _ _
                  (create_endpoint-Keeps ring_of calls msg calls.new_endpoint_machine s c)
                  (either (within endpoint_destroy endpoint_set_next_transfer kind) _ _
                    (endpoint_command-Keeps calls msg kind key (lookup key s.endpoints) s c) c))))))
