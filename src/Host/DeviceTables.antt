-- ===== src/Host/DeviceTables.antt =====
-- What the commands for ports and devices of src/host.rs keep.
use usbip_macos.Prelude.{
  ℕ, ◌≡◌, refl, sym, ap, ◌∙◌, Bool, true, false, Bool-cases, inl, inr, List, [], ◌∷◌, Option, none,
  some, ◌==◌, if◌then◌else◌, Result, ok, err,
}
use usbip_macos.Prelude.Maps.{lookup, insert, contains_key, keys, contains_key_of_lookup}
use usbip_macos.Client.State.{TransferError}
use usbip_macos.Hci.Constants.{port_power_on, port_reset, device_destroy, device_pause}
use usbip_macos.Hci.Addresses.{AddressPool, allocate, release}
use usbip_macos.Hci.AddressSets.{allocate-Allocates}
use usbip_macos.Engine.Types.{Ring, Link, Engine, device_of}
use usbip_macos.Engine.Table.{remove_device}
use usbip_macos.Engine.Handlers.{reset_device, pause_endpoint}
use usbip_macos.Engine.Keys.{
  HasKeys, HasKeys-subst, keys_in, remove_device-HasKeys, pause_endpoint-HasKeys,
}
use usbip_macos.Host.State.{
  ci_success, ci_no_resources, answers_status, answers_address, Calls, Shared,
}
use usbip_macos.Host.Answers.{Outcome, respond, answer, with_engine, keys_of}
use usbip_macos.Host.Commands.{
  update_link, device_reset, reset_port, port_act, port_done, port_command, device_answered,
  address_device, device_removed, create_device, destroy_device, pause_endpoints, device_act,
  device_command,
}
use usbip_macos.Host.Tables.{
  Consistent, PoolAgrees, Keeps, respond-Consistent, answer-Keeps, with_engine-Keeps,
  contains_key-retain_others, create_agrees, give_back_agrees, destroy_agrees,
}

module _ {R S : Type 0} where
  -- A test picks between outcomes that keep the tables.
  pub either : (b : Bool) (x y : Outcome R S) → Keeps x → Keeps y → Keeps (if b then x else y)
  either true x y hx hy = hx
  either false x y hx hy = hy

module _ {R S : Type 0} ⦃rg : Ring R⦄ ⦃lk : Link S⦄ where
  -- A call of the engine that adds and removes no endpoint.
  pub engine-Keeps :
      (s : Shared R S) (o : Option (Engine R S))
      → Consistent s
      → HasKeys (keys_in s.engine) o
      → Keeps (with_engine s o)
  engine-Keeps s o c h = with_engine-Keeps (keys_in s.engine) s o c.pool_agrees c.same_keys h

  device_reset-Keeps :
      (calls : Calls R) (s : Shared R S) (o : Option (Result TransferError (Unit {0}) × S))
      → Consistent s
      → Keeps (device_reset calls s o)
  unfolding device_reset update_link
  device_reset-Keeps calls s none c = _
  device_reset-Keeps calls s (some (result, session)) c = record {
    pool_agrees = c.pool_agrees;
    same_keys = c.same_keys;
  }

  port_act-Keeps :
      (calls : Calls R) (kind : ℕ) (s : Shared R S) → Consistent s → Keeps (port_act calls kind s)
  unfolding port_act reset_port update_link
  port_act-Keeps calls kind s c =
      either (kind == port_reset) _ _
        (either s.enumerated _ _
          (device_reset-Keeps calls s (reset_device calls.reset_reply s.engine.session) c) c)
        c

  port_done-Keeps : (kind : ℕ) (o : Outcome R S) → Keeps o → Keeps (port_done kind o)
  unfolding port_done
  port_done-Keeps kind none v = _
  port_done-Keeps kind (some (err e, s)) v = v
  port_done-Keeps kind (some (ok u, s)) v = elim (Bool-cases (kind == port_power_on)) [
    | inl on ↦ rw (on, Keeps) (record { pool_agrees = v.pool_agrees; same_keys = v.same_keys })
    | inr other ↦ rw (other, Keeps) v
  ]

  pub port_command-Keeps :
      (calls : Calls R) (kind : ℕ) (s : Shared R S)
      → Consistent s
      → Keeps (port_command calls kind s)
  unfolding port_command
  port_command-Keeps calls kind s c =
      either calls.port _ _
        (port_done-Keeps kind (answer calls answers_status (port_act calls kind) s) (
          answer-Keeps calls answers_status (port_act calls kind) s c
            (port_act-Keeps calls kind s c)))
        c

  device_answered-Keeps :
      (address sm : ℕ) (r : Bool × Shared R S)
      → PoolAgrees r.1.addresses (insert address sm r.1.devices)
      → PoolAgrees (release address r.1.addresses) r.1.devices
      → ((k : ℕ) → contains_key k r.1.engine.endpoints ≡ contains_key k r.1.endpoints)
      → Keeps (device_answered address sm r)
  unfolding device_answered
  device_answered-Keeps address sm (true, s) p q k = record { pool_agrees = p; same_keys = k }
  device_answered-Keeps address sm (false, s) p q k = record { pool_agrees = q; same_keys = k }

  address_device-Keeps :
      (calls : Calls R) (sm : ℕ) (s : Shared R S) (o : Option (ℕ × AddressPool))
      → allocate s.addresses ≡ o
      → Consistent s
      → Keeps (address_device calls sm s o)
  unfolding address_device respond
  address_device-Keeps calls sm s none e c =
      respond-Consistent calls (answers_status ci_no_resources) s c
  address_device-Keeps calls sm s (some (x, pool)) e c =
      let v = allocate-Allocates s.addresses pool x e in
      device_answered-Keeps x sm
        (respond calls (answers_address ci_success x) (record s { addresses = pool }))
        (create_agrees s.addresses pool s.devices x sm c.pool_agrees v)
        (give_back_agrees s.addresses pool s.devices x c.pool_agrees v)
        (respond-Consistent calls (answers_address ci_success x) s c).same_keys

  pub create_device-Keeps :
      (calls : Calls R) (o : Option ℕ) (s : Shared R S)
      → Consistent s
      → Keeps (create_device calls o s)
  unfolding create_device
  create_device-Keeps calls none s c = c
  create_device-Keeps calls (some sm) s c =
      address_device-Keeps calls sm s (allocate s.addresses) refl c

  device_removed-Keeps :
      (address : ℕ) (s : Shared R S) (o : Option (Engine R S))
      → Consistent s
      → contains_key address s.devices ≡ true
      → HasKeys (λ k. if device_of k == address then false else contains_key k s.engine.endpoints) o
      → Keeps (device_removed address s o)
  unfolding device_removed
  device_removed-Keeps address s none c known h = _
  device_removed-Keeps address s (some e) c known h = record {
    pool_agrees = destroy_agrees s.addresses s.devices address c.pool_agrees known;
    same_keys = λ k.
        h k
        ∙ (ap (λ (b : Bool). if device_of k == address then false else b) (c.same_keys k)
            ∙ sym (contains_key-retain_others address k s.endpoints));
  }

  HasKeys-then :
      (test : ℕ → Bool) (ks : List ℕ) (o : Option (Engine R S))
      → ((e : Engine R S) → HasKeys test (some e) → HasKeys test (pause_endpoints ks e))
      → HasKeys test o
      → HasKeys test (elim o [ none ↦ none | some e ↦ pause_endpoints ks e ])
  HasKeys-then test ks none f h = _
  HasKeys-then test ks (some e) f h = f e h

  pause_endpoints-HasKeys :
      (test : ℕ → Bool) (ks : List ℕ) (e : Engine R S)
      → HasKeys test (some e)
      → HasKeys test (pause_endpoints ks e)
  unfolding pause_endpoints
  pause_endpoints-HasKeys test [] e h = h
  pause_endpoints-HasKeys test (k ∷ ks) e h =
      HasKeys-then test ks (pause_endpoint k e) (pause_endpoints-HasKeys test ks)
        (HasKeys-subst (keys_in e) test (pause_endpoint k e) h (pause_endpoint-HasKeys k e))

  device_act-Keeps :
      (kind address : ℕ) (s : Shared R S)
      → Consistent s
      → contains_key address s.devices ≡ true
      → Keeps (device_act kind address s)
  unfolding device_act destroy_device
  device_act-Keeps kind address s c known =
      either (kind == device_destroy) _ _
        (device_removed-Keeps address s (remove_device address s.engine) c known
          (remove_device-HasKeys address s.engine))
        (either (kind == device_pause) _ _
          (engine-Keeps s (pause_endpoints (keys_of address (keys s.endpoints)) s.engine) c (
            pause_endpoints-HasKeys (keys_in s.engine) (keys_of address (keys s.endpoints)) s.engine
              (λ k. refl)))
          c)

  pub device_command-Keeps :
      (calls : Calls R) (kind address : ℕ) (o : Option ℕ) (s : Shared R S)
      → lookup address s.devices ≡ o
      → Consistent s
      → Keeps (device_command calls kind address o s)
  unfolding device_command
  device_command-Keeps calls kind address none s e c = c
  device_command-Keeps calls kind address (some sm) s e c =
      answer-Keeps calls answers_status (device_act kind address) s c
        (device_act-Keeps kind address s c (contains_key_of_lookup address s.devices sm e))
