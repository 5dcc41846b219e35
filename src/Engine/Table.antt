-- ===== src/Engine/Table.antt =====
-- The map of endpoints of src/engine.rs: what adds, changes and removes an endpoint. The lock is held
-- while the map changes, and given up before anything is unlinked.
use usbip_macos.Prelude.{
  ℕ, Bool, false, List, [], ◌∷◌, Option, none, some, length, ◌==◌, if◌then◌else◌,
}
use usbip_macos.Prelude.Maps.{lookup, insert, remove, contains_key, keys}
use usbip_macos.Hci.Endpoints.{EndpointInfo}
use usbip_macos.Engine.Types.{Link, InFlight, Endpoint, Work, Engine, device_of}
use usbip_macos.Engine.Pump.{is_finished, unlink_flights}

unfoldable pub new_endpoint : {R : Type 0} → EndpointInfo → R → Endpoint R
new_endpoint info ring = record {
  ring = ring;
  info = info;
  in_flight = [];
  setup = none;
  hidden_config = none;
}

module _ {R S : Type 0} where
  -- `Engine::new`
  unfoldable pub new : S → Engine R S
  new session = record {
    endpoints = [];
    next_token = 0;
    session = session;
    uas_warned = false;
    tasks = [];
  }

  -- The endpoint is borrowed from the map, and given back.
  unfoldable pub borrow : Engine R S → ℕ → Endpoint R → Work R S
  borrow e key ep = record {
    key = key;
    ep = ep;
    next_token = e.next_token;
    session = e.session;
    uas_warned = e.uas_warned;
    tasks = e.tasks;
  }

  unfoldable pub give_back : ℕ → Engine R S → Work R S → Engine R S
  give_back key e w = record {
    endpoints = insert key w.ep e.endpoints;
    next_token = w.next_token;
    session = w.session;
    uas_warned = w.uas_warned;
    tasks = w.tasks;
  }

  unfoldable pub with_session : Engine R S → Option S → Option (Engine R S)
  with_session e none = none
  with_session e (some s) = some (record e { session = s })

  -- A call that changes one endpoint; without such an endpoint it does nothing.
  unfoldable pub on_endpoint : (Work R S → Option (Work R S)) → ℕ → Engine R S → Option (Engine R S)
  on_endpoint f key e = elim (lookup key e.endpoints) [
    | none ↦ some e
    | some ep ↦ elim (f (borrow e key ep)) [ none ↦ none | some w ↦ some (give_back key e w) ]
  ]

  unfoldable pub update_endpoint : ℕ → EndpointInfo → Engine R S → Option (Engine R S)
  update_endpoint key info e =
      on_endpoint (λ w. some (record w { ep = record w.ep { info = info } })) key e

  unfoldable pub has_endpoint : ℕ → Engine R S → Bool
  has_endpoint key e = contains_key key e.endpoints

  unfoldable pub in_flight_count : ℕ → Engine R S → ℕ
  in_flight_count key e = elim (lookup key e.endpoints) [ none ↦ 0 | some ep ↦ length ep.in_flight ]

unfoldable pub oldest_waiting : List InFlight → Option ℕ
oldest_waiting [] = none
oldest_waiting (f ∷ fs) = if is_finished f then oldest_waiting fs else some f.seqnum

module _ {R S : Type 0} where
  -- `Engine::in_flight`
  unfoldable pub in_flight_seqnum : ℕ → Engine R S → Option ℕ
  in_flight_seqnum key e = elim (lookup key e.endpoints) [
    | none ↦ none
    | some ep ↦ oldest_waiting ep.in_flight
  ]

-- The endpoints of a device, taken out of the map by its keys.
unfoldable pub take_device :
    {R : Type 0} → ℕ → List ℕ → List (ℕ × Endpoint R) → List (Endpoint R) × List (ℕ × Endpoint R)
take_device device [] m = ([], m)
take_device device (key ∷ ks) m =
    if device_of key == device
    then elim (lookup key m) [
      | none ↦ take_device device ks m
      | some ep ↦ let r = take_device device ks (remove key m) in (ep ∷ r.0, r.1)
    ]
    else take_device device ks m

module _ {R S : Type 0} ⦃lk : Link S⦄ where
  unfoldable pub unlink_endpoints : List (Endpoint R) → S → Option S
  unlink_endpoints [] s = some s
  unlink_endpoints (ep ∷ eps) s = elim (unlink_flights ep.in_flight s) [
    | none ↦ none
    | some s' ↦ unlink_endpoints eps s'
  ]

  -- What the old endpoint under the key had in flight is unlinked.
  unfoldable pub drop_endpoint : Option (Endpoint R) → Engine R S → Option (Engine R S)
  drop_endpoint none e = some e
  drop_endpoint (some ep) e = with_session e (unlink_flights ep.in_flight e.session)

  unfoldable pub add_endpoint : ℕ → EndpointInfo → R → Engine R S → Option (Engine R S)
  add_endpoint key info ring e =
      drop_endpoint (lookup key e.endpoints)
        (record e { endpoints = insert key (new_endpoint info ring) e.endpoints })

  unfoldable pub remove_endpoint : ℕ → Engine R S → Option (Engine R S)
  remove_endpoint key e =
      drop_endpoint (lookup key e.endpoints) (record e { endpoints = remove key e.endpoints })

  unfoldable pub remove_device : ℕ → Engine R S → Option (Engine R S)
  remove_device device e =
      let r = take_device device (keys e.endpoints) e.endpoints in
      with_session (record e { endpoints = r.1 }) (unlink_endpoints r.0 e.session)
