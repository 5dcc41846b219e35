-- ===== src/Engine/Calls.antt =====
-- Sequences of calls of src/engine.rs, on all endpoints, with changes of the rings by the host between
-- them: each endpoint follows its contract for as long as it is in the map.
use usbip_macos.Prelude.{
  ℕ, ◌≤◌, ◌≡◌, ◌≢◌, refl, sym, ◌∙◌, subst, false, Bool-cases, inl, inr, List, [], ◌∷◌, ◌++◌, Option,
  none, some, eq→==, ne→==, length,
}
use usbip_macos.Prelude.Maps.{lookup, insert, remove, keys, lookup-insert, lookup-remove}
use usbip_macos.Protocol.Types.{Speed}
use usbip_macos.Client.State.{TransferResult}
use usbip_macos.Hci.Endpoints.{EndpointInfo}
use usbip_macos.Engine.Types.{Ring, Link, InFlight, Endpoint, Engine, device_of}
use usbip_macos.Engine.Pump.{unlink_flights, pump}
use usbip_macos.Engine.Table.{
  new_endpoint, with_session, update_endpoint, drop_endpoint, add_endpoint, remove_endpoint,
  take_device, unlink_endpoints, remove_device,
}
use usbip_macos.Engine.Handlers.{
  pauses, reset_endpoint, pause_work, pause_endpoint, sync_endpoint, doorbell, finish,
}
use usbip_macos.Engine.Contract.{
  View, view, Cause, pumped, paused, dropped, aside, replied, replaced, replaces, Trace, none_yet,
  then_event,
}
use usbip_macos.Engine.Works.{
  drop_flights-Event, sync_flights-Event, pause_work-Event, finish_work-Event, pump-Event, unmoved,
}
use usbip_macos.Engine.Order.{Ascending, tokens, Trace-Ascending, Trace-bounded}
use usbip_macos.Engine.Kept.{FromEach, KeptAt, Kept, on_endpoint-Kept, untouched, take_device-other}

module _ {R S : Type 0} ⦃rg : Ring R⦄ ⦃lk : Link S⦄ where
  with_session-Kept :
      (k : ℕ) (v : View R) (c : Cause R) (e : Engine R S) (o : Option S)
      → KeptAt k v c e
      → Kept k v c (with_session e o)
  unfolding with_session KeptAt
  with_session-Kept k v c e none h = _
  with_session-Kept k v c e (some s) h = h

  drop_endpoint-Kept :
      (k : ℕ) (v : View R) (c : Cause R) (o : Option (Endpoint R)) (e : Engine R S)
      → KeptAt k v c e
      → Kept k v c (drop_endpoint o e)
  unfolding drop_endpoint
  drop_endpoint-Kept k v c none e h = h
  drop_endpoint-Kept k v c (some ep) e h =
      with_session-Kept k v c e (unlink_flights ep.in_flight e.session) h

  -- The calls, other than those that replace or remove the endpoint under `k`; and the host, which may
  -- change that endpoint's ring between them. Each has the cause of what it may do to that endpoint.
  pub data Call (speed : Speed) (k : ℕ) : Engine R S → Cause R → Engine R S → Type 0 where
    doorbells :
        (fuel key : ℕ) {e e' : Engine R S}
        → doorbell speed fuel key e ≡ some e'
        → Call speed k e pumped e'
    finishes :
        (fuel key token : ℕ) (result : TransferResult) {e e' : Engine R S}
        → finish speed fuel key token result e ≡ some e'
        → Call speed k e (replied token result) e'
    pauses_reads :
        (key : ℕ) {e e' : Engine R S} → pause_endpoint key e ≡ some e' → Call speed k e paused e'
    resets :
        (key : ℕ) {e e' : Engine R S} → reset_endpoint key e ≡ some e' → Call speed k e dropped e'
    syncs :
        (key : ℕ) {e e' : Engine R S} → sync_endpoint key e ≡ some e' → Call speed k e dropped e'
    updates :
        (key : ℕ) (info : EndpointInfo) {e e' : Engine R S}
        → update_endpoint key info e ≡ some e'
        → Call speed k e aside e'
    adds :
        (key : ℕ) (info : EndpointInfo) (ring : R) {e e' : Engine R S}
        → key ≢ k
        → add_endpoint key info ring e ≡ some e'
        → Call speed k e aside e'
    removes :
        (key : ℕ) {e e' : Engine R S}
        → key ≢ k
        → remove_endpoint key e ≡ some e'
        → Call speed k e aside e'
    removes_device :
        (device : ℕ) {e e' : Engine R S}
        → device_of k ≢ device
        → remove_device device e ≡ some e'
        → Call speed k e aside e'
    host :
        (r : R) (ep : Endpoint R) {e : Engine R S}
        → lookup k e.endpoints ≡ some ep
        → Call speed k e
            (replaced r)
            (record e { endpoints = insert k (record ep { ring = r }) e.endpoints })

  pause_endpoint-Kept :
      (key k : ℕ) (e : Engine R S) (ep : Endpoint R)
      → lookup k e.endpoints ≡ some ep
      → Kept k (view ep.ring ep.in_flight e.next_token) paused (pause_endpoint key e)
  unfolding pause_endpoint
  pause_endpoint-Kept key k e ep h = elim (Bool-cases (pauses key)) [
    | inl reads ↦
        rw (reads, Kept) (on_endpoint-Kept paused pause_work pause_work-Event key k e ep h)
    | inr keeps ↦ rw (keeps, Kept) (untouched k paused e e ep h refl)
  ]

  Call-Kept :
      (speed : Speed) (k : ℕ) {c : Cause R} {e e' : Engine R S} (ep : Endpoint R)
      → Call speed k e c e'
      → lookup k e.endpoints ≡ some ep
      → KeptAt k (view ep.ring ep.in_flight e.next_token) c e'
  unfolding doorbell finish pause_endpoint reset_endpoint sync_endpoint update_endpoint add_endpoint
      remove_endpoint remove_device KeptAt
  Call-Kept speed k {e = e} ep (doorbells fuel key q) h =
      subst (Kept k (view ep.ring ep.in_flight e.next_token) pumped) q
        (on_endpoint-Kept pumped (pump speed fuel false) (pump-Event speed fuel) key k e ep h)
  Call-Kept speed k {e = e} ep (finishes fuel key token result q) h =
      subst (Kept k (view ep.ring ep.in_flight e.next_token) (replied token result)) q (
        on_endpoint-Kept (replied token result) _ (finish_work-Event speed fuel token result) key k
          e ep h)
  Call-Kept speed k {e = e} ep (pauses_reads key q) h =
      subst (Kept k (view ep.ring ep.in_flight e.next_token) paused) q
        (pause_endpoint-Kept key k e ep h)
  Call-Kept speed k {e = e} ep (resets key q) h =
      subst (Kept k (view ep.ring ep.in_flight e.next_token) dropped) q (
        on_endpoint-Kept dropped _
          (λ w. drop_flights-Event (record w { ep = record w.ep { setup = none } })) key k e ep h)
  Call-Kept speed k {e = e} ep (syncs key q) h =
      subst (Kept k (view ep.ring ep.in_flight e.next_token) dropped) q
        (on_endpoint-Kept dropped _ (λ w. sync_flights-Event w w.ep.in_flight) key k e ep h)
  Call-Kept speed k {e = e} ep (updates key info q) h =
      subst (Kept k (view ep.ring ep.in_flight e.next_token) aside) q
        (on_endpoint-Kept aside _ (λ w. unmoved aside w) key k e ep h)
  Call-Kept speed k {e = e} ep (adds key info ring n q) h =
      let e1 : Engine R S = record e {
        endpoints = insert key (new_endpoint info ring) e.endpoints;
      } in
      subst (Kept k (view ep.ring ep.in_flight e.next_token) aside) q (
        drop_endpoint-Kept k (view ep.ring ep.in_flight e.next_token) aside (lookup key e.endpoints)
          e1
          (untouched k aside e e1 ep
            (lookup-insert k key (new_endpoint info ring) e.endpoints ∙ rw (ne→== key k n) h) refl))
  Call-Kept speed k {e = e} ep (removes key n q) h =
      let e1 : Engine R S = record e { endpoints = remove key e.endpoints } in
      subst (Kept k (view ep.ring ep.in_flight e.next_token) aside) q (
        drop_endpoint-Kept k (view ep.ring ep.in_flight e.next_token) aside (lookup key e.endpoints)
          e1
          (untouched k aside e e1 ep (lookup-remove k key e.endpoints ∙ rw (ne→== key k n) h) refl))
  Call-Kept speed k {e = e} ep (removes_device device n q) h =
      let r = take_device device (keys e.endpoints) e.endpoints in
      let e1 : Engine R S = record e { endpoints = r.1 } in
      subst (Kept k (view ep.ring ep.in_flight e.next_token) aside) q (
        with_session-Kept k (view ep.ring ep.in_flight e.next_token) aside e1
          (unlink_endpoints r.0 e.session)
          (untouched k aside e e1 ep
            (take_device-other device k (keys e.endpoints) e.endpoints n ∙ h) refl))
  Call-Kept speed k {e = e} ep (host r ep0 h0) h = (
    record ep0 { ring = r },
    lookup-insert k k (record ep0 { ring = r }) e.endpoints ∙ rw (eq→== k k refl) refl,
    subst (FromEach (view r ep0.in_flight e.next_token) (replaced r) e.next_token) (sym h0 ∙ h)
        ([], replaces ep0.ring r ep0.in_flight e.next_token),
  )

  -- A sequence of such calls, with their causes.
  pub data Calls (speed : Speed) (k : ℕ) (e : Engine R S)
      : List (Cause R) → Engine R S → Type 0 where
    no_calls : Calls speed k e [] e
    calls_on :
        {cs : List (Cause R)} {c : Cause R} {e1 e2 : Engine R S}
        → Calls speed k e cs e1
        → Call speed k e1 c e2
        → Calls speed k e (cs ++ c ∷ []) e2

  -- The endpoint under `k` is there still, and has gone through events with these causes.
  abbrev pub TracedAt : ℕ → View R → List (Cause R) → Engine R S → Type 0
  TracedAt k v cs e =
      (ep : Endpoint R) × (lookup k e.endpoints ≡ some ep)
      × (ts : List ℕ) × Trace v ts cs (view ep.ring ep.in_flight e.next_token)

  -- Through any sequence of calls, on whatever endpoints, an endpoint that is neither replaced nor
  -- removed stays in the map, and what happens to it are events of its contract, one for each call.
  pub Calls-TracedAt :
      (speed : Speed) (k : ℕ) {e e' : Engine R S} {cs : List (Cause R)} (ep : Endpoint R)
      → lookup k e.endpoints ≡ some ep
      → Calls speed k e cs e'
      → TracedAt k (view ep.ring ep.in_flight e.next_token) cs e'
  unfolding KeptAt
  Calls-TracedAt speed k ep h no_calls = (ep, h, [], none_yet)
  Calls-TracedAt speed k ep h (calls_on cs c) =
      let (ep1, h1, ts, trace) = Calls-TracedAt speed k ep h cs in
      let (ep2, h2, more) = Call-Kept speed k ep1 c h1 in
      (ep2, h2, ts ++ more.0, then_event trace more.1)

  -- From an endpoint with nothing in flight on, through any sequence of calls on whatever endpoints that
  -- does not replace or remove it: what happens to it are events of its contract, one for each call and
  -- with the cause of that call; the tokens of the replies that these deliver and then of the URBs in
  -- flight rise from the next token at the start and are below the one at the end, and at most 32 URBs
  -- are in flight.
  pub Calls-Ascending :
      (speed : Speed) (k : ℕ) {e e' : Engine R S} {cs : List (Cause R)} (ep : Endpoint R)
      → lookup k e.endpoints ≡ some ep
      → ep.in_flight ≡ []
      → Calls speed k e cs e'
      → (ep' : Endpoint R) × (lookup k e'.endpoints ≡ some ep')
        × (ts : List ℕ) × (Trace
            (view ep.ring [] e.next_token)
            ts
            cs
            (view ep'.ring ep'.in_flight e'.next_token))
        × Ascending e.next_token (ts ++ tokens ep'.in_flight) e'.next_token
        × (length ep'.in_flight ≤ 32)
  Calls-Ascending speed k {e = e} {e' = e'} {cs = cs} ep h idle calls =
      let (ep', h', ts, l) = Calls-TracedAt speed k ep h calls in
      let trace =
        subst
          (λ (fs : List InFlight).
            Trace (view ep.ring fs e.next_token) ts cs (view ep'.ring ep'.in_flight e'.next_token))
          idle l in
      (
        ep',
        h',
        ts,
        trace,
        Trace-Ascending ep.ring ep'.ring e.next_token e'.next_token ep'.in_flight ts cs trace,
        Trace-bounded ep.ring ep'.ring e.next_token e'.next_token ep'.in_flight ts cs trace,
      )
