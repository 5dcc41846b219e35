-- ===== src/Engine/Keys.antt =====
-- Which endpoints are in the map of src/engine.rs after a call.
use usbip_macos.Prelude.{
  ℕ, ◌≡◌, refl, sym, ap, ◌∙◌, subst, Bool, true, false, ◌&&◌, ◌||◌, Bool-cases, Option-cases, inl,
  inr, List, [], ◌∷◌, Option, none, some, ◌==◌, ==→eq, if◌then◌else◌, arith,
}
use usbip_macos.Prelude.Maps.{
  lookup, insert, remove, contains_key, keys, contains_key-insert, contains_key-remove,
  contains_key_of_lookup,
}
use usbip_macos.Hci.Endpoints.{EndpointInfo}
use usbip_macos.Engine.Types.{Link, Endpoint, Work, Engine, device_of}
use usbip_macos.Engine.Pump.{unlink_flights}
use usbip_macos.Engine.Table.{
  new_endpoint, borrow, give_back, with_session, on_endpoint, drop_endpoint, add_endpoint,
  remove_endpoint, take_device, unlink_endpoints, remove_device,
}
use usbip_macos.Engine.Handlers.{pauses, pause_work, pause_endpoint}

contains_key-insert_same :
    {R : Type 0} (m : List (ℕ × Endpoint R)) (key k : ℕ) (ep v : Endpoint R)
    → lookup key m ≡ some ep
    → contains_key k (insert key v m) ≡ contains_key k m
contains_key-insert_same m key k ep v h = elim (Bool-cases (key == k)) [
  | inr other ↦ contains_key-insert k key v m ∙ rw other refl
  | inl same ↦
      contains_key-insert k key v m
      ∙ (rw same refl
          ∙ sym (
              subst (λ (j : ℕ). contains_key j m ≡ true) (==→eq key k same)
                (contains_key_of_lookup key m ep h)))
]

module _ {R S : Type 0} where
  -- If the call returns, an endpoint is in the map exactly when the test says so.
  abbrev pub HasKeys : (ℕ → Bool) → Option (Engine R S) → Type 0
  HasKeys test none = Unit
  HasKeys test (some e) = (k : ℕ) → contains_key k e.endpoints ≡ test k

  abbrev pub keys_in : Engine R S → ℕ → Bool
  keys_in e k = contains_key k e.endpoints

  pub on_endpoint-HasKeys :
      (f : Work R S → Option (Work R S)) (key : ℕ) (e : Engine R S)
      → HasKeys (keys_in e) (on_endpoint f key e)
  unfolding on_endpoint give_back
  on_endpoint-HasKeys f key e = elim (Option-cases (lookup key e.endpoints)) [
    | inl absent ↦ rw (absent, HasKeys) (λ k. refl)
    | inr (ep, h) ↦ elim (Option-cases (f (borrow e key ep))) [
      | inl stuck ↦ rw (h, stuck, HasKeys) _
      | inr (w, fw) ↦
          rw (h, fw, HasKeys) (λ k. contains_key-insert_same e.endpoints key k ep w.ep h)
    ]
  ]

  with_session-HasKeys : (e : Engine R S) (o : Option S) → HasKeys (keys_in e) (with_session e o)
  unfolding with_session
  with_session-HasKeys e none = _
  with_session-HasKeys e (some s) = λ k. refl

-- Whether a number stands in the list.
abbrev stands_in : ℕ → List ℕ → Bool
stands_in k [] = false
stands_in k (j ∷ js) = j == k || stands_in k js

stands_in-keys :
    {R : Type 0} (k : ℕ) (m : List (ℕ × Endpoint R)) → stands_in k (keys m) ≡ contains_key k m
unfolding contains_key
stands_in-keys k [] = refl
stands_in-keys k ((j, ep) ∷ m) = ap (λ (b : Bool). j == k || b) (stands_in-keys k m)

lookup-none-contains_key :
    {R : Type 0} (k : ℕ) (m : List (ℕ × Endpoint R)) → lookup k m ≡ none → contains_key k m ≡ false
unfolding lookup contains_key
lookup-none-contains_key k [] h = refl
lookup-none-contains_key k ((j, ep) ∷ m) h = ground (arith, h, lookup-none-contains_key k m)

if_false : (b c : Bool) → c ≡ false → (if b then false else c) ≡ false
if_false true c h = refl
if_false false c h = h

contains_key-take_device :
    {R : Type 0} (device k : ℕ) (ks : List ℕ) (m : List (ℕ × Endpoint R))
    → contains_key k (take_device device ks m).1
      ≡ (if device_of k == device && stands_in k ks then false else contains_key k m)
unfolding take_device
contains_key-take_device device k [] m = elim (Bool-cases (device_of k == device)) [
  | inl h ↦ rw h refl
  | inr h ↦ rw h refl
]
contains_key-take_device device k (key ∷ ks) m = elim (Bool-cases (key == k)) [
  | inr differ ↦ elim (Bool-cases (device_of key == device)) [
    | inr other ↦ rw (other, differ) (contains_key-take_device device k ks m)
    | inl hit ↦ elim (Option-cases (lookup key m)) [
      | inl absent ↦ rw (hit, absent, differ) (contains_key-take_device device k ks m)
      | inr (ep, h) ↦
          let kept : contains_key k (remove key m) ≡ contains_key k m =
            contains_key-remove k key m ∙ rw differ refl in
          rw (hit, h, differ, ← kept) (contains_key-take_device device k ks (remove key m))
    ]
  ]
  | inl same ↦ elim (Bool-cases (device_of key == device)) [
    | inr other ↦
        let off = subst (λ (j : ℕ). (device_of j == device) ≡ false) (==→eq key k same) other in
        rw other (contains_key-take_device device k ks m ∙ rw off refl)
    | inl hit ↦
        let on = subst (λ (j : ℕ). (device_of j == device) ≡ true) (==→eq key k same) hit in
        elim (Option-cases (lookup key m)) [
          | inl absent ↦
              rw (hit, absent)
                (contains_key-take_device device k ks m
                  ∙ (if_false (device_of k == device && stands_in k ks) (contains_key k m) (
                        subst (λ (j : ℕ). contains_key j m ≡ false) (==→eq key k same)
                          (lookup-none-contains_key key m absent))
                      ∙ rw (on, same) refl))
          | inr (ep, h) ↦
              rw (hit, h)
                (contains_key-take_device device k ks (remove key m)
                  ∙ (if_false (device_of k == device && stands_in k ks)
                        (contains_key k (remove key m)) (contains_key-remove k key m ∙ rw same refl)
                      ∙ rw (on, same) refl))
        ]
  ]
]

-- Of the keys of a map, those of the device are gone, and the others are there still.
contains_key-device :
    {R : Type 0} (device k : ℕ) (m : List (ℕ × Endpoint R))
    → contains_key k (take_device device (keys m) m).1
      ≡ (if device_of k == device then false else contains_key k m)
contains_key-device device k m =
    contains_key-take_device device k (keys m) m
    ∙ (ap (λ (b : Bool). if device_of k == device && b then false else contains_key k m)
          (stands_in-keys k m)
        ∙ both (device_of k == device) (contains_key k m))
  where
    both : (b c : Bool) → (if b && c then false else c) ≡ (if b then false else c)
    both true true = refl
    both true false = refl
    both false c = refl

module _ {R S : Type 0} ⦃lk : Link S⦄ where
  drop_endpoint-HasKeys :
      (o : Option (Endpoint R)) (e : Engine R S) → HasKeys (keys_in e) (drop_endpoint o e)
  unfolding drop_endpoint
  drop_endpoint-HasKeys none e = λ k. refl
  drop_endpoint-HasKeys (some ep) e = with_session-HasKeys e (unlink_flights ep.in_flight e.session)

  pub HasKeys-subst :
      (test test' : ℕ → Bool) (o : Option (Engine R S))
      → ((k : ℕ) → test k ≡ test' k)
      → HasKeys test o
      → HasKeys test' o
  HasKeys-subst test test' none h v = _
  HasKeys-subst test test' (some e) h v = λ k. v k ∙ h k

  pub add_endpoint-HasKeys :
      (key : ℕ) (info : EndpointInfo) (ring : R) (e : Engine R S)
      → HasKeys
          (λ k. if key == k then true else contains_key k e.endpoints)
          (add_endpoint key info ring e)
  unfolding add_endpoint
  add_endpoint-HasKeys key info ring e =
      HasKeys-subst _ _ _ (λ k. contains_key-insert k key (new_endpoint info ring) e.endpoints)
        (drop_endpoint-HasKeys (lookup key e.endpoints)
          (record e { endpoints = insert key (new_endpoint info ring) e.endpoints }))

  pub remove_endpoint-HasKeys :
      (key : ℕ) (e : Engine R S)
      → HasKeys
          (λ k. if key == k then false else contains_key k e.endpoints)
          (remove_endpoint key e)
  unfolding remove_endpoint
  remove_endpoint-HasKeys key e =
      HasKeys-subst _ _ _ (λ k. contains_key-remove k key e.endpoints)
        (drop_endpoint-HasKeys (lookup key e.endpoints)
          (record e { endpoints = remove key e.endpoints }))

  pub remove_device-HasKeys :
      (device : ℕ) (e : Engine R S)
      → HasKeys
          (λ k. if device_of k == device then false else contains_key k e.endpoints)
          (remove_device device e)
  unfolding remove_device
  remove_device-HasKeys device e =
      let r = take_device device (keys e.endpoints) e.endpoints in
      HasKeys-subst _ _ _ (λ k. contains_key-device device k e.endpoints)
        (with_session-HasKeys (record e { endpoints = r.1 }) (unlink_endpoints r.0 e.session))

  pub pause_endpoint-HasKeys :
      (key : ℕ) (e : Engine R S) → HasKeys (keys_in e) (pause_endpoint key e)
  unfolding pause_endpoint
  pause_endpoint-HasKeys key e = elim (Bool-cases (pauses key)) [
    | inl reads ↦ rw (reads, HasKeys) (on_endpoint-HasKeys pause_work key e)
    | inr keeps ↦ rw (keeps, HasKeys) (λ k. refl)
  ]
