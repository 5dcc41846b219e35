-- ===== src/Engine/Kept.antt =====
-- What a call of src/engine.rs on one endpoint does to another.
use usbip_macos.Prelude.{
  ℕ, ◌≤◌, ◌≡◌, ◌≢◌, refl, sym, ap, ◌∙◌, subst, false, Bool-cases, Option-cases, inl, inr, List, [],
  ◌∷◌, Option, none, some, ◌==◌, ==→eq, ne→==, arith,
}
use usbip_macos.Prelude.Maps.{lookup, remove, lookup-insert, lookup-remove}
use usbip_macos.Engine.Types.{Ring, Endpoint, Work, Engine, device_of}
use usbip_macos.Engine.Table.{borrow, give_back, on_endpoint, take_device}
use usbip_macos.Engine.Contract.{
  View, view, view_of, Step, delivers, answers, issues, stales, Steps, here, next, Event, Cause,
  waits, pumps, replies, pauses, drops, replaces, Happens, EventWork,
}

abbrev pub clock : {R : Type 0} → View R → ℕ
clock (view r fs n) = n

module _ {R : Type 0} ⦃rg : Ring R⦄ where
  Step-clock : {u v : View R} {ts : List ℕ} → Step u ts v → clock u ≤ clock v
  Step-clock (delivers r f fs n result c ac hd fin fit from) = omega arith
  Step-clock (answers r n st ac) = omega arith
  Step-clock (issues r fs n f ac nx tok res few) = omega arith
  Step-clock (stales r f fs n ac moved) = omega arith

  Steps-clock : {u v : View R} {ts : List ℕ} → Steps u ts v → clock u ≤ clock v
  Steps-clock here = omega arith
  Steps-clock (next s st) = omega (arith, Steps-clock s, Step-clock st)

  Event-clock : {u v : View R} {ts : List ℕ} {c : Cause R} → Event u ts c v → clock u ≤ clock v
  Event-clock (waits c r fs n n' h) = h
  Event-clock (pumps ts s) = Steps-clock s
  Event-clock (replies token result r fs gs n ts kept s) = Steps-clock s
  Event-clock (pauses r fs gs n same) = omega arith
  Event-clock (drops r fs n) = omega arith
  Event-clock (replaces r r' fs n) = omega arith

module _ {R : Type 0} ⦃rg : Ring R⦄ where
  abbrev pub FromEach : View R → Cause R → ℕ → Option (Endpoint R) → Type 0
  FromEach v c n none = Unit
  FromEach v c n (some ep) = Happens (view ep.ring ep.in_flight n) c v

module _ {R S : Type 0} ⦃rg : Ring R⦄ where
  -- The endpoint under `k` is there still, and one event has happened to it.
  unfoldable pub KeptAt : ℕ → View R → Cause R → Engine R S → Type 0
  KeptAt k v c e =
      (ep : Endpoint R) × (lookup k e.endpoints ≡ some ep)
      × Happens v c (view ep.ring ep.in_flight e.next_token)

  abbrev pub Kept : ℕ → View R → Cause R → Option (Engine R S) → Type 0
  Kept k v c none = Unit
  Kept k v c (some e) = KeptAt k v c e

  -- What happens to the endpoint that was borrowed is an event; any other waits.
  given :
      (k key : ℕ) (c : Cause R) (e : Engine R S) (ep ep0 : Endpoint R) (w : Work R S)
      → lookup k e.endpoints ≡ some ep
      → lookup key e.endpoints ≡ some ep0
      → EventWork (view ep0.ring ep0.in_flight e.next_token) c (some w)
      → KeptAt k (view ep.ring ep.in_flight e.next_token) c (give_back key e w)
  unfolding KeptAt give_back
  given k key c e ep ep0 w h h0 l = elim (Bool-cases (key == k)) [
    | inl same ↦ (
      w.ep,
      lookup-insert k key w.ep e.endpoints ∙ rw same refl,
      subst (FromEach (view_of w) c e.next_token)
          (sym h0 ∙ (ap (λ (t : ℕ). lookup t e.endpoints) (==→eq key k same) ∙ h)) l,
    )
    | inr other ↦ (
      ep,
      lookup-insert k key w.ep e.endpoints ∙ rw other h,
      ([], waits c ep.ring ep.in_flight e.next_token w.next_token (Event-clock l.1)),
    )
  ]

  pub on_endpoint-Kept :
      (c : Cause R) (f : Work R S → Option (Work R S))
      → ((w : Work R S) → EventWork (view_of w) c (f w))
      → (key k : ℕ) (e : Engine R S) (ep : Endpoint R) → lookup k e.endpoints ≡ some ep
      → Kept k (view ep.ring ep.in_flight e.next_token) c (on_endpoint f key e)
  unfolding on_endpoint KeptAt borrow give_back
  on_endpoint-Kept c f leads key k e ep h = elim (Option-cases (lookup key e.endpoints)) [
    | inl absent ↦
        rw (absent, Kept)
          (ep, h, ([], waits c ep.ring ep.in_flight e.next_token e.next_token (omega arith)))
    | inr (ep0, h0) ↦ elim (Option-cases (f (borrow e key ep0))) [
      | inl stuck ↦ rw (h0, stuck, Kept) _
      | inr (w, fw) ↦
          let l =
            subst (EventWork (view ep0.ring ep0.in_flight e.next_token) c) fw
              (leads (borrow e key ep0)) in
          rw (h0, fw, Kept) (given k key c e ep ep0 w h h0 l)
    ]
  ]

  -- What changes neither the endpoint under `k` nor the clock.
  pub untouched :
      (k : ℕ) (c : Cause R) (e e' : Engine R S) (ep : Endpoint R)
      → lookup k e'.endpoints ≡ some ep
      → e'.next_token ≡ e.next_token
      → KeptAt k (view ep.ring ep.in_flight e.next_token) c e'
  unfolding KeptAt
  untouched k c e e' ep h same =
      (ep, h, ([], waits c ep.ring ep.in_flight e.next_token e'.next_token (omega (arith, same))))

pub take_device-other :
    {R : Type 0} (device k : ℕ) (ks : List ℕ) (m : List (ℕ × Endpoint R))
    → device_of k ≢ device
    → lookup k (take_device device ks m).1 ≡ lookup k m
unfolding take_device
take_device-other device k [] m n = refl
take_device-other device k (key ∷ ks) m n = elim (Bool-cases (device_of key == device)) [
  | inr other ↦ rw other (take_device-other device k ks m n)
  | inl hit ↦ elim (Option-cases (lookup key m)) [
    | inl absent ↦ rw (hit, absent) (take_device-other device k ks m n)
    | inr (ep, e) ↦
        let differs : (key == k) ≡ false =
          ne→== key k (λ q. n (ap device_of (sym q) ∙ ==→eq (device_of key) device hit)) in
        rw (hit, e)
          (take_device-other device k ks (remove key m) n
            ∙ (lookup-remove k key m ∙ rw differs refl))
  ]
]
