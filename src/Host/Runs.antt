-- ===== src/Host/Runs.antt =====
-- The states of src/host.rs that can be reached: through commands, doorbells and the replies of the
-- session.
use usbip_macos.Prelude.{
  ℕ, ◌≡◌, refl, ◌∙◌, subst, false, [], Option, none, some, Option-cases, inl, inr, Result,
}
use usbip_macos.Prelude.Binary.{bit-zero}
use usbip_macos.Prelude.Maps.{lookup, contains_key}
use usbip_macos.Protocol.Types.{Speed}
use usbip_macos.Client.State.{TransferResult}
use usbip_macos.Hci.Messages.{RawMessage, decode_doorbell}
use usbip_macos.Hci.Addresses.{empty_pool}
use usbip_macos.Engine.Types.{Ring, Link, Engine, endpoint_key}
use usbip_macos.Engine.Table.{new}
use usbip_macos.Engine.Handlers.{doorbell, finish}
use usbip_macos.Engine.Keys.{HasKeys, keys_in, on_endpoint-HasKeys}
use usbip_macos.Host.State.{CommandError, Calls, Shared, ci_speed}
use usbip_macos.Host.Clock.{Timebase}
use usbip_macos.Host.Commands.{
  command, set_ring, run_doorbell, ring_bell, known_doorbell, handle_doorbell,
}
use usbip_macos.Host.Tables.{Consistent, Keeps}
use usbip_macos.Host.Consistency.{command-Keeps}

-- What `Controller::new` shares between its handlers.
unfoldable pub new_shared : {R S : Type 0} → Speed → S → Shared R S
new_shared speed session = record {
  engine = new session;
  speed = ci_speed speed;
  last_frame = none;
  devices = [];
  endpoints = [];
  addresses = empty_pool;
  powered = false;
  enumerated = false;
  answers = [];
}

new_shared-Consistent :
    {R S : Type 0} (speed : Speed) (session : S) → Consistent (new_shared {R = R} speed session)
unfolding new_shared new contains_key
new_shared-Consistent speed session = record {
  pool_agrees = record { in_use = λ a lt. bit-zero a; small = λ a h. absurd (cc h) };
  same_keys = λ k. refl;
}

module _ {R S : Type 0} ⦃rg : Ring R⦄ ⦃lk : Link S⦄ (ring_of : ℕ → R) (tb : Timebase)
    (speed : Speed) where
  pub data HostStep (s : Shared R S) : Shared R S → Type 0 where
    commands :
        (fuel : ℕ) (calls : Calls R) (msg : RawMessage) (r : Result CommandError (Unit {0}))
        → {s' : Shared R S} → command ring_of tb fuel calls msg s ≡ some (r, s')
        → HostStep s s'
    doorbells :
        (fuel bell : ℕ) (processed : ℕ → Option R)
        → {s' : Shared R S} → handle_doorbell speed fuel processed bell s ≡ some s'
        → HostStep s s'
    replies :
        (fuel key token : ℕ) (result : TransferResult) (e : Engine R S)
        → finish speed fuel key token result s.engine ≡ some e
        → HostStep s (record s { engine = e })

  pub data Run (s : Shared R S) : Shared R S → Type 0 where
    started : Run s s
    runs_on : {s1 s2 : Shared R S} → Run s s1 → HostStep s1 s2 → Run s s2

  abbrev KeepsShared : Option (Shared R S) → Type 0
  KeepsShared none = Unit
  KeepsShared (some s) = Consistent s

  run_doorbell-Keeps :
      (fuel key : ℕ) (s : Shared R S) (o : Option (Engine R S))
      → Consistent s
      → HasKeys (keys_in s.engine) o
      → KeepsShared (run_doorbell speed fuel key s o)
  unfolding run_doorbell doorbell
  run_doorbell-Keeps fuel key s none c h = _
  run_doorbell-Keeps fuel key s (some e) c h = elim (Option-cases (doorbell speed fuel key e)) [
    | inl stuck ↦ rw (stuck, KeepsShared) _
    | inr (e', q) ↦
        let h' = subst (HasKeys (keys_in e)) q (on_endpoint-HasKeys _ key e) in
        rw (q, KeepsShared)
          (record { pool_agrees = c.pool_agrees; same_keys = λ k. h' k ∙ (h k ∙ c.same_keys k) })
  ]

  ring_bell-Keeps :
      (fuel key : ℕ) (s : Shared R S) (o : Option R)
      → Consistent s
      → KeepsShared (ring_bell speed fuel key s o)
  unfolding ring_bell set_ring
  ring_bell-Keeps fuel key s none c = c
  ring_bell-Keeps fuel key s (some r) c =
      run_doorbell-Keeps fuel key s (set_ring key r s.engine) c (on_endpoint-HasKeys _ key s.engine)

  known_doorbell-Keeps :
      (fuel key : ℕ) (processed : ℕ → Option R) (o : Option ℕ) (s : Shared R S)
      → Consistent s
      → KeepsShared (known_doorbell speed fuel processed key o s)
  unfolding known_doorbell
  known_doorbell-Keeps fuel key processed none s c = c
  known_doorbell-Keeps fuel key processed (some sm) s c =
      ring_bell-Keeps fuel key s (processed key) c

  handle_doorbell-Keeps :
      (fuel bell : ℕ) (processed : ℕ → Option R) (s : Shared R S)
      → Consistent s
      → KeepsShared (handle_doorbell speed fuel processed bell s)
  unfolding handle_doorbell
  handle_doorbell-Keeps fuel bell processed s c =
      let d = decode_doorbell bell in
      let key = endpoint_key d.0 d.1.0 in
      known_doorbell-Keeps fuel key processed (lookup key s.endpoints) s c

  HostStep-Consistent : {s s' : Shared R S} → HostStep s s' → Consistent s → Consistent s'
  unfolding finish
  HostStep-Consistent {s = s} (commands fuel calls msg r q) c =
      subst Keeps q (command-Keeps ring_of tb fuel calls msg s c)
  HostStep-Consistent {s = s} (doorbells fuel bell processed q) c =
      subst KeepsShared q (handle_doorbell-Keeps fuel bell processed s c)
  HostStep-Consistent {s = s} (replies fuel key token result e q) c =
      let h = subst (HasKeys (keys_in s.engine)) q (on_endpoint-HasKeys _ key s.engine) in
      record { pool_agrees = c.pool_agrees; same_keys = λ k. h k ∙ c.same_keys k }

  -- In every state that the host reaches, the addresses in use are those of the devices, and the
  -- endpoints that it knows are those of the engine.
  pub Run-Consistent :
      (session : S) {s : Shared R S} → Run (new_shared speed session) s → Consistent s
  Run-Consistent session started = new_shared-Consistent speed session
  Run-Consistent session (runs_on r st) = HostStep-Consistent st (Run-Consistent session r)
