-- ===== src/Host/Tables.antt =====
-- How the tables of src/host.rs agree with each other, with the address pool and with the engine's map,
-- and that an answer keeps them so.
use usbip_macos.Prelude.{
  ℕ, ◌<◌, ◌≡◌, ◌≢◌, refl, sym, ◌∙◌, subst, Bool, true, false, Bool-cases, inl, inr, List, [], ◌∷◌,
  Option, none, some, ◌==◌, ==→eq, if◌then◌else◌, arith, Result,
}
use usbip_macos.Prelude.Binary.{bit}
use usbip_macos.Prelude.Maps.{
  insert, remove, contains_key, contains_key-insert, contains_key-remove,
}
use usbip_macos.Hci.Addresses.{AddressPool, release}
use usbip_macos.Hci.AddressSets.{Allocates, release-frees}
use usbip_macos.Engine.Types.{Endpoint, Engine, device_of}
use usbip_macos.Engine.Keys.{HasKeys}
use usbip_macos.Host.State.{CiStatus, ci_error, Answer, CommandError, Calls, Shared}
use usbip_macos.Host.Answers.{
  Outcome, status_of, move_rings, respond, conclude, answer, with_engine, retain_others,
}

abbrev pub one : Bool → ℕ
one true = 1
one false = 0

-- The addresses in use are those of the devices.
pub record PoolAgrees (pool : AddressPool) (devices : List (ℕ × ℕ)) : Type 0 where
  pub in_use : (a : ℕ) → a < 128 → bit a pool.used ≡ one (contains_key a devices)
  pub small : (a : ℕ) → contains_key a devices ≡ true → a < 128

-- The pool agrees with the devices, and the endpoints of the engine are those of the table.
pub record Consistent {R S : Type 0} (s : Shared R S) : Type 0 where
  pub pool_agrees : PoolAgrees s.addresses s.devices
  pub same_keys : (k : ℕ) → contains_key k s.engine.endpoints ≡ contains_key k s.endpoints

contains_key-move_rings :
    {R : Type 0} (after : ℕ → R → R) (k : ℕ) (m : List (ℕ × Endpoint R))
    → contains_key k (move_rings after m) ≡ contains_key k m
unfolding move_rings contains_key
contains_key-move_rings after k [] = refl
contains_key-move_rings after k ((j, ep) ∷ m) = rw (contains_key-move_rings after k m) refl

pub contains_key-retain_others :
    (device k : ℕ) (m : List (ℕ × ℕ))
    → contains_key k (retain_others device m)
      ≡ (if device_of k == device then false else contains_key k m)
unfolding retain_others contains_key
contains_key-retain_others device k [] = ground arith
contains_key-retain_others device k ((j, sm) ∷ m) = elim (Bool-cases (device_of j == device)) [
  | inl hit ↦ elim (Bool-cases (j == k)) [
    | inl same ↦
        let on = subst (λ (i : ℕ). (device_of i == device) ≡ true) (==→eq j k same) hit in
        rw hit (contains_key-retain_others device k m ∙ rw on refl)
    | inr differ ↦ rw (hit, differ) (contains_key-retain_others device k m)
  ]
  | inr other ↦ elim (Bool-cases (j == k)) [
    | inl same ↦
        let off = subst (λ (i : ℕ). (device_of i == device) ≡ false) (==→eq j k same) other in
        rw (other, same, off) refl
    | inr differ ↦ rw (other, differ) (contains_key-retain_others device k m)
  ]
]

module _ {R S : Type 0} where
  abbrev pub Keeps : Outcome R S → Type 0
  Keeps none = Unit
  Keeps (some (result, s)) = Consistent s

  pub respond-Consistent :
      (calls : Calls R) (a : Answer) (s : Shared R S)
      → Consistent s
      → Consistent (respond calls a s).1
  unfolding respond
  respond-Consistent calls a s c = record {
    pool_agrees = c.pool_agrees;
    same_keys = λ k. contains_key-move_rings calls.ring_after k s.engine.endpoints ∙ c.same_keys k;
  }

  conclude-Consistent :
      (result : Result CommandError (Unit {0})) (r : Bool × Shared R S)
      → Consistent r.1
      → Consistent (conclude result r).1
  unfolding conclude
  conclude-Consistent result (true, s) c = c
  conclude-Consistent result (false, s) c = c

  answered-Keeps :
      (calls : Calls R) (wrap : CiStatus → Answer) (o : Outcome R S)
      → Keeps o
      → Keeps (elim o [
        | none ↦ none
        | some (result, s') ↦ some (conclude result (respond calls (wrap (status_of result)) s'))
      ])
  answered-Keeps calls wrap none v = _
  answered-Keeps calls wrap (some (result, s')) v =
      conclude-Consistent result (respond calls (wrap (status_of result)) s')
        (respond-Consistent calls (wrap (status_of result)) s' v)

  pub answer-Keeps :
      (calls : Calls R) (wrap : CiStatus → Answer) (act : Shared R S → Outcome R S)
      → (s : Shared R S) → Consistent s
      → Keeps (act s)
      → Keeps (answer calls wrap act s)
  unfolding answer respond
  answer-Keeps calls wrap act s c v = elim (Bool-cases calls.inspected) [
    | inl taken ↦ rw (taken, Keeps) (answered-Keeps calls wrap (act s) v)
    | inr refused ↦ rw (refused, Keeps) (respond-Consistent calls (wrap ci_error) s c)
  ]

  pub with_engine-Keeps :
      (test : ℕ → Bool) (s : Shared R S) (o : Option (Engine R S))
      → PoolAgrees s.addresses s.devices
      → ((k : ℕ) → test k ≡ contains_key k s.endpoints)
      → HasKeys test o
      → Keeps (with_engine s o)
  unfolding with_engine
  with_engine-Keeps test s none p h v = _
  with_engine-Keeps test s (some e) p h v = record { pool_agrees = p; same_keys = λ k. v k ∙ h k }

pub create_agrees :
    (pool pool' : AddressPool) (devices : List (ℕ × ℕ)) (x sm : ℕ)
    → PoolAgrees pool devices
    → Allocates pool (x, pool')
    → PoolAgrees pool' (insert x sm devices)
create_agrees pool pool' devices x sm p v = record {
  in_use = λ a lt. elim (Bool-cases (x == a)) [
    | inl same ↦
        rw (contains_key-insert a x sm devices, same)
          (subst (λ (i : ℕ). bit i pool'.used ≡ 1) (==→eq x a same) v.set)
    | inr other ↦
        rw (contains_key-insert a x sm devices, other)
          (v.others a (λ e. ground (arith, other, e)) ∙ p.in_use a lt)
  ];
  small = λ a h. elim (Bool-cases (x == a)) [
    | inl same ↦ omega (arith, ==→eq x a same, v.lowest.below)
    | inr other ↦ p.small a (sym (contains_key-insert a x sm devices ∙ rw other refl) ∙ h)
  ];
}

pub give_back_agrees :
    (pool pool' : AddressPool) (devices : List (ℕ × ℕ)) (x : ℕ)
    → PoolAgrees pool devices
    → Allocates pool (x, pool')
    → PoolAgrees (release x pool') devices
give_back_agrees pool pool' devices x p v =
    let lt : x < 128 = omega (arith, v.lowest.below) in
    let freed = (release-frees pool' x).0 lt in
    record {
      in_use = λ a l. elim (Bool-cases (x == a)) [
        | inl same ↦
            subst (λ (i : ℕ). bit i (release x pool').used ≡ one (contains_key i devices))
              (==→eq x a same) (freed.0 ∙ (sym v.lowest.free ∙ p.in_use x lt))
        | inr other ↦
            let n : a ≢ x = λ e. ground (arith, other, e) in
            freed.1 a l n ∙ (v.others a n ∙ p.in_use a l)
      ];
      small = p.small;
    }

pub destroy_agrees :
    (pool : AddressPool) (devices : List (ℕ × ℕ)) (x : ℕ)
    → PoolAgrees pool devices
    → contains_key x devices ≡ true
    → PoolAgrees (release x pool) (remove x devices)
destroy_agrees pool devices x p known =
    let lt = p.small x known in
    let freed = (release-frees pool x).0 lt in
    record {
      in_use = λ a l. elim (Bool-cases (x == a)) [
        | inl same ↦
            rw (contains_key-remove a x devices, same)
              (subst (λ (i : ℕ). bit i (release x pool).used ≡ 0) (==→eq x a same) freed.0)
        | inr other ↦
            rw (contains_key-remove a x devices, other)
              (freed.1 a l (λ e. ground (arith, other, e)) ∙ p.in_use a l)
      ];
      small = λ a h. elim (Bool-cases (x == a)) [
        | inl same ↦
            absurd (let gone = contains_key-remove a x devices in cc (h, (rw same at gone)))
        | inr other ↦ p.small a (sym (contains_key-remove a x devices ∙ rw other refl) ∙ h)
      ];
    }
