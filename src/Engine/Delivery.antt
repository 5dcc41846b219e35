-- ===== src/Engine/Delivery.antt =====
-- `apply` of src/engine.rs: the completion fits the request, and nothing but the head is taken off.
use usbip_macos.Prelude.{
  ℕ, ◌/◌, ◌%◌, min, ◌≤◌, ◌≡◌, ◌≢◌, ◌⊎◌, refl, ap, Bool, true, false, Bool-cases, ◌&&◌, inl, inr,
  List, [], ◌∷◌, Option, none, some, length, length-append, length-take, length-drop, take, drop,
  leb, ◌==◌, if◌then◌else◌, arith,
}
use usbip_macos.Protocol.Types.{Direction, dir_in, dir_out, is_in, is_out}
use usbip_macos.Client.State.{TransferResult, completed, failed}
use usbip_macos.Hci.Messages.{le_bytes}
use usbip_macos.Hci.Endpoints.{at}
use usbip_macos.Hci.Uas.{hide_uas}
use usbip_macos.Hci.UasOutcome.{Outcome, hide_uas_lem}
use usbip_macos.Engine.Types.{
  Ring, Stage, control_data, control_status, normal_stage, isochronous_stage, InFlight, Work, Flow,
}
use usbip_macos.Engine.Requests.{complete}
use usbip_macos.Engine.Apply.{
  Completion, status_and_actual, completion_of, gets_configuration, patch_total,
  filter_configuration, set_data_done, filter_control, finish_stage, complete_work, apply,
}
use usbip_macos.Engine.Contract.{
  View, view, view_of, Fits, Filtered, as_is, hides, patches, Carries,
}

taken_fits :
    (d : Direction) (n m : ℕ) (xs : List ℕ) → n ≤ m → length (if is_in d then take n xs else []) ≤ m
taken_fits dir_in n m xs h = omega (arith, h, length-take n xs)
taken_fits dir_out n m xs h = omega arith

taken_out :
    (d : Direction) (n : ℕ) (xs : List ℕ)
    → is_out d ≡ true
    → length (if is_in d then take n xs else []) ≡ 0
taken_out dir_in n xs h = cc
taken_out dir_out n xs h = refl

pub completion_of-Fits : (f : InFlight) (result : TransferResult) → Fits f (completion_of f result)
unfolding completion_of
completion_of-Fits f (failed e) = record {
  bytes_fit = omega arith;
  length_fits = omega arith;
  out_empty = λ o. refl;
}
completion_of-Fits f (completed ret) =
    let n = min (status_and_actual f.stage ret ret.iso_packets).1 f.length in
    record {
      bytes_fit = taken_fits f.direction n f.length ret.payload (omega arith);
      length_fits = omega arith;
      out_empty = taken_out f.direction n ret.payload;
    }

length-patch_total :
    (h : Option (ℕ × ℕ)) (bytes : List ℕ) → length (patch_total h bytes) ≡ length bytes
unfolding patch_total le_bytes
length-patch_total none bytes = refl
length-patch_total (some (original, hidden)) bytes =
    elim (Bool-cases (
      leb 4 (length bytes)
      && (at bytes 2 == original % 256 && at bytes 3 == original / 256 % 256))) [
        | inr other ↦ rw other
        | inl hit ↦ rw hit (
            omega (
              arith,
              four (ground (arith, hit)),
              length-append (take 2 bytes) (hidden % 256 ∷ (hidden / 256 % 256 ∷ drop 4 bytes)),
              length-take 2 bytes,
              length-drop 4 bytes,
            ))
      ]
  where
    four : 4 ≤ length bytes → 4 ≤ length bytes
    four h = h

length-hide_uas :
    (bytes : List ℕ)
    → (r : Option (ℕ × ℕ) × List ℕ) × (hide_uas bytes ≡ some r) × (length r.1 ≤ length bytes)
unfolding Outcome
length-hide_uas bytes = go (hide_uas_lem bytes)
  where
    go :
        (r : Option (ℕ × ℕ) × List ℕ) × (hide_uas bytes ≡ some r) × Outcome bytes r
        → (r : Option (ℕ × ℕ) × List ℕ) × (hide_uas bytes ≡ some r) × (length r.1 ≤ length bytes)
    go ((none, out), e, o) = ((none, out), e, omega (arith, ap length o.0))
    go ((some (a, b), out), e, o) = ((some (a, b), out), e, omega (arith, o.2.shorter))

-- What the stage makes of a completion.
pub record Kept (st : Stage) (c c' : Completion) : Type 0 where
  pub same_status : c'.status ≡ c.status
  pub carried : Filtered c.bytes c'.bytes
  pub same_length : (c'.length ≡ c.length) ⊎ (c'.length ≡ min c.length (length c'.bytes))
  pub exact : st ≢ control_data → c' ≡ c

Kept-refl : (st : Stage) (c : Completion) → Kept st c c
Kept-refl st c = record {
  same_status = refl;
  carried = as_is;
  same_length = inl refl;
  exact = λ other. refl;
}

module _ {R S : Type 0} where
  -- The ring, what is in flight and the next token are those of `w`, and the data are those of `bytes`,
  -- no more of them.
  abbrev Same : Work R S → List ℕ → List ℕ × Work R S → Type 0
  Same w bytes r =
      (view_of r.1 ≡ view_of w)
      × (r.1.session ≡ w.session)
      × (length r.0 ≤ length bytes)
      × Filtered bytes r.0

  filter_configuration-Same :
      (w : Work R S) (bytes : List ℕ) (r : Option (ℕ × ℕ) × List ℕ)
      → hide_uas bytes ≡ some r
      → length r.1 ≤ length bytes
      → (p : List ℕ × Work R S) × (filter_configuration w bytes (some r) ≡ some p) × Same w bytes p
  unfolding filter_configuration
  filter_configuration-Same w bytes (some totals, out) e h =
      (_, refl, (refl, refl, h, hides totals out e))
  filter_configuration-Same w bytes (none, out) e h = (
    _,
    refl,
    (
      refl,
      refl,
      omega (arith, h, length-patch_total w.ep.hidden_config out),
      patches w.ep.hidden_config out e,
    ),
  )

  filter_control-Same :
      (w : Work R S) (bytes : List ℕ)
      → (p : List ℕ × Work R S) × (filter_control w bytes ≡ some p) × Same w bytes p
  unfolding filter_control
  filter_control-Same w bytes = elim (Bool-cases (gets_configuration w.ep.setup)) [
    | inr other ↦ ((bytes, w), rw other, (refl, refl, omega arith, as_is))
    | inl hit ↦
        let (r, e, h) = length-hide_uas bytes in
        let (p, eq, same) = filter_configuration-Same w bytes r e h in (p, rw (hit, e) eq, same)
  ]

  -- The stage's part of `apply` always ends, and keeps the bounds of the completion.
  pub finish_stage-Same :
      (st : Stage) (w : Work R S) (f : InFlight) (c : Completion)
      → Fits f c
      → (p : Completion × Work R S) × (finish_stage st w c ≡ some p)
        × (view_of p.1 ≡ view_of w)
        × (p.1.session ≡ w.session)
        × Fits f p.0
        × Kept st c p.0
  unfolding finish_stage
  finish_stage-Same normal_stage w f c v = ((c, w), refl, refl, refl, v, Kept-refl _ c)
  finish_stage-Same isochronous_stage w f c v = ((c, w), refl, refl, refl, v, Kept-refl _ c)
  finish_stage-Same control_status w f c v = (_, refl, refl, refl, v, Kept-refl _ c)
  finish_stage-Same control_data w f c v =
      let w1 : Work R S = record w { ep = record w.ep { setup = set_data_done w.ep.setup } } in
      let (p, e, same) = filter_control-Same w1 c.bytes in
      (
        (
          record c {
            bytes = p.0;
            length =
                if gets_configuration p.1.ep.setup then min c.length (length p.0) else c.length;
          },
          p.1,
        ),
        rw (e, finish_stage) refl,
        same.0,
        same.1,
        record {
          bytes_fit = omega (arith, v.bytes_fit, same.2);
          length_fits =
              limited (gets_configuration p.1.ep.setup) c.length (length p.0) f.length
                v.length_fits;
          out_empty = λ o. omega (arith, v.out_empty o, same.2);
        },
        record {
          same_status = refl;
          carried = same.3;
          same_length = cut (gets_configuration p.1.ep.setup) c.length (length p.0);
          exact = λ other. absurd (other refl);
        },
      )
    where
      cut :
          (b : Bool) (n k : ℕ)
          → ((if b then min n k else n) ≡ n) ⊎ ((if b then min n k else n) ≡ min n k)
      cut true n k = inr refl
      cut false n k = inl refl

      limited : (b : Bool) (n k m : ℕ) → n ≤ m → (if b then min n k else n) ≤ m
      limited true n k m h = omega (arith, h)
      limited false n k m h = h

module _ {R : Type 0} ⦃rg : Ring R⦄ where
  open rg use {complete_head}

  abbrev complete_view : Completion → View R → View R
  complete_view c (view r fs n) = view (complete_head c.status c.bytes c.length r).1 fs n

module _ {R S : Type 0} ⦃rg : Ring R⦄ where
  open rg use {complete_head}

  -- The completion is the one that this reply to this URB gives.
  pub apply-Carries :
      (w : Work R S) (f : InFlight) (result : TransferResult)
      → (flow : Flow) × (w' : Work R S) × (c : Completion) × (apply w f result ≡ some (flow, w'))
        × Fits f c
        × Carries f result c
        × (view_of w'
            ≡ view
                (complete_head c.status c.bytes c.length w.ep.ring).1
                w.ep.in_flight
                w.next_token)
  unfolding apply complete_work complete
  apply-Carries w f result =
      let (p, e, same, session, v, k) =
        finish_stage-Same f.stage w f (completion_of f result) (completion_of-Fits f result) in
      (
        (complete_work p.1 p.0).0,
        (complete_work p.1 p.0).1,
        p.0,
        rw (e, apply) refl,
        v,
        record {
          same_status = k.same_status;
          carried = k.carried;
          same_length = k.same_length;
          exact = k.exact;
        },
        ap (complete_view p.0) same,
      )

  -- `apply` always ends: it completes the head once, with data that fits the request, and changes
  -- nothing else of what is in flight.
  pub apply_lem :
      (w : Work R S) (f : InFlight) (result : TransferResult)
      → (flow : Flow) × (w' : Work R S) × (c : Completion) × (apply w f result ≡ some (flow, w'))
        × Fits f c
        × (view_of w'
            ≡ view
                (complete_head c.status c.bytes c.length w.ep.ring).1
                w.ep.in_flight
                w.next_token)
  apply_lem w f result =
      let (flow, w', c, e, v, from, same) = apply-Carries w f result in (flow, w', c, e, v, same)
