-- ===== src/Engine/Works.antt =====
-- The calls of src/engine.rs on one endpoint are events of its contract.
use usbip_macos.Prelude.{
  ℕ, ◌≡◌, refl, sym, ap, subst, false, Bool-cases, Option-cases, inl, inr, List, [], ◌∷◌, ◌++◌,
  Option, none, some, ◌==◌, ==→eq, ◌&&◌, ◌||◌, arith,
}
use usbip_macos.Protocol.Types.{Speed}
use usbip_macos.Client.State.{TransferResult}
use usbip_macos.Engine.Types.{Ring, Link, InFlight, Work}
use usbip_macos.Engine.Pump.{is_finished, unlink_flights, pump}
use usbip_macos.Engine.Handlers.{
  position, is_unlinked, pause_flights, drop_flights, pause_work, sync_flights, record_result,
  finish_work,
}
use usbip_macos.Engine.Contract.{
  View, view, view_of, SameUrb, SameUrbs, Steps, Cause, pumped, pumps, waits, replies, pauses,
  drops, paused, dropped, replied, Recorded, keeps, cuts, EventWork,
}
use usbip_macos.Engine.Refinement.{pump-Leads}

SameUrb-refl : (f : InFlight) → SameUrb f f
SameUrb-refl f = record {
  same_result = refl;
  same_token = refl;
  same_message = refl;
  same_seqnum = refl;
}

SameUrbs-refl : (fs : List InFlight) → SameUrbs fs fs
unfolding SameUrbs
SameUrbs-refl [] = _
SameUrbs-refl (f ∷ fs) = (SameUrb-refl f, SameUrbs-refl fs)

abbrev IfFound : ℕ → List InFlight → Option (List InFlight × (InFlight × List InFlight)) → Type 0
IfFound token fs none = Unit
IfFound token fs (some (before, (f, after))) = (f.token ≡ token) × (fs ≡ before ++ f ∷ after)

position-IfFound : (token : ℕ) (fs : List InFlight) → IfFound token fs (position token fs)
unfolding position
position-IfFound token [] = _
position-IfFound token (g ∷ fs) = elim (Bool-cases (g.token == token)) [
  | inl hit ↦ rw (hit, IfFound) (==→eq g.token token hit, refl)
  | inr there ↦ elim (Option-cases (position token fs)) [
    | inl absent ↦ rw (there, absent, IfFound) _
    | inr ((before, (f, after)), e) ↦
        rw (there, e, IfFound)
          (let (same, split) = subst (IfFound token fs) e (position-IfFound token fs) in
            (same, ap (λ (t : List InFlight). g ∷ t) split))
  ]
]

module _ {S : Type 0} ⦃lk : Link S⦄ where
  abbrev IfPaused : List InFlight → Option (List InFlight × S) → Type 0
  IfPaused fs none = Unit
  IfPaused fs (some (gs, s)) = SameUrbs fs gs

  pause_flights-IfPaused : (fs : List InFlight) (s : S) → IfPaused fs (pause_flights fs s)
  unfolding pause_flights SameUrbs
  pause_flights-IfPaused [] s = _
  pause_flights-IfPaused (f ∷ fs) s = elim (Bool-cases (is_finished f || f.unlinking)) [
    | inl skip ↦ elim (Option-cases (pause_flights fs s)) [
      | inl stuck ↦ rw (skip, stuck, IfPaused) _
      | inr ((gs, s'), e) ↦
          rw (skip, e, IfPaused)
            (SameUrb-refl f, subst (IfPaused fs) e (pause_flights-IfPaused fs s))
    ]
    | inr mark ↦ elim (Option-cases (lk.unlink f.seqnum s)) [
      | inl stuck ↦ rw (mark, stuck, IfPaused) _
      | inr (s1, u) ↦ elim (Option-cases (pause_flights fs s1)) [
        | inl stuck ↦ rw (mark, u, stuck, IfPaused) _
        | inr ((gs, s'), e) ↦
            rw (mark, u, e, IfPaused)
              (
                record {
                  same_result = refl;
                  same_token = refl;
                  same_message = refl;
                  same_seqnum = refl;
                },
                subst (IfPaused fs) e (pause_flights-IfPaused fs s1),
              )
      ]
    ]
  ]

module _ {R S : Type 0} ⦃rg : Ring R⦄ ⦃lk : Link S⦄ where
  -- The state stays as it is.
  pub unmoved : (c : Cause R) (w : Work R S) → EventWork (view_of w) c (some w)
  unmoved c w = ([], waits c w.ep.ring w.ep.in_flight w.next_token w.next_token (omega arith))

  pub drop_flights-Event : (w : Work R S) → EventWork (view_of w) dropped (drop_flights w)
  unfolding drop_flights
  drop_flights-Event w = elim (Option-cases (unlink_flights w.ep.in_flight w.session)) [
    | inl stuck ↦ rw (stuck, EventWork) _
    | inr (s, e) ↦ rw (e, EventWork) ([], drops w.ep.ring w.ep.in_flight w.next_token)
  ]

  pub sync_flights-Event :
      (w : Work R S) (fs : List InFlight) → EventWork (view_of w) dropped (sync_flights w fs)
  unfolding sync_flights
  sync_flights-Event w [] = unmoved dropped w
  sync_flights-Event w (f ∷ fs) = elim (Bool-cases (f.message == (rg.current w.ep.ring).0)) [
    | inl hit ↦ rw (hit, EventWork) (unmoved dropped w)
    | inr moved ↦ rw (moved, EventWork) (drop_flights-Event w)
  ]

  pub pause_work-Event : (w : Work R S) → EventWork (view_of w) paused (pause_work w)
  unfolding pause_work
  pause_work-Event w = elim (Option-cases (pause_flights w.ep.in_flight w.session)) [
    | inl stuck ↦ rw (stuck, EventWork) _
    | inr ((gs, s), e) ↦
        rw (e, EventWork)
          (
            [],
            pauses w.ep.ring w.ep.in_flight gs w.next_token (
                subst (IfPaused w.ep.in_flight) e
                  (pause_flights-IfPaused w.ep.in_flight w.session)),
          )
  ]

  -- The reply is kept in its place, or the reads from it on are dropped; the ring stays.
  abbrev RecordedWork : ℕ → TransferResult → Work R S → Option (Work R S) → Type 0
  RecordedWork token result w none = Unit
  RecordedWork token result w (some w') =
      (gs : List InFlight) × Recorded token result w.ep.in_flight gs
      × (view_of w' ≡ view w.ep.ring gs w.next_token)

  record_result-Recorded :
      (token : ℕ) (result : TransferResult) (w : Work R S) (before : List InFlight) (f : InFlight)
      → (after : List InFlight) → f.token ≡ token
      → w.ep.in_flight ≡ before ++ f ∷ after
      → RecordedWork token result w (record_result result w (before, (f, after)))
  unfolding record_result
  record_result-Recorded token result w before f after same split =
      elim (Bool-cases (f.unlinking && is_unlinked result)) [
        | inl cut ↦ elim (Option-cases (unlink_flights after w.session)) [
          | inl stuck ↦ rw (cut, stuck, RecordedWork) _
          | inr (s, u) ↦
              rw (cut, u, RecordedWork)
                (
                  before,
                  subst (λ (fs : List InFlight). Recorded token result fs before) (sym split)
                      (cuts before f after same (ground (arith, cut)) (ground (arith, cut))),
                  refl,
                )
        ]
        | inr keep ↦
            rw (keep, RecordedWork)
              (
                before ++ record f { result = some result } ∷ after,
                subst
                    (λ (fs : List InFlight).
                      Recorded token result fs
                        (before ++ record f { result = some result } ∷ after))
                    (sym split) (keeps before f after same),
                refl,
              )
      ]

  -- The pump follows a reply that is kept.
  pumped_after :
      (token : ℕ) (result : TransferResult) (w : Work R S) (speed : Speed) (fuel : ℕ)
      → (o : Option (Work R S)) → RecordedWork token result w o
      → EventWork
          (view_of w)
          (replied token result)
          (elim o [ none ↦ none | some u ↦ pump speed fuel false u ])
  pumped_after token result w speed fuel none l = _
  pumped_after token result w speed fuel (some u) (gs, kept, same) =
      elim (Option-cases (pump speed fuel false u)) [
        | inl stuck ↦ rw (stuck, EventWork) _
        | inr (w', e) ↦
            let (ts, steps) = pump-Leads speed fuel false u w' e in
            rw (e, EventWork)
              (
                ts,
                replies token result w.ep.ring w.ep.in_flight gs w.next_token ts kept
                    (subst (λ (v : View R). Steps v ts (view_of w')) same steps),
              )
      ]

  pub finish_work-Event :
      (speed : Speed) (fuel token : ℕ) (result : TransferResult) (w : Work R S)
      → EventWork
          (view_of w)
          (replied token result)
          (finish_work speed fuel result w (position token w.ep.in_flight))
  unfolding finish_work
  finish_work-Event speed fuel token result w =
      elim (Option-cases (position token w.ep.in_flight)) [
        | inl stale ↦ rw (stale, EventWork) (unmoved (replied token result) w)
        | inr ((before, (f, after)), e) ↦
            let (same, split) =
              subst (IfFound token w.ep.in_flight) e (position-IfFound token w.ep.in_flight) in
            rw (e, EventWork)
              (pumped_after token result w speed fuel (record_result result w (before, (f, after)))
                (record_result-Recorded token result w before f after same split))
      ]

  pub pump-Event :
      (speed : Speed) (fuel : ℕ) (w : Work R S)
      → EventWork (view_of w) pumped (pump speed fuel false w)
  pump-Event speed fuel w = elim (Option-cases (pump speed fuel false w)) [
    | inl stuck ↦ rw (stuck, EventWork) _
    | inr (w', e) ↦
        let (ts, steps) = pump-Leads speed fuel false w w' e in
        rw (e, EventWork) (ts, pumps ts steps)
  ]
