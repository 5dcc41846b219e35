-- ===== src/Host/Once.antt =====
-- What src/host.rs sends for one command: `answer` sends one answer.
use usbip_macos.Prelude.{
  ◌++◌, ◌⊎◌, ◌≡◌, refl, ap, Bool, true, false, inl, List, [], ◌∷◌, Option, none, some,
  if◌then◌else◌, Result, ok, err,
}
use usbip_macos.Engine.Types.{Engine}
use usbip_macos.Host.State.{
  CiStatus, ci_success, ci_error, Answer, answers_status, answers_frame, answers_address,
  CommandError, Calls, Shared,
}
use usbip_macos.Host.Answers.{conclude, status_of, Outcome, respond, answer, with_engine}

-- The status of an answer.
abbrev pub status_in : Answer → CiStatus
status_in (answers_status st) = st
status_in (answers_frame st frame now) = st
status_in (answers_address st address) = st

module _ {R S : Type 0} where
  -- One answer was sent, with success if the result is.
  abbrev pub Once : List Answer → Result CommandError (Unit {0}) × Shared R S → Type 0
  Once sent r =
      (a : Answer) × (r.1.answers ≡ sent ++ a ∷ []) × (r.0 ≡ ok tt → status_in a ≡ ci_success)

  -- A command that returns has been answered once, or nothing has changed.
  abbrev pub AnsweredOnce : Shared R S → Outcome R S → Type 0
  AnsweredOnce s none = Unit
  AnsweredOnce s (some r) = Once s.answers r ⊎ (r.1 ≡ s)

  abbrev pub Silent : List Answer → Outcome R S → Type 0
  Silent sent none = Unit
  Silent sent (some (r, s)) = s.answers ≡ sent

  abbrev pub AllOnce : List Answer → Outcome R S → Type 0
  AllOnce sent none = Unit
  AllOnce sent (some r) = Once sent r

  pub either :
      (Q : Outcome R S → Type 0) (b : Bool) (x y : Outcome R S) → Q x → Q y → Q (if b then x else y)
  either Q true x y hx hy = hx
  either Q false x y hx hy = hy

  conclude-Once :
      (sent : List Answer) (wrap : CiStatus → Answer)
      → ((st : CiStatus) → status_in (wrap st) ≡ st)
      → (result : Result CommandError (Unit {0})) (taken : Bool) (s : Shared R S)
      → s.answers ≡ sent ++ wrap (status_of result) ∷ []
      → Once sent (conclude result (taken, s))
  unfolding conclude status_of
  conclude-Once sent wrap w (ok u) true s e = (wrap ci_success, e, λ q. w ci_success)
  conclude-Once sent wrap w (err x) true s e = (wrap ci_error, e, λ q. cc (q))
  conclude-Once sent wrap w (ok u) false s e = (wrap ci_success, e, λ q. w ci_success)
  conclude-Once sent wrap w (err x) false s e = (wrap ci_error, e, λ q. cc (q))

  answered-Once :
      (calls : Calls R) (wrap : CiStatus → Answer)
      → ((st : CiStatus) → status_in (wrap st) ≡ st)
      → (sent : List Answer) (o : Outcome R S) → Silent sent o
      → AllOnce sent (elim o [
        | none ↦ none
        | some (result, s') ↦ some (conclude result (respond calls (wrap (status_of result)) s'))
      ])
  unfolding respond
  answered-Once calls wrap w sent none v = _
  answered-Once calls wrap w sent (some (result, s')) v =
      conclude-Once sent wrap w result (calls.responded (wrap (status_of result))) _
        (ap (λ (l : List Answer). l ++ wrap (status_of result) ∷ []) v)

  pub answer-Once :
      (calls : Calls R) (wrap : CiStatus → Answer)
      → ((st : CiStatus) → status_in (wrap st) ≡ st)
      → (act : Shared R S → Outcome R S) (s : Shared R S) → Silent s.answers (act s)
      → AllOnce s.answers (answer calls wrap act s)
  unfolding answer respond
  answer-Once calls wrap w act s v =
      either (AllOnce s.answers) calls.inspected _ _
        (answered-Once calls wrap w s.answers (act s) v) (wrap ci_error, refl, λ q. cc q)

  pub once_either : (s : Shared R S) (o : Outcome R S) → AllOnce s.answers o → AnsweredOnce s o
  once_either s none v = _
  once_either s (some r) v = inl v

  pub with_engine-Silent :
      (sent : List Answer) (s : Shared R S) (o : Option (Engine R S))
      → s.answers ≡ sent
      → Silent sent (with_engine s o)
  unfolding with_engine
  with_engine-Silent sent s none e = _
  with_engine-Silent sent s (some x) e = e

  pub with_engine-Once :
      (sent : List Answer) (s : Shared R S) (o : Option (Engine R S))
      → Once sent (ok tt, s)
      → AllOnce sent (with_engine s o)
  unfolding with_engine
  with_engine-Once sent s none v = _
  with_engine-Once sent s (some x) v = v
