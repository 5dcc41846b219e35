-- ===== src/Engine/Order.antt =====
-- The order of replies in src/engine.rs: what the contract of an endpoint guarantees.
use usbip_macos.Prelude.{
  ℕ, suc, ◌+◌, ◌≤◌, ◌<◌, ◌≡◌, refl, sym, ap, subst, List, [], ◌∷◌, ◌++◌, append_assoc, append-nil,
  some, length, length-append, arith,
}
use usbip_macos.Client.State.{TransferResult}
use usbip_macos.Engine.Types.{Ring, InFlight}
use usbip_macos.Engine.Contract.{
  View, view, SameUrbs, Step, delivers, answers, issues, stales, Steps, here, next, Cause, Recorded,
  keeps, cuts, Event, waits, pumps, replies, pauses, drops, replaces, Trace, none_yet, then_event,
}

-- The numbers rise, from `lo` on and below `hi`.
abbrev pub Ascending : ℕ → List ℕ → ℕ → Type 0
Ascending lo [] hi = lo ≤ hi
Ascending lo (t ∷ ts) hi = (lo ≤ t) × Ascending (suc t) ts hi

abbrev pub tokens : List InFlight → List ℕ
tokens [] = []
tokens (f ∷ fs) = f.token ∷ tokens fs

Ascending-le : (lo hi : ℕ) (ts : List ℕ) → Ascending lo ts hi → lo ≤ hi
Ascending-le lo hi [] a = a
Ascending-le lo hi (t ∷ ts) a = omega (arith, a.0, Ascending-le (suc t) hi ts a.1)

Ascending-prefix : (lo hi : ℕ) (ts us : List ℕ) → Ascending lo (ts ++ us) hi → Ascending lo ts hi
Ascending-prefix lo hi [] us a = Ascending-le lo hi us a
Ascending-prefix lo hi (t ∷ ts) us a = (a.0, Ascending-prefix (suc t) hi ts us a.1)

Ascending-snoc :
    (lo n hi : ℕ) (ts : List ℕ) → Ascending lo ts n → n < hi → Ascending lo (ts ++ n ∷ []) hi
Ascending-snoc lo n hi [] a h = (a, omega (arith, h))
Ascending-snoc lo n hi (t ∷ ts) a h = (a.0, Ascending-snoc (suc t) n hi ts a.1 h)

Ascending-weaken : (lo n hi : ℕ) (ts : List ℕ) → Ascending lo ts n → n ≤ hi → Ascending lo ts hi
Ascending-weaken lo n hi [] a h = omega (arith, a, h)
Ascending-weaken lo n hi (t ∷ ts) a h = (a.0, Ascending-weaken (suc t) n hi ts a.1 h)

tokens-append : (fs gs : List InFlight) → tokens (fs ++ gs) ≡ tokens fs ++ tokens gs
tokens-append [] gs = refl
tokens-append (f ∷ fs) gs = ap (λ (t : List ℕ). f.token ∷ t) (tokens-append fs gs)

tokens-SameUrbs : (fs gs : List InFlight) → SameUrbs fs gs → tokens gs ≡ tokens fs
unfolding SameUrbs
tokens-SameUrbs [] [] v = refl
tokens-SameUrbs [] (g ∷ gs) v = absurd v
tokens-SameUrbs (f ∷ fs) [] v = absurd v
tokens-SameUrbs (f ∷ fs) (g ∷ gs) v = rw (v.0.same_token, tokens-SameUrbs fs gs v.1)

length-SameUrbs : (fs gs : List InFlight) → SameUrbs fs gs → length gs ≡ length fs
unfolding SameUrbs
length-SameUrbs [] [] v = refl
length-SameUrbs [] (g ∷ gs) v = absurd v
length-SameUrbs (f ∷ fs) [] v = absurd v
length-SameUrbs (f ∷ fs) (g ∷ gs) v = ap suc (length-SameUrbs fs gs v.1)

-- What was delivered and what is in flight, by their tokens.
abbrev InOrder : {R : Type 0} → ℕ → List ℕ → View R → Type 0
InOrder lo ds (view r fs n) = Ascending lo (ds ++ tokens fs) n

abbrev Bounded : {R : Type 0} → View R → Type 0
Bounded (view r fs n) = length fs ≤ 32

-- URBs that are given up leave a rising sequence.
InOrder-cut :
    (lo n : ℕ) (ds : List ℕ) (kept dropped : List InFlight)
    → Ascending lo (ds ++ tokens (kept ++ dropped)) n
    → Ascending lo ((ds ++ []) ++ tokens kept) n
InOrder-cut lo n ds kept dropped a = rw (append-nil ds) (
    Ascending-prefix lo n (ds ++ tokens kept) (tokens dropped)
      (rw (append_assoc ds (tokens kept) (tokens dropped), ← tokens-append kept dropped) a))

tokens-replace :
    (before : List InFlight) (f g : InFlight) (after : List InFlight)
    → g.token ≡ f.token
    → tokens (before ++ g ∷ after) ≡ tokens (before ++ f ∷ after)
tokens-replace before f g after e =
    rw (tokens-append before (g ∷ after), tokens-append before (f ∷ after), e) refl

-- A reply that is recorded leaves the tokens as they are, or a prefix of them.
Recorded-Ascending :
    (lo n token : ℕ) (ds : List ℕ) (result : TransferResult) {fs gs : List InFlight}
    → Recorded token result fs gs
    → Ascending lo (ds ++ tokens fs) n
    → Ascending lo (ds ++ tokens gs) n
Recorded-Ascending lo n token ds result (keeps before f after e) a =
    rw (tokens-replace before f (record f { result = some result }) after refl) a
Recorded-Ascending lo n token ds result (cuts before f after e u x) a =
    rw (append-nil ds) at (InOrder-cut lo n ds before (f ∷ after) a)

Recorded-length :
    (token : ℕ) (result : TransferResult) {fs gs : List InFlight}
    → Recorded token result fs gs
    → length gs ≤ length fs
Recorded-length token result (keeps before f after e) = omega (
  arith,
  length-append before (f ∷ after),
  length-append before (record f { result = some result } ∷ after),
)
Recorded-length token result (cuts before f after e u x) =
    omega (arith, length-append before (f ∷ after))

module _ {R : Type 0} ⦃rg : Ring R⦄ where
  Step-InOrder :
      (lo : ℕ) (ds : List ℕ) {u v : View R} {ts : List ℕ}
      → Step u ts v
      → InOrder lo ds u
      → InOrder lo (ds ++ ts) v
  Step-InOrder lo ds (delivers r f fs n result c ac hd fin fit from) a =
      subst (λ (t : List ℕ). Ascending lo t n) (sym (append_assoc ds (f.token ∷ []) (tokens fs))) a
  Step-InOrder lo ds (answers r n st ac) a = rw (append-nil ds) a
  Step-InOrder lo ds (issues r fs n f ac nx tok res few) a =
      rw
        (
          append-nil ds,
          tokens-append fs (f ∷ []),
          ← append_assoc ds (tokens fs) (f.token ∷ []),
          tok,
        )
        (Ascending-snoc lo n (n + 1) (ds ++ tokens fs) a (omega arith))
  Step-InOrder lo ds (stales r f fs n ac moved) a = InOrder-cut lo n ds [] (f ∷ fs) a

  Step-Bounded : {u v : View R} {ts : List ℕ} → Step u ts v → Bounded u → Bounded v
  Step-Bounded (delivers r f fs n result c ac hd fin fit from) b = omega (arith, b)
  Step-Bounded (answers r n st ac) b = b
  Step-Bounded (issues r fs n f ac nx tok res few) b = omega (arith, few, length-append fs (f ∷ []))
  Step-Bounded (stales r f fs n ac moved) b = omega arith

  Steps-InOrder :
      (lo : ℕ) (ds : List ℕ) {u v : View R} {ts : List ℕ}
      → Steps u ts v
      → InOrder lo ds u
      → InOrder lo (ds ++ ts) v
  Steps-InOrder lo ds here a = rw (append-nil ds) a
  Steps-InOrder lo ds {v = w} (next {ts = ts} {ts' = ts'} s st) a =
      subst (λ (t : List ℕ). InOrder lo t w) (append_assoc ds ts ts')
        (Step-InOrder lo (ds ++ ts) st (Steps-InOrder lo ds s a))

  Steps-Bounded : {u v : View R} {ts : List ℕ} → Steps u ts v → Bounded u → Bounded v
  Steps-Bounded here b = b
  Steps-Bounded (next s st) b = Step-Bounded st (Steps-Bounded s b)

  Event-InOrder :
      (lo : ℕ) (ds : List ℕ) {u v : View R} {ts : List ℕ} {c : Cause R}
      → Event u ts c v
      → InOrder lo ds u
      → InOrder lo (ds ++ ts) v
  Event-InOrder lo ds (waits c r fs n n' h) a =
      rw (append-nil ds) (Ascending-weaken lo n n' (ds ++ tokens fs) a h)
  Event-InOrder lo ds (pumps ts s) a = Steps-InOrder lo ds s a
  Event-InOrder lo ds (replies token result r fs gs n ts kept s) a =
      Steps-InOrder lo ds s (Recorded-Ascending lo n token ds result kept a)
  Event-InOrder lo ds (pauses r fs gs n same) a = rw (append-nil ds, tokens-SameUrbs fs gs same) a
  Event-InOrder lo ds (drops r fs n) a = InOrder-cut lo n ds [] fs a
  Event-InOrder lo ds (replaces r r' fs n) a = rw (append-nil ds) a

  Event-Bounded :
      {u v : View R} {ts : List ℕ} {c : Cause R} → Event u ts c v → Bounded u → Bounded v
  Event-Bounded (waits c r fs n n' h) b = b
  Event-Bounded (pumps ts s) b = Steps-Bounded s b
  Event-Bounded (replies token result r fs gs n ts kept s) b =
      Steps-Bounded s (omega (arith, b, Recorded-length token result kept))
  Event-Bounded (pauses r fs gs n same) b = omega (arith, b, length-SameUrbs fs gs same)
  Event-Bounded (drops r fs n) b = omega arith
  Event-Bounded (replaces r r' fs n) b = b

  Trace-InOrder :
      (r : R) (lo : ℕ) {v : View R} {ts : List ℕ} {cs : List (Cause R)}
      → Trace (view r [] lo) ts cs v
      → InOrder lo ts v
  Trace-InOrder r lo none_yet = omega arith
  Trace-InOrder r lo (then_event {ts = ts} s st) = Event-InOrder lo ts st (Trace-InOrder r lo s)

  -- From an endpoint with nothing in flight on: the tokens of the replies that were delivered, then
  -- those in flight, rise. So each URB is delivered at most once, in the order of submission, and
  -- none that is still in flight was delivered.
  pub Trace-Ascending :
      (r r' : R) (lo n : ℕ) (fs : List InFlight) (ts : List ℕ) (cs : List (Cause R))
      → Trace (view r [] lo) ts cs (view r' fs n)
      → Ascending lo (ts ++ tokens fs) n
  Trace-Ascending r r' lo n fs ts cs s = Trace-InOrder r lo s

  Trace-Bounded :
      (r : R) (lo : ℕ) {v : View R} {ts : List ℕ} {cs : List (Cause R)}
      → Trace (view r [] lo) ts cs v
      → Bounded v
  Trace-Bounded r lo none_yet = omega arith
  Trace-Bounded r lo (then_event s st) = Event-Bounded st (Trace-Bounded r lo s)

  -- Never more than 32 URBs are in flight for an endpoint.
  pub Trace-bounded :
      (r r' : R) (lo n : ℕ) (fs : List InFlight) (ts : List ℕ) (cs : List (Cause R))
      → Trace (view r [] lo) ts cs (view r' fs n)
      → length fs ≤ 32
  Trace-bounded r r' lo n fs ts cs s = Trace-Bounded r lo s
