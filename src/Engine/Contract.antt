-- ===== src/Engine/Contract.antt =====
-- What src/engine.rs promises of one endpoint, as a step relation on the ring, the URBs in flight and
-- the next token. A label lists the tokens of the replies that a step delivers to the host. `Step` is
-- what the pump does; `Event` adds what replies, pauses, resets and the host do to an endpoint.
use usbip_macos.Prelude.{
  ℕ, ◌+◌, ◌≤◌, ◌<◌, ◌≡◌, ◌≢◌, ◌⊎◌, min, true, List, [], ◌∷◌, ◌++◌, append_assoc, append-nil, Option,
  none, some, length, subst, sym,
}
use usbip_macos.Protocol.Types.{is_out}
use usbip_macos.Client.State.{TransferResult}
use usbip_macos.Hci.Messages.{Transfer, Status}
use usbip_macos.Hci.Uas.{hide_uas}
use usbip_macos.Engine.Types.{Ring, InFlight, Work, control_data}
use usbip_macos.Engine.Apply.{Completion, completion_of, patch_total}
use usbip_macos.Engine.Handlers.{is_unlinked}

pub data View (R : Type 0) : Type 0 where
  view : R → List InFlight → ℕ → View R

abbrev pub view_of : {R S : Type 0} → Work R S → View R
view_of w = view w.ep.ring w.ep.in_flight w.next_token

-- The data of a completion fits the request, and an OUT transfer gets none.
pub record Fits (f : InFlight) (c : Completion) : Type 0 where
  pub bytes_fit : length c.bytes ≤ f.length
  pub length_fits : c.length ≤ f.length
  pub out_empty : is_out f.direction ≡ true → length c.bytes ≡ 0

-- The data as they came, or as `hide_uas` leaves a configuration descriptor.
pub data Filtered (bytes : List ℕ) : List ℕ → Type 0 where
  as_is : Filtered bytes bytes
  hides :
      (totals : ℕ × ℕ) (out : List ℕ)
      → hide_uas bytes ≡ some (some totals, out)
      → Filtered bytes out
  patches :
      (hidden : Option (ℕ × ℕ)) (out : List ℕ)
      → hide_uas bytes ≡ some (none, out)
      → Filtered bytes (patch_total hidden out)

-- The completion is that of this reply to this URB: only the data stage of a control transfer may
-- filter the data, and cut the length to them.
pub record Carries (f : InFlight) (result : TransferResult) (c : Completion) : Type 0 where
  pub same_status : c.status ≡ (completion_of f result).status
  pub carried : Filtered (completion_of f result).bytes c.bytes
  pub same_length :
      (c.length ≡ (completion_of f result).length)
      ⊎ (c.length ≡ min (completion_of f result).length (length c.bytes))
  pub exact : f.stage ≢ control_data → c ≡ completion_of f result

-- The same URB with the same reply, but for the mark of an unlink.
pub record SameUrb (f g : InFlight) : Type 0 where
  pub same_result : g.result ≡ f.result
  pub same_token : g.token ≡ f.token
  pub same_message : g.message ≡ f.message
  pub same_seqnum : g.seqnum ≡ f.seqnum

unfoldable pub SameUrbs : List InFlight → List InFlight → Type 0
SameUrbs [] [] = Unit
SameUrbs [] (g ∷ gs) = ⊥
SameUrbs (f ∷ fs) [] = ⊥
SameUrbs (f ∷ fs) (g ∷ gs) = SameUrb f g × SameUrbs fs gs

module _ {R : Type 0} ⦃rg : Ring R⦄ where
  open rg use {active, current, peek, complete_head}

  -- The message after those in flight: the head, or one further ahead.
  unfoldable pub IsNext : R → List InFlight → ℕ → Type 0
  IsNext r [] message = (current r).0 ≡ message
  IsNext r (f ∷ fs) message = (t : Transfer) × (peek r (length (f ∷ fs)) ≡ some (message, t))

  pub data Step : View R → List ℕ → View R → Type 0 where
    -- A reply is delivered only from the front, while its message is the head of an active ring.
    delivers :
        (r : R) (f : InFlight) (fs : List InFlight) (n : ℕ) (result : TransferResult)
        → (c : Completion) → active r ≡ true
        → f.message ≡ (current r).0
        → f.result ≡ some result
        → Fits f c
        → Carries f result c
        → Step
            (view r (f ∷ fs) n)
            (f.token ∷ [])
            (view (complete_head c.status c.bytes c.length r).1 fs n)
    -- The head is completed without a URB, and then without data, only when nothing is in flight.
    answers :
        (r : R) (n : ℕ) (st : Status)
        → active r ≡ true
        → Step (view r [] n) [] (view (complete_head st [] 0 r).1 [] n)
    -- A URB is sent for the next message of an active ring, with a new token, up to 32 of them.
    issues :
        (r : R) (fs : List InFlight) (n : ℕ) (f : InFlight)
        → active r ≡ true
        → IsNext r fs f.message
        → f.token ≡ n
        → f.result ≡ none
        → length fs < 32
        → Step (view r fs n) [] (view r (fs ++ f ∷ []) (n + 1))
    -- The URBs in flight are given up only when the message of the front is not the head any more.
    stales :
        (r : R) (f : InFlight) (fs : List InFlight) (n : ℕ)
        → active r ≡ true
        → f.message ≢ (current r).0
        → Step (view r (f ∷ fs) n) [] (view r [] n)

  pub data Steps (u : View R) : List ℕ → View R → Type 0 where
    here : Steps u [] u
    next : {ts ts' : List ℕ} {v w : View R} → Steps u ts v → Step v ts' w → Steps u (ts ++ ts') w

  Steps-append :
      {u v w : View R} (ts ts' : List ℕ) → Steps u ts v → Steps v ts' w → Steps u (ts ++ ts') w
  Steps-append {u} {v} {w} ts ts' a here =
      subst (λ (t : List ℕ). Steps u t w) (sym (append-nil ts)) a
  Steps-append {u} {v} {w} ts ts' a (next {ts = b} {ts' = c} s st) =
      subst (λ (t : List ℕ). Steps u t w) (append_assoc ts b c) (next (Steps-append ts b a s) st)

  -- What a step leads to, with whatever it delivers.
  abbrev pub Leads : View R → View R → Type 0
  Leads u v = (ts : List ℕ) × Steps u ts v

  pub Leads-refl : (u : View R) → Leads u u
  Leads-refl u = ([], here)

  pub Leads-Step : {u v : View R} (ts : List ℕ) → Step u ts v → Leads u v
  Leads-Step ts st = ([] ++ ts, next here st)

  pub Leads-trans : {u v w : View R} → Leads u v → Leads v w → Leads u w
  Leads-trans a b = (a.0 ++ b.0, Steps-append a.0 b.0 a.1 b.1)

-- Why something happens to an endpoint between two states: the pump runs, a reply comes for a token,
-- reads are paused, the endpoint is reset or synced, the host puts another ring in place, or the call
-- is about something else.
pub data Cause (R : Type 0) : Type 0 where
  pumped paused dropped aside : Cause R
  replied : ℕ → TransferResult → Cause R
  replaced : R → Cause R

-- The reply is kept for the URB with its token; or, for a URB that a pause has unlinked, this URB and
-- those after it are given up.
pub data Recorded (token : ℕ) (result : TransferResult)
    : List InFlight → List InFlight → Type 0 where
  keeps :
      (before : List InFlight) (f : InFlight) (after : List InFlight)
      → f.token ≡ token
      → Recorded token result
          (before ++ f ∷ after)
          (before ++ record f { result = some result } ∷ after)
  cuts :
      (before : List InFlight) (f : InFlight) (after : List InFlight)
      → f.token ≡ token
      → f.unlinking ≡ true
      → is_unlinked result ≡ true
      → Recorded token result (before ++ f ∷ after) before

module _ {R : Type 0} ⦃rg : Ring R⦄ where
  -- What a cause may do to an endpoint, with the tokens of the replies that it delivers. Only the
  -- host replaces the ring; all else changes it by the steps of the pump.
  pub data Event : View R → List ℕ → Cause R → View R → Type 0 where
    -- Nothing happens here, while other endpoints take tokens.
    waits :
        (c : Cause R) (r : R) (fs : List InFlight) (n n' : ℕ)
        → n ≤ n'
        → Event (view r fs n) [] c (view r fs n')
    pumps : {u v : View R} (ts : List ℕ) → Steps u ts v → Event u ts pumped v
    replies :
        (token : ℕ) (result : TransferResult) (r : R) (fs gs : List InFlight) (n : ℕ) {v : View R}
        → (ts : List ℕ) → Recorded token result fs gs
        → Steps (view r gs n) ts v
        → Event (view r fs n) ts (replied token result) v
    pauses :
        (r : R) (fs gs : List InFlight) (n : ℕ)
        → SameUrbs fs gs
        → Event (view r fs n) [] paused (view r gs n)
    drops : (r : R) (fs : List InFlight) (n : ℕ) → Event (view r fs n) [] dropped (view r [] n)
    replaces :
        (r r' : R) (fs : List InFlight) (n : ℕ)
        → Event (view r fs n) [] (replaced r') (view r' fs n)

  -- One event, with whatever it delivers.
  abbrev pub Happens : View R → Cause R → View R → Type 0
  Happens u c v = (ts : List ℕ) × Event u ts c v

  -- A sequence of events, with all that they deliver and their causes.
  pub data Trace (u : View R) : List ℕ → List (Cause R) → View R → Type 0 where
    none_yet : Trace u [] [] u
    then_event :
        {ts ts' : List ℕ} {cs : List (Cause R)} {c : Cause R} {v w : View R}
        → Trace u ts cs v
        → Event v ts' c w
        → Trace u (ts ++ ts') (cs ++ c ∷ []) w

module _ {R S : Type 0} ⦃rg : Ring R⦄ where
  -- A call that returns leads to the endpoint that it returns.
  abbrev pub LeadsWork : View R → Option (Work R S) → Type 0
  LeadsWork v none = Unit
  LeadsWork v (some w) = Leads v (view_of w)

  -- A call that returns does what its cause may do.
  abbrev pub EventWork : View R → Cause R → Option (Work R S) → Type 0
  EventWork v c none = Unit
  EventWork v c (some w) = Happens v c (view_of w)
