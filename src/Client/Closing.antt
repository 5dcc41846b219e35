-- ===== src/Client/Closing.antt =====
-- Once a session is closed, the sends that are left answer every reply channel, each once.
use mathlib.Core.List.{Perm, Nodup, Nodup-cons, Nodup-nil, Mem, mem-cons, not-mem-nil}
use mathlib.Core.List.Perm
use mathlib.Core.Logic.Or
use mathlib.Core.List.Nodup.{of_append_right}
use native.Mathlib.Bridge.{le_prop}
use usbip_macos.Prelude.{
  ℕ, zero, suc, ◌<◌, ◌≡◌, refl, ap, ◌∙◌, List, [], ◌∷◌, ◌++◌, arith, none, some,
}
use usbip_macos.Wire.{Buf}
use usbip_macos.Client.State.{State, PendingSubmit, Shared, CloseReason, start}
use usbip_macos.Client.Session.{Sending, answering, disconnecting, send_one}
use usbip_macos.Client.Steps.{Threads, left, at_rest, sends, Reach, here, next, Reach-Inv}
use usbip_macos.Client.Accounting.{waiting, answered, unsent, down_from, Reach-IsAccounted}

down_from-below : (n c : ℕ) → Mem c (down_from n) → c < n
down_from-below zero c m = absurd (not-mem-nil m)
down_from-below (suc n) c m =
    Or.elim le_prop (mem-cons.0 m) (λ e. omega arith) (λ h. omega (arith, down_from-below n c h))

down_from-Nodup : (n : ℕ) → Nodup (down_from n)
down_from-Nodup zero = Nodup-nil
down_from-Nodup (suc n) =
    Nodup-cons.1 ((λ m. absurd (omega (arith, down_from-below n n m))), down_from-Nodup n)

module _ ⦃buf : Buf⦄ where
  -- No reply channel is ever sent on twice.
  pub answered-Nodup :
      (devid : ℕ) (t : Threads)
      → Reach (at_rest (start devid)) t
      → Nodup (answered t.shared.answers)
  answered-Nodup devid t r = of_append_right (unsent t.sending) (
      of_append_right (waiting t.shared.state.submits)
        (Perm.nodup (Perm.symm (Reach-IsAccounted devid t r)) (down_from-Nodup t.shared.opened)))

  Reach-append : {s t u : Threads} → Reach s t → Reach t u → Reach s u
  Reach-append a here = a
  Reach-append a (next r st) = next (Reach-append a r) st

  -- Where nothing is left to send, with these tables and this number of channels.
  record Rest (from : Threads) (st : State) (opened : ℕ) : Type 0 where
    rest : Shared
    reached : Reach from (at_rest rest)
    same_state : rest.state ≡ st
    same_opened : rest.opened ≡ opened

  after_close :
      (from : Threads) (reason : CloseReason) (m : List (ℕ × PendingSubmit)) (xs : List Sending)
      (s : Shared)
      → ((u : Shared) → Reach from (left none u xs) → Rest from u.state u.opened)
      → Reach from (left none s (disconnecting reason m ∷ xs))
      → Rest from s.state s.opened
  unfolding send_one
  after_close from reason [] xs s go r =
      go (record s { closed_tx = some reason }) (next r (sends [] (disconnecting reason []) xs s))
  after_close from reason ((k, p) ∷ m) xs s go r =
      after_close from reason m xs (send_one (disconnecting reason ((k, p) ∷ m)) s).1 go
        (next r (sends [] (disconnecting reason ((k, p) ∷ m)) xs s))

  all_sent :
      (from : Threads) (xs : List Sending) (s : Shared)
      → Reach from (left none s xs)
      → Rest from s.state s.opened
  unfolding send_one
  all_sent from [] s r = record { rest = s; reached = r; same_state = refl; same_opened = refl }
  all_sent from (answering c result ∷ xs) s r =
      all_sent from xs (send_one (answering c result) s).1
        (next r (sends [] (answering c result) xs s))
  all_sent from (disconnecting reason m ∷ xs) s r =
      after_close from reason m xs s (all_sent from xs) r

  -- Once a session is closed, in every interleaving, the reply channels that it opened are those that
  -- have been sent on and those that a thread is about to send on, each once; and the sends that are
  -- left lead to a state in which every one of them has been sent on.
  pub closed-answered :
      (devid : ℕ) (t : Threads) (reason : CloseReason)
      → Reach (at_rest (start devid)) t
      → t.shared.state.closed ≡ some reason
      → Perm (unsent t.sending ++ answered t.shared.answers) (down_from t.shared.opened)
        × ((s : Shared) × Reach t (at_rest s)
            × Perm (answered s.answers) (down_from t.shared.opened))
  closed-answered devid t reason r e =
      let empty = ((Reach-Inv devid t r).closed_empty reason e).0 in
      let end = all_sent t t.sending t.shared here in
      let done = Reach-IsAccounted devid (at_rest end.rest) (Reach-append r end.reached) in
      (
        rw (ap waiting empty) at (Reach-IsAccounted devid t r),
        (
          end.rest,
          end.reached,
          rw
              (
                ap (λ (st : State). waiting st.submits) end.same_state ∙ ap waiting empty,
                end.same_opened,
              )
              at done,
        ),
      )
