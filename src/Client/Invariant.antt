-- ===== src/Client/Invariant.antt =====
-- The tables of a session stay well formed under the critical sections of the reader of src/client.rs.
use usbip_macos.Prelude.{
  ℕ, ◌≤◌, ◌≡◌, inl, inr, List, [], ◌∷◌, length, length-append, length-drop, arith, ◌==◌, not, drop,
  Option, none, some, Option-cases,
}
use usbip_macos.Prelude.Maps.{
  lookup, remove, retain, lookup-remove, contains_key-remove, contains_key-retain, lookup-retain,
  remove-UniqueKeys, retain-UniqueKeys, remove-nil, retain-nil,
}
use usbip_macos.Protocol.Types.{RetUnlink}
use usbip_macos.Client.State.{State, PendingSubmit, Shared, Unlinked}
use usbip_macos.Client.Receive.{forget_unlinked, take_submit, remember, take_unlink, resolve}
use usbip_macos.Client.Tables.{Inv, length-forget_unlinked}

-- A transfer leaves, with the unlinks that are for it.
forget_submit-Inv :
    (n : ℕ) (st : State)
    → Inv st
    → Inv (record st {
      unlinks = retain (λ t. not (t == n)) st.unlinks;
      unlinked = forget_unlinked n st.unlinked;
      submits = remove n st.submits;
    })
forget_submit-Inv n st v =
    let m = st.submits in
    let u = st.unlinks in
    let keep = λ (t : ℕ). not (t == n) in
    record {
      submits_unique = remove-UniqueKeys n m v.submits_unique;
      unlinks_unique = retain-UniqueKeys keep u v.unlinks_unique;
      separate = λ k h.
          ground (arith, v.separate k, contains_key-retain keep k u, contains_key-remove k n m);
      submits_range = λ k h. ground (arith, v.submits_range k, contains_key-remove k n m);
      unlinks_range = λ k h. ground (arith, v.unlinks_range k, contains_key-retain keep k u);
      targets = λ k t h. ground (
        arith,
        lookup-retain keep k u t v.unlinks_unique h,
        v.targets k t,
        contains_key-remove t n m,
      );
      targets_once = λ j k t h h'.
          v.targets_once j k t (lookup-retain keep j u t v.unlinks_unique h).0
            (lookup-retain keep k u t v.unlinks_unique h').0;
      memory = omega (arith, v.memory, length-forget_unlinked n st.unlinked);
      closed_empty = λ r h. ground (arith, v.closed_empty r h, remove-nil n m, retain-nil keep u);
    }

-- An unlink leaves.
forget_unlink-Inv :
    (n : ℕ) (st : State) → Inv st → Inv (record st { unlinks = remove n st.unlinks })
forget_unlink-Inv n st v =
    let u = st.unlinks in
    record {
      submits_unique = v.submits_unique;
      unlinks_unique = remove-UniqueKeys n u v.unlinks_unique;
      separate = λ k h. ground (arith, v.separate k, contains_key-remove k n u);
      submits_range = v.submits_range;
      unlinks_range = λ k h. ground (arith, v.unlinks_range k, contains_key-remove k n u);
      targets = λ k t h. ground (arith, v.targets k t, lookup-remove k n u);
      targets_once = λ j k t h h'.
          ground (arith, v.targets_once j k t, lookup-remove j n u, lookup-remove k n u);
      memory = v.memory;
      closed_empty = λ r h. ground (arith, v.closed_empty r h, remove-nil n u);
    }

length-remember :
    (u : Unlinked) (us : List Unlinked) → length us ≤ 256 → length (remember u us) ≤ 256
unfolding remember
length-remember u us h =
    ground (arith, length-append us (u ∷ []), length-append (drop 1 us) (u ∷ []), length-drop 1 us)

-- A transfer leaves with the unlink `n` that was for it.
resolve-Inv :
    (n target : ℕ) (x : Unlinked) (st : State)
    → lookup n st.unlinks ≡ some target
    → Inv st
    → Inv (record st {
      unlinks = remove n st.unlinks;
      submits = remove target st.submits;
      unlinked = remember x st.unlinked;
    })
resolve-Inv n target x st e v =
    let m = st.submits in
    let u = st.unlinks in
    record {
      submits_unique = remove-UniqueKeys target m v.submits_unique;
      unlinks_unique = remove-UniqueKeys n u v.unlinks_unique;
      separate = λ k h.
          ground (arith, v.separate k, contains_key-remove k n u, contains_key-remove k target m);
      submits_range = λ k h. ground (arith, v.submits_range k, contains_key-remove k target m);
      unlinks_range = λ k h. ground (arith, v.unlinks_range k, contains_key-remove k n u);
      targets = λ k t h. ground (
        arith,
        v.targets k t,
        lookup-remove k n u,
        contains_key-remove t target m,
        v.targets_once k n t,
      );
      targets_once = λ j k t h h'.
          ground (arith, v.targets_once j k t, lookup-remove j n u, lookup-remove k n u);
      memory = length-remember x st.unlinked v.memory;
      closed_empty = λ r h. ground (arith, v.closed_empty r h, remove-nil n u, remove-nil target m);
    }

-- The two critical sections of the reader.
pub take_submit-Inv : (seqnum : ℕ) (s : Shared) → Inv s.state → Inv (take_submit seqnum s).1.state
unfolding take_submit
take_submit-Inv seqnum s v = forget_submit-Inv seqnum s.state v

resolved-Inv :
    (n target : ℕ) (o : Option PendingSubmit) (s : Shared)
    → lookup n s.state.unlinks ≡ some target
    → Inv s.state
    → Inv
        (resolve target o
          (record s { state = record s.state { unlinks = remove n s.state.unlinks } })).1.state
resolved-Inv n target none s e v = forget_unlink-Inv n s.state v
resolved-Inv n target (some p) s e v =
    resolve-Inv n target (record { seqnum = target; direction = p.direction; length = p.length })
      s.state e v

pub take_unlink-Inv : (ret : RetUnlink) (s : Shared) → Inv s.state → Inv (take_unlink ret s).1.state
unfolding take_unlink
take_unlink-Inv ret s v = elim (Option-cases (lookup ret.seqnum s.state.unlinks)) [
  | inl e ↦ rw (e, take_unlink) (forget_unlink-Inv ret.seqnum s.state v)
  | inr (target, e) ↦
      rw (e, take_unlink) (resolved-Inv ret.seqnum target (lookup target s.state.submits) s e v)
]
