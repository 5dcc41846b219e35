-- ===== src/Hci/UasOutcome.antt =====
-- What `hide_uas` of src/hci.rs leaves: the descriptor as it was, or the bytes outside of what it hides
-- with a matching total length.
use usbip_macos.Prelude.{
  ℕ, suc, ◌+◌, ◌%◌, ◌^◌, ◌≤◌, ◌≡◌, refl, sym, ap, ◌∙◌, subst, inl, inr, true, List, [], ◌∷◌, Option,
  none, some, Bool-cases, length, take, drop, if◌then◌else◌, ◌↔◌, le→ltb, dec_lt, arith,
}
use usbip_macos.Hci.Endpoints.{at, u16_le}
use usbip_macos.Hci.Uas.{
  Group, collect, hidden_of, copy_rest, set_total, hide, is_uas_candidate, hide_uas,
}
use usbip_macos.Hci.UasCut.{left_of, copy_rest-left_of}
use usbip_macos.Hci.UasChoice.{In, Uas, HasFallback, hidden_of-only, hidden_of-all}
use usbip_macos.Hci.UasRanges.{
  Ordered, Collected, collect-Ordered, hidden_of-Ordered, Ordered-lower,
}
use usbip_macos.Hci.UasLengths.{
  Ordered-end, length-copy_rest, CoversNine, hidden_of-CoversNine, length-copy_first,
  length-set_total, front-set_total, back-set_total, total-set_total,
}

-- The ranges `gs` are hidden: the bytes outside of them stay, in order and unchanged but for the total
-- length; at least one interface descriptor goes; and the lengths that are returned are the old and the
-- new total length.
pub record IsShortened (config : List ℕ) (gs : List Group) (original new : ℕ) (out : List ℕ)
    : Type 0 where
  pub same_front : take 2 out ≡ take 2 (left_of gs 0 config)
  pub same_back : drop 4 out ≡ drop 4 (left_of gs 0 config)
  pub original_total : original ≡ u16_le (at config 2) (at config 3)
  pub new_total : new ≡ length out % 2 ^ 16
  pub declared : u16_le (at out 2) (at out 3) ≡ new
  pub shorter : length out + 9 ≤ length config
  pub header_left : 9 ≤ length out

-- The ranges of the interfaces that the loop finds; none for a descriptor that `hide_uas` does not
-- look into, or that is malformed.
abbrev pub interfaces_of : List ℕ → List Group
interfaces_of config =
    if is_uas_candidate config
    then elim (collect (suc (length config)) config [] (at config 0)) [
      | none ↦ []
      | some none ↦ []
      | some (some groups) ↦ groups
    ]
    else []

-- The interfaces that are UAS and have a fallback, and no others.
abbrev pub IsHidden : List ℕ → List Group → Type 0
IsHidden config gs =
    (g : Group)
    → In g gs
      ↔ (In g (interfaces_of config) × Uas config g × HasFallback config (interfaces_of config) g)

unfoldable pub Outcome : List ℕ → Option (ℕ × ℕ) × List ℕ → Type 0
Outcome config (none, out) = (out ≡ config) × IsHidden config []
Outcome config (some (original, new), out) =
    (gs : List Group) × IsHidden config gs × IsShortened config gs original new out

inside : (g : Group) (gs : List Group) {lo hi : ℕ} → Ordered lo (g ∷ gs) hi → g.start ≤ hi
inside g gs {lo} {hi} o = omega (arith, o.1.0, Ordered-end g.end hi gs o.1.1)

hide-Outcome :
    (config : List ℕ) (gs : List Group)
    → Ordered 9 gs (length config)
    → CoversNine gs
    → IsHidden config gs
    → Outcome config (hide config gs)
unfolding hide Outcome
hide-Outcome config [] o c k = (refl, k)
hide-Outcome config (g ∷ gs) o c k = (
  g ∷ gs,
  k,
  record {
    same_front = front-set_total out (omega (arith, left)) ∙ ap (λ (t : List ℕ). take 2 t) copied;
    same_back = back-set_total out (omega (arith, left)) ∙ ap (λ (t : List ℕ). drop 4 t) copied;
    original_total = refl;
    new_total = ap (λ (t : ℕ). t % 2 ^ 16) (sym same);
    declared = total-set_total out (omega (arith, left));
    shorter = omega (
      arith,
      same,
      c,
      length-copy_rest config (g ∷ gs) 0
          (Ordered-lower 9 0 (length config) (g ∷ gs) o (omega arith)),
    );
    header_left = omega (arith, left, same);
  },
)
  where
    out : List ℕ
    out = copy_rest config (g ∷ gs) 0

    copied : out ≡ left_of (g ∷ gs) 0 config
    copied =
        copy_rest-left_of config (g ∷ gs) 0 (length config)
          (Ordered-lower 9 0 (length config) (g ∷ gs) o (omega arith))

    left : 9 ≤ length out
    left = omega (arith, o.0, length-copy_first config g gs (inside g gs o))

    same : length (set_total out) ≡ length out
    same = length-set_total out (omega (arith, left))

collect-past :
    (fuel : ℕ) (config : List ℕ) (gs : List Group) (i : ℕ)
    → length config ≤ i
    → collect (suc fuel) config gs i ≡ some (some gs)
unfolding collect
collect-past fuel config gs i h = rw (le→ltb i (length config) h)

-- The loop starts after the configuration descriptor, which may claim to be longer than all.
collect-start :
    (config : List ℕ)
    → is_uas_candidate config ≡ true
    → (r : Option (List Group)) × (collect (suc (length config)) config [] (at config 0) ≡ some r)
      × Collected 9 (length config) r
unfolding is_uas_candidate
collect-start config candidate = elim (dec_lt (length config) (at config 0)) [
  | yes past ↦ (
    some [],
    collect-past (length config) config [] (at config 0) (omega (arith, past)),
    ground (arith, candidate),
  )
  | no inside ↦
      collect-Ordered (suc (length config)) config 9 (at config 0) [] (ground (arith, candidate))
        (omega (arith, inside)) (omega arith)
]

pub hide_uas_lem :
    (config : List ℕ)
    → (r : Option (ℕ × ℕ) × List ℕ) × (hide_uas config ≡ some r) × Outcome config r
unfolding hide_uas Outcome
hide_uas_lem config = elim (Bool-cases (is_uas_candidate config)) [
  | inr other ↦ ((none, config), rw other, (refl, λ g. rw other (absurd, λ h. absurd h.0)))
  | inl candidate ↦ collected candidate (collect-start config candidate)
]
  where
    collected :
        is_uas_candidate config ≡ true
        → (r : Option (List Group)) × (collect (suc (length config)) config [] (at config 0)
            ≡ some r)
          × Collected 9 (length config) r
        → (r : Option (ℕ × ℕ) × List ℕ) × (hide_uas config ≡ some r) × Outcome config r
    collected candidate (none, e, v) = (
      (none, config),
      rw (candidate, e),
      (refl, λ g. rw (candidate, e) (absurd, λ h. absurd h.0)),
    )
    collected candidate (some groups, e, v) = (
      hide config (hidden_of config groups groups),
      rw (candidate, e),
      hide-Outcome config (hidden_of config groups groups)
          (hidden_of-Ordered config groups groups 9 (length config) v)
          (hidden_of-CoversNine config groups groups)
          (λ g.
            rw (candidate, e)
              (
                hidden_of-only config groups groups g,
                λ h. hidden_of-all config groups groups g h.0 h.1 h.2,
              )),
    )

abbrev CollectedIn : ℕ → ℕ → Option (Option (List Group)) → Type 0
CollectedIn lo hi none = Unit
CollectedIn lo hi (some r) = Collected lo hi r

-- The ranges that are hidden follow each other, after the configuration descriptor and inside the
-- whole: every slice that is copied exists.
pub hidden_of-Ordered_lem :
    (config : List ℕ) (groups : List Group)
    → is_uas_candidate config ≡ true
    → collect (suc (length config)) config [] (at config 0) ≡ some (some groups)
    → Ordered 9 (hidden_of config groups groups) (length config)
hidden_of-Ordered_lem config groups candidate e =
    let (r, eq, v) = collect-start config candidate in
    hidden_of-Ordered config groups groups 9 (length config)
      (subst (CollectedIn 9 (length config)) (sym eq ∙ e) v)
