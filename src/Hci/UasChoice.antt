-- ===== src/Hci/UasChoice.antt =====
-- Which interfaces `hide_uas` of src/hci.rs hides: those that are UAS and have a fallback.
use usbip_macos.Prelude.{
  ℕ, ◌+◌, ◌-◌, ◌≤◌, ◌≡◌, ◌⊎◌, inl, inr, refl, sym, subst, true, Bool-cases, ◌&&◌, not, leb, ◌==◌,
  ==→eq, List, [], ◌∷◌, arith,
}
use usbip_macos.Hci.Endpoints.{at}
use usbip_macos.Hci.Uas.{Group, is_uas, fallback, hidden_of}

abbrev pub In : Group → List Group → Type 0
In g [] = ⊥
In g (h ∷ gs) = (g ≡ h) ⊎ In g gs

-- An interface descriptor of mass storage (8), SCSI (6), UAS (0x62).
abbrev pub Uas : List ℕ → Group → Type 0
Uas config g =
    (9 ≤ g.end - g.start)
    × (at config (g.start + 5) ≡ 0x08)
    × (at config (g.start + 6) ≡ 0x06)
    × (at config (g.start + 7) ≡ 0x62)

-- Another setting of the same interface, which is not UAS.
abbrev pub HasFallback : List ℕ → List Group → Group → Type 0
HasFallback config groups g =
    (f : Group) × In f groups
    × (9 ≤ f.end - f.start)
    × (at config (f.start + 2) ≡ at config (g.start + 2))
    × ¬ Uas config f

is_uas-Uas : (config : List ℕ) (g : Group) → is_uas config g ≡ true → Uas config g
unfolding is_uas
is_uas-Uas config g h = (
  ground (arith, h),
  ==→eq _ _ (ground (arith, h)),
  ==→eq _ _ (ground (arith, h)),
  ==→eq _ _ (ground (arith, h)),
)

Uas-is_uas : (config : List ℕ) (g : Group) → Uas config g → is_uas config g ≡ true
unfolding is_uas
Uas-is_uas config g (a, b, c, d) = ground (arith, a, b, c, d)

fallback-HasFallback :
    (config : List ℕ) (groups : List Group) (g : Group)
    → fallback config groups (at config (g.start + 2)) ≡ true
    → HasFallback config groups g
unfolding fallback
fallback-HasFallback config [] g h = absurd (ground (arith, h))
fallback-HasFallback config (f ∷ fs) g h =
    elim (Bool-cases (
      leb 9 (f.end - f.start)
      && (at config (f.start + 2) == at config (g.start + 2) && not (is_uas config f)))) [
        | inl hit ↦ (
          f,
          inl refl,
          ground (arith, hit),
          ==→eq _ _ (ground (arith, hit)),
          λ u. ground (arith, hit, Uas-is_uas config f u),
        )
        | inr miss ↦
            let (x, i, a, b, c) = fallback-HasFallback config fs g (ground (arith, h, miss)) in
            (x, inr i, a, b, c)
      ]

HasFallback-fallback :
    (config : List ℕ) (groups : List Group) (g : Group)
    → HasFallback config groups g
    → fallback config groups (at config (g.start + 2)) ≡ true
unfolding fallback
HasFallback-fallback config [] g (x, i, a, b, c) = absurd i
HasFallback-fallback config (f ∷ fs) g (x, inl e, a, b, c) = elim (Bool-cases (is_uas config f)) [
  | inl uas ↦ absurd (c (subst (λ (t : Group). Uas config t) (sym e) (is_uas-Uas config f uas)))
  | inr other ↦
      let long : 9 ≤ f.end - f.start = subst (λ (t : Group). 9 ≤ t.end - t.start) e a in
      let same = subst (λ (t : Group). at config (t.start + 2) ≡ at config (g.start + 2)) e b in
      ground (arith, long, same, other)
]
HasFallback-fallback config (f ∷ fs) g (x, inr i, a, b, c) =
    ground (arith, HasFallback-fallback config fs g (x, i, a, b, c))

-- The hidden ones are UAS, have a fallback, and are among those that are tested.
pub hidden_of-only :
    (config : List ℕ) (groups gs : List Group) (g : Group)
    → In g (hidden_of config groups gs)
    → In g gs × Uas config g × HasFallback config groups g
unfolding hidden_of
hidden_of-only config groups [] g i = absurd i
hidden_of-only config groups (h ∷ gs) g i =
    elim (Bool-cases (is_uas config h && fallback config groups (at config (h.start + 2)))) [
      | inr keeps ↦
          let (there, u, f) = hidden_of-only config groups gs g (rw (keeps, hidden_of) at i) in
          (inr there, u, f)
      | inl hides ↦ chosen hides (rw (hides, hidden_of) at i) (hidden_of-only config groups gs g)
    ]
  where
    chosen :
        (is_uas config h && fallback config groups (at config (h.start + 2))) ≡ true
        → (g ≡ h) ⊎ In g (hidden_of config groups gs)
        → (In g (hidden_of config groups gs) → In g gs × Uas config g × HasFallback config groups g)
        → In g (h ∷ gs) × Uas config g × HasFallback config groups g
    chosen hides (inl e) ih = (
      inl e,
      subst (Uas config) (sym e) (is_uas-Uas config h (ground (arith, hides))),
      subst (HasFallback config groups) (sym e)
          (fallback-HasFallback config groups h (ground (arith, hides))),
    )
    chosen hides (inr j) ih = let (there, u, f) = ih j in (inr there, u, f)

-- Every one that is UAS and has a fallback is hidden.
pub hidden_of-all :
    (config : List ℕ) (groups gs : List Group) (g : Group)
    → In g gs
    → Uas config g
    → HasFallback config groups g
    → In g (hidden_of config groups gs)
unfolding hidden_of
hidden_of-all config groups [] g i u f = absurd i
hidden_of-all config groups (h ∷ gs) g (inl e) u f =
    let uas = Uas-is_uas config h (subst (Uas config) e u) in
    let back = HasFallback-fallback config groups h (subst (HasFallback config groups) e f) in
    rw (uas, back) (inl e)
hidden_of-all config groups (h ∷ gs) g (inr i) u f =
    elim (Bool-cases (is_uas config h && fallback config groups (at config (h.start + 2)))) [
      | inl hides ↦ rw hides (inr (hidden_of-all config groups gs g i u f))
      | inr keeps ↦ rw keeps (hidden_of-all config groups gs g i u f)
    ]
