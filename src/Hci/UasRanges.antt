-- ===== src/Hci/UasRanges.antt =====
-- The byte ranges of `hide_uas` in src/hci.rs: they are in order and inside the descriptor, so that
-- every slice that is copied exists, and what is left out is what the ranges cover.
use usbip_macos.Prelude.{
  ℕ, zero, suc, ◌+◌, ◌≤◌, ◌<◌, ◌≡◌, inl, inr, ◌&&◌, ◌||◌, List, [], ◌∷◌, ◌++◌, Option, none, some,
  Bool-cases, length, ltb, ◌==◌, arith,
}
use usbip_macos.Hci.Endpoints.{at}
use usbip_macos.Hci.Uas.{
  Group, extend_last, next_groups, collect, is_uas, fallback, hidden_of, hide,
}

-- The ranges follow each other between two offsets.
abbrev pub Ordered : ℕ → List Group → ℕ → Type 0
Ordered lo [] hi = lo ≤ hi
Ordered lo (g ∷ gs) hi = (lo ≤ g.start) × ((g.start ≤ g.end) × Ordered g.end gs hi)

Ordered-le : (lo hi : ℕ) (gs : List Group) → Ordered lo gs hi → lo ≤ hi
Ordered-le lo hi [] o = o
Ordered-le lo hi (g ∷ gs) o = omega (arith, o.0, o.1.0, Ordered-le g.end hi gs o.1.1)

Ordered-append :
    (lo i e : ℕ) (gs : List Group)
    → Ordered lo gs i
    → i ≤ e
    → (s : ℕ) → i ≤ s
    → s ≤ e
    → Ordered lo (gs ++ record { start = s; end = e } ∷ []) e
Ordered-append lo i e [] o h s hi he = (omega (arith, o, hi), (he, omega arith))
Ordered-append lo i e (g ∷ gs) o h s hi he =
    (o.0, (o.1.0, Ordered-append g.end i e gs o.1.1 h s hi he))

extend_last-Ordered :
    (lo i e : ℕ) (gs : List Group) → Ordered lo gs i → i ≤ e → Ordered lo (extend_last e gs) e
unfolding extend_last
extend_last-Ordered lo i e [] o h = omega (arith, o, h)
extend_last-Ordered lo i e (g ∷ []) o h = elim (Bool-cases (g.start == g.end)) [
  | inl empty ↦ rw empty (o.0, (o.1.0, omega (arith, o.1.1, h)))
  | inr filled ↦ rw filled (o.0, (omega (arith, o.1.0, o.1.1, h), omega arith))
]
extend_last-Ordered lo i e (g ∷ (k ∷ gs)) o h =
    (o.0, (o.1.0, extend_last-Ordered g.end i e (k ∷ gs) o.1.1 h))

Ordered-weaken : (lo i e : ℕ) (gs : List Group) → Ordered lo gs i → i ≤ e → Ordered lo gs e
Ordered-weaken lo i e [] o h = omega (arith, o, h)
Ordered-weaken lo i e (g ∷ gs) o h = (o.0, (o.1.0, Ordered-weaken g.end i e gs o.1.1 h))

next_groups-Ordered :
    (config : List ℕ) (lo i : ℕ) (gs : List Group)
    → Ordered lo gs i
    → Ordered lo (next_groups config gs i) (i + at config i)
unfolding next_groups
next_groups-Ordered config lo i gs o = elim (Bool-cases (at config (i + 1) == 4)) [
  | inl interface ↦
      rw interface
        (Ordered-append lo i (i + at config i) gs o (omega arith) i (omega arith) (omega arith))
  | inr other ↦ elim (Bool-cases (at config (i + 1) == 0x0b)) [
    | inl association ↦
        rw (other, association)
          (Ordered-weaken lo i (i + at config i) (gs ++ record { start = i; end = i } ∷ [])
            (Ordered-append lo i i gs o (omega arith) i (omega arith) (omega arith)) (omega arith))
    | inr rest ↦ rw (other, rest) (extend_last-Ordered lo i (i + at config i) gs o (omega arith))
  ]
]

-- What the loop ends with: a malformed descriptor, or ranges in order.
abbrev pub Collected : ℕ → ℕ → Option (List Group) → Type 0
Collected lo hi none = Unit
Collected lo hi (some gs) = Ordered lo gs hi

pub collect-Ordered :
    (fuel : ℕ) (config : List ℕ) (lo i : ℕ) (gs : List Group)
    → Ordered lo gs i
    → i ≤ length config
    → length config < fuel + i
    → (r : Option (List Group)) × (collect fuel config gs i ≡ some r)
      × Collected lo (length config) r
unfolding collect
collect-Ordered zero config lo i gs o h f = absurd (omega arith)
collect-Ordered (suc fuel) config lo i gs o h f = elim (Bool-cases (ltb i (length config))) [
  | inr stop ↦ (some gs, rw stop, Ordered-weaken lo i (length config) gs o h)
  | inl go ↦ elim (Bool-cases (ltb (at config i) 2 || ltb (length config) (i + at config i))) [
    | inl bad ↦ (none, rw (go, bad), _)
    | inr good ↦
        let (r, eq, v) =
          collect-Ordered fuel config lo (i + at config i) (next_groups config gs i)
            (next_groups-Ordered config lo i gs o) (ground (arith, good))
            (ground (arith, good, f)) in
        (r, rw (go, good) eq, v)
  ]
]

pub Ordered-lower :
    (lo lo' hi : ℕ) (gs : List Group) → Ordered lo gs hi → lo' ≤ lo → Ordered lo' gs hi
Ordered-lower lo lo' hi [] o h = omega (arith, o, h)
Ordered-lower lo lo' hi (g ∷ gs) o h = (omega (arith, o.0, h), o.1)

pub hidden_of-Ordered :
    (config : List ℕ) (groups gs : List Group) (lo hi : ℕ)
    → Ordered lo gs hi
    → Ordered lo (hidden_of config groups gs) hi
unfolding hidden_of
hidden_of-Ordered config groups [] lo hi o = o
hidden_of-Ordered config groups (g ∷ gs) lo hi o =
    elim (Bool-cases (is_uas config g && fallback config groups (at config (g.start + 2)))) [
      | inl hide ↦ rw hide (o.0, (o.1.0, hidden_of-Ordered config groups gs g.end hi o.1.1))
      | inr keep ↦ rw keep (
          hidden_of-Ordered config groups gs lo hi
            (Ordered-lower g.end lo hi gs o.1.1 (omega (arith, o.0, o.1.0))))
    ]
