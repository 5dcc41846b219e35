-- ===== src/Hci/UasLengths.antt =====
-- The lengths of what `hide_uas` of src/hci.rs copies, and the total length that it writes.
use usbip_macos.Prelude.{
  ℕ, ◌+◌, ◌-◌, ◌*◌, ◌/◌, ◌%◌, ◌^◌, ◌≤◌, ◌≡◌, refl, inl, inr, ◌&&◌, List, [], ◌∷◌, Bool-cases,
  length, length-append, length-take, length-drop, take, drop, arith,
}
use usbip_macos.Hci.Messages.{le_bytes}
use usbip_macos.Hci.Endpoints.{at, u16_le}
use usbip_macos.Hci.Uas.{Group, is_uas, fallback, hidden_of, copy_rest, set_total}
use usbip_macos.Hci.UasRanges.{Ordered}

-- How many bytes the ranges cover.
pub covered : List Group → ℕ
covered [] = 0
covered (g ∷ gs) = (g.end - g.start) + covered gs

pub Ordered-end : (lo hi : ℕ) (gs : List Group) → Ordered lo gs hi → lo ≤ hi
Ordered-end lo hi [] o = o
Ordered-end lo hi (g ∷ gs) o = omega (arith, o.0, o.1.0, Ordered-end g.end hi gs o.1.1)

-- What the ranges cover is left out, and nothing else.
pub length-copy_rest :
    (config : List ℕ) (gs : List Group) (from : ℕ)
    → Ordered from gs (length config)
    → length (copy_rest config gs from) + (covered gs + from) ≡ length config
unfolding copy_rest covered
length-copy_rest config [] from o = omega (arith, o, length-drop from config)
length-copy_rest config (g ∷ gs) from o = omega (
  arith,
  o.0,
  o.1.0,
  length-append (take (g.start - from) (drop from config)) (copy_rest config gs g.end),
  length-take (g.start - from) (drop from config),
  length-drop from config,
  length-copy_rest config gs g.end o.1.1,
  Ordered-end g.end (length config) gs o.1.1,
)

-- A hidden range is that of an interface descriptor, of 9 bytes or more.
abbrev pub CoversNine : List Group → Type 0
CoversNine [] = Unit
CoversNine (g ∷ gs) = 9 ≤ covered (g ∷ gs)

pub hidden_of-CoversNine :
    (config : List ℕ) (groups gs : List Group) → CoversNine (hidden_of config groups gs)
unfolding hidden_of covered is_uas
hidden_of-CoversNine config groups [] = _
hidden_of-CoversNine config groups (g ∷ gs) =
    elim (Bool-cases (is_uas config g && fallback config groups (at config (g.start + 2)))) [
      | inl hides ↦ rw hides (ground (arith, hides))
      | inr keeps ↦ rw keeps (hidden_of-CoversNine config groups gs)
    ]

-- What stands before the first hidden range is left.
pub length-copy_first :
    (config : List ℕ) (g : Group) (gs : List Group)
    → g.start ≤ length config
    → g.start ≤ length (copy_rest config (g ∷ gs) 0)
unfolding copy_rest
length-copy_first config g gs h = omega (
  arith,
  h,
  length-append (take (g.start - 0) config) (copy_rest config gs g.end),
  length-take (g.start - 0) config,
)

pub length-set_total : (out : List ℕ) → 4 ≤ length out → length (set_total out) ≡ length out
unfolding set_total le_bytes
length-set_total (a ∷ (b ∷ (c ∷ (d ∷ rest)))) h = refl
length-set_total (a ∷ (b ∷ (c ∷ []))) h = absurd (omega arith)
length-set_total (a ∷ (b ∷ [])) h = absurd (omega arith)
length-set_total (a ∷ []) h = absurd (omega arith)
length-set_total [] h = absurd (omega arith)

pub front-set_total : (out : List ℕ) → 4 ≤ length out → take 2 (set_total out) ≡ take 2 out
unfolding set_total le_bytes
front-set_total (a ∷ (b ∷ rest)) h = refl
front-set_total (a ∷ []) h = absurd (omega arith)
front-set_total [] h = absurd (omega arith)

pub back-set_total : (out : List ℕ) → 4 ≤ length out → drop 4 (set_total out) ≡ drop 4 out
unfolding set_total le_bytes
back-set_total (a ∷ (b ∷ rest)) h = refl
back-set_total (a ∷ []) h = absurd (omega arith)
back-set_total [] h = absurd (omega arith)

pub total-set_total :
    (out : List ℕ)
    → 4 ≤ length out
    → u16_le (at (set_total out) 2) (at (set_total out) 3) ≡ length out % 2 ^ 16
unfolding set_total le_bytes
total-set_total (a ∷ (b ∷ (c ∷ (d ∷ rest)))) h = joined (length (a ∷ b ∷ c ∷ d ∷ rest))
  where
    joined : (n : ℕ) → n % 2 ^ 16 % 256 + 256 * (n % 2 ^ 16 / 256 % 256) ≡ n % 2 ^ 16
    joined n = omega arith
total-set_total (a ∷ (b ∷ (c ∷ []))) h = absurd (omega arith)
total-set_total (a ∷ (b ∷ [])) h = absurd (omega arith)
total-set_total (a ∷ []) h = absurd (omega arith)
total-set_total [] h = absurd (omega arith)
