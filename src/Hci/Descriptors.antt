-- ===== src/Hci/Descriptors.antt =====
-- The endpoint parser of src/hci.rs: it ends on every input, and finds the first endpoint
-- descriptor of a configuration.
use usbip_macos.Prelude.{
  ℕ, zero, suc, ◌+◌, ◌-◌, ◌≤◌, ◌<◌, min, ◌≡◌, refl, ap, ◌∙◌, inl, inr, true, false, ◌&&◌, List, [],
  ◌∷◌, Option, none, some, Bool-cases, length, take, drop, leb, ◌==◌, ==→eq, le→leb, arith,
}
use usbip_macos.Hci.Endpoints.{
  EndpointInfo, at, u16_le, slice, is_configuration, parse_endpoint, find_endpoint, parse,
}

-- What the loop finds.
abbrev Found : List ℕ → ℕ → Option ℕ → Type 0
Found desc total none = Unit
Found desc total (some j) = (j + 2 ≤ total) × (at desc (j + 1) ≡ 5)

-- The loop ends when the fuel is more than the bytes that are left.
find_endpoint_total :
    (fuel : ℕ) (desc : List ℕ) (total i : ℕ)
    → total < fuel + i
    → 1 ≤ fuel
    → (r : Option ℕ) × (find_endpoint fuel desc total i ≡ some r) × Found desc total r
unfolding find_endpoint
find_endpoint_total zero desc total i h p = absurd (omega arith)
find_endpoint_total (suc fuel) desc total i h p =
    elim (Bool-cases (leb (i + 2) total && leb 2 (at desc i))) [
      | inr stop ↦ (none, rw stop, _)
      | inl go ↦ elim (Bool-cases (at desc (i + 1) == 5)) [
        | inl hit ↦ (some i, rw (go, hit), (ground (arith, go), ==→eq (at desc (i + 1)) 5 hit))
        | inr miss ↦
            let (r, eq, found) =
              find_endpoint_total fuel desc total (i + at desc i) (ground (arith, go, h))
                (ground (arith, go, h)) in
            (r, rw (go, miss) eq, found)
      ]
    ]

at-drop : (desc : List ℕ) (i k j : ℕ) → j ≡ i + k → at (drop i desc) k ≡ at desc j
at-drop desc zero k j e = ap (at desc) (omega (arith, e))
at-drop [] (suc i) k j e = refl
at-drop (x ∷ desc) (suc i) k zero e = absurd (omega (arith, e))
at-drop (x ∷ desc) (suc i) k (suc j) e = at-drop desc i k j (omega (arith, e))

at-take : (n : ℕ) (desc : List ℕ) (k : ℕ) → k < n → at (take n desc) k ≡ at desc k
at-take zero desc k h = absurd (omega arith)
at-take (suc n) [] k h = refl
at-take (suc n) (x ∷ desc) zero h = refl
at-take (suc n) (x ∷ desc) (suc k) h = at-take n desc k (omega arith)

parse-plain :
    (fuel : ℕ) (s : List ℕ)
    → is_configuration s ≡ false
    → parse (suc fuel) s ≡ some (parse_endpoint s)
unfolding parse
parse-plain fuel s h = rw h

-- The slice that the parser enters is no configuration.
endpoint-is_configuration : (s : List ℕ) → at s 1 ≡ 5 → is_configuration s ≡ false
unfolding is_configuration
endpoint-is_configuration s h = ground (arith, h)

unfoldable pub total_of : List ℕ → ℕ
total_of desc = min (u16_le (at desc 2) (at desc 3)) (length desc)

total-lt : (desc : List ℕ) → total_of desc < suc (length desc) + at desc 0
unfolding total_of
total-lt desc = omega arith

pub parse-found :
    (fuel i : ℕ) (desc : List ℕ)
    → is_configuration desc ≡ true
    → find_endpoint (suc (length desc)) desc (total_of desc) (at desc 0) ≡ some (some i)
    → i + 2 ≤ total_of desc
    → at desc (i + 1) ≡ 5
    → parse (suc (suc fuel)) desc ≡ some (parse_endpoint (take (total_of desc - i) (drop i desc)))
unfolding parse slice total_of
parse-found fuel i desc c f h five =
    rw
      (
        c,
        f,
        le→leb i (total_of desc) (omega (arith, h)),
        le→leb (total_of desc) (length desc) (omega arith),
      )
      (parse-plain fuel s (
        endpoint-is_configuration s (
          at-take (total_of desc - i) (drop i desc) 1 (omega (arith, h))
          ∙ (at-drop desc i 1 (i + 1) (omega arith) ∙ five))))
  where
    s : List ℕ
    s = take (total_of desc - i) (drop i desc)

parse-absent :
    (fuel : ℕ) (desc : List ℕ)
    → is_configuration desc ≡ true
    → find_endpoint (suc (length desc)) desc (total_of desc) (at desc 0) ≡ some none
    → parse (suc fuel) desc ≡ some none
unfolding parse total_of
parse-absent fuel desc c f = rw (c, f)

-- Two rounds of the parser are enough for every input: it never runs out of fuel.
pub parse_total :
    (fuel : ℕ) (desc : List ℕ) → (r : Option EndpointInfo) × (parse (suc (suc fuel)) desc ≡ some r)
parse_total fuel desc = elim (Bool-cases (is_configuration desc)) [
  | inr plain ↦ (parse_endpoint desc, parse-plain (suc fuel) desc plain)
  | inl c ↦ found c (
      find_endpoint_total (suc (length desc)) desc (total_of desc) (at desc 0) (total-lt desc)
        (omega arith))
]
  where
    found :
        is_configuration desc ≡ true
        → (r : Option ℕ) × (find_endpoint (suc (length desc)) desc (total_of desc) (at desc 0)
            ≡ some r)
          × Found desc (total_of desc) r
        → (r : Option EndpointInfo) × (parse (suc (suc fuel)) desc ≡ some r)
    found c (none, e, u) = (none, parse-absent (suc fuel) desc c e)
    found c (some i, e, (h, five)) = (
      parse_endpoint (take (total_of desc - i) (drop i desc)),
      parse-found fuel i desc c e h five,
    )
