-- ===== src/Hci/AddressSets.antt =====
-- The address pool of src/hci.rs implements a set of addresses.
use usbip_macos.Prelude.{
  ℕ, zero, suc, ◌+◌, ◌-◌, ◌*◌, ◌^◌, ◌≤◌, ◌<◌, max, ◌≡◌, ◌≢◌, refl, sym, ◌∙◌, ◌↔◌, subst, ◌⊎◌, inl,
  inr, true, false, eq→==, ne→==, Option, none, some, Option-cases, lt→ltb, le→ltb, ◌==◌, bit_and,
  bit_or, dec_lt, ℕ_discrete, arith,
}
use usbip_macos.Prelude.Bits.{pow-pos}
use usbip_macos.Prelude.Binary.{
  bit, bit-or, bit-and, bit-lt, bit-pow_same, bit-pow_other, bit-hole_same, bit-hole_other,
  bit-high, bits-injective, bit_and-bit,
}
use usbip_macos.Hci.Addresses.{AddressPool, find_address, allocate, release}

factor_zero : (a k : ℕ) → a * k ≡ 0 → 1 ≤ k → a ≡ 0
factor_zero zero k e h = refl
factor_zero (suc a) k e h = absurd (omega (arith, e, h))

-- The test on a candidate, and what either answer says of its bit.
test_cases :
    (used a : ℕ)
    → (((bit_and used (1 * 2 ^ a) == 0) ≡ true) × (bit a used ≡ 0))
      ⊎ (((bit_and used (1 * 2 ^ a) == 0) ≡ false) × (bit a used ≡ 1))
test_cases used a = elim (dec_lt 0 (bit a used)) [
  | yes h ↦ inr (
    ne→== (bit_and used (1 * 2 ^ a)) 0 (λ e. absurd (
        omega
          (arith, h, factor_zero (bit a used) (2 ^ a) (sym (bit_and-bit used a) ∙ e) (pow-pos a)))),
    omega (arith, bit-lt a used, h),
  )
  | no h ↦
      let clear : bit a used ≡ 0 = omega (arith, h) in
      inl (eq→== (bit_and used (1 * 2 ^ a)) 0 (bit_and-bit used a ∙ rw clear (omega arith)), clear)
]

-- The lowest of the `count` addresses from `a` on that is free.
pub record IsLowest (used a count x : ℕ) : Type 0 where
  pub from : a ≤ x
  pub below : x < a + count
  pub free : bit x used ≡ 0
  pub taken : (i : ℕ) → a ≤ i → i < x → bit i used ≡ 1

find_address-some :
    (used a count x : ℕ) → find_address used a count ≡ some x → IsLowest used a count x
unfolding find_address
find_address-some used a zero x e = absurd (ground arith)
find_address-some used a (suc count) x e = elim (test_cases used a) [
  | inl (t, free) ↦
      let same : a ≡ x = (let h = rw t at e in ground (arith, h)) in
      subst (IsLowest used a (suc count)) same (record {
        from = omega arith;
        below = omega arith;
        free = free;
        taken = λ i h l. absurd (omega (arith, h, l));
      })
  | inr (t, taken) ↦
      let r = find_address-some used (suc a) count x (rw t at e) in
      record {
        from = omega (arith, r.from);
        below = omega (arith, r.below);
        free = r.free;
        taken = λ i h l. elim (ℕ_discrete i a) [
          | yes same ↦ rw same taken
          | no other ↦ r.taken i (omega (arith, other, h)) l
        ];
      }
]

find_address-none :
    (used a count : ℕ)
    → find_address used a count ≡ none
    → (i : ℕ) → a ≤ i
    → i < a + count
    → bit i used ≡ 1
unfolding find_address
find_address-none used a zero e i h l = absurd (omega arith)
find_address-none used a (suc count) e i h l = elim (test_cases used a) [
  | inl (t, free) ↦ absurd (let none_found = rw t at e in ground (arith, none_found))
  | inr (t, taken) ↦ elim (ℕ_discrete i a) [
    | yes same ↦ rw same taken
    | no other ↦
        find_address-none used (suc a) count (rw t at e) i (omega (arith, other)) (omega arith)
  ]
]

-- Address `x` was the lowest free one in 1..=127; it is used now, and no other bit has changed.
pub record Allocates (pool : AddressPool) (r : ℕ × AddressPool) : Type 0 where
  pub lowest : IsLowest pool.used 1 127 r.0
  pub set : bit r.0 r.1.used ≡ 1
  pub others : (i : ℕ) → i ≢ r.0 → bit i r.1.used ≡ bit i pool.used

abbrev IfSome : (ℕ × AddressPool → Type 0) → Option (ℕ × AddressPool) → Type 0
IfSome P none = Unit
IfSome P (some r) = P r

set_bit-Allocates :
    (pool : AddressPool) (x : ℕ)
    → IsLowest pool.used 1 127 x
    → Allocates pool (x, record { used = bit_or pool.used (1 * 2 ^ x) })
set_bit-Allocates pool x v = record {
  lowest = v;
  set = rw (bit-or x pool.used (1 * 2 ^ x), bit-pow_same x, v.free) (omega arith);
  others = λ i n. rw (bit-or i pool.used (1 * 2 ^ x), bit-pow_other i x n) (omega arith);
}

-- An address that is allocated was the lowest in 1..=127 that was free; it is used then, and no
-- other address changes.
pub allocate-Allocates :
    (pool pool' : AddressPool) (x : ℕ) → allocate pool ≡ some (x, pool') → Allocates pool (x, pool')
unfolding allocate
allocate-Allocates pool pool' x e = elim (Option-cases (find_address pool.used 1 127)) [
  | inl nothing ↦ absurd (let h = rw (nothing, allocate) at e in ground (arith, h))
  | inr (y, found) ↦
      subst (IfSome (Allocates pool)) (rw (found, allocate) at e)
        (set_bit-Allocates pool y (find_address-some pool.used 1 127 y found))
]

-- No address is allocated exactly when all of 1..=127 are used.
pub allocate-none :
    (pool : AddressPool)
    → (allocate pool ≡ none) ↔ ((i : ℕ) → 1 ≤ i → i < 128 → bit i pool.used ≡ 1)
unfolding allocate
allocate-none pool = (
  λ e. elim (Option-cases (find_address pool.used 1 127)) [
    | inl nothing ↦ find_address-none pool.used 1 127 nothing
    | inr (y, found) ↦ absurd (let h = rw (found, allocate) at e in ground (arith, h))
  ],
  λ full. elim (Option-cases (find_address pool.used 1 127)) [
    | inl nothing ↦ rw (nothing, allocate)
    | inr (y, found) ↦
        let r = find_address-some pool.used 1 127 y found in
        absurd (omega (arith, r.free, full y r.from r.below))
  ],
)

release_eq :
    (pool : AddressPool) (x : ℕ)
    → x < 128
    → (release x pool).used ≡ bit_and pool.used (2 ^ 128 - 1 - 1 * 2 ^ x)
unfolding release
release_eq pool x h = rw (lt→ltb x 128 h)

release-none : (pool : AddressPool) (x : ℕ) → 128 ≤ x → release x pool ≡ pool
unfolding release
release-none pool x h = rw (le→ltb x 128 h)

-- Releasing an address below 128 frees it and no other address; any other release does nothing.
pub release-frees :
    (pool : AddressPool) (x : ℕ)
    → (x < 128
        → (bit x (release x pool).used ≡ 0)
          × ((i : ℕ) → i < 128 → i ≢ x → bit i (release x pool).used ≡ bit i pool.used))
      × (128 ≤ x → release x pool ≡ pool)
release-frees pool x = (
  λ h. (
    rw (release_eq pool x h, bit-and x pool.used (2 ^ 128 - 1 - 1 * 2 ^ x), bit-hole_same 128 x h)
        (omega arith),
    λ i l n.
        rw
          (
            release_eq pool x h,
            bit-and i pool.used (2 ^ 128 - 1 - 1 * 2 ^ x),
            bit-hole_other 128 x i h l n,
          )
          (omega (arith, bit-lt i pool.used)),
  ),
  λ h. release-none pool x h,
)

-- Releasing the address that was just allocated gives the pool as it was.
pub release-allocate :
    (pool pool' : AddressPool) (x : ℕ)
    → pool.used < 2 ^ 128
    → allocate pool ≡ some (x, pool')
    → release x pool' ≡ pool
release-allocate pool pool' x fits e =
    let a = allocate-Allocates pool pool' x e in
    let h : x < 128 = omega (arith, a.lowest.below) in
    pool_eq (release x pool') pool (same_bits (release x pool').used pool.used (same_bit a h))
  where
    same_bit :
        Allocates pool (x, pool')
        → x < 128
        → (i : ℕ) → bit i (release x pool').used ≡ bit i pool.used
    same_bit a h i = elim (ℕ_discrete i x) [
      | yes same ↦ rw same (omega (arith, a.lowest.free, ((release-frees pool' x).0 h).0))
      | no other ↦ elim (dec_lt i 128) [
        | yes l ↦ ((release-frees pool' x).0 h).1 i l other ∙ a.others i other
        | no high ↦
            rw
              (
                release_eq pool' x h,
                bit-and i pool'.used (2 ^ 128 - 1 - 1 * 2 ^ x),
                bit-high 128 i (2 ^ 128 - 1 - 1 * 2 ^ x) (omega arith) (omega (arith, high)),
                bit-high 128 i pool.used fits (omega (arith, high)),
              )
              (omega arith)
      ]
    ]

    pool_eq : (p q : AddressPool) → p.used ≡ q.used → p ≡ q
    pool_eq p q e = ground (arith, e)

    same_bits : (a b : ℕ) → ((i : ℕ) → bit i a ≡ bit i b) → a ≡ b
    same_bits a b h = bits-injective (max a b) a b (omega arith) (omega arith) h
