-- ===== src/Client/Seqnum.antt =====
-- `next_seqnum` of src/client.rs: the number is fresh, and one is found while any is left.
use usbip_macos.Prelude.{
  ℕ, zero, suc, ◌+◌, ◌%◌, ◌^◌, ◌<◌, ◌≤◌, ◌≡◌, ◌≢◌, inl, inr, refl, ap, ◌∙◌, List, [], ◌∷◌, ◌++◌,
  length, length-append, arith, ◌==◌, if◌then◌else◌, Bool, true, false, ◌||◌, not, Option, none,
  some, Bool-cases, Option-cases,
}
use usbip_macos.Prelude.Maps.{contains_key, keys}
use usbip_macos.Client.State.{State}
use usbip_macos.Client.Session.{is_free, next_seqnum_loop, next_seqnum}

elem : ℕ → List ℕ → Bool
elem x [] = false
elem x (y ∷ ys) = y == x || elem x ys

without : ℕ → List ℕ → List ℕ
without x [] = []
without x (y ∷ ys) = let rest = without x ys in if y == x then rest else y ∷ rest

elem-without : (x y : ℕ) (ys : List ℕ) → y ≢ x → elem y (without x ys) ≡ elem y ys
unfolding elem without
elem-without x y [] h = refl
elem-without x y (z ∷ zs) h = ground (arith, elem-without x y zs h)

length-without-le : (x : ℕ) (ys : List ℕ) → length (without x ys) ≤ length ys
unfolding without
length-without-le x [] = omega arith
length-without-le x (y ∷ ys) = ground (arith, length-without-le x ys)

length-without-lt : (x : ℕ) (ys : List ℕ) → elem x ys ≡ true → length (without x ys) < length ys
unfolding elem without
length-without-lt x [] h = cc
length-without-lt x (y ∷ ys) h = ground (arith, length-without-lt x ys, length-without-le x ys)

-- The loop of `next_seqnum` over a list of numbers in use.
find_free : ℕ → List ℕ → ℕ → Option ℕ
find_free zero used c = none
find_free (suc fuel) used c =
    let c' = (c + 1) % 2 ^ 32 in
    let more = find_free fuel used c' in if elem c' used then more else some c'

-- A number that none of the next candidates is may as well be free.
find_free-without :
    (fuel : ℕ) (used : List ℕ) (x d c : ℕ)
    → x < 2 ^ 32
    → c ≡ (x + d) % 2 ^ 32
    → d + fuel < 2 ^ 32
    → find_free fuel (without x used) c ≡ find_free fuel used c
unfolding find_free
find_free-without zero used x d c hx hc hd = refl
find_free-without (suc fuel) used x d c hx hc hd =
    let c' = (c + 1) % 2 ^ 32 in
    rw (
      elem-without x c' used (omega arith),
      find_free-without fuel used x (d + 1) c' hx (omega arith) (omega arith),
    )

find_free_total :
    (fuel : ℕ) (used : List ℕ) (c : ℕ)
    → length used < fuel
    → fuel ≤ 2 ^ 32
    → (n : ℕ) × (find_free fuel used c ≡ some n)
unfolding find_free
find_free_total zero used c h hf = absurd (omega arith)
find_free_total (suc fuel) used c h hf =
    let c' = (c + 1) % 2 ^ 32 in
    elim (Bool-cases (elem c' used)) [
      | inr free ↦ (c', rw free)
      | inl taken ↦
          let (n, e) =
            find_free_total fuel (without c' used) c'
              (omega (arith, length-without-lt c' used taken)) (omega arith) in
          (
            n,
            rw
                (
                  taken,
                  ← find_free-without fuel used c' 0 c' (omega arith) (omega arith) (omega arith),
                )
                e,
          )
    ]

-- The numbers that `next_seqnum` passes over.
used : State → List ℕ
used st = 0 ∷ (keys st.submits ++ keys st.unlinks)

module _ {ℓ} {V : Type ℓ} where
  contains_key-elem :
      (k : ℕ) (m : List (ℕ × V)) (rest : List ℕ)
      → elem k (keys m ++ rest) ≡ (contains_key k m || elem k rest)
  unfolding elem contains_key
  contains_key-elem k [] rest = refl
  contains_key-elem k ((j, v) ∷ m) rest = ground (arith, contains_key-elem k m rest)

  length-keys : (m : List (ℕ × V)) → length (keys m) ≡ length m
  length-keys [] = refl
  length-keys ((j, v) ∷ m) = ap suc (length-keys m)

  elem-keys : (k : ℕ) (m : List (ℕ × V)) → elem k (keys m) ≡ contains_key k m
  unfolding elem contains_key
  elem-keys k [] = refl
  elem-keys k ((j, v) ∷ m) = ground (arith, elem-keys k m)

is_free-used : (st : State) (c : ℕ) → is_free st c ≡ not (elem c (used st))
unfolding is_free used elem
is_free-used st c =
    rw (contains_key-elem c st.submits (keys st.unlinks), elem-keys c st.unlinks) (ground arith)

loop-find_free :
    (fuel : ℕ) (st : State) (c : ℕ) → next_seqnum_loop fuel st c ≡ find_free fuel (used st) c
unfolding next_seqnum_loop find_free
loop-find_free zero st c = refl
loop-find_free (suc fuel) st c =
    let c' = (c + 1) % 2 ^ 32 in rw (is_free-used st c', loop-find_free fuel st c') (ground arith)

found :
    (st : State) (c n : ℕ)
    → is_free st c ≡ true
    → c < 2 ^ 32
    → some c ≡ some n
    → (is_free st n ≡ true) × (n < 2 ^ 32)
found st c n free small e = ground arith

loop-fresh :
    (fuel : ℕ) (st : State) (c n : ℕ)
    → next_seqnum_loop fuel st c ≡ some n
    → (is_free st n ≡ true) × (n < 2 ^ 32)
unfolding next_seqnum_loop
loop-fresh zero st c n e = cc
loop-fresh (suc fuel) st c n e =
    let c' = (c + 1) % 2 ^ 32 in
    elim (Bool-cases (is_free st c')) [
      | inl free ↦ found st c' n free (omega arith) (rw free at e)
      | inr taken ↦ loop-fresh fuel st c' n (rw taken at e)
    ]

-- The seqnum is neither 0 nor in use, by a transfer or by an unlink, and it becomes the counter.
pub next_seqnum-IsFresh :
    (st st' : State) (n : ℕ)
    → next_seqnum st ≡ some (n, st')
    → (n ≢ 0)
      × (n < 2 ^ 32)
      × (contains_key n st.submits ≡ false)
      × (contains_key n st.unlinks ≡ false)
      × (st' ≡ record st { next_seqnum = n })
unfolding next_seqnum
next_seqnum-IsFresh st st' n e = elim (Option-cases (next_seqnum_loop (2 ^ 32) st st.next_seqnum)) [
  | inl never ↦ ground arith
  | inr (c, p) ↦
      let fresh = loop-fresh (2 ^ 32) st st.next_seqnum c p in
      unfold is_free in ground (arith, fresh.0, fresh.1)
]

-- While fewer than 2^32 - 1 seqnums are in use, the loop of `next_seqnum` ends.
pub next_seqnum_total :
    (st : State)
    → length st.submits + length st.unlinks + 1 < 2 ^ 32
    → (n : ℕ) × (next_seqnum st ≡ some (n, record st { next_seqnum = n }))
unfolding next_seqnum
next_seqnum_total st h =
    let (n, e) =
      find_free_total (2 ^ 32) (used st) st.next_seqnum
        (unfold used in
          omega (
            arith,
            length-append (keys st.submits) (keys st.unlinks),
            length-keys st.submits,
            length-keys st.unlinks,
          ))
        (omega arith) in
    (n, rw (loop-find_free (2 ^ 32) st st.next_seqnum ∙ e, next_seqnum))
