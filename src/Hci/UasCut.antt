-- ===== src/Hci/UasCut.antt =====
-- What `hide_uas` of src/hci.rs copies: the bytes whose positions lie in no hidden range, in order.
use usbip_macos.Prelude.{
  ℕ, zero, suc, ◌+◌, ◌-◌, ◌≤◌, ◌<◌, ◌≡◌, refl, sym, ap, ◌∙◌, Bool, true, false, ◌&&◌, ◌||◌, List,
  [], ◌∷◌, ◌++◌, take, drop, ltb, leb, if◌then◌else◌, arith,
}
use usbip_macos.Hci.Uas.{Group, copy_rest}
use usbip_macos.Hci.UasRanges.{Ordered}

-- Whether a position lies in one of the ranges.
abbrev pub is_inside : List Group → ℕ → Bool
is_inside [] i = false
is_inside (g ∷ gs) i = (leb g.start i && ltb i g.end) || is_inside gs i

-- The bytes, the first of which has position `i`, that lie in none of the ranges.
abbrev pub left_of : List Group → ℕ → List ℕ → List ℕ
left_of gs i [] = []
left_of gs i (b ∷ bs) =
    let rest = left_of gs (i + 1) bs in if is_inside gs i then rest else b ∷ rest

before_inside : (gs : List Group) (lo hi i : ℕ) → Ordered lo gs hi → i < lo → is_inside gs i ≡ false
before_inside [] lo hi i o h = refl
before_inside (g ∷ gs) lo hi i o h =
    ground (arith, o.0, o.1.0, before_inside gs g.end hi i o.1.1 (omega (arith, o.0, o.1.0, h)))

-- What stands before the first range stays.
left_of-copy :
    (g : Group) (gs : List Group) (lo hi n i : ℕ) (xs : List ℕ)
    → Ordered lo (g ∷ gs) hi
    → i + n ≤ g.start
    → left_of (g ∷ gs) i xs ≡ take n xs ++ left_of (g ∷ gs) (i + n) (drop n xs)
left_of-copy g gs lo hi zero i xs o h = let same : i + 0 ≡ i = omega arith in rw same refl
left_of-copy g gs lo hi (suc n) i [] o h = refl
left_of-copy g gs lo hi (suc n) i (b ∷ bs) o h =
    let outside : is_inside (g ∷ gs) i ≡ false =
      before_inside (g ∷ gs) g.start hi i (omega arith, (o.1.0, o.1.1)) (omega (arith, h)) in
    let shift : i + 1 + n ≡ i + suc n = omega arith in
    rw (outside, left_of-copy g gs lo hi n (i + 1) bs o (omega (arith, h)), shift) refl

-- A range goes.
left_of-skip :
    (g : Group) (gs : List Group) (n i : ℕ) (xs : List ℕ)
    → g.start ≤ i
    → i + n ≤ g.end
    → left_of (g ∷ gs) i xs ≡ left_of (g ∷ gs) (i + n) (drop n xs)
left_of-skip g gs zero i xs h e = let same : i + 0 ≡ i = omega arith in rw same refl
left_of-skip g gs (suc n) i [] h e = refl
left_of-skip g gs (suc n) i (b ∷ bs) h e =
    let within : is_inside (g ∷ gs) i ≡ true = ground (arith, h, e) in
    let shift : i + 1 + n ≡ i + suc n = omega arith in
    rw (within, left_of-skip g gs n (i + 1) bs (omega (arith, h)) (omega (arith, e)), shift) refl

-- A range matters no more after its end.
left_of-past :
    (g : Group) (gs : List Group) (i : ℕ) (xs : List ℕ)
    → g.end ≤ i
    → left_of (g ∷ gs) i xs ≡ left_of gs i xs
left_of-past g gs i [] h = refl
left_of-past g gs i (b ∷ bs) h =
    let out : (leb g.start i && ltb i g.end) ≡ false = ground (arith, h) in
    rw (out, left_of-past g gs (i + 1) bs (omega (arith, h))) refl

left_of-none : (i : ℕ) (xs : List ℕ) → left_of [] i xs ≡ xs
left_of-none i [] = refl
left_of-none i (b ∷ bs) = ap (λ (t : List ℕ). b ∷ t) (left_of-none (i + 1) bs)

drop-drop : (n m : ℕ) (xs : List ℕ) → drop n (drop m xs) ≡ drop (m + n) xs
drop-drop n zero xs = let same : 0 + n ≡ n = omega arith in rw same refl
drop-drop zero (suc m) [] = let same : suc m + 0 ≡ suc m = omega arith in rw same refl
drop-drop (suc n) (suc m) [] =
    let same : suc m + suc n ≡ suc (m + suc n) = omega arith in rw same refl
drop-drop n (suc m) (x ∷ xs) =
    let same : suc m + n ≡ suc (m + n) = omega arith in rw same (drop-drop n m xs)

-- What is copied are the bytes that lie in no hidden range.
pub copy_rest-left_of :
    (config : List ℕ) (gs : List Group) (from hi : ℕ)
    → Ordered from gs hi
    → copy_rest config gs from ≡ left_of gs from (drop from config)
unfolding copy_rest
copy_rest-left_of config [] from hi o = sym (left_of-none from (drop from config))
copy_rest-left_of config (g ∷ gs) from hi o =
    let xs = drop from config in
    let n = g.start - from in
    let m = g.end - g.start in
    let start : from + n ≡ g.start = omega (arith, o.0) in
    let end : g.start + m ≡ g.end = omega (arith, o.1.0) in
    let skipped : left_of (g ∷ gs) g.start (drop g.start config)
        ≡ left_of gs g.end (drop g.end config) =
      rw end at
        (left_of-skip g gs m g.start (drop g.start config) (omega arith) (omega (arith, end)))
      ∙ (ap (λ (t : List ℕ). left_of (g ∷ gs) g.end t) (rw end at (drop-drop m g.start config))
          ∙ left_of-past g gs g.end (drop g.end config) (omega arith)) in
    let copied : left_of (g ∷ gs) from xs
        ≡ take n xs ++ left_of (g ∷ gs) g.start (drop g.start config) =
      rw (drop-drop n from config, start) at
        (left_of-copy g gs from hi n from xs o (omega (arith, start))) in
    rw (copy_rest-left_of config gs g.end hi o.1.1)
      (sym (copied ∙ ap (λ (t : List ℕ). take n xs ++ t) skipped))
