-- ===== src/Wire/Streams.antt =====
-- Consequences of the laws of a stream, for any successful read.
use native.Mathlib.Decide.{dec_lt}
use usbip_macos.Prelude.{
  ℕ, ◌≡◌, sym, ap, ◌∙◌, List, ◌++◌, length, take, drop, length-take, take-append-drop, ok, err,
  arith, ◌⊎◌, inl, inr,
}
use usbip_macos.Wire.{Reader, IoError}

module _ {R : Type 0} ⦃rd : Reader R⦄ where
  open rd use {read_exact, pending, read_exact_full, read_exact_short}

  pub read_exact_bytes :
      (n : ℕ) (r : R) (bs rest : List ℕ)
      → length bs ≡ n
      → pending r ≡ bs ++ rest
      → (r' : R) × (read_exact n r ≡ ok (bs, r')) × (pending r' ≡ rest)
  read_exact_bytes n r bs rest e h = rw (← e) (read_exact_full r bs rest h)

  -- A read fails, or splits off as many bytes as were asked for.
  pub read_exact_cases :
      (n : ℕ) (r : R)
      → ((e : IoError) × (read_exact n r ≡ err e))
        ⊎ ((bs : List ℕ) × (r' : R) × (read_exact n r ≡ ok (bs, r'))
            × (length bs ≡ n)
            × (pending r ≡ bs ++ pending r'))
  read_exact_cases n r = elim (dec_lt (length (pending r)) n) [
    | yes short ↦ inl (read_exact_short n r short)
    | no enough ↦
        let fits : length (take n (pending r)) ≡ n = omega (arith, length-take n (pending r)) in
        let (r', e, p) =
          read_exact_bytes n r (take n (pending r)) (drop n (pending r)) fits
            (sym (take-append-drop n (pending r))) in
        inr (
          take n (pending r),
          r',
          e,
          fits,
          sym (take-append-drop n (pending r))
              ∙ ap (λ (t : List ℕ). take n (pending r) ++ t) (sym p),
        )
  ]
