-- ===== src/Protocol/Chunks.antt =====
-- `as_chunks`, the splitting of a buffer into records of one size.
use usbip_macos.Prelude.{
  ℕ, zero, suc, ◌*◌, ◌≤◌, ◌≡◌, refl, ap, ◌∙◌, List, [], ◌∷◌, ◌++◌, length, length-append, arith,
  All, take-append_of, drop-append_of, length-drop, leb, true,
}
use usbip_macos.Protocol.Replies.{chunks_of, as_chunks}

abbrev pub join : List (List ℕ) → List ℕ
join [] = []
join (b ∷ bs) = b ++ join bs

le→leb : (a b : ℕ) → a ≤ b → leb a b ≡ true
le→leb a b h = ground arith

chunks_of-cons :
    (fuel k : ℕ) (b rest : List ℕ)
    → length b ≡ k
    → chunks_of (suc fuel) k (b ++ rest) ≡ b ∷ chunks_of fuel k rest
unfolding chunks_of
chunks_of-cons fuel k b rest e = rw (
  le→leb k (length (b ++ rest)) (omega (arith, length-append b rest)),
  take-append_of k b rest e,
  drop-append_of k b rest e,
)

chunks_of-nil : (fuel k : ℕ) → 1 ≤ k → chunks_of fuel k [] ≡ []
unfolding chunks_of
chunks_of-nil zero k h = refl
chunks_of-nil (suc fuel) k h = ground arith

chunks_of-join :
    (k : ℕ) (bs : List (List ℕ)) (fuel : ℕ)
    → 1 ≤ k
    → All (λ b. length b ≡ k) bs
    → length bs ≤ fuel
    → chunks_of fuel k (join bs) ≡ bs
chunks_of-join k [] fuel hk hs hf = chunks_of-nil fuel k hk
chunks_of-join k (b ∷ bs) zero hk hs hf = absurd (omega arith)
chunks_of-join k (b ∷ bs) (suc fuel) hk hs hf =
    chunks_of-cons fuel k b (join bs) hs.0
    ∙ ap (λ (t : List (List ℕ)). b ∷ t) (chunks_of-join k bs fuel hk hs.1 (omega arith))

length-join-le :
    (k : ℕ) (bs : List (List ℕ)) → 1 ≤ k → All (λ b. length b ≡ k) bs → length bs ≤ length (join bs)
length-join-le k [] hk hs = omega arith
length-join-le k (b ∷ bs) hk hs =
    omega (arith, length-append b (join bs), length-join-le k bs hk hs.1, hs.0)

-- Records laid end to end are found again.
pub as_chunks-join :
    (k : ℕ) (bs : List (List ℕ)) → 1 ≤ k → All (λ b. length b ≡ k) bs → as_chunks k (join bs) ≡ bs
unfolding as_chunks
as_chunks-join k bs hk hs = chunks_of-join k bs (length (join bs)) hk hs (length-join-le k bs hk hs)

length-chunks_of :
    (fuel k n : ℕ) (bs : List ℕ)
    → 1 ≤ k
    → length bs ≡ n * k
    → n ≤ fuel
    → length (chunks_of fuel k bs) ≡ n
unfolding chunks_of
length-chunks_of zero k zero bs hk e hf = refl
length-chunks_of zero k (suc n) bs hk e hf = absurd (omega arith)
length-chunks_of (suc fuel) k zero bs hk e hf = ground arith
length-chunks_of (suc fuel) k (suc n) bs hk e hf =
    rw (le→leb k (length bs) (omega arith))
      (ap suc (length-chunks_of fuel k n _ hk (omega (arith, length-drop k bs)) (omega arith)))

pub length-as_chunks :
    (k n : ℕ) (bs : List ℕ) → 1 ≤ k → length bs ≡ n * k → length (as_chunks k bs) ≡ n
unfolding as_chunks
length-as_chunks k n bs hk e = length-chunks_of (length bs) k n bs hk e (grind arith)
