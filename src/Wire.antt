-- ===== src/Wire.antt =====
-- The byte buffers and streams that protocol.rs and client.rs use and do not implement: the
-- `Buf` and `BufMut` traits of the `bytes` crate, and `AsyncReadExt` of tokio. They are
-- parameters of every definition that calls them; the fields ending in `_lem` (and those of a
-- stream) state their documented behaviour.
pub mod Streams
use usbip_macos.Prelude.{
  ℕ, ◌+◌, ◌*◌, ◌/◌, ◌%◌, ◌^◌, ◌≤◌, ◌<◌, ◌≡◌, List, [], ◌∷◌, ◌++◌, length, drop, replicate, Result,
  ok, err, arith,
}
use usbip_macos.Prelude.Int.{ℤ, to_bits, of_bits}

-- Big-endian words as bytes.
abbrev pub be_u16 : ℕ → List ℕ
be_u16 n = (n / 256 % 256) ∷ (n % 256) ∷ []

abbrev pub be_u32 : ℕ → List ℕ
be_u32 n = (n / 2 ^ 24 % 256) ∷ (n / 2 ^ 16 % 256) ∷ (n / 256 % 256) ∷ (n % 256) ∷ []

abbrev pub be_i32 : ℤ → List ℕ
be_i32 z = be_u32 (to_bits z)

abbrev pub of_be2 : ℕ → ℕ → ℕ
of_be2 a b = a * 256 + b

abbrev pub of_be4 : ℕ → ℕ → ℕ → ℕ → ℕ
of_be4 a b c d = a * 2 ^ 24 + b * 2 ^ 16 + c * 256 + d

pub record Buf : Type 0 where
  pub put_u16 : List ℕ → ℕ → List ℕ
  pub put_u32 : List ℕ → ℕ → List ℕ
  pub put_i32 : List ℕ → ℤ → List ℕ
  pub put_slice : List ℕ → List ℕ → List ℕ
  pub put_bytes : List ℕ → ℕ → ℕ → List ℕ
  pub get_u8 : List ℕ → ℕ × List ℕ
  pub get_u16 : List ℕ → ℕ × List ℕ
  pub get_u32 : List ℕ → ℕ × List ℕ
  pub get_i32 : List ℕ → ℤ × List ℕ
  pub advance : ℕ → List ℕ → List ℕ
  pub put_u16_lem : (buf : List ℕ) (n : ℕ) → put_u16 buf n ≡ buf ++ be_u16 n
  pub put_u32_lem : (buf : List ℕ) (n : ℕ) → put_u32 buf n ≡ buf ++ be_u32 n
  pub put_i32_lem : (buf : List ℕ) (z : ℤ) → put_i32 buf z ≡ buf ++ be_i32 z
  pub put_slice_lem : (buf bs : List ℕ) → put_slice buf bs ≡ buf ++ bs
  pub put_bytes_lem : (buf : List ℕ) (v n : ℕ) → put_bytes buf v n ≡ buf ++ replicate n v
  pub get_u8_lem : (a : ℕ) (rest : List ℕ) → get_u8 (a ∷ rest) ≡ (a, rest)
  pub get_u16_lem : (a b : ℕ) (rest : List ℕ) → get_u16 (a ∷ b ∷ rest) ≡ (of_be2 a b, rest)
  pub get_u32_lem :
      (a b c d : ℕ) (rest : List ℕ) → get_u32 (a ∷ b ∷ c ∷ d ∷ rest) ≡ (of_be4 a b c d, rest)
  pub get_i32_lem :
      (a b c d : ℕ) (rest : List ℕ)
      → get_i32 (a ∷ b ∷ c ∷ d ∷ rest) ≡ (of_bits (of_be4 a b c d), rest)
  pub advance_lem : (n : ℕ) (bs : List ℕ) → n ≤ length bs → advance n bs ≡ drop n bs

pub data IoError : Type 0 where
  unexpected_eof : IoError
  other_kind : ℕ → IoError

-- `pending r` is what the peer still sends before the stream ends or fails.
pub record Reader (R : Type 0) : Type 0 where
  pub read_exact : ℕ → R → Result IoError (List ℕ × R)
  pub read_u32 : R → Result IoError (ℕ × R)
  pub pending : R → List ℕ
  pub read_exact_full :
      (r : R) (bs rest : List ℕ)
      → pending r ≡ bs ++ rest
      → (r' : R) × (read_exact (length bs) r ≡ ok (bs, r')) × (pending r' ≡ rest)
  pub read_exact_short :
      (n : ℕ) (r : R) → length (pending r) < n → (e : IoError) × (read_exact n r ≡ err e)
  pub read_u32_full :
      (r : R) (a b c d : ℕ) (rest : List ℕ)
      → pending r ≡ a ∷ b ∷ c ∷ d ∷ rest
      → (r' : R) × (read_u32 r ≡ ok (of_be4 a b c d, r')) × (pending r' ≡ rest)
  pub read_u32_short : (r : R) → length (pending r) < 4 → (e : IoError) × (read_u32 r ≡ err e)

-- `written w` is what was handed to the stream so far. After a failed write the code writes no more.
pub record Writer (W : Type 0) : Type 0 where
  pub write_all : List ℕ → W → Result IoError W
  pub written : W → List ℕ
  pub write_all_ok :
      (bs : List ℕ) (w w' : W) → write_all bs w ≡ ok w' → written w' ≡ written w ++ bs

-- A word read back from its bytes.
pub of_be2-be_u16 : (n : ℕ) → n < 2 ^ 16 → of_be2 (n / 256 % 256) (n % 256) ≡ n
of_be2-be_u16 n h = omega arith

pub of_be4-be_u32 :
    (n : ℕ)
    → n < 2 ^ 32
    → of_be4 (n / 2 ^ 24 % 256) (n / 2 ^ 16 % 256) (n / 256 % 256) (n % 256) ≡ n
of_be4-be_u32 n h = omega arith

-- `String::from_utf8_lossy` of the standard library on the bytes of a string: it gives well-formed
-- text back unchanged. The rest of its work, replacing ill-formed parts, is not described.
pub record Utf8 : Type 1 where
  pub lossy : List ℕ → List ℕ
  pub IsText : List ℕ → Type 0
  pub lossy_lem : (bs : List ℕ) → IsText bs → lossy bs ≡ bs
