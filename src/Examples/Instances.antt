-- ===== src/Examples/Instances.antt =====
-- The parameters of the development as concrete functions: big-endian buffers, streams that hold
-- their bytes, and text of which only ASCII is well formed.
use usbip_macos.Prelude.{
  ℕ, ◌<◌, ◌≤◌, ◌≡◌, refl, List, [], ◌∷◌, ◌++◌, length, length-append, take, drop, replicate,
  take-append, drop-append, arith, leb, ltb, if◌then◌else◌, true, All, Result, ok, err, get_or,
}
use usbip_macos.Prelude.Int.{of_bits}
use usbip_macos.Wire.{
  Buf, Reader, Writer, Utf8, IoError, unexpected_eof, be_u16, be_u32, be_i32, of_be2, of_be4,
}

instance abbrev pub big_endian : Buf
big_endian = record {
  put_u16 = λ buf n. buf ++ be_u16 n;
  put_u32 = λ buf n. buf ++ be_u32 n;
  put_i32 = λ buf z. buf ++ be_i32 z;
  put_slice = λ buf bs. buf ++ bs;
  put_bytes = λ buf v n. buf ++ replicate n v;
  get_u8 = λ bs. (get_or bs 0 0, drop 1 bs);
  get_u16 = λ bs. (of_be2 (get_or bs 0 0) (get_or bs 1 0), drop 2 bs);
  get_u32 =
      λ bs. (of_be4 (get_or bs 0 0) (get_or bs 1 0) (get_or bs 2 0) (get_or bs 3 0), drop 4 bs);
  get_i32 = λ bs.
      (of_bits (of_be4 (get_or bs 0 0) (get_or bs 1 0) (get_or bs 2 0) (get_or bs 3 0)), drop 4 bs);
  advance = λ n bs. drop n bs;
  put_u16_lem = λ buf n. refl;
  put_u32_lem = λ buf n. refl;
  put_i32_lem = λ buf z. refl;
  put_slice_lem = λ buf bs. refl;
  put_bytes_lem = λ buf v n. refl;
  get_u8_lem = λ a rest. refl;
  get_u16_lem = λ a b rest. refl;
  get_u32_lem = λ a b c d rest. refl;
  get_i32_lem = λ a b c d rest. refl;
  advance_lem = λ n bs h. refl;
}

abbrev pub read_bytes : ℕ → List ℕ → Result IoError (List ℕ × List ℕ)
read_bytes n bs = if leb n (length bs) then ok (take n bs, drop n bs) else err unexpected_eof

abbrev pub read_word : List ℕ → Result IoError (ℕ × List ℕ)
read_word bs =
    if leb 4 (length bs)
    then ok (of_be4 (get_or bs 0 0) (get_or bs 1 0) (get_or bs 2 0) (get_or bs 3 0), drop 4 bs)
    else err unexpected_eof

le→leb : (a b : ℕ) → a ≤ b → leb a b ≡ true
le→leb a b h = ground arith

pub read_bytes_full :
    (r bs rest : List ℕ)
    → r ≡ bs ++ rest
    → (r' : List ℕ) × (read_bytes (length bs) r ≡ ok (bs, r')) × (r' ≡ rest)
read_bytes_full r bs rest e = (
  rest,
  rw (
    e,
    le→leb (length bs) (length (bs ++ rest)) (omega (arith, length-append bs rest)),
    take-append bs rest,
    drop-append bs rest,
  ),
  refl,
)

pub read_bytes_short :
    (n : ℕ) (r : List ℕ) → length r < n → (e : IoError) × (read_bytes n r ≡ err e)
read_bytes_short n r h = (unexpected_eof, ground arith)

pub read_word_full :
    (r : List ℕ) (a b c d : ℕ) (rest : List ℕ)
    → r ≡ a ∷ b ∷ c ∷ d ∷ rest
    → (r' : List ℕ) × (read_word r ≡ ok (of_be4 a b c d, r')) × (r' ≡ rest)
read_word_full r a b c d rest e = (rest, rw e (ground arith), refl)

pub read_word_short : (r : List ℕ) → length r < 4 → (e : IoError) × (read_word r ≡ err e)
read_word_short r h = (unexpected_eof, ground arith)

instance abbrev pub byte_stream : Reader (List ℕ)
byte_stream = record {
  read_exact = read_bytes;
  read_u32 = read_word;
  pending = λ bs. bs;
  read_exact_full = read_bytes_full;
  read_exact_short = read_bytes_short;
  read_u32_full = read_word_full;
  read_u32_short = read_word_short;
}

-- Bytes above 127 become the replacement character.
abbrev pub replace_bytes : List ℕ → List ℕ
replace_bytes [] = []
replace_bytes (b ∷ bs) = (if ltb b 128 then b ∷ [] else 0xef ∷ 0xbf ∷ 0xbd ∷ []) ++ replace_bytes bs

pub replace_bytes_lem : (bs : List ℕ) → All (λ b. b < 128) bs → replace_bytes bs ≡ bs
replace_bytes_lem [] h = refl
replace_bytes_lem (b ∷ bs) h = rw (replace_bytes_lem bs h.1) (ground arith)

instance abbrev pub ascii : Utf8
ascii = record { lossy = replace_bytes; IsText = All (λ b. b < 128); lossy_lem = replace_bytes_lem }

-- A writer that keeps what it is handed.
pub sink_written :
    (bs w w' : List ℕ) → ◌≡◌ {A = Result IoError (List ℕ)} (ok (w ++ bs)) (ok w') → w' ≡ w ++ bs
sink_written bs w w' e = ground (arith, e)

instance abbrev pub byte_sink : Writer (List ℕ)
byte_sink = record {
  write_all = λ bs w. ok (w ++ bs);
  written = λ w. w;
  write_all_ok = sink_written;
}

-- A peer whose replies are fixed, and what it was sent.
pub record Peer : Type 0 where
  pub incoming : List ℕ
  pub outgoing : List ℕ

abbrev with_incoming {ℓ} :
    {A : Type ℓ} → Peer → Result IoError (A × List ℕ) → Result IoError (A × Peer)
with_incoming p (ok (a, bs)) = ok (a, record p { incoming = bs })
with_incoming p (err e) = err e

instance abbrev pub peer_reader : Reader Peer
peer_reader = record {
  read_exact = λ n p. with_incoming p (read_bytes n p.incoming);
  read_u32 = λ p. with_incoming p (read_word p.incoming);
  pending = λ p. p.incoming;
  read_exact_full = λ p bs rest e.
      let (r', eq, q) = read_bytes_full p.incoming bs rest e in
      (record p { incoming = r' }, rw eq, q);
  read_exact_short = λ n p h. let (e, eq) = read_bytes_short n p.incoming h in (e, rw eq);
  read_u32_full = λ p a b c d rest e.
      let (r', eq, q) = read_word_full p.incoming a b c d rest e in
      (record p { incoming = r' }, rw eq, q);
  read_u32_short = λ p h. let (e, eq) = read_word_short p.incoming h in (e, rw eq);
}

pub peer_written :
    (bs : List ℕ) (p p' : Peer)
    → ◌≡◌ {A = Result IoError Peer} (ok (record p { outgoing = p.outgoing ++ bs })) (ok p')
    → p'.outgoing ≡ p.outgoing ++ bs
peer_written bs p p' e = ground (arith, e)

instance abbrev pub peer_writer : Writer Peer
peer_writer = record {
  write_all = λ bs p. ok (record p { outgoing = p.outgoing ++ bs });
  written = λ p. p.outgoing;
  write_all_ok = peer_written;
}
