-- ===== src/Protocol/Payload.antt =====
-- Reading the payload of a RET_SUBMIT.
use usbip_macos.Prelude.{
  ℕ, zero, suc, ◌+◌, ◌*◌, ◌^◌, ◌<◌, ◌≤◌, ◌≡◌, refl, ap, List, [], ◌∷◌, ◌++◌, length, length-append,
  arith, ok, err, ltb, Bool, true, false, map, le→ltb, lt→ltb, All, length-map, Bool-cases,
  Result-cases, inl, inr,
}
use usbip_macos.Prelude.Int.{IsI32, to_bits, to_bits-lt, of_bits-to_bits}
use usbip_macos.Wire.{Buf, Reader, of_be4-be_u32}
use usbip_macos.Wire.Streams.{read_exact_bytes, read_exact_cases}
use usbip_macos.Protocol.Types.{
  invalid, actual_length_exceeds, IsoPacketDescriptor, RetSubmit, SubmitHeader, submit,
}
use usbip_macos.Protocol.Replies.{
  as_chunks, decode_iso_packet, read_data, read_packets, read_submit_payload,
}
use usbip_macos.Protocol.Layout.{iso_bytes, isos_bytes, length-isos_bytes}
use usbip_macos.Protocol.Chunks.{join, as_chunks-join, length-as_chunks}

pub record IsIsoPacket (p : IsoPacketDescriptor) : Type 0 where
  pub offset_fits : p.offset < 2 ^ 32
  pub length_fits : p.length < 2 ^ 32
  pub actual_fits : p.actual_length < 2 ^ 32
  pub status_fits : IsI32 p.status

-- The reply that a header, its data and its packets make.
abbrev pub ret_of : SubmitHeader → List ℕ → List IsoPacketDescriptor → RetSubmit
ret_of h bytes packets = record {
  seqnum = h.seqnum;
  status = h.status;
  actual_length = h.actual_length;
  start_frame = h.start_frame;
  error_count = h.error_count;
  payload = bytes;
  iso_packets = packets;
}

-- How many bytes of data follow a header.
abbrev pub data_length : Bool → ℕ → ℕ
data_length true actual = actual
data_length false actual = 0

data_length-le : (expected : Bool) (actual : ℕ) → data_length expected actual ≤ actual
data_length-le true actual = omega arith
data_length-le false actual = omega arith

join-isos : (ps : List IsoPacketDescriptor) → join (map iso_bytes ps) ≡ isos_bytes ps
unfolding isos_bytes
join-isos [] = refl
join-isos (p ∷ ps) = ap (λ (t : List ℕ). iso_bytes p ++ t) (join-isos ps)

isos_sizes : (ps : List IsoPacketDescriptor) → All (λ b. length b ≡ 16) (map iso_bytes ps)
unfolding iso_bytes
isos_sizes [] = tt
isos_sizes (p ∷ ps) = (refl, isos_sizes ps)

module _ ⦃buf : Buf⦄ where
  open buf use {get_u32_lem, get_i32_lem}

  decode_iso_packet-iso_bytes :
      (p : IsoPacketDescriptor) → IsIsoPacket p → decode_iso_packet (iso_bytes p) ≡ p
  unfolding decode_iso_packet iso_bytes
  decode_iso_packet-iso_bytes p v = simp (
    get_u32_lem,
    get_i32_lem,
    of_be4-be_u32 p.offset v.offset_fits,
    of_be4-be_u32 p.length v.length_fits,
    of_be4-be_u32 p.actual_length v.actual_fits,
    of_be4-be_u32 (to_bits p.status) (to_bits-lt p.status v.status_fits),
    of_bits-to_bits p.status v.status_fits,
  )

  decode_each :
      (ps : List IsoPacketDescriptor)
      → All IsIsoPacket ps
      → map decode_iso_packet (map iso_bytes ps) ≡ ps
  decode_each [] v = refl
  decode_each (p ∷ ps) v = rw (decode_iso_packet-iso_bytes p v.0, decode_each ps v.1)

module _ {R : Type 0} ⦃buf : Buf⦄ ⦃rd : Reader R⦄ where
  open rd use {pending, read_exact}

  read_packets_lem :
      (ps : List IsoPacketDescriptor) (r : R) (rest : List ℕ)
      → All IsIsoPacket ps
      → pending r ≡ isos_bytes ps ++ rest
      → (r' : R) × (read_packets r (length ps) ≡ ok (ps, r')) × (pending r' ≡ rest)
  unfolding read_packets
  read_packets_lem [] r rest v e = (r, refl, unfold isos_bytes in e)
  read_packets_lem (p ∷ ps) r rest v e =
      let (r', e', q) =
        read_exact_bytes (length (p ∷ ps) * 16) r (isos_bytes (p ∷ ps)) rest
          (length-isos_bytes (p ∷ ps)) e in
      (
        r',
        rw (
          lt→ltb 0 (length (p ∷ ps)) (omega arith),
          e',
          ← join-isos (p ∷ ps),
          as_chunks-join 16 (map iso_bytes (p ∷ ps)) (omega arith) (isos_sizes (p ∷ ps)),
          decode_each (p ∷ ps) v,
        ),
        q,
      )

  read_data_lem :
      (expected : Bool) (actual : ℕ) (bytes rest : List ℕ) (r : R)
      → length bytes ≡ data_length expected actual
      → pending r ≡ bytes ++ rest
      → (r' : R) × (read_data r expected actual ≡ ok (bytes, r')) × (pending r' ≡ rest)
  unfolding read_data
  read_data_lem false actual [] rest r hl e = (r, refl, e)
  read_data_lem false actual (b ∷ bs) rest r hl e = absurd (omega arith)
  read_data_lem true zero [] rest r hl e = (r, refl, e)
  read_data_lem true zero (b ∷ bs) rest r hl e = absurd (omega arith)
  read_data_lem true (suc n) bytes rest r hl e =
      let (r', e', q) = read_exact_bytes (suc n) r bytes rest hl e in
      (r', rw (lt→ltb 0 (suc n) (omega arith), e'), q)

  -- A payload of the announced size is read back: the data of an IN transfer, then the packets.
  pub read_submit_payload_lem :
      (r : R) (h : SubmitHeader) (expected : Bool) (max_length : ℕ) (bytes rest : List ℕ)
      (packets : List IsoPacketDescriptor)
      → h.actual_length ≤ max_length
      → length bytes ≡ data_length expected h.actual_length
      → length packets ≡ h.number_of_packets
      → All IsIsoPacket packets
      → pending r ≡ bytes ++ (isos_bytes packets ++ rest)
      → (r' : R) × (read_submit_payload r (submit h) expected max_length
          ≡ ok (ret_of h bytes packets, r'))
        × (pending r' ≡ rest)
  read_submit_payload_lem r h expected max_length bytes rest packets hm hl hp v e =
      let (r1, e1, q1) =
        read_data_lem expected h.actual_length bytes (isos_bytes packets ++ rest) r hl e in
      let (r2, e2, q2) = read_packets_lem packets r1 rest v q1 in
      (
        r2,
        unfold read_submit_payload in rw (le→ltb max_length h.actual_length hm, e1, ← hp, e2),
        q2,
      )

  -- A server that claims more data than was asked for is refused before anything is read.
  pub read_submit_payload_too_long :
      (r : R) (h : SubmitHeader) (expected : Bool) (max_length : ℕ)
      → max_length < h.actual_length
      → read_submit_payload r (submit h) expected max_length
        ≡ err (invalid (actual_length_exceeds h.seqnum h.actual_length max_length))
  unfolding read_submit_payload
  read_submit_payload_too_long r h expected max_length hm =
      rw (lt→ltb max_length h.actual_length hm)

  read_data_inv :
      (expected : Bool) (actual : ℕ) (r : R) (bytes : List ℕ) (r' : R)
      → read_data r expected actual ≡ ok (bytes, r')
      → (length bytes ≡ data_length expected actual) × (pending r ≡ bytes ++ pending r')
  unfolding read_data
  read_data_inv false actual r bytes r' h = ground arith
  read_data_inv true zero r bytes r' h = ground arith
  read_data_inv true (suc n) r bytes r' h = elim (read_exact_cases (suc n) r) [
    | inl (e, bad) ↦ ground arith
    | inr (bs, r1, good, size, split) ↦ ground arith
  ]

  read_packets_inv :
      (count : ℕ) (r : R) (packets : List IsoPacketDescriptor) (r' : R)
      → read_packets r count ≡ ok (packets, r')
      → (length packets ≡ count) × (length (pending r) ≡ count * 16 + length (pending r'))
  unfolding read_packets
  read_packets_inv zero r packets r' h = ground arith
  read_packets_inv (suc n) r packets r' h = elim (read_exact_cases (suc n * 16) r) [
    | inl (e, bad) ↦ ground arith
    | inr (bs, r1, good, size, split) ↦ ground (
      arith,
      length-map decode_iso_packet (as_chunks 16 bs),
      length-as_chunks 16 (suc n) bs (omega arith) size,
      length-append bs (pending r1),
    )
  ]

  -- Whatever the server sends, an accepted payload is bounded by the request: no more data than
  -- was asked for, none for an OUT transfer, as many packets as announced, and exactly the bytes
  -- of these taken off the stream.
  pub read_submit_payload-bounded :
      (r : R) (h : SubmitHeader) (expected : Bool) (max_length : ℕ) (ret : RetSubmit) (r' : R)
      → read_submit_payload r (submit h) expected max_length ≡ ok (ret, r')
      → (length ret.payload ≤ max_length)
        × (length ret.payload ≡ data_length expected h.actual_length)
        × (length ret.iso_packets ≡ h.number_of_packets)
        × (length (pending r) ≡ length ret.payload + h.number_of_packets * 16 + length (pending r'))
  unfolding read_submit_payload
  read_submit_payload-bounded r h expected max_length ret r' e =
      elim (Bool-cases (ltb max_length h.actual_length)) [
        | inl long ↦ ground arith
        | inr fits ↦ elim (Result-cases (read_data r expected h.actual_length)) [
          | inr (bad, e1) ↦ ground arith
          | inl ((bs, r1), e1) ↦ elim (Result-cases (read_packets r1 h.number_of_packets)) [
            | inr (bad, e2) ↦ ground arith
            | inl ((ps, r2), e2) ↦ ground (
              arith,
              read_data_inv expected h.actual_length r bs r1 e1,
              read_packets_inv h.number_of_packets r1 ps r2 e2,
              data_length-le expected h.actual_length,
              length-append bs (pending r1),
            )
          ]
        ]
      ]
