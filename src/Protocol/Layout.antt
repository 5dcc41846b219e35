-- ===== src/Protocol/Layout.antt =====
-- The layout of the messages as byte tables, after the protocol's documentation, independent of the
-- order of the calls in src/protocol.rs; and `encode_*` shown to write these tables.
use usbip_macos.Prelude.{
  ℕ, ◌+◌, ◌*◌, ◌%◌, ◌^◌, ◌<◌, ◌≡◌, refl, ◌∙◌, take, take-append_of, drop-append_of, List, [], ◌∷◌,
  ◌++◌, length, length-append, append-nil, append_assoc, arith, get_or, drop,
}
use usbip_macos.Wire.{Buf, be_u32, be_i32, of_be4, of_be4-be_u32}
use usbip_macos.Protocol.Types.{IsoPacketDescriptor, CmdSubmit, CmdUnlink}
use usbip_macos.Protocol.Requests.{
  packet_count, encode_iso_packet, encode_iso_packets, encode_submit, encode_unlink,
}

unfoldable pub iso_bytes : IsoPacketDescriptor → List ℕ
iso_bytes p = be_u32 p.offset ++ (be_u32 p.length ++ (be_u32 p.actual_length ++ be_i32 p.status))

unfoldable pub isos_bytes : List IsoPacketDescriptor → List ℕ
unfolding iso_bytes
isos_bytes [] = []
isos_bytes (p ∷ ps) = iso_bytes p ++ isos_bytes ps

-- The ten words of the header of a CMD_SUBMIT before its setup packet.
unfoldable pub submit_words : CmdSubmit → List ℕ
submit_words c =
    1
    ∷ c.seqnum
    ∷ c.devid
    ∷ c.direction
    ∷ c.ep
    ∷ c.transfer_flags
    ∷ c.transfer_buffer_length
    ∷ c.start_frame
    ∷ packet_count c.iso_packets
    ∷ c.interval
    ∷ []

unfoldable pub unlink_words : CmdUnlink → List ℕ
unlink_words c = 2 ∷ c.seqnum ∷ c.devid ∷ 0 ∷ 0 ∷ c.unlink_seqnum ∷ 0 ∷ 0 ∷ 0 ∷ 0 ∷ 0 ∷ 0 ∷ []

unfoldable pub words_bytes : List ℕ → List ℕ
words_bytes [] = []
words_bytes (w ∷ ws) = be_u32 w ++ words_bytes ws

unfoldable pub submit_bytes : CmdSubmit → List ℕ
unfolding submit_words words_bytes isos_bytes
submit_bytes c =
    words_bytes (submit_words c) ++ (c.setup ++ (c.payload ++ isos_bytes c.iso_packets))

-- The big-endian word at an offset.
abbrev pub word_at : ℕ → List ℕ → ℕ
word_at i bs =
    of_be4 (get_or bs i 0) (get_or bs (i + 1) 0) (get_or bs (i + 2) 0) (get_or bs (i + 3) 0)

pub length-isos_bytes : (ps : List IsoPacketDescriptor) → length (isos_bytes ps) ≡ length ps * 16
unfolding isos_bytes
length-isos_bytes [] = refl
length-isos_bytes (p ∷ ps) =
    omega (arith, length-isos_bytes ps, length-append (iso_bytes p) (isos_bytes ps))

module _ ⦃buf : Buf⦄ where
  open buf use {put_u32_lem, put_i32_lem, put_slice_lem, put_bytes_lem}

  encode_iso_packet_lem :
      (p : IsoPacketDescriptor) (b : List ℕ) → encode_iso_packet p b ≡ b ++ iso_bytes p
  unfolding encode_iso_packet iso_bytes
  encode_iso_packet_lem p b = simp (put_u32_lem, put_i32_lem, append_assoc)

  encode_iso_packets_lem :
      (ps : List IsoPacketDescriptor) (b : List ℕ) → encode_iso_packets ps b ≡ b ++ isos_bytes ps
  unfolding encode_iso_packets isos_bytes
  encode_iso_packets_lem [] b = rw append-nil
  encode_iso_packets_lem (p ∷ ps) b =
      encode_iso_packets_lem ps (encode_iso_packet p b)
      ∙ rw (encode_iso_packet_lem p b) (append_assoc b (iso_bytes p) (isos_bytes ps))

  -- A CMD_SUBMIT is its ten words, the setup packet, the data and the packet descriptors.
  pub encode_submit-submit_bytes :
      (c : CmdSubmit) (b : List ℕ) → encode_submit c b ≡ b ++ submit_bytes c
  encode_submit-submit_bytes c b =
      unfold encode_submit submit_bytes in
      simp (put_u32_lem, put_slice_lem, encode_iso_packets_lem, append_assoc)

  pub encode_unlink-words :
      (c : CmdUnlink) (b : List ℕ) → encode_unlink c b ≡ b ++ words_bytes (unlink_words c)
  unfolding encode_unlink unlink_words words_bytes
  encode_unlink-words c b = simp (put_u32_lem, put_bytes_lem, append_assoc)

pub record IsFrame (c : CmdSubmit) : Type 0 where
  pub seqnum_fits : c.seqnum < 2 ^ 32
  pub devid_fits : c.devid < 2 ^ 32
  pub direction_fits : c.direction < 2 ^ 32
  pub ep_fits : c.ep < 2 ^ 32
  pub flags_fit : c.transfer_flags < 2 ^ 32
  pub length_fits : c.transfer_buffer_length < 2 ^ 32
  pub frame_fits : c.start_frame < 2 ^ 32
  pub interval_fits : c.interval < 2 ^ 32
  pub setup_length : length c.setup ≡ 8

-- What stands where in a frame, by the offsets of the protocol's documentation.
pub record Fields (c : CmdSubmit) (f : List ℕ) : Type 0 where
  pub command_at : word_at 0 f ≡ 1
  pub seqnum_at : word_at 4 f ≡ c.seqnum
  pub devid_at : word_at 8 f ≡ c.devid
  pub direction_at : word_at 12 f ≡ c.direction
  pub ep_at : word_at 16 f ≡ c.ep
  pub flags_at : word_at 20 f ≡ c.transfer_flags
  pub length_at : word_at 24 f ≡ c.transfer_buffer_length
  pub frame_at : word_at 28 f ≡ c.start_frame
  pub packets_at : word_at 32 f ≡ length c.iso_packets % 2 ^ 32
  pub interval_at : word_at 36 f ≡ c.interval
  pub setup_at : take 8 (drop 40 f) ≡ c.setup
  pub data_at : drop 48 f ≡ c.payload ++ isos_bytes c.iso_packets
  pub total : length f ≡ 48 + length c.payload + 16 * length c.iso_packets

packet_count_lem : (ps : List IsoPacketDescriptor) → packet_count ps ≡ length ps % 2 ^ 32
packet_count_lem [] = refl
packet_count_lem (p ∷ ps) = refl

submit_bytes-Fields : (c : CmdSubmit) → IsFrame c → Fields c (submit_bytes c)
unfolding submit_bytes
submit_bytes-Fields c v = record {
  command_at = refl;
  seqnum_at = of_be4-be_u32 c.seqnum v.seqnum_fits;
  devid_at = of_be4-be_u32 c.devid v.devid_fits;
  direction_at = of_be4-be_u32 c.direction v.direction_fits;
  ep_at = of_be4-be_u32 c.ep v.ep_fits;
  flags_at = of_be4-be_u32 c.transfer_flags v.flags_fit;
  length_at = of_be4-be_u32 c.transfer_buffer_length v.length_fits;
  frame_at = of_be4-be_u32 c.start_frame v.frame_fits;
  packets_at = rw (packet_count_lem c.iso_packets) (of_be4-be_u32 _ (omega arith));
  interval_at = of_be4-be_u32 c.interval v.interval_fits;
  setup_at = take-append_of 8 c.setup _ v.setup_length;
  data_at = drop-append_of 8 c.setup (c.payload ++ isos_bytes c.iso_packets) v.setup_length;
  total = omega (
    arith,
    v.setup_length,
    length-append c.setup (c.payload ++ isos_bytes c.iso_packets),
    length-append c.payload (isos_bytes c.iso_packets),
    length-isos_bytes c.iso_packets,
  );
}

-- A CMD_SUBMIT frame that the client writes has every field at its documented offset, then the
-- setup packet, the data and 16 bytes for each packet, and nothing more.
pub encode_submit-Fields : ⦃buf : Buf⦄ (c : CmdSubmit) → IsFrame c → Fields c (encode_submit c [])
encode_submit-Fields c v = rw (encode_submit-submit_bytes c []) (submit_bytes-Fields c v)
