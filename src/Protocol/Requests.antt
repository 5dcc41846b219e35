-- ===== src/Protocol/Requests.antt =====
-- The encoders of src/protocol.rs. A fixed array that the source fills from its front to its end
-- is the list of what was written.
use usbip_macos.Prelude.{
  ℕ, ◌-◌, ◌%◌, ◌^◌, Bool, false, ◌||◌, List, [], ◌∷◌, ◌++◌, length, replicate, leb, ◌==◌,
  if◌then◌else◌, Result, ok, err, ◌>>=◌,
}
use usbip_macos.Wire.{Buf}
use usbip_macos.Protocol.Types.{
  ProtocolError, invalid, invalid_busid, IsoPacketDescriptor, CmdSubmit, CmdUnlink, usbip_version,
  op_req_devlist, op_req_import, usbip_cmd_submit, usbip_cmd_unlink, busid_size,
}

unfoldable pub contains_byte : List ℕ → ℕ → Bool
contains_byte [] b = false
contains_byte (x ∷ xs) b = x == b || contains_byte xs b

-- The array of 32 zero bytes with the name copied over its front.
unfoldable pub encode_busid : List ℕ → Result ProtocolError (List ℕ)
unfolding contains_byte
encode_busid busid =
    if leb busid_size (length busid) || contains_byte busid 0
    then err (invalid (invalid_busid busid))
    else ok (busid ++ replicate (busid_size - length busid) 0)

-- The packet count, with `as u32`.
abbrev pub packet_count : List IsoPacketDescriptor → ℕ
packet_count [] = 0
packet_count (p ∷ ps) = length (p ∷ ps) % 2 ^ 32

module _ ⦃buf : Buf⦄ where
  open buf use {put_u16, put_u32, put_i32, put_slice, put_bytes}

  unfoldable pub encode_devlist_request : List ℕ
  encode_devlist_request =
      let b = put_u16 [] usbip_version in let b = put_u16 b op_req_devlist in put_u32 b 0

  unfoldable pub encode_import_request : List ℕ → Result ProtocolError (List ℕ)
  encode_import_request busid =
      let b = put_u16 [] usbip_version in
      let b = put_u16 b op_req_import in
      let b = put_u32 b 0 in encode_busid busid >>= λ name. ok (put_slice b name)

  unfoldable pub encode_iso_packet : IsoPacketDescriptor → List ℕ → List ℕ
  encode_iso_packet p b =
      let b = put_u32 b p.offset in
      let b = put_u32 b p.length in let b = put_u32 b p.actual_length in put_i32 b p.status

  unfoldable pub encode_iso_packets : List IsoPacketDescriptor → List ℕ → List ℕ
  unfolding encode_iso_packet
  encode_iso_packets [] b = b
  encode_iso_packets (p ∷ ps) b = encode_iso_packets ps (encode_iso_packet p b)

  unfoldable pub encode_submit : CmdSubmit → List ℕ → List ℕ
  unfolding encode_iso_packets
  encode_submit c b =
      let b = put_u32 b usbip_cmd_submit in
      let b = put_u32 b c.seqnum in
      let b = put_u32 b c.devid in
      let b = put_u32 b c.direction in
      let b = put_u32 b c.ep in
      let b = put_u32 b c.transfer_flags in
      let b = put_u32 b c.transfer_buffer_length in
      let b = put_u32 b c.start_frame in
      let b = put_u32 b (packet_count c.iso_packets) in
      let b = put_u32 b c.interval in
      let b = put_slice b c.setup in
      let b = put_slice b c.payload in encode_iso_packets c.iso_packets b

  unfoldable pub encode_unlink : CmdUnlink → List ℕ → List ℕ
  encode_unlink c b =
      let b = put_u32 b usbip_cmd_unlink in
      let b = put_u32 b c.seqnum in
      let b = put_u32 b c.devid in
      let b = put_u32 b 0 in
      let b = put_u32 b 0 in let b = put_u32 b c.unlink_seqnum in put_bytes b 0 24
