-- ===== src/Protocol/Replies.antt =====
-- The decoders and readers of src/protocol.rs. A reader is threaded through the calls; the first
-- error ends them, as `?` does.
use usbip_macos.Prelude.{
  ℕ, zero, suc, ◌+◌, ◌*◌, Bool, ◌&&◌, not, List, [], ◌∷◌, ◌++◌, map, length, take, drop, get_or,
  ltb, leb, ◌==◌, if◌then◌else◌, Result, ok, err, ◌>>=◌, map_err,
}
use usbip_macos.Wire.{Buf, Reader, Utf8, IoError}
use usbip_macos.Protocol.Types.{
  ProtocolError, io, unexpected_reply, unexpected_command, invalid, device_count, not_a_ret_submit,
  actual_length_exceeds, Interface, ExportedDevice, speed_from_u32, IsoPacketDescriptor, RetSubmit,
  SubmitHeader, Reply, submit, unlink, op_rep_devlist, op_rep_import, op_header_size, busid_size,
  path_size, device_size, interface_size, urb_header_size, iso_descriptor_size, max_iso_packets,
  max_exported_devices, usbip_ret_submit, usbip_ret_unlink,
}
use usbip_macos.Protocol.Types

-- The index of the first zero byte, or the length.
unfoldable pub end_of_string : List ℕ → ℕ
end_of_string [] = 0
end_of_string (b ∷ bs) = if b == 0 then 0 else suc (end_of_string bs)

-- The whole chunks of `k` bytes that `as_chunks` gives; a remainder is dropped. Each chunk takes a
-- byte at least, so the length of the list bounds their number.
unfoldable pub chunks_of : ℕ → ℕ → List ℕ → List (List ℕ)
chunks_of zero k bs = []
chunks_of (suc fuel) k bs =
    let rest = chunks_of fuel k (drop k bs) in if leb k (length bs) then take k bs ∷ rest else []

unfoldable pub as_chunks : ℕ → List ℕ → List (List ℕ)
unfolding chunks_of
as_chunks k bs = chunks_of (length bs) k bs

abbrev pub interface_of : List ℕ → Interface
interface_of c = record { class = get_or c 0 0; subclass = get_or c 1 0; protocol = get_or c 2 0 }

module _ ⦃text : Utf8⦄ where
  open text use {lossy}

  unfoldable pub c_string : List ℕ → List ℕ
  unfolding end_of_string
  c_string bytes = lossy (take (end_of_string bytes) bytes)

module _ ⦃buf : Buf⦄ where
  open buf use {get_u8, get_u16, get_u32, get_i32, advance}

  unfoldable pub decode_iso_packet : List ℕ → IsoPacketDescriptor
  decode_iso_packet b =
      let (offset, b) = get_u32 b in
      let (len, b) = get_u32 b in
      let (actual, b) = get_u32 b in
      let (st, b) = get_i32 b in
      record { offset = offset; length = len; actual_length = actual; status = st }

  -- The fields after the two names, which are decoded already.
  unfoldable pub decode_numbers : List ℕ → List ℕ → List ℕ → ExportedDevice
  decode_numbers path busid b =
      let (busnum, b) = get_u32 b in
      let (devnum, b) = get_u32 b in
      let (speed, b) = get_u32 b in
      let (vendor, b) = get_u16 b in
      let (product, b) = get_u16 b in
      let (bcd, b) = get_u16 b in
      let (class, b) = get_u8 b in
      let (subclass, b) = get_u8 b in
      let (protocol, b) = get_u8 b in
      let (configuration, b) = get_u8 b in
      let (configurations, b) = get_u8 b in
      let (count, b) = get_u8 b in
      record {
        path = path;
        busid = busid;
        busnum = busnum;
        devnum = devnum;
        speed = speed_from_u32 speed;
        id_vendor = vendor;
        id_product = product;
        bcd_device = bcd;
        device_class = class;
        device_subclass = subclass;
        device_protocol = protocol;
        configuration_value = configuration;
        num_configurations = configurations;
        num_interfaces = count;
        interfaces = [];
      }

  unfoldable pub decode_device : ⦃text : Utf8⦄ → List ℕ → ExportedDevice
  unfolding c_string decode_numbers
  decode_device raw =
      decode_numbers (c_string (take path_size raw))
        (c_string (take busid_size (drop path_size raw))) (drop (path_size + busid_size) raw)

-- `?` on an I/O result.
abbrev pub lift_io {ℓ} : {A : Type ℓ} → Result IoError A → Result ProtocolError A
lift_io = map_err io

module _ {R : Type 0} ⦃buf : Buf⦄ ⦃rd : Reader R⦄ where
  open buf use {get_u16, get_u32, get_i32, advance}
  open rd use {read_exact, read_u32}

  unfoldable pub read_op_header : R → ℕ → Result ProtocolError R
  read_op_header r expected = do
    (raw, r) ← lift_io (read_exact op_header_size r)
    let (version, b) = get_u16 raw
    let (code, b) = get_u16 b
    let (st, b) = get_u32 b
    if not (code == expected)
        then err (unexpected_reply expected code)
        else if not (st == 0)
        then err (Types.status st)
        else ok r

  -- The arm of `USBIP_RET_SUBMIT`; all ones in the packet count mean none.
  unfoldable pub submit_reply : ℕ → List ℕ → R → Result ProtocolError (Reply × R)
  submit_reply seqnum b r =
      let (st, b) = get_i32 b in
      let (actual, b) = get_u32 b in
      let (frame, b) = get_u32 b in
      let (packets, b) = get_u32 b in
      let count : ℕ = if packets == 0xffff_ffff then 0 else packets in
      let (errors, b) = get_u32 b in
      if ltb max_iso_packets count
      then err (invalid (Types.number_of_packets count))
      else ok (
        submit (record {
          seqnum = seqnum;
          status = st;
          actual_length = actual;
          start_frame = frame;
          number_of_packets = count;
          error_count = errors;
        }),
        r,
      )

  unfoldable pub read_reply_header : R → Result ProtocolError (Reply × R)
  read_reply_header r = do
    (raw, r) ← lift_io (read_exact urb_header_size r)
    let (command, b) = get_u32 raw
    let (seqnum, b) = get_u32 b
    let b = advance 12 b
    if command == usbip_ret_submit
        then submit_reply seqnum b r
        else if command == usbip_ret_unlink
        then ok (unlink (record { seqnum = seqnum; status = (get_i32 b).0 }), r)
        else err (unexpected_command command)

  -- `data.resize` and `read_exact`, unless no data follows.
  unfoldable pub read_data : R → Bool → ℕ → Result ProtocolError (List ℕ × R)
  read_data r expected actual =
      if expected && ltb 0 actual then lift_io (read_exact actual r) else ok ([], r)

  unfoldable pub read_packets : R → ℕ → Result ProtocolError (List IsoPacketDescriptor × R)
  unfolding as_chunks decode_iso_packet
  read_packets r count =
      if ltb 0 count
      then (do
        (raw, r) ← lift_io (read_exact (count * iso_descriptor_size) r)
        ok (map decode_iso_packet (as_chunks iso_descriptor_size raw), r))
      else ok ([], r)

  unfoldable pub read_submit_payload : R → Reply → Bool → ℕ → Result ProtocolError (RetSubmit × R)
  unfolding read_data read_packets
  read_submit_payload r (unlink u) data_expected max_length = err (invalid not_a_ret_submit)
  read_submit_payload r (submit h) data_expected max_length =
      if ltb max_length h.actual_length
      then err (invalid (actual_length_exceeds h.seqnum h.actual_length max_length))
      else (do
        (bytes, r) ← read_data r data_expected h.actual_length
        (packets, r) ← read_packets r h.number_of_packets
        ok (
          record {
            seqnum = h.seqnum;
            status = h.status;
            actual_length = h.actual_length;
            start_frame = h.start_frame;
            error_count = h.error_count;
            payload = bytes;
            iso_packets = packets;
          },
          r,
        ))

  module _ ⦃text : Utf8⦄ where
    unfoldable pub read_device : R → Result ProtocolError (ExportedDevice × R)
    unfolding decode_device
    read_device r = do (raw, r) ← lift_io (read_exact device_size r); ok (decode_device raw, r)

    -- One round of the loop: a device and its interface records.
    unfoldable pub read_listed_device : R → Result ProtocolError (ExportedDevice × R)
    unfolding read_device as_chunks
    read_listed_device r = do
      (device, r) ← read_device r
      (raw, r) ← lift_io (read_exact (device.num_interfaces * interface_size) r)
      ok (record device { interfaces = map interface_of (as_chunks interface_size raw) }, r)

    unfoldable pub read_devices :
        ℕ → R → List ExportedDevice → Result ProtocolError (List ExportedDevice × R)
    unfolding read_listed_device
    read_devices zero r devices = ok (devices, r)
    read_devices (suc count) r devices = do
      (device, r) ← read_listed_device r
      read_devices count r (devices ++ device ∷ [])

    unfoldable pub read_devlist_reply : R → Result ProtocolError (List ExportedDevice × R)
    unfolding read_op_header read_devices
    read_devlist_reply r = do
      r ← read_op_header r op_rep_devlist
      (count, r) ← lift_io (read_u32 r)
      if ltb max_exported_devices count
          then err (invalid (device_count count))
          else read_devices count r []

    unfoldable pub read_import_reply : R → Result ProtocolError (ExportedDevice × R)
    unfolding read_op_header read_device
    read_import_reply r = do r ← read_op_header r op_rep_import; read_device r
