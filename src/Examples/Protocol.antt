-- ===== src/Examples/Protocol.antt =====
-- The wire protocol at concrete inputs.
use usbip_macos.Prelude.{
  ℕ, ◌+◌, ◌*◌, ◌≤◌, ◌<◌, ◌≡◌, ◌⊎◌, refl, List, [], ◌∷◌, ◌++◌, length, replicate, arith, ok, err,
  true, false,
}
use usbip_macos.Prelude.Int.{pos, negsuc}
use usbip_macos.Wire.{be_u16, be_u32, be_i32}
use usbip_macos.Protocol.Types.{
  invalid, CmdSubmit, IsoPacketDescriptor, SubmitHeader, RetUnlink, ExportedDevice, high, submit,
  invalid_busid,
}
use usbip_macos.Protocol.Requests.{
  contains_byte, encode_busid, encode_import_request, encode_submit, encode_devlist_request,
}
use usbip_macos.Protocol.Replies.{read_reply_header, read_submit_payload, read_devlist_reply}
use usbip_macos.Protocol.Layout.{Fields, encode_submit-Fields, isos_bytes}
use usbip_macos.Protocol.Headers.{reply_bytes, ret_submit_body, IsHeader, read_reply_header-submit}
use usbip_macos.Protocol.Payload.{
  ret_of, data_length, read_submit_payload_lem, read_submit_payload-bounded,
}
use usbip_macos.Protocol.Names.{padded, encode_busid_lem, encode_import_request_lem}
use usbip_macos.Protocol.Devices.{devices_bytes, read_devlist_reply_lem}
use usbip_macos.Protocol.Records.{op_header, IsDevice}
use usbip_macos.Examples.Instances.{big_endian, byte_stream, ascii}

abbrev bulk_out : CmdSubmit
bulk_out = record {
  seqnum = 7;
  devid = 0x10002;
  direction = 0;
  ep = 2;
  transfer_flags = 0;
  transfer_buffer_length = 3;
  start_frame = 0;
  interval = 0;
  setup = replicate 8 0;
  payload = 1 ∷ 2 ∷ 3 ∷ [];
  iso_packets = [];
}

encode_submit-Fields_example : Fields bulk_out (encode_submit bulk_out [])
encode_submit-Fields_example = encode_submit-Fields bulk_out (omega arith)

devlist_request : encode_devlist_request ≡ 1 ∷ 0x11 ∷ 0x80 ∷ 5 ∷ 0 ∷ 0 ∷ 0 ∷ 0 ∷ []
unfolding encode_devlist_request
devlist_request = refl

-- "1-1"
abbrev pub bus_1_1 : List ℕ
bus_1_1 = 0x31 ∷ 0x2d ∷ 0x31 ∷ []

bus_1_1_clean : contains_byte bus_1_1 0 ≡ false
unfolding contains_byte
bus_1_1_clean = refl

encode_import_request_lem_example :
    encode_import_request bus_1_1
    ≡ ok (be_u16 0x0111 ++ (be_u16 0x8003 ++ (be_u32 0 ++ padded 32 bus_1_1)))
encode_import_request_lem_example = encode_import_request_lem bus_1_1 (omega arith) bus_1_1_clean

encode_busid_lem_example :
    ((length bus_1_1 < 32)
      × (contains_byte bus_1_1 0 ≡ false)
      × (encode_busid bus_1_1 ≡ ok (padded 32 bus_1_1))
      × (length (padded 32 bus_1_1) ≡ 32))
    ⊎ (((32 ≤ length bus_1_1) ⊎ (contains_byte bus_1_1 0 ≡ true))
        × (encode_busid bus_1_1 ≡ err (invalid (invalid_busid bus_1_1))))
encode_busid_lem_example = encode_busid_lem bus_1_1

-- A short interrupt read: two of eight bytes.
abbrev short_read : SubmitHeader
short_read = record {
  seqnum = 9;
  status = pos 0;
  actual_length = 2;
  start_frame = 0;
  number_of_packets = 0;
  error_count = 0;
}

abbrev short_read_bytes : List ℕ
short_read_bytes = reply_bytes 3 9 0 0 0 (ret_submit_body short_read 0xffff_ffff (replicate 8 0))

short_read-IsHeader : IsHeader short_read
short_read-IsHeader = omega arith

read_reply_header-submit_example :
    (r' : List ℕ) × (read_reply_header (short_read_bytes ++ (5 ∷ [])) ≡ ok (submit short_read, r'))
    × (r' ≡ 5 ∷ [])
read_reply_header-submit_example =
    read_reply_header-submit (short_read_bytes ++ (5 ∷ [])) short_read 0xffff_ffff 0 0 0
      (replicate 8 0) (5 ∷ []) short_read-IsHeader (omega arith) refl refl

abbrev unlinked_reply : RetUnlink
unlinked_reply = record { seqnum = 12; status = negsuc 103 }

abbrev unlinked_bytes : List ℕ
unlinked_bytes = reply_bytes 4 12 0 0 0 (be_i32 (negsuc 103) ++ replicate 24 0)

abbrev iso_packet : IsoPacketDescriptor
iso_packet = record { offset = 0; length = 4; actual_length = 2; status = negsuc 17 }

abbrev iso_read : SubmitHeader
iso_read = record short_read { number_of_packets = 1 }

abbrev iso_read_bytes : List ℕ
iso_read_bytes = (7 ∷ 8 ∷ []) ++ (isos_bytes (iso_packet ∷ []) ++ (1 ∷ []))

read_submit_payload_lem_example :
    (r' : List ℕ) × (read_submit_payload iso_read_bytes (submit iso_read) true 4
      ≡ ok (ret_of iso_read (7 ∷ 8 ∷ []) (iso_packet ∷ []), r'))
    × (r' ≡ 1 ∷ [])
read_submit_payload_lem_example =
    read_submit_payload_lem iso_read_bytes iso_read true 4 (7 ∷ 8 ∷ []) (1 ∷ []) (iso_packet ∷ [])
      (omega arith) refl refl (omega arith) refl

abbrev two_bytes : List ℕ
two_bytes = 7 ∷ 8 ∷ []

abbrev three_bytes : List ℕ
three_bytes = 7 ∷ 8 ∷ 9 ∷ []

short_read_payload :
    read_submit_payload three_bytes (submit short_read) true 8
    ≡ ok (ret_of short_read (7 ∷ 8 ∷ []) [], 9 ∷ [])
unfolding read_submit_payload
short_read_payload = refl

read_submit_payload-bounded_example :
    (2 ≤ 8)
    × (◌≡◌ {A = ℕ} 2 (data_length true 2))
    × (◌≡◌ {A = ℕ} 0 0)
    × (◌≡◌ {A = ℕ} 3 (2 + 0 * 16 + 1))
read_submit_payload-bounded_example =
    read_submit_payload-bounded three_bytes short_read true 8 (ret_of short_read (7 ∷ 8 ∷ []) [])
      (9 ∷ []) short_read_payload

abbrev pub disk : ExportedDevice
disk = record {
  path = 0x2f ∷ 0x73 ∷ [];
  busid = bus_1_1;
  busnum = 1;
  devnum = 4;
  speed = high;
  id_vendor = 0x0951;
  id_product = 0x1666;
  bcd_device = 0x0110;
  device_class = 0;
  device_subclass = 0;
  device_protocol = 0;
  configuration_value = 1;
  num_configurations = 1;
  num_interfaces = 1;
  interfaces = record { class = 8; subclass = 6; protocol = 0x50 } ∷ [];
}

pub disk-IsDevice : IsDevice disk
unfolding contains_byte
disk-IsDevice = record {
  path_fits = omega arith;
  path_clean = refl;
  path_text = omega arith;
  busid_fits = omega arith;
  busid_clean = refl;
  busid_text = omega arith;
  busnum_fits = omega arith;
  devnum_fits = omega arith;
  vendor_fits = omega arith;
  product_fits = omega arith;
  bcd_fits = omega arith;
  interfaces_counted = refl;
}

abbrev pub list_reply : List ℕ
list_reply = op_header 0x0111 5 0 ++ (be_u32 1 ++ (devices_bytes (disk ∷ []) ++ []))

read_devlist_reply_lem_example :
    (r' : List ℕ) × (read_devlist_reply list_reply ≡ ok (disk ∷ [], r')) × (r' ≡ [])
read_devlist_reply_lem_example =
    read_devlist_reply_lem list_reply 0x0111 (disk ∷ []) [] (omega arith) (disk-IsDevice, tt) refl
