-- ===== src/Protocol/Types.antt =====
-- The constants and types of src/protocol.rs. A byte is a number below 256, a string its UTF-8
-- bytes, and an error message the constructor of `Reason` for its format string.
use usbip_macos.Prelude.{
  ℕ, ◌*◌, ◌%◌, ◌^◌, Bool, true, false, List, [], ◌∷◌, bit_and, bit_or, ◌==◌, if◌then◌else◌,
}
use usbip_macos.Prelude.Int.{ℤ}
use usbip_macos.Wire.{IoError}

abbrev pub usbip_version : ℕ
usbip_version = 0x0111

abbrev pub op_req_devlist : ℕ
op_req_devlist = 0x8005

abbrev pub op_rep_devlist : ℕ
op_rep_devlist = 0x0005

abbrev pub op_req_import : ℕ
op_req_import = 0x8003

abbrev pub op_rep_import : ℕ
op_rep_import = 0x0003

abbrev pub usbip_cmd_submit : ℕ
usbip_cmd_submit = 1

abbrev pub usbip_cmd_unlink : ℕ
usbip_cmd_unlink = 2

abbrev pub usbip_ret_submit : ℕ
usbip_ret_submit = 3

abbrev pub usbip_ret_unlink : ℕ
usbip_ret_unlink = 4

abbrev pub urb_iso_asap : ℕ
urb_iso_asap = 0x0002

abbrev pub port_reset_setup : List ℕ
port_reset_setup = 0x23 ∷ 0x03 ∷ 0x04 ∷ 0x00 ∷ 0x01 ∷ 0x00 ∷ 0x00 ∷ 0x00 ∷ []

abbrev pub op_header_size : ℕ
op_header_size = 8

abbrev pub busid_size : ℕ
busid_size = 32

abbrev pub path_size : ℕ
path_size = 256

abbrev pub device_size : ℕ
device_size = 312

abbrev pub interface_size : ℕ
interface_size = 4

abbrev pub urb_header_size : ℕ
urb_header_size = 48

abbrev pub iso_descriptor_size : ℕ
iso_descriptor_size = 16

abbrev pub max_iso_packets : ℕ
max_iso_packets = 1024

abbrev pub max_exported_devices : ℕ
max_exported_devices = 4096

-- The arguments of `ProtocolError::Invalid`, a constructor for each format string.
pub data Reason : Type 0 where
  invalid_busid : List ℕ → Reason
  device_count : ℕ → Reason
  number_of_packets : ℕ → Reason
  not_a_ret_submit : Reason
  actual_length_exceeds : ℕ → ℕ → ℕ → Reason
  imported_busid : List ℕ → List ℕ → Reason
  unknown_seqnum : ℕ → Reason

pub data ProtocolError : Type 0 where
  io : IoError → ProtocolError
  unexpected_reply : ℕ → ℕ → ProtocolError
  status : ℕ → ProtocolError
  unexpected_command : ℕ → ProtocolError
  invalid : Reason → ProtocolError

pub data Direction : Type 0 where
  dir_out dir_in : Direction

-- `direction as u32`
abbrev pub direction_code : Direction → ℕ
direction_code dir_out = 0
direction_code dir_in = 1

-- `direction == Direction::Out` and `direction == Direction::In`
abbrev pub is_out : Direction → Bool
is_out dir_out = true
is_out dir_in = false

abbrev pub is_in : Direction → Bool
is_in dir_out = false
is_in dir_in = true

unfoldable pub of_endpoint : ℕ → Direction
of_endpoint address = if bit_and address 0x80 == 0 then dir_out else dir_in

pub data Speed : Type 0 where
  unknown low full high wireless super super_plus : Speed

unfoldable pub speed_from_u32 : ℕ → Speed
speed_from_u32 value =
    if value == 1
    then low
    else if value == 2
    then full
    else if value == 3
    then high
    else if value == 4
    then wireless
    else if value == 5
    then super
    else if value == 6
    then super_plus
    else unknown

pub record Interface : Type 0 where
  pub class : ℕ
  pub subclass : ℕ
  pub protocol : ℕ

pub record ExportedDevice : Type 0 where
  pub path : List ℕ
  pub busid : List ℕ
  pub busnum : ℕ
  pub devnum : ℕ
  pub speed : Speed
  pub id_vendor : ℕ
  pub id_product : ℕ
  pub bcd_device : ℕ
  pub device_class : ℕ
  pub device_subclass : ℕ
  pub device_protocol : ℕ
  pub configuration_value : ℕ
  pub num_configurations : ℕ
  pub num_interfaces : ℕ
  pub interfaces : List Interface

-- `(self.busnum << 16) | (self.devnum & 0xffff)` on a `u32`
unfoldable pub devid : ExportedDevice → ℕ
devid d = bit_or (d.busnum * 2 ^ 16 % 2 ^ 32) (bit_and d.devnum 0xffff)

pub record IsoPacketDescriptor : Type 0 where
  pub offset : ℕ
  pub length : ℕ
  pub actual_length : ℕ
  pub status : ℤ

pub record CmdSubmit : Type 0 where
  pub seqnum : ℕ
  pub devid : ℕ
  pub direction : ℕ
  pub ep : ℕ
  pub transfer_flags : ℕ
  pub transfer_buffer_length : ℕ
  pub start_frame : ℕ
  pub interval : ℕ
  pub setup : List ℕ
  pub payload : List ℕ
  pub iso_packets : List IsoPacketDescriptor

pub record CmdUnlink : Type 0 where
  pub seqnum : ℕ
  pub devid : ℕ
  pub unlink_seqnum : ℕ

pub record RetSubmit : Type 0 where
  pub seqnum : ℕ
  pub status : ℤ
  pub actual_length : ℕ
  pub start_frame : ℕ
  pub error_count : ℕ
  pub payload : List ℕ
  pub iso_packets : List IsoPacketDescriptor

pub record RetUnlink : Type 0 where
  pub seqnum : ℕ
  pub status : ℤ

-- The fields of `Reply::Submit`.
pub record SubmitHeader : Type 0 where
  pub seqnum : ℕ
  pub status : ℤ
  pub actual_length : ℕ
  pub start_frame : ℕ
  pub number_of_packets : ℕ
  pub error_count : ℕ

pub data Reply : Type 0 where
  submit : SubmitHeader → Reply
  unlink : RetUnlink → Reply
