-- ===== src/Protocol/Records.antt =====
-- The record of a device in the replies that describe devices.
use usbip_macos.Prelude.{
  ℕ, ◌-◌, ◌^◌, ◌<◌, ◌≤◌, ◌≡◌, refl, sym, ap, ◌∙◌, List, [], ◌∷◌, ◌++◌, length, length-append,
  length-replicate, append_assoc, arith, false, take, drop, replicate, take-append_of,
  drop-append_of,
}
use usbip_macos.Wire.{Buf, Utf8, be_u16, be_u32, of_be2-be_u16, of_be4-be_u32}
use usbip_macos.Protocol.Types.{
  Interface, Speed, unknown, low, full, high, wireless, super, super_plus, speed_from_u32,
  ExportedDevice,
}
use usbip_macos.Protocol.Requests.{contains_byte}
use usbip_macos.Protocol.Replies.{c_string, decode_numbers, decode_device}
use usbip_macos.Protocol.Names.{padded, c_string-padded}

unfoldable pub op_header : ℕ → ℕ → ℕ → List ℕ
op_header version code st = be_u16 version ++ (be_u16 code ++ be_u32 st)

unfoldable pub speed_code : Speed → ℕ
speed_code unknown = 0
speed_code low = 1
speed_code full = 2
speed_code high = 3
speed_code wireless = 4
speed_code super = 5
speed_code super_plus = 6

-- The fixed fields after the two names of a device record.
unfoldable pub device_numbers : ExportedDevice → List ℕ
device_numbers d =
    be_u32 d.busnum
    ++ (be_u32 d.devnum
        ++ (be_u32 (speed_code d.speed)
            ++ (be_u16 d.id_vendor
                ++ (be_u16 d.id_product
                    ++ (be_u16 d.bcd_device
                        ++ (d.device_class ∷ d.device_subclass ∷ d.device_protocol
                            ∷ d.configuration_value ∷ d.num_configurations ∷ d.num_interfaces
                            ∷ []))))))

-- The 312 bytes of a device record.
unfoldable pub device_bytes : ExportedDevice → List ℕ
unfolding device_numbers speed_code
device_bytes d = padded 256 d.path ++ (padded 32 d.busid ++ device_numbers d)

-- Each interface has a fourth byte of padding.
abbrev pub interface_bytes : Interface → List ℕ
interface_bytes i = i.class ∷ i.subclass ∷ i.protocol ∷ 0 ∷ []

pub record IsDevice ⦃text : Utf8⦄ (d : ExportedDevice) : Type 0 where
  pub path_fits : length d.path ≤ 256
  pub path_clean : contains_byte d.path 0 ≡ false
  pub path_text : text.IsText d.path
  pub busid_fits : length d.busid ≤ 32
  pub busid_clean : contains_byte d.busid 0 ≡ false
  pub busid_text : text.IsText d.busid
  pub busnum_fits : d.busnum < 2 ^ 32
  pub devnum_fits : d.devnum < 2 ^ 32
  pub vendor_fits : d.id_vendor < 2 ^ 16
  pub product_fits : d.id_product < 2 ^ 16
  pub bcd_fits : d.bcd_device < 2 ^ 16
  pub interfaces_counted : length d.interfaces ≡ d.num_interfaces

pub length-padded :
    (size : ℕ) (name : List ℕ) → length name ≤ size → length (padded size name) ≡ size
length-padded size name h = omega (
  arith,
  length-append name (replicate (size - length name) 0),
  length-replicate {A = ℕ} (size - length name) 0,
)

speed_from_u32-speed_code : (s : Speed) → speed_from_u32 (speed_code s) ≡ s
unfolding speed_from_u32 speed_code
speed_from_u32-speed_code unknown = refl
speed_from_u32-speed_code low = refl
speed_from_u32-speed_code full = refl
speed_from_u32-speed_code high = refl
speed_from_u32-speed_code wireless = refl
speed_from_u32-speed_code super = refl
speed_from_u32-speed_code super_plus = refl

speed_code-lt : (s : Speed) → speed_code s < 2 ^ 32
unfolding speed_code
speed_code-lt s = ground arith

module _ ⦃buf : Buf⦄ ⦃text : Utf8⦄ where
  open buf use {get_u8_lem, get_u16_lem, get_u32_lem}

  decode_numbers_lem :
      (d : ExportedDevice)
      → IsDevice d
      → decode_numbers d.path d.busid (device_numbers d) ≡ record d { interfaces = [] }
  unfolding decode_numbers device_numbers
  decode_numbers_lem d v = simp (
    get_u8_lem,
    get_u16_lem,
    get_u32_lem,
    of_be4-be_u32 d.busnum v.busnum_fits,
    of_be4-be_u32 d.devnum v.devnum_fits,
    of_be4-be_u32 (speed_code d.speed) (speed_code-lt d.speed),
    speed_from_u32-speed_code d.speed,
    of_be2-be_u16 d.id_vendor v.vendor_fits,
    of_be2-be_u16 d.id_product v.product_fits,
    of_be2-be_u16 d.bcd_device v.bcd_fits,
  )

  decode_device_lem :
      (raw : List ℕ)
      → decode_device raw
        ≡ decode_numbers
            (c_string (take 256 raw))
            (c_string (take 32 (drop 256 raw)))
            (drop 288 raw)
  unfolding decode_device
  decode_device_lem raw = refl

  -- A device record is decoded to the device that it describes, less its interfaces.
  pub decode_device-device_bytes :
      (d : ExportedDevice)
      → IsDevice d
      → decode_device (device_bytes d) ≡ record d { interfaces = [] }
  decode_device-device_bytes d v =
      let path = padded 256 d.path in
      let busid = padded 32 d.busid in
      let path_length = length-padded 256 d.path v.path_fits in
      let busid_length = length-padded 32 d.busid v.busid_fits in
      let numbers : drop 288 (device_bytes d) ≡ device_numbers d =
        unfold device_bytes in
        (ap (drop 288) (sym (append_assoc path busid (device_numbers d)))
          ∙ drop-append_of 288 (path ++ busid) (device_numbers d)
              (omega (arith, length-append path busid, path_length, busid_length))) in
      let name : take 32 (drop 256 (device_bytes d)) ≡ busid =
        unfold device_bytes in
        (ap (take 32) (drop-append_of 256 path (busid ++ device_numbers d) path_length)
          ∙ take-append_of 32 busid (device_numbers d) busid_length) in
      let where_from : take 256 (device_bytes d) ≡ path =
        unfold device_bytes in take-append_of 256 path (busid ++ device_numbers d) path_length in
      rw
        (
          decode_device_lem (device_bytes d),
          where_from,
          name,
          numbers,
          c_string-padded 256 d.path v.path_clean v.path_text,
          c_string-padded 32 d.busid v.busid_clean v.busid_text,
        )
        (decode_numbers_lem d v)
