-- ===== src/Protocol/Devices.antt =====
-- Reading the replies that describe devices: OP_REP_DEVLIST and OP_REP_IMPORT.
use usbip_macos.Prelude.{
  ℕ, ◌*◌, ◌^◌, ◌<◌, ◌≤◌, ◌≡◌, refl, ap, ◌∙◌, List, [], ◌∷◌, ◌++◌, length, length-append,
  append_assoc, append-nil, arith, ok, err, ◌==◌, if◌then◌else◌, All, map, lt→ltb, le→ltb,
}
use usbip_macos.Wire.{Buf, Reader, Utf8, be_u32, of_be2-be_u16, of_be4-be_u32}
use usbip_macos.Wire.Streams.{read_exact_bytes}
use usbip_macos.Protocol.Types.{
  ProtocolError, unexpected_reply, invalid, device_count, Interface, Speed, unknown, low, full,
  high, wireless, super, super_plus, speed_from_u32, ExportedDevice,
}
use usbip_macos.Protocol.Types
use usbip_macos.Protocol.Replies.{
  interface_of, read_op_header, read_device, read_listed_device, read_devices, read_devlist_reply,
  read_import_reply,
}
use usbip_macos.Protocol.Chunks.{join, as_chunks-join}
use usbip_macos.Protocol.Names.{padded}
use usbip_macos.Protocol.Records.{
  op_header, device_numbers, device_bytes, interface_bytes, IsDevice, length-padded,
  decode_device-device_bytes,
}

-- The bytes that follow a device record in a list of devices.
unfoldable pub listed_bytes : ExportedDevice → List ℕ
unfolding device_bytes
listed_bytes d = device_bytes d ++ join (map interface_bytes d.interfaces)

unfoldable pub devices_bytes : List ExportedDevice → List ℕ
unfolding listed_bytes
devices_bytes [] = []
devices_bytes (d ∷ ds) = listed_bytes d ++ devices_bytes ds

interface_sizes : (is : List Interface) → All (λ b. length b ≡ 4) (map interface_bytes is)
interface_sizes [] = tt
interface_sizes (i ∷ is) = (refl, interface_sizes is)

interfaces_back : (is : List Interface) → map interface_of (map interface_bytes is) ≡ is
interfaces_back [] = refl
interfaces_back (i ∷ is) = ap (λ (t : List Interface). i ∷ t) (interfaces_back is)

length-interfaces : (is : List Interface) → length (join (map interface_bytes is)) ≡ length is * 4
length-interfaces [] = refl
length-interfaces (i ∷ is) = omega (arith, length-interfaces is)

length-device_bytes :
    ⦃text : Utf8⦄ (d : ExportedDevice) → IsDevice d → length (device_bytes d) ≡ 312
unfolding device_bytes device_numbers
length-device_bytes d v = omega (
  arith,
  length-append (padded 256 d.path) (padded 32 d.busid ++ device_numbers d),
  length-append (padded 32 d.busid) (device_numbers d),
  length-padded 256 d.path v.path_fits,
  length-padded 32 d.busid v.busid_fits,
)

module _ {R : Type 0} ⦃buf : Buf⦄ ⦃rd : Reader R⦄ where
  open buf use {get_u16_lem, get_u32_lem}
  open rd use {pending, read_u32_full}

  -- The header of a reply is checked for its operation first and its status then.
  pub read_op_header_lem :
      (r : R) (version code st expected : ℕ) (rest : List ℕ)
      → code < 2 ^ 16
      → st < 2 ^ 32
      → pending r ≡ op_header version code st ++ rest
      → (r' : R) × (read_op_header r expected ≡ (
          if code == expected
          then (if st == 0 then ok r' else err (Types.status st))
          else err (unexpected_reply expected code)))
        × (pending r' ≡ rest)
  unfolding read_op_header op_header
  read_op_header_lem r version code st expected rest hc hs e =
      let (r', e', p) = read_exact_bytes 8 r (op_header version code st) rest refl e in
      (
        r',
        simp (e', get_u16_lem, get_u32_lem, of_be2-be_u16 code hc, of_be4-be_u32 st hs)
            (ground arith),
        p,
      )

  module _ ⦃text : Utf8⦄ where
    read_device_lem :
        (r : R) (d : ExportedDevice) (rest : List ℕ)
        → IsDevice d
        → pending r ≡ device_bytes d ++ rest
        → (r' : R) × (read_device r ≡ ok (record d { interfaces = [] }, r')) × (pending r' ≡ rest)
    unfolding read_device
    read_device_lem r d rest v e =
        let (r', e', p) =
          read_exact_bytes 312 r (device_bytes d) rest (length-device_bytes d v) e in
        (r', rw (e', decode_device-device_bytes d v), p)

    read_listed_device_lem :
        (r : R) (d : ExportedDevice) (rest : List ℕ)
        → IsDevice d
        → pending r ≡ listed_bytes d ++ rest
        → (r' : R) × (read_listed_device r ≡ ok (d, r')) × (pending r' ≡ rest)
    unfolding read_listed_device listed_bytes
    read_listed_device_lem r d rest v e =
        let raw = join (map interface_bytes d.interfaces) in
        let (r1, e1, p1) =
          read_device_lem r d (raw ++ rest) v (e ∙ append_assoc (device_bytes d) raw rest) in
        let (r2, e2, p2) =
          read_exact_bytes (d.num_interfaces * 4) r1 raw rest
            (length-interfaces d.interfaces ∙ ap (λ (t : ℕ). t * 4) v.interfaces_counted) p1 in
        (
          r2,
          rw (
            e1,
            e2,
            as_chunks-join 4 (map interface_bytes d.interfaces) (omega arith)
                (interface_sizes d.interfaces),
            interfaces_back d.interfaces,
          ),
          p2,
        )

    read_devices_lem :
        (ds : List ExportedDevice) (r : R) (acc : List ExportedDevice) (rest : List ℕ)
        → All IsDevice ds
        → pending r ≡ devices_bytes ds ++ rest
        → (r' : R) × (read_devices (length ds) r acc ≡ ok (acc ++ ds, r')) × (pending r' ≡ rest)
    unfolding read_devices devices_bytes
    read_devices_lem [] r acc rest v e = (r, rw append-nil, e)
    read_devices_lem (d ∷ ds) r acc rest v e =
        let (r1, e1, p1) =
          read_listed_device_lem r d (devices_bytes ds ++ rest) v.0
            (e ∙ append_assoc (listed_bytes d) (devices_bytes ds) rest) in
        let (r2, e2, p2) = read_devices_lem ds r1 (acc ++ d ∷ []) rest v.1 p1 in
        (
          r2,
          rw (e1, e2) (ap (λ (t : List ExportedDevice). ok (t, r2)) (append_assoc acc (d ∷ []) ds)),
          p2,
        )

    -- A list of at most 4096 devices is read back, device for device and interface for interface.
    pub read_devlist_reply_lem :
        (r : R) (version : ℕ) (ds : List ExportedDevice) (rest : List ℕ)
        → length ds ≤ 4096
        → All IsDevice ds
        → pending r ≡ op_header version 5 0 ++ (be_u32 (length ds) ++ (devices_bytes ds ++ rest))
        → (r' : R) × (read_devlist_reply r ≡ ok (ds, r')) × (pending r' ≡ rest)
    unfolding read_devlist_reply
    read_devlist_reply_lem r version ds rest hl v e =
        let (r1, e1, p1) = read_op_header_lem r version 5 0 5 _ (omega arith) (omega arith) e in
        let (r2, e2, p2) = read_u32_full r1 _ _ _ _ (devices_bytes ds ++ rest) p1 in
        let (r3, e3, p3) = read_devices_lem ds r2 [] rest v p2 in
        (
          r3,
          rw (e1, e2, of_be4-be_u32 (length ds) (omega arith), le→ltb 4096 (length ds) hl) e3,
          p3,
        )

    -- More devices than that are refused, whatever follows.
    pub read_devlist_reply_too_many :
        (r : R) (version count : ℕ) (rest : List ℕ)
        → count < 2 ^ 32
        → 4096 < count
        → pending r ≡ op_header version 5 0 ++ (be_u32 count ++ rest)
        → read_devlist_reply r ≡ err (invalid (device_count count))
    unfolding read_devlist_reply
    read_devlist_reply_too_many r version count rest hc hl e =
        let (r1, e1, p1) = read_op_header_lem r version 5 0 5 _ (omega arith) (omega arith) e in
        let (r2, e2, p2) = read_u32_full r1 _ _ _ _ rest p1 in
        rw (e1, e2, of_be4-be_u32 count hc, lt→ltb 4096 count hl)

    -- An import that the server grants yields the device; its status is the error otherwise.
    pub read_import_reply_lem :
        (r : R) (version st : ℕ) (d : ExportedDevice) (rest : List ℕ)
        → st < 2 ^ 32
        → IsDevice d
        → pending r ≡ op_header version 3 st ++ (device_bytes d ++ rest)
        → (r' : R) × (read_import_reply r
            ≡ (if st == 0 then ok (record d { interfaces = [] }, r') else err (Types.status st)))
    unfolding read_import_reply
    read_import_reply_lem r version st d rest hs v e =
        let (r1, e1, p1) = read_op_header_lem r version 3 st 3 _ (omega arith) hs e in
        let (r2, e2, p2) = read_device_lem r1 d rest v p1 in (r2, rw e1 (ground (arith, e2)))
