-- ===== src/Main.antt =====
-- The import of a device in src/main.rs. `connection i` is the stream that the `i`-th call of `connect`
-- gives.
use usbip_macos.Prelude.{
  ℕ, ◌≡◌, ◌≤◌, refl, ap, subst, true, Bool-cases, List, [], ◌∷◌, ◌++◌, length, Option, none, some,
  All, inl, inr, Result, ok, err, ◌>>=◌, map_err,
}
use usbip_macos.Wire.{Buf, Reader, Writer, Utf8, IoError, be_u32}
use usbip_macos.Protocol.Types.{ProtocolError, ExportedDevice, devid}
use usbip_macos.Protocol.Requests.{encode_devlist_request, encode_import_request}
use usbip_macos.Protocol.Devices.{devices_bytes}
use usbip_macos.Protocol.Records.{op_header, device_bytes, IsDevice}
use usbip_macos.Client.State.{Shared, start}
use usbip_macos.Client.Connect.{list_devices, import, list_devices_lem, import_lem}
use usbip_macos.Cli.{Selector, matches, find, same_name_refl}

pub data AttachError : Type 0 where
  not_connected : IoError → AttachError
  protocol_failed : ProtocolError → AttachError
  no_device : Selector → AttachError

-- `ok_or_else`
unfoldable pub found_or : Selector → Option ExportedDevice → Result AttachError ExportedDevice
found_or selector none = err (no_device selector)
found_or selector (some d) = ok d

some-injective : {A : Type 0} (x y : A) → some x ≡ some y → x ≡ y
some-injective x y e = ap (λ o. elim o [ none ↦ x | some z ↦ z ]) e

find-matches :
    (selector : Selector) (ds : List ExportedDevice) (d : ExportedDevice)
    → find selector ds ≡ some d
    → matches selector d ≡ true
unfolding find
find-matches selector [] d e = cc
find-matches selector (x ∷ ds) d e = elim (Bool-cases (matches selector x)) [
  | inl hit ↦
      subst (λ (y : ExportedDevice). matches selector y ≡ true)
        (some-injective x d (rw (hit, find) at e)) hit
  | inr miss ↦ find-matches selector ds d (rw (miss, find) at e)
]

module _ {S : Type 0} ⦃buf : Buf⦄ ⦃text : Utf8⦄ ⦃rd : Reader S⦄ ⦃wr : Writer S⦄ where
  open rd use {pending}
  open wr use {write_all}

  -- The server closes the connection after a device list, so importing needs a new one.
  unfoldable pub import_selected :
      (ℕ → Result IoError S) → Selector → Result AttachError ((ExportedDevice × Shared) × S)
  import_selected connection selector = do
    s ← map_err not_connected (connection 0)
    (devices, s) ← map_err protocol_failed (list_devices s)
    device ← found_or selector (find selector devices)
    s ← map_err not_connected (connection 1)
    map_err protocol_failed (import s device.busid)

  -- When the server lists at most 4096 devices on the first connection and `d` is the first of them that
  -- is selected, and grants its import on the second with the record of `d`, the session starts with `d`,
  -- and `d` is selected.
  pub import_first :
      (connection : ℕ → Result IoError S) (selector : Selector) (ds : List ExportedDevice)
      → (d : ExportedDevice) (s0 s0' s1 s1' : S) (request rest rest' : List ℕ) (version : ℕ)
      → connection 0 ≡ ok s0
      → write_all encode_devlist_request s0 ≡ ok s0'
      → length ds ≤ 4096
      → All IsDevice ds
      → pending s0' ≡ op_header version 5 0 ++ (be_u32 (length ds) ++ (devices_bytes ds ++ rest))
      → find selector ds ≡ some d
      → connection 1 ≡ ok s1
      → encode_import_request d.busid ≡ ok request
      → write_all request s1 ≡ ok s1'
      → IsDevice d
      → pending s1' ≡ op_header version 3 0 ++ (device_bytes d ++ rest')
      → ((r : S) × (import_selected connection selector
            ≡ ok ((record d { interfaces = [] }, start (devid d)), r)))
        × (matches selector d ≡ true)
  unfolding import_selected found_or
  import_first connection selector ds d s0 s0' s1 s1' request rest rest' version c0 w0 few all p0
        first c1 er w1 dev p1 =
      let (r0, e0, q0) = list_devices_lem s0 s0' version ds rest w0 few all p0 in
      let (r1, e1) = import_lem s1 s1' d.busid request version d rest' er w1 dev p1 in
      (
        (r1, rw (c0, e0, first, c1, e1, same_name_refl d.busid) refl),
        find-matches selector ds d first,
      )
