-- ===== src/Client/Connect.antt =====
-- `list_devices` and `import` of src/client.rs, the exchanges before a session starts. `S` is a
-- stream that is read and written.
use usbip_macos.Prelude.{
  ℕ, ◌≡◌, Bool, true, false, not, ◌&&◌, List, [], ◌∷◌, ◌++◌, length, ◌==◌, if◌then◌else◌, Result,
  ok, err, ◌>>=◌, map_err, All, ◌≤◌, arith,
}
use usbip_macos.Wire.{Buf, Reader, Writer, Utf8, be_u32}
use usbip_macos.Protocol.Types.{ProtocolError, io, invalid, imported_busid, ExportedDevice, devid}
use usbip_macos.Protocol.Requests.{encode_devlist_request, encode_import_request}
use usbip_macos.Protocol.Replies.{read_devlist_reply, read_import_reply}
use usbip_macos.Protocol.Devices.{devices_bytes, read_devlist_reply_lem, read_import_reply_lem}
use usbip_macos.Protocol.Records.{op_header, device_bytes, IsDevice}
use usbip_macos.Client.State.{Shared, start}

unfoldable pub same_name : List ℕ → List ℕ → Bool
same_name [] [] = true
same_name [] (y ∷ ys) = false
same_name (x ∷ xs) [] = false
same_name (x ∷ xs) (y ∷ ys) = x == y && same_name xs ys

module _ {S : Type 0} ⦃buf : Buf⦄ ⦃text : Utf8⦄ ⦃rd : Reader S⦄ ⦃wr : Writer S⦄ where
  open rd use {pending}
  open wr use {write_all}

  unfoldable pub list_devices : S → Result ProtocolError (List ExportedDevice × S)
  list_devices s = do s ← map_err io (write_all encode_devlist_request s); read_devlist_reply s

  -- The session that starts has the device and what its tasks share.
  unfoldable pub import : S → List ℕ → Result ProtocolError ((ExportedDevice × Shared) × S)
  import s busid = do
    request ← encode_import_request busid
    s ← map_err io (write_all request s)
    (device, s) ← read_import_reply s
    if not (same_name device.busid busid)
        then err (invalid (imported_busid device.busid busid))
        else ok ((device, start (devid device)), s)

  -- When the server answers the request with a list of at most 4096 devices, that list is returned.
  pub list_devices_lem :
      (s s' : S) (version : ℕ) (ds : List ExportedDevice) (rest : List ℕ)
      → write_all encode_devlist_request s ≡ ok s'
      → length ds ≤ 4096
      → All IsDevice ds
      → pending s' ≡ op_header version 5 0 ++ (be_u32 (length ds) ++ (devices_bytes ds ++ rest))
      → (r' : S) × (list_devices s ≡ ok (ds, r')) × (pending r' ≡ rest)
  unfolding list_devices
  list_devices_lem s s' version ds rest w hl v e =
      let (r', eq, p) = read_devlist_reply_lem s' version ds rest hl v e in (r', rw w eq, p)

  -- When the server grants the import, the session starts with the device of its record if that has
  -- the name that was asked for, and else the import is refused with both names.
  pub import_lem :
      (s s' : S) (busid request : List ℕ) (version : ℕ) (d : ExportedDevice) (rest : List ℕ)
      → encode_import_request busid ≡ ok request
      → write_all request s ≡ ok s'
      → IsDevice d
      → pending s' ≡ op_header version 3 0 ++ (device_bytes d ++ rest)
      → (r' : S) × (import s busid ≡ (
          if same_name d.busid busid
          then ok ((record d { interfaces = [] }, start (devid d)), r')
          else err (invalid (imported_busid d.busid busid))))
  unfolding import devid
  import_lem s s' busid request version d rest er w v e =
      let (r', eq) = read_import_reply_lem s' version 0 d rest (omega arith) v e in
      (r', rw (er, w, eq) (ground arith))
