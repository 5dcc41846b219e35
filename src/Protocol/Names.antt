-- ===== src/Protocol/Names.antt =====
-- Bus ids and paths in their fixed fields, and the numbers made of a device's fields.
use usbip_macos.Prelude.{
  ℕ, zero, suc, ◌+◌, ◌-◌, ◌*◌, ◌/◌, ◌%◌, ◌^◌, ◌<◌, ◌≤◌, ◌≡◌, ◌⊎◌, inl, inr, refl, ap, ◌∙◌, List, [],
  ◌∷◌, ◌++◌, length, length-append, length-replicate, append_assoc, arith, ok, err, leb, true,
  false, take, replicate, take-append, Bool-cases,
}
use usbip_macos.Prelude.Bits.{bit_and_mask, bit_and_shifted, bit_or_shifted, bit_and-one}
use usbip_macos.Wire.{Buf, Utf8, be_u16, be_u32}
use usbip_macos.Protocol.Types.{
  invalid, invalid_busid, ExportedDevice, devid, dir_in, dir_out, of_endpoint,
}
use usbip_macos.Protocol.Requests.{contains_byte, encode_busid, encode_import_request}
use usbip_macos.Protocol.Replies.{end_of_string, c_string}

-- A name in a field of fixed size: its bytes, then zeros.
abbrev pub padded : ℕ → List ℕ → List ℕ
padded size name = name ++ replicate (size - length name) 0

-- Where the name ends, if it holds no zero byte and a zero byte or the end of the field follows.
end_of_string-append :
    (name : List ℕ) (n : ℕ)
    → contains_byte name 0 ≡ false
    → end_of_string (name ++ replicate n 0) ≡ length name
unfolding end_of_string contains_byte
end_of_string-append [] zero h = refl
end_of_string-append [] (suc n) h = refl
end_of_string-append (x ∷ xs) n h = ground (arith, end_of_string-append xs n)

-- A text with no zero byte is read back from its field.
pub c_string-padded :
    ⦃text : Utf8⦄ (size : ℕ) (name : List ℕ)
    → contains_byte name 0 ≡ false
    → text.IsText name
    → c_string (padded size name) ≡ name
unfolding c_string
c_string-padded ⦃text⦄ size name h valid =
    ap text.lossy (
      ap (λ (t : ℕ). take t (padded size name)) (end_of_string-append name (size - length name) h)
      ∙ take-append name (replicate (size - length name) 0))
    ∙ text.lossy_lem name valid

-- `encode_busid` accepts exactly the names of fewer than 32 bytes with no zero byte, and pads them
-- to 32 bytes; any other name is refused with an error that holds it.
pub encode_busid_lem :
    (busid : List ℕ)
    → ((length busid < 32)
        × (contains_byte busid 0 ≡ false)
        × (encode_busid busid ≡ ok (padded 32 busid))
        × (length (padded 32 busid) ≡ 32))
      ⊎ (((32 ≤ length busid) ⊎ (contains_byte busid 0 ≡ true))
          × (encode_busid busid ≡ err (invalid (invalid_busid busid))))
unfolding encode_busid
encode_busid_lem busid = elim (Bool-cases (leb 32 (length busid))) [
  | inl long ↦ inr (inl (ground arith), rw long)
  | inr short ↦ elim (Bool-cases (contains_byte busid 0)) [
    | inl nul ↦ inr (inr nul, rw (short, nul))
    | inr clean ↦ inl (
      ground arith,
      clean,
      rw (short, clean),
      ground (
        arith,
        length-append busid (replicate (32 - length busid) 0),
        length-replicate {A = ℕ} (32 - length busid) 0,
      ),
    )
  ]
]

pub encode_busid_ok :
    (busid : List ℕ)
    → length busid < 32
    → contains_byte busid 0 ≡ false
    → encode_busid busid ≡ ok (padded 32 busid)
unfolding encode_busid
encode_busid_ok busid hl hc = ground arith

-- The request for a device is 40 bytes: version, operation, a zero status and the padded bus id.
pub encode_import_request_lem :
    ⦃buf : Buf⦄ (busid : List ℕ)
    → length busid < 32
    → contains_byte busid 0 ≡ false
    → encode_import_request busid
      ≡ ok (be_u16 0x0111 ++ (be_u16 0x8003 ++ (be_u32 0 ++ padded 32 busid)))
unfolding encode_import_request
encode_import_request_lem ⦃buf⦄ busid hl hc =
    simp (
      encode_busid_ok busid hl hc,
      buf.put_u16_lem,
      buf.put_u32_lem,
      buf.put_slice_lem,
      append_assoc,
    )

-- The device id is the low half of the bus number above the low half of the device number.
pub devid_lem : (d : ExportedDevice) → devid d ≡ d.busnum % 2 ^ 16 * 2 ^ 16 + d.devnum % 2 ^ 16
unfolding devid
devid_lem d =
    rw (bit_and_mask 16 d.devnum, shifted d.busnum)
      (bit_or_shifted 16 (d.busnum % 2 ^ 16) (d.devnum % 2 ^ 16) (omega arith))
  where
    shifted : (n : ℕ) → n * 2 ^ 16 % 2 ^ 32 ≡ n % 2 ^ 16 * 2 ^ 16
    shifted n = omega arith

-- An endpoint address with bit 7 set is an IN endpoint, any other an OUT endpoint.
pub of_endpoint_lem :
    (address : ℕ)
    → ((address / 128 % 2 ≡ 1) × (of_endpoint address ≡ dir_in))
      ⊎ ((address / 128 % 2 ≡ 0) × (of_endpoint address ≡ dir_out))
unfolding of_endpoint
of_endpoint_lem address = ground (arith, bit_and_shifted 7 address 1, bit_and-one (address / 128))
