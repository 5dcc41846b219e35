-- ===== src/Hci/Fields.antt =====
-- The bit layout of the messages of src/hci.rs, against the fields that the SDK's header documents.
use usbip_macos.Prelude.{
  ℕ, zero, suc, ◌+◌, ◌*◌, ◌/◌, ◌%◌, ◌^◌, ◌≤◌, ◌<◌, ◌≡◌, refl, sym, ◌∙◌, subst, eq→==, ne→==, ◌↔◌,
  ◌⊎◌, inl, Bool, true, false, not, List, [], ◌∷◌, Option, none, some, All, length, ◌==◌,
  if◌then◌else◌, bit_and, arith,
}
use usbip_macos.Prelude.Bits.{bit_and_mask, bit_and_shifted, bit_and-one}
use usbip_macos.Prelude.Int.{ℤ, pos, negsuc}
use usbip_macos.Hci.Constants.{
  control_type_mask, control_valid, control_no_response, iso_control_asap, iso_control_frame_mask,
  iso_control_frame_shift, setup_transfer, normal_transfer, status_transfer, isochronous_transfer,
  link,
}
use usbip_macos.Hci.Messages.{
  message_type, is_valid, needs_response, transfer_length, le_bytes, Transfer, setup, normal,
  status, isochronous, link_to, other, decode, decode_doorbell, success, of_errno, from_urb_status,
}

-- The fields of a control word, from the lowest bit: 6, 8, 1, 1, 8, 1 and 7 bits.
pub record ControlWord : Type 0 where
  pub kind : ℕ
  pub status_bits : ℕ
  pub no_response : ℕ
  pub valid : ℕ
  pub frame : ℕ
  pub asap : ℕ
  pub rest : ℕ

abbrev pub word : ControlWord → ℕ
word w =
    w.kind
    + 64
      * (w.status_bits
          + 256 * (w.no_response + 2 * (w.valid + 2 * (w.frame + 256 * (w.asap + 2 * w.rest)))))

pub record IsControlWord (w : ControlWord) : Type 0 where
  pub kind_fits : w.kind < 64
  pub status_fits : w.status_bits < 256
  pub no_response_fits : w.no_response < 2
  pub valid_fits : w.valid < 2
  pub frame_fits : w.frame < 256
  pub asap_fits : w.asap < 2

module _ (w : ControlWord) (v : IsControlWord w) where
  type_lem : bit_and (word w) control_type_mask ≡ w.kind
  type_lem = omega (arith, bit_and_mask 6 (word w), v.kind_fits)

  valid_lem : bit_and (word w) control_valid ≡ w.valid * 2 ^ 15
  valid_lem = omega (
    arith,
    bit_and_shifted 15 (word w) 1,
    bit_and-one (word w / 2 ^ 15),
    v.kind_fits,
    v.status_fits,
    v.no_response_fits,
    v.valid_fits,
  )

  no_response_lem : bit_and (word w) control_no_response ≡ w.no_response * 2 ^ 14
  no_response_lem = omega (
    arith,
    bit_and_shifted 14 (word w) 1,
    bit_and-one (word w / 2 ^ 14),
    v.kind_fits,
    v.status_fits,
    v.no_response_fits,
  )

  asap_lem : bit_and (word w) iso_control_asap ≡ w.asap * 2 ^ 24
  asap_lem = omega (
    arith,
    bit_and_shifted 24 (word w) 1,
    bit_and-one (word w / 2 ^ 24),
    v.kind_fits,
    v.status_fits,
    v.no_response_fits,
    v.valid_fits,
    v.frame_fits,
    v.asap_fits,
  )

  frame_lem : bit_and (word w) iso_control_frame_mask / 2 ^ iso_control_frame_shift % 256 ≡ w.frame
  frame_lem = omega (
    arith,
    bit_and_shifted 16 (word w) 0xff,
    bit_and_mask 8 (word w / 2 ^ 16),
    v.kind_fits,
    v.status_fits,
    v.no_response_fits,
    v.valid_fits,
    v.frame_fits,
    v.asap_fits,
  )

-- The least significant byte first.
abbrev pub of_le : List ℕ → ℕ
of_le [] = 0
of_le (b ∷ bs) = b + 256 * of_le bs

le_bytes-of_le : (bs : List ℕ) → All (λ b. b < 256) bs → le_bytes (length bs) (of_le bs) ≡ bs
unfolding le_bytes
le_bytes-of_le [] v = refl
le_bytes-of_le (b ∷ bs) v = rw (low b (of_le bs) v.0, high b (of_le bs) v.0, le_bytes-of_le bs v.1)
  where
    low : (b n : ℕ) → b < 256 → (b + 256 * n) % 256 ≡ b
    low b n h = omega arith

    high : (b n : ℕ) → b < 256 → (b + 256 * n) / 256 ≡ n
    high b n h = omega arith

-- The transfer that the fields of a message stand for.
unfoldable pub transfer_of : ControlWord → ℕ → List ℕ → Option Transfer
transfer_of w data0 bytes =
    if w.valid == 0
    then none
    else if w.kind == setup_transfer
    then some (setup bytes)
    else if w.kind == normal_transfer
    then some (normal (data0 % 2 ^ 28))
    else if w.kind == status_transfer
    then some status
    else if w.kind == isochronous_transfer
    then some (isochronous (data0 % 2 ^ 28) (if w.asap == 0 then some w.frame else none))
    else if w.kind == link
    then some (link_to (w.no_response == 0))
    else some (other w.kind)

scaled_is_zero : (a k : ℕ) → 1 ≤ k → (a * k == 0) ≡ (a == 0)
scaled_is_zero zero k h = eq→== (0 * k) 0 (omega arith)
scaled_is_zero (suc a) k h =
    ne→== (suc a * k) 0 (λ e. absurd (omega (arith, e, h)))
    ∙ sym (ne→== (suc a) 0 (λ e. absurd (omega (arith, e))))

not-not : (b : Bool) → not (not b) ≡ b
not-not true = refl
not-not false = refl

-- A message decodes by its fields: `none` without the valid bit, the kind in the low 6 bits, the
-- length in 28 bits, the 8 bytes of a setup packet, the frame of an isochronous transfer unless it
-- is to start as soon as possible.
pub decode-word :
    (w : ControlWord) (data0 : ℕ) (bytes : List ℕ)
    → IsControlWord w
    → length bytes ≡ 8
    → All (λ b. b < 256) bytes
    → decode (record { control = word w; data0 = data0; data1 = of_le bytes })
      ≡ transfer_of w data0 bytes
unfolding decode message_type is_valid needs_response transfer_length transfer_of
decode-word w data0 bytes v h8 hb = rw (
  type_lem w v,
  valid_lem w v,
  no_response_lem w v,
  asap_lem w v,
  frame_lem w v,
  bit_and_mask 28 data0,
  scaled_is_zero w.valid (2 ^ 15) (omega arith),
  scaled_is_zero w.no_response (2 ^ 14) (omega arith),
  scaled_is_zero w.asap (2 ^ 24) (omega arith),
  not-not (w.valid == 0),
  subst (λ (k : ℕ). le_bytes k (of_le bytes) ≡ bytes) h8 (le_bytes-of_le bytes hb),
)

-- A doorbell is taken apart into the device address, the endpoint address and the stream.
pub decode_doorbell_lem :
    (device endpoint stream : ℕ)
    → device < 256
    → endpoint < 256
    → stream < 2 ^ 16
    → decode_doorbell (device + 256 * (endpoint + 256 * stream)) ≡ (device, (endpoint, stream))
unfolding decode_doorbell
decode_doorbell_lem device endpoint stream hd he hs = ground arith

-- The statuses that count as success are 0, -EREMOTEIO and -EXDEV.
pub from_urb_status-success :
    (z : ℤ) → (from_urb_status z ≡ success) ↔ ((z ≡ pos 0) ⊎ ((z ≡ negsuc 120) ⊎ (z ≡ negsuc 17)))
unfolding from_urb_status of_errno
from_urb_status-success (pos zero) = (λ h. inl refl, λ h. refl)
from_urb_status-success (pos (suc n)) = ground arith
from_urb_status-success (negsuc n) = ground arith
