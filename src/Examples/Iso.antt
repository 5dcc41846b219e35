-- ===== src/Examples/Iso.antt =====
-- `unpack_iso_in` at concrete inputs.
use usbip_macos.Prelude.{◌↔◌, ℕ, ◌≡◌, refl, List, [], ◌∷◌, some, length, arith}
use usbip_macos.Prelude.Int.{pos}
use usbip_macos.Protocol.Types.{IsoPacketDescriptor}
use usbip_macos.Protocol.Iso.{slice?, write_at?, unpack_packets, unpack_iso_in}
use usbip_macos.Protocol.Unpacked.{Fits, unpack_iso_in_iff}

-- Two packets of two bytes and one byte, which go to the offsets 0 and 3.
abbrev two_packets : List IsoPacketDescriptor
two_packets =
    record { offset = 0; length = 3; actual_length = 2; status = pos 0 }
    ∷ record { offset = 3; length = 3; actual_length = 1; status = pos 0 }
    ∷ []

two_packets-Fits : Fits 3 two_packets 0 6
unfolding Fits
two_packets-Fits = (omega arith, omega arith, (omega arith, omega arith, _))

two_packets-unpack :
    unpack_iso_in (1 ∷ 2 ∷ 3 ∷ []) two_packets 6 ≡ some (1 ∷ 2 ∷ 0 ∷ 3 ∷ 0 ∷ 0 ∷ [])
unfolding unpack_iso_in unpack_packets slice? write_at?
two_packets-unpack = refl

unpack_iso_in_iff_example :
    (((out : List ℕ) × (unpack_iso_in (1 ∷ 2 ∷ 3 ∷ []) two_packets 6 ≡ some out))
      ↔ Fits 3 two_packets 0 6)
    × ((out : List ℕ) → unpack_iso_in (1 ∷ 2 ∷ 3 ∷ []) two_packets 6 ≡ some out → length out ≡ 6)
unpack_iso_in_iff_example = unpack_iso_in_iff (1 ∷ 2 ∷ 3 ∷ []) two_packets 6
