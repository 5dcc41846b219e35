-- ===== src/Protocol/Iso.antt =====
-- `unpack_iso_in` of src/protocol.rs: the packed bytes of an isochronous IN transfer are spread out
-- to the offsets of their descriptors. Sums of `usize` do not wrap here: both terms are at most
-- 32-bit numbers or lengths in memory.
use usbip_macos.Prelude.{
  ℕ, ◌+◌, List, [], ◌∷◌, ◌++◌, length, take, drop, replicate, Option, none, some, leb,
  if◌then◌else◌,
}
use usbip_macos.Protocol.Types.{IsoPacketDescriptor}

-- `bytes.get(start..start + len)`
unfoldable pub slice? : List ℕ → ℕ → ℕ → Option (List ℕ)
slice? bytes start len =
    if leb (start + len) (length bytes) then some (take len (drop start bytes)) else none

-- `out.get_mut(start..start + len)?.copy_from_slice(src)`, for `src` of `len` bytes.
unfoldable pub write_at? : List ℕ → ℕ → List ℕ → Option (List ℕ)
write_at? out start src =
    if leb (start + length src) (length out)
    then some (take start out ++ (src ++ drop (start + length src) out))
    else none

unfoldable pub unpack_packets : List ℕ → List IsoPacketDescriptor → ℕ → List ℕ → Option (List ℕ)
unpack_packets packed [] cursor out = some out
unpack_packets packed (p ∷ ps) cursor out = elim (slice? packed cursor p.actual_length) [
  | none ↦ none
  | some src ↦ elim (write_at? out p.offset src) [
    | none ↦ none
    | some out' ↦ unpack_packets packed ps (cursor + p.actual_length) out'
  ]
]

unfoldable pub unpack_iso_in : List ℕ → List IsoPacketDescriptor → ℕ → Option (List ℕ)
unpack_iso_in packed packets buffer_length =
    unpack_packets packed packets 0 (replicate buffer_length 0)
