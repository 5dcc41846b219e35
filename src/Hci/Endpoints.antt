-- ===== src/Hci/Endpoints.antt =====
-- `EndpointInfo` of src/hci.rs. Indexing is by `get_or` with 0 outside of the list: the guards of
-- the code keep every index inside.
use usbip_macos.Prelude.{
  ℕ, zero, suc, ◌+◌, ◌-◌, ◌*◌, ◌^◌, min, max, Bool, true, false, not, ◌&&◌, ◌||◌, List, Option,
  none, some, length, get_or, take, drop, ltb, leb, ◌==◌, if◌then◌else◌, bit_and,
}
use usbip_macos.Protocol.Types.{Speed, high, wireless, super, super_plus}

pub data EndpointKind : Type 0 where
  control : EndpointKind
  isochronous : EndpointKind
  bulk : EndpointKind
  interrupt : EndpointKind

pub record EndpointInfo : Type 0 where
  pub kind : EndpointKind
  pub max_packet_size : ℕ
  pub b_interval : ℕ

abbrev pub control_endpoint : EndpointInfo
control_endpoint = record { kind = control; max_packet_size = 64; b_interval = 0 }

abbrev pub at : List ℕ → ℕ → ℕ
at desc i = get_or desc i 0

-- `u16::from_le_bytes`
abbrev pub u16_le : ℕ → ℕ → ℕ
u16_le lo hi = lo + 256 * hi

-- `desc.get(i..total)`
unfoldable pub slice : List ℕ → ℕ → ℕ → Option (List ℕ)
slice desc i total =
    if leb i total && leb total (length desc) then some (take (total - i) (drop i desc)) else none

unfoldable pub kind_of : ℕ → EndpointKind
kind_of n =
    if n == 0 then control else if n == 1 then isochronous else if n == 2 then bulk else interrupt

unfoldable pub is_configuration : List ℕ → Bool
is_configuration desc = leb 4 (length desc) && (leb 2 (at desc 0) && at desc 1 == 2)

-- The part for an endpoint descriptor.
unfoldable pub parse_endpoint : List ℕ → Option EndpointInfo
unfolding kind_of
parse_endpoint desc =
    if ltb (length desc) 7 || not (at desc 1 == 5)
    then none
    else some (record {
      kind = kind_of (bit_and (at desc 3) 0x03);
      max_packet_size = u16_le (at desc 4) (at desc 5);
      b_interval = at desc 6;
    })

-- The loop over the descriptors from `i` on: where an endpoint descriptor starts. The outer option
-- is `none` when the fuel runs out.
unfoldable pub find_endpoint : ℕ → List ℕ → ℕ → ℕ → Option (Option ℕ)
find_endpoint zero desc total i = none
find_endpoint (suc fuel) desc total i =
    let rest = find_endpoint fuel desc total (i + at desc i) in
    if leb (i + 2) total && leb 2 (at desc i)
    then (if at desc (i + 1) == 5 then some (some i) else rest)
    else some none

-- The fuel bounds the recursion, which enters a slice that starts with an endpoint descriptor.
unfoldable pub parse : ℕ → List ℕ → Option (Option EndpointInfo)
parse zero desc = none
parse (suc fuel) desc =
    let total = min (u16_le (at desc 2) (at desc 3)) (length desc) in
    if is_configuration desc
    then elim (find_endpoint (suc (length desc)) desc total (at desc 0)) [
      | none ↦ none
      | some none ↦ some none
      | some (some i) ↦ elim (slice desc i total) [ none ↦ some none | some s ↦ parse fuel s ]
    ]
    else some (parse_endpoint desc)

unfoldable pub is_fast : Speed → Bool
is_fast high = true
is_fast wireless = true
is_fast super = true
is_fast super_plus = true
is_fast s = false

unfoldable pub urb_interval : EndpointInfo → Speed → ℕ
unfolding is_fast
urb_interval e speed =
    let b = max e.b_interval 1 in
    elim e.kind [
      | bulk ↦ 0
      | control ↦ 0
      | isochronous ↦ 1 * 2 ^ (min b 16 - 1)
      | interrupt ↦ if is_fast speed then 1 * 2 ^ (min b 16 - 1) else b
    ]
