-- ===== src/Examples/Hci.antt =====
-- The theorems on src/hci.rs at concrete inputs.
use usbip_macos.Prelude.{
  ℕ, ◌^◌, ◌≤◌, ◌<◌, ◌≡◌, ◌≢◌, true, refl, List, [], ◌∷◌, Option, some, All, arith,
}
use usbip_macos.Prelude.Binary.{bit}
use usbip_macos.Protocol.Types.{high}
use usbip_macos.Hci.Messages.{isochronous, decode}
use usbip_macos.Hci.Fields.{ControlWord, word, IsControlWord, of_le, transfer_of, decode-word}
use usbip_macos.Hci.Addresses.{AddressPool, allocate, release}
use usbip_macos.Hci.AddressSets.{Allocates, allocate-Allocates, release-frees}
use usbip_macos.Hci.Endpoints.{EndpointInfo, interrupt, parse, parse_endpoint, urb_interval}
use usbip_macos.Hci.Descriptors.{parse_total}
use usbip_macos.Hci.Intervals.{urb_interval-bounds}
use usbip_macos.Hci.Messages.{le_bytes}
use usbip_macos.Hci.Uas.{
  Group, extend_last, next_groups, collect, is_uas, fallback, hidden_of, copy_rest, set_total, hide,
  is_uas_candidate, hide_uas,
}
use usbip_macos.Hci.UasRanges.{Ordered}
use usbip_macos.Hci.UasOutcome.{hidden_of-Ordered_lem}

abbrev iso_word : ControlWord
iso_word = record {
  kind = 0x3b;
  status_bits = 0;
  no_response = 1;
  valid = 1;
  frame = 0x42;
  asap = 0;
  rest = 0;
}

iso_word-IsControlWord : IsControlWord iso_word
iso_word-IsControlWord = record {
  kind_fits = omega arith;
  status_fits = omega arith;
  no_response_fits = omega arith;
  valid_fits = omega arith;
  frame_fits = omega arith;
  asap_fits = omega arith;
}

abbrev eight_bytes : List ℕ
eight_bytes = 1 ∷ 2 ∷ 3 ∷ 4 ∷ 5 ∷ 6 ∷ 7 ∷ 8 ∷ []

eight_bytes_fit : All (λ b. b < 256) eight_bytes
eight_bytes_fit = (
  omega arith,
  (
    omega arith,
    (omega arith, (omega arith, (omega arith, (omega arith, (omega arith, (omega arith, _)))))),
  ),
)

decode-word_example :
    decode (record { control = word iso_word; data0 = 1024; data1 = of_le eight_bytes })
    ≡ transfer_of iso_word 1024 eight_bytes
decode-word_example =
    decode-word iso_word 1024 eight_bytes iso_word-IsControlWord refl eight_bytes_fit

iso_word_transfer : transfer_of iso_word 1024 eight_bytes ≡ some (isochronous 1024 (some 0x42))
unfolding transfer_of
iso_word_transfer = refl

-- Addresses 1 and 3 are used.
abbrev two_used : AddressPool
two_used = record { used = 0b1010 }

abbrev three_used : AddressPool
three_used = record { used = 0b1110 }

two_used-allocate : allocate two_used ≡ some (2, three_used)
unfolding allocate
two_used-allocate = refl

allocate-Allocates_example : Allocates two_used (2, three_used)
allocate-Allocates_example = allocate-Allocates two_used three_used 2 two_used-allocate

release-frees_example :
    (2 < 128
      → (bit 2 (release 2 three_used).used ≡ 0)
        × ((i : ℕ) → i < 128 → i ≢ 2 → bit i (release 2 three_used).used ≡ bit i three_used.used))
    × (128 ≤ 2 → release 2 three_used ≡ three_used)
release-frees_example = release-frees three_used 2

-- A configuration with an interface, a class descriptor, and an interrupt endpoint.
abbrev config_head : List ℕ
config_head = 9 ∷ 2 ∷ 34 ∷ 0 ∷ 1 ∷ 1 ∷ 0 ∷ 0x80 ∷ 50 ∷ []

abbrev keyboard_blocks : List (List ℕ)
keyboard_blocks =
    (9 ∷ 4 ∷ 0 ∷ 0 ∷ 1 ∷ 3 ∷ 1 ∷ 1 ∷ 0 ∷ [])
    ∷ (9 ∷ 0x21 ∷ 0x11 ∷ 1 ∷ 0 ∷ 1 ∷ 0x22 ∷ 63 ∷ 0 ∷ [])
    ∷ []

abbrev keyboard_endpoint : List ℕ
keyboard_endpoint = 7 ∷ 5 ∷ 0x81 ∷ 3 ∷ 8 ∷ 0 ∷ 10 ∷ []

keyboard_parsed :
    parse_endpoint keyboard_endpoint
    ≡ some (record { kind = interrupt; max_packet_size = 8; b_interval = 10 })
unfolding parse_endpoint
keyboard_parsed = refl

parse_total_example : (r : Option EndpointInfo) × (parse 2 keyboard_endpoint ≡ some r)
parse_total_example = parse_total 0 keyboard_endpoint

urb_interval-bounds_example :
    (1 ≤ urb_interval (record { kind = interrupt; max_packet_size = 8; b_interval = 10 }) high)
    × (urb_interval (record { kind = interrupt; max_packet_size = 8; b_interval = 10 }) high
        ≤ 2 ^ 15)
urb_interval-bounds_example = urb_interval-bounds interrupt 8 10 high _ (omega arith)

-- A disk with a Bulk-Only interface, and a UAS interface with one endpoint as its alternate.
abbrev disk_config : List ℕ
disk_config =
    9 ∷ 2 ∷ 34 ∷ 0 ∷ 1 ∷ 1 ∷ 0 ∷ 0x80 ∷ 50 ∷ 9 ∷ 4 ∷ 0 ∷ 0 ∷ 2 ∷ 0x08 ∷ 0x06 ∷ 0x50 ∷ 0 ∷ 9 ∷ 4 ∷ 0
    ∷ 1 ∷ 4 ∷ 0x08 ∷ 0x06 ∷ 0x62 ∷ 0 ∷ 7 ∷ 5 ∷ 0x81 ∷ 2 ∷ 0 ∷ 4 ∷ 0 ∷ []

abbrev disk_groups : List Group
disk_groups = record { start = 9; end = 18 } ∷ record { start = 18; end = 34 } ∷ []

abbrev plain_disk_config : List ℕ
plain_disk_config =
    9 ∷ 2 ∷ 18 ∷ 0 ∷ 1 ∷ 1 ∷ 0 ∷ 0x80 ∷ 50 ∷ 9 ∷ 4 ∷ 0 ∷ 0 ∷ 2 ∷ 0x08 ∷ 0x06 ∷ 0x50 ∷ 0 ∷ []

disk_config-hide_uas : hide_uas disk_config ≡ some (some (34, 18), plain_disk_config)
unfolding hide_uas is_uas_candidate collect next_groups extend_last hide hidden_of is_uas fallback
    copy_rest set_total le_bytes
disk_config-hide_uas = refl

disk_config-is_uas_candidate : is_uas_candidate disk_config ≡ true
unfolding is_uas_candidate
disk_config-is_uas_candidate = refl

disk_config-collect : collect 35 disk_config [] 9 ≡ some (some disk_groups)
unfolding collect next_groups extend_last
disk_config-collect = refl

hidden_of-Ordered_lem_example : Ordered 9 (hidden_of disk_config disk_groups disk_groups) 34
hidden_of-Ordered_lem_example =
    hidden_of-Ordered_lem disk_config disk_groups disk_config-is_uas_candidate disk_config-collect
