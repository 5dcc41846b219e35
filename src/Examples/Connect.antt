-- ===== src/Examples/Connect.antt =====
-- The exchanges before a session and the writer task at concrete inputs.
use usbip_macos.Prelude.{ℕ, ◌≡◌, refl, List, [], ◌∷◌, ◌++◌, length, replicate, ◌-◌, ok, false}
use usbip_macos.Protocol.Requests.{encode_busid, contains_byte, encode_import_request}
use usbip_macos.Protocol.Records.{op_header, device_bytes}
use usbip_macos.Client.State.{Shared, start}
use usbip_macos.Client.Session.{is_some_reason}
use usbip_macos.Client.Send.{
  write_round, write_frames, write_next, write_batch, fill_batch, goes_on,
}
use usbip_macos.Client.Order.{concat, Run, begins, issues, writes, Run-order}
use usbip_macos.Examples.Instances.{big_endian, ascii, byte_sink, Peer, peer_reader, peer_writer}
use usbip_macos.Examples.Protocol.{disk, bus_1_1, list_reply}

abbrev pub list_peer : Peer
list_peer = record { incoming = list_reply; outgoing = [] }

abbrev pub import_peer : Peer
import_peer = record { incoming = op_header 0x0111 3 0 ++ (device_bytes disk ++ []); outgoing = [] }

abbrev pub import_bytes : List ℕ
import_bytes = 1 ∷ 0x11 ∷ 0x80 ∷ 3 ∷ 0 ∷ 0 ∷ 0 ∷ 0 ∷ (bus_1_1 ++ replicate (32 - length bus_1_1) 0)

pub bus_1_1-encode : encode_import_request bus_1_1 ≡ ok import_bytes
unfolding encode_import_request encode_busid contains_byte
bus_1_1-encode = refl

-- Two frames are issued and written as one batch, while a third is issued.
abbrev with_frames : List (List ℕ) → Shared
with_frames fs = record (start 0x10004) { frames = fs }

abbrev adds_one : Shared → Shared
adds_one s = record s { frames = s.frames ++ (5 ∷ []) ∷ [] }

abbrev two_frames : List (List ℕ)
two_frames = (1 ∷ 2 ∷ []) ∷ (3 ∷ []) ∷ []

abbrev sink : List ℕ
sink = []

round_of_two :
    write_round false adds_one sink (with_frames two_frames)
    ≡ goes_on (1 ∷ 2 ∷ 3 ∷ []) (with_frames ((5 ∷ []) ∷ []))
unfolding write_round write_next write_frames write_batch fill_batch is_some_reason start
round_of_two = refl

two_frames-Run :
    Run sink (1 ∷ 2 ∷ 3 ∷ []) (with_frames ((5 ∷ []) ∷ [])) (two_frames ++ (5 ∷ []) ∷ [])
unfolding start
two_frames-Run =
    writes (issues (begins (start 0x10004) refl) (with_frames two_frames) two_frames refl) false
      adds_one ((5 ∷ []) ∷ []) (λ t. refl) (1 ∷ 2 ∷ 3 ∷ []) (with_frames ((5 ∷ []) ∷ []))
      round_of_two

Run-order_example :
    (1 ∷ 2 ∷ 3 ∷ []) ++ concat ((5 ∷ []) ∷ []) ≡ sink ++ concat (two_frames ++ (5 ∷ []) ∷ [])
Run-order_example = Run-order sink two_frames-Run
