-- ===== src/Examples/Main.antt =====
-- The import of a disk that the server exports alone, and arguments that ask for it.
use usbip_macos.Prelude.{
  ℕ, ◌≡◌, refl, [], ◌∷◌, none, some, Result, ok, true, false, ◌==◌, if◌then◌else◌, arith,
}
use usbip_macos.Wire.{IoError}
use usbip_macos.Protocol.Types.{devid}
use usbip_macos.Protocol.Requests.{encode_devlist_request}
use usbip_macos.Client.State.{start}
use usbip_macos.Client.Connect.{same_name}
use usbip_macos.Cli.{
  attach, action_of, selector_of, address_text, has_byte, begins_with, decimal, bus_id, matches,
  find, AttachMatches, ArgMatches, args_of, parse,
}
use usbip_macos.Main.{import_selected, import_first}
use usbip_macos.Examples.Instances.{big_endian, ascii, Peer, peer_reader, peer_writer}
use usbip_macos.Examples.Protocol.{disk, disk-IsDevice, bus_1_1}
use usbip_macos.Examples.Connect.{list_peer, import_peer, import_bytes, bus_1_1-encode}

abbrev connection : ℕ → Result IoError Peer
connection i = if i == 0 then ok list_peer else ok import_peer

disk-find : find (bus_id bus_1_1) (disk ∷ []) ≡ some disk
unfolding find matches same_name
disk-find = refl

import_first_example :
    ((r : Peer) × (import_selected connection (bus_id bus_1_1)
        ≡ ok ((record disk { interfaces = [] }, start (devid disk)), r)))
    × (matches (bus_id bus_1_1) disk ≡ true)
import_first_example =
    import_first connection (bus_id bus_1_1) (disk ∷ []) disk list_peer
      (record list_peer { outgoing = encode_devlist_request }) import_peer
      (record import_peer { outgoing = import_bytes }) import_bytes [] [] 0x0111 refl refl
      (omega arith) (disk-IsDevice, tt) refl disk-find refl bus_1_1-encode refl disk-IsDevice refl

abbrev by_bus_id : AttachMatches
by_bus_id = record {
  busid = some bus_1_1;
  device = none;
  vendor_id = none;
  product_id = none;
  wait_for_enter = false;
}

abbrev arguments : ArgMatches
arguments = record {
  remote = some (0x3a ∷ 0x3a ∷ 0x31 ∷ []);
  tcp_port = some 3240;
  attaching = some by_bus_id;
}

-- `[::1]:3240`
arguments-parse :
    parse arguments
    ≡ some (record {
      address = 0x5b ∷ 0x3a ∷ 0x3a ∷ 0x31 ∷ 0x5d ∷ 0x3a ∷ 0x33 ∷ 0x32 ∷ 0x34 ∷ 0x30 ∷ [];
      action = attach (bus_id bus_1_1) false;
    })
unfolding parse args_of action_of selector_of address_text has_byte begins_with decimal
arguments-parse = refl
