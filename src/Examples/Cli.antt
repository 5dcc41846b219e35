-- ===== src/Examples/Cli.antt =====
-- The device selector at a concrete list.
use usbip_macos.Prelude.{◌≡◌, ◌⊎◌, List, [], ◌∷◌, none, some, All}
use usbip_macos.Protocol.Types.{ExportedDevice}
use usbip_macos.Cli.{dev_num, Selected, find, IsFirst, find_lem}
use usbip_macos.Examples.Protocol.{disk}

abbrev two_devices : List ExportedDevice
two_devices = record disk { devnum = 3 } ∷ disk ∷ []

find_lem_example :
    ((find (dev_num 4) two_devices ≡ none) × All (λ x. ¬ Selected (dev_num 4) x) two_devices)
    ⊎ ((d : ExportedDevice) × (find (dev_num 4) two_devices ≡ some d)
        × IsFirst (dev_num 4) two_devices d)
find_lem_example = find_lem (dev_num 4) two_devices
