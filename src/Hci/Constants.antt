-- ===== src/Hci/Constants.antt =====
-- The control bits and message types of src/hci.rs.
use usbip_macos.Prelude.{ℕ, ◌*◌, ◌^◌}

abbrev pub control_type_mask : ℕ
control_type_mask = 0x3f

abbrev pub control_status_shift : ℕ
control_status_shift = 8

abbrev pub control_status_mask : ℕ
control_status_mask = 0xf * 2 ^ control_status_shift

abbrev pub control_no_response : ℕ
control_no_response = 1 * 2 ^ 14

abbrev pub control_valid : ℕ
control_valid = 1 * 2 ^ 15

abbrev pub iso_control_frame_shift : ℕ
iso_control_frame_shift = 16

abbrev pub iso_control_frame_mask : ℕ
iso_control_frame_mask = 0xff * 2 ^ iso_control_frame_shift

abbrev pub iso_control_asap : ℕ
iso_control_asap = 1 * 2 ^ 24

abbrev pub transfer_length_mask : ℕ
transfer_length_mask = 0x0fffffff

abbrev pub controller_capabilities : ℕ
controller_capabilities = 0x00

abbrev pub port_capabilities : ℕ
port_capabilities = 0x01

abbrev pub controller_power_on : ℕ
controller_power_on = 0x10

abbrev pub controller_power_off : ℕ
controller_power_off = 0x11

abbrev pub controller_start : ℕ
controller_start = 0x12

abbrev pub controller_pause : ℕ
controller_pause = 0x13

abbrev pub controller_frame_number : ℕ
controller_frame_number = 0x14

abbrev pub port_power_on : ℕ
port_power_on = 0x18

abbrev pub port_power_off : ℕ
port_power_off = 0x19

abbrev pub port_resume : ℕ
port_resume = 0x1a

abbrev pub port_suspend : ℕ
port_suspend = 0x1b

abbrev pub port_reset : ℕ
port_reset = 0x1c

abbrev pub port_disable : ℕ
port_disable = 0x1d

abbrev pub port_status : ℕ
port_status = 0x1e

abbrev pub device_create : ℕ
device_create = 0x20

abbrev pub device_destroy : ℕ
device_destroy = 0x21

abbrev pub device_start : ℕ
device_start = 0x22

abbrev pub device_pause : ℕ
device_pause = 0x23

abbrev pub device_update : ℕ
device_update = 0x24

abbrev pub endpoint_create : ℕ
endpoint_create = 0x28

abbrev pub endpoint_destroy : ℕ
endpoint_destroy = 0x29

abbrev pub endpoint_pause : ℕ
endpoint_pause = 0x2b

abbrev pub endpoint_update : ℕ
endpoint_update = 0x2c

abbrev pub endpoint_reset : ℕ
endpoint_reset = 0x2d

abbrev pub endpoint_set_next_transfer : ℕ
endpoint_set_next_transfer = 0x2e

abbrev pub setup_transfer : ℕ
setup_transfer = 0x38

abbrev pub normal_transfer : ℕ
normal_transfer = 0x39

abbrev pub status_transfer : ℕ
status_transfer = 0x3a

abbrev pub isochronous_transfer : ℕ
isochronous_transfer = 0x3b

abbrev pub link : ℕ
link = 0x3c
