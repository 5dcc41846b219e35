-- ===== src/Hci/Addresses.antt =====
-- `AddressPool` of src/hci.rs: device addresses as the bits of a 128-bit number.
use usbip_macos.Prelude.{
  ℕ, zero, suc, ◌-◌, ◌*◌, ◌^◌, Option, none, some, ltb, ◌==◌, if◌then◌else◌, bit_and, bit_or,
}

pub record AddressPool : Type 0 where
  pub used : ℕ

abbrev pub empty_pool : AddressPool
empty_pool = record { used = 0 }

-- The first of the `count` addresses from `a` on whose bit is not set.
unfoldable pub find_address : ℕ → ℕ → ℕ → Option ℕ
find_address used a zero = none
find_address used a (suc count) =
    let rest = find_address used (suc a) count in
    if bit_and used (1 * 2 ^ a) == 0 then some a else rest

unfoldable pub allocate : AddressPool → Option (ℕ × AddressPool)
unfolding find_address
allocate pool = elim (find_address pool.used 1 127) [
  | none ↦ none
  | some address ↦ some (address, record { used = bit_or pool.used (1 * 2 ^ address) })
]

-- `!m` on 128 bits is 2^128 - 1 - m.
unfoldable pub release : ℕ → AddressPool → AddressPool
release address pool =
    if ltb address 128
    then record { used = bit_and pool.used (2 ^ 128 - 1 - 1 * 2 ^ address) }
    else pool
