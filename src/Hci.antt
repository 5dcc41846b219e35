-- ===== src/Hci.antt =====
-- src/hci.rs: the host controller's messages, statuses, addresses and descriptors.
pub mod Constants
pub mod Messages
pub mod Fields
pub mod Addresses
pub mod AddressSets
pub mod Endpoints
pub mod Descriptors
pub mod Configurations
pub mod Intervals
pub mod Uas
pub mod UasRanges
pub mod UasCut
pub mod UasLengths
pub mod UasChoice
pub mod UasOutcome
