-- ===== src/Examples.antt =====
-- Runs of the definitions, and the theorems at concrete inputs.
pub mod Instances
mod Protocol
mod Client
mod Hci
mod Connect
mod Iso
mod Cli
mod Engine
mod Host
mod Main
