-- ===== src/Engine.antt =====
-- src/engine.rs: transfers between the rings of the host and the session. `Types` has the data and
-- the interfaces, `Requests` what is made of a message, `Apply` what is done with a reply, `Pump` the
-- loop over a ring, `Table` the map of endpoints, `Handlers` the other calls; the other children hold
-- the proofs.
pub mod Types
pub mod Requests
pub mod Apply
pub mod Pump
pub mod Table
pub mod Handlers
pub mod Contract
pub mod Order
pub mod Delivery
pub mod Sends
pub mod Heads
pub mod Refinement
pub mod Works
pub mod Kept
pub mod Calls
pub mod Filling
pub mod Termination
pub mod Sessions
pub mod Keys
