-- ===== src/Client.antt =====
-- src/client.rs: the session, which matches the replies of the server to the requests. `State` has
-- the types, `Session` the operations of the session, `Receive` the reader task and `Send` the
-- writer task; the other children hold the proofs.
pub mod State
pub mod Session
pub mod Receive
pub mod Send
pub mod Order
pub mod Connect
pub mod Seqnum
pub mod Branches
pub mod Tables
pub mod Invariant
pub mod Steps
pub mod Accounting
pub mod Closing
pub mod Issues
pub mod Unlinking
pub mod Failing
pub mod Delivery
