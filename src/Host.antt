-- ===== src/Host.antt =====
-- src/host.rs: the frame clock (Clock), the ring of a state machine (Rings), the commands and
-- doorbells of the host (State, Answers, Commands), and what holds of them (the others).
pub mod State
pub mod Clock
pub mod Rings
pub mod Frames
pub mod Walk
pub mod Answers
pub mod Commands
pub mod Tables
pub mod DeviceTables
pub mod Consistency
pub mod Runs
pub mod Once
pub mod Replies
