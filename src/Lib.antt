-- ===== src/Lib.antt =====
-- A model of usbip-macos, which attaches USB devices of a USB/IP server to macOS.
--
-- The program speaks the USB/IP protocol with the server (src/protocol.rs), keeps a session that
-- many threads submit transfers to and one task reads replies for (src/client.rs), and offers the
-- devices to the operating system through a host controller interface (src/host.rs), whose messages,
-- addresses and descriptors src/hci.rs decodes. The engine (src/engine.rs) moves the transfers between
-- the rings of that interface and the session.
--
--   Prelude    tests, lists, maps as association lists, signed integers, the laws of masks and bits
--   Wire       what the code takes from other crates, as interfaces: `Buf` for the byte buffers of
--              `bytes`, `Reader` and `Writer` for the streams of `tokio`, `Utf8` for the lossy conversion of the
--              standard library. `Examples.Instances` has a concrete instance of each.
--   Protocol   src/protocol.rs: `Types` (constants, structs and enums), `Requests` (the encoders),
--              `Replies` (the readers), `Iso` (`unpack_iso_in`); `Layout`, `Chunks`, `Headers`,
--              `Payload`, `Names`, `Records`, `Devices` and `Unpacked` hold the proofs
--   Client     src/client.rs: `State` (the session), `Session` (`submit`, `unlink`, `close`,
--              `next_seqnum`), `Receive` (`read_one`, `read_loop`), `Send` (`write_loop`), `Connect`
--              (`list_devices`, `import`), `Steps` (the interleavings of the threads); `Seqnum`,
--              `Branches`, `Issues`, `Unlinking`, `Tables`, `Invariant`, `Accounting`, `Closing`, `Delivery`,
--              `Failing` and `Order` hold the proofs
--   Hci        src/hci.rs: `Constants`, `Messages` (`RawMessage`, `Transfer`, `Status`),
--              `Addresses` (`AddressPool`), `Endpoints` (`EndpointInfo`), `Uas` (`hide_uas`);
--              `Fields`, `AddressSets`, `Descriptors`, `Configurations`, `Intervals`,
--              `UasRanges`, `UasCut`, `UasLengths`, `UasChoice` and `UasOutcome` hold the proofs
--   Engine     src/engine.rs: `Types` (the state, and the interfaces `Ring` and `Link` for a ring and a
--              session), `Requests` (`head_request`, `data_request`), `Apply` (`apply`), `Pump`
--              (`submit`, `fill`, `pump`), `Table` (adding and removing endpoints), `Handlers` (the
--              other calls), `Sessions` (`Link` for the session of `Client`); `Contract` is what the engine
--              promises of one endpoint, as a step relation (`Step` is what the pump may do, `Event` adds the
--              other calls, each by its cause), and `Order`, `Delivery`, `Sends`,
--              `Heads`, `Refinement`, `Works`, `Kept`, `Calls`, `Filling`, `Termination` and `Keys`
--              hold the proofs
--   Host       src/host.rs: `State` (`Shared`, and what the operating system's calls return), `Clock`
--              (`FrameClock`), `Rings` (`IoRing`, which is a `Ring`), `Answers` (`answer`), `Commands`
--              (`command`, `doorbell`); `Frames`, `Walk`, `Tables`, `DeviceTables`, `Consistency`,
--              `Runs`, `Once` and `Replies` hold the proofs
--   Cli        src/cli.rs: the device selector, and `parse` of the arguments that `clap` matched
--   Main       src/main.rs: `import`
--   Examples   runs of the definitions, and the theorems at concrete inputs
--
-- Names are those of the code, with `next_seqnum_loop` for the loop of `next_seqnum` and the like. A
-- byte is a number below 256, a string its bytes, and an error message a constructor that holds
-- what the message shows. Integers of `w` bits are natural numbers with `% 2 ^ w` where the code
-- wraps, and an `i32` is an integer with its two's complement.
--
-- The session is one value: the tables behind the lock, the frames handed to the writer task in
-- order, and the answers sent on the reply channels so far. The channels are numbered in the order
-- in which they are opened. Each critical section under the lock is one function, and so is each send
-- that follows one after the lock is released; `Reach` is what any sequence of them leads to, where
-- `Threads` holds what each thread has still to send. `finish_submit`, `finish_unlink` and `close_with`
-- run a critical section and its sends one after the other. Between the two critical sections of
-- `read_one` other threads may do anything.
--
-- The engine's state is the map of endpoints, the next token and the session. A key is one number,
-- the device plus 256 times the endpoint address. Each call under the lock is one function of that state;
-- `none` is a call that does not return. The executor and the runtime are the order of the calls: a task
-- that awaits a reply is a record, and when the reply comes it calls `finish`. A ring is a value that the
-- operations give back; between the calls the host may change it in any way (`Call`). The token
-- counter does not reach 2^64.
--
-- For each command, what the calls of the operating system return is a record (`Calls` of
-- Host/State), with what the rings have become when the answer is sent. The state keeps the answers in
-- order. The state machines are numbers, and the strings of errors constructors. The address
-- arithmetic of messages is on 16 bytes per message.
--
-- The loop of `next_seqnum` runs on 2^32 rounds of fuel, which is every number that it could try.
-- `parse` of an endpoint descriptor runs on the depth of its recursion, for which 2 is enough, and
-- its loop, like that of `hide_uas`, on the length of the descriptor, of which each round skips two
-- bytes or more. `fill` runs on 33 rounds, as at most 32 URBs are in flight. The fuel of `pump` is an
-- argument: twice the messages that are left in the ring and two are enough. That of `next` is one
-- too: it has to reach the first reading in a later frame.
--
-- Not modelled: the futures that the runtime resolves; of src/host.rs the queue and the blocks that carry
-- the calls, the periodic frame updates, the capabilities, and the power and the connection of the port;
-- the description of the arguments for clap in src/cli.rs; the start-up, the signals and the printing of
-- src/main.rs; and the examples and tests.

pub mod Prelude
pub mod Wire
pub mod Protocol
pub mod Client
pub mod Hci
pub mod Engine
pub mod Host
pub mod Cli
pub mod Main
pub mod Examples
