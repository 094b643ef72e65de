-- ===== src/Lib.antt =====
-- The client of VitaOxiPad: it receives the reports of a PS Vita over the network and gives them to
-- virtual input devices of the computer. This library models the client's packages (client/packages).
--
-- The parts and the files that model them:
--   * NetProtocol and Reports: the wire types of common/netprotocol.fbs as their accessors return
--     them, and client/packages/vita_reports/src/lib.rs, which makes reports of them (`try_from`).
--   * Protocol: client/packages/protocol/src. `Connection` has the two buffers, the three `send_`
--     methods and `next` of the iterator `ConnectionEvents`; `events` is a `for` loop over it. `Codec`
--     has the tokio decoder `PadCodec`. `Bytes` has the byte slices and the length prefix.
--   * VirtualDevice: client/packages/vita_virtual_device/src. `Button`, `Utils`, `Touch` and `Config`
--     are the files virtual_button.rs, virtual_utils.rs, virtual_touch.rs and virtual_config.rs; `Floats`
--     is `f32_to_i16` of lib.rs; `Linux` is linux.rs: `Linux/Buttons` the gamepad's events,
--     `Linux/Touch` `create_touch_events`, `Linux/Report` the whole of `send_report`, `Linux/Setup`
--     `create` and `new`, and `Linux/Life` the device from its creation on; `Windows` is windows.rs:
--     the touch click, `Windows/Report` the whole of `send_report`, and `Windows/Create` `create`.
--   * Client: `Client/Session` is the loop of client/packages/cli/src/main.rs, over an interface for
--     the trait `VitaVirtualDevice`; `Client/Session/Linux` puts the Linux device into it.
--     `Client/Startup` is what main.rs does before the loop, from the first handshake on, and
--     `Client/Sockets` the making of its sockets and of the poller.
--     `Client/Settings` is client/packages/vitaoxipad_config/src/lib.rs and what main.rs makes of the
--     arguments and the settings. `Client/Whole` puts these together: `main`, over either platform.
--   * Base: lists, tests, results and integers that the parts share. Tests: concrete runs.
--
-- How they interact: the settings and the arguments give a plan, with the address, the polling interval
-- and the configuration's name, by which the device is created. The start-up sends the client's
-- handshake, takes the heartbeat frequency from the answer and sends the polling interval. The loop puts
-- the bytes of a datagram into the connection's incoming buffer, takes events out of it until `next`
-- gives none, drops the reports whose time stamp is not newer, and sends the others to the device, which
-- turns each into input events and writes them.
--
-- Conventions. Numbers are ℕ; the bounds of `u8`, `u16` and `u32` are stated where they matter. A byte
-- is an element of a list of numbers. A call that may panic gives an `Outcome`, an error is a `Result`.
-- An input event has no time stamp. A hash set is its membership test; the order in which it iterates
-- is a parameter. Code outside the repository is a parameter: flatbuffers and the generated code
-- (`FlatBuffers`; what a frame holds is the record `Frames`), rstar (`Rstar`; its laws are the record
-- `Documented`), the operations on `f32` (`Floats`), vigem_client and windows (`Windows/Vigem`; what is
-- documented of the button mask is the record `Bits`), paths, files and the crates config and toml
-- (`Surroundings`), the uinput calls and the writes to the devices, and the clock, the poll and the
-- sockets, which give each turn of the loop a `Round`. What a reader makes of input events follows the
-- kernel's evdev and multitouch protocols (`View`, `Contacts`), and what the set-up calls make of a
-- device follows its uinput protocol (`Linux/Setup/Abilities`).
--
-- Fuel: `events_loop` and `handle_events` run on fuel, one more than the bytes in the buffer; each item
-- takes at least one byte, so it never runs out.
--
-- Not modelled: logging and the printed texts, the fixed id of the uinput devices and the time stamps
-- of input events, and the server, which is C++.
pub mod Base
pub mod NetProtocol
pub mod Reports
pub mod Protocol
pub mod VirtualDevice
pub mod Client
pub mod Tests
