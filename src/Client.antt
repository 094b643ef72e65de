-- ===== src/Client.antt =====
-- client/packages/cli/src/main.rs: the settings, the start-up, the polling loop and the whole of
-- `main`.
pub mod Settings
pub mod Session
pub mod Sockets
pub mod Startup
pub mod Whole
