-- ===== src/VirtualDevice/Linux.antt =====
-- client/packages/vita_virtual_device/src/linux.rs: the uinput devices.
pub mod Events
pub mod Buttons
pub mod Touch
pub mod Report
pub mod Setup
pub mod Life
