-- ===== src/VirtualDevice.antt =====
-- client/packages/vita_virtual_device/src: the virtual controller and its two platforms.
pub mod Button
pub mod Utils
pub mod Touch
pub mod Config
pub mod Floats
pub mod Linux
pub mod Windows
