-- ===== src/Tests.antt =====
-- Concrete runs of the theorems, and the instances of the outer libraries that they use.
mod Wire
mod Frames
mod Loop
mod Gamepad
mod Touching
mod Whole
mod Startup
mod Clicks
mod Setup
mod Sent
mod Settings
mod Running
