-- ===== src/Device.antt =====
-- crates/posebridge-core/src/device.rs: register reads and the explicit device commands.
pub mod Registers
pub mod Exec
pub mod Inspect
pub mod Execute
