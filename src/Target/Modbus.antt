-- ===== src/Target/Modbus.antt =====
-- The Modbus process image and the HALs over it, crates/rbcpp_target/src/lib.rs. A `u16` register is
-- a number below 65536, and an `i64` becomes one by `clamp`.
pub mod Image
pub mod Transport
pub mod Agree
