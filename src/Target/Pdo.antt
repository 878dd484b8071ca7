-- ===== src/Target/Pdo.antt =====
-- The EtherCAT process data: points, the image and `EtherCatHal`, crates/rbcpp_target/src/lib.rs.
pub mod Bytes
pub mod Image
pub mod Bits
pub mod Frame
pub mod Widths
pub mod Values
pub mod Hal
pub mod Slices
pub mod Transport
pub mod Agree
