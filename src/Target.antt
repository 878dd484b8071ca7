-- ===== src/Target.antt =====
-- The target side, crates/rbcpp_target/src/lib.rs.
pub mod Symbol
pub mod Safety
pub mod Access
pub mod Modbus
pub mod Pdo
pub mod Ros2
pub mod Supervisor
pub mod Retain
