-- ===== src/Target/Ros2.antt =====
-- The ROS 2 bridge, crates/rbcpp_target/src/lib.rs.
pub mod Bridge
pub mod Transport
pub mod Agree
