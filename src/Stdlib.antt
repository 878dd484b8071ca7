-- ===== src/Stdlib.antt =====
-- The standard functions, crates/iec_stdlib/src/lib.rs.
pub mod Args
pub mod Numeric
pub mod Bits
pub mod Bcd
pub mod Strings
pub mod Dates
pub mod Texts
pub mod Conversions
pub mod Functions
