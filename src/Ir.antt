-- ===== src/Ir.antt =====
-- The intermediate representation, crates/iec_ir/src/lib.rs.
pub mod Names
pub mod Elementary
pub mod Qualifier
pub mod Value
pub mod RoundTrip
pub mod Syntax
pub mod Display
