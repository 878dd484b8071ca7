-- ===== src/Runtime.antt =====
-- The scan-cycle interpreter, crates/iec_runtime.
pub mod State
pub mod Blocks
pub mod Sfc
pub mod Eval
pub mod Statement
pub mod Evolution
pub mod Invariant
pub mod Arrays
