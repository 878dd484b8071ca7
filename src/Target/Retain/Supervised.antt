-- ===== src/Target/Retain/Supervised.antt =====
-- The retained values of a supervisor over a disk, from the end of a cycle to the next start,
-- crates/rbcpp_target/src/lib.rs.
use robocpp.Base.Text.{Text}
use robocpp.Ir.Value.{Value}
