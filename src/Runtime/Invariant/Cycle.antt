-- ===== src/Runtime/Invariant/Cycle.antt =====
-- A cycle of a program, `execute_program_cycle` of crates/iec_runtime/src/runtime.rs, keeps the
-- values of the state sized.
use robocpp.Base.Text.{Text}
use robocpp.Ir.Syntax.{Expr, Statement, Statements, Sfc}
use robocpp.Runtime.State.{Runtime}
use robocpp.Runtime.Eval.Sized.{Sized}
