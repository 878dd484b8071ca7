-- ===== src/Runtime/Eval/Twice.antt =====
-- The call of a function of the project, crates/iec_runtime/src/runtime.rs.
use robocpp.Base.{false, none}
use robocpp.Ir.Names.{Identifier}
use robocpp.Ir.Value.{Floats, Value}
use robocpp.Ir.Syntax.{Expr, call, Params, param, an_expr, no_variable}
use robocpp.Runtime.State.{Runtime}
use robocpp.Runtime.Eval.Expr.{Operations}

module _ {F : Floats} (ops : Operations F) where
  -- A call with one positional argument
  abbrev pub call_on : Identifier → Expr F → Expr F
  call_on name e = call name (param none false false (an_expr e) no_variable Params.end)
