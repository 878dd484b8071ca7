-- ===== src/Tests/Eval.antt =====
-- Expressions on one state each.
use robocpp.Base.Int.{ℤ, pos}
use robocpp.Base.Text.{codes}
use robocpp.Ir.Names.{Identifier}
use robocpp.Ir.Value.{Value, int, Literal}
use robocpp.Ir.Syntax.{Expr, BinaryOp, literal, binary}
use robocpp.Runtime.State.{Runtime}
use robocpp.Runtime.Eval.{push_error, overflow_message, eval_binary}
use robocpp.Runtime.Eval.Numbers.{Reports, an_int, eval_binary-Reports}
use robocpp.Runtime.Eval.Sized.{Sized}
use robocpp.Tests.{whole, fresh}

abbrev largest : ℤ
largest = pos 0x7fff_ffff_ffff_ffff

abbrev seven : Value whole
seven = int (pos 7)

abbrev greatest : Value whole
greatest = int largest

abbrev nothing : Value whole
nothing = int (pos 0)

eval_binary-Reports_example : Reports fresh (eval_binary BinaryOp.modulo seven nothing fresh)
eval_binary-Reports_example =
    eval_binary-Reports fresh BinaryOp.modulo seven nothing (an_int (pos 7)) (an_int (pos 0))

-- The largest integer plus 1
abbrev too_large : Expr whole
too_large = binary BinaryOp.add (literal (Literal.int largest)) (literal (Literal.int (pos 1)))

abbrev report_overflow : Runtime whole → Runtime whole
report_overflow r = push_error (overflow_message (codes "addition")) r

abbrev function : Identifier
function = record { original = codes "f"; canonical = codes "F" }
