-- ===== src/Tests/Statements.antt =====
-- Loops and lists of statements on one state each.
use robocpp.Base.{◌≡◌, refl, true, false, some, [], ◌∷◌, arith}
use robocpp.Base.Int.{pos, ◌+ℤ◌, ◌-ℤ◌}
use robocpp.Base.Text.{codes}
use robocpp.Ir.Value.{Literal}
use robocpp.Ir.Syntax.{
  BinaryOp, literal, binary, Statement, assignment, while_loop, if_statement, il, IlOp,
  exit_statement, return_statement, Statements, done, then_do, branch, no_branch,
}
use robocpp.Runtime.State.{Runtime}
use robocpp.Runtime.Eval.Sized.{Sized}
use robocpp.Runtime.Statement.{continue, Run, for_rounds}
use robocpp.Runtime.Statement.Execute.{execute_block}
use robocpp.Runtime.Statement.Lists.{
  execute_statement_list, label_index, execute_statement_list-execute_block,
}
use robocpp.Runtime.Statement.Loops.{
  control_values, distance, loop_count, run_over, for_rounds-run_over,
}
use robocpp.Runtime.Statement.Structured.{Confined, Structured, execute_statement_list-Confined}
use robocpp.Tests.{whole, fresh}
use robocpp.Tests.Interpreter.{operations, calls, var, value}

-- S := S + I
abbrev add_up : Statement whole
add_up = assignment (var (codes "S")) (binary BinaryOp.add (value (codes "S")) (value (codes "I")))

abbrev sum : Run whole
sum = execute_block operations calls (then_do add_up done)

-- FOR I := 1 TO 6 BY 2
for_rounds-run_over_example :
    for_rounds sum (codes "I") (pos 6) (pos 2) 10 (pos 1) fresh
    ≡ run_over sum (codes "I") (pos 1 ∷ pos 3 ∷ pos 5 ∷ []) fresh
unfolding control_values distance loop_count ◌+ℤ◌ ◌-ℤ◌
for_rounds-run_over_example =
    for_rounds-run_over sum (codes "I") (pos 6) (pos 2) (pos 1) 10 fresh (omega arith) (omega arith)
      (omega arith) (omega arith)

abbrev idle : Run whole
idle r = (continue, r)

-- WHILE TRUE DO IF S THEN EXIT; ELSE S := S + I; END_IF; END_WHILE; RETURN
abbrev searching : Statements whole
searching =
    then_do
      (while_loop (literal (Literal.bool true)) (
        then_do
          (if_statement (branch (value (codes "S")) (then_do exit_statement done) no_branch)
            (then_do add_up done))
          done))
      (then_do return_statement done)

execute_statement_list-Confined_example :
    Confined false (execute_statement_list operations calls searching fresh).0
unfolding Structured
execute_statement_list-Confined_example =
    execute_statement_list-Confined operations calls searching fresh
      (((((refl, tt), tt), (tt, tt)), tt), (tt, tt))

abbrev twice : Statements whole
twice = then_do add_up (then_do add_up done)

execute_statement_list-execute_block_example :
    execute_statement_list operations calls twice fresh ≡ execute_block operations calls twice fresh
unfolding label_index
execute_statement_list-execute_block_example =
    execute_statement_list-execute_block operations calls twice fresh (λ label. refl) (omega arith)

-- JMP L
abbrev leaving : Statements whole
leaving = then_do (il IlOp.jmp (some (value (codes "L")))) done
