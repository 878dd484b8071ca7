-- ===== src/Runtime/Statement/Execute.antt =====
-- `execute_statement` and `execute_block` of crates/iec_runtime/src/runtime.rs.
use robocpp.Base.{
  Bool, true, false, ◌&&◌, Option, none, some, List, [], ◌∷◌, ◌++◌, if◌then◌else◌, unwrap_or,
  and_then,
}
use robocpp.Base.Int.{ℤ, pos, leb_ℤ, eqb_ℤ}
use robocpp.Base.Text.{codes}
use robocpp.Ir.Names.{Identifier}
use robocpp.Ir.Value.{Floats, Value, as_bool, as_i64}
use robocpp.Ir.Syntax.{
  Expr, VariableRef, Params, CaseLabel, single, range, Statement, empty, assignment, fb_call,
  if_statement, case_statement, for_loop, while_loop, repeat_loop, il, il_label, exit_statement,
  return_statement, Statements, done, then_do, Branches, no_branch, branch, Cases, no_case, a_case,
}
use robocpp.Runtime.State.{Runtime}
use robocpp.Runtime.Eval.{push_error, push_warning, compare_values, is_equal}
use robocpp.Runtime.Eval.Expr.{Operations}
use robocpp.Runtime.Eval.Calls.{eval}
use robocpp.Runtime.Statement.{
  Control, continue, exit, return, Run, choose, for_rounds, while_rounds, repeat_rounds,
}
use robocpp.Runtime.Statement.Il.{BlockCalls, root_name, execute_il}

module _ {F : Floats} (ops : Operations F) where
  -- `self.eval_expr(e).and_then(|v| v.as_bool()) == Some(true)`
  abbrev pub holds : Expr F → Runtime F → Bool × Runtime F
  holds e r = let (o, s) = eval ops e r in (unwrap_or false (and_then o as_bool), s)

  abbrev pub eval_i64 : Expr F → Runtime F → Option ℤ × Runtime F
  eval_i64 e r = let (o, s) = eval ops e r in (and_then o as_i64, s)

  abbrev in_bounds : Option ℤ → Option ℤ → Option ℤ → Bool
  in_bounds (some low) (some high) (some n) = leb_ℤ low n && leb_ℤ n high
  in_bounds _ _ _ = false

  abbrev same_value : Value F → Option (Value F) → Bool
  same_value selector none = false
  same_value selector (some v) = is_equal (compare_values v selector)

  unfoldable pub label_matches : CaseLabel F → Value F → Runtime F → Bool × Runtime F
  label_matches (single e) selector r = let (o, s) = eval ops e r in (same_value selector o, s)
  label_matches (range low high) selector r =
      let (m, s) = eval_i64 low r in
      let (n, t) = eval_i64 high s in (in_bounds m n (as_i64 selector), t)

  -- `labels.iter().any(..)`, which stops at the first label that matches.
  abbrev pub or_next : Bool × Runtime F → (Runtime F → Bool × Runtime F) → Bool × Runtime F
  or_next (true, r) next = (true, r)
  or_next (false, r) next = next r

  unfoldable pub labels_match : List (CaseLabel F) → Value F → Runtime F → Bool × Runtime F
  unfolding label_matches
  labels_match [] selector r = (false, r)
  labels_match (l ∷ ls) selector r = or_next (label_matches l selector r) (labels_match ls selector)

  abbrev pub step_value : Option (Expr F) → Runtime F → ℤ × Runtime F
  step_value none r = (pos 1, r)
  step_value (some e) r = let (o, s) = eval_i64 e r in (unwrap_or (pos 1) o, s)

  -- A `for` statement, with its body as a function.
  unfoldable pub run_for : Identifier → Expr F → Expr F → Option (Expr F) → Run F → Run F
  run_for control first last by body r =
      let (from, r₁) = eval_i64 first r in
      let (end, r₂) = eval_i64 last r₁ in
      let (step, r₃) = step_value by r₂ in
      choose (eqb_ℤ step (pos 0), r₃)
        (λ s. (continue, push_error (codes "FOR loop BY value cannot be zero") s))
        (λ s.
          for_rounds body control.canonical (unwrap_or (pos 0) end) step
            s.options.max_loop_iterations (unwrap_or (pos 0) from) s)

module _ {F : Floats} (ops : Operations F) (calls : BlockCalls F) where
  abbrev pub run_assignment : VariableRef F → Option (Value F) × Runtime F → Control × Runtime F
  run_assignment target (none, r) = (continue, r)
  run_assignment target (some v, r) = (continue, ops.assign target v r)

  abbrev pub call_root : VariableRef F → Params F → Option Identifier → Run F
  call_root v args none r = (continue, calls.call_block v args r)
  call_root v args (some root) r = (
    continue,
    if calls.is_void root.original then calls.call_void root args r else calls.call_block v args r,
  )

  abbrev pub with_selector :
      Option (Value F) × Runtime F → (Value F → Run F) → Run F → Control × Runtime F
  with_selector (none, r) matching otherwise = otherwise r
  with_selector (some v, r) matching otherwise = matching v r

  abbrev pub and_then_run : Control × Runtime F → Run F → Control × Runtime F
  and_then_run (continue, r) next = next r
  and_then_run (control, r) next = (control, r)

  unfoldable mutual
    unfolding execute_il run_for labels_match root_name

    pub execute : Statement F → Runtime F → Control × Runtime F
    execute empty r = (continue, r)
    execute (assignment target e) r = run_assignment target (eval ops e r)
    execute (fb_call v args) r = call_root v args (root_name v) r
    execute (if_statement branches else_branch) r =
        run_branches branches (execute_block else_branch) r
    execute (case_statement e cases else_branch) r =
        with_selector (eval ops e r) (run_cases cases (execute_block else_branch))
          (execute_block else_branch)
    execute (for_loop control first last by body) r =
        run_for ops control first last by (execute_block body) r
    execute (while_loop condition body) r =
        while_rounds (holds ops condition) (execute_block body) r.options.max_loop_iterations r
    execute (repeat_loop body until) r =
        repeat_rounds (holds ops until) (execute_block body) r.options.max_loop_iterations r
    execute (il op operand) r = execute_il ops calls op operand r
    execute (il_label label) r = (continue, r)
    execute exit_statement r = (exit, r)
    execute return_statement r = (return, r)
    execute (Statement.unsupported text) r =
        (continue, push_warning (codes "skipping unsupported statement: " ++ text) r)

    pub execute_block : Statements F → Runtime F → Control × Runtime F
    execute_block done r = (continue, r)
    execute_block (then_do s ss) r = and_then_run (execute s r) (execute_block ss)

    pub run_branches :
        Branches F → (Runtime F → Control × Runtime F) → Runtime F → Control × Runtime F
    run_branches no_branch otherwise r = otherwise r
    run_branches (branch e body rest) otherwise r =
        choose (holds ops e r) (execute_block body) (run_branches rest otherwise)

    pub run_cases :
        Cases F → (Runtime F → Control × Runtime F) → Value F → Runtime F → Control × Runtime F
    run_cases no_case otherwise selector r = otherwise r
    run_cases (a_case labels body rest) otherwise selector r =
        choose (labels_match ops labels selector r) (execute_block body)
          (run_cases rest otherwise selector)
