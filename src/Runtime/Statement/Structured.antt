-- ===== src/Runtime/Statement/Structured.antt =====
-- Statements of structured text, and how crates/iec_runtime/src/runtime.rs ends them.
use robocpp.Base.{ℕ, zero, suc, ◌≡◌, Bool, true, false, Option, none, some}
use robocpp.Base.Int.{ℤ, ◌+ℤ◌, wrap_i64}
use robocpp.Base.Text.{Text}
use robocpp.Ir.Names.{Identifier}
use robocpp.Ir.Value.{Floats, Value}
use robocpp.Ir.Syntax.{
  Expr, VariableRef, Params, Statement, empty, assignment, fb_call, if_statement, case_statement,
  for_loop, while_loop, repeat_loop, il, il_label, exit_statement, return_statement, Statements,
  done, then_do, Branches, no_branch, branch, Cases, no_case, a_case,
}
use robocpp.Runtime.State.{Runtime}
use robocpp.Runtime.Eval.Expr.{Operations}
use robocpp.Runtime.Statement.{
  Control, continue, exit, return, jump, Run, after_body, choose, stop_with, in_range, for_message,
  while_message, for_rounds, while_rounds, repeat_rounds,
}
use robocpp.Runtime.Statement.Il.{BlockCalls}
use robocpp.Runtime.Statement.Lists.{
  statement_at, after_statement, list_message, list_round, list_rounds, execute_statement_list,
}
use robocpp.Runtime.Statement.Execute.{
  run_for, run_assignment, call_root, with_selector, and_then_run, execute, execute_block,
  run_branches, run_cases,
}

-- How a statement may end, within a loop or not.
pub data Confined : Bool → Control → Type 0 where
  goes_on : {within : Bool} → Confined within continue
  returns : {within : Bool} → Confined within return
  exits : Confined true exit

-- No instruction of an instruction list, and an `EXIT` only within a loop.
unfoldable mutual
  pub Structured : {F : Floats} → Bool → Statement F → Type 0
  Structured within (if_statement branches ss) =
      BranchesStructured within branches × AllStructured within ss
  Structured within (case_statement e cases ss) =
      CasesStructured within cases × AllStructured within ss
  Structured within (for_loop control first last by body) = AllStructured true body
  Structured within (while_loop e body) = AllStructured true body
  Structured within (repeat_loop body e) = AllStructured true body
  Structured within (il op operand) = ⊥
  Structured within exit_statement = within ≡ true
  Structured within _ = Unit

  pub AllStructured : {F : Floats} → Bool → Statements F → Type 0
  AllStructured within done = Unit
  AllStructured within (then_do s ss) = Structured within s × AllStructured within ss

  pub BranchesStructured : {F : Floats} → Bool → Branches F → Type 0
  BranchesStructured within no_branch = Unit
  BranchesStructured within (branch e body rest) =
      AllStructured within body × BranchesStructured within rest

  pub CasesStructured : {F : Floats} → Bool → Cases F → Type 0
  CasesStructured within no_case = Unit
  CasesStructured within (a_case labels body rest) =
      AllStructured within body × CasesStructured within rest

-- A run that always ends in that way
abbrev Ends : {F : Floats} → Bool → Run F → Type 0
Ends {F} within f = (r : Runtime F) → Confined within (f r).0

module _ {F : Floats} where
  after_body-Confined :
      (within : Bool) (out : Control × Runtime F) (next : Run F)
      → Confined true out.0
      → Ends within next
      → Confined within (after_body out next).0
  after_body-Confined within (continue, r) next c h = h r
  after_body-Confined within (exit, r) next c h = goes_on
  after_body-Confined within (return, r) next c h = returns
  after_body-Confined within (jump label, r) next c h = elim c [ ]

  choose-Confined :
      (within : Bool) (out : Bool × Runtime F) (f g : Run F)
      → Ends within f
      → Ends within g
      → Confined within (choose out f g).0
  choose-Confined within (true, r) f g hf hg = hf r
  choose-Confined within (false, r) f g hf hg = hg r

  for_rounds-Confined :
      (within : Bool) (body : Run F) (control : Text) (end step : ℤ) (n : ℕ) (value : ℤ)
      → Ends true body
      → Ends within (for_rounds body control end step n value)
  unfolding for_rounds
  for_rounds-Confined within body control end step zero value h r =
      choose-Confined within (in_range end step value, r) _ _
        (λ s. after_body-Confined within _ (stop_with for_message) (h _) (λ t. goes_on))
        (λ s. goes_on)
  for_rounds-Confined within body control end step (suc n) value h r =
      choose-Confined within (in_range end step value, r) _ _
        (λ s.
          after_body-Confined within _ _ (h _)
            (for_rounds-Confined within body control end step n (wrap_i64 (value +ℤ step)) h))
        (λ s. goes_on)

  while_rounds-Confined :
      (within : Bool) (condition : Runtime F → Bool × Runtime F) (body : Run F) (n : ℕ)
      → Ends true body
      → Ends within (while_rounds condition body n)
  unfolding while_rounds
  while_rounds-Confined within condition body zero h r =
      choose-Confined within (condition r) _ _
        (λ s. after_body-Confined within _ (stop_with while_message) (h _) (λ t. goes_on))
        (λ s. goes_on)
  while_rounds-Confined within condition body (suc n) h r =
      choose-Confined within (condition r) _ _
        (λ s.
          after_body-Confined within _ _ (h _) (while_rounds-Confined within condition body n h))
        (λ s. goes_on)

  repeat_rounds-Confined :
      (within : Bool) (until : Runtime F → Bool × Runtime F) (body : Run F) (n : ℕ)
      → Ends true body
      → Ends within (repeat_rounds until body n)
  unfolding repeat_rounds
  repeat_rounds-Confined within until body zero h r =
      after_body-Confined within _ _ (h r)
        (λ s. choose-Confined within (until s) _ _ (λ t. goes_on) (λ t. goes_on))
  repeat_rounds-Confined within until body (suc n) h r = after_body-Confined within _ _ (h r) (λ s.
      choose-Confined within (until s) _ _ (λ t. goes_on)
        (repeat_rounds-Confined within until body n h))

module _ {F : Floats} (ops : Operations F) (calls : BlockCalls F) where
  run_for-Confined :
      (within : Bool) (control : Identifier) (first last : Expr F) (by : Option (Expr F))
      (body : Run F)
      → Ends true body
      → Ends within (run_for ops control first last by body)
  unfolding run_for
  run_for-Confined within control first last by body h r =
      choose-Confined within _ _ _ (λ s. goes_on)
        (λ s. for_rounds-Confined within body control.canonical _ _ _ _ h s)

  run_assignment-Confined :
      (within : Bool) (target : VariableRef F) (out : Option (Value F) × Runtime F)
      → Confined within (run_assignment ops calls target out).0
  run_assignment-Confined within target (none, r) = goes_on
  run_assignment-Confined within target (some v, r) = goes_on

  call_root-Confined :
      (within : Bool) (v : VariableRef F) (args : Params F) (root : Option Identifier)
      → Ends within (call_root ops calls v args root)
  call_root-Confined within v args none r = goes_on
  call_root-Confined within v args (some root) r = goes_on

  with_selector-Confined :
      (within : Bool) (out : Option (Value F) × Runtime F) (f : Value F → Run F) (g : Run F)
      → ((v : Value F) → Ends within (f v))
      → Ends within g
      → Confined within (with_selector ops calls out f g).0
  with_selector-Confined within (none, r) f g hf hg = hg r
  with_selector-Confined within (some v, r) f g hf hg = hf v r

  and_then_run-Confined :
      (within : Bool) (out : Control × Runtime F) (next : Run F)
      → Confined within out.0
      → Ends within next
      → Confined within (and_then_run ops calls out next).0
  and_then_run-Confined within (continue, r) next c h = h r
  and_then_run-Confined within (exit, r) next c h = c
  and_then_run-Confined within (return, r) next c h = c
  and_then_run-Confined within (jump label, r) next c h = c

  exit-Confined : (within : Bool) → within ≡ true → Confined within exit
  exit-Confined true h = exits
  exit-Confined false h = cc

  mutual
    unfolding Structured execute

    execute-Confined :
        (within : Bool) (s : Statement F)
        → Structured within s
        → (r : Runtime F) → Confined within (execute ops calls s r).0
    execute-Confined within empty h r = goes_on
    execute-Confined within (assignment target e) h r = run_assignment-Confined within target _
    execute-Confined within (fb_call v args) h r = call_root-Confined within v args _ r
    execute-Confined within (if_statement branches ss) h r =
        run_branches-Confined within branches _ h.0 (execute_block-Confined within ss h.1) r
    execute-Confined within (case_statement e cases ss) h r =
        with_selector-Confined within _ _ _
          (run_cases-Confined within cases _ h.0 (execute_block-Confined within ss h.1))
          (execute_block-Confined within ss h.1)
    execute-Confined within (for_loop control first last by body) h r =
        run_for-Confined within control first last by _ (execute_block-Confined true body h) r
    execute-Confined within (while_loop e body) h r =
        while_rounds-Confined within _ _ _ (execute_block-Confined true body h) r
    execute-Confined within (repeat_loop body e) h r =
        repeat_rounds-Confined within _ _ _ (execute_block-Confined true body h) r
    execute-Confined within (il op operand) h r = elim h [ ]
    execute-Confined within (il_label label) h r = goes_on
    execute-Confined within exit_statement h r = exit-Confined within h
    execute-Confined within return_statement h r = returns
    execute-Confined within (Statement.unsupported text) h r = goes_on

    execute_block-Confined :
        (within : Bool) (ss : Statements F)
        → AllStructured within ss
        → (r : Runtime F) → Confined within (execute_block ops calls ss r).0
    execute_block-Confined within done h r = goes_on
    execute_block-Confined within (then_do s ss) h r =
        and_then_run-Confined within _ _ (execute-Confined within s h.0 r)
          (execute_block-Confined within ss h.1)

    run_branches-Confined :
        (within : Bool) (branches : Branches F) (otherwise : Run F)
        → BranchesStructured within branches
        → Ends within otherwise
        → (r : Runtime F) → Confined within (run_branches ops calls branches otherwise r).0
    run_branches-Confined within no_branch otherwise h k r = k r
    run_branches-Confined within (branch e body rest) otherwise h k r =
        choose-Confined within _ _ _ (execute_block-Confined within body h.0)
          (run_branches-Confined within rest otherwise h.1 k)

    run_cases-Confined :
        (within : Bool) (cases : Cases F) (otherwise : Run F)
        → CasesStructured within cases
        → Ends within otherwise
        → (selector : Value F) (r : Runtime F)
        → Confined within (run_cases ops calls cases otherwise selector r).0
    run_cases-Confined within no_case otherwise h k selector r = k r
    run_cases-Confined within (a_case labels body rest) otherwise h k selector r =
        choose-Confined within _ _ _ (execute_block-Confined within body h.0)
          (run_cases-Confined within rest otherwise h.1 k selector)

  MaybeStructured : Option (Statement F) → Type 0
  MaybeStructured none = Unit
  MaybeStructured (some s) = Structured false s

  statement_at-Structured :
      (i : ℕ) (ss : Statements F) → AllStructured false ss → MaybeStructured (statement_at i ss)
  unfolding Structured MaybeStructured
  statement_at-Structured i done h = tt
  statement_at-Structured zero (then_do s ss) h = h.0
  statement_at-Structured (suc i) (then_do s ss) h = statement_at-Structured i ss h.1

  after_statement-Confined :
      (ss : Statements F) (ip : ℕ) (out : Control × Runtime F) (next : ℕ → Run F)
      → Confined false out.0
      → ((i : ℕ) → Ends false (next i))
      → Confined false (after_statement ss ip out next).0
  after_statement-Confined ss ip (continue, r) next c h = h (suc ip) r
  after_statement-Confined ss ip (return, r) next c h = returns
  after_statement-Confined ss ip (exit, r) next c h = elim c [ ]
  after_statement-Confined ss ip (jump label, r) next c h = elim c [ ]

  round-Confined :
      (ss : Statements F) (o : Option (Statement F)) (ip : ℕ) (next : ℕ → Run F)
      → MaybeStructured o
      → ((i : ℕ) → Ends false (next i))
      → Ends false (list_round ops calls ss o ip next)
  unfolding MaybeStructured
  round-Confined ss none ip next c h r = goes_on
  round-Confined ss (some s) ip next c h r =
      after_statement-Confined ss ip _ next (execute-Confined false s c r) h

  list_rounds-Confined :
      (ss : Statements F) (n ip : ℕ)
      → AllStructured false ss
      → Ends false (list_rounds ops calls ss n ip)
  unfolding list_rounds
  list_rounds-Confined ss zero ip h r =
      round-Confined ss (statement_at ip ss) ip (λ i. stop_with list_message)
        (statement_at-Structured ip ss h) (λ i s. goes_on) r
  list_rounds-Confined ss (suc n) ip h r =
      round-Confined ss (statement_at ip ss) ip (list_rounds ops calls ss n)
        (statement_at-Structured ip ss h) (λ i. list_rounds-Confined ss n i h) r

  -- A body without instruction lists, with every `EXIT` inside a loop, ends normally or with a
  -- return, however its loops and calls go: no `EXIT` and no jump leaves it.
  pub execute_statement_list-Confined :
      (ss : Statements F) (r : Runtime F)
      → AllStructured false ss
      → Confined false (execute_statement_list ops calls ss r).0
  unfolding execute_statement_list
  execute_statement_list-Confined ss r h = list_rounds-Confined ss _ 0 h r
