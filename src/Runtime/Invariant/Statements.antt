-- ===== src/Runtime/Invariant/Statements.antt =====
-- Statements and lists of statements of crates/iec_runtime/src/runtime.rs keep the values of the
-- state sized.
use robocpp.Base.{Bool, true, false, Option, none, some, List, [], ◌∷◌, arith, unwrap_or, and_then}
use robocpp.Base.Int.{ℤ, pos, IsI64, eqb_ℤ}
use robocpp.Ir.Names.{Identifier}
use robocpp.Ir.Value.{Floats, Value, as_i64}
use robocpp.Ir.Syntax.{
  Expr, VariableRef, Params, CaseLabel, single, range, Statement, empty, assignment, fb_call,
  if_statement, case_statement, for_loop, while_loop, repeat_loop, il, il_label, exit_statement,
  return_statement, Statements, done, then_do, Branches, no_branch, branch, Cases, no_case, a_case,
}
use robocpp.Runtime.State.{Runtime}
use robocpp.Runtime.Eval.Expr.{Operations}
use robocpp.Runtime.Eval.Calls.{eval}
use robocpp.Runtime.Eval.Sized.{MaybeSized, MaybeI64, as_i64-Sized}
use robocpp.Runtime.Eval.Invariant.{
  StateSized, Good, Laws, if_both, push_error-StateSized, push_warning-StateSized,
}
use robocpp.Runtime.Eval.Invariant.Calls.{eval-Good}
use robocpp.Runtime.Statement.{Control, continue, exit, return, jump, Run}
use robocpp.Runtime.Statement.Il.{BlockCalls, root_name}
use robocpp.Runtime.Statement.Execute.{
  holds, eval_i64, label_matches, or_next, labels_match, step_value, run_for, run_assignment,
  call_root, with_selector, and_then_run, execute, execute_block, run_branches, run_cases,
}
use robocpp.Runtime.Invariant.{
  Keeps, CallLaws, choose-Keeps, for_rounds-Keeps, while_rounds-Keeps, repeat_rounds-Keeps,
}
use robocpp.Runtime.Invariant.Il.{execute_il-Keeps}

or_IsI64 : (d : ℤ) (o : Option ℤ) → IsI64 d → MaybeI64 o → IsI64 (unwrap_or d o)
or_IsI64 d none h k = h
or_IsI64 d (some n) h k = k

module _ {F : Floats} where
  number_of : (o : Option (Value F)) → MaybeSized o → MaybeI64 (and_then o as_i64)
  number_of none h = tt
  number_of (some v) h = as_i64-Sized v h

module _ {F : Floats} (ops : Operations F) (laws : Laws ops) where
  eval_i64-Sized :
      (e : Expr F) (r : Runtime F)
      → StateSized r
      → MaybeI64 (eval_i64 ops e r).0 × StateSized (eval_i64 ops e r).1
  eval_i64-Sized e r h = let (o, s) = eval-Good ops laws e r h in (number_of _ o, s)

  pub holds-StateSized : (e : Expr F) (r : Runtime F) → StateSized r → StateSized (holds ops e r).1
  holds-StateSized e r h = (eval-Good ops laws e r h).1

  label_matches-StateSized :
      (l : CaseLabel F) (v : Value F) (r : Runtime F)
      → StateSized r
      → StateSized (label_matches ops l v r).1
  unfolding label_matches
  label_matches-StateSized (single e) v r h = (eval-Good ops laws e r h).1
  label_matches-StateSized (range low high) v r h =
      (eval_i64-Sized high _ (eval_i64-Sized low r h).1).1

  or_next-StateSized :
      (out : Bool × Runtime F) (next : Runtime F → Bool × Runtime F)
      → StateSized out.1
      → ((r : Runtime F) → StateSized r → StateSized (next r).1)
      → StateSized (or_next ops out next).1
  or_next-StateSized (true, r) next h k = h
  or_next-StateSized (false, r) next h k = k r h

  labels_match-StateSized :
      (ls : List (CaseLabel F)) (v : Value F) (r : Runtime F)
      → StateSized r
      → StateSized (labels_match ops ls v r).1
  unfolding labels_match
  labels_match-StateSized [] v r h = h
  labels_match-StateSized (l ∷ ls) v r h =
      or_next-StateSized (label_matches ops l v r) _ (label_matches-StateSized l v r h)
        (labels_match-StateSized ls v)

  step_value-Sized :
      (by : Option (Expr F)) (r : Runtime F) → StateSized r → StateSized (step_value ops by r).1
  step_value-Sized none r h = h
  step_value-Sized (some e) r h = (eval_i64-Sized e r h).1

  run_for-Keeps :
      (control : Identifier) (first last : Expr F) (by : Option (Expr F)) (body : Run F)
      → Keeps body
      → Keeps (run_for ops control first last by body)
  unfolding run_for
  run_for-Keeps control first last by body hb r h =
      let (i, s) = eval_i64-Sized first r h in
      let (j, t) = eval_i64-Sized last _ s in
      choose-Keeps (eqb_ℤ (step_value ops by _).0 (pos 0), (step_value ops by _).1) _ _
        (step_value-Sized by _ t) (λ u k. push_error-StateSized _ u k)
        (λ u k.
          for_rounds-Keeps body control.canonical _ _ _ _ (or_IsI64 (pos 0) _ (omega arith) i) hb u
            k)

module _ {F : Floats} (ops : Operations F) (laws : Laws ops) (calls : BlockCalls F)
    (call_laws : CallLaws calls) where
  run_assignment-StateSized :
      (target : VariableRef F) (out : Option (Value F) × Runtime F)
      → Good out
      → StateSized (run_assignment ops calls target out).1
  run_assignment-StateSized target (none, r) h = h.1
  run_assignment-StateSized target (some v, r) h = laws.assign-StateSized target v r h.0 h.1

  call_root-Keeps :
      (v : VariableRef F) (ps : Params F) (root : Option Identifier)
      → Keeps (call_root ops calls v ps root)
  call_root-Keeps v ps none r h = call_laws.call_block-StateSized v ps r h
  call_root-Keeps v ps (some root) r h =
      if_both StateSized (calls.is_void root.original) _ _
        (call_laws.call_void-StateSized root ps r h) (call_laws.call_block-StateSized v ps r h)

  with_selector-Keeps :
      (out : Option (Value F) × Runtime F) (f : Value F → Run F) (g : Run F)
      → StateSized out.1
      → ((v : Value F) → Keeps (f v))
      → Keeps g
      → StateSized (with_selector ops calls out f g).1
  with_selector-Keeps (none, r) f g h hf hg = hg r h
  with_selector-Keeps (some v, r) f g h hf hg = hf v r h

  and_then_run-Keeps :
      (out : Control × Runtime F) (next : Run F)
      → StateSized out.1
      → Keeps next
      → StateSized (and_then_run ops calls out next).1
  and_then_run-Keeps (continue, r) next h k = k r h
  and_then_run-Keeps (exit, r) next h k = h
  and_then_run-Keeps (return, r) next h k = h
  and_then_run-Keeps (jump label, r) next h k = h

  mutual
    unfolding execute

    pub execute-Keeps :
        (s : Statement F) (r : Runtime F) → StateSized r → StateSized (execute ops calls s r).1
    execute-Keeps empty r h = h
    execute-Keeps (assignment target e) r h =
        run_assignment-StateSized target _ (eval-Good ops laws e r h)
    execute-Keeps (fb_call v ps) r h = call_root-Keeps v ps (root_name v) r h
    execute-Keeps (if_statement branches ss) r h =
        run_branches-Keeps branches _ (execute_block-Keeps ss) r h
    execute-Keeps (case_statement e cases ss) r h =
        with_selector-Keeps (eval ops e r) _ _ (eval-Good ops laws e r h).1
          (run_cases-Keeps cases _ (execute_block-Keeps ss)) (execute_block-Keeps ss)
    execute-Keeps (for_loop control first last by body) r h =
        run_for-Keeps ops laws control first last by _ (execute_block-Keeps body) r h
    execute-Keeps (while_loop e body) r h =
        while_rounds-Keeps _ _ _ (holds-StateSized ops laws e) (execute_block-Keeps body) r h
    execute-Keeps (repeat_loop body e) r h =
        repeat_rounds-Keeps _ _ _ (holds-StateSized ops laws e) (execute_block-Keeps body) r h
    execute-Keeps (il op operand) r h = execute_il-Keeps ops laws calls call_laws op operand r h
    execute-Keeps (il_label label) r h = h
    execute-Keeps exit_statement r h = h
    execute-Keeps return_statement r h = h
    execute-Keeps (Statement.unsupported text) r h = push_warning-StateSized _ r h

    execute_block-Keeps :
        (ss : Statements F) (r : Runtime F)
        → StateSized r
        → StateSized (execute_block ops calls ss r).1
    execute_block-Keeps done r h = h
    execute_block-Keeps (then_do s ss) r h =
        and_then_run-Keeps (execute ops calls s r) _ (execute-Keeps s r h) (execute_block-Keeps ss)

    run_branches-Keeps :
        (branches : Branches F) (otherwise : Run F)
        → Keeps otherwise
        → (r : Runtime F) → StateSized r
        → StateSized (run_branches ops calls branches otherwise r).1
    run_branches-Keeps no_branch otherwise k r h = k r h
    run_branches-Keeps (branch e body rest) otherwise k r h =
        choose-Keeps (holds ops e r) _ _ (holds-StateSized ops laws e r h)
          (execute_block-Keeps body) (run_branches-Keeps rest otherwise k)

    run_cases-Keeps :
        (cases : Cases F) (otherwise : Run F)
        → Keeps otherwise
        → (v : Value F) (r : Runtime F) → StateSized r
        → StateSized (run_cases ops calls cases otherwise v r).1
    run_cases-Keeps no_case otherwise k v r h = k r h
    run_cases-Keeps (a_case labels body rest) otherwise k v r h =
        choose-Keeps (labels_match ops labels v r) _ _
          (labels_match-StateSized ops laws labels v r h) (execute_block-Keeps body)
          (run_cases-Keeps rest otherwise k v)
