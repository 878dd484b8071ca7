-- ===== src/Runtime/Eval/Invariant/Calls.antt =====
-- The invariant of `Invariant` through `eval_expr` of crates/iec_runtime/src/runtime.rs.
use robocpp.Base.{ℕ, ◌-◌, Bool, not, ◌&&◌, ◌||◌, none, some, List, []}
use robocpp.Base.Text.{Text}
use robocpp.Ir.Value.{Floats, unit, Fields}
use robocpp.Ir.Syntax.{
  Expr, literal, variable, unary, binary, call, array_literal, struct_literal, Exprs, Params, param,
  MaybeExpr, no_expr, an_expr,
}
use robocpp.Runtime.State.{Runtime}
use robocpp.Runtime.Eval.Expr.{Operations, is_implicit_en, Entry, count_params}
use robocpp.Runtime.Eval.Calls.{
  Arguments, eval, eval_maybe, eval_all, eval_fields, function_enabled, eval_inputs, eval_arguments,
}
use robocpp.Runtime.Eval.Sized.{Sized, FieldsSized}
use robocpp.Runtime.Eval.Invariant.{
  StateSized, Good, EntriesSized, Laws, if_both, after_eval-Good, eval_unary-Good, eval_right-Good,
  sort_entries-Sized, insert_field-Sized,
}
use robocpp.Runtime.Eval.Invariant.UserCalls.{
  ArgumentsSized, MaybeAllSized, unwrap_or-Sized, call_with-Good, user_call-Good, add_input-Sized,
  add_argument-Sized, enabled_call-Good, array-Good, elements-Good,
}

module _ {F : Floats} (ops : Operations F) (laws : Laws ops) where
  mutual
    unfolding Sized eval

    expr-Good : (e : Expr F) (r : Runtime F) → StateSized r → Good (eval ops e r)
    expr-Good (literal l) r h = (laws.literal_value-Sized l, h)
    expr-Good (variable v) r h = laws.resolve-Good v r h
    expr-Good (unary op e) r h =
        after_eval-Good (eval ops e r) _ (expr-Good e r h) (λ v s. eval_unary-Good op v s)
    expr-Good (binary op a b) r h =
        after_eval-Good (eval ops a r) _ (expr-Good a r h)
          (λ v s i j. eval_right-Good op v (eval ops b) s i j (expr-Good b s j))
    expr-Good (call name ps) r h =
        let he = enabled-StateSized ps r h in
        let s = (function_enabled ops ps r).1 in
        let (es, hs) =
          inputs-Good name.original ps 0 (0xffff_ffff_ffff_ffff - count_params ps) s he in
        enabled_call-Good ops laws name ps (function_enabled ops ps r).0 _ s he (
          call_with-Good ops laws name ps _ _ _
            (laws.standard-Sized name.original _ (sort_entries-Sized [] _ tt es)) hs
            (user_call-Good ops laws name ps (function_enabled ops ps) (eval_arguments ops ps) _
              (enabled-StateSized ps) (λ t k. arguments-Good ps ([], []) t (tt, tt) k) hs))
    expr-Good (array_literal es) r h = array-Good ops laws (eval_all ops es r) (all-Good es r h)
    expr-Good (struct_literal ps) r h = fields-Good ps Fields.end r tt h

    maybe-Good : (e : MaybeExpr F) (r : Runtime F) → StateSized r → Good (eval_maybe ops e r)
    maybe-Good no_expr r h = (tt, h)
    maybe-Good (an_expr e) r h = expr-Good e r h

    all-Good :
        (es : Exprs F) (r : Runtime F)
        → StateSized r
        → MaybeAllSized (eval_all ops es r).0 × StateSized (eval_all ops es r).1
    all-Good Exprs.nil r h = (tt, h)
    all-Good (Exprs.cons e es) r h =
        elements-Good ops laws (eval ops e r) (eval_all ops es) (expr-Good e r h) (all-Good es)

    fields-Good :
        (ps : Params F) (fs : Fields F) (r : Runtime F)
        → FieldsSized fs
        → StateSized r
        → FieldsSized (eval_fields ops ps fs r).0 × StateSized (eval_fields ops ps fs r).1
    fields-Good Params.end fs r g h = (g, h)
    fields-Good (param none output negated e v ps) fs r g h = fields-Good ps fs r g h
    fields-Good (param (some name) output negated e v ps) fs r g h =
        let (o, s) = maybe-Good e r h in
        fields-Good ps _ _ (insert_field-Sized name.canonical _ fs (unwrap_or-Sized unit _ tt o) g)
          s

    enabled-StateSized :
        (ps : Params F) (r : Runtime F) → StateSized r → StateSized (function_enabled ops ps r).1
    enabled-StateSized Params.end r h = h
    enabled-StateSized (param name output negated e v ps) r h =
        if_both (λ (out : Bool × Runtime F). StateSized out.1) (not output && is_implicit_en name) _
          _ (maybe-Good e r h).1 (enabled-StateSized ps r h)

    inputs-Good :
        (f : Text) (ps : Params F) (positional fresh : ℕ) (r : Runtime F)
        → StateSized r
        → EntriesSized (eval_inputs ops f ps positional fresh r).0
          × StateSized (eval_inputs ops f ps positional fresh r).1
    inputs-Good f Params.end positional fresh r h = (tt, h)
    inputs-Good f (param name output negated e v ps) positional fresh r h =
        if_both (λ (out : List (Entry F) × Runtime F). EntriesSized out.0 × StateSized out.1)
          (output || is_implicit_en name) _ _ (inputs-Good f ps positional fresh r h)
          (add_input-Sized ops laws f name positional fresh _ _ (maybe-Good e r h)
            (inputs-Good f ps))

    arguments-Good :
        (ps : Params F) (done : Arguments F) (r : Runtime F)
        → ArgumentsSized done
        → StateSized r
        → ArgumentsSized (eval_arguments ops ps done r).0
          × StateSized (eval_arguments ops ps done r).1
    arguments-Good Params.end done r g h = (g, h)
    arguments-Good (param name output negated e v ps) done r g h =
        let (o, s) = maybe-Good e r h in
        if_both (λ (out : Arguments F × Runtime F). ArgumentsSized out.0 × StateSized out.1)
          (output || is_implicit_en name) _ _ (arguments-Good ps done r g h)
          (arguments-Good ps _ _
            (add_argument-Sized ops laws name _ done (unwrap_or-Sized unit _ tt o) g) s)

  -- If the operations on variables, the standard functions and the bodies of the project's functions
  -- keep integers in `i64` and times in `i128`, so does the evaluation of every expression, in its
  -- value, in the variables and in the accumulator.
  pub eval-Good : (e : Expr F) (r : Runtime F) → StateSized r → Good (eval ops e r)
  eval-Good e r h = expr-Good e r h
