-- ===== src/Runtime/Eval/Calls.antt =====
-- `eval_expr` and `eval_user_function` of crates/iec_runtime/src/runtime.rs. The recursion follows
-- the expression; the body of a called function is run by one of the operations.
use robocpp.Base.{
  ℕ, suc, ◌-◌, Bool, true, false, not, ◌&&◌, ◌||◌, Option, none, some, List, [], ◌∷◌, ◌++◌,
  if◌then◌else◌, leb, unwrap_or, and_then,
}
use robocpp.Base.Int.{pos}
use robocpp.Base.Text.{Text, codes}
use robocpp.Base.Map.{Map, insert}
use robocpp.Ir.Names.{Identifier}
use robocpp.Ir.Value.{Floats, Value, bool, int, unit, array, struct, Values, Fields, as_bool}
use robocpp.Ir.Syntax.{
  Expr, literal, variable, unary, binary, call, array_literal, struct_literal, Exprs, Params, param,
  MaybeExpr, no_expr, an_expr, MaybeVariable, no_variable, a_variable,
}
use robocpp.Runtime.State.{Runtime}
use robocpp.Runtime.Eval.{Eval, after_eval, push_error, push_warning}
use robocpp.Runtime.Eval.Expr.{
  Operations, is_implicit_en, is_implicit_eno, Entry, sort_entries, entry_values, insert_field,
  count_params, eval_unary, eval_right,
}

-- What the arguments of a function of the project evaluate to.
abbrev pub Arguments : Floats → Type 0
Arguments F = List (Value F) × Map (Value F)

module _ {F : Floats} (ops : Operations F) where
  abbrev pub assign_eno_to : MaybeVariable F → Bool → Runtime F → Runtime F
  assign_eno_to no_variable b r = r
  assign_eno_to (a_variable v) b r = ops.assign v (bool b) r

  -- `assign_function_eno`
  unfoldable pub assign_eno : Params F → Bool → Runtime F → Runtime F
  assign_eno Params.end b r = r
  assign_eno (param name output negated e v ps) b r = assign_eno ps b (
      if output && is_implicit_eno name
      then assign_eno_to v (if negated then not b else b) r
      else r)

  abbrev pub failed_message : Identifier → Text
  failed_message name =
      codes "standard function '" ++ (name.original ++ codes "' failed for supplied arguments")

  abbrev pub depth_message : Identifier → Text
  depth_message name =
      codes "maximum function call depth exceeded at '" ++ (name.original ++ codes "'")

  abbrev pub not_executable_message : Identifier → Text
  not_executable_message name =
      codes "function '" ++ (name.original ++ codes "' is not executable yet")

  -- `eval_user_function(..).or_else(..)`
  abbrev pub or_warn : Identifier → Option (Value F) × Runtime F → Option (Value F) × Runtime F
  or_warn name (some v, r) = (some v, r)
  or_warn name (none, r) = (some unit, push_warning (not_executable_message name) r)

  -- The call once its inputs are evaluated; `user` is the call as one of the project's functions.
  abbrev pub call_with :
      Identifier → Params F → Option (Value F) → Eval F (Value F) → Eval F (Value F)
  call_with name args (some v) user r = (some v, assign_eno args true r)
  call_with name args none user r =
      if ops.is_standard name.original
      then (none, push_error (failed_message name) (assign_eno args false r))
      else or_warn name (user r)

  abbrev pub disabled_call : Identifier → Params F → Eval F (Value F)
  disabled_call name args r =
      if ops.is_standard name.original
      then (some (ops.disabled_standard_value name args), assign_eno args false r)
      else (
        some (unwrap_or (int (pos 0)) (ops.function_default name.original)),
        assign_eno args false r,
      )

  abbrev pub after_run : Params F → Option (Value F) × Runtime F → Option (Value F) × Runtime F
  after_run args (some v, r) = (some v, assign_eno args true r)
  after_run args (none, r) = (none, r)

  abbrev pub input_position : Text → Option Identifier → ℕ → ℕ → ℕ × (ℕ × ℕ)
  input_position f none positional fresh = (positional, (suc positional, fresh))
  input_position f (some name) positional fresh = elim (ops.input_index f name.original) [
    | some i ↦ (i, (positional, fresh))
    | none ↦ (fresh, (positional, suc fresh))
  ]

  -- An input with its place, before those that are left.
  abbrev pub add_input :
      Text
      → Option Identifier
      → ℕ
      → ℕ
      → (ℕ → ℕ → Runtime F → List (Entry F) × Runtime F)
      → Option (Value F) × Runtime F
      → List (Entry F) × Runtime F
  add_input f name positional fresh rest (none, r) = rest positional fresh r
  add_input f name positional fresh rest (some v, r) =
      let (i, counters) = input_position f name positional fresh in
      let (es, r') = rest counters.0 counters.1 r in ((i, v) ∷ es, r')

  abbrev pub add_argument : Option Identifier → Value F → Arguments F → Arguments F
  add_argument none v (positional, named) = (positional ++ v ∷ [], named)
  add_argument (some name) v (positional, named) = (positional, insert name.canonical v named)

  -- `eval_user_function`, with the evaluations of its parts and the default value of the function
  abbrev pub user_call_from :
      Identifier
      → Params F
      → (Runtime F → Bool × Runtime F)
      → (Arguments F → Runtime F → Arguments F × Runtime F)
      → Runtime F
      → Option (Value F)
      → Option (Value F) × Runtime F
  user_call_from name args enable arguments r none = (none, r)
  user_call_from name args enable arguments r (some value) =
      let (enabled, r) = enable r in
      let run =
        let (done, s) = arguments ([], []) r in
        after_run args (ops.run_function name done.0 done.1 s) in
      if not enabled
      then (some value, assign_eno args false r)
      else if leb 64 r.call_depth
      then (none, push_error (depth_message name) r)
      else run

  abbrev pub user_call :
      Identifier
      → Params F
      → (Runtime F → Bool × Runtime F)
      → (Arguments F → Runtime F → Arguments F × Runtime F)
      → Runtime F
      → Option (Value F) × Runtime F
  user_call name args enable arguments r =
      user_call_from name args enable arguments r (ops.function_default name.original)

  unfoldable mutual
    unfolding sort_entries entry_values

    pub eval : Expr F → Runtime F → Option (Value F) × Runtime F
    eval (literal l) r = (some (ops.literal_value l), r)
    eval (variable v) r = ops.resolve v r
    eval (unary op e) r = after_eval (eval e r) (λ v s. eval_unary op v s)
    eval (binary op a b) r = after_eval (eval a r) (λ v s. eval_right op v (eval b) s)
    eval (call name args) r =
        let (enabled, r) = function_enabled args r in
        let outcome =
          let (entries, s) =
            eval_inputs name.original args 0 (0xffff_ffff_ffff_ffff - count_params args) r in
          call_with name args (ops.standard name.original (entry_values (sort_entries [] entries)))
            (user_call name args (function_enabled args) (eval_arguments args)) s in
        if enabled then outcome else disabled_call name args r
    eval (array_literal es) r = after_eval (eval_all es r) (λ vs s. (some (array vs), s))
    eval (struct_literal ps) r = let (fs, s) = eval_fields ps Fields.end r in (some (struct fs), s)

    pub eval_maybe : MaybeExpr F → Runtime F → Option (Value F) × Runtime F
    eval_maybe no_expr r = (none, r)
    eval_maybe (an_expr e) r = eval e r

    -- `collect::<Option<Vec<_>>>` stops at the first `None`.
    pub eval_all : Exprs F → Runtime F → Option (Values F) × Runtime F
    eval_all Exprs.nil r = (some Values.nil, r)
    eval_all (Exprs.cons e es) r =
        after_eval (eval e r)
          (λ v s. after_eval (eval_all es s) (λ vs t. (some (Values.cons v vs), t)))

    pub eval_fields : Params F → Fields F → Runtime F → Fields F × Runtime F
    eval_fields Params.end fs r = (fs, r)
    eval_fields (param none output negated e v ps) fs r = eval_fields ps fs r
    eval_fields (param (some name) output negated e v ps) fs r =
        let (o, s) = eval_maybe e r in
        eval_fields ps (insert_field name.canonical (unwrap_or unit o) fs) s

    -- `function_call_enabled`
    pub function_enabled : Params F → Runtime F → Bool × Runtime F
    function_enabled Params.end r = (true, r)
    function_enabled (param name output negated e v ps) r =
        let (o, s) = eval_maybe e r in
        let rest = function_enabled ps r in
        if not output && is_implicit_en name then (unwrap_or true (and_then o as_bool), s) else rest

    -- `eval_standard_function_inputs`, before the sort
    pub eval_inputs : Text → Params F → ℕ → ℕ → Runtime F → List (Entry F) × Runtime F
    eval_inputs f Params.end positional fresh r = ([], r)
    eval_inputs f (param name output negated e v ps) positional fresh r =
        let skipped = eval_inputs f ps positional fresh r in
        let added = add_input f name positional fresh (eval_inputs f ps) (eval_maybe e r) in
        if output || is_implicit_en name then skipped else added

    -- The loop of `eval_user_function` over its arguments
    pub eval_arguments : Params F → Arguments F → Runtime F → Arguments F × Runtime F
    eval_arguments Params.end done r = (done, r)
    eval_arguments (param name output negated e v ps) done r =
        let skipped = eval_arguments ps done r in
        let added =
          let (o, s) = eval_maybe e r in
          eval_arguments ps (add_argument name (unwrap_or unit o) done) s in
        if output || is_implicit_en name then skipped else added
