-- ===== src/Runtime/Eval/Invariant/UserCalls.antt =====
-- The parts of a call and of a list of expressions keep the invariant of `Invariant`, crates/iec_runtime/src/runtime.rs.
use robocpp.Base.{
  ℕ, Bool, true, false, not, ◌&&◌, Option, none, some, List, [], ◌∷◌, ◌++◌, arith, if◌then◌else◌,
  leb, unwrap_or,
}
use robocpp.Base.Int.{pos}
use robocpp.Base.Text.{Text}
use robocpp.Base.Map.{All, insert-All}
use robocpp.Ir.Names.{Identifier}
use robocpp.Ir.Value.{Floats, Value, bool, int, array, Values}
use robocpp.Ir.Syntax.{Params, param, MaybeVariable, no_variable, a_variable}
use robocpp.Runtime.State.{Runtime}
use robocpp.Runtime.Eval.{Eval, after_eval}
use robocpp.Runtime.Eval.Expr.{Operations, is_implicit_eno, Entry}
use robocpp.Runtime.Eval.Calls.{
  Arguments, assign_eno_to, assign_eno, not_executable_message, or_warn, call_with, disabled_call,
  after_run, input_position, add_input, add_argument, user_call, user_call_from,
}
use robocpp.Runtime.Eval.Sized.{Sized, AllSized, MaybeSized}
use robocpp.Runtime.Eval.Invariant.{
  StateSized, Good, ListSized, EntriesSized, Laws, if_both, push_error-StateSized,
  push_warning-StateSized,
}

module _ {F : Floats} where
  abbrev pub ArgumentsSized : Arguments F → Type 0
  ArgumentsSized a = ListSized a.0 × All (λ k v. Sized v) a.1

  abbrev pub MaybeAllSized : Option (Values F) → Type 0
  MaybeAllSized none = Unit
  MaybeAllSized (some vs) = AllSized vs

  -- What the evaluation of an optional expression falls back on
  pub unwrap_or-Sized :
      (d : Value F) (o : Option (Value F)) → Sized d → MaybeSized o → Sized (unwrap_or d o)
  unwrap_or-Sized d none h k = h
  unwrap_or-Sized d (some v) h k = k

  pub append-Sized :
      (vs : List (Value F)) (v : Value F) → ListSized vs → Sized v → ListSized (vs ++ v ∷ [])
  append-Sized [] v h k = (k, tt)
  append-Sized (w ∷ vs) v h k = (h.0, append-Sized vs v h.1 k)

module _ {F : Floats} (ops : Operations F) (laws : Laws ops) where
  pub assign_eno_to-StateSized :
      (v : MaybeVariable F) (b : Bool) (r : Runtime F)
      → StateSized r
      → StateSized (assign_eno_to ops v b r)
  unfolding Sized
  assign_eno_to-StateSized no_variable b r h = h
  assign_eno_to-StateSized (a_variable v) b r h = laws.assign-StateSized v (bool b) r tt h

  pub assign_eno-StateSized :
      (ps : Params F) (b : Bool) (r : Runtime F) → StateSized r → StateSized (assign_eno ops ps b r)
  unfolding assign_eno
  assign_eno-StateSized Params.end b r h = h
  assign_eno-StateSized (param name output negated e v ps) b r h = assign_eno-StateSized ps b _ (
      if_both StateSized (output && is_implicit_eno name) _ _
        (assign_eno_to-StateSized v (if negated then not b else b) r h) h)

  pub or_warn-Good :
      (name : Identifier) (out : Option (Value F) × Runtime F)
      → Good out
      → Good (or_warn ops name out)
  unfolding Sized
  or_warn-Good name (some v, r) h = h
  or_warn-Good name (none, r) h =
      (tt, push_warning-StateSized (not_executable_message ops name) r h.1)

  pub call_with-Good :
      (name : Identifier) (ps : Params F) (o : Option (Value F)) (user : Eval F (Value F))
      (r : Runtime F)
      → MaybeSized o
      → StateSized r
      → Good (user r)
      → Good (call_with ops name ps o user r)
  call_with-Good name ps (some v) user r h k g = (h, assign_eno-StateSized ps true r k)
  call_with-Good name ps none user r h k g =
      if_both Good (ops.is_standard name.original) _ _
        (tt, push_error-StateSized _ _ (assign_eno-StateSized ps false r k))
        (or_warn-Good name (user r) g)

  pub disabled_call-Good :
      (name : Identifier) (ps : Params F) (r : Runtime F)
      → StateSized r
      → Good (disabled_call ops name ps r)
  unfolding Sized
  disabled_call-Good name ps r h =
      if_both Good (ops.is_standard name.original) _ _
        (laws.disabled-Sized name ps, assign_eno-StateSized ps false r h)
        (
          unwrap_or-Sized (int (pos 0)) (ops.function_default name.original) (omega arith)
              (laws.default-Sized name.original),
          assign_eno-StateSized ps false r h,
        )

  pub after_run-Good :
      (ps : Params F) (out : Option (Value F) × Runtime F) → Good out → Good (after_run ops ps out)
  after_run-Good ps (some v, r) h = (h.0, assign_eno-StateSized ps true r h.1)
  after_run-Good ps (none, r) h = h

  pub user_call-Good :
      (name : Identifier) (ps : Params F) (enable : Runtime F → Bool × Runtime F)
      (arguments : Arguments F → Runtime F → Arguments F × Runtime F) (r : Runtime F)
      → ((s : Runtime F) → StateSized s → StateSized (enable s).1)
      → ((s : Runtime F)
          → StateSized s
          → ArgumentsSized (arguments ([], []) s).0 × StateSized (arguments ([], []) s).1)
      → StateSized r
      → Good (user_call ops name ps enable arguments r)
  user_call-Good name ps enable arguments r he ha h =
      by_default (ops.function_default name.original) (laws.default-Sized name.original)
    where
      by_default :
          (o : Option (Value F))
          → MaybeSized o
          → Good (user_call_from ops name ps enable arguments r o)
      by_default none k = (tt, h)
      by_default (some v) k =
          let s = (enable r).1 in
          let hs = he r h in
          let (sized, t) = ha s hs in
          if_both Good (not (enable r).0) _ _ (k, assign_eno-StateSized ps false s hs)
            (if_both Good (leb 64 s.call_depth) _ _ (tt, push_error-StateSized _ s hs)
              (after_run-Good ps _ (laws.run_function-Good name _ _ _ sized.0 sized.1 t)))

  pub add_input-Sized :
      (f : Text) (name : Option Identifier) (positional fresh : ℕ)
      (rest : ℕ → ℕ → Runtime F → List (Entry F) × Runtime F) (out : Option (Value F) × Runtime F)
      → Good out
      → ((i j : ℕ) (r : Runtime F)
          → StateSized r
          → EntriesSized (rest i j r).0 × StateSized (rest i j r).1)
      → EntriesSized (add_input ops f name positional fresh rest out).0
        × StateSized (add_input ops f name positional fresh rest out).1
  add_input-Sized f name positional fresh rest (none, r) g h = h positional fresh r g.1
  add_input-Sized f name positional fresh rest (some v, r) g h =
      let counters = (input_position ops f name positional fresh).1 in
      let (es, s) = h counters.0 counters.1 r g.1 in ((g.0, es), s)

  pub add_argument-Sized :
      (name : Option Identifier) (v : Value F) (a : Arguments F)
      → Sized v
      → ArgumentsSized a
      → ArgumentsSized (add_argument ops name v a)
  add_argument-Sized none v (positional, named) h k = (append-Sized positional v k.0 h, k.1)
  add_argument-Sized (some name) v (positional, named) h k =
      (k.0, insert-All (λ k v. Sized v) name.canonical v named h k.1)

  -- The end of a call, by whether it is enabled
  pub enabled_call-Good :
      (name : Identifier) (ps : Params F) (enabled : Bool) (outcome : Option (Value F) × Runtime F)
      (r : Runtime F)
      → StateSized r
      → Good outcome
      → Good (if enabled then outcome else disabled_call ops name ps r)
  enabled_call-Good name ps true outcome r h g = g
  enabled_call-Good name ps false outcome r h g = disabled_call-Good name ps r h

  pub array-Good :
      (out : Option (Values F) × Runtime F)
      → MaybeAllSized out.0 × StateSized out.1
      → Good {F = F} (after_eval out (λ vs s. (some (array vs), s)))
  unfolding Sized
  array-Good (none, r) h = (tt, h.1)
  array-Good (some vs, r) h = h

  pub cons-Good :
      (v : Value F) (out : Option (Values F) × Runtime F)
      → Sized v
      → MaybeAllSized out.0 × StateSized out.1
      → MaybeAllSized (after_eval out (λ vs t. (some (Values.cons v vs), t))).0
        × StateSized (after_eval out (λ vs t. (some (Values.cons v vs), t))).1
  unfolding Sized
  cons-Good v (none, r) k h = (tt, h.1)
  cons-Good v (some vs, r) k h = ((k, h.0), h.1)

  pub elements-Good :
      (out : Option (Value F) × Runtime F) (rest : Runtime F → Option (Values F) × Runtime F)
      → Good out
      → ((r : Runtime F) → StateSized r → MaybeAllSized (rest r).0 × StateSized (rest r).1)
      → MaybeAllSized
          (after_eval out (λ v s. after_eval (rest s) (λ vs t. (some (Values.cons v vs), t)))).0
        × StateSized
            (after_eval out (λ v s. after_eval (rest s) (λ vs t. (some (Values.cons v vs), t)))).1
  elements-Good (none, r) rest g h = (tt, g.1)
  elements-Good (some v, r) rest g h = cons-Good v (rest r) g.0 (h r g.1)
