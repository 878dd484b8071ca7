-- ===== src/Runtime/Eval/Expr.antt =====
-- The evaluation of expressions, `eval_expr` of crates/iec_runtime/src/runtime.rs, over the
-- operations on variables, standard functions and the bodies of user functions.
use Prim.Native.Nat.{Ordering}
use robocpp.Base.{
  ℕ, suc, Bool, true, false, not, Option, none, some, List, [], ◌∷◌, if◌then◌else◌, ltb,
}
use robocpp.Base.Int.{pos, ◌-ℤ◌, is_i64, checked}
use robocpp.Base.Text.{Text, codes, eqb}
use robocpp.Base.Map.{Map}
use robocpp.Ir.Names.{Identifier}
use robocpp.Ir.Value.{Floats, Value, bool, int, real, Fields, Literal, as_i64}
use robocpp.Ir.Syntax.{UnaryOp, neg, BinaryOp, and, or, VariableRef, Params, param}
use robocpp.Runtime.State.{Runtime}
use robocpp.Runtime.Eval.{Eval, ◌>>=◌, give, or_overflow, eval_binary, compare_text}

-- What an expression needs of the rest of the interpreter.
pub record Operations (F : Floats) : Type 0 where
  pub literal_value : Literal F → Value F
  pub resolve : VariableRef F → Eval F (Value F)
  pub assign : VariableRef F → Value F → Runtime F → Runtime F
  -- `is_standard_function`, `standard_function_input_index`, `eval_standard_function`
  pub is_standard : Text → Bool
  pub input_index : Text → Text → Option ℕ
  pub standard : Text → List (Value F) → Option (Value F)
  pub disabled_standard_value : Identifier → Params F → Value F
  -- The default value of the return type of a function of the project, if there is one
  pub function_default : Text → Option (Value F)
  -- The call of a function of the project, its arguments evaluated: positional and named
  pub run_function : Identifier → List (Value F) → Map (Value F) → Eval F (Value F)

abbrev pub is_implicit_en : Option Identifier → Bool
is_implicit_en none = false
is_implicit_en (some name) = eqb name.canonical (codes "EN")

abbrev pub is_implicit_eno : Option Identifier → Bool
is_implicit_eno none = false
is_implicit_eno (some name) = eqb name.canonical (codes "ENO")

-- The entries that `sort_by_key` orders, which is stable.
abbrev pub Entry : Floats → Type 0
Entry F = ℕ × Value F

module _ {F : Floats} where
  unfoldable pub insert_entry : Entry F → List (Entry F) → List (Entry F)
  insert_entry (i, v) [] = (i, v) ∷ []
  insert_entry (i, v) ((j, w) ∷ es) =
      let rest = insert_entry (i, v) es in if ltb i j then (i, v) ∷ (j, w) ∷ es else (j, w) ∷ rest

  unfoldable pub sort_entries : List (Entry F) → List (Entry F) → List (Entry F)
  unfolding insert_entry
  sort_entries sorted [] = sorted
  sort_entries sorted (e ∷ es) = sort_entries (insert_entry e sorted) es

  unfoldable pub entry_values : List (Entry F) → List (Value F)
  entry_values [] = []
  entry_values ((i, v) ∷ es) = v ∷ entry_values es

  abbrev pub by_ordering : Ordering → Fields F → Fields F → Fields F → Fields F
  by_ordering Ordering.lt less equal greater = less
  by_ordering Ordering.eq less equal greater = equal
  by_ordering Ordering.gt less equal greater = greater

  -- `BTreeMap::insert` of a field, in the order of the names.
  unfoldable pub insert_field : Text → Value F → Fields F → Fields F
  insert_field k v Fields.end = Fields.field k v Fields.end
  insert_field k v (Fields.field j w fs) =
      let rest = insert_field k v fs in
      by_ordering (compare_text k j) (Fields.field k v (Fields.field j w fs)) (Fields.field k v fs)
        (Fields.field j w rest)

  unfoldable pub count_params : Params F → ℕ
  count_params Params.end = 0
  count_params (param name output negated e v ps) = suc (count_params ps)

  abbrev pub eval_neg : Value F → Eval F (Value F)
  eval_neg (real x) r = (some (real (F.neg x)), r)
  eval_neg v r =
      (give (as_i64 v) >>= λ n.
      or_overflow (codes "integer negation") (checked is_i64 (pos 0 -ℤ n)) >>= λ m.
      give (some (int m)))
        r

  -- `!value`, which is -value - 1.
  abbrev pub eval_not : Value F → Eval F (Value F)
  eval_not (bool b) r = (some (bool (not b)), r)
  eval_not v r = (give (as_i64 v) >>= λ n. give (some (int (pos 0 -ℤ n -ℤ pos 1)))) r

  unfoldable pub eval_unary : UnaryOp → Value F → Eval F (Value F)
  eval_unary neg v = eval_neg v
  eval_unary UnaryOp.not v = eval_not v

  -- What the right operand is evaluated by, after the left one.
  abbrev pub short_circuit : BinaryOp → Bool → Eval F (Value F) → Eval F (Value F)
  short_circuit and false rest r = (some (bool false), r)
  short_circuit or true rest r = (some (bool true), r)
  short_circuit op b rest r = rest r

  unfoldable pub eval_right : BinaryOp → Value F → Eval F (Value F) → Eval F (Value F)
  eval_right op (bool b) right = short_circuit op b (right >>= λ v. eval_binary op (bool b) v)
  eval_right op left right = right >>= λ v. eval_binary op left v
