-- ===== src/Tests/Interpreter.antt =====
-- A small interpreter for the tests: variables are the entries of the environment, there are no
-- standard functions, and every call of a function of the project gives a unit.
use robocpp.Base.{◌≡◌, refl, false, Option, none, some, [], ◌∷◌, arith}
use robocpp.Base.Int.{pos}
use robocpp.Base.Text.{Text}
use robocpp.Base.Map.{Map, All, lookup, insert, insert-All, lookup_sound}
use robocpp.Ir.Value.{Value, bool, int, unit, Literal}
use robocpp.Ir.Syntax.{Expr, variable, VariableRef, reference, nil_indices}
use robocpp.Runtime.State.{Runtime}
use robocpp.Runtime.Eval.Expr.{Operations}
use robocpp.Runtime.Eval.Sized.{Sized, MaybeSized}
use robocpp.Runtime.Eval.Invariant.{StateSized, Good, Laws}
use robocpp.Runtime.Statement.Il.{BlockCalls}
use robocpp.Runtime.Invariant.{CallLaws}
use robocpp.Tests.{whole, saturate, saturate-IsI64}

abbrev pub literal_of : Literal whole → Value whole
literal_of (Literal.int n) = int (saturate n)
literal_of (Literal.bool b) = bool b
literal_of _ = unit

abbrev pub resolve_in : VariableRef whole → Runtime whole → Option (Value whole) × Runtime whole
resolve_in (reference (name ∷ []) indices direct) r = (lookup name.canonical r.env, r)
resolve_in _ r = (none, r)

abbrev pub assign_in : VariableRef whole → Value whole → Runtime whole → Runtime whole
assign_in (reference (name ∷ []) indices direct) v r = record r {
  env = insert name.canonical v r.env;
}
assign_in _ v r = r

abbrev pub operations : Operations whole
operations = record {
  literal_value = literal_of;
  resolve = resolve_in;
  assign = assign_in;
  is_standard = λ f. false;
  input_index = λ f name. none;
  standard = λ f vs. none;
  disabled_standard_value = λ f ps. unit;
  function_default = λ f. some (int (pos 0));
  run_function = λ f vs named r. (some unit, r);
}

abbrev pub calls : BlockCalls whole
calls = record { is_void = λ f. false; call_void = λ f ps r. r; call_block = λ v ps r. r }

-- The variable of a name
abbrev pub var : Text → VariableRef whole
var name = reference (record { original = name; canonical = name } ∷ []) nil_indices none

abbrev pub value : Text → Expr whole
value name = variable (var name)

literal_of-Sized : (l : Literal whole) → Sized (literal_of l)
unfolding Sized
literal_of-Sized (Literal.int n) = saturate-IsI64 n
literal_of-Sized (Literal.bool b) = tt
literal_of-Sized _ = tt

found-Sized :
    (name : Text) (m : Map (Value whole)) → All (λ k v. Sized v) m → MaybeSized (lookup name m)
found-Sized name m h = by_result (lookup name m) refl
  where
    by_result : (o : Option (Value whole)) → lookup name m ≡ o → MaybeSized o
    by_result none e = tt
    by_result (some v) e = lookup_sound (λ k v. Sized v) name v m h e

resolve_in-Good : (v : VariableRef whole) (r : Runtime whole) → StateSized r → Good (resolve_in v r)
unfolding StateSized
resolve_in-Good (reference (name ∷ []) indices direct) r h =
    (found-Sized name.canonical r.env h.0, h)
resolve_in-Good (reference [] indices direct) r h = (tt, h)
resolve_in-Good (reference (n ∷ m ∷ names) indices direct) r h = (tt, h)

assign_in-StateSized :
    (v : VariableRef whole) (x : Value whole) (r : Runtime whole)
    → Sized x
    → StateSized r
    → StateSized (assign_in v x r)
unfolding StateSized
assign_in-StateSized (reference (name ∷ []) indices direct) x r k h =
    (insert-All (λ k v. Sized v) name.canonical x r.env k h.0, h.1)
assign_in-StateSized (reference [] indices direct) x r k h = h
assign_in-StateSized (reference (n ∷ m ∷ names) indices direct) x r k h = h

pub laws : Laws operations
unfolding Sized
laws = record {
  literal_value-Sized = literal_of-Sized;
  resolve-Good = resolve_in-Good;
  assign-StateSized = assign_in-StateSized;
  standard-Sized = λ f vs h. tt;
  disabled-Sized = λ f ps. tt;
  default-Sized = λ f. omega arith;
  run_function-Good = λ f vs m r h k l. (tt, l);
}

pub call_laws : CallLaws calls
call_laws = record { call_void-StateSized = λ f ps r h. h; call_block-StateSized = λ v ps r h. h }
