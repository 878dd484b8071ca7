-- ===== src/Runtime/Eval/Effect.antt =====
-- What the arithmetic of crates/iec_runtime/src/runtime.rs does to the state.
use robocpp.Base.{inl, inr, Bool-cases, Option, none, some, ◌||◌}
use robocpp.Base.Int.{ℤ, pos, is_i128, checked, eqb_ℤ}
use robocpp.Base.Text.{Text, codes}
use robocpp.Ir.Value.{Floats, Value, int, time_ms, as_i64, as_f64}
use robocpp.Ir.Syntax.{
  BinaryOp, or, xor, and, equal, not_equal, less, less_equal, greater, greater_equal, add, sub, mul,
  div, modulo, power,
}
use robocpp.Runtime.State.{Runtime}
use robocpp.Runtime.Eval.{
  ◌>>=◌, give, push_error, overflow_message, or_overflow, is_real, integer_binary, numeric_binary,
  time_or_numeric_binary, checked_div, checked_rem, divides_by_zero, modulo_by, modulo_values,
  divide_values, eval_binary,
}

-- The state as it was, or with one error more.
pub data Reported {F : Floats} (r : Runtime F) : Runtime F → Type 0 where
  kept : Reported r r
  reported : (message : Text) → Reported r (push_error message r)

module _ {F : Floats} (r : Runtime F) where
  or_overflow-Reported :
      (label : Text) (o : Option ℤ) (f : ℤ → Value F)
      → Reported r ((or_overflow label o >>= λ n. give (some (f n))) r).1
  or_overflow-Reported label none f = reported (overflow_message label)
  or_overflow-Reported label (some n) f = kept

  integer_binary-Reported :
      (label : Text) (f : ℤ → ℤ → Option ℤ) (a b : Option ℤ)
      → Reported {F = F} r (integer_binary label f a b r).1
  integer_binary-Reported label f none b = kept
  integer_binary-Reported label f (some m) none = kept
  integer_binary-Reported label f (some m) (some n) = or_overflow-Reported label (f m n) int

  numeric_binary-Reported :
      (label : Text) (f : ℤ → ℤ → Option ℤ) (g : F.Real → F.Real → F.Real) (a b : Value F)
      → Reported r (numeric_binary label f g a b r).1
  unfolding numeric_binary
  numeric_binary-Reported label f g a b = elim (Bool-cases (is_real a || is_real b)) [
    | inl e ↦ rw e kept
    | inr e ↦ rw e (integer_binary-Reported label f (as_i64 a) (as_i64 b))
  ]

  timed-Reported :
      (label : Text) (f : ℤ → ℤ → ℤ) (g : F.Real → F.Real → F.Real) (a b : Value F)
      → Reported r (time_or_numeric_binary label f g a b r).1
  unfolding time_or_numeric_binary
  timed-Reported label f g (time_ms a) (time_ms b) =
      or_overflow-Reported label (checked is_i128 (f a b)) time_ms
  timed-Reported label f g a b = numeric_binary-Reported label _ g a b

  divide-Reported : (a b : Value F) → Reported r (divide_values a b r).1
  divide-Reported a b = elim (Bool-cases (divides_by_zero F (as_f64 b))) [
    | inl e ↦ rw e (reported (codes "division by zero"))
    | inr e ↦ rw e (numeric_binary-Reported _ checked_div F.div a b)
  ]

  modulo_by-Reported : (n : ℤ) (o : Option ℤ) → Reported {F = F} r (modulo_by n o r).1
  modulo_by-Reported n none = kept
  modulo_by-Reported n (some m) = or_overflow-Reported _ (checked_rem m n) int

  modulo-Reported : (a : Value F) (o : Option ℤ) → Reported r (modulo_values a o r).1
  modulo-Reported a none = kept
  modulo-Reported a (some n) = elim (Bool-cases (eqb_ℤ n (pos 0))) [
    | inl e ↦ rw e (reported (codes "modulo by zero"))
    | inr e ↦ rw e (modulo_by-Reported n (as_i64 a))
  ]

  pub eval_binary-Reported : (op : BinaryOp) (a b : Value F) → Reported r (eval_binary op a b r).1
  unfolding eval_binary
  eval_binary-Reported or a b = kept
  eval_binary-Reported xor a b = kept
  eval_binary-Reported and a b = kept
  eval_binary-Reported equal a b = kept
  eval_binary-Reported not_equal a b = kept
  eval_binary-Reported less a b = kept
  eval_binary-Reported less_equal a b = kept
  eval_binary-Reported greater a b = kept
  eval_binary-Reported greater_equal a b = kept
  eval_binary-Reported add a b = timed-Reported _ _ _ a b
  eval_binary-Reported sub a b = timed-Reported _ _ _ a b
  eval_binary-Reported mul a b = numeric_binary-Reported _ _ _ a b
  eval_binary-Reported div a b = divide-Reported a b
  eval_binary-Reported modulo a b = modulo-Reported a (as_i64 b)
  eval_binary-Reported power a b = kept
