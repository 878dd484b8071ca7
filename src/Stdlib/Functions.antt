-- ===== src/Stdlib/Functions.antt =====
-- `eval_standard_function` and the functions that choose among their arguments,
-- crates/iec_stdlib/src/lib.rs.
pub mod Faults
use Prim.Native.Nat.{bit_and, bit_or, bit_xor, Ordering}
use robocpp.Base.{
  ℕ, suc, ◌+◌, ◌-◌, ◌*◌, ◌%◌, Bool, true, false, not, ◌&&◌, ◌||◌, Option, none, some, List, [], ◌∷◌,
  ◌++◌, length, if◌then◌else◌, map_option, or_else, ◌==◌,
}
use robocpp.Base.Int.{
  ℤ, pos, negsuc, minus, ◌+ℤ◌, ◌-ℤ◌, ◌*ℤ◌, quotient, eqb_ℤ, min_ℤ, max_ℤ, wrap_i64, wrap_i128,
}
use robocpp.Base.Map.{Map, lookup}
use robocpp.Base.Text.{Text, codes}
use robocpp.Ir.Names.{canonical_identifier}
use robocpp.Ir.Value.{Floats, Value, bool, int, real, time_ms, as_bool, as_i64, as_f64}
use robocpp.Runtime.Eval.{bitwise, xor_bool}
use robocpp.Stdlib.Args.{FloatMath, ◌>>=◌, ◌>>◌, guard, arg, any, is_real, is_time, value_string}
use robocpp.Stdlib.Bits.{as_u64, u64, bit_shift, bit_rotate, bit_bool_fold, bit_bool_not}
use robocpp.Stdlib.Conversions.{
  value_to_time_ms, eval_conversion_function, eval_bcd_conversion_function,
}
use robocpp.Stdlib.Dates.{
  day_ms, concat_date, concat_tod, concat_dt, concat_date_tod, day_of_week, time_pair, time_scale,
}
use robocpp.Stdlib.Numeric.{
  abs_i64, unary_numeric, fold_all, numeric_fold, numeric_pair, divide, modulo, compare_chain,
}
use robocpp.Stdlib.Strings.{
  string_left, string_right, string_mid, string_concat, string_insert, string_delete,
  string_replace, string_find,
}

-- The tests of the comparison functions.
abbrev less : Ordering → Bool
less o = elim o [ Ordering.lt ↦ true | _ ↦ false ]

abbrev same : Ordering → Bool
same o = elim o [ Ordering.eq ↦ true | _ ↦ false ]

abbrev greater : Ordering → Bool
greater o = elim o [ Ordering.gt ↦ true | _ ↦ false ]

module _ {F : Floats} (math : FloatMath F) where
  unfoldable pub min_max : List (Value F) → Bool → Option (Value F)
  min_max args largest =
      if any is_real args
      then (fold_all as_f64 pick_real args >>= λ x. some (real x))
      else if any is_time args
      then (fold_all (value_to_time_ms math) pick args >>= λ t. some (time_ms t))
      else (fold_all as_i64 pick args >>= λ n. some (int n))
    where
      pick : ℤ → ℤ → ℤ
      pick a b = if largest then max_ℤ a b else min_ℤ a b

      pick_real : F.Real → F.Real → F.Real
      pick_real a b = if largest then math.max a b else math.min a b

  -- The lower bound, the input and the upper bound.
  abbrev three : {A : Type 0} → (Value F → Option A) → List (Value F) → Option (A × A × A)
  three read (a ∷ b ∷ c ∷ []) = do mn ← read a; input ← read b; mx ← read c; some (mn, input, mx)
  three read _ = none

  unfoldable pub limit : List (Value F) → Option (Value F)
  limit args =
      if any is_real args
      then (three as_f64 args >>= λ (mn, x, mx). some (real (math.min (math.max x mn) mx)))
      else if any is_time args
      then (three (value_to_time_ms math) args >>= λ (mn, x, mx).
          some (time_ms (min_ℤ (max_ℤ x mn) mx)))
      else (three as_i64 args >>= λ (mn, x, mx). some (int (min_ℤ (max_ℤ x mn) mx)))

  unfoldable pub select : List (Value F) → Option (Value F)
  select args = do g ← arg args 0 >>= as_bool; if g then arg args 2 else arg args 1

  -- `index as usize + 1`, which wraps.
  unfoldable pub multiplex : List (Value F) → Option (Value F)
  multiplex args = do index ← arg args 0 >>= as_i64; arg args ((as_u64 index + 1) % u64)

  unfoldable pub real_function : (F.Real → F.Real) → List (Value F) → Option (Value F)
  real_function f args = arg args 0 >>= as_f64 >>= λ x. some (real (f x))

  unfoldable pub power : List (Value F) → Option (Value F)
  power args = do
    left ← arg args 0 >>= as_f64
    right ← arg args 1 >>= as_f64
    some (real (F.pow left right))

  unfoldable pub truncate : List (Value F) → Option (Value F)
  truncate args = arg args 0 >>= as_f64 >>= λ x. some (int (F.to_i64 x))

  unfoldable pub string_len : List (Value F) → Option (Value F)
  string_len args = arg args 0 >>= value_string >>= λ t. some (int (pos (length t)))

  unfoldable pub divide_time : List (Value F) → Option (Value F)
  divide_time args = do
    divisor ← arg args 1 >>= as_i64
    if eqb_ℤ divisor (pos 0) then none else time_scale args quotient

  abbrev add_times : List (Value F) → Option (Value F)
  add_times args = time_pair args (λ a b. wrap_i128 (a +ℤ b))

  abbrev sub_times : List (Value F) → Option (Value F)
  sub_times args = time_pair args (λ a b. wrap_i128 (a -ℤ b))

  abbrev mul_time : List (Value F) → Option (Value F)
  mul_time args = time_scale args (λ t f. wrap_i128 (t *ℤ f))

  -- The arms of `eval_standard_function`, by the function's name.
  unfoldable pub functions : Map (List (Value F) → Option (Value F))
  functions =
      (codes "ABS", λ args. unary_numeric args abs_i64 math.abs)
      ∷ (codes "SQRT", real_function math.sqrt)
      ∷ (codes "LN", real_function math.ln)
      ∷ (codes "LOG", real_function math.log10)
      ∷ (codes "EXP", real_function math.exp)
      ∷ (codes "SIN", real_function math.sin)
      ∷ (codes "COS", real_function math.cos)
      ∷ (codes "TAN", real_function math.tan)
      ∷ (codes "ADD", λ args. numeric_fold args (λ a b. wrap_i64 (a +ℤ b)) F.add)
      ∷ (codes "SUB", λ args. numeric_pair args (λ a b. wrap_i64 (a -ℤ b)) F.sub)
      ∷ (codes "MUL", λ args. numeric_fold args (λ a b. wrap_i64 (a *ℤ b)) F.mul)
      ∷ (codes "DIV", divide)
      ∷ (codes "MOD", modulo)
      ∷ (codes "EXPT", power)
      ∷ (codes "TRUNC", truncate)
      ∷ (codes "MOVE", λ args. arg args 0)
      ∷ (codes "MIN", λ args. min_max args false)
      ∷ (codes "MAX", λ args. min_max args true)
      ∷ (codes "LIMIT", limit)
      ∷ (codes "SEL", select)
      ∷ (codes "MUX", multiplex)
      ∷ (codes "GT", λ args. compare_chain args greater)
      ∷ (codes "GE", λ args. compare_chain args (λ o. not (less o)))
      ∷ (codes "EQ", λ args. compare_chain args same)
      ∷ (codes "NE", λ args. compare_chain args (λ o. not (same o)))
      ∷ (codes "LE", λ args. compare_chain args (λ o. not (greater o)))
      ∷ (codes "LT", λ args. compare_chain args less)
      ∷ (codes "SHL", λ args. bit_shift args false)
      ∷ (codes "SHR", λ args. bit_shift args true)
      ∷ (codes "ROL", λ args. bit_rotate args false)
      ∷ (codes "ROR", λ args. bit_rotate args true)
      ∷ (codes "AND", λ args. bit_bool_fold args (bitwise bit_and) ◌&&◌)
      ∷ (codes "OR", λ args. bit_bool_fold args (bitwise bit_or) ◌||◌)
      ∷ (codes "XOR", λ args. bit_bool_fold args (bitwise bit_xor) xor_bool)
      ∷ (codes "NOT", bit_bool_not)
      ∷ (codes "LEN", string_len)
      ∷ (codes "LEFT", string_left)
      ∷ (codes "RIGHT", string_right)
      ∷ (codes "MID", string_mid)
      ∷ (codes "CONCAT", string_concat)
      ∷ (codes "INSERT", string_insert)
      ∷ (codes "DELETE", string_delete)
      ∷ (codes "REPLACE", string_replace)
      ∷ (codes "FIND", string_find)
      ∷ (codes "ADD_TIME", add_times)
      ∷ (codes "ADD_TOD_TIME", add_times)
      ∷ (codes "ADD_DT_TIME", add_times)
      ∷ (codes "CONCAT_DATE", concat_date)
      ∷ (codes "CONCAT_TOD", concat_tod)
      ∷ (codes "CONCAT_DT", concat_dt)
      ∷ (codes "CONCAT_DATE_TOD", concat_date_tod)
      ∷ (codes "DAY_OF_WEEK", day_of_week)
      ∷ (codes "SUB_TIME", sub_times)
      ∷ (codes "SUB_TOD_TIME", sub_times)
      ∷ (codes "SUB_DT_TIME", sub_times)
      ∷ (codes "SUB_DATE_DATE", λ args. time_pair args (λ a b. wrap_i128 ((a -ℤ b) *ℤ day_ms)))
      ∷ (codes "SUB_TOD_TOD", sub_times)
      ∷ (codes "SUB_DT_DT", sub_times)
      ∷ (codes "MUL_TIME", mul_time)
      ∷ (codes "MULTIME", mul_time)
      ∷ (codes "DIV_TIME", divide_time)
      ∷ (codes "DIVTIME", divide_time)
      ∷ []

  -- What the chain of attempts gives: the first one that has a value.
  unfoldable pub eval_standard_function : Text → List (Value F) → Option (Value F)
  eval_standard_function name args =
      let n = canonical_identifier name in
      or_else (eval_bcd_conversion_function n args)
        (or_else (eval_conversion_function math n args) (lookup n functions >>= λ f. f args))
