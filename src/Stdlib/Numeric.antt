-- ===== src/Stdlib/Numeric.antt =====
-- The functions on numbers, crates/iec_stdlib/src/lib.rs. Where the source adds, subtracts and multiplies
-- an `i64` without a check, the wrap-around of a release build is written out.
use Prim.Native.Nat.{Ordering}
use robocpp.Base.{suc, Bool, true, false, ◌||◌, Option, none, some, List, [], ◌∷◌, if◌then◌else◌}
use robocpp.Base.Int.{ℤ, pos, negsuc, quotient, remainder, eqb_ℤ, wrap_i64}
use robocpp.Base.Text.{Text}
use robocpp.Ir.Display.{show}
use robocpp.Ir.Value.{Floats, Value, bool, int, real, string, wstring, as_i64, as_f64}
use robocpp.Runtime.Eval.{compare_text}
use robocpp.Stdlib.Args.{◌>>=◌, arg, any, is_real}

-- `i64::abs`, which wraps at the smallest.
abbrev pub abs_i64 : ℤ → ℤ
abs_i64 (pos n) = pos n
abs_i64 (negsuc n) = wrap_i64 (pos (suc n))

-- The reals of `compare_values`.
abbrev compare_f64 : (F : Floats) → Option F.Real → Option F.Real → Option Ordering
compare_f64 F a b = do
  left ← a
  right ← b
  some (
      if F.near left right
      then Ordering.eq
      else if F.less left right
      then Ordering.lt
      else Ordering.gt)

module _ {F : Floats} where
  unfoldable pub unary_numeric : List (Value F) → (ℤ → ℤ) → (F.Real → F.Real) → Option (Value F)
  unary_numeric args int_op real_op = arg args 0 >>= number
    where
      number : Value F → Option (Value F)
      number (real x) = some (real (real_op x))
      number v = as_i64 v >>= λ n. some (int (int_op n))

  -- The loops over `&args[1..]`.
  unfoldable pub fold_numbers :
      {A : Type 0} → (Value F → Option A) → (A → A → A) → A → List (Value F) → Option A
  fold_numbers read op current [] = some current
  fold_numbers read op current (v ∷ vs) = read v >>= λ a. fold_numbers read op (op current a) vs

  -- The first argument and the loop over the others.
  abbrev pub fold_all :
      {A : Type 0} → (Value F → Option A) → (A → A → A) → List (Value F) → Option A
  fold_all read op [] = none
  fold_all read op (v ∷ vs) = read v >>= λ a. fold_numbers read op a vs

  unfoldable pub numeric_fold :
      List (Value F) → (ℤ → ℤ → ℤ) → (F.Real → F.Real → F.Real) → Option (Value F)
  unfolding fold_numbers
  numeric_fold args int_op real_op =
      if any is_real args
      then (fold_all as_f64 real_op args >>= λ x. some (real x))
      else (fold_all as_i64 int_op args >>= λ n. some (int n))

  unfoldable pub numeric_pair :
      List (Value F) → (ℤ → ℤ → ℤ) → (F.Real → F.Real → F.Real) → Option (Value F)
  numeric_pair args int_op real_op = if any is_real args then reals else ints
    where
      reals : Option (Value F)
      reals = do x ← arg args 0 >>= as_f64; y ← arg args 1 >>= as_f64; some (real (real_op x y))

      ints : Option (Value F)
      ints = do m ← arg args 0 >>= as_i64; n ← arg args 1 >>= as_i64; some (int (int_op m n))

  -- `DIV` and `MOD` of `eval_standard_function`. The smallest `i64` by -1, at which the source panics, has
  -- the exact quotient and remainder here.
  unfoldable pub divide : List (Value F) → Option (Value F)
  divide args = if any is_real args then reals else ints
    where
      reals : Option (Value F)
      reals = do
        right ← arg args 1 >>= as_f64
        left ← if F.is_zero right then none else arg args 0 >>= as_f64
        some (real (F.div left right))

      ints : Option (Value F)
      ints = do
        right ← arg args 1 >>= as_i64
        left ← if eqb_ℤ right (pos 0) then none else arg args 0 >>= as_i64
        some (int (quotient left right))

  unfoldable pub modulo : List (Value F) → Option (Value F)
  modulo args = do
    left ← arg args 0 >>= as_i64
    right ← arg args 1 >>= as_i64
    if eqb_ℤ right (pos 0) then none else some (int (remainder left right))

  unfoldable pub value_to_string : Value F → Text
  value_to_string (string t) = t
  value_to_string (wstring t) = t
  value_to_string v = show v

  abbrev is_text : Value F → Bool
  is_text (string t) = true
  is_text (wstring t) = true
  is_text _ = false

  unfoldable pub compare_values : Value F → Value F → Option Ordering
  unfolding value_to_string
  compare_values left right =
      if is_text left || is_text right
      then some (compare_text (value_to_string left) (value_to_string right))
      else compare_f64 F (as_f64 left) (as_f64 right)

  -- `args.windows(2)`: a pair that fails ends the loop.
  unfoldable pub compare_rounds : (Ordering → Bool) → Value F → List (Value F) → Option Bool
  unfolding compare_values
  compare_rounds predicate v [] = some true
  compare_rounds predicate v (w ∷ ws) = compare_values v w >>= λ o.
      let later = compare_rounds predicate w ws in if predicate o then later else some false

  unfoldable pub compare_chain : List (Value F) → (Ordering → Bool) → Option (Value F)
  unfolding compare_rounds
  compare_chain [] predicate = none
  compare_chain (v ∷ []) predicate = none
  compare_chain (v ∷ w ∷ ws) predicate = compare_rounds predicate v (w ∷ ws) >>= λ b. some (bool b)
