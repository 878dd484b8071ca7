-- ===== src/Runtime/Eval/Sized.antt =====
-- Integers stay in the range of `i64` and times in that of `i128` through the arithmetic of
-- crates/iec_runtime/src/runtime.rs.
use native.Mathlib.Nat
use Prim.Native.Nat.{Ordering, bit_and, bit_or, bit_xor}
use robocpp.Base.{
  ℕ, suc, refl, inl, inr, Bool, true, false, Bool-cases, Option, none, some, arith, ◌||◌,
}
use robocpp.Base.Int.{
  ℤ, pos, negsuc, abs, IsI64, IsI128, is_i64, is_i128, checked, checked-IsI128, quotient, remainder,
  ◌*ℤ◌, eqb_ℤ,
}
use robocpp.Base.Text.{Text, codes}
use robocpp.Ir.Value.{
  Floats, Value, bool, int, real, string, wstring, time_ms, array, struct, unit, Values, nil, cons,
  Fields, end, field, as_i64, as_f64,
}
use robocpp.Ir.Syntax.{
  BinaryOp, or, xor, and, equal, not_equal, less, less_equal, greater, greater_equal, add, sub, mul,
  div, modulo, power,
}
use robocpp.Runtime.State.{Runtime}
use robocpp.Runtime.Eval.{
  ◌>>=◌, give, or_overflow, bit_bool_binary, pair_i64, bitwise, compare_values, test_ordering,
  pair_f64, is_real, integer_binary, numeric_binary, time_or_numeric_binary, checked_div,
  checked_rem, divides_by_zero, modulo_by, modulo_values, divide_values, eval_binary,
}

-- Every integer inside a value is an `i64`, every time an `i128`.
unfoldable mutual
  pub Sized : {F : Floats} → Value F → Type 0
  Sized (bool b) = Unit
  Sized (int n) = IsI64 n
  Sized (real x) = Unit
  Sized (string t) = Unit
  Sized (wstring t) = Unit
  Sized (time_ms t) = IsI128 t
  Sized (array vs) = AllSized vs
  Sized (struct fs) = FieldsSized fs
  Sized unit = Unit

  pub AllSized : {F : Floats} → Values F → Type 0
  AllSized nil = Unit
  AllSized (cons v vs) = Sized v × AllSized vs

  pub FieldsSized : {F : Floats} → Fields F → Type 0
  FieldsSized end = Unit
  FieldsSized (field k v fs) = Sized v × FieldsSized fs

abbrev pub MaybeSized : {F : Floats} → Option (Value F) → Type 0
MaybeSized none = Unit
MaybeSized (some v) = Sized v

abbrev pub MaybeI64 : Option ℤ → Type 0
MaybeI64 none = Unit
MaybeI64 (some n) = IsI64 n

pub as_i64-Sized : {F : Floats} (v : Value F) → Sized v → MaybeI64 (as_i64 v)
unfolding Sized
as_i64-Sized (bool true) h = omega arith
as_i64-Sized (bool false) h = omega arith
as_i64-Sized (int n) h = h
as_i64-Sized {F} (real x) h = F.to_i64-IsI64 x
as_i64-Sized (string t) h = tt
as_i64-Sized (wstring t) h = tt
as_i64-Sized (time_ms t) h = tt
as_i64-Sized (array vs) h = tt
as_i64-Sized (struct fs) h = tt
as_i64-Sized unit h = tt

checked-MaybeI64 : (z : ℤ) → MaybeI64 (checked is_i64 z)
checked-MaybeI64 z = ground arith

checked_div-MaybeI64 : (a b : ℤ) → MaybeI64 (checked_div a b)
checked_div-MaybeI64 a b = elim (Bool-cases (eqb_ℤ b (pos 0))) [
  | inl e ↦ rw e tt
  | inr e ↦ rw e (checked-MaybeI64 (quotient a b))
]

remainder-IsI64 : (a b : ℤ) → IsI64 a → IsI64 (remainder a b)
unfolding remainder
remainder-IsI64 (pos a) b h = omega (arith, Nat.mod-le a (abs b))
remainder-IsI64 (negsuc a) b h = ground (arith, Nat.mod-le (suc a) (abs b))

checked_rem-MaybeI64 : (a b : ℤ) → IsI64 a → MaybeI64 (checked_rem a b)
checked_rem-MaybeI64 a b h = elim (Bool-cases (is_i64 (quotient a b))) [
  | inl e ↦ rw e (remainder-IsI64 a b h)
  | inr e ↦ rw e tt
]

bitwise-IsI64 : (f : ℕ → ℕ → ℕ) (a b : ℤ) → IsI64 (bitwise f a b)
bitwise-IsI64 f a b = ground arith

module _ {F : Floats} (r : Runtime F) where
  integer_binary-Sized :
      (label : Text) (f : ℤ → ℤ → Option ℤ) (a b : Option ℤ)
      → ((m n : ℤ) → MaybeI64 (f m n))
      → MaybeSized (integer_binary label f a b r).0
  unfolding Sized
  integer_binary-Sized label f none b h = tt
  integer_binary-Sized label f (some m) none h = tt
  integer_binary-Sized label f (some m) (some n) h = from_result (f m n) (h m n)
    where
      from_result :
          (o : Option ℤ)
          → MaybeI64 o
          → MaybeSized {F = F} ((or_overflow label o >>= λ n. give (some (int n))) r).0
      from_result none k = tt
      from_result (some n) k = k

  reals-Sized :
      (f : F.Real → F.Real → F.Real) (x y : Option F.Real) → MaybeSized {F = F} (pair_f64 x y f)
  unfolding Sized
  reals-Sized f none y = tt
  reals-Sized f (some x) none = tt
  reals-Sized f (some x) (some y) = tt

  numeric_binary-Sized :
      (label : Text) (f : ℤ → ℤ → Option ℤ) (g : F.Real → F.Real → F.Real) (a b : Value F)
      → ((m n : ℤ) → MaybeI64 (f m n))
      → MaybeSized (numeric_binary label f g a b r).0
  unfolding numeric_binary
  numeric_binary-Sized label f g a b h = elim (Bool-cases (is_real a || is_real b)) [
    | inl e ↦ rw e (reals-Sized g (as_f64 a) (as_f64 b))
    | inr e ↦ rw e (integer_binary-Sized label f (as_i64 a) (as_i64 b) h)
  ]

  timed-Sized :
      (label : Text) (f : ℤ → ℤ → ℤ) (g : F.Real → F.Real → F.Real) (a b : Value F)
      → MaybeSized (time_or_numeric_binary label f g a b r).0
  unfolding time_or_numeric_binary Sized
  timed-Sized label f g (time_ms a) (time_ms b) = elim (Bool-cases (is_i128 (f a b))) [
    | inl e ↦ rw e (checked-IsI128 (f a b) (f a b) (rw e refl))
    | inr e ↦ rw e tt
  ]
  timed-Sized label f g a b =
      numeric_binary-Sized label (λ m n. checked is_i64 (f m n)) g a b
        (λ m n. checked-MaybeI64 (f m n))

  divide-Sized : (a b : Value F) → MaybeSized (divide_values a b r).0
  divide-Sized a b = elim (Bool-cases (divides_by_zero F (as_f64 b))) [
    | inl e ↦ rw e tt
    | inr e ↦ rw e (numeric_binary-Sized _ checked_div F.div a b checked_div-MaybeI64)
  ]

  modulo_by-Sized : (n : ℤ) (o : Option ℤ) → MaybeI64 o → MaybeSized {F = F} (modulo_by n o r).0
  unfolding Sized
  modulo_by-Sized n none h = tt
  modulo_by-Sized n (some m) h = from_result (checked_rem m n) (checked_rem-MaybeI64 m n h)
    where
      from_result :
          (o : Option ℤ)
          → MaybeI64 o
          → MaybeSized {F = F} ((or_overflow (codes "modulo") o >>= λ n. give (some (int n))) r).0
      from_result none k = tt
      from_result (some n) k = k

  modulo-Sized : (a b : Value F) → Sized a → MaybeSized (modulo_values a (as_i64 b) r).0
  modulo-Sized a b h = by_divisor (as_i64 b)
    where
      by_divisor : (o : Option ℤ) → MaybeSized (modulo_values a o r).0
      by_divisor none = tt
      by_divisor (some n) = elim (Bool-cases (eqb_ℤ n (pos 0))) [
        | inl e ↦ rw e tt
        | inr e ↦ rw e (modulo_by-Sized n (as_i64 a) (as_i64-Sized a h))
      ]

test-Sized :
    (F : Floats) (p : Ordering → Bool) (o : Option Ordering)
    → MaybeSized {F = F} (test_ordering p o)
unfolding Sized
test-Sized F p none = tt
test-Sized F p (some o) = tt

pair-Sized :
    (F : Floats) (f : ℕ → ℕ → ℕ) (m n : Option ℤ)
    → MaybeSized {F = F} (pair_i64 m n (λ m n. some (int (bitwise f m n))))
unfolding Sized
pair-Sized F f none n = tt
pair-Sized F f (some m) none = tt
pair-Sized F f (some m) (some n) = bitwise-IsI64 f m n

bits-Sized :
    {F : Floats} (f : ℕ → ℕ → ℕ) (g : Bool → Bool → Bool) (a b : Value F)
    → MaybeSized (bit_bool_binary f g a b)
unfolding bit_bool_binary Sized
bits-Sized f g (bool x) (bool y) = tt
bits-Sized {F} f g a b = pair-Sized F f (as_i64 a) (as_i64 b)

pub eval_binary-Sized :
    {F : Floats} (op : BinaryOp) (a b : Value F) (r : Runtime F)
    → Sized a
    → MaybeSized (eval_binary op a b r).0
unfolding eval_binary Sized
eval_binary-Sized or a b r h = bits-Sized bit_or _ a b
eval_binary-Sized xor a b r h = bits-Sized bit_xor _ a b
eval_binary-Sized and a b r h = bits-Sized bit_and _ a b
eval_binary-Sized equal a b r h = tt
eval_binary-Sized not_equal a b r h = tt
eval_binary-Sized {F} less a b r h = test-Sized F _ (compare_values a b)
eval_binary-Sized {F} less_equal a b r h = test-Sized F _ (compare_values a b)
eval_binary-Sized {F} greater a b r h = test-Sized F _ (compare_values a b)
eval_binary-Sized {F} greater_equal a b r h = test-Sized F _ (compare_values a b)
eval_binary-Sized add a b r h = timed-Sized r _ _ _ a b
eval_binary-Sized sub a b r h = timed-Sized r _ _ _ a b
eval_binary-Sized {F} mul a b r h =
    numeric_binary-Sized r _ (λ m n. checked is_i64 (m *ℤ n)) F.mul a b
      (λ m n. checked-MaybeI64 (m *ℤ n))
eval_binary-Sized div a b r h = divide-Sized r a b
eval_binary-Sized modulo a b r h = modulo-Sized r a b h
eval_binary-Sized {F} power a b r h = reals-Sized r F.pow (as_f64 a) (as_f64 b)
