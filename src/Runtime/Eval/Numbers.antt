-- ===== src/Runtime/Eval/Numbers.antt =====
-- What the arithmetic of crates/iec_runtime/src/runtime.rs gives and reports.
use Prim.Native.Nat.{Ordering, bit_and, bit_or, bit_xor}
use robocpp.Base.{
  ℕ, ◌≡◌, refl, ◌⊎◌, inl, inr, Bool, true, false, Bool-cases, Option, none, some, ◌||◌,
}
use robocpp.Base.Int.{ℤ, pos, eqb_ℤ}
use robocpp.Base.Text.{Text, codes}
use robocpp.Ir.Value.{Floats, Value, bool, int, real, as_i64, as_f64}
use robocpp.Ir.Syntax.{
  BinaryOp, or, xor, and, equal, not_equal, less, less_equal, greater, greater_equal, add, sub, mul,
  div, modulo, power,
}
use robocpp.Runtime.State.{Runtime}
use robocpp.Runtime.Eval.{
  value_text, compare_reals, ◌>>=◌, give, push_error, overflow_message, or_overflow,
  bit_bool_binary, pair_i64, bitwise, compare_values, test_ordering, pair_f64, is_real,
  numeric_binary, time_or_numeric_binary, checked_div, checked_rem, divides_by_zero, modulo_values,
  divide_values, eval_binary,
}

-- A value that has a number: a Boolean, an integer or a real.
pub data IsNumber {F : Floats} : Value F → Type 0 where
  a_bool : (b : Bool) → IsNumber (bool b)
  an_int : (n : ℤ) → IsNumber (int n)
  a_real : (x : F.Real) → IsNumber (real x)

module _ {F : Floats} where
  -- A value with the state as it was, or no value and one error more.
  abbrev pub Reports : Runtime F → Option (Value F) × Runtime F → Type 0
  Reports r out =
      ((v : Value F) × (out ≡ (some v, r)))
      ⊎ ((message : Text) × (out ≡ (none, push_error message r)))

  number_i64 : (v : Value F) → IsNumber v → (n : ℤ) × (as_i64 v ≡ some n)
  number_i64 _ (a_bool true) = (pos 1, refl)
  number_i64 _ (a_bool false) = (pos 0, refl)
  number_i64 _ (an_int n) = (n, refl)
  number_i64 _ (a_real x) = (F.to_i64 x, refl)

  number_f64 : (v : Value F) → IsNumber v → (x : F.Real) × (as_f64 v ≡ some x)
  number_f64 _ (a_bool true) = (F.of_i64 (pos 1), refl)
  number_f64 _ (a_bool false) = (F.of_i64 (pos 0), refl)
  number_f64 _ (an_int n) = (F.of_i64 n, refl)
  number_f64 _ (a_real x) = (x, refl)

  number_text : (v : Value F) → IsNumber v → value_text v ≡ none
  number_text _ (a_bool b) = refl
  number_text _ (an_int n) = refl
  number_text _ (a_real x) = refl

  module _ (r : Runtime F) where
    or_overflow-Reports :
        (label : Text) (o : Option ℤ) (f : ℤ → Value F)
        → Reports r ((or_overflow label o >>= λ n. give (some (f n))) r)
    or_overflow-Reports label none f = inr (overflow_message label, refl)
    or_overflow-Reports label (some n) f = inl (f n, refl)

    numeric_binary-Reports :
        (label : Text) (f : ℤ → ℤ → Option ℤ) (g : F.Real → F.Real → F.Real) (a b : Value F)
        → IsNumber a
        → IsNumber b
        → Reports r (numeric_binary label f g a b r)
    unfolding numeric_binary
    numeric_binary-Reports label f g a b ha hb =
        let (m, ma) = number_i64 a ha in
        let (n, nb) = number_i64 b hb in
        let (x, xa) = number_f64 a ha in
        let (y, yb) = number_f64 b hb in
        elim (Bool-cases (is_real a || is_real b)) [
          | inl e ↦ rw (e, xa, yb) (inl (real (g x y), refl))
          | inr e ↦ rw (e, ma, nb) (or_overflow-Reports label (f m n) int)
        ]

    timed-Reports :
        (label : Text) (f : ℤ → ℤ → ℤ) (g : F.Real → F.Real → F.Real) (a b : Value F)
        → IsNumber a
        → IsNumber b
        → Reports r (time_or_numeric_binary label f g a b r)
    unfolding time_or_numeric_binary
    timed-Reports label f g _ b (a_bool x) hb =
        numeric_binary-Reports label _ g (bool x) b (a_bool x) hb
    timed-Reports label f g _ b (an_int x) hb =
        numeric_binary-Reports label _ g (int x) b (an_int x) hb
    timed-Reports label f g _ b (a_real x) hb =
        numeric_binary-Reports label _ g (real x) b (a_real x) hb

    modulo-Reports :
        (a b : Value F) → IsNumber a → IsNumber b → Reports r (modulo_values a (as_i64 b) r)
    modulo-Reports a b ha hb =
        let (m, ma) = number_i64 a ha in
        let (n, nb) = number_i64 b hb in
        elim (Bool-cases (eqb_ℤ n (pos 0))) [
          | inl e ↦ rw (nb, modulo_values, e) (inr (codes "modulo by zero", refl))
          | inr e ↦
              rw (nb, modulo_values, e, ma)
                (or_overflow-Reports (codes "modulo") (checked_rem m n) int)
        ]

    divide-Reports : (a b : Value F) → IsNumber a → IsNumber b → Reports r (divide_values a b r)
    divide-Reports a b ha hb = elim (Bool-cases (divides_by_zero F (as_f64 b))) [
      | inl e ↦ rw e (inr (codes "division by zero", refl))
      | inr e ↦ rw e (numeric_binary-Reports (codes "division") checked_div F.div a b ha hb)
    ]

    compare-Reports :
        (p : Ordering → Bool) (a b : Value F)
        → IsNumber a
        → IsNumber b
        → Reports r (test_ordering p (compare_values a b), r)
    unfolding compare_values
    compare-Reports p a b ha hb =
        let (x, xa) = number_f64 a ha in
        let (y, yb) = number_f64 b hb in
        rw (number_text a ha, number_text b hb, xa, yb) (real_test x y)
      where
        real_test :
            (x y : F.Real) → Reports r (test_ordering p (compare_reals F (some x) (some y)), r)
        real_test x y = elim (Bool-cases (F.near x y)) [
          | inl e ↦ rw e (inl (bool (p Ordering.eq), refl))
          | inr e ↦ elim (Bool-cases (F.less x y)) [
            | inl l ↦ rw (e, l) (inl (bool (p Ordering.lt), refl))
            | inr l ↦ rw (e, l) (inl (bool (p Ordering.gt), refl))
          ]
        ]

    pair-Reports :
        (f : ℕ → ℕ → ℕ) (a b : Value F)
        → IsNumber a
        → IsNumber b
        → Reports r (pair_i64 (as_i64 a) (as_i64 b) (λ m n. some (int (bitwise f m n))), r)
    pair-Reports f a b ha hb =
        let (m, ma) = number_i64 a ha in
        let (n, nb) = number_i64 b hb in rw (ma, nb) (inl (int (bitwise f m n), refl))

    bits-Reports :
        (f : ℕ → ℕ → ℕ) (g : Bool → Bool → Bool) (a b : Value F)
        → IsNumber a
        → IsNumber b
        → Reports r (bit_bool_binary f g a b, r)
    unfolding bit_bool_binary
    bits-Reports f g _ _ (a_bool x) (a_bool y) = inl (bool (g x y), refl)
    bits-Reports f g _ _ (a_bool x) (an_int n) =
        pair-Reports f (bool x) (int n) (a_bool x) (an_int n)
    bits-Reports f g _ _ (a_bool x) (a_real y) =
        pair-Reports f (bool x) (real y) (a_bool x) (a_real y)
    bits-Reports f g _ b (an_int m) hb = pair-Reports f (int m) b (an_int m) hb
    bits-Reports f g _ b (a_real x) hb = pair-Reports f (real x) b (a_real x) hb

    power-Reports :
        (a b : Value F)
        → IsNumber a
        → IsNumber b
        → Reports r (pair_f64 (as_f64 a) (as_f64 b) F.pow, r)
    power-Reports a b ha hb =
        let (x, xa) = number_f64 a ha in
        let (y, yb) = number_f64 b hb in rw (xa, yb) (inl (real (F.pow x y), refl))

    -- Every operator on two numbers, Booleans included, either gives a value and leaves the whole
    -- state as it was, or gives none and adds exactly one error: it never fails in silence.
    pub eval_binary-Reports :
        (op : BinaryOp) (a b : Value F) → IsNumber a → IsNumber b → Reports r (eval_binary op a b r)
    unfolding eval_binary
    eval_binary-Reports or a b ha hb = bits-Reports bit_or _ a b ha hb
    eval_binary-Reports xor a b ha hb = bits-Reports bit_xor _ a b ha hb
    eval_binary-Reports and a b ha hb = bits-Reports bit_and _ a b ha hb
    eval_binary-Reports equal a b ha hb = inl (_, refl)
    eval_binary-Reports not_equal a b ha hb = inl (_, refl)
    eval_binary-Reports less a b ha hb = compare-Reports _ a b ha hb
    eval_binary-Reports less_equal a b ha hb = compare-Reports _ a b ha hb
    eval_binary-Reports greater a b ha hb = compare-Reports _ a b ha hb
    eval_binary-Reports greater_equal a b ha hb = compare-Reports _ a b ha hb
    eval_binary-Reports add a b ha hb = timed-Reports _ _ _ a b ha hb
    eval_binary-Reports sub a b ha hb = timed-Reports _ _ _ a b ha hb
    eval_binary-Reports mul a b ha hb = numeric_binary-Reports _ _ _ a b ha hb
    eval_binary-Reports div a b ha hb = divide-Reports a b ha hb
    eval_binary-Reports modulo a b ha hb = modulo-Reports a b ha hb
    eval_binary-Reports power a b ha hb = power-Reports a b ha hb
