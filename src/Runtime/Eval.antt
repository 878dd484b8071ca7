-- ===== src/Runtime/Eval.antt =====
-- The arithmetic of the interpreter, crates/iec_runtime/src/runtime.rs and support.rs. A computation
-- takes the state and gives `None` or a value with the new state, since it may report a diagnostic
-- either way.
pub mod Numbers
pub mod Sized
pub mod Expr
pub mod Calls
pub mod Effect
pub mod Invariant
pub mod Twice
use Prim.Native.Nat.{bit_and, bit_or, bit_xor, compare, Ordering}
use robocpp.Base.{
  ℕ, ◌%◌, Bool, true, false, not, ◌&&◌, ◌||◌, Option, none, some, List, [], ◌∷◌, ◌++◌,
  if◌then◌else◌, ltb, ◌==◌, unwrap_or,
}
use robocpp.Base.Int.{
  ℤ, pos, negsuc, ◌+ℤ◌, ◌-ℤ◌, ◌*ℤ◌, quotient, remainder, eqb_ℤ, to_bits, of_bits, is_i64, is_i128,
  checked,
}
use robocpp.Base.Text.{Text, codes}
use robocpp.Diagnostics.{runtime, unsupported, error_diagnostic, warning_diagnostic}
use robocpp.Ir.Value.{
  Floats, Value, bool, int, real, string, wstring, time_ms, array, struct, unit, as_bool, as_i64,
  as_f64,
}
use robocpp.Ir.Display.{show}
use robocpp.Ir.Syntax.{
  BinaryOp, or, xor, and, equal, not_equal, less, less_equal, greater, greater_equal, add, sub, mul,
  div, modulo, power,
}
use robocpp.Runtime.State.{Runtime}

abbrev pub Eval : Floats → Type 0 → Type 0
Eval F A = Runtime F → Option A × Runtime F

abbrev pub after_eval :
    {F : Floats} {A B : Type 0} → Option A × Runtime F → (A → Eval F B) → Option B × Runtime F
after_eval (none, r) f = (none, r)
after_eval (some a, r) f = f a r

infixl 5 ◌>>=◌
abbrev pub ◌>>=◌ : {F : Floats} {A B : Type 0} → Eval F A → (A → Eval F B) → Eval F B
◌>>=◌ m f r = after_eval (m r) f

-- A value that needs no state
abbrev pub give : {F : Floats} {A : Type 0} → Option A → Eval F A
give o r = (o, r)

unfoldable pub push_error : {F : Floats} → Text → Runtime F → Runtime F
push_error message r = record r {
  diagnostics = r.diagnostics ++ error_diagnostic runtime message none ∷ [];
}

unfoldable pub push_warning : {F : Floats} → Text → Runtime F → Runtime F
push_warning message r = record r {
  diagnostics = r.diagnostics ++ warning_diagnostic unsupported message none ∷ [];
}

abbrev pub overflow_message : Text → Text
overflow_message operation = codes "integer overflow during " ++ operation

-- `.or_else(|| { self.push_overflow(label); None })`
abbrev pub or_overflow : {F : Floats} {A : Type 0} → Text → Option A → Eval F A
or_overflow label (some a) r = (some a, r)
or_overflow label none r = (none, push_error (overflow_message label) r)

-- The bits of an `i64`; the last remainder changes nothing.
abbrev pub bitwise : (ℕ → ℕ → ℕ) → ℤ → ℤ → ℤ
bitwise f a b = of_bits 0x8000_0000_0000_0000 (
    f (to_bits 0x1_0000_0000_0000_0000 a) (to_bits 0x1_0000_0000_0000_0000 b)
    % 0x1_0000_0000_0000_0000)

abbrev pub xor_bool : Bool → Bool → Bool
xor_bool a b = if a then not b else b

module _ {F : Floats} where
  abbrev pub pair_i64 : Option ℤ → Option ℤ → (ℤ → ℤ → Option (Value F)) → Option (Value F)
  pair_i64 (some a) (some b) f = f a b
  pair_i64 _ _ f = none

  unfoldable pub bit_bool_binary :
      (ℕ → ℕ → ℕ) → (Bool → Bool → Bool) → Value F → Value F → Option (Value F)
  bit_bool_binary f g (bool a) (bool b) = some (bool (g a b))
  bit_bool_binary f g left right =
      pair_i64 (as_i64 left) (as_i64 right) (λ a b. some (int (bitwise f a b)))

  abbrev pub value_text : Value F → Option Text
  value_text (string t) = some t
  value_text (wstring t) = some t
  value_text _ = none

-- `cmp` of strings
unfoldable pub compare_text : Text → Text → Ordering
compare_text [] [] = Ordering.eq
compare_text [] (y ∷ t) = Ordering.lt
compare_text (x ∷ s) [] = Ordering.gt
compare_text (x ∷ s) (y ∷ t) =
    let rest = compare_text s t in
    elim (compare x y) [
      | Ordering.eq ↦ rest
      | Ordering.lt ↦ Ordering.lt
      | Ordering.gt ↦ Ordering.gt
    ]

abbrev pub compare_reals : (F : Floats) → Option F.Real → Option F.Real → Option Ordering
compare_reals F (some x) (some y) =
    if F.near x y
    then some Ordering.eq
    else if F.less x y
    then some Ordering.lt
    else some Ordering.gt
compare_reals F _ _ = none

abbrev pub is_equal : Option Ordering → Bool
is_equal (some Ordering.eq) = true
is_equal _ = false

-- `checked_div`
abbrev pub checked_div : ℤ → ℤ → Option ℤ
checked_div a b = if eqb_ℤ b (pos 0) then none else checked is_i64 (quotient a b)

abbrev pub divides_by_zero : (F : Floats) → Option F.Real → Bool
divides_by_zero F (some x) = F.is_zero x
divides_by_zero F none = false

-- `checked_rem`, which refuses what the division would overflow on.
abbrev pub checked_rem : ℤ → ℤ → Option ℤ
checked_rem a b = if is_i64 (quotient a b) then some (remainder a b) else none

module _ {F : Floats} where
  abbrev pub compare_texts : Option Text → Option Text → Value F → Value F → Option Ordering
  compare_texts none none left right = compare_reals F (as_f64 left) (as_f64 right)
  compare_texts a b left right =
      some (compare_text (unwrap_or (show left) a) (unwrap_or (show right) b))

  -- The result -1, 0 or 1 as an ordering.
  unfoldable pub compare_values : Value F → Value F → Option Ordering
  compare_values left right = compare_texts (value_text left) (value_text right) left right

  abbrev pub test_ordering : (Ordering → Bool) → Option Ordering → Option (Value F)
  test_ordering p none = none
  test_ordering p (some o) = some (bool (p o))

  abbrev pub pair_f64 :
      Option F.Real → Option F.Real → (F.Real → F.Real → F.Real) → Option (Value F)
  pair_f64 (some x) (some y) f = some (real (f x y))
  pair_f64 _ _ f = none

  abbrev pub is_real : Value F → Bool
  is_real (real x) = true
  is_real _ = false

  abbrev pub integer_binary : Text → (ℤ → ℤ → Option ℤ) → Option ℤ → Option ℤ → Eval F (Value F)
  integer_binary label f (some a) (some b) = or_overflow label (f a b) >>= λ n. give (some (int n))
  integer_binary label f _ _ = give none

  unfoldable pub numeric_binary :
      Text → (ℤ → ℤ → Option ℤ) → (F.Real → F.Real → F.Real) → Value F → Value F → Eval F (Value F)
  numeric_binary label f g left right =
      if is_real left || is_real right
      then give (pair_f64 (as_f64 left) (as_f64 right) g)
      else integer_binary label f (as_i64 left) (as_i64 right)

  unfoldable pub time_or_numeric_binary :
      Text → (ℤ → ℤ → ℤ) → (F.Real → F.Real → F.Real) → Value F → Value F → Eval F (Value F)
  time_or_numeric_binary label f g (time_ms a) (time_ms b) =
      or_overflow label (checked is_i128 (f a b)) >>= λ t. give (some (time_ms t))
  time_or_numeric_binary label f g left right =
      numeric_binary label (λ a b. checked is_i64 (f a b)) g left right

  abbrev pub modulo_by : ℤ → Option ℤ → Eval F (Value F)
  modulo_by b none = give none
  modulo_by b (some a) = or_overflow (codes "modulo") (checked_rem a b) >>= λ n. give (some (int n))

  abbrev pub modulo_values : Value F → Option ℤ → Eval F (Value F)
  modulo_values left none r = (none, r)
  modulo_values left (some b) r =
      if eqb_ℤ b (pos 0)
      then (none, push_error (codes "modulo by zero") r)
      else modulo_by b (as_i64 left) r

  abbrev pub divide_values : Value F → Value F → Eval F (Value F)
  divide_values a b r =
      if divides_by_zero F (as_f64 b)
      then (none, push_error (codes "division by zero") r)
      else numeric_binary (codes "division") checked_div F.div a b r

  unfoldable pub eval_binary : BinaryOp → Value F → Value F → Eval F (Value F)
  eval_binary or a b = give (bit_bool_binary bit_or (λ x y. x || y) a b)
  eval_binary xor a b = give (bit_bool_binary bit_xor xor_bool a b)
  eval_binary and a b = give (bit_bool_binary bit_and (λ x y. x && y) a b)
  eval_binary equal a b = give (some (bool (is_equal (compare_values a b))))
  eval_binary not_equal a b = give (some (bool (not (is_equal (compare_values a b)))))
  eval_binary less a b =
      give (test_ordering (λ o. elim o [ Ordering.lt ↦ true | _ ↦ false ]) (compare_values a b))
  eval_binary less_equal a b =
      give (test_ordering (λ o. elim o [ Ordering.gt ↦ false | _ ↦ true ]) (compare_values a b))
  eval_binary greater a b =
      give (test_ordering (λ o. elim o [ Ordering.gt ↦ true | _ ↦ false ]) (compare_values a b))
  eval_binary greater_equal a b =
      give (test_ordering (λ o. elim o [ Ordering.lt ↦ false | _ ↦ true ]) (compare_values a b))
  eval_binary add a b = time_or_numeric_binary (codes "addition") ◌+ℤ◌ F.add a b
  eval_binary sub a b = time_or_numeric_binary (codes "subtraction") ◌-ℤ◌ F.sub a b
  eval_binary mul a b =
      numeric_binary (codes "multiplication") (λ m n. checked is_i64 (m *ℤ n)) F.mul a b
  eval_binary div a b = divide_values a b
  eval_binary modulo a b = modulo_values a (as_i64 b)
  eval_binary power a b = give (pair_f64 (as_f64 a) (as_f64 b) F.pow)
