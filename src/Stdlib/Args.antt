-- ===== src/Stdlib/Args.antt =====
-- The arguments of a standard function and what they are read as, crates/iec_stdlib/src/lib.rs.
use robocpp.Base.{ℕ, Bool, true, false, ◌||◌, Option, none, some, List, [], ◌∷◌, get_elem?}
use robocpp.Base.Int.{ℤ, pos, negsuc}
use robocpp.Base.Text.{Text}
use robocpp.Ir.Value.{Floats, Value, bool, real, string, wstring, time_ms, as_i64}

-- The operations on `f64` that only the standard functions use.
pub record FloatMath (F : Floats) : Type 0 where
  pub abs : F.Real → F.Real
  pub sqrt : F.Real → F.Real
  pub ln : F.Real → F.Real
  pub log10 : F.Real → F.Real
  pub exp : F.Real → F.Real
  pub sin : F.Real → F.Real
  pub cos : F.Real → F.Real
  pub tan : F.Real → F.Real
  pub max : F.Real → F.Real → F.Real
  pub min : F.Real → F.Real → F.Real
  -- `as f64` and `as i128`
  pub of_i128 : ℤ → F.Real
  pub to_i128 : F.Real → ℤ

-- The `?` operator.
infixl 5 ◌>>=◌
abbrev pub ◌>>=◌ : {A B : Type 0} → Option A → (A → Option B) → Option B
none >>= f = none
some a >>= f = f a

abbrev pub guard : Bool → Option (Unit {0})
guard true = some tt
guard false = none

infixl 5 ◌>>◌
abbrev pub ◌>>◌ : {B : Type 0} → Option (Unit {0}) → Option B → Option B
m >> k = m >>= λ _. k

-- The integer of a non-negative argument, `string_count_arg` and `string_position_arg`.
abbrev pub count_of : Option ℤ → Option ℕ
count_of none = none
count_of (some (pos n)) = some n
count_of (some (negsuc n)) = none

module _ {F : Floats} where
  -- `args.get(i)`
  abbrev pub arg : List (Value F) → ℕ → Option (Value F)
  arg args i = get_elem? args i

  abbrev pub value_string : Value F → Option Text
  value_string (string t) = some t
  value_string (wstring t) = some t
  value_string _ = none

  abbrev pub value_time_ms : Value F → Option ℤ
  value_time_ms (time_ms t) = some t
  value_time_ms v = as_i64 v

  unfoldable pub string_count_arg : Value F → Option ℕ
  string_count_arg v = count_of (as_i64 v)

  unfoldable pub string_position_arg : Value F → Option ℕ
  string_position_arg v = count_of (as_i64 v)

  abbrev pub string_like_result : Value F → Text → Value F
  string_like_result (wstring _) t = wstring t
  string_like_result _ t = string t

  abbrev pub any : (Value F → Bool) → List (Value F) → Bool
  any p [] = false
  any p (v ∷ vs) = p v || any p vs

  abbrev pub is_real : Value F → Bool
  is_real (real x) = true
  is_real _ = false

  abbrev pub is_time : Value F → Bool
  is_time (time_ms t) = true
  is_time _ = false

  abbrev pub is_bool : Value F → Bool
  is_bool (bool b) = true
  is_bool _ = false

  abbrev pub is_wide : Value F → Bool
  is_wide (wstring t) = true
  is_wide _ = false
