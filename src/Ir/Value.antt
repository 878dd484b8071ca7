-- ===== src/Ir/Value.antt =====
-- Values, crates/iec_ir/src/lib.rs. The numbers `f64` are a parameter: their carrier and the
-- conversions of the language that the program applies to them. `Int` holds an `i64` and `TimeMs`
-- an `i128`, here integers.
use robocpp.Base.{Bool, true, false, not, Option, none, some}
use robocpp.Base.Int.{ℤ, pos, eqb_ℤ, IsI64}
use robocpp.Base.Text.{Text}
use robocpp.Ir.Names.{Identifier}

pub record Floats : Type 1 where
  pub Real : Type 0
  -- `x == 0.0`
  pub is_zero : Real → Bool
  -- `x as i64`, which saturates
  pub to_i64 : Real → ℤ
  -- `Display` and `from_str` of `f64`
  pub show : Real → Text
  pub read : Text → Option Real
  -- `x as f64`
  pub of_i64 : ℤ → Real
  pub neg : Real → Real
  pub add : Real → Real → Real
  pub sub : Real → Real → Real
  pub mul : Real → Real → Real
  pub div : Real → Real → Real
  pub pow : Real → Real → Real
  -- `(x - y).abs() < f64::EPSILON` and `x < y`
  pub near : Real → Real → Bool
  pub less : Real → Real → Bool
  pub to_i64-IsI64 : (x : Real) → IsI64 (to_i64 x)

mutual
  pub data Value (F : Floats) : Type 0 where
    bool : Bool → Value F
    int : ℤ → Value F
    real : F.Real → Value F
    string : Text → Value F
    wstring : Text → Value F
    time_ms : ℤ → Value F
    array : Values F → Value F
    struct : Fields F → Value F
    unit : Value F

  pub data Values (F : Floats) : Type 0 where
    nil : Values F
    cons : Value F → Values F → Values F

  -- The entries of the `BTreeMap`, in the order of their names.
  pub data Fields (F : Floats) : Type 0 where
    end : Fields F
    field : Text → Value F → Fields F → Fields F

pub data Literal (F : Floats) : Type 0 where
  int : ℤ → Literal F
  real : F.Real → Literal F
  bool : Bool → Literal F
  string : Text → Literal F
  wstring : Text → Literal F
  duration_ms : ℤ → Literal F
  date : Text → Literal F
  time_of_day : Text → Literal F
  date_and_time : Text → Literal F
  typed : Identifier → Text → Literal F

module _ {F : Floats} where
  abbrev pub as_bool : Value F → Option Bool
  as_bool (Value.bool b) = some b
  as_bool (Value.int n) = some (not (eqb_ℤ n (pos 0)))
  as_bool (Value.real x) = some (not (F.is_zero x))
  as_bool _ = none

  abbrev pub as_i64 : Value F → Option ℤ
  as_i64 (Value.bool true) = some (pos 1)
  as_i64 (Value.bool false) = some (pos 0)
  as_i64 (Value.int n) = some n
  as_i64 (Value.real x) = some (F.to_i64 x)
  as_i64 _ = none

  abbrev pub as_f64 : Value F → Option F.Real
  as_f64 (Value.bool true) = some (F.of_i64 (pos 1))
  as_f64 (Value.bool false) = some (F.of_i64 (pos 0))
  as_f64 (Value.int n) = some (F.of_i64 n)
  as_f64 (Value.real x) = some x
  as_f64 _ = none
