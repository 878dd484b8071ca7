-- ===== src/Stdlib/Conversions.antt =====
-- The conversion functions, crates/iec_stdlib/src/lib.rs.
use robocpp.Base.{
  Bool, true, false, not, ◌||◌, Option, none, some, List, [], ◌∷◌, if◌then◌else◌, map_option,
}
use robocpp.Base.Decimal.{parse_i64}
use robocpp.Base.Int.{ℤ, pos, minus, eqb_ℤ, checked, is_i64}
use robocpp.Base.Text.{Text, codes, eqb, trim}
use robocpp.Ir.Names.{canonical_identifier}
use robocpp.Ir.Value.{
  Floats, Value, bool, int, real, string, wstring, time_ms, as_bool, as_i64, as_f64,
}
use robocpp.Stdlib.Args.{FloatMath, ◌>>=◌, ◌>>◌, guard, arg, value_time_ms}
use robocpp.Stdlib.Bcd.{bcd_to_int, int_to_bcd, bcd_digit_capacity}
use robocpp.Stdlib.Dates.{between}
use robocpp.Stdlib.Numeric.{value_to_string}
use robocpp.Stdlib.Texts.{
  split_once, parse_time_string_ms, parse_date_string_days, parse_tod_string_ms, parse_dt_string_ms,
  date_days_to_string, tod_ms_to_string, dt_ms_to_string,
}

-- `matches!(name, …)`
abbrev pub one_of : List Text → Text → Bool
one_of [] name = false
one_of (n ∷ names) name = eqb name n || one_of names name

abbrev pub integer_names : List Text
integer_names =
    codes "SINT"
    ∷ codes "INT"
    ∷ codes "DINT"
    ∷ codes "LINT"
    ∷ codes "USINT"
    ∷ codes "UINT"
    ∷ codes "UDINT"
    ∷ codes "ULINT"
    ∷ []

abbrev pub bit_names : List Text
bit_names = codes "BYTE" ∷ codes "WORD" ∷ codes "DWORD" ∷ codes "LWORD" ∷ []

abbrev tod_names : List Text
tod_names = codes "TOD" ∷ codes "TIME_OF_DAY" ∷ []

abbrev dt_names : List Text
dt_names = codes "DT" ∷ codes "DATE_AND_TIME" ∷ []

-- The word of a text that is a BOOL.
abbrev bool_word : Text → Option Bool
bool_word word =
    if one_of (codes "TRUE" ∷ codes "1" ∷ []) word
    then some true
    else if one_of (codes "FALSE" ∷ codes "0" ∷ [] ∷ []) word
    then some false
    else none

-- The smallest and the largest value of an integer or bit string type.
unfoldable pub conversion_target_integer_range : Text → Option (ℤ × ℤ)
conversion_target_integer_range target =
    if one_of (codes "SINT" ∷ []) target
    then some (minus 128, pos 127)
    else if one_of (codes "USINT" ∷ codes "BYTE" ∷ []) target
    then some (pos 0, pos 255)
    else if one_of (codes "INT" ∷ []) target
    then some (minus 32768, pos 32767)
    else if one_of (codes "UINT" ∷ codes "WORD" ∷ []) target
    then some (pos 0, pos 65535)
    else if one_of (codes "DINT" ∷ []) target
    then some (minus 2147483648, pos 2147483647)
    else if one_of (codes "UDINT" ∷ codes "DWORD" ∷ []) target
    then some (pos 0, pos 4294967295)
    else if one_of (codes "LINT" ∷ []) target
    then some (minus 0x8000_0000_0000_0000, pos 0x7fff_ffff_ffff_ffff)
    else if one_of (codes "ULINT" ∷ codes "LWORD" ∷ []) target
    then some (pos 0, pos 0x7fff_ffff_ffff_ffff)
    else none

module _ {F : Floats} where
  abbrev pub value_to_bool : Value F → Option Bool
  value_to_bool (string t) = bool_word (canonical_identifier t)
  value_to_bool (wstring t) = bool_word (canonical_identifier t)
  value_to_bool (time_ms t) = some (not (eqb_ℤ t (pos 0)))
  value_to_bool v = as_bool v

  abbrev pub value_to_i64 : Value F → Option ℤ
  value_to_i64 (string t) = parse_i64 (trim t)
  value_to_i64 (wstring t) = parse_i64 (trim t)
  value_to_i64 (time_ms t) = checked is_i64 t
  value_to_i64 v = as_i64 v

  abbrev pub value_to_date_days : Value F → Option ℤ
  value_to_date_days (string t) = parse_date_string_days t
  value_to_date_days (wstring t) = parse_date_string_days t
  value_to_date_days v = value_time_ms v

  abbrev pub value_to_tod_ms : Value F → Option ℤ
  value_to_tod_ms (string t) = parse_tod_string_ms t
  value_to_tod_ms (wstring t) = parse_tod_string_ms t
  value_to_tod_ms v = value_time_ms v

  abbrev pub value_to_dt_ms : Value F → Option ℤ
  value_to_dt_ms (string t) = parse_dt_string_ms t
  value_to_dt_ms (wstring t) = parse_dt_string_ms t
  value_to_dt_ms v = value_time_ms v

  unfoldable pub value_to_string_for_source : Text → Value F → Option Text
  value_to_string_for_source source v =
      if eqb source (codes "DATE")
      then map_option date_days_to_string (value_to_date_days v)
      else if one_of tod_names source
      then map_option tod_ms_to_string (value_to_tod_ms v)
      else if one_of dt_names source
      then map_option dt_ms_to_string (value_to_dt_ms v)
      else some (value_to_string v)

module _ {F : Floats} (math : FloatMath F) where
  abbrev pub value_to_f64 : Value F → Option F.Real
  value_to_f64 (string t) = F.read (trim t)
  value_to_f64 (wstring t) = F.read (trim t)
  value_to_f64 (time_ms t) = some (math.of_i128 t)
  value_to_f64 v = as_f64 v

  abbrev pub value_to_time_ms : Value F → Option ℤ
  value_to_time_ms (time_ms t) = some t
  value_to_time_ms (string t) = parse_time_string_ms math t
  value_to_time_ms (wstring t) = parse_time_string_ms math t
  value_to_time_ms v = as_i64 v

  unfoldable pub to_integer : Text → Value F → Option (Value F)
  unfolding conversion_target_integer_range
  to_integer target v = do
    converted ← value_to_i64 v
    (low, high) ← conversion_target_integer_range target
    guard (between low high converted)
    some (int converted)

  unfoldable pub convert_to : Text → Text → Value F → Option (Value F)
  unfolding to_integer value_to_string_for_source
  convert_to source target v =
      if eqb target (codes "BOOL")
      then map_option bool (value_to_bool v)
      else if one_of integer_names target || one_of bit_names target
      then to_integer target v
      else if one_of (codes "REAL" ∷ codes "LREAL" ∷ []) target
      then map_option real (value_to_f64 v)
      else if eqb target (codes "STRING")
      then map_option string (value_to_string_for_source source v)
      else if eqb target (codes "WSTRING")
      then map_option wstring (value_to_string_for_source source v)
      else if eqb target (codes "TIME")
      then map_option time_ms (value_to_time_ms v)
      else if eqb target (codes "DATE")
      then map_option time_ms (value_to_date_days v)
      else if one_of tod_names target
      then map_option time_ms (value_to_tod_ms v)
      else if one_of dt_names target
      then map_option time_ms (value_to_dt_ms v)
      else none

  unfoldable pub eval_conversion_function : Text → List (Value F) → Option (Value F)
  unfolding convert_to split_once
  eval_conversion_function name args = do
    (source, target) ← split_once (codes "_TO_") name
    v ← arg args 0
    convert_to source target v

-- By the name alone: what is made of the argument's integer.
unfoldable pub bcd_function : Text → ℤ → Option ℤ
unfolding split_once bcd_digit_capacity bcd_to_int int_to_bcd
bcd_function name value =
    if eqb name (codes "BCD_TO_INT")
    then bcd_to_int value none
    else if eqb name (codes "INT_TO_BCD")
    then int_to_bcd value none
    else by_parts (split_once (codes "_BCD_TO_") name) (split_once (codes "_TO_BCD_") name)
  where
    by_parts : Option (Text × Text) → Option (Text × Text) → Option ℤ
    by_parts (some (source, target)) o = bcd_to_int value (bcd_digit_capacity source)
    by_parts none (some (source, target)) = int_to_bcd value (bcd_digit_capacity target)
    by_parts none none = none

unfoldable pub eval_bcd_conversion_function :
    {F : Floats} → Text → List (Value F) → Option (Value F)
unfolding bcd_function
eval_bcd_conversion_function name args = do
  value ← arg args 0 >>= as_i64
  converted ← bcd_function name value
  some (int converted)
