-- ===== src/Tests/Stdlib.antt =====
-- Arguments of the standard functions.
use robocpp.Base.{◌*◌, ◌≡◌, refl, true, false, some, [], ◌∷◌, arith}
use robocpp.Base.Int.{pos, quotient, ◌+ℤ◌, ◌-ℤ◌, ◌*ℤ◌}
use robocpp.Base.Text.{Text, codes}
use robocpp.Ir.Value.{int, string, wstring}
use robocpp.Stdlib.Args.{FloatMath, ◌>>=◌}
use robocpp.Stdlib.Bits.{bit_shift}
use robocpp.Stdlib.Dates.{civil_from_days}
use robocpp.Stdlib.Functions.Faults.{shift_wraps}
use robocpp.Stdlib.Strings.{string_insert, string_delete, string_replace}
use robocpp.Stdlib.Strings.Edits.{string_replace-between, string_delete-string_insert}
use robocpp.Stdlib.Texts.{date_days_to_string, parse_date_string_days}
use robocpp.Stdlib.Texts.RoundTrip.{parse_date_string_days-date_days_to_string}
use robocpp.Tests.{whole}

-- The functions on whole numbers, as far as they are whole.
abbrev whole_math : FloatMath whole
whole_math = record {
  abs = λ x. x;
  sqrt = λ x. x;
  ln = λ x. x;
  log10 = λ x. x;
  exp = λ x. x;
  sin = λ x. x;
  cos = λ x. x;
  tan = λ x. x;
  max = λ x y. y;
  min = λ x y. x;
  of_i128 = λ z. z;
  to_i128 = λ x. x;
}

shift_wraps_example :
    bit_shift {F = whole} (int (pos 5) ∷ int (pos (3 * 0x1_0000_0000)) ∷ []) true
    ≡ some (int (pos 5))
shift_wraps_example = shift_wraps (pos 5) 3 true (omega arith)

abbrev phrase : Text
phrase = codes "start motor"

string_replace-between_example :
    string_replace {F = whole}
      (string phrase ∷ wstring (codes "stop") ∷ int (pos 5) ∷ int (pos 1) ∷ [])
    ≡ some (string (codes "stop motor"))
string_replace-between_example = string_replace-between false true phrase (codes "stop") 5 0 refl

string_delete-string_insert_example :
    (string_insert {F = whole} (string phrase ∷ string (codes "re") ∷ int (pos 0) ∷ []) >>= λ v.
    string_delete (v ∷ int (pos 2) ∷ int (pos 1) ∷ []))
    ≡ some (string phrase)
string_delete-string_insert_example =
    string_delete-string_insert false false phrase b'r' (codes "e") 0 (omega arith)

-- The leap day of 2024
parse_date_string_days-date_days_to_string_example :
    parse_date_string_days (date_days_to_string (pos 19782)) ≡ some (pos 19782)
unfolding civil_from_days quotient ◌+ℤ◌ ◌-ℤ◌ ◌*ℤ◌
parse_date_string_days-date_days_to_string_example =
    parse_date_string_days-date_days_to_string (pos 19782) (omega arith) refl
