-- ===== src/Stdlib/Texts.antt =====
-- Dates, times and durations as text, crates/iec_stdlib/src/lib.rs.
pub mod RoundTrip
use robocpp.Base.{
  ℕ, zero, suc, ◌+◌, ◌-◌, Bool, true, false, not, ◌&&◌, ◌||◌, Option, none, some, List, [], ◌∷◌,
  ◌++◌, length, take, drop, replicate, if◌then◌else◌, ltb, ◌==◌,
}
use robocpp.Base.Decimal.{print_ℕ, parse_i64, parse_i128}
use robocpp.Base.Int.{ℤ, pos, negsuc, minus, ◌+ℤ◌, ◌*ℤ◌, quotient, wrap_i64}
use robocpp.Base.Text.{Text, codes, eqb, is_digit, is_empty, trim, to_ascii_lowercase}
use robocpp.Base.Utf8.{byte_length, take_bytes, drop_bytes}
use robocpp.Ir.Value.{Floats}
use robocpp.Stdlib.Args.{FloatMath, ◌>>=◌, ◌>>◌, guard}
use robocpp.Stdlib.Dates.{
  between, valid_date, days_from_civil, civil_from_days, day_ms, time_of_day_ms, floor_div,
  rem_euclid,
}
use robocpp.Syntax.Cursor.{starts_with, at_char}

abbrev pub to_first : ℕ → List Text → List Text
to_first c [] = []
to_first c (part ∷ parts) = (c ∷ part) ∷ parts

-- `input.split(separator)`
unfoldable pub split : ℕ → Text → List Text
split separator [] = [] ∷ []
split separator (c ∷ s) =
    let parts = split separator s in if c == separator then [] ∷ parts else to_first c parts

-- `input.split_once(pattern)`
unfoldable pub split_once : Text → Text → Option (Text × Text)
split_once pattern [] = none
split_once pattern (c ∷ s) =
    let later = split_once pattern s >>= λ (before, after). some (c ∷ before, after) in
    if starts_with pattern (c ∷ s) then some ([], drop (length pattern) (c ∷ s)) else later

-- `text.strip_prefix(first).or_else(|| text.strip_prefix(second)).unwrap_or(text)`
unfoldable pub strip_prefix : Text → Text → Text → Text
strip_prefix first second text =
    if starts_with first text
    then drop (length first) text
    else if starts_with second text
    then drop (length second) text
    else text

abbrev pub three_parts : List Text → Option (Text × Text × Text)
three_parts (a ∷ b ∷ c ∷ []) = some (a, b, c)
three_parts _ = none

unfoldable pub parse_date_days : Text → Option ℤ
unfolding split valid_date days_from_civil
parse_date_days input = do
  (y, m, d) ← three_parts (split b'-' input)
  year ← parse_i64 y
  month ← parse_i64 m
  day ← parse_i64 d
  guard (valid_date year month day)
  some (days_from_civil year month day)

abbrev all_digits : Text → Bool
all_digits [] = true
all_digits (c ∷ s) = is_digit c && all_digits s

abbrev millis_text : Text → Text
millis_text fraction = let digits = take 3 fraction in digits ++ replicate (3 - length digits) b'0'

-- The seconds and the milliseconds.
abbrev parse_seconds : Text → Option (Text × Text) → Option (ℤ × ℤ)
parse_seconds text none = parse_i128 text >>= λ second. some (second, pos 0)
parse_seconds text (some (seconds, fraction)) = do
  guard (not (is_empty fraction) && all_digits fraction)
  second ← parse_i128 seconds
  millis ← parse_i128 (millis_text fraction)
  some (second, millis)

unfoldable pub parse_time_of_day_ms : Text → Option ℤ
unfolding split split_once time_of_day_ms
parse_time_of_day_ms input = do
  (h, m, s) ← three_parts (split b':' input)
  hour ← parse_i128 h
  minute ← parse_i128 m
  guard (between (pos 0) (pos 23) hour && between (pos 0) (pos 59) minute)
  (second, millis) ← parse_seconds s (split_once (codes ".") s)
  guard (between (pos 0) (pos 59) second)
  some (time_of_day_ms hour minute second millis)

-- `input.get(..n)` and `input.get(n..)`: there is no slice inside a character.
abbrev at_boundary : ℕ → Text → Bool
at_boundary n s = byte_length (take_bytes n s) == n

abbrev is_separator : Text → Bool
is_separator s = at_char b'-' s || at_char b'T' s || at_char b't' s

unfoldable pub parse_date_time_ms : Text → Option ℤ
unfolding parse_date_days parse_time_of_day_ms
parse_date_time_ms input = do
  guard (not (ltb (byte_length input) 11) && at_boundary 10 input)
  date ← parse_date_days (take_bytes 10 input)
  guard (is_separator (drop_bytes 10 input))
  time ← parse_time_of_day_ms (drop_bytes 11 input)
  some (date *ℤ day_ms +ℤ time)

unfoldable pub parse_date_string_days : Text → Option ℤ
parse_date_string_days input =
    parse_date_days (strip_prefix (codes "D#") (codes "DATE#") (trim input))

unfoldable pub parse_tod_string_ms : Text → Option ℤ
parse_tod_string_ms input =
    parse_time_of_day_ms (strip_prefix (codes "TOD#") (codes "TIME_OF_DAY#") (trim input))

unfoldable pub parse_dt_string_ms : Text → Option ℤ
parse_dt_string_ms input =
    parse_date_time_ms (strip_prefix (codes "DT#") (codes "DATE_AND_TIME#") (trim input))

-- Zeros in front, the sign counted: the format `{:0width}`.
abbrev pub pad_ℕ : ℕ → ℕ → Text
pad_ℕ width n = let digits = print_ℕ n in replicate (width - length digits) b'0' ++ digits

unfoldable pub pad : ℕ → ℤ → Text
pad width (pos n) = pad_ℕ width n
pad width (negsuc n) = b'-' ∷ pad_ℕ (width - 1) (suc n)

abbrev pub date_text : ℤ × ℤ × ℤ → Text
date_text (year, month, day) =
    pad 4 year ++ (codes "-" ++ (pad 2 month ++ (codes "-" ++ pad 2 day)))

unfoldable pub date_days_to_string : ℤ → Text
unfolding civil_from_days pad
date_days_to_string days = codes "D#" ++ date_text (civil_from_days (wrap_i64 days))

-- The text behind `TOD#`.
unfoldable pub clock_text : ℤ → Text
unfolding pad
clock_text t =
    let ms = rem_euclid t 86400000 in
    let hour = quotient ms (pos 3600000) in
    let minute = quotient (rem_euclid ms 3600000) (pos 60000) in
    let second = quotient (rem_euclid ms 60000) (pos 1000) in
    pad 2 hour
    ++ (codes ":"
        ++ (pad 2 minute
            ++ (codes ":" ++ (pad 2 second ++ (codes "." ++ pad 3 (rem_euclid ms 1000))))))

unfoldable pub tod_ms_to_string : ℤ → Text
unfolding clock_text
tod_ms_to_string ms = codes "TOD#" ++ clock_text ms

-- The quotient and the remainder corrected for a negative remainder are those of `floor_div`.
unfoldable pub dt_ms_to_string : ℤ → Text
unfolding clock_text civil_from_days
dt_ms_to_string ms =
    codes "DT#"
    ++ (date_text (civil_from_days (wrap_i64 (floor_div ms 86400000)))
        ++ (codes "-" ++ clock_text (rem_euclid ms 86400000)))

-- A component of a duration, and what follows it.
abbrev in_number : ℕ → Bool
in_number c = is_digit c || c == b'.'

abbrev number_text : Text → Text
number_text [] = []
number_text (c ∷ s) = if in_number c then c ∷ number_text s else []

abbrev count_dots : Text → ℕ
count_dots [] = 0
count_dots (c ∷ s) = (if c == b'.' then 1 else 0) + count_dots s

-- The unit's factor and its length.
unfoldable pub unit_factor : Text → Option (ℕ × ℕ)
unit_factor rest =
    if starts_with (codes "ms") rest
    then some (1, 2)
    else if starts_with (codes "d") rest
    then some (86400000, 1)
    else if starts_with (codes "h") rest
    then some (3600000, 1)
    else if starts_with (codes "m") rest
    then some (60000, 1)
    else if starts_with (codes "s") rest
    then some (1000, 1)
    else none

abbrev no_underscores : Text → Text
no_underscores [] = []
no_underscores (c ∷ s) = if c == b'_' then no_underscores s else c ∷ no_underscores s

module _ {F : Floats} (math : FloatMath F) where
  -- `(sign as f64 * value) as i128`
  abbrev signed : ℤ → F.Real → ℤ
  signed sign x = math.to_i128 (F.mul (F.of_i64 sign) x)

  -- The components from here on. Each takes a character at least, so the length is enough fuel.
  unfoldable pub duration_rounds : ℕ → ℤ → F.Real → Bool → Text → Option ℤ
  unfolding unit_factor
  duration_rounds zero sign total saw_unit text =
      if is_empty text && saw_unit then some (signed sign total) else none
  duration_rounds (suc fuel) sign total saw_unit [] =
      if saw_unit then some (signed sign total) else none
  duration_rounds (suc fuel) sign total saw_unit (c ∷ s) = do
    let number = number_text (c ∷ s)
    let rest = drop (length number) (c ∷ s)
    guard (not (is_empty number) && not (eqb number (codes ".")) && not (ltb 1 (count_dots number)))
    value ← F.read number
    let with_unit = do
      (factor, consumed) ← unit_factor rest
      let after = drop consumed rest
      guard (count_dots number == 0 || is_empty after)
      duration_rounds fuel sign (F.add total (F.mul value (F.of_i64 (pos factor)))) true after
    if is_empty rest then (if saw_unit then none else some (signed sign value)) else with_unit

  abbrev signed_duration : Text → Option ℤ
  signed_duration [] = none
  signed_duration (c ∷ s) =
      if c == b'-'
      then (if is_empty s
          then none
          else duration_rounds (length s) (minus 1) (F.of_i64 (pos 0)) false s)
      else duration_rounds (suc (length s)) (pos 1) (F.of_i64 (pos 0)) false (c ∷ s)

  unfoldable pub parse_duration_text_ms : Text → Option ℤ
  unfolding duration_rounds
  parse_duration_text_ms input = signed_duration (to_ascii_lowercase (no_underscores (trim input)))

  unfoldable pub parse_time_string_ms : Text → Option ℤ
  parse_time_string_ms input =
      parse_duration_text_ms (strip_prefix (codes "T#") (codes "TIME#") (trim input))
