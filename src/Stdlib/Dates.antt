-- ===== src/Stdlib/Dates.antt =====
-- The calendar of the standard functions, crates/iec_stdlib/src/lib.rs. Years, months and days are exact
-- integers; the source's `i64` holds the days for every year within 2 * 10 ^ 16.
pub mod Eras
pub mod Calendar
pub mod Days
use robocpp.Base.{ℕ, Bool, not, ◌&&◌, ◌||◌, Option, none, some, List, [], ◌∷◌, if◌then◌else◌, ◌==◌}
use robocpp.Base.Int.{
  ℤ, pos, negsuc, minus, ◌+ℤ◌, ◌-ℤ◌, ◌*ℤ◌, quotient, remainder, eqb_ℤ, leb_ℤ, wrap_i128,
}
use robocpp.Ir.Value.{Floats, Value, int, time_ms, as_i64}
use robocpp.Stdlib.Args.{◌>>=◌, ◌>>◌, guard, arg, value_time_ms}

-- `x % n == 0`
abbrev divides : ℕ → ℤ → Bool
divides n x = eqb_ℤ (remainder x (pos n)) (pos 0)

unfoldable pub is_leap_year : ℤ → Bool
is_leap_year year = (divides 4 year && not (divides 100 year)) || divides 400 year

unfoldable pub days_in_month : ℤ → ℤ → ℕ
unfolding is_leap_year
days_in_month year (negsuc n) = 0
days_in_month year (pos n) =
    if n == 1 || n == 3 || n == 5 || n == 7 || n == 8 || n == 10 || n == 12
    then 31
    else if n == 4 || n == 6 || n == 9 || n == 11
    then 30
    else if n == 2
    then (if is_leap_year year then 29 else 28)
    else 0

abbrev pub between : ℤ → ℤ → ℤ → Bool
between low high x = leb_ℤ low x && leb_ℤ x high

unfoldable pub valid_date : ℤ → ℤ → ℤ → Bool
unfolding days_in_month
valid_date year month day =
    between (pos 1) (pos 12) month && between (pos 1) (pos (days_in_month year month)) day

-- `(if x >= 0 { x } else { x - (n - 1) }) / n`
abbrev pub floor_div : ℤ → ℕ → ℤ
floor_div (pos a) n = quotient (pos a) (pos n)
floor_div (negsuc a) n = quotient (negsuc a -ℤ (pos n -ℤ pos 1)) (pos n)

unfoldable pub days_from_civil : ℤ → ℤ → ℤ → ℤ
days_from_civil year month day =
    let adjusted_year = year -ℤ (if leb_ℤ month (pos 2) then pos 1 else pos 0) in
    let era = floor_div adjusted_year 400 in
    let year_of_era = adjusted_year -ℤ era *ℤ pos 400 in
    let month_prime = month +ℤ (if leb_ℤ month (pos 2) then pos 9 else minus 3) in
    let day_of_year = quotient (pos 153 *ℤ month_prime +ℤ pos 2) (pos 5) +ℤ day -ℤ pos 1 in
    let day_of_era =
      year_of_era *ℤ pos 365
      +ℤ quotient year_of_era (pos 4)
      -ℤ quotient year_of_era (pos 100)
      +ℤ day_of_year in
    era *ℤ pos 146097 +ℤ day_of_era -ℤ pos 719468

unfoldable pub civil_from_days : ℤ → ℤ × ℤ × ℤ
civil_from_days days =
    let z = days +ℤ pos 719468 in
    let era = floor_div z 146097 in
    let day_of_era = z -ℤ era *ℤ pos 146097 in
    let year_of_era =
      quotient
        (day_of_era
          -ℤ quotient day_of_era (pos 1460)
          +ℤ quotient day_of_era (pos 36524)
          -ℤ quotient day_of_era (pos 146096))
        (pos 365) in
    let year = year_of_era +ℤ era *ℤ pos 400 in
    let day_of_year =
      day_of_era
      -ℤ (pos 365 *ℤ year_of_era
          +ℤ quotient year_of_era (pos 4)
          -ℤ quotient year_of_era (pos 100)) in
    let month_prime = quotient (pos 5 *ℤ day_of_year +ℤ pos 2) (pos 153) in
    let day = day_of_year -ℤ quotient (pos 153 *ℤ month_prime +ℤ pos 2) (pos 5) +ℤ pos 1 in
    let month = month_prime +ℤ (if leb_ℤ (pos 10) month_prime then minus 9 else pos 3) in
    (year +ℤ (if leb_ℤ month (pos 2) then pos 1 else pos 0), month, day)

abbrev pub day_ms : ℤ
day_ms = pos 86400000

-- ((hour * 60 + minute) * 60 + second) * 1000 + millisecond
unfoldable pub time_of_day_ms : ℤ → ℤ → ℤ → ℤ → ℤ
time_of_day_ms hour minute second millisecond =
    ((hour *ℤ pos 60 +ℤ minute) *ℤ pos 60 +ℤ second) *ℤ pos 1000 +ℤ millisecond

-- `rem_euclid`
abbrev pub rem_euclid : ℤ → ℕ → ℤ
rem_euclid x n = x -ℤ floor_div x n *ℤ pos n

module _ {F : Floats} where
  unfoldable pub concat_date : List (Value F) → Option (Value F)
  unfolding valid_date days_from_civil
  concat_date args = do
    year ← arg args 0 >>= as_i64
    month ← arg args 1 >>= as_i64
    day ← arg args 2 >>= as_i64
    guard (valid_date year month day)
    some (time_ms (days_from_civil year month day))

  unfoldable pub concat_tod : List (Value F) → Option (Value F)
  unfolding time_of_day_ms
  concat_tod args = do
    hour ← arg args 0 >>= as_i64
    minute ← arg args 1 >>= as_i64
    second ← arg args 2 >>= as_i64
    millisecond ← arg args 3 >>= as_i64
    guard (
        between (pos 0) (pos 23) hour
        && between (pos 0) (pos 59) minute
        && between (pos 0) (pos 59) second
        && between (pos 0) (pos 999) millisecond)
    some (time_ms (time_of_day_ms hour minute second millisecond))

  unfoldable pub concat_date_tod : List (Value F) → Option (Value F)
  concat_date_tod args = do
    days ← arg args 0 >>= value_time_ms
    tod ← arg args 1 >>= value_time_ms
    some (time_ms (wrap_i128 (days *ℤ day_ms +ℤ tod)))

  -- `args.get(3..7)`
  abbrev clock_args : List (Value F) → Option (List (Value F))
  clock_args (_ ∷ _ ∷ _ ∷ h ∷ m ∷ s ∷ ms ∷ _) = some (h ∷ m ∷ s ∷ ms ∷ [])
  clock_args _ = none

  unfoldable pub concat_dt : List (Value F) → Option (Value F)
  unfolding concat_date concat_tod concat_date_tod
  concat_dt args = do
    date ← concat_date args
    tod ← clock_args args >>= concat_tod
    concat_date_tod (date ∷ tod ∷ [])

  unfoldable pub day_of_week : List (Value F) → Option (Value F)
  day_of_week args = do
    days ← arg args 0 >>= value_time_ms
    some (int (rem_euclid (days +ℤ pos 3) 7 +ℤ pos 1))

  unfoldable pub time_pair : List (Value F) → (ℤ → ℤ → ℤ) → Option (Value F)
  time_pair args op = do
    left ← arg args 0 >>= value_time_ms
    right ← arg args 1 >>= value_time_ms
    some (time_ms (op left right))

  unfoldable pub time_scale : List (Value F) → (ℤ → ℤ → ℤ) → Option (Value F)
  time_scale args op = do
    time ← arg args 0 >>= value_time_ms
    factor ← arg args 1 >>= as_i64
    some (time_ms (op time factor))
