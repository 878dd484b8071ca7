-- ===== src/Stdlib/Dates/Days.antt =====
-- The dates of `civil_from_days`, crates/iec_stdlib/src/lib.rs, from their days.
use mathlib.Core.Path.{subst}
use robocpp.Base.{
  sym, ap, ◌∙◌, true, if◌then◌else◌, ℕ, suc, ◌+◌, ◌-◌, ◌*◌, ◌/◌, ◌<◌, ◌≤◌, ◌≡◌, ◌⊎◌, inl, inr,
  arith,
}
use robocpp.Base.Int.{ℤ, pos, ◌+ℤ◌, ◌-ℤ◌, ◌*ℤ◌, leb_ℤ, int_laws}
use robocpp.Stdlib.Dates.{is_leap_year, days_in_month, valid_date, days_from_civil, civil_from_days}
use robocpp.Stdlib.Dates.Eras.{
  day_of_era, InYear, before_month, leap_of_era, in_year, in_era_of_days, day_bound,
}
use robocpp.Stdlib.Dates.Calendar.{
  from_march, day_of_year, march_year, next_year, days_of, IsDate, civil_from_days-days_from_civil,
}

-- The month and the day of a day of a year that starts in March.
month_and_day :
    (day : ℕ)
    → day ≤ 365
    → (m : ℕ) × (d : ℕ) × (1 ≤ m)
      × (m ≤ 12)
      × (1 ≤ d)
      × (day_of_year m d ≡ day)
      × (before_month (from_march m) + d ≤ before_month (suc (from_march m)))
month_and_day day h = elim (split ((5 * day + 2) / 153)) [
  | inl l ↦ (
    (5 * day + 2) / 153 + 3,
    suc day - before_month ((5 * day + 2) / 153),
    omega arith,
    omega arith,
    omega arith,
    ground arith,
    ground arith,
  )
  | inr l ↦ (
    (5 * day + 2) / 153 - 9,
    suc day - before_month ((5 * day + 2) / 153),
    omega arith,
    omega arith,
    omega arith,
    ground arith,
    ground arith,
  )
]
  where
    split : (m : ℕ) → (m < 10) ⊎ (10 ≤ m)
    split m = ground arith

last_day :
    (y : ℤ) (m d : ℕ)
    → 1 ≤ m
    → m ≤ 12
    → before_month (from_march m) + d ≤ before_month (suc (from_march m))
    → ((is_leap_year y ≡ true) × (day_of_year m d ≡ 365)) ⊎ (day_of_year m d < 365)
    → d ≤ days_in_month y (pos m)
unfolding days_in_month
last_day y m d h k l (inl (leap, long)) = ground arith
last_day y m d h k l (inr short) = ground arith

leap_or_short :
    (y e : ℤ) (r m d : ℕ)
    → r < 400
    → march_year y m ≡ e *ℤ pos 400 +ℤ pos r
    → m ≤ 12
    → before_month (from_march m) + d ≤ before_month (suc (from_march m))
    → InYear r (day_of_year m d)
    → ((is_leap_year y ≡ true) × (day_of_year m d ≡ 365)) ⊎ (day_of_year m d < 365)
leap_or_short y e r m d h eq k l (inl short) = inr short
leap_or_short y e r m d h eq k l (inr (long, thirds, rest)) =
    let two : m ≡ 2 = ground arith in
    inl (ap is_leap_year (next_year y e r (rw two at eq)) ∙ leap_of_era e r h (thirds, rest), long)

put_back : (a b : ℤ) → a +ℤ b -ℤ b ≡ a
put_back a b = omega int_laws

pub IsDate-valid_date : (y : ℤ) (m d : ℕ) → IsDate y m d → valid_date y (pos m) (pos d) ≡ true
unfolding valid_date
IsDate-valid_date y m d i =
    let h = i.low in let k = i.high in let l = i.first in let n = i.last in ground arith

-- A date with this number of days.
abbrev HasDate : ℤ → Type 0
HasDate z = (y : ℤ) × (m : ℕ) × (d : ℕ) × IsDate y m d × (days_from_civil y (pos m) (pos d) ≡ z)

date_of :
    (z e : ℤ) (r m d : ℕ)
    → r < 400
    → 1 ≤ m
    → m ≤ 12
    → 1 ≤ d
    → before_month (from_march m) + d ≤ before_month (suc (from_march m))
    → InYear r (day_of_year m d)
    → z +ℤ pos 719468 ≡ e *ℤ pos 146097 +ℤ pos (day_of_era r (day_of_year m d))
    → HasDate z
date_of z e r m d h low high first fits within same =
    let start = e *ℤ pos 400 +ℤ pos r in
    let y = start +ℤ (if leb_ℤ (pos m) (pos 2) then pos 1 else pos 0) in
    let eq : march_year y m ≡ start =
      put_back start (if leb_ℤ (pos m) (pos 2) then pos 1 else pos 0) in
    let i : IsDate y m d = record {
      low = low;
      high = high;
      first = first;
      last = last_day y m d low high fits (leap_or_short y e r m d h eq high fits within);
    } in
    (
      y,
      m,
      d,
      i,
      days_of y e r m d h eq i ∙ ap (λ x. x -ℤ pos 719468) (sym same) ∙ put_back z (pos 719468),
    )

dated : (z : ℤ) → HasDate z
dated z =
    let (e, n, lt, eq) = in_era_of_days (z +ℤ pos 719468) in
    let (r, day, year, within, ne) = in_year n lt in
    let (m, d, low, high, first, same, fits) = month_and_day day (day_bound r day within) in
    date_of z e r m d year low high first fits (subst (InYear r) (sym same) within)
      (eq ∙ ap (λ x. e *ℤ pos 146097 +ℤ pos x) (ne ∙ ap (day_of_era r) (sym same)))

-- The date that a number of days is turned into.
pub civil-IsDate :
    (z : ℤ)
    → (y : ℤ) × (m : ℕ) × (d : ℕ) × IsDate y m d
      × (civil_from_days z ≡ (y, pos m, pos d))
      × (days_from_civil y (pos m) (pos d) ≡ z)
civil-IsDate z =
    let (y, m, d, i, same) = dated z in
    let valid = IsDate-valid_date y m d i in
    let back =
      ap civil_from_days (sym same) ∙ civil_from_days-days_from_civil y (pos m) (pos d) valid in
    (y, m, d, i, back, same)
