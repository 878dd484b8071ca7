-- ===== src/Stdlib/Dates/Calendar.antt =====
-- The dates of `days_from_civil` and `civil_from_days`, crates/iec_stdlib/src/lib.rs.
use mathlib.Core.Path.{subst}
use robocpp.Base.{
  sym, ap, ◌∙◌, true, false, leb, if◌then◌else◌, Bool-cases, ℕ, suc, ◌+◌, ◌-◌, ◌*◌, ◌/◌, ◌<◌, ◌≤◌,
  ◌≡◌, ◌⊎◌, inl, inr, refl, arith,
}
use robocpp.Base.Int.{ℤ, pos, negsuc, ◌+ℤ◌, ◌-ℤ◌, ◌*ℤ◌, leb_ℤ, minus, int_laws}
use robocpp.Stdlib.Dates.{is_leap_year, days_in_month, valid_date, days_from_civil, civil_from_days}
use robocpp.Stdlib.Dates.Eras.{
  floor_400, floor_146097, in_era, day_of_era, InYear, year_of_era, before_month, month_of,
  leap_in_era, remove_era, year_day, era_day, days_apart, era_year, era_rest, month_at, day_at,
  turn, inside_era,
}

-- The number of a month in a year that starts in March.
abbrev pub from_march : ℕ → ℕ
from_march m = if leb m 2 then m + 9 else m - 3

pub record IsDate (y : ℤ) (m d : ℕ) : Type 0 where
  pub low : 1 ≤ m
  pub high : m ≤ 12
  pub first : 1 ≤ d
  pub last : d ≤ days_in_month y (pos m)

valid_date-IsDate :
    (y month day : ℤ)
    → valid_date y month day ≡ true
    → (m : ℕ) × (d : ℕ) × (month ≡ pos m) × (day ≡ pos d) × IsDate y m d
unfolding valid_date
valid_date-IsDate y (pos m) (pos d) h = (
  m,
  d,
  refl,
  refl,
  record { low = ground arith; high = ground arith; first = ground arith; last = ground arith },
)
valid_date-IsDate y (pos m) (negsuc d) h = absurd (ground arith)
valid_date-IsDate y (negsuc m) day h = absurd (ground arith)

within_month :
    (y : ℤ) (m d : ℕ)
    → IsDate y m d
    → before_month (from_march m) + d ≤ before_month (suc (from_march m))
unfolding days_in_month
within_month y m d i = let k = i.last in let l = i.low in let h = i.high in ground arith

before_leap_day :
    (y : ℤ) (m d : ℕ)
    → IsDate y m d
    → is_leap_year y ≡ false
    → before_month (from_march m) + d - 1 < 365
unfolding days_in_month
before_leap_day y m d i n =
    let k = i.last in let l = i.low in let h = i.high in let f = i.first in ground arith

up_to_leap_day :
    (y : ℤ) (m d : ℕ)
    → IsDate y m d
    → (before_month (from_march m) + d - 1 < 365)
      ⊎ ((before_month (from_march m) + d - 1 ≡ 365) × (m ≡ 2))
unfolding days_in_month
up_to_leap_day y m d i =
    let k = i.last in let l = i.low in let h = i.high in let f = i.first in ground arith

abbrev pub day_of_year : ℕ → ℕ → ℕ
day_of_year m d = before_month (from_march m) + d - 1

-- The year in which March of a date's year lies.
abbrev pub march_year : ℤ → ℕ → ℤ
march_year y m = y -ℤ (if leb_ℤ (pos m) (pos 2) then pos 1 else pos 0)

pub next_year :
    (y e : ℤ) (r : ℕ) → march_year y 2 ≡ e *ℤ pos 400 +ℤ pos r → y ≡ e *ℤ pos 400 +ℤ pos (suc r)
next_year y e r h =
    let back : y ≡ y -ℤ pos 1 +ℤ pos 1 = omega int_laws in
    let on : e *ℤ pos 400 +ℤ pos r +ℤ pos 1 ≡ e *ℤ pos 400 +ℤ pos (suc r) = omega int_laws in
    back ∙ ap (λ z. z +ℤ pos 1) h ∙ on

leap_day-InYear :
    (y e : ℤ) (r : ℕ)
    → r < 400
    → march_year y 2 ≡ e *ℤ pos 400 +ℤ pos r
    → is_leap_year y ≡ true
    → InYear r 365
leap_day-InYear y e r h eq leap =
    let l = leap_in_era e r h (ap is_leap_year (sym (next_year y e r eq)) ∙ leap) in
    inr (refl, l.0, l.1)

date-InYear :
    (y e : ℤ) (r m d : ℕ)
    → r < 400
    → march_year y m ≡ e *ℤ pos 400 +ℤ pos r
    → IsDate y m d
    → InYear r (day_of_year m d)
date-InYear y e r m d h eq i = elim (up_to_leap_day y m d i) [
  | inl k ↦ inl k
  | inr (k, two) ↦ elim (Bool-cases (is_leap_year y)) [
    | inl leap ↦ subst (InYear r) (sym k) (leap_day-InYear y e r h (rw two at eq) leap)
    | inr other ↦ inl (before_leap_day y m d i other)
  ]
]

month_prime :
    (m : ℕ)
    → 1 ≤ m
    → pos m +ℤ (if leb_ℤ (pos m) (pos 2) then pos 9 else minus 3) ≡ pos (from_march m)
unfolding ◌+ℤ◌
month_prime m h = ground arith

pub days_of :
    (y e : ℤ) (r m d : ℕ)
    → r < 400
    → march_year y m ≡ e *ℤ pos 400 +ℤ pos r
    → IsDate y m d
    → days_from_civil y (pos m) (pos d)
      ≡ e *ℤ pos 146097 +ℤ pos (day_of_era r (day_of_year m d)) -ℤ pos 719468
unfolding days_from_civil
days_of y e r m d h eq i =
    rw
      (
        eq,
        floor_400 e r h,
        remove_era e 400 r,
        month_prime m i.low,
        year_day (from_march m) d i.first,
        era_day r (day_of_year m d),
      )
      refl

civil_month :
    (m : ℕ)
    → 1 ≤ m
    → m ≤ 12
    → pos (from_march m) +ℤ (if leb_ℤ (pos 10) (pos (from_march m)) then minus 9 else pos 3) ≡ pos m
unfolding ◌+ℤ◌
civil_month m h k = ground arith

civil_year :
    (y z : ℤ) (m : ℕ)
    → march_year y m ≡ z
    → z +ℤ (if leb_ℤ (pos m) (pos 2) then pos 1 else pos 0) ≡ y
unfolding ◌+ℤ◌ ◌-ℤ◌
civil_year y z m h =
    ap (λ x. x +ℤ (if leb_ℤ (pos m) (pos 2) then pos 1 else pos 0)) (sym h) ∙ ground arith

civil_of :
    (y e : ℤ) (r m d : ℕ)
    → r < 400
    → march_year y m ≡ e *ℤ pos 400 +ℤ pos r
    → IsDate y m d
    → civil_from_days (e *ℤ pos 146097 +ℤ pos (day_of_era r (day_of_year m d)) -ℤ pos 719468)
      ≡ (y, pos m, pos d)
unfolding civil_from_days
civil_of y e r m d h eq i =
    let within = date-InYear y e r m d h eq i in
    let doe = day_of_era r (day_of_year m d) in
    let month : (5 * day_of_year m d + 2) / 153 ≡ from_march m =
      month_of (from_march m) (day_of_year m d) (omega (arith, i.first))
        (omega (arith, i.first, within_month y m d i)) in
    rw
      (
        days_apart e doe,
        floor_146097 e doe (inside_era r (day_of_year m d) h within),
        remove_era e 146097 doe,
      )
      (rw
        (
          era_year doe,
          year_of_era r (day_of_year m d) h within,
          era_rest r (day_of_year m d),
          month_at (day_of_year m d),
          month,
        )
        (rw
          (
            day_at (from_march m) d i.first,
            civil_month m i.low i.high,
            turn e r,
            civil_year y (e *ℤ pos 400 +ℤ pos r) m eq,
          )
          refl))

by_parts :
    (year month day : ℤ)
    → (m : ℕ) × (d : ℕ) × (month ≡ pos m) × (day ≡ pos d) × IsDate year m d
    → civil_from_days (days_from_civil year month day) ≡ (year, month, day)
by_parts year month day (m, d, em, ed, i) =
    let (e, r, lt, eq) = in_era (march_year year m) in
    rw (em, ed, days_of year e r m d lt eq i) (civil_of year e r m d lt eq i)

pub civil_from_days-days_from_civil :
    (year month day : ℤ)
    → valid_date year month day ≡ true
    → civil_from_days (days_from_civil year month day) ≡ (year, month, day)
civil_from_days-days_from_civil year month day h =
    by_parts year month day (valid_date-IsDate year month day h)
