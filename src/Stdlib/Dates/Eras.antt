-- ===== src/Stdlib/Dates/Eras.antt =====
-- Years of the calendar's eras of 400 years and 146097 days, each year starting in March.
use robocpp.Base.{refl, true, ℕ, suc, ◌+◌, ◌-◌, ◌*◌, ◌/◌, ◌%◌, ◌<◌, ◌≤◌, ◌≡◌, ◌⊎◌, inl, inr, arith}
use robocpp.Base.Int.{ℤ, pos, negsuc, ◌+ℤ◌, ◌-ℤ◌, ◌*ℤ◌, quotient, remainder, int_laws}
use robocpp.Stdlib.Dates.{floor_div, is_leap_year}

year_core :
    (a b c doy : ℕ)
    → a < 4
    → b < 25
    → c < 4
    → (doy < 365) ⊎ ((doy ≡ 365) × (c ≡ 3) × ((b < 24) ⊎ (a ≡ 3)))
    → let doe = 36524 * a + 1461 * b + 365 * c + doy in
      (doe - doe / 1460 + doe / 36524 - doe / 146096) / 365 ≡ 100 * a + 4 * b + c
year_core a b c doy ha hb hc (inl h) = omega arith
year_core a b c doy ha hb hc (inr (h, k, inl l)) = omega arith
year_core a b c doy ha hb hc (inr (h, k, inr l)) = omega arith

pub floor_400 : (e : ℤ) (r : ℕ) → r < 400 → floor_div (e *ℤ pos 400 +ℤ pos r) 400 ≡ e
unfolding quotient ◌+ℤ◌ ◌*ℤ◌ ◌-ℤ◌
floor_400 (pos a) r h = ground arith
floor_400 (negsuc a) r h = ground arith

pub floor_146097 : (e : ℤ) (r : ℕ) → r < 146097 → floor_div (e *ℤ pos 146097 +ℤ pos r) 146097 ≡ e
unfolding quotient ◌+ℤ◌ ◌*ℤ◌ ◌-ℤ◌
floor_146097 (pos a) r h = ground arith
floor_146097 (negsuc a) r h = ground arith

-- Every year lies in an era.
pub in_era : (y : ℤ) → (e : ℤ) × (r : ℕ) × (r < 400) × (y ≡ e *ℤ pos 400 +ℤ pos r)
unfolding ◌+ℤ◌ ◌*ℤ◌
in_era (pos a) = (pos (a / 400), a % 400, omega arith, ground arith)
in_era (negsuc a) = (negsuc (a / 400), 399 - a % 400, omega arith, ground arith)

-- Every day lies in an era.
pub in_era_of_days : (z : ℤ) → (e : ℤ) × (n : ℕ) × (n < 146097) × (z ≡ e *ℤ pos 146097 +ℤ pos n)
unfolding ◌+ℤ◌ ◌*ℤ◌
in_era_of_days (pos a) = (pos (a / 146097), a % 146097, omega arith, ground arith)
in_era_of_days (negsuc a) = (negsuc (a / 146097), 146096 - a % 146097, omega arith, ground arith)

abbrev pub day_of_era : ℕ → ℕ → ℕ
day_of_era year day = year * 365 + year / 4 - year / 100 + day

-- A day of a year that starts in March and has 366 days if the year that it ends in is a leap year.
abbrev pub InYear : ℕ → ℕ → Type 0
InYear year day = (day < 365) ⊎ ((day ≡ 365) × (year % 4 ≡ 3) × ((year % 100 < 96) ⊎ (year ≡ 399)))

pub year_of_era :
    (year day : ℕ)
    → year < 400
    → InYear year day
    → let doe = day_of_era year day in (doe - doe / 1460 + doe / 36524 - doe / 146096) / 365 ≡ year
year_of_era year day h i =
    let core =
      year_core (year / 100) (year % 100 / 4) (year % 4) day (omega arith) (omega arith)
        (omega arith) (parts i) in
    let e : day_of_era year day
        ≡ 36524 * (year / 100) + 1461 * (year % 100 / 4) + 365 * (year % 4) + day =
      omega arith in
    rw e (omega (arith, core))
  where
    parts :
        InYear year day
        → (day < 365) ⊎ ((day ≡ 365) × (year % 4 ≡ 3) × ((year % 100 / 4 < 24) ⊎ (year / 100 ≡ 3)))
    parts (inl d) = inl d
    parts (inr (d, k, inl l)) = inr (d, k, inl (omega arith))
    parts (inr (d, k, inr l)) = inr (d, k, inr (omega arith))

-- The days before a month, the first being March.
abbrev pub before_month : ℕ → ℕ
before_month month = (153 * month + 2) / 5

pub month_of :
    (month day : ℕ)
    → before_month month ≤ day
    → day < before_month (suc month)
    → (5 * day + 2) / 153 ≡ month
month_of month day h k = omega arith

pub leap_in_era :
    (e : ℤ) (r : ℕ)
    → r < 400
    → is_leap_year (e *ℤ pos 400 +ℤ pos (suc r)) ≡ true
    → (r % 4 ≡ 3) × ((r % 100 < 96) ⊎ (r ≡ 399))
unfolding is_leap_year remainder ◌+ℤ◌ ◌*ℤ◌
leap_in_era (pos a) r h l = ground arith
leap_in_era (negsuc a) r h l = ground arith

pub remove_era : (e : ℤ) (n r : ℕ) → e *ℤ pos n +ℤ pos r -ℤ e *ℤ pos n ≡ pos r
remove_era e n r = omega int_laws

pub year_day :
    (m d : ℕ)
    → 1 ≤ d
    → quotient (pos 153 *ℤ pos m +ℤ pos 2) (pos 5) +ℤ pos d -ℤ pos 1 ≡ pos (before_month m + d - 1)
unfolding quotient ◌+ℤ◌ ◌*ℤ◌ ◌-ℤ◌
year_day m d h = ground arith

pub era_day :
    (r day : ℕ)
    → pos r *ℤ pos 365 +ℤ quotient (pos r) (pos 4) -ℤ quotient (pos r) (pos 100) +ℤ pos day
      ≡ pos (day_of_era r day)
unfolding quotient ◌+ℤ◌ ◌*ℤ◌ ◌-ℤ◌
era_day r day = ground arith

-- The steps of `civil_from_days`, on natural numbers.
pub days_apart :
    (e : ℤ) (n : ℕ)
    → e *ℤ pos 146097 +ℤ pos n -ℤ pos 719468 +ℤ pos 719468 ≡ e *ℤ pos 146097 +ℤ pos n
days_apart e n = omega int_laws

pub era_year :
    (doe : ℕ)
    → quotient
        (pos doe
          -ℤ quotient (pos doe) (pos 1460)
          +ℤ quotient (pos doe) (pos 36524)
          -ℤ quotient (pos doe) (pos 146096))
        (pos 365)
      ≡ pos ((doe - doe / 1460 + doe / 36524 - doe / 146096) / 365)
unfolding quotient ◌+ℤ◌ ◌-ℤ◌
era_year doe = ground arith

pub era_rest :
    (r day : ℕ)
    → pos (day_of_era r day)
        -ℤ (pos 365 *ℤ pos r +ℤ quotient (pos r) (pos 4) -ℤ quotient (pos r) (pos 100))
      ≡ pos day
unfolding quotient ◌+ℤ◌ ◌*ℤ◌ ◌-ℤ◌
era_rest r day = ground arith

pub month_at : (n : ℕ) → quotient (pos 5 *ℤ pos n +ℤ pos 2) (pos 153) ≡ pos ((5 * n + 2) / 153)
unfolding quotient ◌+ℤ◌ ◌*ℤ◌
month_at n = ground arith

pub day_at :
    (m d : ℕ)
    → 1 ≤ d
    → pos (before_month m + d - 1) -ℤ quotient (pos 153 *ℤ pos m +ℤ pos 2) (pos 5) +ℤ pos 1 ≡ pos d
unfolding quotient ◌+ℤ◌ ◌*ℤ◌ ◌-ℤ◌
day_at m d h = ground arith

pub turn : (e : ℤ) (r : ℕ) → pos r +ℤ e *ℤ pos 400 ≡ e *ℤ pos 400 +ℤ pos r
turn e r = omega int_laws

pub inside_era : (r day : ℕ) → r < 400 → InYear r day → day_of_era r day < 146097
inside_era r day h (inl k) = omega arith
inside_era r day h (inr (k, l, inl n)) = omega arith
inside_era r day h (inr (k, l, inr n)) = omega arith

-- The year of an era that has this day, and the day in it.
abbrev pub DayOf : ℕ → Type 0
DayOf n = (r : ℕ) × (day : ℕ) × (r < 400) × InYear r day × (n ≡ day_of_era r day)

of_parts :
    (n a b c k : ℕ)
    → a < 4
    → b < 25
    → c < 4
    → n ≡ 36524 * a + 1461 * b + 365 * c + k
    → (k < 365) ⊎ ((k ≡ 365) × (c ≡ 3) × ((b < 24) ⊎ (a ≡ 3)))
    → DayOf n
of_parts n a b c k ha hb hc e i = (100 * a + 4 * b + c, k, omega arith, within i, omega arith)
  where
    within :
        (k < 365) ⊎ ((k ≡ 365) × (c ≡ 3) × ((b < 24) ⊎ (a ≡ 3))) → InYear (100 * a + 4 * b + c) k
    within (inl d) = inl d
    within (inr (d, l, inl m)) = inr (d, omega arith, inl (omega arith))
    within (inr (d, l, inr m)) = elim (split b) [
      | inl f ↦ inr (d, omega arith, inl (omega arith))
      | inr f ↦ inr (d, omega arith, inr (omega arith))
    ]
      where
        split : (b : ℕ) → (b < 24) ⊎ (24 ≤ b)
        split b = ground arith

in_century :
    (n a m : ℕ) → a < 4 → n ≡ 36524 * a + m → (m < 36524) ⊎ ((m ≡ 36524) × (a ≡ 3)) → DayOf n
in_century n a m ha e h = elim (split m) [
  | inl l ↦
      of_parts n a (m / 1461) (m % 1461 / 365) (m % 1461 % 365) ha (bounded h) (omega arith)
        (omega arith) (inl (omega arith))
  | inr l ↦
      of_parts n a (m / 1461) 3 365 ha (bounded h) (omega arith) (omega arith)
        (inr (refl, refl, last l h))
]
  where
    split : (k : ℕ) → (k % 1461 < 1460) ⊎ (k % 1461 ≡ 1460)
    split k = ground arith

    bounded : (m < 36524) ⊎ ((m ≡ 36524) × (a ≡ 3)) → m / 1461 < 25
    bounded (inl k) = omega arith
    bounded (inr (k, l)) = omega arith

    last : m % 1461 ≡ 1460 → (m < 36524) ⊎ ((m ≡ 36524) × (a ≡ 3)) → (m / 1461 < 24) ⊎ (a ≡ 3)
    last o (inl k) = inl (omega arith)
    last o (inr (k, l)) = inr l

-- Every day of an era lies in a year.
pub in_year : (n : ℕ) → n < 146097 → DayOf n
in_year n h = elim (split n) [
  | inl l ↦ in_century n (n / 36524) (n % 36524) (omega arith) (omega arith) (inl (omega arith))
  | inr l ↦ in_century n 3 36524 (omega arith) (omega arith) (inr (refl, refl))
]
  where
    split : (n : ℕ) → (n < 146096) ⊎ (146096 ≤ n)
    split n = ground arith

pub leap_of_era :
    (e : ℤ) (r : ℕ)
    → r < 400
    → (r % 4 ≡ 3) × ((r % 100 < 96) ⊎ (r ≡ 399))
    → is_leap_year (e *ℤ pos 400 +ℤ pos (suc r)) ≡ true
unfolding is_leap_year remainder ◌+ℤ◌ ◌*ℤ◌
leap_of_era (pos a) r h l = ground arith
leap_of_era (negsuc a) r h l = ground arith

pub day_bound : (r day : ℕ) → InYear r day → day ≤ 365
day_bound r day (inl k) = omega arith
day_bound r day (inr (k, l, m)) = omega arith
