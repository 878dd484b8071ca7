-- ===== src/Stdlib/Texts/RoundTrip.antt =====
-- A DATE as text and back, `date_days_to_string` and `parse_date_string_days`, crates/iec_stdlib/src/lib.rs.
use mathlib.Core.Path.{subst}
use mathlib.Core.List.{reverse, reverse-cons, reverse-reverse}
use robocpp.Base.{
  ℕ, ◌-◌, ◌<◌, ◌≡◌, refl, ap, ◌∙◌, true, false, some, [], ◌∷◌, ◌++◌, arith, length, ◌==◌,
}
use robocpp.Base.Decimal.{print_ℕ}
use robocpp.Base.Decimal.Padded.{AllDigits, parse_i64-padded, padded-AllDigits}
use robocpp.Base.Int.{ℤ, pos, negsuc, IsI64, wrap_i64, wrap_i64_id}
use robocpp.Base.Text.{Text, codes, is_digit, is_whitespace, trim, trim_start}
use robocpp.Stdlib.Dates.{between, valid_date, days_in_month, days_from_civil, civil_from_days}
use robocpp.Stdlib.Dates.Calendar.{IsDate}
use robocpp.Stdlib.Dates.Days.{civil-IsDate, IsDate-valid_date}
use robocpp.Stdlib.Texts.{
  split, strip_prefix, parse_date_days, parse_date_string_days, pad_ℕ, pad, date_text,
  date_days_to_string,
}

-- No white space
abbrev Solid : Text → Type 0
Solid [] = Unit
Solid (c ∷ s) = (is_whitespace c ≡ false) × Solid s

Solid-append : (s t : Text) → Solid s → Solid t → Solid (s ++ t)
Solid-append [] t h k = k
Solid-append (c ∷ s) t h k = (h.0, Solid-append s t h.1 k)

Solid-reverse : (s : Text) → Solid s → Solid (reverse s)
Solid-reverse [] h = tt
Solid-reverse (c ∷ s) h =
    rw (reverse-cons c s) (Solid-append (reverse s) (c ∷ []) (Solid-reverse s h.1) (h.0, tt))

AllDigits-Solid : (s : Text) → AllDigits s → Solid s
AllDigits-Solid [] h = tt
AllDigits-Solid (c ∷ s) h = (solid c h.0, AllDigits-Solid s h.1)
  where
    solid : (c : ℕ) → is_digit c ≡ true → is_whitespace c ≡ false
    solid c h = ground arith

trim_start-Solid : (s : Text) → Solid s → trim_start s ≡ s
unfolding trim_start
trim_start-Solid [] h = refl
trim_start-Solid (c ∷ s) h = rw (h.0) refl

trim-Solid : (s : Text) → Solid s → trim s ≡ s
unfolding trim
trim-Solid s h =
    rw (trim_start-Solid s h, trim_start-Solid (reverse s) (Solid-reverse s h)) (reverse-reverse s)

split-digits : (s : Text) → AllDigits s → split b'-' s ≡ s ∷ []
unfolding split
split-digits [] h = refl
split-digits (c ∷ s) h =
    let e : (c == b'-') ≡ false = ground (arith, h.0) in rw (e, split-digits s h.1) refl

split-append : (s t : Text) → AllDigits s → split b'-' (s ++ b'-' ∷ t) ≡ s ∷ split b'-' t
unfolding split
split-append [] t h = refl
split-append (c ∷ s) t h =
    let e : (c == b'-') ≡ false = ground (arith, h.0) in rw (e, split-append s t h.1) refl

parse_date_days-date_text :
    (y m d : ℕ)
    → y < 10000
    → m < 100
    → d < 100
    → valid_date (pos y) (pos m) (pos d) ≡ true
    → parse_date_days (date_text (pos y, pos m, pos d))
      ≡ some (days_from_civil (pos y) (pos m) (pos d))
unfolding parse_date_days pad
parse_date_days-date_text y m d hy hm hd valid =
    let years = padded-AllDigits (4 - length (print_ℕ y)) y in
    let months = padded-AllDigits (2 - length (print_ℕ m)) m in
    let days = padded-AllDigits (2 - length (print_ℕ d)) d in
    rw
      (
        split-append (pad_ℕ 4 y) (pad_ℕ 2 m ++ b'-' ∷ pad_ℕ 2 d) years,
        split-append (pad_ℕ 2 m) (pad_ℕ 2 d) months,
        split-digits (pad_ℕ 2 d) days,
      )
      (rw
        (
          parse_i64-padded (4 - length (print_ℕ y)) y (omega (arith, hy)),
          parse_i64-padded (2 - length (print_ℕ m)) m (omega (arith, hm)),
          parse_i64-padded (2 - length (print_ℕ d)) d (omega (arith, hd)),
          valid,
        )
        refl)

date_text-Solid : (y m d : ℕ) → Solid (codes "D#" ++ date_text (pos y, pos m, pos d))
unfolding pad
date_text-Solid y m d = (
  refl,
  (
    refl,
    Solid-append (pad_ℕ 4 y) (b'-' ∷ (pad_ℕ 2 m ++ b'-' ∷ pad_ℕ 2 d))
        (AllDigits-Solid (pad_ℕ 4 y) (padded-AllDigits (4 - length (print_ℕ y)) y))
        (
          refl,
          Solid-append (pad_ℕ 2 m) (b'-' ∷ pad_ℕ 2 d)
              (AllDigits-Solid (pad_ℕ 2 m) (padded-AllDigits (2 - length (print_ℕ m)) m))
              (refl, AllDigits-Solid (pad_ℕ 2 d) (padded-AllDigits (2 - length (print_ℕ d)) d)),
        ),
  ),
)

days_small : (y : ℤ) (m d : ℕ) → IsDate y m d → (m < 100) × (d < 100)
unfolding days_in_month
days_small y m d i = let h = i.high in let k = i.last in (omega (arith, h), ground arith)

read_back :
    (y : ℤ) (m d : ℕ)
    → between (pos 0) (pos 9999) y ≡ true
    → IsDate y m d
    → parse_date_string_days (codes "D#" ++ date_text (y, pos m, pos d))
      ≡ some (days_from_civil y (pos m) (pos d))
unfolding parse_date_string_days strip_prefix
read_back (negsuc y) m d h i = absurd (ground arith)
read_back (pos y) m d h i =
    let small = days_small (pos y) m d i in
    rw (trim-Solid (codes "D#" ++ date_text (pos y, pos m, pos d)) (date_text-Solid y m d)) (
      parse_date_days-date_text y m d (ground arith) small.0 small.1
        (IsDate-valid_date (pos y) m d i))

shown :
    (days : ℤ)
    → date_days_to_string days ≡ codes "D#" ++ date_text (civil_from_days (wrap_i64 days))
unfolding date_days_to_string
shown days = refl

-- The text of a DATE, a number of days that an `i64` holds and whose year is from 0 to 9999, is read
-- back as the DATE.
pub parse_date_string_days-date_days_to_string :
    (days : ℤ)
    → IsI64 days
    → between (pos 0) (pos 9999) (civil_from_days days).0 ≡ true
    → parse_date_string_days (date_days_to_string days) ≡ some days
parse_date_string_days-date_days_to_string days h year =
    let (y, m, d, i, back, same) = civil-IsDate days in
    let inside = subst (λ (c : ℤ × ℤ × ℤ). between (pos 0) (pos 9999) c.0 ≡ true) back year in
    let text : date_days_to_string days ≡ codes "D#" ++ date_text (y, pos m, pos d) =
      shown days
      ∙ ap (λ z. codes "D#" ++ date_text z) (ap civil_from_days (wrap_i64_id days h) ∙ back) in
    ap parse_date_string_days text ∙ read_back y m d inside i ∙ ap some same
