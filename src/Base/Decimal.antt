-- ===== src/Base/Decimal.antt =====
-- Decimal numbers as Rust prints them (`Display`) and parses them (`from_str` of `i64` and `i128`).
pub mod Padded
use robocpp.Base.{
  ℕ, zero, suc, ◌+◌, ◌-◌, ◌*◌, ◌/◌, ◌%◌, ◌<◌, ◌≡◌, refl, ap, true, Option, none, some, [], ◌∷◌,
  ◌++◌, arith, ltb, ◌==◌, if◌then◌else◌, Bool-cases, inl, inr, and_then, map_option,
}
use robocpp.Base.Int.{ℤ, pos, negsuc, IsI64, IsI128, minus, is_i64, is_i128, checked}
use robocpp.Base.Text.{Text, is_digit}

-- The digits of a number, with fuel for them.
digits : ℕ → ℕ → Text
digits zero n = []
digits (suc fuel) n =
    let front = digits fuel (n / 10) in
    if ltb n 10 then (b'0' + n) ∷ [] else front ++ (b'0' + n % 10) ∷ []

unfoldable pub print_ℕ : ℕ → Text
unfolding digits
print_ℕ n = digits (suc n) n

unfoldable pub print_ℤ : ℤ → Text
print_ℤ (pos n) = print_ℕ n
print_ℤ (negsuc n) = b'-' ∷ print_ℕ (suc n)

-- Reads digits behind a number already read.
unfoldable pub scan : Text → ℕ → Option ℕ
scan [] n = some n
scan (c ∷ t) n = if is_digit c then scan t (10 * n + (c - b'0')) else none

abbrev pub parse_ℕ : Text → Option ℕ
parse_ℕ [] = none
parse_ℕ (c ∷ t) = scan (c ∷ t) 0

unfoldable pub parse_ℤ : Text → Option ℤ
parse_ℤ [] = none
parse_ℤ (c ∷ t) =
    if c == b'-'
    then map_option minus (parse_ℕ t)
    else if c == b'+'
    then map_option pos (parse_ℕ t)
    else map_option pos (parse_ℕ (c ∷ t))

unfoldable pub parse_i64 : Text → Option ℤ
parse_i64 t = and_then (parse_ℤ t) (checked is_i64)

unfoldable pub parse_i128 : Text → Option ℤ
parse_i128 t = and_then (parse_ℤ t) (checked is_i128)

scan-append :
    (s : Text) (c n : ℕ)
    → is_digit c ≡ true
    → scan (s ++ c ∷ []) n ≡ map_option (λ k. 10 * k + (c - b'0')) (scan s n)
unfolding scan
scan-append [] c n h = rw h refl
scan-append (x ∷ s) c n h = elim (Bool-cases (is_digit x)) [
  | inl e ↦ rw e (scan-append s c (10 * n + (x - b'0')) h)
  | inr e ↦ rw e refl
]

scan-digits : (fuel n : ℕ) → n < fuel → scan (digits fuel n) 0 ≡ some n
unfolding digits
scan-digits zero n h = elim h [ ]
scan-digits (suc fuel) n h = elim (Bool-cases (ltb n 10)) [
  | inl e ↦ rw e (unfold scan in ground arith)
  | inr e ↦
      rw
        (
          e,
          scan-append (digits fuel (n / 10)) (b'0' + n % 10) 0 (ground arith),
          scan-digits fuel (n / 10) (ground arith),
        )
        (ap some (omega arith))
]

-- What is printed is not empty and starts with a digit.
abbrev StartsWithDigit : Text → Type 0
StartsWithDigit [] = ⊥
StartsWithDigit (c ∷ t) = is_digit c ≡ true

StartsWithDigit-append : (s t : Text) → StartsWithDigit s → StartsWithDigit (s ++ t)
StartsWithDigit-append [] t h = elim h [ ]
StartsWithDigit-append (c ∷ s) t h = h

digits-StartsWithDigit : (fuel n : ℕ) → n < fuel → StartsWithDigit (digits fuel n)
unfolding digits
digits-StartsWithDigit zero n h = elim h [ ]
digits-StartsWithDigit (suc fuel) n h = elim (Bool-cases (ltb n 10)) [
  | inl e ↦ rw e (ground arith)
  | inr e ↦ rw e (
      StartsWithDigit-append (digits fuel (n / 10)) ((b'0' + n % 10) ∷ [])
        (digits-StartsWithDigit fuel (n / 10) (ground arith)))
]

parse_started : (s : Text) (n : ℕ) → StartsWithDigit s → scan s 0 ≡ some n → parse_ℕ s ≡ some n
parse_started [] n d h = elim d [ ]
parse_started (c ∷ s) n d h = h

signed_started :
    (s : Text) (n : ℕ) → StartsWithDigit s → scan s 0 ≡ some n → parse_ℤ s ≡ some (pos n)
unfolding parse_ℤ
signed_started [] n d h = elim d [ ]
signed_started (c ∷ s) n d h = ground (arith, h)

pub parse_ℤ-print_ℤ : (z : ℤ) → parse_ℤ (print_ℤ z) ≡ some z
unfolding print_ℤ print_ℕ
parse_ℤ-print_ℤ (pos n) =
    signed_started (digits (suc n) n) n (digits-StartsWithDigit (suc n) n (omega arith))
      (scan-digits (suc n) n (omega arith))
parse_ℤ-print_ℤ (negsuc n) =
    unfold parse_ℤ in
    ap (map_option minus) (
      parse_started (digits (suc (suc n)) (suc n)) (suc n)
        (digits-StartsWithDigit (suc (suc n)) (suc n) (omega arith))
        (scan-digits (suc (suc n)) (suc n) (omega arith)))

pub parse_i64-print_ℤ : (z : ℤ) → IsI64 z → parse_i64 (print_ℤ z) ≡ some z
unfolding parse_i64
parse_i64-print_ℤ z h = rw (parse_ℤ-print_ℤ z) (ground arith)

pub parse_i128-print_ℤ : (z : ℤ) → IsI128 z → parse_i128 (print_ℤ z) ≡ some z
unfolding parse_i128
parse_i128-print_ℤ z h = rw (parse_ℤ-print_ℤ z) (ground arith)

-- Nothing but characters above the space
abbrev pub IsPrintable : Text → Type 0
IsPrintable [] = Unit
IsPrintable (c ∷ t) = (32 < c) × IsPrintable t

IsPrintable-append : (s t : Text) → IsPrintable s → IsPrintable t → IsPrintable (s ++ t)
IsPrintable-append [] t h k = k
IsPrintable-append (c ∷ s) t h k = (h.0, IsPrintable-append s t h.1 k)

digits-IsPrintable : (fuel n : ℕ) → IsPrintable (digits fuel n)
unfolding digits
digits-IsPrintable zero n = tt
digits-IsPrintable (suc fuel) n = elim (Bool-cases (ltb n 10)) [
  | inl e ↦ rw e (omega arith, tt)
  | inr e ↦ rw e (
      IsPrintable-append (digits fuel (n / 10)) ((b'0' + n % 10) ∷ [])
        (digits-IsPrintable fuel (n / 10)) (omega arith, tt))
]

pub print_ℤ-IsPrintable : (z : ℤ) → IsPrintable (print_ℤ z)
unfolding print_ℤ print_ℕ
print_ℤ-IsPrintable (pos n) = digits-IsPrintable (suc n) n
print_ℤ-IsPrintable (negsuc n) = (omega arith, digits-IsPrintable (suc (suc n)) (suc n))
