-- ===== src/Base/Decimal/Padded.antt =====
-- Decimal numbers with zeros in front.
use robocpp.Base.{
  ℕ, zero, suc, ◌+◌, ◌/◌, ◌%◌, ◌<◌, ◌≡◌, refl, ◌∙◌, true, some, [], ◌∷◌, ◌++◌, arith, ltb,
  replicate, Bool-cases, inl, inr,
}
use robocpp.Base.Decimal.{
  digits, print_ℕ, scan, parse_i64, scan-digits, StartsWithDigit, digits-StartsWithDigit,
  signed_started,
}
use robocpp.Base.Int.{pos}
use robocpp.Base.Text.{Text, is_digit}

scan-zeros : (k : ℕ) (s : Text) → scan (replicate k b'0' ++ s) 0 ≡ scan s 0
unfolding scan
scan-zeros zero s = refl
scan-zeros (suc k) s = scan-zeros k s

zeros-StartsWithDigit :
    (k : ℕ) (s : Text) → StartsWithDigit s → StartsWithDigit (replicate k b'0' ++ s)
zeros-StartsWithDigit zero s h = h
zeros-StartsWithDigit (suc k) s h = refl

pub parse_i64-padded :
    (k n : ℕ) → n < 0x8000_0000_0000_0000 → parse_i64 (replicate k b'0' ++ print_ℕ n) ≡ some (pos n)
unfolding parse_i64 print_ℕ
parse_i64-padded k n h =
    let started =
      zeros-StartsWithDigit k (print_ℕ n) (digits-StartsWithDigit (suc n) n (omega arith)) in
    let scanned = scan-zeros k (print_ℕ n) ∙ scan-digits (suc n) n (omega arith) in
    rw (signed_started (replicate k b'0' ++ print_ℕ n) n started scanned) (ground arith)

abbrev pub AllDigits : Text → Type 0
AllDigits [] = Unit
AllDigits (c ∷ s) = (is_digit c ≡ true) × AllDigits s

AllDigits-append : (s t : Text) → AllDigits s → AllDigits t → AllDigits (s ++ t)
AllDigits-append [] t h k = k
AllDigits-append (c ∷ s) t h k = (h.0, AllDigits-append s t h.1 k)

digits-AllDigits : (fuel n : ℕ) → AllDigits (digits fuel n)
unfolding digits
digits-AllDigits zero n = tt
digits-AllDigits (suc fuel) n = elim (Bool-cases (ltb n 10)) [
  | inl e ↦ rw e (ground arith, tt)
  | inr e ↦ rw e (
      AllDigits-append (digits fuel (n / 10)) ((b'0' + n % 10) ∷ [])
        (digits-AllDigits fuel (n / 10)) (ground arith, tt))
]

pub padded-AllDigits : (k n : ℕ) → AllDigits (replicate k b'0' ++ print_ℕ n)
unfolding print_ℕ
padded-AllDigits zero n = digits-AllDigits (suc n) n
padded-AllDigits (suc k) n = (refl, padded-AllDigits k n)
