-- ===== src/Stdlib/Bcd.antt =====
-- Binary coded decimals, crates/iec_stdlib/src/lib.rs. The numbers of the loops are not negative.
pub mod RoundTrip
use robocpp.Base.{
  ℕ, zero, suc, ◌+◌, ◌*◌, ◌/◌, ◌%◌, ◌^◌, Bool, true, false, not, ◌&&◌, Option, none, some,
  if◌then◌else◌, ltb, leb, ◌==◌, unwrap_or,
}
use robocpp.Base.Int.{ℤ, pos, negsuc}
use robocpp.Base.Text.{Text, codes, eqb}
use robocpp.Stdlib.Args.{◌>>=◌, ◌>>◌, guard}
use robocpp.Stdlib.Bits.{of_u64}

-- The result of a checked operation on an `i64`.
abbrev pub checked_i64 : ℕ → Option ℕ
checked_i64 n = if ltb n 0x8000_0000_0000_0000 then some n else none

-- One round of the loop: the digit at `place` is added.
abbrev pub add_digit : ℕ → ℕ → ℕ → Option (ℕ × ℕ)
add_digit digit result place = do
  guard (not (ltb 9 digit))
  product ← checked_i64 (digit * place)
  sum ← checked_i64 (result + product)
  next ← checked_i64 (place * 10)
  some (sum, next)

-- `while raw != 0`. A `u64` has 16 digits of four bits, so 16 rounds are enough.
unfoldable pub bcd_rounds : ℕ → ℕ → ℕ → ℕ → Option ℕ
bcd_rounds zero raw result place = if raw == 0 then some result else none
bcd_rounds (suc fuel) raw result place =
    let later =
      add_digit (raw % 16) result place >>= λ (sum, next). bcd_rounds fuel (raw / 16) sum next in
    if raw == 0 then some result else later

-- `raw & !mask == 0`: nothing but the digits is set.
abbrev pub fits_digits : Option ℕ → ℕ → Bool
fits_digits none raw = true
fits_digits (some digits) raw = if leb 64 (digits * 4) then true else ltb raw (2 ^ (digits * 4))

unfoldable pub bcd_to_int : ℤ → Option ℕ → Option ℤ
unfolding bcd_rounds
bcd_to_int (negsuc n) digits = none
bcd_to_int (pos raw) digits = do
  guard (fits_digits digits raw)
  result ← bcd_rounds 16 raw 0 1
  some (pos result)

-- `while decimal != 0`, with the digits that are left. The bits of `digit << (used_digits * 4)` are above
-- those of `raw`, so that `|=` adds them.
unfoldable pub decimal_rounds : ℕ → ℕ → ℕ → ℕ → Option ℕ
decimal_rounds zero used decimal raw = if decimal == 0 then some raw else none
decimal_rounds (suc left) used decimal raw =
    let later = decimal_rounds left (suc used) (decimal / 10) (raw + decimal % 10 * 16 ^ used) in
    if decimal == 0 then some raw else later

unfoldable pub int_to_bcd : ℤ → Option ℕ → Option ℤ
unfolding decimal_rounds
int_to_bcd (negsuc n) digits = none
int_to_bcd (pos value) digits = do
  raw ← decimal_rounds (unwrap_or 16 digits) 0 value 0
  some (of_u64 raw)

unfoldable pub bcd_digit_capacity : Text → Option ℕ
bcd_digit_capacity name =
    if eqb name (codes "BYTE")
    then some 2
    else if eqb name (codes "WORD")
    then some 4
    else if eqb name (codes "DWORD")
    then some 8
    else if eqb name (codes "LWORD")
    then some 16
    else none
