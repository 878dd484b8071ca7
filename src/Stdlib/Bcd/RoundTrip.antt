-- ===== src/Stdlib/Bcd/RoundTrip.antt =====
-- Numbers through their binary coded decimals and back.
use robocpp.Base.{ℕ, zero, suc, ◌+◌, ◌*◌, ◌/◌, ◌%◌, Option, none, some}

-- 10 to a power and 16 to a power, computed at numerals.
abbrev pub tens : ℕ → ℕ
tens zero = 1
tens (suc k) = 10 * tens k

abbrev pub sixteens : ℕ → ℕ
sixteens zero = 1
sixteens (suc k) = 16 * sixteens k

-- The number whose digits in base 16 are the last `k` decimal digits of `n`.
abbrev pub coded : ℕ → ℕ → ℕ
coded zero n = 0
coded (suc k) n = n % 10 + 16 * coded k (n / 10)

-- The numbers of digits that the conversions ask for: none, or those of a bit string type.
pub data Capacity : Option ℕ → Type 0 where
  any : Capacity none
  byte : Capacity (some 2)
  word : Capacity (some 4)
  dword : Capacity (some 8)
  lword : Capacity (some 16)
