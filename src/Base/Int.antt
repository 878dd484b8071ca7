-- ===== src/Base/Int.antt =====
-- Signed integers over the native numbers, under the library's names, and the wrap-around of the
-- machine integers `i64` and `i128`.
use robocpp.Base.{
  zero, ◌&&◌, Option, none, some, ℕ, suc, ◌+◌, ◌-◌, ◌*◌, ◌/◌, ◌%◌, ◌^◌, ◌≤◌, ◌<◌, ◌≡◌, refl, Bool,
  true, false, arith, ltb, leb, if◌then◌else◌, ◌==◌,
}

-- `negsuc n` is -(n + 1).
pub data ℤ : Type 0 where
  pos : ℕ → ℤ
  negsuc : ℕ → ℤ

abbrev pub pos_part : ℤ → ℕ
pos_part (pos n) = n
pos_part (negsuc n) = 0

abbrev pub neg_part : ℤ → ℕ
neg_part (pos n) = 0
neg_part (negsuc n) = suc n

-- a - b, as an integer.
abbrev pub sub_ℕ : ℕ → ℕ → ℤ
sub_ℕ a b = if leb b a then pos (a - b) else negsuc (b - a - 1)

infixl 65 ◌+ℤ◌ ◌-ℤ◌
infix 50 ◌≤ℤ◌
unfoldable pub ◌+ℤ◌ : ℤ → ℤ → ℤ
a +ℤ b = sub_ℕ (pos_part a + pos_part b) (neg_part a + neg_part b)

unfoldable pub ◌-ℤ◌ : ℤ → ℤ → ℤ
a -ℤ b = sub_ℕ (pos_part a + neg_part b) (neg_part a + pos_part b)

abbrev pub ◌≤ℤ◌ : ℤ → ℤ → Type 0
a ≤ℤ b = pos_part a + neg_part b ≤ pos_part b + neg_part a

abbrev pub leb_ℤ : ℤ → ℤ → Bool
leb_ℤ a b = leb (pos_part a + neg_part b) (pos_part b + neg_part a)

abbrev pub eqb_ℤ : ℤ → ℤ → Bool
eqb_ℤ a b = pos_part a + neg_part b == pos_part b + neg_part a

abbrev pub min_ℤ : ℤ → ℤ → ℤ
min_ℤ a b = if leb_ℤ a b then a else b

abbrev pub max_ℤ : ℤ → ℤ → ℤ
max_ℤ a b = if leb_ℤ a b then b else a

-- Rust's `clamp`, for `low ≤ high`.
abbrev pub clamp : ℤ → ℤ → ℤ → ℤ
clamp low high x = if leb_ℤ x low then low else if leb_ℤ high x then high else x

-- The bit pattern of an integer at a width whose modulus is `m`, and the integer of a pattern.
abbrev pub to_bits : ℕ → ℤ → ℕ
to_bits m (pos n) = n % m
to_bits m (negsuc n) = m - 1 - n % m

-- `half` is 2 ^ (w - 1).
abbrev pub of_bits : ℕ → ℕ → ℤ
of_bits half x = if ltb x half then pos x else negsuc (2 * half - 1 - x)

-- Two's complement wrap-around.
unfoldable pub wrap_i64 : ℤ → ℤ
wrap_i64 z = of_bits 0x8000_0000_0000_0000 (to_bits 0x1_0000_0000_0000_0000 z)

unfoldable pub wrap_i128 : ℤ → ℤ
wrap_i128 z = of_bits (2 ^ 127) (to_bits (2 ^ 128) z)

abbrev pub IsI64 : ℤ → Type 0
IsI64 z = (pos_part z < 0x8000_0000_0000_0000) × (neg_part z ≤ 0x8000_0000_0000_0000)

abbrev pub IsI128 : ℤ → Type 0
IsI128 z = (pos_part z < 2 ^ 127) × (neg_part z ≤ 2 ^ 127)

pub wrap_i64_id : (z : ℤ) → IsI64 z → wrap_i64 z ≡ z
unfolding wrap_i64
wrap_i64_id (pos n) h = ground arith
wrap_i64_id (negsuc n) h = ground arith

pub wrap_i128_id : (z : ℤ) → IsI128 z → wrap_i128 z ≡ z
unfolding wrap_i128
wrap_i128_id (pos n) h = ground arith
wrap_i128_id (negsuc n) h = ground arith

pub wrap_i64-IsI64 : (z : ℤ) → IsI64 (wrap_i64 z)
unfolding wrap_i64
wrap_i64-IsI64 (pos n) = ground arith
wrap_i64-IsI64 (negsuc n) = ground arith

pub +ℤ_parts :
    (a b : ℤ)
    → pos_part (a +ℤ b) + neg_part a + neg_part b ≡ neg_part (a +ℤ b) + pos_part a + pos_part b
unfolding ◌+ℤ◌
+ℤ_parts a b = ground arith

pub -ℤ_parts :
    (a b : ℤ)
    → pos_part (a -ℤ b) + neg_part a + pos_part b ≡ neg_part (a -ℤ b) + pos_part a + neg_part b
unfolding ◌-ℤ◌
-ℤ_parts a b = ground arith

pub eq_of_parts : (a b : ℤ) → pos_part a + neg_part b ≡ pos_part b + neg_part a → a ≡ b
eq_of_parts a b h = ground arith

pub ruleset int_laws = (arith, +ℤ_parts, -ℤ_parts, eq_of_parts)

infixl 70 ◌*ℤ◌
unfoldable pub ◌*ℤ◌ : ℤ → ℤ → ℤ
a *ℤ b =
    sub_ℕ (pos_part a * pos_part b + neg_part a * neg_part b)
      (pos_part a * neg_part b + neg_part a * pos_part b)

-- Division and remainder that round to 0, for a divisor that is not 0.
abbrev pub abs : ℤ → ℕ
abs z = pos_part z + neg_part z

-- -n
abbrev pub minus : ℕ → ℤ
minus zero = pos 0
minus (suc n) = negsuc n

unfoldable pub quotient : ℤ → ℤ → ℤ
quotient (pos a) (pos b) = pos (a / b)
quotient (pos a) (negsuc b) = minus (a / suc b)
quotient (negsuc a) (pos b) = minus (suc a / b)
quotient (negsuc a) (negsuc b) = pos (suc a / suc b)

unfoldable pub remainder : ℤ → ℤ → ℤ
remainder (pos a) b = pos (a % abs b)
remainder (negsuc a) b = minus (suc a % abs b)

abbrev pub is_i64 : ℤ → Bool
is_i64 z = ltb (pos_part z) 0x8000_0000_0000_0000 && leb (neg_part z) 0x8000_0000_0000_0000

abbrev pub is_i128 : ℤ → Bool
is_i128 z = ltb (pos_part z) (2 ^ 127) && leb (neg_part z) (2 ^ 127)

-- The result of a checked operation, from the exact one.
abbrev pub checked : (ℤ → Bool) → ℤ → Option ℤ
checked fits z = if fits z then some z else none

pub checked-IsI64 : (z w : ℤ) → checked is_i64 z ≡ some w → IsI64 w
checked-IsI64 z w h = ground arith

pub checked-IsI128 : (z w : ℤ) → checked is_i128 z ≡ some w → IsI128 w
checked-IsI128 z w h = ground arith
