-- ===== src/Stdlib/Bits.antt =====
-- The functions on bit strings, crates/iec_stdlib/src/lib.rs. An `i64` is handled as the `u64` with the
-- same bits.
use robocpp.Base.{
  ℕ, ◌+◌, ◌-◌, ◌*◌, ◌/◌, ◌%◌, ◌^◌, Bool, true, false, not, ◌&&◌, Option, none, some, List, [], ◌∷◌,
  if◌then◌else◌, leb,
}
use robocpp.Base.Int.{ℤ, pos, negsuc, to_bits, of_bits}
use robocpp.Ir.Value.{Floats, Value, bool, int, as_bool, as_i64}
use robocpp.Stdlib.Args.{◌>>=◌, arg, count_of, is_bool}

abbrev pub u64 : ℕ
u64 = 0x1_0000_0000_0000_0000

-- `as u64` and `as i64`
abbrev pub as_u64 : ℤ → ℕ
as_u64 z = to_bits u64 z

abbrev pub of_u64 : ℕ → ℤ
of_u64 n = of_bits 0x8000_0000_0000_0000 n

-- A shift by less than 64 places.
abbrev pub shift_bits : Bool → ℕ → ℕ → ℕ
shift_bits true x s = x / 2 ^ s
shift_bits false x s = x * 2 ^ s % u64

-- `rotate_left` by less than 64 places; a rotation to the right is one to the left by the rest.
unfoldable pub rotate_left : ℕ → ℕ → ℕ
rotate_left x s = x * 2 ^ s % u64 + x / 2 ^ (64 - s)

unfoldable pub rotate_right : ℕ → ℕ → ℕ
rotate_right x s = x / 2 ^ s + x * 2 ^ (64 - s) % u64

abbrev pub not_bits : ℤ → ℤ
not_bits (pos n) = negsuc n
not_bits (negsuc n) = pos n

module _ {F : Floats} where
  -- `shift as u32` keeps the low 32 bits of the count.
  unfoldable pub bit_shift : List (Value F) → Bool → Option (Value F)
  bit_shift args right = do
    value ← arg args 0 >>= as_i64
    count ← count_of (arg args 1 >>= as_i64)
    let shift = count % 0x1_0000_0000
    some (int (if leb 64 shift then pos 0 else of_u64 (shift_bits right (as_u64 value) shift)))

  unfoldable pub bit_rotate : List (Value F) → Bool → Option (Value F)
  unfolding rotate_left rotate_right
  bit_rotate args right = do
    value ← arg args 0 >>= as_i64
    count ← count_of (arg args 1 >>= as_i64)
    let shift = count % 64
    some (
        int (
          of_u64 (
            if right then rotate_right (as_u64 value) shift else rotate_left (as_u64 value) shift)))

  abbrev fold_bools : (Bool → Bool → Bool) → Bool → List (Value F) → Option Bool
  fold_bools op current [] = some current
  fold_bools op current (v ∷ vs) = as_bool v >>= λ b. fold_bools op (op current b) vs

  abbrev fold_ints : (ℤ → ℤ → ℤ) → ℤ → List (Value F) → Option ℤ
  fold_ints op current [] = some current
  fold_ints op current (v ∷ vs) = as_i64 v >>= λ n. fold_ints op (op current n) vs

  abbrev all_bools : List (Value F) → Bool
  all_bools [] = true
  all_bools (v ∷ vs) = is_bool v && all_bools vs

  unfoldable pub bit_bool_fold :
      List (Value F) → (ℤ → ℤ → ℤ) → (Bool → Bool → Bool) → Option (Value F)
  bit_bool_fold [] int_op bool_op = none
  bit_bool_fold (v ∷ vs) int_op bool_op =
      if all_bools (v ∷ vs)
      then (as_bool v >>= λ b. fold_bools bool_op b vs >>= λ c. some (bool c))
      else (as_i64 v >>= λ n. fold_ints int_op n vs >>= λ m. some (int m))

  abbrev not_value : Value F → Option (Value F)
  not_value (bool b) = some (bool (not b))
  not_value v = as_i64 v >>= λ n. some (int (not_bits n))

  unfoldable pub bit_bool_not : List (Value F) → Option (Value F)
  bit_bool_not args = arg args 0 >>= not_value
