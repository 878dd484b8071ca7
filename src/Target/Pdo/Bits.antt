-- ===== src/Target/Pdo/Bits.antt =====
-- One bit of a byte: `b & (1 << k) != 0`, `b |= 1 << k` and `b &= !(1 << k)`, as
-- crates/rbcpp_target/src/lib.rs uses them.
use robocpp.Base.{
  ℕ, zero, suc, ◌+◌, ◌*◌, ◌%◌, ◌/◌, ◌≡◌, ◌≢◌, refl, ap, Bool, arith, ◌==◌, if◌then◌else◌,
}

unfoldable pub test_bit : ℕ → ℕ → Bool
test_bit zero b = b % 2 == 1
test_bit (suc k) b = test_bit k (b / 2)

unfoldable pub assign_bit : ℕ → Bool → ℕ → ℕ
assign_bit zero v b = 2 * (b / 2) + (if v then 1 else 0)
assign_bit (suc k) v b = b % 2 + 2 * assign_bit k v (b / 2)

half_assign : (k : ℕ) (v : Bool) (b : ℕ) → assign_bit (suc k) v b / 2 ≡ assign_bit k v (b / 2)
unfolding assign_bit
half_assign k v b = omega arith

pub test_bit-assign_bit_self : (k : ℕ) (v : Bool) (b : ℕ) → test_bit k (assign_bit k v b) ≡ v
unfolding test_bit assign_bit
test_bit-assign_bit_self zero v b = ground arith
test_bit-assign_bit_self (suc k) v b = rw (half_assign k v b) (test_bit-assign_bit_self k v (b / 2))

pub test_bit-assign_bit_ne :
    (k j : ℕ) (v : Bool) (b : ℕ) → k ≢ j → test_bit j (assign_bit k v b) ≡ test_bit j b
unfolding test_bit assign_bit
test_bit-assign_bit_ne zero zero v b h = absurd (h refl)
test_bit-assign_bit_ne zero (suc j) v b h = ap (test_bit j) (ground arith)
test_bit-assign_bit_ne (suc k) zero v b h = ground arith
test_bit-assign_bit_ne (suc k) (suc j) v b h =
    rw (half_assign k v b) (test_bit-assign_bit_ne k j v (b / 2) (λ e. h (ap suc e)))
