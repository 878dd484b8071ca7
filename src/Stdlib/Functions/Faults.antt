-- ===== src/Stdlib/Functions/Faults.antt =====
-- Inputs at which a standard function has a value that it should not have.
use robocpp.Base.{ℕ, ◌*◌, ◌/◌, ◌%◌, ap, ◌<◌, ◌≡◌, Bool, true, false, some, [], ◌∷◌, arith}
use robocpp.Base.Int.{ℤ, pos, negsuc, IsI64}
use robocpp.Ir.Value.{Floats, int}
use robocpp.Stdlib.Bits.{bit_shift, as_u64, of_u64, u64}

of_u64-as_u64 : (v : ℤ) → IsI64 v → of_u64 (as_u64 v) ≡ v
of_u64-as_u64 (pos n) h = ground arith
of_u64-as_u64 (negsuc n) h = ground arith

as_u64-lt : (v : ℤ) → as_u64 v < u64
as_u64-lt (pos n) = omega arith
as_u64-lt (negsuc n) = omega arith

-- A shift by a multiple of 2 ^ 32 places shifts nothing.
pub shift_wraps :
    {F : Floats} (v : ℤ) (k : ℕ) (right : Bool)
    → IsI64 v
    → bit_shift {F = F} (int v ∷ int (pos (k * 0x1_0000_0000)) ∷ []) right ≡ some (int v)
unfolding bit_shift
shift_wraps v k true h =
    let z : k * 0x1_0000_0000 % 0x1_0000_0000 ≡ 0 = omega arith in
    let e : as_u64 v / 1 ≡ as_u64 v = omega arith in
    rw z (rw e (ap (λ n. some (int n)) (of_u64-as_u64 v h)))
shift_wraps v k false h =
    let z : k * 0x1_0000_0000 % 0x1_0000_0000 ≡ 0 = omega arith in
    let e : as_u64 v * 1 % u64 ≡ as_u64 v = omega (arith, as_u64-lt v) in
    rw z (rw e (ap (λ n. some (int n)) (of_u64-as_u64 v h)))
