-- ===== src/Target/Pdo/Widths.antt =====
-- The numbers that each width of crates/rbcpp_target/src/lib.rs holds, in bits and back.
use robocpp.Base.{◌≡◌, ◌%◌, arith, if◌then◌else◌, leb}
use robocpp.Base.Int.{ℤ, pos, negsuc, pos_part, clamp, max_ℤ, to_bits, of_bits, IsI64}
use robocpp.Target.Pdo.Image.{low, high, u8, i8, u16, i16, u32, i32}

-- Each width gives a number in its range back from its bits.
pub bits_u8 : (z : ℤ) → pos (to_bits 256 (clamp (low u8) (high u8) z)) ≡ clamp (low u8) (high u8) z
bits_u8 (pos n) = ground arith
bits_u8 (negsuc n) = ground arith

pub bits_i8 :
    (z : ℤ) → of_bits 128 (to_bits 256 (clamp (low i8) (high i8) z)) ≡ clamp (low i8) (high i8) z
bits_i8 (pos n) = ground arith
bits_i8 (negsuc n) = ground arith

pub bits_u16 :
    (z : ℤ)
    → pos (to_bits 0x1_0000_0000_0000_0000 (clamp (low u16) (high u16) z) % 65536)
      ≡ clamp (low u16) (high u16) z
bits_u16 (pos n) = ground arith
bits_u16 (negsuc n) = ground arith

pub bits_i16 :
    (z : ℤ)
    → of_bits 32768 (to_bits 0x1_0000_0000_0000_0000 (clamp (low i16) (high i16) z) % 65536)
      ≡ clamp (low i16) (high i16) z
bits_i16 (pos n) = ground arith
bits_i16 (negsuc n) = ground arith

pub bits_u32 :
    (z : ℤ)
    → pos (to_bits 0x1_0000_0000_0000_0000 (clamp (low u32) (high u32) z) % 4294967296)
      ≡ clamp (low u32) (high u32) z
bits_u32 (pos n) = ground arith
bits_u32 (negsuc n) = ground arith

pub bits_i32 :
    (z : ℤ)
    → of_bits 2147483648
        (to_bits 0x1_0000_0000_0000_0000 (clamp (low i32) (high i32) z) % 4294967296)
      ≡ clamp (low i32) (high i32) z
bits_i32 (pos n) = ground arith
bits_i32 (negsuc n) = ground arith

pub bits_u64 :
    (z : ℤ)
    → IsI64 z
    → pos (
        if leb (pos_part (max_ℤ z (pos 0)) % 0x1_0000_0000_0000_0000) 0x7fff_ffff_ffff_ffff
        then pos_part (max_ℤ z (pos 0)) % 0x1_0000_0000_0000_0000
        else 0x7fff_ffff_ffff_ffff)
      ≡ max_ℤ z (pos 0)
bits_u64 (pos n) h = ground arith
bits_u64 (negsuc n) h = ground arith

pub bits_i64 :
    (z : ℤ)
    → IsI64 z
    → of_bits 0x8000_0000_0000_0000 (to_bits 0x1_0000_0000_0000_0000 z % 0x1_0000_0000_0000_0000)
      ≡ z
bits_i64 (pos n) h = ground arith
bits_i64 (negsuc n) h = ground arith
