-- ===== src/Target/Pdo/Values.antt =====
-- What a process data point reads after a write, crates/rbcpp_target/src/lib.rs.
use robocpp.Base.{
  ℕ, ◌+◌, ◌<◌, ◌≤◌, ◌≡◌, refl, ap, ◌∙◌, Bool, true, false, some, List, arith, unwrap_or, length,
  get_or, set, ltb, leb, get_or-set_self, length-set, if◌then◌else◌,
}
use robocpp.Base.Int.{pos, clamp, max_ℤ, of_bits, IsI64}
use robocpp.Ir.Value.{Floats, Value, int, as_bool}
use robocpp.Target.Pdo.Bytes.{of_le_bytes-put_le_bytes}
use robocpp.Target.Pdo.Bits.{test_bit, assign_bit, test_bit-assign_bit_self}
use robocpp.Target.Pdo.Widths.{
  bits_u8, bits_i8, bits_u16, bits_i16, bits_u32, bits_i32, bits_u64, bits_i64,
}
use robocpp.Target.Pdo.Frame.{write_typed-Framed}
use robocpp.Target.Pdo.Image.{
  area_writable, area_bytes, output, EtherCatValueType, bool, u8, i8, u16, i16, u32, i32, u64, i64,
  byte_len, EtherCatPdoPoint, low, high, number, read_bit, write_bit, read_typed, read_pdo_value,
  write_typed, write_pdo_value, EtherCatPdoImage, read_point, write_point,
}

-- The window of a point lies inside the bytes, and its bit inside its byte.
abbrev pub Fits : EtherCatPdoPoint → List ℕ → Type 0
Fits p bytes = (p.byte_offset + byte_len p.value_type ≤ length bytes) × (p.bit_offset < 8)

read_bit_inside :
    (bytes : List ℕ) (o bit : ℕ)
    → bit < 8
    → o < length bytes
    → read_bit bytes o bit ≡ some (test_bit bit (get_or bytes o 0))
read_bit_inside bytes o bit b h = ground arith

write_bit_inside :
    (bytes : List ℕ) (o bit : ℕ) (x : Bool)
    → bit < 8
    → o < length bytes
    → write_bit bytes o bit x ≡ (true, set bytes o (assign_bit bit x (get_or bytes o 0)))
write_bit_inside bytes o bit x b h = ground arith

module _ {F : Floats} where
  -- What a point of the type keeps of a value: a bit, or the number clamped to the type's range.
  abbrev pub stored : EtherCatValueType → Value F → Value F
  stored bool v = Value.bool (unwrap_or false (as_bool v))
  stored u64 v = int (max_ℤ (number v) (pos 0))
  stored i64 v = int (number v)
  stored ty v = int (clamp (low ty) (high ty) (number v))

  module _ (bytes : List ℕ) (o bit : ℕ) (v : Value F) (range : IsI64 (number v)) (b : bit < 8) where
    abbrev Kept : EtherCatValueType → Type 0
    Kept ty =
        o + byte_len ty ≤ length bytes
        → ((write_typed ty bytes o bit v).0 ≡ true)
          × (read_typed {F = F} ty (write_typed ty bytes o bit v).1 o bit ≡ some (stored ty v))

    kept_bool : Kept bool
    kept_bool room =
        let x = unwrap_or false (as_bool v) in
        let here : o < length bytes = omega arith in
        let new = assign_bit bit x (get_or bytes o 0) in
        rw (write_bit_inside bytes o bit x b here) (
          refl,
          rw
              (
                read_typed,
                read_bit_inside (set bytes o new) o bit b (omega (arith, length-set bytes o new)),
              )
              (ap (λ n. some (Value.bool (test_bit bit n))) (get_or-set_self bytes o new 0 here)
                ∙ ap (λ t. some (Value.bool t))
                    (test_bit-assign_bit_self bit x (get_or bytes o 0))),
        )

    kept_u8 : Kept u8
    kept_u8 room = (
      refl,
      ap (λ n. some (int (pos n))) (get_or-set_self bytes o _ 0 (omega arith))
          ∙ ap (λ z. some (int z)) (bits_u8 (number v)),
    )

    kept_i8 : Kept i8
    kept_i8 room = (
      refl,
      ap (λ n. some (int (of_bits 128 n))) (get_or-set_self bytes o _ 0 (omega arith))
          ∙ ap (λ z. some (int z)) (bits_i8 (number v)),
    )

    kept_u16 : Kept u16
    kept_u16 room = (
      refl,
      ap (λ n. some (int (pos n))) (of_le_bytes-put_le_bytes 2 o _ bytes room)
          ∙ ap (λ z. some (int z)) (bits_u16 (number v)),
    )

    kept_i16 : Kept i16
    kept_i16 room = (
      refl,
      ap (λ n. some (int (of_bits 32768 n))) (of_le_bytes-put_le_bytes 2 o _ bytes room)
          ∙ ap (λ z. some (int z)) (bits_i16 (number v)),
    )

    kept_u32 : Kept u32
    kept_u32 room = (
      refl,
      ap (λ n. some (int (pos n))) (of_le_bytes-put_le_bytes 4 o _ bytes room)
          ∙ ap (λ z. some (int z)) (bits_u32 (number v)),
    )

    kept_i32 : Kept i32
    kept_i32 room = (
      refl,
      ap (λ n. some (int (of_bits 2147483648 n))) (of_le_bytes-put_le_bytes 4 o _ bytes room)
          ∙ ap (λ z. some (int z)) (bits_i32 (number v)),
    )

    kept_u64 : Kept u64
    kept_u64 room = (
      refl,
      ap (λ n. some (int (pos (if leb n 0x7fff_ffff_ffff_ffff then n else 0x7fff_ffff_ffff_ffff))))
            (of_le_bytes-put_le_bytes 8 o _ bytes room)
          ∙ ap (λ z. some (int z)) (bits_u64 (number v) range),
    )

    kept_i64 : Kept i64
    kept_i64 room = (
      refl,
      ap (λ n. some (int (of_bits 0x8000_0000_0000_0000 n)))
            (of_le_bytes-put_le_bytes 8 o _ bytes room)
          ∙ ap (λ z. some (int z)) (bits_i64 (number v) range),
    )

    kept : (ty : EtherCatValueType) → Kept ty
    kept bool = kept_bool
    kept u8 = kept_u8
    kept i8 = kept_i8
    kept u16 = kept_u16
    kept i16 = kept_i16
    kept u32 = kept_u32
    kept i32 = kept_i32
    kept u64 = kept_u64
    kept i64 = kept_i64

  pub pdo_value_kept :
      (bytes : List ℕ) (p : EtherCatPdoPoint) (v : Value F)
      → Fits p bytes
      → IsI64 (number v)
      → ((write_pdo_value bytes p v).0 ≡ true)
        × (read_pdo_value (write_pdo_value bytes p v).1 p ≡ some (stored p.value_type v))
  unfolding write_pdo_value read_pdo_value
  pdo_value_kept bytes p v fits range =
      let done = kept bytes p.byte_offset p.bit_offset v range fits.1 p.value_type fits.0 in
      let new = (write_typed p.value_type bytes p.byte_offset p.bit_offset v).1 in
      let inside : ltb (length bytes) (p.byte_offset + byte_len p.value_type) ≡ false =
        ground arith in
      let frame = write_typed-Framed p.value_type bytes p.byte_offset p.bit_offset v in
      let inside' : ltb (length new) (p.byte_offset + byte_len p.value_type) ≡ false =
        rw frame.same_length inside in
      rw inside (done.0, rw inside' done.1)

  -- A write of an output point whose window and bit lie inside the image is accepted, and the point
  -- then reads as the value made a bit or clamped to the point's type; the number must be an `i64`.
  pub pdo_read_write :
      (p : EtherCatPdoPoint) (v : Value F) (image : EtherCatPdoImage)
      → p.area ≡ output
      → Fits p image.outputs
      → IsI64 (number v)
      → ((write_point p v image).0 ≡ true)
        × (read_point p (write_point p v image).1 ≡ some (stored p.value_type v))
  unfolding write_point read_point write_pdo_value read_pdo_value
  pdo_read_write p v image out fits range =
      rw (out, area_writable, area_bytes) (pdo_value_kept image.outputs p v fits range)
