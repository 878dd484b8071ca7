-- ===== src/Target/Pdo/Image.antt =====
-- EtherCAT process data points, the image and its reads and writes, crates/rbcpp_target/src/lib.rs.
-- A slice of bytes is a list of numbers below 256. An access that Rust's bounds check would refuse
-- does not happen behind the guards, so `get_or` has 0 for it. `usize` sums are unbounded.
use robocpp.Base.{
  ℕ, ◌+◌, Bool, true, false, not, ◌||◌, Option, none, some, List, if◌then◌else◌, ltb, leb,
  unwrap_or, length, get_or, set, replicate,
}
use robocpp.Base.Int.{ℤ, pos, negsuc, pos_part, clamp, max_ℤ, to_bits, of_bits}
use robocpp.Ir.Value.{Floats, Value, int, as_bool, as_i64}
use robocpp.Target.Pdo.Bytes.{of_le_bytes, put_le_bytes}
use robocpp.Target.Pdo.Bits.{test_bit, assign_bit}

pub data EtherCatArea : Type 0 where
  input output : EtherCatArea

pub data EtherCatValueType : Type 0 where
  bool u8 i8 u16 i16 u32 i32 u64 i64 : EtherCatValueType

abbrev pub area_writable : EtherCatArea → Bool
area_writable output = true
area_writable input = false

abbrev pub byte_len : EtherCatValueType → ℕ
byte_len bool = 1
byte_len u8 = 1
byte_len i8 = 1
byte_len u16 = 2
byte_len i16 = 2
byte_len u32 = 4
byte_len i32 = 4
byte_len u64 = 8
byte_len i64 = 8

pub record EtherCatPdoPoint : Type 0 where
  pub slave : ℕ
  pub index : ℕ
  pub subindex : ℕ
  pub area : EtherCatArea
  pub byte_offset : ℕ
  pub bit_offset : ℕ
  pub value_type : EtherCatValueType

abbrev pub read_bit : List ℕ → ℕ → ℕ → Option Bool
read_bit bytes byte_offset bit_offset =
    if ltb bit_offset 8
    then if ltb byte_offset (length bytes)
      then some (test_bit bit_offset (get_or bytes byte_offset 0))
      else none
    else none

abbrev pub write_bit : List ℕ → ℕ → ℕ → Bool → Bool × List ℕ
write_bit bytes byte_offset bit_offset value =
    if leb 8 bit_offset || leb (length bytes) byte_offset
    then (false, bytes)
    else (true, set bytes byte_offset (assign_bit bit_offset value (get_or bytes byte_offset 0)))

-- The limits `i16::MIN`, `i32::MIN` and `i8::MIN` are -(n + 1) for `negsuc n`.
abbrev pub low : EtherCatValueType → ℤ
low i8 = negsuc 127
low i16 = negsuc 32767
low i32 = negsuc 2147483647
low _ = pos 0

abbrev pub high : EtherCatValueType → ℤ
high u8 = pos 255
high i8 = pos 127
high u16 = pos 65535
high i16 = pos 32767
high u32 = pos 4294967295
high _ = pos 2147483647

module _ {F : Floats} where
  -- The value as an `i64`, 0 for one that is no number.
  abbrev pub number : Value F → ℤ
  number v = unwrap_or (pos 0) (as_i64 v)

  abbrev pub read_typed : EtherCatValueType → List ℕ → ℕ → ℕ → Option (Value F)
  read_typed bool bytes o bit = elim (read_bit bytes o bit) [
    | none ↦ none
    | some b ↦ some (Value.bool b)
  ]
  read_typed u8 bytes o bit = some (int (pos (get_or bytes o 0)))
  read_typed i8 bytes o bit = some (int (of_bits 128 (get_or bytes o 0)))
  read_typed u16 bytes o bit = some (int (pos (of_le_bytes 2 o bytes)))
  read_typed i16 bytes o bit = some (int (of_bits 32768 (of_le_bytes 2 o bytes)))
  read_typed u32 bytes o bit = some (int (pos (of_le_bytes 4 o bytes)))
  read_typed i32 bytes o bit = some (int (of_bits 2147483648 (of_le_bytes 4 o bytes)))
  read_typed u64 bytes o bit =
      let n = of_le_bytes 8 o bytes in
      some (int (pos (if leb n 0x7fff_ffff_ffff_ffff then n else 0x7fff_ffff_ffff_ffff)))
  read_typed i64 bytes o bit = some (int (of_bits 0x8000_0000_0000_0000 (of_le_bytes 8 o bytes)))

  unfoldable pub read_pdo_value : List ℕ → EtherCatPdoPoint → Option (Value F)
  read_pdo_value bytes p =
      if ltb (length bytes) (p.byte_offset + byte_len p.value_type)
      then none
      else read_typed p.value_type bytes p.byte_offset p.bit_offset

  -- `write_int_bytes`: the low `len` bytes of the clamped value's `to_le_bytes`.
  abbrev pub write_int_bytes : List ℕ → ℕ → Value F → ℤ → ℤ → ℕ → Bool × List ℕ
  write_int_bytes bytes o v lo hi len =
      (true, put_le_bytes len o (to_bits 0x1_0000_0000_0000_0000 (clamp lo hi (number v))) bytes)

  abbrev pub write_typed : EtherCatValueType → List ℕ → ℕ → ℕ → Value F → Bool × List ℕ
  write_typed bool bytes o bit v = write_bit bytes o bit (unwrap_or false (as_bool v))
  write_typed u8 bytes o bit v =
      (true, set bytes o (to_bits 256 (clamp (low u8) (high u8) (number v))))
  write_typed i8 bytes o bit v =
      (true, set bytes o (to_bits 256 (clamp (low i8) (high i8) (number v))))
  write_typed u16 bytes o bit v = write_int_bytes bytes o v (low u16) (high u16) 2
  write_typed i16 bytes o bit v = write_int_bytes bytes o v (low i16) (high i16) 2
  write_typed u32 bytes o bit v = write_int_bytes bytes o v (low u32) (high u32) 4
  write_typed i32 bytes o bit v = write_int_bytes bytes o v (low i32) (high i32) 4
  write_typed u64 bytes o bit v =
      (true, put_le_bytes 8 o (pos_part (max_ℤ (number v) (pos 0))) bytes)
  write_typed i64 bytes o bit v =
      (true, put_le_bytes 8 o (to_bits 0x1_0000_0000_0000_0000 (number v)) bytes)

  unfoldable pub write_pdo_value : List ℕ → EtherCatPdoPoint → Value F → Bool × List ℕ
  write_pdo_value bytes p v =
      if ltb (length bytes) (p.byte_offset + byte_len p.value_type)
      then (false, bytes)
      else write_typed p.value_type bytes p.byte_offset p.bit_offset v

pub record EtherCatPdoImage : Type 0 where
  pub inputs : List ℕ
  pub outputs : List ℕ

abbrev pub new_image : ℕ → ℕ → EtherCatPdoImage
new_image input_bytes output_bytes = record {
  inputs = replicate input_bytes 0;
  outputs = replicate output_bytes 0;
}

abbrev pub area_bytes : EtherCatArea → EtherCatPdoImage → List ℕ
area_bytes input image = image.inputs
area_bytes output image = image.outputs

module _ {F : Floats} where
  -- `EtherCatPdoImage::read`
  unfoldable pub read_point : EtherCatPdoPoint → EtherCatPdoImage → Option (Value F)
  read_point p image = read_pdo_value (area_bytes p.area image) p

  unfoldable pub write_input_for_simulation :
      EtherCatPdoPoint → Value F → EtherCatPdoImage → Bool × EtherCatPdoImage
  write_input_for_simulation p v image =
      let (done, bytes) = write_pdo_value image.inputs p v in
      (done, record image { inputs = bytes })

  -- `EtherCatPdoImage::write`
  unfoldable pub write_point :
      EtherCatPdoPoint → Value F → EtherCatPdoImage → Bool × EtherCatPdoImage
  write_point p v image =
      if not (area_writable p.area)
      then (false, image)
      else let (done, bytes) = write_pdo_value image.outputs p v in
        (done, record image { outputs = bytes })
