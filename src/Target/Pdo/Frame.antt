-- ===== src/Target/Pdo/Frame.antt =====
-- What a write of a process data point leaves alone, crates/rbcpp_target/src/lib.rs.
use robocpp.Base.{
  not, ℕ, ◌+◌, ◌<◌, ◌≤◌, ◌≡◌, refl, ◌⊎◌, inl, inr, Bool, List, arith, length, get_or, set,
  length-set, get_or-set_ne, Bool-cases, leb, ltb, ◌||◌,
}
use robocpp.Ir.Value.{Floats, Value}
use robocpp.Target.Pdo.Bytes.{put_le_bytes, length-put_le_bytes, get_or-put_le_bytes}
use robocpp.Target.Pdo.Image.{
  area_writable, EtherCatValueType, bool, u8, i8, u16, i16, u32, i32, u64, i64, byte_len,
  EtherCatPdoPoint, write_bit, write_typed, write_pdo_value, EtherCatPdoImage, write_point,
}

-- `new` differs from `old` only inside the window of `len` bytes at `o`.
pub record Framed (o len : ℕ) (old new : List ℕ) : Type 0 where
  pub same_length : length new ≡ length old
  pub same_outside : (i : ℕ) → (i < o) ⊎ (o + len ≤ i) → get_or new i 0 ≡ get_or old i 0

unchanged : (o len : ℕ) (bytes : List ℕ) → Framed o len bytes bytes
unchanged o len bytes = record { same_length = refl; same_outside = λ i h. refl }

set-Framed : (o n : ℕ) (bytes : List ℕ) → Framed o 1 bytes (set bytes o n)
set-Framed o n bytes = record {
  same_length = length-set bytes o n;
  same_outside = λ i h.
      get_or-set_ne bytes o i n 0 (λ e. elim h [ inl l ↦ omega arith | inr l ↦ omega arith ]);
}

put-Framed : (len o n : ℕ) (bytes : List ℕ) → Framed o len bytes (put_le_bytes len o n bytes)
put-Framed len o n bytes = record {
  same_length = length-put_le_bytes len o n bytes;
  same_outside = λ i h. get_or-put_le_bytes len o n i bytes h;
}

write_bit-Framed :
    (bytes : List ℕ) (o bit : ℕ) (x : Bool) → Framed o 1 bytes (write_bit bytes o bit x).1
write_bit-Framed bytes o bit x = elim (Bool-cases (leb 8 bit || leb (length bytes) o)) [
  | inl e ↦ rw e (unchanged o 1 bytes)
  | inr e ↦ rw e (set-Framed o _ bytes)
]

module _ {F : Floats} where
  pub write_typed-Framed :
      (ty : EtherCatValueType) (bytes : List ℕ) (o bit : ℕ) (v : Value F)
      → Framed o (byte_len ty) bytes (write_typed ty bytes o bit v).1
  write_typed-Framed bool bytes o bit v = write_bit-Framed bytes o bit _
  write_typed-Framed u8 bytes o bit v = set-Framed o _ bytes
  write_typed-Framed i8 bytes o bit v = set-Framed o _ bytes
  write_typed-Framed u16 bytes o bit v = put-Framed 2 o _ bytes
  write_typed-Framed i16 bytes o bit v = put-Framed 2 o _ bytes
  write_typed-Framed u32 bytes o bit v = put-Framed 4 o _ bytes
  write_typed-Framed i32 bytes o bit v = put-Framed 4 o _ bytes
  write_typed-Framed u64 bytes o bit v = put-Framed 8 o _ bytes
  write_typed-Framed i64 bytes o bit v = put-Framed 8 o _ bytes

  pub write_pdo_value-Framed :
      (bytes : List ℕ) (p : EtherCatPdoPoint) (v : Value F)
      → Framed p.byte_offset (byte_len p.value_type) bytes (write_pdo_value bytes p v).1
  unfolding write_pdo_value
  write_pdo_value-Framed bytes p v =
      elim (Bool-cases (ltb (length bytes) (p.byte_offset + byte_len p.value_type))) [
        | inl e ↦ rw e (unchanged _ _ bytes)
        | inr e ↦ rw e (write_typed-Framed p.value_type bytes p.byte_offset p.bit_offset v)
      ]

  -- A write of the image never changes an input byte, never changes how many output bytes there
  -- are, and changes an output byte only inside the window of the point that is written.
  pub write_point_frame :
      (p : EtherCatPdoPoint) (v : Value F) (image : EtherCatPdoImage)
      → ((write_point p v image).1.inputs ≡ image.inputs)
        × Framed p.byte_offset
            (byte_len p.value_type)
            image.outputs
            (write_point p v image).1.outputs
  unfolding write_point
  write_point_frame p v image = elim (Bool-cases (not (area_writable p.area))) [
    | inl e ↦ rw e (refl, unchanged _ _ image.outputs)
    | inr e ↦ rw e (refl, write_pdo_value-Framed image.outputs p v)
  ]
