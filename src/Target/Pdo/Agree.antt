-- ===== src/Target/Pdo/Agree.antt =====
-- The EtherCAT HAL over a transport that is the process image against `EtherCatHal` over the same
-- image, crates/rbcpp_target/src/lib.rs.
use robocpp.Base.{
  ℕ, ◌+◌, ◌≤◌, ◌≡◌, refl, sym, ap, ◌∙◌, inl, inr, Bool, true, false, Bool-cases, Option, none, some,
  List, arith, if◌then◌else◌, ltb, leb, length, get_or, set, ◌||◌, length-set, and_then,
}
use robocpp.Base.Int.{pos, of_bits}
use robocpp.Base.Result.{Result, ok}
use robocpp.Ir.Value.{Floats, Value, int}
use robocpp.Target.Symbol.{IoSymbol, IoError, TargetHal}
use robocpp.Target.Pdo.Bytes.{of_le_bytes, put_le_bytes, length-put_le_bytes}
use robocpp.Target.Pdo.Image.{
  EtherCatArea, input, output, EtherCatValueType, u8, i8, u16, i16, u32, i32, u64, i64, byte_len,
  EtherCatPdoPoint, EtherCatPdoImage, area_bytes, read_typed, write_typed, read_bit, write_bit,
  read_pdo_value, write_pdo_value, read_point, write_point,
}
use robocpp.Target.Pdo.Hal.{
  EtherCatHal, pdo_point_for, pdo_read, pdo_write_found, pdo_write, ethercat_hal,
}
use robocpp.Target.Pdo.Slices.{
  slice, splice, get_or-slice, length-slice, of_le_bytes-slice, splice-slice, splice-set,
  splice-put_le_bytes,
}
use robocpp.Target.Pdo.Transport.{
  image_read_pdo, image_write_pdo, pdo_transport, EtherCatTransportHal, pdo_read_found, put_back,
  pdo_write_through_found, pdo_read_through, pdo_write_through, ethercat_transport_hal,
}

number_slice : (len o : ℕ) (xs : List ℕ) → of_le_bytes len 0 (slice o len xs) ≡ of_le_bytes len o xs
number_slice len o xs =
    of_le_bytes-slice len o len 0 xs (omega arith) ∙ ap (λ k. of_le_bytes len k xs) (omega arith)

byte_slice : (o : ℕ) (xs : List ℕ) → get_or (slice o 1 xs) 0 0 ≡ get_or xs o 0
byte_slice o xs = get_or-slice o 1 0 xs (omega arith) ∙ ap (λ k. get_or xs k 0) (omega arith)

bit_slice :
    (o bit : ℕ) (xs : List ℕ)
    → o + 1 ≤ length xs
    → read_bit (slice o 1 xs) 0 bit ≡ read_bit xs o bit
bit_slice o bit xs h = rw (byte_slice o xs, length-slice o 1 xs h) (ground arith)

put_slice :
    (len o m : ℕ) (xs : List ℕ)
    → o + len ≤ length xs
    → splice o (put_le_bytes len 0 m (slice o len xs)) xs ≡ put_le_bytes len o m xs
put_slice len o m xs h =
    splice-put_le_bytes len o 0 m (slice o len xs) xs (omega (arith, length-slice o len xs h))
      (omega (arith, length-slice o len xs h))
    ∙ ap (λ ys. put_le_bytes len (o + 0) m ys) (splice-slice o len xs)
    ∙ ap (λ k. put_le_bytes len k m xs) (omega arith)

set-slice :
    (o v : ℕ) (xs : List ℕ) → o + 1 ≤ length xs → splice o (set (slice o 1 xs) 0 v) xs ≡ set xs o v
set-slice o v xs h =
    splice-set o 0 v (slice o 1 xs) xs (omega (arith, length-slice o 1 xs h))
      (omega (arith, length-slice o 1 xs h))
    ∙ ap (λ ys. set ys (o + 0) v) (splice-slice o 1 xs)
    ∙ ap (λ k. set xs k v) (omega arith)

-- A write into the slice, against the write into the whole
abbrev Matches : EtherCatValueType → ℕ → List ℕ → Bool × List ℕ → Bool × List ℕ → Type 0
Matches t o xs part all =
    (part.0 ≡ all.0) × (splice o part.1 xs ≡ all.1) × (length part.1 ≡ byte_len t)

put-Matches :
    (t : EtherCatValueType) (o m : ℕ) (xs : List ℕ)
    → o + byte_len t ≤ length xs
    → Matches t o xs
        (true, put_le_bytes (byte_len t) 0 m (slice o (byte_len t) xs))
        (true, put_le_bytes (byte_len t) o m xs)
put-Matches t o m xs h = (
  refl,
  put_slice (byte_len t) o m xs h,
  length-put_le_bytes (byte_len t) 0 m (slice o (byte_len t) xs) ∙ length-slice o (byte_len t) xs h,
)

set-Matches :
    (t : EtherCatValueType) (o v : ℕ) (xs : List ℕ)
    → byte_len t ≡ 1
    → o + 1 ≤ length xs
    → Matches t o xs (true, set (slice o 1 xs) 0 v) (true, set xs o v)
set-Matches t o v xs e h =
    (refl, set-slice o v xs h, length-set (slice o 1 xs) 0 v ∙ length-slice o 1 xs h ∙ sym e)

bit-Matches :
    (o bit : ℕ) (b : Bool) (xs : List ℕ)
    → o + 1 ≤ length xs
    → Matches EtherCatValueType.bool o xs (write_bit (slice o 1 xs) 0 bit b) (write_bit xs o bit b)
bit-Matches o bit b xs h =
    let part : leb (length (slice o 1 xs)) 0 ≡ false = ground (arith, length-slice o 1 xs h) in
    let all : leb (length xs) o ≡ false = ground arith in
    elim (Bool-cases (leb 8 bit)) [
      | inl e ↦ rw e (refl, splice-slice o 1 xs, length-slice o 1 xs h)
      | inr e ↦
          rw (e, part, all, byte_slice o xs) (set-Matches EtherCatValueType.bool o _ xs refl h)
    ]

answer_cong :
    (image : EtherCatPdoImage) {a b : Bool} {xs ys : List ℕ}
    → a ≡ b
    → xs ≡ ys
    → ◌≡◌ {A = Result IoError Bool × EtherCatPdoImage}
        (ok a, record image { outputs = xs })
        (ok b, record image { outputs = ys })
answer_cong image h k = cc

-- The answer of a write through the image as a transport, from the write into the slice
put_back-Matches :
    (p : EtherCatPdoPoint) (image : EtherCatPdoImage) (part all : Bool × List ℕ)
    → p.area ≡ output
    → p.byte_offset + byte_len p.value_type ≤ length image.outputs
    → (all.0 ≡ false → all.1 ≡ image.outputs)
    → Matches p.value_type p.byte_offset image.outputs part all
    → put_back pdo_transport p part image ≡ (ok all.0, record image { outputs = all.1 })
unfolding image_write_pdo
put_back-Matches p image (false, bytes) all a h same m =
    answer_cong image m.0 (sym (same (sym m.0)))
put_back-Matches p image (true, bytes) all a h same m =
    let room : ltb (length image.outputs) (p.byte_offset + length bytes) ≡ false =
      ground (arith, m.2) in
    rw (a, room) (answer_cong image m.0 m.1)

-- The window of a point lies inside the bytes of its area.
abbrev pub Inside : EtherCatPdoPoint → EtherCatPdoImage → Type 0
Inside p image = p.byte_offset + byte_len p.value_type ≤ length (area_bytes p.area image)

abbrev pub MaybeInside : Option EtherCatPdoPoint → EtherCatPdoImage → Type 0
MaybeInside none image = Unit
MaybeInside (some p) image = Inside p image

-- The transport HAL that keeps the image of `hal` as its transport.
abbrev pub over : EtherCatHal → EtherCatTransportHal EtherCatPdoImage
over hal = record { bindings = hal.bindings; transport = hal.image }

module _ {F : Floats} where
  abbrev direct : TargetHal F EtherCatHal
  direct = ethercat_hal

  abbrev through : TargetHal F (EtherCatTransportHal EtherCatPdoImage)
  through = ethercat_transport_hal pdo_transport

  read_typed-slice :
      (t : EtherCatValueType) (o bit : ℕ) (xs : List ℕ)
      → o + byte_len t ≤ length xs
      → read_typed {F = F} t (slice o (byte_len t) xs) 0 bit ≡ read_typed t xs o bit
  read_typed-slice EtherCatValueType.bool o bit xs h =
      ap (λ b. elim b as (λ _. Option (Value F)) [ none ↦ none | some c ↦ some (Value.bool c) ])
        (bit_slice o bit xs h)
  read_typed-slice u8 o bit xs h = ap (λ n. some (int (pos n))) (byte_slice o xs)
  read_typed-slice i8 o bit xs h = ap (λ n. some (int (of_bits 128 n))) (byte_slice o xs)
  read_typed-slice u16 o bit xs h = ap (λ n. some (int (pos n))) (number_slice 2 o xs)
  read_typed-slice i16 o bit xs h = ap (λ n. some (int (of_bits 32768 n))) (number_slice 2 o xs)
  read_typed-slice u32 o bit xs h = ap (λ n. some (int (pos n))) (number_slice 4 o xs)
  read_typed-slice i32 o bit xs h =
      ap (λ n. some (int (of_bits 2147483648 n))) (number_slice 4 o xs)
  read_typed-slice u64 o bit xs h =
      ap (λ n. some (int (pos (if leb n 0x7fff_ffff_ffff_ffff then n else 0x7fff_ffff_ffff_ffff))))
        (number_slice 8 o xs)
  read_typed-slice i64 o bit xs h =
      ap (λ n. some (int (of_bits 0x8000_0000_0000_0000 n))) (number_slice 8 o xs)

  write_typed-slice :
      (t : EtherCatValueType) (o bit : ℕ) (v : Value F) (xs : List ℕ)
      → o + byte_len t ≤ length xs
      → Matches t o xs (write_typed t (slice o (byte_len t) xs) 0 bit v) (write_typed t xs o bit v)
  write_typed-slice EtherCatValueType.bool o bit v xs h = bit-Matches o bit _ xs h
  write_typed-slice u8 o bit v xs h = set-Matches u8 o _ xs refl h
  write_typed-slice i8 o bit v xs h = set-Matches i8 o _ xs refl h
  write_typed-slice u16 o bit v xs h = put-Matches u16 o _ xs h
  write_typed-slice i16 o bit v xs h = put-Matches i16 o _ xs h
  write_typed-slice u32 o bit v xs h = put-Matches u32 o _ xs h
  write_typed-slice i32 o bit v xs h = put-Matches i32 o _ xs h
  write_typed-slice u64 o bit v xs h = put-Matches u64 o _ xs h
  write_typed-slice i64 o bit v xs h = put-Matches i64 o _ xs h

  refused_same :
      (t : EtherCatValueType) (o bit : ℕ) (v : Value F) (xs : List ℕ)
      → (write_typed t xs o bit v).0 ≡ false
      → (write_typed t xs o bit v).1 ≡ xs
  refused_same EtherCatValueType.bool o bit v xs h =
      elim (Bool-cases (leb 8 bit || leb (length xs) o)) [
        | inl e ↦ rw e refl
        | inr e ↦ absurd (accepted (rw e at h))
      ]
    where
      accepted : true ≡ false → ⊥
      accepted e = cc
  refused_same u8 o bit v xs h = cc
  refused_same i8 o bit v xs h = cc
  refused_same u16 o bit v xs h = cc
  refused_same i16 o bit v xs h = cc
  refused_same u32 o bit v xs h = cc
  refused_same i32 o bit v xs h = cc
  refused_same u64 o bit v xs h = cc
  refused_same i64 o bit v xs h = cc

  read_agrees :
      (p : EtherCatPdoPoint) (image : EtherCatPdoImage)
      → Inside p image
      → pdo_read_found {F = F} pdo_transport (some p) image ≡ ok (read_point p image)
  unfolding image_read_pdo read_pdo_value read_point
  read_agrees p image h =
      let xs = area_bytes p.area image in
      let room : ltb (length xs) (p.byte_offset + byte_len p.value_type) ≡ false = ground arith in
      let part : ltb (length (slice p.byte_offset (byte_len p.value_type) xs))
            (0 + byte_len p.value_type)
          ≡ false =
        ground (arith, length-slice p.byte_offset (byte_len p.value_type) xs h) in
      rw (room, part)
        (ap (λ v. ok v) (read_typed-slice p.value_type p.byte_offset p.bit_offset xs h))

  write_at :
      (area : EtherCatArea) (p : EtherCatPdoPoint) (v : Value F) (image : EtherCatPdoImage)
      → Inside (record p { area = area }) image
      → pdo_write_through_found pdo_transport (some (record p { area = area })) v image
        ≡ (let (done, after) = write_point (record p { area = area }) v image in (ok done, after))
  unfolding image_read_pdo write_pdo_value write_point
  write_at input p v image h = refl
  write_at output p v image h =
      let xs = image.outputs in
      let room : ltb (length xs) (p.byte_offset + byte_len p.value_type) ≡ false = ground arith in
      let part : ltb (length (slice p.byte_offset (byte_len p.value_type) xs))
            (0 + byte_len p.value_type)
          ≡ false =
        ground (arith, length-slice p.byte_offset (byte_len p.value_type) xs h) in
      rw (room, part)
        (put_back-Matches (record p { area = output }) image _ _ refl h
          (refused_same p.value_type p.byte_offset p.bit_offset v xs)
          (write_typed-slice p.value_type p.byte_offset p.bit_offset v xs h))

  reads_agree :
      (found : Option EtherCatPdoPoint) (image : EtherCatPdoImage)
      → MaybeInside found image
      → pdo_read_found {F = F} pdo_transport found image
        ≡ ok (and_then found (λ p. read_point p image))
  reads_agree none image h = refl
  reads_agree (some p) image h = read_agrees p image h

  writes_agree :
      (found : Option EtherCatPdoPoint) (v : Value F) (image : EtherCatPdoImage)
      → MaybeInside found image
      → pdo_write_through_found pdo_transport found v image
        ≡ (let (done, after) = pdo_write_found found v image in (ok done, after))
  writes_agree none v image h = refl
  writes_agree (some p) v image h = write_at p.area p v image h

  -- Over an image as the transport, and for a symbol that is not bound or whose point lies inside its
  -- area, the HAL that reads a window, writes into it and puts it back reads and writes what
  -- `EtherCatHal` does: the same value, the same answer to the write and the same image after it.
  pub ethercat_transport_agrees :
      (hal : EtherCatHal) (symbol : IoSymbol) (v : Value F)
      → MaybeInside (pdo_point_for hal symbol) hal.image
      → (through.read_symbol (over hal) symbol ≡ direct.read_symbol hal symbol)
        × ((through.write_symbol (over hal) symbol v).0 ≡ (direct.write_symbol hal symbol v).0)
        × ((through.write_symbol (over hal) symbol v).1 ≡ over (direct.write_symbol hal symbol v).1)
  unfolding pdo_read_through pdo_read pdo_write_through pdo_write pdo_point_for
  ethercat_transport_agrees hal symbol v h =
      let found = pdo_point_for hal symbol in
      let w = writes_agree found v hal.image h in
      (
        reads_agree found hal.image h,
        ap (λ w. w.0) w,
        ap (λ w. record { bindings = hal.bindings; transport = w.1 }) w,
      )
