-- ===== src/Target/Modbus/Agree.antt =====
-- The HAL over a transport and the HAL over an image are the same HAL when the transport is the
-- image, crates/rbcpp_target/src/lib.rs.
use robocpp.Base.{
  ap, true, ℕ, ◌<◌, ◌≡◌, refl, Option, none, some, unwrap_or, map_option, List, [], ◌∷◌, arith,
}
use robocpp.Base.Table.{put, find}
use robocpp.Base.Int.{ℤ, pos}
use robocpp.Base.Result.{ok}
use robocpp.Ir.Value.{Floats, Value, int, as_i64}
use robocpp.Target.Symbol.{IoSymbol, TargetHal}
use robocpp.Target.Modbus.Image.{
  ModbusArea, coil, discrete_input, holding_register, input_register, ModbusPoint, same_point,
  ModbusImage, read, write, clamp_u16, point_for, ModbusHal, modbus_hal, image_write_found,
  hal_read, hal_write,
}
use robocpp.Target.Modbus.Transport.{
  read_found, write_found, point, image_transport, ModbusTransportHal, modbus_transport_hal,
  read_through, write_through,
}

-- Every register of the image holds a `u16`.
abbrev pub AllU16 : List (ModbusPoint × ℕ) → Type 0
AllU16 [] = Unit
AllU16 ((p, n) ∷ m) = (n < 65536) × AllU16 m

pub put-AllU16 :
    (p : ModbusPoint) (n : ℕ) (m : List (ModbusPoint × ℕ))
    → n < 65536
    → AllU16 m
    → AllU16 (put same_point p n m)
unfolding put
put-AllU16 p n [] h a = (h, tt)
put-AllU16 p n ((q, k) ∷ m) h a = ground (arith, put-AllU16 p n m)

-- What is found in the registers is a `u16`.
pub find-AllU16 :
    (p : ModbusPoint) (m : List (ModbusPoint × ℕ))
    → AllU16 m
    → unwrap_or 0 (find same_point p m) < 65536
unfolding find
find-AllU16 p [] a = ground arith
find-AllU16 p ((q, k) ∷ m) a = ground (arith, find-AllU16 p m a.1)

clamp_u16_id : (n : ℕ) → n < 65536 → clamp_u16 (pos n) ≡ n
clamp_u16_id n h = ground arith

clamp_u16_lt : (z : ℤ) → clamp_u16 z < 65536
clamp_u16_lt z = ground arith

-- The transport HAL that keeps the image of `hal` as its transport.
abbrev pub over : ModbusHal → ModbusTransportHal ModbusImage
over hal = record { bindings = hal.bindings; transport = hal.image }

module _ {F : Floats} where
  abbrev direct : TargetHal F ModbusHal
  direct = modbus_hal

  abbrev through : TargetHal F (ModbusTransportHal ModbusImage)
  through = modbus_transport_hal (image_transport F)

  read_point :
      (unit : ℕ) (area : ModbusArea) (address : ℕ) (image : ModbusImage)
      → AllU16 image.registers
      → read_found {F = F} (image_transport F) (some (point unit area address)) image
        ≡ ok (some (read {F = F} (point unit area address) image))
  unfolding read
  read_point unit coil address image a = refl
  read_point unit discrete_input address image a = refl
  read_point unit holding_register address image a =
      ap (λ n. ok (some (int (pos n))))
        (clamp_u16_id _ (find-AllU16 (point unit holding_register address) image.registers a))
  read_point unit input_register address image a =
      ap (λ n. ok (some (int (pos n))))
        (clamp_u16_id _ (find-AllU16 (point unit input_register address) image.registers a))

  write_point :
      (unit : ℕ) (area : ModbusArea) (address : ℕ) (v : Value F) (image : ModbusImage)
      → AllU16 image.registers
      → (write_found (image_transport F) (some (point unit area address)) v image
          ≡ (let (done, image') = write (point unit area address) v image in (ok done, image')))
        × AllU16 (write (point unit area address) v image).1.registers
  unfolding write
  write_point unit coil address v image a = (refl, a)
  write_point unit discrete_input address v image a = (refl, a)
  write_point unit holding_register address v image a =
      let n = clamp_u16 (unwrap_or (pos 0) (as_i64 v)) in
      let h = clamp_u16_lt (unwrap_or (pos 0) (as_i64 v)) in
      (
        ap
            (λ k. (
              ok true,
              record image {
                registers = put same_point (point unit holding_register address) k image.registers;
              },
            ))
            (clamp_u16_id n h),
        put-AllU16 (point unit holding_register address) n image.registers h a,
      )
  write_point unit input_register address v image a = (refl, a)

  reads_agree :
      (found : Option ModbusPoint) (image : ModbusImage)
      → AllU16 image.registers
      → read_found {F = F} (image_transport F) found image
        ≡ ok (map_option (λ p. read p image) found)
  unfolding read
  reads_agree none image a = refl
  reads_agree (some p) image a = read_point p.unit_id p.area p.address image a

  writes_agree :
      (found : Option ModbusPoint) (v : Value F) (image : ModbusImage)
      → AllU16 image.registers
      → (write_found (image_transport F) found v image
          ≡ (let (done, image') = image_write_found found v image in (ok done, image')))
        × AllU16 (image_write_found found v image).1.registers
  writes_agree none v image a = (refl, a)
  writes_agree (some p) v image a = write_point p.unit_id p.area p.address v image a

  -- Over an image whose registers hold 16-bit numbers, the HAL that goes through a transport reads
  -- and writes what `ModbusHal` does: the same value of every symbol, the same answer to every
  -- write, the same image after it, whose registers again hold 16-bit numbers.
  pub transport_agrees :
      (hal : ModbusHal) (symbol : IoSymbol) (v : Value F)
      → AllU16 hal.image.registers
      → (through.read_symbol (over hal) symbol ≡ direct.read_symbol hal symbol)
        × ((through.write_symbol (over hal) symbol v).0 ≡ (direct.write_symbol hal symbol v).0)
        × ((through.write_symbol (over hal) symbol v).1 ≡ over (direct.write_symbol hal symbol v).1)
        × AllU16 (direct.write_symbol hal symbol v).1.image.registers
  unfolding read_through hal_read write_through hal_write
  transport_agrees hal symbol v a =
      let found = point_for hal.bindings symbol in
      let w = writes_agree found v hal.image a in
      (
        reads_agree found hal.image a,
        ap (λ w. w.0) w.0,
        ap (λ w. record { bindings = hal.bindings; transport = w.1 }) w.0,
        w.1,
      )
