-- ===== src/Target/Modbus/Transport.antt =====
-- The trait `ModbusTransport`, its implementation by the image, and `ModbusTransportHal`,
-- crates/rbcpp_target/src/lib.rs.
use robocpp.Base.{ℕ, Bool, false, Option, none, some, unwrap_or}
use robocpp.Base.Int.{pos}
use robocpp.Base.Map.{Map}
use robocpp.Base.Result.{Result, ok, ◌>>=◌}
use robocpp.Ir.Value.{Floats, Value, bool, int, as_bool, as_i64}
use robocpp.Target.Symbol.{IoSymbol, IoError, TargetHal}
use robocpp.Target.Modbus.Image.{
  ModbusArea, coil, discrete_input, holding_register, input_register, ModbusPoint, ModbusImage,
  read, write, clamp_u16, point_for,
}

pub record ModbusTransport (T : Type 0) : Type 0 where
  pub read_coil : T → ℕ → ℕ → Result IoError Bool
  pub read_discrete_input : T → ℕ → ℕ → Result IoError Bool
  pub read_holding_register : T → ℕ → ℕ → Result IoError ℕ
  pub read_input_register : T → ℕ → ℕ → Result IoError ℕ
  pub write_coil : T → ℕ → ℕ → Bool → Result IoError Bool × T
  pub write_holding_register : T → ℕ → ℕ → ℕ → Result IoError Bool × T

abbrev pub point : ℕ → ModbusArea → ℕ → ModbusPoint
point unit_id area address = record { unit_id = unit_id; area = area; address = address }

module _ (F : Floats) where
  abbrev pub image_bit : ModbusArea → ModbusImage → ℕ → ℕ → Result IoError Bool
  image_bit area image unit_id address =
      ok (unwrap_or false (as_bool (read {F = F} (point unit_id area address) image)))

  abbrev pub image_register : ModbusArea → ModbusImage → ℕ → ℕ → Result IoError ℕ
  image_register area image unit_id address =
      ok (clamp_u16 (unwrap_or (pos 0) (as_i64 (read {F = F} (point unit_id area address) image))))

  abbrev pub image_write :
      ModbusArea → Value F → ModbusImage → ℕ → ℕ → Result IoError Bool × ModbusImage
  image_write area v image unit_id address =
      let (done, image') = write (point unit_id area address) v image in (ok done, image')

  -- `ModbusTransport for ModbusImage`
  abbrev pub image_transport : ModbusTransport ModbusImage
  image_transport = record {
    read_coil = image_bit coil;
    read_discrete_input = image_bit discrete_input;
    read_holding_register = image_register holding_register;
    read_input_register = image_register input_register;
    write_coil = λ image unit_id address b. image_write coil (bool b) image unit_id address;
    write_holding_register =
        λ image unit_id address n. image_write holding_register (int (pos n)) image unit_id address;
  }

pub record ModbusTransportHal (T : Type 0) : Type 0 where
  pub bindings : Map ModbusPoint
  pub transport : T

module _ {F : Floats} {T : Type 0} (ops : ModbusTransport T) where
  abbrev transport_read : ModbusPoint → T → Result IoError (Value F)
  transport_read p t = elim p.area [
    | coil ↦ ops.read_coil t p.unit_id p.address >>= λ b. ok (bool b)
    | discrete_input ↦ ops.read_discrete_input t p.unit_id p.address >>= λ b. ok (bool b)
    | holding_register ↦ ops.read_holding_register t p.unit_id p.address >>= λ n. ok (int (pos n))
    | input_register ↦ ops.read_input_register t p.unit_id p.address >>= λ n. ok (int (pos n))
  ]

  abbrev transport_write : ModbusPoint → Value F → T → Result IoError Bool × T
  transport_write p v t = elim p.area [
    | coil ↦ ops.write_coil t p.unit_id p.address (unwrap_or false (as_bool v))
    | holding_register ↦
        ops.write_holding_register t p.unit_id p.address (clamp_u16 (unwrap_or (pos 0) (as_i64 v)))
    | discrete_input ↦ (ok false, t)
    | input_register ↦ (ok false, t)
  ]

  abbrev pub read_found : Option ModbusPoint → T → Result IoError (Option (Value F))
  read_found none t = ok none
  read_found (some p) t = transport_read p t >>= λ v. ok (some v)

  abbrev pub write_found : Option ModbusPoint → Value F → T → Result IoError Bool × T
  write_found none v t = (ok false, t)
  write_found (some p) v t = transport_write p v t

  unfoldable pub read_through : ModbusTransportHal T → IoSymbol → Result IoError (Option (Value F))
  read_through hal symbol = read_found (point_for hal.bindings symbol) hal.transport

  unfoldable pub write_through :
      ModbusTransportHal T → IoSymbol → Value F → Result IoError Bool × ModbusTransportHal T
  write_through hal symbol v =
      let (done, t) = write_found (point_for hal.bindings symbol) v hal.transport in
      (done, record hal { transport = t })

  -- `TargetHal for ModbusTransportHal<T>`
  abbrev pub modbus_transport_hal : TargetHal F (ModbusTransportHal T)
  modbus_transport_hal = record { read_symbol = read_through; write_symbol = write_through }
