-- ===== src/Target/Modbus/Image.antt =====
-- The Modbus image and `ModbusHal`, crates/rbcpp_target/src/lib.rs.
use robocpp.Base.{
  ℕ, ◌≡◌, ◌↔◌, Bool, true, false, not, ◌&&◌, Option, none, some, if◌then◌else◌, List, [], arith,
  ◌==◌, unwrap_or, or_else, map_option,
}
use robocpp.Base.Int.{ℤ, pos, pos_part, clamp}
use robocpp.Base.Text.{Text}
use robocpp.Base.Map.{Map, lookup, insert}
use robocpp.Base.Table.{find, put, find-put}
use robocpp.Base.Result.{ok}
use robocpp.Ir.Value.{Floats, Value, bool, int, as_bool, as_i64}
use robocpp.Target.Symbol.{canonical_key, IoSymbol, location_key, name_key, TargetHal}

pub data ModbusArea : Type 0 where
  coil discrete_input holding_register input_register : ModbusArea

pub record ModbusPoint : Type 0 where
  pub unit_id : ℕ
  pub area : ModbusArea
  pub address : ℕ

abbrev pub writable : ModbusArea → Bool
writable coil = true
writable holding_register = true
writable _ = false

abbrev pub same_area : ModbusArea → ModbusArea → Bool
same_area coil coil = true
same_area discrete_input discrete_input = true
same_area holding_register holding_register = true
same_area input_register input_register = true
same_area _ _ = false

-- `==` of the derived `PartialEq`.
abbrev pub same_point : ModbusPoint → ModbusPoint → Bool
same_point p q = p.unit_id == q.unit_id && same_area p.area q.area && p.address == q.address

pub same_point_iff : (p q : ModbusPoint) → (same_point p q ≡ true) ↔ (p ≡ q)
same_point_iff p q = (ground arith, ground arith)

pub record ModbusImage : Type 0 where
  pub bits : List (ModbusPoint × Bool)
  pub registers : List (ModbusPoint × ℕ)

unfoldable pub set_bit : ModbusPoint → Bool → ModbusImage → ModbusImage
set_bit p b image = record image { bits = put same_point p b image.bits }

unfoldable pub set_register : ModbusPoint → ℕ → ModbusImage → ModbusImage
set_register p n image = record image { registers = put same_point p n image.registers }

-- `.clamp(0, u16::MAX as i64) as u16`
abbrev pub clamp_u16 : ℤ → ℕ
clamp_u16 z = pos_part (clamp (pos 0) (pos 65535) z)

module _ {F : Floats} where
  abbrev read_area : ModbusArea → ModbusPoint → ModbusImage → Value F
  read_area coil p image = bool (unwrap_or false (find same_point p image.bits))
  read_area discrete_input p image = bool (unwrap_or false (find same_point p image.bits))
  read_area holding_register p image = int (pos (unwrap_or 0 (find same_point p image.registers)))
  read_area input_register p image = int (pos (unwrap_or 0 (find same_point p image.registers)))

  -- `ModbusImage::read`
  unfoldable pub read : ModbusPoint → ModbusImage → Value F
  read p image = read_area p.area p image

  abbrev write_area : ModbusArea → ModbusPoint → Value F → ModbusImage → Bool × ModbusImage
  write_area coil p v image =
      (true, record image { bits = put same_point p (unwrap_or false (as_bool v)) image.bits })
  write_area holding_register p v image = (
    true,
    record image {
      registers = put same_point p (clamp_u16 (unwrap_or (pos 0) (as_i64 v))) image.registers;
    },
  )
  write_area discrete_input p v image = (false, image)
  write_area input_register p v image = (false, image)

  -- `ModbusImage::write`
  unfoldable pub write : ModbusPoint → Value F → ModbusImage → Bool × ModbusImage
  write p v image = if not (writable p.area) then (false, image) else write_area p.area p v image

  -- What a read gives of a point that holds what `v` was written to.
  abbrev pub written : ModbusArea → Value F → Value F
  written coil v = bool (unwrap_or false (as_bool v))
  written _ v = int (pos (clamp_u16 (unwrap_or (pos 0) (as_i64 v))))

  -- A write is accepted exactly in the writable areas; then the point reads as the value, made a bit
  -- or clamped to a register, and every other point, of any area, unit or address, reads as before.
  pub read-write :
      (p q : ModbusPoint) (v : Value F) (image : ModbusImage)
      → ((write p v image).0 ≡ writable p.area)
        × (read q (write p v image).1
            ≡ (if writable p.area && same_point p q then written p.area v else read q image))
  unfolding write read
  read-write p q v image = ground (
    arith,
    same_point_iff p q,
    find-put same_point same_point_iff p q (unwrap_or false (as_bool v)) image.bits,
    find-put same_point same_point_iff p q (clamp_u16 (unwrap_or (pos 0) (as_i64 v)))
        image.registers,
  )

pub record ModbusHal : Type 0 where
  pub bindings : Map ModbusPoint
  pub image : ModbusImage

abbrev pub empty_image : ModbusImage
empty_image = record { bits = []; registers = [] }

-- `ModbusHal::new`, `bind_location` and `bind_name`
unfoldable pub new_hal : ModbusHal
new_hal = record { bindings = []; image = empty_image }

unfoldable pub bind_location : Text → ModbusPoint → ModbusHal → ModbusHal
bind_location location p hal = record hal {
  bindings = insert (canonical_key location) p hal.bindings;
}

unfoldable pub bind_name : Text → ModbusPoint → ModbusHal → ModbusHal
bind_name name p hal = record hal { bindings = insert (canonical_key name) p hal.bindings }

-- `point_for` of both HALs
unfoldable pub point_for : Map ModbusPoint → IoSymbol → Option ModbusPoint
point_for bindings symbol =
    or_else (lookup (location_key symbol) bindings) (lookup (name_key symbol) bindings)

module _ {F : Floats} where
  unfoldable pub hal_read : ModbusHal → IoSymbol → Option (Value F)
  hal_read hal symbol = map_option (λ p. read p hal.image) (point_for hal.bindings symbol)

  abbrev pub image_write_found : Option ModbusPoint → Value F → ModbusImage → Bool × ModbusImage
  image_write_found none v image = (false, image)
  image_write_found (some p) v image = write p v image

  unfoldable pub hal_write : ModbusHal → IoSymbol → Value F → Bool × ModbusHal
  hal_write hal symbol v =
      let (done, image) = image_write_found (point_for hal.bindings symbol) v hal.image in
      (done, record hal { image = image })

  -- `TargetHal for ModbusHal`
  abbrev pub modbus_hal : TargetHal F ModbusHal
  modbus_hal = record {
    read_symbol = λ hal symbol. ok (hal_read hal symbol);
    write_symbol = λ hal symbol v. let (done, hal') = hal_write hal symbol v in (ok done, hal');
  }
