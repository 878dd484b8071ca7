-- ===== src/Tests/Target.antt =====
-- The target's HALs, the safety gate and access paths, on one state each.
use robocpp.Base.{◌≡◌, ◌↔◌, refl, Bool, true, false, some, [], ◌∷◌, arith}
use robocpp.Base.Int.{pos, negsuc}
use robocpp.Base.Text.{codes, eqb, trim, to_ascii_uppercase}
use robocpp.Base.Map.{lookup}
use robocpp.Base.Result.{ok}
use robocpp.Ir.Names.{read_write}
use robocpp.Ir.Value.{Value}
use robocpp.Target.Symbol.{canonical_key, IoSymbol, output, TargetHal}
use robocpp.Target.Safety.{SafetyInputs, new_gate, check_output_write, SafetyHal}
use robocpp.Target.Safety.Latch.{after, writes, output_allowed_iff, fault_blocks_outputs}
use robocpp.Target.Access.{
  AccessPathBinding, AccessRuntime, state, write_access_with_hal, read_access_with_hal,
}
use robocpp.Target.Access.Effect.{access_write-Justified, access_read_back, Justified}
use robocpp.Target.Modbus.Image.{
  ModbusPoint, holding_register, read, write, ModbusImage, ModbusHal, modbus_hal,
}
use robocpp.Target.Modbus.Image.{read-write}
use robocpp.Target.Modbus.Transport.{ModbusTransportHal, image_transport, modbus_transport_hal}
use robocpp.Target.Modbus.Agree.{AllU16, over, transport_agrees}
use robocpp.Tests.{whole}

abbrev lamp : IoSymbol
lamp = record {
  name = codes "lamp";
  location = codes "%QX0.0";
  direction = output;
  type_name = codes "BOOL";
}

abbrev register : ModbusPoint
register = record { unit_id = 1; area = holding_register; address = 7 }

abbrev image : ModbusImage
image = record { bits = []; registers = (register, 5) ∷ [] }

abbrev hal : ModbusHal
hal = record { bindings = (codes "LAMP", register) ∷ []; image = image }

abbrev big : Value whole
big = Value.int (pos 70000)

abbrev below : Value whole
below = Value.int (negsuc 3)

abbrev direct_hal : TargetHal whole ModbusHal
direct_hal = modbus_hal

abbrev through_image : TargetHal whole (ModbusTransportHal ModbusImage)
through_image = modbus_transport_hal (image_transport whole)

-- A number beyond 16 bits is clamped.
read-write_example :
    ((write register big image).0 ≡ true)
    × (read {F = whole} register (write register big image).1 ≡ Value.int (pos 65535))
read-write_example = read-write register register big image

transport_agrees_example :
    (through_image.read_symbol (over hal) lamp ≡ direct_hal.read_symbol hal lamp)
    × ((through_image.write_symbol (over hal) lamp below).0
        ≡ (direct_hal.write_symbol hal lamp below).0)
    × ((through_image.write_symbol (over hal) lamp below).1
        ≡ over (direct_hal.write_symbol hal lamp below).1)
    × AllU16 (direct_hal.write_symbol hal lamp below).1.image.registers
transport_agrees_example = transport_agrees {F = whole} hal lamp below (omega arith, tt)

abbrev inputs : Bool → Bool → SafetyInputs
inputs stop reset = record {
  emergency_stop = stop;
  protective_stop = false;
  operator_enable = true;
  reset = reset;
}

-- A stop, then its release without a reset: the fault stays latched.
output_allowed_iff_example :
    (check_output_write
        (after (new_gate true) ((inputs false false, false) ∷ (inputs true false, false) ∷ []))
        lamp
      ≡ ok tt)
    ↔ (true ≡ false)
unfolding new_gate
output_allowed_iff_example =
    output_allowed_iff (new_gate true) (inputs false false, false) ((inputs true false, false) ∷ [])
      lamp refl

fault_blocks_outputs_example :
    let safe : SafetyHal ModbusHal = record {
      hal = hal;
      gate = after (new_gate true) ((inputs false false, false) ∷ (inputs true false, false) ∷ []);
    } in
    writes direct_hal ((lamp, Value.bool true) ∷ []) safe ≡ safe
unfolding new_gate
fault_blocks_outputs_example =
    fault_blocks_outputs direct_hal hal (new_gate true) (inputs false false, false)
      ((inputs true false, false) ∷ []) ((lamp, Value.bool true) ∷ []) (refl, tt) refl

abbrev speed : AccessPathBinding
speed = record {
  name = codes "speed";
  target = codes "main.speed";
  direction = read_write;
  type_name = codes "INT";
  target_binding = state (codes "main.speed");
}

abbrev paths : AccessRuntime whole
paths = record {
  bindings = (codes "SPEED", speed) ∷ [];
  state = record { values = []; retained = [] };
}

access_write-Justified_example :
    Justified
      (codes "speed")
      paths
      (write_access_with_hal direct_hal (codes "speed") (Value.int (pos 3)) paths hal).1.0
      hal
      (write_access_with_hal direct_hal (codes "speed") (Value.int (pos 3)) paths hal).1.1
      (Value.int (pos 3))
access_write-Justified_example =
    access_write-Justified direct_hal (codes "speed") (Value.int (pos 3)) paths hal

access_read_back_example :
    let out = write_access_with_hal direct_hal (codes "speed") (Value.int (pos 3)) paths hal in
    (out.0 ≡ ok true)
    × (out.1.1 ≡ hal)
    × (read_access_with_hal direct_hal (codes "SPEED") out.1.0 out.1.1
        ≡ ok (some (Value.int (pos 3))))
unfolding canonical_key trim to_ascii_uppercase lookup eqb
access_read_back_example =
    access_read_back direct_hal (codes "speed") (Value.int (pos 3)) paths hal speed speed
      (codes "main.speed") (codes "main.speed") (codes "SPEED")
      (record { bound = refl; direction = refl }) refl refl refl
