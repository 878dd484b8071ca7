-- ===== src/Tests/Pdo.antt =====
-- Process data on an image of two output bytes.
use robocpp.Base.{◌≡◌, refl, true, some, [], ◌∷◌, arith}
use robocpp.Base.Int.{pos, negsuc}
use robocpp.Ir.Value.{Value}
use robocpp.Target.Pdo.Image.{
  EtherCatPdoPoint, EtherCatPdoImage, output, i16, read_point, write_point,
}
use robocpp.Target.Pdo.Values.{pdo_read_write}
use robocpp.Target.Pdo.Frame.{Framed, write_point_frame}
use robocpp.Base.Text.{codes, eqb, trim, trim_start, to_ascii_uppercase}
use robocpp.Base.Map.{lookup}
use robocpp.Target.Symbol.{IoSymbol, IoDirection, TargetHal, canonical_key}
use robocpp.Target.Pdo.Hal.{EtherCatHal, pdo_point_for, ethercat_hal}
use robocpp.Target.Pdo.Transport.{EtherCatTransportHal, pdo_transport, ethercat_transport_hal}
use robocpp.Target.Pdo.Agree.{over, ethercat_transport_agrees}
use robocpp.Tests.{whole}

abbrev torque : EtherCatPdoPoint
torque = record {
  slave = 1;
  index = 0x6040;
  subindex = 0;
  area = output;
  byte_offset = 1;
  bit_offset = 0;
  value_type = i16;
}

abbrev pdo_image : EtherCatPdoImage
pdo_image = record { inputs = 9 ∷ []; outputs = 1 ∷ 2 ∷ 3 ∷ 4 ∷ [] }

abbrev too_low : Value whole
too_low = Value.int (negsuc 40000)

abbrev small : Value whole
small = Value.int (pos 300)

-- Below the range of a 16-bit number.
pdo_read_write_example :
    ((write_point torque too_low pdo_image).0 ≡ true)
    × (read_point {F = whole} torque (write_point torque too_low pdo_image).1
        ≡ some (Value.int (negsuc 32767)))
pdo_read_write_example =
    pdo_read_write torque too_low pdo_image refl (omega arith, omega arith)
      (omega arith, omega arith)

write_point_frame_example :
    ((write_point torque small pdo_image).1.inputs ≡ 9 ∷ [])
    × Framed 1 2 (1 ∷ 2 ∷ 3 ∷ 4 ∷ []) (write_point torque small pdo_image).1.outputs
write_point_frame_example = write_point_frame torque small pdo_image

abbrev drive : EtherCatHal
drive = record { bindings = (codes "T", torque) ∷ []; image = pdo_image }

abbrev torque_symbol : IoSymbol
torque_symbol = record {
  name = codes "T";
  location = [];
  direction = IoDirection.output;
  type_name = codes "INT";
}

abbrev drive_direct : TargetHal whole EtherCatHal
drive_direct = ethercat_hal

abbrev drive_through : TargetHal whole (EtherCatTransportHal EtherCatPdoImage)
drive_through = ethercat_transport_hal pdo_transport

ethercat_transport_agrees_example :
    (drive_through.read_symbol (over drive) torque_symbol
      ≡ drive_direct.read_symbol drive torque_symbol)
    × ((drive_through.write_symbol (over drive) torque_symbol small).0
        ≡ (drive_direct.write_symbol drive torque_symbol small).0)
    × ((drive_through.write_symbol (over drive) torque_symbol small).1
        ≡ over (drive_direct.write_symbol drive torque_symbol small).1)
unfolding pdo_point_for lookup eqb canonical_key trim trim_start to_ascii_uppercase
ethercat_transport_agrees_example =
    ethercat_transport_agrees drive torque_symbol small (omega arith)
