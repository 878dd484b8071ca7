-- ===== src/Target/Pdo/Transport.antt =====
-- The trait `EtherCatTransport`, its implementation by the image, and `EtherCatTransportHal`,
-- crates/rbcpp_target/src/lib.rs.
use robocpp.Base.{
  ℕ, ◌+◌, Bool, true, false, not, Option, none, some, List, or_else, if◌then◌else◌, ltb, length,
}
use robocpp.Base.Text.{codes}
use robocpp.Base.Map.{Map, lookup}
use robocpp.Base.Result.{Result, ok, err, ◌>>=◌}
use robocpp.Ir.Value.{Floats, Value}
use robocpp.Target.Symbol.{IoSymbol, ErrorKind, IoError, location_key, name_key, TargetHal}
use robocpp.Target.Pdo.Image.{
  EtherCatArea, area_writable, byte_len, EtherCatPdoPoint, EtherCatPdoImage, area_bytes,
  read_pdo_value, write_pdo_value,
}
use robocpp.Target.Pdo.Slices.{slice, splice}

pub record EtherCatTransport (T : Type 0) : Type 0 where
  pub read_pdo : T → EtherCatArea → ℕ → ℕ → Result IoError (List ℕ)
  pub write_pdo : T → EtherCatArea → ℕ → List ℕ → Result IoError Bool × T

abbrev read_outside : IoError
read_outside = record {
  kind = ErrorKind.unexpected_eof;
  message = codes "EtherCAT PDO read is outside the process image";
}

abbrev write_outside : IoError
write_outside = record {
  kind = ErrorKind.unexpected_eof;
  message = codes "EtherCAT PDO write is outside the process image";
}

-- `EtherCatTransport for EtherCatPdoImage`
unfoldable pub image_read_pdo : EtherCatPdoImage → EtherCatArea → ℕ → ℕ → Result IoError (List ℕ)
unfolding slice
image_read_pdo image area offset len =
    if ltb (length (area_bytes area image)) (offset + len)
    then err read_outside
    else ok (slice offset len (area_bytes area image))

unfoldable pub image_write_pdo :
    EtherCatPdoImage → EtherCatArea → ℕ → List ℕ → Result IoError Bool × EtherCatPdoImage
unfolding splice
image_write_pdo image area offset bytes =
    if not (area_writable area)
    then (ok false, image)
    else if ltb (length image.outputs) (offset + length bytes)
    then (err write_outside, image)
    else (ok true, record image { outputs = splice offset bytes image.outputs })

abbrev pub pdo_transport : EtherCatTransport EtherCatPdoImage
pdo_transport = record { read_pdo = image_read_pdo; write_pdo = image_write_pdo }

pub record EtherCatTransportHal (T : Type 0) : Type 0 where
  pub bindings : Map EtherCatPdoPoint
  pub transport : T

-- `EtherCatPdoPoint { byte_offset: 0, ..point }`
abbrev pub local : EtherCatPdoPoint → EtherCatPdoPoint
local p = record p { byte_offset = 0 }

abbrev pub through_point :
    {T : Type 0} → EtherCatTransportHal T → IoSymbol → Option EtherCatPdoPoint
through_point hal symbol =
    or_else (lookup (location_key symbol) hal.bindings) (lookup (name_key symbol) hal.bindings)

-- The bytes that were read with the value written into them go back.
abbrev pub put_back :
    {T : Type 0}
    → EtherCatTransport T
    → EtherCatPdoPoint
    → Bool × List ℕ
    → T
    → Result IoError Bool × T
put_back ops p (false, bytes) t = (ok false, t)
put_back ops p (true, bytes) t = ops.write_pdo t p.area p.byte_offset bytes

module _ {F : Floats} {T : Type 0} (ops : EtherCatTransport T) where
  abbrev pub pdo_read_found : Option EtherCatPdoPoint → T → Result IoError (Option (Value F))
  pdo_read_found none t = ok none
  pdo_read_found (some p) t =
      ops.read_pdo t p.area p.byte_offset (byte_len p.value_type) >>= λ bytes.
      ok (read_pdo_value bytes (local p))

  abbrev pub modify :
      EtherCatPdoPoint → Value F → Result IoError (List ℕ) → T → Result IoError Bool × T
  modify p v (err e) t = (err e, t)
  modify p v (ok bytes) t = put_back ops p (write_pdo_value bytes (local p) v) t

  abbrev pub pdo_write_through_found :
      Option EtherCatPdoPoint → Value F → T → Result IoError Bool × T
  pdo_write_through_found none v t = (ok false, t)
  pdo_write_through_found (some p) v t =
      if not (area_writable p.area)
      then (ok false, t)
      else modify p v (ops.read_pdo t p.area p.byte_offset (byte_len p.value_type)) t

  unfoldable pub pdo_read_through :
      EtherCatTransportHal T → IoSymbol → Result IoError (Option (Value F))
  pdo_read_through hal symbol = pdo_read_found (through_point hal symbol) hal.transport

  unfoldable pub pdo_write_through :
      EtherCatTransportHal T → IoSymbol → Value F → Result IoError Bool × EtherCatTransportHal T
  pdo_write_through hal symbol v =
      let (done, t) = pdo_write_through_found (through_point hal symbol) v hal.transport in
      (done, record hal { transport = t })

  -- `TargetHal for EtherCatTransportHal<T>`
  abbrev pub ethercat_transport_hal : TargetHal F (EtherCatTransportHal T)
  ethercat_transport_hal = record {
    read_symbol = pdo_read_through;
    write_symbol = pdo_write_through;
  }
