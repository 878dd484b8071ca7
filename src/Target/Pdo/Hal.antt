-- ===== src/Target/Pdo/Hal.antt =====
-- `EtherCatHal` over a process data image, crates/rbcpp_target/src/lib.rs.
use robocpp.Base.{ℕ, Bool, false, Option, none, some, or_else, and_then, ◌∷◌, []}
use robocpp.Base.Text.{Text, codes, to_ascii_lowercase}
use robocpp.Base.Map.{Map, lookup, insert}
use robocpp.Base.Result.{ok}
use robocpp.Ir.Value.{Floats, Value}
use robocpp.Target.Symbol.{canonical_key, IoSymbol, location_key, name_key, TargetHal}
use robocpp.Target.Pdo.Image.{
  EtherCatArea, input, output, EtherCatValueType, u8, i8, u16, i16, u32, i32, u64, i64,
  EtherCatPdoPoint, EtherCatPdoImage, new_image, read_point, write_point,
}

-- The spellings of each area and value type, in the order of the source's `match`.
abbrev area_names : Map EtherCatArea
area_names =
    (codes "input", input)
    ∷ (codes "inputs", input)
    ∷ (codes "rx", input)
    ∷ (codes "pdo_in", input)
    ∷ (codes "pdo-in", input)
    ∷ (codes "output", output)
    ∷ (codes "outputs", output)
    ∷ (codes "tx", output)
    ∷ (codes "pdo_out", output)
    ∷ (codes "pdo-out", output)
    ∷ []

unfoldable pub parse_area : Text → Option EtherCatArea
parse_area t = lookup (to_ascii_lowercase t) area_names

abbrev type_names : Map EtherCatValueType
type_names =
    (codes "bool", EtherCatValueType.bool)
    ∷ (codes "bit", EtherCatValueType.bool)
    ∷ (codes "u8", u8)
    ∷ (codes "byte", u8)
    ∷ (codes "usint", u8)
    ∷ (codes "i8", i8)
    ∷ (codes "sint", i8)
    ∷ (codes "u16", u16)
    ∷ (codes "word", u16)
    ∷ (codes "uint", u16)
    ∷ (codes "i16", i16)
    ∷ (codes "int", i16)
    ∷ (codes "u32", u32)
    ∷ (codes "dword", u32)
    ∷ (codes "udint", u32)
    ∷ (codes "i32", i32)
    ∷ (codes "dint", i32)
    ∷ (codes "u64", u64)
    ∷ (codes "lword", u64)
    ∷ (codes "ulint", u64)
    ∷ (codes "i64", i64)
    ∷ (codes "lint", i64)
    ∷ []

unfoldable pub parse_value_type : Text → Option EtherCatValueType
parse_value_type t = lookup (to_ascii_lowercase t) type_names

pub record EtherCatHal : Type 0 where
  pub bindings : Map EtherCatPdoPoint
  pub image : EtherCatPdoImage

unfoldable pub new_pdo_hal : ℕ → ℕ → EtherCatHal
new_pdo_hal input_bytes output_bytes = record {
  bindings = [];
  image = new_image input_bytes output_bytes;
}

-- `bind_location` and `bind_name`
unfoldable pub bind_point : Text → EtherCatPdoPoint → EtherCatHal → EtherCatHal
bind_point key p hal = record hal { bindings = insert (canonical_key key) p hal.bindings }

unfoldable pub pdo_point_for : EtherCatHal → IoSymbol → Option EtherCatPdoPoint
pdo_point_for hal symbol =
    or_else (lookup (location_key symbol) hal.bindings) (lookup (name_key symbol) hal.bindings)

module _ {F : Floats} where
  unfoldable pub pdo_read : EtherCatHal → IoSymbol → Option (Value F)
  pdo_read hal symbol = and_then (pdo_point_for hal symbol) (λ p. read_point p hal.image)

  abbrev pub pdo_write_found :
      Option EtherCatPdoPoint → Value F → EtherCatPdoImage → Bool × EtherCatPdoImage
  pdo_write_found none v image = (false, image)
  pdo_write_found (some p) v image = write_point p v image

  unfoldable pub pdo_write : EtherCatHal → IoSymbol → Value F → Bool × EtherCatHal
  pdo_write hal symbol v =
      let (done, image) = pdo_write_found (pdo_point_for hal symbol) v hal.image in
      (done, record hal { image = image })

  -- `TargetHal for EtherCatHal`
  abbrev pub ethercat_hal : TargetHal F EtherCatHal
  ethercat_hal = record {
    read_symbol = λ hal symbol. ok (pdo_read hal symbol);
    write_symbol = λ hal symbol v. let (done, hal') = pdo_write hal symbol v in (ok done, hal');
  }
