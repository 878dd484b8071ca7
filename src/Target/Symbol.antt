-- ===== src/Target/Symbol.antt =====
-- I/O symbols, the HAL interface and its errors, crates/rbcpp_target/src/lib.rs.
use robocpp.Base.{Bool, Option}
use robocpp.Base.Text.{Text, trim, to_ascii_uppercase}
use robocpp.Base.Result.{Result}
use robocpp.Ir.Value.{Floats, Value}

unfoldable pub canonical_key : Text → Text
unfolding trim to_ascii_uppercase
canonical_key input = to_ascii_uppercase (trim input)

pub data IoDirection : Type 0 where
  input output memory unknown : IoDirection

pub record IoSymbol : Type 0 where
  pub name : Text
  pub location : Text
  pub direction : IoDirection
  pub type_name : Text

abbrev pub location_key : IoSymbol → Text
location_key s = canonical_key s.location

abbrev pub name_key : IoSymbol → Text
name_key s = canonical_key s.name

-- What the program reads of an `io::Error`.
pub data ErrorKind : Type 0 where
  permission_denied unexpected_eof other : ErrorKind

pub record IoError : Type 0 where
  pub kind : ErrorKind
  pub message : Text

-- The trait `TargetHal`. A method on `&mut self` returns the new HAL beside its result.
pub record TargetHal (F : Floats) (H : Type 0) : Type 0 where
  pub read_symbol : H → IoSymbol → Result IoError (Option (Value F))
  pub write_symbol : H → IoSymbol → Value F → Result IoError Bool × H
