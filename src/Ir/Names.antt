-- ===== src/Ir/Names.antt =====
-- Identifiers and their canonical spelling, crates/iec_ir/src/lib.rs.
use robocpp.Base.Text.{Text, trim, to_ascii_uppercase}

unfoldable pub canonical_identifier : Text → Text
unfolding trim to_ascii_uppercase
canonical_identifier input = to_ascii_uppercase (trim input)

pub record Identifier : Type 0 where
  pub original : Text
  pub canonical : Text

-- `Identifier::new`
unfoldable pub identifier : Text → Identifier
identifier input = record { original = input; canonical = canonical_identifier input }

pub data AccessDirection : Type 0 where
  read_only read_write : AccessDirection
