-- ===== src/Ir/Qualifier.antt =====
-- The qualifiers of SFC actions, and literals, crates/iec_ir/src/lib.rs.
use robocpp.Base.{Bool, true, false, Option, [], ◌∷◌}
use robocpp.Base.Text.{Text, codes, eqb}
use robocpp.Base.Map.{Map, lookup}
use robocpp.Ir.Names.{canonical_identifier}

pub data SfcActionQualifier : Type 0 where
  non_stored set_stored reset_stored pulse pulse_falling : SfcActionQualifier
  time_limited time_delayed stored_delayed delayed_stored stored_limited : SfcActionQualifier

-- The arms of the `match` in `SfcActionQualifier::parse`, in order.
abbrev pub keywords : Map SfcActionQualifier
keywords =
    (codes "N", non_stored)
    ∷ (codes "S", set_stored)
    ∷ (codes "R", reset_stored)
    ∷ (codes "P", pulse)
    ∷ (codes "P1", pulse)
    ∷ (codes "P0", pulse_falling)
    ∷ (codes "L", time_limited)
    ∷ (codes "D", time_delayed)
    ∷ (codes "SD", stored_delayed)
    ∷ (codes "DS", delayed_stored)
    ∷ (codes "SL", stored_limited)
    ∷ []

unfoldable pub parse : Text → Option SfcActionQualifier
unfolding lookup canonical_identifier eqb
parse input = lookup (canonical_identifier input) keywords

unfoldable pub as_iec : SfcActionQualifier → Text
as_iec non_stored = codes "N"
as_iec set_stored = codes "S"
as_iec reset_stored = codes "R"
as_iec pulse = codes "P"
as_iec pulse_falling = codes "P0"
as_iec time_limited = codes "L"
as_iec time_delayed = codes "D"
as_iec stored_delayed = codes "SD"
as_iec delayed_stored = codes "DS"
as_iec stored_limited = codes "SL"

abbrev pub requires_duration : SfcActionQualifier → Bool
requires_duration time_limited = true
requires_duration time_delayed = true
requires_duration stored_delayed = true
requires_duration delayed_stored = true
requires_duration stored_limited = true
requires_duration _ = false

-- `==` of the derived `PartialEq`.
abbrev pub is_qualifier : SfcActionQualifier → SfcActionQualifier → Bool
is_qualifier non_stored non_stored = true
is_qualifier set_stored set_stored = true
is_qualifier reset_stored reset_stored = true
is_qualifier pulse pulse = true
is_qualifier pulse_falling pulse_falling = true
is_qualifier time_limited time_limited = true
is_qualifier time_delayed time_delayed = true
is_qualifier stored_delayed stored_delayed = true
is_qualifier delayed_stored delayed_stored = true
is_qualifier stored_limited stored_limited = true
is_qualifier _ _ = false
