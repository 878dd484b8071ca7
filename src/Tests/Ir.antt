-- ===== src/Tests/Ir.antt =====
-- The spellings of types and qualifiers, on one spelling each.
use robocpp.Base.{◌≡◌, ◌↔◌, some}
use robocpp.Base.Text.{codes}
use robocpp.Ir.Names.{canonical_identifier}
use robocpp.Ir.Elementary
use robocpp.Ir.Elementary.{time_of_day}
use robocpp.Ir.Qualifier
use robocpp.Ir.Qualifier.{pulse}
use robocpp.Ir.RoundTrip.{SpellsType, SpellsQualifier, parse_type_iff, parse_qualifier_iff}

parse_type_iff_example :
    (Elementary.parse (codes " tod ") ≡ some time_of_day)
    ↔ SpellsType time_of_day (canonical_identifier (codes " tod "))
parse_type_iff_example = parse_type_iff (codes " tod ") time_of_day

parse_qualifier_iff_example :
    (Qualifier.parse (codes "p1") ≡ some pulse)
    ↔ SpellsQualifier pulse (canonical_identifier (codes "p1"))
parse_qualifier_iff_example = parse_qualifier_iff (codes "p1") pulse
