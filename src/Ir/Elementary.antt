-- ===== src/Ir/Elementary.antt =====
-- The elementary types and their keywords, crates/iec_ir/src/lib.rs.
use robocpp.Base.{Bool, true, false, Option, [], ◌∷◌}
use robocpp.Base.Text.{Text, codes, eqb}
use robocpp.Base.Map.{Map, lookup}
use robocpp.Ir.Names.{canonical_identifier}

pub data ElementaryType : Type 0 where
  bool sint int dint lint usint uint udint ulint real lreal : ElementaryType
  byte word dword lword string wstring time date time_of_day date_and_time : ElementaryType

-- The arms of the `match` in `ElementaryType::parse`, in order.
abbrev pub keywords : Map ElementaryType
keywords =
    (codes "BOOL", bool)
    ∷ (codes "SINT", sint)
    ∷ (codes "INT", int)
    ∷ (codes "DINT", dint)
    ∷ (codes "LINT", lint)
    ∷ (codes "USINT", usint)
    ∷ (codes "UINT", uint)
    ∷ (codes "UDINT", udint)
    ∷ (codes "ULINT", ulint)
    ∷ (codes "REAL", real)
    ∷ (codes "LREAL", lreal)
    ∷ (codes "BYTE", byte)
    ∷ (codes "WORD", word)
    ∷ (codes "DWORD", dword)
    ∷ (codes "LWORD", lword)
    ∷ (codes "STRING", string)
    ∷ (codes "WSTRING", wstring)
    ∷ (codes "TIME", time)
    ∷ (codes "DATE", date)
    ∷ (codes "D", date)
    ∷ (codes "TIME_OF_DAY", time_of_day)
    ∷ (codes "TOD", time_of_day)
    ∷ (codes "DATE_AND_TIME", date_and_time)
    ∷ (codes "DT", date_and_time)
    ∷ []

unfoldable pub parse : Text → Option ElementaryType
unfolding lookup canonical_identifier eqb
parse input = lookup (canonical_identifier input) keywords

unfoldable pub is_integer : ElementaryType → Bool
is_integer sint = true
is_integer int = true
is_integer dint = true
is_integer lint = true
is_integer usint = true
is_integer uint = true
is_integer udint = true
is_integer ulint = true
is_integer _ = false

unfoldable pub as_iec : ElementaryType → Text
as_iec bool = codes "BOOL"
as_iec sint = codes "SINT"
as_iec int = codes "INT"
as_iec dint = codes "DINT"
as_iec lint = codes "LINT"
as_iec usint = codes "USINT"
as_iec uint = codes "UINT"
as_iec udint = codes "UDINT"
as_iec ulint = codes "ULINT"
as_iec real = codes "REAL"
as_iec lreal = codes "LREAL"
as_iec byte = codes "BYTE"
as_iec word = codes "WORD"
as_iec dword = codes "DWORD"
as_iec lword = codes "LWORD"
as_iec string = codes "STRING"
as_iec wstring = codes "WSTRING"
as_iec time = codes "TIME"
as_iec date = codes "DATE"
as_iec time_of_day = codes "TIME_OF_DAY"
as_iec date_and_time = codes "DATE_AND_TIME"
