-- ===== src/Ir/Display.antt =====
-- `Display` of values, crates/iec_ir/src/lib.rs.
use robocpp.Base.{true, false, ◌++◌, []}
use robocpp.Base.Text.{Text, codes}
use robocpp.Base.Decimal.{print_ℤ}
use robocpp.Ir.Value.{
  Floats, Value, bool, int, real, string, wstring, time_ms, array, struct, unit, Values, nil, cons,
  Fields, end, field,
}

unfoldable mutual
  pub show : {F : Floats} → Value F → Text
  show (bool true) = codes "TRUE"
  show (bool false) = codes "FALSE"
  show (int n) = print_ℤ n
  show {F} (real x) = F.show x
  show (string t) = codes "'" ++ (t ++ codes "'")
  show (wstring t) = codes "\"" ++ (t ++ codes "\"")
  show (time_ms t) = codes "T#" ++ (print_ℤ t ++ codes "ms")
  show (array vs) = codes "[" ++ (show_all vs ++ codes "]")
  show (struct fs) = codes "(" ++ (show_fields fs ++ codes ")")
  show unit = codes "<unit>"

  -- `join(", ")`
  pub show_all : {F : Floats} → Values F → Text
  show_all nil = []
  show_all (cons v nil) = show v
  show_all (cons v (cons w vs)) = show v ++ (codes ", " ++ show_all (cons w vs))

  pub show_fields : {F : Floats} → Fields F → Text
  show_fields end = []
  show_fields (field name v end) = name ++ (codes " := " ++ show v)
  show_fields (field name v (field name' w fs)) =
      name ++ (codes " := " ++ (show v ++ (codes ", " ++ show_fields (field name' w fs))))
