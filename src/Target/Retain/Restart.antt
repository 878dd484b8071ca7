-- ===== src/Target/Retain/Restart.antt =====
-- The retained values after a restart, crates/rbcpp_target/src/lib.rs.
use robocpp.Base.{◌≡◌, true, Option, some, List, [], ◌∷◌}
use robocpp.Base.Text.{Text, eqb}
use robocpp.Base.Map.{Map, lookup}
use robocpp.Ir.Value.{Floats, Value}
use robocpp.Target.Retain.{encode_typed_value, Disk, path_for}

-- The files of the names are different ones.
abbrev pub Separate : Text → List Text → Type 0
Separate name [] = Unit
Separate name (other ∷ others) =
    ((eqb (path_for other) (path_for name) ≡ true) → other ≡ name) × Separate name others

module _ {F : Floats} where
  -- The file of a name holds the line of a value.
  abbrev Holds : Text → Value F → Disk → Type 0
  Holds name v disk = lookup (path_for name) disk ≡ some (encode_typed_value v)
