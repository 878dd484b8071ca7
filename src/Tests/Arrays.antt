-- ===== src/Tests/Arrays.antt =====
-- An array of two by three elements.
use robocpp.Base.{List, [], ◌∷◌}
use robocpp.Base.Int.{pos, negsuc}
use robocpp.Ir.Value.{Literal}
use robocpp.Ir.Syntax.{Expr, literal, Subrange}
use robocpp.Tests.{whole}

-- ARRAY[-1..0, 5..7]
abbrev ranges : List Subrange
ranges = record { low = negsuc 0; high = pos 0 } ∷ record { low = pos 5; high = pos 7 } ∷ []

abbrev indices : List (Expr whole)
indices = literal (Literal.int (pos 0)) ∷ literal (Literal.int (pos 6)) ∷ []
