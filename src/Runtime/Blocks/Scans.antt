-- ===== src/Runtime/Blocks/Scans.antt =====
-- A history of calls of one function block instance. The newest inputs come first.
use robocpp.Base.{List, [], ◌∷◌}
use robocpp.Base.Text.{Text}
use robocpp.Base.Map.{Map}
use robocpp.Ir.Value.{Floats, Value}
use robocpp.Runtime.State.{Runtime}

abbrev pub Inputs : Floats → Type 0
Inputs F = Map (Value F)

module _ {F : Floats} where
  -- The state after the calls of a history.
  unfoldable pub scans :
      (Text → Inputs F → Runtime F → Runtime F) → Text → List (Inputs F) → Runtime F → Runtime F
  scans exec i [] r = r
  scans exec i (x ∷ older) r = exec i x (scans exec i older r)

  -- Something holds of the inputs of every call.
  abbrev pub Each {ℓ} : (Inputs F → Type ℓ) → List (Inputs F) → Type ℓ
  Each P [] = Unit
  Each P (x ∷ older) = P x × Each P older
