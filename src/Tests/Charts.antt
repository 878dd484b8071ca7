-- ===== src/Tests/Charts.antt =====
-- Charts of three steps.
use robocpp.Base.{◌≡◌, true, false, ◌||◌, ◌&&◌, not, none, some, [], ◌∷◌}
use robocpp.Base.Int.{pos}
use robocpp.Base.Text.{Text, codes}
use robocpp.Ir.Names.{Identifier}
use robocpp.Ir.Value.{Literal}
use robocpp.Ir.Syntax.{literal, SfcStep, SfcStepKind, SfcTransition, Sfc}
use robocpp.Runtime.State.{Runtime}
use robocpp.Runtime.Evolution.{Candidate, contains, is_step_active, set_step}
use robocpp.Runtime.Evolution.Firing.{take}
use robocpp.Runtime.Evolution.Taking.{names, is_step_active-take}
use robocpp.Tests.{whole, fresh}

abbrev step_name : Text → Identifier
step_name name = record { original = name; canonical = name }

abbrev a : Identifier
a = step_name (codes "A")

abbrev b : Identifier
b = step_name (codes "B")

abbrev c : Identifier
c = step_name (codes "C")

abbrev step_of : Identifier → SfcStep whole
step_of name = record { name = name; initial = false; kind = SfcStepKind.step; actions = [] }

-- A transition whose condition is always true
abbrev transition : Identifier → Identifier → SfcTransition whole
transition left entered = record {
  name = none;
  from = left ∷ [];
  to = entered ∷ [];
  condition = some (literal (Literal.bool true));
  priority = none;
}

-- Two transitions leave A.
abbrev chart : Sfc whole
chart = record {
  steps = step_of a ∷ step_of b ∷ step_of c ∷ [];
  transitions = transition a b ∷ transition a c ∷ [];
  actions = [];
}

abbrev at_a : Runtime whole
at_a = set_step true a fresh

abbrev candidate : Identifier → Identifier → Candidate
candidate left entered = record { priority = pos 0; index = 0; from = left ∷ []; to = entered ∷ [] }

is_step_active-take_example : is_step_active b (take (candidate a b) at_a) ≡ (
    contains b.canonical (names (b ∷ []))
    || (not (contains b.canonical (names (a ∷ []))) && is_step_active b at_a))
is_step_active-take_example = is_step_active-take b (candidate a b) at_a
