-- ===== src/Runtime/Evolution/Firing.antt =====
-- Which transitions of a sequential function chart are fired in a cycle, `execute_sfc` of
-- crates/iec_runtime/src/runtime.rs.
use mathlib.Core.List.{Memᴰ}
use robocpp.Base.{◌≡◌, ◌⊎◌, true, false, List, [], ◌∷◌, if◌then◌else◌}
use robocpp.Base.Text.{Text}
use robocpp.Ir.Value.{Floats}
use robocpp.Runtime.State.{Runtime}
use robocpp.Runtime.Evolution.{Candidate, any_consumed, consume, set_steps}

-- The candidates that are fired, of which the steps are left in one cycle.
unfoldable pub fired : List Text → List Candidate → List Candidate
fired consumed [] = []
fired consumed (c ∷ cs) =
    let skipped = fired consumed cs in
    let rest = fired (consume c.from consumed) cs in
    if any_consumed consumed c.from then skipped else c ∷ rest

-- One transition: the steps it leaves are set to inactive, then those it enters to active.
abbrev pub take : {F : Floats} → Candidate → Runtime F → Runtime F
take c r = set_steps true c.to (set_steps false c.from r)

unfoldable pub take_all : {F : Floats} → List Candidate → Runtime F → Runtime F
take_all [] r = r
take_all (c ∷ cs) r = take_all cs (take c r)

-- No step of the candidate is among the names.
abbrev pub Apart : List Text → Candidate → Type 0
Apart names c = any_consumed names c.from ≡ false

-- The names of the steps that a candidate leaves
abbrev pub left : Candidate → List Text
left c = consume c.from []

abbrev pub AllApart : List Text → List Candidate → Type 0
AllApart names [] = Unit
AllApart names (c ∷ cs) = Apart names c × AllApart names cs

-- No two candidates leave the same step.
abbrev pub Disjoint : List Candidate → Type 0
Disjoint [] = Unit
Disjoint (c ∷ cs) = AllApart (left c) cs × Disjoint cs

-- The names of the steps that the candidates leave, before others
unfoldable pub all_left : List Candidate → List Text → List Text
all_left [] names = names
all_left (c ∷ cs) names = all_left cs (consume c.from names)

-- Each candidate is one of `taken`, or leaves a step of those names.
abbrev pub Settled : List Candidate → List Text → List Candidate → Type 0
Settled taken names [] = Unit
Settled taken names (c ∷ cs) =
    (Memᴰ c taken ⊎ (any_consumed names c.from ≡ true)) × Settled taken names cs
