-- ===== src/Runtime/Evolution/Taking.antt =====
-- What taking a transition does to the steps of a chart, crates/iec_runtime/src/runtime.rs.
use robocpp.Base.{
  ◌≡◌, refl, ap, ◌∙◌, Bool, true, false, not, ◌&&◌, ◌||◌, List, [], ◌∷◌, arith, if◌then◌else◌,
}
use robocpp.Base.Text.{Text, eqb, eqb-append}
use robocpp.Base.Map.{lookup-insert}
use robocpp.Ir.Names.{Identifier}
use robocpp.Ir.Value.{Floats}
use robocpp.Runtime.State.{Runtime}
use robocpp.Runtime.Evolution.{Candidate, contains, is_step_active, set_step, set_steps}
use robocpp.Runtime.Evolution.Firing.{take}

abbrev pub names : List Identifier → List Text
names [] = []
names (step ∷ steps) = step.canonical ∷ names steps

module _ {F : Floats} where
  is_step_active-set_step :
      (b : Bool) (x step : Identifier) (r : Runtime F)
      → is_step_active x (set_step b step r)
        ≡ (if eqb step.canonical x.canonical then b else is_step_active x r)
  unfolding is_step_active set_step
  is_step_active-set_step b x step r = rw (lookup-insert, eqb-append) (ground arith)

  is_step_active-activate :
      (x : Identifier) (steps : List Identifier) (r : Runtime F)
      → is_step_active x (set_steps true steps r)
        ≡ (contains x.canonical (names steps) || is_step_active x r)
  unfolding set_steps contains
  is_step_active-activate x [] r = refl
  is_step_active-activate x (step ∷ steps) r = ground (
    arith,
    is_step_active-activate x steps (set_step true step r),
    is_step_active-set_step true x step r,
  )

  is_step_active-deactivate :
      (x : Identifier) (steps : List Identifier) (r : Runtime F)
      → is_step_active x (set_steps false steps r)
        ≡ (not (contains x.canonical (names steps)) && is_step_active x r)
  unfolding set_steps contains
  is_step_active-deactivate x [] r = refl
  is_step_active-deactivate x (step ∷ steps) r = ground (
    arith,
    is_step_active-deactivate x steps (set_step false step r),
    is_step_active-set_step false x step r,
  )

  -- After a transition a step is active if the transition enters it, or if it was active and the
  -- transition does not leave it.
  pub is_step_active-take :
      (x : Identifier) (c : Candidate) (r : Runtime F)
      → is_step_active x (take c r) ≡ (
          contains x.canonical (names c.to)
          || (not (contains x.canonical (names c.from)) && is_step_active x r))
  is_step_active-take x c r =
      is_step_active-activate x c.to (set_steps false c.from r)
      ∙ ap (λ b. contains x.canonical (names c.to) || b) (is_step_active-deactivate x c.from r)
