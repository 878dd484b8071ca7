-- ===== src/Runtime/Sfc/Clash.antt =====
-- The keys of an action `A` and of an action `PREVIOUS_A` are not disjoint,
-- crates/iec_runtime/src/support.rs.
use robocpp.Base.{
  List, Bool-cases, inl, inr, ◌≡◌, refl, true, false, none, ◌++◌, [], ◌∷◌, arith, ◌∙◌,
}
use robocpp.Base.Text.{Text, codes}
use robocpp.Ir.Names.{Identifier}
use robocpp.Ir.Qualifier.{pulse, non_stored}
use robocpp.Ir.Value.{Floats}
use robocpp.Runtime.State.{Runtime}
use robocpp.Runtime.Sfc.Keys.{
  stored, action_laws, stored-set_previous_clash, stored-set_elapsed_clash,
}
use robocpp.Runtime.Sfc.{
  SfcActionInput, sfc_action_should_execute, any_active, any_input, count_timed, find_timed,
}
use robocpp.Runtime.Sfc.Untimed.{untimed_control}

module _ {F : Floats} (key : Text) (name : Identifier) (r : Runtime F) where
  abbrev pub pulsing : List (SfcActionInput F)
  pulsing = record { qualifier = pulse; duration = none; active = true } ∷ []

  abbrev pub waiting : List (SfcActionInput F)
  waiting = record { qualifier = non_stored; duration = none; active = false } ∷ []

  abbrev pulsed : Runtime F
  pulsed = (sfc_action_should_execute key name pulsing r).1

  stored_by_pulse : stored (codes "PREVIOUS_" ++ key) pulsed ≡ true
  unfolding sfc_action_should_execute count_timed find_timed any_active any_input
  stored_by_pulse = elim (Bool-cases (stored key r)) [
    | inl s ↦ simp (s, action_laws, stored-set_previous_clash)
    | inr s ↦ simp (s, action_laws, stored-set_previous_clash, stored-set_elapsed_clash)
  ]

  -- An active pulse association of an action `A` makes the action `PREVIOUS_A` run in the same scan,
  -- though no step that `PREVIOUS_A` is associated with is active, whatever the state was before.
  pub pulse_runs_other :
      (other : Identifier)
      → (sfc_action_should_execute (codes "PREVIOUS_" ++ key) other waiting pulsed).0 ≡ true
  unfolding count_timed any_active any_input
  pulse_runs_other other =
      (untimed_control (codes "PREVIOUS_" ++ key) other waiting pulsed refl refl).0
      ∙ rw stored_by_pulse (ground arith)
