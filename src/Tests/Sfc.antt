-- ===== src/Tests/Sfc.antt =====
-- Actions of sequential function charts on one state each.
use robocpp.Base.{◌≡◌, refl, true, false, none, List, [], ◌∷◌, arith}
use robocpp.Base.Text.{codes}
use robocpp.Base.Map.{lookup}
use robocpp.Ir.Names.{Identifier}
use robocpp.Ir.Qualifier.{non_stored, pulse, set_stored, reset_stored, time_limited, time_delayed}
use robocpp.Runtime.Sfc.{
  SfcActionInput, sfc_action_should_execute, any_active, any_input, count_timed,
}
use robocpp.Runtime.Sfc.Keys.{stored, previous, elapsed}
use robocpp.Runtime.Sfc.Untimed.{untimed_control}
use robocpp.Runtime.Sfc.Timed.{timed_window, association, scanned}
use robocpp.Runtime.Sfc.Clash.{pulse_runs_other}
use robocpp.Tests.{whole, fresh}

abbrev action : Identifier
action = record { original = codes "a"; canonical = codes "A" }

-- `S` and `R` at once.
abbrev set_and_reset : List (SfcActionInput whole)
set_and_reset =
    record { qualifier = set_stored; duration = none; active = true }
    ∷ record { qualifier = reset_stored; duration = none; active = true }
    ∷ []

-- The action does not run, and stays stored.
untimed_control_example :
    let after = sfc_action_should_execute (codes "A") action set_and_reset fresh in
    (after.0 ≡ false)
    × (stored (codes "A") after.1 ≡ true)
    × (previous (codes "A") after.1 ≡ false)
    × (after.1.diagnostics ≡ [])
unfolding any_active any_input count_timed
untimed_control_example = untimed_control (codes "A") action set_and_reset fresh refl refl

timed_window_example :
    ((sfc_action_should_execute
        (codes "A")
        action
        (association {F = whole} time_limited 20)
        (scanned (codes "A") action 20 time_limited 2 fresh)).0
      ≡ false)
    × ((sfc_action_should_execute
          (codes "A")
          action
          (association {F = whole} time_delayed 20)
          (scanned (codes "A") action 20 time_delayed 2 fresh)).0
        ≡ true)
unfolding elapsed stored lookup
timed_window_example =
    timed_window (codes "A") action 20 10 fresh (refl, refl, refl) 2 (omega arith)

pulse_runs_other_example :
    (sfc_action_should_execute
      (codes "PREVIOUS_A")
      action
      (record { qualifier = non_stored; duration = none; active = false } ∷ [])
      (sfc_action_should_execute
        (codes "A")
        action
        (record { qualifier = pulse; duration = none; active = true } ∷ [])
        fresh).1).0
    ≡ true
pulse_runs_other_example = pulse_runs_other (codes "A") action fresh action
