-- ===== src/Runtime/Sfc/Untimed.antt =====
-- SFC actions whose active associations have no time, crates/iec_runtime/src/runtime.rs.
use robocpp.Base.{
  ◌≡◌, refl, false, not, ◌&&◌, ◌||◌, none, List, [], ◌∷◌, arith, Bool-cases, inl, inr,
}
use robocpp.Base.Text.{Text}
use robocpp.Ir.Names.{Identifier}
use robocpp.Ir.Qualifier.{
  non_stored, set_stored, reset_stored, pulse, pulse_falling, stored_limited,
}
use robocpp.Ir.Value.{Floats}
use robocpp.Runtime.State.{Runtime}
use robocpp.Runtime.Sfc.Keys.{stored, previous, action_laws}
use robocpp.Runtime.Sfc.{
  SfcActionInput, any_active, any_input, count_timed, find_timed, sfc_action_should_execute,
}

module _ {F : Floats} where
  find_timed-none : (xs : List (SfcActionInput F)) → count_timed xs ≡ 0 → find_timed xs ≡ none
  unfolding count_timed find_timed
  find_timed-none [] h = refl
  find_timed-none (x ∷ xs) h = ground (arith, find_timed-none xs)

  -- Without an active time-related association and without a limited one (`SL`), the action runs
  -- exactly if no `R` is active and it is stored, set by `S`, active by `N`, or at the edge of a
  -- pulse; then `S` and `R` decide what is stored, and the state of the pulse is kept.
  pub untimed_control :
      (key : Text) (name : Identifier) (xs : List (SfcActionInput F)) (r : Runtime F)
      → count_timed xs ≡ 0
      → any_input stored_limited xs ≡ false
      → let after = sfc_action_should_execute key name xs r in
        let pulses = any_active pulse xs && not (previous key r) in
        let falls =
          any_input pulse_falling xs && not (any_active pulse_falling xs) && previous key r in
        (after.0 ≡ (
          not (any_active reset_stored xs)
          && (any_active non_stored xs
              || pulses
              || falls
              || any_active set_stored xs
              || stored key r)))
        × (stored key after.1
            ≡ (any_active set_stored xs || (not (any_active reset_stored xs) && stored key r)))
        × (previous key after.1 ≡ (any_active pulse xs || any_active pulse_falling xs))
        × (after.1.diagnostics ≡ r.diagnostics)
  unfolding sfc_action_should_execute
  untimed_control key name xs r untimed unlimited =
      rw (untimed, unlimited, find_timed-none xs untimed)
        (elim (Bool-cases (any_active reset_stored xs)) [
          | inl reset ↦ elim (Bool-cases (any_active set_stored xs)) [
            | inl sets ↦ simp (reset, sets, action_laws) (ground arith, refl, refl, refl)
            | inr sets ↦ simp (reset, sets, action_laws) (ground arith, refl, refl, refl)
          ]
          | inr reset ↦ elim (Bool-cases (any_active set_stored xs)) [
            | inl sets ↦ simp (reset, sets, action_laws) (ground arith, refl, refl, refl)
            | inr sets ↦ elim (Bool-cases (stored key r)) [
              | inl s ↦ simp (reset, sets, s, action_laws) (ground arith, refl, refl, refl)
              | inr s ↦ simp (reset, sets, s, action_laws) (ground arith, refl, refl, refl)
            ]
          ]
        ])
