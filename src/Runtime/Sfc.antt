-- ===== src/Runtime/Sfc.antt =====
-- Action control of sequential function charts, crates/iec_runtime/src/runtime.rs and support.rs.
pub mod Keys
pub mod Untimed
pub mod Timed
pub mod Clash
use robocpp.Base.{
  ℕ, suc, Bool, true, false, not, ◌&&◌, ◌||◌, Option, none, some, if◌then◌else◌, List, [], ◌∷◌,
  ◌++◌, ltb, arith,
}
use robocpp.Base.Int.{ℤ, pos, ◌+ℤ◌, leb_ℤ, max_ℤ}
use robocpp.Base.Text.{Text, codes}
use robocpp.Diagnostics.{Diagnostic, runtime, error_diagnostic}
use robocpp.Ir.Names.{Identifier}
use robocpp.Ir.Qualifier.{
  SfcActionQualifier, non_stored, set_stored, reset_stored, pulse, pulse_falling, time_limited,
  time_delayed, stored_delayed, delayed_stored, stored_limited, requires_duration, is_qualifier,
}
use robocpp.Ir.Value.{Floats, Literal, duration_ms, bool}
use robocpp.Runtime.State.{Runtime}
use Keys.{stored, set_stored_flag, elapsed, set_elapsed, previous, set_previous, advance_elapsed}

pub record SfcActionInput (F : Floats) : Type 0 where
  pub qualifier : SfcActionQualifier
  pub duration : Option (Literal F)
  pub active : Bool

abbrev pub overlap_message : Identifier → Text
overlap_message name =
    codes "SFC action '"
    ++ (name.original ++ codes "' has more than one active time-related association")

module _ {F : Floats} where
  abbrev pub sfc_action_duration_ms : Option (Literal F) → ℤ
  sfc_action_duration_ms (some (duration_ms d)) = max_ℤ d (pos 0)
  sfc_action_duration_ms (some (Literal.int d)) = max_ℤ d (pos 0)
  sfc_action_duration_ms _ = pos 0

  -- `inputs.iter().any(|input| input.active && input.qualifier == q)`
  unfoldable pub any_active : SfcActionQualifier → List (SfcActionInput F) → Bool
  any_active q [] = false
  any_active q (x ∷ xs) = (x.active && is_qualifier x.qualifier q) || any_active q xs

  unfoldable pub any_input : SfcActionQualifier → List (SfcActionInput F) → Bool
  any_input q [] = false
  any_input q (x ∷ xs) = is_qualifier x.qualifier q || any_input q xs

  abbrev pub is_timed : SfcActionInput F → Bool
  is_timed x = x.active && requires_duration x.qualifier

  unfoldable pub count_timed : List (SfcActionInput F) → ℕ
  count_timed [] = 0
  count_timed (x ∷ xs) = let n = count_timed xs in if is_timed x then suc n else n

  unfoldable pub find_timed : List (SfcActionInput F) → Option (SfcActionInput F)
  find_timed [] = none
  find_timed (x ∷ xs) = if is_timed x then some x else find_timed xs

  -- The duration of the first active `SL` input.
  unfoldable pub limit_duration : List (SfcActionInput F) → Option (Literal F)
  limit_duration [] = none
  limit_duration (x ∷ xs) =
      if x.active && is_qualifier x.qualifier stored_limited then x.duration else limit_duration xs

  -- The `match` on the qualifier of the timed input: what it adds to `should_execute`.
  unfoldable pub run_timed : SfcActionQualifier → ℤ → Text → Runtime F → Bool × Runtime F
  run_timed time_limited d key r = let (t, r) = advance_elapsed key r in (leb_ℤ t d, r)
  run_timed time_delayed d key r = let (t, r) = advance_elapsed key r in (leb_ℤ d t, r)
  run_timed stored_delayed d key r =
      let (t, r) = advance_elapsed key r in
      (false, if leb_ℤ d t then set_stored_flag key true r else r)
  run_timed delayed_stored d key r =
      let (t, r) = advance_elapsed key r in
      (false, if leb_ℤ d t then set_stored_flag key true r else r)
  run_timed stored_limited d key r = (
    false,
    if not (stored key r) then set_elapsed key (pos 0) (set_stored_flag key true r) else r,
  )
  run_timed _ d key r = (false, r)

  -- `if let Some(input) = timed_input … else if !stored …`
  unfoldable pub run_timed_input : Option (SfcActionInput F) → Text → Runtime F → Bool × Runtime F
  run_timed_input (some x) key r = run_timed x.qualifier (sfc_action_duration_ms x.duration) key r
  run_timed_input none key r = (false, if not (stored key r) then set_elapsed key (pos 0) r else r)

  -- The last block: a stored and limited action runs until its time is up.
  unfoldable pub run_limit : List (SfcActionInput F) → Text → Bool → Runtime F → Bool × Runtime F
  run_limit inputs key should r =
      let (t, timed) = advance_elapsed key r in
      if any_input stored_limited inputs && stored key r
      then if leb_ℤ t (sfc_action_duration_ms (limit_duration inputs))
        then (true, timed)
        else (false, set_stored_flag key false timed)
      else (should, r)

  -- The body after the check of the time-related inputs.
  unfoldable pub control_action : Text → List (SfcActionInput F) → Runtime F → Bool × Runtime F
  unfolding run_timed_input run_limit
  control_action key inputs r =
      let reset_active = any_active reset_stored inputs in
      let r = if reset_active then set_elapsed key (pos 0) (set_stored_flag key false r) else r in
      let pulse_active = any_active pulse inputs in
      let falling_active = any_active pulse_falling inputs in
      let was_active = previous key r in
      let r = set_previous key (pulse_active || falling_active) r in
      let should =
        (any_active non_stored inputs || (pulse_active && not was_active))
        || (any_input pulse_falling inputs && not falling_active && was_active) in
      let r = if any_active set_stored inputs then set_stored_flag key true r else r in
      let (timed, r) = run_timed_input (find_timed inputs) key r in
      let should = (should || timed) || stored key r in
      let (should, r) = run_limit inputs key should r in (should && not reset_active, r)

  unfoldable pub sfc_action_should_execute :
      Text → Identifier → List (SfcActionInput F) → Runtime F → Bool × Runtime F
  unfolding control_action
  sfc_action_should_execute key name inputs r =
      if ltb 1 (count_timed inputs)
      then (
        false,
        record r {
          diagnostics = r.diagnostics ++ error_diagnostic runtime (overlap_message name) none ∷ [];
        },
      )
      else control_action key inputs r
