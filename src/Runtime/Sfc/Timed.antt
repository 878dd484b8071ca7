-- ===== src/Runtime/Sfc/Timed.antt =====
-- SFC actions with one time-related association that stays active, over successive scans,
-- crates/iec_runtime/src/runtime.rs.
use robocpp.Base.{
  ℕ, zero, suc, ◌+◌, ◌*◌, ◌<◌, ◌≡◌, refl, Bool, true, false, some, List, [], ◌∷◌, arith, ◌∙◌, ap,
  leb,
}
use robocpp.Base.Int.{pos, max_ℤ, ◌+ℤ◌, wrap_i64_id}
use robocpp.Base.Text.{Text}
use robocpp.Ir.Names.{Identifier}
use robocpp.Ir.Qualifier.{SfcActionQualifier, time_limited, time_delayed}
use robocpp.Ir.Value.{Floats, duration_ms}
use robocpp.Runtime.State.{Runtime}
use robocpp.Runtime.Sfc.Keys.{stored, elapsed, advance_elapsed, action_laws}
use robocpp.Runtime.Sfc.{
  SfcActionInput, any_active, any_input, count_timed, find_timed, run_timed,
  sfc_action_should_execute,
}

abbrev pub association : {F : Floats} → SfcActionQualifier → ℕ → List (SfcActionInput F)
association q d =
    record { qualifier = q; duration = some (duration_ms (pos d)); active = true } ∷ []

pos_sum : (e k : ℕ) → pos e +ℤ pos k ≡ pos (e + k)
unfolding ◌+ℤ◌
pos_sum e k = ground arith

module _ {F : Floats} (key : Text) (name : Identifier) (d : ℕ) where
  abbrev control : SfcActionQualifier → Runtime F → Bool × Runtime F
  control q = sfc_action_should_execute key name (association q d)

  -- The state after `n` scans with the association active.
  unfoldable pub scanned : SfcActionQualifier → ℕ → Runtime F → Runtime F
  scanned q zero r = r
  scanned q (suc n) r = (control q (scanned q n r)).1

  module _ (k : ℕ) where
    abbrev Timing : ℕ → Runtime F → Type 0
    Timing e r =
        (max_ℤ r.options.cycle_time_ms (pos 1) ≡ pos k)
        × (elapsed key r ≡ pos e)
        × (stored key r ≡ false)

    -- One scan while the action is not stored and `e` ms have passed.
    limited_step :
        (e : ℕ) (r : Runtime F)
        → Timing e r
        → e + k < 0x8000_0000_0000_0000
        → ((control time_limited r).0 ≡ leb (e + k) d) × Timing (e + k) (control time_limited r).1
    unfolding sfc_action_should_execute run_timed advance_elapsed count_timed find_timed any_active
        any_input
    limited_step e r (c, t, s) room =
        simp (action_laws, s, t, c, pos_sum)
          (ground arith, (refl, wrap_i64_id (pos (e + k)) (omega arith), refl))

    delayed_step :
        (e : ℕ) (r : Runtime F)
        → Timing e r
        → e + k < 0x8000_0000_0000_0000
        → ((control time_delayed r).0 ≡ leb d (e + k)) × Timing (e + k) (control time_delayed r).1
    unfolding sfc_action_should_execute run_timed advance_elapsed count_timed find_timed any_active
        any_input
    delayed_step e r (c, t, s) room =
        simp (action_laws, s, t, c, pos_sum)
          (ground arith, (refl, wrap_i64_id (pos (e + k)) (omega arith), refl))

    module _ (r : Runtime F) (start : Timing 0 r) where
      limited_lem :
          (n : ℕ) → n * k < 0x8000_0000_0000_0000 → Timing (n * k) (scanned time_limited n r)
      unfolding scanned
      limited_lem zero room = (start.0, start.1 ∙ ap pos (omega arith), start.2)
      limited_lem (suc n) room =
          let s = scanned time_limited n r in
          let after = (limited_step (n * k) s (limited_lem n (omega arith)) (omega arith)).1 in
          (after.0, after.1 ∙ ap pos (omega arith), after.2)

      delayed_lem :
          (n : ℕ) → n * k < 0x8000_0000_0000_0000 → Timing (n * k) (scanned time_delayed n r)
      unfolding scanned
      delayed_lem zero room = (start.0, start.1 ∙ ap pos (omega arith), start.2)
      delayed_lem (suc n) room =
          let s = scanned time_delayed n r in
          let after = (delayed_step (n * k) s (delayed_lem n (omega arith)) (omega arith)).1 in
          (after.0, after.1 ∙ ap pos (omega arith), after.2)

      -- An action with one association that stays active, from a scan where it is neither stored
      -- nor timed: under `L` it runs in the scans up to the duration, under `D` in those from the
      -- duration on, in cycles of `k` ms, as long as `i64` holds the elapsed time.
      pub timed_window :
          (n : ℕ)
          → suc n * k < 0x8000_0000_0000_0000
          → ((control time_limited (scanned time_limited n r)).0 ≡ leb (suc n * k) d)
            × ((control time_delayed (scanned time_delayed n r)).0 ≡ leb d (suc n * k))
      timed_window n room =
          let limited =
            limited_step (n * k) (scanned time_limited n r) (limited_lem n (omega arith))
              (omega arith) in
          let delayed =
            delayed_step (n * k) (scanned time_delayed n r) (delayed_lem n (omega arith))
              (omega arith) in
          (limited.0 ∙ ground arith, delayed.0 ∙ ground arith)
