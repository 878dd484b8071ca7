-- ===== src/Target/Supervisor.antt =====
-- The supervisor of a target's cycles, crates/rbcpp_target/src/lib.rs. A reading of the clock is an
-- argument, and a time is a natural number; the loading and the saving of the retained values, which
-- go through files, are a parameter.
pub mod Guard
use robocpp.Base.{ℕ, suc, ◌-◌, Bool, true, false, Option, none, some, ltb, map_option, unwrap_or}
use robocpp.Base.Text.{Text, codes}
use robocpp.Base.Result.{Result, ok, err, map_err, ◌>>=◌}
use robocpp.Ir.Value.{Floats, Value}
use robocpp.Target.Symbol.{IoSymbol, IoError, TargetHal}
use robocpp.Target.Safety.{SafetyInputs, SafetyState, SafetyGate, update, check_output_write}
use robocpp.Target.Access.{
  TargetError, io, safety, AccessTarget, state, AccessPathBinding, AccessRuntime, binding,
  read_access_with_hal, write_access_with_hal,
}

pub record CycleWatchdog : Type 0 where
  pub timeout : ℕ
  pub last_pet : ℕ

-- `CycleWatchdog::new` and `pet`
abbrev pub new_watchdog : ℕ → ℕ → CycleWatchdog
new_watchdog now timeout = record { timeout = timeout; last_pet = now }

abbrev pub pet : ℕ → CycleWatchdog → CycleWatchdog
pet now w = record w { last_pet = now }

-- `Instant::elapsed` is 0 for a later instant.
abbrev pub expired : ℕ → CycleWatchdog → Bool
expired now w = ltb w.timeout (now - w.last_pet)

pub record TargetCycleReport : Type 0 where
  pub cycle : ℕ
  pub elapsed : ℕ
  pub watchdog_expired : Bool
  pub retained_saved : Bool
  pub safety_state : Option SafetyState

-- The readings of the clock in `end_cycle`, in order.
pub record EndClock : Type 0 where
  pub stop : ℕ
  pub report : ℕ
  pub refresh : ℕ
  pub petted : ℕ

-- `load_retained` and `save_retained` of `AccessRuntime`, over a store `S`.
pub record Retain (F : Floats) (S : Type 0) : Type 0 where
  pub load_retained : S → AccessRuntime F → Result IoError Unit × AccessRuntime F
  pub save_retained : S → AccessRuntime F → Result IoError Unit × S

pub record TargetSupervisor (F : Floats) (H S : Type 0) : Type 0 where
  pub access : AccessRuntime F
  pub hal : H
  pub retain_store : Option S
  pub watchdog : Option CycleWatchdog
  pub safety_gate : Option SafetyGate
  pub safety_inputs : SafetyInputs
  pub cycle_started_at : Option ℕ
  pub cycle_count : ℕ
  pub last_cycle_time : Option ℕ

-- The check of the gate before a write to I/O.
abbrev pub check_gate :
    Option SafetyGate → AccessPathBinding → AccessTarget → Result TargetError Unit
check_gate (some gate) b (AccessTarget.io symbol) =
    map_err (λ reason. safety b.name reason) (check_output_write gate symbol)
check_gate _ b target = ok tt

module _ {F : Floats} {S : Type 0} (retain : Retain F S) where
  -- `save_retained`
  abbrev pub save_retained_values : Option S → AccessRuntime F → Result TargetError Bool × Option S
  save_retained_values none access = (ok false, none)
  save_retained_values (some store) access =
      let (done, store') = retain.save_retained store access in
      (map_err (λ (e : IoError). io (codes "retain") e.message) done >>= λ _. ok true, some store')

module _ {F : Floats} {H S : Type 0} where
  -- `watchdog_expired`
  abbrev pub is_expired : ℕ → TargetSupervisor F H S → Bool
  is_expired now s = elim s.watchdog [ none ↦ false | some w ↦ expired now w ]

  unfoldable pub refresh_safety_state :
      ℕ → TargetSupervisor F H S → Option SafetyState × TargetSupervisor F H S
  refresh_safety_state now s =
      let gate = map_option (λ g. update g s.safety_inputs (is_expired now s)) s.safety_gate in
      (map_option (λ (g : SafetyGate). g.state) gate, record s { safety_gate = gate })

  -- The clock is read once for the start and once for the watchdog.
  unfoldable pub begin_cycle :
      ℕ → ℕ → TargetSupervisor F H S → Option SafetyState × TargetSupervisor F H S
  begin_cycle started now s =
      refresh_safety_state now (record s { cycle_started_at = some started })

  module _ (ops : TargetHal F H) where
    unfoldable pub supervised_read :
        Text → TargetSupervisor F H S → Result TargetError (Option (Value F))
    supervised_read name s = read_access_with_hal ops name s.access s.hal

    -- `write_access`
    abbrev pub supervised_write_checked :
        Result TargetError Unit
        → Text
        → Value F
        → TargetSupervisor F H S
        → Result TargetError Bool × TargetSupervisor F H S
    supervised_write_checked (err e) name v s = (err e, s)
    supervised_write_checked (ok _) name v s =
        let out = write_access_with_hal ops name v s.access s.hal in
        (out.0, record s { access = out.1.0; hal = out.1.1 })

    unfoldable pub supervised_write :
        Text → Value F → TargetSupervisor F H S → Result TargetError Bool × TargetSupervisor F H S
    supervised_write name v s =
        supervised_write_checked
          (binding name s.access >>= λ b. check_gate s.safety_gate b b.target_binding) name v s

  -- What is left of `end_cycle` when the retained values are saved or not.
  abbrev pub finish_cycle :
      Result TargetError Bool
      → EndClock
      → Bool
      → ℕ
      → Option SafetyState
      → TargetSupervisor F H S
      → Result TargetError TargetCycleReport × TargetSupervisor F H S
  finish_cycle (err e) clock late elapsed safety_state s = (err e, s)
  finish_cycle (ok saved) clock late elapsed safety_state s = (
    ok (record {
      cycle = suc s.cycle_count;
      elapsed = elapsed;
      watchdog_expired = late;
      retained_saved = saved;
      safety_state = safety_state;
    }),
    record s {
      watchdog = map_option (pet clock.petted) s.watchdog;
      cycle_count = suc s.cycle_count;
    },
  )

  module _ (retain : Retain F S) where
    abbrev pub restore_retained :
        TargetSupervisor F H S → Result IoError Unit × TargetSupervisor F H S
    restore_retained s = elim s.retain_store [
      | none ↦ (ok tt, s)
      | some store ↦
          let (done, access) = retain.load_retained store s.access in
          (done, record s { access = access })
    ]

    -- `cold_start` and `warm_start`
    unfoldable pub cold_start :
        ℕ → TargetSupervisor F H S → Result IoError Unit × TargetSupervisor F H S
    cold_start now s =
        let (done, s) = restore_retained s in
        elim done [
          | err e ↦ (err e, s)
          | ok _ ↦ (ok tt, record s { watchdog = map_option (pet now) s.watchdog })
        ]

    unfoldable pub end_cycle :
        EndClock
        → TargetSupervisor F H S
        → Result TargetError TargetCycleReport × TargetSupervisor F H S
    end_cycle clock s =
        let elapsed =
          unwrap_or 0 (map_option (λ started. clock.stop - started) s.cycle_started_at) in
        let s = record s { cycle_started_at = none; last_cycle_time = some elapsed } in
        let late = is_expired clock.report s in
        let (safety_state, s) = refresh_safety_state clock.refresh s in
        let (saved, store) = save_retained_values retain s.retain_store s.access in
        let s = record s { retain_store = store } in
        finish_cycle saved clock late elapsed safety_state s
