-- ===== src/Target/Safety.antt =====
-- The safety gate and the HAL behind it, crates/rbcpp_target/src/lib.rs.
pub mod Latch
use robocpp.Base.{Bool, true, false, not, ◌&&◌, ◌||◌, Option, if◌then◌else◌}
use robocpp.Base.Text.{Text, codes}
use robocpp.Base.Result.{Result, ok, err, map_err}
use robocpp.Ir.Value.{Floats, Value}
use robocpp.Target.Symbol.{IoDirection, output, IoSymbol, IoError, permission_denied, TargetHal}

pub record SafetyInputs : Type 0 where
  pub emergency_stop : Bool
  pub protective_stop : Bool
  pub operator_enable : Bool
  pub reset : Bool

pub record SafetyState : Type 0 where
  pub emergency_stop : Bool
  pub protective_stop : Bool
  pub watchdog_expired : Bool
  pub fault_latched : Bool
  pub outputs_enabled : Bool

pub data SafetyTrip : Type 0 where
  emergency_stop protective_stop watchdog_expired fault_latched not_enabled : SafetyTrip

-- `Display`
abbrev pub trip_text : SafetyTrip → Text
trip_text emergency_stop = codes "emergency stop is active"
trip_text protective_stop = codes "protective stop is active"
trip_text watchdog_expired = codes "cycle watchdog expired"
trip_text fault_latched = codes "safety fault is latched"
trip_text not_enabled = codes "operator enable is not active"

pub record SafetyGate : Type 0 where
  pub require_operator_enable : Bool
  pub state : SafetyState

-- `SafetyGate::new`
unfoldable pub new_gate : Bool → SafetyGate
new_gate require = record {
  require_operator_enable = require;
  state = record {
    emergency_stop = false;
    protective_stop = false;
    watchdog_expired = false;
    fault_latched = false;
    outputs_enabled = false;
  };
}

-- `SafetyGate::update`; the state that it returns is the field `state` of the result.
unfoldable pub update : SafetyGate → SafetyInputs → Bool → SafetyGate
update gate inputs expired =
    let active_trip = inputs.emergency_stop || inputs.protective_stop || expired in
    let latched =
      if active_trip then true else if inputs.reset then false else gate.state.fault_latched in
    record gate {
      state = record {
        emergency_stop = inputs.emergency_stop;
        protective_stop = inputs.protective_stop;
        watchdog_expired = expired;
        fault_latched = latched;
        outputs_enabled =
            not latched && (not gate.require_operator_enable || inputs.operator_enable);
      };
    }

-- The checks of `check_output_write` on a symbol whose direction is `Output`.
abbrev pub output_trip : SafetyState → Result SafetyTrip (Unit {0})
output_trip s =
    if s.emergency_stop
    then err emergency_stop
    else if s.protective_stop
    then err protective_stop
    else if s.watchdog_expired
    then err watchdog_expired
    else if s.fault_latched
    then err fault_latched
    else if not s.outputs_enabled
    then err not_enabled
    else ok tt

abbrev pub is_output : IoDirection → Bool
is_output output = true
is_output _ = false

unfoldable pub check_output_write : SafetyGate → IoSymbol → Result SafetyTrip (Unit {0})
check_output_write gate symbol =
    if not (is_output symbol.direction) then ok tt else output_trip gate.state

module _ {F : Floats} {H : Type 0} (hal_ops : TargetHal F H) where
  -- `SafetyGate::write_symbol`
  unfoldable pub gate_write : SafetyGate → H → IoSymbol → Value F → Result SafetyTrip Bool × H
  gate_write gate hal symbol value =
      let (result, hal') = hal_ops.write_symbol hal symbol value in
      elim (check_output_write gate symbol) [
        | err reason ↦ (err reason, hal)
        | ok _ ↦ (map_err (λ _. fault_latched) result, hal')
      ]

pub record SafetyHal (H : Type 0) : Type 0 where
  pub hal : H
  pub gate : SafetyGate

module _ {F : Floats} {H : Type 0} (hal_ops : TargetHal F H) where
  -- `TargetHal for SafetyHal<H>`
  unfoldable pub safe_write : SafetyHal H → IoSymbol → Value F → Result IoError Bool × SafetyHal H
  safe_write safe symbol value =
      let (result, hal') = hal_ops.write_symbol safe.hal symbol value in
      elim (check_output_write safe.gate symbol) [
        | err reason ↦ (err (record { kind = permission_denied; message = trip_text reason }), safe)
        | ok _ ↦ (result, record safe { hal = hal' })
      ]

  abbrev pub safety_hal : TargetHal F (SafetyHal H)
  safety_hal = record {
    read_symbol = λ safe symbol. hal_ops.read_symbol safe.hal symbol;
    write_symbol = safe_write;
  }
