-- ===== src/Tests/Supervisor.antt =====
-- A supervisor whose watchdog runs out, with one lamp on an output.
use robocpp.Base.{◌≡◌, ◌≢◌, ◌⊎◌, refl, true, false, none, some, [], ◌∷◌}
use robocpp.Base.Text.{codes}
use robocpp.Base.Result.{ok}
use robocpp.Ir.Names.{read_write}
use robocpp.Ir.Value.{Value}
use robocpp.Target.Symbol.{IoSymbol, output, TargetHal}
use robocpp.Target.Safety.{SafetyInputs, SafetyGate}
use robocpp.Target.Access.{AccessPathBinding, AccessTarget}
use robocpp.Target.Modbus.Image.{ModbusPoint, ModbusHal, coil, modbus_hal}
use robocpp.Target.Supervisor.{Retain, TargetSupervisor, EndClock, end_cycle, supervised_write}
use robocpp.Target.Supervisor.Guard.{Reached, supervised_write_guarded, overrun_blocks_outputs}
use robocpp.Tests.{whole}

abbrev lamp_symbol : IoSymbol
lamp_symbol = record {
  name = codes "lamp";
  location = codes "%QX0.0";
  direction = output;
  type_name = codes "BOOL";
}

abbrev lamp_path : AccessPathBinding
lamp_path = record {
  name = codes "lamp";
  target = codes "%QX0.0";
  direction = read_write;
  type_name = codes "BOOL";
  target_binding = AccessTarget.io lamp_symbol;
}

abbrev lamp_point : ModbusPoint
lamp_point = record { unit_id = 1; area = coil; address = 0 }

abbrev lamp_hal : ModbusHal
lamp_hal = record {
  bindings = (codes "LAMP", lamp_point) ∷ [];
  image = record { bits = []; registers = [] };
}

abbrev lamp_ops : TargetHal whole ModbusHal
lamp_ops = modbus_hal

-- A store that keeps nothing.
abbrev no_retain : Retain whole (Unit {0})
no_retain = record {
  load_retained = λ store access. (ok tt, access);
  save_retained = λ store access. (ok tt, store);
}

abbrev quiet : SafetyInputs
quiet = record {
  emergency_stop = false;
  protective_stop = false;
  operator_enable = true;
  reset = false;
}

abbrev open_gate : SafetyGate
open_gate = record {
  require_operator_enable = false;
  state = record {
    emergency_stop = false;
    protective_stop = false;
    watchdog_expired = false;
    fault_latched = false;
    outputs_enabled = true;
  };
}

abbrev late_supervisor : TargetSupervisor whole ModbusHal (Unit {0})
late_supervisor = record {
  access = record {
    bindings = (codes "LAMP", lamp_path) ∷ [];
    state = record { values = []; retained = [] };
  };
  hal = lamp_hal;
  retain_store = some tt;
  watchdog = some (record { timeout = 5; last_pet = 0 });
  safety_gate = some open_gate;
  safety_inputs = quiet;
  cycle_started_at = some 1;
  cycle_count = 0;
  last_cycle_time = none;
}

abbrev late_clock : EndClock
late_clock = record { stop = 9; report = 10; refresh = 11; petted = 12 }

abbrev lamp_on : Value whole
lamp_on = Value.bool true

supervised_write_guarded_example :
    ((supervised_write lamp_ops (codes "lamp") lamp_on late_supervisor).1.hal ≡ lamp_hal)
    ⊎ ((b : AccessPathBinding) × (symbol : IoSymbol) × Reached lamp_ops
          (codes "lamp")
          late_supervisor
          b
          symbol)
supervised_write_guarded_example =
    supervised_write_guarded lamp_ops (codes "lamp") lamp_on late_supervisor

overrun_blocks_outputs_example :
    let s' = (end_cycle no_retain late_clock late_supervisor).1 in
    ((supervised_write lamp_ops (codes "lamp") lamp_on s').1.hal ≡ s'.hal)
    ⊎ ((b : AccessPathBinding) × (symbol : IoSymbol) × Reached lamp_ops (codes "lamp") s' b symbol
        × (symbol.direction ≢ output))
overrun_blocks_outputs_example =
    overrun_blocks_outputs lamp_ops no_retain late_clock late_supervisor open_gate (codes "lamp")
      lamp_on refl refl
