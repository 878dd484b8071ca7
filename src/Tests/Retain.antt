-- ===== src/Tests/Retain.antt =====
-- Retained values of one state.
use robocpp.Base.{true, false, none, ◌≡◌, some, [], ◌∷◌, arith}
use robocpp.Base.Int.{pos, negsuc}
use robocpp.Base.Text.{codes}
use robocpp.Ir.Value.{Value, int, string}
use robocpp.Target.Access.{TargetState}
use robocpp.Target.Retain.{trim_newlines, encode_typed_value, decode_typed_value, Disk}
use robocpp.Target.Retain.Codec.{decode_typed_value-encode_typed_value}
use robocpp.Target.Safety.{SafetyInputs}
use robocpp.Target.Supervisor.{TargetSupervisor, EndClock}
use robocpp.Tests.{whole}

abbrev minus_five : Value whole
minus_five = int (negsuc 4)

decode_typed_value-encode_typed_value_example :
    decode_typed_value {F = whole} (pos 0) (trim_newlines (encode_typed_value minus_five))
    ≡ minus_five
decode_typed_value-encode_typed_value_example =
    decode_typed_value-encode_typed_value (pos 0) minus_five (omega arith)

abbrev text : Value whole
text = string (codes "a:b")

abbrev state : TargetState whole
state = record {
  values = (codes "X", text) ∷ (codes "Y", minus_five) ∷ [];
  retained = codes "X" ∷ codes "Y" ∷ [];
}

abbrev quiet : SafetyInputs
quiet = record {
  emergency_stop = false;
  protective_stop = false;
  operator_enable = true;
  reset = false;
}

-- A supervisor over a disk, with those values or with none
abbrev supervisor : TargetState whole → Disk → TargetSupervisor whole (Unit {0}) Disk
supervisor s disk = record {
  access = record { bindings = []; state = s };
  hal = tt;
  retain_store = some disk;
  watchdog = none;
  safety_gate = none;
  safety_inputs = quiet;
  cycle_started_at = none;
  cycle_count = 0;
  last_cycle_time = none;
}

abbrev clock : EndClock
clock = record { stop = 1; report = 2; refresh = 3; petted = 4 }

abbrev emptied : TargetState whole
emptied = record state { values = [] }
