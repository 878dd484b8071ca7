-- ===== src/Tests/Blocks.antt =====
-- Function blocks on one history each, at a cycle of 10 ms.
use robocpp.Base.{◌≡◌, refl, Bool, true, false, List, [], ◌∷◌, arith}
use robocpp.Base.Int.{pos, ◌+ℤ◌, leb_ℤ}
use robocpp.Base.Text.{codes, eqb, trim, to_ascii_uppercase}
use robocpp.Base.Map.{lookup}
use robocpp.Ir.Names.{canonical_identifier}
use robocpp.Ir.Value.{bool, int, time_ms}
use robocpp.Runtime.State.{
  get_field_bool, get_field_time_ms, get_field_i64, input_bool, input_time_ms, field_key, input_i64,
}
use robocpp.Runtime.Blocks.{
  execute_ton, execute_tof, execute_tp, execute_r_trig, execute_f_trig, execute_sr, execute_rs,
  execute_ctud,
}
use robocpp.Runtime.Blocks.Timers.{et, q}
use robocpp.Runtime.Blocks.Scans.{Inputs, scans}
use robocpp.Runtime.Blocks.Delays.{ton_on_delay, tof_off_delay}
use robocpp.Runtime.Blocks.Pulse.{tp_pulse}
use robocpp.Runtime.Blocks.Edges.{trig_edges, latch_dominance}
use robocpp.Runtime.Blocks.Counters.{ctud_balance}
use robocpp.Tests.{whole, fresh}

abbrev timer_in : Bool → Inputs whole
timer_in b = (codes "IN", bool b) ∷ (codes "PT", time_ms (pos 20)) ∷ []

abbrev history : List (Inputs whole)
history = timer_in true ∷ timer_in true ∷ timer_in false ∷ []

ton_on_delay_example :
    (et (scans execute_ton (codes "T") history fresh) (codes "T") ≡ pos 20)
    × (q (scans execute_ton (codes "T") history fresh) (codes "T") ≡ true)
unfolding input_bool input_i64 input_time_ms get_field_time_ms get_field_i64 get_field_bool
    canonical_identifier trim to_ascii_uppercase lookup eqb field_key
ton_on_delay_example =
    ton_on_delay (codes "T") 10 20 fresh (omega arith) refl refl refl history
      (refl, (refl, (refl, tt)))

-- The input is off for one call after it was on.
tof_off_delay_example :
    (et (scans execute_tof (codes "T") (timer_in false ∷ history) fresh) (codes "T") ≡ pos 10)
    × (q (scans execute_tof (codes "T") (timer_in false ∷ history) fresh) (codes "T") ≡ true)
unfolding input_bool input_i64 input_time_ms get_field_time_ms get_field_i64 get_field_bool
    canonical_identifier trim to_ascii_uppercase lookup eqb field_key
tof_off_delay_example =
    tof_off_delay (codes "T") 10 20 fresh (omega arith) refl refl refl (timer_in false ∷ history)
      (refl, (refl, (refl, (refl, tt))))

-- A pulse of 20 ms, its input off again in the second call.
tp_pulse_example :
    let s =
      scans execute_tp
        (codes "T")
        (timer_in false ∷ [])
        (execute_tp (codes "T") (timer_in true) fresh) in
    (et s (codes "T") ≡ pos 20) × (q s (codes "T") ≡ false)
unfolding input_bool input_i64 input_time_ms get_field_time_ms get_field_i64 get_field_bool
    canonical_identifier trim to_ascii_uppercase lookup eqb field_key
tp_pulse_example =
    tp_pulse (codes "T") 10 20 fresh (timer_in true) (omega arith) refl refl refl refl refl
      (timer_in false ∷ []) (refl, tt) (omega arith)

abbrev clock : Bool → Inputs whole
clock b = (codes "CLK", bool b) ∷ []

trig_edges_example :
    (get_field_bool
        (scans execute_r_trig (codes "E") (clock true ∷ clock false ∷ []) fresh)
        (codes "E")
        (codes "Q")
      ≡ true)
    × (get_field_bool
          (scans execute_f_trig (codes "E") (clock true ∷ clock false ∷ []) fresh)
          (codes "E")
          (codes "Q")
        ≡ false)
unfolding input_bool canonical_identifier trim to_ascii_uppercase lookup eqb
trig_edges_example = trig_edges (codes "E") (clock true) (clock false) [] fresh

abbrev latch_in : Inputs whole
latch_in =
    (codes "S1", bool true)
    ∷ (codes "R", bool true)
    ∷ (codes "S", bool true)
    ∷ (codes "R1", bool true)
    ∷ []

latch_dominance_example :
    (get_field_bool (scans execute_sr (codes "L") (latch_in ∷ []) fresh) (codes "L") (codes "Q1")
      ≡ true)
    × (get_field_bool (scans execute_rs (codes "L") (latch_in ∷ []) fresh) (codes "L") (codes "Q1")
        ≡ false)
unfolding input_bool input_i64 input_time_ms get_field_time_ms get_field_i64 get_field_bool
    canonical_identifier trim to_ascii_uppercase lookup eqb field_key
latch_dominance_example = latch_dominance (codes "L") (latch_in ∷ []) fresh

abbrev count_in : Bool → Inputs whole
count_in up = (codes "CU", bool up) ∷ (codes "PV", int (pos 1)) ∷ []

ctud_balance_example :
    let s = scans execute_ctud (codes "C") (count_in true ∷ count_in false ∷ []) fresh in
    (get_field_i64 s (codes "C") (codes "CV") +ℤ pos 0 ≡ pos 0 +ℤ pos 1)
    × (get_field_bool s (codes "C") (codes "QU")
        ≡ leb_ℤ (pos 1) (get_field_i64 s (codes "C") (codes "CV")))
    × (get_field_bool s (codes "C") (codes "QD")
        ≡ leb_ℤ (get_field_i64 s (codes "C") (codes "CV")) (pos 0))
unfolding input_bool input_i64 input_time_ms get_field_time_ms get_field_i64 get_field_bool
    canonical_identifier trim to_ascii_uppercase lookup eqb field_key
ctud_balance_example =
    ctud_balance (codes "C") fresh (count_in true) (count_in false ∷ [])
      ((refl, refl), ((refl, refl), tt)) (omega arith) (omega arith)
