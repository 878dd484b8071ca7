-- ===== src/Runtime/Blocks.antt =====
-- The standard function blocks, crates/iec_runtime/src/runtime.rs. A method on `&mut self` returns
-- the new state. Sums wrap as in a release build.
pub mod Timers
pub mod Scans
pub mod Delays
pub mod Pulse
pub mod Counters
pub mod Edges
use robocpp.Base.{Bool, true, false, not, ◌&&◌, ◌||◌, if◌then◌else◌, [], ◌∷◌}
use robocpp.Base.Int.{ℤ, pos, ◌+ℤ◌, ◌-ℤ◌, leb_ℤ, min_ℤ, max_ℤ, wrap_i64, wrap_i128}
use robocpp.Base.Text.{Text, codes}
use robocpp.Base.Map.{Map}
use robocpp.Ir.Value.{Floats, Value, bool, int, time_ms}
use robocpp.Runtime.State.{
  Runtime, get_field_bool, get_field_i64, get_field_time_ms, set_field, input_bool, input_i64,
  input_time_ms,
}

module _ {F : Floats} where
  -- The arms "SR", "RS", "R_TRIG" and "F_TRIG" of `execute_fb_call`.
  unfoldable pub execute_sr : Text → Map (Value F) → Runtime F → Runtime F
  execute_sr i inputs r =
      let q = get_field_bool r i (codes "Q1") in
      let s1 = input_bool inputs (codes "S1") in
      let reset = input_bool inputs (codes "R") in
      set_field r i (codes "Q1") (bool (s1 || (q && not reset)))

  unfoldable pub execute_rs : Text → Map (Value F) → Runtime F → Runtime F
  execute_rs i inputs r =
      let q = get_field_bool r i (codes "Q1") in
      let s = input_bool inputs (codes "S") in
      let r1 = input_bool inputs (codes "R1") in
      set_field r i (codes "Q1") (bool ((q || s) && not r1))

  unfoldable pub execute_r_trig : Text → Map (Value F) → Runtime F → Runtime F
  execute_r_trig i inputs r =
      let clk = input_bool inputs (codes "CLK") in
      let old = get_field_bool r i (codes "M") in
      let r = set_field r i (codes "Q") (bool (clk && not old)) in
      set_field r i (codes "M") (bool clk)

  unfoldable pub execute_f_trig : Text → Map (Value F) → Runtime F → Runtime F
  execute_f_trig i inputs r =
      let clk = input_bool inputs (codes "CLK") in
      let old = get_field_bool r i (codes "M") in
      let r = set_field r i (codes "Q") (bool (not clk && old)) in
      set_field r i (codes "M") (bool clk)

  -- The rising edge of `CU` or `CD` counts: `if cu && !old_cu`.
  count_up : Text → Map (Value F) → Runtime F → Runtime F
  count_up i inputs r =
      let cu = input_bool inputs (codes "CU") in
      let old_cu = get_field_bool r i (codes "_CU") in
      let r =
        if cu && not old_cu
        then set_field r i (codes "CV") (int (wrap_i64 (get_field_i64 r i (codes "CV") +ℤ pos 1)))
        else r in
      set_field r i (codes "_CU") (bool cu)

  unfoldable pub execute_ctu : Text → Map (Value F) → Runtime F → Runtime F
  unfolding count_up
  execute_ctu i inputs r =
      let r =
        if input_bool inputs (codes "R")
        then set_field r i (codes "CV") (int (pos 0))
        else count_up i inputs r in
      let cv = get_field_i64 r i (codes "CV") in
      let pv = input_i64 inputs (codes "PV") in set_field r i (codes "Q") (bool (leb_ℤ pv cv))

  count_down : Text → Map (Value F) → Runtime F → Runtime F
  count_down i inputs r =
      let cd = input_bool inputs (codes "CD") in
      let old_cd = get_field_bool r i (codes "_CD") in
      let r =
        if cd && not old_cd
        then set_field r i (codes "CV") (int (wrap_i64 (get_field_i64 r i (codes "CV") -ℤ pos 1)))
        else r in
      set_field r i (codes "_CD") (bool cd)

  unfoldable pub execute_ctd : Text → Map (Value F) → Runtime F → Runtime F
  unfolding count_down
  execute_ctd i inputs r =
      let r =
        if input_bool inputs (codes "LD")
        then set_field r i (codes "CV") (int (input_i64 inputs (codes "PV")))
        else count_down i inputs r in
      set_field r i (codes "Q") (bool (leb_ℤ (get_field_i64 r i (codes "CV")) (pos 0)))

  -- The last branch of `execute_ctud`: opposite edges in one call cancel.
  count_both : Text → Map (Value F) → Runtime F → Runtime F
  count_both i inputs r =
      let cu = input_bool inputs (codes "CU") in
      let cd = input_bool inputs (codes "CD") in
      let old_cu = get_field_bool r i (codes "_CU") in
      let old_cd = get_field_bool r i (codes "_CD") in
      let cv = get_field_i64 r i (codes "CV") in
      let cu_rising = cu && not old_cu in
      let cd_rising = cd && not old_cd in
      let cv =
        if cu_rising && not cd_rising
        then wrap_i64 (cv +ℤ pos 1)
        else if cd_rising && not cu_rising
        then wrap_i64 (cv -ℤ pos 1)
        else cv in
      let r = set_field r i (codes "CV") (int cv) in
      let r = set_field r i (codes "_CU") (bool cu) in set_field r i (codes "_CD") (bool cd)

  unfoldable pub execute_ctud : Text → Map (Value F) → Runtime F → Runtime F
  unfolding count_both
  execute_ctud i inputs r =
      let r =
        if input_bool inputs (codes "R")
        then set_field r i (codes "CV") (int (pos 0))
        else if input_bool inputs (codes "LD")
        then set_field r i (codes "CV") (int (input_i64 inputs (codes "PV")))
        else count_both i inputs r in
      let cv = get_field_i64 r i (codes "CV") in
      let pv = input_i64 inputs (codes "PV") in
      let r = set_field r i (codes "QU") (bool (leb_ℤ pv cv)) in
      set_field r i (codes "QD") (bool (leb_ℤ cv (pos 0)))

  -- (self.get_field_time_ms(instance, "ET") + self.options.cycle_time_ms).min(preset)
  unfoldable pub advance_et : Runtime F → Text → ℤ → ℤ
  advance_et r i preset =
      min_ℤ (wrap_i128 (get_field_time_ms r i (codes "ET") +ℤ r.options.cycle_time_ms)) preset

  unfoldable pub execute_ton : Text → Map (Value F) → Runtime F → Runtime F
  execute_ton i inputs r =
      let input = input_bool inputs (codes "IN") in
      let preset = max_ℤ (input_time_ms inputs (codes "PT")) (pos 0) in
      let elapsed = advance_et r i preset in
      let r =
        if not input
        then set_field (set_field r i (codes "Q") (bool false)) i (codes "ET") (time_ms (pos 0))
        else set_field (set_field r i (codes "ET") (time_ms elapsed)) i (codes "Q")
            (bool (leb_ℤ preset elapsed)) in
      set_field r i (codes "_IN") (bool input)

  -- The branch of `execute_tof` that times while the input is off.
  run_off_delay : Text → ℤ → Runtime F → Runtime F
  run_off_delay i preset r =
      let elapsed = advance_et r i preset in
      let r = set_field r i (codes "ET") (time_ms elapsed) in
      if leb_ℤ preset elapsed then set_field r i (codes "Q") (bool false) else r

  unfoldable pub execute_tof : Text → Map (Value F) → Runtime F → Runtime F
  unfolding run_off_delay
  execute_tof i inputs r =
      let input = input_bool inputs (codes "IN") in
      let preset = max_ℤ (input_time_ms inputs (codes "PT")) (pos 0) in
      let r =
        if input
        then set_field (set_field r i (codes "Q") (bool true)) i (codes "ET") (time_ms (pos 0))
        else if get_field_bool r i (codes "Q")
        then run_off_delay i preset r
        else r in
      set_field r i (codes "_IN") (bool input)

  -- The part of `execute_tp` under `if running`, and its `else`.
  run_pulse : Text → ℤ → Bool → Runtime F → Runtime F × Bool
  run_pulse i preset running r =
      let elapsed = advance_et r i preset in
      let timed = set_field r i (codes "ET") (time_ms elapsed) in
      if running
      then if leb_ℤ preset elapsed
        then (set_field timed i (codes "Q") (bool false), false)
        else (set_field timed i (codes "Q") (bool true), true)
      else (set_field r i (codes "Q") (bool false), false)

  unfoldable pub execute_tp : Text → Map (Value F) → Runtime F → Runtime F
  unfolding run_pulse
  execute_tp i inputs r =
      let input = input_bool inputs (codes "IN") in
      let preset = max_ℤ (input_time_ms inputs (codes "PT")) (pos 0) in
      let old_input = get_field_bool r i (codes "_IN") in
      let running = get_field_bool r i (codes "_RUN") in
      let starts = input && not old_input && not running in
      let r =
        if starts
        then set_field (set_field r i (codes "ET") (time_ms (pos 0))) i (codes "Q") (bool true)
        else r in
      let (r, running) = run_pulse i preset (starts || running) r in
      let r = set_field r i (codes "_IN") (bool input) in
      set_field r i (codes "_RUN") (bool running)

  -- The arms of the `match` on the type's name in `execute_fb_call`, in order.
  abbrev pub standard_blocks : Map (Text → Map (Value F) → Runtime F → Runtime F)
  standard_blocks =
      (codes "SR", execute_sr)
      ∷ (codes "RS", execute_rs)
      ∷ (codes "R_TRIG", execute_r_trig)
      ∷ (codes "F_TRIG", execute_f_trig)
      ∷ (codes "CTU", execute_ctu)
      ∷ (codes "CTD", execute_ctd)
      ∷ (codes "CTUD", execute_ctud)
      ∷ (codes "TON", execute_ton)
      ∷ (codes "TOF", execute_tof)
      ∷ (codes "TP", execute_tp)
      ∷ []
