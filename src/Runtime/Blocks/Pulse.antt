-- ===== src/Runtime/Blocks/Pulse.antt =====
-- The pulse timer TP of crates/iec_runtime/src/runtime.rs over a history of scans with a fixed
-- preset of `p` ms and a cycle of `k` ms.
use mathlib.Core.Path.{subst}
use robocpp.Base.{
  ℕ, suc, ◌+◌, ◌*◌, ◌^◌, ◌<◌, min, ◌≡◌, true, false, not, List, [], ◌∷◌, arith, leb, ◌∙◌, ap,
  length,
}
use robocpp.Base.Int.{pos, min_ℤ, ◌+ℤ◌, wrap_i128}
use robocpp.Base.Text.{Text, codes}
use robocpp.Ir.Value.{Floats}
use robocpp.Runtime.State.{Runtime, get_field_bool}
use robocpp.Runtime.Blocks.{execute_tp}
use robocpp.Runtime.Blocks.Timers.{
  preset_of, is_on, et, q, execute_tp_starts, execute_tp_continues, Pulses,
}
use robocpp.Runtime.Blocks.Scans.{Inputs, scans, Each}
use robocpp.Runtime.Blocks.Delays.{advance_et_lem, min_step, cycle_of, wrap_sum}

module _ {F : Floats} (i : Text) (k p : ℕ) (r : Runtime F) (x₀ : Inputs F) (room : p + k < 2 ^ 127)
    (cycle : r.options.cycle_time_ms ≡ pos k) (preset : preset_of x₀ ≡ pos p) (on : is_on x₀ ≡ true)
    (was_off : get_field_bool r i (codes "_IN") ≡ false)
    (idle : get_field_bool r i (codes "_RUN") ≡ false) where
  -- The pulse after `n` calls, the starting one included.
  abbrev Pulse : ℕ → Runtime F → Type 0
  Pulse n s =
      (s.options.cycle_time_ms ≡ pos k)
      × (et s i ≡ pos (min (n * k) p))
      × (q s i ≡ not (leb p (n * k)))
      × (get_field_bool s i (codes "_RUN") ≡ not (leb p (n * k)))

  Pulses-Pulse :
      (x : Inputs F) (n e : ℕ) (s : Runtime F)
      → preset_of x ≡ pos p
      → s.options.cycle_time_ms ≡ pos k
      → min (e + k) p ≡ min (n * k) p
      → Pulses i x s (pos (min (e + k) p))
      → Pulse n (execute_tp i x s)
  Pulses-Pulse x n e s hx c m (t, o, run, opts) =
      (ap cycle_of opts ∙ c, t ∙ ap pos m, o ∙ rw hx (ground arith), run ∙ rw hx (ground arith))

  tp_lem :
      (h : List (Inputs F))
      → Each (λ x. preset_of x ≡ pos p) h
      → length h * k < p
      → Pulse (suc (length h)) (scans execute_tp i h (execute_tp i x₀ r))
  unfolding scans
  tp_lem [] e lt =
      Pulses-Pulse x₀ 1 0 r preset cycle (ground arith)
        (subst (Pulses i x₀ r) first (execute_tp_starts i x₀ r on was_off idle))
    where
      first :
          min_ℤ (wrap_i128 (pos 0 +ℤ r.options.cycle_time_ms)) (preset_of x₀) ≡ pos (min (0 + k) p)
      first = rw (cycle, preset, wrap_sum 0 k p room (omega arith)) (ground arith)
  tp_lem (x ∷ h) e lt =
      let s = scans execute_tp i h (execute_tp i x₀ r) in
      let n = suc (length h) in
      let ih = tp_lem h e.1 (omega arith) in
      let t = advance_et_lem i k p r x (min (n * k) p) s room ih.0 e.0 ih.1 (omega arith) in
      let running = ih.3 ∙ ground arith in
      Pulses-Pulse x (suc n) (min (n * k) p) s e.0 ih.0 (min_step i k p r n)
        (subst (Pulses i x s) t (execute_tp_continues i x s running))

  -- TP, over calls with the preset `p` in cycles of `k` ms whose sum an `i128` holds: after a rising
  -- edge of the input with no pulse running, and as long as the calls before have not reached the
  -- preset, the output is on whatever the input does until the call that reaches the preset, which
  -- turns it off, and the elapsed time counts the calls.
  pub tp_pulse :
      (h : List (Inputs F))
      → Each (λ x. preset_of x ≡ pos p) h
      → length h * k < p
      → let s = scans execute_tp i h (execute_tp i x₀ r) in
        (et s i ≡ pos (min (suc (length h) * k) p)) × (q s i ≡ not (leb p (suc (length h) * k)))
  tp_pulse h e lt = ((tp_lem h e lt).1, (tp_lem h e lt).2)
