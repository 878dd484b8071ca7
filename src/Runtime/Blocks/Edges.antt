-- ===== src/Runtime/Blocks/Edges.antt =====
-- The edge triggers and the latches of crates/iec_runtime/src/runtime.rs.
use robocpp.Base.{◌≡◌, refl, Bool, not, ◌&&◌, ◌||◌, List, [], ◌∷◌, arith, ◌∙◌}
use robocpp.Base.Text.{Text, codes, eqb}
use robocpp.Ir.Names.{canonical_identifier}
use robocpp.Ir.Value.{Floats}
use robocpp.Runtime.State.{Runtime, get_field_bool, input_bool, field_laws}
use robocpp.Runtime.Blocks.{execute_sr, execute_rs, execute_r_trig, execute_f_trig}
use robocpp.Runtime.Blocks.Scans.{Inputs, scans}

and_swap : (a b c : Bool) → (a || (b && not c)) ≡ (a || (not c && b))
and_swap a b c = ground arith

module _ {F : Floats} (i : Text) where
  abbrev pub clk : Inputs F → Bool
  clk x = input_bool x (codes "CLK")

  abbrev memory : Runtime F → Bool
  memory r = get_field_bool r i (codes "M")

  abbrev out : Runtime F → Bool
  out r = get_field_bool r i (codes "Q")

  r_trig_step :
      (x : Inputs F) (r : Runtime F)
      → (out (execute_r_trig i x r) ≡ (clk x && not (memory r)))
        × (memory (execute_r_trig i x r) ≡ clk x)
  unfolding execute_r_trig canonical_identifier eqb
  r_trig_step x r = simp field_laws (refl, refl)

  f_trig_step :
      (x : Inputs F) (r : Runtime F)
      → (out (execute_f_trig i x r) ≡ (not (clk x) && memory r))
        × (memory (execute_f_trig i x r) ≡ clk x)
  unfolding execute_f_trig canonical_identifier eqb
  f_trig_step x r = simp field_laws (refl, refl)

  -- After any two calls of an edge trigger, whatever came before, the output of R_TRIG is on
  -- exactly if the clock went on between them, and that of F_TRIG if it went off.
  pub trig_edges :
      (x y : Inputs F) (older : List (Inputs F)) (r : Runtime F)
      → (out (scans execute_r_trig i (x ∷ y ∷ older) r) ≡ (clk x && not (clk y)))
        × (out (scans execute_f_trig i (x ∷ y ∷ older) r) ≡ (not (clk x) && clk y))
  unfolding scans
  trig_edges x y older r =
      let rise = scans execute_r_trig i older r in
      let fall = scans execute_f_trig i older r in
      (
        rw ((r_trig_step x (execute_r_trig i y rise)).0, (r_trig_step y rise).1) refl,
        rw ((f_trig_step x (execute_f_trig i y fall)).0, (f_trig_step y fall).1) refl,
      )

  abbrev latch : Runtime F → Bool
  latch r = get_field_bool r i (codes "Q1")

  -- The newest call that set or reset a latch decides; `first` is what the latch held before.
  abbrev latched : (Inputs F → Bool) → (Inputs F → Bool) → Bool → List (Inputs F) → Bool
  latched wins loses first [] = first
  latched wins loses first (x ∷ older) = wins x || (not (loses x) && latched wins loses first older)

  sr_step :
      (x : Inputs F) (r : Runtime F)
      → latch (execute_sr i x r)
        ≡ (input_bool x (codes "S1") || (latch r && not (input_bool x (codes "R"))))
  unfolding execute_sr canonical_identifier eqb
  sr_step x r = simp field_laws refl

  rs_step :
      (x : Inputs F) (r : Runtime F)
      → latch (execute_rs i x r)
        ≡ ((latch r || input_bool x (codes "S")) && not (input_bool x (codes "R1")))
  unfolding execute_rs canonical_identifier eqb
  rs_step x r = simp field_laws refl

  -- SR is on exactly if the newest call with `S1` or `R` on had `S1` on: set wins. RS is off exactly
  -- if the newest call with `S` or `R1` on had `R1` on: reset wins.
  pub latch_dominance :
      (h : List (Inputs F)) (r : Runtime F)
      → (latch (scans execute_sr i h r)
          ≡ latched (λ x. input_bool x (codes "S1")) (λ x. input_bool x (codes "R")) (latch r) h)
        × (latch (scans execute_rs i h r)
            ≡ not (
                latched
                  (λ x. input_bool x (codes "R1"))
                  (λ x. input_bool x (codes "S"))
                  (not (latch r))
                  h))
  unfolding scans
  latch_dominance [] r = (refl, ground arith)
  latch_dominance (x ∷ h) r =
      let ih = latch_dominance h r in
      (
        sr_step x (scans execute_sr i h r) ∙ rw ih.0 (and_swap _ _ _),
        rs_step x (scans execute_rs i h r) ∙ rw ih.1 (ground arith),
      )
