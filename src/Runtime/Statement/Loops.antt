-- ===== src/Runtime/Statement/Loops.antt =====
-- The `for` loop of crates/iec_runtime/src/runtime.rs against the list of the values its control
-- variable takes.
use native.Mathlib.Nat
use robocpp.Base.{
  ℕ, zero, suc, ◌+◌, ◌/◌, ◌≤◌, ◌<◌, ◌≡◌, refl, ap, ◌∙◌, inl, inr, true, false, Bool-cases, List, [],
  ◌∷◌, arith, if◌then◌else◌, leb, sym,
}
use robocpp.Base.Int.{ℤ, pos, ◌+ℤ◌, ◌-ℤ◌, leb_ℤ, IsI64, wrap_i64_id, abs}
use robocpp.Base.Text.{Text}
use robocpp.Ir.Value.{Floats, int}
use robocpp.Runtime.State.{Runtime}
use robocpp.Runtime.Statement.{
  Control, continue, exit, return, jump, Run, after_body, in_range, set_variable, for_rounds,
}

-- How far the control variable may still go, if it has not passed the end.
unfoldable pub distance : ℤ → ℤ → ℤ → ℕ
distance end step value = if leb_ℤ step (pos 0) then abs (value -ℤ end) else abs (end -ℤ value)

-- How many values from `value` on, `step` apart, do not pass `end`.
unfoldable pub loop_count : ℤ → ℤ → ℤ → ℕ
unfolding in_range distance
loop_count end step value =
    if in_range end step value then suc (distance end step value / abs step) else 0

-- `n` values from `value` on, `step` apart
unfoldable pub control_values : ℤ → ℕ → ℤ → List ℤ
control_values step zero value = []
control_values step (suc n) value = value ∷ control_values step n (value +ℤ step)

-- The body once for each value, till it ends otherwise than normally.
unfoldable pub run_over : {F : Floats} → Run F → Text → List ℤ → Run F
run_over body control [] r = (continue, r)
run_over body control (v ∷ vs) r =
    after_body (body (set_variable control (int v) r)) (run_over body control vs)

next_near :
    (end step value : ℤ)
    → in_range end step value ≡ true
    → distance end step value < abs step
    → in_range end step (value +ℤ step) ≡ false
unfolding in_range distance ◌+ℤ◌ ◌-ℤ◌
next_near end step value h p = ground arith

next_far :
    (end step value : ℤ)
    → in_range end step value ≡ true
    → 0 < abs step
    → abs step ≤ distance end step value
    → (in_range end step (value +ℤ step) ≡ true)
      × (distance end step (value +ℤ step) + abs step ≡ distance end step value)
unfolding in_range distance ◌+ℤ◌ ◌-ℤ◌
next_far end step value h z p = (ground arith, ground arith)

far_quotient : (d e s : ℕ) → 0 < s → e + s ≡ d → suc (d / s) ≡ suc (suc (e / s))
far_quotient d e s p h = omega (arith, ap (λ n. n / s) (sym h) ∙ Nat.add-div_right e p)

next_count :
    (end step value : ℤ)
    → in_range end step value ≡ true
    → 0 < abs step
    → loop_count end step value ≡ suc (loop_count end step (value +ℤ step))
unfolding loop_count
next_count end step value h p = elim (Bool-cases (leb (abs step) (distance end step value))) [
  | inl e ↦
      let far = next_far end step value h p (ground arith) in
      rw (h, far.0) (far_quotient _ _ (abs step) p far.1)
  | inr e ↦
      rw (h, next_near end step value h (ground arith)) (ap suc (Nat.div-eq_of_lt (ground arith)))
]

not_zero : {m n : ℕ} → m ≡ suc n → m ≤ 0 → ⊥
not_zero h le = omega arith

no_round : (end step value : ℤ) → in_range end step value ≡ false → loop_count end step value ≡ 0
unfolding loop_count
no_round end step value h = rw h refl

step-IsI64 :
    (end step value : ℤ)
    → in_range end step value ≡ true
    → IsI64 value
    → IsI64 (end +ℤ step)
    → IsI64 (value +ℤ step)
unfolding in_range ◌+ℤ◌
step-IsI64 end step value h p q = ground arith

module _ {F : Floats} where
  after_body_cong :
      (out : Control × Runtime F) (f g : Run F)
      → ((r : Runtime F) → f r ≡ g r)
      → after_body out f ≡ after_body out g
  after_body_cong (continue, r) f g h = h r
  after_body_cong (exit, r) f g h = refl
  after_body_cong (return, r) f g h = refl
  after_body_cong (jump label, r) f g h = refl

  -- A `for` loop whose step is not 0, whose first value and whose end plus the step are in the range
  -- of `i64`, and that has no more values than the bound on iterations, runs its body once for each
  -- of the values from the first one on, a step apart, up to the end, till the body ends otherwise
  -- than normally.
  pub for_rounds-run_over :
      (body : Run F) (control : Text) (end step value : ℤ) (n : ℕ) (r : Runtime F)
      → 0 < abs step
      → IsI64 value
      → IsI64 (end +ℤ step)
      → loop_count end step value ≤ n
      → for_rounds body control end step n value r
        ≡ run_over body control (control_values step (loop_count end step value) value) r
  unfolding for_rounds run_over control_values
  for_rounds-run_over body control end step value zero r p i j le =
      elim (Bool-cases (in_range end step value)) [
        | inl e ↦ absurd (not_zero (next_count end step value e p) le)
        | inr e ↦ rw (e, no_round end step value e) refl
      ]
  for_rounds-run_over body control end step value (suc n) r p i j le =
      elim (Bool-cases (in_range end step value)) [
        | inl e ↦
            let inside = step-IsI64 end step value e i j in
            rw (e, next_count end step value e p, wrap_i64_id _ inside)
              (after_body_cong (body (set_variable control (int value) r)) _ _ (λ s.
                for_rounds-run_over body control end step (value +ℤ step) n s p inside j
                  (omega (arith, next_count end step value e p))))
        | inr e ↦ rw (e, no_round end step value e) refl
      ]
