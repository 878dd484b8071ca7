-- ===== src/Target/Supervisor/Guard.antt =====
-- What the supervisor lets through, crates/rbcpp_target/src/lib.rs.
use robocpp.Base.{
  ℕ, map_option, ap, sym, ◌∙◌, ◌≡◌, ◌≢◌, refl, ◌⊎◌, inl, inr, Bool, true, Option, some, arith, [],
}
use robocpp.Base.Text.{Text}
use robocpp.Base.Result.{Result, ok, err, map_err, ok_or, ◌>>=◌}
use robocpp.Ir.Value.{Floats, Value}
use robocpp.Target.Symbol.{IoSymbol, output, TargetHal}
use robocpp.Target.Safety.{SafetyInputs, SafetyState, SafetyGate, update, check_output_write}
use robocpp.Target.Safety.Latch.{after, output_allowed_iff}
use robocpp.Target.Access.{
  TargetError, unknown_access_path, AccessTarget, AccessPathBinding, binding,
}
use robocpp.Target.Access.Effect.{Writable, access_write-Justified}
use robocpp.Target.Supervisor.{
  Retain, TargetSupervisor, EndClock, is_expired, refresh_safety_state, check_gate,
  supervised_write, supervised_write_checked, save_retained_values, finish_cycle, end_cycle,
}

map_err_ok : {E E' A : Type 0} (f : E → E') (r : Result E A) (a : A) → map_err f r ≡ ok a → r ≡ ok a
map_err_ok f (ok x) a h = cc
map_err_ok f (err e) a h = cc

passes :
    (gate : Option SafetyGate) (g : SafetyGate) (b : AccessPathBinding) (symbol : IoSymbol)
    → gate ≡ some g
    → b.target_binding ≡ AccessTarget.io symbol
    → check_gate gate b b.target_binding ≡ ok tt
    → check_output_write g symbol ≡ ok tt
passes gate g b symbol hg e h =
    map_err_ok (λ reason. TargetError.safety b.name reason) (check_output_write g symbol) tt
      (sym (ap (λ gate. check_gate gate b b.target_binding) hg ∙ ap (check_gate (some g) b) e) ∙ h)

module _ {F : Floats} {H S : Type 0} where
  gate-finish_cycle :
      (saved : Result TargetError Bool) (clock : EndClock) (late : Bool) (elapsed : ℕ)
      (state : Option SafetyState) (s : TargetSupervisor F H S)
      → (finish_cycle saved clock late elapsed state s).1.safety_gate ≡ s.safety_gate
  gate-finish_cycle (ok saved) clock late elapsed state s = refl
  gate-finish_cycle (err e) clock late elapsed state s = refl

late_gate_blocks :
    (g : SafetyGate) (inputs : SafetyInputs) (symbol : IoSymbol)
    → check_output_write (update g inputs true) symbol ≡ ok tt
    → symbol.direction ≢ output
unfolding after
late_gate_blocks g inputs symbol allowed out =
    let free = (output_allowed_iff g (inputs, true) [] symbol out).0 allowed in ground (arith, free)

module _ {F : Floats} {H S : Type 0} (ops : TargetHal F H) where
  -- A write reached I/O: its path is bound to `symbol`, and the gate, if there is one, let it pass.
  pub record Reached (name : Text) (s : TargetSupervisor F H S) (b : AccessPathBinding)
      (symbol : IoSymbol) : Type 0 where
    pub writable : Writable name s.access b
    pub target : b.target_binding ≡ AccessTarget.io symbol
    pub passed : (g : SafetyGate) → s.safety_gate ≡ some g → check_output_write g symbol ≡ ok tt

  module _ (name : Text) (v : Value F) (s : TargetSupervisor F H S) where
    checked_write :
        (c : Result TargetError Unit)
        → (binding name s.access >>= λ b. check_gate s.safety_gate b b.target_binding) ≡ c
        → ((supervised_write_checked ops c name v s).1.hal ≡ s.hal)
          ⊎ ((b : AccessPathBinding) × (symbol : IoSymbol) × Reached name s b symbol)
    unfolding binding
    checked_write (err e) h = inl refl
    checked_write (ok tt) h = elim (access_write-Justified ops name v s.access s.hal).outside [
      | inl same ↦ inl same
      | inr (b, symbol, w, e) ↦ inr (
        b,
        symbol,
        record {
          writable = w;
          target = e;
          passed = λ g hg. passes s.safety_gate g b symbol hg e (
              sym (
                ap
                  (λ o. ok_or (unknown_access_path name) o >>= λ b.
                    check_gate s.safety_gate b b.target_binding)
                  w.bound)
              ∙ h);
        },
      )
    ]

    -- A write through the supervisor changes the HAL only if its path is bound, for reading and
    -- writing, to an I/O symbol that the safety gate, where there is one, lets be written.
    pub supervised_write_guarded :
        ((supervised_write ops name v s).1.hal ≡ s.hal)
        ⊎ ((b : AccessPathBinding) × (symbol : IoSymbol) × Reached name s b symbol)
    unfolding supervised_write
    supervised_write_guarded =
        checked_write (binding name s.access >>= λ b. check_gate s.safety_gate b b.target_binding)
          refl

  module _ (retain : Retain F S) (clock : EndClock) (s : TargetSupervisor F H S)
      (g : SafetyGate) where
    gate-end_cycle :
        s.safety_gate ≡ some g
        → is_expired clock.refresh s ≡ true
        → (end_cycle retain clock s).1.safety_gate ≡ some (update g s.safety_inputs true)
    unfolding end_cycle refresh_safety_state
    gate-end_cycle hg late =
        gate-finish_cycle (save_retained_values retain s.retain_store s.access).0 clock _ _ _ _
        ∙ ap (λ o. map_option (λ g. update g s.safety_inputs (is_expired clock.refresh s)) o) hg
        ∙ ap (λ b. some (update g s.safety_inputs b)) late

    -- After a cycle that ends with the watchdog expired, under a safety gate, and until the gate is
    -- updated again, a write through the supervisor leaves the HAL as it is or goes to a symbol that
    -- is no output.
    pub overrun_blocks_outputs :
        (name : Text) (v : Value F)
        → s.safety_gate ≡ some g
        → is_expired clock.refresh s ≡ true
        → let s' = (end_cycle retain clock s).1 in
          ((supervised_write ops name v s').1.hal ≡ s'.hal)
          ⊎ ((b : AccessPathBinding) × (symbol : IoSymbol) × Reached name s' b symbol
              × (symbol.direction ≢ output))
    overrun_blocks_outputs name v hg late =
        elim (supervised_write_guarded name v (end_cycle retain clock s).1) [
          | inl same ↦ inl same
          | inr (b, symbol, reached) ↦ inr (
            b,
            symbol,
            reached,
            late_gate_blocks g s.safety_inputs symbol
                (reached.passed (update g s.safety_inputs true) (gate-end_cycle hg late)),
          )
        ]
