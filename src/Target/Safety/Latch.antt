-- ===== src/Target/Safety/Latch.antt =====
-- What the safety gate of crates/rbcpp_target/src/lib.rs lets through.
use mathlib.Core.Path.{subst₂}
use robocpp.Base.{
  ◌∙◌, sym, ◌≢◌, ◌≡◌, refl, ◌↔◌, Bool, true, false, not, ◌&&◌, ◌||◌, if◌then◌else◌, List, [], ◌∷◌,
  arith,
}
use robocpp.Base.Result.{Result, ok, err}
use robocpp.Ir.Value.{Floats, Value}
use robocpp.Target.Symbol.{output, IoSymbol, TargetHal}
use robocpp.Target.Safety.{
  SafetyInputs, SafetyTrip, SafetyGate, update, check_output_write, output_trip, SafetyHal,
  safe_write,
}

-- The inputs and the watchdog of one cycle.
abbrev pub Cycle : Type 0
Cycle = SafetyInputs × Bool

abbrev pub trips : Cycle → Bool
trips (x, expired) = x.emergency_stop || x.protective_stop || expired

-- The newest cycle that tripped or reset decides, and a trip wins; `first` is what was latched.
abbrev pub latched : Bool → List Cycle → Bool
latched first [] = first
latched first (c ∷ older) = trips c || (not (c.0.reset) && latched first older)

-- The gate after a history of cycles, the newest first.
unfoldable pub after : SafetyGate → List Cycle → SafetyGate
after gate [] = gate
after gate (c ∷ older) = update (after gate older) c.0 c.1

latched-after :
    (gate : SafetyGate) (h : List Cycle)
    → ((after gate h).state.fault_latched ≡ latched gate.state.fault_latched h)
      × ((after gate h).require_operator_enable ≡ gate.require_operator_enable)
unfolding after update
latched-after gate [] = (refl, refl)
latched-after gate (c ∷ h) = ground (arith, latched-after gate h)

true≢false : {b : Bool} → b ≡ true → b ≡ false → ⊥
true≢false p q = cc

-- The ladder of `check_output_write`, as one test.
ladder :
    (es ps expired fault enabled : Bool)
    → (output_trip (record {
      emergency_stop = es;
      protective_stop = ps;
      watchdog_expired = expired;
      fault_latched = fault;
      outputs_enabled = enabled;
    })
        ≡ ok tt)
      ↔ ((es || ps || expired || fault || not enabled) ≡ false)
ladder true ps w f e = (λ h. cc, λ h. cc)
ladder false true w f e = (λ h. cc, λ h. cc)
ladder false false true f e = (λ h. cc, λ h. cc)
ladder false false false true e = (λ h. cc, λ h. cc)
ladder false false false false false = (λ h. cc, λ h. cc)
ladder false false false false true = (λ _. refl, λ _. refl)

-- The stops of a cycle are part of what it latches.
merge :
    (es ps w reset before require enable : Bool)
    → let fault = if es || ps || w then true else if reset then false else before in
      (es || ps || w || fault || not (not fault && (not require || enable)))
      ≡ (((es || ps || w) || (not reset && before)) || (require && not enable))
merge es ps w reset before require enable = ground arith

-- After any history that ends with the cycle `c`, an output may be written exactly if no trip is
-- active in `c`, none has come since the last reset, and the operator enables it where that is
-- required.
pub output_allowed_iff :
    (gate : SafetyGate) (c : Cycle) (h : List Cycle) (symbol : IoSymbol)
    → symbol.direction ≡ output
    → (check_output_write (after gate (c ∷ h)) symbol ≡ ok tt) ↔ (
        (latched gate.state.fault_latched (c ∷ h)
          || (gate.require_operator_enable && not c.0.operator_enable))
        ≡ false)
unfolding after update check_output_write
output_allowed_iff gate (x, expired) h symbol out =
    let before = (latched-after gate h).0 in
    let require = (latched-after gate h).1 in
    let allowed =
      ladder x.emergency_stop x.protective_stop expired
        (after gate ((x, expired) ∷ h)).state.fault_latched
        (after gate ((x, expired) ∷ h)).state.outputs_enabled in
    let s = (after gate ((x, expired) ∷ h)).state in
    let blocks =
      x.emergency_stop
      || x.protective_stop
      || expired
      || s.fault_latched
      || not s.outputs_enabled in
    let eq =
      subst₂
        (λ (fault require : Bool).
          blocks
          ≡ ((trips (x, expired) || (not x.reset && fault)) || (require && not x.operator_enable)))
        before require
        (merge x.emergency_stop x.protective_stop expired x.reset (after gate h).state.fault_latched
          (after gate h).require_operator_enable x.operator_enable) in
    rw out ((λ e. sym eq ∙ allowed.0 e), (λ e. allowed.1 (eq ∙ e)))

module _ {F : Floats} {H : Type 0} (hal_ops : TargetHal F H) where
  -- Writes one after another through the guarded HAL, whatever each returns.
  unfoldable pub writes : List (IoSymbol × Value F) → SafetyHal H → SafetyHal H
  writes [] safe = safe
  writes ((symbol, value) ∷ ws) safe = writes ws (safe_write hal_ops safe symbol value).1

  abbrev pub AllOutputs : List (IoSymbol × Value F) → Type 0
  AllOutputs [] = Unit
  AllOutputs ((symbol, _) ∷ ws) = (symbol.direction ≡ output) × AllOutputs ws

  blocked :
      (safe : SafetyHal H) (symbol : IoSymbol) (value : Value F)
      → check_output_write safe.gate symbol ≢ ok tt
      → (safe_write hal_ops safe symbol value).1 ≡ safe
  unfolding safe_write
  blocked safe symbol value no_write = stopped (check_output_write safe.gate symbol) refl
    where
      stopped :
          (o : Result SafetyTrip (Unit {0}))
          → check_output_write safe.gate symbol ≡ o
          → (safe_write hal_ops safe symbol value).1 ≡ safe
      stopped (ok tt) e = absurd (no_write e)
      stopped (err reason) e = rw (e, safe_write)

  blocked_writes :
      (ws : List (IoSymbol × Value F)) (safe : SafetyHal H)
      → AllOutputs ws
      → ((symbol : IoSymbol)
          → symbol.direction ≡ output
          → check_output_write safe.gate symbol ≢ ok tt)
      → writes ws safe ≡ safe
  unfolding writes
  blocked_writes [] safe outs no_write = refl
  blocked_writes ((symbol, value) ∷ ws) safe (out, outs) no_write =
      rw (blocked safe symbol value (no_write symbol out)) (blocked_writes ws safe outs no_write)

  -- While a fault is latched after a history of cycles, or the operator does not enable a gate that
  -- requires it, no sequence of writes to outputs through the safety HAL reaches the inner HAL.
  pub fault_blocks_outputs :
      (hal : H) (gate : SafetyGate) (c : Cycle) (h : List Cycle) (ws : List (IoSymbol × Value F))
      → AllOutputs ws
      → (latched gate.state.fault_latched (c ∷ h)
          || (gate.require_operator_enable && not c.0.operator_enable))
        ≡ true
      → let safe : SafetyHal H = record { hal = hal; gate = after gate (c ∷ h) } in
        writes ws safe ≡ safe
  fault_blocks_outputs hal gate c h ws outs fault =
      blocked_writes ws (record { hal = hal; gate = after gate (c ∷ h) }) outs
        λ symbol out allowed. true≢false fault ((output_allowed_iff gate c h symbol out).0 allowed)
