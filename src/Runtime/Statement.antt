-- ===== src/Runtime/Statement.antt =====
-- How a statement ends, and the loops of `execute_statement`, crates/iec_runtime/src/runtime.rs. The
-- body and the condition of a loop are functions of the state. A loop that has run
-- `max_loop_iterations` rounds may run one more, after which it is stopped with an error: `n` below
-- is the number of rounds left before that last one.
pub mod Il
pub mod Execute
pub mod Lists
pub mod Loops
pub mod Structured
use robocpp.Base.{ℕ, zero, suc, Bool, true, false, Option, none, some, if◌then◌else◌, ltb}
use robocpp.Base.Int.{ℤ, pos, ◌+ℤ◌, leb_ℤ, wrap_i64}
use robocpp.Base.Text.{Text, codes}
use robocpp.Base.Map.{insert}
use robocpp.Ir.Value.{Floats, Value, int}
use robocpp.Runtime.State.{Runtime}
use robocpp.Runtime.Eval.{push_error}

pub data Control : Type 0 where
  continue exit return : Control
  jump : Text → Control

-- A statement, as what it does to the state.
abbrev pub Run : Floats → Type 0
Run F = Runtime F → Control × Runtime F

abbrev pub for_message : Text
for_message = codes "maximum FOR loop iteration count exceeded"

abbrev pub while_message : Text
while_message = codes "maximum WHILE loop iteration count exceeded"

abbrev pub repeat_message : Text
repeat_message = codes "maximum REPEAT loop iteration count exceeded"

-- `if step > 0 { value <= end } else { value >= end }`
unfoldable pub in_range : ℤ → ℤ → ℤ → Bool
in_range end step value = if leb_ℤ step (pos 0) then leb_ℤ end value else leb_ℤ value end

module _ {F : Floats} where
  -- What a loop does after its body.
  abbrev pub after_body : Control × Runtime F → Run F → Control × Runtime F
  after_body (continue, r) next = next r
  after_body (exit, r) next = (continue, r)
  after_body (return, r) next = (return, r)
  after_body (jump label, r) next = (jump label, r)

  abbrev pub choose : Bool × Runtime F → Run F → Run F → Control × Runtime F
  choose (true, r) chosen other = chosen r
  choose (false, r) chosen other = other r

  abbrev pub stop_with : Text → Run F
  stop_with message r = (continue, push_error message r)

  unfoldable pub set_variable : Text → Value F → Runtime F → Runtime F
  set_variable name v r = record r { env = insert name v r.env }

  -- One round of a `for` loop, with the rounds after it.
  abbrev pub for_round : Run F → Text → ℤ → ℤ → ℤ → Run F → Run F
  for_round body control end step value next r =
      choose (in_range end step value, r)
        (λ s. after_body (body (set_variable control (int value) s)) next) (λ s. (continue, s))

  -- `value += step` wraps, as it does in a release build.
  unfoldable pub for_rounds : Run F → Text → ℤ → ℤ → ℕ → ℤ → Run F
  for_rounds body control end step zero value r =
      for_round body control end step value (stop_with for_message) r
  for_rounds body control end step (suc n) value r =
      for_round body control end step value
        (for_rounds body control end step n (wrap_i64 (value +ℤ step))) r

  abbrev pub while_round : (Runtime F → Bool × Runtime F) → Run F → Run F → Run F
  while_round condition body next r =
      choose (condition r) (λ s. after_body (body s) next) (λ s. (continue, s))

  unfoldable pub while_rounds : (Runtime F → Bool × Runtime F) → Run F → ℕ → Run F
  while_rounds condition body zero r = while_round condition body (stop_with while_message) r
  while_rounds condition body (suc n) r =
      while_round condition body (while_rounds condition body n) r

  abbrev pub repeat_round : (Runtime F → Bool × Runtime F) → Run F → Run F → Run F
  repeat_round until body next r =
      after_body (body r) (λ s. choose (until s) (λ t. (continue, t)) next)

  unfoldable pub repeat_rounds : (Runtime F → Bool × Runtime F) → Run F → ℕ → Run F
  repeat_rounds until body zero r = repeat_round until body (stop_with repeat_message) r
  repeat_rounds until body (suc n) r = repeat_round until body (repeat_rounds until body n) r
