-- ===== src/Runtime/Invariant.antt =====
-- The loops and the instruction lists of crates/iec_runtime/src/runtime.rs keep the values of the
-- state sized.
pub mod Il
pub mod Statements
pub mod Cycle
use robocpp.Base.{
  ℕ, zero, suc, ◌≡◌, refl, inl, inr, Bool, true, false, not, Option, none, some, List, [], ◌∷◌,
  ◌++◌, arith, if◌then◌else◌, unwrap_or, and_then,
}
use robocpp.Base.Int.{ℤ, pos, ◌+ℤ◌, IsI64, wrap_i64, wrap_i64-IsI64}
use robocpp.Base.Text.{Text, codes}
use robocpp.Base.Map.{All, insert, insert-All}
use robocpp.Ir.Names.{Identifier, identifier}
use robocpp.Ir.Value.{Floats, Value, bool, int, unit, as_bool, as_i64}
use robocpp.Ir.Syntax.{
  BinaryOp, Expr, variable, call, literal, unary, binary, array_literal, struct_literal,
  VariableRef, reference, Exprs, cons_indices, nil_indices, Params, IlOp,
}
use robocpp.Runtime.State.{Runtime}
use robocpp.Runtime.Eval.{push_error, eval_binary}
use robocpp.Runtime.Eval.Expr.{Operations}
use robocpp.Runtime.Eval.Calls.{eval}
use robocpp.Runtime.Eval.Sized.{Sized, MaybeSized, MaybeI64, as_i64-Sized}
use robocpp.Runtime.Eval.Invariant.{
  StateSized, Good, Laws, if_both, push_error-StateSized, eval_binary-Good,
}
use robocpp.Runtime.Eval.Invariant.UserCalls.{unwrap_or-Sized}
use robocpp.Runtime.Eval.Invariant.Calls.{eval-Good}
use robocpp.Runtime.Statement.{
  Control, continue, exit, return, jump, Run, after_body, choose, stop_with, in_range, set_variable,
  for_message, while_message, repeat_message, for_round, for_rounds, while_round, while_rounds,
  repeat_round, repeat_rounds,
}
use robocpp.Runtime.Statement.Il.{
  BlockCalls, root_name, truth, set_accumulator, jump_to, jump_if, return_if, store_result,
  operand_value, load, store, store_if, combine, execute_il_call, call_if, negate, same, execute_il,
}

abbrev pub Keeps : {F : Floats} → Run F → Type 0
Keeps {F} f = (r : Runtime F) → StateSized r → StateSized (f r).1

-- What the statements need of the calls of function blocks.
pub record CallLaws {F : Floats} (calls : BlockCalls F) : Type 0 where
  pub call_void-StateSized :
      (f : Identifier) (ps : Params F) (r : Runtime F)
      → StateSized r
      → StateSized (calls.call_void f ps r)
  pub call_block-StateSized :
      (v : VariableRef F) (ps : Params F) (r : Runtime F)
      → StateSized r
      → StateSized (calls.call_block v ps r)

module _ {F : Floats} where
  pub stop_with-Keeps : (message : Text) → Keeps {F = F} (stop_with message)
  stop_with-Keeps message r h = push_error-StateSized message r h

  after_body-Keeps :
      (out : Control × Runtime F) (next : Run F)
      → StateSized out.1
      → Keeps next
      → StateSized (after_body out next).1
  after_body-Keeps (continue, r) next c h = h r c
  after_body-Keeps (exit, r) next c h = c
  after_body-Keeps (return, r) next c h = c
  after_body-Keeps (jump label, r) next c h = c

  pub choose-Keeps :
      (out : Bool × Runtime F) (f g : Run F)
      → StateSized out.1
      → Keeps f
      → Keeps g
      → StateSized (choose out f g).1
  choose-Keeps (true, r) f g h hf hg = hf r h
  choose-Keeps (false, r) f g h hf hg = hg r h

  set_variable-StateSized :
      (name : Text) (v : Value F) (r : Runtime F)
      → Sized v
      → StateSized r
      → StateSized (set_variable name v r)
  unfolding StateSized set_variable
  set_variable-StateSized name v r h k = (insert-All (λ k v. Sized v) name v r.env h k.0, k.1)

  for_round-Keeps :
      (body : Run F) (control : Text) (end step value : ℤ) (next : Run F)
      → IsI64 value
      → Keeps body
      → Keeps next
      → Keeps (for_round body control end step value next)
  unfolding Sized
  for_round-Keeps body control end step value next i hb hn r h =
      choose-Keeps (in_range end step value, r) _ _ h
        (λ s k.
          after_body-Keeps (body (set_variable control (int value) s)) next
            (hb _ (set_variable-StateSized control (int value) s i k)) hn)
        (λ s k. k)

  pub for_rounds-Keeps :
      (body : Run F) (control : Text) (end step : ℤ) (n : ℕ) (value : ℤ)
      → IsI64 value
      → Keeps body
      → Keeps (for_rounds body control end step n value)
  unfolding for_rounds
  for_rounds-Keeps body control end step zero value i hb =
      for_round-Keeps body control end step value _ i hb (stop_with-Keeps for_message)
  for_rounds-Keeps body control end step (suc n) value i hb =
      for_round-Keeps body control end step value _ i hb (
        for_rounds-Keeps body control end step n (wrap_i64 (value +ℤ step))
          (wrap_i64-IsI64 (value +ℤ step)) hb)

  while_round-Keeps :
      (condition : Runtime F → Bool × Runtime F) (body next : Run F)
      → ((r : Runtime F) → StateSized r → StateSized (condition r).1)
      → Keeps body
      → Keeps next
      → Keeps (while_round condition body next)
  while_round-Keeps condition body next hc hb hn r h =
      choose-Keeps (condition r) _ _ (hc r h) (λ s k. after_body-Keeps (body s) next (hb s k) hn)
        (λ s k. k)

  pub while_rounds-Keeps :
      (condition : Runtime F → Bool × Runtime F) (body : Run F) (n : ℕ)
      → ((r : Runtime F) → StateSized r → StateSized (condition r).1)
      → Keeps body
      → Keeps (while_rounds condition body n)
  unfolding while_rounds
  while_rounds-Keeps condition body zero hc hb =
      while_round-Keeps condition body _ hc hb (stop_with-Keeps while_message)
  while_rounds-Keeps condition body (suc n) hc hb =
      while_round-Keeps condition body _ hc hb (while_rounds-Keeps condition body n hc hb)

  repeat_round-Keeps :
      (until : Runtime F → Bool × Runtime F) (body next : Run F)
      → ((r : Runtime F) → StateSized r → StateSized (until r).1)
      → Keeps body
      → Keeps next
      → Keeps (repeat_round until body next)
  repeat_round-Keeps until body next hc hb hn r h =
      after_body-Keeps (body r) _ (hb r h)
        (λ s k. choose-Keeps (until s) _ next (hc s k) (λ t l. l) hn)

  pub repeat_rounds-Keeps :
      (until : Runtime F → Bool × Runtime F) (body : Run F) (n : ℕ)
      → ((r : Runtime F) → StateSized r → StateSized (until r).1)
      → Keeps body
      → Keeps (repeat_rounds until body n)
  unfolding repeat_rounds
  repeat_rounds-Keeps until body zero hc hb =
      repeat_round-Keeps until body _ hc hb (stop_with-Keeps repeat_message)
  repeat_rounds-Keeps until body (suc n) hc hb =
      repeat_round-Keeps until body _ hc hb (repeat_rounds-Keeps until body n hc hb)
