-- ===== src/Runtime/Invariant/Il.antt =====
-- Instruction lists of crates/iec_runtime/src/runtime.rs keep the values of the state sized.
use robocpp.Base.{Bool, true, false, not, Option, none, some, arith, and_then}
use robocpp.Base.Int.{pos}
use robocpp.Ir.Names.{Identifier}
use robocpp.Ir.Value.{Floats, Value, bool, int, unit}
use robocpp.Ir.Syntax.{BinaryOp, Expr, variable, call, IlOp}
use robocpp.Runtime.State.{Runtime}
use robocpp.Runtime.Eval.Expr.{Operations}
use robocpp.Runtime.Eval.Sized.{Sized}
use robocpp.Runtime.Eval.Invariant.{StateSized, Good, Laws, push_error-StateSized, eval_binary-Good}
use robocpp.Runtime.Eval.Invariant.UserCalls.{unwrap_or-Sized}
use robocpp.Runtime.Eval.Invariant.Calls.{eval-Good}
use robocpp.Runtime.Statement.Il.{
  BlockCalls, truth, set_accumulator, jump_to, jump_if, return_if, store_result, operand_value,
  load, store, store_if, combine, execute_il_call, call_if, negate, same, execute_il,
  il_label_operand,
}
use robocpp.Runtime.Invariant.{Keeps, CallLaws}

module _ {F : Floats} where
  set_accumulator-StateSized :
      (v : Value F) (r : Runtime F) → Sized v → StateSized r → StateSized (set_accumulator v r)
  unfolding StateSized set_accumulator
  set_accumulator-StateSized v r h k = (k.0, h)

  accumulator-Sized : (r : Runtime F) → StateSized r → Sized r.il_accumulator
  unfolding StateSized
  accumulator-Sized r h = h.1

  jump_to-Keeps : (o : Option Identifier) → Keeps {F = F} (jump_to o)
  jump_to-Keeps none r h = push_error-StateSized _ r h
  jump_to-Keeps (some label) r h = h

  jump_if-Keeps : (b : Bool) (operand : Option (Expr F)) → Keeps (jump_if b operand)
  jump_if-Keeps true operand r h = jump_to-Keeps (and_then operand il_label_operand) r h
  jump_if-Keeps false operand r h = h

  return_if-Keeps : (b : Bool) → Keeps {F = F} (return_if b)
  return_if-Keeps true r h = h
  return_if-Keeps false r h = h

  store_result-StateSized :
      (out : Option (Value F) × Runtime F) → Good out → StateSized (store_result out).1
  store_result-StateSized (none, r) h = h.1
  store_result-StateSized (some v, r) h = set_accumulator-StateSized v r h.0 h.1

module _ {F : Floats} (ops : Operations F) (laws : Laws ops) where
  operand_value-Good :
      (o : Option (Expr F)) (default : Value F) (r : Runtime F)
      → Sized default
      → StateSized r
      → Sized (operand_value ops o default r).0 × StateSized (operand_value ops o default r).1
  operand_value-Good none default r d h = (d, h)
  operand_value-Good (some e) default r d h =
      let (o, s) = eval-Good ops laws e r h in (unwrap_or-Sized default _ d o, s)

module _ {F : Floats} (ops : Operations F) (laws : Laws ops) (calls : BlockCalls F)
    (call_laws : CallLaws calls) where
  load-Keeps :
      (f : Value F → Value F) (operand : Option (Expr F))
      → ((v : Value F) → Sized v → Sized (f v))
      → Keeps (load ops calls f operand)
  unfolding Sized
  load-Keeps f operand hf r h =
      let (v, s) = operand_value-Good ops laws operand unit r tt h in
      set_accumulator-StateSized _ _ (hf _ v) s

  store-Keeps :
      (operand : Option (Expr F)) (v : Value F) → Sized v → Keeps (store ops calls operand v)
  store-Keeps none v k r h = h
  store-Keeps (some (variable target)) v k r h = laws.assign-StateSized target v r k h
  store-Keeps (some _) v k r h = h

  store_if-Keeps :
      (b : Bool) (operand : Option (Expr F)) (v : Value F)
      → Sized v
      → Keeps (store_if ops calls b operand v)
  store_if-Keeps true operand v k r h = store-Keeps operand v k r h
  store_if-Keeps false operand v k r h = h

  combine-Keeps :
      (op : BinaryOp) (f : Value F → Value F) (default : Value F) (operand : Option (Expr F))
      → Sized default
      → Keeps (combine ops calls op f default operand)
  combine-Keeps op f default operand d r h =
      let (v, s) = operand_value-Good ops laws operand default r d h in
      store_result-StateSized _ (eval_binary-Good op _ _ _ (accumulator-Sized _ s) s)

  execute_il_call-StateSized :
      (operand : Option (Expr F)) (r : Runtime F)
      → StateSized r
      → StateSized (execute_il_call ops calls operand r)
  execute_il_call-StateSized (some (call name args)) r h =
      call_laws.call_block-StateSized _ args r h
  execute_il_call-StateSized (some (variable v)) r h = call_laws.call_block-StateSized v _ r h
  execute_il_call-StateSized _ r h = push_error-StateSized _ r h

  call_if-Keeps : (b : Bool) (operand : Option (Expr F)) → Keeps (call_if ops calls b operand)
  call_if-Keeps true operand r h = execute_il_call-StateSized operand r h
  call_if-Keeps false operand r h = h

  logic-Keeps :
      (op : BinaryOp) (f : Value F → Value F) (operand : Option (Expr F))
      → Keeps (combine ops calls op f (bool false) operand)
  unfolding Sized
  logic-Keeps op f operand = combine-Keeps op f (bool false) operand tt

  number-Keeps :
      (op : BinaryOp) (operand : Option (Expr F))
      → Keeps (combine ops calls op same (int (pos 0)) operand)
  unfolding Sized
  number-Keeps op operand = combine-Keeps op same (int (pos 0)) operand (omega arith)

  pub execute_il-Keeps :
      (op : IlOp) (operand : Option (Expr F)) → Keeps (execute_il ops calls op operand)
  unfolding execute_il Sized
  execute_il-Keeps IlOp.ld operand r h = load-Keeps same operand (λ v h. h) r h
  execute_il-Keeps IlOp.ldn operand r h = load-Keeps negate operand (λ v h. tt) r h
  execute_il-Keeps IlOp.st operand r h = store-Keeps operand _ (accumulator-Sized r h) r h
  execute_il-Keeps IlOp.stn operand r h = store-Keeps operand _ tt r h
  execute_il-Keeps IlOp.s operand r h =
      store_if-Keeps (truth r.il_accumulator) operand (bool true) tt r h
  execute_il-Keeps IlOp.r operand r h =
      store_if-Keeps (truth r.il_accumulator) operand (bool false) tt r h
  execute_il-Keeps IlOp.and operand r h = logic-Keeps BinaryOp.and same operand r h
  execute_il-Keeps IlOp.andn operand r h = logic-Keeps BinaryOp.and negate operand r h
  execute_il-Keeps IlOp.or operand r h = logic-Keeps BinaryOp.or same operand r h
  execute_il-Keeps IlOp.orn operand r h = logic-Keeps BinaryOp.or negate operand r h
  execute_il-Keeps IlOp.xor operand r h = logic-Keeps BinaryOp.xor same operand r h
  execute_il-Keeps IlOp.xorn operand r h = logic-Keeps BinaryOp.xor negate operand r h
  execute_il-Keeps IlOp.not operand r h = set_accumulator-StateSized _ r tt h
  execute_il-Keeps IlOp.add operand r h = number-Keeps BinaryOp.add operand r h
  execute_il-Keeps IlOp.sub operand r h = number-Keeps BinaryOp.sub operand r h
  execute_il-Keeps IlOp.mul operand r h = number-Keeps BinaryOp.mul operand r h
  execute_il-Keeps IlOp.div operand r h = number-Keeps BinaryOp.div operand r h
  execute_il-Keeps IlOp.modulo operand r h = number-Keeps BinaryOp.modulo operand r h
  execute_il-Keeps IlOp.gt operand r h = number-Keeps BinaryOp.greater operand r h
  execute_il-Keeps IlOp.ge operand r h = number-Keeps BinaryOp.greater_equal operand r h
  execute_il-Keeps IlOp.eq operand r h = number-Keeps BinaryOp.equal operand r h
  execute_il-Keeps IlOp.ne operand r h = number-Keeps BinaryOp.not_equal operand r h
  execute_il-Keeps IlOp.le operand r h = number-Keeps BinaryOp.less_equal operand r h
  execute_il-Keeps IlOp.lt operand r h = number-Keeps BinaryOp.less operand r h
  execute_il-Keeps IlOp.jmp operand r h = jump_if-Keeps true operand r h
  execute_il-Keeps IlOp.jmpc operand r h = jump_if-Keeps (truth r.il_accumulator) operand r h
  execute_il-Keeps IlOp.jmpcn operand r h = jump_if-Keeps (not (truth r.il_accumulator)) operand r h
  execute_il-Keeps IlOp.cal operand r h = call_if-Keeps true operand r h
  execute_il-Keeps IlOp.calc operand r h = call_if-Keeps (truth r.il_accumulator) operand r h
  execute_il-Keeps IlOp.calcn operand r h = call_if-Keeps (not (truth r.il_accumulator)) operand r h
  execute_il-Keeps IlOp.ret operand r h = h
  execute_il-Keeps IlOp.retc operand r h = return_if-Keeps (truth r.il_accumulator) r h
  execute_il-Keeps IlOp.retcn operand r h = return_if-Keeps (not (truth r.il_accumulator)) r h
