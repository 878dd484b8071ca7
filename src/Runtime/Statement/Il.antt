-- ===== src/Runtime/Statement/Il.antt =====
-- `execute_il_instruction` of crates/iec_runtime/src/runtime.rs: instruction lists over the
-- accumulator.
use robocpp.Base.{Bool, true, false, not, Option, none, some, [], ◌∷◌, unwrap_or, and_then}
use robocpp.Base.Int.{pos}
use robocpp.Base.Text.{Text, codes}
use robocpp.Ir.Names.{Identifier, identifier}
use robocpp.Ir.Value.{Floats, Value, bool, int, unit, as_bool}
use robocpp.Ir.Syntax.{
  BinaryOp, Expr, variable, call, VariableRef, reference, Exprs, cons_indices, nil_indices, Params,
  IlOp,
}
use robocpp.Runtime.State.{Runtime}
use robocpp.Runtime.Eval.{push_error, eval_binary}
use robocpp.Runtime.Eval.Expr.{Operations}
use robocpp.Runtime.Eval.Calls.{eval}
use robocpp.Runtime.Statement.{Control, continue, return, jump, Run}

-- What a statement needs of the rest of the interpreter.
pub record BlockCalls (F : Floats) : Type 0 where
  -- `is_standard_void_function`, `execute_standard_void_call`
  pub is_void : Text → Bool
  pub call_void : Identifier → Params F → Runtime F → Runtime F
  -- `execute_fb_call`
  pub call_block : VariableRef F → Params F → Runtime F → Runtime F

module _ {F : Floats} where
  unfoldable pub root_name : VariableRef F → Option Identifier
  root_name (reference [] indices direct) = none
  root_name (reference (name ∷ path) indices direct) = some name

  unfoldable pub il_label_operand : Expr F → Option Identifier
  il_label_operand (variable (reference (name ∷ []) indices none)) = some name
  il_label_operand _ = none

  abbrev pub truth : Value F → Bool
  truth v = unwrap_or false (as_bool v)

  abbrev pub negate : Value F → Value F
  negate v = bool (not (truth v))

  abbrev pub same : Value F → Value F
  same v = v

  unfoldable pub set_accumulator : Value F → Runtime F → Runtime F
  set_accumulator v r = record r { il_accumulator = v }

  abbrev pub jump_to : Option Identifier → Run F
  jump_to (some label) r = (jump label.canonical, r)
  jump_to none r = (continue, push_error (codes "IL jump instruction requires a label operand") r)

  abbrev pub jump_if : Bool → Option (Expr F) → Run F
  jump_if true operand r = jump_to (and_then operand il_label_operand) r
  jump_if false operand r = (continue, r)

  abbrev pub return_if : Bool → Run F
  return_if true r = (return, r)
  return_if false r = (continue, r)

  -- The accumulator stays as it is if the operation has no result.
  abbrev pub store_result : Option (Value F) × Runtime F → Control × Runtime F
  store_result (some v, r) = (continue, set_accumulator v r)
  store_result (none, r) = (continue, r)

  -- `operand.and_then(|expr| self.eval_expr(expr)).unwrap_or(default)`
  abbrev pub operand_value :
      Operations F → Option (Expr F) → Value F → Runtime F → Value F × Runtime F
  operand_value ops none default r = (default, r)
  operand_value ops (some e) default r = let (o, s) = eval ops e r in (unwrap_or default o, s)

module _ {F : Floats} (ops : Operations F) (calls : BlockCalls F) where
  abbrev pub load : (Value F → Value F) → Option (Expr F) → Run F
  load f operand r =
      let (v, s) = operand_value ops operand unit r in (continue, set_accumulator (f v) s)

  abbrev pub store : Option (Expr F) → Value F → Run F
  store (some (variable target)) v r = (continue, ops.assign target v r)
  store _ v r = (continue, r)

  abbrev pub store_if : Bool → Option (Expr F) → Value F → Run F
  store_if true operand v r = store operand v r
  store_if false operand v r = (continue, r)

  abbrev pub combine : BinaryOp → (Value F → Value F) → Value F → Option (Expr F) → Run F
  combine op f default operand r =
      let (v, s) = operand_value ops operand default r in
      store_result (eval_binary op s.il_accumulator (f v) s)

  -- `execute_il_call`, for `VariableRef::named` of a call's name
  abbrev pub execute_il_call : Option (Expr F) → Runtime F → Runtime F
  execute_il_call (some (call name args)) r =
      calls.call_block
        (reference (identifier name.original ∷ []) (cons_indices Exprs.nil nil_indices) none) args r
  execute_il_call (some (variable v)) r = calls.call_block v Params.end r
  execute_il_call _ r =
      push_error (codes "IL CAL instruction requires a function block instance operand") r

  abbrev pub call_if : Bool → Option (Expr F) → Run F
  call_if true operand r = (continue, execute_il_call operand r)
  call_if false operand r = (continue, r)

  unfoldable pub execute_il : IlOp → Option (Expr F) → Run F
  execute_il IlOp.ld operand r = load same operand r
  execute_il IlOp.ldn operand r = load negate operand r
  execute_il IlOp.st operand r = store operand r.il_accumulator r
  execute_il IlOp.stn operand r = store operand (negate r.il_accumulator) r
  execute_il IlOp.s operand r = store_if (truth r.il_accumulator) operand (bool true) r
  execute_il IlOp.r operand r = store_if (truth r.il_accumulator) operand (bool false) r
  execute_il IlOp.and operand r = combine BinaryOp.and same (bool false) operand r
  execute_il IlOp.andn operand r = combine BinaryOp.and negate (bool false) operand r
  execute_il IlOp.or operand r = combine BinaryOp.or same (bool false) operand r
  execute_il IlOp.orn operand r = combine BinaryOp.or negate (bool false) operand r
  execute_il IlOp.xor operand r = combine BinaryOp.xor same (bool false) operand r
  execute_il IlOp.xorn operand r = combine BinaryOp.xor negate (bool false) operand r
  execute_il IlOp.not operand r = (continue, set_accumulator (negate r.il_accumulator) r)
  execute_il IlOp.add operand r = combine BinaryOp.add same (int (pos 0)) operand r
  execute_il IlOp.sub operand r = combine BinaryOp.sub same (int (pos 0)) operand r
  execute_il IlOp.mul operand r = combine BinaryOp.mul same (int (pos 0)) operand r
  execute_il IlOp.div operand r = combine BinaryOp.div same (int (pos 0)) operand r
  execute_il IlOp.modulo operand r = combine BinaryOp.modulo same (int (pos 0)) operand r
  execute_il IlOp.gt operand r = combine BinaryOp.greater same (int (pos 0)) operand r
  execute_il IlOp.ge operand r = combine BinaryOp.greater_equal same (int (pos 0)) operand r
  execute_il IlOp.eq operand r = combine BinaryOp.equal same (int (pos 0)) operand r
  execute_il IlOp.ne operand r = combine BinaryOp.not_equal same (int (pos 0)) operand r
  execute_il IlOp.le operand r = combine BinaryOp.less_equal same (int (pos 0)) operand r
  execute_il IlOp.lt operand r = combine BinaryOp.less same (int (pos 0)) operand r
  execute_il IlOp.jmp operand r = jump_if true operand r
  execute_il IlOp.jmpc operand r = jump_if (truth r.il_accumulator) operand r
  execute_il IlOp.jmpcn operand r = jump_if (not (truth r.il_accumulator)) operand r
  execute_il IlOp.cal operand r = call_if true operand r
  execute_il IlOp.calc operand r = call_if (truth r.il_accumulator) operand r
  execute_il IlOp.calcn operand r = call_if (not (truth r.il_accumulator)) operand r
  execute_il IlOp.ret operand r = (return, r)
  execute_il IlOp.retc operand r = return_if (truth r.il_accumulator) r
  execute_il IlOp.retcn operand r = return_if (not (truth r.il_accumulator)) r
