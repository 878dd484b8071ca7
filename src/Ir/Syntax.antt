-- ===== src/Ir/Syntax.antt =====
-- Expressions, statements and sequential function charts, crates/iec_ir/src/lib.rs. A recursive type
-- that holds a vector or an option of itself has the list beside it.
use robocpp.Base.{Bool, Option, List}
use robocpp.Base.Int.{ℤ}
use robocpp.Base.Text.{Text}
use robocpp.Ir.Names.{Identifier}
use robocpp.Ir.Qualifier.{SfcActionQualifier}
use robocpp.Ir.Value.{Floats, Literal}

pub data UnaryOp : Type 0 where
  neg not : UnaryOp

pub data BinaryOp : Type 0 where
  or xor and equal not_equal less less_equal greater greater_equal : BinaryOp
  add sub mul div modulo power : BinaryOp

mutual
  pub data Expr (F : Floats) : Type 0 where
    literal : Literal F → Expr F
    variable : VariableRef F → Expr F
    unary : UnaryOp → Expr F → Expr F
    binary : BinaryOp → Expr F → Expr F → Expr F
    call : Identifier → Params F → Expr F
    array_literal : Exprs F → Expr F
    struct_literal : Params F → Expr F

  -- The fields `path`, `indices` and `direct`.
  pub data VariableRef (F : Floats) : Type 0 where
    reference : List Identifier → Indices F → Option Text → VariableRef F

  pub data Exprs (F : Floats) : Type 0 where
    nil : Exprs F
    cons : Expr F → Exprs F → Exprs F

  pub data Indices (F : Floats) : Type 0 where
    nil_indices : Indices F
    cons_indices : Exprs F → Indices F → Indices F

  -- `Vec<ParamAssignment>`: the fields `name`, `output`, `negated`, `expr` and `variable`.
  pub data Params (F : Floats) : Type 0 where
    end : Params F
    param : Option Identifier → Bool → Bool → MaybeExpr F → MaybeVariable F → Params F → Params F

  pub data MaybeExpr (F : Floats) : Type 0 where
    no_expr : MaybeExpr F
    an_expr : Expr F → MaybeExpr F

  pub data MaybeVariable (F : Floats) : Type 0 where
    no_variable : MaybeVariable F
    a_variable : VariableRef F → MaybeVariable F

pub data IlOp : Type 0 where
  ld ldn st stn s r and andn or orn xor xorn not : IlOp
  add sub mul div modulo gt ge eq ne le lt : IlOp
  jmp jmpc jmpcn cal calc calcn ret retc retcn : IlOp

pub data CaseLabel (F : Floats) : Type 0 where
  single : Expr F → CaseLabel F
  range : Expr F → Expr F → CaseLabel F

mutual
  pub data Statement (F : Floats) : Type 0 where
    empty : Statement F
    assignment : VariableRef F → Expr F → Statement F
    fb_call : VariableRef F → Params F → Statement F
    if_statement : Branches F → Statements F → Statement F
    case_statement : Expr F → Cases F → Statements F → Statement F
    for_loop : Identifier → Expr F → Expr F → Option (Expr F) → Statements F → Statement F
    while_loop : Expr F → Statements F → Statement F
    repeat_loop : Statements F → Expr F → Statement F
    il : IlOp → Option (Expr F) → Statement F
    il_label : Identifier → Statement F
    exit_statement : Statement F
    return_statement : Statement F
    unsupported : Text → Statement F

  pub data Statements (F : Floats) : Type 0 where
    done : Statements F
    then_do : Statement F → Statements F → Statements F

  pub data Branches (F : Floats) : Type 0 where
    no_branch : Branches F
    branch : Expr F → Statements F → Branches F → Branches F

  pub data Cases (F : Floats) : Type 0 where
    no_case : Cases F
    a_case : List (CaseLabel F) → Statements F → Cases F → Cases F

pub record SfcActionAssociation (F : Floats) : Type 0 where
  pub name : Identifier
  pub qualifier : Option SfcActionQualifier
  pub duration : Option (Literal F)

pub data SfcStepKind : Type 0 where
  step macro_step : SfcStepKind

pub record SfcStep (F : Floats) : Type 0 where
  pub name : Identifier
  pub initial : Bool
  pub kind : SfcStepKind
  pub actions : List (SfcActionAssociation F)

pub record SfcTransition (F : Floats) : Type 0 where
  pub name : Option Identifier
  pub from : List Identifier
  pub to : List Identifier
  pub condition : Option (Expr F)
  pub priority : Option ℤ

pub record SfcAction (F : Floats) : Type 0 where
  pub name : Identifier
  pub qualifier : SfcActionQualifier
  pub duration : Option (Literal F)
  pub body : Statements F

pub record Sfc (F : Floats) : Type 0 where
  pub steps : List (SfcStep F)
  pub transitions : List (SfcTransition F)
  pub actions : List (SfcAction F)

-- The range of an index or of the values of a type
pub record Subrange : Type 0 where
  pub low : ℤ
  pub high : ℤ
