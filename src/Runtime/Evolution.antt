-- ===== src/Runtime/Evolution.antt =====
-- One cycle of a sequential function chart, `execute_sfc` of crates/iec_runtime/src/runtime.rs with
-- its helpers of support.rs.
pub mod Firing
pub mod Taking
use robocpp.Base.{
  ℕ, suc, Bool, true, false, ◌&&◌, ◌||◌, Option, none, some, List, [], ◌∷◌, ◌++◌, if◌then◌else◌,
  ltb, ◌==◌, unwrap_or, and_then, get_elem?, or_else,
}
use robocpp.Base.Int.{ℤ, pos, leb_ℤ, eqb_ℤ}
use robocpp.Base.Text.{Text, codes, eqb}
use robocpp.Base.Map.{lookup, insert}
use robocpp.Ir.Names.{Identifier}
use robocpp.Ir.Value.{Floats, Value, Literal, bool, as_bool}
use robocpp.Ir.Syntax.{
  Expr, SfcActionAssociation, SfcStep, SfcTransition, SfcAction, Sfc, Statements,
}
use robocpp.Runtime.State.{Runtime}
use robocpp.Runtime.Sfc.{SfcActionInput, sfc_action_should_execute}
use robocpp.Runtime.Eval.Expr.{Operations}
use robocpp.Runtime.Eval.Calls.{eval}
use robocpp.Runtime.Statement.{Control, continue, exit, return, jump, Run}
use robocpp.Runtime.Statement.Il.{BlockCalls}
use robocpp.Runtime.Statement.Execute.{holds}
use robocpp.Runtime.Statement.Lists.{execute_statement_list}

unfoldable pub contains : Text → List Text → Bool
contains name [] = false
contains name (n ∷ ns) = eqb n name || contains name ns

abbrev pub step_key : Identifier → Text
step_key step = codes "$SFC_STEP_" ++ step.canonical

-- A transition whose condition holds: priority, index, the steps it leaves and those it enters.
pub record Candidate : Type 0 where
  pub priority : ℤ
  pub index : ℕ
  pub from : List Identifier
  pub to : List Identifier

-- The key `(priority, index)` in its order.
abbrev pub before : Candidate → Candidate → Bool
before a b =
    if eqb_ℤ a.priority b.priority then ltb a.index b.index else leb_ℤ a.priority b.priority

unfoldable pub insert_candidate : Candidate → List Candidate → List Candidate
insert_candidate c [] = c ∷ []
insert_candidate c (d ∷ ds) =
    let rest = insert_candidate c ds in if before c d then c ∷ d ∷ ds else d ∷ rest

unfoldable pub sort_candidates : List Candidate → List Candidate
unfolding insert_candidate
sort_candidates [] = []
sort_candidates (c ∷ cs) = insert_candidate c (sort_candidates cs)

-- Some step that is left has been left already.
unfoldable pub any_consumed : List Text → List Identifier → Bool
unfolding contains
any_consumed consumed [] = false
any_consumed consumed (step ∷ steps) =
    contains step.canonical consumed || any_consumed consumed steps

unfoldable pub consume : List Identifier → List Text → List Text
consume [] consumed = consumed
consume (step ∷ steps) consumed = consume steps (step.canonical ∷ consumed)

abbrev written_steps :
    List Identifier
    → List Identifier
    → Option (List Identifier × List Identifier)
    → Option (List Identifier × List Identifier)
written_steps [] [] default = default
written_steps (a ∷ from) (b ∷ to) default = some (a ∷ from, b ∷ to)
written_steps _ _ default = none

module _ {F : Floats} where
  unfoldable pub is_step_active : Identifier → Runtime F → Bool
  is_step_active step r = unwrap_or false (and_then (lookup (step_key step) r.env) as_bool)

  unfoldable pub set_step : Bool → Identifier → Runtime F → Runtime F
  set_step b step r = record r { env = insert (step_key step) (bool b) r.env }

  unfoldable pub set_steps : Bool → List Identifier → Runtime F → Runtime F
  set_steps b [] r = r
  set_steps b (step ∷ steps) r = set_steps b steps (set_step b step r)

  unfoldable pub all_active : List Identifier → Runtime F → Bool
  all_active [] r = true
  all_active (step ∷ steps) r = is_step_active step r && all_active steps r

  abbrev neighbours :
      Option (SfcStep F) → Option (SfcStep F) → Option (List Identifier × List Identifier)
  neighbours (some a) (some b) = some (a.name ∷ [], b.name ∷ [])
  neighbours _ _ = none

  -- `sfc_transition_steps`
  unfoldable pub transition_steps :
      Sfc F → SfcTransition F → ℕ → Option (List Identifier × List Identifier)
  transition_steps sfc t index =
      written_steps t.from t.to
        (neighbours (get_elem? sfc.steps index) (get_elem? sfc.steps (suc index)))

  unfoldable pub association_inputs :
      SfcAction F → Bool → List (SfcActionAssociation F) → List (SfcActionInput F)
  association_inputs action active [] = []
  association_inputs action active (a ∷ associations) =
      let rest = association_inputs action active associations in
      if eqb a.name.canonical action.name.canonical
      then record {
        qualifier = unwrap_or action.qualifier a.qualifier;
        duration = or_else a.duration action.duration;
        active = active;
      }
        ∷ rest
      else rest

  unfoldable pub step_inputs : SfcAction F → List Text → List (SfcStep F) → List (SfcActionInput F)
  unfolding association_inputs contains
  step_inputs action active_steps [] = []
  step_inputs action active_steps (step ∷ steps) =
      association_inputs action (contains step.name.canonical active_steps) step.actions
      ++ step_inputs action active_steps steps

  -- An action that no step names is one of the step of its own name.
  abbrev or_own : SfcAction F → List Text → List (SfcActionInput F) → List (SfcActionInput F)
  or_own action active_steps [] =
      record {
        qualifier = action.qualifier;
        duration = action.duration;
        active = contains action.name.canonical active_steps;
      }
      ∷ []
  or_own action active_steps (input ∷ inputs) = input ∷ inputs

  -- `sfc_action_inputs`
  unfoldable pub action_inputs : Sfc F → SfcAction F → List Text → List (SfcActionInput F)
  unfolding step_inputs
  action_inputs sfc action active_steps =
      or_own action active_steps (step_inputs action active_steps sfc.steps)

  unfoldable pub active_steps : List (SfcStep F) → Runtime F → List Text
  unfolding is_step_active
  active_steps [] r = []
  active_steps (step ∷ steps) r =
      let rest = active_steps steps r in
      if is_step_active step.name r then step.name.canonical ∷ rest else rest

  -- The last loop of `execute_sfc`, over the sorted candidates.
  unfoldable pub fire : List Text → List Candidate → Runtime F → Runtime F
  unfolding any_consumed consume set_steps
  fire consumed [] r = r
  fire consumed (c ∷ cs) r =
      let skipped = fire consumed cs r in
      let fired =
        fire (consume c.from consumed) cs (set_steps true c.to (set_steps false c.from r)) in
      if any_consumed consumed c.from then skipped else fired

module _ {F : Floats} (ops : Operations F) (calls : BlockCalls F) where
  abbrev pub after_action : Control × Runtime F → Run F → Control × Runtime F
  after_action (continue, r) next = next r
  after_action (return, r) next = next r
  after_action (control, r) next = (control, r)

  abbrev pub run_action : Bool × Runtime F → Statements F → Run F → Control × Runtime F
  run_action (true, r) body next = after_action (execute_statement_list ops calls body r) next
  run_action (false, r) body next = next r

  unfoldable pub run_actions : Sfc F → List Text → List (SfcAction F) → Run F
  unfolding sfc_action_should_execute action_inputs execute_statement_list
  run_actions sfc active [] r = (continue, r)
  run_actions sfc active (a ∷ actions) r =
      run_action (sfc_action_should_execute a.name.canonical a.name (action_inputs sfc a active) r)
        a.body (run_actions sfc active actions)

  abbrev pub condition_holds : Option (Expr F) → Runtime F → Bool × Runtime F
  condition_holds none r = (false, r)
  condition_holds (some e) r = holds ops e r

  abbrev pub candidate_if : Bool × Runtime F → Candidate → List Candidate × Runtime F
  candidate_if (true, r) c = (c ∷ [], r)
  candidate_if (false, r) c = ([], r)

  -- The body of the loop over the transitions, for the steps it goes between.
  abbrev pub candidate_of :
      SfcTransition F
      → ℕ
      → Option (List Identifier × List Identifier)
      → Runtime F
      → List Candidate × Runtime F
  candidate_of t index none r = ([], r)
  candidate_of t index (some (left, entered)) r =
      if all_active left r
      then candidate_if (condition_holds t.condition r) record {
        priority = unwrap_or (pos 0x7fff_ffff_ffff_ffff) t.priority;
        index = index;
        from = left;
        to = entered;
      }
      else ([], r)

  unfoldable pub candidates :
      Sfc F → ℕ → List (SfcTransition F) → Runtime F → List Candidate × Runtime F
  unfolding transition_steps all_active
  candidates sfc index [] r = ([], r)
  candidates sfc index (t ∷ ts) r =
      let (here, s) = candidate_of t index (transition_steps sfc t index) r in
      let (rest, u) = candidates sfc (suc index) ts s in (here ++ rest, u)

  unfoldable pub evolve : Sfc F → Runtime F → Runtime F
  unfolding candidates sort_candidates fire
  evolve sfc r = let (cs, s) = candidates sfc 0 sfc.transitions r in fire [] (sort_candidates cs) s

  abbrev pub after_actions : Control × Runtime F → (Runtime F → Runtime F) → Control × Runtime F
  after_actions (continue, r) next = (continue, next r)
  after_actions (control, r) next = (control, r)

  unfoldable pub execute_sfc : Sfc F → Run F
  unfolding run_actions active_steps evolve
  execute_sfc sfc r =
      after_actions (run_actions sfc (active_steps sfc.steps r) sfc.actions r) (evolve sfc)

  unfoldable pub execute_program_cycle : Option (Sfc F) → Statements F → Run F
  unfolding execute_sfc execute_statement_list
  execute_program_cycle (some sfc) body r = execute_sfc sfc r
  execute_program_cycle none body r = execute_statement_list ops calls body r
