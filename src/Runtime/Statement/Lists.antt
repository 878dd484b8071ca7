-- ===== src/Runtime/Statement/Lists.antt =====
-- `execute_statement_list` of crates/iec_runtime/src/runtime.rs: the statements of a body in order,
-- with the jumps of instruction lists to labels of the same list.
use robocpp.Base.{
  ℕ, zero, suc, ◌+◌, ◌≤◌, ◌≡◌, refl, ◌∙◌, ap, Option, none, some, arith, if◌then◌else◌,
}
use robocpp.Base.Text.{Text, codes, eqb}
use robocpp.Ir.Value.{Floats}
use robocpp.Ir.Syntax.{Statement, il_label, Statements, done, then_do}
use robocpp.Runtime.State.{Runtime}
use robocpp.Runtime.Eval.Expr.{Operations}
use robocpp.Runtime.Statement.{Control, continue, exit, return, jump, Run, stop_with}
use robocpp.Runtime.Statement.Il.{BlockCalls}
use robocpp.Runtime.Statement.Execute.{execute, execute_block, and_then_run}

abbrev pub list_message : Text
list_message = codes "maximum statement execution count exceeded"

module _ {F : Floats} where
  abbrev pub statement_at : ℕ → Statements F → Option (Statement F)
  statement_at i done = none
  statement_at zero (then_do s ss) = some s
  statement_at (suc i) (then_do s ss) = statement_at i ss

  -- The index of a label: of two labels that agree the last one stays in the map.
  abbrev own_index : Option ℕ → Text → ℕ → Statement F → Option ℕ
  own_index (some j) label i s = some j
  own_index none label i (il_label name) = if eqb name.canonical label then some i else none
  own_index none label i s = none

  unfoldable pub label_index : Text → ℕ → Statements F → Option ℕ
  label_index label i done = none
  label_index label i (then_do s ss) = own_index (label_index label (suc i) ss) label i s

  abbrev pub jump_in : Option ℕ → Text → (ℕ → Run F) → Run F
  jump_in (some i) label next r = next i r
  jump_in none label next r = (jump label, r)

  abbrev pub after_statement :
      Statements F → ℕ → Control × Runtime F → (ℕ → Run F) → Control × Runtime F
  after_statement ss ip (continue, r) next = next (suc ip) r
  after_statement ss ip (jump label, r) next = jump_in (label_index label 0 ss) label next r
  after_statement ss ip (control, r) next = (control, r)

module _ {F : Floats} (ops : Operations F) (calls : BlockCalls F) where
  abbrev pub list_round : Statements F → Option (Statement F) → ℕ → (ℕ → Run F) → Run F
  list_round ss none ip next r = (continue, r)
  list_round ss (some s) ip next r = after_statement ss ip (execute ops calls s r) next

  -- `n` is the number of statements that may still be executed before the last one.
  unfoldable pub list_rounds : Statements F → ℕ → ℕ → Run F
  list_rounds ss zero ip r = list_round ss (statement_at ip ss) ip (λ i. stop_with list_message) r
  list_rounds ss (suc n) ip r = list_round ss (statement_at ip ss) ip (list_rounds ss n) r

  unfoldable pub execute_statement_list : Statements F → Run F
  unfolding list_rounds
  execute_statement_list ss r = list_rounds ss r.options.max_loop_iterations 0 r

module _ {F : Floats} where
  abbrev pub count : Statements F → ℕ
  count done = 0
  count (then_do s ss) = suc (count ss)

module _ {F : Floats} (ops : Operations F) (calls : BlockCalls F) where
  step-block :
      (all ss : Statements F) (n ip : ℕ) (out : Control × Runtime F)
      → ((label : Text) → label_index label 0 all ≡ none)
      → ((r : Runtime F) → list_rounds ops calls all n (suc ip) r ≡ execute_block ops calls ss r)
      → after_statement all ip out (list_rounds ops calls all n)
        ≡ and_then_run ops calls out (execute_block ops calls ss)
  step-block all ss n ip (continue, r) free h = h r
  step-block all ss n ip (exit, r) free h = refl
  step-block all ss n ip (return, r) free h = refl
  step-block all ss n ip (jump label, r) free h = rw (free label) refl

  now :
      (all ss : Statements F) (ip : ℕ)
      → ((k : ℕ) → statement_at (k + ip) all ≡ statement_at k ss)
      → statement_at ip all ≡ statement_at 0 ss
  now all ss ip at = ap (λ i. statement_at i all) (omega arith) ∙ at 0

  -- The rest `ss` of the list `all` from `ip` on
  rounds-block :
      (all ss : Statements F) (n ip : ℕ) (r : Runtime F)
      → ((label : Text) → label_index label 0 all ≡ none)
      → ((k : ℕ) → statement_at (k + ip) all ≡ statement_at k ss)
      → count ss ≤ n
      → list_rounds ops calls all n ip r ≡ execute_block ops calls ss r
  unfolding list_rounds execute_block
  rounds-block all done zero ip r free at le =
      ap (λ o. list_round ops calls all o ip (λ i. stop_with list_message) r) (now all done ip at)
  rounds-block all done (suc n) ip r free at le =
      ap (λ o. list_round ops calls all o ip (list_rounds ops calls all n) r) (now all done ip at)
  rounds-block all (then_do s ss) zero ip r free at le = elim le [ ]
  rounds-block all (then_do s ss) (suc n) ip r free at le =
      ap (λ o. list_round ops calls all o ip (list_rounds ops calls all n) r)
        (now all (then_do s ss) ip at)
      ∙ (step-block all ss n ip (execute ops calls s r) free (λ t.
          rounds-block all ss n (suc ip) t free
            (λ k. ap (λ i. statement_at i all) (omega arith) ∙ at (suc k)) (omega arith)))

  -- A list without labels, no longer than the bound on executed statements, runs as a block does.
  pub execute_statement_list-execute_block :
      (ss : Statements F) (r : Runtime F)
      → ((label : Text) → label_index label 0 ss ≡ none)
      → count ss ≤ r.options.max_loop_iterations
      → execute_statement_list ops calls ss r ≡ execute_block ops calls ss r
  unfolding execute_statement_list
  execute_statement_list-execute_block ss r free le =
      rounds-block ss ss r.options.max_loop_iterations 0 r free
        (λ k. ap (λ i. statement_at i ss) (omega arith)) le
