-- ===== src/Runtime/Eval/Invariant.antt =====
-- Evaluation keeps integers in `i64` and times in `i128`, in its results and in the state,
-- crates/iec_runtime/src/runtime.rs.
pub mod UserCalls
pub mod Calls
use Prim.Native.Nat.{Ordering}
use robocpp.Base.{
  ℕ, suc, ◌+◌, ◌-◌, ◌≡◌, refl, inl, inr, Bool, true, false, not, ◌&&◌, ◌||◌, Bool-cases, Option,
  none, some, List, [], ◌∷◌, ◌++◌, arith, if◌then◌else◌, ltb, unwrap_or, and_then,
}
use robocpp.Base.Int.{ℤ, pos, negsuc, IsI64, is_i64, checked, checked-IsI64, ◌-ℤ◌}
use robocpp.Base.Text.{Text, codes}
use robocpp.Base.Map.{Map, All, insert, insert-All}
use robocpp.Ir.Names.{Identifier}
use robocpp.Ir.Value.{
  Floats, Value, bool, int, real, string, wstring, time_ms, array, struct, unit, Values, Fields,
  end, field, Literal, as_bool, as_i64,
}
use robocpp.Ir.Syntax.{UnaryOp, neg, BinaryOp, and, or, Params, VariableRef}
use robocpp.Runtime.State.{Runtime}
use robocpp.Runtime.Eval.{
  Eval, after_eval, ◌>>=◌, give, push_error, push_warning, or_overflow, eval_binary, compare_text,
}
use robocpp.Runtime.Eval.Expr.{
  Operations, Entry, insert_entry, sort_entries, entry_values, by_ordering, insert_field,
  eval_unary, eval_neg, eval_not, eval_right, short_circuit,
}
use robocpp.Runtime.Eval.Sized.{
  Sized, AllSized, FieldsSized, MaybeSized, MaybeI64, as_i64-Sized, eval_binary-Sized,
}
use robocpp.Runtime.Eval.Effect.{Reported, kept, reported, eval_binary-Reported}

-- Every variable and the accumulator hold sized values.
unfoldable pub StateSized : {F : Floats} → Runtime F → Type 0
StateSized r = All (λ k v. Sized v) r.env × Sized r.il_accumulator

abbrev pub Good : {F : Floats} → Option (Value F) × Runtime F → Type 0
Good out = MaybeSized out.0 × StateSized out.1

abbrev pub ListSized : {F : Floats} → List (Value F) → Type 0
ListSized [] = Unit
ListSized (v ∷ vs) = Sized v × ListSized vs

abbrev pub EntriesSized : {F : Floats} → List (Entry F) → Type 0
EntriesSized [] = Unit
EntriesSized ((i, v) ∷ es) = Sized v × EntriesSized es

-- What evaluation needs of the operations on variables, of the standard functions and of the bodies
-- of the project's functions.
pub record Laws {F : Floats} (ops : Operations F) : Type 0 where
  pub literal_value-Sized : (l : Literal F) → Sized (ops.literal_value l)
  pub resolve-Good : (v : VariableRef F) (r : Runtime F) → StateSized r → Good (ops.resolve v r)
  pub assign-StateSized :
      (v : VariableRef F) (x : Value F) (r : Runtime F)
      → Sized x
      → StateSized r
      → StateSized (ops.assign v x r)
  pub standard-Sized :
      (f : Text) (vs : List (Value F)) → ListSized vs → MaybeSized (ops.standard f vs)
  pub disabled-Sized : (f : Identifier) (ps : Params F) → Sized (ops.disabled_standard_value f ps)
  pub default-Sized : (f : Text) → MaybeSized (ops.function_default f)
  pub run_function-Good :
      (f : Identifier) (vs : List (Value F)) (m : Map (Value F)) (r : Runtime F)
      → ListSized vs
      → All (λ k v. Sized v) m
      → StateSized r
      → Good (ops.run_function f vs m r)

-- Both branches of a test
pub if_both {ℓ κ} :
    {A : Type ℓ} (P : A → Type κ) (b : Bool) (x y : A) → P x → P y → P (if b then x else y)
if_both P true x y p q = p
if_both P false x y p q = q

module _ {F : Floats} where
  pub push_error-StateSized :
      (message : Text) (r : Runtime F) → StateSized r → StateSized (push_error message r)
  unfolding StateSized push_error
  push_error-StateSized message r h = h

  pub push_warning-StateSized :
      (message : Text) (r : Runtime F) → StateSized r → StateSized (push_warning message r)
  unfolding StateSized push_warning
  push_warning-StateSized message r h = h

  Reported-StateSized : (r s : Runtime F) → Reported r s → StateSized r → StateSized s
  Reported-StateSized r _ kept h = h
  Reported-StateSized r _ (reported message) h = push_error-StateSized message r h

  pub eval_binary-Good :
      (op : BinaryOp) (a b : Value F) (r : Runtime F)
      → Sized a
      → StateSized r
      → Good (eval_binary op a b r)
  eval_binary-Good op a b r ha h =
      (eval_binary-Sized op a b r ha, Reported-StateSized r _ (eval_binary-Reported r op a b) h)

  pub after_eval-Good :
      (out : Option (Value F) × Runtime F) (f : Value F → Eval F (Value F))
      → Good out
      → ((v : Value F) (r : Runtime F) → Sized v → StateSized r → Good (f v r))
      → Good (after_eval out f)
  after_eval-Good (none, r) f g h = (tt, g.1)
  after_eval-Good (some v, r) f g h = h v r g.0 g.1

  negated-Good :
      (o : Option ℤ) (r : Runtime F)
      → StateSized r
      → Good {F = F} (
          (give o >>= λ n.
          or_overflow (codes "integer negation") (checked is_i64 (pos 0 -ℤ n)) >>= λ m.
          give (some (int m)))
            r)
  unfolding Sized
  negated-Good none r k = (tt, k)
  negated-Good (some n) r k = elim (Bool-cases (is_i64 (pos 0 -ℤ n))) [
    | inl e ↦ rw e (checked-IsI64 (pos 0 -ℤ n) (pos 0 -ℤ n) (rw e refl), k)
    | inr e ↦ rw e (tt, push_error-StateSized _ r k)
  ]

  complement-Sized :
      (o : Option ℤ) (r : Runtime F)
      → MaybeI64 o
      → StateSized r
      → Good {F = F} ((give o >>= λ n. give (some (int (pos 0 -ℤ n -ℤ pos 1)))) r)
  unfolding Sized ◌-ℤ◌
  complement-Sized none r h k = (tt, k)
  complement-Sized (some n) r h k = (ground arith, k)

  pub eval_unary-Good :
      (op : UnaryOp) (v : Value F) (r : Runtime F)
      → Sized v
      → StateSized r
      → Good (eval_unary op v r)
  unfolding eval_unary Sized
  eval_unary-Good neg (real x) r h k = (tt, k)
  eval_unary-Good neg v r h k = negated-Good (as_i64 v) r k
  eval_unary-Good UnaryOp.not (bool b) r h k = (tt, k)
  eval_unary-Good UnaryOp.not v r h k = complement-Sized (as_i64 v) r (as_i64-Sized v h) k

  short_circuit-Good :
      (op : BinaryOp) (b : Bool) (rest : Eval F (Value F)) (r : Runtime F)
      → StateSized r
      → Good (rest r)
      → Good (short_circuit op b rest r)
  unfolding Sized
  short_circuit-Good and false rest r k g = (tt, k)
  short_circuit-Good or true rest r k g = (tt, k)
  short_circuit-Good op b rest r k g = g

  pub eval_right-Good :
      (op : BinaryOp) (v : Value F) (right : Eval F (Value F)) (r : Runtime F)
      → Sized v
      → StateSized r
      → Good (right r)
      → Good (eval_right op v right r)
  unfolding eval_right
  eval_right-Good op (bool b) right r h k g =
      short_circuit-Good op b _ r k
        (after_eval-Good (right r) _ g (λ w s i j. eval_binary-Good op (bool b) w s h j))
  eval_right-Good op v right r h k g =
      after_eval-Good (right r) _ g (λ w s i j. eval_binary-Good op v w s h j)

  insert_entry-Sized :
      (e : Entry F) (es : List (Entry F))
      → Sized e.1
      → EntriesSized es
      → EntriesSized (insert_entry e es)
  unfolding insert_entry
  insert_entry-Sized (i, v) [] h k = (h, tt)
  insert_entry-Sized (i, v) ((j, w) ∷ es) h k =
      if_both EntriesSized (ltb i j) _ _ (h, k) (k.0, insert_entry-Sized (i, v) es h k.1)

  entry_values-Sized : (es : List (Entry F)) → EntriesSized es → ListSized (entry_values es)
  unfolding entry_values
  entry_values-Sized [] h = tt
  entry_values-Sized ((i, v) ∷ es) h = (h.0, entry_values-Sized es h.1)

  pub sort_entries-Sized :
      (sorted es : List (Entry F))
      → EntriesSized sorted
      → EntriesSized es
      → ListSized (entry_values (sort_entries sorted es))
  unfolding sort_entries
  sort_entries-Sized sorted [] h k = entry_values-Sized sorted h
  sort_entries-Sized sorted ((i, v) ∷ es) h k =
      sort_entries-Sized (insert_entry (i, v) sorted) es (insert_entry-Sized (i, v) sorted k.0 h)
        k.1

  by_ordering-Sized :
      (o : Ordering) (a b c : Fields F)
      → FieldsSized a
      → FieldsSized b
      → FieldsSized c
      → FieldsSized (by_ordering o a b c)
  by_ordering-Sized Ordering.lt a b c ha hb hc = ha
  by_ordering-Sized Ordering.eq a b c ha hb hc = hb
  by_ordering-Sized Ordering.gt a b c ha hb hc = hc

  pub insert_field-Sized :
      (k : Text) (v : Value F) (fs : Fields F)
      → Sized v
      → FieldsSized fs
      → FieldsSized (insert_field k v fs)
  unfolding insert_field Sized
  insert_field-Sized k v end h g = (h, tt)
  insert_field-Sized k v (field j w fs) h g =
      by_ordering-Sized (compare_text k j) _ _ _ (h, g) (h, g.1)
        (g.0, insert_field-Sized k v fs h g.1)
