-- ===== src/Runtime/State.antt =====
-- The interpreter's state and the fields of function block instances, crates/iec_runtime/src.
-- Of `Runtime` the parts that never change while a program runs are left out.
use robocpp.Base.{
  ℕ, ◌≡◌, refl, Bool, false, Option, none, some, List, ◌∷◌, ◌++◌, if◌then◌else◌, unwrap_or,
  and_then, arith,
}
use robocpp.Base.Int.{ℤ, pos}
use robocpp.Base.Text.{Text, eqb, eqb-append}
use robocpp.Base.Map.{Map, lookup, insert, lookup-insert}
use robocpp.Diagnostics.{Diagnostic}
use robocpp.Ir.Names.{canonical_identifier}
use robocpp.Ir.Value.{Floats, Value, time_ms, as_bool, as_i64}

pub record RuntimeOptions : Type 0 where
  pub max_loop_iterations : ℕ
  pub max_scan_cycles : ℕ
  pub cycle_time_ms : ℤ
  pub warm_restart_before_cycles : List ℕ

pub record Runtime (F : Floats) : Type 0 where
  pub env : Map (Value F)
  pub il_accumulator : Value F
  pub diagnostics : List Diagnostic
  pub options : RuntimeOptions
  pub call_depth : ℕ

-- format!("{}.{}", canonical_identifier(instance), canonical_identifier(field))
unfoldable pub field_key : Text → Text → Text
field_key instance' field = canonical_identifier instance' ++ (b'.' ∷ canonical_identifier field)

module _ {F : Floats} where
  unfoldable pub get_field_bool : Runtime F → Text → Text → Bool
  get_field_bool r i f = unwrap_or false (and_then (lookup (field_key i f) r.env) as_bool)

  unfoldable pub get_field_i64 : Runtime F → Text → Text → ℤ
  get_field_i64 r i f = unwrap_or (pos 0) (and_then (lookup (field_key i f) r.env) as_i64)

  -- What `get_field_time_ms` and `input_time_ms` read out of a value that is there or not.
  abbrev pub time_of : Option (Value F) → ℤ
  time_of none = pos 0
  time_of (some (time_ms t)) = t
  time_of (some v) = unwrap_or (pos 0) (as_i64 v)

  unfoldable pub get_field_time_ms : Runtime F → Text → Text → ℤ
  get_field_time_ms r i f = time_of (lookup (field_key i f) r.env)

  unfoldable pub set_field : Runtime F → Text → Text → Value F → Runtime F
  set_field r i f v = record r { env = insert (field_key i f) v r.env }

  unfoldable pub input_bool : Map (Value F) → Text → Bool
  input_bool inputs name =
      unwrap_or false (and_then (lookup (canonical_identifier name) inputs) as_bool)

  unfoldable pub input_i64 : Map (Value F) → Text → ℤ
  input_i64 inputs name =
      unwrap_or (pos 0) (and_then (lookup (canonical_identifier name) inputs) as_i64)

  unfoldable pub input_time_ms : Map (Value F) → Text → ℤ
  input_time_ms inputs name = time_of (lookup (canonical_identifier name) inputs)

  -- Two fields of one instance have the same key exactly if their names agree.
  lookup-set_field :
      (r : Runtime F) (i f g : Text) (v : Value F)
      → lookup (field_key i g) (set_field r i f v).env ≡ (
          if eqb (canonical_identifier f) (canonical_identifier g)
          then some v
          else lookup (field_key i g) r.env)
  unfolding set_field field_key eqb
  lookup-set_field r i f g v = rw (lookup-insert, eqb-append) refl

  pub get_field_bool-set_field :
      (r : Runtime F) (i f g : Text) (v : Value F)
      → get_field_bool (set_field r i f v) i g ≡ (
          if eqb (canonical_identifier f) (canonical_identifier g)
          then unwrap_or false (as_bool v)
          else get_field_bool r i g)
  unfolding get_field_bool
  get_field_bool-set_field r i f g v = rw lookup-set_field (ground arith)

  pub get_field_i64-set_field :
      (r : Runtime F) (i f g : Text) (v : Value F)
      → get_field_i64 (set_field r i f v) i g ≡ (
          if eqb (canonical_identifier f) (canonical_identifier g)
          then unwrap_or (pos 0) (as_i64 v)
          else get_field_i64 r i g)
  unfolding get_field_i64
  get_field_i64-set_field r i f g v = rw lookup-set_field (ground arith)

  pub get_field_time_ms-set_field :
      (r : Runtime F) (i f g : Text) (v : Value F)
      → get_field_time_ms (set_field r i f v) i g ≡ (
          if eqb (canonical_identifier f) (canonical_identifier g)
          then time_of (some v)
          else get_field_time_ms r i g)
  unfolding get_field_time_ms
  get_field_time_ms-set_field r i f g v = rw lookup-set_field (ground arith)

  pub options-set_field :
      (r : Runtime F) (i f : Text) (v : Value F) → (set_field r i f v).options ≡ r.options
  unfolding set_field
  options-set_field r i f v = refl

pub ruleset field_laws = (
  get_field_bool-set_field, get_field_i64-set_field, get_field_time_ms-set_field, options-set_field,
)
