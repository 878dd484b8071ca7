-- ===== src/Target/Access.antt =====
-- `VAR_ACCESS` paths over the target state and I/O, crates/rbcpp_target/src/lib.rs.
pub mod Effect
use robocpp.Base.{Bool, true, false, Option, none, some, List, [], ◌∷◌, if◌then◌else◌}
use robocpp.Base.Text.{Text, is_empty}
use robocpp.Base.Map.{Map, lookup, insert}
use robocpp.Base.Result.{Result, ok, err, ◌>>=◌, map_err, ok_or}
use robocpp.Ir.Names.{AccessDirection, read_only, read_write}
use robocpp.Ir.Value.{Floats, Value}
use robocpp.Target.Symbol.{canonical_key, IoSymbol, IoError, TargetHal}
use robocpp.Target.Safety.{SafetyTrip}

pub data TargetError : Type 0 where
  unknown_access_path : Text → TargetError
  read_only_access_path : Text → TargetError
  missing_io_hal : Text → TargetError
  safety : Text → SafetyTrip → TargetError
  io : Text → Text → TargetError

pub data AccessTarget : Type 0 where
  state : Text → AccessTarget
  io : IoSymbol → AccessTarget

pub record AccessPathBinding : Type 0 where
  pub name : Text
  pub target : Text
  pub direction : AccessDirection
  pub type_name : Text
  pub target_binding : AccessTarget

unfoldable pub state_binding : Text → Text → AccessDirection → Text → AccessPathBinding
state_binding name target direction type_name = record {
  name = name;
  target = target;
  direction = direction;
  type_name = type_name;
  target_binding = state target;
}

unfoldable pub io_binding : Text → IoSymbol → AccessDirection → AccessPathBinding
io_binding name symbol direction = record {
  name = name;
  target = if is_empty symbol.location then symbol.name else symbol.location;
  direction = direction;
  type_name = symbol.type_name;
  target_binding = io symbol;
}

pub record TargetState (F : Floats) : Type 0 where
  pub values : Map (Value F)
  pub retained : List Text

pub record AccessRuntime (F : Floats) : Type 0 where
  pub bindings : Map AccessPathBinding
  pub state : TargetState F

abbrev pub check_direction : AccessDirection → Text → Result TargetError Unit
check_direction read_write name = ok tt
check_direction read_only name = err (read_only_access_path name)

unfoldable pub ensure_writable : AccessPathBinding → Result TargetError Unit
ensure_writable b = check_direction b.direction b.name

module _ {F : Floats} where
  -- `TargetState::set` and `write`
  unfoldable pub set_state : Text → Value F → TargetState F → TargetState F
  set_state target v s = record s { values = insert (canonical_key target) v s.values }

  unfoldable pub read_state : Text → TargetState F → Option (Value F)
  read_state target s = lookup (canonical_key target) s.values

  unfoldable pub register : AccessPathBinding → AccessRuntime F → AccessRuntime F
  register b r = record r { bindings = insert (canonical_key b.name) b r.bindings }

  unfoldable pub binding : Text → AccessRuntime F → Result TargetError AccessPathBinding
  binding name r = ok_or (unknown_access_path name) (lookup (canonical_key name) r.bindings)

  -- The binding that a write goes to.
  unfoldable pub permitted : Text → AccessRuntime F → Result TargetError AccessPathBinding
  permitted name r = binding name r >>= λ b. ensure_writable b >>= λ _. ok b

  -- Without a HAL
  unfoldable pub read_access : Text → AccessRuntime F → Result TargetError (Option (Value F))
  read_access name r = binding name r >>= λ b. elim b.target_binding [
    | state target ↦ ok (read_state target r.state)
    | io symbol ↦ err (missing_io_hal b.name)
  ]

  abbrev pub write_bound :
      Text → AccessTarget → Value F → AccessRuntime F → Result TargetError Bool × AccessRuntime F
  write_bound name (state target) v r = (ok true, record r { state = set_state target v r.state })
  write_bound name (io symbol) v r = (err (missing_io_hal name), r)

  abbrev pub write_permitted :
      Result TargetError AccessPathBinding
      → Value F
      → AccessRuntime F
      → Result TargetError Bool × AccessRuntime F
  write_permitted (err e) v r = (err e, r)
  write_permitted (ok b) v r = write_bound b.name b.target_binding v r

  unfoldable pub write_access :
      Text → Value F → AccessRuntime F → Result TargetError Bool × AccessRuntime F
  write_access name v r = write_permitted (permitted name r) v r

  module _ {H : Type 0} (ops : TargetHal F H) where
    abbrev pub read_bound :
        Text → AccessTarget → AccessRuntime F → H → Result TargetError (Option (Value F))
    read_bound name (state target) r hal = ok (read_state target r.state)
    read_bound name (io symbol) r hal =
        map_err (λ e. TargetError.io name e.message) (ops.read_symbol hal symbol)

    unfoldable pub read_access_with_hal :
        Text → AccessRuntime F → H → Result TargetError (Option (Value F))
    read_access_with_hal name r hal =
        binding name r >>= λ b. read_bound b.name b.target_binding r hal

    abbrev pub write_bound_with_hal :
        Text
        → AccessTarget
        → Value F
        → AccessRuntime F
        → H
        → Result TargetError Bool × (AccessRuntime F × H)
    write_bound_with_hal name (state target) v r hal =
        (ok true, (record r { state = set_state target v r.state }, hal))
    write_bound_with_hal name (io symbol) v r hal =
        let (done, hal') = ops.write_symbol hal symbol v in
        (map_err (λ e. TargetError.io name e.message) done, (r, hal'))

    abbrev pub write_permitted_with_hal :
        Result TargetError AccessPathBinding
        → Value F
        → AccessRuntime F
        → H
        → Result TargetError Bool × (AccessRuntime F × H)
    write_permitted_with_hal (err e) v r hal = (err e, (r, hal))
    write_permitted_with_hal (ok b) v r hal = write_bound_with_hal b.name b.target_binding v r hal

    unfoldable pub write_access_with_hal :
        Text → Value F → AccessRuntime F → H → Result TargetError Bool × (AccessRuntime F × H)
    write_access_with_hal name v r hal = write_permitted_with_hal (permitted name r) v r hal
