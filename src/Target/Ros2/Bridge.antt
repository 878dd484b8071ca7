-- ===== src/Target/Ros2/Bridge.antt =====
-- `Ros2Bridge`: subscriptions, parameters and published messages, crates/rbcpp_target/src/lib.rs.
use robocpp.Base.{
  Bool, true, false, not, Option, none, some, List, [], ◌∷◌, ◌++◌, if◌then◌else◌, or_else,
}
use robocpp.Base.Text.{Text, codes, trim, to_ascii_lowercase}
use robocpp.Base.Map.{Map, lookup, insert}
use robocpp.Base.Result.{ok}
use robocpp.Ir.Value.{Floats, Value}
use robocpp.Target.Symbol.{canonical_key, IoSymbol, location_key, name_key, TargetHal}

pub data Ros2Direction : Type 0 where
  subscribe publish parameter : Ros2Direction

-- The spellings of each direction, in the order of the source's `match`.
abbrev direction_names : Map Ros2Direction
direction_names =
    (codes "sub", subscribe)
    ∷ (codes "subscribe", subscribe)
    ∷ (codes "subscription", subscribe)
    ∷ (codes "input", subscribe)
    ∷ (codes "pub", publish)
    ∷ (codes "publish", publish)
    ∷ (codes "publisher", publish)
    ∷ (codes "output", publish)
    ∷ (codes "param", parameter)
    ∷ (codes "parameter", parameter)
    ∷ (codes "cfg", parameter)
    ∷ (codes "config", parameter)
    ∷ []

-- `Ros2Direction::parse`
unfoldable pub parse_direction : Text → Option Ros2Direction
parse_direction t = lookup (to_ascii_lowercase t) direction_names

abbrev pub direction_readable : Ros2Direction → Bool
direction_readable subscribe = true
direction_readable publish = false
direction_readable parameter = true

abbrev pub direction_writable : Ros2Direction → Bool
direction_writable subscribe = false
direction_writable publish = true
direction_writable parameter = true

pub record Ros2Point : Type 0 where
  pub direction : Ros2Direction
  pub name : Text

unfoldable pub topic_key : Text → Text
unfolding trim
topic_key t = trim t

pub record Ros2Message (F : Floats) : Type 0 where
  pub topic : Text
  pub value : Value F

pub record Ros2Bridge (F : Floats) : Type 0 where
  pub bindings : Map Ros2Point
  pub values : Map (Value F)
  pub published : List (Ros2Message F)

-- `point_for`
abbrev pub point_in : Map Ros2Point → IoSymbol → Option Ros2Point
point_in bindings symbol =
    or_else (lookup (location_key symbol) bindings) (lookup (name_key symbol) bindings)

module _ {F : Floats} where
  -- `bind_location` and `bind_name`
  unfoldable pub bind_topic : Text → Ros2Point → Ros2Bridge F → Ros2Bridge F
  bind_topic key p bridge = record bridge {
    bindings = insert (canonical_key key) p bridge.bindings;
  }

  -- `receive` and `set_parameter`
  unfoldable pub receive : Text → Value F → Ros2Bridge F → Ros2Bridge F
  receive topic v bridge = record bridge { values = insert (topic_key topic) v bridge.values }

  unfoldable pub take_published : Ros2Bridge F → List (Ros2Message F) × Ros2Bridge F
  take_published bridge = (bridge.published, record bridge { published = [] })

  -- `Ros2Bridge::read` and `write` of the point of a symbol
  abbrev pub topic_read : Option Ros2Point → Ros2Bridge F → Option (Value F)
  topic_read none bridge = none
  topic_read (some p) bridge =
      if not (direction_readable p.direction) then none else lookup (topic_key p.name) bridge.values

  abbrev pub direction_write : Ros2Direction → Text → Value F → Ros2Bridge F → Ros2Bridge F
  direction_write parameter name v bridge = record bridge {
    values = insert (topic_key name) v bridge.values;
  }
  direction_write _ name v bridge = record bridge {
    published = bridge.published ++ record { topic = name; value = v } ∷ [];
  }

  abbrev pub topic_write : Option Ros2Point → Value F → Ros2Bridge F → Bool × Ros2Bridge F
  topic_write none v bridge = (false, bridge)
  topic_write (some p) v bridge =
      if not (direction_writable p.direction)
      then (false, bridge)
      else (true, direction_write p.direction p.name v bridge)

  abbrev pub topic_point_for : Ros2Bridge F → IoSymbol → Option Ros2Point
  topic_point_for bridge symbol = point_in bridge.bindings symbol

  unfoldable pub bridge_read : Ros2Bridge F → IoSymbol → Option (Value F)
  bridge_read bridge symbol = topic_read (topic_point_for bridge symbol) bridge

  unfoldable pub bridge_write : Ros2Bridge F → IoSymbol → Value F → Bool × Ros2Bridge F
  bridge_write bridge symbol v = topic_write (topic_point_for bridge symbol) v bridge

  -- `TargetHal for Ros2Bridge`
  abbrev pub ros2_bridge : TargetHal F (Ros2Bridge F)
  ros2_bridge = record {
    read_symbol = λ bridge symbol. ok (bridge_read bridge symbol);
    write_symbol =
        λ bridge symbol v. let (done, bridge') = bridge_write bridge symbol v in (ok done, bridge');
  }
