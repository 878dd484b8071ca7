-- ===== src/Target/Ros2/Transport.antt =====
-- The trait `Ros2Transport`, its implementation by the bridge, and `Ros2TransportHal`,
-- crates/rbcpp_target/src/lib.rs.
use robocpp.Base.{Bool, true, false, Option, none, some, [], ◌∷◌, ◌++◌, or_else}
use robocpp.Base.Text.{Text}
use robocpp.Base.Map.{Map, lookup, insert}
use robocpp.Base.Result.{Result, ok}
use robocpp.Ir.Value.{Floats, Value}
use robocpp.Target.Symbol.{IoSymbol, IoError, location_key, name_key, TargetHal}
use robocpp.Target.Ros2.Bridge.{
  Ros2Direction, subscribe, publish, parameter, Ros2Point, Ros2Bridge, topic_key,
}

pub record Ros2Transport (F : Floats) (T : Type 0) : Type 0 where
  pub read_subscription : T → Text → Result IoError (Option (Value F))
  pub read_parameter : T → Text → Result IoError (Option (Value F))
  pub publish_message : T → Text → Value F → Result IoError Bool × T
  pub set_parameter : T → Text → Value F → Result IoError Bool × T

-- `Ros2Transport for Ros2Bridge`
abbrev pub bridge_transport : (F : Floats) → Ros2Transport F (Ros2Bridge F)
bridge_transport F = record {
  read_subscription = λ bridge topic. ok (lookup (topic_key topic) bridge.values);
  read_parameter = λ bridge name. ok (lookup (topic_key name) bridge.values);
  publish_message = λ bridge topic v. (
    ok true,
    record bridge { published = bridge.published ++ record { topic = topic; value = v } ∷ [] },
  );
  set_parameter = λ bridge name v.
      (ok true, record bridge { values = insert (topic_key name) v bridge.values });
}

pub record Ros2TransportHal (T : Type 0) : Type 0 where
  pub bindings : Map Ros2Point
  pub transport : T

module _ {F : Floats} {T : Type 0} (ops : Ros2Transport F T) where
  abbrev pub direction_read_through : Ros2Direction → Text → T → Result IoError (Option (Value F))
  direction_read_through subscribe name t = ops.read_subscription t name
  direction_read_through parameter name t = ops.read_parameter t name
  direction_read_through publish name t = ok none

  abbrev pub direction_write_through : Ros2Direction → Text → Value F → T → Result IoError Bool × T
  direction_write_through publish name v t = ops.publish_message t name v
  direction_write_through parameter name v t = ops.set_parameter t name v
  direction_write_through subscribe name v t = (ok false, t)

  abbrev pub topic_read_through : Option Ros2Point → T → Result IoError (Option (Value F))
  topic_read_through none t = ok none
  topic_read_through (some p) t = direction_read_through p.direction p.name t

  abbrev pub topic_write_through : Option Ros2Point → Value F → T → Result IoError Bool × T
  topic_write_through none v t = (ok false, t)
  topic_write_through (some p) v t = direction_write_through p.direction p.name v t

  abbrev bound_point : Ros2TransportHal T → IoSymbol → Option Ros2Point
  bound_point hal symbol =
      or_else (lookup (location_key symbol) hal.bindings) (lookup (name_key symbol) hal.bindings)

  unfoldable pub ros2_read_through :
      Ros2TransportHal T → IoSymbol → Result IoError (Option (Value F))
  ros2_read_through hal symbol = topic_read_through (bound_point hal symbol) hal.transport

  unfoldable pub ros2_write_through :
      Ros2TransportHal T → IoSymbol → Value F → Result IoError Bool × Ros2TransportHal T
  ros2_write_through hal symbol v =
      let (done, t) = topic_write_through (bound_point hal symbol) v hal.transport in
      (done, record hal { transport = t })

  -- `TargetHal for Ros2TransportHal<T>`
  abbrev pub ros2_transport_hal : TargetHal F (Ros2TransportHal T)
  ros2_transport_hal = record { read_symbol = ros2_read_through; write_symbol = ros2_write_through }
