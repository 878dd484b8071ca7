-- ===== src/Tests/Ros2.antt =====
-- The ROS 2 bridge with one topic to publish.
use robocpp.Base.{◌≡◌, List, [], ◌∷◌, ◌++◌}
use robocpp.Base.Int.{pos}
use robocpp.Base.Text.{codes}
use robocpp.Ir.Value.{Value}
use robocpp.Target.Symbol.{IoSymbol, output, TargetHal}
use robocpp.Target.Ros2.Bridge.{Ros2Bridge, Ros2Point, publish, ros2_bridge}
use robocpp.Target.Ros2.Transport.{Ros2TransportHal, ros2_transport_hal, bridge_transport}
use robocpp.Target.Ros2.Agree.{
  through_bridge, bridge_writes, messages, ros2_transport_agrees, published_in_order,
}
use robocpp.Tests.{whole}

abbrev speed_topic : Ros2Point
speed_topic = record { direction = publish; name = codes "/speed" }

abbrev bridge : Ros2Bridge whole
bridge = record { bindings = (codes "SPEED", speed_topic) ∷ []; values = []; published = [] }

abbrev speed_symbol : IoSymbol
speed_symbol = record {
  name = codes "speed";
  location = codes "%QW1";
  direction = output;
  type_name = codes "INT";
}

abbrev two_writes : List (IoSymbol × Value whole)
two_writes = (speed_symbol, Value.int (pos 3)) ∷ (speed_symbol, Value.int (pos 4)) ∷ []

published_in_order_example :
    ((bridge_writes two_writes bridge).bindings ≡ bridge.bindings)
    × ((bridge_writes two_writes bridge).published ≡ [] ++ messages bridge.bindings two_writes)
published_in_order_example = published_in_order two_writes bridge

ros2_transport_agrees_example :
    let hal : TargetHal whole (Ros2TransportHal (Ros2Bridge whole)) =
      ros2_transport_hal (bridge_transport whole) in
    let direct : TargetHal whole (Ros2Bridge whole) = ros2_bridge in
    (hal.read_symbol (through_bridge bridge) speed_symbol ≡ direct.read_symbol bridge speed_symbol)
    × ((hal.write_symbol (through_bridge bridge) speed_symbol (Value.int (pos 3))).0
        ≡ (direct.write_symbol bridge speed_symbol (Value.int (pos 3))).0)
    × ((hal.write_symbol (through_bridge bridge) speed_symbol (Value.int (pos 3))).1
        ≡ through_bridge (direct.write_symbol bridge speed_symbol (Value.int (pos 3))).1)
ros2_transport_agrees_example = ros2_transport_agrees bridge speed_symbol (Value.int (pos 3))
