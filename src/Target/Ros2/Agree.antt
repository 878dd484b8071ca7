-- ===== src/Target/Ros2/Agree.antt =====
-- The ROS 2 HAL over a transport and the bridge are the same HAL when the transport is the bridge,
-- and what a sequence of writes publishes, crates/rbcpp_target/src/lib.rs.
use mathlib.Core.List.{append-nil, append_assoc}
use robocpp.Base.{
  not, Bool-cases, inl, inr, ap, ◌∙◌, ◌≡◌, refl, Option, none, some, List, [], ◌∷◌, ◌++◌, sym,
}
use robocpp.Base.Text.{Text}
use robocpp.Base.Map.{Map}
use robocpp.Base.Result.{ok}
use robocpp.Ir.Value.{Floats, Value}
use robocpp.Target.Symbol.{IoSymbol, TargetHal}
use robocpp.Target.Ros2.Bridge.{
  Ros2Direction, subscribe, publish, parameter, Ros2Point, Ros2Message, Ros2Bridge, ros2_bridge,
  bridge_read, bridge_write, topic_read, topic_write, topic_point_for, point_in, direction_write,
  direction_writable,
}
use robocpp.Target.Ros2.Transport.{
  bridge_transport, Ros2TransportHal, ros2_transport_hal, ros2_read_through, ros2_write_through,
  topic_read_through, topic_write_through, direction_read_through, direction_write_through,
}

module _ {F : Floats} where
  point_reads :
      (d : Ros2Direction) (p : Ros2Point) (bridge : Ros2Bridge F)
      → p.direction ≡ d
      → direction_read_through (bridge_transport F) p.direction p.name bridge
        ≡ ok (topic_read (some p) bridge)
  point_reads subscribe p bridge e = rw e refl
  point_reads publish p bridge e = rw e refl
  point_reads parameter p bridge e = rw e refl

  point_writes :
      (d : Ros2Direction) (p : Ros2Point) (v : Value F) (bridge : Ros2Bridge F)
      → p.direction ≡ d
      → direction_write_through (bridge_transport F) p.direction p.name v bridge
        ≡ (let (done, bridge') = topic_write (some p) v bridge in (ok done, bridge'))
  point_writes subscribe p v bridge e = rw e refl
  point_writes publish p v bridge e = rw e refl
  point_writes parameter p v bridge e = rw e refl

  reads_alike :
      (found : Option Ros2Point) (bridge : Ros2Bridge F)
      → topic_read_through (bridge_transport F) found bridge ≡ ok (topic_read found bridge)
  reads_alike none bridge = refl
  reads_alike (some p) bridge = point_reads p.direction p bridge refl

  writes_alike :
      (found : Option Ros2Point) (v : Value F) (bridge : Ros2Bridge F)
      → topic_write_through (bridge_transport F) found v bridge
        ≡ (let (done, bridge') = topic_write found v bridge in (ok done, bridge'))
  writes_alike none v bridge = refl
  writes_alike (some p) v bridge = point_writes p.direction p v bridge refl

  -- The HAL that has the bindings of the bridge and goes through it as its transport.
  abbrev pub through_bridge : Ros2Bridge F → Ros2TransportHal (Ros2Bridge F)
  through_bridge bridge = record { bindings = bridge.bindings; transport = bridge }

  bindings-direction_write :
      (d : Ros2Direction) (name : Text) (v : Value F) (bridge : Ros2Bridge F)
      → (direction_write d name v bridge).bindings ≡ bridge.bindings
  bindings-direction_write subscribe name v bridge = refl
  bindings-direction_write publish name v bridge = refl
  bindings-direction_write parameter name v bridge = refl

  bindings-topic_write :
      (found : Option Ros2Point) (v : Value F) (bridge : Ros2Bridge F)
      → (topic_write found v bridge).1.bindings ≡ bridge.bindings
  bindings-topic_write none v bridge = refl
  bindings-topic_write (some p) v bridge =
      elim (Bool-cases (not (direction_writable p.direction))) [
        | inl e ↦ rw e refl
        | inr e ↦ rw e (bindings-direction_write p.direction p.name v bridge)
      ]

  -- The HAL over a transport that is the bridge reads and writes what the bridge does: the same
  -- value of every symbol, the same answer to every write and the same bridge after it.
  pub ros2_transport_agrees :
      (bridge : Ros2Bridge F) (symbol : IoSymbol) (v : Value F)
      → let hal : TargetHal F (Ros2TransportHal (Ros2Bridge F)) =
          ros2_transport_hal (bridge_transport F) in
        let direct : TargetHal F (Ros2Bridge F) = ros2_bridge in
        (hal.read_symbol (through_bridge bridge) symbol ≡ direct.read_symbol bridge symbol)
        × ((hal.write_symbol (through_bridge bridge) symbol v).0
            ≡ (direct.write_symbol bridge symbol v).0)
        × ((hal.write_symbol (through_bridge bridge) symbol v).1
            ≡ through_bridge (direct.write_symbol bridge symbol v).1)
  unfolding ros2_read_through ros2_write_through bridge_read bridge_write
  ros2_transport_agrees bridge symbol v =
      let found = topic_point_for bridge symbol in
      let w = writes_alike found v bridge in
      (
        reads_alike found bridge,
        ap (λ w. w.0) w,
        ap (λ w. record { bindings = bridge.bindings; transport = w.1 }) w
            ∙ ap (λ b. record { bindings = b; transport = (topic_write found v bridge).1 })
                (sym (bindings-topic_write found v bridge)),
      )

  -- Writes to symbols one after another.
  unfoldable pub bridge_writes : List (IoSymbol × Value F) → Ros2Bridge F → Ros2Bridge F
  bridge_writes [] bridge = bridge
  bridge_writes ((symbol, v) ∷ ws) bridge = bridge_writes ws (bridge_write bridge symbol v).1

  -- The messages of a sequence of writes: one for each whose symbol is bound for publishing.
  abbrev pub message_of : Ros2Direction → Text → Value F → List (Ros2Message F)
  message_of publish name v = record { topic = name; value = v } ∷ []
  message_of _ name v = []

  abbrev pub messages_of : Option Ros2Point → Value F → List (Ros2Message F)
  messages_of none v = []
  messages_of (some p) v = message_of p.direction p.name v

  abbrev pub messages : Map Ros2Point → List (IoSymbol × Value F) → List (Ros2Message F)
  messages bindings [] = []
  messages bindings ((symbol, v) ∷ ws) =
      messages_of (point_in bindings symbol) v ++ messages bindings ws

  direction_publishes :
      (d : Ros2Direction) (p : Ros2Point) (v : Value F) (bridge : Ros2Bridge F)
      → p.direction ≡ d
      → (topic_write (some p) v bridge).1.published
        ≡ bridge.published ++ message_of p.direction p.name v
  direction_publishes subscribe p v bridge e = rw e (sym (append-nil bridge.published))
  direction_publishes publish p v bridge e = rw e refl
  direction_publishes parameter p v bridge e = rw e (sym (append-nil bridge.published))

  publishes :
      (found : Option Ros2Point) (v : Value F) (bridge : Ros2Bridge F)
      → (topic_write found v bridge).1.published ≡ bridge.published ++ messages_of found v
  publishes none v bridge = sym (append-nil bridge.published)
  publishes (some p) v bridge = direction_publishes p.direction p v bridge refl

  -- A sequence of writes leaves the bindings as they are, and publishes, behind what was published
  -- before, one message for each write whose symbol is bound for publishing, in order.
  pub published_in_order :
      (ws : List (IoSymbol × Value F)) (bridge : Ros2Bridge F)
      → ((bridge_writes ws bridge).bindings ≡ bridge.bindings)
        × ((bridge_writes ws bridge).published ≡ bridge.published ++ messages bridge.bindings ws)
  unfolding bridge_writes bridge_write
  published_in_order [] bridge = (refl, sym (append-nil bridge.published))
  published_in_order ((symbol, v) ∷ ws) bridge =
      let found = topic_point_for bridge symbol in
      let next = (topic_write found v bridge).1 in
      let same = bindings-topic_write found v bridge in
      let (ihb, ihp) = published_in_order ws next in
      (
        ihb ∙ same,
        ihp
            ∙ ap (λ b. next.published ++ messages b ws) same
            ∙ ap (λ ms. ms ++ messages bridge.bindings ws) (publishes found v bridge)
            ∙ append_assoc bridge.published (messages_of found v) (messages bridge.bindings ws),
      )
