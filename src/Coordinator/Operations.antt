-- ===== src/Coordinator/Operations.antt =====
-- All that is done with a coordinator (services/live-room/src/coordinator/coordinator.mjs).
use tradermarket.Base.{ℕ, Bool, Option, List, [], ◌∷◌}
use tradermarket.Domain.Event.{Event}
use tradermarket.Coordinator.{FrameType, Payload, State, Config, Projection}
use tradermarket.Coordinator.Publishing.{
  observe_event_log_tip, observe_chain_head, publish, set_stream_health, set_viewers, heartbeat,
}
use tradermarket.Coordinator.Tick.{tick}
use tradermarket.Coordinator.Requests.{Decided, not_asked, asking, begin_request, end_request}

pub data Operation : Type 0 where
  publishes : FrameType → Payload → Option ℕ → Option ℕ → Operation
  passes : Projection → ℕ → Operation
  sees_stream : ℕ → Operation
  sees_viewers : Option ℕ → Operation
  beats : Projection → ℕ → Operation
  sees_tip : Option Event → Operation
  sees_head : Option ℕ → ℕ → Operation
  begins : Bool → Projection → ℕ → ℕ → Operation
  ends : ℕ → Operation

abbrev pub state_after : Decided → State → State
state_after (not_asked why) s = s
state_after (asking t) s = t

-- The state after an operation; one that throws leaves what it wrote.
abbrev pub operate : Config → Operation → State → State
operate config (publishes t payload chain source_seq) s =
    (publish config t payload chain source_seq s).0
operate config (passes store now_ms) s = (tick store config now_ms s).0
operate config (sees_stream health) s = (set_stream_health config health s).0
operate config (sees_viewers count) s = (set_viewers config count s).0
operate config (beats store now_ms) s = (heartbeat store config now_ms s).0
operate config (sees_tip tip) s = observe_event_log_tip tip s
operate config (sees_head head at_ms) s = observe_chain_head head at_ms s
operate config (begins has store now_ms key) s =
    state_after (begin_request has store config now_ms key s) s
operate config (ends key) s = end_request key s

abbrev pub operate_all : Config → List Operation → State → State
operate_all config [] s = s
operate_all config (o ∷ os) s = operate_all config os (operate config o s)
