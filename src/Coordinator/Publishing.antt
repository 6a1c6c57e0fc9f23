-- ===== src/Coordinator/Publishing.antt =====
-- Frames, and the window of them that is kept
-- (services/live-room/src/coordinator/coordinator.mjs, `constructor`, `observeEventLogTip`,
-- `observeChainHead`, `publish`, `framesSince`, and the presentation channels).
use tradermarket.Base.{
  ℕ, suc, ◌-◌, Bool, true, false, not, ◌&&◌, Option, none, some, List, [], ◌∷◌, ◌++◌, keep, length,
  drop, ltb, ◌==◌, if◌then◌else◌, or_else, is_some,
}
use tradermarket.Domain.Event.{Event}
use tradermarket.Coordinator.{
  FrameType, hello, heartbeat_frame, resync_frame, error_frame, stream_health_changed,
  viewers_updated, chat_message, chat_deleted, chat_pinned, Payload, health_payload,
  viewers_payload, heartbeat_payload, Frame, State, Config, Projection, Snapshot,
}
use tradermarket.Coordinator.View.{snapshot}

-- `constructor`; `unknown` is the text "unknown"
abbrev pub new_state : ℕ → State
new_state unknown = record {
  room_seq = 0;
  frames = [];
  last_snapshot = none;
  stream_health = unknown;
  viewers = none;
  focus = none;
  pending_requests = [];
  chain_head = none;
  chain_head_at = none;
  event_log_tip = none;
}

-- `observeEventLogTip`
abbrev pub observe_event_log_tip : Option Event → State → State
observe_event_log_tip tip s = record s { event_log_tip = tip }

-- `observeChainHead`; `none` is a block that is not a finite number
abbrev pub observe_chain_head : Option ℕ → ℕ → State → State
observe_chain_head none at_ms s = s
observe_chain_head (some head) at_ms s = record s {
  chain_head = some head;
  chain_head_at = some at_ms;
}

-- `PRESENTATION_ONLY_TYPES.has(type)`
abbrev pub is_presentation : FrameType → Bool
is_presentation hello = true
is_presentation heartbeat_frame = true
is_presentation resync_frame = true
is_presentation error_frame = true
is_presentation stream_health_changed = true
is_presentation viewers_updated = true
is_presentation chat_message = true
is_presentation chat_deleted = true
is_presentation chat_pinned = true
is_presentation t = false

abbrev pub retention_of : Config → ℕ
retention_of config = or_else config.retention 600

-- `if (frames.length > retention) frames.splice(0, frames.length - retention)`
abbrev pub retained : ℕ → List Frame → List Frame
retained n frames = if ltb n (length frames) then drop (length frames - n) frames else frames

abbrev pub is_unproven : FrameType → Option ℕ → Option ℕ → Bool
is_unproven t chain source_seq =
    not (is_presentation t) && (not (is_some chain) && not (is_some source_seq))

abbrev pub frame_of : ℕ → FrameType → Payload → Option ℕ → Option ℕ → Frame
frame_of seq t payload chain source_seq = record {
  seq = seq;
  type = t;
  source_seq = source_seq;
  chain = chain;
  is_presentation_only = is_presentation t && (not (is_some chain) && not (is_some source_seq));
  payload = payload;
}

abbrev pub with_frame : Config → Frame → State → State
with_frame config frame s = record s {
  room_seq = frame.seq;
  frames = retained (retention_of config) (s.frames ++ frame ∷ []);
}

-- `publish`: the state, and whether it returns. A frame without provenance is refused; where the sink
-- throws, the frame stays published.
unfoldable pub publish : Config → FrameType → Payload → Option ℕ → Option ℕ → State → State × Bool
publish config t payload chain source_seq s =
    let frame = frame_of (suc s.room_seq) t payload chain source_seq in
    if is_unproven t chain source_seq
    then (s, false)
    else (with_frame config frame s, config.takes frame)

pub data Since : Type 0 where
  resync : Snapshot → Since
  frames_after : List Frame → Since

abbrev pub floor_of : State → ℕ
floor_of s = elim (s.frames) [ [] ↦ s.room_seq | f ∷ fs ↦ f.seq - 1 ]

-- `framesSince`; `none` is a cursor that is not a finite number
unfoldable pub frames_since : Projection → Config → ℕ → Option ℕ → State → Since
frames_since store config now_ms none s = resync (snapshot store config now_ms s)
frames_since store config now_ms (some since_seq) s =
    if ltb since_seq (floor_of s)
    then resync (snapshot store config now_ms s)
    else frames_after (keep (λ (f : Frame). ltb since_seq f.seq) s.frames)

-- `setStreamHealth`
unfoldable pub set_stream_health : Config → ℕ → State → State × Bool
set_stream_health config health s =
    if health == s.stream_health
    then (s, true)
    else publish config stream_health_changed (health_payload health) none none
        (record s { stream_health = health })

-- `setViewers`
unfoldable pub set_viewers : Config → Option ℕ → State → State × Bool
set_viewers config count s =
    publish config viewers_updated (viewers_payload count) none none (record s { viewers = count })

-- `heartbeat`
unfoldable pub heartbeat : Projection → Config → ℕ → State → State × Bool
heartbeat store config now_ms s =
    let view = snapshot store config now_ms s in
    publish config heartbeat_frame
      (heartbeat_payload s.room_seq view.last_seq view.age_ms view.health) none none s
