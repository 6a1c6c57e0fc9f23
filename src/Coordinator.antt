-- ===== src/Coordinator.antt =====
-- services/live-room/src/coordinator/coordinator.mjs: the Live Room Coordinator. The rows that it
-- reads from the projection, and its own state. What the projection answers is a parameter, and a
-- field that a row lacks is `none`. Texts that are only passed on are numbers.
pub mod View
pub mod Publishing
pub mod Tick
pub mod Requests
pub mod Retained
pub mod Founded
pub mod Operations
pub mod Runs
use tradermarket.Base.{ℕ, Bool, Option, none, some, List, []}
use tradermarket.Base.Int.{ℤ}
use tradermarket.Domain.Event.{Event}

pub data SlotState : Type 0 where
  open_slot awaiting_liquidity suspended_slot closed_slot provisional challenged final invalid :
      SlotState
  other_slot : ℕ → SlotState

pub data RoomState : Type 0 where
  draft live armed : RoomState
  other_room : ℕ → RoomState

pub record RoomRow : Type 0 where
  pub state : RoomState
  pub max_open_slots : Option ℕ

pub record SlotRow : Type 0 where
  pub slot_index : ℕ
  pub state : SlotState
  pub shape : ℕ
  pub question : ℕ
  pub market_address : Option ℕ
  pub condition_hash : ℕ
  pub winner_reward_bps : Option ℕ
  pub opens_at : ℕ
  pub published_seq : Option ℕ
  pub closed_seq : Option ℕ

pub record MarketRow : Type 0 where
  pub stream_url : Option ℕ
  pub winner_reward_bps : Option ℕ
  pub implied_prob_a : Option ℕ
  pub total_lp_shares : Option ℕ
  pub block_number : ℕ

pub record Pressure : Type 0 where
  pub count : ℕ
  pub buy_a : ℕ
  pub buy_b : ℕ
  pub liquidity : ℕ

-- What a `ProjectionStore` answers about the room
pub record Projection : Type 0 where
  pub room : Option RoomRow
  pub slots : List SlotRow
  pub market : ℕ → Option MarketRow
  pub pressure : ℕ → Option Pressure
  pub cursor_block : ℕ
  pub is_behind : ℕ → Bool

-- `_slotView`. A price and a liquidity stand with the block of the market's row.
pub record SlotView : Type 0 where
  pub slot_index : ℕ
  pub state : SlotState
  pub shape : ℕ
  pub question : ℕ
  pub market : Option ℕ
  pub stream_url : Option ℕ
  pub condition_hash : ℕ
  pub winner_reward_bps : Option ℕ
  pub opens_at : ℕ
  pub published_seq : Option ℕ
  pub closed_seq : Option ℕ
  pub price : Option (ℕ × ℕ)
  pub liquidity : Option (ℕ × ℕ)
  pub pending_pressure : Option Pressure

pub data SourceHealth : Type 0 where
  unknown_source fresh_source stale_source : SourceHealth

pub data IndexerHealth : Type 0 where
  unknown_indexer delayed current : IndexerHealth

pub record Health : Type 0 where
  pub stream : ℕ
  pub source : SourceHealth
  pub indexer : IndexerHealth

pub record Snapshot : Type 0 where
  pub seq : ℕ
  pub state : RoomState
  pub block : ℕ
  pub slots : List SlotView
  pub focus : Option ℕ
  pub open_count : ℕ
  pub max_open : Option ℕ
  pub last_seq : ℕ
  pub observed_at : Option ℕ
  pub age_ms : Option ℤ
  pub is_fresh : Bool
  pub stream_health : ℕ
  pub viewers : Option ℕ
  pub health : Health

pub data FrameType : Type 0 where
  hello heartbeat_frame resync_frame error_frame stream_health_changed viewers_updated : FrameType
  chat_message chat_deleted chat_pinned : FrameType
  room_state_changed source_freshness_changed slot_published slot_opened slot_gate_changed :
      FrameType
  slot_closed slot_provisional slot_challenged slot_final slot_invalid : FrameType
  slot_price_changed slot_liquidity_changed room_focus_changed : FrameType
  other_frame : ℕ → FrameType

pub data Payload : Type 0 where
  room_payload : RoomState → Payload
  freshness_payload : Bool → Option ℤ → Payload
  slot_payload : SlotView → Payload
  slot_state_payload : ℕ → SlotState → Payload
  price_payload : ℕ → Option (ℕ × ℕ) → Payload
  liquidity_payload : ℕ → Option (ℕ × ℕ) → Payload
  focus_payload : Option ℕ → Payload
  health_payload : ℕ → Payload
  viewers_payload : Option ℕ → Payload
  heartbeat_payload : ℕ → ℕ → Option ℤ → Health → Payload
  other_payload : ℕ → Payload

-- A frame, without its time stamp
pub record Frame : Type 0 where
  pub seq : ℕ
  pub type : FrameType
  pub source_seq : Option ℕ
  pub chain : Option ℕ
  pub is_presentation_only : Bool
  pub payload : Payload

pub record Config : Type 0 where
  -- Whether the sink `publishTo` takes a frame, or throws
  pub takes : Frame → Bool
  pub freshness_threshold_ms : ℕ
  pub retention : Option ℕ
  pub max_open_slots : Option ℕ
  pub chain_head_max_age_ms : Option ℕ

-- The fields of a `LiveRoomCoordinator` that change
pub record State : Type 0 where
  pub room_seq : ℕ
  pub frames : List Frame
  pub last_snapshot : Option Snapshot
  pub stream_health : ℕ
  pub viewers : Option ℕ
  pub focus : Option ℕ
  pub pending_requests : List ℕ
  pub chain_head : Option ℕ
  pub chain_head_at : Option ℕ
  pub event_log_tip : Option Event
