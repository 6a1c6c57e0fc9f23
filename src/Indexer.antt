-- ===== src/Indexer.antt =====
-- services/live-room/src/indexer: the projection of the chain. The rows of the store
-- (projection.mjs) and the state of a `ChainIndexer` (indexer.mjs). A field that a row lacks or
-- holds as null is `none`; an empty object of program metadata is `none` too.
pub mod Events
pub mod Fresh
pub mod Store
pub mod Rooms
pub mod States
pub mod Markets
pub mod Apply
pub mod Source
pub mod Sync
pub mod Reorg
pub mod Queries
pub mod Books
pub mod Ledger
pub mod Recording
pub mod Recorded
pub mod History
pub mod Once
pub mod Passes
pub mod Complete
pub mod Forks
pub mod Settling
pub mod Agree
pub mod RoomId
pub mod Polls
pub mod Escrow
use tradermarket.Base.{ℕ, Bool, Option, none, some, List, []}
use tradermarket.Base.Int.{ℤ}
use tradermarket.Base.Dict.{Dict}
use tradermarket.Base.PairDict.{PairDict}

pub data RoomState : Type 0 where
  armed live closing settling final_room invalid_room : RoomState

pub data SlotState : Type 0 where
  announced awaiting_liquidity open_slot suspended closed provisional challenged final invalid :
      SlotState

pub record RoomRow : Type 0 where
  pub room_id : ℕ
  pub room_id_bytes32 : Option ℕ
  pub live_room_address : Option ℕ
  pub factory_address : Option ℕ
  pub state : Option RoomState
  pub gate_signer : Option ℕ
  pub publisher : Option ℕ
  pub last_observed_seq : Option ℕ
  pub closed_source_seq : Option ℕ
  pub room_seq : Option ℕ
  pub closed_by_stall : Bool
  pub stalled_since : Option ℕ
  pub block_number : Option ℕ

pub record SlotRow : Type 0 where
  pub room_id : ℕ
  pub slot_index : ℕ
  pub state : Option SlotState
  pub shape : Option ℕ
  pub question : Option ℕ
  pub template_id : Option ℕ
  pub params : Option ℕ
  pub opening_condition : Option ℕ
  pub closing_condition : Option ℕ
  pub condition_hash : Option ℕ
  pub request_hash : Option ℕ
  pub permit_nonce : Option ℕ
  pub winner_reward_bps : Option ℕ
  pub market_address : Option ℕ
  pub published_seq : Option ℕ
  pub opens_at : Option ℕ
  pub closed_seq : Option ℕ
  pub block_number : Option ℕ

pub record MarketRow : Type 0 where
  pub market_address : ℕ
  pub room_id : Option ℕ
  pub slot_index : Option ℕ
  pub template_id : Option ℕ
  pub condition_hash : Option ℕ
  pub question : Option ℕ
  pub stream_url : Option ℕ
  pub participant_a_name : Option ℕ
  pub participant_b_name : Option ℕ
  pub gate_state : Option ℕ
  pub winner_reward_bps : Option ℕ
  pub reserve_a : Option ℕ
  pub reserve_b : Option ℕ
  pub implied_prob_a : Option ℕ
  pub total_lp_shares : Option ℕ
  pub winner_reward_pool : Option ℕ
  pub pending_collateral : Option ℕ
  pub collateral_backing : Option ℕ
  pub unclaimed_lp_fees : Option ℕ
  pub current_epoch : Option ℕ
  pub last_safe_seq : Option ℕ
  pub provisional_outcome : Option ℕ
  pub provisional_evidence_hash : Option ℕ
  pub challenge_ends_at : Option ℕ
  pub challenger : Option ℕ
  pub challenge_evidence_hash : Option ℕ
  pub final_outcome : Option ℕ
  pub finalized_block_number : Option ℕ
  pub block_number : Option ℕ

-- The status of an action is 0 for pending, 1 for executed and 2 for refunded.
pub record ActionRow : Type 0 where
  pub market_address : ℕ
  pub action_id : ℕ
  pub epoch : Option ℕ
  pub kind : Option ℕ
  pub status : Option ℕ
  pub account : Option ℕ
  pub outcome_a : Option Bool
  pub amount : Option ℕ
  pub return_amount : Option ℕ
  pub refunded_amount : Option ℕ
  pub submitted_block : Option ℕ
  pub settled_block : Option ℕ

-- What an account has in a market, or what changes of it
pub record Position : Type 0 where
  pub position_a : ℤ
  pub position_b : ℤ
  pub lp_shares : ℤ

pub record HoldingRow : Type 0 where
  pub market_address : ℕ
  pub account : ℕ
  pub position : Position
  pub block_number : ℕ

pub record SkipRow : Type 0 where
  pub room_id : ℕ
  pub market : ℕ
  pub epoch : ℕ
  pub selector : ℕ
  pub reason : ℕ
  pub block_number : ℕ

pub record TradeRow : Type 0 where
  pub market_address : ℕ
  pub account : ℕ
  pub outcome_a : Bool
  pub is_buy : Bool
  pub amount_in : ℕ
  pub amount_out : ℕ
  pub block_number : ℕ

pub data ClaimKind : Type 0 where
  redeem lp_inventory lp_fees winner_reward winner_fee_refund : ClaimKind

pub record ClaimRow : Type 0 where
  pub market_address : ℕ
  pub account : ℕ
  pub kind : ClaimKind
  pub amount : ℕ
  pub block_number : ℕ

pub record AttestationRow : Type 0 where
  pub market_address : ℕ
  pub resolver : ℕ
  pub outcome : ℕ
  pub evidence_hash : ℕ
  pub count : ℕ
  pub block_number : ℕ

pub record VerdictRow : Type 0 where
  pub market_address : ℕ
  pub resolver : ℕ
  pub accept_challenge : Bool
  pub count : ℕ
  pub block_number : ℕ

pub data ClaimStatus : Type 0 where
  open_claim upheld rejected expired : ClaimStatus

pub record IntegrityClaimRow : Type 0 where
  pub room_id : ℕ
  pub claim_id : ℕ
  pub claimant : Option ℕ
  pub participant : Option ℕ
  pub violation_code : Option ℕ
  pub status : Option ClaimStatus
  pub block_number : Option ℕ

pub record BondRow : Type 0 where
  pub room_id : ℕ
  pub participant : ℕ
  pub posted : Option ℕ
  pub claimed : Option ℕ
  pub forfeited : Option ℕ
  pub claim_id : Option ℕ
  pub block_number : Option ℕ

pub record SafeEpochRow : Type 0 where
  pub market_address : ℕ
  pub epoch : ℕ
  pub source_sequence : ℕ
  pub block_number : ℕ

-- The fields of a `ProjectionStore` that the indexer writes
pub record Projection : Type 0 where
  pub rooms : Dict RoomRow
  pub slots : PairDict SlotRow
  pub markets : Dict MarketRow
  pub actions : PairDict ActionRow
  pub holdings : PairDict HoldingRow
  pub skips : List SkipRow
  pub trades : List TradeRow
  pub claims : List ClaimRow
  pub attestations : List AttestationRow
  pub challenge_verdicts : List VerdictRow
  pub integrity_claims : PairDict IntegrityClaimRow
  pub bonds : PairDict BondRow
  pub safe_epochs : PairDict SafeEpochRow
  pub cursor_block : ℕ

-- What the indexer is told of a slot that the chain does not store
pub record SlotMeta : Type 0 where
  pub shape : Option ℕ
  pub question : Option ℕ
  pub params : Option ℕ
  pub opening_condition : Option ℕ
  pub closing_condition : Option ℕ
  pub winner_reward_bps : Option ℕ

-- How names are read: `toLowerCase` of an address, `decodeRoomId`, and the slots' metadata
pub record Names : Type 0 where
  pub lower : ℕ → ℕ
  pub decode_room_id : ℕ → ℕ
  pub slot_meta : ℕ → SlotMeta

-- `{ submittedBlock, executedBlock }`
pub record Clear : Type 0 where
  pub submitted_block : ℕ
  pub executed_block : Option ℕ

-- Block number, log index and address of a log that was applied
pub record LogId : Type 0 where
  pub block : ℕ
  pub index : ℕ
  pub address : ℕ

pub record Indexer : Type 0 where
  pub store : Projection
  pub cursor_block : ℕ
  pub touched_markets : List ℕ
  pub applied_logs : List LogId
  pub recent_hashes : Dict ℕ
  pub clear_samples : List ℕ
  pub pending_clears : PairDict Clear
