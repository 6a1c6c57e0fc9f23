-- ===== src/Indexer/Events.antt =====
-- The logs that a log source decodes (services/live-room/src/indexer/chain-source.mjs), with the
-- arguments that the handlers of services/live-room/src/indexer/indexer.mjs read.
use tradermarket.Base.{ℕ, Bool, Option}

pub data Event : Type 0 where
  room_created : (room_id room gate_signer publisher : ℕ) → Event
  market_created :
      (market room_id slot_index template_id condition_hash question stream_url : ℕ) → Event
  slot_published :
      (market slot_index template_id condition_hash request_hash nonce sequence opens_at : ℕ)
      → Event
  room_epochs_marked_safe : (source_sequence : ℕ) → Event
  room_suspended : (source_sequence : ℕ) → Event
  room_reopened : (source_sequence : ℕ) → Event
  slots_closed : (decisive_sequence : ℕ) → Event
  room_closed : (decisive_sequence : ℕ) → Event
  room_closed_by_gate_stall : (stalled_since : ℕ) → Event
  slot_call_skipped : (market epoch selector reason : ℕ) → Event
  integrity_bond_posted : (participant amount : ℕ) → Event
  integrity_bond_claimed : (participant amount : ℕ) → Event
  integrity_bond_forfeited : (participant amount claim_id : ℕ) → Event
  integrity_claim_filed : (claim_id claimant participant violation_code : ℕ) → Event
  integrity_claim_adjudicated : (claim_id : ℕ) (is_upheld : Bool) → Event
  integrity_claim_expired : (claim_id : ℕ) → Event
  action_submitted : (action_id epoch kind user amount : ℕ) → Event
  action_executed : (action_id return_amount : ℕ) → Event
  action_refunded : (action_id amount : ℕ) → Event
  epoch_marked_safe : (epoch source_sequence : ℕ) → Event
  gate_suspended : Event
  gate_reopened : Event
  forecasting_closed : (decisive_sequence : ℕ) → Event
  trade : (user : ℕ) (is_buy is_a : Bool) (amount_in amount_out : ℕ) → Event
  liquidity_added : (provider shares_minted : ℕ) (adjustment_a adjustment_b : Option ℕ) → Event
  position_transferred : (sender receiver amount : ℕ) (is_a : Bool) → Event
  positions_redeemed : (user amount_a amount_b payout : ℕ) → Event
  lp_inventory_settled : (provider shares payout : ℕ) → Event
  lp_fees_claimed : (provider amount : ℕ) → Event
  winner_reward_claimed : (recipient amount : ℕ) → Event
  invalid_winner_fee_refunded : (forecaster amount : ℕ) → Event
  result_attested : (resolver outcome evidence_hash count : ℕ) → Event
  provisional_result_registered : (outcome evidence_hash challenge_ends_at : ℕ) → Event
  result_challenged : (challenger evidence_hash : ℕ) → Event
  challenge_verdict_attested : (resolver : ℕ) (accept_challenge : Bool) (count : ℕ) → Event
  result_finalized : (outcome : ℕ) → Event
  unhandled : Event

pub record Log : Type 0 where
  pub block_number : ℕ
  pub log_index : ℕ
  pub address : ℕ
  pub event : Event
