-- ===== src/Indexer/Fresh.antt =====
-- The empty store and rows that hold their keys alone (services/live-room/src/indexer/projection.mjs).
use tradermarket.Base.{ℕ, false, none, []}
use tradermarket.Base.Int.{pos, ◌+ℤ◌}
use tradermarket.Indexer.{
  RoomRow, SlotRow, MarketRow, ActionRow, Position, IntegrityClaimRow, BondRow, Projection,
}

-- `reset`
abbrev pub empty_projection : Projection
empty_projection = record {
  rooms = [];
  slots = [];
  markets = [];
  actions = [];
  holdings = [];
  skips = [];
  trades = [];
  claims = [];
  attestations = [];
  challenge_verdicts = [];
  integrity_claims = [];
  bonds = [];
  safe_epochs = [];
  cursor_block = 0;
}

abbrev pub new_room : ℕ → RoomRow
new_room id = record {
  room_id = id;
  room_id_bytes32 = none;
  live_room_address = none;
  factory_address = none;
  state = none;
  gate_signer = none;
  publisher = none;
  last_observed_seq = none;
  closed_source_seq = none;
  room_seq = none;
  closed_by_stall = false;
  stalled_since = none;
  block_number = none;
}

abbrev pub new_slot : ℕ → ℕ → SlotRow
new_slot id index = record {
  room_id = id;
  slot_index = index;
  state = none;
  shape = none;
  question = none;
  template_id = none;
  params = none;
  opening_condition = none;
  closing_condition = none;
  condition_hash = none;
  request_hash = none;
  permit_nonce = none;
  winner_reward_bps = none;
  market_address = none;
  published_seq = none;
  opens_at = none;
  closed_seq = none;
  block_number = none;
}

abbrev pub new_market : ℕ → MarketRow
new_market market = record {
  market_address = market;
  room_id = none;
  slot_index = none;
  template_id = none;
  condition_hash = none;
  question = none;
  stream_url = none;
  participant_a_name = none;
  participant_b_name = none;
  gate_state = none;
  winner_reward_bps = none;
  reserve_a = none;
  reserve_b = none;
  implied_prob_a = none;
  total_lp_shares = none;
  winner_reward_pool = none;
  pending_collateral = none;
  collateral_backing = none;
  unclaimed_lp_fees = none;
  current_epoch = none;
  last_safe_seq = none;
  provisional_outcome = none;
  provisional_evidence_hash = none;
  challenge_ends_at = none;
  challenger = none;
  challenge_evidence_hash = none;
  final_outcome = none;
  finalized_block_number = none;
  block_number = none;
}

abbrev pub new_action : ℕ → ℕ → ActionRow
new_action market id = record {
  market_address = market;
  action_id = id;
  epoch = none;
  kind = none;
  status = none;
  account = none;
  outcome_a = none;
  amount = none;
  return_amount = none;
  refunded_amount = none;
  submitted_block = none;
  settled_block = none;
}

abbrev pub new_integrity_claim : ℕ → ℕ → IntegrityClaimRow
new_integrity_claim id claim = record {
  room_id = id;
  claim_id = claim;
  claimant = none;
  participant = none;
  violation_code = none;
  status = none;
  block_number = none;
}

abbrev pub new_bond : ℕ → ℕ → BondRow
new_bond id person = record {
  room_id = id;
  participant = person;
  posted = none;
  claimed = none;
  forfeited = none;
  claim_id = none;
  block_number = none;
}

abbrev pub no_position : Position
no_position = record { position_a = pos 0; position_b = pos 0; lp_shares = pos 0 }

abbrev pub add_position : Position → Position → Position
add_position p q = record {
  position_a = p.position_a +ℤ q.position_a;
  position_b = p.position_b +ℤ q.position_b;
  lp_shares = p.lp_shares +ℤ q.lp_shares;
}
