-- ===== src/Indexer/Apply.antt =====
-- `apply` of a `ChainIndexer` and its memory beside the store: the touched markets and the clears
-- that wait for their execution (services/live-room/src/indexer/indexer.mjs).
use tradermarket.Base.{
  ℕ, Bool, Option, none, some, List, [], ◌∷◌, ◌++◌, exists, ◌==◌, if◌then◌else◌,
}
use tradermarket.Base.PairDict.{PairDict, lookup_pair, insert_pair}
use tradermarket.Indexer.{Projection, Names, Clear, Indexer, ClaimKind, BondRow}
use tradermarket.Indexer.Events.{Event, Log}
use tradermarket.Indexer.Store.{record_safe_epoch}
use tradermarket.Indexer.Rooms.{
  on_room_created, on_market_created, on_slot_published, room_sequence, on_room_closed,
  on_room_closed_by_gate_stall, on_slot_call_skipped, bond, on_integrity_claim_filed,
  on_integrity_claim_adjudicated, on_integrity_claim_expired,
}
use tradermarket.Indexer.Markets.{
  on_action_submitted, on_action_executed, on_action_refunded, on_forecasting_closed, on_trade,
  on_liquidity_added, on_position_transferred, claim, on_positions_redeemed,
  on_lp_inventory_settled, on_result_attested, on_provisional_result_registered,
  on_result_challenged, on_challenge_verdict_attested, on_result_finalized,
}

-- `Set.add` and `Array.includes` on numbers
abbrev pub includes : ℕ → List ℕ → Bool
includes n ns = exists (λ (m : ℕ). m == n) ns

abbrev pub add_to : ℕ → List ℕ → List ℕ
add_to n ns = if includes n ns then ns else ns ++ n ∷ []

module _ (names : Names) where
  open names use {lower}

  -- What a handler does to the store; `none` where it throws. `[this._on…]` is no function for an
  -- event that has no handler.
  unfoldable pub project : Log → Event → Projection → Option Projection
  project log (Event.room_created id room signer publisher) s =
      some (on_room_created names log id room signer publisher s)
  project log (Event.market_created market id index template condition question url) s =
      some (on_market_created names log market id index template condition question url s)
  project log (Event.slot_published market index template condition request nonce seq opens) s =
      on_slot_published names log market index template condition request nonce seq opens s
  project log (Event.room_epochs_marked_safe seq) s = room_sequence names log seq s
  project log (Event.room_suspended seq) s = room_sequence names log seq s
  project log (Event.room_reopened seq) s = room_sequence names log seq s
  project log (Event.slots_closed seq) s = room_sequence names log seq s
  project log (Event.room_closed seq) s = on_room_closed names log seq s
  project log (Event.room_closed_by_gate_stall since) s =
      on_room_closed_by_gate_stall names log since s
  project log (Event.slot_call_skipped market epoch selector reason) s =
      on_slot_call_skipped names log market epoch selector reason s
  project log (Event.integrity_bond_posted person amount) s =
      bond names log person (λ (r : BondRow). record r { posted = some amount }) s
  project log (Event.integrity_bond_claimed person amount) s =
      bond names log person (λ (r : BondRow). record r { claimed = some amount }) s
  project log (Event.integrity_bond_forfeited person amount id) s =
      bond names log person
        (λ (r : BondRow). record r { forfeited = some amount; claim_id = some id }) s
  project log (Event.integrity_claim_filed id claimant person code) s =
      on_integrity_claim_filed names log id claimant person code s
  project log (Event.integrity_claim_adjudicated id is_upheld) s =
      on_integrity_claim_adjudicated names log id is_upheld s
  project log (Event.integrity_claim_expired id) s = on_integrity_claim_expired names log id s
  project log (Event.action_submitted id epoch kind user amount) s =
      some (on_action_submitted names log id epoch kind user amount s)
  project log (Event.action_executed id amount) s = some (on_action_executed names log id amount s)
  project log (Event.action_refunded id amount) s = some (on_action_refunded names log id amount s)
  project log (Event.epoch_marked_safe epoch seq) s =
      some (record_safe_epoch names log.address epoch seq log.block_number s)
  project log Event.gate_suspended s = some s
  project log Event.gate_reopened s = some s
  project log (Event.forecasting_closed seq) s = some (on_forecasting_closed names log seq s)
  project log (Event.trade user is_buy is_a amount_in amount_out) s =
      some (on_trade names log user is_buy is_a amount_in amount_out s)
  project log (Event.liquidity_added provider shares a b) s =
      some (on_liquidity_added names log provider shares a b s)
  project log (Event.position_transferred sender receiver amount is_a) s =
      some (on_position_transferred names log sender receiver amount is_a s)
  project log (Event.positions_redeemed user a b payout) s =
      some (on_positions_redeemed names log user a b payout s)
  project log (Event.lp_inventory_settled provider shares payout) s =
      some (on_lp_inventory_settled names log provider shares payout s)
  project log (Event.lp_fees_claimed provider amount) s =
      some (claim names log provider ClaimKind.lp_fees amount s)
  project log (Event.winner_reward_claimed person amount) s =
      some (claim names log person ClaimKind.winner_reward amount s)
  project log (Event.invalid_winner_fee_refunded person amount) s =
      some (claim names log person ClaimKind.winner_fee_refund amount s)
  project log (Event.result_attested resolver outcome evidence count) s =
      some (on_result_attested names log resolver outcome evidence count s)
  project log (Event.provisional_result_registered outcome evidence ends) s =
      some (on_provisional_result_registered names log outcome evidence ends s)
  project log (Event.result_challenged challenger evidence) s =
      some (on_result_challenged names log challenger evidence s)
  project log (Event.challenge_verdict_attested resolver accept count) s =
      some (on_challenge_verdict_attested names log resolver accept count s)
  project log (Event.result_finalized outcome) s = some (on_result_finalized names log outcome s)
  project log Event.unhandled s = some s

  -- The market that a handler marks as touched
  unfoldable pub touched_by : Log → Event → Option ℕ
  touched_by log (Event.market_created market _ _ _ _ _ _) = some market
  touched_by log (Event.slot_published market _ _ _ _ _ _ _) = some market
  touched_by log (Event.action_submitted _ _ _ _ _) = some log.address
  touched_by log (Event.action_executed _ _) = some log.address
  touched_by log (Event.action_refunded _ _) = some log.address
  touched_by log (Event.epoch_marked_safe _ _) = some log.address
  touched_by log Event.gate_suspended = some log.address
  touched_by log Event.gate_reopened = some log.address
  touched_by log (Event.forecasting_closed _) = some log.address
  touched_by log (Event.trade _ _ _ _ _) = some log.address
  touched_by log (Event.liquidity_added _ _ _ _) = some log.address
  touched_by log (Event.position_transferred _ _ _ _) = some log.address
  touched_by log (Event.positions_redeemed _ _ _ _) = some log.address
  touched_by log (Event.lp_inventory_settled _ _ _) = some log.address
  touched_by log (Event.lp_fees_claimed _ _) = some log.address
  touched_by log (Event.winner_reward_claimed _ _) = some log.address
  touched_by log (Event.invalid_winner_fee_refunded _ _) = some log.address
  touched_by log (Event.provisional_result_registered _ _ _) = some log.address
  touched_by log (Event.result_challenged _ _) = some log.address
  touched_by log (Event.challenge_verdict_attested _ _ _) = some log.address
  touched_by log (Event.result_finalized _) = some log.address
  touched_by log _ = none

  -- `_touch`
  unfoldable pub touch : Option ℕ → List ℕ → List ℕ
  touch none markets = markets
  touch (some market) markets = add_to (lower market) markets

  unfoldable pub note_clear : Log → Event → PairDict Clear → PairDict Clear
  note_clear log (Event.action_submitted id _ _ _ _) clears =
      insert_pair (lower log.address, id)
        (record { submitted_block = log.block_number; executed_block = none }) clears
  note_clear log (Event.action_executed id _) clears =
      elim (lookup_pair (lower log.address, id) clears) [
        | none ↦ clears
        | some c ↦
            insert_pair (lower log.address, id)
              (record c { executed_block = some log.block_number }) clears
      ]
  note_clear log _ clears = clears

  unfoldable pub apply : Log → Indexer → Option Indexer
  unfolding touch touched_by note_clear
  apply log ix = elim (project log log.event ix.store) [
    | none ↦ none
    | some s ↦ some (record ix {
      store = s;
      touched_markets = touch (touched_by log log.event) ix.touched_markets;
      pending_clears = note_clear log log.event ix.pending_clears;
    })
  ]
