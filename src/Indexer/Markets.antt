-- ===== src/Indexer/Markets.antt =====
-- Handlers of the markets' logs (services/live-room/src/indexer/indexer.mjs, `_onActionSubmitted` to
-- `_onResultFinalized`). The calls of `_touch` and the pending clears stand in Apply.
use tradermarket.Base.{ℕ, Bool, Option, none, some, ◌==◌, if◌then◌else◌, or_else}
use tradermarket.Base.Int.{ℤ, pos, sub_ℕ}
use tradermarket.Indexer.{
  closed, provisional, challenged, final, invalid, SlotRow, ActionRow, Position, ClaimKind,
  Projection, Names,
}
use tradermarket.Indexer.States.{maybe_settle_room, set_slot_state}
use tradermarket.Indexer.Events.{Log}
use tradermarket.Indexer.Store.{
  upsert_slot, append_trade, append_claim, append_attestation, append_challenge_verdict,
  slot_by_market, upsert_market, upsert_action, adjust_holding,
}
use tradermarket.Indexer.Fresh.{no_position}

-- Amounts in one of the two positions
abbrev pub in_position : Bool → ℤ → Position
in_position is_a n =
    if is_a then record no_position { position_a = n } else record no_position { position_b = n }

abbrev pub minus : ℕ → ℤ
minus n = sub_ℕ 0 n

abbrev pub submitted : Log → ℕ → ℕ → ℕ → ℕ → ActionRow → ActionRow
submitted log epoch kind user amount r = record r {
  epoch = some epoch;
  kind = some kind;
  status = some 0;
  account = some user;
  outcome_a = none;
  amount = some amount;
  return_amount = none;
  submitted_block = some log.block_number;
  settled_block = none;
}

abbrev pub executed : Log → ℕ → ActionRow → ActionRow
executed log return_amount r = record r {
  status = some 1;
  return_amount = some return_amount;
  settled_block = some log.block_number;
}

abbrev pub refunded : Log → ℕ → ActionRow → ActionRow
refunded log amount r = record r {
  status = some 2;
  refunded_amount = some amount;
  settled_block = some log.block_number;
}

module _ (names : Names) where
  unfoldable pub on_action_submitted : Log → ℕ → ℕ → ℕ → ℕ → ℕ → Projection → Projection
  on_action_submitted log id epoch kind user amount =
      upsert_action names log.address id (submitted log epoch kind user amount)

  unfoldable pub on_action_executed : Log → ℕ → ℕ → Projection → Projection
  on_action_executed log id return_amount =
      upsert_action names log.address id (executed log return_amount)

  unfoldable pub on_action_refunded : Log → ℕ → ℕ → Projection → Projection
  on_action_refunded log id amount = upsert_action names log.address id (refunded log amount)

  -- The slot of the market that logs, if there is one
  abbrev pub update_slot : Log → (SlotRow → SlotRow) → Projection → Projection
  update_slot log merge s = elim (slot_by_market names log.address s) [
    | none ↦ s
    | some r ↦ upsert_slot r.room_id r.slot_index merge s
  ]

  unfoldable pub on_forecasting_closed : Log → ℕ → Projection → Projection
  on_forecasting_closed log sequence =
      update_slot log
        λ r. record (set_slot_state closed log.block_number r) { closed_seq = some sequence }

  abbrev pub trade_delta : Bool → Bool → ℕ → ℕ → Position
  trade_delta is_buy is_a amount_in amount_out =
      if is_buy then in_position is_a (pos amount_out) else in_position is_a (minus amount_in)

  unfoldable pub on_trade : Log → ℕ → Bool → Bool → ℕ → ℕ → Projection → Projection
  on_trade log user is_buy is_a amount_in amount_out s =
      append_trade
        (record {
          market_address = log.address;
          account = user;
          outcome_a = is_a;
          is_buy = is_buy;
          amount_in = amount_in;
          amount_out = amount_out;
          block_number = log.block_number;
        })
        (adjust_holding names log.address user (trade_delta is_buy is_a amount_in amount_out)
          log.block_number s)

  unfoldable pub on_liquidity_added : Log → ℕ → ℕ → Option ℕ → Option ℕ → Projection → Projection
  on_liquidity_added log provider shares adjustment_a adjustment_b =
      adjust_holding names log.address provider
        (record {
          position_a = pos (or_else adjustment_a 0);
          position_b = pos (or_else adjustment_b 0);
          lp_shares = pos shares;
        })
        log.block_number

  unfoldable pub on_position_transferred : Log → ℕ → ℕ → ℕ → Bool → Projection → Projection
  on_position_transferred log sender receiver amount is_a s =
      adjust_holding names log.address receiver (in_position is_a (pos amount)) log.block_number (
        adjust_holding names log.address sender (in_position is_a (minus amount)) log.block_number
          s)

  abbrev pub claim : Log → ℕ → ClaimKind → ℕ → Projection → Projection
  claim log account kind amount = append_claim (record {
    market_address = log.address;
    account = account;
    kind = kind;
    amount = amount;
    block_number = log.block_number;
  })

  unfoldable pub on_positions_redeemed : Log → ℕ → ℕ → ℕ → ℕ → Projection → Projection
  on_positions_redeemed log user amount_a amount_b payout s =
      claim log user ClaimKind.redeem payout (
        adjust_holding names log.address user
          (record no_position { position_a = minus amount_a; position_b = minus amount_b })
          log.block_number s)

  unfoldable pub on_lp_inventory_settled : Log → ℕ → ℕ → ℕ → Projection → Projection
  on_lp_inventory_settled log provider shares payout s =
      claim log provider ClaimKind.lp_inventory payout (
        adjust_holding names log.address provider (record no_position { lp_shares = minus shares })
          log.block_number s)

  unfoldable pub on_result_attested : Log → ℕ → ℕ → ℕ → ℕ → Projection → Projection
  on_result_attested log resolver outcome evidence_hash count = append_attestation (record {
    market_address = log.address;
    resolver = resolver;
    outcome = outcome;
    evidence_hash = evidence_hash;
    count = count;
    block_number = log.block_number;
  })

  unfoldable pub on_provisional_result_registered : Log → ℕ → ℕ → ℕ → Projection → Projection
  on_provisional_result_registered log outcome evidence_hash ends_at s =
      upsert_market names log.address
        (λ r. record r {
          provisional_outcome = some outcome;
          provisional_evidence_hash = some evidence_hash;
          challenge_ends_at = some ends_at;
          block_number = some log.block_number;
        })
        (update_slot log (set_slot_state provisional log.block_number) s)

  unfoldable pub on_result_challenged : Log → ℕ → ℕ → Projection → Projection
  on_result_challenged log challenger evidence_hash s =
      upsert_market names log.address
        (λ r. record r {
          challenger = some challenger;
          challenge_evidence_hash = some evidence_hash;
          block_number = some log.block_number;
        })
        (update_slot log (set_slot_state challenged log.block_number) s)

  unfoldable pub on_challenge_verdict_attested : Log → ℕ → Bool → ℕ → Projection → Projection
  on_challenge_verdict_attested log resolver accept count = append_challenge_verdict (record {
    market_address = log.address;
    resolver = resolver;
    accept_challenge = accept;
    count = count;
    block_number = log.block_number;
  })

  unfoldable pub on_result_finalized : Log → ℕ → Projection → Projection
  on_result_finalized log outcome s =
      let finalized =
        upsert_market names log.address
          (λ r. record r {
            final_outcome = some outcome;
            finalized_block_number = some log.block_number;
            block_number = some log.block_number;
          })
          s in
      elim (slot_by_market names log.address finalized) [
        | none ↦ finalized
        | some r ↦
            let state = if outcome == 4 then invalid else final in
            maybe_settle_room r.room_id log.block_number
              (upsert_slot r.room_id r.slot_index (set_slot_state state log.block_number) finalized)
      ]
