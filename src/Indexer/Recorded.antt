-- ===== src/Indexer/Recorded.antt =====
-- Each handler of services/live-room/src/indexer/indexer.mjs records what its log says.
use tradermarket.Base.{
  ℕ, ◌≡◌, refl, sym, ap, ◌∙◌, Bool, true, false, some, append-nil, if◌then◌else◌, none, [], ◌∷◌,
  ◌++◌,
}
use tradermarket.Base.Int.{pos}
use tradermarket.Base.PairDict.{same_pair}
use tradermarket.Indexer.{
  Projection, Names, ActionRow, ClaimRow, BondRow, upheld, rejected, expired,
}
use tradermarket.Indexer.Events.{Event, Log}
use tradermarket.Indexer.Store.{
  append_skip, append_trade, append_claim, append_attestation, append_challenge_verdict,
  upsert_action, adjust_holding, record_safe_epoch,
}
use tradermarket.Indexer.Rooms.{
  observe_sequence, close_room, close_stalled, note_skip, put_bond, file_claim, put_claim_status,
  on_room_created, on_market_created, publish_slot, on_slot_published, room_sequence,
  on_room_closed, on_room_closed_by_gate_stall, on_slot_call_skipped, bond,
  on_integrity_claim_filed, on_integrity_claim_adjudicated, on_integrity_claim_expired,
}
use tradermarket.Indexer.Markets.{
  on_action_submitted, on_action_executed, on_action_refunded, on_forecasting_closed, on_trade,
  on_liquidity_added, on_position_transferred, on_positions_redeemed, on_lp_inventory_settled,
  on_result_attested, on_provisional_result_registered, on_result_challenged,
  on_challenge_verdict_attested, in_position, submitted, executed, refunded,
}
use tradermarket.Indexer.Apply.{project}
use tradermarket.Indexer.Books.{
  upsert_action-IsSideless, books-upsert_room, books-upsert_integrity_claim, books-upsert_bond,
  books-upsert_market, books-update_slot,
}
use tradermarket.Indexer.Ledger.{
  position_in, trades_in, claims_in, moves_in, moved, move_if, at_log, position_in-adjust_holding,
}
use tradermarket.Indexer.Recording.{
  IsSameLedger, books-IsSameLedger, Recorded, written, quiet, careful, books-publish_slot,
  books-on_result_finalized,
}

module _ (names : Names) (log : Log) where
  on_trade-Recorded :
      (user : ℕ) (is_buy is_a : Bool) (amount_in amount_out : ℕ) (s : Projection)
      → Recorded names log
          (Event.trade user is_buy is_a amount_in amount_out)
          s
          (on_trade names log user is_buy is_a amount_in amount_out s)
  unfolding on_trade append_trade adjust_holding trades_in claims_in moves_in moved
  on_trade-Recorded user true is_a amount_in amount_out s = record {
    traded = refl;
    claimed = sym (append-nil s.claims);
    held = λ who. position_in-adjust_holding names who log.address user _ log.block_number s;
    sided = λ unsided. unsided;
  }
  on_trade-Recorded user false is_a amount_in amount_out s = record {
    traded = refl;
    claimed = sym (append-nil s.claims);
    held = λ who. position_in-adjust_holding names who log.address user _ log.block_number s;
    sided = λ unsided. unsided;
  }

  on_position_transferred-held :
      (sender receiver amount : ℕ) (is_a : Bool) (s : Projection) (who : ℕ × ℕ)
      → position_in who (on_position_transferred names log sender receiver amount is_a s).holdings
        ≡ moved who
            (moves_in names log (Event.position_transferred sender receiver amount is_a))
            (position_in who s.holdings)
  unfolding on_position_transferred moves_in moved
  on_position_transferred-held sender receiver amount is_a s who =
      position_in-adjust_holding names who log.address receiver _ log.block_number _
      ∙ ap
          (λ p.
            move_if (same_pair (at_log names log receiver) who) (in_position is_a (pos amount)) p)
          (position_in-adjust_holding names who log.address sender _ log.block_number s)

  -- A write to an action that leaves its side alone
  acted :
      (id : ℕ) (merge : ActionRow → ActionRow) (s : Projection)
      → ((r : ActionRow) → r.outcome_a ≡ none → (merge r).outcome_a ≡ none)
      → IsSameLedger s (upsert_action names log.address id merge s)
  unfolding upsert_action
  acted id merge s keeps = record {
    trades_kept = refl;
    claims_kept = refl;
    holdings_kept = refl;
    sides_kept = upsert_action-IsSideless names log.address id merge s keeps;
  }

  -- A claim that moves no position
  paid :
      (e : Event) (row : ClaimRow) (s : Projection)
      → trades_in log e ≡ []
      → claims_in log e ≡ row ∷ []
      → moves_in names log e ≡ []
      → Recorded names log e s (append_claim row s)
  unfolding append_claim moved
  paid e row s no_trades one no_moves = record {
    traded = sym (append-nil s.trades) ∙ ap (λ ts. s.trades ++ ts) (sym no_trades);
    claimed = ap (λ cs. s.claims ++ cs) (sym one);
    held = λ who. ap (λ ms. moved who ms (position_in who s.holdings)) (sym no_moves);
    sided = λ unsided. unsided;
  }

  pub project-Recorded :
      (e : Event) (s t : Projection) → project names log e s ≡ some t → Recorded names log e s t
  unfolding project trades_in claims_in moves_in moved on_room_created on_market_created
      on_slot_published room_sequence on_room_closed on_room_closed_by_gate_stall
      on_slot_call_skipped bond on_integrity_claim_filed on_integrity_claim_adjudicated
      on_integrity_claim_expired on_action_submitted on_action_executed on_action_refunded
      on_forecasting_closed on_result_attested on_provisional_result_registered on_result_challenged
      on_challenge_verdict_attested upsert_action record_safe_epoch append_skip append_attestation
      append_challenge_verdict on_liquidity_added adjust_holding on_position_transferred
      on_positions_redeemed on_lp_inventory_settled append_claim
  project-Recorded (Event.room_created id room signer publisher) s t h =
      quiet names log _ refl refl refl h (books-IsSameLedger (books-upsert_room _ _ s))
  project-Recorded (Event.market_created market id index template condition question url) s t h =
      quiet names log _ refl refl refl h (books-IsSameLedger (books-upsert_market names market _ s))
  project-Recorded (Event.slot_published market index template condition request nonce seq opens) s
        t h =
      careful names log _
        (publish_slot names log market index template condition request nonce seq opens) refl refl
        refl h
        λ id.
          books-publish_slot names log market index template condition request nonce seq opens id s
  project-Recorded (Event.room_epochs_marked_safe seq) s t h =
      careful names log _ (observe_sequence log seq) refl refl refl h λ id. books-upsert_room id _ s
  project-Recorded (Event.room_suspended seq) s t h =
      careful names log _ (observe_sequence log seq) refl refl refl h λ id. books-upsert_room id _ s
  project-Recorded (Event.room_reopened seq) s t h =
      careful names log _ (observe_sequence log seq) refl refl refl h λ id. books-upsert_room id _ s
  project-Recorded (Event.slots_closed seq) s t h =
      careful names log _ (observe_sequence log seq) refl refl refl h λ id. books-upsert_room id _ s
  project-Recorded (Event.room_closed seq) s t h =
      careful names log _ (close_room log seq) refl refl refl h λ id. books-upsert_room id _ s
  project-Recorded (Event.room_closed_by_gate_stall since) s t h =
      careful names log _ (close_stalled log since) refl refl refl h λ id. books-upsert_room id _ s
  project-Recorded (Event.slot_call_skipped market epoch selector reason) s t h =
      careful names log _ (note_skip log market epoch selector reason) refl refl refl h λ id. refl
  project-Recorded (Event.integrity_bond_posted person amount) s t h =
      careful names log _ (put_bond log person (λ (r : BondRow). record r { posted = some amount }))
        refl refl refl h λ id. books-upsert_bond id person _ s
  project-Recorded (Event.integrity_bond_claimed person amount) s t h =
      careful names log _
        (put_bond log person (λ (r : BondRow). record r { claimed = some amount })) refl refl refl h
        λ id. books-upsert_bond id person _ s
  project-Recorded (Event.integrity_bond_forfeited person amount claim) s t h =
      careful names log _
        (put_bond log person
          (λ (r : BondRow). record r { forfeited = some amount; claim_id = some claim }))
        refl refl refl h λ id. books-upsert_bond id person _ s
  project-Recorded (Event.integrity_claim_filed claim claimant person code) s t h =
      careful names log _ (file_claim log claim claimant person code) refl refl refl h
        λ id. books-upsert_integrity_claim id claim _ s
  project-Recorded (Event.integrity_claim_adjudicated claim is_upheld) s t h =
      careful names log _ (put_claim_status log claim (if is_upheld then upheld else rejected)) refl
        refl refl h λ id. books-upsert_integrity_claim id claim _ s
  project-Recorded (Event.integrity_claim_expired claim) s t h =
      careful names log _ (put_claim_status log claim expired) refl refl refl h
        λ id. books-upsert_integrity_claim id claim _ s
  project-Recorded (Event.action_submitted id epoch kind user amount) s t h =
      quiet names log _ refl refl refl h
        (acted id (submitted log epoch kind user amount) s (λ r unsided. refl))
  project-Recorded (Event.action_executed id amount) s t h =
      quiet names log _ refl refl refl h (acted id (executed log amount) s (λ r unsided. unsided))
  project-Recorded (Event.action_refunded id amount) s t h =
      quiet names log _ refl refl refl h (acted id (refunded log amount) s (λ r unsided. unsided))
  project-Recorded (Event.epoch_marked_safe epoch seq) s t h =
      quiet names log _ refl refl refl h (books-IsSameLedger refl)
  project-Recorded Event.gate_suspended s t h =
      quiet names log _ refl refl refl h (books-IsSameLedger refl)
  project-Recorded Event.gate_reopened s t h =
      quiet names log _ refl refl refl h (books-IsSameLedger refl)
  project-Recorded (Event.forecasting_closed seq) s t h =
      quiet names log _ refl refl refl h (books-IsSameLedger (books-update_slot names log _ s))
  project-Recorded (Event.trade user is_buy is_a amount_in amount_out) s t h =
      written names log _ h (on_trade-Recorded user is_buy is_a amount_in amount_out s)
  project-Recorded (Event.liquidity_added provider shares a b) s t h =
      written names log _ h (record {
        traded = sym (append-nil s.trades);
        claimed = sym (append-nil s.claims);
        held =
            λ who. position_in-adjust_holding names who log.address provider _ log.block_number s;
        sided = λ unsided. unsided;
      })
  project-Recorded (Event.position_transferred sender receiver amount is_a) s t h =
      written names log _ h (record {
        traded = sym (append-nil s.trades);
        claimed = sym (append-nil s.claims);
        held = on_position_transferred-held sender receiver amount is_a s;
        sided = λ unsided. unsided;
      })
  project-Recorded (Event.positions_redeemed user a b payout) s t h =
      written names log _ h (record {
        traded = sym (append-nil s.trades);
        claimed = refl;
        held = λ who. position_in-adjust_holding names who log.address user _ log.block_number s;
        sided = λ unsided. unsided;
      })
  project-Recorded (Event.lp_inventory_settled provider shares payout) s t h =
      written names log _ h (record {
        traded = sym (append-nil s.trades);
        claimed = refl;
        held =
            λ who. position_in-adjust_holding names who log.address provider _ log.block_number s;
        sided = λ unsided. unsided;
      })
  project-Recorded (Event.lp_fees_claimed provider amount) s t h =
      written names log _ h (paid _ _ s refl refl refl)
  project-Recorded (Event.winner_reward_claimed person amount) s t h =
      written names log _ h (paid _ _ s refl refl refl)
  project-Recorded (Event.invalid_winner_fee_refunded person amount) s t h =
      written names log _ h (paid _ _ s refl refl refl)
  project-Recorded (Event.result_attested resolver outcome evidence count) s t h =
      quiet names log _ refl refl refl h (books-IsSameLedger refl)
  project-Recorded (Event.provisional_result_registered outcome evidence ends) s t h =
      quiet names log _ refl refl refl h (
        books-IsSameLedger
          (books-upsert_market names log.address _ _ ∙ books-update_slot names log _ s))
  project-Recorded (Event.result_challenged challenger evidence) s t h =
      quiet names log _ refl refl refl h (
        books-IsSameLedger
          (books-upsert_market names log.address _ _ ∙ books-update_slot names log _ s))
  project-Recorded (Event.challenge_verdict_attested resolver accept count) s t h =
      quiet names log _ refl refl refl h (books-IsSameLedger refl)
  project-Recorded (Event.result_finalized outcome) s t h =
      quiet names log _ refl refl refl h
        (books-IsSameLedger (books-on_result_finalized names log outcome s))
  project-Recorded Event.unhandled s t h =
      quiet names log _ refl refl refl h (books-IsSameLedger refl)
