-- ===== src/Indexer/Ledger.antt =====
-- What the logs say of trades, claims and holdings, and that the handlers of
-- services/live-room/src/indexer/indexer.mjs record just that.
use tradermarket.Base.{
  ℕ, ◌≡◌, refl, Bool, true, false, Option, none, some, List, [], ◌∷◌, ◌++◌, arith, if◌then◌else◌,
  or_else,
}
use tradermarket.Base.Int.{pos}
use tradermarket.Base.PairDict.{PairDict, lookup_pair, same_pair, lookup_pair-insert_pair}
use tradermarket.Indexer.{Position, HoldingRow, TradeRow, ClaimRow, ClaimKind, Projection, Names}
use tradermarket.Indexer.Events.{Event, Log}
use tradermarket.Indexer.Store.{held_by, adjust_holding}
use tradermarket.Indexer.Fresh.{no_position, add_position}
use tradermarket.Indexer.Markets.{in_position, minus}

-- An amount that moves into what an account holds in a market, or out of it
abbrev pub Move : Type 0
Move = (ℕ × ℕ) × Position

abbrev pub move_if : Bool → Position → Position → Position
move_if is_here delta p = if is_here then add_position p delta else p

-- All the moves of one account in one market, on top of what it has
unfoldable pub moved : ℕ × ℕ → List Move → Position → Position
moved who [] p = p
moved who ((whose, delta) ∷ rest) p = moved who rest (move_if (same_pair whose who) delta p)

pub moved-append :
    (who : ℕ × ℕ) (ms ns : List Move) (p : Position)
    → moved who (ms ++ ns) p ≡ moved who ns (moved who ms p)
unfolding moved
moved-append who [] ns p = refl
moved-append who ((whose, delta) ∷ rest) ns p =
    moved-append who rest ns (move_if (same_pair whose who) delta p)

abbrev pub held_in : Option HoldingRow → Position
held_in none = no_position
held_in (some r) = r.position

abbrev pub position_in : ℕ × ℕ → PairDict HoldingRow → Position
position_in who holdings = held_in (lookup_pair who holdings)

abbrev pub trade_row : Log → ℕ → Bool → Bool → ℕ → ℕ → TradeRow
trade_row log user is_buy is_a amount_in amount_out = record {
  market_address = log.address;
  account = user;
  outcome_a = is_a;
  is_buy = is_buy;
  amount_in = amount_in;
  amount_out = amount_out;
  block_number = log.block_number;
}

abbrev pub claim_row : Log → ℕ → ClaimKind → ℕ → ClaimRow
claim_row log account kind amount = record {
  market_address = log.address;
  account = account;
  kind = kind;
  amount = amount;
  block_number = log.block_number;
}

unfoldable pub trades_in : Log → Event → List TradeRow
trades_in log (Event.trade user is_buy is_a amount_in amount_out) =
    trade_row log user is_buy is_a amount_in amount_out ∷ []
trades_in log _ = []

unfoldable pub claims_in : Log → Event → List ClaimRow
claims_in log (Event.positions_redeemed user a b payout) =
    claim_row log user ClaimKind.redeem payout ∷ []
claims_in log (Event.lp_inventory_settled provider shares payout) =
    claim_row log provider ClaimKind.lp_inventory payout ∷ []
claims_in log (Event.lp_fees_claimed provider amount) =
    claim_row log provider ClaimKind.lp_fees amount ∷ []
claims_in log (Event.winner_reward_claimed person amount) =
    claim_row log person ClaimKind.winner_reward amount ∷ []
claims_in log (Event.invalid_winner_fee_refunded person amount) =
    claim_row log person ClaimKind.winner_fee_refund amount ∷ []
claims_in log _ = []

-- All that a list of logs says, the earliest first
unfoldable pub all_trades : List Log → List TradeRow
all_trades [] = []
all_trades (log ∷ logs) = trades_in log log.event ++ all_trades logs

unfoldable pub all_claims : List Log → List ClaimRow
all_claims [] = []
all_claims (log ∷ logs) = claims_in log log.event ++ all_claims logs

module _ (names : Names) where
  open names use {lower}

  abbrev pub at_log : Log → ℕ → ℕ × ℕ
  at_log log account = (lower log.address, lower account)

  unfoldable pub moves_in : Log → Event → List Move
  moves_in log (Event.trade user true is_a amount_in amount_out) =
      (at_log log user, in_position is_a (pos amount_out)) ∷ []
  moves_in log (Event.trade user false is_a amount_in amount_out) =
      (at_log log user, in_position is_a (minus amount_in)) ∷ []
  moves_in log (Event.liquidity_added provider shares a b) =
      (
        at_log log provider,
        record {
          position_a = pos (or_else a 0);
          position_b = pos (or_else b 0);
          lp_shares = pos shares;
        },
      )
      ∷ []
  moves_in log (Event.position_transferred sender receiver amount is_a) =
      (at_log log sender, in_position is_a (minus amount))
      ∷ (at_log log receiver, in_position is_a (pos amount))
      ∷ []
  moves_in log (Event.positions_redeemed user a b payout) =
      (at_log log user, record { position_a = minus a; position_b = minus b; lp_shares = pos 0 })
      ∷ []
  moves_in log (Event.lp_inventory_settled provider shares payout) =
      (
        at_log log provider,
        record { position_a = pos 0; position_b = pos 0; lp_shares = minus shares },
      )
      ∷ []
  moves_in log _ = []

  same_pair_eq : (a b : ℕ × ℕ) → same_pair a b ≡ true → a ≡ b
  same_pair_eq (a, b) (c, d) h = ground arith

  pub position_in-adjust_holding :
      (who : ℕ × ℕ) (market account : ℕ) (delta : Position) (block : ℕ) (s : Projection)
      → position_in who (adjust_holding names market account delta block s).holdings
        ≡ move_if (same_pair (lower market, lower account) who) delta (position_in who s.holdings)
  unfolding adjust_holding
  position_in-adjust_holding who market account delta block s =
      rw
        (lookup_pair-insert_pair (lower market, lower account) who
          (record (held_by names market account block s) {
            position = add_position (held_by names market account block s).position delta;
            block_number = block;
          })
          s.holdings)
        (ground (arith, same_pair_eq (lower market, lower account) who))

  -- All the moves of a list of logs, the earliest first
  unfoldable pub all_moves : List Log → List Move
  all_moves [] = []
  all_moves (log ∷ logs) = moves_in log log.event ++ all_moves logs
