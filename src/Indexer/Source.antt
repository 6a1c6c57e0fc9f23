-- ===== src/Indexer/Source.antt =====
-- What the indexer asks of the chain (services/live-room/src/indexer/chain-source.mjs) and its
-- beginning (services/live-room/src/indexer/indexer.mjs, `constructor`).
use tradermarket.Base.{ℕ, Option, List, []}
use tradermarket.Indexer.{Projection, Indexer}
use tradermarket.Indexer.Events.{Log}
use tradermarket.Indexer.Fresh.{empty_projection}

-- What a market's getters answer
pub record MarketState : Type 0 where
  pub participant_a_name : Option ℕ
  pub participant_b_name : Option ℕ
  pub gate_state : ℕ
  pub winner_reward_bps : ℕ
  pub reserve_a : ℕ
  pub reserve_b : ℕ
  pub spot_price_a : ℕ
  pub total_lp_shares : ℕ
  pub winner_reward_pool : ℕ
  pub pending_collateral : ℕ
  pub collateral_backing : ℕ
  pub unclaimed_lp_fees : ℕ
  pub current_epoch : ℕ
  pub last_safe_sequence : ℕ
  pub final_outcome : ℕ

-- The ports: the log source's answer to each sweep of a pass, which depends on the addresses that
-- the store knows, and `none` where it throws; block times and hashes where the source has them;
-- and the market reader, if there is one.
pub record Chain : Type 0 where
  pub get_logs : ℕ → Projection → ℕ → ℕ → Option (List Log)
  pub block_timestamp : Option (ℕ → Option ℕ)
  pub block_hash : Option (ℕ → Option ℕ)
  pub read_market_state : Option (ℕ → ℕ → Option MarketState)

abbrev pub reorg_window : ℕ
reorg_window = 128

abbrev pub clear_sample_window : ℕ
clear_sample_window = 64

-- `constructor`
abbrev pub new_indexer : Indexer
new_indexer = record {
  store = empty_projection;
  cursor_block = 0;
  touched_markets = [];
  applied_logs = [];
  recent_hashes = [];
  clear_samples = [];
  pending_clears = [];
}

-- A state, and a value or a throw
abbrev pub Outcome : Type 0 → Type 0
Outcome A = Indexer × Option A
