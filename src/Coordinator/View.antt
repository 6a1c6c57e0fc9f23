-- ===== src/Coordinator/View.antt =====
-- The published state (services/live-room/src/coordinator/coordinator.mjs, `snapshot` to
-- `_indexerHealth`).
use tradermarket.Base.{
  ℕ, ◌+◌, Bool, true, false, Option, none, some, map, keep, length, ltb, leb, if◌then◌else◌,
  or_else,
}
use tradermarket.Base.Int.{ℤ, sub_ℕ}
use tradermarket.Domain.Event.{Event}
use tradermarket.Coordinator.{
  SlotState, open_slot, awaiting_liquidity, draft, SlotRow, MarketRow, Projection, Config, SlotView,
  SourceHealth, unknown_source, fresh_source, stale_source, IndexerHealth, unknown_indexer, delayed,
  current, Health, Snapshot, State,
}

-- `a?.f ?? b`, for rows that may be missing
abbrev pub at_row : {A B : Type 0} → Option A → (A → Option B) → Option B
at_row none f = none
at_row (some a) f = f a

abbrev pub first_of : {A : Type 0} → Option A → Option A → Option A
first_of none b = b
first_of (some a) b = some a

abbrev pub is_tradable : SlotState → Bool
is_tradable open_slot = true
is_tradable awaiting_liquidity = true
is_tradable s = false

-- The price of a market that someone has funded
abbrev pub price_of : MarketRow → Option (ℕ × ℕ)
price_of m = elim (m.implied_prob_a) [
  | none ↦ none
  | some p ↦ if ltb 0 (or_else m.total_lp_shares 0) then some (p, m.block_number) else none
]

abbrev pub liquidity_of : MarketRow → Option (ℕ × ℕ)
liquidity_of m = elim (m.total_lp_shares) [ none ↦ none | some n ↦ some (n, m.block_number) ]

module _ (store : Projection) where
  -- `_slotView`
  abbrev pub slot_view : SlotRow → SlotView
  slot_view slot =
      let market = at_row slot.market_address store.market in
      record {
        slot_index = slot.slot_index;
        state = slot.state;
        shape = slot.shape;
        question = slot.question;
        market = slot.market_address;
        stream_url = at_row market (λ m. m.stream_url);
        condition_hash = slot.condition_hash;
        winner_reward_bps =
            first_of (at_row market (λ m. m.winner_reward_bps)) slot.winner_reward_bps;
        opens_at = slot.opens_at;
        published_seq = slot.published_seq;
        closed_seq = slot.closed_seq;
        price = at_row market price_of;
        liquidity = at_row market liquidity_of;
        pending_pressure = at_row slot.market_address store.pressure;
      }

  -- `nowMs - Date.parse(tip.observed_at)`
  abbrev pub source_age : Option Event → ℕ → Option ℤ
  source_age none now_ms = none
  source_age (some tip) now_ms = some (sub_ℕ now_ms tip.observed_at)

  abbrev pub is_source_fresh : Config → Option Event → ℕ → Bool
  is_source_fresh config none now_ms = false
  is_source_fresh config (some tip) now_ms =
      leb now_ms (tip.observed_at + config.freshness_threshold_ms)

  abbrev pub source_health : Config → Option Event → ℕ → SourceHealth
  source_health config none now_ms = unknown_source
  source_health config (some tip) now_ms =
      if is_source_fresh config (some tip) now_ms then fresh_source else stale_source

  abbrev pub health_at : Config → ℕ → ℕ → ℕ → IndexerHealth
  health_at config now_ms head read_at =
      if ltb (read_at + or_else config.chain_head_max_age_ms 60000) now_ms
      then unknown_indexer
      else if store.is_behind head
      then delayed
      else current

  -- `_indexerHealth`
  abbrev pub indexer_health : Config → ℕ → Option ℕ → Option ℕ → IndexerHealth
  indexer_health config now_ms none read_at = unknown_indexer
  indexer_health config now_ms (some head) none = unknown_indexer
  indexer_health config now_ms (some head) (some read_at) = health_at config now_ms head read_at

  -- `_health`
  abbrev pub health_of : Config → ℕ → State → Health
  health_of config now_ms s = record {
    stream = s.stream_health;
    source = source_health config s.event_log_tip now_ms;
    indexer = indexer_health config now_ms s.chain_head s.chain_head_at;
  }

  -- `snapshot`
  unfoldable pub snapshot : Config → ℕ → State → Snapshot
  snapshot config now_ms s =
      let slots = map slot_view store.slots in
      record {
        seq = s.room_seq;
        state = elim (store.room) [ none ↦ draft | some r ↦ r.state ];
        block = store.cursor_block;
        slots = slots;
        focus = s.focus;
        open_count = length (keep (λ (v : SlotView). is_tradable v.state) slots);
        max_open = first_of (at_row store.room (λ r. r.max_open_slots)) config.max_open_slots;
        last_seq = elim (s.event_log_tip) [ none ↦ 0 | some tip ↦ tip.seq ];
        observed_at = elim (s.event_log_tip) [ none ↦ none | some tip ↦ some tip.observed_at ];
        age_ms = source_age s.event_log_tip now_ms;
        is_fresh = is_source_fresh config s.event_log_tip now_ms;
        stream_health = s.stream_health;
        viewers = s.viewers;
        health = health_of config now_ms s;
      }
