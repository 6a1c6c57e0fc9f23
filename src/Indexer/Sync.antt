-- ===== src/Indexer/Sync.antt =====
-- A pass of the indexer over the chain (services/live-room/src/indexer/indexer.mjs, `syncTo` to
-- `refreshTouchedMarkets`). What the chain answers in one pass is a parameter; what was written
-- before a throw stays written.
use tradermarket.Base.{
  ℕ, zero, suc, ◌+◌, ◌-◌, max, Bool, true, false, Option, none, some, List, [], ◌∷◌, ◌++◌, ◌&&◌,
  ◌==◌, ltb, leb, if◌then◌else◌, length, drop, keep, exists,
}
use tradermarket.Base.Dict.{Dict, insert}
use tradermarket.Base.PairDict.{PairDict}
use tradermarket.Indexer.{Projection, MarketRow, Names, Clear, LogId, Indexer}
use tradermarket.Indexer.Source.{
  MarketState, Chain, reorg_window, clear_sample_window, new_indexer, Outcome,
}
use tradermarket.Indexer.Events.{Log}
use tradermarket.Indexer.Store.{upsert_market}
use tradermarket.Indexer.Rooms.{first_of}
use tradermarket.Indexer.States.{sync_slot_state}
use tradermarket.Indexer.Apply.{apply}

abbrev pub same_id : LogId → LogId → Bool
same_id a b = a.block == b.block && (a.index == b.index && a.address == b.address)

abbrev pub has_id : LogId → List LogId → Bool
has_id id ids = exists (same_id id) ids

abbrev pub known_address_count : Projection → ℕ
known_address_count s = length s.rooms + length s.markets

-- `_forgetAppliedThrough`
unfoldable pub forget_applied_through : ℕ → List LogId → List LogId
forget_applied_through block ids = keep (λ (id : LogId). ltb block id.block) ids

abbrev pub sample_of : (ℕ → Option ℕ) → ℕ → ℕ → List ℕ
sample_of time a b = elim (time a) [
  | none ↦ []
  | some since ↦ elim (time b) [ none ↦ [] | some to ↦ (to - since) ∷ [] ]
]

-- The clears that are still to be executed, and the samples of the others
unfoldable pub measured : (ℕ → Option ℕ) → PairDict Clear → PairDict Clear × List ℕ
measured time [] = ([], [])
measured time ((key, c) ∷ rest) =
    let (waiting, samples) = measured time rest in
    elim (c.executed_block) [
      | none ↦ ((key, c) ∷ waiting, samples)
      | some block ↦ (waiting, sample_of time c.submitted_block block ++ samples)
    ]

abbrev pub keep_last {ℓ} : {A : Type ℓ} → ℕ → List A → List A
keep_last n xs = drop (length xs - n) xs

-- `_measureClears`
unfoldable pub measure_clears : Chain → Indexer → Indexer
measure_clears chain ix = elim (chain.block_timestamp) [
  | none ↦ ix
  | some time ↦
      let (waiting, samples) = measured time ix.pending_clears in
      record ix {
        pending_clears = waiting;
        clear_samples = keep_last clear_sample_window (ix.clear_samples ++ samples);
      }
]

unfoldable pub remember_from : (ℕ → Option ℕ) → ℕ → ℕ → Dict ℕ → Dict ℕ
remember_from hash zero block hashes = hashes
remember_from hash (suc n) block hashes =
    remember_from hash n (block + 1)
      (elim (hash block) [ none ↦ hashes | some h ↦ insert block h hashes ])

-- `_rememberHashes`
unfoldable pub remember_hashes : Chain → ℕ → ℕ → Dict ℕ → Dict ℕ
remember_hashes chain first last hashes = elim (chain.block_hash) [
  | none ↦ hashes
  | some hash ↦
      let start = max first (last + 1 - reorg_window) in
      keep (λ (e : ℕ × ℕ). leb (last - reorg_window) e.0)
        (remember_from hash (last + 1 - start) start hashes)
]

-- The end of a sweep: the last one, or one more
abbrev pub after_logs : Option ℕ → (Option ℕ → Indexer → ℕ → Outcome ℕ) → Outcome ℕ → Outcome ℕ
after_logs seen again (ix, none) = (ix, none)
after_logs seen again (ix, some n) =
    let count = known_address_count ix.store in
    if elim seen [ none ↦ false | some k ↦ count == k ]
    then (ix, some n)
    else again (some count) ix n

-- The end of `syncTo`, after the markets are refreshed
unfoldable pub advance : Chain → ℕ → ℕ → Indexer → Indexer
advance chain first head ix = record ix {
  store = record (ix.store) { cursor_block = head };
  cursor_block = head;
  applied_logs = forget_applied_through head ix.applied_logs;
  recent_hashes = remember_hashes chain first head ix.recent_hashes;
}

abbrev pub after_refresh : Chain → ℕ → ℕ → ℕ → Indexer × Bool → Outcome ℕ
after_refresh chain first head n (ix, true) = (advance chain first head ix, some n)
after_refresh chain first head n (ix, false) = (ix, none)

module _ (names : Names) where
  open names use {lower}

  abbrev pub id_of : Log → LogId
  id_of log = record {
    block = log.block_number;
    index = log.log_index;
    address = lower log.address;
  }

  -- A round of the loop over the logs of a sweep
  unfoldable pub take_log : Log → Indexer → Option (Indexer × ℕ)
  take_log log ix =
      if has_id (id_of log) ix.applied_logs then some (ix, 0) else elim (apply names log ix) [
        | none ↦ none
        | some after ↦ some (record after { applied_logs = ix.applied_logs ++ id_of log ∷ [] }, 1)
      ]

  unfoldable pub apply_logs : List Log → Indexer → ℕ → Outcome ℕ
  apply_logs [] ix applied = (ix, some applied)
  apply_logs (log ∷ logs) ix applied = elim (take_log log ix) [
    | none ↦ (ix, none)
    | some (after, n) ↦ apply_logs logs after (applied + n)
  ]

  -- The loop over the sweeps, of which there are `left`; `seen` is none for the -1 before the first
  unfoldable pub sweep : Chain → ℕ → ℕ → ℕ → ℕ → Option ℕ → Indexer → ℕ → Outcome ℕ
  sweep chain first last zero pass seen ix applied = (ix, some applied)
  sweep chain first last (suc left) pass seen ix applied =
      elim (chain.get_logs pass ix.store first last) [
        | none ↦ (ix, none)
        | some logs ↦
            after_logs seen (sweep chain first last left (pass + 1)) (apply_logs logs ix applied)
      ]

  abbrev pub refreshed : MarketState → ℕ → MarketRow → MarketRow
  refreshed state block r = record r {
    participant_a_name = first_of state.participant_a_name r.participant_a_name;
    participant_b_name = first_of state.participant_b_name r.participant_b_name;
    gate_state = some state.gate_state;
    winner_reward_bps = some state.winner_reward_bps;
    reserve_a = some state.reserve_a;
    reserve_b = some state.reserve_b;
    implied_prob_a = some state.spot_price_a;
    total_lp_shares = some state.total_lp_shares;
    winner_reward_pool = some state.winner_reward_pool;
    pending_collateral = some state.pending_collateral;
    collateral_backing = some state.collateral_backing;
    unclaimed_lp_fees = some state.unclaimed_lp_fees;
    current_epoch = some state.current_epoch;
    last_safe_seq = some state.last_safe_sequence;
    final_outcome = some state.final_outcome;
    block_number = some block;
  }

  -- The loop of `refreshTouchedMarkets`, with whether it came to its end
  unfoldable pub refresh_all :
      (ℕ → ℕ → Option MarketState) → ℕ → List ℕ → Projection → Projection × Bool
  refresh_all read block [] s = (s, true)
  refresh_all read block (market ∷ rest) s = elim (read market block) [
    | none ↦ (s, false)
    | some state ↦
        refresh_all read block rest (
          sync_slot_state names market block (upsert_market names market (refreshed state block) s))
  ]

  -- `refreshTouchedMarkets`
  unfoldable pub refresh_touched_markets : Chain → ℕ → Indexer → Indexer × Bool
  refresh_touched_markets chain block ix = elim (chain.read_market_state) [
    | none ↦ (ix, true)
    | some read ↦
        let (s, is_done) = refresh_all read block ix.touched_markets ix.store in
        (
          record ix { store = s; touched_markets = if is_done then [] else ix.touched_markets },
          is_done,
        )
  ]

  abbrev pub after_sweep : Chain → ℕ → ℕ → Outcome ℕ → Outcome ℕ
  after_sweep chain first head (ix, none) = (ix, none)
  after_sweep chain first head (ix, some n) =
      after_refresh chain first head n
        (refresh_touched_markets chain head (measure_clears chain ix))

  unfoldable pub sync_to : Chain → ℕ → Indexer → Outcome ℕ
  sync_to chain head ix =
      let first = ix.cursor_block + 1 in
      if ltb head first
      then (ix, some 0)
      else after_sweep chain first head (sweep chain first head 8 0 none ix 0)

  -- `rebuild`, which keeps the samples and the clears that wait
  unfoldable pub rebuild : Chain → ℕ → Indexer → Outcome ℕ
  rebuild chain head ix =
      sync_to chain head (record new_indexer {
        clear_samples = ix.clear_samples;
        pending_clears = ix.pending_clears;
      })
