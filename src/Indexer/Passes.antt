-- ===== src/Indexer/Passes.antt =====
-- Whole passes of services/live-room/src/indexer/indexer.mjs, one after the other, whatever the
-- chain answers.
use tradermarket.Base.{
  ℕ, ◌+◌, ◌≤◌, ◌≡◌, refl, ◌∙◌, Bool, true, false, Option, none, some, List, [], ◌∷◌, ◌++◌,
  append-nil, inl, inr, arith, Bool-cases, Option-cases, length, ltb,
}
use tradermarket.Base.PairDict.{PairDict}
use tradermarket.Indexer.{Projection, Names, Indexer, Clear}
use tradermarket.Indexer.Events.{Log}
use tradermarket.Indexer.Source.{MarketState, Chain, Outcome, new_indexer}
use tradermarket.Indexer.Sync.{
  refresh_all, refresh_touched_markets, advance, after_refresh, after_sweep, sync_to, rebuild,
  measure_clears,
}
use tradermarket.Indexer.Books.{books, books-sync_slot_state, books-upsert_market}
use tradermarket.Indexer.Ledger.{all_trades, all_claims, all_moves, moved}
use tradermarket.Indexer.Recording.{books-IsSameLedger}
use tradermarket.Indexer.History.{IsLedgerOf-same, IsRemembered-forget, Applied, has_id-of_forget}
use tradermarket.Indexer.Once.{Grown, IsInRange, sweep-Grown}

module _ (names : Names) where
  books-refresh_all :
      (read : ℕ → ℕ → Option MarketState) (block : ℕ) (markets : List ℕ) (s : Projection)
      → books (refresh_all names read block markets s).0 ≡ books s
  unfolding refresh_all
  books-refresh_all read block [] s = refl
  books-refresh_all read block (market ∷ rest) s = elim (Option-cases (read market block)) [
    | inl thrown ↦ rw (thrown, refresh_all) refl
    | inr (state, got) ↦
        rw (got, refresh_all)
          (books-refresh_all read block rest _
            ∙ books-sync_slot_state names market block _
            ∙ books-upsert_market names market _ s)
  ]

  -- What the end of a pass leaves of the ledger and of the memory of applied logs
  pub record IsLike (ix after : Indexer) : Type 0 where
    pub same_books : books after.store ≡ books ix.store
    pub same_cursor : after.cursor_block ≡ ix.cursor_block
    pub same_logs : after.applied_logs ≡ ix.applied_logs

  pub measure_clears-IsLike : (chain : Chain) (ix : Indexer) → IsLike ix (measure_clears chain ix)
  unfolding measure_clears
  measure_clears-IsLike chain ix = elim (Option-cases (chain.block_timestamp)) [
    | inl e ↦
        rw (e, measure_clears) (record { same_books = refl; same_cursor = refl; same_logs = refl })
    | inr (time, e) ↦
        rw (e, measure_clears) (record { same_books = refl; same_cursor = refl; same_logs = refl })
  ]

  pub refresh-IsLike :
      (chain : Chain) (block : ℕ) (ix : Indexer)
      → IsLike ix (refresh_touched_markets names chain block ix).0
  unfolding refresh_touched_markets
  refresh-IsLike chain block ix = elim (Option-cases (chain.read_market_state)) [
    | inl e ↦
        rw (e, refresh_touched_markets)
          (record { same_books = refl; same_cursor = refl; same_logs = refl })
    | inr (read, e) ↦
        rw (e, refresh_touched_markets)
          (record {
            same_books = books-refresh_all read block ix.touched_markets ix.store;
            same_cursor = refl;
            same_logs = refl;
          })
  ]

module _ (names : Names) (Answered : Log → Type 0) where
  pub Applied-like :
      {logs : List Log} {ix after : Indexer}
      → IsLike names ix after
      → Applied names Answered logs ix
      → Applied names Answered logs after
  Applied-like {logs} {ix} {after} like before = record {
    answered = before.answered;
    ledger = IsLedgerOf-same names logs (books-IsSameLedger like.same_books) before.ledger;
    once = before.once;
    remembered = rw (like.same_cursor, like.same_logs) before.remembered;
    recalled = rw like.same_logs before.recalled;
  }

  pub advance-Applied :
      (chain : Chain) (first head : ℕ) (logs : List Log) (ix : Indexer)
      → ix.cursor_block ≤ head
      → Applied names Answered logs ix
      → Applied names Answered logs (advance chain first head ix)
  unfolding advance
  advance-Applied chain first head logs ix le before = record {
    answered = before.answered;
    ledger =
        IsLedgerOf-same names logs
          (record {
            trades_kept = refl;
            claims_kept = refl;
            holdings_kept = refl;
            sides_kept = λ unsided. unsided;
          })
          before.ledger;
    once = before.once;
    remembered =
        IsRemembered-forget names ix.cursor_block head ix.applied_logs logs le before.remembered;
    recalled = λ a h. before.recalled a (has_id-of_forget a head ix.applied_logs h);
  }

  -- What a pass up to `head` makes of a list of applied logs
  pub record Synced (logs : List Log) (cursor head : ℕ) (out : Outcome ℕ) : Type 0 where
    pub more : List Log
    pub kept : Applied names Answered (logs ++ more) out.0
    pub counted : (n : ℕ) → out.1 ≡ some n → n ≡ length more
    pub reached :
        (n : ℕ) → out.1 ≡ some n → (head ≤ out.0.cursor_block) × (cursor ≤ out.0.cursor_block)
    pub stayed : out.1 ≡ none → out.0.cursor_block ≡ cursor

  after_refresh-Synced :
      (chain : Chain) (first cursor head n : ℕ) (logs more : List Log) (out : Indexer × Bool)
      → cursor ≤ head
      → n ≡ length more
      → Applied names Answered (logs ++ more) out.0
      → out.0.cursor_block ≡ cursor
      → Synced logs cursor head (after_refresh chain first head n out)
  unfolding advance
  after_refresh-Synced chain first cursor head n logs more (ix, true) le count grown here = record {
    more = more;
    kept = advance-Applied chain first head (logs ++ more) ix (omega (arith, here)) grown;
    counted = λ k e. cc;
    reached = λ k e. omega arith;
    stayed = λ e. cc;
  }
  after_refresh-Synced chain first cursor head n logs more (ix, false) le count grown here =
      record {
        more = more;
        kept = grown;
        counted = λ k e. cc;
        reached = λ k e. cc;
        stayed = λ e. here;
      }

  after_sweep-Synced :
      (chain : Chain) (first cursor head : ℕ) (logs : List Log) (out : Outcome ℕ)
      → cursor ≤ head
      → Grown names Answered logs cursor 0 out
      → Synced logs cursor head (after_sweep names chain first head out)
  after_sweep-Synced chain first cursor head logs (ix, none) le g = record {
    more = g.more;
    kept = g.kept;
    counted = λ k e. cc;
    reached = λ k e. cc;
    stayed = λ e. g.same_cursor;
  }
  after_sweep-Synced chain first cursor head logs (ix, some n) le g =
      let quiet = measure_clears-IsLike names chain ix in
      let fresh = refresh-IsLike names chain head (measure_clears chain ix) in
      after_refresh-Synced chain first cursor head n logs g.more _ le
        (omega (arith, g.counted n refl)) (Applied-like fresh (Applied-like quiet g.kept))
        (fresh.same_cursor ∙ quiet.same_cursor ∙ g.same_cursor)

  pub sync_to-Synced :
      (chain : Chain) (head : ℕ) (logs : List Log) (ix : Indexer)
      → IsInRange names Answered chain
      → Applied names Answered logs ix
      → Synced logs ix.cursor_block head (sync_to names chain head ix)
  unfolding sync_to
  sync_to-Synced chain head logs ix ranged before =
      elim (Bool-cases (ltb head (ix.cursor_block + 1))) [
        | inl done ↦
            rw (done, sync_to)
              (record {
                more = [];
                kept = rw append-nil before;
                counted = λ k e. ground arith;
                reached = λ k e. (ground arith, omega arith);
                stayed = λ e. cc;
              })
        | inr ahead ↦
            rw (ahead, sync_to)
              (after_sweep-Synced chain (ix.cursor_block + 1) ix.cursor_block head logs _
                (ground arith)
                (sweep-Grown names Answered chain ix.cursor_block head 8 0 none logs ix 0 ranged
                  before refl))
      ]

  pub new_indexer-Applied :
      (samples : List ℕ) (clears : PairDict Clear)
      → Applied names Answered []
          (record new_indexer { clear_samples = samples; pending_clears = clears })
  unfolding all_trades all_claims all_moves moved
  new_indexer-Applied samples clears = record {
    answered = tt;
    ledger = record { traded = refl; claimed = refl; held = λ who. refl; sideless = tt };
    once = tt;
    remembered = tt;
    recalled = λ a h. cc;
  }

  pub rebuild-Synced :
      (chain : Chain) (head : ℕ) (ix : Indexer)
      → IsInRange names Answered chain
      → Synced [] 0 head (rebuild names chain head ix)
  unfolding rebuild
  rebuild-Synced chain head ix ranged =
      sync_to-Synced chain head [] _ ranged (new_indexer-Applied ix.clear_samples ix.pending_clears)
