-- ===== src/Indexer/Recording.antt =====
-- What it means that a handler of services/live-room/src/indexer/indexer.mjs records its log, and
-- handlers that leave trades, claims and holdings alone.
use tradermarket.Base.{ℕ, ◌≡◌, sym, ap, subst, ◌∙◌, some, [], ◌++◌, append-nil, arith}
use tradermarket.Indexer.{Projection, Names}
use tradermarket.Indexer.Events.{Event, Log}
use tradermarket.Indexer.Store.{upsert_slot, upsert_market}
use tradermarket.Indexer.Rooms.{with_room, publish_slot}
use tradermarket.Indexer.Markets.{on_result_finalized}
use tradermarket.Indexer.Books.{
  Books, books, IsSideless, books-upsert_room, books-upsert_slot, books-maybe_settle_room,
  books-upsert_market, books-with_room,
}
use tradermarket.Indexer.Ledger.{position_in, trades_in, claims_in, moves_in, moved}

pub record IsSameLedger (s t : Projection) : Type 0 where
  pub trades_kept : t.trades ≡ s.trades
  pub claims_kept : t.claims ≡ s.claims
  pub holdings_kept : t.holdings ≡ s.holdings
  pub sides_kept : IsSideless s.actions → IsSideless t.actions

pub books-IsSameLedger : {s t : Projection} → books t ≡ books s → IsSameLedger s t
books-IsSameLedger e = record {
  trades_kept = ap (λ (b : Books). b.trades) e;
  claims_kept = ap (λ (b : Books). b.claims) e;
  holdings_kept = ap (λ (b : Books). b.holdings) e;
  sides_kept = λ h. subst IsSideless (ap (λ (b : Books). b.actions) (sym e)) h;
}

pub record Recorded (names : Names) (log : Log) (e : Event) (s t : Projection) : Type 0 where
  pub traded : t.trades ≡ s.trades ++ trades_in log e
  pub claimed : t.claims ≡ s.claims ++ claims_in log e
  pub held :
      (who : ℕ × ℕ)
      → position_in who t.holdings ≡ moved who (moves_in names log e) (position_in who s.holdings)
  pub sided : IsSideless s.actions → IsSideless t.actions

module _ (names : Names) (log : Log) where
  -- An event of which the ledger says nothing
  pub silent :
      (e : Event) {s t : Projection}
      → trades_in log e ≡ []
      → claims_in log e ≡ []
      → moves_in names log e ≡ []
      → IsSameLedger s t
      → Recorded names log e s t
  unfolding moved
  silent e {s} {t} no_trades no_claims no_moves same = record {
    traded = same.trades_kept ∙ sym (append-nil s.trades) ∙ ap (λ l. s.trades ++ l) (sym no_trades);
    claimed =
        same.claims_kept ∙ sym (append-nil s.claims) ∙ ap (λ l. s.claims ++ l) (sym no_claims);
    held = λ who. rw no_moves (ap (λ h. position_in who h) same.holdings_kept);
    sided = same.sides_kept;
  }

  -- A handler that does not throw, and one that may
  pub written :
      (e : Event) {s r t : Projection}
      → some r ≡ some t
      → Recorded names log e s r
      → Recorded names log e s t
  written e {s} {r} {t} ran done = subst (λ x. Recorded names log e s x) (cc) done

  pub quiet :
      (e : Event) {s r t : Projection}
      → trades_in log e ≡ []
      → claims_in log e ≡ []
      → moves_in names log e ≡ []
      → some r ≡ some t
      → IsSameLedger s r
      → Recorded names log e s t
  quiet e {s} {r} {t} no_trades no_claims no_moves ran same =
      written e ran (silent e no_trades no_claims no_moves same)

  pub careful :
      (e : Event) {s t : Projection} (write : ℕ → Projection → Projection)
      → trades_in log e ≡ []
      → claims_in log e ≡ []
      → moves_in names log e ≡ []
      → with_room names log write s ≡ some t
      → ((id : ℕ) → books (write id s) ≡ books s)
      → Recorded names log e s t
  careful e {s} {t} write no_trades no_claims no_moves ran same =
      silent e no_trades no_claims no_moves
        (books-IsSameLedger (books-with_room names log write s t ran same))

  pub books-publish_slot :
      (market index template condition request nonce seq opens id : ℕ) (s : Projection)
      → books (publish_slot names log market index template condition request nonce seq opens id s)
        ≡ books s
  unfolding publish_slot
  books-publish_slot market index template condition request nonce seq opens id s =
      books-upsert_market names market _ _
      ∙ books-upsert_room id _ _
      ∙ books-upsert_slot id index _ s

  pub books-on_result_finalized :
      (outcome : ℕ) (s : Projection) → books (on_result_finalized names log outcome s) ≡ books s
  unfolding on_result_finalized upsert_slot upsert_market
  books-on_result_finalized outcome s = grind (arith, books-maybe_settle_room)
