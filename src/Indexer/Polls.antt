-- ===== src/Indexer/Polls.antt =====
-- Whatever polls an indexer makes, with whatever chain: its books hold each log once
-- (services/live-room/src/indexer/indexer.mjs, services/live-room/src/app.mjs).
use tradermarket.Base.{ℕ, ◌≡◌, List, [], ◌∷◌, ◌++◌, inl, inr, Bool-cases, Option-cases, All, ltb}
use tradermarket.Indexer.{Names, Indexer}
use tradermarket.Indexer.Events.{Log}
use tradermarket.Indexer.Source.{Chain, new_indexer}
use tradermarket.Indexer.Reorg.{detect_reorg, rewind_to, poll}
use tradermarket.Indexer.Queries.{pending_actions, pending_pressure}
use tradermarket.Indexer.Escrow.{escrowed, pending_pressure-one_sided}
use tradermarket.Indexer.History.{Applied}
use tradermarket.Indexer.Once.{IsInRange}
use tradermarket.Indexer.Passes.{sync_to-Synced, rebuild-Synced, new_indexer-Applied}

-- Polls in a row, each with what the chain answers in it and the head; one that throws leaves what
-- it wrote.
unfoldable pub poll_all : Names → List (Chain × ℕ) → Indexer → Indexer
poll_all names [] ix = ix
poll_all names ((chain, head) ∷ polls) ix = poll_all names polls (poll names chain head ix).0

module _ (names : Names) (Answered : Log → Type 0) where
  poll-Applied :
      (chain : Chain) (head : ℕ) (logs : List Log) (ix : Indexer)
      → IsInRange names Answered chain
      → Applied names Answered logs ix
      → (after : List Log) × Applied names Answered after (poll names chain head ix).0
  unfolding poll rewind_to
  poll-Applied chain head logs ix ranged before = elim (Option-cases (detect_reorg chain ix)) [
    | inr (d, rewritten) ↦
        let again = rebuild-Synced names Answered chain head _ ranged in
        rw (rewritten, poll) (again.more, again.kept)
    | inl kept ↦ elim (Bool-cases (ltb ix.cursor_block head)) [
      | inl ahead ↦
          let on = sync_to-Synced names Answered chain head logs ix ranged before in
          rw (kept, poll) (rw ahead (logs ++ on.more, on.kept))
      | inr done ↦ rw (kept, poll) (rw done (logs, before))
    ]
  ]

  poll_all-Applied_from :
      (polls : List (Chain × ℕ)) (logs : List Log) (ix : Indexer)
      → All (λ (p : Chain × ℕ). IsInRange names Answered p.0) polls
      → Applied names Answered logs ix
      → (after : List Log) × Applied names Answered after (poll_all names polls ix)
  unfolding poll_all
  poll_all-Applied_from [] logs ix ranged before = (logs, before)
  poll_all-Applied_from ((chain, head) ∷ polls) logs ix (ranged, others) before =
      let (after, grown) = poll-Applied chain head logs ix ranged before in
      poll_all-Applied_from polls after (poll names chain head ix).0 others grown

  -- Whatever polls a new indexer makes, also polls that throw midway or find the chain rewritten,
  -- with sources that answer from the block asked for on, there are logs that the sources
  -- answered, no two of one block, index and address, such that the trades and the claims of the
  -- store are those of these logs in their order and each position is the sum of their moves.
  pub poll_all-Applied :
      (polls : List (Chain × ℕ))
      → All (λ (p : Chain × ℕ). IsInRange names Answered p.0) polls
      → (logs : List Log) × Applied names Answered logs (poll_all names polls new_indexer)
  poll_all-Applied polls ranged =
      poll_all-Applied_from polls [] new_indexer ranged (new_indexer-Applied names Answered [] [])

  -- Whatever polls a new indexer makes, with sources that answer from the block asked for on, what
  -- it reports of pending purchases lies on the second outcome alone: nothing on the first, and on
  -- the second all that is escrowed.
  pub pending_pressure-poll_all :
      (polls : List (Chain × ℕ)) (market : ℕ)
      → All (λ (p : Chain × ℕ). IsInRange names Answered p.0) polls
      → let s = (poll_all names polls new_indexer).store in
        ((pending_pressure names market s).buy_a ≡ 0)
        × ((pending_pressure names market s).buy_b ≡ escrowed (pending_actions names market s))
  pending_pressure-poll_all polls market ranged =
      pending_pressure-one_sided names market _ (poll_all-Applied polls ranged).1.ledger.sideless
