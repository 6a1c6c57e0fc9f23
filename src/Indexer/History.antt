-- ===== src/Indexer/History.antt =====
-- What an indexer of services/live-room/src/indexer/indexer.mjs has applied: a list of logs, each of
-- them once, that its store is the ledger of.
use tradermarket.Base.{
  All-append, ℕ, ◌≤◌, ◌<◌, ◌≡◌, refl, ap, ◌∙◌, true, false, List, [], ◌∷◌, ◌++◌, append-nil,
  append_assoc, inl, inr, arith, Bool-cases, All, ◌⊎◌,
}
use tradermarket.Base.PairDict.{PairDict}
use tradermarket.Indexer.{HoldingRow, Projection, Names, LogId, Indexer}
use tradermarket.Indexer.Events.{Log}
use tradermarket.Indexer.Fresh.{no_position}
use tradermarket.Indexer.Sync.{same_id, has_id, forget_applied_through, id_of}
use tradermarket.Indexer.Books.{IsSideless}
use tradermarket.Indexer.Ledger.{
  position_in, moved, moved-append, all_trades, all_claims, all_moves,
}
use tradermarket.Indexer.Recording.{IsSameLedger, Recorded}

pub all_trades-append : (ls ms : List Log) → all_trades (ls ++ ms) ≡ all_trades ls ++ all_trades ms
unfolding all_trades
all_trades-append [] ms = refl
all_trades-append (l ∷ ls) ms = simp (all_trades-append ls ms, append_assoc)

pub all_claims-append : (ls ms : List Log) → all_claims (ls ++ ms) ≡ all_claims ls ++ all_claims ms
unfolding all_claims
all_claims-append [] ms = refl
all_claims-append (l ∷ ls) ms = simp (all_claims-append ls ms, append_assoc)

pub same_id-eq : (a b c : LogId) → same_id a b ≡ true → same_id b c ≡ same_id a c
same_id-eq a b c h = ground arith

pub has_id-eq : (a b : LogId) (ids : List LogId) → same_id a b ≡ true → has_id a ids ≡ has_id b ids
has_id-eq a b [] h = refl
has_id-eq a b (c ∷ ids) h = ground (arith, has_id-eq a b ids h)

pub has_id-append :
    (a : LogId) (ids more : List LogId) → has_id a ids ≡ true → has_id a (ids ++ more) ≡ true
has_id-append a [] more h = cc
has_id-append a (b ∷ ids) more h = ground (arith, has_id-append a ids more)

pub has_id-append_one : (a : LogId) (ids : List LogId) → has_id a (ids ++ a ∷ []) ≡ true
has_id-append_one a [] = ground arith
has_id-append_one a (b ∷ ids) = ground (arith, has_id-append_one a ids)

-- What a longer or a shorter memory knew before
pub has_id-append_cases :
    (a b : LogId) (ids : List LogId)
    → has_id a (ids ++ b ∷ []) ≡ true
    → (has_id a ids ≡ true) ⊎ (same_id a b ≡ true)
has_id-append_cases a b [] h = inr (ground arith)
has_id-append_cases a b (c ∷ ids) h = ground (arith, has_id-append_cases a b ids)

pub has_id-of_forget :
    (a : LogId) (block : ℕ) (ids : List LogId)
    → has_id a (forget_applied_through block ids) ≡ true
    → has_id a ids ≡ true
unfolding forget_applied_through
has_id-of_forget a block [] h = cc
has_id-of_forget a block (b ∷ ids) h = ground (arith, has_id-of_forget a block ids)

pub has_id-forget :
    (a : LogId) (block : ℕ) (ids : List LogId)
    → block < a.block
    → has_id a ids ≡ true
    → has_id a (forget_applied_through block ids) ≡ true
unfolding forget_applied_through
has_id-forget a block [] later h = cc
has_id-forget a block (b ∷ ids) later h = ground (arith, has_id-forget a block ids later)

module _ (names : Names) where
  pub all_moves-append :
      (ls ms : List Log) → all_moves names (ls ++ ms) ≡ all_moves names ls ++ all_moves names ms
  unfolding all_moves
  all_moves-append [] ms = refl
  all_moves-append (l ∷ ls) ms = simp (all_moves-append ls ms, append_assoc)

  -- The store's trades, claims and holdings are those of a list of logs, and no action has a side.
  pub record IsLedgerOf (logs : List Log) (s : Projection) : Type 0 where
    pub traded : s.trades ≡ all_trades logs
    pub claimed : s.claims ≡ all_claims logs
    pub held :
        (who : ℕ × ℕ) → position_in who s.holdings ≡ moved who (all_moves names logs) no_position
    pub sideless : IsSideless s.actions

  pub IsLedgerOf-same :
      (logs : List Log) {s t : Projection}
      → IsSameLedger s t
      → IsLedgerOf logs s
      → IsLedgerOf logs t
  IsLedgerOf-same logs same before = record {
    traded = same.trades_kept ∙ before.traded;
    claimed = same.claims_kept ∙ before.claimed;
    held = λ who.
        ap (λ (h : PairDict HoldingRow). position_in who h) same.holdings_kept ∙ before.held who;
    sideless = same.sides_kept before.sideless;
  }

  pub IsLedgerOf-append :
      (logs : List Log) (log : Log) (s t : Projection)
      → IsLedgerOf logs s
      → Recorded names log log.event s t
      → IsLedgerOf (logs ++ log ∷ []) t
  unfolding all_trades all_claims all_moves
  IsLedgerOf-append logs log s t before done = record {
    traded = simp (done.traded, before.traded, all_trades-append, append-nil);
    claimed = simp (done.claimed, before.claimed, all_claims-append, append-nil);
    held = λ who. simp (done.held who, before.held who, all_moves-append, append-nil, moved-append);
    sideless = done.sided before.sideless;
  }

  -- Each log once
  abbrev pub Distinct : List Log → Type 0
  Distinct [] = Unit
  Distinct (l ∷ ls) =
      All (λ (m : Log). same_id (id_of names l) (id_of names m) ≡ false) ls × Distinct ls

  pub Distinct-append_one :
      (logs : List Log) (log : Log)
      → Distinct logs
      → All (λ (l : Log). same_id (id_of names l) (id_of names log) ≡ false) logs
      → Distinct (logs ++ log ∷ [])
  Distinct-append_one [] log d new = (tt, tt)
  Distinct-append_one (l ∷ ls) log (apart, d) (n, new) =
      (All-append _ ls (log ∷ []) apart (n, tt), Distinct-append_one ls log d new)

  -- Every log past the cursor is remembered as applied.
  abbrev pub IsRemembered : ℕ → List LogId → List Log → Type 0
  IsRemembered cursor ids logs =
      All (λ (l : Log). cursor < l.block_number → has_id (id_of names l) ids ≡ true) logs

  -- The identities of logs
  abbrev pub ids_of : List Log → List LogId
  ids_of [] = []
  ids_of (l ∷ ls) = id_of names l ∷ ids_of ls

  pub has_id-ids_of-append :
      (a : LogId) (logs more : List Log)
      → has_id a (ids_of logs) ≡ true
      → has_id a (ids_of (logs ++ more)) ≡ true
  has_id-ids_of-append a [] more h = cc
  has_id-ids_of-append a (l ∷ logs) more h = ground (arith, has_id-ids_of-append a logs more)

  pub has_id-ids_of_last :
      (a : LogId) (log : Log) (logs : List Log)
      → same_id a (id_of names log) ≡ true
      → has_id a (ids_of (logs ++ log ∷ [])) ≡ true
  has_id-ids_of_last a log [] h = ground arith
  has_id-ids_of_last a log (l ∷ logs) h = ground (arith, has_id-ids_of_last a log logs)

  pub recalled-append :
      (ids : List LogId) (logs : List Log) (log : Log)
      → ((a : LogId) → has_id a ids ≡ true → has_id a (ids_of logs) ≡ true)
      → (a : LogId) → has_id a (ids ++ id_of names log ∷ []) ≡ true
      → has_id a (ids_of (logs ++ log ∷ [])) ≡ true
  recalled-append ids logs log before a h = elim (has_id-append_cases a (id_of names log) ids h) [
    | inl old ↦ has_id-ids_of-append a logs (log ∷ []) (before a old)
    | inr new ↦ has_id-ids_of_last a log logs new
  ]

  -- The logs that an indexer has applied since it last started over, which are as the log source
  -- answers them
  pub record Applied (Answered : Log → Type 0) (logs : List Log) (ix : Indexer) : Type 0 where
    pub answered : All Answered logs
    pub ledger : IsLedgerOf logs ix.store
    pub once : Distinct logs
    pub remembered : IsRemembered ix.cursor_block ix.applied_logs logs
    pub recalled : (a : LogId) → has_id a ix.applied_logs ≡ true → has_id a (ids_of logs) ≡ true

  pub IsRemembered-append :
      (cursor : ℕ) (ids more : List LogId) (logs : List Log)
      → IsRemembered cursor ids logs
      → IsRemembered cursor (ids ++ more) logs
  IsRemembered-append cursor ids more [] h = tt
  IsRemembered-append cursor ids more (l ∷ ls) (h, hs) = (
    λ later. has_id-append (id_of names l) ids more (h later),
    IsRemembered-append cursor ids more ls hs,
  )

  pub IsRemembered-forget :
      (cursor head : ℕ) (ids : List LogId) (logs : List Log)
      → cursor ≤ head
      → IsRemembered cursor ids logs
      → IsRemembered head (forget_applied_through head ids) logs
  IsRemembered-forget cursor head ids [] le h = tt
  IsRemembered-forget cursor head ids (l ∷ ls) le (h, hs) = (
    λ later. has_id-forget (id_of names l) head ids later (h (omega arith)),
    IsRemembered-forget cursor head ids ls le hs,
  )

  -- A log past the cursor that is not remembered is none of those applied.
  pub is_news :
      (cursor : ℕ) (ids : List LogId) (logs : List Log) (log : Log)
      → cursor < log.block_number
      → has_id (id_of names log) ids ≡ false
      → IsRemembered cursor ids logs
      → All (λ (l : Log). same_id (id_of names l) (id_of names log) ≡ false) logs
  is_news cursor ids [] log later new h = tt
  is_news cursor ids (l ∷ ls) log later new (h, hs) = (
    elim (Bool-cases (same_id (id_of names l) (id_of names log))) [
      | inr apart ↦ apart
      | inl same ↦
          let place : l.block_number ≡ log.block_number = ground arith in
          absurd (cc (h (omega arith), has_id-eq (id_of names l) (id_of names log) ids same))
    ],
    is_news cursor ids ls log later new hs,
  )
