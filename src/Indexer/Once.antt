-- ===== src/Indexer/Once.antt =====
-- A pass of services/live-room/src/indexer/indexer.mjs applies each log once, also where it throws
-- midway and the next pass gets the same logs again.
use tradermarket.Base.{
  All-append, ℕ, zero, suc, ◌+◌, ◌≤◌, ◌<◌, ◌≡◌, refl, sym, subst, false, Option, none, some, List,
  [], ◌∷◌, ◌++◌, append-nil, append_assoc, inl, inr, arith, Bool-cases, Option-cases, All, length,
  length-append, ◌==◌,
}
use tradermarket.Indexer.{Projection, Names, Indexer}
use tradermarket.Indexer.Events.{Log}
use tradermarket.Indexer.Apply.{project, apply, touch, touched_by, note_clear}
use tradermarket.Indexer.Source.{Chain, Outcome}
use tradermarket.Indexer.Sync.{
  has_id, id_of, known_address_count, take_log, apply_logs, after_logs, sweep,
}
use tradermarket.Indexer.Recorded.{project-Recorded}
use tradermarket.Indexer.History.{
  IsLedgerOf-append, Distinct-append_one, IsRemembered-append, is_news, Applied, has_id-append_one,
  recalled-append,
}

module _ (names : Names) (Answered : Log → Type 0) where
  -- What a round of the loop makes of a list of applied logs
  abbrev Taken : List Log → ℕ → Option (Indexer × ℕ) → Type 0
  Taken logs cursor none = Unit
  Taken logs cursor (some (after, n)) =
      (more : List Log) × Applied names Answered (logs ++ more) after
      × (after.cursor_block ≡ cursor)
      × (n ≡ length more)

  Applied-same :
      {logs more : List Log} {ix : Indexer}
      → logs ≡ more
      → Applied names Answered logs ix
      → Applied names Answered more ix
  Applied-same {logs} {more} {ix} e a = subst (λ x. Applied names Answered x ix) (e) a

  -- A log that is applied now
  Applied-append :
      (logs : List Log) (log : Log) (ix : Indexer) (s : Projection)
      → Applied names Answered logs ix
      → ix.cursor_block < log.block_number
      → Answered log
      → has_id (id_of names log) ix.applied_logs ≡ false
      → project names log log.event ix.store ≡ some s
      → Taken logs ix.cursor_block (
          some (
            record ix {
              store = s;
              touched_markets = touch names (touched_by names log log.event) ix.touched_markets;
              pending_clears = note_clear names log log.event ix.pending_clears;
              applied_logs = ix.applied_logs ++ id_of names log ∷ [];
            },
            1,
          ))
  Applied-append logs log ix s before later is_answer new ran = (
    log ∷ [],
    record {
      answered = All-append _ logs (log ∷ []) before.answered (is_answer, tt);
      ledger =
          IsLedgerOf-append names logs log ix.store s before.ledger
            (project-Recorded names log log.event ix.store s ran);
      once =
          Distinct-append_one names logs log before.once
            (is_news names ix.cursor_block ix.applied_logs logs log later new before.remembered);
      remembered =
          All-append _ logs (log ∷ [])
            (IsRemembered-append names ix.cursor_block ix.applied_logs (id_of names log ∷ []) logs
              before.remembered)
            (λ past. has_id-append_one (id_of names log) ix.applied_logs, tt);
      recalled = recalled-append names ix.applied_logs logs log before.recalled;
    },
    refl,
    refl,
  )

  take_log-Taken :
      (logs : List Log) (log : Log) (ix : Indexer)
      → Applied names Answered logs ix
      → ix.cursor_block < log.block_number
      → Answered log
      → Taken logs ix.cursor_block (take_log names log ix)
  unfolding take_log apply
  take_log-Taken logs log ix before later is_answer =
      elim (Bool-cases (has_id (id_of names log) ix.applied_logs)) [
        | inl known ↦ rw known ([], Applied-same (sym (append-nil logs)) before, refl, refl)
        | inr new ↦ elim (Option-cases (project names log log.event ix.store)) [
          | inl thrown ↦ rw (new, thrown) tt
          | inr (s, ran) ↦
              rw (new, ran) (Applied-append logs log ix s before later is_answer new ran)
        ]
      ]

  -- What a loop makes of a list of applied logs, also where it throws
  pub record Grown (logs : List Log) (cursor applied : ℕ) (out : Outcome ℕ) : Type 0 where
    pub more : List Log
    pub kept : Applied names Answered (logs ++ more) out.0
    pub same_cursor : out.0.cursor_block ≡ cursor
    pub counted : (n : ℕ) → out.1 ≡ some n → n ≡ applied + length more

  unmoved :
      (logs : List Log) (ix : Indexer) (applied : ℕ) (got : Option ℕ)
      → Applied names Answered logs ix
      → ((n : ℕ) → got ≡ some n → n ≡ applied)
      → Grown logs ix.cursor_block applied (ix, got)
  unmoved logs ix applied got before same = record {
    more = [];
    kept = Applied-same (sym (append-nil logs)) before;
    same_cursor = refl;
    counted = λ n e. omega (arith, same n e);
  }

  -- Two growths, one after the other
  Grown-trans :
      (logs ms : List Log) (cursor applied n : ℕ) (out : Outcome ℕ)
      → n ≡ applied + length ms
      → Grown (logs ++ ms) cursor n out
      → Grown logs cursor applied out
  Grown-trans logs ms cursor applied n out count g = record {
    more = ms ++ g.more;
    kept = Applied-same (append_assoc logs ms g.more) g.kept;
    same_cursor = g.same_cursor;
    counted = λ k e. omega (arith, g.counted k e, length-append ms g.more);
  }

  pub apply_logs-Grown :
      (logs new : List Log) (ix : Indexer) (applied : ℕ)
      → Applied names Answered logs ix
      → All (λ (l : Log). (ix.cursor_block < l.block_number) × Answered l) new
      → Grown logs ix.cursor_block applied (apply_logs names new ix applied)
  unfolding apply_logs
  apply_logs-Grown logs [] ix applied before later = unmoved logs ix applied _ before (λ n e. cc)
  apply_logs-Grown logs (l ∷ new) ix applied before ((past, is_answer), later) =
      elim (Option-cases (take_log names l ix)) [
        | inl thrown ↦ rw (thrown, apply_logs) (unmoved logs ix applied none before (λ n e. cc))
        | inr ((after, n), taken) ↦
            let (more, grown, same, count) =
              rw taken at (take_log-Taken logs l ix before past is_answer) in
            rw (taken, apply_logs)
              (Grown-trans logs more ix.cursor_block applied (applied + n) _ (omega (arith, count))
                (rw (← same)
                  (apply_logs-Grown (logs ++ more) new after (applied + n) grown (rw same later))))
      ]

  -- The log source answers with logs from the first block asked for on.
  abbrev pub IsInRange : Chain → Type 0
  IsInRange chain =
      (pass : ℕ) (s : Projection) (first last : ℕ) (ls : List Log)
      → chain.get_logs pass s first last ≡ some ls
      → All (λ (l : Log). (first ≤ l.block_number) × Answered l) ls

  later_than :
      (cursor : ℕ) (ls : List Log)
      → All (λ (l : Log). (cursor + 1 ≤ l.block_number) × Answered l) ls
      → All (λ (l : Log). (cursor < l.block_number) × Answered l) ls
  later_than cursor [] h = tt
  later_than cursor (l ∷ ls) ((h, is_answer), hs) =
      ((omega arith, is_answer), later_than cursor ls hs)

  -- A sweep that got its logs, given what the further ones do
  after_logs-Grown :
      (logs : List Log) (cursor applied : ℕ) (seen : Option ℕ)
      (again : Option ℕ → Indexer → ℕ → Outcome ℕ) (out : Outcome ℕ)
      → ((known : Option ℕ) (ms : List Log) (ix : Indexer) (n : ℕ)
          → Applied names Answered ms ix
          → ix.cursor_block ≡ cursor
          → Grown ms cursor n (again known ix n))
      → Grown logs cursor applied out
      → Grown logs cursor applied (after_logs seen again out)
  after_logs-Grown logs cursor applied seen again (ix, none) keeps g = g
  after_logs-Grown logs cursor applied seen again (ix, some n) keeps g =
      elim (Bool-cases (elim seen [ none ↦ false | some k ↦ known_address_count ix.store == k ])) [
        | inl last ↦ rw last g
        | inr more ↦ rw more (
            Grown-trans logs g.more cursor applied n _ (g.counted n refl)
              (keeps _ (logs ++ g.more) ix n g.kept g.same_cursor))
      ]

  pub sweep-Grown :
      (chain : Chain) (cursor last left pass : ℕ) (seen : Option ℕ) (logs : List Log) (ix : Indexer)
      (applied : ℕ)
      → IsInRange chain
      → Applied names Answered logs ix
      → ix.cursor_block ≡ cursor
      → Grown logs cursor applied (sweep names chain (cursor + 1) last left pass seen ix applied)
  unfolding sweep
  sweep-Grown chain cursor last zero pass seen logs ix applied ranged before here =
      subst (λ c. Grown logs c applied (ix, some applied)) here
        (unmoved logs ix applied _ before (λ n e. cc))
  sweep-Grown chain cursor last (suc left) pass seen logs ix applied ranged before here =
      elim (Option-cases (chain.get_logs pass ix.store (cursor + 1) last)) [
        | inl thrown ↦
            rw (thrown, sweep)
              (subst (λ c. Grown logs c applied (ix, none)) here
                (unmoved logs ix applied none before (λ n e. cc)))
        | inr (new, got) ↦
            rw (got, sweep)
              (after_logs-Grown logs cursor applied seen _ _
                (λ known ms after n grown same.
                  sweep-Grown chain cursor last left (pass + 1) known ms after n ranged grown same)
                (subst (λ c. Grown logs c applied (apply_logs names new ix applied)) here
                  (apply_logs-Grown logs new ix applied before (
                    later_than ix.cursor_block new
                      (rw here (ranged pass ix.store (cursor + 1) last new got))))))
      ]
