-- ===== src/Indexer/Complete.antt =====
-- A pass of services/live-room/src/indexer/indexer.mjs that does not throw leaves out no log of
-- its last sweep.
use tradermarket.Base.{
  ℕ, zero, suc, ◌+◌, ◌≡◌, refl, ap, subst, true, Option, none, some, List, [], ◌∷◌, ◌++◌, ◌⊎◌, inl,
  inr, arith, Bool-cases, Option-cases, All, length, ◌==◌,
}
use tradermarket.Indexer.{Projection, Names, LogId, Indexer}
use tradermarket.Indexer.Events.{Log}
use tradermarket.Indexer.Apply.{project, apply}
use tradermarket.Indexer.Source.{Chain, Outcome}
use tradermarket.Indexer.Sync.{
  has_id, id_of, known_address_count, take_log, apply_logs, after_logs, sweep,
}
use tradermarket.Indexer.History.{has_id-append, has_id-append_one, ids_of, Applied}
use tradermarket.Indexer.Once.{IsInRange, sweep-Grown}

module _ (names : Names) where
  -- Every log of a list is among some identities.
  abbrev pub Covers : List LogId → List Log → Type 0
  Covers ids ls = All (λ (l : Log). has_id (id_of names l) ids ≡ true) ls

  -- What is remembered once stays remembered.
  abbrev IsMore : List LogId → List LogId → Type 0
  IsMore ids more = (a : LogId) → has_id a ids ≡ true → has_id a more ≡ true

  abbrev TakenIn : LogId → List LogId → Option (Indexer × ℕ) → Type 0
  TakenIn id ids none = Unit
  TakenIn id ids (some (after, n)) =
      (has_id id after.applied_logs ≡ true) × IsMore ids after.applied_logs

  take_log-TakenIn :
      (log : Log) (ix : Indexer) → TakenIn (id_of names log) ix.applied_logs (take_log names log ix)
  unfolding take_log apply
  take_log-TakenIn log ix = elim (Bool-cases (has_id (id_of names log) ix.applied_logs)) [
    | inl known ↦ rw (known, take_log) (known, λ a h. h)
    | inr new ↦ elim (Option-cases (project names log log.event ix.store)) [
      | inl thrown ↦ rw (new, thrown) tt
      | inr (s, ran) ↦
          rw (new, ran)
            (
              has_id-append_one (id_of names log) ix.applied_logs,
              λ a h. has_id-append a ix.applied_logs (id_of names log ∷ []) h,
            )
    ]
  ]

  -- Where the loop over the logs comes to its end, they are all remembered.
  abbrev AppliedIn : List LogId → List Log → Outcome ℕ → Type 0
  AppliedIn ids ls (after, none) = Unit
  AppliedIn ids ls (after, some n) = Covers after.applied_logs ls × IsMore ids after.applied_logs

  AppliedIn-cons :
      (ids more : List LogId) (l : Log) (ls : List Log) (out : Outcome ℕ)
      → has_id (id_of names l) more ≡ true
      → IsMore ids more
      → AppliedIn more ls out
      → AppliedIn ids (l ∷ ls) out
  AppliedIn-cons ids more l ls (after, none) here m h = tt
  AppliedIn-cons ids more l ls (after, some n) here m (covered, further) =
      ((further (id_of names l) here, covered), λ a known. further a (m a known))

  apply_logs-AppliedIn :
      (ls : List Log) (ix : Indexer) (applied : ℕ)
      → AppliedIn ix.applied_logs ls (apply_logs names ls ix applied)
  unfolding apply_logs
  apply_logs-AppliedIn [] ix applied = (tt, λ a h. h)
  apply_logs-AppliedIn (l ∷ ls) ix applied = elim (Option-cases (take_log names l ix)) [
    | inl thrown ↦ rw (thrown, apply_logs) tt
    | inr ((after, n), taken) ↦
        let (here, m) = rw taken at (take_log-TakenIn l ix) in
        rw (taken, apply_logs)
          (AppliedIn-cons ix.applied_logs after.applied_logs l ls
            (apply_logs names ls after (applied + n)) here m
            (apply_logs-AppliedIn ls after (applied + n)))
  ]

  -- A sweep whose logs are all remembered, and after which no new contract is known, or the
  -- eighth one
  pub record LastSweep (chain : Chain) (first last : ℕ) (ix : Indexer) : Type 0 where
    pub pass : ℕ
    pub asked : Projection
    pub answer : List Log
    pub got : chain.get_logs pass asked first last ≡ some answer
    pub covered : Covers ix.applied_logs answer
    pub settled : (known_address_count asked ≡ known_address_count ix.store) ⊎ (pass ≡ 7)

  abbrev Swept : Chain → ℕ → ℕ → Outcome ℕ → Type 0
  Swept chain first last (ix, none) = Unit
  Swept chain first last (ix, some n) = LastSweep chain first last ix

  abbrev Counts : Option ℕ → Projection → Type 0
  Counts none s = Unit
  Counts (some k) s = k ≡ known_address_count s

  after_logs-Swept :
      (chain : Chain) (first last pass : ℕ) (seen : Option ℕ) (asked : Projection)
      (answer : List Log) (ids : List LogId) (again : Option ℕ → Indexer → ℕ → Outcome ℕ)
      (out : Outcome ℕ)
      → chain.get_logs pass asked first last ≡ some answer
      → Counts seen asked
      → AppliedIn ids answer out
      → ((n : ℕ)
          → out.1 ≡ some n
          → Covers out.0.applied_logs answer
          → Swept chain first last (again (some (known_address_count out.0.store)) out.0 n))
      → Swept chain first last (after_logs seen again out)
  after_logs-Swept chain first last pass seen asked answer ids again (ix, none) got k h on = tt
  after_logs-Swept chain first last pass none asked answer ids again (ix, some n) got k h on =
      on n refl h.0
  after_logs-Swept chain first last pass (some c) asked answer ids again (ix, some n) got k h on =
      elim (Bool-cases (known_address_count ix.store == c)) [
        | inl same ↦ rw same (record {
          pass = pass;
          asked = asked;
          answer = answer;
          got = got;
          covered = h.0;
          settled = inl (ground arith);
        })
        | inr more ↦ rw more (on n refl h.0)
      ]

  sweep-Swept :
      (chain : Chain) (first last left pass : ℕ) (seen : Option ℕ) (ix : Indexer) (applied : ℕ)
      → pass + suc left ≡ 8
      → Counts seen ix.store
      → Swept chain first last (sweep names chain first last (suc left) pass seen ix applied)
  unfolding sweep
  sweep-Swept chain first last zero pass seen ix applied round counts =
      elim (Option-cases (chain.get_logs pass ix.store first last)) [
        | inl thrown ↦ rw (thrown, sweep) tt
        | inr (answer, got) ↦
            rw (got, sweep)
              (after_logs-Swept chain first last pass seen ix.store answer ix.applied_logs
                (sweep names chain first last zero (pass + 1)) (apply_logs names answer ix applied)
                got counts (apply_logs-AppliedIn answer ix applied)
                (λ n e covered. record {
                  pass = pass;
                  asked = ix.store;
                  answer = answer;
                  got = got;
                  covered = covered;
                  settled = inr (omega arith);
                }))
      ]
  sweep-Swept chain first last (suc left) pass seen ix applied round counts =
      elim (Option-cases (chain.get_logs pass ix.store first last)) [
        | inl thrown ↦ rw (thrown, sweep) tt
        | inr (answer, got) ↦
            rw (got, sweep)
              (after_logs-Swept chain first last pass seen ix.store answer ix.applied_logs
                (sweep names chain first last (suc left) (pass + 1))
                (apply_logs names answer ix applied) got counts
                (apply_logs-AppliedIn answer ix applied)
                (λ n e covered.
                  sweep-Swept chain first last left (pass + 1)
                    (some (known_address_count (apply_logs names answer ix applied).0.store))
                    (apply_logs names answer ix applied).0 n (omega arith) refl))
      ]

  Covers-recalled :
      (Answered : Log → Type 0) (logs ls : List Log) (ix : Indexer)
      → Applied names Answered logs ix
      → Covers ix.applied_logs ls
      → Covers (ids_of names logs) ls
  Covers-recalled Answered logs [] ix before h = tt
  Covers-recalled Answered logs (l ∷ ls) ix before (h, hs) =
      (before.recalled (id_of names l) h, Covers-recalled Answered logs ls ix before hs)

  Swept-of :
      (chain : Chain) (first last n : ℕ) (after : Indexer) (out : Outcome ℕ)
      → out ≡ (after, some n)
      → Swept chain first last out
      → LastSweep chain first last after
  Swept-of chain first last n after (ix, none) e h = cc
  Swept-of chain first last n after (ix, some k) e h =
      subst (λ x. LastSweep chain first last x) (ap (λ (o : Outcome ℕ). o.0) e) h

  -- Where the sweeps of a pass end without a throw, from a state whose store holds some logs, the
  -- store then holds more of them, each once, the returned count is the number of those added, and
  -- one of the sweeps had no log that is not among them: either a sweep in which no contract
  -- became known that was unknown when it asked, or the eighth.
  pub sweep-LeavesOutNone :
      (Answered : Log → Type 0) (chain : Chain) (head n : ℕ) (logs : List Log) (ix after : Indexer)
      → IsInRange names Answered chain
      → Applied names Answered logs ix
      → sweep names chain (ix.cursor_block + 1) head 8 0 none ix 0 ≡ (after, some n)
      → (more : List Log) × (s : LastSweep chain (ix.cursor_block + 1) head after) × Applied names
          Answered
          (logs ++ more)
          after
        × (n ≡ length more)
        × Covers (ids_of names (logs ++ more)) s.answer
  sweep-LeavesOutNone Answered chain head n logs ix after ranged before ran =
      let g = rw ran at (
        sweep-Grown names Answered chain ix.cursor_block head 8 0 none logs ix 0 ranged before
          refl) in
      let s =
        Swept-of chain (ix.cursor_block + 1) head n after _ ran
          (sweep-Swept chain (ix.cursor_block + 1) head 7 0 none ix 0 refl tt) in
      (
        g.more,
        s,
        g.kept,
        omega (arith, g.counted n refl),
        Covers-recalled Answered (logs ++ g.more) s.answer after g.kept s.covered,
      )
