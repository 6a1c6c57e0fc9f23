-- ===== src/Gate/Pass.antt =====
-- One evaluation pass (services/live-room/src/gate/authority.mjs, `tick`). Each market has its own
-- document, so a slot's condition is the headline's object just when the slot is the headline.
use tradermarket.Base.{
  ℕ, ◌+◌, max, Bool, true, false, not, Option, none, some, List, [], ◌∷◌, ◌++◌, map, ltb, leb, ◌==◌,
  if◌then◌else◌, or_else, exists,
}
use tradermarket.Domain.Event.{Event}
use tradermarket.Domain.Conditions.{Condition, Decision, evaluate_condition}
use tradermarket.Domain.Conditions.Metrics.{decided, undecided, unevaluable}
use tradermarket.Gate.{
  close_room, close_remaining, close_slots, headline_unevaluable, stale_source, room_decided_entry,
  room_given_up_entry, slot_given_up_entry, slots_closed_entry, Chain, Setting,
}
use tradermarket.Gate.Action.{
  M, pure, ◌>>=◌, ◌>>◌, ask, send, log, when, ensure_loaded, mark_unevaluable, clear_unevaluable,
  condition_for, tip_seq, closing_sequence,
}
use tradermarket.Gate.Suspension.{suspend, reopen}
use tradermarket.Gate.Clearance.{alone, clear_completed_epochs, drain_closed_epochs, after_close}

abbrev pub elem : ℕ → List ℕ → Bool
elem m ms = exists (λ k. k == m) ms

-- `open.find((slot) => slot.market === this.config.headlineMarket)`
abbrev pub headline_of : Option ℕ → List ℕ → Option ℕ
headline_of none slots = none
headline_of (some h) slots = if elem h slots then some h else none

abbrev pub is_headline_slot : Option ℕ → ℕ → Bool
is_headline_slot none market = false
is_headline_slot (some h) market = market == h

-- `persistedMs >= graceMs`
abbrev pub is_over : Setting → ℕ → ℕ → Bool
is_over setting now_ms since = leb (since + or_else setting.unevaluable_grace_ms 120000) now_ms

-- `age > this.config.freshnessThresholdMs`, where the age of no tip is infinite
abbrev pub is_stale : Option Event → ℕ → ℕ → Bool
is_stale none threshold now_ms = true
is_stale (some tip) threshold now_ms = ltb (tip.observed_at + threshold) now_ms

-- A micro slot's condition, in a session that the headline ends
abbrev pub under : Setting → Option Condition → Condition → Decision
under setting headline c =
    evaluate_condition setting.lower setting.locale_compare c
      (record {
        terminal_seq = none;
        headline = headline;
        is_headline = false;
        participants = setting.participants;
      })
      setting.events

-- `Math.max(...)` of the sequences in `toClose`
abbrev pub max_seq : List (ℕ × ℕ) → ℕ
max_seq [] = 0
max_seq ((m, n) ∷ es) = max n (max_seq es)

abbrev pub markets_of : List (ℕ × ℕ) → List ℕ
markets_of es = map (λ (e : ℕ × ℕ). e.0) es

module _ {S : Type 0} (chain : Chain S) (setting : Setting) (now_ms : ℕ) where
  abbrev pub close_all : ℕ → List ℕ → M S (Unit {0})
  close_all seq slots = send chain (close_room seq) >> send chain (close_remaining slots)

  abbrev pub give_up_room : List ℕ → M S (Unit {0})
  give_up_room slots = do
    seq ← closing_sequence chain (tip_seq setting.tip)
    log (room_given_up_entry seq)
    close_all seq slots

  -- The headline's condition, `headlineMarket ? conditionFor(headlineMarket) : null`
  abbrev pub headline_condition : Option ℕ → M S (Option Condition)
  headline_condition none = pure none
  headline_condition (some h) = condition_for setting h >>= λ c. pure (some c)

  abbrev pub give_up_slot : ℕ → Bool → M S (List (ℕ × ℕ))
  give_up_slot market false = pure []
  give_up_slot market true = do
    log (slot_given_up_entry market)
    seq ← ask chain.last_observed_sequence
    pure ((market, seq) ∷ [])

  -- A slot's entry of `toClose`, if it has one
  abbrev pub judge : ℕ → Decision → M S (List (ℕ × ℕ))
  judge market (decided o n) = clear_unevaluable market >> pure ((market, n) ∷ [])
  judge market (unevaluable r) = mark_unevaluable market now_ms r >>= λ since.
      give_up_slot market (is_over setting now_ms since)
  judge market undecided = clear_unevaluable market >> pure []

  abbrev pub judge_slot : ℕ → M S (List (ℕ × ℕ))
  judge_slot market = condition_for setting market >>= λ c.
      headline_condition setting.headline_market >>= λ h. judge market (under setting h c)

  -- The loop over the micro slots
  abbrev pub judge_slots : Option ℕ → List ℕ → M S (List (ℕ × ℕ))
  judge_slots headline [] = pure []
  judge_slots headline (market ∷ ms) =
      let rest = judge_slots headline ms in
      if is_headline_slot headline market
      then rest
      else (judge_slot market >>= λ found. rest >>= λ more. pure (found ++ more))

  abbrev pub close_judged : List (ℕ × ℕ) → M S (Unit {0})
  close_judged [] = pure tt
  close_judged (e ∷ es) = do
    seq ← closing_sequence chain (max_seq (e ∷ es))
    log (slots_closed_entry seq (markets_of (e ∷ es)))
    send chain (close_slots seq (markets_of (e ∷ es)))

  -- The rest of a pass, by whether the source is stale
  abbrev pub by_freshness : Bool → M S (Unit {0})
  by_freshness true = suspend chain setting.tip (stale_source setting.tip) >>= λ done. pure tt
  by_freshness false = reopen chain setting.tip >>= λ done.
      clear_completed_epochs chain setting now_ms >>= λ u. drain_closed_epochs chain

  -- A pass from the micro slots on
  unfoldable pub micro_pass : Option ℕ → List ℕ → M S (Unit {0})
  micro_pass headline slots = judge_slots headline slots >>= λ to_close.
      close_judged to_close >>= λ u.
      by_freshness (is_stale setting.tip setting.freshness_threshold_ms now_ms)

  abbrev pub on_headline : ℕ → List ℕ → Decision → M S (Unit {0})
  on_headline h slots (decided o n) = do
    seq ← closing_sequence chain n
    log (room_decided_entry n seq o)
    close_all seq slots
  on_headline h slots (unevaluable r) = mark_unevaluable h now_ms r >>= λ since.
      suspend chain setting.tip (headline_unevaluable r) >>= λ done.
      when (is_over setting now_ms since) (give_up_room slots)
  on_headline h slots undecided = clear_unevaluable h >>= λ u. micro_pass (some h) slots

  abbrev pub open_pass : List ℕ → Option ℕ → M S (Unit {0})
  open_pass slots none = micro_pass none slots
  open_pass slots (some h) = condition_for setting h >>= λ c. on_headline h slots (alone setting c)

  abbrev pub pass_if : Bool → M S (Unit {0})
  pass_if true = after_close chain
  pass_if false =
      ask chain.open_slots >>= λ slots. open_pass slots (headline_of setting.headline_market slots)

  -- `tick`
  unfoldable pub tick : M S (Unit {0})
  tick = ensure_loaded chain >>= λ u.
      ask chain.room_closed_sequence >>= λ closed. pass_if (not (closed == 0))
