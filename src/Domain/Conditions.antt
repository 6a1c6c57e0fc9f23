-- ===== src/Domain/Conditions.antt =====
-- services/live-room/src/domain/conditions.mjs: the evaluation of a condition over the log.
-- `lower` stands for `toLowerCase` on participant keys.
pub mod Metrics
pub mod Finality
pub mod Exact
pub mod SessionEnd
pub use Metrics.{Operator, Metric, Condition, Outcome, Reason, Decision, Standing, Standings}
unfoldable pub use Metrics.{satisfies, metric_value, absorb}
pub use Metrics.{undecided_at_session_end}
use Metrics.{
  undecided, decided, unevaluable, first_to_realized_pnl, participant_metric_threshold,
  first_to_metric, other_template, party, yes_side, outside_roster, unknown_template, ge,
  realized_pnl_usd,
}
use tradermarket.Base.{
  ℕ, suc, Bool, true, false, not, ◌&&◌, ◌||◌, Option, none, some, List, [], ◌∷◌, map, leb, ◌==◌,
  if◌then◌else◌, is_some, Result, ok, err, ◌>>=◌, last?, take, keep, find_index, exists,
}
use tradermarket.Domain.Decimal.{Text, Sign}
use tradermarket.Domain.Event.{Event, Kind, trade_closed}
use tradermarket.Domain.Timeline.{rectify}

abbrev pub is_trade : Kind → Bool
is_trade trade_closed = true
is_trade k = false

abbrev pub is_participant : Option ℕ → ℕ → Bool
is_participant none p = false
is_participant (some q) p = q == p

abbrev pub outcome_of : Option ℕ → Outcome
outcome_of none = party 0
outcome_of (some p) = party p

-- `value !== null && satisfies(...)`, and what is decided then
abbrev pub decide_if : Operator → Option Text → Text → Outcome → ℕ → Result Reason (Option Decision)
decide_if op none bound outcome n = ok none
decide_if op (some value) bound outcome n =
    satisfies op value bound >>= λ holds. ok (if holds then some (decided outcome n) else none)

-- The callback that each template hands to `scanning`
unfoldable pub decide : Condition → Standings → Event → Result Reason (Option Decision)
decide (first_to_realized_pnl target) state e =
    if is_trade e.kind
    then (metric_value state e.participant realized_pnl_usd >>= λ value.
        decide_if ge value target (outcome_of e.participant) e.seq)
    else ok none
decide (participant_metric_threshold p metric op bound) state e =
    if is_trade e.kind && is_participant e.participant p
    then (metric_value state e.participant metric >>= λ value.
        decide_if op value bound yes_side e.seq)
    else ok none
decide (first_to_metric metric op bound) state e =
    if is_trade e.kind
    then (metric_value state e.participant metric >>= λ value.
        decide_if op value bound (outcome_of e.participant) e.seq)
    else ok none
decide (other_template t) state e = err (unknown_template t)

-- One round of the loop of `scanning`: the map after the event, and what the callback says of it
unfoldable pub scan_step :
    Condition → Standings → Event → Result Reason (Standings × Option Decision)
scan_step c state e = absorb state e >>= λ next. decide c next e >>= λ found. ok (next, found)

-- `if (decision) return decision`
abbrev pub unless_found :
    Result Reason (Standings × Option Decision)
    → (Standings → Result Reason Decision)
    → Result Reason Decision
unless_found (err r) rest = err r
unless_found (ok (next, some d)) rest = ok d
unless_found (ok (next, none)) rest = rest next

-- `scanning`: the first event at which the callback decides
unfoldable pub scanning : Condition → Standings → List Event → Result Reason Decision
scanning c state [] = ok undecided
scanning c state (e ∷ es) = unless_found (scan_step c state e) (λ next. scanning c next es)

-- `catch (error)`
abbrev pub caught : Result Reason Decision → Decision
caught (ok d) = d
caught (err r) = unevaluable r

module _ (lower : ℕ → ℕ) where
  abbrev pub in_roster : Option (List ℕ) → ℕ → Bool
  in_roster none p = true
  in_roster (some roster) p = exists (λ q. q == lower p) roster

  -- `evaluateWindow`
  unfoldable pub evaluate_window : Condition → List Event → Option (List ℕ) → Decision
  evaluate_window (first_to_realized_pnl target) events roster =
      caught (scanning (first_to_realized_pnl target) [] events)
  evaluate_window (participant_metric_threshold p metric op bound) events roster =
      if in_roster roster p
      then caught (scanning (participant_metric_threshold p metric op bound) [] events)
      else unevaluable (outside_roster p)
  evaluate_window (first_to_metric metric op bound) events roster =
      caught (scanning (first_to_metric metric op bound) [] events)
  evaluate_window (other_template t) events roster = unevaluable (unknown_template t)

-- The third argument of `evaluateCondition`. `is_headline` is `headlineCondition === condition`,
-- which compares the two objects and not what they say.
pub record Bounds : Type 0 where
  pub terminal_seq : Option ℕ
  pub headline : Option Condition
  pub is_headline : Bool
  pub participants : Option (List ℕ)

abbrev pub roster_of : (ℕ → ℕ) → Option (List ℕ) → Option (List ℕ)
roster_of lower none = none
roster_of lower (some []) = none
roster_of lower (some (p ∷ ps)) = some (map lower (p ∷ ps))

abbrev pub known_by : Option ℕ → List Event → List Event
known_by none timeline = timeline
known_by (some n) timeline = keep (λ (e : Event). leb e.seq n) timeline

-- The index of the event that ended the session, where the headline is decided
abbrev pub terminal_index : Decision → List Event → Option ℕ
terminal_index (decided outcome n) known = find_index (λ (e : Event). e.seq == n) known
terminal_index d known = none

abbrev pub window_of : Option ℕ → List Event → List Event
window_of none known = known
window_of (some i) known = take (suc i) known

abbrev pub last_seq : List Event → ℕ
last_seq events = elim (last? events) [ none ↦ 0 | some e ↦ e.seq ]

-- `ended ? window.at(-1).seq : terminalSeq`, where either bound ends the session
abbrev pub end_seq : Option ℕ → Option ℕ → List Event → Option ℕ
end_seq (some i) terminal window = some (last_seq window)
end_seq none terminal window = terminal

abbrev pub fall_back : Option ℕ → Option Outcome → Decision
fall_back none fallback = undecided
fall_back (some n) none = undecided
fall_back (some n) (some outcome) = decided outcome n

abbrev pub at_session_end : Condition → Decision → Option ℕ → Decision
at_session_end c undecided end = fall_back end (undecided_at_session_end c)
at_session_end c (decided o n) end = decided o n
at_session_end c (unevaluable r) end = unevaluable r

module _ (lower : ℕ → ℕ) where
  -- The headline's decision on what is known, unless the condition is the headline
  abbrev pub headline_index : Option Condition → Bool → List Event → Option (List ℕ) → Option ℕ
  headline_index none self known roster = none
  headline_index (some h) self known roster =
      if self then none else terminal_index (evaluate_window lower h known roster) known

  -- `evaluateCondition` on the timeline that is known
  unfoldable pub evaluate_timeline : Condition → Bounds → List Event → Decision
  evaluate_timeline c b known =
      let roster = roster_of lower b.participants in
      let terminal = headline_index b.headline b.is_headline known roster in
      let window = window_of terminal known in
      at_session_end c (evaluate_window lower c window roster)
        (end_seq terminal b.terminal_seq window)

  -- `evaluateCondition`
  unfoldable pub evaluate_condition :
      (Text → Text → Sign) → Condition → Bounds → List Event → Decision
  evaluate_condition locale_compare c b events =
      evaluate_timeline c b (known_by b.terminal_seq (rectify locale_compare events))

-- `outcomeToMarketEnum`, with `none` for the throw. No participant's key is "yes", "no" or "tie".
abbrev pub market_enum : Outcome → ℕ → ℕ → Option ℕ
market_enum (party p) a b = if p == a then some 1 else if p == b then some 2 else none
market_enum yes_side a b = some 1
market_enum Outcome.no_side a b = some 2
market_enum Outcome.tie a b = some 3
