-- ===== src/Domain/Conditions/Metrics.antt =====
-- services/live-room/src/domain/conditions.mjs: conditions, decisions, and the metrics that
-- `scanning` accumulates from facts.
use tradermarket.Base.{
  ℕ, Bool, true, false, Option, none, some, [], ◌∷◌, Result, ok, err, ◌>>=◌, or_else,
}
use tradermarket.Base.Dict.{Dict, lookup, insert}
use tradermarket.Domain.Decimal.{Text, Sign, below, above, add_decimal, compare_decimal, percent_of}
use tradermarket.Domain.Event.{Event, Kind, baseline, trade_closed}

pub data Operator : Type 0 where
  ge gt le lt unknown_op : Operator

pub data Metric : Type 0 where
  realized_pnl_usd return_pct unknown_metric_name : Metric

pub data Condition : Type 0 where
  first_to_realized_pnl : Text → Condition
  participant_metric_threshold : ℕ → Metric → Operator → Text → Condition
  first_to_metric : Metric → Operator → Text → Condition
  other_template : ℕ → Condition

pub data Outcome : Type 0 where
  party : ℕ → Outcome
  yes_side no_side tie : Outcome

-- What the code throws, and what it answers where a question cannot be evaluated
pub data Reason : Type 0 where
  not_a_decimal unknown_operator unknown_metric : Reason
  no_baseline unknown_template outside_roster : ℕ → Reason

pub data Decision : Type 0 where
  undecided : Decision
  decided : Outcome → ℕ → Decision
  unevaluable : Reason → Decision

abbrev pub by_operator : Operator → Sign → Result Reason Bool
by_operator ge below = ok false
by_operator ge s = ok true
by_operator gt above = ok true
by_operator gt s = ok false
by_operator le above = ok false
by_operator le s = ok true
by_operator lt below = ok true
by_operator lt s = ok false
by_operator unknown_op s = err unknown_operator

abbrev pub or_throw : {A : Type 0} → Option A → Reason → Result Reason A
or_throw none r = err r
or_throw (some a) r = ok a

-- `satisfies`
unfoldable pub satisfies : Operator → Text → Text → Result Reason Bool
satisfies op left right = or_throw (compare_decimal left right) not_a_decimal >>= by_operator op

-- A participant's entry in the map that `scanning` keeps. `none` is `null`; `some none` is a
-- baseline event that carried no value.
pub record Standing : Type 0 where
  pub baseline : Option (Option Text)
  pub cum_realized_pnl_usd : Text

abbrev pub Standings : Type 0
Standings = Dict Standing

abbrev pub zero_text : Text
zero_text = b'0' ∷ []

abbrev pub new_standing : Standing
new_standing = record { baseline = none; cum_realized_pnl_usd = zero_text }

-- `percentOf` of a value that may be missing
abbrev pub percent : Text → Option Text → Result Reason Text
percent a none = err not_a_decimal
percent a (some b) = or_throw (percent_of a b) not_a_decimal

abbrev pub standing_value : ℕ → Standing → Metric → Result Reason (Option Text)
standing_value p s realized_pnl_usd = ok (some s.cum_realized_pnl_usd)
standing_value p s return_pct = elim (s.baseline) [
  | none ↦ err (no_baseline p)
  | some b ↦ percent s.cum_realized_pnl_usd b >>= λ v. ok (some v)
]
standing_value p s unknown_metric_name = err unknown_metric

abbrev pub entry_value : ℕ → Option Standing → Metric → Result Reason (Option Text)
entry_value p none metric = ok none
entry_value p (some s) metric = standing_value p s metric

-- `metricValue`
unfoldable pub metric_value : Standings → Option ℕ → Metric → Result Reason (Option Text)
metric_value state none metric = ok none
metric_value state (some p) metric = entry_value p (lookup p state) metric

-- `addDecimal` of a value that may be missing
abbrev pub add_to : Text → Option Text → Result Reason Text
add_to total none = err not_a_decimal
add_to total (some x) = or_throw (add_decimal total x) not_a_decimal

abbrev pub updated : Kind → Standing → Event → Result Reason Standing
updated baseline s e = ok (record s { baseline = some e.facts.account_value_usd })
updated trade_closed s e = add_to s.cum_realized_pnl_usd e.facts.realized_pnl_usd >>= λ total.
    ok (record s { cum_realized_pnl_usd = total })
updated k s e = ok s

abbrev pub absorb_for : Option ℕ → Standings → Event → Result Reason Standings
absorb_for none state e = ok state
absorb_for (some p) state e =
    updated e.kind (or_else (lookup p state) new_standing) e >>= λ s. ok (insert p s state)

-- What one event changes in the map, in `scanning`
unfoldable pub absorb : Standings → Event → Result Reason Standings
absorb state e = absorb_for e.participant state e

-- `undecidedAtSessionEnd`
abbrev pub undecided_at_session_end : Condition → Option Outcome
undecided_at_session_end (participant_metric_threshold p m op v) = some no_side
undecided_at_session_end (first_to_metric m op v) = some tie
undecided_at_session_end c = none
