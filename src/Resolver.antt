-- ===== src/Resolver.antt =====
-- services/live-room/src/resolver/resolver.mjs: what a resolver makes of the facts that it has
-- rebuilt from raw bytes. A fact has the fields of a normalized fill that the code reads.
pub mod Facts
pub mod Compare
pub mod Match
pub mod Rebuild
pub mod Loop
pub mod Evidence
use tradermarket.Base.{
  ℕ, suc, ◌+◌, Bool, true, false, not, Option, none, some, List, [], ◌∷◌, ◌++◌, map, keep, take,
  length, ◌==◌, if◌then◌else◌, or_else, Result, ok, err, ◌>>=◌,
}
use tradermarket.Base.Dict.{Dict, lookup, insert}
use tradermarket.Domain.Decimal.{Text, Sign, below, above, add_decimal, compare_decimal, percent_of}
use tradermarket.Domain.Event.{Event, Kind, trade_closed}
use tradermarket.Domain.Conditions.{
  Condition, Metric, Operator, Outcome, Reason, satisfies, undecided_at_session_end, is_trade,
}
use tradermarket.Domain.Conditions.Metrics.{
  first_to_realized_pnl, participant_metric_threshold, first_to_metric, other_template, party,
  yes_side, no_side, tie, realized_pnl_usd, return_pct, unknown_metric_name, unknown_metric,
  unknown_template, no_baseline, not_a_decimal, or_throw, zero_text,
}

pub record Fact : Type 0 where
  pub id : ℕ
  pub participant : ℕ
  pub realized_pnl : Text
  pub tid : Text

pub data Divergence : Type 0 where
  missing_raw raw_hash_mismatch unknown_account log_missing_fact log_extra_fact : ℕ → Divergence
  fact_mismatch : ℕ → Text → Text → Divergence

pub record Reconstruction : Type 0 where
  pub ordered : List Fact
  pub baselines : Dict Text
  pub divergence : List Divergence

-- `valueOf`
abbrev pub value_of : Dict Text → Dict Text → ℕ → Metric → Result Reason Text
value_of baselines cum p realized_pnl_usd = ok (or_else (lookup p cum) zero_text)
value_of baselines cum p return_pct = elim (lookup p baselines) [
  | none ↦ err (no_baseline p)
  | some b ↦ or_throw (percent_of (or_else (lookup p cum) zero_text) b) not_a_decimal
]
value_of baselines cum p unknown_metric_name = err unknown_metric

abbrev pub is_reached : Sign → Bool
is_reached below = false
is_reached s = true

abbrev pub reaches : Dict Text → Dict Text → ℕ → Text → Result Reason Bool
reaches baselines cum p target = value_of baselines cum p realized_pnl_usd >>= λ v.
    or_throw (compare_decimal v target) not_a_decimal >>= λ s. ok (is_reached s)

-- `headlineDecides`
abbrev pub headline_decides : Condition → Dict Text → Dict Text → Fact → Result Reason Bool
headline_decides (first_to_realized_pnl target) baselines cum f =
    reaches baselines cum f.participant target
headline_decides c baselines cum f = ok false

abbrev pub when_true : Outcome → Bool → Option Outcome
when_true o b = if b then some o else none

abbrev pub meets : Dict Text → Dict Text → Fact → Metric → Operator → Text → Result Reason Bool
meets baselines cum f metric op bound =
    value_of baselines cum f.participant metric >>= λ v. satisfies op v bound

-- `slotDecides`
abbrev pub slot_decides : Condition → Dict Text → Dict Text → Fact → Result Reason (Option Outcome)
slot_decides (first_to_realized_pnl target) baselines cum f =
    reaches baselines cum f.participant target >>= λ b. ok (when_true (party f.participant) b)
slot_decides (participant_metric_threshold p metric op bound) baselines cum f =
    if f.participant == p
    then (meets baselines cum f metric op bound >>= λ b. ok (when_true yes_side b))
    else ok none
slot_decides (first_to_metric metric op bound) baselines cum f =
    meets baselines cum f metric op bound >>= λ b. ok (when_true (party f.participant) b)
slot_decides (other_template t) baselines cum f = err (unknown_template t)

-- An outcome, the fill that decided it, and the fill's index
pub record Verdict : Type 0 where
  pub outcome : Outcome
  pub terminal_fill : Text
  pub decided_at : ℕ

abbrev pub verdict_of : Fact → ℕ → Option Outcome → Option Verdict
verdict_of f i none = none
verdict_of f i (some o) = some (record { outcome = o; terminal_fill = f.tid; decided_at = i })

module _ (condition headline : Condition) (baselines : Dict Text) where
  -- The slot's decision stands once it is made.
  abbrev pub slot_verdict : Option Verdict → Dict Text → Fact → ℕ → Result Reason (Option Verdict)
  slot_verdict (some v) cum f i = ok (some v)
  slot_verdict none cum f i = slot_decides condition baselines cum f >>= λ o. ok (verdict_of f i o)

  -- One round of the loop: the totals, the slot's verdict, and whether the headline is decided
  abbrev pub round :
      Dict Text → Option Verdict → ℕ → Fact → Result Reason (Dict Text × (Option Verdict × Bool))
  round cum slot i f =
      or_throw (add_decimal (or_else (lookup f.participant cum) zero_text) f.realized_pnl)
        not_a_decimal
      >>= λ total.
          let after = insert f.participant total cum in
          headline_decides headline baselines after f >>= λ ends.
          slot_verdict slot after f i >>= λ v. ok (after, (v, ends))

  abbrev pub next :
      ℕ
      → Fact
      → Result Reason (Dict Text × (Option Verdict × Bool))
      → (Dict Text → Option Verdict → Result Reason (Option Verdict × Option Verdict))
      → Result Reason (Option Verdict × Option Verdict)
  next i f (err r) rest = err r
  next i f (ok (cum, (v, true))) rest = ok (v, verdict_of f i (some (party f.participant)))
  next i f (ok (cum, (v, false))) rest = rest cum v

  -- The loop: the slot's verdict, and the headline's
  abbrev pub walk :
      Dict Text → Option Verdict → ℕ → List Fact → Result Reason (Option Verdict × Option Verdict)
  walk cum slot i [] = ok (slot, none)
  walk cum slot i (f ∷ fs) = next i f (round cum slot i f) (λ after v. walk after v (suc i) fs)

pub data Problem : Type 0 where
  thrown : Reason → Problem
  never_met not_reached no_rule : Problem

abbrev pub fallback : Option Outcome → Verdict → Result Problem Verdict
fallback none ended = err no_rule
fallback (some o) ended = ok (record ended { outcome = o })

abbrev pub judged : Condition → Bool → Option Verdict → Option Verdict → Result Problem Verdict
judged c true slot none = err never_met
judged c true slot (some ended) = ok ended
judged c false (some v) ended = ok v
judged c false none none = err not_reached
judged c false none (some ended) = fallback (undecided_at_session_end c) ended

abbrev pub judge_walk :
    Condition → Bool → Result Reason (Option Verdict × Option Verdict) → Result Problem Verdict
judge_walk c is_headline (err r) = err (thrown r)
judge_walk c is_headline (ok (slot, ended)) = judged c is_headline slot ended

-- `evaluateSlot`; `is_headline` is `condition === headlineCondition`. A slot's verdict is never
-- later than the headline's, since the loop ends there.
unfoldable pub evaluate_slot :
    Condition → Condition → Bool → Reconstruction → Result Problem Verdict
evaluate_slot c headline is_headline r =
    judge_walk c is_headline (walk c headline r.baselines [] none 0 r.ordered)

-- The Evidence Bundle, without the evaluator's version
pub record Bundle : Type 0 where
  pub market : ℕ
  pub condition_hash : ℕ
  pub outcome : Outcome
  pub terminal_fill : Text
  pub fact_ids : List ℕ
  pub baselines : Dict Text

-- `buildEvidence`, for a verdict, which has a `decidedAt`
abbrev pub build_evidence : ℕ → ℕ → Verdict → Reconstruction → Bundle
build_evidence market condition_hash v r = record {
  market = market;
  condition_hash = condition_hash;
  outcome = v.outcome;
  terminal_fill = v.terminal_fill;
  fact_ids = map (λ (f : Fact). f.id) (take (v.decided_at + 1) r.ordered);
  baselines = r.baselines;
}

pub data Rebuilt : Type 0 where
  diverged : List Divergence → Rebuilt
  unevaluable_slot : Problem → Rebuilt
  unmappable : Outcome → Rebuilt
  compare_threw : Reason → Rebuilt
  rebuilt : ℕ → Bundle → Rebuilt

-- `OUTCOME_ENUM`, after the two participants. No participant's key is one of that table's names.
abbrev pub outcome_enum : Outcome → ℕ → ℕ → Option ℕ
outcome_enum (party p) a b = if p == a then some 1 else if p == b then some 2 else none
outcome_enum yes_side a b = some 1
outcome_enum no_side a b = some 2
outcome_enum tie a b = some 3

abbrev pub enumerated : Option ℕ → Outcome → Bundle → Rebuilt
enumerated none o b = unmappable o
enumerated (some n) o b = rebuilt n b

-- One slot that has closed; `parties` are `participantAKey` and `participantBKey`.
pub record Closed : Type 0 where
  pub market : ℕ
  pub condition : Condition
  pub condition_hash : ℕ
  pub headline : Condition
  pub is_headline : Bool
  pub parties : ℕ × ℕ

abbrev pub rebuilt_from : Closed → Reconstruction → Result Problem Verdict → Rebuilt
rebuilt_from q r (err p) = unevaluable_slot p
rebuilt_from q r (ok v) =
    enumerated (outcome_enum v.outcome q.parties.0 q.parties.1) v.outcome
      (build_evidence q.market q.condition_hash v r)
