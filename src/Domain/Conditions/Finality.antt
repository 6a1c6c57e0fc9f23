-- ===== src/Domain/Conditions/Finality.antt =====
-- A decision is made at the first event that satisfies the condition, and stands
-- (services/live-room/src/domain/conditions.mjs, `scanning` and `evaluateWindow`).
use tradermarket.Base.{
  ℕ, ◌≡◌, ◌≢◌, ◌⊎◌, refl, ap, true, ◌&&◌, Option, none, some, List, [], ◌∷◌, ◌++◌, arith,
  Bool-cases, inl, inr, Result, ok, err, ◌>>=◌,
}
use tradermarket.Domain.Event.{Event}
use tradermarket.Domain.Conditions.{
  Operator, Condition, Decision, Reason, Outcome, metric_value, outcome_of, is_participant,
  Standings, decide, decide_if, is_trade, scanning, scan_step, caught, in_roster, evaluate_window,
}
use tradermarket.Domain.Conditions.Metrics.{
  undecided, decided, first_to_realized_pnl, participant_metric_threshold, first_to_metric,
  other_template, ge, realized_pnl_usd, yes_side,
}
use tradermarket.Domain.Decimal.{Text}

-- What one round can be.
abbrev Round : Type 0
Round = Result Reason (Standings × Option Decision)

Round-cases :
    (r : Round)
    → ((x : Reason) × (r ≡ err x))
      ⊎ ((s : Standings) × (d : Decision) × (r ≡ ok (s, some d)))
      ⊎ ((s : Standings) × (r ≡ ok (s, none)))
Round-cases (err x) = inl (x, refl)
Round-cases (ok (s, some d)) = inr (inl (s, d, refl))
Round-cases (ok (s, none)) = inr (inr (s, refl))

pub scanning_stops :
    (c : Condition) (state : Standings) (xs ys : List Event)
    → scanning c state xs ≢ ok undecided
    → scanning c state (xs ++ ys) ≡ scanning c state xs
unfolding scanning
scanning_stops c state [] ys ne = absurd (ne refl)
scanning_stops c state (e ∷ xs) ys ne = elim (Round-cases (scan_step c state e)) [
  | inl (x, bad) ↦ rw bad
  | inr (inl (s, d, found)) ↦ rw found
  | inr (inr (s, next)) ↦ rw next (scanning_stops c s xs ys (rw next at ne))
]

decide_if-decided :
    (op : Operator) (v : Option Text) (b : Text) (o : Outcome) (n : ℕ) {d : Decision}
    → decide_if op v b o n ≡ ok (some d)
    → d ≡ decided o n
decide_if-decided op none b o n h = cc
decide_if-decided op (some v) b o n h = ground arith

by_value-decided :
    (r : Result Reason (Option Text)) (op : Operator) (b : Text) (o : Outcome) (n : ℕ)
    {d : Decision}
    → (r >>= λ v. decide_if op v b o n) ≡ ok (some d)
    → d ≡ decided o n
by_value-decided (ok v) op b o n h = decide_if-decided op v b o n h
by_value-decided (err x) op b o n h = cc

-- The callback decides only on a trade, and for the event's own sequence number.
decide-decided :
    (c : Condition) (state : Standings) (e : Event) {d : Decision}
    → decide c state e ≡ ok (some d)
    → (is_trade e.kind ≡ true) × (o : Outcome) × (d ≡ decided o e.seq)
unfolding decide
decide-decided (first_to_realized_pnl t) state e h = elim (Bool-cases (is_trade e.kind)) [
  | inl trade ↦ (
    trade,
    outcome_of e.participant,
    by_value-decided (metric_value state e.participant realized_pnl_usd) ge t
        (outcome_of e.participant) e.seq (rw trade at h),
  )
  | inr other ↦ absurd (let wrong = rw other at h in cc)
]
decide-decided (participant_metric_threshold p m op v) state e h =
    elim (Bool-cases (is_trade e.kind && is_participant e.participant p)) [
      | inl trade ↦ (
        ground arith,
        yes_side,
        by_value-decided (metric_value state e.participant m) op v yes_side e.seq (rw trade at h),
      )
      | inr other ↦ absurd (let wrong = rw other at h in cc)
    ]
decide-decided (first_to_metric m op v) state e h = elim (Bool-cases (is_trade e.kind)) [
  | inl trade ↦ (
    trade,
    outcome_of e.participant,
    by_value-decided (metric_value state e.participant m) op v (outcome_of e.participant) e.seq
        (rw trade at h),
  )
  | inr other ↦ absurd (let wrong = rw other at h in cc)
]
decide-decided (other_template t) state e h = absurd (cc)

scan_step-found :
    (c : Condition) (state : Standings) (e : Event) {s : Standings} {d : Decision}
    → scan_step c state e ≡ ok (s, some d)
    → decide c s e ≡ ok (some d)
unfolding scan_step
scan_step-found c state e h = ground arith

caught-ne : (r : Result Reason Decision) → caught r ≢ undecided → r ≢ ok undecided
caught-ne r ne h = ne (ap caught h)

caught-scanning-append :
    (c : Condition) (xs ys : List Event)
    → caught (scanning c [] xs) ≢ undecided
    → caught (scanning c [] (xs ++ ys)) ≡ caught (scanning c [] xs)
caught-scanning-append c xs ys ne =
    ap caught (scanning_stops c [] xs ys (caught-ne (scanning c [] xs) ne))

-- What was decided, or could not be evaluated, on a window stays so whatever follows it.
pub evaluate_window-append :
    (lower : ℕ → ℕ) (c : Condition) (xs ys : List Event) (roster : Option (List ℕ))
    → evaluate_window lower c xs roster ≢ undecided
    → evaluate_window lower c (xs ++ ys) roster ≡ evaluate_window lower c xs roster
unfolding evaluate_window
evaluate_window-append lower (first_to_realized_pnl t) xs ys roster ne =
    caught-scanning-append (first_to_realized_pnl t) xs ys ne
evaluate_window-append lower (participant_metric_threshold p m op v) xs ys roster ne =
    elim (Bool-cases (in_roster lower roster p)) [
      | inl inside ↦
          rw inside
            (caught-scanning-append (participant_metric_threshold p m op v) xs ys (rw inside at ne))
      | inr outside ↦ rw outside
    ]
evaluate_window-append lower (first_to_metric m op v) xs ys roster ne =
    caught-scanning-append (first_to_metric m op v) xs ys ne
evaluate_window-append lower (other_template t) xs ys roster ne = refl

-- Where a scan decides: the events before the deciding one decide nothing, the deciding one is a
-- trade, and the decision carries its sequence number.
pub scanning_first :
    (c : Condition) (state : Standings) (events : List Event) {o : Outcome} {n : ℕ}
    → scanning c state events ≡ ok (decided o n)
    → (before : List Event) × (e : Event) × (after : List Event) × (events ≡ before ++ e ∷ after)
      × (scanning c state before ≡ ok undecided)
      × (is_trade e.kind ≡ true)
      × (e.seq ≡ n)
unfolding scanning
scanning_first c state [] h = cc
scanning_first c state (e ∷ events) {o} {n} h = elim (Round-cases (scan_step c state e)) [
  | inl (x, bad) ↦ absurd (let wrong = rw bad at h in cc)
  | inr (inl (s, d, found)) ↦
      let (trade, o', shape) = decide-decided c s e (scan_step-found c state e found) in
      let here = rw found at h in ([], e, events, refl, refl, trade, ground arith)
  | inr (inr (s, next)) ↦
      let (before, x, after, parts, undecided_before, trade, seq) =
        scanning_first c s events (rw next at h) in
      (
        e ∷ before,
        x,
        after,
        ap (λ (l : List Event). e ∷ l) parts,
        rw next undecided_before,
        trade,
        seq,
      )
]
