-- ===== src/Tests/Rules.antt =====
-- Decimals, the timeline, and the evaluation of conditions.
use mathlib.Core.List.{Perm}
use tradermarket.Base.{ℕ, ◌≡◌, ◌≢◌, refl, if◌then◌else◌, false, none, some, List, [], ◌∷◌, ◌++◌, ok}
use tradermarket.Base.Int.{ℤ, pos, negsuc, ◌+ℤ◌}
use tradermarket.Domain.Decimal.{
  Text, Sign, same, to_scaled, from_scaled, add_decimal, match_unsigned, show_nat, show_digits,
  compare_decimal,
}
use tradermarket.Domain.Decimal.RoundTrip.{to_scaled-from_scaled}
use tradermarket.Domain.Event.{Event, trade_closed}
use tradermarket.Domain.EventLog.{build_event}
use tradermarket.Domain.Timeline.{rectify, place_all, nothing_placed}
use tradermarket.Domain.Timeline.Order.{InOrder, rectify-InOrder}
use tradermarket.Domain.Conditions.{
  Condition, Bounds, decide, scan_step, scanning, evaluate_window, evaluate_timeline,
  is_participant, absorb, metric_value, satisfies, undecided_at_session_end,
}
use tradermarket.Domain.Conditions.Metrics.{
  decided, first_to_realized_pnl, participant_metric_threshold, party, ge, realized_pnl_usd,
}
use tradermarket.Domain.Conditions.Exact.{HasAmounts, race, evaluate_window-race}
use tradermarket.Domain.Conditions.SessionEnd.{bounded_by, evaluate_timeline_final}
use tradermarket.Tests.Data.{draft, event, gain}

-- "1.50" reads as 1500000 at the scale, and is printed "1.5"
reads : to_scaled (b'1' ∷ b'.' ∷ b'5' ∷ b'0' ∷ []) ≡ some (pos 1500000)
unfolding to_scaled match_unsigned
reads = refl

prints : from_scaled (negsuc 1499999) ≡ b'-' ∷ b'1' ∷ b'.' ∷ b'5' ∷ []
unfolding from_scaled show_nat show_digits
prints = refl

to_scaled-from_scaled_example : to_scaled (from_scaled (negsuc 1499999)) ≡ some (negsuc 1499999)
to_scaled-from_scaled_example = to_scaled-from_scaled (negsuc 1499999)

-- Two trades, and a restatement of the first
abbrev first : Event
first = event none (draft 22 7 20 trade_closed (gain (pos 2500000) 1))

abbrev second : Event
second = event (some first) (draft 23 8 30 trade_closed (gain (pos 4000000) 2))

abbrev correction : Event
correction =
    event (some second)
      (record (draft 22 7 20 trade_closed (gain (pos 9000000) 1)) { corrects = some first.hash })

abbrev trades : List Event
trades = first ∷ second ∷ []

abbrev no_order : Text → Text → Sign
no_order a b = same

abbrev same_key : ℕ → ℕ
same_key k = k

rectify-InOrder_example :
    InOrder (rectify no_order (second ∷ first ∷ []))
    × Perm
        (rectify no_order (second ∷ first ∷ []))
        (place_all nothing_placed (second ∷ first ∷ [])).timeline
rectify-InOrder_example = rectify-InOrder no_order (second ∷ first ∷ [])

-- The headline: the first to have realized 4
abbrev headline : Condition
headline = first_to_realized_pnl (from_scaled (pos 4000000))

abbrev amount : Event → ℤ
amount e = if is_participant e.participant 7 then pos 2500000 else pos 4000000

trades-HasAmounts : HasAmounts amount trades
unfolding build_event
trades-HasAmounts = (λ h. refl, (λ h. refl, tt))

evaluate_window-race_example :
    evaluate_window same_key headline trades none ≡ race amount (pos 4000000) [] trades
evaluate_window-race_example =
    evaluate_window-race amount same_key (pos 4000000) trades none trades-HasAmounts

scans : scanning headline [] trades ≡ ok (decided (party 8) 2)
unfolding scanning scan_step absorb decide metric_value satisfies compare_decimal add_decimal
    to_scaled from_scaled match_unsigned show_nat show_digits build_event ◌+ℤ◌
scans = refl

wins : evaluate_window same_key headline trades none ≡ decided (party 8) 2
unfolding evaluate_window scanning scan_step absorb decide metric_value satisfies compare_decimal
    add_decimal to_scaled from_scaled match_unsigned show_nat show_digits build_event ◌+ℤ◌
wins = refl

-- Whether participant 7 realizes 100
abbrev threshold : Condition
threshold = participant_metric_threshold 7 realized_pnl_usd ge (from_scaled (pos 100000000))

evaluate_timeline_final_example :
    evaluate_timeline same_key threshold (bounded_by headline none none) (trades ++ correction ∷ [])
    ≡ evaluate_timeline same_key threshold (bounded_by headline none none) trades
evaluate_timeline_final_example =
    evaluate_timeline_final same_key threshold headline none none trades (correction ∷ []) wins

abbrev closed_at : Bounds
closed_at = record {
  terminal_seq = some 2;
  headline = none;
  is_headline = false;
  participants = none;
}

has_rule : undecided_at_session_end threshold ≢ none
has_rule h = cc
