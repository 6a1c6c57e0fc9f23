-- ===== src/Tests/Program.antt =====
-- A coordinator with a retention of two frames, and a resolver that reads one fact more than another.
use tradermarket.Base.{
  not, ◌==◌, All, ℕ, ◌-◌, ◌*◌, ◌≤◌, ◌≡◌, refl, true, false, none, some, List, [], ◌∷◌, ◌++◌, ltb,
  drop, if◌then◌else◌, ok, length,
}
use tradermarket.Base.Int.{pos, ◌+ℤ◌}
use tradermarket.Domain.Decimal.{
  to_scaled, from_scaled, add_decimal, match_unsigned, show_nat, show_digits, compare_decimal,
}
use tradermarket.Domain.Event.{Event, trade_closed}
use tradermarket.Domain.EventLog.{build_event}
use tradermarket.Domain.Conditions.{Condition}
use tradermarket.Domain.Conditions.Metrics.{first_to_realized_pnl, party}
use tradermarket.Coordinator.{
  open_slot, live, SlotRow, MarketRow, Projection, Config, Frame, heartbeat_frame, other_payload,
  State,
}
use tradermarket.Coordinator.View.{snapshot}
use tradermarket.Coordinator.Publishing.{
  new_state, retention_of, resync, frames_after, frames_since, frame_of, with_frame,
}
use tradermarket.Coordinator.Tick.{tick}
use tradermarket.Coordinator.Retained.{IsSound, frames_since-drop}
use tradermarket.Coordinator.Founded.{Ended, IsFounded, tick-Succeeds}
use tradermarket.Coordinator.Operations.{
  Operation, publishes, passes, sees_viewers, sees_tip, begins, ends, operate_all,
}
use tradermarket.Coordinator.Runs.{new_state-IsSound, operate_all-IsSound, length-operate_all}
use tradermarket.Resolver.{
  Closed, Rebuilt, Fact, Reconstruction, Verdict, evaluate_slot, build_evidence,
}
use tradermarket.Resolver.Evidence.{extended, build_evidence-extended}
use tradermarket.Resolver.Compare.{compare_with_log}
use tradermarket.Resolver.Rebuild.{reconstruct_slot, IsBacked, reconstruct_slot-IsBacked}
use tradermarket.Tests.Data.{draft, event, gain}

abbrev config : Config
config = record {
  takes = λ f. not (f.seq == 5);
  freshness_threshold_ms = 5000;
  retention = some 2;
  max_open_slots = none;
  chain_head_max_age_ms = none;
}

abbrev slot : SlotRow
slot = record {
  slot_index = 0;
  state = open_slot;
  shape = 1;
  question = 70;
  market_address = some 3;
  condition_hash = 9;
  winner_reward_bps = none;
  opens_at = 10;
  published_seq = none;
  closed_seq = none;
}

abbrev market : MarketRow
market = record {
  stream_url = none;
  winner_reward_bps = some 100;
  implied_prob_a = some 500000;
  total_lp_shares = some 80;
  block_number = 12;
}

abbrev projection : Projection
projection = record {
  room = some (record { state = live; max_open_slots = some 4 });
  slots = slot ∷ [];
  market = λ m. some market;
  pressure = λ m. none;
  cursor_block = 12;
  is_behind = λ h. false;
}

abbrev start : State
start = new_state 0

-- Two heartbeats, as frames
abbrev beat : ℕ → Frame
beat n = frame_of n heartbeat_frame (other_payload n) none none

abbrev one_frame : State
one_frame = with_frame config (beat 1) start

abbrev three_frames : State
three_frames = with_frame config (beat 3) (with_frame config (beat 2) one_frame)

three_frames-IsSound : IsSound (retention_of config) (beat 1 ∷ beat 2 ∷ beat 3 ∷ []) three_frames
three_frames-IsSound = record {
  counted = refl;
  numbered = (refl, (refl, (refl, tt)));
  kept = refl;
  proven = (refl, (refl, (refl, tt)));
}

frames_since-drop_example : frames_since projection config 1000 (some 2) three_frames ≡ (
    if ltb 2 (length (beat 1 ∷ beat 2 ∷ beat 3 ∷ []) - retention_of config)
    then resync (snapshot projection config 1000 three_frames)
    else frames_after (drop 2 (beat 1 ∷ beat 2 ∷ beat 3 ∷ [])))
frames_since-drop_example =
    frames_since-drop projection config 1000 2 (beat 1 ∷ beat 2 ∷ beat 3 ∷ []) three_frames
      three_frames-IsSound

tick-Succeeds_example :
    (more : List Frame) × (IsSound
        (retention_of config)
        ((beat 1 ∷ beat 2 ∷ beat 3 ∷ []) ++ more)
        (tick projection config 1000 three_frames).0
      × (All IsFounded more × Ended config more (tick projection config 1000 three_frames).1))
tick-Succeeds_example =
    tick-Succeeds projection config 1000 (beat 1 ∷ beat 2 ∷ beat 3 ∷ []) three_frames
      three_frames-IsSound

abbrev tip : Event
tip = event none (draft 22 7 20 trade_closed (gain (pos 2500000) 1))

abbrev work : List Operation
work =
    sees_tip (some tip)
    ∷ passes projection 1000
    ∷ begins true projection 1000 5
    ∷ sees_viewers (some 40)
    ∷ publishes heartbeat_frame (other_payload 1) none none
    ∷ ends 5
    ∷ []

operate_all-IsSound_example :
    (more : List Frame) × IsSound (retention_of config) ([] ++ more) (operate_all config work start)
operate_all-IsSound_example =
    operate_all-IsSound config work [] start (new_state-IsSound (retention_of config) 0)

length-operate_all_example : length (operate_all config work start).frames ≤ retention_of config
length-operate_all_example = length-operate_all config work 0

abbrev seen : State
seen = record start { event_log_tip = some tip }

abbrev headline : Condition
headline = first_to_realized_pnl (from_scaled (pos 4000000))

abbrev fact : ℕ → ℕ → ℕ → Fact
fact id person millions = record {
  id = id;
  participant = person;
  realized_pnl = from_scaled (pos (millions * 1000000));
  tid = id ∷ [];
}

abbrev rebuilt : Reconstruction
rebuilt = record { ordered = fact 1 7 3 ∷ fact 2 8 4 ∷ []; baselines = []; divergence = [] }

abbrev later : List Fact
later = fact 3 7 9 ∷ []

abbrev verdict : Verdict
verdict = record { outcome = party 8; terminal_fill = 2 ∷ []; decided_at = 1 }

decides : evaluate_slot headline headline true rebuilt ≡ ok verdict
unfolding evaluate_slot compare_decimal add_decimal to_scaled from_scaled match_unsigned show_nat
    show_digits ◌+ℤ◌
decides = refl

decides_later : evaluate_slot headline headline true (extended rebuilt later) ≡ ok verdict
unfolding evaluate_slot compare_decimal add_decimal to_scaled from_scaled match_unsigned show_nat
    show_digits ◌+ℤ◌
decides_later = refl

build_evidence-extended_example :
    (verdict ≡ verdict)
    × (build_evidence 3 9 verdict rebuilt ≡ build_evidence 3 9 verdict (extended rebuilt later))
build_evidence-extended_example =
    build_evidence-extended headline headline true rebuilt later 3 9 verdict verdict decides
      decides_later

-- The log that the facts come from
abbrev log : List Event
log =
    event none (draft 1 7 20 trade_closed (gain (pos 3000000) 1))
    ∷ event none (draft 2 8 30 trade_closed (gain (pos 4000000) 2))
    ∷ []

abbrev closed_slot : Closed
closed_slot = record {
  market = 3;
  condition = headline;
  condition_hash = 9;
  headline = headline;
  is_headline = true;
  parties = (7, 8);
}

agrees :
    reconstruct_slot closed_slot rebuilt log
    ≡ Rebuilt.rebuilt 2 (build_evidence 3 9 verdict rebuilt)
unfolding reconstruct_slot compare_with_log evaluate_slot compare_decimal add_decimal to_scaled
    from_scaled match_unsigned show_nat show_digits build_event ◌+ℤ◌
agrees = refl

reconstruct_slot-IsBacked_example :
    IsBacked closed_slot rebuilt log 2 (build_evidence 3 9 verdict rebuilt)
reconstruct_slot-IsBacked_example =
    reconstruct_slot-IsBacked closed_slot rebuilt log 2 (build_evidence 3 9 verdict rebuilt) agrees
