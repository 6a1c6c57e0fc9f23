-- ===== src/Tests/Gating.antt =====
-- A gate over a log that decides its headline, and over one that decides nothing yet.
use tradermarket.Base.{true, ltb, ℕ, suc, ◌+◌, ◌≡◌, refl, false, none, some, List, [], ◌∷◌, All}
use tradermarket.Base.Int.{pos, ◌+ℤ◌}
use tradermarket.Domain.Decimal.{
  Text, Sign, same, to_scaled, from_scaled, add_decimal, match_unsigned, show_nat, show_digits,
  compare_decimal,
}
use tradermarket.Domain.Event.{Event, trade_closed}
use tradermarket.Domain.EventLog.{build_event}
use tradermarket.Domain.Timeline.{place, place_all, sorted, rectify}
use tradermarket.Domain.Conditions.{
  Condition, decide, scan_step, scanning, evaluate_window, evaluate_timeline, evaluate_condition,
  absorb, metric_value, satisfies,
}
use tradermarket.Domain.Conditions.Metrics.{decided, first_to_realized_pnl, party}
use tradermarket.Gate.{Call, close_room, close_remaining, Chain, Setting, Durable, World}
use tradermarket.Gate.Action.{◌>>=◌, ask, need, get_memory, write, ensure_loaded}
use tradermarket.Gate.Clearance.{alone}
use tradermarket.Gate.Pass.{tick}
use tradermarket.Gate.Permits.{Asked, Signing, signed, request_permit, permit_of}
use tradermarket.Gate.Safety.{Justified}
use tradermarket.Gate.Safety.Tick.{tick-Justified}
use tradermarket.Gate.Ending.{close_at, tick-closes}
use tradermarket.Gate.Grounds.{IsFounded, request_permit-IsFounded}
use tradermarket.Gate.Nonces.{
  Happening, asks, passes, restarts, moves, fresh, happen_all, Saved, Descending,
}
use tradermarket.Gate.Nonces.Runs.{issued-Descending}
use tradermarket.Gate.Registry.{Bindings, OpenSlot, PublishedRow}
use tradermarket.Tests.Data.{draft, event, gain}

abbrev first : Event
first = event none (draft 22 7 20 trade_closed (gain (pos 2500000) 1))

abbrev second : Event
second = event (some first) (draft 23 8 30 trade_closed (gain (pos 4000000) 2))

abbrev headline : Condition
headline = first_to_realized_pnl (from_scaled (pos 4000000))

-- A room with the slots 3, the headline, and 4, at the watermark 2, which counts its calls
abbrev chain : Chain ℕ
chain = record {
  room_closed_sequence = λ s. some 0;
  open_slots = λ s. some (3 ∷ 4 ∷ []);
  last_observed_sequence = λ s. some 2;
  is_suspended = some (λ s. some false);
  gate_state_of = none;
  is_epoch_safe = some (λ s m e. some false);
  has_pending_actions = none;
  closed_slots = none;
  refund_window_of = none;
  unprocessed_actions = none;
  answers = λ s key. true;
  send = λ s c. some (suc s);
}

abbrev same_order : Text → Text → Sign
same_order a b = same

abbrev setting_on : List Event → Setting
setting_on events = record {
  events = events;
  tip = some second;
  conditions = (3, headline) ∷ (4, headline) ∷ [];
  locale_compare = same_order;
  lower = λ k. k;
  participants = none;
  headline_market = some 3;
  unevaluable_grace_ms = none;
  freshness_threshold_ms = 5000;
  epoch_duration_s = 60;
  finality_delay_s = 10;
  max_pending_time_s = none;
}

abbrev setting : Setting
setting = setting_on (first ∷ second ∷ [])

-- No trade is logged yet.
abbrev early : Setting
early = setting_on []

abbrev stored : Durable
stored = record { saved_audit = none; saved_nonce = some 5; saved_unevaluable = none }

abbrev world : World ℕ
world = record { chain = 0; memory = fresh; state = some stored; sent = [] }

tick-Justified_example :
    All
      (λ (e : ℕ × Call). Justified chain setting 6000 e.0 e.1)
      (tick chain setting 6000 world).1.sent
tick-Justified_example = tick-Justified chain setting 6000 world tt

wins : alone setting headline ≡ decided (party 8) 2
unfolding evaluate_condition evaluate_timeline evaluate_window scanning scan_step absorb decide
    metric_value satisfies compare_decimal add_decimal to_scaled from_scaled match_unsigned show_nat
    show_digits build_event rectify place_all place sorted ◌+ℤ◌
wins = refl

tick-closes_example :
    ((tick chain setting 6000 world).0 ≡ some tt)
    × ((tick chain setting 6000 world).1.sent
        ≡ (1, close_remaining (3 ∷ 4 ∷ [])) ∷ (0, close_room (close_at 2 2)) ∷ [])
tick-closes_example =
    tick-closes chain setting 6000 world 3 2 2 (party 8) headline (3 ∷ 4 ∷ []) 1 2 (λ key. refl)
      refl refl wins refl refl refl refl refl refl

abbrev asked : Asked
asked = record {
  slot_index = 1;
  template_id = 4;
  params = 10;
  condition_document = headline;
  announce_delay = 60;
  request = some (70, 71);
  restricted = 0;
  now_ms = some 1000;
}

abbrev signing : Signing
signing = record {
  condition_hash = λ c. 9;
  params_hash = λ t p. t + p;
  request_hash = λ r p c s. p + c + s;
  question_matches = none;
  now_s = some 100;
  max_permit_lifetime_s = 300;
  sign = λ p. some (p.nonce + 1000);
}

signs :
    (request_permit chain early signing asked world).0
    ≡ some (signed (permit_of chain early signing asked (70, 71) 100 5) 1005 14)
unfolding request_permit ensure_loaded ask need get_memory write ◌>>=◌ evaluate_condition
    evaluate_timeline evaluate_window scanning rectify place_all sorted build_event
signs = refl

request_permit-IsFounded_example :
    IsFounded chain early signing asked (permit_of chain early signing asked (70, 71) 100 5) 0
request_permit-IsFounded_example =
    request_permit-IsFounded chain early signing asked world
      (permit_of chain early signing asked (70, 71) 100 5) 1005 14 signs

-- A store that rejects the read of the counter once: the gate asks again with the first nonce.
abbrev rejecting : Chain ℕ
rejecting = record chain { answers = λ s key. ltb key 1 }

reissues :
    (request_permit rejecting early signing asked
      (request_permit rejecting early signing asked world).1).0
    ≡ some (signed (permit_of rejecting early signing asked (70, 71) 100 1) 1001 14)
unfolding request_permit ensure_loaded ask need get_memory write ◌>>=◌ evaluate_condition
    evaluate_timeline evaluate_window scanning rectify place_all sorted build_event
reissues = refl

-- A request, a crash, a pass on a chain that has moved, and another request
abbrev story : List (Happening ℕ)
story =
    asks early signing asked
    ∷ restarts
    ∷ moves 7
    ∷ passes early 6000
    ∷ asks early signing asked
    ∷ []

issued-Descending_example :
    (n : ℕ) × (Saved n (happen_all chain story (world, [])).0
      × Descending n (happen_all chain story (world, [])).1)
issued-Descending_example = issued-Descending chain (λ s key. refl) story world stored refl refl

-- Slot 3 has its document, with the hash that the chain holds, and slot 4 has none.
abbrev bindings : Bindings
bindings = record {
  condition_hash_of = some (λ m. some (some 9));
  headline_market = some (some (some 3));
}

abbrev rows : List PublishedRow
rows = (some 3, some headline) ∷ []

abbrev slots : List OpenSlot
slots =
    record { market = 3; condition_hash = none }
    ∷ record { market = 4; condition_hash = some 8 }
    ∷ []
