-- ===== src/Tests/Data.antt =====
-- A session of two participants, 7 and 8, in room 1, whose facts come from source 5.
use tradermarket.Base.{ℕ, ◌+◌, ◌*◌, Bool, true, false, Option, none, some, List, [], ◌∷◌, ◌==◌}
use tradermarket.Base.Int.{ℤ, pos}
use tradermarket.Domain.Decimal.{from_scaled}
use tradermarket.Domain.Event.{Event, Draft, Covered, Facts, Kind, baseline, trade_closed}
use tradermarket.Domain.EventLog.{Options, build_event}
use tradermarket.Domain.EventLog.Chain.{whole}
use tradermarket.Ports.EventStore.{EventStore}
use tradermarket.Connector.{Env, Connector}

abbrev pub digest_of : Covered → ℕ
digest_of c = (c.prev_hash * 31 + c.seq) * 31 + c.source_event_id + 1

abbrev pub signature_of : ℕ → ℕ
signature_of h = h + 7

abbrev pub has_signature : Option ℕ → ℕ → Bool
has_signature none h = false
has_signature (some s) h = s == signature_of h

abbrev pub checked : Event → Bool
checked e = has_signature e.connector_signature e.hash

abbrev pub env : Env
env = record {
  digest = digest_of;
  sign = signature_of;
  archive_ref = λ q h. q + h;
  clock = λ n. 1000 + n;
  heartbeat_id = λ t. t;
  heartbeat_query = λ t. t;
  heartbeat_hash = λ t. t;
}

abbrev pub every_check : Options
every_check = whole (some checked) none

abbrev pub start_facts : Facts
start_facts = record {
  account_value_usd = some (from_scaled (pos 100000000));
  realized_pnl_usd = none;
  tid = [];
  other_facts = 0;
}

abbrev pub gain : ℤ → ℕ → Facts
gain amount t = record {
  account_value_usd = none;
  realized_pnl_usd = some (from_scaled amount);
  tid = t ∷ [];
  other_facts = 0;
}

abbrev pub draft : ℕ → ℕ → ℕ → Kind → Facts → Draft
draft id person at kind facts = record {
  room_id = 1;
  source = 5;
  source_event_id = id;
  participant = some person;
  observed_at = at;
  kind = kind;
  facts = facts;
  derived = 0;
  raw_ref = 0;
  raw_hash = 0;
  raw_query = 0;
  corrects = none;
}

-- The first trade is restated by the third draft and repeated by the fourth.
abbrev pub drafts : List Draft
drafts =
    draft 21 7 10 baseline start_facts
    ∷ draft 22 7 20 trade_closed (gain (pos 2500000) 1)
    ∷ draft 22 7 20 trade_closed (gain (pos 3500000) 1)
    ∷ draft 22 7 20 trade_closed (gain (pos 3500000) 1)
    ∷ []

abbrev pub distinct_drafts : List Draft
distinct_drafts =
    draft 21 7 10 baseline start_facts ∷ draft 22 7 20 trade_closed (gain (pos 2500000) 1) ∷ []

abbrev pub store : EventStore
store = record { events = []; room = some 1 }

abbrev pub connector : Connector
connector = record { room_id = 1; source = 5; latest = []; loaded = true }

-- An event of the log, as a connector signs it
abbrev pub event : Option Event → Draft → Event
event tip d =
    let e = build_event digest_of tip d 1000 in
    record e { connector_signature = some (signature_of e.hash) }
