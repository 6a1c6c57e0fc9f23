-- ===== src/Connector.antt =====
-- services/live-room/src/connector/connector.mjs: the source connector. It appends what the
-- provider reports for the first time, and restatements as corrections, and drops repetitions.
pub mod Index
pub mod Log
pub mod Replay
use tradermarket.Base.{
  ℕ, ◌+◌, Bool, true, false, ◌&&◌, Option, none, some, List, [], ◌∷◌, ◌++◌, if◌then◌else◌, length,
  Result, ok, err,
}
use tradermarket.Domain.Event.{
  Event, Draft, Covered, Facts, heartbeat, dedupe_key, draft_key, key_eq, same_content,
}
use tradermarket.Domain.EventLog.{build_event}
use tradermarket.Ports.EventStore.{EventStore, AppendError, visible, tip, append}

-- What the connector is given: the hash, the signer, the archive, the clock (its reading when the
-- log holds so many events), and the texts of a heartbeat (as numbers).
pub record Env : Type 0 where
  pub digest : Covered → ℕ
  pub sign : ℕ → ℕ
  pub archive_ref : ℕ → ℕ → ℕ
  pub clock : ℕ → ℕ
  pub heartbeat_id : ℕ → ℕ
  pub heartbeat_query : ℕ → ℕ
  pub heartbeat_hash : ℕ → ℕ

-- `latest`: by `dedupeKey`, what was last recorded
abbrev pub LatestIndex : Type 0
LatestIndex = List ((ℕ × ℕ) × Event)

abbrev pub lookup_key : ℕ × ℕ → LatestIndex → Option Event
lookup_key k [] = none
lookup_key k ((j, e) ∷ m) = if key_eq j k then some e else lookup_key k m

abbrev pub insert_key : ℕ × ℕ → Event → LatestIndex → LatestIndex
insert_key k e [] = (k, e) ∷ []
insert_key k e ((j, old) ∷ m) = if key_eq j k then (k, e) ∷ m else (j, old) ∷ insert_key k e m

abbrev pub index_from : LatestIndex → List Event → LatestIndex
index_from m [] = m
index_from m (e ∷ es) = index_from (insert_key (dedupe_key e) e m) es

pub record Connector : Type 0 where
  pub room_id : ℕ
  pub source : ℕ
  pub latest : LatestIndex
  pub loaded : Bool

-- The constructor
abbrev pub new_connector : ℕ → ℕ → Connector
new_connector room source = record { room_id = room; source = source; latest = []; loaded = false }

-- `_ensureLoaded`, and `load`
unfoldable pub ensure_loaded : Connector → EventStore → Connector
ensure_loaded c s =
    if c.loaded then c else record c { latest = index_from c.latest (visible s); loaded = true }

-- `raw_query`, which says whether the window is open ended
pub record Query : Type 0 where
  pub open_ended : Bool
  pub text : ℕ

pub data IngestError : Type 0 where
  open_window : IngestError
  refused : AppendError → IngestError

-- Where a batch stands: a throw keeps what was written before it.
pub record Progress : Type 0 where
  pub connector : Connector
  pub store : EventStore
  pub appended : List Event
  pub thrown : Option IngestError

-- The bytes of one batch in the archive
pub record Payload : Type 0 where
  pub raw_ref : ℕ
  pub raw_hash : ℕ
  pub raw_query : ℕ

-- `{ ...draft, source: this.source }`
abbrev pub identified : Connector → Draft → Draft
identified c d = record d { source = c.source }

abbrev pub is_repeat : Option Event → Draft → Bool
is_repeat none d = false
is_repeat (some superseded) d = same_content superseded d

-- `superseded && contentKey(superseded) === contentKey(identified)`
abbrev pub is_known : Connector → Draft → Bool
is_known c d = is_repeat (lookup_key (draft_key (identified c d)) c.latest) (identified c d)

abbrev pub hash_of : Option Event → Option ℕ
hash_of none = none
hash_of (some e) = some e.hash

-- The draft that `buildEvent` is given
abbrev pub completed : Connector → Payload → Option Event → Draft → Draft
completed c p superseded d = record d {
  room_id = c.room_id;
  source = c.source;
  raw_ref = p.raw_ref;
  raw_hash = p.raw_hash;
  raw_query = p.raw_query;
  corrects = hash_of superseded;
}

abbrev pub signed : Env → Event → Event
signed env e = record e { connector_signature = some (env.sign e.hash) }

-- The event that a draft becomes on the tip of the store
abbrev pub event_for : Env → Payload → Connector → EventStore → Draft → Event
event_for env p c s d = signed env (
    build_event env.digest (tip s)
      (completed c p (lookup_key (draft_key (identified c d)) c.latest) d)
      (env.clock (length (visible s))))

abbrev pub written : Progress → ℕ × ℕ → Event → Result AppendError EventStore → Progress
written g k e (ok s) = record g {
  connector = record (g.connector) { latest = insert_key k e g.connector.latest };
  store = s;
  appended = g.appended ++ e ∷ [];
}
written g k e (err x) = record g { thrown = some (refused x) }

-- One round of the loop of `ingestBatch`
unfoldable pub ingest_draft : Env → Payload → Progress → Draft → Progress
ingest_draft env p g d =
    if is_known g.connector d
    then g
    else written g (draft_key (identified g.connector d)) (event_for env p g.connector g.store d)
        (append g.store (event_for env p g.connector g.store d))

unfoldable pub ingest_drafts : Env → Payload → Progress → List Draft → Progress
ingest_drafts env p g [] = g
ingest_drafts env p g (d ∷ ds) =
    let next = ingest_draft env p g d in
    elim (next.thrown) [ none ↦ ingest_drafts env p next ds | some x ↦ next ]

abbrev pub start : Connector → EventStore → Option IngestError → Progress
start c s thrown = record { connector = c; store = s; appended = []; thrown = thrown }

-- `if (!rawQuery || rawQuery.open_ended) throw`
abbrev pub closed_window : Option Query → Option ℕ
closed_window none = none
closed_window (some q) = if q.open_ended then none else some q.text

-- `ingestBatch`: the query, the hash of the raw bytes, and the drafts
unfoldable pub ingest_batch :
    Env → Connector → EventStore → Option Query → ℕ → List Draft → Progress
ingest_batch env c s query raw_hash drafts = elim (closed_window query) [
  | none ↦ start (ensure_loaded c s) s (some open_window)
  | some q ↦
      ingest_drafts env
        (record { raw_ref = env.archive_ref q raw_hash; raw_hash = raw_hash; raw_query = q })
        (start (ensure_loaded c s) s none) drafts
]

abbrev pub heartbeat_draft : Env → ℕ → Draft
heartbeat_draft env observed = record {
  room_id = 0;
  source = 0;
  source_event_id = env.heartbeat_id observed;
  participant = none;
  observed_at = observed;
  kind = heartbeat;
  facts = record { account_value_usd = none; realized_pnl_usd = none; tid = []; other_facts = 0 };
  derived = 0;
  raw_ref = 0;
  raw_hash = 0;
  raw_query = 0;
  corrects = none;
}

-- `heartbeat`
unfoldable pub send_heartbeat : Env → Connector → EventStore → ℕ → Progress
send_heartbeat env c s observed =
    ingest_batch env c s (some (record { open_ended = false; text = env.heartbeat_query observed }))
      (env.heartbeat_hash observed) (heartbeat_draft env observed ∷ [])
