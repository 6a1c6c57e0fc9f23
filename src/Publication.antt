-- ===== src/Publication.antt =====
-- services/live-room/src/ports/publication-queue.mjs: the durable queue of questions to publish,
-- which the gate and the publisher share. The two time stamps of a row are not modelled.
pub mod Server
pub mod Publisher
pub mod Rows
pub mod Sending
pub mod Present
use tradermarket.Base.{
  ℕ, suc, ◌+◌, Bool, true, false, ◌&&◌, Option, none, some, List, [], ◌∷◌, ◌++◌, ◌==◌,
  if◌then◌else◌, keep, find,
}

pub data Status : Type 0 where
  queued awaiting_permit permitted published rejected refused failed : Status

abbrev pub same_status : Status → Status → Bool
same_status queued queued = true
same_status awaiting_permit awaiting_permit = true
same_status permitted permitted = true
same_status published published = true
same_status rejected rejected = true
same_status refused refused = true
same_status failed failed = true
same_status _ _ = false

-- A question as it is submitted; its texts are numbers.
pub record Candidate : Type 0 where
  pub slot_index : Option ℕ
  pub template_id : ℕ
  pub params : ℕ
  pub announce_delay : Option ℕ
  pub restricted : Option (List ℕ)
  pub question : ℕ
  pub stream_url : Option ℕ
  pub image_url : Option ℕ

-- What the publisher submits. The gate computes the two hashes.
pub record Request : Type 0 where
  pub template_id : ℕ
  pub template_params_hash : Option ℕ
  pub condition_hash : Option ℕ
  pub announce_delay : ℕ
  pub winner_reward_bps : ℕ
  pub question : ℕ
  pub stream_url : ℕ
  pub image_url : ℕ

pub record Permit : Type 0 where
  pub nonce : ℕ
  pub slot_index : ℕ
  pub expires_at : ℕ
  pub condition_hash : ℕ

-- Why a request was turned down, or its permit dropped
pub data Reason : Type 0 where
  incomplete_request not_approved delay_below_minimum no_permit : Reason
  bad_params gate_reason chain_reason expired_once : ℕ → Reason
  expired wrong_slot : ℕ → ℕ → Reason

pub record Row : Type 0 where
  pub id : ℕ
  pub room_id : ℕ
  pub status : Status
  pub candidate : Candidate
  pub request : Option Request
  pub restricted : List ℕ
  pub condition_document : Option ℕ
  pub permit : Option Permit
  pub signature : Option ℕ
  pub market : Option ℕ
  pub reason : Option Reason
  pub attempts : ℕ

pub record Queue : Type 0 where
  pub room_id : ℕ
  pub next_id : ℕ
  pub rows : List Row

-- The methods that write a transition, with their arguments
pub data Mark : Type 0 where
  awaiting_permit_mark : Request → List ℕ → ℕ → Mark
  rejected_mark : Reason → Mark
  permitted_mark : Permit → ℕ → Request → Mark
  refused_mark : Reason → Mark
  published_mark : Option ℕ → Mark
  failed_mark : Reason → Mark
  reopen_mark : Reason → Mark

-- The row that a transition writes: what the method does not name is carried forward.
unfoldable pub marked : Mark → Row → Row
marked (awaiting_permit_mark q restricted document) r = record r {
  status = awaiting_permit;
  request = some q;
  restricted = restricted;
  condition_document = some document;
  permit = none;
  signature = none;
  reason = none;
}
marked (rejected_mark why) r = record r { status = rejected; reason = some why }
marked (permitted_mark p signature q) r = record r {
  status = permitted;
  permit = some p;
  signature = some signature;
  request = some q;
  reason = none;
}
marked (refused_mark why) r = record r { status = refused; reason = some why }
marked (published_mark market) r = record r { status = published; market = market; reason = none }
marked (failed_mark why) r = record r { status = failed; reason = some why }
marked (reopen_mark why) r = record r {
  status = awaiting_permit;
  permit = none;
  signature = none;
  reason = some why;
  attempts = r.attempts + 1;
}

abbrev pub new_row : Queue → Candidate → Row
new_row q c = record {
  id = q.next_id;
  room_id = q.room_id;
  status = queued;
  candidate = c;
  request = none;
  restricted = [];
  condition_document = none;
  permit = none;
  signature = none;
  market = none;
  reason = none;
  attempts = 0;
}

-- `submit`; the database numbers the rows
unfoldable pub submit : Queue → Candidate → Queue
submit q c = record q { next_id = q.next_id + 1; rows = q.rows ++ new_row q c ∷ [] }

-- `get`
abbrev pub get : ℕ → List Row → Option Row
get id rows = find (λ (r : Row). r.id == id) rows

-- `byStatus`
abbrev pub by_status : Status → Queue → List Row
by_status s q = keep (λ (r : Row). r.room_id == q.room_id && same_status r.status s) q.rows

-- `update publication_request set ... where id = ?`
abbrev pub update : ℕ → Row → List Row → List Row
update id row [] = []
update id row (r ∷ rs) = let rest = update id row rs in if r.id == id then row ∷ rest else r ∷ rest

abbrev pub rewritten : Queue → ℕ → Mark → Option Row → Option Queue
rewritten q id m none = none
rewritten q id m (some current) = some (record q { rows = update id (marked m current) q.rows })

-- `_transition`: `none` is the throw for a request that is not there
unfoldable pub transition : Queue → ℕ → Mark → Option Queue
transition q id m = rewritten q id m (get id q.rows)

-- A transition, or none where the row is left as it is
unfoldable pub transition_if : Queue → ℕ → Option Mark → Option Queue
transition_if q id none = some q
transition_if q id (some m) = transition q id m
