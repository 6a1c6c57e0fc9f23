-- ===== src/Domain/EventLog.antt =====
-- services/live-room/src/domain/eventlog.mjs: the hash-chained log and its verification.
-- `digest` stands for `keccak256(toHex(canonicalize(...)))` over the covered fields.
pub mod Chain
pub mod Verifier
pub mod Tamper
use tradermarket.Base.{
  ℕ, suc, ◌+◌, Bool, true, false, Option, none, some, List, [], ◌∷◌, ◌++◌, ltb, ◌==◌, if◌then◌else◌,
  is_nil, last?,
}
use tradermarket.Domain.Event.{Event, Draft, Covered}

-- `GENESIS_HASH`
abbrev pub genesis_hash : ℕ
genesis_hash = 0

-- A point of the chain that the next event links to.
pub record Point : Type 0 where
  pub seq : ℕ
  pub hash : ℕ

abbrev pub genesis : Point
genesis = record { seq = 0; hash = genesis_hash }

abbrev pub point_of : Event → Point
point_of e = record { seq = e.seq; hash = e.hash }

abbrev pub point_or : Option Event → Point
point_or none = genesis
point_or (some e) = point_of e

-- The record `covered` of `eventHash`
abbrev pub covered : Event → Covered
covered e = record {
  room_id = e.room_id;
  seq = e.seq;
  source = e.source;
  source_event_id = e.source_event_id;
  participant = e.participant;
  observed_at = e.observed_at;
  ingested_at = e.ingested_at;
  kind = e.kind;
  facts = e.facts;
  derived = e.derived;
  raw_ref = e.raw_ref;
  raw_hash = e.raw_hash;
  raw_query = e.raw_query;
  corrects = e.corrects;
  prev_hash = e.prev_hash;
}

pub data FailureReason : Type 0 where
  gap : ℕ → FailureReason
  broken_chain hash_mismatch bad_signature : FailureReason

pub record Failure : Type 0 where
  pub seq : ℕ
  pub reason : FailureReason

-- The two knobs of `verifyChain`, and the injected signature check.
pub record Options : Type 0 where
  pub verify_signature : Option (Event → Bool)
  pub from : Option Point
  pub signatures_after_seq : Option ℕ

abbrev pub start_of : Option Point → Point
start_of none = genesis
start_of (some p) = p

abbrev pub fail_if : Bool → ℕ → FailureReason → List Failure
fail_if bad n r = if bad then record { seq = n; reason = r } ∷ [] else []

-- `signaturesAfterSeq === null || event.seq > signaturesAfterSeq`
abbrev pub is_due : Option ℕ → Event → Bool
is_due none e = true
is_due (some after) e = ltb after e.seq

-- Whether the signature is looked at and does not hold.
abbrev pub signature_fails : Options → Event → Bool
signature_fails o e = elim (o.verify_signature) [
  | none ↦ false
  | some verify ↦
      if is_due o.signatures_after_seq e then (if verify e then false else true) else false
]

-- The state that `ChainVerifier` keeps between passes
pub record ChainVerifier : Type 0 where
  pub verify_signature : Option (Event → Bool)
  pub verified_seq : ℕ
  pub verified_hash : ℕ

-- The constructor
abbrev pub new_verifier : Option (Event → Bool) → ChainVerifier
new_verifier check = record {
  verify_signature = check;
  verified_seq = 0;
  verified_hash = genesis_hash;
}

-- What one pass asks of `verifyChain`
abbrev pub pass_options : ChainVerifier → Options
pass_options v = record {
  verify_signature = v.verify_signature;
  from = none;
  signatures_after_seq = if v.verified_seq == 0 then none else some v.verified_seq;
}

-- The watermark after a pass: it advances on a clean one only.
abbrev pub advance : ChainVerifier → Bool → Option Event → ChainVerifier
advance v ok none = v
advance v ok (some tip) =
    if ok then record v { verified_seq = tip.seq; verified_hash = tip.hash } else v

module _ (digest : Covered → ℕ) where
  -- `eventHash`
  abbrev pub event_hash : Event → ℕ
  event_hash e = digest (covered e)

  -- `buildEvent`, before it is hashed
  abbrev pub unhashed : Option Event → Draft → ℕ → Event
  unhashed tip d ingested = record {
    room_id = d.room_id;
    seq = (point_or tip).seq + 1;
    source = d.source;
    source_event_id = d.source_event_id;
    participant = d.participant;
    observed_at = d.observed_at;
    ingested_at = ingested;
    kind = d.kind;
    facts = d.facts;
    derived = d.derived;
    raw_ref = d.raw_ref;
    raw_hash = d.raw_hash;
    raw_query = d.raw_query;
    corrects = d.corrects;
    prev_hash = (point_or tip).hash;
    hash = 0;
    connector_signature = none;
    corrected_by = none;
  }

  -- `buildEvent`
  unfoldable pub build_event : Option Event → Draft → ℕ → Event
  build_event tip d ingested = record (unhashed tip d ingested) {
    hash = event_hash (unhashed tip d ingested);
  }

  -- What one event adds to `failures`, in the order of the four checks
  abbrev pub check_event : Options → Point → Event → List Failure
  check_event o p e =
      fail_if (not_eq e.seq (p.seq + 1)) e.seq (gap (p.seq + 1))
      ++ (fail_if (not_eq e.prev_hash p.hash) e.seq broken_chain
          ++ (fail_if (not_eq e.hash (event_hash e)) e.seq hash_mismatch
              ++ fail_if (signature_fails o e) e.seq bad_signature))
    where
      not_eq : ℕ → ℕ → Bool
      not_eq a b = if a == b then false else true

  -- The loop of `verifyChain`
  unfoldable pub failures_from : Options → Point → List Event → List Failure
  failures_from o p [] = []
  failures_from o p (e ∷ es) = check_event o p e ++ failures_from o (point_of e) es

  -- `verifyChain`: its `failures`; `ok` is that there are none
  unfoldable pub verify_chain : Options → List Event → List Failure
  verify_chain o es = failures_from o (start_of o.from) es

  -- `ChainVerifier.verify`
  unfoldable pub verify : ChainVerifier → List Event → ChainVerifier × List Failure
  verify v es =
      let failures = verify_chain (pass_options v) es in
      (advance v (is_nil failures) (last? es), failures)
