-- ===== src/Publication/Server.antt =====
-- services/live-room/src/gate/permit-server.mjs: the gate's side of the queue. The Gate Authority
-- and its chain are parameters: whether the slot count can be read, and what a question for a
-- permit is answered.
use tradermarket.Base.{ℕ, Option, none, some, List, [], ◌∷◌, take, Result, ok, err}
use tradermarket.Publication.{
  Request, Permit, Row, Queue, Mark, incomplete_request, gate_reason, refused_mark, permitted_mark,
  awaiting_permit, by_status, transition_if,
}

-- What `requestPermit` is asked
pub record Question : Type 0 where
  pub slot_index : ℕ
  pub template_id : ℕ
  pub params : ℕ
  pub condition_document : ℕ
  pub announce_delay : ℕ
  pub request : Request
  pub restricted : List ℕ
  pub now_ms : ℕ

-- What it answers
pub data Verdict : Type 0 where
  refusal : ℕ → Verdict
  grant : (permit : Permit) (signature params_hash : ℕ) → Verdict

pub record Gate (S : Type 0) : Type 0 where
  pub slot_count : S → Result ℕ ℕ
  pub request_permit : S → Question → S × Result ℕ Verdict

-- `{ ...request, templateParamsHash, conditionHash }`
abbrev pub bound : Request → ℕ → Permit → Request
bound q params_hash p = record q {
  template_params_hash = some params_hash;
  condition_hash = some p.condition_hash;
}

-- What is written for an answer; a gate that fails to answer leaves the row.
abbrev pub answered : Request → Result ℕ Verdict → Option Mark
answered q (err e) = none
answered q (ok (refusal why)) = some (refused_mark (gate_reason why))
answered q (ok (grant p signature params_hash)) =
    some (permitted_mark p signature (bound q params_hash p))

module _ {S : Type 0} (gate : Gate S) where
  abbrev pub slot_index_of : S → Option ℕ → Result ℕ ℕ
  slot_index_of s none = gate.slot_count s
  slot_index_of s (some n) = ok n

  abbrev pub ask : S → Row → ℕ → Request → ℕ → Result ℕ ℕ → S × Option Mark
  ask s r now_ms q document (err e) = (s, none)
  ask s r now_ms q document (ok n) =
      let (after, answer) = gate.request_permit s (record {
        slot_index = n;
        template_id = r.candidate.template_id;
        params = r.candidate.params;
        condition_document = document;
        announce_delay = q.announce_delay;
        request = q;
        restricted = r.restricted;
        now_ms = now_ms;
      }) in
      (after, answered q answer)

  abbrev pub serve_complete : S → Row → ℕ → Option Request → Option ℕ → S × Option Mark
  serve_complete s r now_ms none document = (s, some (refused_mark incomplete_request))
  serve_complete s r now_ms (some q) none = (s, some (refused_mark incomplete_request))
  serve_complete s r now_ms (some q) (some document) =
      ask s r now_ms q document (slot_index_of s r.candidate.slot_index)

  -- `serve`: what becomes of the gate, and the transition that is written
  unfoldable pub serve : S → ℕ → Row → S × Option Mark
  serve s now_ms r = serve_complete s r now_ms r.request r.condition_document

  unfoldable pub serve_all : S → ℕ → Queue → List Row → Option (S × Queue)
  serve_all s now_ms q [] = some (s, q)
  serve_all s now_ms q (r ∷ rs) =
      let (after, mark) = serve s now_ms r in
      elim (transition_if q r.id mark) [ none ↦ none | some next ↦ serve_all after now_ms next rs ]

  -- `tick`; `none` is a throw
  unfoldable pub serve_tick : S → ℕ → ℕ → Queue → Option (S × Queue)
  serve_tick s max_per_tick now_ms q =
      serve_all s now_ms q (take max_per_tick (by_status awaiting_permit q))
