-- ===== src/Publication/Publisher.antt =====
-- services/live-room/src/publisher/queue.mjs: the publisher's side of the queue. The catalogue and
-- the chain are parameters. `none` for one of the chain's optional methods is a chain that lacks
-- it, and `none` for an answer is a read that throws.
use tradermarket.Base.{
  ℕ, ◌+◌, ◌-◌, ◌/◌, Bool, false, Option, none, some, List, [], ◌∷◌, ltb, leb, ◌==◌, if◌then◌else◌,
  length, Result, ok, err, or_else,
}
use tradermarket.Publication.{
  Candidate, Request, Permit, Row, Queue, Mark, awaiting_permit_mark, rejected_mark, published_mark,
  failed_mark, reopen_mark, not_approved, delay_below_minimum, no_permit, bad_params, chain_reason,
  expired, expired_once, wrong_slot, queued, awaiting_permit, permitted, by_status, transition,
  transition_if,
}

-- An entry of the catalogue
pub record Rule : Type 0 where
  pub winner_reward_bps : ℕ
  pub build_condition : ℕ → Result ℕ ℕ

pub record Catalog : Type 0 where
  pub rule_of : ℕ → Option Rule
  pub min_announce_delay : ℕ
  pub max_permit_attempts : ℕ
  -- the empty text
  pub empty_text : ℕ

-- An error that a submission throws: whether its name is one of the network's, whether its text
-- reads as a refusal, and its text
pub record SubmitError : Type 0 where
  pub is_network : Bool
  pub reads_refused : Bool
  pub text : ℕ

-- `isChainRefusal`
abbrev pub is_chain_refusal : SubmitError → Bool
is_chain_refusal e = if e.is_network then false else e.reads_refused

pub record Chain (S : Type 0) : Type 0 where
  pub slot_count : Option (S → Option ℕ)
  pub used_nonce : Option (S → ℕ → Option Bool)
  pub market_for_condition_hash : Option (S → ℕ → Option (Option ℕ))
  pub publish_slot : S → Option Request → Permit → Option ℕ → List ℕ → S × Result SubmitError ℕ

module _ (catalog : Catalog) where
  abbrev pub request_of : Candidate → ℕ → Rule → Request
  request_of c delay rule = record {
    template_id = c.template_id;
    template_params_hash = none;
    condition_hash = none;
    announce_delay = delay;
    winner_reward_bps = rule.winner_reward_bps;
    question = c.question;
    stream_url = or_else c.stream_url catalog.empty_text;
    image_url = or_else c.image_url catalog.empty_text;
  }

  abbrev pub with_document : Candidate → ℕ → Rule → Result ℕ ℕ → Mark
  with_document c delay rule (err e) = rejected_mark (bad_params e)
  with_document c delay rule (ok document) =
      awaiting_permit_mark (request_of c delay rule) (or_else c.restricted []) document

  abbrev pub by_rule : Candidate → ℕ → Option Rule → Mark
  by_rule c delay none = rejected_mark not_approved
  by_rule c delay (some rule) =
      if ltb delay catalog.min_announce_delay
      then rejected_mark delay_below_minimum
      else with_document c delay rule (rule.build_condition c.params)

  -- `prepare`: the transition that is written
  unfoldable pub prepare : Row → Mark
  prepare r =
      by_rule r.candidate (or_else r.candidate.announce_delay catalog.min_announce_delay)
        (catalog.rule_of r.candidate.template_id)

  module _ {S : Type 0} (chain : Chain S) where
    -- `usedNonce`, where a missing method and a throw both read as no answer
    abbrev pub nonce_used : Option (S → ℕ → Option Bool) → S → Option Permit → Bool
    nonce_used none s p = false
    nonce_used (some used) s none = false
    nonce_used (some used) s (some p) = or_else (used s p.nonce) false

    abbrev pub named : Option (S → ℕ → Option (Option ℕ)) → S → Option Permit → Option ℕ
    named none s p = none
    named (some name) s none = none
    named (some name) s (some p) = or_else (name s p.condition_hash) none

    -- `_findLanded`
    unfoldable pub find_landed : S → Row → Option ℕ
    find_landed s r =
        if nonce_used chain.used_nonce s r.permit
        then named chain.market_for_condition_hash s r.permit
        else none

    abbrev pub slot_moved : Option (S → Option ℕ) → S → Permit → Option ℕ
    slot_moved none s p = none
    slot_moved (some count) s p = elim (count s) [
      | none ↦ none
      | some n ↦ if p.slot_index == n then none else some n
    ]

    -- What is written after a submission
    abbrev pub after_failure : SubmitError → Option ℕ → Option Mark
    after_failure e (some market) = some (published_mark (some market))
    after_failure e none =
        if is_chain_refusal e then some (failed_mark (chain_reason e.text)) else none

    abbrev pub submitted : Row → S × Result SubmitError ℕ → S × Option Mark
    submitted r (s, ok market) = (s, some (published_mark (some market)))
    submitted r (s, err e) = (s, after_failure e (find_landed s r))

    abbrev pub unless_moved : S → Row → Permit → Option ℕ → S × Option Mark
    unless_moved s r p (some n) = (s, some (reopen_mark (wrong_slot p.slot_index n)))
    unless_moved s r p none =
        submitted r (chain.publish_slot s r.request p r.signature r.restricted)

    abbrev pub on_expiry : Row → Permit → ℕ → Mark
    on_expiry r p now_s =
        if leb catalog.max_permit_attempts (r.attempts + 1)
        then failed_mark (expired (now_s - p.expires_at) (r.attempts + 1))
        else reopen_mark (expired_once (now_s - p.expires_at))

    abbrev pub with_permit : S → Row → ℕ → Option Permit → S × Option Mark
    with_permit s r now_s none = (s, some (reopen_mark no_permit))
    with_permit s r now_s (some p) =
        if leb p.expires_at now_s
        then (s, some (on_expiry r p now_s))
        else unless_moved s r p (slot_moved chain.slot_count s p)

    -- `publish`: what becomes of the chain, and the transition that is written
    unfoldable pub publish : S → ℕ → Row → S × Option Mark
    publish s now_ms r = with_permit s r (now_ms / 1000) r.permit

    abbrev pub reconciled : S → Row → Option Mark
    reconciled s r =
        if nonce_used chain.used_nonce s r.permit
        then some (published_mark (find_landed s r))
        else none

    -- `reconcile`, over the rows that are permitted
    unfoldable pub reconcile_all : S → Queue → List Row → Option Queue
    reconcile_all s q [] = some q
    reconcile_all s q (r ∷ rs) = elim (transition_if q r.id (reconciled s r)) [
      | none ↦ none
      | some next ↦ reconcile_all s next rs
    ]

    unfoldable pub publish_all : S → ℕ → Queue → List Row → Option (S × Queue)
    publish_all s now_ms q [] = some (s, q)
    publish_all s now_ms q (r ∷ rs) =
        let (after, mark) = publish s now_ms r in
        elim (transition_if q r.id mark) [
          | none ↦ none
          | some next ↦ publish_all after now_ms next rs
        ]

    -- One question is prepared where none is in flight.
    unfoldable pub prepare_next : Queue → List Row → Option Queue
    prepare_next q [] = some q
    prepare_next q (r ∷ rs) =
        if length (by_status awaiting_permit q) + length (by_status permitted q) == 0
        then transition q r.id (prepare r)
        else some q

    -- `tick`; `none` is a throw
    unfoldable pub publisher_tick : S → ℕ → Queue → Option (S × Queue)
    publisher_tick s now_ms q = elim (reconcile_all s q (by_status permitted q)) [
      | none ↦ none
      | some q1 ↦ elim (publish_all s now_ms q1 (by_status permitted q1)) [
        | none ↦ none
        | some (s2, q2) ↦ elim (prepare_next q2 (by_status queued q2)) [
          | none ↦ none
          | some q3 ↦ some (s2, q3)
        ]
      ]
    ]
