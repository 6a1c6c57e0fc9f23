-- ===== src/Gate/Permits.antt =====
-- Publication Permits (services/live-room/src/gate/authority.mjs, `requestPermit`). The hashes, the
-- signer, the question check of the catalogue and the clock are parameters.
use tradermarket.Base.{ℕ, suc, ◌+◌, Bool, true, false, Option, none, some, ◌==◌, not}
use tradermarket.Domain.Conditions.{Condition, Decision}
use tradermarket.Domain.Conditions.Metrics.{decided, undecided, unevaluable}
use tradermarket.Gate.{
  Refusal, room_closed, room_suspended, source_stale, question_mismatch, condition_not_open,
  permit_refused_entry, permit_signed_entry, Chain, Setting, Durable, Memory,
}
use tradermarket.Gate.Action.{
  M, pure, ◌>>=◌, ◌>>◌, need, ask, get_memory, write, log, ensure_loaded, tip_seq,
}
use tradermarket.Gate.Suspension.{is_suspended_on_chain}
use tradermarket.Gate.Clearance.{alone}
use tradermarket.Gate.Pass.{is_stale}

-- The options of `requestPermit`. `request` is the rest of the slot request, a number with its
-- question.
pub record Asked : Type 0 where
  pub slot_index : ℕ
  pub template_id : ℕ
  pub params : ℕ
  pub condition_document : Condition
  pub announce_delay : ℕ
  pub request : Option (ℕ × ℕ)
  pub restricted : ℕ
  pub now_ms : Option ℕ

pub record Permit : Type 0 where
  pub slot_index : ℕ
  pub request_hash : ℕ
  pub condition_hash : ℕ
  pub undecided_through_sequence : ℕ
  pub announce_delay : ℕ
  pub issued_at : ℕ
  pub expires_at : ℕ
  pub nonce : ℕ

-- What signing takes from outside: `question_matches` is `none` without a catalogue, and gets the
-- template, its parameters and the question; `sign` is `none` where it throws.
pub record Signing : Type 0 where
  pub condition_hash : Condition → ℕ
  pub params_hash : ℕ → ℕ → ℕ
  pub request_hash : ℕ × ℕ → ℕ → ℕ → ℕ → ℕ
  pub question_matches : Option (ℕ → ℕ → Option ℕ → Bool)
  pub now_s : Option ℕ
  pub max_permit_lifetime_s : ℕ
  pub sign : Permit → Option ℕ

-- With a permit, its signature and the hash of the template's parameters
pub data Answer : Type 0 where
  refused : Refusal → Answer
  signed : Permit → ℕ → ℕ → Answer

abbrev pub is_matched : Option (ℕ → ℕ → Option ℕ → Bool) → Asked → Bool
is_matched none q = true
is_matched (some f) q =
    f q.template_id q.params (elim (q.request) [ none ↦ none | some r ↦ some r.1 ])

abbrev pub is_stale_for : Setting → Option ℕ → Bool
is_stale_for setting none = false
is_stale_for setting (some now_ms) = is_stale setting.tip setting.freshness_threshold_ms now_ms

module _ {S : Type 0} (chain : Chain S) (setting : Setting) (signing : Signing) (q : Asked) where
  abbrev pub refuse : Refusal → M S Answer
  refuse r = log (permit_refused_entry q.slot_index r) >> pure (refused r)

  abbrev pub permit_of : ℕ × ℕ → ℕ → ℕ → Permit
  permit_of request now_s nonce = record {
    slot_index = q.slot_index;
    request_hash =
        signing.request_hash request (signing.params_hash q.template_id q.params)
          (signing.condition_hash q.condition_document) q.restricted;
    condition_hash = signing.condition_hash q.condition_document;
    undecided_through_sequence = tip_seq setting.tip;
    announce_delay = q.announce_delay;
    issued_at = now_s;
    expires_at = now_s + signing.max_permit_lifetime_s;
    nonce = nonce;
  }

  -- `this.nextNonce++`, saved
  abbrev pub reserve : M S ℕ
  reserve = do
    m ← get_memory
    write (λ (n : Memory). record n { next_nonce = suc m.next_nonce })
        (λ (d : Durable). record d { saved_nonce = some (suc m.next_nonce) })
    pure m.next_nonce

  -- From the complete request on
  abbrev pub issue : M S Answer
  issue = need q.request >>= λ request. need signing.now_s >>= λ now_s. reserve >>= λ nonce.
      need (signing.sign (permit_of request now_s nonce)) >>= λ signature.
      log (permit_signed_entry q.slot_index nonce)
      >> pure (
          signed (permit_of request now_s nonce) signature
            (signing.params_hash q.template_id q.params))

  abbrev pub issue_if : Bool → M S Answer
  issue_if false = refuse question_mismatch
  issue_if true = issue

  abbrev pub issue_on : Decision → M S Answer
  issue_on (decided o n) = refuse (condition_not_open (decided o n))
  issue_on (unevaluable r) = refuse (condition_not_open (unevaluable r))
  issue_on undecided = issue_if (is_matched signing.question_matches q)

  abbrev pub answer_fresh : Bool → M S Answer
  answer_fresh true = refuse source_stale
  answer_fresh false = issue_on (alone setting q.condition_document)

  abbrev pub answer_running : Bool → M S Answer
  answer_running true = refuse room_suspended
  answer_running false = answer_fresh (is_stale_for setting q.now_ms)

  abbrev pub answer_open : Bool → M S Answer
  answer_open true = refuse room_closed
  answer_open false = is_suspended_on_chain chain >>= λ suspended. answer_running suspended

  -- `requestPermit`
  unfoldable pub request_permit : M S Answer
  request_permit = ensure_loaded chain >>= λ u.
      ask chain.room_closed_sequence >>= λ closed. answer_open (not (closed == 0))
