-- ===== src/Publication/Rows/Marks.antt =====
-- What the publisher writes down binds no permit of its own
-- (services/live-room/src/publisher/queue.mjs).
use tradermarket.Base.{
  ℕ, ◌+◌, Option, none, some, Bool-cases, inl, inr, leb, ltb, or_else, ◌/◌, Result, ok, err,
}
use tradermarket.Publication.{Candidate, Permit, Row}
use tradermarket.Publication.Publisher.{
  Catalog, Rule, Chain, SubmitError, prepare, by_rule, with_document, publish, with_permit,
  unless_moved, submitted, after_failure, on_expiry, slot_moved, is_chain_refusal, find_landed,
  reconciled, nonce_used,
}
use tradermarket.Publication.Rows.{Binds, BindsIf}

module _ {T : Type 0} (catalog : Catalog) (chain : Chain T) where
  with_document-Binds :
      (c : Candidate) (delay : ℕ) (rule : Rule) (d : Result ℕ ℕ)
      → Binds (with_document catalog c delay rule d)
  with_document-Binds c delay rule (err e) = tt
  with_document-Binds c delay rule (ok document) = tt

  by_rule-Binds :
      (c : Candidate) (delay : ℕ) (rule : Option Rule) → Binds (by_rule catalog c delay rule)
  by_rule-Binds c delay none = tt
  by_rule-Binds c delay (some rule) = elim (Bool-cases (ltb delay catalog.min_announce_delay)) [
    | inl short ↦ rw short tt
    | inr enough ↦ rw enough (with_document-Binds c delay rule (rule.build_condition c.params))
  ]

  pub prepare-Binds : (r : Row) → Binds (prepare catalog r)
  unfolding prepare
  prepare-Binds r =
      by_rule-Binds r.candidate (or_else r.candidate.announce_delay catalog.min_announce_delay)
        (catalog.rule_of r.candidate.template_id)

  pub reconciled-Binds : (s : T) (r : Row) → BindsIf (reconciled catalog chain s r)
  reconciled-Binds s r = elim (Bool-cases (nonce_used catalog chain chain.used_nonce s r.permit)) [
    | inl used ↦ rw used tt
    | inr free ↦ rw free tt
  ]

  on_expiry-Binds : (r : Row) (p : Permit) (now_s : ℕ) → Binds (on_expiry catalog chain r p now_s)
  on_expiry-Binds r p now_s = elim (Bool-cases (leb catalog.max_permit_attempts (r.attempts + 1))) [
    | inl last ↦ rw last tt
    | inr again ↦ rw again tt
  ]

  after_failure-Binds : (e : SubmitError) (o : Option ℕ) → BindsIf (after_failure catalog chain e o)
  after_failure-Binds e (some market) = tt
  after_failure-Binds e none = elim (Bool-cases (is_chain_refusal e)) [
    | inl refusal ↦ rw refusal tt
    | inr transport ↦ rw transport tt
  ]

  submitted-Binds :
      (r : Row) (a : T × Result SubmitError ℕ) → BindsIf (submitted catalog chain r a).1
  submitted-Binds r (s, ok market) = tt
  submitted-Binds r (s, err e) = after_failure-Binds e (find_landed catalog chain s r)

  unless_moved-Binds :
      (s : T) (r : Row) (p : Permit) (o : Option ℕ) → BindsIf (unless_moved catalog chain s r p o).1
  unless_moved-Binds s r p (some n) = tt
  unless_moved-Binds s r p none =
      submitted-Binds r (chain.publish_slot s r.request p r.signature r.restricted)

  with_permit-Binds :
      (s : T) (r : Row) (now_s : ℕ) (o : Option Permit)
      → BindsIf (with_permit catalog chain s r now_s o).1
  with_permit-Binds s r now_s none = tt
  with_permit-Binds s r now_s (some p) = elim (Bool-cases (leb p.expires_at now_s)) [
    | inl late ↦ rw late (on_expiry-Binds r p now_s)
    | inr fresh ↦
        rw fresh (unless_moved-Binds s r p (slot_moved catalog chain chain.slot_count s p))
  ]

  pub publish-Binds : (s : T) (now_ms : ℕ) (r : Row) → BindsIf (publish catalog chain s now_ms r).1
  unfolding publish
  publish-Binds s now_ms r = with_permit-Binds s r (now_ms / 1000) r.permit
