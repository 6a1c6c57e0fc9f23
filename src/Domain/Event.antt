-- ===== src/Domain/Event.antt =====
-- The rows of the Session Event Log (services/live-room/src/domain/eventlog.mjs, `buildEvent`).
-- Identifiers, hashes and signatures are only compared, so they are numbers; `observed_at` is the
-- instant that `Date.parse` reads from it, in milliseconds.
use tradermarket.Base.{
  ℕ, ◌≡◌, refl, Bool, true, false, ◌&&◌, Option, none, some, [], ◌∷◌, arith, ◌==◌,
}
use tradermarket.Domain.Decimal.{Text}

pub data Kind : Type 0 where
  baseline trade_closed heartbeat : Kind
  other_kind : ℕ → Kind

-- The facts that the rules read, and one number for all the others. A field that is missing is
-- `none`; a missing trade id is the empty text, as `String(tid ?? "")` has it.
pub record Facts : Type 0 where
  pub account_value_usd : Option Text
  pub realized_pnl_usd : Option Text
  pub tid : Text
  pub other_facts : ℕ

pub record Event : Type 0 where
  pub room_id : ℕ
  pub seq : ℕ
  pub source : ℕ
  pub source_event_id : ℕ
  pub participant : Option ℕ
  pub observed_at : ℕ
  pub ingested_at : ℕ
  pub kind : Kind
  pub facts : Facts
  pub derived : ℕ
  pub raw_ref : ℕ
  pub raw_hash : ℕ
  pub raw_query : ℕ
  pub corrects : Option ℕ
  pub prev_hash : ℕ
  pub hash : ℕ
  pub connector_signature : Option ℕ
  -- set by `rectify` alone, on its view of the log
  pub corrected_by : Option ℕ

-- What a connector hands to `buildEvent`.
pub record Draft : Type 0 where
  pub room_id : ℕ
  pub source : ℕ
  pub source_event_id : ℕ
  pub participant : Option ℕ
  pub observed_at : ℕ
  pub kind : Kind
  pub facts : Facts
  pub derived : ℕ
  pub raw_ref : ℕ
  pub raw_hash : ℕ
  pub raw_query : ℕ
  pub corrects : Option ℕ

-- The fields that the chain hash covers.
pub record Covered : Type 0 where
  pub room_id : ℕ
  pub seq : ℕ
  pub source : ℕ
  pub source_event_id : ℕ
  pub participant : Option ℕ
  pub observed_at : ℕ
  pub ingested_at : ℕ
  pub kind : Kind
  pub facts : Facts
  pub derived : ℕ
  pub raw_ref : ℕ
  pub raw_hash : ℕ
  pub raw_query : ℕ
  pub corrects : Option ℕ
  pub prev_hash : ℕ

abbrev pub text_eq : Text → Text → Bool
text_eq [] [] = true
text_eq [] (d ∷ ds) = false
text_eq (c ∷ cs) [] = false
text_eq (c ∷ cs) (d ∷ ds) = c == d && text_eq cs ds

pub text_eq_sound : (a b : Text) → text_eq a b ≡ true → a ≡ b
text_eq_sound [] [] h = refl
text_eq_sound [] (d ∷ ds) h = cc
text_eq_sound (c ∷ cs) [] h = cc
text_eq_sound (c ∷ cs) (d ∷ ds) h = ground (arith, text_eq_sound cs ds)

pub text_eq_refl : (a : Text) → text_eq a a ≡ true
text_eq_refl [] = refl
text_eq_refl (c ∷ cs) = ground (arith, text_eq_refl cs)

abbrev pub option_text_eq : Option Text → Option Text → Bool
option_text_eq none none = true
option_text_eq none (some b) = false
option_text_eq (some a) none = false
option_text_eq (some a) (some b) = text_eq a b

-- Whether `canonicalize` writes the same text for two sets of facts.
unfoldable pub facts_eq : Facts → Facts → Bool
facts_eq f g =
    option_text_eq f.account_value_usd g.account_value_usd
    && option_text_eq f.realized_pnl_usd g.realized_pnl_usd
    && text_eq f.tid g.tid
    && f.other_facts == g.other_facts

option_text_eq_refl : (a : Option Text) → option_text_eq a a ≡ true
option_text_eq_refl none = refl
option_text_eq_refl (some a) = text_eq_refl a

pub facts_eq_refl : (f : Facts) → facts_eq f f ≡ true
unfolding facts_eq
facts_eq_refl f = ground (
  arith,
  option_text_eq_refl f.account_value_usd,
  option_text_eq_refl f.realized_pnl_usd,
  text_eq_refl f.tid,
)

-- `dedupeKey` of an event and of a draft: the source and its own id of the fact.
abbrev pub dedupe_key : Event → ℕ × ℕ
dedupe_key e = (e.source, e.source_event_id)

abbrev pub draft_key : Draft → ℕ × ℕ
draft_key d = (d.source, d.source_event_id)

abbrev pub key_eq : ℕ × ℕ → ℕ × ℕ → Bool
key_eq a b = a.0 == b.0 && a.1 == b.1

-- `contentKey(event) === contentKey(draft)`
abbrev pub same_content : Event → Draft → Bool
same_content e d = key_eq (dedupe_key e) (draft_key d) && facts_eq e.facts d.facts
