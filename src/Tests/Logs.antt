-- ===== src/Tests/Logs.antt =====
-- The log, its verification, the store and the connector.
use tradermarket.Base.{
  ◌≡◌, refl, ◌↔◌, false, Option, none, some, List, [], ◌∷◌, arith, length, ok, ==_refl,
}
use tradermarket.Base.Int.{pos}
use tradermarket.Domain.Decimal.{from_scaled, show_nat, show_digits}
use tradermarket.Domain.Event.{Event, trade_closed, baseline, facts_eq}
use tradermarket.Domain.EventLog.{
  ChainVerifier, genesis, new_verifier, signature_fails, verify_chain, verify, build_event,
  failures_from,
}
use tradermarket.Domain.EventLog.Chain.{Chained, whole, verify_chain-Chained}
use tradermarket.Domain.EventLog.Verifier.{verify_incremental, verify_rewritten}
use tradermarket.Domain.EventLog.Tamper.{SameContent, tamper_evident}
use tradermarket.Ports.EventStore.{append, append_to}
use tradermarket.Ports.EventStore.Rooms.{IsGapFree, append-IsGapFree}
use tradermarket.Connector.{Query, ensure_loaded, ingest_batch, start, ingest_drafts, ingest_draft}
use tradermarket.Connector.Log.{Sound, ingest_batch-Sound}
use tradermarket.Connector.Replay.{Distinct, ingest_batch_twice}
use tradermarket.Tests.Data.{
  digest_of, signature_of, checked, env, every_check, drafts, distinct_drafts, draft, store,
  connector, event, gain, start_facts,
}

abbrev first : Event
first = event none (draft 21 7 10 baseline start_facts)

abbrev second : Event
second = event (some first) (draft 22 7 20 trade_closed (gain (pos 2500000) 1))

abbrev log : List Event
log = first ∷ second ∷ []

signatures_hold :
    (e : Event)
    → e.connector_signature ≡ some (env.sign e.hash)
    → signature_fails every_check e ≡ false
signatures_hold e h = simp (h, ==_refl (signature_of e.hash))

empty_store-Sound : Sound env every_check connector store
empty_store-Sound = record {
  view = refl;
  is_loaded = refl;
  chained = tt;
  indexed = refl;
  news = tt;
}

log_verifies : verify_chain digest_of every_check log ≡ []
unfolding verify_chain failures_from build_event
log_verifies = refl

first_verifies : verify_chain digest_of every_check (first ∷ []) ≡ []
unfolding verify_chain failures_from build_event
first_verifies = refl

-- The last drafts of the batch are a restatement and its repetition: three events are appended.
batch_appends :
    length
      (ingest_batch env connector store
        (some (record { open_ended = false; text = 3 }))
        4
        drafts).appended
    ≡ 3
unfolding ingest_batch ingest_drafts ingest_draft ensure_loaded append append_to build_event
    facts_eq from_scaled show_nat show_digits
batch_appends = refl

ingest_batch-Sound_example :
    let g =
      ingest_batch env connector store (some (record { open_ended = false; text = 3 })) 4 drafts in
    Sound env every_check g.connector g.store × (g.thrown ≡ none)
ingest_batch-Sound_example =
    ingest_batch-Sound env every_check connector store 3 4 drafts signatures_hold empty_store-Sound

distinct : Distinct distinct_drafts
distinct = ((λ h. omega (arith, h), tt), (tt, tt))

ingest_batch_twice_example :
    let q : Option Query = some (record { open_ended = false; text = 3 }) in
    let once = ingest_batch env connector store q 4 distinct_drafts in
    let again = ingest_batch env once.connector once.store q 4 distinct_drafts in
    again ≡ start once.connector once.store none
ingest_batch_twice_example =
    ingest_batch_twice env every_check connector store 3 4 distinct_drafts signatures_hold
      empty_store-Sound distinct

verify_chain-Chained_example :
    (verify_chain digest_of every_check log ≡ []) ↔ Chained digest_of every_check genesis log
verify_chain-Chained_example = verify_chain-Chained digest_of every_check log

passes_first : (verify digest_of (new_verifier (some checked)) (first ∷ [])).1 ≡ []
unfolding verify verify_chain failures_from build_event
passes_first = refl

passes_second :
    (verify digest_of (verify digest_of (new_verifier (some checked)) (first ∷ [])).0 log).1 ≡ []
unfolding verify verify_chain failures_from build_event
passes_second = refl

verify_incremental_example : verify_chain digest_of every_check log ≡ []
verify_incremental_example =
    verify_incremental digest_of (some checked) (first ∷ []) (second ∷ []) passes_first
      passes_second

-- A verifier that has seen two events, and a signature check that nothing passes
abbrev behind : ChainVerifier
behind = record { verify_signature = some (λ e. false); verified_seq = 2; verified_hash = 0 }

log_links : verify_chain digest_of (whole none none) log ≡ []
unfolding verify_chain failures_from build_event
log_links = refl

verify_rewritten_example : (verify digest_of behind log).1 ≡ []
verify_rewritten_example =
    verify_rewritten digest_of behind log (omega arith) (omega arith) log_links

second_signed : signature_fails every_check second ≡ false
unfolding build_event
second_signed = refl

-- The same log without its signatures
abbrev unsigned : List Event
unsigned =
    record first { connector_signature = none } ∷ record second { connector_signature = none } ∷ []

unsigned_links : verify_chain digest_of (whole none none) unsigned ≡ []
unfolding verify_chain failures_from build_event
unsigned_links = refl

tamper_evident_example : SameContent log unsigned
tamper_evident_example =
    tamper_evident digest_of none none log unsigned (λ h. refl, (λ h. refl, tt)) refl refl log_links
      unsigned_links

empty_store-IsGapFree : IsGapFree store
empty_store-IsGapFree q = tt

appends_first : append store first ≡ ok (record store { events = first ∷ [] })
unfolding append append_to build_event
appends_first = refl

append-IsGapFree_example : IsGapFree (record store { events = first ∷ [] })
append-IsGapFree_example = append-IsGapFree store first empty_store-IsGapFree appends_first
