-- ===== src/Connector/Replay.antt =====
-- Batches that are ingested again (services/live-room/src/connector/connector.mjs): retries and
-- window overlaps add nothing to the log.
use tradermarket.Base.{
  ℕ, ◌≡◌, ◌≢◌, refl, sym, ap, ◌∙◌, subst, true, false, Option, none, some, List, [], ◌∷◌, arith,
  Bool-cases, Option-cases, inl, inr, Result, ok, err, All,
}
use tradermarket.Domain.Event.{Event, Draft, draft_key, key_eq, facts_eq_refl, same_content}
use tradermarket.Domain.EventLog.{Options, signature_fails, build_event}
use tradermarket.Ports.EventStore.{EventStore, AppendError, append}
use tradermarket.Connector.{
  Env, Connector, Payload, Progress, is_known, identified, event_for, written, ingest_draft,
  ingest_drafts, ingest_batch, start, Query,
}
use tradermarket.Connector.Index.{lookup_key-insert_key, key_eq_refl}
use tradermarket.Connector.Log.{
  Sound, ingest_draft-Sound, ingest_drafts-Sound, ensure_loaded-Sound, SignerHolds,
}

-- No two drafts of a batch are about one fact.
abbrev pub Distinct : List Draft → Type 0
Distinct [] = Unit
Distinct (d ∷ ds) = All (λ (x : Draft). d.source_event_id ≢ x.source_event_id) ds × Distinct ds

-- The index knows what every draft says.
abbrev AllKnown : Connector → List Draft → Type 0
AllKnown c ds = All (λ (d : Draft). is_known c d ≡ true) ds

-- What `written` leaves known, however the store answers.
written-known_self :
    (g : Progress) (d : Draft) (e : Event) (r : Result AppendError EventStore)
    → same_content e (identified g.connector d) ≡ true
    → (written g (draft_key (identified g.connector d)) e r).thrown ≡ none
    → g.thrown ≡ none
    → is_known (written g (draft_key (identified g.connector d)) e r).connector d ≡ true
written-known_self g d e (ok s) same done calm =
    rw (lookup_key-insert_key, key_eq_refl (draft_key (identified g.connector d))) same
written-known_self g d e (err x) same done calm = cc

written-known_other :
    (g : Progress) (d x : Draft) (e : Event) (r : Result AppendError EventStore)
    → d.source_event_id ≢ x.source_event_id
    → is_known (written g (draft_key (identified g.connector d)) e r).connector x
      ≡ is_known g.connector x
written-known_other g d x e (ok s) ne =
    let apart : key_eq (g.connector.source, d.source_event_id)
          (g.connector.source, x.source_event_id)
        ≡ false =
      ground arith in
    rw (lookup_key-insert_key, apart)
written-known_other g d x e (err y) ne = refl

module _ (env : Env) (p : Payload) where
  event_for-same_content :
      (c : Connector) (s : EventStore) (d : Draft)
      → same_content (event_for env p c s d) (identified c d) ≡ true
  unfolding build_event
  event_for-same_content c s d = ground (arith, facts_eq_refl d.facts)

  ingest_draft-known :
      (g : Progress) (d : Draft) → is_known g.connector d ≡ true → ingest_draft env p g d ≡ g
  unfolding ingest_draft
  ingest_draft-known g d known = rw known

  ingest_drafts-cons :
      (g : Progress) (d : Draft) (ds : List Draft)
      → (ingest_draft env p g d).thrown ≡ none
      → ingest_drafts env p g (d ∷ ds) ≡ ingest_drafts env p (ingest_draft env p g d) ds
  unfolding ingest_drafts
  ingest_drafts-cons g d ds calm = simp (calm, ingest_drafts)

  ingest_drafts-known :
      (g : Progress) (ds : List Draft)
      → g.thrown ≡ none
      → AllKnown g.connector ds
      → ingest_drafts env p g ds ≡ g
  unfolding ingest_drafts
  ingest_drafts-known g [] calm known = refl
  ingest_drafts-known g (d ∷ ds) calm known =
      let same = ingest_draft-known g d known.0 in
      ingest_drafts-cons g d ds (rw same calm)
      ∙ ap (λ (h : Progress). ingest_drafts env p h ds) same
      ∙ ingest_drafts-known g ds calm known.1

  -- A draft that went through is known afterwards.
  ingest_draft-known_self :
      (g : Progress) (d : Draft)
      → g.thrown ≡ none
      → (ingest_draft env p g d).thrown ≡ none
      → is_known (ingest_draft env p g d).connector d ≡ true
  unfolding ingest_draft
  ingest_draft-known_self g d calm done = elim (Bool-cases (is_known g.connector d)) [
    | inl again ↦ rw again again
    | inr fresh ↦ rw fresh (
        written-known_self g d (event_for env p g.connector g.store d)
          (append g.store (event_for env p g.connector g.store d))
          (event_for-same_content g.connector g.store d) (rw fresh at done) calm)
  ]

  -- What is known of another fact stays known.
  ingest_draft-known_other :
      (g : Progress) (d x : Draft)
      → d.source_event_id ≢ x.source_event_id
      → is_known (ingest_draft env p g d).connector x ≡ is_known g.connector x
  unfolding ingest_draft
  ingest_draft-known_other g d x ne = elim (Bool-cases (is_known g.connector d)) [
    | inl again ↦ rw again
    | inr fresh ↦ rw fresh (
        written-known_other g d x (event_for env p g.connector g.store d)
          (append g.store (event_for env p g.connector g.store d)) ne)
  ]

  ingest_drafts-known_other :
      (g : Progress) (ds : List Draft) (x : Draft)
      → All (λ (d : Draft). x.source_event_id ≢ d.source_event_id) ds
      → is_known (ingest_drafts env p g ds).connector x ≡ is_known g.connector x
  unfolding ingest_drafts
  ingest_drafts-known_other g [] x apart = refl
  ingest_drafts-known_other g (d ∷ ds) x apart =
      elim (Option-cases (ingest_draft env p g d).thrown) [
        | inl none_thrown ↦
            rw (none_thrown, ingest_drafts)
              (ingest_drafts-known_other (ingest_draft env p g d) ds x apart.1
                ∙ ingest_draft-known_other g d x (λ h. apart.0 (sym h)))
        | inr (y, stopped) ↦
            rw (stopped, ingest_drafts) (ingest_draft-known_other g d x (λ h. apart.0 (sym h)))
      ]

  module _ (o : Options) where
    AllKnown-after :
        (g : Progress) (ds : List Draft)
        → SignerHolds env o p
        → Sound env o g.connector g.store
        → g.thrown ≡ none
        → Distinct ds
        → AllKnown (ingest_drafts env p g ds).connector ds
    AllKnown-after g [] signs sound calm apart = tt
    AllKnown-after g (d ∷ ds) signs sound calm apart =
        let (after, same) = ingest_draft-Sound env o p g d signs sound in
        let done = same ∙ calm in
        subst (λ (h : Progress). AllKnown h.connector (d ∷ ds))
          (sym (ingest_drafts-cons g d ds done))
          (
            ingest_drafts-known_other (ingest_draft env p g d) ds d apart.0
                ∙ ingest_draft-known_self g d calm done,
            AllKnown-after (ingest_draft env p g d) ds signs after done apart.1,
          )

-- A batch over a closed window whose drafts are about distinct facts, ingested twice on a sound
-- log by a connector whose signatures hold: the second time nothing is
-- appended and neither the connector nor its store changes.
pub ingest_batch_twice :
    (env : Env) (o : Options) (c : Connector) (s : EventStore) (text raw_hash : ℕ) (ds : List Draft)
    → ((e : Event) → e.connector_signature ≡ some (env.sign e.hash) → signature_fails o e ≡ false)
    → Sound env o c s
    → Distinct ds
    → let q : Option Query = some (record { open_ended = false; text = text }) in
      let first = ingest_batch env c s q raw_hash ds in
      let second = ingest_batch env first.connector first.store q raw_hash ds in
      second ≡ start first.connector first.store none
unfolding ingest_batch
ingest_batch_twice env o c s text raw_hash ds signs sound apart =
    rw (ensure_loaded-Sound env o c s sound) (
      rw (ensure_loaded-Sound env o first.connector first.store after.0) (
        ingest_drafts-known env p (start first.connector first.store none) ds refl
          (AllKnown-after env p o (start c s none) ds signs sound refl apart)))
  where
    p : Payload
    p = record { raw_ref = env.archive_ref text raw_hash; raw_hash = raw_hash; raw_query = text }

    first : Progress
    first = ingest_drafts env p (start c s none) ds

    after : Sound env o first.connector first.store × (first.thrown ≡ none)
    after = ingest_drafts-Sound env o p (start c s none) ds signs sound refl
