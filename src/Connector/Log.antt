-- ===== src/Connector/Log.antt =====
-- What the connector keeps true of the log (services/live-room/src/connector/connector.mjs).
use tradermarket.Base.{
  ℕ, ◌+◌, ◌≡◌, refl, sym, ap, ◌∙◌, Bool, true, false, ◌&&◌, Option, none, some, List, [], ◌∷◌, ◌++◌,
  Bool-cases, inl, inr,
}
use tradermarket.Domain.Event.{Event, Draft, dedupe_key, draft_key, key_eq, facts_eq}
use tradermarket.Domain.EventLog.{Options, genesis, signature_fails, point_or, build_event}
use tradermarket.Domain.EventLog.Chain.{Extends, Chained, Chained-append, end_of-genesis}
use tradermarket.Ports.EventStore.{EventStore, visible, tip, next_seq, append}
use tradermarket.Ports.EventStore.Rooms.{append-next, visible-append}
use tradermarket.Connector.{
  Env, Connector, Payload, Progress, LatestIndex, lookup_key, insert_key, index_from, hash_of,
  is_repeat, is_known, identified, event_for, written, ensure_loaded, ingest_draft, ingest_drafts,
  ingest_batch, start, new_connector,
}
use tradermarket.Connector.Index.{index_from-append_one}

-- Whether an event says again what the last event of its fact said.
abbrev pub says_again : Option Event → Event → Bool
says_again none e = false
says_again (some old) e = key_eq (dedupe_key old) (dedupe_key e) && facts_eq old.facts e.facts

-- Every event is news, and names as corrected exactly the latest event of the same fact.
abbrev pub News : LatestIndex → List Event → Type 0
News m [] = Unit
News m (e ∷ es) =
    (e.corrects ≡ hash_of (lookup_key (dedupe_key e) m))
    × (says_again (lookup_key (dedupe_key e) m) e ≡ false)
    × News (insert_key (dedupe_key e) e m) es

-- What holds of a connector that is loaded and the store that it writes to.
pub record Sound (env : Env) (o : Options) (c : Connector) (s : EventStore) : Type 0 where
  pub view : s.room ≡ some c.room_id
  pub is_loaded : c.loaded ≡ true
  pub chained : Chained env.digest o genesis (visible s)
  pub indexed : c.latest ≡ index_from [] (visible s)
  pub news : News [] (visible s)

News-append_one :
    (m : LatestIndex) (es : List Event) (e : Event)
    → News m es
    → e.corrects ≡ hash_of (lookup_key (dedupe_key e) (index_from m es))
    → says_again (lookup_key (dedupe_key e) (index_from m es)) e ≡ false
    → News m (es ++ e ∷ [])
News-append_one m [] e n c a = (c, a, tt)
News-append_one m (x ∷ es) e (xc, xa, n) c a =
    (xc, xa, News-append_one (insert_key (dedupe_key x) x m) es e n c a)

next_seq-point_or : (t : Option Event) → next_seq t ≡ (point_or t).seq + 1
next_seq-point_or none = refl
next_seq-point_or (some e) = refl

module _ (env : Env) (o : Options) (p : Payload) where
  -- The signer's own signatures hold.
  abbrev pub SignerHolds : Type 0
  SignerHolds =
      (e : Event) → e.connector_signature ≡ some (env.sign e.hash) → signature_fails o e ≡ false

  -- The parts of the event that a draft becomes.
  module _ (c : Connector) (s : EventStore) (d : Draft) where
    event_for-Extends :
        SignerHolds → Extends env.digest o (point_or (tip s)) (event_for env p c s d)
    unfolding build_event
    event_for-Extends signs = record {
      next_seq = refl;
      linked = refl;
      hashed = refl;
      signed = signs (event_for env p c s d) refl;
    }

    event_for-seq : (event_for env p c s d).seq ≡ next_seq (tip s)
    unfolding build_event
    event_for-seq = sym (next_seq-point_or (tip s))

    event_for-room : (event_for env p c s d).room_id ≡ c.room_id
    unfolding build_event
    event_for-room = refl

    event_for-key : dedupe_key (event_for env p c s d) ≡ draft_key (identified c d)
    unfolding build_event
    event_for-key = refl

    event_for-corrects :
        (event_for env p c s d).corrects
        ≡ hash_of (lookup_key (draft_key (identified c d)) c.latest)
    unfolding build_event
    event_for-corrects = refl

    event_for-says_again :
        (old : Option Event)
        → says_again old (event_for env p c s d) ≡ is_repeat old (identified c d)
    unfolding build_event
    event_for-says_again none = refl
    event_for-says_again (some old) = refl

  -- Appending an event that extends the chain and is news keeps the log sound.
  stored-Sound :
      (c : Connector) (s : EventStore) (e : Event)
      → Sound env o c s
      → Extends env.digest o (point_or (tip s)) e
      → e.room_id ≡ c.room_id
      → e.corrects ≡ hash_of (lookup_key (dedupe_key e) c.latest)
      → says_again (lookup_key (dedupe_key e) c.latest) e ≡ false
      → Sound env o
          (record c { latest = insert_key (dedupe_key e) e c.latest })
          (record s { events = s.events ++ e ∷ [] })
  stored-Sound c s e sound extends room corrects fresh =
      let seen = visible-append s c.room_id e sound.view room in
      record {
        view = sound.view;
        is_loaded = sound.is_loaded;
        chained = rw seen (
            (Chained-append env.digest o genesis (visible s) (e ∷ [])).1
              (sound.chained, (rw (end_of-genesis (visible s)) extends, tt)));
        indexed = rw (seen, index_from-append_one, sound.indexed);
        news = rw seen (
            News-append_one [] (visible s) e sound.news (rw sound.indexed at corrects)
              (rw sound.indexed at fresh));
      }

  -- What a draft that is not a repetition does.
  written-Sound :
      (g : Progress) (d : Draft)
      → SignerHolds
      → Sound env o g.connector g.store
      → is_known g.connector d ≡ false
      → let e = event_for env p g.connector g.store d in
        let g' = written g (draft_key (identified g.connector d)) e (append g.store e) in
        Sound env o g'.connector g'.store × (g'.thrown ≡ g.thrown)
  unfolding build_event
  written-Sound g d signs sound fresh =
      rw
        (append-next g.store g.connector.room_id (event_for env p g.connector g.store d) sound.view
          (event_for-room g.connector g.store d) (event_for-seq g.connector g.store d))
        (
          stored-Sound g.connector g.store (event_for env p g.connector g.store d) sound
              (event_for-Extends g.connector g.store d signs) (event_for-room g.connector g.store d)
              (event_for-corrects g.connector g.store d)
              (event_for-says_again g.connector g.store d
                  (lookup_key (draft_key (identified g.connector d)) g.connector.latest)
                ∙ fresh),
          refl,
        )

  pub ingest_draft-Sound :
      (g : Progress) (d : Draft)
      → SignerHolds
      → Sound env o g.connector g.store
      → let g' = ingest_draft env p g d in
        Sound env o g'.connector g'.store × (g'.thrown ≡ g.thrown)
  unfolding ingest_draft
  ingest_draft-Sound g d signs sound = elim (Bool-cases (is_known g.connector d)) [
    | inl again ↦ rw again (sound, refl)
    | inr fresh ↦ rw fresh (written-Sound g d signs sound fresh)
  ]

  pub ingest_drafts-Sound :
      (g : Progress) (ds : List Draft)
      → SignerHolds
      → Sound env o g.connector g.store
      → g.thrown ≡ none
      → let g' = ingest_drafts env p g ds in Sound env o g'.connector g'.store × (g'.thrown ≡ none)
  unfolding ingest_drafts
  ingest_drafts-Sound g [] signs sound calm = (sound, calm)
  ingest_drafts-Sound g (d ∷ ds) signs sound calm =
      let (after, thrown) = ingest_draft-Sound g d signs sound in
      rw (thrown ∙ calm, ingest_drafts)
        (ingest_drafts-Sound (ingest_draft env p g d) ds signs after (thrown ∙ calm))

pub ensure_loaded-Sound :
    (env : Env) (o : Options) (c : Connector) (s : EventStore)
    → Sound env o c s
    → ensure_loaded c s ≡ c
unfolding ensure_loaded
ensure_loaded-Sound env o c s sound = rw sound.is_loaded

-- A batch over a closed window, ingested by a connector that has loaded a log that is sound, and
-- whose signatures hold, is
-- never refused, and leaves a log that verifies whole, in which every event says something new of
-- its fact and names the latest earlier event of that fact, if there is one, as corrected.
pub ingest_batch-Sound :
    (env : Env) (o : Options) (c : Connector) (s : EventStore) (text raw_hash : ℕ) (ds : List Draft)
    → ((e : Event) → e.connector_signature ≡ some (env.sign e.hash) → signature_fails o e ≡ false)
    → Sound env o c s
    → let g =
        ingest_batch env c s (some (record { open_ended = false; text = text })) raw_hash ds in
      Sound env o g.connector g.store × (g.thrown ≡ none)
unfolding ingest_batch
ingest_batch-Sound env o c s text raw_hash ds signs sound =
    rw (ensure_loaded-Sound env o c s sound) (
      ingest_drafts-Sound env o
        (record { raw_ref = env.archive_ref text raw_hash; raw_hash = raw_hash; raw_query = text })
        (start c s none) ds signs sound refl)

-- A connector that starts anew on the store of one that ran, where the log is sound, is, once it
-- has loaded the log, the connector that ran: nothing of its memory was lost with the process.
pub restart_resumes :
    (env : Env) (o : Options) (c : Connector) (s : EventStore)
    → Sound env o c s
    → ensure_loaded (new_connector c.room_id c.source) s ≡ c
unfolding ensure_loaded
restart_resumes env o c s sound =
    rw (← sound.indexed) (ap (λ (b : Bool). record c { loaded = b }) (sym sound.is_loaded))
