-- ===== src/Resolver/Facts.antt =====
-- Facts from raw bytes (services/live-room/src/resolver/resolver.mjs, `_participantKeyFor` and
-- `reconstructFacts`). The archive, the digest and the provider's adapter are parameters; addresses
-- are numbers, the same for both spellings of one.
use tradermarket.Base.{
  ℕ, Bool, true, false, Option, none, some, List, [], ◌∷◌, ◌++◌, map, find, exists, ltb, ◌==◌,
  if◌then◌else◌,
}
use tradermarket.Base.Dict.{Dict, insert}
use tradermarket.Domain.Decimal.{Text, Sign, below, same, above}
use tradermarket.Domain.Event.{Event, Kind, baseline, trade_closed, heartbeat, other_kind}
use tradermarket.Resolver.{
  Fact, Divergence, missing_raw, raw_hash_mismatch, unknown_account, Reconstruction,
}

-- What a raw reply was asked for
pub data QueryType : Type 0 where
  account_query fills_query other_query : QueryType

-- A fill, with its time
abbrev pub Fill : Type 0
Fill = ℕ × Fact

-- `raw_of` is `none` where the archive throws, `parses` is false for bytes that are no JSON, and the
-- two readers are `none` where what is parsed has no such rows.
pub record Sources : Type 0 where
  pub raw_of : ℕ → Option ℕ
  pub digest : ℕ → ℕ
  pub parses : ℕ → Bool
  pub query_type : ℕ → QueryType
  pub query_user : ℕ → ℕ
  pub participants : List (ℕ × ℕ)
  pub read_baseline : ℕ → ℕ → ℕ → Option Text
  pub read_fills : ℕ → ℕ → ℕ → Option (List Fill)
  pub locale_compare : Text → Text → Sign

-- What the loop over the events has gathered
pub record Gathered : Type 0 where
  pub facts : Dict Fill
  pub baselines : Dict Text
  pub divergence : List Divergence
  pub seen : List ℕ

abbrev pub is_heartbeat : Kind → Bool
is_heartbeat heartbeat = true
is_heartbeat baseline = false
is_heartbeat trade_closed = false
is_heartbeat (other_kind n) = false

abbrev pub diverging : Divergence → Gathered → Gathered
diverging d g = record g { divergence = g.divergence ++ d ∷ [] }

abbrev pub with_fills : List Fill → Dict Fill → Dict Fill
with_fills [] m = m
with_fills (f ∷ fs) m = with_fills fs (insert f.1.id f m)

-- The order of the facts: their times, then their trade ids
abbrev pub is_before : Sources → Fill → Fill → Bool
is_before sources a b =
    if ltb a.0 b.0
    then true
    else if a.0 == b.0
    then (elim (sources.locale_compare a.1.tid b.1.tid) [
      | below ↦ true
      | same ↦ true
      | above ↦ false
    ])
    else false

abbrev pub put_fill : Sources → Fill → List Fill → List Fill
put_fill sources f [] = f ∷ []
put_fill sources f (x ∷ xs) =
    let rest = put_fill sources f xs in if is_before sources x f then x ∷ rest else f ∷ x ∷ xs

-- A stable sort: an entry goes behind the later ones that come before it, and no others.
abbrev pub sort_fills : Sources → List Fill → List Fill
sort_fills sources [] = []
sort_fills sources (f ∷ fs) = put_fill sources f (sort_fills sources fs)

module _ (sources : Sources) where
  -- `_participantKeyFor`
  abbrev pub participant_key_for : ℕ → Option ℕ
  participant_key_for address = elim (find (λ (p : ℕ × ℕ). p.1 == address) sources.participants) [
    | none ↦ none
    | some p ↦ some p.0
  ]

  -- A raw reply whose account is known; `none` is a throw
  abbrev pub take_reply : QueryType → ℕ → ℕ → ℕ → Gathered → Option Gathered
  take_reply account_query key query raw g = elim (sources.read_baseline key query raw) [
    | none ↦ none
    | some v ↦ some (record g { baselines = insert key v g.baselines })
  ]
  take_reply fills_query key query raw g = elim (sources.read_fills key query raw) [
    | none ↦ none
    | some fs ↦ some (record g { facts = with_fills fs g.facts })
  ]
  take_reply other_query key query raw g = some g

  abbrev pub take_known : Event → ℕ → Option ℕ → Gathered → Option Gathered
  take_known e raw none g = some (diverging (unknown_account e.raw_ref) g)
  take_known e raw (some key) g =
      if sources.parses raw
      then take_reply (sources.query_type e.raw_query) key e.raw_query raw g
      else none

  abbrev pub take_raw : Event → Option ℕ → Gathered → Option Gathered
  take_raw e none g = some (diverging (missing_raw e.raw_ref) g)
  take_raw e (some raw) g =
      if sources.digest raw == e.raw_hash
      then take_known e raw (participant_key_for (sources.query_user e.raw_query)) g
      else some (diverging (raw_hash_mismatch e.raw_ref) g)

  -- One round of the loop over the events
  abbrev pub take_event : Event → Gathered → Option Gathered
  take_event e g =
      if is_heartbeat e.kind
      then some g
      else if exists (λ r. r == e.raw_ref) g.seen
      then some g
      else take_raw e (sources.raw_of e.raw_ref) (record g { seen = e.raw_ref ∷ g.seen })

  abbrev pub on_gathered : Option Gathered → (Gathered → Option Gathered) → Option Gathered
  on_gathered none f = none
  on_gathered (some g) f = f g

  abbrev pub gather : List Event → Gathered → Option Gathered
  gather [] g = some g
  gather (e ∷ es) g = on_gathered (take_event e g) (gather es)

  abbrev pub reconstruction_of : Gathered → Reconstruction
  reconstruction_of g = record {
    ordered = map (λ (f : Fill). f.1) (sort_fills sources (map (λ (e : ℕ × Fill). e.1) g.facts));
    baselines = g.baselines;
    divergence = g.divergence;
  }

  -- `reconstructFacts`
  unfoldable pub reconstruct_facts : List Event → Option Reconstruction
  reconstruct_facts events =
      elim (gather events (record { facts = []; baselines = []; divergence = []; seen = [] })) [
        | none ↦ none
        | some g ↦ some (reconstruction_of g)
      ]
