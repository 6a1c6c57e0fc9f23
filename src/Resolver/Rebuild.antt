-- ===== src/Resolver/Rebuild.antt =====
-- What a resolver makes of one closed slot (services/live-room/src/resolver/resolver.mjs,
-- `reconstructSlot`, `resolveSlot`).
use tradermarket.Base.{ℕ, Option, none, some, List, [], ◌∷◌, ◌≡◌, refl, Result, ok, err}
use tradermarket.Resolver.Facts.{Sources, reconstruct_facts}
use tradermarket.Domain.Event.{Event}
use tradermarket.Domain.Conditions.{Reason}
use tradermarket.Resolver.{
  Closed, Reconstruction, Divergence, Rebuilt, compare_threw, diverged, rebuilt_from, evaluate_slot,
  unevaluable_slot, unmappable, rebuilt, Bundle, Verdict, Problem, outcome_enum, enumerated,
  build_evidence,
}
use tradermarket.Resolver.Compare.{compare_with_log}
use tradermarket.Resolver.Match.{Match, compare_with_log-Match}

abbrev pub unless_diverged : Closed → Reconstruction → Result Reason (List Divergence) → Rebuilt
unless_diverged q r (err e) = compare_threw e
unless_diverged q r (ok (d ∷ ds)) = diverged (d ∷ ds)
unless_diverged q r (ok []) =
    rebuilt_from q r (evaluate_slot q.condition q.headline q.is_headline r)

-- `reconstructSlot`, after `reconstructFacts`
unfoldable pub reconstruct_slot : Closed → Reconstruction → List Event → Rebuilt
reconstruct_slot q r events = unless_diverged q r (compare_with_log r events)

-- `resolveSlot`'s call: only a result that was rebuilt is attested. `none` is a throw.
abbrev pub attest_if :
    {S : Type 0}
    → (Bundle → ℕ)
    → (S → ℕ → ℕ → ℕ → Option S)
    → ℕ
    → Rebuilt
    → S
    → Option (Rebuilt × S)
attest_if digest attest market (diverged ds) s = some (diverged ds, s)
attest_if digest attest market (unevaluable_slot p) s = some (unevaluable_slot p, s)
attest_if digest attest market (unmappable o) s = some (unmappable o, s)
attest_if digest attest market (compare_threw r) s = none
attest_if digest attest market (rebuilt n b) s = elim (attest s market n (digest b)) [
  | none ↦ none
  | some t ↦ some (rebuilt n b, t)
]

-- `resolveSlot`
unfoldable pub resolve_slot :
    {S : Type 0}
    → (Bundle → ℕ)
    → (S → ℕ → ℕ → ℕ → Option S)
    → Sources
    → Closed
    → List Event
    → S
    → Option (Rebuilt × S)
resolve_slot digest attest sources q events s = elim (reconstruct_facts sources events) [
  | none ↦ none
  | some r ↦ attest_if digest attest q.market (reconstruct_slot q r events) s
]

-- On what a result is rebuilt
abbrev pub IsBacked : Closed → Reconstruction → List Event → ℕ → Bundle → Type 0
IsBacked q r events n b =
    Match r events
    × ((v : Verdict) × ((evaluate_slot q.condition q.headline q.is_headline r ≡ ok v)
          × ((outcome_enum v.outcome q.parties.0 q.parties.1 ≡ some n)
              × (b ≡ build_evidence q.market q.condition_hash v r))))

enumerated_lem :
    (q : Closed) (r : Reconstruction) (v : Verdict) (o : Option ℕ) (n : ℕ) (b : Bundle)
    → enumerated o v.outcome (build_evidence q.market q.condition_hash v r) ≡ rebuilt n b
    → (o ≡ some n) × (b ≡ build_evidence q.market q.condition_hash v r)
enumerated_lem q r v none n b e = absurd (cc)
enumerated_lem q r v (some m) n b e = (cc, cc)

verdict_lem :
    (q : Closed) (r : Reconstruction) (d : Result Problem Verdict) (n : ℕ) (b : Bundle)
    → rebuilt_from q r d ≡ rebuilt n b
    → (v : Verdict) × ((d ≡ ok v)
        × ((outcome_enum v.outcome q.parties.0 q.parties.1 ≡ some n)
            × (b ≡ build_evidence q.market q.condition_hash v r)))
verdict_lem q r (err p) n b e = absurd (cc)
verdict_lem q r (ok v) n b e = (v, (refl, enumerated_lem q r v _ n b e))

diverged_lem :
    (q : Closed) (r : Reconstruction) (found : Result Reason (List Divergence)) (n : ℕ) (b : Bundle)
    → unless_diverged q r found ≡ rebuilt n b
    → (found ≡ ok [])
      × ((v : Verdict) × ((evaluate_slot q.condition q.headline q.is_headline r ≡ ok v)
            × ((outcome_enum v.outcome q.parties.0 q.parties.1 ≡ some n)
                × (b ≡ build_evidence q.market q.condition_hash v r))))
diverged_lem q r (err e) n b is = absurd (cc)
diverged_lem q r (ok (d ∷ ds)) n b is = absurd (cc)
diverged_lem q r (ok []) n b is = (refl, verdict_lem q r _ n b is)

-- A result is rebuilt only where nothing diverged while the facts were read, each fact is a trade of
-- the log with an equal figure in what the log says of it last, each trade of the log is a fact, and
-- the slot has a verdict; and it is the verdict's outcome with the verdict's evidence.
pub reconstruct_slot-IsBacked :
    (q : Closed) (r : Reconstruction) (events : List Event) (n : ℕ) (b : Bundle)
    → reconstruct_slot q r events ≡ rebuilt n b
    → IsBacked q r events n b
unfolding reconstruct_slot
reconstruct_slot-IsBacked q r events n b e =
    let (agrees, verdict) = diverged_lem q r _ n b e in
    (compare_with_log-Match r events agrees, verdict)
