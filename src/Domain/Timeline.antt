-- ===== src/Domain/Timeline.antt =====
-- services/live-room/src/domain/conditions.mjs, `rectify`: the session's timeline, with
-- corrections put where the corrected facts happened, in the provider's order. `locale_compare`
-- stands for `localeCompare` on the trade ids.
pub mod Corrections
pub mod Order
use tradermarket.Base.{
  ℕ, ◌+◌, Bool, true, false, Option, none, some, List, [], ◌∷◌, ◌++◌, map, ltb, ◌==◌, if◌then◌else◌,
  length, get_elem?, set,
}
use tradermarket.Base.Dict.{Dict, lookup, insert}
use tradermarket.Domain.Decimal.{Text, Sign, below, same, above}
use tradermarket.Domain.Event.{Event}

-- `slotOf` and `timeline`
pub record Placement : Type 0 where
  pub slot_of : Dict ℕ
  pub timeline : List Event

-- `event.corrects ? slotOf.get(event.corrects) : undefined`
abbrev pub supersedes : Option ℕ → Dict ℕ → Option ℕ
supersedes none slots = none
supersedes (some h) slots = lookup h slots

-- The entry that stands for a superseded event from now on: only its facts have changed.
abbrev pub restated : Event → Event → Event
restated original e = record original {
  facts = e.facts;
  derived = e.derived;
  corrected_by = some e.hash;
}

abbrev pub restate_at : List Event → ℕ → Option Event → Event → List Event
restate_at timeline i none e = timeline
restate_at timeline i (some original) e = set timeline i (restated original e)

abbrev pub placed : Placement → Event → Option ℕ → Placement
placed p e none = record {
  slot_of = insert e.hash (length p.timeline) p.slot_of;
  timeline = p.timeline ++ e ∷ [];
}
placed p e (some i) = record {
  slot_of = insert e.hash i p.slot_of;
  timeline = restate_at p.timeline i (get_elem? p.timeline i) e;
}

-- One round of the loop of `rectify`
unfoldable pub place : Placement → Event → Placement
place p e = placed p e (supersedes e.corrects p.slot_of)

unfoldable pub place_all : Placement → List Event → Placement
place_all p [] = p
place_all p (e ∷ es) = place_all (place p e) es

abbrev pub nothing_placed : Placement
nothing_placed = record { slot_of = []; timeline = [] }

-- `timeline.map((event, index) => ({ event, index }))`
pub record Indexed : Type 0 where
  pub event : Event
  pub index : ℕ

abbrev pub index_from : ℕ → List Event → List Indexed
index_from n [] = []
index_from n (e ∷ es) = record { event = e; index = n } ∷ index_from (n + 1) es

module _ (locale_compare : Text → Text → Sign) where
  abbrev pub tie_before : Sign → ℕ → ℕ → Bool
  tie_before below i j = true
  tie_before same i j = ltb i j
  tie_before above i j = false

  -- Whether the comparison function puts the first in front of the second
  abbrev pub comes_before : Indexed → Indexed → Bool
  comes_before a b =
      if ltb a.event.observed_at b.event.observed_at
      then true
      else if ltb b.event.observed_at a.event.observed_at
      then false
      else tie_before (locale_compare a.event.facts.tid b.event.facts.tid) a.index b.index

  abbrev pub insert_sorted : Indexed → List Indexed → List Indexed
  insert_sorted x [] = x ∷ []
  insert_sorted x (y ∷ ys) =
      let rest = insert_sorted x ys in if comes_before x y then x ∷ y ∷ ys else y ∷ rest

  -- `Array.prototype.sort`, which is stable
  unfoldable pub sorted : List Indexed → List Indexed
  sorted [] = []
  sorted (x ∷ xs) = insert_sorted x (sorted xs)

  -- `rectify`
  unfoldable pub rectify : List Event → List Event
  rectify events =
      map (λ (x : Indexed). x.event)
        (sorted (index_from 0 (place_all nothing_placed events).timeline))
