-- ===== src/Coordinator/Requests.antt =====
-- When the coordinator asks for a slot (services/live-room/src/coordinator/coordinator.mjs,
-- `maybeRequestSlot`): what happens before the publisher is called, and what happens when that call
-- returns or throws.
use tradermarket.Base.{
  ℕ, Bool, true, false, not, Option, none, some, [], ◌∷◌, ◌++◌, keep, find, exists, leb, ◌==◌,
  if◌then◌else◌, ◌≡◌,
}
use tradermarket.Coordinator.{
  awaiting_liquidity, RoomState, draft, live, armed, other_room, SlotView, Snapshot, State, Config,
  Projection,
}
use tradermarket.Coordinator.View.{snapshot}

pub data NotAsked : Type 0 where
  no_publisher concurrency_cap headline_unbacked source_stale already_requested : NotAsked
  not_running : RoomState → NotAsked

pub data Decided : Type 0 where
  not_asked : NotAsked → Decided
  asking : State → Decided

abbrev pub is_running : RoomState → Bool
is_running live = true
is_running armed = true
is_running draft = false
is_running (other_room n) = false

abbrev pub is_backed : Option SlotView → Bool
is_backed none = false
is_backed (some v) = elim (v.state) [ awaiting_liquidity ↦ false | s ↦ true ]

-- `open_count >= (max_open ?? Infinity)`
abbrev pub is_capped : ℕ → Option ℕ → Bool
is_capped count none = false
is_capped count (some cap) = leb cap count

abbrev pub unless : Bool → NotAsked → Decided → Decided
unless true why rest = not_asked why
unless false why rest = rest

-- The guards, in their order; `key` is the candidate's `templateParamsKey`
abbrev pub guarded : Snapshot → ℕ → State → Decided
guarded view key s = unless (not (is_running view.state)) (not_running view.state) (
    unless (is_capped view.open_count view.max_open) concurrency_cap (
      unless (not (is_backed (find (λ (v : SlotView). v.slot_index == 0) view.slots)))
        headline_unbacked
        (unless (not view.is_fresh) source_stale (
          unless (exists (λ k. k == key) s.pending_requests) already_requested
            (asking (record s { pending_requests = s.pending_requests ++ key ∷ [] }))))))

-- `maybeRequestSlot` up to the call of the publisher
unfoldable pub begin_request : Bool → Projection → Config → ℕ → ℕ → State → Decided
begin_request has_publisher store config now_ms key s =
    if has_publisher then guarded (snapshot store config now_ms s) key s else not_asked no_publisher

-- The `finally` after it
unfoldable pub end_request : ℕ → State → State
end_request key s = record s { pending_requests = keep (λ k. not (k == key)) s.pending_requests }

-- What stands when the publisher is asked
abbrev pub IsAsked : Snapshot → ℕ → State → Type 0
IsAsked view key s =
    (is_running view.state ≡ true)
    × ((is_capped view.open_count view.max_open ≡ false)
        × ((is_backed (find (λ (v : SlotView). v.slot_index == 0) view.slots) ≡ true)
            × ((view.is_fresh ≡ true) × (exists (λ k. k == key) s.pending_requests ≡ false))))

-- The state with the candidate asked for
abbrev pub with_request : ℕ → State → State
with_request key s = record s { pending_requests = s.pending_requests ++ key ∷ [] }
