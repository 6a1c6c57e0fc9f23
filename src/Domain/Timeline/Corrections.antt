-- ===== src/Domain/Timeline/Corrections.antt =====
-- Corrections take the place of what they correct
-- (services/live-room/src/domain/conditions.mjs, `rectify`).
use tradermarket.Base.{ℕ, ◌<◌, ◌≡◌, some, length}
use tradermarket.Base.Dict.{lookup}
use tradermarket.Domain.Event.{Event}
use tradermarket.Domain.Timeline.{Placement}

-- Every slot points into the timeline.
abbrev InRange : Placement → Type 0
InRange p = (h i : ℕ) → lookup h p.slot_of ≡ some i → i < length p.timeline
