-- ===== src/Ports/EventStore.antt =====
-- services/live-room/src/ports/stores.mjs: `MemoryEventStore`, the append-only log, which several
-- rooms may share. Writing the row to a file (`persist`) is not modelled.
pub mod Rooms
use tradermarket.Base.{
  ℕ, ◌+◌, Bool, true, false, ◌&&◌, ◌||◌, Option, none, some, List, [], ◌∷◌, ◌++◌, ◌==◌, leb,
  if◌then◌else◌, last?, keep, Result, ok, err, or_else,
}
use tradermarket.Domain.Event.{Event}

pub record EventStore : Type 0 where
  pub events : List Event
  pub room : Option ℕ

pub data AppendError : Type 0 where
  other_room append_gap : AppendError

-- `_roomOf`; room 0 stands for the empty text that a missing room reads as.
abbrev pub in_room : ℕ → Event → Bool
in_room r e = e.room_id == r

abbrev pub visible_in : Option ℕ → List Event → List Event
visible_in none events = events
visible_in (some r) events = keep (in_room r) events

-- `_visible`, which `all` and `count` return
abbrev pub visible : EventStore → List Event
visible s = visible_in s.room s.events

abbrev pub tip : EventStore → Option Event
tip s = last? (visible s)

abbrev pub next_seq : Option Event → ℕ
next_seq none = 1
next_seq (some e) = e.seq + 1

-- The sequence number that `append` expects in a room
abbrev pub expected_seq : ℕ → List Event → ℕ
expected_seq r events = next_seq (last? (keep (in_room r) events))

-- The three checks of `append`, on the room that the event ends up in
abbrev pub append_in : EventStore → ℕ → Event → Result AppendError EventStore
append_in s r e =
    if e.seq == expected_seq r s.events
    then ok (record s { events = s.events ++ e ∷ [] })
    else err append_gap

-- The row that is stored: an event that names no room gets the room of the view.
abbrev pub normalized : Option ℕ → Event → Event
normalized none e = e
normalized (some r) e = if e.room_id == 0 then record e { room_id = r } else e

unfoldable pub append_to : Option ℕ → EventStore → Event → Result AppendError EventStore
append_to none s e = append_in s e.room_id e
append_to (some r) s e =
    if e.room_id == 0 || e.room_id == r
    then append_in s r (normalized (some r) e)
    else err other_room

-- `append`
unfoldable pub append : EventStore → Event → Result AppendError EventStore
unfolding append_to
append s e = append_to s.room s e

-- `forRoom`
abbrev pub for_room : EventStore → ℕ → EventStore
for_room s r = record s { room = some r }

-- `slice`, with `none` for an open end
abbrev pub in_window : ℕ → Option ℕ → Event → Bool
in_window from none e = leb from e.seq
in_window from (some to) e = leb from e.seq && leb e.seq to

unfoldable pub slice : EventStore → ℕ → Option ℕ → List Event
slice s from to = keep (in_window from to) (visible s)
