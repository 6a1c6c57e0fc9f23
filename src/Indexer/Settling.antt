-- ===== src/Indexer/Settling.antt =====
-- When a room is settled (services/live-room/src/indexer/indexer.mjs, `_maybeSettleRoom`).
use tradermarket.Base.{
  ℕ, ◌≡◌, refl, ◌∙◌, Bool, true, false, Option, none, some, List, [], ◌∷◌, arith, if◌then◌else◌,
  ◌&&◌, ◌||◌, not, ◌==◌, is_nil, exists, keep, or_else, is_some, ==_refl,
}
use tradermarket.Base.Dict.{lookup-insert}
use tradermarket.Indexer.{
  RoomState, SlotState, announced, awaiting_liquidity, open_slot, suspended, closed, provisional,
  challenged, final, invalid, settling, final_room, invalid_room, RoomRow, SlotRow, Projection,
}
use tradermarket.Indexer.Store.{values, upsert_room, get_room, put_slot, sort_slots, list_slots}
use tradermarket.Indexer.Fresh.{new_room}
use tradermarket.Indexer.States.{
  state_code, is_terminal, all_terminal, is_final, room_verdict, settled_as, maybe_settle_room,
}

-- The room's slots: whether there is one, whether there is one that is not settled, and whether
-- there is one with a valid result
abbrev pub of_room : ℕ → SlotRow → Bool
of_room id r = r.room_id == id

abbrev pub has_slot : ℕ → List SlotRow → Bool
has_slot id rows = exists (of_room id) rows

-- A slot's result is known once it is final or invalid.
abbrev pub is_known : Option SlotState → Bool
is_known none = false
is_known (some final) = true
is_known (some invalid) = true
is_known (some announced) = false
is_known (some awaiting_liquidity) = false
is_known (some open_slot) = false
is_known (some suspended) = false
is_known (some closed) = false
is_known (some provisional) = false
is_known (some challenged) = false

abbrev pub is_valid : Option SlotState → Bool
is_valid none = false
is_valid (some s) = state_code s == 7

abbrev pub has_open : ℕ → List SlotRow → Bool
has_open id rows = exists (λ (r : SlotRow). of_room id r && not (is_known r.state)) rows

abbrev pub has_valid : ℕ → List SlotRow → Bool
has_valid id rows = exists (λ (r : SlotRow). of_room id r && is_valid r.state) rows

is_known-terminal : (o : Option SlotState) → is_known o ≡ is_terminal o
is_known-terminal none = refl
is_known-terminal (some s) = ground arith

is_valid-final : (r : SlotRow) → is_valid r.state ≡ is_final r
is_valid-final r = ground arith

-- What a closed room is, by its slots
abbrev pub verdict : ℕ → List SlotRow → RoomState
verdict id rows =
    if not (has_slot id rows) || has_open id rows
    then settling
    else if has_valid id rows
    then final_room
    else invalid_room

all_terminal-put_slot :
    (r : SlotRow) (rows : List SlotRow)
    → all_terminal (put_slot r rows) ≡ (is_terminal r.state && all_terminal rows)
all_terminal-put_slot r [] = refl
all_terminal-put_slot r (s ∷ rows) = ground (arith, all_terminal-put_slot r rows)

exists-put_slot :
    (r : SlotRow) (rows : List SlotRow)
    → exists is_final (put_slot r rows) ≡ (is_final r || exists is_final rows)
exists-put_slot r [] = ground arith
exists-put_slot r (s ∷ rows) = ground (arith, exists-put_slot r rows)

is_nil-put_slot : (r : SlotRow) (rows : List SlotRow) → is_nil (put_slot r rows) ≡ false
is_nil-put_slot r [] = refl
is_nil-put_slot r (s ∷ rows) = ground arith

-- Sorting is of no account.
sorted_terminal :
    (id : ℕ) (rows : List SlotRow)
    → all_terminal (sort_slots (keep (of_room id) rows)) ≡ not (has_open id rows)
sorted_terminal id [] = refl
sorted_terminal id (r ∷ rows) = ground (
  arith,
  sorted_terminal id rows,
  all_terminal-put_slot r (sort_slots (keep (of_room id) rows)),
  is_known-terminal r.state,
)

sorted_valid :
    (id : ℕ) (rows : List SlotRow)
    → exists is_final (sort_slots (keep (of_room id) rows)) ≡ has_valid id rows
sorted_valid id [] = refl
sorted_valid id (r ∷ rows) = ground (
  arith,
  sorted_valid id rows,
  exists-put_slot r (sort_slots (keep (of_room id) rows)),
  is_valid-final r,
)

sorted_nil :
    (id : ℕ) (rows : List SlotRow)
    → is_nil (sort_slots (keep (of_room id) rows)) ≡ not (has_slot id rows)
sorted_nil id [] = refl
sorted_nil id (r ∷ rows) =
    ground (arith, sorted_nil id rows, is_nil-put_slot r (sort_slots (keep (of_room id) rows)))

room_verdict-verdict :
    (id : ℕ) (rows : List SlotRow)
    → room_verdict (sort_slots (keep (of_room id) rows)) ≡ verdict id rows
room_verdict-verdict id rows =
    ground (arith, sorted_terminal id rows, sorted_valid id rows, sorted_nil id rows)

get_room-upsert_room :
    (id : ℕ) (merge : RoomRow → RoomRow) (s : Projection)
    → get_room id (upsert_room id merge s) ≡ some (merge (or_else (get_room id s) (new_room id)))
unfolding upsert_room
get_room-upsert_room id merge s =
    lookup-insert id id (merge (or_else (get_room id s) (new_room id))) s.rooms
    ∙ ground (arith, ==_refl id)

-- A room with a closing sequence gets a state by all its slots, and the block, and nothing else of
-- it changes: it is settling while it has no slot or one that is neither final nor invalid, and else
-- it is final where a slot is final and invalid where all are invalid. A room without a closing
-- sequence stays as it is.
pub maybe_settle_room-verdict :
    (id block : ℕ) (s : Projection) (r : RoomRow)
    → get_room id s ≡ some r
    → get_room id (maybe_settle_room id block s)
      ≡ some (
          if is_some r.closed_source_seq
          then record r { state = some (verdict id (values s.slots)); block_number = some block }
          else r)
unfolding maybe_settle_room list_slots
maybe_settle_room-verdict id block s r found = ground (
  arith,
  room_verdict-verdict id (values s.slots),
  get_room-upsert_room id (settled_as (room_verdict (list_slots id s)) block) s,
)
