-- ===== src/Indexer/States.antt =====
-- The states of slots and rooms that follow from others (services/live-room/src/indexer/indexer.mjs,
-- `_syncSlotState` and `_maybeSettleRoom`).
use tradermarket.Base.{
  ℕ, Bool, true, false, Option, none, some, List, [], ◌∷◌, ◌&&◌, ◌||◌, not, ◌==◌, if◌then◌else◌,
  or_else, exists, is_nil,
}
use tradermarket.Indexer.{
  RoomState, settling, final_room, invalid_room, SlotState, announced, awaiting_liquidity,
  open_slot, suspended, closed, provisional, challenged, final, invalid, RoomRow, SlotRow,
  MarketRow, Projection, Names,
}
use tradermarket.Indexer.Store.{
  upsert_room, get_room, upsert_slot, list_slots, slot_by_market, get_market,
}

-- `SLOT_TERMINAL`
abbrev pub is_terminal : Option SlotState → Bool
is_terminal (some final) = true
is_terminal (some invalid) = true
is_terminal s = false

-- `SLOT_RESOLVING`
abbrev pub is_resolving : Option SlotState → Bool
is_resolving (some provisional) = true
is_resolving (some challenged) = true
is_resolving s = false

abbrev pub all_terminal : List SlotRow → Bool
all_terminal [] = true
all_terminal (r ∷ rest) = let others = all_terminal rest in is_terminal r.state && others

abbrev pub state_code : SlotState → ℕ
state_code announced = 0
state_code awaiting_liquidity = 1
state_code open_slot = 2
state_code suspended = 3
state_code closed = 4
state_code provisional = 5
state_code challenged = 6
state_code final = 7
state_code invalid = 8

abbrev pub is_in_state : Option SlotState → SlotState → Bool
is_in_state none state = false
is_in_state (some old) state = state_code old == state_code state

abbrev pub is_final : SlotRow → Bool
is_final r = elim (r.state) [ some final ↦ true | other ↦ false ]

abbrev pub room_verdict : List SlotRow → RoomState
room_verdict slots =
    if not (is_nil slots) && all_terminal slots
    then if exists is_final slots then final_room else invalid_room
    else settling

abbrev pub settled_as : RoomState → ℕ → RoomRow → RoomRow
settled_as state block r = record r { state = some state; block_number = some block }

abbrev pub settle_state : ℕ → ℕ → Projection → Projection
settle_state id block s = upsert_room id (settled_as (room_verdict (list_slots id s)) block) s

-- `_maybeSettleRoom`
unfoldable pub maybe_settle_room : ℕ → ℕ → Projection → Projection
maybe_settle_room id block s = elim (get_room id s) [
  | none ↦ s
  | some r ↦ elim (r.closed_source_seq) [ none ↦ s | some n ↦ settle_state id block s ]
]

abbrev pub set_slot_state : SlotState → ℕ → SlotRow → SlotRow
set_slot_state state block r = record r { state = some state; block_number = some block }

abbrev pub move_slot : SlotRow → SlotState → ℕ → Projection → Projection
move_slot slot state block s =
    if is_in_state slot.state state
    then s
    else upsert_slot slot.room_id slot.slot_index (set_slot_state state block) s

abbrev pub derived_state : MarketRow → SlotState
derived_state row =
    if not (or_else row.final_outcome 0 == 0)
    then if or_else row.final_outcome 0 == 4 then invalid else final
    else if or_else row.gate_state 0 == 2
    then closed
    else if or_else row.gate_state 0 == 1
    then suspended
    else if or_else row.total_lp_shares 0 == 0
    then awaiting_liquidity
    else open_slot

module _ (names : Names) where
  -- `_syncSlotState`
  unfoldable pub sync_slot_state : ℕ → ℕ → Projection → Projection
  sync_slot_state market block s = elim (slot_by_market names market s) [
    | none ↦ s
    | some slot ↦
        if is_terminal slot.state || is_resolving slot.state
        then s
        else elim (get_market names market s) [
          | none ↦ s
          | some row ↦ move_slot slot (derived_state row) block s
        ]
  ]
