-- ===== src/Coordinator/Tick.antt =====
-- What a pass publishes (services/live-room/src/coordinator/coordinator.mjs, `tick` to
-- `_advanceFocus`).
use tradermarket.Base.{
  ℕ, Bool, true, false, not, ◌||◌, Option, none, some, List, [], ◌∷◌, keep, find, last?, ltb, ◌==◌,
  if◌then◌else◌,
}
use tradermarket.Coordinator.{
  SlotState, open_slot, awaiting_liquidity, suspended_slot, closed_slot, provisional, challenged,
  final, invalid, other_slot, RoomState, draft, live, armed, other_room, SlotView, Snapshot,
  FrameType, room_state_changed, source_freshness_changed, slot_published, slot_opened,
  slot_gate_changed, slot_closed, slot_provisional, slot_challenged, slot_final, slot_invalid,
  slot_price_changed, slot_liquidity_changed, room_focus_changed, room_payload, freshness_payload,
  slot_payload, slot_state_payload, price_payload, liquidity_payload, focus_payload, State, Config,
  Projection,
}
use tradermarket.Coordinator.View.{is_tradable, snapshot}
use tradermarket.Coordinator.Publishing.{publish}

abbrev pub slot_state_eq : SlotState → SlotState → Bool
slot_state_eq open_slot open_slot = true
slot_state_eq awaiting_liquidity awaiting_liquidity = true
slot_state_eq suspended_slot suspended_slot = true
slot_state_eq closed_slot closed_slot = true
slot_state_eq provisional provisional = true
slot_state_eq challenged challenged = true
slot_state_eq final final = true
slot_state_eq invalid invalid = true
slot_state_eq (other_slot a) (other_slot b) = a == b
slot_state_eq s t = false

abbrev pub room_state_eq : RoomState → RoomState → Bool
room_state_eq draft draft = true
room_state_eq live live = true
room_state_eq armed armed = true
room_state_eq (other_room a) (other_room b) = a == b
room_state_eq s t = false

abbrev pub bool_eq : Bool → Bool → Bool
bool_eq true b = b
bool_eq false b = not b

abbrev pub option_eq : Option ℕ → Option ℕ → Bool
option_eq none none = true
option_eq (some a) (some b) = a == b
option_eq a b = false

-- `price?.implied_prob_a`, `liquidity?.total_lp_shares`
abbrev pub value_of : Option (ℕ × ℕ) → Option ℕ
value_of none = none
value_of (some p) = some p.0

-- `_slotEventFor`
unfoldable pub slot_event_for : SlotState → FrameType
slot_event_for open_slot = slot_opened
slot_event_for suspended_slot = slot_gate_changed
slot_event_for closed_slot = slot_closed
slot_event_for provisional = slot_provisional
slot_event_for challenged = slot_challenged
slot_event_for final = slot_final
slot_event_for invalid = slot_invalid
slot_event_for awaiting_liquidity = slot_gate_changed
slot_event_for (other_slot n) = slot_gate_changed

-- One statement after another, where each may throw
abbrev pub after : State × Bool → (State → State × Bool) → State × Bool
after (s, false) f = (s, false)
after (s, true) f = f s

abbrev pub emit_if : Bool → (State → State × Bool) → State → State × Bool
emit_if true f s = f s
emit_if false f s = (s, true)

-- The newest tradable micro slot, else the first tradable slot
abbrev pub next_focus : List SlotView → Option ℕ
next_focus slots =
    let tradable = keep (λ (v : SlotView). is_tradable v.state) slots in
    let micro = keep (λ (v : SlotView). ltb 0 v.slot_index) tradable in
    elim (last? micro) [
      | some v ↦ some v.slot_index
      | none ↦ elim tradable [ [] ↦ none | v ∷ vs ↦ some v.slot_index ]
    ]

module _ (config : Config) where
  -- `_advanceFocus`
  unfoldable pub advance_focus : Snapshot → State → State × Bool
  advance_focus view s =
      let next = next_focus view.slots in
      if option_eq next s.focus
      then (s, true)
      else publish config room_focus_changed (focus_payload next) (some view.block) none
          (record s { focus = next })

  abbrev pub slot_changes : ℕ → SlotView → SlotView → State → State × Bool
  slot_changes block before slot s =
      after
        (after
          (emit_if (not (slot_state_eq before.state slot.state))
            (publish config (slot_event_for slot.state)
              (slot_state_payload slot.slot_index slot.state) (some block) none)
            s)
          (emit_if (not (option_eq (value_of before.price) (value_of slot.price))) (
            publish config slot_price_changed (price_payload slot.slot_index slot.price)
              (some block) none)))
        (emit_if (not (option_eq (value_of before.liquidity) (value_of slot.liquidity))) (
          publish config slot_liquidity_changed (liquidity_payload slot.slot_index slot.liquidity)
            (some block) none))

  abbrev pub slot_delta : ℕ → Option SlotView → SlotView → State → State × Bool
  slot_delta block none slot s =
      publish config slot_published (slot_payload slot) (some block) none s
  slot_delta block (some before) slot s = slot_changes block before slot s

  -- `new Map(...)` keeps the last entry of an index, and a room has one slot for each.
  abbrev pub slot_before : List SlotView → ℕ → Option SlotView
  slot_before slots index = find (λ (v : SlotView). v.slot_index == index) slots

  -- The loop over the slots
  abbrev pub slot_deltas : ℕ → List SlotView → List SlotView → State → State × Bool
  slot_deltas block before [] s = (s, true)
  slot_deltas block before (v ∷ vs) s =
      after (slot_delta block (slot_before before v.slot_index) v s) (slot_deltas block before vs)

  abbrev pub room_delta : Snapshot → State → State × Bool
  room_delta view s =
      publish config room_state_changed (room_payload view.state) (some view.block) none s

  abbrev pub freshness_delta : Snapshot → State → State × Bool
  freshness_delta view s =
      publish config source_freshness_changed (freshness_payload view.is_fresh view.age_ms) none
        (some view.last_seq) s

  abbrev pub deltas : Option Snapshot → Snapshot → State → State × Bool
  deltas none view s = room_delta view s
  deltas (some previous) view s =
      after
        (after (emit_if (not (room_state_eq previous.state view.state)) (room_delta view) s) (
          emit_if
            (not (previous.last_seq == view.last_seq)
              || not (bool_eq previous.is_fresh view.is_fresh))
            (freshness_delta view)))
        (slot_deltas view.block previous.slots view.slots)

-- `tick`, whose snapshot becomes the `last_snapshot`
unfoldable pub tick : Projection → Config → ℕ → State → State × Bool
tick store config now_ms s =
    let view = snapshot store config now_ms s in
    after (deltas config s.last_snapshot view (record s { last_snapshot = some view }))
      (advance_focus config view)
