-- ===== src/Indexer/Books.antt =====
-- Which tables a handler of services/live-room/src/indexer/indexer.mjs writes: the trades, the
-- claims, the holdings and the actions change by their own events only.
use tradermarket.Base.{
  ℕ, ◌≡◌, refl, none, some, List, [], ◌∷◌, inl, inr, arith, Bool-cases, All, or_else,
}
use tradermarket.Base.PairDict.{PairDict, lookup_pair, insert_pair, same_pair}
use tradermarket.Indexer.{
  RoomRow, SlotRow, MarketRow, ActionRow, HoldingRow, TradeRow, ClaimRow, IntegrityClaimRow,
  BondRow, Projection, SlotState, Names,
}
use tradermarket.Indexer.Events.{Log}
use tradermarket.Indexer.Store.{
  upsert_room, upsert_slot, upsert_integrity_claim, upsert_bond, upsert_market, upsert_action,
  values,
}
use tradermarket.Indexer.Rooms.{with_room}
use tradermarket.Indexer.Markets.{update_slot}
use tradermarket.Indexer.States.{set_slot_state, maybe_settle_room, move_slot, sync_slot_state}

pub record Books : Type 0 where
  pub trades : List TradeRow
  pub claims : List ClaimRow
  pub holdings : PairDict HoldingRow
  pub actions : PairDict ActionRow

abbrev pub books : Projection → Books
books s = record {
  trades = s.trades;
  claims = s.claims;
  holdings = s.holdings;
  actions = s.actions;
}

-- No row tells the side of its action.
abbrev pub IsSideless : PairDict ActionRow → Type 0
IsSideless rows = All (λ (r : ActionRow). r.outcome_a ≡ none) (values rows)

All-values-insert_pair :
    (P : ActionRow → Type 0) (key : ℕ × ℕ) (row : ActionRow) (rows : PairDict ActionRow)
    → P row
    → All P (values rows)
    → All P (values (insert_pair key row rows))
All-values-insert_pair P key row [] h hs = (h, tt)
All-values-insert_pair P key row ((first, old) ∷ rest) h (k, ks) =
    elim (Bool-cases (same_pair first key)) [
      | inl same ↦ rw same (h, ks)
      | inr other ↦ rw other (k, All-values-insert_pair P key row rest h ks)
    ]

outcome-or_else :
    (key : ℕ × ℕ) (fresh : ActionRow) (rows : PairDict ActionRow)
    → fresh.outcome_a ≡ none
    → IsSideless rows
    → (or_else (lookup_pair key rows) fresh).outcome_a ≡ none
outcome-or_else key fresh [] h hs = h
outcome-or_else key fresh ((first, old) ∷ rest) h (k, ks) =
    elim (Bool-cases (same_pair first key)) [
      | inl same ↦ rw same k
      | inr other ↦ rw other (outcome-or_else key fresh rest h ks)
    ]

pub books-upsert_room :
    (id : ℕ) (merge : RoomRow → RoomRow) (s : Projection) → books (upsert_room id merge s) ≡ books s
unfolding upsert_room
books-upsert_room id merge s = refl

pub books-upsert_slot :
    (id index : ℕ) (merge : SlotRow → SlotRow) (s : Projection)
    → books (upsert_slot id index merge s) ≡ books s
unfolding upsert_slot
books-upsert_slot id index merge s = refl

pub books-upsert_integrity_claim :
    (id claim : ℕ) (merge : IntegrityClaimRow → IntegrityClaimRow) (s : Projection)
    → books (upsert_integrity_claim id claim merge s) ≡ books s
unfolding upsert_integrity_claim
books-upsert_integrity_claim id claim merge s = refl

pub books-upsert_bond :
    (id person : ℕ) (merge : BondRow → BondRow) (s : Projection)
    → books (upsert_bond id person merge s) ≡ books s
unfolding upsert_bond
books-upsert_bond id person merge s = refl

pub books-maybe_settle_room :
    (id block : ℕ) (s : Projection) → books (maybe_settle_room id block s) ≡ books s
unfolding maybe_settle_room upsert_room
books-maybe_settle_room id block s = ground arith

books-move_slot :
    (slot : SlotRow) (state : SlotState) (block : ℕ) (s : Projection)
    → books (move_slot slot state block s) ≡ books s
books-move_slot slot state block s =
    ground (arith, books-upsert_slot slot.room_id slot.slot_index (set_slot_state state block) s)

module _ (names : Names) where
  pub upsert_action-IsSideless :
      (market id : ℕ) (merge : ActionRow → ActionRow) (s : Projection)
      → ((r : ActionRow) → r.outcome_a ≡ none → (merge r).outcome_a ≡ none)
      → IsSideless s.actions
      → IsSideless (upsert_action names market id merge s).actions
  unfolding upsert_action
  upsert_action-IsSideless market id merge s keeps h =
      All-values-insert_pair _ _ _ s.actions (keeps _ (outcome-or_else _ _ s.actions refl h)) h

  pub books-upsert_market :
      (market : ℕ) (merge : MarketRow → MarketRow) (s : Projection)
      → books (upsert_market names market merge s) ≡ books s
  unfolding upsert_market
  books-upsert_market market merge s = refl

  -- A handler that throws for an unknown room
  pub books-with_room :
      (log : Log) (write : ℕ → Projection → Projection) (s t : Projection)
      → with_room names log write s ≡ some t
      → ((id : ℕ) → books (write id s) ≡ books s)
      → books t ≡ books s
  books-with_room log write s t e same = grind (arith, λ (r : RoomRow). same r.room_id)

  pub books-update_slot :
      (log : Log) (merge : SlotRow → SlotRow) (s : Projection)
      → books (update_slot names log merge s) ≡ books s
  books-update_slot log merge s =
      grind (arith, λ (r : SlotRow). books-upsert_slot r.room_id r.slot_index merge s)

  pub books-sync_slot_state :
      (market block : ℕ) (s : Projection) → books (sync_slot_state names market block s) ≡ books s
  unfolding sync_slot_state
  books-sync_slot_state market block s =
      grind (arith, λ (r : SlotRow) (state : SlotState). books-move_slot r state block s)
