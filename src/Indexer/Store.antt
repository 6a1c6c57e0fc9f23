-- ===== src/Indexer/Store.antt =====
-- The writes of a `ProjectionStore` and the reads that its writers make
-- (services/live-room/src/indexer/projection.mjs). A row that is merged into another one is a
-- function on rows.
use tradermarket.Base.{
  ℕ, Bool, false, Option, none, some, List, [], ◌∷◌, ◌++◌, keep, find, ◌==◌, ltb, if◌then◌else◌,
  or_else,
}
use tradermarket.Base.Dict.{lookup, insert}
use tradermarket.Base.PairDict.{lookup_pair, insert_pair}
use tradermarket.Indexer.{
  RoomRow, SlotRow, MarketRow, ActionRow, Position, HoldingRow, SkipRow, TradeRow, ClaimRow,
  AttestationRow, VerdictRow, IntegrityClaimRow, BondRow, Projection, Names,
}
use tradermarket.Indexer.Fresh.{
  new_room, new_slot, new_market, new_action, new_integrity_claim, new_bond, no_position,
  add_position,
}

-- `[...map.values()]`
abbrev pub values {ℓ κ} : {K : Type ℓ} {V : Type κ} → List (K × V) → List V
values [] = []
values ((k, v) ∷ rest) = v ∷ values rest

unfoldable pub upsert_room : ℕ → (RoomRow → RoomRow) → Projection → Projection
upsert_room id merge s = record s {
  rooms = insert id (merge (or_else (lookup id s.rooms) (new_room id))) s.rooms;
}

abbrev pub get_room : ℕ → Projection → Option RoomRow
get_room id s = lookup id s.rooms

unfoldable pub upsert_slot : ℕ → ℕ → (SlotRow → SlotRow) → Projection → Projection
upsert_slot id index merge s =
    let old = or_else (lookup_pair (id, index) s.slots) (new_slot id index) in
    record s { slots = insert_pair (id, index) (merge old) s.slots }

-- `a.slot_index - b.slot_index`
abbrev pub put_slot : SlotRow → List SlotRow → List SlotRow
put_slot r [] = r ∷ []
put_slot r (s ∷ rest) =
    let after = put_slot r rest in if ltb r.slot_index s.slot_index then r ∷ s ∷ rest else s ∷ after

abbrev pub sort_slots : List SlotRow → List SlotRow
sort_slots [] = []
sort_slots (r ∷ rest) = put_slot r (sort_slots rest)

unfoldable pub list_slots : ℕ → Projection → List SlotRow
list_slots id s = sort_slots (keep (λ (r : SlotRow). r.room_id == id) (values s.slots))

unfoldable pub append_skip : SkipRow → Projection → Projection
append_skip row s = record s { skips = s.skips ++ row ∷ [] }

unfoldable pub append_trade : TradeRow → Projection → Projection
append_trade row s = record s { trades = s.trades ++ row ∷ [] }

unfoldable pub append_claim : ClaimRow → Projection → Projection
append_claim row s = record s { claims = s.claims ++ row ∷ [] }

unfoldable pub append_attestation : AttestationRow → Projection → Projection
append_attestation row s = record s { attestations = s.attestations ++ row ∷ [] }

unfoldable pub append_challenge_verdict : VerdictRow → Projection → Projection
append_challenge_verdict row s = record s { challenge_verdicts = s.challenge_verdicts ++ row ∷ [] }

unfoldable pub upsert_integrity_claim :
    ℕ → ℕ → (IntegrityClaimRow → IntegrityClaimRow) → Projection → Projection
upsert_integrity_claim id claim merge s =
    let old = or_else (lookup_pair (id, claim) s.integrity_claims) (new_integrity_claim id claim) in
    record s { integrity_claims = insert_pair (id, claim) (merge old) s.integrity_claims }

unfoldable pub upsert_bond : ℕ → ℕ → (BondRow → BondRow) → Projection → Projection
upsert_bond id person merge s =
    let old = or_else (lookup_pair (id, person) s.bonds) (new_bond id person) in
    record s { bonds = insert_pair (id, person) (merge old) s.bonds }

module _ (names : Names) where
  open names use {lower}

  abbrev pub is_of_market : ℕ → SlotRow → Bool
  is_of_market market r = elim (r.market_address) [
    | none ↦ false
    | some a ↦ lower a == lower market
  ]

  unfoldable pub slot_by_market : ℕ → Projection → Option SlotRow
  slot_by_market market s = find (is_of_market market) (values s.slots)

  unfoldable pub upsert_market : ℕ → (MarketRow → MarketRow) → Projection → Projection
  upsert_market market merge s =
      let id = lower market in
      record s {
        markets = insert id (merge (or_else (lookup id s.markets) (new_market market))) s.markets;
      }

  unfoldable pub get_market : ℕ → Projection → Option MarketRow
  get_market market s = lookup (lower market) s.markets

  unfoldable pub upsert_action : ℕ → ℕ → (ActionRow → ActionRow) → Projection → Projection
  upsert_action market id merge s =
      let old = or_else (lookup_pair (lower market, id) s.actions) (new_action market id) in
      let row = record (merge old) { market_address = market; action_id = id } in
      record s { actions = insert_pair (lower market, id) row s.actions }

  abbrev pub held_by : ℕ → ℕ → ℕ → Projection → HoldingRow
  held_by market account block s =
      or_else (lookup_pair (lower market, lower account) s.holdings) (record {
        market_address = market;
        account = account;
        position = no_position;
        block_number = block;
      })

  unfoldable pub adjust_holding : ℕ → ℕ → Position → ℕ → Projection → Projection
  adjust_holding market account delta block s =
      let row = held_by market account block s in
      record s {
        holdings =
            insert_pair (lower market, lower account)
              (record row { position = add_position row.position delta; block_number = block })
              s.holdings;
      }

  unfoldable pub get_holding : ℕ → ℕ → Projection → HoldingRow
  get_holding market account s = held_by market account s.cursor_block s

  unfoldable pub record_safe_epoch : ℕ → ℕ → ℕ → ℕ → Projection → Projection
  record_safe_epoch market epoch source_sequence block s = record s {
    safe_epochs =
        insert_pair (lower market, epoch)
          (record {
            market_address = market;
            epoch = epoch;
            source_sequence = source_sequence;
            block_number = block;
          })
          s.safe_epochs;
  }
