-- ===== src/Indexer/Rooms.antt =====
-- Handlers of the factory's and the rooms' logs (services/live-room/src/indexer/indexer.mjs,
-- `_onRoomCreated` to `_onIntegrityClaimExpired`). A handler throws only where it looks for the
-- room of an address that no row has, before it writes anything.
use tradermarket.Base.{ℕ, Bool, true, false, Option, none, some, find, ◌==◌, if◌then◌else◌, or_else}
use tradermarket.Indexer.{
  armed, live, closing, announced, RoomRow, SlotRow, MarketRow, ClaimStatus, open_claim, upheld,
  rejected, expired, BondRow, Projection, SlotMeta, Names,
}
use tradermarket.Indexer.Events.{Log}
use tradermarket.Indexer.Store.{
  values, upsert_room, upsert_slot, append_skip, upsert_integrity_claim, upsert_bond, upsert_market,
  get_market,
}

-- `a ?? b`, where both may be missing
abbrev pub first_of : Option ℕ → Option ℕ → Option ℕ
first_of none b = b
first_of (some a) b = some a

-- `_roomById`
unfoldable pub room_by_id : ℕ → Projection → Option RoomRow
room_by_id id s = find (λ (r : RoomRow). r.room_id == id) (values s.rooms)

abbrev pub observe_sequence : Log → ℕ → ℕ → Projection → Projection
observe_sequence log sequence id =
    upsert_room id
      λ r. record r { last_observed_seq = some sequence; block_number = some log.block_number }

abbrev pub close_room : Log → ℕ → ℕ → Projection → Projection
close_room log sequence id = upsert_room id λ r. record r {
  state = some closing;
  closed_source_seq = some sequence;
  last_observed_seq = some sequence;
  block_number = some log.block_number;
}

abbrev pub close_stalled : Log → ℕ → ℕ → Projection → Projection
close_stalled log since id = upsert_room id λ r. record r {
  state = some closing;
  closed_by_stall = true;
  stalled_since = some since;
  block_number = some log.block_number;
}

abbrev pub note_skip : Log → ℕ → ℕ → ℕ → ℕ → ℕ → Projection → Projection
note_skip log market epoch selector reason id = append_skip (record {
  room_id = id;
  market = market;
  epoch = epoch;
  selector = selector;
  reason = reason;
  block_number = log.block_number;
})

abbrev pub put_bond : Log → ℕ → (BondRow → BondRow) → ℕ → Projection → Projection
put_bond log participant fields id =
    upsert_bond id participant λ r. record (fields r) { block_number = some log.block_number }

abbrev pub file_claim : Log → ℕ → ℕ → ℕ → ℕ → ℕ → Projection → Projection
file_claim log claim_id claimant participant code id = upsert_integrity_claim id claim_id λ r.
    record r {
      claimant = some claimant;
      participant = some participant;
      violation_code = some code;
      status = some open_claim;
      block_number = some log.block_number;
    }

abbrev pub put_claim_status : Log → ℕ → ClaimStatus → ℕ → Projection → Projection
put_claim_status log claim_id status id =
    upsert_integrity_claim id claim_id
      λ r. record r { status = some status; block_number = some log.block_number }

module _ (names : Names) where
  open names use {lower, decode_room_id, slot_meta}

  abbrev pub is_at : ℕ → RoomRow → Bool
  is_at address r = elim (r.live_room_address) [ none ↦ false | some a ↦ lower a == lower address ]

  -- `_roomByAddress`, which throws where it finds none
  unfoldable pub room_by_address : ℕ → Projection → Option RoomRow
  room_by_address address s = find (is_at address) (values s.rooms)

  abbrev pub with_room : Log → (ℕ → Projection → Projection) → Projection → Option Projection
  with_room log write s = elim (room_by_address log.address s) [
    | none ↦ none
    | some r ↦ some (write r.room_id s)
  ]

  unfoldable pub on_room_created : Log → ℕ → ℕ → ℕ → ℕ → Projection → Projection
  on_room_created log room_id room gate_signer publisher = upsert_room (decode_room_id room_id) λ r.
      record r {
        room_id_bytes32 = some room_id;
        live_room_address = some room;
        factory_address = some log.address;
        state = some armed;
        gate_signer = some gate_signer;
        publisher = some publisher;
        last_observed_seq = some 0;
        closed_source_seq = none;
        room_seq = some 0;
        block_number = some log.block_number;
      }

  abbrev pub room_name : ℕ → Projection → ℕ
  room_name id s = elim (room_by_id id s) [ none ↦ id | some r ↦ r.room_id ]

  unfoldable pub on_market_created : Log → ℕ → ℕ → ℕ → ℕ → ℕ → ℕ → ℕ → Projection → Projection
  on_market_created log market room_id slot_index template_id condition_hash question stream_url s =
      upsert_market names market
        (λ r. record r {
          room_id = some (room_name (decode_room_id room_id) s);
          slot_index = some slot_index;
          template_id = some template_id;
          condition_hash = some condition_hash;
          question = some question;
          stream_url = some stream_url;
          final_outcome = some 0;
          block_number = some log.block_number;
        })
        s

  abbrev pub question_of : SlotMeta → Option MarketRow → ℕ
  question_of meta none = or_else meta.question 0
  question_of meta (some row) = or_else (first_of meta.question row.question) 0

  abbrev pub reward_of : SlotMeta → Option MarketRow → Option ℕ
  reward_of meta none = meta.winner_reward_bps
  reward_of meta (some row) = first_of meta.winner_reward_bps row.winner_reward_bps

  unfoldable pub publish_slot : Log → ℕ → ℕ → ℕ → ℕ → ℕ → ℕ → ℕ → ℕ → ℕ → Projection → Projection
  publish_slot log market slot_index template_id condition_hash request_hash nonce sequence opens_at
        id s =
      let meta = slot_meta market in
      let existing = get_market names market s in
      let announce : SlotRow → SlotRow = λ r. record r {
        state = some announced;
        shape = meta.shape;
        question = some (question_of meta existing);
        template_id = some template_id;
        params = meta.params;
        opening_condition = meta.opening_condition;
        closing_condition = meta.closing_condition;
        condition_hash = some condition_hash;
        request_hash = some request_hash;
        permit_nonce = some nonce;
        winner_reward_bps = reward_of meta existing;
        market_address = some market;
        published_seq = some sequence;
        opens_at = some opens_at;
        block_number = some log.block_number;
      } in
      let enliven : RoomRow → RoomRow = λ r. record r {
        state = some live;
        last_observed_seq = some sequence;
        block_number = some log.block_number;
      } in
      let place : MarketRow → MarketRow = λ r. record r {
        room_id = some id;
        slot_index = some slot_index;
        block_number = some log.block_number;
      } in
      upsert_market names market place
        (upsert_room id enliven (upsert_slot id slot_index announce s))

  unfoldable pub on_slot_published :
      Log → ℕ → ℕ → ℕ → ℕ → ℕ → ℕ → ℕ → ℕ → Projection → Option Projection
  on_slot_published log market slot_index template_id condition_hash request_hash nonce sequence
        opens_at =
      with_room log (
        publish_slot log market slot_index template_id condition_hash request_hash nonce sequence
          opens_at)

  -- `_roomSequence`; `_onRoomEpochsMarkedSafe` writes the same
  unfoldable pub room_sequence : Log → ℕ → Projection → Option Projection
  room_sequence log sequence = with_room log (observe_sequence log sequence)

  unfoldable pub on_room_closed : Log → ℕ → Projection → Option Projection
  on_room_closed log sequence = with_room log (close_room log sequence)

  unfoldable pub on_room_closed_by_gate_stall : Log → ℕ → Projection → Option Projection
  on_room_closed_by_gate_stall log since = with_room log (close_stalled log since)

  unfoldable pub on_slot_call_skipped : Log → ℕ → ℕ → ℕ → ℕ → Projection → Option Projection
  on_slot_call_skipped log market epoch selector reason =
      with_room log (note_skip log market epoch selector reason)

  -- `_bond`
  unfoldable pub bond : Log → ℕ → (BondRow → BondRow) → Projection → Option Projection
  bond log participant fields = with_room log (put_bond log participant fields)

  unfoldable pub on_integrity_claim_filed : Log → ℕ → ℕ → ℕ → ℕ → Projection → Option Projection
  on_integrity_claim_filed log claim_id claimant participant code =
      with_room log (file_claim log claim_id claimant participant code)

  abbrev pub claim_status : Log → ℕ → ClaimStatus → Projection → Option Projection
  claim_status log claim_id status = with_room log (put_claim_status log claim_id status)

  unfoldable pub on_integrity_claim_adjudicated : Log → ℕ → Bool → Projection → Option Projection
  on_integrity_claim_adjudicated log claim_id is_upheld =
      claim_status log claim_id (if is_upheld then upheld else rejected)

  unfoldable pub on_integrity_claim_expired : Log → ℕ → Projection → Option Projection
  on_integrity_claim_expired log claim_id = claim_status log claim_id expired
