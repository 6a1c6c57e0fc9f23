-- ===== src/Tests/Indexing.antt =====
-- A market with a purchase, a sale and an action that waits, indexed in two polls, the first of
-- which throws; a chain that was rewritten; a closed room; and a room id of four bytes.
use tradermarket.Base.{
  ℕ, ◌+◌, ◌≤◌, ◌≡◌, ◌↔◌, refl, subst, true, false, none, some, List, [], ◌∷◌, ◌++◌, inl, inr, arith,
  All, keep, leb, length, replicate, is_nil, is_some, if◌then◌else◌, Bool-cases, ◌&&◌, Bool,
}
use tradermarket.Base.Int.{pos, ◌+ℤ◌}
use tradermarket.Indexer.{closing, RoomRow, final, invalid, Projection, SlotMeta, Names, Indexer}
use tradermarket.Indexer.Events.{Event, Log}
use tradermarket.Indexer.Store.{
  values, upsert_room, get_room, upsert_action, adjust_holding, append_trade, upsert_market,
}
use tradermarket.Indexer.Fresh.{empty_projection, new_room, new_slot}
use tradermarket.Indexer.Rooms.{on_room_created, on_market_created, room_by_id}
use tradermarket.Indexer.Markets.{on_trade, on_action_submitted}
use tradermarket.Indexer.States.{maybe_settle_room}
use tradermarket.Indexer.Queries.{pending_actions, pending_pressure}
use tradermarket.Indexer.Apply.{project, apply, touch, touched_by, note_clear}
use tradermarket.Indexer.Source.{Chain, new_indexer}
use tradermarket.Indexer.Sync.{
  sweep, take_log, apply_logs, sync_to, measure_clears, refresh_touched_markets, advance,
  forget_applied_through, remember_hashes, remember_from,
}
use tradermarket.Indexer.Reorg.{detect_reorg, ancestor, poll}
use tradermarket.Indexer.Ledger.{position_in}
use tradermarket.Indexer.History.{Applied, ids_of}
use tradermarket.Indexer.Once.{IsInRange}
use tradermarket.Indexer.Passes.{new_indexer-Applied}
use tradermarket.Indexer.Polls.{poll_all, poll_all-Applied, pending_pressure-poll_all}
use tradermarket.Indexer.Complete.{LastSweep, Covers, sweep-LeavesOutNone}
use tradermarket.Indexer.Escrow.{escrowed}
use tradermarket.Indexer.Forks.{Reported, detect_reorg-Reported}
use tradermarket.Indexer.Settling.{verdict, maybe_settle_room-verdict}
use tradermarket.Indexer.RoomId.{is_printable, decode_room_id, decode_room_id_iff}

abbrev no_meta : SlotMeta
no_meta = record {
  shape = none;
  question = none;
  params = none;
  opening_condition = none;
  closing_condition = none;
  winner_reward_bps = none;
}

abbrev pub names : Names
names = record { lower = λ a. a; decode_room_id = λ n. n; slot_meta = λ m. no_meta }

abbrev log : ℕ → ℕ → Event → Log
log block index event = record {
  block_number = block;
  log_index = index;
  address = 40;
  event = event;
}

abbrev pub history : List Log
history =
    log 1 0 (Event.room_created 7 30 50 60)
    ∷ log 1 1 (Event.market_created 40 7 0 1 2 3 4)
    ∷ log 2 0 (Event.trade 9 true true 100 150)
    ∷ log 3 0 (Event.trade 9 false true 60 80)
    ∷ log 3 1 (Event.action_submitted 1 0 0 9 25)
    ∷ []

abbrev pub is_within : ℕ → ℕ → Log → Bool
is_within first last l = leb first l.block_number && leb l.block_number last

-- A source that knows the whole history, with a hash for each block
abbrev pub steady : Chain
steady = record {
  get_logs = λ pass s first last. some (keep (is_within first last) history);
  block_timestamp = none;
  block_hash = some (λ b. some (b + 500));
  read_market_state = none;
}

-- One that throws on the second sweep of a pass
abbrev pub failing : Chain
failing = record steady {
  get_logs =
      λ pass s first last. if leb 1 pass then none else some (keep (is_within first last) history);
}

abbrev IsOnChain : Log → Type 0
IsOnChain l = l.block_number ≤ 3

keep-ranged :
    (first last : ℕ) (ls : List Log)
    → All IsOnChain ls
    → All (λ (l : Log). (first ≤ l.block_number) × IsOnChain l) (keep (is_within first last) ls)
keep-ranged first last [] h = tt
keep-ranged first last (l ∷ ls) (h, hs) = elim (Bool-cases (is_within first last l)) [
  | inl kept ↦ rw kept ((ground arith, h), keep-ranged first last ls hs)
  | inr dropped ↦ rw dropped (keep-ranged first last ls hs)
]

steady-IsInRange : IsInRange names IsOnChain steady
steady-IsInRange pass s first last ls e =
    subst (All (λ (l : Log). (first ≤ l.block_number) × IsOnChain l)) (cc)
      (keep-ranged first last history (omega arith))

failing-IsInRange : IsInRange names IsOnChain failing
failing-IsInRange pass s first last ls e = elim (Bool-cases (leb 1 pass)) [
  | inl later ↦ let never : none ≡ some ls = rw later at e in cc
  | inr start ↦
      let got : some (keep (is_within first last) history) ≡ some ls = rw start at e in
      subst (All (λ (l : Log). (first ≤ l.block_number) × IsOnChain l)) (cc)
        (keep-ranged first last history (omega arith))
]

abbrev pub polls : List (Chain × ℕ)
polls = (failing, 2) ∷ (steady, 2) ∷ (steady, 3) ∷ []

poll_all-Applied_example :
    (logs : List Log) × Applied names IsOnChain logs (poll_all names polls new_indexer)
poll_all-Applied_example =
    poll_all-Applied names IsOnChain polls
      (failing-IsInRange, (steady-IsInRange, (steady-IsInRange, tt)))

pending_pressure-poll_all_example :
    let s = (poll_all names polls new_indexer).store in
    ((pending_pressure names 40 s).buy_a ≡ 0)
    × ((pending_pressure names 40 s).buy_b ≡ escrowed (pending_actions names 40 s))
pending_pressure-poll_all_example =
    pending_pressure-poll_all names IsOnChain polls 40
      (failing-IsInRange, (steady-IsInRange, (steady-IsInRange, tt)))

-- What was indexed twice is held once.
polled : (position_in (40, 9) (poll_all names polls new_indexer).store.holdings).position_a ≡ pos 90
unfolding poll_all poll detect_reorg sync_to sweep apply_logs take_log apply project on_room_created
    on_market_created on_trade on_action_submitted room_by_id upsert_room upsert_market
    upsert_action adjust_holding append_trade touch touched_by note_clear measure_clears
    refresh_touched_markets advance forget_applied_through remember_hashes remember_from ◌+ℤ◌
polled = refl

sweep-LeavesOutNone_example :
    let after = (sweep names steady 1 3 8 0 none new_indexer 0).0 in
    (more : List Log) × (s : LastSweep names steady 1 3 after) × Applied names IsOnChain
      ([] ++ more)
      after
    × (5 ≡ length more)
    × Covers names (ids_of names ([] ++ more)) s.answer
unfolding sweep apply_logs take_log apply project on_room_created on_market_created on_trade
    on_action_submitted room_by_id upsert_room upsert_market upsert_action adjust_holding
    append_trade touch touched_by note_clear
sweep-LeavesOutNone_example =
    sweep-LeavesOutNone names IsOnChain steady 3 5 [] new_indexer
      (sweep names steady 1 3 8 0 none new_indexer 0).0 steady-IsInRange
      (new_indexer-Applied names IsOnChain [] []) refl

-- An indexer at block 3 whose last two blocks were rewritten
abbrev forked : Indexer
forked = record new_indexer {
  cursor_block = 3;
  recent_hashes = (1, 501) ∷ (2, 602) ∷ (3, 603) ∷ [];
}

detect_reorg-Reported_example : Reported (λ b. some (b + 500)) forked (detect_reorg steady forked)
detect_reorg-Reported_example = detect_reorg-Reported steady (λ b. some (b + 500)) forked refl

found_ancestor :
    detect_reorg steady forked
    ≡ some (record { common_ancestor = some 1; from_block = 3; is_beyond_retained_history = false })
unfolding detect_reorg ancestor
found_ancestor = refl

abbrev closed_room : RoomRow
closed_room = record (new_room 7) { state = some closing; closed_source_seq = some 12 }

abbrev settled_store : Projection
settled_store = record empty_projection {
  rooms = (7, closed_room) ∷ [];
  slots =
      ((7, 0), record (new_slot 7 0) { state = some final })
      ∷ ((7, 1), record (new_slot 7 1) { state = some invalid })
      ∷ [];
}

maybe_settle_room-verdict_example :
    get_room 7 (maybe_settle_room 7 90 settled_store)
    ≡ some (
        if is_some closed_room.closed_source_seq
        then record closed_room {
          state = some (verdict 7 (values settled_store.slots));
          block_number = some 90;
        }
        else closed_room)
maybe_settle_room-verdict_example = maybe_settle_room-verdict 7 90 settled_store closed_room refl

decode_room_id_iff_example : (decode_room_id (97 ∷ 49 ∷ 0 ∷ 0 ∷ []) ≡ some (97 ∷ 49 ∷ [])) ↔ (
    (n : ℕ) × (◌≡◌ {A = List ℕ} (97 ∷ 49 ∷ 0 ∷ 0 ∷ []) ((97 ∷ 49 ∷ []) ++ replicate n 0))
    × (is_printable (97 ∷ 49 ∷ []) ≡ true)
    × (is_nil {A = ℕ} (97 ∷ 49 ∷ []) ≡ false))
decode_room_id_iff_example = decode_room_id_iff (97 ∷ 49 ∷ 0 ∷ 0 ∷ []) (97 ∷ 49 ∷ [])
