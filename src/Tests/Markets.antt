-- ===== src/Tests/Markets.antt =====
-- The keeper, the pools, the leader's lease and the quorum.
use tradermarket.MarketMath.Sqrt.{sqrt_floor_root}
use tradermarket.Base.{
  ◌<◌, List, true, ℕ, ◌+◌, ◌-◌, ◌*◌, ◌/◌, ◌≤◌, ◌≡◌, refl, ◌==◌, if◌then◌else◌, ◌↔◌, false, Option,
  none, some, [], ◌∷◌, arith, ok, err, Result,
}
use tradermarket.Keeper.{
  SettlementState, Call, open_gate, finalize_unchallenged, due_action, settle, tick,
}
use tradermarket.Keeper.Due.{Accepts, Cautious, due_action-Accepts}
use tradermarket.Keeper.Tick.{Passes, tick-Passes}
use tradermarket.MarketMath.{quote_buy_of, sqrt_floor, descend, quote_sell_of}
use tradermarket.Base.Int.{pos}
use tradermarket.MarketMath.Buy.{quote_buy_of_keeps}
use tradermarket.MarketMath.Sell.{quote_sell_of_keeps}
use tradermarket.Ports.LeaderLease.{Attempt, try_acquire}
use tradermarket.Ports.LeaderLease.Fencing.{
  Grants, Reached, nothing, tries, IsFenced, try_acquire-IsFenced,
}
use tradermarket.Settlement.{Attestation, reached_quorum}
use tradermarket.Settlement.Quorum.{Agreed, reached_quorum-Agreed}

-- A market with a provisional outcome that nobody challenged
abbrev provisional : SettlementState
provisional = record {
  final_outcome = 0;
  provisional_outcome = 1;
  provisional_at = 100;
  challenge_window = 50;
  challenged = false;
  challenged_at = 0;
  challenge_timeout = 20;
  resolution_due_at = 300;
  gate_state = open_gate;
}

due_action-Accepts_example :
    (due_action provisional 150 ≡ some finalize_unchallenged)
    ↔ (Accepts provisional 150 finalize_unchallenged × Cautious provisional finalize_unchallenged)
due_action-Accepts_example = due_action-Accepts provisional 150 finalize_unchallenged

due_at_150 : due_action provisional 150 ≡ some finalize_unchallenged
unfolding due_action
due_at_150 = refl

-- A chain that counts the calls it has taken, where market 2 cannot be read
abbrev read_state : ℕ → ℕ → Result ℕ SettlementState
read_state chain market = if market == 2 then err 404 else ok provisional

abbrev send_call : ℕ → Call → ℕ → ℕ × Option ℕ
send_call chain call market = (chain + 1, none)

counts : (tick read_state send_call 0 150 (1 ∷ 2 ∷ 3 ∷ [])).0 ≡ 2
unfolding tick settle due_action
counts = refl

tick-Passes_example :
    Passes read_state send_call 150 0
      (1 ∷ 2 ∷ 3 ∷ [])
      (tick read_state send_call 0 150 (1 ∷ 2 ∷ 3 ∷ [])).0
      (tick read_state send_call 0 150 (1 ∷ 2 ∷ 3 ∷ [])).1
tick-Passes_example = tick-Passes read_state send_call 0 150 (1 ∷ 2 ∷ 3 ∷ [])

root_of_50 : sqrt_floor 50 ≡ 7
unfolding sqrt_floor descend
root_of_50 = refl

sqrt_floor_root_example :
    (sqrt_floor 50 * sqrt_floor 50 ≤ 50) × (50 < (sqrt_floor 50 + 1) * (sqrt_floor 50 + 1))
sqrt_floor_root_example = sqrt_floor_root 50

quote_sell_of_keeps_example :
    let q = quote_sell_of 1000 2000 500 in
    (q.new_selected + q.gross_collateral ≡ 1000 + 500)
    × (q.new_other + q.gross_collateral ≡ 2000)
    × (q.collateral_out + q.liquidity_fee ≡ q.gross_collateral)
    × (1000 * 2000 ≤ q.new_selected * q.new_other)
quote_sell_of_keeps_example = quote_sell_of_keeps 1000 2000 500

-- Two servers of room 1: the second leads once the first one's lease has run out.
abbrev first_try : Attempt
first_try = record { room = 1; holder = 5; ttl = 10; now = 100 }

abbrev second_try : Attempt
second_try = record { room = 1; holder = 6; ttl = 10; now = 120 }

abbrev grants : Grants
grants =
    (1, record { holder = 6; term = 2; expires_at = 130 })
    ∷ (1, record { holder = 5; term = 1; expires_at = 110 })
    ∷ []

two_leaders : Reached ((1, record { holder = 6; term = 2; expires_at = 130 }) ∷ []) grants
unfolding try_acquire
two_leaders = tries second_try (tries first_try nothing)

try_acquire-IsFenced_example : IsFenced grants
try_acquire-IsFenced_example = try_acquire-IsFenced two_leaders

quote_buy_of_keeps_example :
    (input kept : ℕ) × (quote_buy_of 1000 2000 500 100
      ≡ some (record {
        winner_reward_fee = 500 * 100 / 10000;
        liquidity_fee = 500 * 30 / 10000;
        trade_input = pos input;
        positions_out = pos (1000 + input - kept);
        new_selected = pos kept;
        new_other = pos (2000 + input);
      }))
    × (input + 500 * 100 / 10000 + 500 * 30 / 10000 ≡ 500)
    × (kept ≤ 1000)
    × (1000 * 2000 ≤ kept * (2000 + input))
quote_buy_of_keeps_example = quote_buy_of_keeps 1000 2000 500 100 (omega arith) (omega arith)

-- Two resolvers with one result, and a third that disagrees
abbrev attestations : List Attestation
attestations =
    record { resolver = 5; outcome = 1; evidence_hash = 9; count = 1 }
    ∷ record { resolver = 7; outcome = 2; evidence_hash = 9; count = 1 }
    ∷ record { resolver = 6; outcome = 1; evidence_hash = 9; count = 1 }
    ∷ []

abbrev lower : ℕ → ℕ
lower t = t

two_agree : reached_quorum lower attestations ≡ true
unfolding reached_quorum
two_agree = refl

reached_quorum-Agreed_example : Agreed lower attestations
reached_quorum-Agreed_example = reached_quorum-Agreed lower attestations refl two_agree
