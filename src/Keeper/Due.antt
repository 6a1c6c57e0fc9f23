-- ===== src/Keeper/Due.antt =====
-- When a finalization is due (services/live-room/src/keeper/keeper.mjs, `dueAction`).
use tradermarket.Base.{ℕ, ◌+◌, ◌≤◌, ◌<◌, ◌≡◌, ◌↔◌, true, false, some, arith}
use tradermarket.Keeper.{
  SettlementState, Call, closed_gate, expire_challenge, finalize_unchallenged,
  invalidate_unresolved, due_action,
}

-- What the market contract requires of each call: `expireChallenge`, `finalizeUnchallenged` and
-- `invalidateUnresolved` (contracts/src, LivePredictionMarket.sol) revert otherwise.
pub data Accepts (s : SettlementState) (now : ℕ) : Call → Type 0 where
  expires :
      s.challenged ≡ true
      → s.final_outcome ≡ 0
      → s.challenged_at + s.challenge_timeout ≤ now
      → Accepts s now expire_challenge
  finalizes :
      0 < s.provisional_outcome
      → s.final_outcome ≡ 0
      → s.challenged ≡ false
      → s.provisional_at + s.challenge_window ≤ now
      → Accepts s now finalize_unchallenged
  invalidates :
      s.gate_state ≡ closed_gate
      → s.final_outcome ≡ 0
      → s.provisional_outcome ≡ 0
      → s.resolution_due_at ≤ now
      → Accepts s now invalidate_unresolved

-- What the keeper asks of a market beyond the contract: one that it invalidates is not challenged,
-- and its due time is set.
abbrev pub Cautious : SettlementState → Call → Type 0
Cautious s invalidate_unresolved = (s.challenged ≡ false) × (0 < s.resolution_due_at)
Cautious s expire_challenge = Unit
Cautious s finalize_unchallenged = Unit

due_of_Accepts :
    (s : SettlementState) (now : ℕ) (c : Call)
    → Accepts s now c
    → Cautious s c
    → due_action s now ≡ some c
unfolding due_action
due_of_Accepts s now c (expires ch f t) more = ground arith
due_of_Accepts s now c (finalizes p f ch t) more = ground arith
due_of_Accepts s now c (invalidates g f p t) (calm, set) = ground arith

Accepts-of_due :
    (s : SettlementState) (now : ℕ) (c : Call)
    → due_action s now ≡ some c
    → Accepts s now c × Cautious s c
unfolding due_action
Accepts-of_due s now expire_challenge h = (expires (ground arith) (ground arith) (ground arith), tt)
Accepts-of_due s now finalize_unchallenged h =
    (finalizes (ground arith) (ground arith) (ground arith) (ground arith), tt)
Accepts-of_due s now invalidate_unresolved h = (
  invalidates (ground arith) (ground arith) (ground arith) (ground arith),
  (ground arith, ground arith),
)

-- A call is chosen exactly when the contract would accept it and, for an invalidation, the market
-- is not challenged and its due time is set.
pub due_action-Accepts :
    (s : SettlementState) (now : ℕ) (c : Call)
    → (due_action s now ≡ some c) ↔ (Accepts s now c × Cautious s c)
due_action-Accepts s now c = (Accepts-of_due s now c, λ h. due_of_Accepts s now c h.0 h.1)

-- Waiting only helps: what is due at one time is due, as the same call, at every later time.
pub due_action-later :
    (s : SettlementState) (now later : ℕ) (c : Call)
    → now ≤ later
    → due_action s now ≡ some c
    → due_action s later ≡ some c
unfolding due_action
due_action-later s now later c h due = ground arith
