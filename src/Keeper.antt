-- ===== src/Keeper.antt =====
-- services/live-room/src/keeper/keeper.mjs: the process that finalizes markets. The chain is a
-- parameter: what a read and a call answer, and what a call makes of the chain's state.
pub mod Due
pub mod Tick
use tradermarket.Base.{
  ℕ, ◌+◌, Bool, true, false, ◌&&◌, Option, none, some, List, [], ◌∷◌, ◌++◌, ltb, leb, ◌==◌,
  if◌then◌else◌, Result, ok, err,
}

-- `UNSET`
abbrev pub unset : ℕ
unset = 0

pub data GateState : Type 0 where
  open_gate suspended_gate closed_gate : GateState

-- What `settlementStateOf` returns, times in seconds of chain time
pub record SettlementState : Type 0 where
  pub final_outcome : ℕ
  pub provisional_outcome : ℕ
  pub provisional_at : ℕ
  pub challenge_window : ℕ
  pub challenged : Bool
  pub challenged_at : ℕ
  pub challenge_timeout : ℕ
  pub resolution_due_at : ℕ
  pub gate_state : GateState

pub data Call : Type 0 where
  expire_challenge finalize_unchallenged invalidate_unresolved : Call

abbrev pub is_closed : GateState → Bool
is_closed closed_gate = true
is_closed g = false

abbrev pub call_if : Bool → Call → Option Call
call_if true c = some c
call_if false c = none

-- `dueAction`
unfoldable pub due_action : SettlementState → ℕ → Option Call
due_action s now =
    if ltb unset s.final_outcome
    then none
    else if s.challenged
    then call_if (leb (s.challenged_at + s.challenge_timeout) now) expire_challenge
    else if ltb unset s.provisional_outcome
    then call_if (leb (s.provisional_at + s.challenge_window) now) finalize_unchallenged
    else call_if
        (is_closed s.gate_state && ltb 0 s.resolution_due_at && leb s.resolution_due_at now)
        invalidate_unresolved

-- One entry of the list that `tick` returns
pub record Action : Type 0 where
  pub market : ℕ
  pub action : Option Call
  pub error : Option ℕ

module _ {S : Type 0} (read : S → ℕ → Result ℕ SettlementState)
    (send : S → Call → ℕ → S × Option ℕ) where
  -- `await this.chain[action](slot.market, nowS)`, when something is due
  abbrev pub sent : S → ℕ → Option Call → S × List Action
  sent chain market none = (chain, [])
  sent chain market (some call) =
      let (after, error) = send chain call market in
      (after, record { market = market; action = some call; error = error } ∷ [])

  -- The body of the loop, for one market
  abbrev pub settle_read : S → ℕ → ℕ → Result ℕ SettlementState → S × List Action
  settle_read chain now market (ok state) = sent chain market (due_action state now)
  settle_read chain now market (err e) =
      (chain, record { market = market; action = none; error = some e } ∷ [])

  unfoldable pub settle : S → ℕ → ℕ → S × List Action
  settle chain now market = settle_read chain now market (read chain market)

  abbrev pub also : List Action → S × List Action → S × List Action
  also done (chain, more) = (chain, done ++ more)

  -- `tick`, over the closed slots that the chain lists, at the chain's time
  unfoldable pub tick : S → ℕ → List ℕ → S × List Action
  tick chain now [] = (chain, [])
  tick chain now (market ∷ markets) =
      let (after, done) = settle chain now market in also done (tick after now markets)
