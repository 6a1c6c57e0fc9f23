-- ===== src/Gate.antt =====
-- services/live-room/src/gate/authority.mjs: the Source Gate Authority, which evaluates the frozen
-- conditions over the log and drives the room. Its state, the chain that it calls, and what it is
-- configured with. The chain is a parameter: what its reads answer (`none` where one throws, and
-- where an optional method is missing), and what becomes of it when a call is sent to it.
pub mod Action
pub mod Suspension
pub mod Clearance
pub mod Registry
pub mod Pass
pub mod Loading
pub mod Keeping
pub mod Running
pub mod Ending
pub mod Safety
pub mod Permits
pub mod Grounds
pub mod Nonces
use tradermarket.Base.{ℕ, ◌+◌, Bool, Option, none, some, List, [], ◌∷◌, ◌++◌}
use tradermarket.Base.Dict.{Dict}
use tradermarket.Domain.Decimal.{Text, Sign}
use tradermarket.Domain.Event.{Event}
use tradermarket.Domain.Conditions.{Condition, Decision, Outcome, Reason}
use tradermarket.Keeper.{GateState}

-- What the gate sends to the room: the sequence, and the markets, with their epochs
pub data Call : Type 0 where
  suspend_room reopen_room close_room : ℕ → Call
  close_remaining : List ℕ → Call
  close_slots : ℕ → List ℕ → Call
  mark_safe : ℕ → List (ℕ × ℕ) → Call
  process_room : List (ℕ × ℕ) → Call

pub data Why : Type 0 where
  headline_unevaluable : Reason → Why
  stale_source : Option Event → Why

pub data Refusal : Type 0 where
  room_closed room_suspended source_stale question_mismatch : Refusal
  condition_not_open : Decision → Refusal

-- The rows of the audit log, without their time stamps
pub data Entry : Type 0 where
  suspended_entry : Why → ℕ → Entry
  reopened_entry : ℕ → Entry
  unevaluable_entry : ℕ → Reason → ℕ → Entry
  evaluable_again_entry : ℕ → Entry
  room_decided_entry : ℕ → ℕ → Outcome → Entry
  room_given_up_entry : ℕ → Entry
  slot_given_up_entry : ℕ → Entry
  slots_closed_entry : ℕ → List ℕ → Entry
  marked_safe_entry : ℕ → List (ℕ × ℕ) → Entry
  epoch_skipped_entry : ℕ → ℕ → ℕ → Entry
  processed_entry : List (ℕ × ℕ) → Entry
  permit_refused_entry : ℕ → Refusal → Entry
  permit_signed_entry : ℕ → ℕ → Entry

pub record Chain (S : Type 0) : Type 0 where
  pub room_closed_sequence : S → Option ℕ
  pub open_slots : S → Option (List ℕ)
  pub last_observed_sequence : S → Option ℕ
  pub is_suspended : Option (S → Option Bool)
  pub gate_state_of : Option (S → ℕ → Option GateState)
  pub is_epoch_safe : Option (S → ℕ → ℕ → Option Bool)
  pub has_pending_actions : Option (S → ℕ → ℕ → Option Bool)
  pub closed_slots : Option (S → Option (List ℕ))
  pub refund_window_of : Option (S → ℕ → Option (ℕ × ℕ))
  pub unprocessed_actions : Option (S → ℕ → ℕ → Option Bool)
  -- Whether the key-value store answers the first, the second and the third read of `_ensureLoaded`
  pub answers : S → ℕ → Bool
  -- `none` for a call that the room reverts
  pub send : S → Call → Option S

-- What one pass goes by: the log that it has read, the tip that the store answers, the condition
-- documents, and the configuration.
pub record Setting : Type 0 where
  pub events : List Event
  pub tip : Option Event
  pub conditions : Dict Condition
  pub locale_compare : Text → Text → Sign
  pub lower : ℕ → ℕ
  pub participants : Option (List ℕ)
  pub headline_market : Option ℕ
  pub unevaluable_grace_ms : Option ℕ
  pub freshness_threshold_ms : ℕ
  pub epoch_duration_s : ℕ
  pub finality_delay_s : ℕ
  pub max_pending_time_s : Option ℕ

-- The key-value store, as far as the gate has written to it
pub record Durable : Type 0 where
  pub saved_audit : Option (List Entry)
  pub saved_nonce : Option ℕ
  pub saved_unevaluable : Option (Dict ℕ)

-- The fields of a `GateAuthority` that change
pub record Memory : Type 0 where
  pub loaded : Bool
  pub audit : List Entry
  pub next_nonce : ℕ
  pub unevaluable_since : Dict ℕ
  pub cleared_epochs : Dict (List ℕ)

-- All that a gate acts on, with what it has sent so far, each call beside the chain that it met,
-- the latest first. `state` is `none` for a gate without durable state.
pub record World (S : Type 0) : Type 0 where
  pub chain : S
  pub memory : Memory
  pub state : Option Durable
  pub sent : List (S × Call)
