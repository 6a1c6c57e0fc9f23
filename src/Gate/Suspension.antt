-- ===== src/Gate/Suspension.antt =====
-- The room is suspended and reopened by what the chain says of it
-- (services/live-room/src/gate/authority.mjs, `_isSuspendedOnChain` to `_reopen`).
use tradermarket.Base.{ℕ, Bool, true, false, Option, none, some, List, [], ◌∷◌, if◌then◌else◌}
use tradermarket.Domain.Event.{Event}
use tradermarket.Keeper.{GateState, open_gate, suspended_gate, closed_gate}
use tradermarket.Gate.{Why, suspend_room, reopen_room, suspended_entry, reopened_entry, Chain}
use tradermarket.Gate.Action.{M, pure, ◌>>=◌, ◌>>◌, need, ask, send, log, tip_seq, room_sequence}

abbrev pub is_suspended_gate : GateState → Bool
is_suspended_gate open_gate = false
is_suspended_gate suspended_gate = true
is_suspended_gate closed_gate = false

module _ {S : Type 0} (chain : Chain S) where
  abbrev pub gate_state : ℕ → M S GateState
  gate_state market = need chain.gate_state_of >>= λ f. ask (λ s. f s market)

  abbrev pub any_suspended : List ℕ → M S Bool
  any_suspended [] = pure false
  any_suspended (m ∷ ms) =
      let rest = any_suspended ms in
      gate_state m >>= λ g. if is_suspended_gate g then pure true else rest

  -- `_isSuspendedOnChain`
  abbrev pub is_suspended_on_chain : M S Bool
  is_suspended_on_chain = elim (chain.is_suspended) [
    | some f ↦ ask f
    | none ↦ ask chain.open_slots >>= λ slots. any_suspended slots
  ]

  abbrev pub all_suspended : List ℕ → M S Bool
  all_suspended [] = pure true
  all_suspended (m ∷ ms) =
      let rest = all_suspended ms in
      gate_state m >>= λ g. if is_suspended_gate g then rest else pure false

  abbrev pub every_suspended : Option (S → ℕ → Option GateState) → List ℕ → M S Bool
  every_suspended f [] = is_suspended_on_chain
  every_suspended none (m ∷ ms) = is_suspended_on_chain
  every_suspended (some f) (m ∷ ms) = all_suspended (m ∷ ms)

  -- `_everyOpenSlotSuspended`
  abbrev pub every_open_slot_suspended : M S Bool
  every_open_slot_suspended =
      ask chain.open_slots >>= λ slots. every_suspended chain.gate_state_of slots

  abbrev pub suspend_unless : Option Event → Why → Bool → M S Bool
  suspend_unless tip why true = pure false
  suspend_unless tip why false = do
    seq ← room_sequence chain (tip_seq tip)
    log (suspended_entry why seq)
    send chain (suspend_room seq)
    pure true

  -- `_suspend`
  unfoldable pub suspend : Option Event → Why → M S Bool
  suspend tip why = every_open_slot_suspended >>= λ already. suspend_unless tip why already

  abbrev pub reopen_if : Option Event → Bool → M S Bool
  reopen_if tip false = pure false
  reopen_if tip true = do
    seq ← room_sequence chain (tip_seq tip)
    log (reopened_entry seq)
    send chain (reopen_room seq)
    pure true

  -- `_reopen`
  unfoldable pub reopen : Option Event → M S Bool
  reopen tip = is_suspended_on_chain >>= λ suspended. reopen_if tip suspended
