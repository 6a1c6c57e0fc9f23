-- ===== src/Gate/Safety.antt =====
-- What justifies each call that a pass of the gate sends (services/live-room/src/gate/authority.mjs).
pub mod Reading
mod Clearing
mod Draining
mod Deciding
pub mod Tick
use tradermarket.Base.{
  ℕ, suc, ◌+◌, ◌*◌, ◌/◌, ◌≤◌, ◌<◌, Bool, true, false, Option, none, some, List, [], ◌∷◌, ◌≡◌, ◌⊎◌,
  All, leb,
}
use tradermarket.Base.Dict.{lookup}
use tradermarket.Domain.Event.{Event}
use tradermarket.Domain.Conditions.{Condition, Outcome, Reason, Decision}
use tradermarket.Domain.Conditions.Metrics.{decided, undecided, unevaluable}
use tradermarket.Gate.{
  Call, suspend_room, reopen_room, close_room, close_remaining, close_slots, mark_safe,
  process_room, Chain, Setting,
}
use tradermarket.Gate.Action.{tip_seq}
use tradermarket.Gate.Clearance.{alone, epoch_end_s}
use tradermarket.Gate.Pass.{is_stale, under, markets_of}

-- A list with some entries left out
pub data IsSub : List ℕ → List ℕ → Type 0 where
  nothing : IsSub [] []
  left_out : (m : ℕ) (ms ns : List ℕ) → IsSub ms ns → IsSub ms (m ∷ ns)
  kept : (m : ℕ) (ms ns : List ℕ) → IsSub ms ns → IsSub (m ∷ ms) (m ∷ ns)

module _ {S : Type 0} (chain : Chain S) (setting : Setting) (now_ms : ℕ) where
  -- At or past the room's watermark
  abbrev pub IsNotBehind : S → ℕ → Type 0
  IsNotBehind s n = (k : ℕ) × ((chain.last_observed_sequence s ≡ some k) × (k ≤ n))

  -- Past the room's watermark
  abbrev pub IsAhead : S → ℕ → Type 0
  IsAhead s n = (k : ℕ) × ((chain.last_observed_sequence s ≡ some k) × (k < n))

  abbrev pub IsStale : Bool → Type 0
  IsStale b = is_stale setting.tip setting.freshness_threshold_ms now_ms ≡ b

  -- What the headline's condition says of the log
  abbrev pub IsHeadline : (Decision → Type 0) → Type 0
  IsHeadline P =
      (h : ℕ) × ((setting.headline_market ≡ some h)
        × ((c : Condition) × ((lookup h setting.conditions ≡ some c) × P (alone setting c))))

  abbrev pub IsDecidedBy : ℕ → Decision → Type 0
  IsDecidedBy n d = (o : Outcome) × ((k : ℕ) × ((d ≡ decided o k) × (k ≤ n)))

  abbrev pub IsUnevaluable : Decision → Type 0
  IsUnevaluable d = (r : Reason) × (d ≡ unevaluable r)

  abbrev pub headline_document : Option Condition
  headline_document = elim (setting.headline_market) [
    | none ↦ none
    | some h ↦ lookup h setting.conditions
  ]

  abbrev pub IsSlotOver : (Decision → Type 0) → ℕ → Type 0
  IsSlotOver P m =
      (c : Condition) × ((lookup m setting.conditions ≡ some c)
        × P (under setting headline_document c))

  abbrev pub IsPastEnd : ℕ → Type 0
  IsPastEnd epoch =
      (epoch_end_s setting epoch + setting.finality_delay_s ≤ now_ms / 1000)
      × ((tip : Event) × ((setting.tip ≡ some tip)
            × (epoch_end_s setting epoch * 1000 ≤ tip.observed_at)))

  -- Where the chain can tell, an action waits in the epoch.
  abbrev pub IsWaiting : S → ℕ → ℕ → Type 0
  IsWaiting s market epoch = elim (chain.has_pending_actions) [
    | none ↦ Unit
    | some f ↦ f s market epoch ≡ some true
  ]

  abbrev pub IsUndecided : ℕ → Type 0
  IsUndecided market =
      (c : Condition) × ((lookup market setting.conditions ≡ some c)
        × (alone setting c ≡ undecided))

  abbrev pub IsClear : S → ℕ × ℕ → Type 0
  IsClear s e = IsUndecided e.0 × (IsPastEnd e.1 × IsWaiting s e.0 e.1)

  -- Where the chain can tell, it says that the epoch is safe.
  abbrev pub IsConfirmed : S → ℕ × ℕ → Type 0
  IsConfirmed s e = elim (chain.is_epoch_safe) [ none ↦ Unit | some f ↦ f s e.0 e.1 ≡ some true ]

  -- The chain gives the epoch as one to refund, with an action to process.
  abbrev pub IsRefundable : S → ℕ × ℕ → Type 0
  IsRefundable s e =
      (window : S → ℕ → Option (ℕ × ℕ)) × ((unprocessed : S → ℕ → ℕ → Option Bool)
        × ((chain.refund_window_of ≡ some window)
            × ((chain.unprocessed_actions ≡ some unprocessed)
                × ((bounds : ℕ × ℕ) × ((window s e.0 ≡ some bounds)
                      × ((bounds.0 ≤ e.1)
                          × ((e.1 ≤ bounds.1) × (unprocessed s e.0 e.1 ≡ some true))))))))

  -- At most one epoch for each slot that is open
  abbrev pub IsOneEach : S → List ℕ → Type 0
  IsOneEach s markets = (slots : List ℕ) × ((chain.open_slots s ≡ some slots) × IsSub markets slots)

  -- When a call is justified on the chain that it meets
  abbrev pub Justified : S → Call → Type 0
  Justified s (suspend_room n) =
      IsNotBehind s n × ((tip_seq setting.tip ≤ n) × (IsStale true ⊎ IsHeadline IsUnevaluable))
  Justified s (reopen_room n) = IsNotBehind s n × ((tip_seq setting.tip ≤ n) × IsStale false)
  Justified s (close_room n) =
      IsAhead s n
      × (IsHeadline (IsDecidedBy n) ⊎ ((tip_seq setting.tip ≤ n) × IsHeadline IsUnevaluable))
  Justified s (close_remaining ms) = Unit
  Justified s (close_slots n ms) =
      IsAhead s n × All (λ m. IsSlotOver (IsDecidedBy n) m ⊎ IsSlotOver IsUnevaluable m) ms
  Justified s (mark_safe n es) =
      IsNotBehind s n
      × ((tip_seq setting.tip ≤ n)
          × (IsStale false × (All (IsClear s) es × IsOneEach s (markets_of es))))
  Justified s (process_room es) = All (λ e. IsConfirmed s e ⊎ IsRefundable s e) es
