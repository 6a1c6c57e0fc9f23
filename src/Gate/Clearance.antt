-- ===== src/Gate/Clearance.antt =====
-- Epochs marked safe and processed, and refunds pushed through after a close
-- (services/live-room/src/gate/authority.mjs, `_clearCompletedEpochs` to `_drainClosedEpochs`).
-- The durations of the configuration are whole seconds and the epoch's is not 0.
use tradermarket.Base.{
  ℕ, zero, suc, ◌+◌, ◌-◌, ◌*◌, ◌/◌, max, Bool, true, false, Option, none, some, List, [], ◌∷◌, ◌++◌,
  ltb, ◌==◌, if◌then◌else◌, or_else, not, ◌&&◌, exists,
}
use tradermarket.Base.Dict.{lookup, insert}
use tradermarket.Domain.Event.{Event}
use tradermarket.Domain.Conditions.{Condition, Decision, evaluate_condition}
use tradermarket.Domain.Conditions.Metrics.{decided, undecided, unevaluable}
use tradermarket.Gate.{
  mark_safe, process_room, close_remaining, marked_safe_entry, epoch_skipped_entry, processed_entry,
  Chain, Setting, Memory,
}
use tradermarket.Gate.Action.{
  M, pure, ◌>>=◌, ◌>>◌, need, ask, get_memory, write, send, log, condition_for, tip_seq,
  room_sequence,
}

abbrev pub range : ℕ → ℕ → List ℕ
range from zero = []
range from (suc n) = from ∷ range (suc from) n

-- A condition on the log, without a headline to end the session
abbrev pub alone : Setting → Condition → Decision
alone setting c =
    evaluate_condition setting.lower setting.locale_compare c
      (record {
        terminal_seq = none;
        headline = none;
        is_headline = false;
        participants = setting.participants;
      })
      setting.events

-- How many epochs back a pending action may stand
abbrev pub lookback : Setting → ℕ
lookback setting =
    let pending = or_else setting.max_pending_time_s (setting.epoch_duration_s * 3) in
    max 3 ((pending + setting.epoch_duration_s - 1) / setting.epoch_duration_s + 1)

-- The completed epochs within reach, the oldest first
abbrev pub recent_epochs : Setting → ℕ → List ℕ
recent_epochs setting now_ms =
    let current = now_ms / 1000 / setting.epoch_duration_s in
    range (current - lookback setting) (current - (current - lookback setting))

abbrev pub epoch_end_s : Setting → ℕ → ℕ
epoch_end_s setting epoch = (epoch + 1) * setting.epoch_duration_s

-- The epoch and the finality delay are over, and the log was observed past the epoch's end
abbrev pub is_past : Setting → ℕ → ℕ → ℕ → Bool
is_past setting now_ms observed_at epoch =
    let end_s = epoch_end_s setting epoch in
    not (ltb (now_ms / 1000) (end_s + setting.finality_delay_s))
    && not (ltb observed_at (end_s * 1000))

abbrev pub cleared_of : ℕ → Memory → List ℕ
cleared_of market m = or_else (lookup market m.cleared_epochs) []

abbrev pub with_market : ℕ → Option ℕ → List (ℕ × ℕ)
with_market market none = []
with_market market (some epoch) = (market, epoch) ∷ []

module _ {S : Type 0} where
  -- `cleared.add(epoch)`
  abbrev pub add_cleared : ℕ → ℕ → M S (Unit {0})
  add_cleared market epoch =
      write
        (λ (m : Memory). record m {
          cleared_epochs = insert market (epoch ∷ cleared_of market m) m.cleared_epochs;
        })
        (λ d. d)

  abbrev pub candidate_if : ℕ → ℕ → M S (List ℕ) → Bool → M S (List ℕ)
  candidate_if market epoch rest true = add_cleared market epoch >> rest
  candidate_if market epoch rest false = rest >>= λ more. pure (epoch ∷ more)

  abbrev pub confirm_if : ℕ → ℕ → ℕ → M S (List (ℕ × ℕ)) → Bool → M S (List (ℕ × ℕ))
  confirm_if seq market epoch rest true =
      add_cleared market epoch >> (rest >>= λ more. pure ((market, epoch) ∷ more))
  confirm_if seq market epoch rest false = log (epoch_skipped_entry market epoch seq) >> rest

module _ {S : Type 0} (chain : Chain S) where
  abbrev pub ask_safe : ℕ → ℕ → M S Bool
  ask_safe market epoch = need chain.is_epoch_safe >>= λ f. ask (λ s. f s market epoch)

  -- `cleared.has(epoch) || (await this.chain.isEpochSafe(slot.market, epoch))`
  abbrev pub is_cleared : ℕ → ℕ → M S Bool
  is_cleared market epoch = get_memory >>= λ m.
      if exists (λ e. e == epoch) (cleared_of market m) then pure true else ask_safe market epoch

  -- The loop that collects `candidates`
  abbrev pub candidates : Setting → ℕ → ℕ → ℕ → List ℕ → M S (List ℕ)
  candidates setting now_ms observed_at market [] = pure []
  candidates setting now_ms observed_at market (epoch ∷ es) =
      let rest = candidates setting now_ms observed_at market es in
      if is_past setting now_ms observed_at epoch
      then (is_cleared market epoch >>= λ known. candidate_if market epoch rest known)
      else rest

  abbrev pub is_pending : ℕ → ℕ → M S Bool
  is_pending market epoch = elim (chain.has_pending_actions) [
    | none ↦ pure true
    | some f ↦ ask (λ s. f s market epoch)
  ]

  -- The loop that finds `chosen`
  abbrev pub first_pending : ℕ → List ℕ → M S (Option ℕ)
  first_pending market [] = pure none
  first_pending market (epoch ∷ es) =
      let rest = first_pending market es in
      is_pending market epoch >>= λ pending. if pending then pure (some epoch) else rest

  abbrev pub choose : Setting → ℕ → Event → ℕ → Decision → M S (List (ℕ × ℕ))
  choose setting now_ms tip market (decided o n) = pure []
  choose setting now_ms tip market (unevaluable r) = pure []
  choose setting now_ms tip market undecided = do
    found ← candidates setting now_ms tip.observed_at market (recent_epochs setting now_ms)
    chosen ← first_pending market found
    pure (with_market market chosen)

  -- The loop over the open slots that collects `toClear`
  abbrev pub choose_all : Setting → ℕ → Event → List ℕ → M S (List (ℕ × ℕ))
  choose_all setting now_ms tip [] = pure []
  choose_all setting now_ms tip (market ∷ ms) =
      let rest = choose_all setting now_ms tip ms in
      condition_for setting market >>= λ c.
      choose setting now_ms tip market (alone setting c) >>= λ chosen.
      rest >>= λ more. pure (chosen ++ more)

  abbrev pub ask_marked : ℕ → ℕ → M S Bool
  ask_marked market epoch = elim (chain.is_epoch_safe) [
    | none ↦ pure true
    | some f ↦ ask (λ s. f s market epoch)
  ]

  -- The loop that collects `confirmed`
  abbrev pub confirm : ℕ → List (ℕ × ℕ) → M S (List (ℕ × ℕ))
  confirm seq [] = pure []
  confirm seq ((market, epoch) ∷ es) =
      let rest = confirm seq es in
      ask_marked market epoch >>= λ safe. confirm_if seq market epoch rest safe

  abbrev pub process_confirmed : List (ℕ × ℕ) → M S (Unit {0})
  process_confirmed [] = pure tt
  process_confirmed (e ∷ es) = send chain (process_room (e ∷ es))

  abbrev pub mark_chosen : ℕ → List (ℕ × ℕ) → M S (Unit {0})
  mark_chosen tip_seq [] = pure tt
  mark_chosen tip_seq (e ∷ es) = do
    seq ← room_sequence chain tip_seq
    log (marked_safe_entry seq (e ∷ es))
    send chain (mark_safe seq (e ∷ es))
    confirmed ← confirm tip_seq (e ∷ es)
    process_confirmed confirmed

  abbrev pub clear_at : Setting → ℕ → List ℕ → Option Event → M S (Unit {0})
  clear_at setting now_ms slots none = pure tt
  clear_at setting now_ms slots (some tip) =
      if tip.seq == 0
      then pure tt
      else (choose_all setting now_ms tip slots >>= λ chosen. mark_chosen tip.seq chosen)

  -- `_clearCompletedEpochs`
  unfoldable pub clear_completed_epochs : Setting → ℕ → M S (Unit {0})
  clear_completed_epochs setting now_ms =
      ask chain.open_slots >>= λ slots. clear_at setting now_ms slots setting.tip

  abbrev pub first_unprocessed : (S → ℕ → ℕ → Option Bool) → ℕ → List ℕ → M S (Option ℕ)
  first_unprocessed unprocessed market [] = pure none
  first_unprocessed unprocessed market (epoch ∷ es) =
      let rest = first_unprocessed unprocessed market es in
      ask (λ s. unprocessed s market epoch) >>= λ b. if b then pure (some epoch) else rest

  -- The loop that collects `toDrain`
  abbrev pub drainable :
      (S → ℕ → Option (ℕ × ℕ)) → (S → ℕ → ℕ → Option Bool) → List ℕ → M S (List (ℕ × ℕ))
  drainable window unprocessed [] = pure []
  drainable window unprocessed (market ∷ ms) =
      let rest = drainable window unprocessed ms in
      ask (λ s. window s market) >>= λ epochs.
      first_unprocessed unprocessed market (range epochs.0 (suc epochs.1 - epochs.0)) >>= λ found.
      rest >>= λ more. pure (with_market market found ++ more)

  abbrev pub drain : List (ℕ × ℕ) → M S (Unit {0})
  drain [] = pure tt
  drain (e ∷ es) = log (processed_entry (e ∷ es)) >> send chain (process_room (e ∷ es))

  abbrev pub drain_with :
      Option (S → Option (List ℕ))
      → Option (S → ℕ → Option (ℕ × ℕ))
      → Option (S → ℕ → ℕ → Option Bool)
      → M S (Unit {0})
  drain_with (some closed) (some window) (some unprocessed) =
      ask closed >>= λ markets. drainable window unprocessed markets >>= λ found. drain found
  drain_with (some closed) (some window) none = pure tt
  drain_with (some closed) none unprocessed = pure tt
  drain_with none window unprocessed = pure tt

  -- `_drainClosedEpochs`
  unfoldable pub drain_closed_epochs : M S (Unit {0})
  drain_closed_epochs =
      drain_with chain.closed_slots chain.refund_window_of chain.unprocessed_actions

  abbrev pub close_open : List ℕ → M S (Unit {0})
  close_open [] = pure tt
  close_open (m ∷ ms) = send chain (close_remaining (m ∷ ms))

  -- `_afterClose`
  unfoldable pub after_close : M S (Unit {0})
  after_close = ask chain.open_slots >>= λ slots. close_open slots >>= λ u. drain_closed_epochs
