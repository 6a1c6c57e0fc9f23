-- ===== src/Gate/Safety/Reading.antt =====
-- What the gate's reads return (services/live-room/src/gate/authority.mjs): sequences that the room
-- accepts, and the state of its slots.
use tradermarket.Base.{
  ◌⊎◌, All, ℕ, ◌+◌, ◌≤◌, ◌<◌, Bool, true, false, Option, none, some, List, [], ◌∷◌, ◌≡◌, refl, ltb,
  if◌then◌else◌, inl, inr, arith,
}
use tradermarket.Base.Dict.{Dict, lookup}
use tradermarket.Domain.Conditions.{Reason}
use tradermarket.Keeper.{GateState}
use tradermarket.Gate.{Call, Entry, Chain, Setting, Memory}
use tradermarket.Gate.Action.{
  M, mark_unevaluable, clear_unevaluable, room_sequence, closing_sequence, when, ask, log, ◌>>◌,
  ◌>>=◌, marked_at, get_memory, condition_for,
}
use tradermarket.Gate.Suspension.{
  gate_state, any_suspended, is_suspended_on_chain, all_suspended, every_suspended,
  every_open_slot_suspended,
}
use tradermarket.Gate.Keeping.{
  Watch, Reads, Reads-pure, Reads-need, Reads-ask, Reads-memory, Reads-write, Reads-log, Reads-then,
  Reads-if,
}
use tradermarket.Gate.Safety.{IsNotBehind, IsAhead}

-- Anything: what is returned is not looked at.
abbrev pub Any : {A : Type 0} → A → Type 0
Any a = Unit

pub All-inl : {A : Type 0} (P Q : A → Type 0) (xs : List A) → All P xs → All (λ a. P a ⊎ Q a) xs
All-inl P Q [] all = tt
All-inl P Q (x ∷ xs) all = (inl all.0, All-inl P Q xs all.1)

pub All-inr : {A : Type 0} (P Q : A → Type 0) (xs : List A) → All Q xs → All (λ a. P a ⊎ Q a) xs
All-inr P Q [] all = tt
All-inr P Q (x ∷ xs) all = (inr all.0, All-inr P Q xs all.1)

module _ {S : Type 0} {J : S → Call → Type 0} (K : Watch J) where
  pub get-Reads :
      {A : Type 0} {Q : A → Type 0} (s : S) (f : Memory → M S A)
      → ((m : Memory) → Reads K s Q (f m))
      → Reads K s Q (get_memory >>= f)
  get-Reads s f rest = Reads-then K s (Reads-memory K {Q = Any} s (λ m. tt)) (λ m u. rest m)

  pub noted-Reads :
      {A : Type 0} {Q : A → Type 0} (s : S) (e : Entry) (m : M S A)
      → Reads K s Q m
      → Reads K s Q (log e >> m)
  noted-Reads s e m rest = Reads-then K s (Reads-log K s e) (λ u v. rest)

  pub when-Reads :
      (s : S) (b : Bool) (m : M S (Unit {0})) → Reads K s Any m → Reads K s Any (when b m)
  when-Reads s true m read = read
  when-Reads s false m read = Reads-pure K s tt tt

  marked_at-Reads :
      (s : S) (market now_ms : ℕ) (r : Reason) (d : Dict ℕ) (o : Option ℕ)
      → Reads K s Any (marked_at market now_ms r d o)
  marked_at-Reads s market now_ms r d (some since) = Reads-pure K s since tt
  marked_at-Reads s market now_ms r d none =
      Reads-then K s (Reads-write K s _ _ (λ m. (refl, refl)) (λ d. refl))
        (λ u v. noted-Reads s _ _ (Reads-pure K s now_ms tt))

  pub mark_unevaluable-Reads :
      (s : S) (market now_ms : ℕ) (r : Reason) → Reads K s Any (mark_unevaluable market now_ms r)
  unfolding mark_unevaluable
  mark_unevaluable-Reads s market now_ms r =
      get-Reads s _ (λ m. marked_at-Reads s market now_ms r m.unevaluable_since _)

  pub clear_unevaluable-Reads : (s : S) (market : ℕ) → Reads K s Any (clear_unevaluable market)
  unfolding clear_unevaluable
  clear_unevaluable-Reads s market = get-Reads s _ (λ m. when-Reads s _ _ (
      Reads-then K s (Reads-write K s _ _ (λ m. (refl, refl)) (λ d. refl))
        (λ u v. Reads-log K s _)))

  pub condition_for-Reads :
      (setting : Setting) (s : S) (market : ℕ)
      → Reads K s (λ c. lookup market setting.conditions ≡ some c) (condition_for setting market)
  condition_for-Reads setting s market = Reads-need K s _ (λ c e. e)

larger_lem : (k n : ℕ) → (k ≤ (if ltb k n then n else k)) × (n ≤ (if ltb k n then n else k))
larger_lem k n = (ground arith, ground arith)

past_lem : (k n : ℕ) → (k < (if ltb k n then n else k + 1)) × (n ≤ (if ltb k n then n else k + 1))
past_lem k n = (ground arith, ground arith)

module _ {S : Type 0} {J : S → Call → Type 0} (K : Watch J) (chain : Chain S) (setting : Setting)
    (now_ms : ℕ) where
  pub room_sequence-Reads :
      (s : S) (n : ℕ)
      → Reads K s (λ k. IsNotBehind chain setting now_ms s k × (n ≤ k)) (room_sequence chain n)
  room_sequence-Reads s n =
      Reads-then K s (Reads-ask K s chain.last_observed_sequence (λ k e. e))
        (λ k e. Reads-pure K s _ ((k, (e, (larger_lem k n).0)), (larger_lem k n).1))

  pub closing_sequence-Reads :
      (s : S) (n : ℕ)
      → Reads K s (λ k. IsAhead chain setting now_ms s k × (n ≤ k)) (closing_sequence chain n)
  closing_sequence-Reads s n =
      Reads-then K s (Reads-ask K s chain.last_observed_sequence (λ k e. e))
        (λ k e. Reads-pure K s _ ((k, (e, (past_lem k n).0)), (past_lem k n).1))

  asked : {A : Type 0} (s : S) (f : S → Option A) → Reads K s Any (ask f)
  asked s f = Reads-ask K s f (λ a e. tt)

  gate_state-Reads : (s : S) (market : ℕ) → Reads K s Any (gate_state chain market)
  gate_state-Reads s market =
      Reads-then K s (Reads-need K {Q = Any} s _ (λ f e. tt)) (λ f u. asked s _)

  pub any_suspended-Reads : (s : S) (ms : List ℕ) → Reads K s Any (any_suspended chain ms)
  any_suspended-Reads s [] = Reads-pure K s false tt
  any_suspended-Reads s (m ∷ ms) =
      Reads-then K s (gate_state-Reads s m)
        (λ g u. Reads-if K s _ (λ e. Reads-pure K s true tt) (λ e. any_suspended-Reads s ms))

  asked_suspended-Reads :
      (s : S) (o : Option (S → Option Bool))
      → Reads K s Any (elim o [
        | some f ↦ ask f
        | none ↦ ask chain.open_slots >>= λ slots. any_suspended chain slots
      ])
  asked_suspended-Reads s (some f) = asked s f
  asked_suspended-Reads s none =
      Reads-then K s (asked s chain.open_slots) (λ slots u. any_suspended-Reads s slots)

  pub is_suspended_on_chain-Reads : (s : S) → Reads K s Any (is_suspended_on_chain chain)
  is_suspended_on_chain-Reads s = asked_suspended-Reads s chain.is_suspended

  all_suspended-Reads : (s : S) (ms : List ℕ) → Reads K s Any (all_suspended chain ms)
  all_suspended-Reads s [] = Reads-pure K s true tt
  all_suspended-Reads s (m ∷ ms) =
      Reads-then K s (gate_state-Reads s m)
        (λ g u. Reads-if K s _ (λ e. all_suspended-Reads s ms) (λ e. Reads-pure K s false tt))

  every_suspended-Reads :
      (s : S) (o : Option (S → ℕ → Option GateState)) (ms : List ℕ)
      → Reads K s Any (every_suspended chain o ms)
  every_suspended-Reads s o [] = is_suspended_on_chain-Reads s
  every_suspended-Reads s none (m ∷ ms) = is_suspended_on_chain-Reads s
  every_suspended-Reads s (some f) (m ∷ ms) = all_suspended-Reads s (m ∷ ms)

  pub every_open_slot_suspended-Reads : (s : S) → Reads K s Any (every_open_slot_suspended chain)
  every_open_slot_suspended-Reads s =
      Reads-then K s (asked s chain.open_slots) (λ slots u. every_suspended-Reads s _ slots)
