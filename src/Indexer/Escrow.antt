-- ===== src/Indexer/Escrow.antt =====
-- What `pendingPressure` reports of actions that wait
-- (services/live-room/src/indexer/projection.mjs): the side of a submitted action is not known.
use tradermarket.Base.{
  ℕ, ◌+◌, ◌≡◌, refl, Bool, none, List, [], ◌∷◌, inl, inr, arith, if◌then◌else◌, Bool-cases, All,
  or_else, keep, ltb,
}
use tradermarket.Indexer.{ActionRow, Projection, Names}
use tradermarket.Indexer.Books.{IsSideless}
use tradermarket.Indexer.Queries.{
  is_kind, put_action, sort_actions, press_all, pending_actions, pending_pressure,
}

-- What is escrowed in pending purchases
abbrev pub escrowed : List ActionRow → ℕ
escrowed [] = 0
escrowed (r ∷ rest) = (if is_kind 0 r then or_else r.amount 0 else 0) + escrowed rest

press_all-sideless :
    (rows : List ActionRow)
    → All (λ (r : ActionRow). r.outcome_a ≡ none) rows
    → ((press_all rows).buy_a ≡ 0) × ((press_all rows).buy_b ≡ escrowed rows)
press_all-sideless [] h = (refl, refl)
press_all-sideless (r ∷ rest) (h, hs) = ground (arith, press_all-sideless rest hs)

All-put_action :
    (P : ActionRow → Type 0) (r : ActionRow) (rows : List ActionRow)
    → P r
    → All P rows
    → All P (put_action r rows)
All-put_action P r [] h hs = (h, tt)
All-put_action P r (s ∷ rest) h (k, ks) = elim (Bool-cases (ltb r.action_id s.action_id)) [
  | inl before ↦ rw before (h, (k, ks))
  | inr after ↦ rw after (k, All-put_action P r rest h ks)
]

All-sort_actions :
    (P : ActionRow → Type 0) (rows : List ActionRow) → All P rows → All P (sort_actions rows)
All-sort_actions P [] h = tt
All-sort_actions P (r ∷ rest) (h, hs) =
    All-put_action P r (sort_actions rest) h (All-sort_actions P rest hs)

All-keep :
    (P : ActionRow → Type 0) (test : ActionRow → Bool) (rows : List ActionRow)
    → All P rows
    → All P (keep test rows)
All-keep P test [] h = tt
All-keep P test (r ∷ rest) (h, hs) = elim (Bool-cases (test r)) [
  | inl kept ↦ rw kept (h, All-keep P test rest hs)
  | inr dropped ↦ rw dropped (All-keep P test rest hs)
]

module _ (names : Names) where
  pub pending_pressure-one_sided :
      (market : ℕ) (s : Projection)
      → IsSideless s.actions
      → ((pending_pressure names market s).buy_a ≡ 0)
        × ((pending_pressure names market s).buy_b ≡ escrowed (pending_actions names market s))
  unfolding pending_pressure pending_actions
  pending_pressure-one_sided market s h =
      press_all-sideless _ (All-sort_actions _ _ (All-keep _ _ _ h))
