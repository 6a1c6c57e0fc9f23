-- ===== src/Indexer/Queries.antt =====
-- The queries of a `ProjectionStore` (services/live-room/src/indexer/projection.mjs).
use tradermarket.Base.{
  ℕ, ◌+◌, Bool, true, false, Option, none, some, List, [], ◌∷◌, keep, ◌==◌, ltb, ◌&&◌, ◌||◌,
  if◌then◌else◌, or_else, is_some,
}
use tradermarket.Base.Int.{ℤ, pos, sub_ℕ, ltb_ℤ}
use tradermarket.Base.PairDict.{lookup_pair}
use tradermarket.Indexer.{
  ActionRow, HoldingRow, SkipRow, TradeRow, ClaimRow, AttestationRow, Projection, Names,
}
use tradermarket.Indexer.Store.{values}

-- What is escrowed and not yet on the curve
pub record Pressure : Type 0 where
  pub count : ℕ
  pub buy_a : ℕ
  pub buy_b : ℕ
  pub liquidity : ℕ

abbrev pub no_pressure : Pressure
no_pressure = record { count = 0; buy_a = 0; buy_b = 0; liquidity = 0 }

abbrev pub is_status : ℕ → ActionRow → Bool
is_status n r = elim (r.status) [ none ↦ false | some m ↦ m == n ]

abbrev pub is_kind : ℕ → ActionRow → Bool
is_kind n r = elim (r.kind) [ none ↦ false | some m ↦ m == n ]

abbrev pub put_action : ActionRow → List ActionRow → List ActionRow
put_action r [] = r ∷ []
put_action r (s ∷ rest) =
    let after = put_action r rest in if ltb r.action_id s.action_id then r ∷ s ∷ rest else s ∷ after

abbrev pub sort_actions : List ActionRow → List ActionRow
sort_actions [] = []
sort_actions (r ∷ rest) = put_action r (sort_actions rest)

-- A row of a pending action has its amount.
abbrev pub press : ActionRow → Pressure → Pressure
press r p =
    let amount = or_else r.amount 0 in
    if is_kind 0 r
    then if or_else r.outcome_a false
      then record p { count = p.count + 1; buy_a = p.buy_a + amount }
      else record p { count = p.count + 1; buy_b = p.buy_b + amount }
    else if is_kind 2 r
    then record p { count = p.count + 1; liquidity = p.liquidity + amount }
    else record p { count = p.count + 1 }

abbrev pub press_all : List ActionRow → Pressure
press_all [] = no_pressure
press_all (r ∷ rest) = press r (press_all rest)

-- `staleness`: the lag, which is negative before the cursor
unfoldable pub staleness : ℕ → ℕ → Projection → ℤ × Bool
staleness head threshold s = let lag = sub_ℕ head s.cursor_block in (lag, ltb_ℤ (pos threshold) lag)

module _ (names : Names) where
  open names use {lower}

  unfoldable pub pending_actions : ℕ → Projection → List ActionRow
  pending_actions market s = sort_actions (
      keep (λ (r : ActionRow). lower r.market_address == lower market && is_status 0 r)
        (values s.actions))

  unfoldable pub pending_pressure : ℕ → Projection → Pressure
  unfolding pending_actions
  pending_pressure market s = press_all (pending_actions market s)

  unfoldable pub list_account_holdings : ℕ → Projection → List HoldingRow
  list_account_holdings account s =
      keep
        (λ (r : HoldingRow).
          lower r.account == lower account
          && (ltb_ℤ (pos 0) r.position.position_a
              || (ltb_ℤ (pos 0) r.position.position_b || ltb_ℤ (pos 0) r.position.lp_shares)))
        (values s.holdings)

  unfoldable pub list_trades : Option ℕ → ℕ → Projection → List TradeRow
  list_trades market since s =
      keep
        (λ (r : TradeRow).
          (elim market [ none ↦ true | some m ↦ lower r.market_address == lower m ])
          && ltb since r.block_number)
        s.trades

  unfoldable pub list_claims : Option ℕ → Projection → List ClaimRow
  list_claims account s =
      keep (λ (r : ClaimRow). elim account [ none ↦ true | some a ↦ lower r.account == lower a ])
        s.claims

  unfoldable pub list_skips : Option ℕ → Projection → List SkipRow
  list_skips market s =
      keep (λ (r : SkipRow). elim market [ none ↦ true | some m ↦ lower r.market == lower m ])
        s.skips

  unfoldable pub list_attestations : ℕ → Projection → List AttestationRow
  list_attestations market s =
      keep (λ (r : AttestationRow). lower r.market_address == lower market) s.attestations

  unfoldable pub is_epoch_safe : ℕ → ℕ → Projection → Bool
  is_epoch_safe market epoch s = is_some (lookup_pair (lower market, epoch) s.safe_epochs)
