-- ===== src/Keeper/Tick.antt =====
-- One pass of the keeper (services/live-room/src/keeper/keeper.mjs, `tick`).
use tradermarket.Base.{
  ℕ, ◌≡◌, refl, Option, none, some, List, [], ◌∷◌, ◌++◌, Result, ok, err, Option-cases, inl, inr,
}
use tradermarket.Keeper.{SettlementState, Call, Action, due_action, settle, settle_read, tick}
use tradermarket.Keeper.Due.{Accepts, Cautious, due_action-Accepts}

module _ {S : Type 0} (read : S → ℕ → Result ℕ SettlementState)
    (send : S → Call → ℕ → S × Option ℕ) where
  -- The round of one market, from a chain to a chain, with what it records: one that cannot be read
  -- is left alone and noted with the error; one of which no call is due is left alone; else the one
  -- call that is sent is one that the contract accepts in the state that was read, the chain is what
  -- that call made of it, and the call is noted with its error, if any.
  pub data Round (now market : ℕ) : S → S → List Action → Type 0 where
    unread :
        {chain : S} {e : ℕ}
        → read chain market ≡ err e
        → Round now market chain chain
            (record { market = market; action = none; error = some e } ∷ [])
    idle :
        {chain : S} {s : SettlementState}
        → read chain market ≡ ok s
        → ((c : Call) → ¬ (Accepts s now c × Cautious s c))
        → Round now market chain chain []
    called :
        {chain after : S} {s : SettlementState} {c : Call} {error : Option ℕ}
        → read chain market ≡ ok s
        → Accepts s now c
        → send chain c market ≡ (after, error)
        → Round now market chain after
            (record { market = market; action = some c; error = error } ∷ [])

  settle_read-Round :
      (chain : S) (now market : ℕ) (r : Result ℕ SettlementState)
      → read chain market ≡ r
      → Round now market chain
          (settle_read read send chain now market r).0
          (settle_read read send chain now market r).1
  settle_read-Round chain now market (err e) h = unread h
  settle_read-Round chain now market (ok s) h = elim (Option-cases (due_action s now)) [
    | inl nothing ↦
        rw nothing (idle h (λ c is. let due = (due_action-Accepts s now c).1 is in absurd (cc)))
    | inr (c, due) ↦ rw due (called h ((due_action-Accepts s now c).0 due).0 refl)
  ]

  -- The rounds of a tick over a list of markets: each one from the chain that the last one left.
  pub data Passes (now : ℕ) : S → List ℕ → S → List Action → Type 0 where
    finished : {chain : S} → Passes now chain [] chain []
    next :
        {chain after last : S} {market : ℕ} {markets : List ℕ} {done more : List Action}
        → Round now market chain after done
        → Passes now after markets last more
        → Passes now chain (market ∷ markets) last (done ++ more)

  -- A tick visits every closed market, in order, whatever reads or calls fail on the way: a market
  -- that cannot be read, and one of which no call is due, is left alone; of any other one call is
  -- sent, which the contract accepts in the state that was read just before; the chain goes from one
  -- call to the next, and the list that the tick returns has just these calls and errors.
  pub tick-Passes :
      (chain : S) (now : ℕ) (markets : List ℕ)
      → Passes now chain markets
          (tick read send chain now markets).0
          (tick read send chain now markets).1
  unfolding tick settle
  tick-Passes chain now [] = finished
  tick-Passes chain now (market ∷ markets) =
      next (settle_read-Round chain now market (read chain market) refl)
        (tick-Passes (settle read send chain now market).0 now markets)
