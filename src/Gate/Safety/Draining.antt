-- ===== src/Gate/Safety/Draining.antt =====
-- What `_drainClosedEpochs` and `_afterClose` send
-- (services/live-room/src/gate/authority.mjs).
use tradermarket.Base.{
  All-append, ℕ, zero, suc, ◌-◌, ◌≤◌, Bool, true, Option, none, some, List, [], ◌∷◌, ◌≡◌, refl, All,
  arith, ap, ◌∙◌,
}
use tradermarket.Gate.{process_room, close_remaining, Chain, Setting}
use tradermarket.Gate.Clearance.{
  range, with_market, first_unprocessed, drainable, drain, drain_with, drain_closed_epochs,
  close_open, after_close,
}
use tradermarket.Gate.Keeping.{
  Watch, Reads, Acts, Reads-pure, Reads-ask, Reads-log, Reads-then, Reads-if, Acts-then, Acts-next,
  Acts-send, Acts-pure,
}
use tradermarket.Gate.Safety.{IsRefundable, Justified}
use tradermarket.Gate.Safety.Reading.{Any, All-inr}

module _ {S : Type 0} (chain : Chain S) (setting : Setting) (now_ms : ℕ)
    (K : Watch (Justified chain setting now_ms)) where
  abbrev Unprocessed : S → (S → ℕ → ℕ → Option Bool) → ℕ → ℕ → ℕ → Option ℕ → Type 0
  Unprocessed s unprocessed market a b none = Unit
  Unprocessed s unprocessed market a b (some epoch) =
      (a ≤ epoch) × ((epoch ≤ b) × (unprocessed s market epoch ≡ some true))

  first_unprocessed-Reads :
      (s : S) (unprocessed : S → ℕ → ℕ → Option Bool) (market a b from n : ℕ)
      → a ≤ from
      → n ≤ suc b - from
      → Reads K s
          (Unprocessed s unprocessed market a b)
          (first_unprocessed chain unprocessed market (range from n))
  first_unprocessed-Reads s unprocessed market a b from zero p q = Reads-pure K s none tt
  first_unprocessed-Reads s unprocessed market a b from (suc n) p q =
      Reads-then K s (Reads-ask K s (λ t. unprocessed t market from) (λ x e. e)) (λ x e.
        Reads-if K s x (λ is. Reads-pure K s (some from) (p, (omega (arith, q), e ∙ ap some is)))
          (λ is.
            first_unprocessed-Reads s unprocessed market a b (suc from) n (omega (arith, p))
              (omega (arith, q))))

  -- What is to be drained on the chain `s`
  abbrev Drainable : S → List (ℕ × ℕ) → Type 0
  Drainable s es = All (IsRefundable chain setting now_ms s) es

  module _ (s : S) (window : S → ℕ → Option (ℕ × ℕ)) (unprocessed : S → ℕ → ℕ → Option Bool)
      (has_window : chain.refund_window_of ≡ some window)
      (has_unprocessed : chain.unprocessed_actions ≡ some unprocessed) where
    with_market-Drainable :
        (market : ℕ) (bounds : ℕ × ℕ) (o : Option ℕ)
        → window s market ≡ some bounds
        → Unprocessed s unprocessed market bounds.0 bounds.1 o
        → Drainable s (with_market market o)
    with_market-Drainable market bounds none e found = tt
    with_market-Drainable market bounds (some epoch) e found =
        ((window, (unprocessed, (has_window, (has_unprocessed, (bounds, (e, found)))))), tt)

    drainable-Reads :
        (ms : List ℕ) → Reads K s (Drainable s) (drainable chain window unprocessed ms)
    drainable-Reads [] = Reads-pure K s [] tt
    drainable-Reads (market ∷ ms) =
        Reads-then K s (Reads-ask K s (λ t. window t market) (λ bounds e. e)) (λ bounds e.
          Reads-then K s
            (first_unprocessed-Reads s unprocessed market bounds.0 bounds.1 bounds.0 _ (omega arith)
              (omega arith))
            (λ o found. Reads-then K s (drainable-Reads ms) (λ more all. Reads-pure K s _ (
              All-append _ (with_market market o) more
                (with_market-Drainable market bounds o e found) all))))

  drain-Acts : (s : S) (es : List (ℕ × ℕ)) → Drainable s es → Acts K s (drain chain es)
  drain-Acts s [] all = Acts-pure K s tt
  drain-Acts s (e ∷ es) all =
      Acts-then K s (Reads-log K s _)
        (λ u v. Acts-send K chain s (process_room (e ∷ es)) (All-inr _ _ (e ∷ es) all))

  drain_with-Acts :
      (s : S) (closed : Option (S → Option (List ℕ))) (window : Option (S → ℕ → Option (ℕ × ℕ)))
      (unprocessed : Option (S → ℕ → ℕ → Option Bool))
      → chain.refund_window_of ≡ window
      → chain.unprocessed_actions ≡ unprocessed
      → Acts K s (drain_with chain closed window unprocessed)
  drain_with-Acts s none window unprocessed p q = Acts-pure K s tt
  drain_with-Acts s (some closed) none unprocessed p q = Acts-pure K s tt
  drain_with-Acts s (some closed) (some window) none p q = Acts-pure K s tt
  drain_with-Acts s (some closed) (some window) (some unprocessed) p q =
      Acts-then K s (Reads-ask K {Q = Any} s closed (λ ms e. tt)) (λ ms u.
        Acts-then K s (drainable-Reads s window unprocessed p q ms) (λ es all. drain-Acts s es all))

  pub drain_closed_epochs-Acts : (s : S) → Acts K s (drain_closed_epochs chain)
  unfolding drain_closed_epochs
  drain_closed_epochs-Acts s = drain_with-Acts s chain.closed_slots _ _ refl refl

  close_open-Acts : (s : S) (ms : List ℕ) → Acts K s (close_open chain ms)
  close_open-Acts s [] = Acts-pure K s tt
  close_open-Acts s (m ∷ ms) = Acts-send K chain s (close_remaining (m ∷ ms)) tt

  pub after_close-Acts : (s : S) → Acts K s (after_close chain)
  unfolding after_close
  after_close-Acts s =
      Acts-then K s (Reads-ask K {Q = Any} s chain.open_slots (λ ms e. tt))
        (λ ms u. Acts-next K s (close_open-Acts s ms) (λ t v. drain_closed_epochs-Acts t))
