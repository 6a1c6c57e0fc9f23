-- ===== src/Gate/Ending.antt =====
-- How a pass ends a session (services/live-room/src/gate/authority.mjs, `tick`).
use tradermarket.Base.{
  ℕ, ◌+◌, Bool, true, Option, none, some, List, ◌∷◌, ◌≡◌, refl, if◌then◌else◌, ltb, ap, ◌∙◌, sym,
  subst,
}
use tradermarket.Base.Dict.{lookup}
use tradermarket.Domain.Conditions.{Condition, Outcome}
use tradermarket.Domain.Conditions.Metrics.{decided}
use tradermarket.Gate.{Call, close_room, close_remaining, Chain, Setting, World}
use tradermarket.Gate.Loading.{IsAnswering}
use tradermarket.Gate.Action.{closing_sequence}
use tradermarket.Gate.Clearance.{alone}
use tradermarket.Gate.Pass.{elem, headline_of, close_all, on_headline, open_pass, tick}
use tradermarket.Gate.Running.{
  Goes, Goes-pure, Goes-need, Goes-ask, Goes-log, Goes-loaded, Goes-send, Goes-then,
}

-- The sequence that a room at the watermark `k` is closed with, for a decision at `n`
abbrev pub close_at : ℕ → ℕ → ℕ
close_at k n = if ltb k n then n else k + 1

if_true : (b : Bool) (h : ℕ) → b ≡ true → (if b then some h else none) ≡ some h
if_true b h e = ap (λ x. if x then some h else none) e

headline_lem :
    (o : Option ℕ) (h : ℕ) (slots : List ℕ)
    → o ≡ some h
    → elem h slots ≡ true
    → headline_of o slots ≡ some h
headline_lem o h slots e is = ap (λ x. headline_of x slots) e ∙ if_true (elem h slots) h is

module _ {S : Type 0} (chain : Chain S) (setting : Setting) (now_ms : ℕ) where
  closing_sequence-Goes :
      (s : S) (l : List (S × Call)) (k n : ℕ)
      → chain.last_observed_sequence s ≡ some k
      → Goes s l (closing_sequence chain n) (close_at k n) s l
  closing_sequence-Goes s l k n e =
      Goes-then _ (Goes-ask s l chain.last_observed_sequence k e) (Goes-pure s l _)

  close_all-Goes :
      (s t u : S) (l : List (S × Call)) (n : ℕ) (slots : List ℕ)
      → chain.send s (close_room n) ≡ some t
      → chain.send t (close_remaining slots) ≡ some u
      → Goes s l
          (close_all chain setting now_ms n slots)
          tt
          u
          ((t, close_remaining slots) ∷ (s, close_room n) ∷ l)
  close_all-Goes s t u l n slots e f =
      Goes-then _ (Goes-send chain s t l _ e) (Goes-send chain t u _ _ f)

  module _ (h n k : ℕ) (o : Outcome) (c : Condition) (slots : List ℕ) (s t u : S)
      (l : List (S × Call)) (is_read : chain.last_observed_sequence s ≡ some k)
      (room_closes : chain.send s (close_room (close_at k n)) ≡ some t)
      (slots_close : chain.send t (close_remaining slots) ≡ some u) where
    abbrev closed : List (S × Call)
    closed = (t, close_remaining slots) ∷ (s, close_room (close_at k n)) ∷ l

    decided-Goes : Goes s l (on_headline chain setting now_ms h slots (decided o n)) tt u closed
    decided-Goes =
        Goes-then _ (closing_sequence-Goes s l k n is_read)
          (Goes-then _ (Goes-log s l _) (close_all-Goes s t u l _ slots room_closes slots_close))

    open_pass-Goes :
        lookup h setting.conditions ≡ some c
        → alone setting c ≡ decided o n
        → Goes s l (open_pass chain setting now_ms slots (some h)) tt u closed
    open_pass-Goes found is = Goes-then _ (Goes-need s l _ c found) (
        subst (λ d. Goes s l (on_headline chain setting now_ms h slots d) tt u closed) (sym is)
          decided-Goes)

    tick-Goes :
        IsAnswering chain s
        → setting.headline_market ≡ some h
        → elem h slots ≡ true
        → chain.room_closed_sequence s ≡ some 0
        → chain.open_slots s ≡ some slots
        → lookup h setting.conditions ≡ some c
        → alone setting c ≡ decided o n
        → Goes s l (tick chain setting now_ms) tt u closed
    unfolding tick
    tick-Goes answers at among is_open are found is = Goes-then _ (Goes-loaded chain s l answers) (
        Goes-then _ (Goes-ask s l chain.room_closed_sequence 0 is_open) (
          Goes-then _ (Goes-ask s l chain.open_slots slots are) (
            subst (λ x. Goes s l (open_pass chain setting now_ms slots x) tt u closed)
              (sym (headline_lem setting.headline_market h slots at among))
              (open_pass-Goes found is))))

  -- Where the store answers, the log decides the headline, the room and the headline's slot are open, and the room
  -- takes both calls, a pass closes the room and then every open slot, and sends nothing else: the
  -- room at the decisive sequence, or one past its watermark where that is not behind it.
  pub tick-closes :
      (w : World S) (h n k : ℕ) (o : Outcome) (c : Condition) (slots : List ℕ) (t u : S)
      → IsAnswering chain w.chain
      → setting.headline_market ≡ some h
      → lookup h setting.conditions ≡ some c
      → alone setting c ≡ decided o n
      → chain.room_closed_sequence w.chain ≡ some 0
      → chain.open_slots w.chain ≡ some slots
      → elem h slots ≡ true
      → chain.last_observed_sequence w.chain ≡ some k
      → chain.send w.chain (close_room (close_at k n)) ≡ some t
      → chain.send t (close_remaining slots) ≡ some u
      → ((tick chain setting now_ms w).0 ≡ some tt)
        × ((tick chain setting now_ms w).1.sent
            ≡ (t, close_remaining slots) ∷ (w.chain, close_room (close_at k n)) ∷ w.sent)
  tick-closes w h n k o c slots t u answers at found is is_open are among is_read room_closes
        slots_close =
      let go =
        (tick-Goes h n k o c slots w.chain t u w.sent is_read room_closes slots_close answers at
            among is_open are found is).run
          w refl refl in
      (go.0, go.1.1)
