-- ===== src/Domain/Conditions/Exact.antt =====
-- The headline race over exact sums: what `scanning` computes on printed decimals
-- (services/live-room/src/domain/conditions.mjs) is the race over integers at scale 6.
use tradermarket.Base.{
  ℕ, ◌≡◌, ◌≢◌, refl, sym, ap, ◌∙◌, Bool, true, false, not, ◌&&◌, Option, none, some, List, [], ◌∷◌,
  ◌++◌, arith, if◌then◌else◌, ◌==◌, Bool-cases, inl, inr, ok, All, or_else, ==_refl, subst,
}
use native.Mathlib.Decide.{ℕ_discrete as dec_eq}
use tradermarket.Base.Dict.{lookup, insert, lookup-insert}
use tradermarket.Base.Int.{ℤ, pos, ◌+ℤ◌, ltb_ℤ, int_laws}
use tradermarket.Domain.Decimal.{above, same, from_scaled, show_nat, show_digits}
use tradermarket.Domain.Decimal.RoundTrip.{add_decimal-from_scaled, compare_decimal-from_scaled}
use tradermarket.Domain.Event.{Event, Kind, baseline, trade_closed, heartbeat, other_kind}
use tradermarket.Domain.Conditions.{
  Decision, Outcome, Standing, Standings, absorb, decide, is_trade, is_participant, scanning,
  scan_step, satisfies, evaluate_window, metric_value, caught, outcome_of, decide_if,
}
use tradermarket.Domain.Conditions.Metrics.{
  undecided, decided, first_to_realized_pnl, ge, party, new_standing, zero_text, updated,
  by_operator,
}

module _ (amount : Event → ℤ) where
  -- Every trade carries its amount, printed.
  abbrev pub HasAmounts : List Event → Type 0
  HasAmounts = All (λ (e : Event).
      is_trade e.kind ≡ true → e.facts.realized_pnl_usd ≡ some (from_scaled (amount e)))

  -- What an event adds to a participant's total, and the total over a list.
  abbrev pub gain : ℕ → Event → ℤ
  gain p e = if is_trade e.kind && is_participant e.participant p then amount e else pos 0

  abbrev pub total : ℕ → List Event → ℤ
  total p [] = pos 0
  total p (e ∷ es) = gain p e +ℤ total p es

  abbrev pub reached_by : Option ℕ → ℤ → List Event → Bool
  reached_by none target events = false
  reached_by (some p) target events = not (ltb_ℤ (total p events) target)

  -- The race: the first trade after which its participant's total has reached the target.
  pub race : ℤ → List Event → List Event → Decision
  race target before [] = undecided
  race target before (e ∷ es) =
      let rest = race target (before ++ e ∷ []) es in
      if is_trade e.kind && reached_by e.participant target (before ++ e ∷ [])
      then decided (outcome_of e.participant) e.seq
      else rest

  total-append_one :
      (p : ℕ) (es : List Event) (e : Event) → total p (es ++ e ∷ []) ≡ total p es +ℤ gain p e
  total-append_one p [] e = omega int_laws
  total-append_one p (x ∷ es) e = rw (total-append_one p es e) (omega int_laws)

  -- The texts in the map print the totals.
  abbrev Tracks : Standings → List Event → Type 0
  Tracks state before =
      (p : ℕ)
      → (or_else (lookup p state) new_standing).cum_realized_pnl_usd ≡ from_scaled (total p before)

  zero_text-from_scaled : zero_text ≡ from_scaled (pos 0)
  unfolding from_scaled show_nat show_digits
  zero_text-from_scaled = refl

  add_nothing : (x : ℤ) → x +ℤ pos 0 ≡ x
  add_nothing x = omega int_laws

  -- What one event does to its participant's standing.
  updated-exact :
      (k : Kind) (s : Standing) (e : Event) (before : ℤ)
      → e.kind ≡ k
      → s.cum_realized_pnl_usd ≡ from_scaled before
      → (is_trade e.kind ≡ true → e.facts.realized_pnl_usd ≡ some (from_scaled (amount e)))
      → (t : Standing) × (updated k s e ≡ ok t)
        × (t.cum_realized_pnl_usd
            ≡ from_scaled (before +ℤ (if is_trade k then amount e else pos 0)))
  updated-exact baseline s e before k c h = (
    record s { baseline = some e.facts.account_value_usd },
    refl,
    c ∙ ap from_scaled (sym (add_nothing before)),
  )
  updated-exact trade_closed s e before k c h =
      let paid = h (rw k refl) in
      (
        record s { cum_realized_pnl_usd = from_scaled (before +ℤ amount e) },
        simp (c, paid, add_decimal-from_scaled),
        refl,
      )
  updated-exact heartbeat s e before k c h =
      (s, refl, c ∙ ap from_scaled (sym (add_nothing before)))
  updated-exact (other_kind n) s e before k c h =
      (s, refl, c ∙ ap from_scaled (sym (add_nothing before)))

  -- What is true of the map after an event.
  record After (e : Event) (state : Standings) (before : List Event) : Type 0 where
    next : Standings
    absorbed : absorb state e ≡ ok next
    tracks : Tracks next (before ++ e ∷ [])
    present : (q : ℕ) → e.participant ≡ some q → (s : Standing) × (lookup q next ≡ some s)

  gain_of_none : (p : ℕ) (e : Event) → e.participant ≡ none → gain p e ≡ pos 0
  gain_of_none p e nobody = ground arith

  gain_of_self :
      (q : ℕ) (e : Event)
      → e.participant ≡ some q
      → gain q e ≡ (if is_trade e.kind then amount e else pos 0)
  gain_of_self q e own = ground arith

  gain_of_other : (q p : ℕ) (e : Event) → e.participant ≡ some q → q ≢ p → gain p e ≡ pos 0
  gain_of_other q p e own ne = ground arith

  total-unchanged :
      (p : ℕ) (before : List Event) (e : Event)
      → gain p e ≡ pos 0
      → total p (before ++ e ∷ []) ≡ total p before
  total-unchanged p before e no_gain =
      total-append_one p before e
      ∙ ap (λ (g : ℤ). total p before +ℤ g) no_gain
      ∙ add_nothing (total p before)

  -- The entry of the event's participant follows its total, and no other entry changes.
  inserted-Tracks :
      (q : ℕ) (s : Standing) (state : Standings) (before : List Event) (e : Event)
      → e.participant ≡ some q
      → Tracks state before
      → s.cum_realized_pnl_usd
        ≡ from_scaled (total q before +ℤ (if is_trade e.kind then amount e else pos 0))
      → Tracks (insert q s state) (before ++ e ∷ [])
  inserted-Tracks q s state before e own t exact p = elim (dec_eq q p) [
    | yes self ↦
        subst
          (λ (x : ℕ).
            (or_else (lookup x (insert q s state)) new_standing).cum_realized_pnl_usd
            ≡ from_scaled (total x (before ++ e ∷ [])))
          self
          (rw (lookup-insert, ==_refl q)
            (exact
              ∙ ap from_scaled (
                  ap (λ (g : ℤ). total q before +ℤ g) (sym (gain_of_self q e own))
                  ∙ sym (total-append_one q before e))))
    | no other ↦
        let apart : (q == p) ≡ false = ground arith in
        rw (lookup-insert, apart)
          (t p ∙ ap from_scaled (sym (total-unchanged p before e (gain_of_other q p e own other))))
  ]

  absorb-After :
      (who : Option ℕ) (state : Standings) (before : List Event) (e : Event)
      → e.participant ≡ who
      → Tracks state before
      → (is_trade e.kind ≡ true → e.facts.realized_pnl_usd ≡ some (from_scaled (amount e)))
      → After e state before
  unfolding absorb
  absorb-After none state before e nobody t h = record {
    next = state;
    absorbed = rw nobody;
    tracks = λ p. t p ∙ ap from_scaled (sym (total-unchanged p before e (gain_of_none p e nobody)));
    present = λ q somebody. absurd (let wrong = sym nobody ∙ somebody in cc);
  }
  absorb-After (some q) state before e own t h =
      let (s, made, exact) =
        updated-exact e.kind (or_else (lookup q state) new_standing) e (total q before) refl (t q)
          h in
      record {
        next = insert q s state;
        absorbed = simp (own, made);
        tracks = inserted-Tracks q s state before e own t exact;
        present = λ p somebody. (s, ground (arith, lookup-insert q p s state));
      }

  satisfies-ge : (x y : ℤ) → satisfies ge (from_scaled x) (from_scaled y) ≡ ok (not (ltb_ℤ x y))
  unfolding satisfies
  satisfies-ge x y = rw (compare_decimal-from_scaled x y) (elim (Bool-cases (ltb_ℤ x y)) [
    | inl under ↦ rw under
    | inr over ↦ rw over (at_least (ltb_ℤ y x))
  ])
    where
      at_least : (b : Bool) → by_operator ge (if b then above else same) ≡ ok true
      at_least true = refl
      at_least false = refl

  decide_if-ge :
      (x y : ℤ) (o : Outcome) (n : ℕ)
      → decide_if ge (some (from_scaled x)) (from_scaled y) o n
        ≡ ok (if not (ltb_ℤ x y) then some (decided o n) else none)
  decide_if-ge x y o n = rw (satisfies-ge x y)

  -- What the callback of the headline says once the map tracks the totals.
  decide-race :
      (who : Option ℕ) (target : ℤ) (state : Standings) (before : List Event) (e : Event)
      → e.participant ≡ who
      → (a : After e state before)
      → decide (first_to_realized_pnl (from_scaled target)) a.next e
        ≡ ok (
            if is_trade e.kind && reached_by e.participant target (before ++ e ∷ [])
            then some (decided (outcome_of e.participant) e.seq)
            else none)
  unfolding decide metric_value
  decide-race none target state before e nobody a = elim (Bool-cases (is_trade e.kind)) [
    | inl trade ↦ simp (trade, nobody)
    | inr other ↦ simp other
  ]
  decide-race (some q) target state before e own a = elim (Bool-cases (is_trade e.kind)) [
    | inl trade ↦
        let (s, here) = a.present q own in
        let exact = rw here at (a.tracks q) in
        simp (trade, own, here, exact)
          (decide_if-ge (total q (before ++ e ∷ [])) target (party q) e.seq)
    | inr other ↦ simp other
  ]

  scanning-race :
      (target : ℤ) (state : Standings) (before events : List Event)
      → Tracks state before
      → HasAmounts events
      → scanning (first_to_realized_pnl (from_scaled target)) state events
        ≡ ok (race target before events)
  unfolding scanning scan_step race
  scanning-race target state before [] t h = refl
  scanning-race target state before (e ∷ es) t h =
      let a = absorb-After e.participant state before e refl t h.0 in
      let says = decide-race e.participant target state before e refl a in
      elim (Bool-cases (is_trade e.kind && reached_by e.participant target (before ++ e ∷ []))) [
        | inl won ↦ simp (a.absorbed, says, won)
        | inr open_yet ↦
            simp (a.absorbed, says, open_yet)
              (scanning-race target a.next (before ++ e ∷ []) es a.tracks h.1)
      ]

  no_standing-Tracks : Tracks [] []
  no_standing-Tracks p = zero_text-from_scaled

  -- On a log whose trades carry printed amounts, the headline evaluates to the race over exact
  -- totals: it is decided for the participant, and at the sequence number, of the first trade
  -- after which that participant's total has reached the target, and undecided if there is none.
  pub evaluate_window-race :
      (lower : ℕ → ℕ) (target : ℤ) (events : List Event) (roster : Option (List ℕ))
      → HasAmounts events
      → evaluate_window lower (first_to_realized_pnl (from_scaled target)) events roster
        ≡ race target [] events
  unfolding evaluate_window
  evaluate_window-race lower target events roster h =
      ap caught (scanning-race target [] [] events no_standing-Tracks h)
