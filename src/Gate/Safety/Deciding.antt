-- ===== src/Gate/Safety/Deciding.antt =====
-- What a pass sends of its decisions and of the source's freshness
-- (services/live-room/src/gate/authority.mjs, `_suspend`, `_reopen`, and the parts of `tick`).
use tradermarket.Base.{
  All-append, ℕ, ◌≤◌, Bool, true, false, Option, none, some, List, [], ◌∷◌, ◌≡◌, refl, ◌⊎◌, inl,
  inr, All, arith, ap, sym,
}
use tradermarket.Base.Dict.{lookup}
use tradermarket.Domain.Conditions.{Decision}
use tradermarket.Domain.Conditions.Metrics.{decided, undecided, unevaluable}
use tradermarket.Gate.{
  Why, suspend_room, reopen_room, close_room, close_remaining, close_slots, Chain, Setting,
}
use tradermarket.Gate.Action.{tip_seq}
use tradermarket.Gate.Suspension.{suspend_unless, suspend, reopen_if, reopen}
use tradermarket.Gate.Pass.{
  under, max_seq, markets_of, is_over, is_headline_slot, close_all, headline_condition,
  give_up_slot, judge, judge_slot, judge_slots, close_judged,
}
use tradermarket.Gate.Keeping.{
  Watch, Reads, Acts, Reads-pure, Reads-ask, Reads-log, Reads-then, Reads-if, Acts-then, Acts-next,
  Acts-send, Acts-pure,
}
use tradermarket.Gate.Safety.{
  IsStale, IsHeadline, IsDecidedBy, IsUnevaluable, IsSlotOver, Justified,
}
use tradermarket.Gate.Safety.Reading.{
  Any, noted-Reads, mark_unevaluable-Reads, clear_unevaluable-Reads, condition_for-Reads,
  room_sequence-Reads, closing_sequence-Reads, is_suspended_on_chain-Reads,
  every_open_slot_suspended-Reads,
}

module _ {S : Type 0} (chain : Chain S) (setting : Setting) (now_ms : ℕ)
    (K : Watch (Justified chain setting now_ms)) where
  suspend_unless-Acts :
      (s : S) (why : Why) (b : Bool)
      → IsStale chain setting now_ms true
        ⊎ IsHeadline chain setting now_ms (IsUnevaluable chain setting now_ms)
      → Acts K s (suspend_unless chain setting.tip why b)
  suspend_unless-Acts s why true need = Acts-pure K s false
  suspend_unless-Acts s why false need =
      Acts-then K s (room_sequence-Reads K chain setting now_ms s (tip_seq setting.tip)) (λ n ok.
        Acts-then K s (Reads-log K s _) (λ u v.
          Acts-next K s (Acts-send K chain s (suspend_room n) (ok.0, (ok.1, need)))
            (λ t u. Acts-pure K t true)))

  pub suspend-Acts :
      (s : S) (why : Why)
      → IsStale chain setting now_ms true
        ⊎ IsHeadline chain setting now_ms (IsUnevaluable chain setting now_ms)
      → Acts K s (suspend chain setting.tip why)
  unfolding suspend
  suspend-Acts s why need =
      Acts-then K s (every_open_slot_suspended-Reads K chain setting now_ms s)
        (λ b u. suspend_unless-Acts s why b need)

  reopen_if-Acts :
      (s : S) (b : Bool)
      → IsStale chain setting now_ms false
      → Acts K s (reopen_if chain setting.tip b)
  reopen_if-Acts s false fresh = Acts-pure K s false
  reopen_if-Acts s true fresh =
      Acts-then K s (room_sequence-Reads K chain setting now_ms s (tip_seq setting.tip)) (λ n ok.
        Acts-then K s (Reads-log K s _) (λ u v.
          Acts-next K s (Acts-send K chain s (reopen_room n) (ok.0, (ok.1, fresh)))
            (λ t u. Acts-pure K t true)))

  pub reopen-Acts :
      (s : S) → IsStale chain setting now_ms false → Acts K s (reopen chain setting.tip)
  unfolding reopen
  reopen-Acts s fresh =
      Acts-then K s (is_suspended_on_chain-Reads K chain setting now_ms s)
        (λ b u. reopen_if-Acts s b fresh)

  -- An entry of `toClose`: a slot, and the sequence that it is over at
  abbrev Judged : ℕ × ℕ → Type 0
  Judged e =
      IsSlotOver chain setting now_ms (IsDecidedBy chain setting now_ms e.1) e.0
      ⊎ IsSlotOver chain setting now_ms (IsUnevaluable chain setting now_ms) e.0

  give_up_slot-Reads :
      (s : S) (market : ℕ) (b : Bool)
      → IsSlotOver chain setting now_ms (IsUnevaluable chain setting now_ms) market
      → Reads K s (All Judged) (give_up_slot chain setting now_ms market b)
  give_up_slot-Reads s market false is = Reads-pure K s [] tt
  give_up_slot-Reads s market true is = noted-Reads K s _ _ (
      Reads-then K s (Reads-ask K {Q = Any} s chain.last_observed_sequence (λ n e. tt))
        (λ n u. Reads-pure K s _ (inr is, tt)))

  judge-Reads :
      (s : S) (market : ℕ) (d : Decision)
      → IsSlotOver chain setting now_ms (λ x. x ≡ d) market
      → Reads K s (All Judged) (judge chain setting now_ms market d)
  judge-Reads s market (decided o n) (c, (e, is)) =
      Reads-then K s (clear_unevaluable-Reads K s market)
        (λ u v. Reads-pure K s ((market, n) ∷ []) (inl (c, (e, (o, (n, (is, omega arith))))), tt))
  judge-Reads s market (unevaluable r) (c, (e, is)) =
      Reads-then K s (mark_unevaluable-Reads K s market now_ms r)
        (λ since u. give_up_slot-Reads s market (is_over setting now_ms since) (c, (e, (r, is))))
  judge-Reads s market undecided is =
      Reads-then K s (clear_unevaluable-Reads K s market) (λ u v. Reads-pure K s [] tt)

  headline_of-Reads :
      (s : S) (h : Option ℕ)
      → Reads K s
          (λ o. o ≡ elim h [ none ↦ none | some m ↦ lookup m setting.conditions ])
          (headline_condition chain setting now_ms h)
  headline_of-Reads s none = Reads-pure K s none refl
  headline_of-Reads s (some h) =
      Reads-then K s (condition_for-Reads K setting s h) (λ c e. Reads-pure K s (some c) (sym e))

  judge_slot-Reads :
      (s : S) (market : ℕ) → Reads K s (All Judged) (judge_slot chain setting now_ms market)
  judge_slot-Reads s market = Reads-then K s (condition_for-Reads K setting s market) (λ c e.
      Reads-then K s (headline_of-Reads s setting.headline_market)
        (λ h is. judge-Reads s market _ (c, (e, ap (λ o. under setting o c) (sym is)))))

  pub judge_slots-Reads :
      (s : S) (headline : Option ℕ) (ms : List ℕ)
      → Reads K s (All Judged) (judge_slots chain setting now_ms headline ms)
  judge_slots-Reads s headline [] = Reads-pure K s [] tt
  judge_slots-Reads s headline (market ∷ ms) =
      Reads-if K s (is_headline_slot headline market) (λ e. judge_slots-Reads s headline ms)
        (λ e. Reads-then K s (judge_slot-Reads s market) (λ es all.
          Reads-then K s (judge_slots-Reads s headline ms)
            (λ fs more. Reads-pure K s _ (All-append _ es fs all more))))

  Judged-over :
      (n : ℕ) (e : ℕ × ℕ)
      → e.1 ≤ n
      → Judged e
      → IsSlotOver chain setting now_ms (IsDecidedBy chain setting now_ms n) e.0
        ⊎ IsSlotOver chain setting now_ms (IsUnevaluable chain setting now_ms) e.0
  Judged-over n e le (inl (c, (f, (o, (k, (is, small)))))) =
      inl (c, (f, (o, (k, (is, omega (arith, le, small))))))
  Judged-over n e le (inr is) = inr is

  All-over :
      (n : ℕ) (es : List (ℕ × ℕ))
      → max_seq es ≤ n
      → All Judged es
      → All
          (λ m.
            IsSlotOver chain setting now_ms (IsDecidedBy chain setting now_ms n) m
            ⊎ IsSlotOver chain setting now_ms (IsUnevaluable chain setting now_ms) m)
          (markets_of es)
  All-over n [] le all = tt
  All-over n ((m, k) ∷ es) le all =
      (Judged-over n (m, k) (omega (arith, le)) all.0, All-over n es (omega (arith, le)) all.1)

  pub close_judged-Acts :
      (s : S) (es : List (ℕ × ℕ)) → All Judged es → Acts K s (close_judged chain setting now_ms es)
  close_judged-Acts s [] all = Acts-pure K s tt
  close_judged-Acts s (e ∷ es) all =
      Acts-then K s (closing_sequence-Reads K chain setting now_ms s (max_seq (e ∷ es))) (λ n ok.
        Acts-then K s (Reads-log K s _) (λ u v.
          Acts-send K chain s (close_slots n (markets_of (e ∷ es)))
            (ok.0, All-over n (e ∷ es) ok.1 all)))

  pub close_all-Acts :
      (s : S) (n : ℕ) (slots : List ℕ)
      → Justified chain setting now_ms s (close_room n)
      → Acts K s (close_all chain setting now_ms n slots)
  close_all-Acts s n slots j =
      Acts-next K s (Acts-send K chain s (close_room n) j)
        (λ t u. Acts-send K chain t (close_remaining slots) tt)
