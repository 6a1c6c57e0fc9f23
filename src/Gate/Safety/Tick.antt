-- ===== src/Gate/Safety/Tick.antt =====
-- A whole pass (services/live-room/src/gate/authority.mjs, `tick`): each call that it sends is
-- justified.
use tradermarket.Base.{
  ℕ, Bool, true, false, Option, none, some, List, ◌≡◌, refl, inl, inr, arith, All, if◌then◌else◌,
  sym, subst,
}
use tradermarket.Domain.Conditions.{Decision}
use tradermarket.Domain.Conditions.Metrics.{decided, undecided, unevaluable}
use tradermarket.Gate.{Memory, Durable, Call, headline_unevaluable, Chain, Setting, World}
use tradermarket.Gate.Loading.{ensure_loaded-Loads}
use tradermarket.Gate.Action.{M, write, tip_seq, when, ensure_loaded}
use tradermarket.Gate.Pass.{
  elem, headline_of, is_stale, give_up_room, by_freshness, micro_pass, on_headline, open_pass,
  pass_if, tick,
}
use tradermarket.Gate.Keeping.{
  Watch, Reads-loaded, Acts, Reads-ask, Reads-log, Acts-then, Acts-next, Acts-pure,
}
use tradermarket.Gate.Safety.{IsHeadline, IsUnevaluable, Justified}
use tradermarket.Gate.Safety.Reading.{
  Any, mark_unevaluable-Reads, clear_unevaluable-Reads, condition_for-Reads, closing_sequence-Reads,
}
use tradermarket.Gate.Safety.Clearing.{clear_completed_epochs-Acts}
use tradermarket.Gate.Safety.Draining.{drain_closed_epochs-Acts, after_close-Acts}
use tradermarket.Gate.Safety.Deciding.{
  suspend-Acts, reopen-Acts, judge_slots-Reads, close_judged-Acts, close_all-Acts,
}

module _ {S : Type 0} (chain : Chain S) (setting : Setting) (now_ms : ℕ)
    (K : Watch (Justified chain setting now_ms)) where
  by_freshness-Acts :
      (s : S) (b : Bool)
      → is_stale setting.tip setting.freshness_threshold_ms now_ms ≡ b
      → Acts K s (by_freshness chain setting now_ms b)
  by_freshness-Acts s true stale =
      Acts-next K s (suspend-Acts chain setting now_ms K s _ (inl stale)) (λ t u. Acts-pure K t tt)
  by_freshness-Acts s false fresh =
      Acts-next K s (reopen-Acts chain setting now_ms K s fresh) (λ t u.
        Acts-next K t (clear_completed_epochs-Acts chain setting now_ms K t fresh)
          (λ r v. drain_closed_epochs-Acts chain setting now_ms K r))

  micro_pass-Acts :
      (s : S) (headline : Option ℕ) (slots : List ℕ)
      → Acts K s (micro_pass chain setting now_ms headline slots)
  unfolding micro_pass
  micro_pass-Acts s headline slots =
      Acts-then K s (judge_slots-Reads chain setting now_ms K s headline slots) (λ es all.
        Acts-next K s (close_judged-Acts chain setting now_ms K s es all)
          (λ t u. by_freshness-Acts t _ refl))

  when-Acts : (s : S) (b : Bool) (m : M S (Unit {0})) → Acts K s m → Acts K s (when b m)
  when-Acts s true m act = act
  when-Acts s false m act = Acts-pure K s tt

  give_up_room-Acts :
      (s : S) (slots : List ℕ)
      → IsHeadline chain setting now_ms (IsUnevaluable chain setting now_ms)
      → Acts K s (give_up_room chain setting now_ms slots)
  give_up_room-Acts s slots is =
      Acts-then K s (closing_sequence-Reads K chain setting now_ms s (tip_seq setting.tip)) (λ n ok.
        Acts-then K s (Reads-log K s _)
          (λ u v. close_all-Acts chain setting now_ms K s n slots (ok.0, inr (ok.1, is))))

  on_headline-Acts :
      (s : S) (h : ℕ) (slots : List ℕ) (d : Decision)
      → IsHeadline chain setting now_ms (λ x. x ≡ d)
      → setting.headline_market ≡ some h
      → Acts K s (on_headline chain setting now_ms h slots d)
  on_headline-Acts s h slots (decided o n) (k, (at, (c, (found, is)))) e =
      Acts-then K s (closing_sequence-Reads K chain setting now_ms s n) (λ m ok.
        Acts-then K s (Reads-log K s _) (λ u v.
          close_all-Acts chain setting now_ms K s m slots
            (ok.0, inl (k, (at, (c, (found, (o, (n, (is, ok.1))))))))))
  on_headline-Acts s h slots (unevaluable r) (k, (at, (c, (found, is)))) e =
      let why : IsHeadline chain setting now_ms (IsUnevaluable chain setting now_ms) =
        (k, (at, (c, (found, (r, is))))) in
      Acts-then K s (mark_unevaluable-Reads K s h now_ms r) (λ since u.
        Acts-next K s (suspend-Acts chain setting now_ms K s (headline_unevaluable r) (inr why))
          (λ t v. when-Acts t _ _ (give_up_room-Acts t slots why)))
  on_headline-Acts s h slots undecided is e =
      Acts-then K s (clear_unevaluable-Reads K s h) (λ u v. micro_pass-Acts s (some h) slots)

  open_pass-Acts :
      (s : S) (slots : List ℕ) (o : Option ℕ)
      → ((h : ℕ) → o ≡ some h → setting.headline_market ≡ some h)
      → Acts K s (open_pass chain setting now_ms slots o)
  open_pass-Acts s slots none is = micro_pass-Acts s none slots
  open_pass-Acts s slots (some h) is =
      Acts-then K s (condition_for-Reads K setting s h)
        (λ c found. on_headline-Acts s h slots _ (h, (is h refl, (c, (found, refl)))) (is h refl))

  found_lem : (m h : ℕ) (b : Bool) → (if b then some m else none) ≡ some h → some m ≡ some h
  found_lem m h true e = e
  found_lem m h false e = grind arith

  headline_of_lem :
      (o : Option ℕ) (slots : List ℕ) (h : ℕ) → headline_of o slots ≡ some h → o ≡ some h
  headline_of_lem none slots h e = e
  headline_of_lem (some m) slots h e = found_lem m h (elem m slots) e

  pass_if-Acts : (s : S) (b : Bool) → Acts K s (pass_if chain setting now_ms b)
  pass_if-Acts s true = after_close-Acts chain setting now_ms K s
  pass_if-Acts s false =
      Acts-then K s (Reads-ask K {Q = Any} s chain.open_slots (λ ms e. tt)) (λ slots u.
        open_pass-Acts s slots _ (λ h e. headline_of_lem setting.headline_market slots h e))

  -- A pass keeps any invariant that quiet writes and justified calls keep.
  pub tick-Acts :
      (s : S)
      → ((w : World S) → K.I w → K.I (ensure_loaded chain w).1)
      → Acts K s (tick chain setting now_ms)
  unfolding tick
  tick-Acts s kept = Acts-then K s (Reads-loaded K chain s kept) (λ u v.
      Acts-then K s (Reads-ask K {Q = Any} s chain.room_closed_sequence (λ n e. tt))
        (λ n u. pass_if-Acts s _))

  pub tick-keeps :
      (w : World S)
      → ((v : World S) → K.I v → K.I (ensure_loaded chain v).1)
      → K.I w
      → K.I (tick chain setting now_ms w).1
  tick-keeps w kept safe = (tick-Acts w.chain kept).run w refl safe

written_sent :
    {S : Type 0} (P : List (S × Call) → Type 0) (w : World S) (f : Memory → Memory)
    (g : Durable → Durable)
    → P w.sent
    → P (write f g w).1.sent
unfolding write
written_sent P w f g p = p

module _ {S : Type 0} (chain : Chain S) (setting : Setting) (now_ms : ℕ) where
  abbrev IsJustified : List (S × Call) → Type 0
  IsJustified sent = All (λ (e : S × Call). Justified chain setting now_ms e.0 e.1) sent

  abbrev safety : Watch (Justified chain setting now_ms)
  safety = record {
    I = λ w. IsJustified w.sent;
    written = λ w f g p q safe. written_sent IsJustified w f g safe;
    called = λ w c t j safe. (j, safe);
  }

  -- Where each call sent so far was justified on the chain that it met, so is each call after a
  -- pass, also a pass that throws midway.
  pub tick-Justified :
      (w : World S)
      → All (λ (e : S × Call). Justified chain setting now_ms e.0 e.1) w.sent
      → All
          (λ (e : S × Call). Justified chain setting now_ms e.0 e.1)
          (tick chain setting now_ms w).1.sent
  tick-Justified w safe =
      tick-keeps chain setting now_ms safety w
        (λ v kept. subst IsJustified (sym (ensure_loaded-Loads chain v).same_sent) kept) safe
