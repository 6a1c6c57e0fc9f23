-- ===== src/Resolver/Match.antt =====
-- When rebuilt facts agree with the log (services/live-room/src/resolver/resolver.mjs,
-- `compareWithLog`).
use tradermarket.Base.{
  ℕ, true, ◌&&◌, Option, none, some, List, [], ◌∷◌, ◌++◌, ◌≡◌, refl, ap, sym, ◌∙◌, arith, All,
  exists, ◌==◌, if◌then◌else◌, Result, ok, err, ◌>>=◌, Bool-cases, inl, inr,
}
use tradermarket.Base.Dict.{Dict, lookup, lookup-insert, insert}
use tradermarket.Domain.Decimal.{Text, Sign, same, compare_decimal}
use tradermarket.Domain.Event.{Event}
use tradermarket.Domain.Conditions.{Reason, is_trade}
use tradermarket.Domain.Conditions.Metrics.{not_a_decimal, or_throw}
use tradermarket.Resolver.{Fact, Divergence, Reconstruction}
use tradermarket.Resolver.Compare.{
  log_facts, logged_of, mismatch_if, compare_fact, forget, extra_facts, compare_facts,
  compare_with_log,
}

-- What a log says last of the trade with an id, and before that what was known
abbrev pub logged_last : ℕ → List Event → Option (Option Text) → Option (Option Text)
logged_last id [] known = known
logged_last id (e ∷ es) known =
    logged_last id es
      (if is_trade e.kind && e.source_event_id == id then some e.facts.realized_pnl_usd else known)

-- A figure of the log that equals the fact's
abbrev pub Equals : Option (Option Text) → Fact → Type 0
Equals known f =
    (t : Text) × ((known ≡ some (some t)) × (compare_decimal t f.realized_pnl ≡ some same))

-- Every fact stands in the log with an equal figure, and every trade of the log is a fact.
pub record Match (r : Reconstruction) (events : List Event) : Type 0 where
  pub undiverged : r.divergence ≡ []
  pub told : All (λ (f : Fact). Equals (logged_last f.id events none) f) r.ordered
  pub complete :
      (id : ℕ) (v : Option Text)
      → logged_last id events none ≡ some v
      → exists (λ (f : Fact). f.id == id) r.ordered ≡ true

lookup-log_one :
    (id : ℕ) (e : Event) (m : Dict (Option Text))
    → lookup id (if is_trade e.kind then insert e.source_event_id e.facts.realized_pnl_usd m else m)
      ≡ (if is_trade e.kind && e.source_event_id == id
          then some e.facts.realized_pnl_usd
          else lookup id m)
lookup-log_one id e m =
    ground (arith, lookup-insert e.source_event_id id e.facts.realized_pnl_usd m)

lookup-log_facts :
    (id : ℕ) (es : List Event) (m : Dict (Option Text))
    → lookup id (log_facts es m) ≡ logged_last id es (lookup id m)
lookup-log_facts id [] m = refl
lookup-log_facts id (e ∷ es) m =
    lookup-log_facts id es _ ∙ ap (λ k. logged_last id es k) (lookup-log_one id e m)

lookup-forget :
    (k id : ℕ) (m : Dict (Option Text))
    → lookup id (forget k m) ≡ (if k == id then none else lookup id m)
lookup-forget k id [] = ground arith
lookup-forget k id ((j, v) ∷ m) = ground (arith, lookup-forget k id m)

nil_of_append : (found more : List Divergence) → found ++ more ≡ [] → (found ≡ []) × (more ≡ [])
nil_of_append [] more e = (refl, e)
nil_of_append (d ∷ found) more e = absurd (cc)

bind_ok :
    {A : Type 0} (r : Result Reason A) (f : A → Result Reason (List Divergence))
    (out : List Divergence)
    → (r >>= f) ≡ ok out
    → (a : A) × ((r ≡ ok a) × (f a ≡ ok out))
bind_ok (ok a) f out e = (a, (refl, e))
bind_ok (err r) f out e = absurd (cc)

ok_inj :
    (xs ys : List Divergence) → ◌≡◌ {A = Result Reason (List Divergence)} (ok xs) (ok ys) → xs ≡ ys
ok_inj xs ys e = cc

same_of_quiet :
    (s : Sign) (id : ℕ) (logged found : Text) → mismatch_if s id logged found ≡ [] → s ≡ same
same_of_quiet Sign.below id logged found e = absurd (cc)
same_of_quiet Sign.same id logged found e = refl
same_of_quiet Sign.above id logged found e = absurd (cc)

equal_of_quiet :
    (f : Fact) (t : Text) (o : Option Sign)
    → (or_throw o not_a_decimal >>= λ s. ok (mismatch_if s f.id t f.realized_pnl)) ≡ ok []
    → o ≡ some same
equal_of_quiet f t none e = absurd (cc)
equal_of_quiet f t (some s) e = ap some (same_of_quiet s f.id t f.realized_pnl (ok_inj _ _ e))

compare_fact-Equals :
    (f : Fact) (m : Dict (Option Text))
    → compare_fact f (logged_of f.id m) ≡ ok []
    → Equals (lookup f.id m) f
compare_fact-Equals f m e = known (lookup f.id m) e
  where
    known :
        (o : Option (Option Text))
        → compare_fact f (elim o [ none ↦ none | some v ↦ v ]) ≡ ok []
        → Equals o f
    known none e = absurd (cc)
    known (some none) e = absurd (cc)
    known (some (some t)) e = (t, (refl, equal_of_quiet f t _ e))

-- What is said of a fact when others are forgotten was said before.
Equals-forget :
    (k : ℕ) (f : Fact) (m : Dict (Option Text))
    → Equals (lookup f.id (forget k m)) f
    → Equals (lookup f.id m) f
Equals-forget k f m (t, (at, equal)) = (t, (ground (arith, lookup-forget k f.id m, at), equal))

All-Equals-forget :
    (k : ℕ) (fs : List Fact) (m : Dict (Option Text))
    → All (λ (f : Fact). Equals (lookup f.id (forget k m)) f) fs
    → All (λ (f : Fact). Equals (lookup f.id m) f) fs
All-Equals-forget k [] m all = tt
All-Equals-forget k (f ∷ fs) m (here, all) =
    (Equals-forget k f m here, All-Equals-forget k fs m all)

-- Every id that the map holds is that of a fact.
abbrev IsComplete : List Fact → Dict (Option Text) → Type 0
IsComplete fs m =
    (id : ℕ) (v : Option Text) → lookup id m ≡ some v → exists (λ (f : Fact). f.id == id) fs ≡ true

nothing_extra : (m : Dict (Option Text)) → extra_facts m ≡ [] → IsComplete [] m
nothing_extra [] e id v at = absurd (cc)
nothing_extra (x ∷ m) e id v at = absurd (cc)

compare_facts-Equals :
    (fs : List Fact) (m : Dict (Option Text))
    → compare_facts fs m ≡ ok []
    → All (λ (f : Fact). Equals (lookup f.id m) f) fs × IsComplete fs m
compare_facts-Equals [] m e = (tt, nothing_extra m (ok_inj _ _ e))
compare_facts-Equals (f ∷ fs) m e =
    let (found, (first, rest)) = bind_ok (compare_fact f (logged_of f.id m)) _ [] e in
    let (more, (others, done)) = bind_ok (compare_facts fs (forget f.id m)) _ [] rest in
    let (quiet, silent) = nil_of_append found more (ok_inj _ _ done) in
    let (all, complete) =
      compare_facts-Equals fs (forget f.id m) (others ∙ ap (λ x. ok x) silent) in
    (
      (compare_fact-Equals f m (first ∙ ap (λ x. ok x) quiet), All-Equals-forget f.id fs m all),
      λ id v at. elim (Bool-cases (f.id == id)) [
        | inl here ↦ ground (arith, here)
        | inr away ↦
            let still = complete id v (ground (arith, lookup-forget f.id id m, away, at)) in
            ground (arith, still)
      ],
    )

All-Equals-logged :
    (events : List Event) (fs : List Fact)
    → All (λ (f : Fact). Equals (lookup f.id (log_facts events [])) f) fs
    → All (λ (f : Fact). Equals (logged_last f.id events none) f) fs
All-Equals-logged events [] all = tt
All-Equals-logged events (f ∷ fs) ((t, (at, equal)), all) =
    ((t, (sym (lookup-log_facts f.id events []) ∙ at, equal)), All-Equals-logged events fs all)

-- A comparison that finds nothing is a match.
pub compare_with_log-Match :
    (r : Reconstruction) (events : List Event) → compare_with_log r events ≡ ok [] → Match r events
unfolding compare_with_log
compare_with_log-Match r events e =
    let (found, (same_facts, done)) =
      bind_ok (compare_facts r.ordered (log_facts events [])) _ [] e in
    let (undiverged, quiet) = nil_of_append r.divergence found (ok_inj _ _ done) in
    let (all, complete) =
      compare_facts-Equals r.ordered (log_facts events []) (same_facts ∙ ap (λ x. ok x) quiet) in
    record {
      undiverged = undiverged;
      told = All-Equals-logged events r.ordered all;
      complete = λ id v at. complete id v (lookup-log_facts id events [] ∙ at);
    }
