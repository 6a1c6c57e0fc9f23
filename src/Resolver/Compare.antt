-- ===== src/Resolver/Compare.antt =====
-- The comparison of rebuilt facts with the log (services/live-room/src/resolver/resolver.mjs,
-- `compareWithLog`).
use tradermarket.Base.{
  ℕ, not, Option, none, some, List, [], ◌∷◌, ◌++◌, map, keep, ◌==◌, if◌then◌else◌, Result, ok,
  ◌>>=◌,
}
use tradermarket.Base.Dict.{Dict, lookup, insert}
use tradermarket.Domain.Decimal.{Text, Sign, below, above, compare_decimal}
use tradermarket.Domain.Event.{Event}
use tradermarket.Domain.Conditions.{Reason, is_trade}
use tradermarket.Domain.Conditions.Metrics.{not_a_decimal, or_throw}
use tradermarket.Resolver.{
  Fact, Divergence, log_missing_fact, log_extra_fact, fact_mismatch, Reconstruction,
}

-- The map of the log's facts, by id; a fact without a figure is `some none`.
abbrev pub log_facts : List Event → Dict (Option Text) → Dict (Option Text)
log_facts [] m = m
log_facts (e ∷ es) m =
    log_facts es
      (if is_trade e.kind then insert e.source_event_id e.facts.realized_pnl_usd m else m)

abbrev pub logged_of : ℕ → Dict (Option Text) → Option Text
logged_of id m = elim (lookup id m) [ none ↦ none | some v ↦ v ]

abbrev pub mismatch_if : Sign → ℕ → Text → Text → List Divergence
mismatch_if below id logged found = fact_mismatch id logged found ∷ []
mismatch_if above id logged found = fact_mismatch id logged found ∷ []
mismatch_if s id logged found = []

abbrev pub compare_fact : Fact → Option Text → Result Reason (List Divergence)
compare_fact f none = ok (log_missing_fact f.id ∷ [])
compare_fact f (some logged) =
    or_throw (compare_decimal logged f.realized_pnl) not_a_decimal >>= λ s.
    ok (mismatch_if s f.id logged f.realized_pnl)

abbrev pub forget : ℕ → Dict (Option Text) → Dict (Option Text)
forget id m = keep (λ e. not (e.0 == id)) m

abbrev pub extra_facts : Dict (Option Text) → List Divergence
extra_facts m = map (λ (e : ℕ × Option Text). log_extra_fact e.0) m

abbrev pub compare_facts : List Fact → Dict (Option Text) → Result Reason (List Divergence)
compare_facts [] m = ok (extra_facts m)
compare_facts (f ∷ fs) m = compare_fact f (logged_of f.id m) >>= λ found.
    compare_facts fs (forget f.id m) >>= λ more. ok (found ++ more)

-- `compareWithLog`
unfoldable pub compare_with_log : Reconstruction → List Event → Result Reason (List Divergence)
compare_with_log r events =
    compare_facts r.ordered (log_facts events []) >>= λ found. ok (r.divergence ++ found)
