-- ===== src/Resolver/Evidence.antt =====
-- Two resolvers that rebuild the same facts, one of them more than the other, reach one verdict with
-- one bundle of evidence (services/live-room/src/resolver/resolver.mjs, `evaluateSlot`,
-- `buildEvidence`).
use tradermarket.Base.{
  ℕ, zero, suc, ◌+◌, ◌≤◌, ◌<◌, Bool, none, List, [], ◌∷◌, ◌++◌, map, take, length, ◌≡◌, refl, ◌∙◌,
  ap, sym, subst, arith, ok,
}
use tradermarket.Domain.Conditions.{Condition}
use tradermarket.Resolver.{Fact, Reconstruction, Verdict, walk, evaluate_slot, build_evidence}
use tradermarket.Resolver.Loop.{Says, In, ended_lem, goes_on_lem, walk-In, judged-In, same_verdict}

take-append : (n : ℕ) (xs ys : List Fact) → n ≤ length xs → take n (xs ++ ys) ≡ take n xs
take-append zero xs ys le = refl
take-append (suc n) [] ys le = absurd (omega (arith, le))
take-append (suc n) (x ∷ xs) ys le = ap (◌∷◌ x) (take-append n xs ys (omega (arith, le)))

-- What a resolver that read `more` facts has
abbrev pub extended : Reconstruction → List Fact → Reconstruction
extended r more = record r { ordered = r.ordered ++ more }

-- Where two resolvers have the same baselines and one has all the facts of the other and then more,
-- and both reach a verdict on a slot, it is one verdict, and their bundles of evidence are the same.
pub build_evidence-extended :
    (c h : Condition) (is_headline : Bool) (r : Reconstruction) (more : List Fact)
    (market condition_hash : ℕ) (v w : Verdict)
    → evaluate_slot c h is_headline r ≡ ok v
    → evaluate_slot c h is_headline (extended r more) ≡ ok w
    → (v ≡ w)
      × (build_evidence market condition_hash v r
          ≡ build_evidence market condition_hash w (extended r more))
unfolding evaluate_slot
build_evidence-extended c h is_headline r more market condition_hash v w d e =
    let one = walk c h r.baselines [] none 0 r.ordered in
    let two = walk c h r.baselines [] none 0 (r.ordered ++ more) in
    let same : v ≡ w =
      same_verdict c h r.baselines is_headline v w one two
        (λ slot t is. ended_lem c h r.baselines slot t [] none 0 r.ordered more is)
        (λ p is. goes_on_lem c h r.baselines p [] none 0 r.ordered more is) d e in
    let read : v.decided_at < length r.ordered =
      judged-In c h r.baselines is_headline (length r.ordered) v one
        (subst (λ n. Says (λ a. In n a.0 × In n a.1) one) (omega arith)
          (walk-In c h r.baselines [] none 0 r.ordered tt))
        d in
    (
      same,
      ap
            (λ facts. record (build_evidence market condition_hash v r) {
              fact_ids = map (λ (f : Fact). f.id) facts;
            })
            (sym (take-append (v.decided_at + 1) r.ordered more (omega (arith, read))))
          ∙ ap (λ x. build_evidence market condition_hash x (extended r more)) same,
    )
