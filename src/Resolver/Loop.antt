-- ===== src/Resolver/Loop.antt =====
-- The loop of `evaluateSlot` over some facts, and over those and more
-- (services/live-room/src/resolver/resolver.mjs).
use tradermarket.Base.{
  ℕ, suc, ◌+◌, ◌≤◌, ◌<◌, Bool, true, false, Option, none, some, List, [], ◌∷◌, ◌++◌, length, ◌≡◌,
  refl, ◌∙◌, ap, sym, subst, arith, Result, ok, err, ◌>>=◌, or_else,
}
use tradermarket.Base.Dict.{Dict, lookup, insert}
use tradermarket.Domain.Decimal.{Text, add_decimal}
use tradermarket.Domain.Conditions.{Condition, Outcome, Reason, undecided_at_session_end}
use tradermarket.Domain.Conditions.Metrics.{party, or_throw, zero_text, not_a_decimal}
use tradermarket.Resolver.{
  Fact, Verdict, headline_decides, slot_decides, verdict_of, slot_verdict, round, next, walk,
  Problem, judged, judge_walk, fallback,
}

-- What is said of a result, if it is one
abbrev pub Says : {E A : Type 0} → (A → Type 0) → Result E A → Type 0
Says Q (err e) = Unit
Says Q (ok a) = Q a

Says-then :
    {A B : Type 0} (R : B → Type 0) (r : Result Reason A) (f : A → Result Reason B)
    → ((a : A) → Says R (f a))
    → Says R (r >>= f)
Says-then R (err e) f rest = tt
Says-then R (ok a) f rest = rest a

Says-last :
    (Q : Option Verdict → Type 0) (r : Result Reason (Option Verdict)) (after : Dict Text)
    (ends : Bool)
    → Says Q r
    → Says (λ (a : Dict Text × (Option Verdict × Bool)). Q a.1.0) (r >>= λ v. ok (after, (v, ends)))
Says-last Q (err e) after ends q = tt
Says-last Q (ok v) after ends q = q

abbrev pub In : ℕ → Option Verdict → Type 0
In n none = Unit
In n (some v) = v.decided_at < n

In-le : (n m : ℕ) (o : Option Verdict) → n ≤ m → In n o → In m o
In-le n m none le is = tt
In-le n m (some v) le is = omega (arith, le, is)

verdict_of-In : (f : Fact) (i : ℕ) (o : Option Outcome) → In (suc i) (verdict_of f i o)
verdict_of-In f i none = tt
verdict_of-In f i (some o) = omega arith

same_value : {a b : Verdict} (r : Result Problem Verdict) → r ≡ ok a → r ≡ ok b → a ≡ b
same_value r d e = cc

from_lem :
    (o : Option Verdict) (p : Verdict) (r : Result Reason (Option Verdict × Option Verdict))
    → r ≡ ok (o, none)
    → r ≡ ok (some p, none)
    → some p ≡ o
from_lem o p r d e = cc

fallback-In :
    (n : ℕ) (v t : Verdict) (o : Option Outcome)
    → fallback o t ≡ ok v
    → t.decided_at < n
    → v.decided_at < n
fallback-In n v t none e is = absurd (cc)
fallback-In n v t (some o) e is =
    subst (λ x. x.decided_at < n) (same_value (ok (record t { outcome = o })) refl e) is

module _ (c h : Condition) (baselines : Dict Text) where
  abbrev pub Rest : Type 0
  Rest = Dict Text → Option Verdict → Result Reason (Option Verdict × Option Verdict)

  next_lem :
      (t : Result Reason (Option Verdict × Option Verdict)) (i : ℕ) (x : Fact)
      (r : Result Reason (Dict Text × (Option Verdict × Bool))) (one two : Rest)
      → ((cum : Dict Text) (v : Option Verdict) → one cum v ≡ t → two cum v ≡ t)
      → next c h baselines i x r one ≡ t
      → next c h baselines i x r two ≡ t
  next_lem t i x (err r) one two same is = is
  next_lem t i x (ok (cum, (v, true))) one two same is = is
  next_lem t i x (ok (cum, (v, false))) one two same is = same cum v is

  -- Once the headline is decided, what follows is not read.
  pub ended_lem :
      (slot : Option Verdict) (e : Verdict) (cum : Dict Text) (from : Option Verdict) (i : ℕ)
      (xs ys : List Fact)
      → walk c h baselines cum from i xs ≡ ok (slot, some e)
      → walk c h baselines cum from i (xs ++ ys) ≡ ok (slot, some e)
  ended_lem slot e cum from i [] ys is = absurd (cc)
  ended_lem slot e cum from i (x ∷ xs) ys is =
      next_lem (ok (slot, some e)) i x (round c h baselines cum from i x) _ _
        (λ after v is. ended_lem slot e after v (suc i) xs ys is) is

  next-Says :
      (Q : Option Verdict → Type 0) (R : Option Verdict × Option Verdict → Type 0) (i : ℕ)
      (x : Fact) (r : Result Reason (Dict Text × (Option Verdict × Bool))) (rest : Rest)
      → Says (λ a. Q a.1.0) r
      → ((v : Option Verdict) → Q v → R (v, verdict_of x i (some (party x.participant))))
      → ((cum : Dict Text) (v : Option Verdict) → Q v → Says R (rest cum v))
      → Says R (next c h baselines i x r rest)
  next-Says Q R i x (err r) rest q stop go = tt
  next-Says Q R i x (ok (cum, (v, true))) rest q stop go = stop v q
  next-Says Q R i x (ok (cum, (v, false))) rest q stop go = go cum v q

  round-Says :
      (Q : Option Verdict → Type 0) (cum : Dict Text) (slot : Option Verdict) (i : ℕ) (f : Fact)
      → ((after : Dict Text) → Says Q (slot_verdict c h baselines slot after f i))
      → Says (λ a. Q a.1.0) (round c h baselines cum slot i f)
  round-Says Q cum slot i f says =
      Says-then (λ (a : Dict Text × (Option Verdict × Bool)). Q a.1.0)
        (or_throw (add_decimal (or_else (lookup f.participant cum) zero_text) f.realized_pnl)
          not_a_decimal)
        _
        (λ total.
          let after = insert f.participant total cum in
          Says-then (λ (a : Dict Text × (Option Verdict × Bool)). Q a.1.0)
            (headline_decides h baselines after f) _
            (λ ends.
              Says-last Q (slot_verdict c h baselines slot after f i) after ends (says after)))

  -- A verdict of the slot stands.
  stands_lem :
      (p : Verdict) (cum : Dict Text) (i : ℕ) (xs : List Fact)
      → Says (λ a. a.0 ≡ some p) (walk c h baselines cum (some p) i xs)
  stands_lem p cum i [] = refl
  stands_lem p cum i (x ∷ xs) =
      next-Says (λ v. v ≡ some p) (λ a. a.0 ≡ some p) i x _ _
        (round-Says (λ v. v ≡ some p) cum (some p) i x (λ after. refl)) (λ v is. is)
        (λ after v is.
          subst (λ o. Says (λ a. a.0 ≡ some p) (walk c h baselines after o (suc i) xs)) (sym is)
            (stands_lem p after (suc i) xs))

  next_on :
      (p : Verdict) (i : ℕ) (x : Fact) (r : Result Reason (Dict Text × (Option Verdict × Bool)))
      (one two : Rest)
      → ((cum : Dict Text) (v : Option Verdict)
          → one cum v ≡ ok (some p, none)
          → Says (λ a. a.0 ≡ some p) (two cum v))
      → next c h baselines i x r one ≡ ok (some p, none)
      → Says (λ a. a.0 ≡ some p) (next c h baselines i x r two)
  next_on p i x (err r) one two go is = tt
  next_on p i x (ok (cum, (v, true))) one two go is = absurd (cc)
  next_on p i x (ok (cum, (v, false))) one two go is = go cum v is

  -- Also where the loop goes on to more facts
  pub goes_on_lem :
      (p : Verdict) (cum : Dict Text) (from : Option Verdict) (i : ℕ) (xs ys : List Fact)
      → walk c h baselines cum from i xs ≡ ok (some p, none)
      → Says (λ a. a.0 ≡ some p) (walk c h baselines cum from i (xs ++ ys))
  goes_on_lem p cum from i [] ys is =
      subst (λ o. Says (λ a. a.0 ≡ some p) (walk c h baselines cum o i ys))
        (from_lem from p _ refl is) (stands_lem p cum i ys)
  goes_on_lem p cum from i (x ∷ xs) ys is =
      next_on p i x (round c h baselines cum from i x) _ _
        (λ after v is. goes_on_lem p after v (suc i) xs ys is) is

  slot_verdict-In :
      (slot : Option Verdict) (i : ℕ) (f : Fact)
      → In i slot
      → (after : Dict Text) → Says (In (suc i)) (slot_verdict c h baselines slot after f i)
  slot_verdict-In (some v) i f is after = omega (arith, is)
  slot_verdict-In none i f is after =
      Says-then (In (suc i)) (slot_decides c baselines after f) _ (λ o. verdict_of-In f i o)

  -- A verdict is at a fact that the loop has read.
  pub walk-In :
      (cum : Dict Text) (from : Option Verdict) (i : ℕ) (xs : List Fact)
      → In i from
      → Says
          (λ a. In (i + length xs) a.0 × In (i + length xs) a.1)
          (walk c h baselines cum from i xs)
  walk-In cum from i [] is = (In-le i (i + 0) from (omega arith) is, tt)
  walk-In cum from i (x ∷ xs) is =
      next-Says (In (suc i)) (λ a. In (i + suc (length xs)) a.0 × In (i + suc (length xs)) a.1) i x
        _ _ (round-Says (In (suc i)) cum from i x (slot_verdict-In from i x is))
        (λ v is. (In-le (suc i) (i + suc (length xs)) v (omega arith) is, omega arith))
        (λ after v is.
          subst (λ n. Says (λ a. In n a.0 × In n a.1) (walk c h baselines after v (suc i) xs))
            (omega arith) (walk-In after v (suc i) xs is))

  abbrev pub Walked : Type 0
  Walked = Result Reason (Option Verdict × Option Verdict)

  -- What `judged` makes of a loop that read some facts, and of one that read more
  pub same_verdict :
      (b : Bool) (v w : Verdict) (one two : Walked)
      → ((slot : Option Verdict) (e : Verdict) → one ≡ ok (slot, some e) → two ≡ ok (slot, some e))
      → ((p : Verdict) → one ≡ ok (some p, none) → Says (λ a. a.0 ≡ some p) two)
      → judge_walk c b one ≡ ok v
      → judge_walk c b two ≡ ok w
      → v ≡ w
  same_verdict b v w (err r) two ended goes d e = absurd (cc)
  same_verdict b v w (ok (slot, some t)) two ended goes d e =
      same_value _ d (ap (judge_walk c b) (sym (ended slot t refl)) ∙ e)
  same_verdict true v w (ok (some p, none)) two ended goes d e = absurd (cc)
  same_verdict false v w (ok (some p, none)) (err r) ended goes d e = absurd (cc)
  same_verdict false v w (ok (some p, none)) (ok (slot, t)) ended goes d e =
      same_value (ok p) d (sym (ap (λ o. judged c false o t) (goes p refl)) ∙ e)
  same_verdict true v w (ok (none, none)) two ended goes d e = absurd (cc)
  same_verdict false v w (ok (none, none)) two ended goes d e = absurd (cc)

  -- The verdict is at a fact that was read, whatever `judged` takes it from.
  pub judged-In :
      (b : Bool) (n : ℕ) (v : Verdict) (r : Walked)
      → Says (λ a. In n a.0 × In n a.1) r
      → judge_walk c b r ≡ ok v
      → v.decided_at < n
  judged-In b n v (err r) is e = absurd (cc)
  judged-In true n v (ok (slot, none)) is e = absurd (cc)
  judged-In true n v (ok (slot, some t)) is e =
      subst (λ x. x.decided_at < n) (same_value (ok t) refl e) is.1
  judged-In false n v (ok (some p, t)) is e =
      subst (λ x. x.decided_at < n) (same_value (ok p) refl e) is.0
  judged-In false n v (ok (none, none)) is e = absurd (cc)
  judged-In false n v (ok (none, some t)) is e =
      fallback-In n v t (undecided_at_session_end c) e is.1
