-- ===== src/Gate/Running.antt =====
-- Runs of actions that are known to succeed: what they return, the chain that they leave, and what
-- they have sent (services/live-room/src/gate/authority.mjs).
use tradermarket.Base.{
  Bool, true, false, Option, none, some, List, ◌∷◌, ◌≡◌, refl, ◌∙◌, ap, sym, subst, if◌then◌else◌,
  arith,
}
use tradermarket.Gate.{Call, Entry, Chain, World}
use tradermarket.Gate.Loading.{IsAnswering, Loaded, load_all-Loaded}
use tradermarket.Gate.Action.{
  M, pure, and_then, ◌>>=◌, need, ask, write, log, send, sent_to, ensure_loaded,
}

pub same_value : {A : Type 0} {a b : A} → some a ≡ some b → a ≡ b
same_value e = grind (arith, e)

module _ {S : Type 0} where
  abbrev Ends : {A : Type 0} → S → List (S × Call) → A → Option A × World S → Type 0
  Ends t l a r = (r.0 ≡ some a) × ((r.1.chain ≡ t) × (r.1.sent ≡ l))

  -- From the chain `s`, with `k` sent, `m` returns `a` and leaves the chain `t`, with `l` sent.
  pub record Goes {A : Type 0} (s : S) (k : List (S × Call)) (m : M S A) (a : A) (t : S)
      (l : List (S × Call)) : Type 0 where
    pub run : (w : World S) → w.chain ≡ s → w.sent ≡ k → Ends t l a (m w)

  module _ (s : S) (k : List (S × Call)) where
    pub Goes-pure : {A : Type 0} (a : A) → Goes s k (pure a) a s k
    Goes-pure a = record { run = λ w p q. (refl, (p, q)) }

    pub Goes-need : {A : Type 0} (o : Option A) (a : A) → o ≡ some a → Goes s k (need o) a s k
    unfolding need
    Goes-need o a e = record { run = λ w p q. (e, (p, q)) }

    pub Goes-ask : {A : Type 0} (f : S → Option A) (a : A) → f s ≡ some a → Goes s k (ask f) a s k
    unfolding ask
    Goes-ask f a e = record { run = λ w p q. (ap f p ∙ e, (p, q)) }

    pub Goes-log : (e : Entry) → Goes s k (log e) tt s k
    unfolding write
    Goes-log e = record { run = λ w p q. (refl, (p, q)) }

  if_Ends :
      (s : S) (k : List (S × Call)) (b : Bool) (w : World S) (r : Option (Unit {0}) × World S)
      → Loaded w r
      → w.chain ≡ s
      → w.sent ≡ k
      → Ends s k tt (if b then (some tt, w) else r)
  if_Ends s k true w r is p q = (refl, (p, q))
  if_Ends s k false w r is p q =
      (ap (λ x. x.0) is.ends, (ap (λ x. x.1.chain) is.ends ∙ p, ap (λ x. x.1.sent) is.ends ∙ q))

  pub Goes-loaded :
      (chain : Chain S) (s : S) (k : List (S × Call))
      → IsAnswering chain s
      → Goes s k (ensure_loaded chain) tt s k
  unfolding ensure_loaded
  Goes-loaded chain s k answers = record {
    run = λ w p q.
        if_Ends s k w.memory.loaded w _
          (load_all-Loaded chain w (λ key. ap (λ x. chain.answers x key) p ∙ answers key)) p q;
  }

  sent_lem :
      (s t : S) (k : List (S × Call)) (c : Call) (w : World S) (o : Option S)
      → w.chain ≡ s
      → w.sent ≡ k
      → o ≡ some t
      → Ends t ((s, c) ∷ k) tt (sent_to w c o)
  sent_lem s t k c w none p q e = grind arith
  sent_lem s t k c w (some r) p q e =
      (refl, (same_value e, ap (λ x. (x, c) ∷ w.sent) p ∙ ap (◌∷◌ (s, c)) q))

  pub Goes-send :
      (chain : Chain S) (s t : S) (k : List (S × Call)) (c : Call)
      → chain.send s c ≡ some t
      → Goes s k (send chain c) tt t ((s, c) ∷ k)
  unfolding send
  Goes-send chain s t k c e = record {
    run = λ w p q. sent_lem s t k c w _ p q (ap (λ r. chain.send r c) p ∙ e);
  }

  then_lem :
      {A B : Type 0} (a : A) (b : B) (t u : S) (l m : List (S × Call)) (f : A → M S B)
      (r : Option A × World S)
      → Ends t l a r
      → Goes t l (f a) b u m
      → Ends u m b (and_then r f)
  then_lem a b t u l m f (none, w) e go = grind arith
  then_lem a b t u l m f (some x, w) e go =
      subst (λ y. Ends u m b (f y w)) (sym (same_value e.0)) (go.run w e.1.0 e.1.1)

  pub Goes-then :
      {A B : Type 0} {m : M S A} (f : A → M S B) {a : A} {b : B} {s t u : S}
      {i j k : List (S × Call)}
      → Goes s i m a t j
      → Goes t j (f a) b u k
      → Goes s i (m >>= f) b u k
  unfolding ◌>>=◌
  Goes-then {m = m} f go next = record {
    run = λ w p q. then_lem _ _ _ _ _ _ f (m w) (go.run w p q) next;
  }
