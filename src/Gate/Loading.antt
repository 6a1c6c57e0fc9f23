-- ===== src/Gate/Loading.antt =====
-- What loading leaves alone, and what it finds where the store answers
-- (services/live-room/src/gate/authority.mjs, `_ensureLoaded`).
use tradermarket.Base.{
  ℕ, Bool, true, false, Option, none, some, List, [], ◌≡◌, refl, ◌∙◌, ap, if◌then◌else◌, or_else,
}
use tradermarket.Base.Dict.{Dict}
use tradermarket.Gate.{Entry, Chain, Durable, Memory, World}
use tradermarket.Gate.Action.{
  M, and_then, load, put_loaded, load_audit, load_nonce, load_unevaluable, mark_loaded, load_all,
  ensure_loaded,
}

-- Loading changes the memory alone.
pub record Loads {S : Type 0} (w : World S) (r : Option (Unit {0}) × World S) : Type 0 where
  pub same_chain : r.1.chain ≡ w.chain
  pub same_sent : r.1.sent ≡ w.sent
  pub same_state : r.1.state ≡ w.state

put-Loads :
    {S A : Type 0} (f : A → Memory → Memory) (o : Option A) (w : World S)
    → Loads w (put_loaded f o w)
put-Loads f none w = record { same_chain = refl; same_sent = refl; same_state = refl }
put-Loads f (some a) w = record { same_chain = refl; same_sent = refl; same_state = refl }

then-Loads :
    {S : Type 0} (w : World S) (r : Option (Unit {0}) × World S) (k : M S (Unit {0}))
    → Loads w r
    → ((v : World S) → Loads v (k v))
    → Loads w (and_then r (λ u. k))
then-Loads w (none, v) k first rest = first
then-Loads w (some u, v) k first rest =
    let next = rest v in
    record {
      same_chain = next.same_chain ∙ first.same_chain;
      same_sent = next.same_sent ∙ first.same_sent;
      same_state = next.same_state ∙ first.same_state;
    }

marked-Loads :
    {S : Type 0} (w : World S) (r : Option (Unit {0}) × World S)
    → Loads (mark_loaded w) r
    → Loads w r
marked-Loads w r same = record {
  same_chain = same.same_chain;
  same_sent = same.same_sent;
  same_state = same.same_state;
}

load_audit-Loads : {S : Type 0} (chain : Chain S) (w : World S) → Loads w (load_audit chain w)
load_audit-Loads chain w =
    put-Loads {A = List Entry} (λ a (m : Memory). record m { audit = a })
      (load chain 0 (λ (d : Durable). d.saved_audit) [] w) w

load_nonce-Loads : {S : Type 0} (chain : Chain S) (w : World S) → Loads w (load_nonce chain w)
load_nonce-Loads chain w =
    put-Loads {A = ℕ} (λ n (m : Memory). record m { next_nonce = n })
      (load chain 1 (λ (d : Durable). d.saved_nonce) 1 w) w

load_unevaluable-Loads :
    {S : Type 0} (chain : Chain S) (w : World S) → Loads w (load_unevaluable chain w)
load_unevaluable-Loads chain w =
    put-Loads {A = Dict ℕ} (λ u (m : Memory). record m { unevaluable_since = u })
      (load chain 2 (λ (d : Durable). d.saved_unevaluable) [] w) w

load_all-Loads : {S : Type 0} (chain : Chain S) (w : World S) → Loads w (load_all chain w)
load_all-Loads chain w = marked-Loads w (load_all chain w) (
    then-Loads (mark_loaded w) (load_audit chain (mark_loaded w))
      (λ v. and_then (load_nonce chain v) λ u. load_unevaluable chain)
      (load_audit-Loads chain (mark_loaded w))
      (λ v.
        then-Loads v (load_nonce chain v) (load_unevaluable chain) (load_nonce-Loads chain v)
          (load_unevaluable-Loads chain)))

if-Loads :
    {S : Type 0} (b : Bool) (w : World S) (r : Option (Unit {0}) × World S)
    → Loads w r
    → Loads w (if b then (some tt, w) else r)
if-Loads true w r same = record { same_chain = refl; same_sent = refl; same_state = refl }
if-Loads false w r same = same

pub ensure_loaded-Loads :
    {S : Type 0} (chain : Chain S) (w : World S) → Loads w (ensure_loaded chain w)
unfolding ensure_loaded
ensure_loaded-Loads chain w = if-Loads w.memory.loaded w _ (load_all-Loads chain w)

-- The store answers every read of the gate.
abbrev pub IsAnswering : {S : Type 0} → Chain S → S → Type 0
IsAnswering chain s = (key : ℕ) → chain.answers s key ≡ true

abbrev pub found : {A : Type 0} → (Durable → Option A) → A → Option Durable → A
found field fallback none = fallback
found field fallback (some d) = or_else (field d) fallback

found_lem :
    {A : Type 0} (field : Durable → Option A) (fallback : A) (b : Bool) (o : Option Durable)
    → b ≡ true
    → elim o [
      | none ↦ some fallback
      | some d ↦ if b then some (or_else (field d) fallback) else none
    ]
      ≡ some (found field fallback o)
found_lem field fallback b none e = refl
found_lem field fallback b (some d) e =
    ap (λ b. if b then some (or_else (field d) fallback) else none) e

-- Where the store answers, loading does not throw, and the counter is the one that is stored.
pub record Loaded {S : Type 0} (w : World S) (r : Option (Unit {0}) × World S) : Type 0 where
  pub memory : Memory
  pub ends : r ≡ (some tt, record w { memory = memory })
  pub loaded : memory.loaded ≡ true
  pub next : memory.next_nonce ≡ found (λ (d : Durable). d.saved_nonce) 1 w.state

pub load_all-Loaded :
    {S : Type 0} (chain : Chain S) (w : World S)
    → IsAnswering chain w.chain
    → Loaded w (load_all chain w)
load_all-Loaded chain w answers =
    let audit = found_lem (λ (d : Durable). d.saved_audit) [] _ w.state (answers 0) in
    let nonce = found_lem (λ (d : Durable). d.saved_nonce) 1 _ w.state (answers 1) in
    let since = found_lem (λ (d : Durable). d.saved_unevaluable) [] _ w.state (answers 2) in
    record {
      memory = record w.memory {
        loaded = true;
        audit = found (λ (d : Durable). d.saved_audit) [] w.state;
        next_nonce = found (λ (d : Durable). d.saved_nonce) 1 w.state;
        unevaluable_since = found (λ (d : Durable). d.saved_unevaluable) [] w.state;
      };
      ends =
          ap
            (λ o.
              and_then (put_loaded (λ a (m : Memory). record m { audit = a }) o (mark_loaded w))
                (λ u. λ v. and_then (load_nonce chain v) λ u. load_unevaluable chain))
            audit
          ∙ ap
              (λ o.
                and_then
                  (put_loaded (λ n (m : Memory). record m { next_nonce = n }) o
                    (record w {
                      memory = record w.memory {
                        loaded = true;
                        audit = found (λ (d : Durable). d.saved_audit) [] w.state;
                      };
                    }))
                  (λ u. load_unevaluable chain))
              nonce
          ∙ ap
              (λ o.
                put_loaded (λ u (m : Memory). record m { unevaluable_since = u }) o
                  (record w {
                    memory = record w.memory {
                      loaded = true;
                      audit = found (λ (d : Durable). d.saved_audit) [] w.state;
                      next_nonce = found (λ (d : Durable). d.saved_nonce) 1 w.state;
                    };
                  }))
              since;
      loaded = refl;
      next = refl;
    }
