-- ===== src/Gate/Nonces.antt =====
-- The nonces of the permits (services/live-room/src/gate/authority.mjs) over passes, requests,
-- restarts and crashes
mod Answers
pub mod Runs
use tradermarket.Base.{
  ℕ, zero, suc, ◌+◌, ◌≤◌, ◌<◌, Bool, true, false, not, Option, none, some, List, [], ◌∷◌, ◌++◌, ◌≡◌,
  refl, ◌∙◌, arith, ap, sym, subst, if◌then◌else◌, or_else, ◌==◌,
}
use tradermarket.Domain.Conditions.{Decision}
use tradermarket.Domain.Conditions.Metrics.{decided, undecided, unevaluable}
use tradermarket.Gate.{Call, Refusal, Chain, Setting, Durable, Memory, World}
use tradermarket.Gate.Loading.{IsAnswering, found, Loaded, load_all-Loaded}
use tradermarket.Gate.Action.{
  M, pure, and_then, ◌>>=◌, need, ask, get_memory, write, log, ensure_loaded, load_all,
}
use tradermarket.Gate.Suspension.{is_suspended_on_chain}
use tradermarket.Gate.Clearance.{alone}
use tradermarket.Gate.Pass.{tick}
use tradermarket.Gate.Permits.{
  Asked, Permit, Signing, Answer, refused, signed, refuse, reserve, issue, issue_if, issue_on,
  answer_fresh, answer_running, answer_open, request_permit, is_matched, is_stale_for,
}
use tradermarket.Gate.Keeping.{
  Watch, IsQuiet, IsQuietStore, Reads, Reads-need, Reads-ask, Reads-log, Reads-loaded,
}
use tradermarket.Gate.Safety.{Justified}
use tradermarket.Gate.Safety.Reading.{Any, is_suspended_on_chain-Reads}
use tradermarket.Gate.Safety.Tick.{tick-keeps}

-- A process that has just started, before it loads what is stored
abbrev pub fresh : Memory
fresh = record {
  loaded = false;
  audit = [];
  next_nonce = 1;
  unevaluable_since = [];
  cleared_epochs = [];
}

-- What may happen to a gate: a request, a pass, a restart, and a change of the chain that is not
-- the gate's. A crash is a restart after what was written.
pub data Happening (S : Type 0) : Type 0 where
  asks : Setting → Signing → Asked → Happening S
  passes : Setting → ℕ → Happening S
  restarts : Happening S
  moves : S → Happening S

abbrev pub issued_by : Option Answer → List ℕ → List ℕ
issued_by none ns = ns
issued_by (some (refused r)) ns = ns
issued_by (some (signed p s h)) ns = p.nonce ∷ ns

module _ {S : Type 0} (chain : Chain S) where
  -- The world after what happens, with the nonces that were issued, the latest first
  abbrev pub happen : Happening S → World S × List ℕ → World S × List ℕ
  happen (asks setting signing q) (w, ns) = (
    (request_permit chain setting signing q w).1,
    issued_by (request_permit chain setting signing q w).0 ns,
  )
  happen (passes setting now_ms) (w, ns) = ((tick chain setting now_ms w).1, ns)
  happen restarts (w, ns) = (record w { memory = fresh }, ns)
  happen (moves s) (w, ns) = (record w { chain = s }, ns)

  abbrev pub happen_all : List (Happening S) → World S × List ℕ → World S × List ℕ
  happen_all [] x = x
  happen_all (e ∷ es) x = happen_all es (happen e x)

-- The nonce that is stored is `n`, and so is the one in memory, once loaded.
abbrev pub Saved : {S : Type 0} → ℕ → World S → Type 0
Saved n w =
    (d : Durable) × ((w.state ≡ some d)
      × ((or_else d.saved_nonce 1 ≡ n) × (w.memory.loaded ≡ true → w.memory.next_nonce ≡ n)))

-- Strictly descending, and below `k`
abbrev pub Descending : ℕ → List ℕ → Type 0
Descending k [] = Unit
Descending k (n ∷ ns) = (n < k) × Descending n ns

write_state :
    {S : Type 0} (w : World S) (f : Memory → Memory) (g : Durable → Durable) (d : Durable)
    → w.state ≡ some d
    → (write f g w).1.state ≡ some (g d)
unfolding write
write_state w f g d e = ap (λ o. elim o [ none ↦ none | some x ↦ some (g x) ]) e

write_memory :
    {S : Type 0} (w : World S) (f : Memory → Memory) (g : Durable → Durable)
    → (write f g w).1.memory ≡ f w.memory
unfolding write
write_memory w f g = refl

pub write-Saved :
    {S : Type 0} (n : ℕ) (w : World S) (f : Memory → Memory) (g : Durable → Durable)
    → IsQuiet f
    → IsQuietStore g
    → Saved n w
    → Saved n (write f g w).1
unfolding write
write-Saved n w f g p q (d, (e, (is, next))) = (
  g d,
  (
    write_state w f g d e,
    (
      ap (λ o. or_else o 1) (q d) ∙ is,
      (λ loaded. (p w.memory).1 ∙ next (sym (p w.memory).0 ∙ loaded)),
    ),
  ),
)

-- Loading from a store that answers makes the gate ready.
load_lem :
    {S : Type 0} (n : ℕ) (w : World S) (r : Option (Unit {0}) × World S)
    → Loaded w r
    → Saved n w
    → Saved n r.1 × (r.1.memory.loaded ≡ true)
load_lem n w r is (d, (e, (stored, next))) = (
  (
    d,
    (
      ap (λ x. x.1.state) is.ends ∙ e,
      (
        stored,
        λ u.
            ap (λ x. x.1.memory.next_nonce) is.ends
            ∙ is.next
            ∙ ap (λ o. found (λ (d : Durable). d.saved_nonce) 1 o) e
            ∙ stored,
      ),
    ),
  ),
  ap (λ x. x.1.memory.loaded) is.ends ∙ is.loaded,
)

load-Saved :
    {S : Type 0} (n : ℕ) (w : World S) (b : Bool) (r : Option (Unit {0}) × World S)
    → b ≡ w.memory.loaded
    → Loaded w r
    → Saved n w
    → Saved n (if b then (some tt, w) else r).1
      × ((if b then (some tt, w) else r).1.memory.loaded ≡ true)
load-Saved n w true r is done saved = (saved, sym is)
load-Saved n w false r is done saved = load_lem n w r done saved

-- The same, once the nonce is in memory
module _ {S : Type 0} (n : ℕ) where
  abbrev pub IsReady : World S → Type 0
  IsReady w = Saved n w × (w.memory.loaded ≡ true)

  pub write-IsReady :
      (w : World S) (f : Memory → Memory) (g : Durable → Durable)
      → IsQuiet f
      → IsQuietStore g
      → IsReady w
      → IsReady (write f g w).1
  unfolding write
  write-IsReady w f g p q ready = (write-Saved n w f g p q ready.0, (p w.memory).0 ∙ ready.1)

  pub ensure_loaded-IsReady :
      (chain : Chain S) (w : World S)
      → IsAnswering chain w.chain
      → Saved n w
      → IsReady (ensure_loaded chain w).1
  unfolding ensure_loaded
  ensure_loaded-IsReady chain w answers saved =
      load-Saved n w w.memory.loaded (load_all chain w) refl (load_all-Loaded chain w answers) saved

module _ {S : Type 0} {J : S → Call → Type 0} (n : ℕ) where
  abbrev pub counting : Watch J
  counting = record {
    I = λ w. Saved n w;
    written = λ w f g p q saved. write-Saved n w f g p q saved;
    called = λ w c t j saved. saved;
  }

  abbrev pub ready : Watch J
  ready = record {
    I = λ w. IsReady n w;
    written = λ w f g p q ready. write-IsReady n w f g p q ready;
    called = λ w c t j ready. ready;
  }
