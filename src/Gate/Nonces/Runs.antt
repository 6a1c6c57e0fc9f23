-- ===== src/Gate/Nonces/Runs.antt =====
-- The nonces of every run of a gate with durable state
-- (services/live-room/src/gate/authority.mjs)
use tradermarket.Base.{
  ℕ, ◌≤◌, Option, none, some, List, [], ◌∷◌, ◌≡◌, refl, arith, or_else, sym, subst,
}
use tradermarket.Gate.{Chain, Durable, World}
use tradermarket.Gate.Permits.{Answer, refused, signed, request_permit}
use tradermarket.Gate.Safety.Tick.{tick-keeps}
use tradermarket.Gate.Loading.{IsAnswering}
use tradermarket.Gate.Nonces.{
  ensure_loaded-IsReady, Happening, asks, passes, restarts, moves, fresh, issued_by, happen,
  happen_all, Saved, Descending, counting,
}
use tradermarket.Gate.Nonces.Answers.{Answered, request_permit-Answered}

abbrev IsCounted : {S : Type 0} → World S × List ℕ → Type 0
IsCounted x = (n : ℕ) × (Saved n x.0 × Descending n x.1)

Descending-le : (n m : ℕ) (ns : List ℕ) → n ≤ m → Descending n ns → Descending m ns
Descending-le n m [] le down = tt
Descending-le n m (k ∷ ns) le down = (omega (arith, le, down.0), down.1)

answered_lem :
    {S : Type 0} (n : ℕ) (r : Option Answer × World S) (ns : List ℕ)
    → Answered n r
    → Descending n ns
    → IsCounted (r.1, issued_by r.0 ns)
answered_lem n (none, w) ns (m, (saved, (le, says))) down =
    (m, (saved, Descending-le n m ns le down))
answered_lem n (some (refused r), w) ns (m, (saved, (le, says))) down =
    (m, (saved, Descending-le n m ns le down))
answered_lem n (some (signed p s h), w) ns (m, (saved, (le, says))) down =
    (m, (saved, (omega (arith, says.0, says.1), subst (λ k. Descending k ns) (sym says.0) down)))

module _ {S : Type 0} (chain : Chain S) (answers : (s : S) → IsAnswering chain s) where
  happen-IsCounted :
      (e : Happening S) (w : World S) (ns : List ℕ)
      → IsCounted (w, ns)
      → IsCounted (happen chain e (w, ns))
  happen-IsCounted (asks setting signing q) w ns (n, (saved, down)) =
      answered_lem n (request_permit chain setting signing q w) ns
        (request_permit-Answered chain setting signing q n w (answers w.chain) saved) down
  happen-IsCounted (passes setting now_ms) w ns (n, (saved, down)) = (
    n,
    (
      tick-keeps chain setting now_ms (counting n) w
          (λ v kept. (ensure_loaded-IsReady n chain v (answers v.chain) kept).0) saved,
      down,
    ),
  )
  happen-IsCounted restarts w ns (n, ((d, (e, (stored, next))), down)) =
      (n, ((d, (e, (stored, (λ x. grind (arith, x))))), down))
  happen-IsCounted (moves s) w ns is = is

  happen_all-IsCounted :
      (es : List (Happening S)) (w : World S) (ns : List ℕ)
      → IsCounted (w, ns)
      → IsCounted (happen_all chain es (w, ns))
  happen_all-IsCounted [] w ns is = is
  happen_all-IsCounted (e ∷ es) w ns is = happen_all-IsCounted es _ _ (happen-IsCounted e w ns is)

  -- A gate with durable state that starts afresh and whose store answers every read: whatever requests, passes, restarts and changes
  -- of the chain follow, each nonce that it issues is larger than all before it, and smaller than
  -- the one that is stored.
  pub issued-Descending :
      (es : List (Happening S)) (w : World S) (d : Durable)
      → w.state ≡ some d
      → w.memory ≡ fresh
      → (n : ℕ) × (Saved n (happen_all chain es (w, [])).0
          × Descending n (happen_all chain es (w, [])).1)
  issued-Descending es w d e is =
      happen_all-IsCounted es w []
        (or_else d.saved_nonce 1, ((d, (e, (refl, (λ x. grind (arith, x, is))))), tt))
