-- ===== src/Gate/Nonces/Answers.antt =====
-- What `requestPermit` does to the counter of nonces
-- (services/live-room/src/gate/authority.mjs).
use tradermarket.Base.{
  ℕ, suc, ◌≤◌, ◌<◌, Bool, true, false, not, Option, none, some, ◌≡◌, refl, arith, ap, ◌==◌,
}
use tradermarket.Domain.Conditions.{Decision}
use tradermarket.Domain.Conditions.Metrics.{decided, undecided, unevaluable}
use tradermarket.Gate.{Call, Refusal, permit_signed_entry, Chain, Setting, World}
use tradermarket.Gate.Loading.{IsAnswering, ensure_loaded-Loads}
use tradermarket.Gate.Action.{
  M, pure, and_then, ◌>>=◌, ◌>>◌, need, ask, get_memory, write, log, ensure_loaded,
}
use tradermarket.Gate.Permits.{
  Asked, Signing, Answer, refused, signed, refuse, reserve, issue, issue_if, issue_on, answer_fresh,
  answer_running, answer_open, request_permit, permit_of,
}
use tradermarket.Gate.Keeping.{Holds-unit, Watch, Reads, ReadTo, Reads-need, Reads-ask, Reads-log}
use tradermarket.Gate.Safety.Reading.{Any, is_suspended_on_chain-Reads}
use tradermarket.Gate.Nonces.{Saved, IsReady, ready, counting, ensure_loaded-IsReady, write_state}

-- Nothing is sent.
abbrev Sends : {S : Type 0} → S → Call → Type 0
Sends s c = Unit

-- What an answer says of the counter: a permit has the nonce `n`, which the counter has passed.
abbrev Says : ℕ → ℕ → Option Answer → Type 0
Says n m none = Unit
Says n m (some (refused r)) = Unit
Says n m (some (signed p s h)) = (p.nonce ≡ n) × (n < m)

abbrev pub Answered : {S : Type 0} → ℕ → Option Answer × World S → Type 0
Answered n r = (m : ℕ) × (Saved m r.1 × ((n ≤ m) × Says n m r.0))

module _ {S : Type 0} (n : ℕ) where
  abbrev K : Watch (Sends {S = S})
  K = ready n

  -- From a counter at `n`
  record Answers (m : M S Answer) : Type 0 where
    pub run : (w : World S) → IsReady n w → Answered n (m w)

  then_lem :
      {A : Type 0} (s : S) (f : A → M S Answer) (r : Option A × World S)
      → ReadTo K s Any r
      → ((a : A) → Answers (f a))
      → Answered n (and_then r f)
  then_lem s f (none, w) read rest = (n, (read.1.0.0, (omega arith, tt)))
  then_lem s f (some a, w) read rest = (rest a).run w read.1.0

  Answers-then :
      {A : Type 0} {m : M S A} (f : A → M S Answer)
      → ((s : S) → Reads K s Any m)
      → ((a : A) → Answers (f a))
      → Answers (m >>= f)
  unfolding ◌>>=◌
  Answers-then {m = m} f read rest = record {
    run = λ w is. then_lem w.chain f (m w) ((read w.chain).run w refl is) rest;
  }

  refuse-Answers :
      (chain : Chain S) (setting : Setting) (signing : Signing) (q : Asked) (r : Refusal)
      → Answers (refuse chain setting signing q r)
  refuse-Answers chain setting signing q r =
      Answers-then _ (λ s. Reads-log K s _)
        (λ u. record { run = λ w is. (n, (is.0, (omega arith, tt))) })

-- What stands from the moment that the nonce `n` is reserved
module _ {S : Type 0} (n : ℕ) where
  record Signs (m : M S Answer) : Type 0 where
    pub run : (w : World S) → Saved (suc n) w → Answered n (m w)

  signs_lem :
      {A : Type 0} (s : S) (f : A → M S Answer) (r : Option A × World S)
      → ReadTo (counting {J = Sends} (suc n)) s Any r
      → ((a : A) → Signs (f a))
      → Answered n (and_then r f)
  signs_lem s f (none, w) read rest = (suc n, (read.1.0, (omega arith, tt)))
  signs_lem s f (some a, w) read rest = (rest a).run w read.1.0

  Signs-then :
      {A : Type 0} {m : M S A} (f : A → M S Answer)
      → ((s : S) → Reads (counting {J = Sends} (suc n)) s Any m)
      → ((a : A) → Signs (f a))
      → Signs (m >>= f)
  unfolding ◌>>=◌
  Signs-then {m = m} f read rest = record {
    run = λ w is. signs_lem w.chain f (m w) ((read w.chain).run w refl is) rest;
  }

module _ {S : Type 0} (chain : Chain S) (setting : Setting) (signing : Signing) (q : Asked)
    (n : ℕ) where
  sign-Signs :
      (request : ℕ × ℕ) (now_s k : ℕ)
      → k ≡ n
      → Signs {S = S} n (
          need (signing.sign (permit_of chain setting signing q request now_s k)) >>= λ signature.
          log (permit_signed_entry q.slot_index k)
          >> pure (
              signed
                (permit_of chain setting signing q request now_s k)
                signature
                (signing.params_hash q.template_id q.params)))
  sign-Signs request now_s k e =
      Signs-then n _ (λ s. Reads-need _ {Q = Any} s _ (λ a x. tt))
        (λ signature.
          Signs-then n _ (λ s. Reads-log _ s _)
            (λ u. record { run = λ w is. (suc n, (is, (omega arith, (e, omega arith)))) }))

  reserve-Answers :
      (f : ℕ → M S Answer)
      → ((k : ℕ) → k ≡ n → Signs n (f k))
      → Answers n (reserve chain setting signing q >>= f)
  unfolding ◌>>=◌ get_memory write
  reserve-Answers f rest = record {
    run = λ w ((d, (e, (stored, next))), loaded). (rest w.memory.next_nonce (next loaded)).run _ (
      record d { saved_nonce = some (suc w.memory.next_nonce) },
      (write_state w (λ m. m) _ d e, (ap suc (next loaded), (λ u. ap suc (next loaded)))),
    );
  }

  issue-Answers : Answers {S = S} n (issue chain setting signing q)
  issue-Answers =
      Answers-then n _ (λ s. Reads-need _ {Q = Any} s _ (λ a x. tt))
        (λ request.
          Answers-then n _ (λ s. Reads-need _ {Q = Any} s _ (λ a x. tt))
            (λ now_s. reserve-Answers _ (λ k e. sign-Signs request now_s k e)))

  issue_if-Answers : (b : Bool) → Answers {S = S} n (issue_if chain setting signing q b)
  issue_if-Answers true = issue-Answers
  issue_if-Answers false = refuse-Answers n chain setting signing q _

  issue_on-Answers : (d : Decision) → Answers {S = S} n (issue_on chain setting signing q d)
  issue_on-Answers (decided o m) = refuse-Answers n chain setting signing q _
  issue_on-Answers (unevaluable r) = refuse-Answers n chain setting signing q _
  issue_on-Answers undecided = issue_if-Answers _

  answer_fresh-Answers : (b : Bool) → Answers {S = S} n (answer_fresh chain setting signing q b)
  answer_fresh-Answers true = refuse-Answers n chain setting signing q _
  answer_fresh-Answers false = issue_on-Answers _

  answer_running-Answers : (b : Bool) → Answers {S = S} n (answer_running chain setting signing q b)
  answer_running-Answers true = refuse-Answers n chain setting signing q _
  answer_running-Answers false = answer_fresh-Answers _

  answer_open-Answers : (b : Bool) → Answers {S = S} n (answer_open chain setting signing q b)
  answer_open-Answers true = refuse-Answers n chain setting signing q _
  answer_open-Answers false =
      Answers-then n _ (λ s. is_suspended_on_chain-Reads (ready n) chain setting 0 s)
        (λ b. answer_running-Answers b)

  rest-Answers : Answers {S = S} n (
      ask chain.room_closed_sequence >>= λ closed.
      answer_open chain setting signing q (not (closed == 0)))
  rest-Answers =
      Answers-then n _ (λ s. Reads-ask _ {Q = Any} s _ (λ a x. tt)) (λ k. answer_open-Answers _)

  pub request_permit-Answered :
      (w : World S)
      → IsAnswering chain w.chain
      → Saved n w
      → Answered n (request_permit chain setting signing q w)
  unfolding request_permit ◌>>=◌
  request_permit-Answered w answers saved =
      then_lem n w.chain _ (ensure_loaded chain w)
        (
          (ensure_loaded-Loads chain w).same_chain,
          (ensure_loaded-IsReady n chain w answers saved, Holds-unit (ensure_loaded chain w).0),
        )
        (λ u. rest-Answers)
