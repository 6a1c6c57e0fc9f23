-- ===== src/Gate/Grounds.antt =====
-- On what grounds a permit is signed (services/live-room/src/gate/authority.mjs, `requestPermit`).
use tradermarket.Base.{
  ℕ, Bool, true, false, not, Option, none, some, ◌≡◌, refl, ◌∙◌, ap, subst, ◌==◌, arith,
}
use tradermarket.Domain.Conditions.{Decision}
use tradermarket.Domain.Conditions.Metrics.{decided, undecided, unevaluable}
use tradermarket.Gate.{Refusal, Chain, Setting, World}
use tradermarket.Gate.Action.{◌>>=◌, ask, get_memory, write, tip_seq}
use tradermarket.Gate.Suspension.{any_suspended}
use tradermarket.Gate.Clearance.{alone}
use tradermarket.Gate.Permits.{
  Asked, Permit, Signing, Answer, refused, signed, refuse, reserve, issue, issue_if, issue_on,
  answer_fresh, answer_running, answer_open, request_permit, is_matched, is_stale_for, permit_of,
}
use tradermarket.Gate.Keeping.{
  Watch, Reads, Holds, Reads-pure, Reads-need, Reads-ask, Reads-map, Reads-log, Reads-loaded,
  Reads-then,
}
use tradermarket.Gate.Safety.Reading.{Any, any_suspended-Reads}
use tradermarket.Gate.Running.{same_value}

abbrev anything : {S : Type 0} → Watch {S = S} (λ s c. Unit)
anything = record { I = λ w. Unit; written = λ w f g p q u. tt; called = λ w c t j u. tt }

module _ {S : Type 0} (chain : Chain S) (setting : Setting) (signing : Signing) (q : Asked) where
  -- Where the chain tells whether the room is suspended, it tells that it is not.
  abbrev IsRunning : S → Type 0
  IsRunning s = elim (chain.is_suspended) [ none ↦ Unit | some f ↦ f s ≡ some false ]

  -- What a permit says, and what it is signed on
  abbrev pub IsFounded : Permit → S → Type 0
  IsFounded p s =
      (chain.room_closed_sequence s ≡ some 0)
      × (IsRunning s
          × ((is_stale_for setting q.now_ms ≡ false)
              × ((alone setting q.condition_document ≡ undecided)
                  × ((is_matched signing.question_matches q ≡ true)
                      × ((p.undecided_through_sequence ≡ tip_seq setting.tip)
                          × (p.condition_hash ≡ signing.condition_hash q.condition_document))))))

  abbrev Founded : S → Answer → Type 0
  Founded s (refused r) = Unit
  Founded s (signed p signature h) = IsFounded p s

  refuse-Reads :
      (s : S) (r : Refusal) → Reads anything s (Founded s) (refuse chain setting signing q r)
  refuse-Reads s r =
      Reads-then anything s (Reads-log anything s _) (λ u v. Reads-pure anything s (refused r) tt)

  reserve-Reads : (s : S) → Reads anything s Any (reserve chain setting signing q)
  unfolding ◌>>=◌ get_memory write
  reserve-Reads s = record { run = λ w on u. (on, (tt, tt)) }

  issue-Reads :
      (s : S)
      → ((p : ℕ × ℕ) (t k : ℕ) → IsFounded (permit_of chain setting signing q p t k) s)
      → Reads anything s (Founded s) (issue chain setting signing q)
  issue-Reads s founded =
      Reads-then anything s (Reads-need anything {Q = Any} s _ (λ a e. tt)) (λ request u.
        Reads-then anything s (Reads-need anything {Q = Any} s _ (λ a e. tt)) (λ now_s u.
          Reads-then anything s (reserve-Reads s) (λ nonce u.
            Reads-then anything s (Reads-need anything {Q = Any} s _ (λ a e. tt)) (λ signature u.
              Reads-then anything s (Reads-log anything s _)
                (λ u v. Reads-pure anything s _ (founded request now_s nonce))))))

  issue_if-Reads :
      (s : S) (b : Bool)
      → (is_matched signing.question_matches q ≡ b
          → b ≡ true
          → (p : ℕ × ℕ) (t k : ℕ) → IsFounded (permit_of chain setting signing q p t k) s)
      → is_matched signing.question_matches q ≡ b
      → Reads anything s (Founded s) (issue_if chain setting signing q b)
  issue_if-Reads s true founded e = issue-Reads s (founded e refl)
  issue_if-Reads s false founded e = refuse-Reads s _

  -- What is known once the room is open and running, and the source is fresh
  abbrev Stands : S → Type 0
  Stands s =
      (chain.room_closed_sequence s ≡ some 0)
      × (IsRunning s × (is_stale_for setting q.now_ms ≡ false))

  issue_on-Reads :
      (s : S) (d : Decision)
      → Stands s
      → alone setting q.condition_document ≡ d
      → Reads anything s (Founded s) (issue_on chain setting signing q d)
  issue_on-Reads s (decided o n) stands e = refuse-Reads s _
  issue_on-Reads s (unevaluable r) stands e = refuse-Reads s _
  issue_on-Reads s undecided (is_open, (runs, is_fresh)) e =
      issue_if-Reads s _ (λ f is p t k. (is_open, (runs, (is_fresh, (e, (f ∙ is, (refl, refl)))))))
        refl

  answer_fresh-Reads :
      (s : S) (b : Bool)
      → chain.room_closed_sequence s ≡ some 0
      → IsRunning s
      → is_stale_for setting q.now_ms ≡ b
      → Reads anything s (Founded s) (answer_fresh chain setting signing q b)
  answer_fresh-Reads s true is_open runs e = refuse-Reads s _
  answer_fresh-Reads s false is_open runs e = issue_on-Reads s _ (is_open, (runs, e)) refl

  answer_running-Reads :
      (s : S) (b : Bool)
      → chain.room_closed_sequence s ≡ some 0
      → (b ≡ false → IsRunning s)
      → Reads anything s (Founded s) (answer_running chain setting signing q b)
  answer_running-Reads s true is_open runs = refuse-Reads s _
  answer_running-Reads s false is_open runs = answer_fresh-Reads s _ is_open (runs refl) refl

  running-Reads :
      (s : S) (o : Option (S → Option Bool))
      → Reads anything s
          (λ b. b ≡ false → elim o [ none ↦ Unit | some f ↦ f s ≡ some false ])
          (elim o [
            | some f ↦ ask f
            | none ↦ ask chain.open_slots >>= λ slots. any_suspended chain slots
          ])
  running-Reads s none =
      Reads-then anything s (Reads-ask anything {Q = Any} s _ (λ a e. tt)) (λ slots u.
        Reads-map anything Any _ _ s (λ b u e. tt)
          (any_suspended-Reads anything chain setting 0 s slots))
  running-Reads s (some f) = Reads-ask anything s f (λ b e is. e ∙ ap some is)

  zero_lem : (n : ℕ) → not (n == 0) ≡ false → n ≡ 0
  zero_lem n e = ground arith

  answer_open-Reads :
      (s : S) (b : Bool)
      → (b ≡ false → chain.room_closed_sequence s ≡ some 0)
      → Reads anything s (Founded s) (answer_open chain setting signing q b)
  answer_open-Reads s true is_open = refuse-Reads s _
  answer_open-Reads s false is_open =
      Reads-then anything s (running-Reads s chain.is_suspended)
        (λ b runs. answer_running-Reads s b (is_open refl) runs)

  request_permit-Reads :
      (s : S) → Reads anything s (Founded s) (request_permit chain setting signing q)
  unfolding request_permit
  request_permit-Reads s = Reads-then anything s (Reads-loaded anything chain s (λ w u. tt)) (λ u v.
      Reads-then anything s (Reads-ask anything s chain.room_closed_sequence (λ n e. e))
        (λ n e. answer_open-Reads s _ (λ is. e ∙ ap some (zero_lem n is))))

  Holds-Founded :
      (s : S) (o : Option Answer) (p : Permit) (signature h : ℕ)
      → o ≡ some (signed p signature h)
      → Holds (Founded s) o
      → IsFounded p s
  Holds-Founded s none p signature h e is = grind (arith, e)
  Holds-Founded s (some a) p signature h e is = subst (Founded s) (same_value e) is

  -- A permit is signed only for a room that is open and, where the chain tells, not suspended, on a
  -- source that is fresh where a clock is given, for a condition that the gate itself finds
  -- undecided, with a question that its catalogue, if it has one, accepts. The permit carries the
  -- tip's sequence and the gate's own hash of the condition.
  pub request_permit-IsFounded :
      (w : World S) (p : Permit) (signature h : ℕ)
      → (request_permit chain setting signing q w).0 ≡ some (signed p signature h)
      → IsFounded p w.chain
  request_permit-IsFounded w p signature h e =
      Holds-Founded w.chain _ p signature h e ((request_permit-Reads w.chain).run w refl tt).1.1
