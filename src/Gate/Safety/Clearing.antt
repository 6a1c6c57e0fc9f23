-- ===== src/Gate/Safety/Clearing.antt =====
-- What `_clearCompletedEpochs` and `_drainClosedEpochs` send
-- (services/live-room/src/gate/authority.mjs).
use tradermarket.Base.{
  All-append, ℕ, ◌≤◌, Bool, true, false, ◌&&◌, not, Option, none, some, List, [], ◌∷◌, ◌++◌, ◌≡◌,
  refl, All, ltb, ◌==◌, arith, exists, sym, ap, ◌∙◌, subst,
}
use tradermarket.Base.Dict.{lookup}
use tradermarket.Domain.Event.{Event}
use tradermarket.Domain.Conditions.{Condition, Decision}
use tradermarket.Domain.Conditions.Metrics.{decided, undecided, unevaluable}
use tradermarket.Gate.{mark_safe, process_room, Chain, Setting}
use tradermarket.Gate.Action.{M, pure, ask, tip_seq}
use tradermarket.Gate.Clearance.{
  alone, is_past, is_cleared, ask_safe, candidate_if, candidates, cleared_of, first_pending,
  with_market, choose, choose_all, confirm_if, confirm, process_confirmed, mark_chosen, clear_at,
  clear_completed_epochs, recent_epochs,
}
use tradermarket.Gate.Pass.{markets_of}
use tradermarket.Gate.Keeping.{
  Watch, Reads, Acts, Reads-pure, Reads-need, Reads-ask, Reads-write, Reads-log, Reads-then,
  Reads-if, Acts-then, Acts-next, Acts-send, Acts-if, Acts-pure,
}
use tradermarket.Gate.Safety.{
  IsSub, nothing, left_out, kept, IsStale, IsUndecided, IsPastEnd, IsWaiting, IsClear, IsConfirmed,
  Justified,
}
use tradermarket.Gate.Safety.Reading.{
  Any, get-Reads, noted-Reads, condition_for-Reads, All-inl, room_sequence-Reads,
}

IsSub-nothing : (ms : List ℕ) → IsSub [] ms
IsSub-nothing [] = nothing
IsSub-nothing (m ∷ ms) = left_out m [] ms (IsSub-nothing ms)

past_lem : (a b c d : ℕ) → (not (ltb a b) && not (ltb c d)) ≡ true → (b ≤ a) × (d ≤ c)
past_lem a b c d e = (ground arith, ground arith)

IsSub-append : {ks ms ls ns : List ℕ} → IsSub ks ms → IsSub ls ns → IsSub (ks ++ ls) (ms ++ ns)
IsSub-append nothing q = q
IsSub-append (left_out m ks ms p) q = left_out m _ _ (IsSub-append p q)
IsSub-append (kept m ks ms p) q = kept m _ _ (IsSub-append p q)

markets_of-append : (es fs : List (ℕ × ℕ)) → markets_of (es ++ fs) ≡ markets_of es ++ markets_of fs
markets_of-append [] fs = refl
markets_of-append (e ∷ es) fs = ap (◌∷◌ e.0) (markets_of-append es fs)

module _ {S : Type 0} (chain : Chain S) (setting : Setting) (now_ms : ℕ)
    (K : Watch (Justified chain setting now_ms)) where
  is_past-IsPastEnd :
      (tip : Event) (epoch : ℕ)
      → setting.tip ≡ some tip
      → is_past setting now_ms tip.observed_at epoch ≡ true
      → IsPastEnd chain setting now_ms epoch
  is_past-IsPastEnd tip epoch is_tip e =
      ((past_lem _ _ _ _ e).0, (tip, (is_tip, (past_lem _ _ _ _ e).1)))

  ask_safe-Reads : (s : S) (market epoch : ℕ) → Reads K s Any (ask_safe chain market epoch)
  ask_safe-Reads s market epoch =
      Reads-then K s (Reads-need K {Q = Any} s _ (λ f e. tt)) (λ f u. Reads-ask K s _ (λ a e. tt))

  is_cleared-Reads : (s : S) (market epoch : ℕ) → Reads K s Any (is_cleared chain market epoch)
  is_cleared-Reads s market epoch = get-Reads K s _ (λ m.
      Reads-if K s (exists (λ e. e == epoch) (cleared_of market m)) (λ e. Reads-pure K s true tt)
        (λ e. ask_safe-Reads s market epoch))

  candidate_if-Reads :
      (s : S) (P : ℕ → Type 0) (market epoch : ℕ) (rest : M S (List ℕ)) (b : Bool)
      → P epoch
      → Reads K s (All P) rest
      → Reads K s (All P) (candidate_if market epoch rest b)
  candidate_if-Reads s P market epoch rest true p read =
      Reads-then K s (Reads-write K s _ _ (λ m. (refl, refl)) (λ d. refl)) (λ u v. read)
  candidate_if-Reads s P market epoch rest false p read =
      Reads-then K s read (λ more all. Reads-pure K s (epoch ∷ more) (p, all))

  candidates-Reads :
      (s : S) (tip : Event) (market : ℕ) (es : List ℕ)
      → setting.tip ≡ some tip
      → Reads K s
          (All (IsPastEnd chain setting now_ms))
          (candidates chain setting now_ms tip.observed_at market es)
  candidates-Reads s tip market [] is_tip = Reads-pure K s [] tt
  candidates-Reads s tip market (epoch ∷ es) is_tip =
      let rest = candidates-Reads s tip market es is_tip in
      Reads-if K s _
        (λ e. Reads-then K s (is_cleared-Reads s market epoch) (λ b u.
          candidate_if-Reads s _ market epoch _ b (is_past-IsPastEnd tip epoch is_tip e) rest))
        (λ e. rest)

  abbrev Found : S → ℕ → Option ℕ → Type 0
  Found s market none = Unit
  Found s market (some epoch) =
      IsPastEnd chain setting now_ms epoch × IsWaiting chain setting now_ms s market epoch

  pending_of-Reads :
      (s : S) (market epoch : ℕ) (o : Option (S → ℕ → ℕ → Option Bool))
      → Reads K s
          (λ b. b ≡ true → elim o [ none ↦ Unit | some f ↦ f s market epoch ≡ some true ])
          (elim o [ none ↦ pure true | some f ↦ ask (λ t. f t market epoch) ])
  pending_of-Reads s market epoch none = Reads-pure K s true (λ e. tt)
  pending_of-Reads s market epoch (some f) = Reads-ask K s _ (λ b e is_true. e ∙ ap some is_true)

  first_pending-Reads :
      (s : S) (market : ℕ) (es : List ℕ)
      → All (IsPastEnd chain setting now_ms) es
      → Reads K s (Found s market) (first_pending chain market es)
  first_pending-Reads s market [] all = Reads-pure K s none tt
  first_pending-Reads s market (epoch ∷ es) all =
      Reads-then K s (pending_of-Reads s market epoch chain.has_pending_actions) (λ b waits.
        Reads-if K s b (λ e. Reads-pure K s (some epoch) (all.0, waits e))
          (λ e. first_pending-Reads s market es all.1))

  -- What is chosen of the slots `ms`
  abbrev Chosen : S → List ℕ → List (ℕ × ℕ) → Type 0
  Chosen s ms es = All (IsClear chain setting now_ms s) es × IsSub (markets_of es) ms

  with_market-Chosen :
      (s : S) (market : ℕ) (o : Option ℕ)
      → IsUndecided chain setting now_ms market
      → Found s market o
      → Chosen s (market ∷ []) (with_market market o)
  with_market-Chosen s market none undec found = (tt, IsSub-nothing (market ∷ []))
  with_market-Chosen s market (some epoch) undec found =
      (((undec, found), tt), kept market [] [] nothing)

  choose-Reads :
      (s : S) (tip : Event) (market : ℕ) (c : Condition) (d : Decision)
      → setting.tip ≡ some tip
      → lookup market setting.conditions ≡ some c
      → alone setting c ≡ d
      → Reads K s (Chosen s (market ∷ [])) (choose chain setting now_ms tip market d)
  choose-Reads s tip market c (decided o n) is_tip found is =
      Reads-pure K s [] (tt, IsSub-nothing _)
  choose-Reads s tip market c (unevaluable r) is_tip found is =
      Reads-pure K s [] (tt, IsSub-nothing _)
  choose-Reads s tip market c undecided is_tip found is =
      Reads-then K s (candidates-Reads s tip market (recent_epochs setting now_ms) is_tip)
        (λ es all.
          Reads-then K s (first_pending-Reads s market es all)
            (λ o f. Reads-pure K s _ (with_market-Chosen s market o (c, (found, is)) f)))

  Chosen-append :
      (s : S) (market : ℕ) (ms : List ℕ) (es fs : List (ℕ × ℕ))
      → Chosen s (market ∷ []) es
      → Chosen s ms fs
      → Chosen s (market ∷ ms) (es ++ fs)
  Chosen-append s market ms es fs p q = (
    All-append _ es fs p.0 q.0,
    subst (λ ns. IsSub ns (market ∷ ms)) (sym (markets_of-append es fs)) (IsSub-append p.1 q.1),
  )

  choose_all-Reads :
      (s : S) (tip : Event) (ms : List ℕ)
      → setting.tip ≡ some tip
      → Reads K s (Chosen s ms) (choose_all chain setting now_ms tip ms)
  choose_all-Reads s tip [] is_tip = Reads-pure K s [] (tt, nothing)
  choose_all-Reads s tip (market ∷ ms) is_tip =
      Reads-then K s (condition_for-Reads K setting s market) (λ c found.
        Reads-then K s (choose-Reads s tip market c _ is_tip found refl) (λ es chosen.
          Reads-then K s (choose_all-Reads s tip ms is_tip)
            (λ fs more. Reads-pure K s _ (Chosen-append s market ms es fs chosen more))))

  confirm_if-Reads :
      (s : S) (n market epoch : ℕ) (rest : M S (List (ℕ × ℕ))) (b : Bool)
      → (b ≡ true → IsConfirmed chain setting now_ms s (market, epoch))
      → Reads K s (All (IsConfirmed chain setting now_ms s)) rest
      → Reads K s (All (IsConfirmed chain setting now_ms s)) (confirm_if n market epoch rest b)
  confirm_if-Reads s n market epoch rest true is read =
      Reads-then K s (Reads-write K s _ _ (λ m. (refl, refl)) (λ d. refl))
        (λ u v. Reads-then K s read (λ more all. Reads-pure K s _ (is refl, all)))
  confirm_if-Reads s n market epoch rest false is read = noted-Reads K s _ rest read

  confirm-Reads :
      (s : S) (n : ℕ) (es : List (ℕ × ℕ))
      → Reads K s (All (IsConfirmed chain setting now_ms s)) (confirm chain n es)
  confirm-Reads s n [] = Reads-pure K s [] tt
  confirm-Reads s n ((market, epoch) ∷ es) =
      Reads-then K s (pending_of-Reads s market epoch chain.is_epoch_safe)
        (λ b is. confirm_if-Reads s n market epoch _ b is (confirm-Reads s n es))

  process_confirmed-Acts :
      (s : S) (es : List (ℕ × ℕ))
      → All (IsConfirmed chain setting now_ms s) es
      → Acts K s (process_confirmed chain es)
  process_confirmed-Acts s [] all = Acts-pure K s tt
  process_confirmed-Acts s (e ∷ es) all =
      Acts-send K chain s (process_room (e ∷ es)) (All-inl _ _ (e ∷ es) all)

  mark_chosen-Acts :
      (s : S) (slots : List ℕ) (es : List (ℕ × ℕ))
      → IsStale chain setting now_ms false
      → chain.open_slots s ≡ some slots
      → Chosen s slots es
      → Acts K s (mark_chosen chain (tip_seq setting.tip) es)
  mark_chosen-Acts s slots [] fresh are chosen = Acts-pure K s tt
  mark_chosen-Acts s slots (e ∷ es) fresh are chosen =
      Acts-then K s (room_sequence-Reads K chain setting now_ms s (tip_seq setting.tip)) (λ n ok.
        Acts-then K s (Reads-log K s _) (λ u v.
          Acts-next K s
            (Acts-send K chain s (mark_safe n (e ∷ es))
              (ok.0, (ok.1, (fresh, (chosen.0, (slots, (are, chosen.1)))))))
            (λ t u.
              Acts-then K t (confirm-Reads t (tip_seq setting.tip) (e ∷ es))
                (λ fs all. process_confirmed-Acts t fs all))))

  clear_at-Acts :
      (s : S) (slots : List ℕ) (o : Option Event)
      → IsStale chain setting now_ms false
      → chain.open_slots s ≡ some slots
      → setting.tip ≡ o
      → Acts K s (clear_at chain setting now_ms slots o)
  clear_at-Acts s slots none fresh are is_tip = Acts-pure K s tt
  clear_at-Acts s slots (some tip) fresh are is_tip =
      Acts-if K s (tip.seq == 0) (λ e. Acts-pure K s tt)
        (λ e. Acts-then K s (choose_all-Reads s tip slots is_tip) (λ es chosen.
          subst (λ n. Acts K s (mark_chosen chain n es)) (ap tip_seq is_tip)
            (mark_chosen-Acts s slots es fresh are chosen)))

  pub clear_completed_epochs-Acts :
      (s : S)
      → IsStale chain setting now_ms false
      → Acts K s (clear_completed_epochs chain setting now_ms)
  unfolding clear_completed_epochs
  clear_completed_epochs-Acts s fresh =
      Acts-then K s (Reads-ask K s chain.open_slots (λ slots e. e))
        (λ slots e. clear_at-Acts s slots setting.tip fresh e refl)
