-- ===== src/Domain/EventLog/Chain.antt =====
-- What `verifyChain` accepts, stated apart from it (services/live-room/src/domain/eventlog.mjs).
use tradermarket.Base.{
  ℕ, ◌+◌, ◌≡◌, refl, ◌↔◌, Bool, false, Option, none, some, List, [], ◌∷◌, ◌++◌, arith, last?,
  length,
}
use tradermarket.Domain.Event.{Event, Draft, Covered}
use tradermarket.Domain.EventLog.{
  Point, Options, genesis, point_of, point_or, start_of, signature_fails, event_hash, build_event,
  check_event, failures_from, verify_chain,
}

-- The last point of a chain, and chains in two parts.
abbrev pub end_of : Point → List Event → Point
end_of p [] = p
end_of p (e ∷ es) = end_of (point_of e) es

end_of-last :
    (p : Point) (e : Event) (es : List Event) → end_of p (e ∷ es) ≡ point_or (last? (e ∷ es))
end_of-last p e [] = refl
end_of-last p e (f ∷ es) = end_of-last (point_of e) f es

pub end_of-genesis : (es : List Event) → end_of genesis es ≡ point_or (last? es)
end_of-genesis [] = refl
end_of-genesis (e ∷ es) = end_of-last genesis e es

-- All the checks from the beginning on, with signatures behind a watermark, if one is given
abbrev pub whole : Option (Event → Bool) → Option ℕ → Options
whole check after = record { verify_signature = check; from = none; signatures_after_seq = after }

module _ (digest : Covered → ℕ) where
  -- One event extends a point of the chain, and its signature holds where it is looked at.
  pub record Extends (o : Options) (p : Point) (e : Event) : Type 0 where
    pub next_seq : e.seq ≡ p.seq + 1
    pub linked : e.prev_hash ≡ p.hash
    pub hashed : e.hash ≡ event_hash digest e
    pub signed : signature_fails o e ≡ false

  -- Every event extends the one before it.
  abbrev pub Chained : Options → Point → List Event → Type 0
  Chained o p [] = Unit
  Chained o p (e ∷ es) = Extends o p e × Chained o (point_of e) es

  check_event-Extends :
      (o : Options) (p : Point) (e : Event) → (check_event digest o p e ≡ []) ↔ Extends o p e
  check_event-Extends o p e = (λ h. ground arith, λ h. ground arith)

  append-nil_iff {ℓ} : {A : Type ℓ} (xs ys : List A) → (xs ++ ys ≡ []) ↔ ((xs ≡ []) × (ys ≡ []))
  append-nil_iff [] ys = (λ h. (refl, h), λ h. h.1)
  append-nil_iff (x ∷ xs) ys = (λ h. cc, λ h. cc)

  pub failures_from-Chained :
      (o : Options) (p : Point) (es : List Event)
      → (failures_from digest o p es ≡ []) ↔ Chained o p es
  unfolding failures_from
  failures_from-Chained o p [] = (λ h. tt, λ h. refl)
  failures_from-Chained o p (e ∷ es) = (
    λ h.
        let (now, later) =
          (append-nil_iff (check_event digest o p e) (failures_from digest o (point_of e) es)).0
            h in
        ((check_event-Extends o p e).0 now, (failures_from-Chained o (point_of e) es).0 later),
    λ h.
        (append-nil_iff (check_event digest o p e) (failures_from digest o (point_of e) es)).1
          ((check_event-Extends o p e).1 h.0, (failures_from-Chained o (point_of e) es).1 h.1),
  )

  -- `verifyChain` reports no failure exactly when, from its starting point on, sequence numbers
  -- have no gap, each event names the hash before it and carries its own recomputed hash, and
  -- every signature that it is asked to look at holds.
  pub verify_chain-Chained :
      (o : Options) (es : List Event)
      → (verify_chain digest o es ≡ []) ↔ Chained o (start_of o.from) es
  unfolding verify_chain
  verify_chain-Chained o es = failures_from-Chained o (start_of o.from) es

  pub Chained-append :
      (o : Options) (p : Point) (xs ys : List Event)
      → Chained o p (xs ++ ys) ↔ (Chained o p xs × Chained o (end_of p xs) ys)
  Chained-append o p [] ys = (λ h. (tt, h), λ h. h.1)
  Chained-append o p (x ∷ xs) ys = (
    λ h. let (a, b) = (Chained-append o (point_of x) xs ys).0 h.1 in ((h.0, a), b),
    λ h. (h.0.0, (Chained-append o (point_of x) xs ys).1 (h.0.1, h.1)),
  )

  -- The sequence numbers of a chain count its events.
  pub end_of-seq :
      (o : Options) (p : Point) (es : List Event)
      → Chained o p es
      → (end_of p es).seq ≡ p.seq + length es
  end_of-seq o p [] h = omega arith
  end_of-seq o p (e ∷ es) h = omega (arith, end_of-seq o (point_of e) es h.1, h.0.next_seq)

  pub build_event-Extends :
      (o : Options) (tip : Option Event) (d : Draft) (t signature : ℕ)
      → let e = record (build_event digest tip d t) { connector_signature = some signature } in
        signature_fails o e ≡ false → Extends o (point_or tip) e
  unfolding build_event
  build_event-Extends o tip d t signature h = record {
    next_seq = refl;
    linked = refl;
    hashed = refl;
    signed = h;
  }

  -- An event that `buildEvent` made on the tip of a log that verifies keeps the log verifying,
  -- once it is signed with a signature that holds.
  pub verify_chain-build_event :
      (check : Option (Event → Bool)) (after : Option ℕ) (es : List Event) (d : Draft)
      (t signature : ℕ)
      → verify_chain digest (whole check after) es ≡ []
      → let e = record (build_event digest (last? es) d t) {
        connector_signature = some signature;
      } in
        signature_fails (whole check after) e ≡ false
        → verify_chain digest (whole check after) (es ++ e ∷ []) ≡ []
  verify_chain-build_event check after es d t signature clean holds =
      (verify_chain-Chained (whole check after) (es ++ e ∷ [])).1 (
        (Chained-append (whole check after) genesis es (e ∷ [])).1
          ((verify_chain-Chained (whole check after) es).0 clean, (extends, tt)))
    where
      e : Event
      e = record (build_event digest (last? es) d t) { connector_signature = some signature }

      extends : Extends (whole check after) (end_of genesis es) e
      extends =
          rw (end_of-genesis es)
            (build_event-Extends (whole check after) (last? es) d t signature holds)
