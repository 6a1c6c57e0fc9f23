-- ===== src/Domain/EventLog/Verifier.antt =====
-- Incremental verification: `ChainVerifier` of services/live-room/src/domain/eventlog.mjs.
use tradermarket.Base.{
  ℕ, ◌+◌, ◌≤◌, ◌<◌, ◌≡◌, ◌≢◌, refl, Bool, true, Option, none, some, List, [], ◌∷◌, ◌++◌, arith,
  last?, length,
}
use tradermarket.Domain.Event.{Event, Covered}
use tradermarket.Domain.EventLog.{
  Point, Options, ChainVerifier, genesis, point_of, verify_chain, verify, pass_options,
  new_verifier, advance,
}
use tradermarket.Domain.EventLog.Chain.{
  Extends, Chained, Chained-append, verify_chain-Chained, end_of, end_of-seq, whole,
}

abbrev full : Option (Event → Bool) → Options
full check = whole check none

abbrev behind : Option (Event → Bool) → ℕ → Options
behind check n = whole check (some n)

abbrev watermark_at : Option (Event → Bool) → Point → ChainVerifier
watermark_at check p = record {
  verify_signature = check;
  verified_seq = p.seq;
  verified_hash = p.hash;
}

advance_clean :
    (v : ChainVerifier) (p : Point) (e : Event) (es : List Event)
    → advance v true (last? (e ∷ es)) ≡ watermark_at v.verify_signature (end_of p (e ∷ es))
advance_clean v p e [] = refl
advance_clean v p e (f ∷ es) = advance_clean v (point_of e) f es

module _ (digest : Covered → ℕ) where
  -- Where an event stands behind the watermark, both options look at its signature.
  Extends-behind :
      (check : Option (Event → Bool)) (n : ℕ) (p : Point) (e : Event)
      → n < e.seq
      → Extends digest (behind check n) p e
      → Extends digest (full check) p e
  Extends-behind none n p e h x = ground arith
  Extends-behind (some c) n p e h x = ground arith

  Chained-behind :
      (check : Option (Event → Bool)) (n : ℕ) (p : Point) (es : List Event)
      → n ≤ p.seq
      → Chained digest (behind check n) p es
      → Chained digest (full check) p es
  Chained-behind check n p [] h x = tt
  Chained-behind check n p (e ∷ es) h (x, xs) = (
    Extends-behind check n p e (omega (arith, x.next_seq)) x,
    Chained-behind check n (point_of e) es (omega (arith, x.next_seq)) xs,
  )

  -- Where it does not, no signature is looked at.
  Extends-before :
      (check : Option (Event → Bool)) (n : ℕ) (p : Point) (e : Event)
      → e.seq ≤ n
      → Extends digest (full none) p e
      → Extends digest (behind check n) p e
  Extends-before none n p e h x = ground arith
  Extends-before (some c) n p e h x = ground arith

  Chained-before :
      (check : Option (Event → Bool)) (n : ℕ) (p : Point) (es : List Event)
      → p.seq + length es ≤ n
      → Chained digest (full none) p es
      → Chained digest (behind check n) p es
  Chained-before check n p [] h x = tt
  Chained-before check n p (e ∷ es) h (x, xs) = (
    Extends-before check n p e (omega (arith, x.next_seq)) x,
    Chained-before check n (point_of e) es (omega (arith, x.next_seq)) xs,
  )

  pass_options-some :
      (v : ChainVerifier)
      → v.verified_seq ≢ 0
      → pass_options v ≡ behind v.verify_signature v.verified_seq
  pass_options-some v h = ground arith

  -- A clean first pass checks every signature, and leaves the watermark at the last event.
  verify-first :
      (check : Option (Event → Bool)) (e : Event) (es : List Event)
      → (verify digest (new_verifier check) (e ∷ es)).1 ≡ []
      → ((verify digest (new_verifier check) (e ∷ es)).0
          ≡ watermark_at check (end_of genesis (e ∷ es)))
        × Chained digest (full check) genesis (e ∷ es)
  unfolding verify
  verify-first check e es h = (
    rw h (advance_clean (new_verifier check) genesis e es),
    (verify_chain-Chained digest (full check) (e ∷ es)).0 h,
  )

  -- A log that grows between two clean passes of one verifier is verified whole: the second pass
  -- skips the old signatures and all the same every check of `verifyChain`, with every signature,
  -- would pass on the whole log.
  pub verify_incremental :
      (check : Option (Event → Bool)) (es fs : List Event)
      → (verify digest (new_verifier check) es).1 ≡ []
      → (verify digest (verify digest (new_verifier check) es).0 (es ++ fs)).1 ≡ []
      → verify_chain digest (whole check none) (es ++ fs) ≡ []
  unfolding verify
  verify_incremental check [] fs h k = k
  verify_incremental check (e ∷ es) fs h k =
      let (left, before) = verify-first check e es h in
      let end = end_of genesis (e ∷ es) in
      let counted = end_of-seq digest (full check) genesis (e ∷ es) before in
      let skipped =
        rw (left, pass_options-some (watermark_at check end) (omega (arith, counted))) at k in
      let second = (verify_chain-Chained digest (behind check end.seq) (e ∷ es ++ fs)).0 skipped in
      let after = ((Chained-append digest (behind check end.seq) genesis (e ∷ es) fs).0 second).1 in
      (verify_chain-Chained digest (full check) (e ∷ es ++ fs)).1 (
        (Chained-append digest (full check) genesis (e ∷ es) fs).1
          (before, Chained-behind check end.seq end fs (omega arith) after))

  -- Below the watermark no signature is looked at. A log that was rewritten with repaired hashes,
  -- and that ends at or below the watermark, passes whatever the signature check would say.
  pub verify_rewritten :
      (v : ChainVerifier) (es : List Event)
      → v.verified_seq ≢ 0
      → length es ≤ v.verified_seq
      → verify_chain digest (whole none none) es ≡ []
      → (verify digest v es).1 ≡ []
  unfolding verify
  verify_rewritten v es set short h = rw (pass_options-some v set) (
      (verify_chain-Chained digest (behind v.verify_signature v.verified_seq) es).1 (
        Chained-before v.verify_signature v.verified_seq genesis es (omega arith)
          ((verify_chain-Chained digest (full none) es).0 h)))
