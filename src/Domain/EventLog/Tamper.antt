-- ===== src/Domain/EventLog/Tamper.antt =====
-- What a hash chain protects (services/live-room/src/domain/eventlog.mjs, `verifyChain`).
use tradermarket.Base.{ℕ, ◌≡◌, sym, ap, ◌∙◌, Bool, Option, List, [], ◌∷◌, arith, length}
use tradermarket.Domain.Event.{Event, Covered}
use tradermarket.Domain.EventLog.{Point, Options, genesis, point_of, covered, verify_chain}
use tradermarket.Domain.EventLog.Chain.{Chained, verify_chain-Chained, end_of, whole}

-- Two logs that agree, event by event, on all that the hash covers and on the hash.
abbrev pub SameContent : List Event → List Event → Type 0
SameContent [] [] = Unit
SameContent [] (f ∷ fs) = ⊥
SameContent (e ∷ es) [] = ⊥
SameContent (e ∷ es) (f ∷ fs) = (covered e ≡ covered f) × (e.hash ≡ f.hash) × SameContent es fs

-- The digest tells the covered fields of corresponding events apart.
abbrev pub NoCollision : (Covered → ℕ) → List Event → List Event → Type 0
NoCollision digest [] fs = Unit
NoCollision digest (e ∷ es) [] = Unit
NoCollision digest (e ∷ es) (f ∷ fs) =
    (digest (covered e) ≡ digest (covered f) → covered e ≡ covered f) × NoCollision digest es fs

module _ (digest : Covered → ℕ) (o : Options) where
  same_end :
      (p q : Point) (es fs : List Event)
      → NoCollision digest es fs
      → length es ≡ length fs
      → (end_of p es).hash ≡ (end_of q fs).hash
      → Chained digest o p es
      → Chained digest o q fs
      → SameContent es fs × (p.hash ≡ q.hash)
  same_end p q [] [] n l h x y = (tt, h)
  same_end p q [] (f ∷ fs) n l h x y = absurd (omega arith)
  same_end p q (e ∷ es) [] n l h x y = absurd (omega arith)
  same_end p q (e ∷ es) (f ∷ fs) n l h (x, xs) (y, ys) =
      let (rest, hashes) = same_end (point_of e) (point_of f) es fs n.1 (omega arith) h xs ys in
      let fields : covered e ≡ covered f = n.0 (sym x.hashed ∙ hashes ∙ y.hashed) in
      ((fields, hashes, rest), sym x.linked ∙ ap (λ (c : Covered). c.prev_hash) fields ∙ y.linked)

-- Two logs of one length that both verify from the beginning, and that end in the same hash, are
-- the same log in everything that the hash covers, unless the digest collides on them.
pub tamper_evident :
    (digest : Covered → ℕ) (check : Option (Event → Bool)) (after : Option ℕ) (es fs : List Event)
    → NoCollision digest es fs
    → length es ≡ length fs
    → (end_of genesis es).hash ≡ (end_of genesis fs).hash
    → verify_chain digest (whole check after) es ≡ []
    → verify_chain digest (whole check after) fs ≡ []
    → SameContent es fs
tamper_evident digest check after es fs n l h x y =
    (same_end digest (whole check after) genesis genesis es fs n l h
      ((verify_chain-Chained digest (whole check after) es).0 x)
      ((verify_chain-Chained digest (whole check after) fs).0 y)).0
