-- ===== src/Publication/Sending.antt =====
-- What the publisher sends to the chain (services/live-room/src/publisher/queue.mjs, `publish` and
-- `reconcile`).
use tradermarket.Base.{
  ℕ, ◌/◌, ◌≡◌, ◌<◌, ◌⊎◌, refl, Option, none, some, arith, ◌==◌, Bool-cases, Option-cases, inl, inr,
  leb, Result, ok, err, ==_iff,
}
use tradermarket.Publication.{Permit, Row}
use tradermarket.Publication.Publisher.{
  Catalog, Chain, SubmitError, publish, with_permit, submitted, slot_moved,
}

-- A slot count that can be read
abbrev pub Reads {ℓ} : {T : Type ℓ} → Option (T → Option ℕ) → T → ℕ → Type 0
Reads none s n = ⊥
Reads (some count) s n = count s ≡ some n

-- What a submission of a row sends, and what held of the permit then
pub record Sent {T : Type 0} (chain : Chain T) (s : T) (now_s : ℕ) (r : Row) (after : T)
    : Type 0 where
  pub permit : Permit
  pub stored : r.permit ≡ some permit
  pub alive : now_s < permit.expires_at
  pub in_place : (n : ℕ) → Reads chain.slot_count s n → permit.slot_index ≡ n
  pub sends : after ≡ (chain.publish_slot s r.request permit r.signature r.restricted).0

module _ {T : Type 0} (catalog : Catalog) (chain : Chain T) where
  slot_moved-none :
      (count : Option (T → Option ℕ)) (s : T) (p : Permit)
      → slot_moved catalog chain count s p ≡ none
      → (n : ℕ) → Reads count s n
      → p.slot_index ≡ n
  slot_moved-none none s p h n r = absurd r
  slot_moved-none (some count) s p h n r = elim (Bool-cases (p.slot_index == n)) [
    | inl same ↦ (==_iff p.slot_index n).0 same
    | inr other ↦ absurd (let wrong = rw (r, other, slot_moved) at h in cc)
  ]

  submitted-chain : (r : Row) (a : T × Result SubmitError ℕ) → (submitted catalog chain r a).0 ≡ a.0
  submitted-chain r (s, ok market) = refl
  submitted-chain r (s, err e) = refl

  with_permit-Sent :
      (s : T) (now_s : ℕ) (r : Row) (o : Option Permit)
      → r.permit ≡ o
      → ((with_permit catalog chain s r now_s o).0 ≡ s)
        ⊎ Sent chain s now_s r (with_permit catalog chain s r now_s o).0
  with_permit-Sent s now_s r none h = inl refl
  with_permit-Sent s now_s r (some p) h = elim (Bool-cases (leb p.expires_at now_s)) [
    | inl late ↦ rw late (inl refl)
    | inr alive ↦ elim (Option-cases (slot_moved catalog chain chain.slot_count s p)) [
      | inl in_place ↦
          rw (alive, in_place)
            (inr (record {
              permit = p;
              stored = h;
              alive = ground arith;
              in_place = slot_moved-none chain.slot_count s p in_place;
              sends = submitted-chain r (chain.publish_slot s r.request p r.signature r.restricted);
            }))
      | inr (n, moved) ↦ rw (alive, moved) (inl refl)
    ]
  ]

  -- Whatever `publish` does to the chain is one submission of what the row stores, under a permit
  -- that has not expired, and whose slot index is the room's slot count wherever that can be read.
  pub publish-Sent :
      (s : T) (now_ms : ℕ) (r : Row)
      → ((publish catalog chain s now_ms r).0 ≡ s)
        ⊎ Sent chain s (now_ms / 1000) r (publish catalog chain s now_ms r).0
  unfolding publish
  publish-Sent s now_ms r = with_permit-Sent s (now_ms / 1000) r r.permit refl
