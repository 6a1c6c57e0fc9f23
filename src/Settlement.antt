-- ===== src/Settlement.antt =====
-- services/live-room/src/settlement/settlement.mjs: when a settlement record says that the
-- resolvers reached a quorum. `lower` stands for `toLowerCase`.
pub mod Quorum
use tradermarket.Base.{
  ℕ, Bool, true, false, ◌||◌, List, [], ◌∷◌, leb, ◌==◌, if◌then◌else◌, length, exists,
}
use tradermarket.Domain.Event.{key_eq}

-- A row of the attestations; a missing evidence hash or resolver is the empty text.
pub record Attestation : Type 0 where
  pub resolver : ℕ
  pub outcome : ℕ
  pub evidence_hash : ℕ
  pub count : ℕ

-- `Set.add`
abbrev pub add_to_set : ℕ → List ℕ → List ℕ
add_to_set r [] = r ∷ []
add_to_set r (x ∷ xs) = let rest = add_to_set r xs in if x == r then x ∷ xs else x ∷ rest

-- `byResult`: the resolvers of each outcome with its evidence
abbrev pub ByResult : Type 0
ByResult = List ((ℕ × ℕ) × List ℕ)

abbrev pub add_to_result : ℕ × ℕ → ℕ → ByResult → ByResult
add_to_result k r [] = (k, r ∷ []) ∷ []
add_to_result k r ((j, rs) ∷ m) =
    let rest = add_to_result k r m in
    if key_eq j k then (j, add_to_set r rs) ∷ m else (j, rs) ∷ rest

abbrev pub any_two : ByResult → Bool
any_two m = exists (λ (e : (ℕ × ℕ) × List ℕ). leb 2 (length e.1)) m

module _ (lower : ℕ → ℕ) where
  abbrev pub result_key : Attestation → ℕ × ℕ
  result_key a = (a.outcome, lower a.evidence_hash)

  abbrev pub by_result : ByResult → List Attestation → ByResult
  by_result m [] = m
  by_result m (a ∷ rest) = by_result (add_to_result (result_key a) (lower a.resolver) m) rest

  -- `reachedQuorum`
  unfoldable pub reached_quorum : List Attestation → Bool
  reached_quorum rows =
      if any_two (by_result [] rows) then true else exists (λ (a : Attestation). leb 2 a.count) rows
