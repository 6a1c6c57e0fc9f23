-- ===== src/Settlement/Quorum.antt =====
-- A quorum is two resolvers on one result
-- (services/live-room/src/settlement/settlement.mjs, `reachedQuorum`).
use tradermarket.Base.{
  ℕ, ◌≡◌, ◌≢◌, ◌≤◌, ◌⊎◌, refl, subst, true, false, List, [], ◌∷◌, arith, leb, ◌==◌, length, exists,
  All, Bool-cases, inl, inr,
}
use tradermarket.Domain.Event.{key_eq}
use tradermarket.Connector.Index.{key_eq_sound}
use tradermarket.Settlement.{
  Attestation, ByResult, add_to_set, add_to_result, any_two, result_key, by_result, reached_quorum,
}

abbrev pub Among : Attestation → List Attestation → Type 0
Among a [] = ⊥
Among a (x ∷ xs) = (a ≡ x) ⊎ Among a xs

abbrev AllApart : List ℕ → Type 0
AllApart [] = Unit
AllApart (x ∷ xs) = All (λ (y : ℕ). x ≢ y) xs × AllApart xs

add_to_set-All : (P : ℕ → Type 0) (r : ℕ) (xs : List ℕ) → P r → All P xs → All P (add_to_set r xs)
add_to_set-All P r [] p ps = (p, tt)
add_to_set-All P r (x ∷ xs) p ps = elim (Bool-cases (x == r)) [
  | inl same ↦ rw same ps
  | inr other ↦ rw other (ps.0, add_to_set-All P r xs p ps.1)
]

add_to_set-AllApart : (r : ℕ) (xs : List ℕ) → AllApart xs → AllApart (add_to_set r xs)
add_to_set-AllApart r [] h = (tt, tt)
add_to_set-AllApart r (x ∷ xs) h = elim (Bool-cases (x == r)) [
  | inl same ↦ rw same h
  | inr other ↦
      rw other
        (add_to_set-All (λ (y : ℕ). x ≢ y) r xs (ground arith) h.0, add_to_set-AllApart r xs h.1)
]

module _ (lower : ℕ → ℕ) (rows : List Attestation) where
  -- A resolver that attested a result
  abbrev pub Attested : ℕ × ℕ → ℕ → Type 0
  Attested k r =
      (a : Attestation) × Among a rows × (result_key lower a ≡ k) × (lower a.resolver ≡ r)

  abbrev Backed : (ℕ × ℕ) × List ℕ → Type 0
  Backed e = AllApart e.1 × All (Attested e.0) e.1

  add_to_result-Backed :
      (k : ℕ × ℕ) (r : ℕ) (m : ByResult)
      → Attested k r
      → All Backed m
      → All Backed (add_to_result k r m)
  add_to_result-Backed k r [] a b = (((tt, tt), (a, tt)), tt)
  add_to_result-Backed k r ((j, rs) ∷ m) a b = elim (Bool-cases (key_eq j k)) [
    | inl same ↦
        let (p, q) = key_eq_sound j k same in
        let e : k ≡ j = rw (← p, ← q) refl in
        rw same (
          (
            add_to_set-AllApart r rs b.0.0,
            add_to_set-All (Attested j) r rs (subst (λ (i : ℕ × ℕ). Attested i r) e a) b.0.1,
          ),
          b.1,
        )
    | inr other ↦ rw other (b.0, add_to_result-Backed k r m a b.1)
  ]

  by_result-Backed :
      (m : ByResult) (rest : List Attestation)
      → All (λ (a : Attestation). Among a rows) rest
      → All Backed m
      → All Backed (by_result lower m rest)
  by_result-Backed m [] h b = b
  by_result-Backed m (a ∷ rest) h b =
      by_result-Backed (add_to_result (result_key lower a) (lower a.resolver) m) rest h.1
        (add_to_result-Backed (result_key lower a) (lower a.resolver) m (a, h.0, refl, refl) b)

  -- Two resolvers that are not one attested one outcome with one evidence hash.
  pub record Agreed : Type 0 where
    pub result : ℕ × ℕ
    pub one : ℕ
    pub other : ℕ
    pub apart : one ≢ other
    pub attested_one : Attested result one
    pub attested_other : Attested result other

  agreed_of : (k : ℕ × ℕ) (rs : List ℕ) → AllApart rs → All (Attested k) rs → 2 ≤ length rs → Agreed
  agreed_of k [] h b l = absurd (omega arith)
  agreed_of k (x ∷ []) h b l = absurd (omega arith)
  agreed_of k (x ∷ y ∷ rs) h b l = record {
    result = k;
    one = x;
    other = y;
    apart = h.0.0;
    attested_one = b.0;
    attested_other = b.1.0;
  }

  any_two-Agreed : (m : ByResult) → All Backed m → any_two m ≡ true → Agreed
  any_two-Agreed [] b h = absurd (cc)
  any_two-Agreed ((k, rs) ∷ m) b h = elim (Bool-cases (leb 2 (length rs))) [
    | inl two ↦ agreed_of k rs b.0.0 b.0.1 (ground arith)
    | inr fewer ↦ any_two-Agreed m b.1 (rw fewer at h)
  ]

All-Among : (rows : List Attestation) → All (λ (a : Attestation). Among a rows) rows
All-Among [] = tt
All-Among (x ∷ rows) = (inl refl, weaker rows (All-Among rows))
  where
    weaker :
        (rest : List Attestation)
        → All (λ (a : Attestation). Among a rows) rest
        → All (λ (a : Attestation). Among a (x ∷ rows)) rest
    weaker [] h = tt
    weaker (r ∷ rest) h = (inr h.0, weaker rest h.1)

-- Where a record says that a quorum was reached and no row carries a count of two or more, two
-- different resolvers attested one outcome with one evidence hash.
pub reached_quorum-Agreed :
    (lower : ℕ → ℕ) (rows : List Attestation)
    → exists (λ (a : Attestation). leb 2 a.count) rows ≡ false
    → reached_quorum lower rows ≡ true
    → Agreed lower rows
unfolding reached_quorum
reached_quorum-Agreed lower rows none_counted h =
    elim (Bool-cases (any_two (by_result lower [] rows))) [
      | inl two ↦
          any_two-Agreed lower rows (by_result lower [] rows)
            (by_result-Backed lower rows [] rows (All-Among rows) tt) two
      | inr fewer ↦ absurd (let wrong = rw (fewer, none_counted) at h in cc)
    ]
