-- ===== src/Indexer/Forks.antt =====
-- What `detectReorg` finds (services/live-room/src/indexer/indexer.mjs).
use tradermarket.Base.{
  ℕ, ◌+◌, ◌≤◌, ◌<◌, ◌≡◌, ◌≢◌, refl, true, false, Option, none, some, List, [], ◌∷◌, inl, inr, arith,
  Bool-cases, All, ◌⊎◌, ◌&&◌, ◌||◌, not, ◌==◌, ltb, is_nil, is_some,
}
use tradermarket.Base.Dict.{Dict, lookup}
use tradermarket.Indexer.{Indexer}
use tradermarket.Indexer.Source.{Chain}
use tradermarket.Indexer.Reorg.{
  Divergence, put_block, blocks_down, agrees, ancestor, is_rewritten, detect_reorg,
}

-- No block of a list that lies above a floor, and below the cursor, has the hash that was kept.
abbrev pub IsForked : (ℕ → Option ℕ) → Dict ℕ → ℕ → ℕ → List ℕ → Type 0
IsForked hash hashes cursor floor blocks =
    All (λ (b : ℕ). floor ≤ b → b < cursor → agrees (hash b) (lookup b hashes) ≡ false) blocks

-- The highest block of a list below the cursor that has the hash that was kept, if there is one
abbrev pub IsAncestor : (ℕ → Option ℕ) → Dict ℕ → ℕ → List ℕ → Option ℕ → Type 0
IsAncestor hash hashes cursor blocks none = IsForked hash hashes cursor 0 blocks
IsAncestor hash hashes cursor blocks (some b) =
    (b < cursor)
    × (agrees (hash b) (lookup b hashes) ≡ true)
    × IsForked hash hashes cursor (b + 1) blocks

-- From the highest block down
abbrev Falling : List ℕ → Type 0
Falling [] = Unit
Falling (b ∷ rest) = All (λ (c : ℕ). c ≤ b) rest × Falling rest

All-put_block :
    (P : ℕ → Type 0) (b : ℕ) (rest : List ℕ) → P b → All P rest → All P (put_block b rest)
All-put_block P b [] h hs = (h, tt)
All-put_block P b (c ∷ rest) h (k, ks) = elim (Bool-cases (ltb c b)) [
  | inl above ↦ rw above (h, (k, ks))
  | inr below ↦ rw below (k, All-put_block P b rest h ks)
]

le_all :
    (b c : ℕ) (rest : List ℕ) → c ≤ b → All (λ (d : ℕ). d ≤ c) rest → All (λ (d : ℕ). d ≤ b) rest
le_all b c [] le h = tt
le_all b c (d ∷ rest) le (h, hs) = (omega arith, le_all b c rest le hs)

Falling-put_block : (b : ℕ) (rest : List ℕ) → Falling rest → Falling (put_block b rest)
Falling-put_block b [] h = (tt, tt)
Falling-put_block b (c ∷ rest) (above, h) = elim (Bool-cases (ltb c b)) [
  | inl higher ↦
      let le : c ≤ b = ground arith in rw higher ((le, le_all b c rest le above), (above, h))
  | inr lower ↦ rw lower (All-put_block _ b rest (ground arith) above, Falling-put_block b rest h)
]

Falling-blocks_down : (hashes : Dict ℕ) → Falling (blocks_down hashes)
Falling-blocks_down [] = tt
Falling-blocks_down ((b, h) ∷ rest) =
    Falling-put_block b (blocks_down rest) (Falling-blocks_down rest)

module _ (hash : ℕ → Option ℕ) (hashes : Dict ℕ) (cursor : ℕ) where
  -- Blocks that are none above a floor
  IsForked-low :
      (b : ℕ) (rest : List ℕ)
      → All (λ (c : ℕ). c ≤ b) rest
      → IsForked hash hashes cursor (b + 1) rest
  IsForked-low b [] h = tt
  IsForked-low b (c ∷ rest) (h, hs) = (λ above below. absurd (omega arith), IsForked-low b rest hs)

  IsAncestor-cons :
      (b : ℕ) (rest : List ℕ) (found : Option ℕ)
      → (b < cursor → agrees (hash b) (lookup b hashes) ≡ false)
      → IsAncestor hash hashes cursor rest found
      → IsAncestor hash hashes cursor (b ∷ rest) found
  IsAncestor-cons b rest none forked h = (λ above below. forked below, h)
  IsAncestor-cons b rest (some c) forked (below, agreed, h) =
      (below, agreed, (λ above lower. forked lower, h))

  ancestor-IsAncestor :
      (blocks : List ℕ)
      → Falling blocks
      → IsAncestor hash hashes cursor blocks (ancestor hash hashes cursor blocks)
  unfolding ancestor
  ancestor-IsAncestor [] h = tt
  ancestor-IsAncestor (b ∷ rest) (below, h) =
      elim (Bool-cases (ltb b cursor && agrees (hash b) (lookup b hashes))) [
        | inl here ↦
            rw (here, ancestor)
              (
                (ground arith),
                (ground arith),
                (λ above lower. absurd (omega arith), IsForked-low b rest below),
              )
        | inr gone ↦
            rw (gone, ancestor)
              (IsAncestor-cons b rest _ (λ lower. ground arith) (ancestor-IsAncestor rest h))
      ]

-- What is reported for what the chain and the retained hashes are
pub record Diverges (hash : ℕ → Option ℕ) (ix : Indexer) (d : Divergence) : Type 0 where
  pub here : d.from_block ≡ ix.cursor_block
  pub indexed : ix.cursor_block ≢ 0
  pub rewritten :
      is_rewritten (lookup ix.cursor_block ix.recent_hashes) (hash ix.cursor_block) ≡ true
  pub ancestral :
      IsAncestor hash ix.recent_hashes ix.cursor_block
        (blocks_down ix.recent_hashes)
        d.common_ancestor
  pub beyond : d.is_beyond_retained_history ≡ not (is_some d.common_ancestor)

abbrev pub Reported : (ℕ → Option ℕ) → Indexer → Option Divergence → Type 0
Reported hash ix none =
    (ix.cursor_block ≡ 0)
    ⊎ (is_rewritten (lookup ix.cursor_block ix.recent_hashes) (hash ix.cursor_block) ≡ false)
Reported hash ix (some d) = Diverges hash ix d

lookup-nil : (n : ℕ) (hashes : Dict ℕ) → is_nil hashes ≡ true → lookup n hashes ≡ none
lookup-nil n [] h = refl
lookup-nil n (e ∷ rest) h = cc

is_rewritten-unknown : (now : Option ℕ) → is_rewritten none now ≡ false
is_rewritten-unknown none = refl
is_rewritten-unknown (some n) = refl

-- Where the source tells hashes: a divergence is reported exactly when a block is indexed, its
-- hash was kept, and the chain now tells another; and then its ancestor is the highest retained
-- block below the cursor of which the chain still tells the kept hash, with "beyond retained
-- history" just when there is none.
pub detect_reorg-Reported :
    (chain : Chain) (hash : ℕ → Option ℕ) (ix : Indexer)
    → chain.block_hash ≡ some hash
    → Reported hash ix (detect_reorg chain ix)
unfolding detect_reorg
detect_reorg-Reported chain hash ix told =
    elim (Bool-cases (ix.cursor_block == 0 || is_nil ix.recent_hashes)) [
      | inl idle ↦
          rw (told, detect_reorg)
            (rw idle (elim (Bool-cases (ix.cursor_block == 0)) [
              | inl start ↦ inl (ground arith)
              | inr past ↦ inr (
                  rw (lookup-nil ix.cursor_block ix.recent_hashes (ground arith))
                    (is_rewritten-unknown (hash ix.cursor_block)))
            ]))
      | inr busy ↦
          elim (Bool-cases
            (is_rewritten (lookup ix.cursor_block ix.recent_hashes) (hash ix.cursor_block))) [
              | inl gone ↦
                  rw (told, detect_reorg)
                    (rw busy (
                      rw gone (record {
                        here = refl;
                        indexed = λ e. ground arith;
                        rewritten = gone;
                        ancestral =
                            ancestor-IsAncestor hash ix.recent_hashes ix.cursor_block
                              (blocks_down ix.recent_hashes) (Falling-blocks_down ix.recent_hashes);
                        beyond = refl;
                      })))
              | inr same ↦ rw (told, detect_reorg) (rw busy (rw same (inr same)))
            ]
    ]
