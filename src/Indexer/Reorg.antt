-- ===== src/Indexer/Reorg.antt =====
-- Noticing that the chain was rewritten (services/live-room/src/indexer/indexer.mjs, `cursorHash`,
-- `detectReorg` and `rewindTo`) and what a poll of the process does about it
-- (services/live-room/src/app.mjs).
use tradermarket.Base.{
  ℕ, Bool, false, Option, none, some, List, [], ◌∷◌, ◌&&◌, ◌||◌, not, ◌==◌, ltb, if◌then◌else◌,
  or_else, keep, is_nil, is_some,
}
use tradermarket.Base.Dict.{Dict, lookup}
use tradermarket.Indexer.{Names, Indexer}
use tradermarket.Indexer.Source.{Chain, Outcome}
use tradermarket.Indexer.Sync.{sync_to, rebuild}

pub record Divergence : Type 0 where
  pub common_ancestor : Option ℕ
  pub from_block : ℕ
  pub is_beyond_retained_history : Bool

-- `cursorHash`
unfoldable pub cursor_hash : Indexer → Option ℕ
cursor_hash ix = lookup ix.cursor_block ix.recent_hashes

-- `[...this.recentHashes.keys()].sort((a, b) => b - a)`
abbrev pub put_block : ℕ → List ℕ → List ℕ
put_block b [] = b ∷ []
put_block b (c ∷ rest) = let after = put_block b rest in if ltb c b then b ∷ c ∷ rest else c ∷ after

abbrev pub blocks_down : Dict ℕ → List ℕ
blocks_down [] = []
blocks_down ((b, h) ∷ rest) = put_block b (blocks_down rest)

abbrev pub agrees : Option ℕ → Option ℕ → Bool
agrees none mine = false
agrees (some theirs) none = false
agrees (some theirs) (some mine) = theirs == mine

-- The loop of `detectReorg`
unfoldable pub ancestor : (ℕ → Option ℕ) → Dict ℕ → ℕ → List ℕ → Option ℕ
ancestor hash hashes cursor [] = none
ancestor hash hashes cursor (b ∷ rest) =
    let deeper = ancestor hash hashes cursor rest in
    if ltb b cursor && agrees (hash b) (lookup b hashes) then some b else deeper

abbrev pub divergence : ℕ → Option ℕ → Divergence
divergence cursor found = record {
  common_ancestor = found;
  from_block = cursor;
  is_beyond_retained_history = not (is_some found);
}

abbrev pub is_rewritten : Option ℕ → Option ℕ → Bool
is_rewritten (some known) (some now) = not (now == known)
is_rewritten known now = false

unfoldable pub detect_reorg : Chain → Indexer → Option Divergence
detect_reorg chain ix = elim (chain.block_hash) [
  | none ↦ none
  | some hash ↦
      if ix.cursor_block == 0 || is_nil ix.recent_hashes
      then none
      else if is_rewritten (lookup ix.cursor_block ix.recent_hashes) (hash ix.cursor_block)
      then some (
          divergence ix.cursor_block
            (ancestor hash ix.recent_hashes ix.cursor_block (blocks_down ix.recent_hashes)))
      else none
]

module _ (names : Names) where
  -- `rewindTo`; what it deletes of the hashes, `rebuild` replaces
  unfoldable pub rewind_to : Chain → ℕ → ℕ → Indexer → Outcome ℕ
  rewind_to chain block head ix =
      rebuild names chain head
        (record ix { recent_hashes = keep (λ (e : ℕ × ℕ). not (ltb block e.0)) ix.recent_hashes })

  -- The indexer's part of a poll
  unfoldable pub poll : Chain → ℕ → Indexer → Outcome ℕ
  poll chain head ix = elim (detect_reorg chain ix) [
    | some d ↦ rewind_to chain (or_else d.common_ancestor 0) head ix
    | none ↦ if ltb ix.cursor_block head then sync_to names chain head ix else (ix, some 0)
  ]
