-- ===== src/Gate/Registry.antt =====
-- services/live-room/src/gate/condition-registry.mjs: the documents that the gate evaluates, from the
-- publication queue, against what the chain binds. Markets are numbers, the same for both spellings
-- of an address; a reason is left out.
use tradermarket.Base.{
  ℕ, Bool, true, false, Option, none, some, List, [], ◌∷◌, ◌++◌, All, ◌≡◌, ◌⊎◌, ◌==◌, if◌then◌else◌,
}
use tradermarket.Base.Dict.{Dict, lookup, insert}
use tradermarket.Domain.Conditions.{Condition}
use tradermarket.Domain.Conditions.Metrics.{other_template}

-- A published record of the queue: the market and the document that it has, if any
abbrev pub PublishedRow : Type 0
PublishedRow = Option ℕ × Option Condition

-- The map of the published documents
abbrev pub with_row : PublishedRow → Dict Condition → Dict Condition
with_row (some market, some c) m = insert market c m
with_row (some market, none) m = m
with_row (none, c) m = m

abbrev pub documents_of : List PublishedRow → Dict Condition → Dict Condition
documents_of [] m = m
documents_of (r ∷ rs) m = documents_of rs (with_row r m)

-- What the chain says of a market's binding
pub data Binding : Type 0 where
  bound_to : ℕ → Binding
  unbound unreadable : Binding

-- An open slot, with the hash that some ports give with it
pub record OpenSlot : Type 0 where
  pub market : ℕ
  pub condition_hash : Option ℕ

-- What the chain answers: `condition_hash_of` is missing on some ports, and may throw.
pub record Bindings : Type 0 where
  pub condition_hash_of : Option (ℕ → Option (Option ℕ))
  pub headline_market : Option (Option (Option ℕ))

abbrev pub read_binding : Option (Option ℕ) → Binding
read_binding none = unreadable
read_binding (some none) = unbound
read_binding (some (some h)) = bound_to h

abbrev pub binding_of : Bindings → OpenSlot → Binding
binding_of chain slot = elim (slot.condition_hash) [
  | some h ↦ bound_to h
  | none ↦ elim (chain.condition_hash_of) [ none ↦ unbound | some f ↦ read_binding (f slot.market) ]
]

-- The gate's conditions, with what was loaded and what could not be verified
pub record Synced : Type 0 where
  pub conditions : Dict Condition
  pub loaded : List ℕ
  pub unverified : List ℕ

module _ (condition_hash : Condition → ℕ) (unverifiable : ℕ) where
  -- `unverifiableCondition`
  abbrev pub unverifiable_condition : Condition
  unverifiable_condition = other_template unverifiable

  abbrev pub is_bound : Condition → Binding → Bool
  is_bound c unbound = true
  is_bound c unreadable = false
  is_bound c (bound_to h) = condition_hash c == h

  abbrev pub reject : ℕ → Synced → Synced
  reject market s = record s {
    conditions = insert market unverifiable_condition s.conditions;
    unverified = s.unverified ++ market ∷ [];
  }

  abbrev pub accept : ℕ → Condition → Synced → Synced
  accept market c s = record s {
    conditions = insert market c s.conditions;
    loaded = s.loaded ++ market ∷ [];
  }

  abbrev pub sync_document : Bindings → OpenSlot → Option Condition → Synced → Synced
  sync_document chain slot none s = reject slot.market s
  sync_document chain slot (some c) s =
      if is_bound c (binding_of chain slot) then accept slot.market c s else reject slot.market s

  -- The loop over the open slots
  abbrev pub sync_slots : Bindings → Dict Condition → List OpenSlot → Synced → Synced
  sync_slots chain documents [] s = s
  sync_slots chain documents (slot ∷ slots) s =
      sync_slots chain documents slots (sync_document chain slot (lookup slot.market documents) s)

  -- `gate.config.headlineMarket` after the call
  abbrev pub headline_after : Option ℕ → Option (Option (Option ℕ)) → Option ℕ
  headline_after old (some (some (some market))) = some market
  headline_after old (some (some none)) = old
  headline_after old (some none) = old
  headline_after old none = old

  -- `syncConditions`
  unfoldable pub sync_conditions :
      Bindings → List PublishedRow → List OpenSlot → Dict Condition → Option ℕ → Synced × Option ℕ
  sync_conditions chain rows slots conditions headline = (
    sync_slots chain (documents_of rows []) slots
        (record { conditions = conditions; loaded = []; unverified = [] }),
    headline_after headline chain.headline_market,
  )

  -- A market's condition is the unverifiable one, or one that its binding, as `is_bound` reads it,
  -- allows.
  abbrev pub IsVerified : Bindings → OpenSlot → Dict Condition → Type 0
  IsVerified chain slot m =
      (lookup slot.market m ≡ some unverifiable_condition)
      ⊎ ((c : Condition) × ((lookup slot.market m ≡ some c)
            × (is_bound c (binding_of chain slot) ≡ true)))

  -- No two slots have one market.
  abbrev pub AreApart : List OpenSlot → Type 0
  AreApart [] = Unit
  AreApart (slot ∷ slots) =
      All (λ (t : OpenSlot). (t.market == slot.market) ≡ false) slots × AreApart slots
