-- ===== src/Gate/Action.antt =====
-- Code that reads the chain, writes to the gate's state and to the chain, and may throw
-- (services/live-room/src/gate/authority.mjs).
use tradermarket.Base.{
  ℕ, ◌+◌, Bool, true, false, Option, none, some, [], ◌∷◌, ◌++◌, keep, ◌==◌, not, if◌then◌else◌, ltb,
  or_else, is_some,
}
use tradermarket.Base.Dict.{Dict, lookup, insert}
use tradermarket.Domain.Event.{Event}
use tradermarket.Domain.Conditions.{Condition, Reason}
use tradermarket.Gate.{
  Call, Entry, unevaluable_entry, evaluable_again_entry, Chain, Setting, Durable, Memory, World,
}

-- What was written before a throw stays written.
abbrev pub M : Type 0 → Type 0 → Type 0
M S A = World S → Option A × World S

abbrev pub pure : {S A : Type 0} → A → M S A
pure a w = (some a, w)

abbrev pub and_then : {S A B : Type 0} → Option A × World S → (A → M S B) → Option B × World S
and_then (none, w) f = (none, w)
and_then (some a, w) f = f a w

infixl 5 ◌>>=◌ ◌>>◌
unfoldable pub ◌>>=◌ : {S A B : Type 0} → M S A → (A → M S B) → M S B
◌>>=◌ m f w = and_then (m w) f

abbrev pub ◌>>◌ : {S B : Type 0} → M S (Unit {0}) → M S B → M S B
m >> k = m >>= λ u. k

-- A value that may be missing, which throws
unfoldable pub need : {S A : Type 0} → Option A → M S A
need o w = (o, w)

-- A read of the chain
unfoldable pub ask : {S A : Type 0} → (S → Option A) → M S A
ask f w = (f w.chain, w)

unfoldable pub get_memory : {S : Type 0} → M S Memory
get_memory w = (some w.memory, w)

-- What the gate writes to its own state
unfoldable pub write : {S : Type 0} → (Memory → Memory) → (Durable → Durable) → M S (Unit {0})
write f g w = (
  some tt,
  record w { memory = f w.memory; state = elim (w.state) [ none ↦ none | some d ↦ some (g d) ] },
)

abbrev pub sent_to : {S : Type 0} → World S → Call → Option S → Option (Unit {0}) × World S
sent_to w c none = (none, w)
sent_to w c (some s) = (some tt, record w { chain = s; sent = (w.chain, c) ∷ w.sent })

-- A call of the room
unfoldable pub send : {S : Type 0} → Chain S → Call → M S (Unit {0})
send chain c w = sent_to w c (chain.send w.chain c)

-- `_log`
abbrev pub log : {S : Type 0} → Entry → M S (Unit {0})
log e w =
    write (λ (m : Memory). record m { audit = m.audit ++ e ∷ [] })
      (λ (d : Durable). record d { saved_audit = some (w.memory.audit ++ e ∷ []) }) w

-- `_load`, for one key: a gate without a store has the fallback, and so has one whose store lacks
-- the key; `none` is a read that is rejected.
abbrev pub load : {S A : Type 0} → Chain S → ℕ → (Durable → Option A) → A → World S → Option A
load chain key field fallback w = elim (w.state) [
  | none ↦ some fallback
  | some d ↦ if chain.answers w.chain key then some (or_else (field d) fallback) else none
]

abbrev pub put_loaded : {S A : Type 0} → (A → Memory → Memory) → Option A → M S (Unit {0})
put_loaded f none w = (none, w)
put_loaded f (some a) w = (some tt, record w { memory = f a w.memory })

-- `this.audit = await this._load("audit", [])`, and likewise the other keys
abbrev pub load_audit : {S : Type 0} → Chain S → M S (Unit {0})
load_audit chain w =
    put_loaded (λ a (m : Memory). record m { audit = a })
      (load chain 0 (λ (d : Durable). d.saved_audit) [] w) w

abbrev pub load_nonce : {S : Type 0} → Chain S → M S (Unit {0})
load_nonce chain w =
    put_loaded (λ n (m : Memory). record m { next_nonce = n })
      (load chain 1 (λ (d : Durable). d.saved_nonce) 1 w) w

abbrev pub load_unevaluable : {S : Type 0} → Chain S → M S (Unit {0})
load_unevaluable chain w =
    put_loaded (λ u (m : Memory). record m { unevaluable_since = u })
      (load chain 2 (λ (d : Durable). d.saved_unevaluable) [] w) w

-- `this._loaded = true`
abbrev pub mark_loaded : {S : Type 0} → World S → World S
mark_loaded w = record w { memory = record w.memory { loaded = true } }

-- The rest of `_ensureLoaded`: a gate stays marked as loaded where a read is rejected.
abbrev pub load_all : {S : Type 0} → Chain S → M S (Unit {0})
load_all chain w =
    and_then (load_audit chain (mark_loaded w))
      λ u. λ v. and_then (load_nonce chain v) λ u. load_unevaluable chain

-- `_ensureLoaded`
unfoldable pub ensure_loaded : {S : Type 0} → Chain S → M S (Unit {0})
ensure_loaded chain w = if w.memory.loaded then (some tt, w) else load_all chain w

abbrev pub when : {S : Type 0} → Bool → M S (Unit {0}) → M S (Unit {0})
when true m = m
when false m = pure tt

-- `Map.delete`
abbrev pub without : {A : Type 0} → ℕ → Dict A → Dict A
without k d = keep (λ e. not (e.0 == k)) d

abbrev pub set_unevaluable : {S : Type 0} → Dict ℕ → M S (Unit {0})
set_unevaluable d =
    write (λ (m : Memory). record m { unevaluable_since = d })
      (λ (s : Durable). record s { saved_unevaluable = some d })

abbrev pub marked_at : {S : Type 0} → ℕ → ℕ → Reason → Dict ℕ → Option ℕ → M S ℕ
marked_at market now_ms why d (some since) = pure since
marked_at market now_ms why d none = do
  set_unevaluable (insert market now_ms d)
  log (unevaluable_entry market why now_ms)
  pure now_ms

-- `_markUnevaluable`: since when
unfoldable pub mark_unevaluable : {S : Type 0} → ℕ → ℕ → Reason → M S ℕ
mark_unevaluable market now_ms why = get_memory >>= λ m.
    marked_at market now_ms why m.unevaluable_since (lookup market m.unevaluable_since)

-- `_clearUnevaluable`
unfoldable pub clear_unevaluable : {S : Type 0} → ℕ → M S (Unit {0})
clear_unevaluable market = get_memory >>= λ m.
    when (is_some (lookup market m.unevaluable_since))
      (set_unevaluable (without market m.unevaluable_since) >> log (evaluable_again_entry market))

-- `_tipSeq`
abbrev pub tip_seq : Option Event → ℕ
tip_seq none = 0
tip_seq (some e) = e.seq

-- `conditionFor`
abbrev pub condition_for : {S : Type 0} → Setting → ℕ → M S Condition
condition_for setting market = need (lookup market setting.conditions)

module _ {S : Type 0} (chain : Chain S) where
  -- `_roomSequence`
  abbrev pub room_sequence : ℕ → M S ℕ
  room_sequence candidate = do
    watermark ← ask chain.last_observed_sequence
    pure (if ltb watermark candidate then candidate else watermark)

  -- `_closingSequence`
  abbrev pub closing_sequence : ℕ → M S ℕ
  closing_sequence decisive = do
    watermark ← ask chain.last_observed_sequence
    pure (if ltb watermark decisive then decisive else watermark + 1)
