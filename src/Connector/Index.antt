-- ===== src/Connector/Index.antt =====
-- The index of the latest event of each fact (services/live-room/src/connector/connector.mjs).
use tradermarket.Base.{ℕ, ◌≡◌, refl, true, some, List, [], ◌∷◌, ◌++◌, arith, if◌then◌else◌}
use tradermarket.Domain.Event.{Event, dedupe_key, key_eq}
use tradermarket.Connector.{LatestIndex, lookup_key, insert_key, index_from}

pub lookup_key-insert_key :
    (j k : ℕ × ℕ) (e : Event) (m : LatestIndex)
    → lookup_key j (insert_key k e m) ≡ (if key_eq k j then some e else lookup_key j m)
lookup_key-insert_key j k e [] = refl
lookup_key-insert_key j k e ((i, x) ∷ m) = ground (arith, lookup_key-insert_key j k e m)

pub index_from-append_one :
    (m : LatestIndex) (es : List Event) (e : Event)
    → index_from m (es ++ e ∷ []) ≡ insert_key (dedupe_key e) e (index_from m es)
index_from-append_one m [] e = refl
index_from-append_one m (x ∷ es) e = index_from-append_one (insert_key (dedupe_key x) x m) es e

pub key_eq_refl : (k : ℕ × ℕ) → key_eq k k ≡ true
key_eq_refl k = ground arith

pub key_eq_sound : (j k : ℕ × ℕ) → key_eq j k ≡ true → (j.0 ≡ k.0) × (j.1 ≡ k.1)
key_eq_sound j k h = ground arith
