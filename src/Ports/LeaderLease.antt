-- ===== src/Ports/LeaderLease.antt =====
-- services/live-room/src/ports/stores.mjs: `MemoryLeaderLease`, which grants leadership of a room
-- for a time, with a term.
pub mod Fencing
use tradermarket.Base.{
  ℕ, ◌+◌, Bool, true, false, not, ◌&&◌, Option, none, some, List, [], ltb, ◌==◌, if◌then◌else◌,
}
use tradermarket.Base.Dict.{Dict, lookup, insert}

pub record Lease : Type 0 where
  pub holder : ℕ
  pub term : ℕ
  pub expires_at : ℕ

-- The arguments of one call of `tryAcquire`
pub record Attempt : Type 0 where
  pub room : ℕ
  pub holder : ℕ
  pub ttl : ℕ
  pub now : ℕ

abbrev pub is_held : Option Lease → Attempt → Bool
is_held none a = false
is_held (some c) a = not (c.holder == a.holder) && ltb a.now c.expires_at

abbrev pub next_term : Option Lease → ℕ → ℕ
next_term none holder = 1
next_term (some c) holder = c.term + (if c.holder == holder then 0 else 1)

abbrev pub granted : Option Lease → Attempt → Lease
granted current a = record {
  holder = a.holder;
  term = next_term current a.holder;
  expires_at = a.now + a.ttl;
}

abbrev pub acquire_from : Dict Lease → Attempt → Option Lease → Dict Lease × Option Lease
acquire_from leases a current =
    if is_held current a
    then (leases, none)
    else (insert a.room (granted current a) leases, some (granted current a))

-- `tryAcquire`
unfoldable pub try_acquire : Dict Lease → Attempt → Dict Lease × Option Lease
try_acquire leases a = acquire_from leases a (lookup a.room leases)
