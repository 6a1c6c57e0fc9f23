-- ===== src/Ports/LeaderLease/Fencing.antt =====
-- A term names one leader (services/live-room/src/ports/stores.mjs, `MemoryLeaderLease`).
use tradermarket.Base.{
  ℕ, ◌≡◌, ◌≤◌, refl, sym, subst, ==_refl, Option, none, some, List, [], ◌∷◌, arith, All, ◌==◌,
  Bool-cases, inl, inr, ==_iff,
}
use tradermarket.Base.Dict.{Dict, lookup, insert, lookup-insert}
use tradermarket.Ports.LeaderLease.{Lease, Attempt, is_held, granted, try_acquire}

-- What has been granted, the latest first: the room and the lease
abbrev pub Grants : Type 0
Grants = List (ℕ × Lease)

abbrev pub with_grant : ℕ → Option Lease → Grants → Grants
with_grant room none h = h
with_grant room (some l) h = (room, l) ∷ h

-- The leases and the grants that attempts lead to, at any times and in any order.
pub data Reached : Dict Lease → Grants → Type 0 where
  nothing : Reached [] []
  tries :
      {leases : Dict Lease} {h : Grants} (a : Attempt)
      → Reached leases h
      → Reached (try_acquire leases a).0 (with_grant a.room (try_acquire leases a).1 h)

-- In a room, a grant of the same term went to the same holder.
abbrev pub SameTerm : ℕ × Lease → ℕ × Lease → Type 0
SameTerm g x = x.0 ≡ g.0 → x.1.term ≡ g.1.term → x.1.holder ≡ g.1.holder

abbrev pub IsFenced : Grants → Type 0
IsFenced [] = Unit
IsFenced (g ∷ h) = All (SameTerm g) h × IsFenced h

-- The lease that stands is at least as new as a grant.
record Behind (leases : Dict Lease) (g : ℕ × Lease) : Type 0 where
  current : Lease
  found : lookup g.0 leases ≡ some current
  not_newer : g.1.term ≤ current.term
  same_holder : g.1.term ≡ current.term → g.1.holder ≡ current.holder

-- What a grant in a room does to an earlier one there.
overtaken :
    (leases : Dict Lease) (a : Attempt) (x : Lease)
    → Behind leases (a.room, x)
    → let l = granted (lookup a.room leases) a in
      (x.term ≤ l.term) × (x.term ≡ l.term → x.holder ≡ l.holder)
overtaken leases a x b = elim (Bool-cases (b.current.holder == a.holder)) [
  | inl same ↦
      rw (b.found, same)
        (
          omega (arith, b.not_newer),
          λ e.
              let own = (==_iff b.current.holder a.holder).0 same in
              let held = b.same_holder (omega arith) in cc,
        )
  | inr other ↦
      rw (b.found, other) (omega (arith, b.not_newer), λ e. absurd (omega (arith, b.not_newer)))
]

Behind-granted :
    (leases : Dict Lease) (a : Attempt) (h : Grants)
    → All (Behind leases) h
    → All (Behind (insert a.room (granted (lookup a.room leases) a) leases)) h
Behind-granted leases a [] b = tt
Behind-granted leases a ((room, x) ∷ h) (b, bs) = (now, Behind-granted leases a h bs)
  where
    l : Lease
    l = granted (lookup a.room leases) a

    now : Behind (insert a.room l leases) (room, x)
    now = elim (Bool-cases (a.room == room)) [
      | inl here ↦
          let e = (==_iff a.room room).0 here in
          let over = overtaken leases a x (subst (λ (n : ℕ). Behind leases (n, x)) (sym e) b) in
          record {
            current = l;
            found = rw (lookup-insert a.room room l leases, here) refl;
            not_newer = over.0;
            same_holder = over.1;
          }
      | inr elsewhere ↦ record {
        current = b.current;
        found = rw (lookup-insert a.room room l leases, elsewhere) b.found;
        not_newer = b.not_newer;
        same_holder = b.same_holder;
      }
    ]

SameTerm-granted :
    (leases : Dict Lease) (a : Attempt) (h : Grants)
    → All (Behind leases) h
    → All (SameTerm (a.room, granted (lookup a.room leases) a)) h
SameTerm-granted leases a [] b = tt
SameTerm-granted leases a ((room, x) ∷ h) (b, bs) = (
  λ here. (overtaken leases a x (subst (λ (n : ℕ). Behind leases (n, x)) here b)).1,
  SameTerm-granted leases a h bs,
)

Reached-IsFenced :
    {leases : Dict Lease} {h : Grants} → Reached leases h → All (Behind leases) h × IsFenced h
unfolding try_acquire
Reached-IsFenced nothing = (tt, tt)
Reached-IsFenced (tries {leases} {h} a run) =
    let (behind, fenced) = Reached-IsFenced run in
    elim (Bool-cases (is_held (lookup a.room leases) a)) [
      | inl held ↦ rw held (behind, fenced)
      | inr free ↦ rw free (
        (
          record {
            current = granted (lookup a.room leases) a;
            found =
                rw
                  (
                    lookup-insert a.room a.room (granted (lookup a.room leases) a) leases,
                    ==_refl a.room,
                  )
                  refl;
            not_newer = omega arith;
            same_holder = λ e. refl;
          },
          Behind-granted leases a h behind,
        ),
        (SameTerm-granted leases a h behind, fenced),
      )
    ]

-- Whoever tries to lead a room, at whatever times: two leases that were ever granted in one room
-- with one term went to one holder.
pub try_acquire-IsFenced : {leases : Dict Lease} {h : Grants} → Reached leases h → IsFenced h
try_acquire-IsFenced run = (Reached-IsFenced run).1
