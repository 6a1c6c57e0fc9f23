-- ===== src/Ports/EventStore/Rooms.antt =====
-- Rooms that share one store (services/live-room/src/ports/stores.mjs, `MemoryEventStore`).
use tradermarket.Base.{
  ℕ, ◌+◌, ◌≡◌, ◌≢◌, refl, Bool, Option, none, some, List, [], ◌∷◌, ◌++◌, arith, append-nil, last?,
  keep, ok, Bool-cases, inl, inr,
}
use tradermarket.Domain.Event.{Event}
use tradermarket.Ports.EventStore.{
  EventStore, in_room, visible, tip, next_seq, expected_seq, append, append_to, normalized,
  for_room,
}

pub keep-append {ℓ} :
    {A : Type ℓ} (p : A → Bool) (xs ys : List A) → keep p (xs ++ ys) ≡ keep p xs ++ keep p ys
keep-append p [] ys = refl
keep-append p (x ∷ xs) ys = ground (arith, keep-append p xs ys)

-- From `n` on, the sequence numbers go up by one.
abbrev pub Counts : ℕ → List Event → Type 0
Counts n [] = Unit
Counts n (e ∷ es) = (e.seq ≡ n + 1) × Counts (n + 1) es

-- In every room the events are numbered 1, 2, 3, … with no gap.
abbrev pub IsGapFree : EventStore → Type 0
IsGapFree s = (r : ℕ) → Counts 0 (keep (in_room r) s.events)

-- The number that follows a counted list.
next_after : ℕ → List Event → ℕ
next_after n [] = n + 1
next_after n (e ∷ es) = next_after (n + 1) es

Counts-append_one :
    (n : ℕ) (es : List Event) (e : Event)
    → Counts n es
    → e.seq ≡ next_after n es
    → Counts n (es ++ e ∷ [])
unfolding next_after
Counts-append_one n [] e c h = (h, tt)
Counts-append_one n (x ∷ es) e (c, cs) h = (c, Counts-append_one (n + 1) es e cs h)

next_seq-Counts :
    (n : ℕ) (e : Event) (es : List Event)
    → Counts n (e ∷ es)
    → next_seq (last? (e ∷ es)) ≡ next_after n (e ∷ es)
unfolding next_after
next_seq-Counts n e [] h = omega (arith, h.0)
next_seq-Counts n e (f ∷ es) (h, hs) = next_seq-Counts (n + 1) f es hs

expected-Counts : (es : List Event) → Counts 0 es → next_seq (last? es) ≡ next_after 0 es
unfolding next_after
expected-Counts [] h = refl
expected-Counts (e ∷ es) h = next_seq-Counts 0 e es h

append_in-IsGapFree :
    (r : ℕ) (events : List Event) (e : Event)
    → ((q : ℕ) → Counts 0 (keep (in_room q) events))
    → e.room_id ≡ r
    → e.seq ≡ expected_seq r events
    → (q : ℕ) → Counts 0 (keep (in_room q) (events ++ e ∷ []))
append_in-IsGapFree r events e h room seq q =
    rw (keep-append (in_room q) events (e ∷ [])) (elim (Bool-cases (in_room q e)) [
      | inl here ↦ rw here (
          Counts-append_one 0 (keep (in_room q) events) e (h q)
            (ground (arith, expected-Counts (keep (in_room q) events) (h q))))
      | inr elsewhere ↦ rw (elsewhere, append-nil) (h q)
    ])

-- What a successful append has done.
append_inv :
    (o : Option ℕ) (s : EventStore) (e : Event) {t : EventStore}
    → append_to o s e ≡ ok t
    → ((normalized o e).seq ≡ expected_seq (normalized o e).room_id s.events)
      × (t ≡ record s { events = s.events ++ normalized o e ∷ [] })
unfolding append_to
append_inv none s e h = ground arith
append_inv (some r) s e h = ground arith

-- Whatever is appended, through the store or through the view of one room, every room stays
-- numbered from 1 with no gap.
pub append-IsGapFree :
    (s : EventStore) (e : Event) {t : EventStore} → IsGapFree s → append s e ≡ ok t → IsGapFree t
unfolding append
append-IsGapFree s e h done q =
    let (seq, made) = append_inv s.room s e done in
    rw made (
      append_in-IsGapFree (normalized s.room e).room_id s.events (normalized s.room e) h refl seq q)

normalized-in_room :
    (r : ℕ) (s : EventStore) (e : Event) {t : EventStore}
    → append_to (some r) s e ≡ ok t
    → (normalized (some r) e).room_id ≡ r
unfolding append_to
normalized-in_room r s e h = ground arith

-- An event that is appended through the view of a room shows at the end of that room's log and
-- changes the log of no other room.
pub append-for_room :
    (s : EventStore) (r : ℕ) (e : Event) {t : EventStore}
    → append (for_room s r) e ≡ ok t
    → (visible t ≡ visible (for_room s r) ++ normalized (some r) e ∷ [])
      × ((q : ℕ) → q ≢ r → visible (for_room t q) ≡ visible (for_room s q))
unfolding append
append-for_room s r e {t} done = (here, elsewhere)
  where
    row : Event
    row = normalized (some r) e

    made : t ≡ record (for_room s r) { events = s.events ++ row ∷ [] }
    made = (append_inv (some r) (for_room s r) e done).1

    room : row.room_id ≡ r
    room = normalized-in_room r (for_room s r) e done

    kept : keep (in_room r) (row ∷ []) ≡ row ∷ []
    kept = ground arith

    here : visible t ≡ visible (for_room s r) ++ row ∷ []
    here = rw made (rw (keep-append (in_room r) s.events (row ∷ [])) (rw kept))

    elsewhere : (q : ℕ) → q ≢ r → visible (for_room t q) ≡ visible (for_room s q)
    elsewhere q ne =
        let dropped : keep (in_room q) (row ∷ []) ≡ [] = ground arith in
        rw made (rw (keep-append (in_room q) s.events (row ∷ []), dropped) (append-nil _))

-- Through the view of its own room an event with the next sequence number is always taken.
pub append-next :
    (s : EventStore) (r : ℕ) (e : Event)
    → s.room ≡ some r
    → e.room_id ≡ r
    → e.seq ≡ next_seq (tip s)
    → append s e ≡ ok (record s { events = s.events ++ e ∷ [] })
unfolding append append_to
append-next s r e view room seq = ground arith

pub visible-append :
    (s : EventStore) (r : ℕ) (e : Event)
    → s.room ≡ some r
    → e.room_id ≡ r
    → visible (record s { events = s.events ++ e ∷ [] }) ≡ visible s ++ e ∷ []
visible-append s r e view room = ground (arith, keep-append (in_room r) s.events (e ∷ []))
