-- ===== src/Publication/Present.antt =====
-- No tick of the gate or of the publisher throws: the rows that it acts on are there
-- (services/live-room/src/gate/permit-server.mjs, services/live-room/src/publisher/queue.mjs).
use tradermarket.Base.{
  ℕ, zero, suc, ◌≡◌, ◌≢◌, refl, Bool, Option, none, some, List, [], ◌∷◌, arith, All, ◌==◌,
  Bool-cases, Option-cases, inl, inr, take, keep,
}
use tradermarket.Publication.{
  Row, Queue, Mark, marked, get, update, transition, transition_if, by_status, awaiting_permit,
}
use tradermarket.Publication.Server.{Gate, serve, serve_all, serve_tick}

abbrev IsPresent : List Row → Row → Type 0
IsPresent rows r = get r.id rows ≢ none

-- What was there is still there.
abbrev Persists : List Row → List Row → Type 0
Persists before after = (j : ℕ) → get j before ≢ none → get j after ≢ none

marked-id : (m : Mark) (r : Row) → (marked m r).id ≡ r.id
unfolding marked
marked-id (Mark.awaiting_permit_mark q restricted document) r = refl
marked-id (Mark.rejected_mark why) r = refl
marked-id (Mark.permitted_mark p signature q) r = refl
marked-id (Mark.refused_mark why) r = refl
marked-id (Mark.published_mark market) r = refl
marked-id (Mark.failed_mark why) r = refl
marked-id (Mark.reopen_mark why) r = refl

get-id : (id : ℕ) (rows : List Row) {r : Row} → get id rows ≡ some r → r.id ≡ id
get-id id [] h = absurd (cc)
get-id id (x ∷ rows) h = elim (Bool-cases (x.id == id)) [
  | inl here ↦ ground arith
  | inr there ↦ get-id id rows (rw there at h)
]

get-head : (j : ℕ) (x : Row) (rs : List Row) → get j rs ≢ none → get j (x ∷ rs) ≢ none
get-head j x rs h = ground arith

update-Persists :
    (id : ℕ) (row : Row) (rows : List Row) → row.id ≡ id → Persists rows (update id row rows)
update-Persists id row [] own j h = h
update-Persists id row (r ∷ rs) own j h = elim (Bool-cases (r.id == id)) [
  | inl here ↦ elim (Bool-cases (r.id == j)) [
    | inl found ↦ ground arith
    | inr later ↦
        rw here
          (get-head j row (update id row rs) (update-Persists id row rs own j (rw later at h)))
  ]
  | inr there ↦ elim (Bool-cases (r.id == j)) [
    | inl found ↦ rw (there, found) (λ e. cc)
    | inr later ↦ rw (there, later) (update-Persists id row rs own j (rw later at h))
  ]
]

keep-IsPresent : (p : Row → Bool) (rows : List Row) → All (IsPresent rows) (keep p rows)
keep-IsPresent p [] = tt
keep-IsPresent p (x ∷ rows) = elim (Bool-cases (p x)) [
  | inl kept ↦ rw kept (first, weaker (keep p rows) (keep-IsPresent p rows))
  | inr dropped ↦ rw dropped (weaker (keep p rows) (keep-IsPresent p rows))
]
  where
    first : IsPresent (x ∷ rows) x
    first = ground arith

    weaker : (rs : List Row) → All (IsPresent rows) rs → All (IsPresent (x ∷ rows)) rs
    weaker [] h = tt
    weaker (r ∷ rs) h = (get-head r.id x rows h.0, weaker rs h.1)

take-IsPresent :
    (n : ℕ) (rows rs : List Row) → All (IsPresent rows) rs → All (IsPresent rows) (take n rs)
take-IsPresent zero rows rs h = tt
take-IsPresent (suc n) rows [] h = tt
take-IsPresent (suc n) rows (r ∷ rs) h = (h.0, take-IsPresent n rows rs h.1)

Persists-IsPresent :
    (before after rs : List Row)
    → Persists before after
    → All (IsPresent before) rs
    → All (IsPresent after) rs
Persists-IsPresent before after [] k h = tt
Persists-IsPresent before after (r ∷ rs) k h =
    (k r.id h.0, Persists-IsPresent before after rs k h.1)

-- A run that comes to an end, and loses no row.
abbrev Ends : Queue → Option Queue → Type 0
Ends q result = (after : Queue) × (result ≡ some after) × Persists q.rows after.rows

transition-Ends :
    (q : Queue) (id : ℕ) (m : Mark) → get id q.rows ≢ none → Ends q (transition q id m)
unfolding transition
transition-Ends q id m h = elim (Option-cases (get id q.rows)) [
  | inl absent ↦ absurd (h absent)
  | inr (current, e) ↦
      let own : (marked m current).id ≡ id =
        (let kept = marked-id m current in let found = get-id id q.rows e in cc) in
      (
        record q { rows = update id (marked m current) q.rows },
        rw e,
        update-Persists id (marked m current) q.rows own,
      )
]

transition_if-Ends :
    (q : Queue) (id : ℕ) (m : Option Mark) → get id q.rows ≢ none → Ends q (transition_if q id m)
unfolding transition_if
transition_if-Ends q id none h = (q, refl, λ j k. k)
transition_if-Ends q id (some m) h = transition-Ends q id m h

module _ {S : Type 0} (gate : Gate S) where
  serve_all-Ends :
      (s : S) (now_ms : ℕ) (q : Queue) (rs : List Row)
      → All (IsPresent q.rows) rs
      → (s' : S) × (after : Queue) × (serve_all gate s now_ms q rs ≡ some (s', after))
        × Persists q.rows after.rows
  unfolding serve_all
  serve_all-Ends s now_ms q [] h = (s, q, refl, λ j k. k)
  serve_all-Ends s now_ms q (r ∷ rs) h =
      let (next, e, kept) = transition_if-Ends q r.id (serve gate s now_ms r).1 h.0 in
      let (s', after, done, kept') =
        serve_all-Ends (serve gate s now_ms r).0 now_ms next rs
          (Persists-IsPresent q.rows next.rows rs kept h.1) in
      (s', after, rw (e, serve_all) done, λ j k. kept' j (kept j k))

  -- A tick of the gate never throws, and every row is still there after it.
  pub serve_tick-Ends :
      (s : S) (max_per_tick now_ms : ℕ) (q : Queue)
      → (s' : S) × (after : Queue) × (serve_tick gate s max_per_tick now_ms q ≡ some (s', after))
        × ((j : ℕ) → get j q.rows ≢ none → get j after.rows ≢ none)
  unfolding serve_tick
  serve_tick-Ends s max_per_tick now_ms q =
      serve_all-Ends s now_ms q (take max_per_tick (by_status awaiting_permit q))
        (take-IsPresent max_per_tick q.rows (by_status awaiting_permit q) (keep-IsPresent _ q.rows))
