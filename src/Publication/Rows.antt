-- ===== src/Publication/Rows.antt =====
-- What every row of the queue keeps, however the gate and the publisher interleave
-- (services/live-room/src/ports/publication-queue.mjs).
pub mod Marks
pub mod Runs
use tradermarket.Base.{
  ℕ, ◌+◌, ◌≡◌, refl, subst, Bool, true, false, Option, none, some, List, [], ◌∷◌, ◌++◌, arith, All,
  ◌==◌, if◌then◌else◌, Bool-cases, Option-cases, inl, inr, Result, ok, err, find,
}
use tradermarket.Publication.{
  Status, Candidate, Request, Permit, Row, Queue, Mark, marked, new_row, submit, get, update,
  rewritten, transition, transition_if,
}
use tradermarket.Publication.Server.{
  Gate, Verdict, answered, ask, serve_complete, serve, slot_index_of,
}

-- A permit that is written comes with the request that it binds.
abbrev pub Binds : Mark → Type 0
Binds (Mark.permitted_mark p signature q) = q.condition_hash ≡ some p.condition_hash
Binds m = Unit

abbrev pub BindsIf : Option Mark → Type 0
BindsIf none = Unit
BindsIf (some m) = Binds m

abbrev pub WellAt : Status → Row → Type 0
WellAt Status.queued r = (r.permit ≡ none) × (r.request ≡ none)
WellAt Status.awaiting_permit r = (r.permit ≡ none) × (r.signature ≡ none)
WellAt Status.permitted r =
    (p : Permit) × (q : Request) × (signature : ℕ) × (r.permit ≡ some p)
    × (r.request ≡ some q)
    × (r.signature ≡ some signature)
    × (q.condition_hash ≡ some p.condition_hash)
WellAt s r = Unit

-- A permitted row holds a signed permit and the request with the condition hash of that permit; a
-- row that waits for a permit holds none, so that a dead one is never submitted.
abbrev pub IsWell : Row → Type 0
IsWell r = WellAt r.status r

marked-IsWell : (m : Mark) (r : Row) → Binds m → IsWell (marked m r)
unfolding marked
marked-IsWell (Mark.awaiting_permit_mark q restricted document) r b = (refl, refl)
marked-IsWell (Mark.rejected_mark why) r b = tt
marked-IsWell (Mark.permitted_mark p signature q) r b = (p, q, signature, refl, refl, refl, b)
marked-IsWell (Mark.refused_mark why) r b = tt
marked-IsWell (Mark.published_mark market) r b = tt
marked-IsWell (Mark.failed_mark why) r b = tt
marked-IsWell (Mark.reopen_mark why) r b = (refl, refl)

update-IsWell :
    (id : ℕ) (row : Row) (rows : List Row)
    → IsWell row
    → All IsWell rows
    → All IsWell (update id row rows)
update-IsWell id row [] w ws = tt
update-IsWell id row (r ∷ rs) w ws = elim (Bool-cases (r.id == id)) [
  | inl here ↦ rw here (w, update-IsWell id row rs w ws.1)
  | inr there ↦ rw there (ws.0, update-IsWell id row rs w ws.1)
]

rewritten-IsWell :
    (q : Queue) (id : ℕ) (m : Mark) (found : Option Row) {after : Queue}
    → Binds m
    → All IsWell q.rows
    → rewritten q id m found ≡ some after
    → All IsWell after.rows
rewritten-IsWell q id m none b ws h = absurd (cc)
rewritten-IsWell q id m (some current) {after} b ws h =
    let made : record q { rows = update id (marked m current) q.rows } ≡ after = cc in
    subst (λ (t : Queue). All IsWell t.rows) made
      (update-IsWell id (marked m current) q.rows (marked-IsWell m current b) ws)

pub transition_if-IsWell :
    (q : Queue) (id : ℕ) (m : Option Mark) {after : Queue}
    → BindsIf m
    → All IsWell q.rows
    → transition_if q id m ≡ some after
    → All IsWell after.rows
unfolding transition_if transition
transition_if-IsWell q id none {after} b ws h = let same : q ≡ after = cc in rw same at ws
transition_if-IsWell q id (some m) b ws h = rewritten-IsWell q id m (get id q.rows) b ws h

pub submit-IsWell : (q : Queue) (c : Candidate) → All IsWell q.rows → All IsWell (submit q c).rows
unfolding submit
submit-IsWell q c ws = appended q.rows ws
  where
    appended : (rows : List Row) → All IsWell rows → All IsWell (rows ++ new_row q c ∷ [])
    appended [] h = ((refl, refl), tt)
    appended (r ∷ rs) h = (h.0, appended rs h.1)

module _ {S : Type 0} (gate : Gate S) where
  answered-Binds : (q : Request) (a : Result ℕ Verdict) → BindsIf (answered q a)
  answered-Binds q (err e) = tt
  answered-Binds q (ok (Verdict.refusal why)) = tt
  answered-Binds q (ok (Verdict.grant p signature params_hash)) = refl

  ask-Binds :
      (s : S) (r : Row) (now_ms : ℕ) (q : Request) (document : ℕ) (n : Result ℕ ℕ)
      → BindsIf (ask gate s r now_ms q document n).1
  ask-Binds s r now_ms q document (err e) = tt
  ask-Binds s r now_ms q document (ok n) = answered-Binds q _

  serve_complete-Binds :
      (s : S) (r : Row) (now_ms : ℕ) (q : Option Request) (document : Option ℕ)
      → BindsIf (serve_complete gate s r now_ms q document).1
  serve_complete-Binds s r now_ms none document = tt
  serve_complete-Binds s r now_ms (some q) none = tt
  serve_complete-Binds s r now_ms (some q) (some document) =
      ask-Binds s r now_ms q document (slot_index_of gate s r.candidate.slot_index)

  -- A permit that the gate writes down binds the request that is written with it.
  pub serve-Binds : (s : S) (now_ms : ℕ) (r : Row) → BindsIf (serve gate s now_ms r).1
  unfolding serve
  serve-Binds s now_ms r = serve_complete-Binds s r now_ms r.request r.condition_document
