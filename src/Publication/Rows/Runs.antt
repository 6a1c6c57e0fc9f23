-- ===== src/Publication/Rows/Runs.antt =====
-- Runs of the gate and the publisher on one queue, one transition at a time
-- (services/live-room/src/gate/permit-server.mjs, services/live-room/src/publisher/queue.mjs).
use tradermarket.Base.{
  ℕ, ◌+◌, ◌≡◌, some, List, [], ◌∷◌, All, ◌==◌, Bool-cases, Option-cases, inl, inr, length, take,
}
use tradermarket.Publication.{
  Candidate, Row, Queue, Mark, submit, by_status, transition, transition_if, awaiting_permit,
  permitted, queued,
}
use tradermarket.Publication.Server.{Gate, serve, serve_all, serve_tick}
use tradermarket.Publication.Publisher.{
  Catalog, Chain, prepare, publish, reconciled, reconcile_all, publish_all, prepare_next,
  publisher_tick,
}
use tradermarket.Publication.Rows.{Binds, IsWell, serve-Binds, submit-IsWell, transition_if-IsWell}
use tradermarket.Publication.Rows.Marks.{prepare-Binds, reconciled-Binds, publish-Binds}

module _ {S T : Type 0} (gate : Gate S) (catalog : Catalog) (chain : Chain T) where
  -- One transition of one process, on a row as it was read, which may be out of date by now.
  pub data Step : Queue → Queue → Type 0 where
    submits : {q : Queue} (c : Candidate) → Step q (submit q c)
    serves :
        {q after : Queue} (s : S) (now_ms : ℕ) (r : Row)
        → transition_if q r.id (serve gate s now_ms r).1 ≡ some after
        → Step q after
    reconciles :
        {q after : Queue} (s : T) (r : Row)
        → transition_if q r.id (reconciled catalog chain s r) ≡ some after
        → Step q after
    publishes :
        {q after : Queue} (s : T) (now_ms : ℕ) (r : Row)
        → transition_if q r.id (publish catalog chain s now_ms r).1 ≡ some after
        → Step q after
    prepares :
        {q after : Queue} (r : Row)
        → transition q r.id (prepare catalog r) ≡ some after
        → Step q after

  pub data Steps : Queue → Queue → Type 0 where
    stays : {q : Queue} → Steps q q
    goes : {q middle after : Queue} → Step q middle → Steps middle after → Steps q after

  pub Steps-trans : {p q r : Queue} → Steps p q → Steps q r → Steps p r
  Steps-trans stays more = more
  Steps-trans (goes one rest) more = goes one (Steps-trans rest more)

  transition-IsWell :
      (q : Queue) (id : ℕ) (m : Mark) {after : Queue}
      → Binds m
      → All IsWell q.rows
      → transition q id m ≡ some after
      → All IsWell after.rows
  unfolding transition_if
  transition-IsWell q id m b ws h = transition_if-IsWell q id (some m) b ws h

  Step-IsWell : {q after : Queue} → Step q after → All IsWell q.rows → All IsWell after.rows
  Step-IsWell {q} (submits c) ws = submit-IsWell q c ws
  Step-IsWell {q} (serves s now_ms r h) ws =
      transition_if-IsWell q r.id (serve gate s now_ms r).1 (serve-Binds gate s now_ms r) ws h
  Step-IsWell {q} (reconciles s r h) ws =
      transition_if-IsWell q r.id (reconciled catalog chain s r)
        (reconciled-Binds catalog chain s r) ws h
  Step-IsWell {q} (publishes s now_ms r h) ws =
      transition_if-IsWell q r.id (publish catalog chain s now_ms r).1
        (publish-Binds catalog chain s now_ms r) ws h
  Step-IsWell {q} (prepares r h) ws =
      transition-IsWell q r.id (prepare catalog r) (prepare-Binds catalog chain r) ws h

  -- From a queue where it holds, as it does of the empty one, and however submissions, the gate
  -- and the publisher interleave, on rows however old: every permitted row holds a signed permit
  -- and a request with the condition hash of that permit, a row that waits for a permit holds no
  -- permit and no signature, and a queued row no permit and no request.
  pub Steps-IsWell : {q after : Queue} → Steps q after → All IsWell q.rows → All IsWell after.rows
  Steps-IsWell stays ws = ws
  Steps-IsWell (goes one rest) ws = Steps-IsWell rest (Step-IsWell one ws)

  serve_all-Steps :
      (s : S) (now_ms : ℕ) (q : Queue) (rs : List Row) {s' : S} {after : Queue}
      → serve_all gate s now_ms q rs ≡ some (s', after)
      → Steps q after
  unfolding serve_all
  serve_all-Steps s now_ms q [] h = let same : q ≡ _ = cc in rw same stays
  serve_all-Steps s now_ms q (r ∷ rs) h =
      elim (Option-cases (transition_if q r.id (serve gate s now_ms r).1)) [
        | inl thrown ↦ absurd (let wrong = rw (thrown, serve_all) at h in cc)
        | inr (next, e) ↦
            goes (serves s now_ms r e)
              (serve_all-Steps (serve gate s now_ms r).0 now_ms next rs (rw (e, serve_all) at h))
      ]

  -- A tick of the gate is a run of single transitions.
  pub serve_tick-Steps :
      (s : S) (max_per_tick now_ms : ℕ) (q : Queue) {s' : S} {after : Queue}
      → serve_tick gate s max_per_tick now_ms q ≡ some (s', after)
      → Steps q after
  unfolding serve_tick
  serve_tick-Steps s max_per_tick now_ms q h =
      serve_all-Steps s now_ms q (take max_per_tick (by_status awaiting_permit q)) h

  reconcile_all-Steps :
      (s : T) (q : Queue) (rs : List Row) {after : Queue}
      → reconcile_all catalog chain s q rs ≡ some after
      → Steps q after
  unfolding reconcile_all
  reconcile_all-Steps s q [] h = let same : q ≡ _ = cc in rw same stays
  reconcile_all-Steps s q (r ∷ rs) h =
      elim (Option-cases (transition_if q r.id (reconciled catalog chain s r))) [
        | inl thrown ↦ absurd (let wrong = rw (thrown, reconcile_all) at h in cc)
        | inr (next, e) ↦
            goes (reconciles s r e) (reconcile_all-Steps s next rs (rw (e, reconcile_all) at h))
      ]

  publish_all-Steps :
      (s : T) (now_ms : ℕ) (q : Queue) (rs : List Row) {s' : T} {after : Queue}
      → publish_all catalog chain s now_ms q rs ≡ some (s', after)
      → Steps q after
  unfolding publish_all
  publish_all-Steps s now_ms q [] h = let same : q ≡ _ = cc in rw same stays
  publish_all-Steps s now_ms q (r ∷ rs) h =
      elim (Option-cases (transition_if q r.id (publish catalog chain s now_ms r).1)) [
        | inl thrown ↦ absurd (let wrong = rw (thrown, publish_all) at h in cc)
        | inr (next, e) ↦ goes (publishes s now_ms r e) (
            publish_all-Steps (publish catalog chain s now_ms r).0 now_ms next rs
              (rw (e, publish_all) at h))
      ]

  prepare_next-Steps :
      (q : Queue) (rs : List Row) {after : Queue}
      → prepare_next catalog chain q rs ≡ some after
      → Steps q after
  unfolding prepare_next
  prepare_next-Steps q [] h = let same : q ≡ _ = cc in rw same stays
  prepare_next-Steps q (r ∷ rs) h =
      elim (Bool-cases
        (length (by_status awaiting_permit q) + length (by_status permitted q) == 0)) [
          | inl idle ↦ goes (prepares r (rw idle at h)) stays
          | inr busy ↦ let same : q ≡ _ = (let stayed = rw busy at h in cc) in rw same stays
        ]

  -- A tick of the publisher is a run of single transitions.
  pub publisher_tick-Steps :
      (s : T) (now_ms : ℕ) (q : Queue) {s' : T} {after : Queue}
      → publisher_tick catalog chain s now_ms q ≡ some (s', after)
      → Steps q after
  unfolding publisher_tick
  publisher_tick-Steps s now_ms q h =
      elim (Option-cases (reconcile_all catalog chain s q (by_status permitted q))) [
        | inl thrown ↦ absurd (let wrong = rw (thrown, publisher_tick) at h in cc)
        | inr (q1, e1) ↦
            elim (Option-cases (publish_all catalog chain s now_ms q1 (by_status permitted q1))) [
              | inl thrown ↦ absurd (let wrong = rw (e1, thrown, publisher_tick) at h in cc)
              | inr ((s2, q2), e2) ↦
                  elim (Option-cases (prepare_next catalog chain q2 (by_status queued q2))) [
                    | inl thrown ↦
                        absurd (let wrong = rw (e1, e2, thrown, publisher_tick) at h in cc)
                    | inr (q3, e3) ↦
                        let same : q3 ≡ _ =
                          (let done = rw (e1, e2, e3, publisher_tick) at h in cc) in
                        rw same at (
                          Steps-trans (reconcile_all-Steps s q (by_status permitted q) e1) (
                            Steps-trans (publish_all-Steps s now_ms q1 (by_status permitted q1) e2)
                              (prepare_next-Steps q2 (by_status queued q2) e3)))
                  ]
            ]
      ]
