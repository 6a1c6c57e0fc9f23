-- ===== src/Domain/Conditions/SessionEnd.antt =====
-- How the end of the session bounds what counts
-- (services/live-room/src/domain/conditions.mjs, `evaluateCondition`).
use tradermarket.Base.{
  ℕ, suc, ◌≡◌, ◌≢◌, refl, sym, ap, ◌∙◌, Bool, true, false, Option, none, some, List, [], ◌∷◌, ◌++◌,
  arith, ◌==◌, Bool-cases, Option-cases, inl, inr, Result, ok, err, find_index, take,
}
use tradermarket.Domain.Event.{Event}
use tradermarket.Domain.Conditions.{
  Condition, Decision, Reason, Outcome, Bounds, scanning, caught, in_roster, evaluate_window,
  roster_of, evaluate_timeline, undecided_at_session_end, at_session_end, end_seq, last_seq,
  window_of, headline_index,
}
use tradermarket.Domain.Conditions.Metrics.{
  undecided, decided, unevaluable, first_to_realized_pnl, participant_metric_threshold,
  first_to_metric, other_template,
}
use tradermarket.Domain.Conditions.Finality.{scanning_first, evaluate_window-append}

module _ {ℓ} {A : Type ℓ} (p : A → Bool) where
  find_index_here :
      (xs ys : List A) (x : A) → p x ≡ true → (i : ℕ) × (find_index p (xs ++ x ∷ ys) ≡ some i)
  find_index_here [] ys x h = (0, rw h)
  find_index_here (z ∷ xs) ys x h = elim (Bool-cases (p z)) [
    | inl now ↦ (0, rw now)
    | inr later ↦ let (i, e) = find_index_here xs ys x h in (suc i, rw (later, e))
  ]

  find_index-append :
      (xs ys : List A) {i : ℕ} → find_index p xs ≡ some i → find_index p (xs ++ ys) ≡ some i
  find_index-append [] ys h = cc
  find_index-append (x ∷ xs) ys h = elim (Bool-cases (p x)) [
    | inl now ↦ rw now (rw now at h)
    | inr later ↦ elim (Option-cases (find_index p xs)) [
      | inl absent ↦ absurd (let wrong = rw (later, absent) at h in cc)
      | inr (j, e) ↦ rw (later, find_index-append xs ys e) (rw (later, e) at h)
    ]
  ]

  take-find_index :
      (xs ys : List A) {i : ℕ}
      → find_index p xs ≡ some i
      → take (suc i) (xs ++ ys) ≡ take (suc i) xs
  take-find_index [] ys h = cc
  take-find_index (x ∷ xs) ys h = elim (Bool-cases (p x)) [
    | inl now ↦ let first = rw now at h in ground arith
    | inr later ↦ elim (Option-cases (find_index p xs)) [
      | inl absent ↦ absurd (let wrong = rw (later, absent) at h in cc)
      | inr (j, e) ↦ let second = rw (later, e) at h in ground (arith, take-find_index xs ys e)
    ]
  ]

abbrev at_seq : ℕ → Event → Bool
at_seq n e = e.seq == n

caught-decided :
    (r : Result Reason Decision) {o : Outcome} {n : ℕ}
    → caught r ≡ decided o n
    → r ≡ ok (decided o n)
caught-decided (ok d) h = ap ok h
caught-decided (err x) h = cc

-- The event that decided is in the window.
scanning-find :
    (c : Condition) (events : List Event) {o : Outcome} {n : ℕ}
    → caught (scanning c [] events) ≡ decided o n
    → (i : ℕ) × (find_index (at_seq n) events ≡ some i)
scanning-find c events {o} {n} h =
    let (before, e, after, parts, quiet, trade, seq) =
      scanning_first c [] events (caught-decided (scanning c [] events) h) in
    rw parts (find_index_here (at_seq n) before after e (ground arith))

evaluate_window-find :
    (lower : ℕ → ℕ) (c : Condition) (events : List Event) (roster : Option (List ℕ)) {o : Outcome}
    {n : ℕ}
    → evaluate_window lower c events roster ≡ decided o n
    → (i : ℕ) × (find_index (at_seq n) events ≡ some i)
unfolding evaluate_window
evaluate_window-find lower (first_to_realized_pnl t) events roster h =
    scanning-find (first_to_realized_pnl t) events h
evaluate_window-find lower (participant_metric_threshold p m op v) events roster h =
    elim (Bool-cases (in_roster lower roster p)) [
      | inl inside ↦ scanning-find (participant_metric_threshold p m op v) events (rw inside at h)
      | inr outside ↦ absurd (let wrong = rw outside at h in cc)
    ]
evaluate_window-find lower (first_to_metric m op v) events roster h =
    scanning-find (first_to_metric m op v) events h
evaluate_window-find lower (other_template t) events roster h = absurd (cc)

-- The bounds of a condition that is not the headline `h`
abbrev pub bounded_by : Condition → Option ℕ → Option (List ℕ) → Bounds
bounded_by h terminal people = record {
  terminal_seq = terminal;
  headline = some h;
  is_headline = false;
  participants = people;
}

headline_index_at :
    (lower : ℕ → ℕ) (h : Condition) (known : List Event) (roster : Option (List ℕ)) {o : Outcome}
    {n : ℕ}
    → evaluate_window lower h known roster ≡ decided o n
    → headline_index lower (some h) false known roster ≡ find_index (at_seq n) known
headline_index_at lower h known roster ended = rw ended

-- Once the headline is decided on the known timeline, whatever happens later on the timeline
-- changes the decision of no other condition.
pub evaluate_timeline_final :
    (lower : ℕ → ℕ) (c h : Condition) (terminal : Option ℕ) (people : Option (List ℕ))
    (known late : List Event) {o : Outcome} {n : ℕ}
    → evaluate_window lower h known (roster_of lower people) ≡ decided o n
    → evaluate_timeline lower c (bounded_by h terminal people) (known ++ late)
      ≡ evaluate_timeline lower c (bounded_by h terminal people) known
unfolding evaluate_timeline
evaluate_timeline_final lower c h terminal people known late {o} {n} ended =
    let roster = roster_of lower people in
    let (i, found) = evaluate_window-find lower h known roster ended in
    let still =
      evaluate_window-append lower h known late roster (λ e. let both = sym ended ∙ e in cc)
      ∙ ended in
    let before = headline_index_at lower h known roster ended ∙ found in
    let after =
      headline_index_at lower h (known ++ late) roster still
      ∙ find_index-append (at_seq n) known late found in
    rw (before, after, take-find_index (at_seq n) known late found)

end_seq-closed :
    (t : Option ℕ) (n : ℕ) (window : List Event) → (m : ℕ) × (end_seq t (some n) window ≡ some m)
end_seq-closed none n window = (n, refl)
end_seq-closed (some i) n window = (last_seq window, refl)

at_session_end-closed :
    (c : Condition) (d : Decision) (m : ℕ)
    → undecided_at_session_end c ≢ none
    → at_session_end c d (some m) ≢ undecided
at_session_end-closed c undecided m rule h = elim (Option-cases (undecided_at_session_end c)) [
  | inl no_rule ↦ rule no_rule
  | inr (o, e) ↦ let wrong = rw e at h in cc
]
at_session_end-closed c (decided o n) m rule h = cc
at_session_end-closed c (unevaluable r) m rule h = cc

-- A condition with a rule for the session's end is never left open once the room has closed.
pub evaluate_timeline-closed :
    (lower : ℕ → ℕ) (c : Condition) (b : Bounds) (known : List Event) (n : ℕ)
    → b.terminal_seq ≡ some n
    → undecided_at_session_end c ≢ none
    → evaluate_timeline lower c b known ≢ undecided
unfolding evaluate_timeline
evaluate_timeline-closed lower c b known n closed rule h =
    let roster = roster_of lower b.participants in
    let terminal = headline_index lower b.headline b.is_headline known roster in
    let window = window_of terminal known in
    let (m, e) = end_seq-closed terminal n window in
    at_session_end-closed c (evaluate_window lower c window roster) m rule (rw (closed, e) at h)
