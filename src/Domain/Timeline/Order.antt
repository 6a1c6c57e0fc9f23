-- ===== src/Domain/Timeline/Order.antt =====
-- The timeline is in the provider's order, and loses and adds nothing
-- (services/live-room/src/domain/conditions.mjs, `rectify`).
use mathlib.Core.List.{Perm}
use mathlib.Core.List.Perm
use tradermarket.Base.{
  ℕ, ◌+◌, ◌≤◌, ◌≡◌, refl, ap, List, [], ◌∷◌, arith, map, Bool-cases, inl, inr, All,
}
use tradermarket.Domain.Decimal.{Text, Sign}
use tradermarket.Domain.Event.{Event}
use tradermarket.Domain.Timeline.{
  Indexed, index_from, comes_before, insert_sorted, sorted, rectify, place_all, nothing_placed,
}

-- Every event stands before what happened later.
abbrev pub InOrder : List Event → Type 0
InOrder [] = Unit
InOrder (e ∷ es) = All (λ (x : Event). e.observed_at ≤ x.observed_at) es × InOrder es

abbrev event_of : Indexed → Event
event_of x = x.event

index_from-events : (n : ℕ) (es : List Event) → map event_of (index_from n es) ≡ es
index_from-events n [] = refl
index_from-events n (e ∷ es) = ap (λ (l : List Event). e ∷ l) (index_from-events (n + 1) es)

module _ (locale_compare : Text → Text → Sign) where
  insert_sorted-perm :
      (x : Indexed) (ys : List Indexed)
      → Perm (map event_of (insert_sorted locale_compare x ys)) (event_of x ∷ map event_of ys)
  insert_sorted-perm x [] = Perm.refl _
  insert_sorted-perm x (y ∷ ys) = elim (Bool-cases (comes_before locale_compare x y)) [
    | inl first ↦ rw first (Perm.refl _)
    | inr later ↦ rw later (
        Perm.trans (Perm.cons (event_of y) (insert_sorted-perm x ys))
          (Perm.swap (event_of x) (event_of y) (map event_of ys)))
  ]

  sorted-perm :
      (xs : List Indexed) → Perm (map event_of (sorted locale_compare xs)) (map event_of xs)
  unfolding sorted
  sorted-perm [] = Perm.refl _
  sorted-perm (x ∷ xs) =
      Perm.trans (insert_sorted-perm x (sorted locale_compare xs))
        (Perm.cons (event_of x) (sorted-perm xs))

  All-insert_sorted :
      (n : ℕ) (x : Indexed) (ys : List Indexed)
      → n ≤ x.event.observed_at
      → All (λ (e : Event). n ≤ e.observed_at) (map event_of ys)
      → All (λ (e : Event). n ≤ e.observed_at) (map event_of (insert_sorted locale_compare x ys))
  All-insert_sorted n x [] h hs = (h, tt)
  All-insert_sorted n x (y ∷ ys) h hs = elim (Bool-cases (comes_before locale_compare x y)) [
    | inl first ↦ rw first (h, hs)
    | inr later ↦ rw later (hs.0, All-insert_sorted n x ys h hs.1)
  ]

  All-weaken :
      (n m : ℕ) (es : List Event)
      → n ≤ m
      → All (λ (e : Event). m ≤ e.observed_at) es
      → All (λ (e : Event). n ≤ e.observed_at) es
  All-weaken n m [] h hs = tt
  All-weaken n m (e ∷ es) h hs = (omega arith, All-weaken n m es h hs.1)

  insert_sorted-InOrder :
      (x : Indexed) (ys : List Indexed)
      → InOrder (map event_of ys)
      → InOrder (map event_of (insert_sorted locale_compare x ys))
  insert_sorted-InOrder x [] h = (tt, tt)
  insert_sorted-InOrder x (y ∷ ys) h = elim (Bool-cases (comes_before locale_compare x y)) [
    | inl first ↦
        let before : x.event.observed_at ≤ y.event.observed_at = ground arith in
        rw first (
          (before, All-weaken x.event.observed_at y.event.observed_at (map event_of ys) before h.0),
          h,
        )
    | inr later ↦
        let before : y.event.observed_at ≤ x.event.observed_at = ground arith in
        rw later
          (All-insert_sorted y.event.observed_at x ys before h.0, insert_sorted-InOrder x ys h.1)
  ]

  sorted-InOrder : (xs : List Indexed) → InOrder (map event_of (sorted locale_compare xs))
  unfolding sorted
  sorted-InOrder [] = tt
  sorted-InOrder (x ∷ xs) = insert_sorted-InOrder x (sorted locale_compare xs) (sorted-InOrder xs)

-- The rectified timeline has the entries that were placed, each as often, and they stand in the
-- order of the provider's times, whatever the order of equal times.
pub rectify-InOrder :
    (locale_compare : Text → Text → Sign) (events : List Event)
    → InOrder (rectify locale_compare events)
      × Perm (rectify locale_compare events) (place_all nothing_placed events).timeline
unfolding rectify
rectify-InOrder locale_compare events =
    let placed = (place_all nothing_placed events).timeline in
    (
      sorted-InOrder locale_compare (index_from 0 placed),
      rw (index_from-events 0 placed) at (sorted-perm locale_compare (index_from 0 placed)),
    )
