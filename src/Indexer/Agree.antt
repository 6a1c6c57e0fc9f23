-- ===== src/Indexer/Agree.antt =====
-- The order in which an indexer comes upon its logs is of no account for what accounts hold
-- (services/live-room/src/indexer/indexer.mjs, `syncTo` and `rebuild`).
use mathlib.Core.List
use mathlib.Core.List.{Mem, Nodup, not-mem-nil, mem-cons, Perm, Permᴰ, perm_ext_iff_of_Nodup}
use mathlib.Core.Logic.{∥∥₁_elim}
use mathlib.Core.Logic.Or
use native.Mathlib.Nat.{ℕ_set}
use tradermarket.Base.{
  ℕ, ◌≡◌, refl, sym, ap, ◌∙◌, Bool, true, false, List, [], ◌∷◌, ◌++◌, arith, All, ◌↔◌,
}
use tradermarket.Base.Int.{int_laws}
use tradermarket.Base.PairDict.{same_pair}
use tradermarket.Indexer.{Position, LogId, Names, Indexer}
use tradermarket.Indexer.Events.{Log}
use tradermarket.Indexer.Fresh.{no_position, add_position}
use tradermarket.Indexer.Sync.{same_id, id_of}
use tradermarket.Indexer.Ledger.{
  Move, move_if, moved, moved-append, position_in, moves_in, all_moves,
}
use tradermarket.Indexer.History.{Distinct, Applied}

position_ext :
    (p q : Position)
    → p.position_a ≡ q.position_a
    → p.position_b ≡ q.position_b
    → p.lp_shares ≡ q.lp_shares
    → p ≡ q
position_ext p q a b c = ground arith

add_position_assoc :
    (p q r : Position) → add_position (add_position p q) r ≡ add_position p (add_position q r)
add_position_assoc p q r = position_ext _ _ (omega int_laws) (omega int_laws) (omega int_laws)

add_position_comm : (p q : Position) → add_position p q ≡ add_position q p
add_position_comm p q = position_ext _ _ (omega int_laws) (omega int_laws) (omega int_laws)

add_position_zero : (p : Position) → add_position p no_position ≡ p
add_position_zero p = position_ext _ _ (omega int_laws) (omega int_laws) (omega int_laws)

-- What moves come to
abbrev total : ℕ × ℕ → List Move → Position
total who ms = moved who ms no_position

add_position_left :
    (p q r : Position) → add_position p (add_position q r) ≡ add_position q (add_position p r)
add_position_left p q r = position_ext _ _ (omega int_laws) (omega int_laws) (omega int_laws)

moved-total_if :
    (who : ℕ × ℕ) (rest : List Move) (delta p : Position) (is_here : Bool)
    → ((q : Position) → moved who rest q ≡ add_position q (total who rest))
    → moved who rest (move_if is_here delta p)
      ≡ add_position p (moved who rest (move_if is_here delta no_position))
moved-total_if who rest delta p false ih = ih p
moved-total_if who rest delta p true ih =
    ih (add_position p delta)
    ∙ add_position_assoc p delta (total who rest)
    ∙ ap (λ q. add_position p q)
        (sym (
          ih (add_position no_position delta)
          ∙ ap (λ q. add_position q (total who rest))
              (add_position_comm no_position delta ∙ add_position_zero delta)))

moved-total :
    (who : ℕ × ℕ) (ms : List Move) (p : Position) → moved who ms p ≡ add_position p (total who ms)
unfolding moved
moved-total who [] p = sym (add_position_zero p)
moved-total who ((whose, delta) ∷ rest) p =
    moved-total_if who rest delta p (same_pair whose who) (moved-total who rest)

total-append :
    (who : ℕ × ℕ) (ms ns : List Move)
    → total who (ms ++ ns) ≡ add_position (total who ms) (total who ns)
total-append who ms ns = moved-append who ms ns no_position ∙ moved-total who ns (total who ms)

same_id_refl : (a : LogId) → same_id a a ≡ true
same_id_refl a = ground arith

Position-set : IsSet Position
Position-set = hlevel ℕ_set

module _ (names : Names) where
  -- What a list of logs comes to
  abbrev balance : ℕ × ℕ → List Log → Position
  balance who logs = total who (all_moves names logs)

  balance-cons :
      (who : ℕ × ℕ) (l : Log) (ls : List Log)
      → balance who (l ∷ ls) ≡ add_position (total who (moves_in names l l.event)) (balance who ls)
  unfolding all_moves
  balance-cons who l ls = total-append who (moves_in names l l.event) (all_moves names ls)

  pub balance-Permᴰ :
      (who : ℕ × ℕ) {ls ms : List Log} → Permᴰ ls ms → balance who ls ≡ balance who ms
  balance-Permᴰ who Permᴰ.nil = refl
  balance-Permᴰ who (Permᴰ.cons {a} {b} {l₁} {l₂} e d) =
      balance-cons who a l₁
      ∙ (λ i. add_position (total who (moves_in names (e i) (e i).event)) (balance-Permᴰ who d i))
      ∙ sym (balance-cons who b l₂)
  balance-Permᴰ who (Permᴰ.swap {a} {b} {a'} {b'} {l} e f) =
      balance-cons who a (b ∷ l)
      ∙ ap (λ q. add_position (moves_of a) q) (balance-cons who b l)
      ∙ add_position_left (moves_of a) (moves_of b) (balance who l)
      ∙ (λ i. add_position (moves_of (f i)) (add_position (moves_of (e i)) (balance who l)))
      ∙ ap (λ q. add_position (moves_of a') q) (sym (balance-cons who b' l))
      ∙ sym (balance-cons who a' (b' ∷ l))
    where
      moves_of : Log → Position
      moves_of log = total who (moves_in names log log.event)
  balance-Permᴰ who (Permᴰ.trans d e) = balance-Permᴰ who d ∙ balance-Permᴰ who e

  -- A log is as new as its identity.
  not-mem_apart :
      (l : Log) (ls : List Log)
      → All (λ (m : Log). same_id (id_of names l) (id_of names m) ≡ false) ls
      → ¬ Mem l ls
  not-mem_apart l [] h m = not-mem-nil m
  not-mem_apart l (k ∷ ls) (h, hs) m =
      Or.elim (λ x y. elim x [ ]) (mem-cons.0 m)
        (λ e. absurd (
          cc (
            ap (λ (x : Log). same_id (id_of names x) (id_of names k)) e,
            same_id_refl (id_of names k),
          )))
        (not-mem_apart l ls hs)

  pub Distinct-Nodup : (ls : List Log) → Distinct names ls → Nodup ls
  Distinct-Nodup [] h = List.Nodup-nil
  Distinct-Nodup (l ∷ ls) (apart, h) =
      List.Nodup-cons.1 (not-mem_apart l ls apart, Distinct-Nodup ls h)

  -- Two indexers that applied the same logs since they last started over, each log once and each in
  -- an order and in passes of its own, hold the same position for everyone.
  pub positions_agree :
      (P Q : Log → Type 0) (ls ms : List Log) (ix iy : Indexer)
      → Applied names P ls ix
      → Applied names Q ms iy
      → ((l : Log) → Mem l ls ↔ Mem l ms)
      → (who : ℕ × ℕ) → position_in who ix.store.holdings ≡ position_in who iy.store.holdings
  positions_agree P Q ls ms ix iy one other same who =
      one.ledger.held who
      ∙ ∥∥₁_elim
          ((perm_ext_iff_of_Nodup (Distinct-Nodup ls one.once) (Distinct-Nodup ms other.once)).1
            same)
          (Position-set _ _) (balance-Permᴰ who)
      ∙ sym (other.ledger.held who)
