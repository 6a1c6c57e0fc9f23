-- ===== src/Coordinator/Retained.antt =====
-- The retained frames are the end of all the frames ever published
-- (services/live-room/src/coordinator/coordinator.mjs, `publish`, `framesSince`).
use tradermarket.Base.{
  ℕ, zero, suc, ◌+◌, ◌-◌, ◌≤◌, min, Bool, true, false, ◌||◌, some, List, [], ◌∷◌, ◌++◌, ◌≡◌, refl,
  ◌∙◌, ap, sym, subst, arith, All, length, drop, keep, ltb, if◌then◌else◌, Bool-cases, inl, inr,
  is_some, length-append, length-drop, ltb→lt, ltb→le, lt→ltb,
}
use tradermarket.Coordinator.{Frame, State, Config, Projection}
use tradermarket.Coordinator.View.{snapshot}
use tradermarket.Coordinator.Publishing.{
  is_presentation, retention_of, retained, with_frame, Since, resync, frames_after, floor_of,
  frames_since,
}

-- The frames after the `k`th, numbered without a gap
abbrev pub Numbered : ℕ → List Frame → Type 0
Numbered k [] = Unit
Numbered k (f ∷ fs) = (f.seq ≡ suc k) × Numbered (suc k) fs

-- A presentation-only type, a block of the chain, or a sequence of the source
abbrev pub IsProven : Frame → Type 0
IsProven f = (is_presentation f.type || (is_some f.chain || is_some f.source_seq)) ≡ true

-- `published` is all that was published so far, and at most the last `n` frames of it are kept.
pub record IsSound (n : ℕ) (published : List Frame) (s : State) : Type 0 where
  pub counted : s.room_seq ≡ length published
  pub numbered : Numbered 0 published
  pub kept : s.frames ≡ drop (length published - n) published
  pub proven : All IsProven published

drop-nil : {A : Type 0} (k : ℕ) → drop {A = A} k [] ≡ []
drop-nil zero = refl
drop-nil (suc k) = refl

drop-append :
    {A : Type 0} (k : ℕ) (xs ys : List A) → k ≤ length xs → drop k xs ++ ys ≡ drop k (xs ++ ys)
drop-append zero xs ys le = refl
drop-append (suc k) [] ys le = absurd (omega (arith, le))
drop-append (suc k) (x ∷ xs) ys le = drop-append k xs ys (omega (arith, le))

drop-drop : {A : Type 0} (a b c : ℕ) (xs : List A) → c ≡ b + a → drop a (drop b xs) ≡ drop c xs
drop-drop a zero c xs e = ap (λ k. drop k xs) (omega (arith, e))
drop-drop a (suc b) c [] e = drop-nil a ∙ sym (drop-nil c)
drop-drop a (suc b) zero (x ∷ xs) e = absurd (omega (arith, e))
drop-drop a (suc b) (suc c) (x ∷ xs) e = drop-drop a b c xs (omega (arith, e))

retained-drop :
    (n k : ℕ) (fs : List Frame)
    → k ≡ length fs - suc n
    → retained n (drop k fs) ≡ drop (length fs - n) fs
retained-drop n k fs is = elim (Bool-cases (ltb n (length (drop k fs)))) [
  | inl e ↦
      ap (λ b. if b then drop (length (drop k fs) - n) (drop k fs) else drop k fs) e
      ∙ drop-drop (length (drop k fs) - n) k (length fs - n) fs
          (omega (arith, is, length-drop k fs, ltb→lt n (length (drop k fs)) e))
  | inr e ↦
      ap (λ b. if b then drop (length (drop k fs) - n) (drop k fs) else drop k fs) e
      ∙ ap (λ j. drop j fs) (omega (arith, is, length-drop k fs, ltb→le n (length (drop k fs)) e))
]

Numbered-append :
    (k : ℕ) (fs : List Frame) (f : Frame)
    → Numbered k fs
    → f.seq ≡ suc (k + length fs)
    → Numbered k (fs ++ f ∷ [])
Numbered-append k [] f is e = (omega (arith, e), tt)
Numbered-append k (g ∷ fs) f is e = (is.0, Numbered-append (suc k) fs f is.1 (omega (arith, e)))

All-snoc :
    (fs : List Frame) (f : Frame) → All IsProven fs → IsProven f → All IsProven (fs ++ f ∷ [])
All-snoc [] f all is = (is, tt)
All-snoc (g ∷ fs) f all is = (all.0, All-snoc fs f all.1 is)

Numbered-drop : (k j m : ℕ) (fs : List Frame) → m ≡ k + j → Numbered k fs → Numbered m (drop j fs)
Numbered-drop k zero m fs e is = subst (λ i. Numbered i fs) (omega (arith, e)) is
Numbered-drop k (suc j) m [] e is = tt
Numbered-drop k (suc j) m (f ∷ fs) e is = Numbered-drop (suc k) j m fs (omega (arith, e)) is.1

ltb-false : (a b : ℕ) → b ≤ a → ltb a b ≡ false
ltb-false a b le = ground arith

keep-Numbered :
    (m k j : ℕ) (fs : List Frame)
    → j ≡ m - k
    → Numbered k fs
    → keep (λ (f : Frame). ltb m f.seq) fs ≡ drop j fs
keep-Numbered m k j [] e is = sym (drop-nil j)
keep-Numbered m k zero (f ∷ fs) e is =
    ap
      (λ b.
        if b
        then f ∷ keep (λ (g : Frame). ltb m g.seq) fs
        else keep (λ (g : Frame). ltb m g.seq) fs)
      (lt→ltb m f.seq (omega (arith, e, is.0)))
    ∙ ap (◌∷◌ f) (keep-Numbered m (suc k) zero fs (omega (arith, e)) is.1)
keep-Numbered m k (suc j) (f ∷ fs) e is =
    ap
      (λ b.
        if b
        then f ∷ keep (λ (g : Frame). ltb m g.seq) fs
        else keep (λ (g : Frame). ltb m g.seq) fs)
      (ltb-false m f.seq (omega (arith, e, is.0)))
    ∙ keep-Numbered m (suc k) j fs (omega (arith, e)) is.1

pub with_frame-IsSound :
    (config : Config) (published : List Frame) (f : Frame) (s : State)
    → IsSound (retention_of config) published s
    → f.seq ≡ suc s.room_seq
    → IsProven f
    → IsSound (retention_of config) (published ++ f ∷ []) (with_frame config f s)
with_frame-IsSound config published f s is e proven =
    let n = retention_of config in
    let long : length (published ++ f ∷ []) ≡ suc (length published) =
      omega (arith, length-append published (f ∷ [])) in
    record {
      counted = e ∙ ap suc is.counted ∙ sym long;
      numbered = Numbered-append 0 published f is.numbered (omega (arith, e, is.counted));
      kept =
          ap (λ fs. retained n (fs ++ f ∷ [])) is.kept
          ∙ ap (retained n) (drop-append (length published - n) published (f ∷ []) (omega arith))
          ∙ retained-drop n (length published - n) (published ++ f ∷ []) (omega (arith, long));
      proven = All-snoc published f is.proven proven;
    }

floor_lem :
    (k m : ℕ) (fs : List Frame)
    → Numbered k fs
    → m ≡ k + length fs
    → (elim fs [ [] ↦ m | f ∷ gs ↦ f.seq - 1 ]) ≡ k
floor_lem k m [] is e = omega (arith, e)
floor_lem k m (f ∷ fs) is e = omega (arith, is.0)

floor_of-IsSound :
    (n : ℕ) (published : List Frame) (s : State)
    → IsSound n published s
    → floor_of s ≡ length published - n
floor_of-IsSound n published s is =
    floor_lem (length published - n) s.room_seq s.frames
      (subst (λ fs. Numbered (length published - n) fs) (sym is.kept)
        (Numbered-drop 0 (length published - n) _ published (omega arith) is.numbered))
      (omega (arith, is.counted, ap length is.kept, length-drop (length published - n) published))

kept_after :
    (n m : ℕ) (published : List Frame) (s : State)
    → IsSound n published s
    → length published - n ≤ m
    → keep (λ (f : Frame). ltb m f.seq) s.frames ≡ drop m published
kept_after n m published s is le =
    let k = length published - n in
    ap (keep (λ (f : Frame). ltb m f.seq)) is.kept
    ∙ keep-Numbered m k (m - k) _ refl (Numbered-drop 0 k k published (omega arith) is.numbered)
    ∙ drop-drop (m - k) k m published (omega (arith, le))

by_test :
    (b : Bool) (x y z : Since) → (b ≡ false → y ≡ z) → (if b then x else y) ≡ (if b then x else z)
by_test true x y z e = refl
by_test false x y z e = e refl

-- A reader that has the first `m` frames gets all the later ones, and is told to start over just
-- when some of those are kept no longer.
pub frames_since-drop :
    (store : Projection) (config : Config) (now_ms m : ℕ) (published : List Frame) (s : State)
    → IsSound (retention_of config) published s
    → frames_since store config now_ms (some m) s ≡ (
        if ltb m (length published - retention_of config)
        then resync (snapshot store config now_ms s)
        else frames_after (drop m published))
unfolding frames_since
frames_since-drop store config now_ms m published s is =
    let n = retention_of config in
    let again = resync (snapshot store config now_ms s) in
    let later = frames_after (keep (λ (f : Frame). ltb m f.seq) s.frames) in
    ap (λ k. if ltb m k then again else later) (floor_of-IsSound n published s is)
    ∙ by_test (ltb m (length published - n)) again later _
        (λ e. ap frames_after (kept_after n m published s is (ltb→le m (length published - n) e)))

-- No more frames are kept than the retention, and none is dropped before there are more.
pub length-kept :
    (n : ℕ) (published : List Frame) (s : State)
    → IsSound n published s
    → length s.frames ≡ min (length published) n
length-kept n published s is =
    omega (arith, ap length is.kept, length-drop (length published - n) published)
