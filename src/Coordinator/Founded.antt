-- ===== src/Coordinator/Founded.antt =====
-- What each operation publishes (services/live-room/src/coordinator/coordinator.mjs), and
-- whether it returns
use tradermarket.Base.{
  Bool-cases, inl, inr, ◌⊎◌, arith, All-append, ℕ, suc, Bool, true, false, not, ◌&&◌, ◌||◌, Option,
  none, some, List, [], ◌∷◌, ◌++◌, ◌≡◌, refl, ◌∙◌, ap, sym, subst, if◌then◌else◌, is_some,
  append_assoc, append-nil, All,
}
use tradermarket.Coordinator.{
  Frame, FrameType, Payload, State, Config, Projection, Snapshot, SlotView, SlotState,
  room_focus_changed,
}
use tradermarket.Coordinator.View.{snapshot}
use tradermarket.Coordinator.Publishing.{
  is_presentation, retention_of, is_unproven, frame_of, with_frame, publish,
}
use tradermarket.Coordinator.Tick.{
  after, emit_if, next_focus, option_eq, advance_focus, slot_event_for, slot_delta, slot_deltas,
  deltas, tick,
}
use tradermarket.Coordinator.Retained.{IsSound, with_frame-IsSound}

-- An operation that published some frames returns, or the sink has thrown at the last of them.
abbrev pub Ended : Config → List Frame → Bool → Type 0
Ended config more b =
    (b ≡ true)
    ⊎ ((before : List Frame) × ((f : Frame) × ((more ≡ before ++ f ∷ [])
            × (config.takes f ≡ false))))

-- What the operation publishes keeps the frames sound and is as it should be.
abbrev pub Succeeds : (Frame → Type 0) → Config → List Frame → State × Bool → Type 0
Succeeds Q config published r =
    (more : List Frame) × (IsSound (retention_of config) (published ++ more) r.0
      × (All Q more × Ended config more r.1))

abbrev pub Works : (Frame → Type 0) → Config → (State → State × Bool) → Type 0
Works Q config op =
    (published : List Frame) (s : State)
    → IsSound (retention_of config) published s
    → Succeeds Q config published (op s)

abbrev pub Any : Frame → Type 0
Any f = Unit

-- A frame of a type that is not presentation alone, with a block of the chain or a sequence of the
-- source
abbrev pub IsFounded : Frame → Type 0
IsFounded f =
    (is_presentation f.type ≡ false)
    × (((is_some f.chain || is_some f.source_seq) ≡ true) × (f.is_presentation_only ≡ false))

not_none : (a b c : Bool) → (not a && (not b && not c)) ≡ false → (a || (b || c)) ≡ true
not_none true b c e = refl
not_none false true c e = refl
not_none false false true e = refl
not_none false false false e = sym e

proven_lem :
    (t : FrameType) (chain source_seq : Option ℕ)
    → is_unproven t chain source_seq ≡ false
    → (is_presentation t || (is_some chain || is_some source_seq)) ≡ true
proven_lem t chain source_seq e =
    not_none (is_presentation t) (is_some chain) (is_some source_seq) e

pub stay : (Q : Frame → Type 0) (config : Config) → Works Q config (λ s. (s, true))
stay Q config published s is = (
  [],
  (
    subst (λ fs. IsSound (retention_of config) fs s) (sym (append-nil published)) is,
    (tt, inl refl),
  ),
)

taken : (config : Config) (f : Frame) → Ended config (f ∷ []) (config.takes f)
taken config f = elim (Bool-cases (config.takes f)) [
  | inl takes ↦ inl takes
  | inr throws ↦ inr ([], (f, (refl, throws)))
]

publish_as-Works :
    (Q : Frame → Type 0) (config : Config) (t : FrameType) (payload : Payload)
    (chain source_seq : Option ℕ)
    → is_unproven t chain source_seq ≡ false
    → ((seq : ℕ) → Q (frame_of seq t payload chain source_seq))
    → Works Q config (publish config t payload chain source_seq)
unfolding publish
publish_as-Works Q config t payload chain source_seq e q published s is =
    let frame = frame_of (suc s.room_seq) t payload chain source_seq in
    subst
      (λ b.
        Succeeds Q config published
          (if b then (s, false) else (with_frame config frame s, config.takes frame)))
      (sym e)
      (
        frame ∷ [],
        (
          with_frame-IsSound config published frame s is refl (proven_lem t chain source_seq e),
          ((q (suc s.room_seq), tt), taken config frame),
        ),
      )

pub publish-Works :
    (config : Config) (t : FrameType) (payload : Payload) (chain source_seq : Option ℕ)
    → is_unproven t chain source_seq ≡ false
    → Works Any config (publish config t payload chain source_seq)
publish-Works config t payload chain source_seq e =
    publish_as-Works Any config t payload chain source_seq e (λ n. tt)

-- Nothing but the frames and their count matters.
pub moved :
    (n : ℕ) (published : List Frame) (s t : State)
    → t.room_seq ≡ s.room_seq
    → t.frames ≡ s.frames
    → IsSound n published s
    → IsSound n published t
moved n published s t e f is = record {
  counted = e ∙ is.counted;
  numbered = is.numbered;
  kept = f ∙ is.kept;
  proven = is.proven;
}

Ended-later :
    (config : Config) (more extra : List Frame) (b : Bool)
    → Ended config extra b
    → Ended config (more ++ extra) b
Ended-later config more extra b (inl e) = inl e
Ended-later config more extra b (inr (before, (f, (e, throws)))) = inr (
  more ++ before,
  (f, (ap (λ fs. more ++ fs) e ∙ sym (append_assoc more before (f ∷ [])), throws)),
)

then_lem :
    (config : Config) (published : List Frame) (r : State × Bool) (g : State → State × Bool)
    → Succeeds IsFounded config published r
    → Works IsFounded config g
    → Succeeds IsFounded config published (after r g)
then_lem config published (t, false) g first next = first
then_lem config published (t, true) g (more, (sound, (all, ended))) next =
    let (extra, (final, (others, ends))) = next (published ++ more) t sound in
    (
      more ++ extra,
      (
        subst (λ fs. IsSound (retention_of config) fs (g t).0) (append_assoc published more extra)
            final,
        (All-append IsFounded more extra all others, Ended-later config more extra (g t).1 ends),
      ),
    )

after-Works :
    (config : Config) (f g : State → State × Bool)
    → Works IsFounded config f
    → Works IsFounded config g
    → Works IsFounded config (λ s. after (f s) g)
after-Works config f g first next published s is =
    then_lem config published (f s) g (first published s is) next

emit_if-Works :
    (config : Config) (b : Bool) (f : State → State × Bool)
    → Works IsFounded config f
    → Works IsFounded config (emit_if b f)
emit_if-Works config true f works = works
emit_if-Works config false f works = stay IsFounded config

unproven_lem : (b : Bool) → (not b && (not true && not false)) ≡ false
unproven_lem true = refl
unproven_lem false = refl

-- A frame of the chain
on_chain :
    (config : Config) (t : FrameType) (payload : Payload) (block : ℕ)
    → is_presentation t ≡ false
    → Works IsFounded config (publish config t payload (some block) none)
on_chain config t payload block e =
    publish_as-Works IsFounded config t payload (some block) none (unproven_lem (is_presentation t))
      (λ n. (e, (refl, ap (λ b. b && false) e)))

focus_lem :
    (config : Config) (b : Bool) (t : FrameType) (payload : Payload) (block : ℕ) (next : Option ℕ)
    → is_presentation t ≡ false
    → Works IsFounded config (λ s.
      if b
      then (s, true)
      else publish config t payload (some block) none (record s { focus = next }))
focus_lem config true t payload block next e published s is = stay IsFounded config published s is
focus_lem config false t payload block next e published s is =
    on_chain config t payload block e published (record s { focus = next })
      (moved (retention_of config) published s (record s { focus = next }) refl refl is)

advance_focus-Works :
    (config : Config) (view : Snapshot) → Works IsFounded config (advance_focus config view)
unfolding advance_focus
advance_focus-Works config view published s is =
    focus_lem config (option_eq (next_focus view.slots) s.focus) room_focus_changed _ view.block
      (next_focus view.slots) refl published s is

slot_event_for_lem : (state : SlotState) → is_presentation (slot_event_for state) ≡ false
unfolding slot_event_for
slot_event_for_lem state = ground arith

slot_delta-Works :
    (config : Config) (block : ℕ) (before : Option SlotView) (slot : SlotView)
    → Works IsFounded config (slot_delta config block before slot)
slot_delta-Works config block none slot = on_chain config _ _ block refl
slot_delta-Works config block (some before) slot =
    after-Works config _ _
      (after-Works config _ _
        (emit_if-Works config _ _ (on_chain config _ _ block (slot_event_for_lem slot.state)))
        (emit_if-Works config _ _ (on_chain config _ _ block refl)))
      (emit_if-Works config _ _ (on_chain config _ _ block refl))

slot_deltas-Works :
    (config : Config) (block : ℕ) (before slots : List SlotView)
    → Works IsFounded config (slot_deltas config block before slots)
slot_deltas-Works config block before [] = stay IsFounded config
slot_deltas-Works config block before (v ∷ vs) =
    after-Works config _ _ (slot_delta-Works config block _ v)
      (slot_deltas-Works config block before vs)

deltas-Works :
    (config : Config) (previous : Option Snapshot) (view : Snapshot)
    → Works IsFounded config (deltas config previous view)
deltas-Works config none view = on_chain config _ _ view.block refl
deltas-Works config (some previous) view =
    after-Works config _ _
      (after-Works config _ _ (emit_if-Works config _ _ (on_chain config _ _ view.block refl)) (
        emit_if-Works config _ _ (
          publish_as-Works IsFounded config _ _ none (some view.last_seq) refl
            (λ n. (refl, (refl, refl))))))
      (slot_deltas-Works config view.block previous.slots view.slots)

-- A pass on sound frames throws only where the sink does, at the last frame that the pass has
-- published. What it publishes, also when it throws, follows what was published before without a
-- gap; each frame is of a type that is not presentation alone and carries a block of the chain or a
-- sequence of the source.
pub tick-Succeeds :
    (store : Projection) (config : Config) (now_ms : ℕ) (published : List Frame) (s : State)
    → IsSound (retention_of config) published s
    → (more : List Frame) × (IsSound
          (retention_of config)
          (published ++ more)
          (tick store config now_ms s).0
        × (All IsFounded more × Ended config more (tick store config now_ms s).1))
unfolding tick
tick-Succeeds store config now_ms published s is =
    let view = snapshot store config now_ms s in
    after-Works config (deltas config s.last_snapshot view) (advance_focus config view)
      (deltas-Works config s.last_snapshot view) (advance_focus-Works config view) published
      (record s { last_snapshot = some view })
      (moved (retention_of config) published s (record s { last_snapshot = some view }) refl refl
        is)
