-- ===== src/Coordinator/Runs.antt =====
-- Any run of a coordinator (services/live-room/src/coordinator/coordinator.mjs).
use tradermarket.Base.{
  ℕ, suc, ◌-◌, ◌≤◌, Bool, true, false, Option, none, some, List, [], ◌∷◌, ◌++◌, ◌≡◌, refl, ap, sym,
  subst, arith, length, if◌then◌else◌, ◌==◌, append_assoc, Bool-cases, inl, inr, append-nil, drop,
  keep, not, find, exists,
}
use tradermarket.Coordinator.{
  Frame, FrameType, stream_health_changed, viewers_updated, heartbeat_frame, Payload,
  health_payload, viewers_payload, Snapshot, State, Config, Projection, SlotView,
}
use tradermarket.Coordinator.View.{snapshot}
use tradermarket.Coordinator.Publishing.{
  new_state, observe_event_log_tip, observe_chain_head, retention_of, is_unproven, publish,
  set_stream_health, set_viewers, heartbeat, with_frame, frame_of,
}
use tradermarket.Coordinator.Tick.{tick}
use tradermarket.Coordinator.Requests.{
  Decided, not_asked, begin_request, end_request, guarded, NotAsked, no_publisher, unless,
  is_running, is_capped, is_backed,
}
use tradermarket.Coordinator.Retained.{IsSound, length-kept}
use tradermarket.Coordinator.Founded.{Any, Works, stay, moved, publish-Works, tick-Succeeds}
use tradermarket.Coordinator.Operations.{
  Operation, publishes, passes, sees_stream, sees_viewers, beats, sees_tip, sees_head, begins, ends,
  state_after, operate, operate_all,
}

abbrev pub Grows : Config → List Frame → State → Type 0
Grows config published s = (more : List Frame) × IsSound (retention_of config) (published ++ more) s

abbrev Keeps : Config → (State → State) → Type 0
Keeps config f =
    (published : List Frame) (s : State)
    → IsSound (retention_of config) published s
    → Grows config published (f s)

Works-Keeps :
    (Q : Frame → Type 0) (config : Config) (op : State → State × Bool)
    → Works Q config op
    → Keeps config (λ s. (op s).0)
Works-Keeps Q config op works published s is =
    let (more, (sound, rest)) = works published s is in (more, sound)

grow :
    (config : Config) (published : List Frame) (s t : State)
    → t.room_seq ≡ s.room_seq
    → t.frames ≡ s.frames
    → IsSound (retention_of config) published s
    → Grows config published t
grow config published s t e f is = (
  [],
  subst (λ fs. IsSound (retention_of config) fs t) (sym (append-nil published))
      (moved (retention_of config) published s t e f is),
)

refused_lem :
    (config : Config) (t : FrameType) (payload : Payload) (chain source_seq : Option ℕ) (s : State)
    → is_unproven t chain source_seq ≡ true
    → publish config t payload chain source_seq s ≡ (s, false)
unfolding publish
refused_lem config t payload chain source_seq s e =
    let frame = frame_of (suc s.room_seq) t payload chain source_seq in
    ap (λ b. if b then (s, false) else (with_frame config frame s, config.takes frame)) e

publish-Keeps :
    (config : Config) (t : FrameType) (payload : Payload) (chain source_seq : Option ℕ)
    → Keeps config (λ s. (publish config t payload chain source_seq s).0)
publish-Keeps config t payload chain source_seq published s is =
    elim (Bool-cases (is_unproven t chain source_seq)) [
      | inl e ↦
          subst (λ r. Grows config published r.0)
            (sym (refused_lem config t payload chain source_seq s e))
            (grow config published s s refl refl is)
      | inr e ↦
          Works-Keeps _ config _ (publish-Works config t payload chain source_seq e) published s is
    ]

record IsSame (s : State) (d : Decided) : Type 0 where
  pub same_seq : (state_after d s).room_seq ≡ s.room_seq
  pub same_frames : (state_after d s).frames ≡ s.frames

unless_lem :
    (s : State) (b : Bool) (why : NotAsked) (d : Decided) → IsSame s d → IsSame s (unless b why d)
unless_lem s true why d same = record { same_seq = refl; same_frames = refl }
unless_lem s false why d same = same

guarded_lem : (view : Snapshot) (key : ℕ) (s : State) → IsSame s (guarded view key s)
guarded_lem view key s = unless_lem s (not (is_running view.state)) _ _ (
    unless_lem s (is_capped view.open_count view.max_open) _ _ (
      unless_lem s (not (is_backed (find (λ (v : SlotView). v.slot_index == 0) view.slots))) _ _ (
        unless_lem s (not view.is_fresh) _ _ (
          unless_lem s (exists (λ k. k == key) s.pending_requests) _ _
            (record { same_seq = refl; same_frames = refl })))))

begin_lem :
    (has : Bool) (s : State) (d : Decided)
    → IsSame s d
    → IsSame s (if has then d else not_asked no_publisher)
begin_lem true s d same = same
begin_lem false s d same = record { same_seq = refl; same_frames = refl }

begin_request_lem :
    (has : Bool) (store : Projection) (config : Config) (now_ms key : ℕ) (s : State)
    → IsSame s (begin_request has store config now_ms key s)
unfolding begin_request
begin_request_lem has store config now_ms key s =
    begin_lem has s _ (guarded_lem (snapshot store config now_ms s) key s)

head_lem :
    (head : Option ℕ) (at_ms : ℕ) (s : State)
    → ((observe_chain_head head at_ms s).room_seq ≡ s.room_seq)
      × ((observe_chain_head head at_ms s).frames ≡ s.frames)
head_lem none at_ms s = (refl, refl)
head_lem (some h) at_ms s = (refl, refl)

stream_lem :
    (config : Config) (b : Bool) (health : ℕ)
    → Works Any config (λ s.
      if b
      then (s, true)
      else publish config stream_health_changed
          (health_payload health)
          none
          none
          (record s { stream_health = health }))
stream_lem config true health published s is = stay Any config published s is
stream_lem config false health published s is =
    publish-Works config stream_health_changed (health_payload health) none none refl published
      (record s { stream_health = health })
      (moved (retention_of config) published s (record s { stream_health = health }) refl refl is)

set_stream_health-Works :
    (config : Config) (health : ℕ) → Works Any config (set_stream_health config health)
unfolding set_stream_health
set_stream_health-Works config health published s is =
    stream_lem config (health == s.stream_health) health published s is

set_viewers-Works :
    (config : Config) (count : Option ℕ) → Works Any config (set_viewers config count)
unfolding set_viewers
set_viewers-Works config count published s is =
    publish-Works config viewers_updated (viewers_payload count) none none refl published
      (record s { viewers = count })
      (moved (retention_of config) published s (record s { viewers = count }) refl refl is)

heartbeat-Works :
    (store : Projection) (config : Config) (now_ms : ℕ)
    → Works Any config (heartbeat store config now_ms)
unfolding heartbeat
heartbeat-Works store config now_ms published s is =
    publish-Works config heartbeat_frame _ none none refl published s is

ends_lem : (config : Config) (key : ℕ) → Keeps config (end_request key)
unfolding end_request
ends_lem config key published s is =
    grow config published s
      (record s { pending_requests = keep (λ k. not (k == key)) s.pending_requests }) refl refl is

drop-nil : (n : ℕ) → [] ≡ drop {A = Frame} (0 - n) []
drop-nil n = sym (ap (λ k. drop {A = Frame} k []) {x = 0 - n} {y = 0} (omega arith))

pub new_state-IsSound : (n unknown : ℕ) → IsSound n [] (new_state unknown)
new_state-IsSound n unknown = record {
  counted = refl;
  numbered = tt;
  kept = drop-nil n;
  proven = tt;
}

operate-Keeps : (config : Config) (o : Operation) → Keeps config (operate config o)
operate-Keeps config (publishes t payload chain source_seq) published s is =
    publish-Keeps config t payload chain source_seq published s is
operate-Keeps config (passes store now_ms) published s is =
    Works-Keeps _ config (tick store config now_ms) (tick-Succeeds store config now_ms) published s
      is
operate-Keeps config (sees_stream health) published s is =
    Works-Keeps _ config _ (set_stream_health-Works config health) published s is
operate-Keeps config (sees_viewers count) published s is =
    Works-Keeps _ config _ (set_viewers-Works config count) published s is
operate-Keeps config (beats store now_ms) published s is =
    Works-Keeps _ config _ (heartbeat-Works store config now_ms) published s is
operate-Keeps config (sees_tip tip) published s is =
    grow config published s (observe_event_log_tip tip s) refl refl is
operate-Keeps config (sees_head head at_ms) published s is =
    grow config published s (observe_chain_head head at_ms s) (head_lem head at_ms s).0
      (head_lem head at_ms s).1 is
operate-Keeps config (begins has store now_ms key) published s is =
    let same = begin_request_lem has store config now_ms key s in
    grow config published s _ same.same_seq same.same_frames is
operate-Keeps config (ends key) published s is = ends_lem config key published s is

-- Whatever is done with a coordinator whose frames are sound, they stay sound: those that are
-- published meanwhile follow those before.
pub operate_all-IsSound :
    (config : Config) (os : List Operation) (published : List Frame) (s : State)
    → IsSound (retention_of config) published s
    → (more : List Frame) × IsSound
        (retention_of config)
        (published ++ more)
        (operate_all config os s)
operate_all-IsSound config [] published s is = grow config published s s refl refl is
operate_all-IsSound config (o ∷ os) published s is =
    let (more, sound) = operate-Keeps config o published s is in
    let (extra, final) =
      operate_all-IsSound config os (published ++ more) (operate config o s) sound in
    (
      more ++ extra,
      subst (λ fs. IsSound (retention_of config) fs (operate_all config os (operate config o s)))
          (append_assoc published more extra) final,
    )

-- Whatever is done with a new coordinator, it never keeps more frames than its retention.
pub length-operate_all :
    (config : Config) (os : List Operation) (unknown : ℕ)
    → length (operate_all config os (new_state unknown)).frames ≤ retention_of config
length-operate_all config os unknown =
    let (published, sound) =
      operate_all-IsSound config os [] (new_state unknown)
        (new_state-IsSound (retention_of config) unknown) in
    omega (arith, length-kept (retention_of config) published _ sound)
