-- ===== src/Conflict/State.antt =====
-- src/core/conflict/mod.rs: the records of the engine, its tables and its bookkeeping operations.
-- A `Ref` is the number of its 128 bits, an `Instant` and a `Duration` are numbers of one unit, and
-- `duration_since` stops at 0 as `-` does. A call gets the time that it reads as an argument.
use wsync.Prelude.{
  ℕ, ◌+◌, ◌-◌, Bool, true, false, Option, none, some, List, [], ◌∷◌, ◌++◌, Text, codes, text_eq,
  decimal, ◌==◌, ltb, leb, if◌then◌else◌, find_first, remove_first, modify_first, length, is_some,
  NatMap, empty_map, insert, remove,
}
use wsync.Conflict.Content.{Codec, Properties, ContentState, is_script}

pub data FsDecision : Type 0 where
  propagate no_change conflict : FsDecision

pub data PushDecision : Type 0 where
  apply no_change conflict : PushDecision

pub data Classification : Type 0 where
  both_edited fs_deleted_studio_edited studio_deleted_fs_edited : Classification

unfoldable pub as_str : Classification → Text
as_str both_edited = codes "both-edited"
as_str fs_deleted_studio_edited = codes "fs-deleted-studio-edited"
as_str studio_deleted_fs_edited = codes "studio-deleted-fs-edited"

pub record InstanceInfo : Type 0 where
  pub id : ℕ
  pub parent : ℕ
  pub instance_path : Text
  pub rel_path : Option Text

-- The instant for the race window, and the wall clock for `detected_at`.
pub record Now : Type 0 where
  pub instant : ℕ
  pub utc : Text

pub record Captured (c : Codec) : Type 0 where
  pub info : InstanceInfo
  pub content : ContentState c
  pub properties : Properties c

pub record Side (c : Codec) : Type 0 where
  pub present : Bool
  pub content : Option (ContentState c)

pub record StudioApply (c : Codec) : Type 0 where
  pub name : Text
  pub class : Text
  pub properties : Properties c

pub record Parked (c : Codec) : Type 0 where
  pub id : Text
  pub instance_ref : ℕ
  pub info : InstanceInfo
  pub classification : Classification
  pub fs : Side c
  pub studio : Side c
  pub studio_apply : Option (StudioApply c)
  pub detected_at : Text

pub record Pending : Type 0 where
  pub prior : ℕ
  pub sent : ℕ
  pub at : ℕ

pub record Tombstone (c : Codec) : Type 0 where
  pub hashes : List ℕ
  pub info : InstanceInfo
  pub base : StudioApply c
  pub at : ℕ

pub record EngineState (c : Codec) : Type 0 where
  pub baselines : NatMap ℕ
  pub pending : NatMap Pending
  pub tombstones : NatMap (Tombstone c)
  pub parked : List (Parked c)
  pub next_id : ℕ
  pub race_window : ℕ
  pub park_limit : ℕ
  pub overflow_warned : Bool

-- What a decision leaves behind: the state, the answer, and the record handed to the notifier.
pub record Outcome (c : Codec) (D : Type 0) : Type 0 where
  pub state : EngineState c
  pub decision : D
  pub notified : Option (Parked c)

-- A window is over once more than `window` has passed.
abbrev pub expired : ℕ → ℕ → ℕ → Bool
expired window now at = ltb window (now - at)

-- The three loops of `prune`, at one key: expired pending edits leave, their sent content
-- becomes the baseline, and expired tombstones leave.
unfoldable pub live_pending : ℕ → ℕ → NatMap Pending → NatMap Pending
live_pending window now m id = elim (m id) [
  | none ↦ none
  | some p ↦ if expired window now p.at then none else some p
]

unfoldable pub committed : ℕ → ℕ → NatMap Pending → NatMap ℕ → NatMap ℕ
committed window now m b id = elim (m id) [
  | none ↦ b id
  | some p ↦ if expired window now p.at then some p.sent else b id
]

abbrev pub conflict_name : ℕ → Text
conflict_name n = b'c' ∷ decimal n

module _ {c : Codec} where
  abbrev pub present_side : ContentState c → Side c
  present_side s = record { present = true; content = some s }

  abbrev pub absent_side : Side c
  absent_side = record { present = false; content = none }

  abbrev pub side_hash : Side c → Option ℕ
  side_hash s = elim s.content [ none ↦ none | some k ↦ some k.hash ]

  abbrev pub quiet : {D : Type 0} → EngineState c → D → Outcome c D
  quiet s d = record { state = s; decision = d; notified = none }

  class_of : Option (ContentState c) → Option (ContentState c) → Text
  class_of (some k) o = k.class
  class_of none (some k) = k.class
  class_of none none = []

  -- `Parked::class` and `Parked::kind`
  unfoldable pub parked_class : Parked c → Text
  unfolding class_of
  parked_class p = class_of p.studio.content p.fs.content

  unfoldable pub parked_kind : Parked c → Text
  parked_kind p = if is_script (parked_class p) then codes "script" else codes "properties"

  -- The first record of an instance.
  abbrev pub of_instance : ℕ → Parked c → Bool
  of_instance id p = p.instance_ref == id

  abbrev pub find_parked : ℕ → List (Parked c) → Option (Parked c)
  find_parked id l = find_first (of_instance id) l

  abbrev pub remove_parked : ℕ → List (Parked c) → List (Parked c)
  remove_parked id l = remove_first (of_instance id) l

  abbrev pub modify_parked : ℕ → (Parked c → Parked c) → List (Parked c) → List (Parked c)
  modify_parked id f l = modify_first (of_instance id) f l

  unfoldable pub is_parked : EngineState c → ℕ → Bool
  is_parked s id = is_some (find_parked id s.parked)

  unfoldable pub baseline : EngineState c → ℕ → Option ℕ
  baseline s id = s.baselines id

  unfoldable pub stamp : EngineState c → ℕ → ℕ → EngineState c
  stamp s id hash = record s {
    baselines = insert id hash s.baselines;
    pending = remove id s.pending;
    tombstones = remove id s.tombstones;
  }

  unfoldable pub forget : EngineState c → ℕ → EngineState c
  forget s id = record s {
    baselines = remove id s.baselines;
    pending = remove id s.pending;
    tombstones = remove id s.tombstones;
  }

  unfoldable pub live_tombstones : ℕ → ℕ → NatMap (Tombstone c) → NatMap (Tombstone c)
  live_tombstones window now m id = elim (m id) [
    | none ↦ none
    | some t ↦ if leb (now - t.at) window then some t else none
  ]

  unfoldable pub prune : ℕ → EngineState c → EngineState c
  unfolding live_pending committed live_tombstones
  prune now s = record s {
    baselines = committed s.race_window now s.pending s.baselines;
    pending = live_pending s.race_window now s.pending;
    tombstones = live_tombstones s.race_window now s.tombstones;
  }

  -- `take`: by record id; the rest keeps its order.
  unfoldable pub take : EngineState c → Text → Option (Parked c × EngineState c)
  take s conflict_id = elim (find_first (λ p. text_eq p.id conflict_id) s.parked) [
    | none ↦ none
    | some p ↦ some (p, record s { parked = remove_first (λ p. text_eq p.id conflict_id) s.parked })
  ]

  unfoldable pub restore : EngineState c → Parked c → EngineState c
  restore s p = record s { parked = s.parked ++ p ∷ [] }

  -- The record that `park` would store.
  abbrev pub new_record :
      EngineState c
      → Classification
      → ℕ
      → InstanceInfo
      → Side c
      → Side c
      → Option (StudioApply c)
      → Now
      → Parked c
  new_record s k instance_ref info fs studio kept now = record {
    id = conflict_name s.next_id;
    instance_ref = instance_ref;
    info = info;
    classification = k;
    fs = fs;
    studio = studio;
    studio_apply = kept;
    detected_at = now.utc;
  }

  store_parked : EngineState c → Parked c → EngineState c
  store_parked s p = record s {
    parked = s.parked ++ p ∷ [];
    next_id = s.next_id + 1;
    pending = remove p.instance_ref s.pending;
    tombstones = remove p.instance_ref s.tombstones;
  }

  -- `park`: beyond the limit the record is dropped, and only the first time with a warning.
  unfoldable pub park : EngineState c → Parked c → EngineState c × Option (Parked c)
  unfolding store_parked
  park s p =
      if leb s.park_limit (length s.parked)
      then (record s { overflow_warned = true }, none)
      else (store_parked s p, some p)

  -- Every caller of `park` answers with a conflict and notifies of a record that was stored.
  unfoldable pub park_conflict : {D : Type 0} → D → EngineState c → Parked c → Outcome c D
  unfolding park
  park_conflict d s p =
      let (s', stored) = park s p in record { state = s'; decision = d; notified = stored }

-- `ConflictEngine::new`, with the two constants of src/constants.rs: the window is in milliseconds.
abbrev pub conflict_race_window : ℕ
conflict_race_window = 2000

abbrev pub conflict_park_limit : ℕ
conflict_park_limit = 512

unfoldable pub new_engine : (c : Codec) → EngineState c
new_engine c = record {
  baselines = empty_map;
  pending = empty_map;
  tombstones = empty_map;
  parked = [];
  next_id = 1;
  race_window = conflict_race_window;
  park_limit = conflict_park_limit;
  overflow_warned = false;
}
