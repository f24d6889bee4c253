-- ===== src/Conflict/Run.antt =====
-- A history of the engine: the calls that its clients make, one after the other. Every method of
-- the engine holds the state's lock for the whole decision, so each call is one step.
use wsync.Prelude.{ℕ, Option, none, some, List, [], ◌∷◌, Text}
use wsync.Conflict.Content.{Codec, Properties, ContentState}
use wsync.Conflict.State.{Now, Captured, StudioApply, Parked, EngineState, stamp, forget, take}
use wsync.Conflict.Fs.{on_fs_addition, on_fs_update, on_fs_removal}
use wsync.Conflict.Push.{
  on_push_addition, on_push_update, on_push_update_missing, on_push_removal,
  on_push_removal_missing,
}

pub data Op (c : Codec) : Type 0 where
  fs_addition : Now → ℕ → ContentState c → Op c
  fs_update : Now → Captured c → ContentState c → Op c
  fs_removal : Now → Captured c → Op c
  push_addition : Now → ℕ → Op c
  push_update : Now → Captured c → ContentState c → StudioApply c → Op c
  push_update_missing : Now → ℕ → Option Text → Option (Properties c) → Op c
  push_removal : Now → Captured c → Op c
  push_removal_missing : Now → ℕ → Op c
  stamps : ℕ → ℕ → Op c
  forgets : ℕ → Op c
  takes : Text → Op c
  sets_race_window : ℕ → Op c
  sets_park_limit : ℕ → Op c

module _ {c : Codec} where
  abbrev pub after_take : EngineState c → Option (Parked c × EngineState c) → EngineState c
  after_take s none = s
  after_take s (some (p, s')) = s'

  unfoldable pub step : EngineState c → Op c → EngineState c
  step s (fs_addition now id k) = (on_fs_addition s now id k).state
  step s (fs_update now pre post) = (on_fs_update s now pre post).state
  step s (fs_removal now pre) = (on_fs_removal s now pre).state
  step s (push_addition now id) = (on_push_addition s now id).state
  step s (push_update now pre k a) = (on_push_update s now pre k a).state
  step s (push_update_missing now id name props) =
      (on_push_update_missing s now id name props).state
  step s (push_removal now pre) = (on_push_removal s now pre).state
  step s (push_removal_missing now id) = (on_push_removal_missing s now id).state
  step s (stamps id hash) = stamp s id hash
  step s (forgets id) = forget s id
  step s (takes name) = after_take s (take s name)
  step s (sets_race_window window) = record s { race_window = window }
  step s (sets_park_limit limit) = record s { park_limit = limit }

  unfoldable pub run : EngineState c → List (Op c) → EngineState c
  run s [] = s
  run s (o ∷ os) = run (step s o) os
