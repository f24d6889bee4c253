-- ===== src/Conflict/Isolation.antt =====
-- A decision about one instance does not touch any other.
use wsync.Prelude.{
  ℕ, ◌≡◌, ◌≢◌, refl, Option, none, some, inl, inr, arith, Text, remove, Option-cases,
}
use wsync.Conflict.Content.{Codec, Properties, ContentState}
use wsync.Conflict.State.{
  Now, Captured, StudioApply, Parked, Tombstone, EngineState, PushDecision, find_parked, prune,
  park, park_conflict, stamp, forget, present_side, absent_side, new_record,
  fs_deleted_studio_edited, studio_deleted_fs_edited,
}
use wsync.Conflict.Fs.{
  on_fs_addition, on_fs_update, on_fs_removal, fold_fs, drop_fs, fs_update_parked,
  fs_update_pending, fs_update_idle, fs_update_free, fs_update_pruned, fs_removal_parked,
  fs_removal_free, fs_removal_pruned, seed,
}
use wsync.Conflict.Push.{
  on_push_addition, on_push_update, on_push_update_missing, on_push_removal,
  on_push_removal_missing, fold_studio, drop_studio, overlay, overlay_parked, apply_content,
  push_update_parked, park_both, push_update_pending, push_update_idle, push_update_free,
  push_update_pruned, update_missing_buried, update_missing_free, update_missing_pruned,
  push_removal_parked, push_removal_free, push_removal_pruned,
}
use wsync.Conflict.Records.{find_parked-modify_ne, find_parked-remove_ne, find_parked-append_ne}
use wsync.Conflict.Invariant.Push.{overlay_parked-instance}
use wsync.Conflict.Run.{Op, step}

-- All that the engine holds of instance `k` is the same in both states.
pub record Untouched (c : Codec) (k : ℕ) (s t : EngineState c) : Type 0 where
  pub record_kept : find_parked k t.parked ≡ find_parked k s.parked
  pub baseline_kept : t.baselines k ≡ s.baselines k
  pub pending_kept : t.pending k ≡ s.pending k
  pub tombstone_kept : t.tombstones k ≡ s.tombstones k

module _ {c : Codec} (k j : ℕ) (other : k ≢ j) (s : EngineState c) where
  park-Untouched :
      {D : Type 0} (d : D) (t : EngineState c) (p : Parked c)
      → p.instance_ref ≡ j
      → Untouched c k s t
      → Untouched c k s (park_conflict d t p).state
  unfolding park_conflict park
  park-Untouched d t p e u = ground (arith, find_parked-append_ne k t.parked p)

  fs_update_parked-Untouched :
      (post : ContentState c) (p : Parked c) → Untouched c k s (fs_update_parked s j post p).state
  unfolding fs_update_parked
  fs_update_parked-Untouched post p = ground (
    arith,
    find_parked-remove_ne k j s.parked other,
    find_parked-modify_ne (fold_fs post) (λ q. refl) k j s.parked other,
  )

  fs_removal_parked-Untouched : (p : Parked c) → Untouched c k s (fs_removal_parked s j p).state
  unfolding fs_removal_parked
  fs_removal_parked-Untouched p = ground (
    arith,
    find_parked-remove_ne k j s.parked other,
    find_parked-modify_ne drop_fs (λ q. refl) k j s.parked other,
  )

  push_update_parked-Untouched :
      (pushed : ContentState c) (kept : StudioApply c) (p : Parked c)
      → Untouched c k s (push_update_parked s j pushed kept p).state
  unfolding push_update_parked
  push_update_parked-Untouched pushed kept p = ground (
    arith,
    find_parked-remove_ne k j s.parked other,
    find_parked-modify_ne (fold_studio pushed kept) (λ q. refl) k j s.parked other,
  )

  push_removal_parked-Untouched : (p : Parked c) → Untouched c k s (push_removal_parked s j p).state
  unfolding push_removal_parked
  push_removal_parked-Untouched p = ground (
    arith,
    find_parked-remove_ne k j s.parked other,
    find_parked-modify_ne drop_studio (λ q. refl) k j s.parked other,
  )

  fs_update_free-Untouched :
      (pre : Captured c) (post : ContentState c) (now : Now)
      → pre.info.id ≡ j
      → Untouched c k s (fs_update_free s pre post now).state
  unfolding fs_update_free fs_update_pending fs_update_idle
  fs_update_free-Untouched pre post now e = ground arith

  fs_removal_free-Untouched :
      (pre : Captured c) (now : Now)
      → pre.info.id ≡ j
      → Untouched c k s (fs_removal_free s pre now).state
  unfolding fs_removal_free
  fs_removal_free-Untouched pre now e = ground arith

  park_both-Untouched :
      (t : EngineState c) (pre : Captured c) (pushed : ContentState c) (kept : StudioApply c)
      (now : Now)
      → pre.info.id ≡ j
      → Untouched c k s t
      → Untouched c k s (park_both t pre pushed kept now).state
  unfolding park_both
  park_both-Untouched t pre pushed kept now e u =
      park-Untouched {D = PushDecision} PushDecision.conflict t _ e u

  push_update_free-Untouched :
      (pre : Captured c) (pushed : ContentState c) (kept : StudioApply c) (now : Now)
      → pre.info.id ≡ j
      → Untouched c k s (push_update_free s pre pushed kept now).state
  unfolding push_update_free push_update_pending push_update_idle
  push_update_free-Untouched pre pushed kept now e =
      let s' = seed s pre.info.id pre.content.hash in
      ground (arith, park_both-Untouched s' pre pushed kept now e (ground arith))

  update_missing_buried-Untouched :
      (t : Tombstone c) (a : StudioApply c) (now : Now)
      → Untouched c k s (update_missing_buried s j a t now).state
  unfolding update_missing_buried
  update_missing_buried-Untouched t a now =
      let s' = record s { tombstones = remove j s.tombstones } in
      ground (
        arith,
        park-Untouched {D = PushDecision} PushDecision.conflict s'
            (new_record s' fs_deleted_studio_edited j t.info absent_side
              (present_side (apply_content a)) (some a) now)
            refl (ground arith),
      )

  update_missing_free-Untouched :
      (name : Option Text) (props : Option (Properties c)) (now : Now)
      → Untouched c k s (update_missing_free s j name props now).state
  unfolding update_missing_free
  update_missing_free-Untouched name props now = elim (Option-cases (s.tombstones j)) [
    | inl e ↦ rw (e, update_missing_free) (ground arith)
    | inr (t, e) ↦
        rw (e, update_missing_free)
          (update_missing_buried-Untouched t (overlay name props t.base) now)
  ]

  push_removal_free-Untouched :
      (pre : Captured c) (now : Now)
      → pre.info.id ≡ j
      → Untouched c k s (push_removal_free s pre now).state
  unfolding push_removal_free
  push_removal_free-Untouched pre now e =
      let s' = seed s pre.info.id pre.content.hash in
      ground (
        arith,
        park-Untouched {D = PushDecision} PushDecision.conflict s'
            (new_record s' studio_deleted_fs_edited pre.info.id pre.info (present_side pre.content)
              absent_side none now)
            e (ground arith),
      )

-- The instance that a call is about, and the time at which it first prunes.
abbrev pub subject : {c : Codec} → Op c → Option ℕ
subject (Op.fs_addition now id k) = some id
subject (Op.fs_update now pre post) = some pre.info.id
subject (Op.fs_removal now pre) = some pre.info.id
subject (Op.push_addition now id) = some id
subject (Op.push_update now pre k a) = some pre.info.id
subject (Op.push_update_missing now id name props) = some id
subject (Op.push_removal now pre) = some pre.info.id
subject (Op.push_removal_missing now id) = some id
subject (Op.stamps id hash) = some id
subject (Op.forgets id) = some id
subject (Op.takes name) = none
subject (Op.sets_race_window window) = none
subject (Op.sets_park_limit limit) = none

abbrev pub pruned : {c : Codec} → EngineState c → Op c → EngineState c
pruned s (Op.fs_addition now id k) = prune now.instant s
pruned s (Op.fs_update now pre post) = prune now.instant s
pruned s (Op.fs_removal now pre) = prune now.instant s
pruned s (Op.push_addition now id) = prune now.instant s
pruned s (Op.push_update now pre k a) = prune now.instant s
pruned s (Op.push_update_missing now id name props) = prune now.instant s
pruned s (Op.push_removal now pre) = prune now.instant s
pruned s (Op.push_removal_missing now id) = prune now.instant s
pruned s (Op.stamps id hash) = s
pruned s (Op.forgets id) = s
pruned s (Op.takes name) = s
pruned s (Op.sets_race_window window) = s
pruned s (Op.sets_park_limit limit) = s

module _ {c : Codec} (k j : ℕ) (other : k ≢ j) (s : EngineState c) where
  on_fs_update-Untouched :
      (now : Now) (pre : Captured c) (post : ContentState c)
      → pre.info.id ≡ j
      → Untouched c k (prune now.instant s) (on_fs_update s now pre post).state
  unfolding on_fs_update fs_update_pruned
  on_fs_update-Untouched now pre post same =
      let q = prune now.instant s in
      elim (Option-cases (find_parked pre.info.id q.parked)) [
        | inl free ↦
            rw (free, fs_update_pruned) (fs_update_free-Untouched k j other q pre post now same)
        | inr (p, found) ↦
            rw (found, fs_update_pruned)
              (fs_update_parked-Untouched k pre.info.id (rw same other) q post p)
      ]

  on_fs_removal-Untouched :
      (now : Now) (pre : Captured c)
      → pre.info.id ≡ j
      → Untouched c k (prune now.instant s) (on_fs_removal s now pre).state
  unfolding on_fs_removal fs_removal_pruned
  on_fs_removal-Untouched now pre same =
      let q = prune now.instant s in
      elim (Option-cases (find_parked pre.info.id q.parked)) [
        | inl free ↦
            rw (free, fs_removal_pruned) (fs_removal_free-Untouched k j other q pre now same)
        | inr (p, found) ↦
            rw (found, fs_removal_pruned)
              (fs_removal_parked-Untouched k pre.info.id (rw same other) q p)
      ]

  on_push_update-Untouched :
      (now : Now) (pre : Captured c) (pushed : ContentState c) (kept : StudioApply c)
      → pre.info.id ≡ j
      → Untouched c k (prune now.instant s) (on_push_update s now pre pushed kept).state
  unfolding on_push_update push_update_pruned
  on_push_update-Untouched now pre pushed kept same =
      let q = prune now.instant s in
      elim (Option-cases (find_parked pre.info.id q.parked)) [
        | inl free ↦
            rw (free, push_update_pruned)
              (push_update_free-Untouched k j other q pre pushed kept now same)
        | inr (p, found) ↦
            rw (found, push_update_pruned)
              (push_update_parked-Untouched k pre.info.id (rw same other) q pushed kept p)
      ]

  on_push_update_missing-Untouched :
      (now : Now) (name : Option Text) (props : Option (Properties c))
      → Untouched c k (prune now.instant s) (on_push_update_missing s now j name props).state
  unfolding on_push_update_missing update_missing_pruned
  on_push_update_missing-Untouched now name props =
      let q = prune now.instant s in
      elim (Option-cases (find_parked j q.parked)) [
        | inl free ↦
            rw (free, update_missing_pruned)
              (update_missing_free-Untouched k j other q name props now)
        | inr (p, found) ↦
            rw (found, update_missing_pruned)
              (ground (
                arith,
                find_parked-modify_ne (overlay_parked name props)
                    (overlay_parked-instance name props) k j q.parked,
              ))
      ]

  on_push_removal-Untouched :
      (now : Now) (pre : Captured c)
      → pre.info.id ≡ j
      → Untouched c k (prune now.instant s) (on_push_removal s now pre).state
  unfolding on_push_removal push_removal_pruned
  on_push_removal-Untouched now pre same =
      let q = prune now.instant s in
      elim (Option-cases (find_parked pre.info.id q.parked)) [
        | inl free ↦
            rw (free, push_removal_pruned) (push_removal_free-Untouched k j other q pre now same)
        | inr (p, found) ↦
            rw (found, push_removal_pruned)
              (push_removal_parked-Untouched k pre.info.id (rw same other) q p)
      ]

  -- A call about instance `j` leaves all that the engine holds of another instance `k` as it was,
  -- but for the windows and tombstones that are over at the time of the call.
  pub step-Untouched : (o : Op c) → subject o ≡ some j → Untouched c k (pruned s o) (step s o)
  unfolding step on_fs_addition on_push_addition on_push_removal_missing stamp forget
  step-Untouched (Op.fs_addition now id content) e = ground arith
  step-Untouched (Op.fs_update now pre post) e = on_fs_update-Untouched now pre post (ground arith)
  step-Untouched (Op.fs_removal now pre) e = on_fs_removal-Untouched now pre (ground arith)
  step-Untouched (Op.push_addition now id) e = ground arith
  step-Untouched (Op.push_update now pre pushed kept) e =
      on_push_update-Untouched now pre pushed kept (ground arith)
  step-Untouched (Op.push_update_missing now id name props) e =
      let same : id ≡ j = ground arith in rw same (on_push_update_missing-Untouched now name props)
  step-Untouched (Op.push_removal now pre) e = on_push_removal-Untouched now pre (ground arith)
  step-Untouched (Op.push_removal_missing now id) e =
      ground (arith, find_parked-remove_ne k id (prune now.instant s).parked)
  step-Untouched (Op.stamps id hash) e = ground arith
  step-Untouched (Op.forgets id) e = ground arith
  step-Untouched (Op.takes name) e = cc
  step-Untouched (Op.sets_race_window window) e = cc
  step-Untouched (Op.sets_park_limit limit) e = cc
