-- ===== src/Conflict/Invariant/Push.antt =====
-- Decisions on changes that Studio pushes keep the invariant.
use wsync.Prelude.{
  ℕ, ◌≡◌, refl, true, Option, none, some, inl, inr, arith, Text, unwrap_or, insert, remove,
  Option-cases, Bool-cases,
}
use wsync.Conflict.Content.{Codec, Properties, ContentState}
use wsync.Conflict.State.{
  Now, Captured, StudioApply, Parked, Pending, Tombstone, EngineState, PushDecision, find_parked,
  prune, park_conflict, conflict, fs_deleted_studio_edited, studio_deleted_fs_edited, absent_side,
  present_side, new_record,
}
use wsync.Conflict.Fs.{seed}
use wsync.Conflict.Push.{
  on_push_addition, on_push_update, on_push_update_missing, on_push_removal,
  on_push_removal_missing, fold_studio, drop_studio, apply_content, overlay, overlay_parked,
  push_update_parked, park_both, push_update_pending, push_update_idle, push_update_free,
  push_update_pruned, update_missing_buried, update_missing_free, update_missing_pruned,
  push_removal_parked, push_removal_free, push_removal_pruned,
}
use wsync.Conflict.Invariant.{
  IsCoherent, Inv, Shrinks-remove, tables-Inv, prune-Inv, remove_parked-Inv, modify_parked-Inv,
  park-Inv,
}
use wsync.Conflict.Invariant.Fs.{seed-Inv, close_window-Inv}

module _ {c : Codec} where
  fold_studio-IsCoherent :
      (k : ContentState c) (a : StudioApply c) (p : Parked c)
      → IsCoherent c p
      → IsCoherent c (fold_studio k a p)
  fold_studio-IsCoherent k a p h = ground arith

  drop_studio-IsCoherent :
      (p : Parked c) → p.fs.present ≡ true → IsCoherent c p → IsCoherent c (drop_studio p)
  drop_studio-IsCoherent p e h = ground arith

  overlay_parked-IsCoherent :
      (name : Option Text) (props : Option (Properties c)) (p : Parked c)
      → IsCoherent c p
      → IsCoherent c (overlay_parked name props p)
  overlay_parked-IsCoherent name props p h = ground arith

  pub overlay_parked-instance :
      (name : Option Text) (props : Option (Properties c)) (p : Parked c)
      → (overlay_parked name props p).instance_ref ≡ p.instance_ref
  overlay_parked-instance name props p = ground arith

  park_conflict-Inv :
      {D : Type 0} (d : D) (s : EngineState c) (p : Parked c)
      → find_parked p.instance_ref s.parked ≡ none
      → IsCoherent c p
      → Inv c s
      → Inv c (park_conflict d s p).state
  unfolding park_conflict
  park_conflict-Inv d s p free fits v = park-Inv s p free fits v

  park_both-Inv :
      (s : EngineState c) (pre : Captured c) (k : ContentState c) (a : StudioApply c) (now : Now)
      → find_parked pre.info.id s.parked ≡ none
      → Inv c s
      → Inv c (park_both s pre k a now).state
  unfolding park_both
  park_both-Inv s pre k a now free v =
      park_conflict-Inv {D = PushDecision} conflict s _ free (ground arith) v

  set_baseline-Inv :
      (s : EngineState c) (id hash : ℕ)
      → Inv c s
      → Inv c (record s { baselines = insert id hash s.baselines })
  set_baseline-Inv s id hash v = tables-Inv s _ s.pending s.tombstones (λ j h. h) (λ j h. h) v

  pub on_push_addition-Inv :
      (s : EngineState c) (now : Now) (id : ℕ) → Inv c s → Inv c (on_push_addition s now id).state
  unfolding on_push_addition
  on_push_addition-Inv s now id v =
      let q = prune now.instant s in
      tables-Inv q q.baselines q.pending _ (λ j h. h) (Shrinks-remove id q.tombstones)
        (prune-Inv now.instant s v)

  push_update_parked-Inv :
      (s : EngineState c) (id : ℕ) (k : ContentState c) (a : StudioApply c) (p : Parked c)
      → Inv c s
      → Inv c (push_update_parked s id k a p).state
  unfolding push_update_parked
  push_update_parked-Inv s id k a p v = ground (
    arith,
    tables-Inv _ (insert id k.hash s.baselines) s.pending s.tombstones (λ j h. h) (λ j h. h)
        (remove_parked-Inv s id v),
    modify_parked-Inv s id (fold_studio k a) (λ q. refl) (λ q e. fold_studio-IsCoherent k a q) v,
  )

  push_update_pending-Inv :
      (s : EngineState c) (pre : Captured c) (k : ContentState c) (a : StudioApply c) (now : Now)
      (w : Pending)
      → find_parked pre.info.id s.parked ≡ none
      → Inv c s
      → Inv c (push_update_pending s pre k a now w).state
  unfolding push_update_pending
  push_update_pending-Inv s pre k a now w free v =
      ground (arith, close_window-Inv s pre.info.id w.sent v, park_both-Inv s pre k a now free v)

  push_update_idle-Inv :
      (s : EngineState c) (pre : Captured c) (k : ContentState c) (a : StudioApply c) (now : Now)
      (base : ℕ)
      → find_parked pre.info.id s.parked ≡ none
      → Inv c s
      → Inv c (push_update_idle s pre k a now base).state
  unfolding push_update_idle
  push_update_idle-Inv s pre k a now base free v =
      ground (arith, set_baseline-Inv s pre.info.id k.hash v, park_both-Inv s pre k a now free v)

  push_update_free-Inv :
      (s : EngineState c) (pre : Captured c) (k : ContentState c) (a : StudioApply c) (now : Now)
      → find_parked pre.info.id s.parked ≡ none
      → Inv c s
      → Inv c (push_update_free s pre k a now).state
  unfolding push_update_free
  push_update_free-Inv s pre k a now free v =
      let id = pre.info.id in
      let base = unwrap_or (s.baselines id) pre.content.hash in
      let s' = seed s id pre.content.hash in
      let v' = seed-Inv s id pre.content.hash v in
      elim (Option-cases (s.pending id)) [
        | inl e ↦ rw (e, push_update_free) (push_update_idle-Inv s' pre k a now base free v')
        | inr (w, e) ↦ rw (e, push_update_free) (push_update_pending-Inv s' pre k a now w free v')
      ]

  pub on_push_update-Inv :
      (s : EngineState c) (now : Now) (pre : Captured c) (k : ContentState c) (a : StudioApply c)
      → Inv c s
      → Inv c (on_push_update s now pre k a).state
  unfolding on_push_update push_update_pruned
  on_push_update-Inv s now pre k a v =
      let q = prune now.instant s in
      let w = prune-Inv now.instant s v in
      elim (Option-cases (find_parked pre.info.id q.parked)) [
        | inl e ↦ rw (e, push_update_pruned) (push_update_free-Inv q pre k a now e w)
        | inr (p, e) ↦ rw (e, push_update_pruned) (push_update_parked-Inv q pre.info.id k a p w)
      ]

  update_missing_buried-Inv :
      (s : EngineState c) (id : ℕ) (a : StudioApply c) (t : Tombstone c) (now : Now)
      → find_parked id s.parked ≡ none
      → Inv c s
      → Inv c (update_missing_buried s id a t now).state
  unfolding update_missing_buried
  update_missing_buried-Inv s id a t now free v =
      let s' = record s { tombstones = remove id s.tombstones } in
      ground (
        arith,
        park_conflict-Inv {D = PushDecision} conflict s'
            (new_record s' fs_deleted_studio_edited id t.info absent_side
              (present_side (apply_content a)) (some a) now)
            free (ground arith)
            (tables-Inv s s.baselines s.pending _ (λ j h. h) (Shrinks-remove id s.tombstones) v),
      )

  pub on_push_update_missing-Inv :
      (s : EngineState c) (now : Now) (id : ℕ) (name : Option Text) (props : Option (Properties c))
      → Inv c s
      → Inv c (on_push_update_missing s now id name props).state
  unfolding on_push_update_missing update_missing_pruned update_missing_free
  on_push_update_missing-Inv s now id name props v =
      let q = prune now.instant s in
      let w = prune-Inv now.instant s v in
      elim (Option-cases (find_parked id q.parked)) [
        | inr (p, e) ↦
            rw (e, update_missing_pruned)
              (modify_parked-Inv q id (overlay_parked name props)
                (overlay_parked-instance name props)
                (λ r found. overlay_parked-IsCoherent name props r) w)
        | inl e ↦
            rw (e, update_missing_pruned)
              (elim (Option-cases (q.tombstones id)) [
                | inl none_left ↦ rw (none_left, update_missing_free) w
                | inr (t, buried) ↦
                    rw (buried, update_missing_free)
                      (update_missing_buried-Inv q id (overlay name props t.base) t now e w)
              ])
      ]

  push_removal_parked-Inv :
      (s : EngineState c) (id : ℕ) (p : Parked c)
      → find_parked id s.parked ≡ some p
      → Inv c s
      → Inv c (push_removal_parked s id p).state
  unfolding push_removal_parked
  push_removal_parked-Inv s id p e v = elim (Bool-cases p.fs.present) [
    | inl there ↦
        rw (there, push_removal_parked)
          (modify_parked-Inv s id drop_studio (λ q. refl)
            (λ q found. drop_studio-IsCoherent q (ground arith)) v)
    | inr gone ↦
        rw (gone, push_removal_parked)
          (tables-Inv _ _ s.pending s.tombstones (λ j h. h) (λ j h. h) (remove_parked-Inv s id v))
  ]

  push_removal_free-Inv :
      (s : EngineState c) (pre : Captured c) (now : Now)
      → find_parked pre.info.id s.parked ≡ none
      → Inv c s
      → Inv c (push_removal_free s pre now).state
  unfolding push_removal_free
  push_removal_free-Inv s pre now free v =
      let id = pre.info.id in
      let s' = seed s id pre.content.hash in
      let v' = seed-Inv s id pre.content.hash v in
      ground (
        arith,
        v',
        park_conflict-Inv {D = PushDecision} conflict s'
            (new_record s' studio_deleted_fs_edited id pre.info (present_side pre.content)
              absent_side none now)
            free (ground arith) v',
      )

  pub on_push_removal-Inv :
      (s : EngineState c) (now : Now) (pre : Captured c)
      → Inv c s
      → Inv c (on_push_removal s now pre).state
  unfolding on_push_removal push_removal_pruned
  on_push_removal-Inv s now pre v =
      let q = prune now.instant s in
      let w = prune-Inv now.instant s v in
      elim (Option-cases (find_parked pre.info.id q.parked)) [
        | inl e ↦ rw (e, push_removal_pruned) (push_removal_free-Inv q pre now e w)
        | inr (p, e) ↦ rw (e, push_removal_pruned) (push_removal_parked-Inv q pre.info.id p e w)
      ]

  pub on_push_removal_missing-Inv :
      (s : EngineState c) (now : Now) (id : ℕ)
      → Inv c s
      → Inv c (on_push_removal_missing s now id).state
  unfolding on_push_removal_missing
  on_push_removal_missing-Inv s now id v =
      let q = prune now.instant s in
      tables-Inv _ _ q.pending _ (λ j h. h) (Shrinks-remove id q.tombstones)
        (remove_parked-Inv q id (prune-Inv now.instant s v))
