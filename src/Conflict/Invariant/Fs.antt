-- ===== src/Conflict/Invariant/Fs.antt =====
-- Decisions on changes from disk keep the invariant.
use wsync.Prelude.{
  ℕ, ◌≡◌, refl, true, some, inl, inr, arith, unwrap_or, insert, remove, Option-cases, Bool-cases,
}
use wsync.Conflict.Content.{Codec, ContentState}
use wsync.Conflict.State.{Now, Captured, Parked, Pending, EngineState, find_parked, prune}
use wsync.Conflict.Fs.{
  on_fs_addition, on_fs_update, on_fs_removal, fold_fs, drop_fs, fs_update_parked,
  fs_update_pending, fs_update_idle, fs_update_free, fs_update_pruned, fs_removal_parked,
  fs_removal_free, fs_removal_pruned, seed,
}
use wsync.Conflict.Records.{Fresh, find_parked-Fresh}
use wsync.Conflict.Invariant.{
  IsCoherent, Inv, Shrinks-remove, tables-Inv, prune-Inv, remove_parked-Inv, modify_parked-Inv,
  IsSettled-insert_pending, IsSettled-insert_tombstone,
}

module _ {c : Codec} where
  pub on_fs_addition-Inv :
      (s : EngineState c) (now : Now) (id : ℕ) (k : ContentState c)
      → Inv c s
      → Inv c (on_fs_addition s now id k).state
  unfolding on_fs_addition
  on_fs_addition-Inv s now id k v =
      let q = prune now.instant s in
      tables-Inv q _ _ _ (λ j h. h) (Shrinks-remove id q.tombstones) (prune-Inv now.instant s v)

  -- A change of the record of an instance that is parked.
  fold_fs-IsCoherent :
      (k : ContentState c) (p : Parked c) → IsCoherent c p → IsCoherent c (fold_fs k p)
  fold_fs-IsCoherent k p h = ground arith

  drop_fs-IsCoherent :
      (p : Parked c) → p.studio.present ≡ true → IsCoherent c p → IsCoherent c (drop_fs p)
  drop_fs-IsCoherent p e h = ground arith

  fs_update_parked-Inv :
      (s : EngineState c) (id : ℕ) (post : ContentState c) (p : Parked c)
      → Inv c s
      → Inv c (fs_update_parked s id post p).state
  unfolding fs_update_parked
  fs_update_parked-Inv s id post p v = ground (
    arith,
    tables-Inv _ (insert id post.hash s.baselines) s.pending s.tombstones (λ j h. h) (λ j h. h)
        (remove_parked-Inv s id v),
    modify_parked-Inv s id (fold_fs post) (λ q. refl) (λ q e. fold_fs-IsCoherent post q) v,
  )

  pub seed-Inv : (s : EngineState c) (id hash : ℕ) → Inv c s → Inv c (seed s id hash)
  seed-Inv s id hash v = tables-Inv s _ s.pending s.tombstones (λ j h. h) (λ j h. h) v

  -- An edit opens or prolongs the race window of an instance that is not parked.
  open_window-Inv :
      (s : EngineState c) (id : ℕ) (e : Pending)
      → Fresh id s.parked
      → Inv c s
      → Inv c (record s { pending = insert id e s.pending })
  open_window-Inv s id e f v = record {
    coherent = v.coherent;
    distinct = v.distinct;
    settled = IsSettled-insert_pending id e s.pending s.tombstones s.parked f v.settled;
  }

  pub close_window-Inv :
      (s : EngineState c) (id hash : ℕ)
      → Inv c s
      → Inv c (record s { pending = remove id s.pending; baselines = insert id hash s.baselines })
  close_window-Inv s id hash v =
      tables-Inv s _ _ s.tombstones (Shrinks-remove id s.pending) (λ j h. h) v

  fs_update_pending-Inv :
      (s : EngineState c) (id : ℕ) (post : ContentState c) (now : Now) (w : Pending)
      → Fresh id s.parked
      → Inv c s
      → Inv c (fs_update_pending s id post now w).state
  unfolding fs_update_pending
  fs_update_pending-Inv s id post now w f v = ground (
    arith,
    close_window-Inv s id w.prior v,
    open_window-Inv s id (record w { sent = post.hash; at = now.instant }) f v,
  )

  fs_update_idle-Inv :
      (s : EngineState c) (id : ℕ) (post : ContentState c) (now : Now) (base : ℕ)
      → Fresh id s.parked
      → Inv c s
      → Inv c (fs_update_idle s id post now base).state
  unfolding fs_update_idle
  fs_update_idle-Inv s id post now base f v = ground (
    arith,
    open_window-Inv s id (record { prior = base; sent = post.hash; at = now.instant }) f v,
  )

  fs_update_free-Inv :
      (s : EngineState c) (pre : Captured c) (post : ContentState c) (now : Now)
      → Fresh pre.info.id s.parked
      → Inv c s
      → Inv c (fs_update_free s pre post now).state
  unfolding fs_update_free
  fs_update_free-Inv s pre post now f v =
      let id = pre.info.id in
      let base = unwrap_or (s.baselines id) pre.content.hash in
      let s' = seed s id pre.content.hash in
      let v' = seed-Inv s id pre.content.hash v in
      elim (Option-cases (s.pending id)) [
        | inl e ↦ rw (e, fs_update_free) (fs_update_idle-Inv s' id post now base f v')
        | inr (w, e) ↦ rw (e, fs_update_free) (fs_update_pending-Inv s' id post now w f v')
      ]

  pub on_fs_update-Inv :
      (s : EngineState c) (now : Now) (pre : Captured c) (post : ContentState c)
      → Inv c s
      → Inv c (on_fs_update s now pre post).state
  unfolding on_fs_update fs_update_pruned
  on_fs_update-Inv s now pre post v =
      let q = prune now.instant s in
      let w = prune-Inv now.instant s v in
      elim (Option-cases (find_parked pre.info.id q.parked)) [
        | inl e ↦
            rw (e, fs_update_pruned)
              (fs_update_free-Inv q pre post now (find_parked-Fresh pre.info.id q.parked e) w)
        | inr (p, e) ↦ rw (e, fs_update_pruned) (fs_update_parked-Inv q pre.info.id post p w)
      ]

  fs_removal_parked-Inv :
      (s : EngineState c) (id : ℕ) (p : Parked c)
      → find_parked id s.parked ≡ some p
      → Inv c s
      → Inv c (fs_removal_parked s id p).state
  unfolding fs_removal_parked
  fs_removal_parked-Inv s id p e v = elim (Bool-cases p.studio.present) [
    | inl there ↦
        rw (there, fs_removal_parked)
          (modify_parked-Inv s id drop_fs (λ q. refl)
            (λ q found. drop_fs-IsCoherent q (ground arith)) v)
    | inr gone ↦
        rw (gone, fs_removal_parked)
          (tables-Inv _ _ _ s.tombstones (Shrinks-remove id s.pending) (λ j h. h)
            (remove_parked-Inv s id v))
  ]

  pub on_fs_removal-Inv :
      (s : EngineState c) (now : Now) (pre : Captured c)
      → Inv c s
      → Inv c (on_fs_removal s now pre).state
  unfolding on_fs_removal fs_removal_pruned fs_removal_free
  on_fs_removal-Inv s now pre v =
      let id = pre.info.id in
      let q = prune now.instant s in
      let w = prune-Inv now.instant s v in
      elim (Option-cases (find_parked id q.parked)) [
        | inl e ↦
            let closed =
              tables-Inv q (remove id q.baselines) (remove id q.pending) q.tombstones
                (Shrinks-remove id q.pending) (λ j h. h) w in
            rw (e, fs_removal_pruned)
              (record {
                coherent = closed.coherent;
                distinct = closed.distinct;
                settled =
                    IsSettled-insert_tombstone id _ (remove id q.pending) q.tombstones q.parked
                      (find_parked-Fresh id q.parked e) closed.settled;
              })
        | inr (p, e) ↦ rw (e, fs_removal_pruned) (fs_removal_parked-Inv q id p e w)
      ]
