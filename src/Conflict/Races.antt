-- ===== src/Conflict/Races.antt =====
-- The race window: an edit from disk that Studio has not confirmed, and a deletion on disk that
-- Studio has not seen.
use wsync.Prelude.{
  ◌∙◌, ap, ◌-◌, ◌≤◌, ◌<◌, ◌≡◌, ◌≢◌, refl, none, some, ◌∷◌, ◌++◌, [], arith, unwrap_or, length,
}
use wsync.Conflict.Content.{Codec, ContentState}
use wsync.Conflict.State.{
  Now, Captured, StudioApply, Parked, Pending, EngineState, propagate, conflict, apply, no_change,
  find_parked, prune, park, park_conflict, new_record, both_edited, present_side,
}
use wsync.Conflict.Fs.{on_fs_update, fs_update_free, fs_update_idle, fs_update_pruned, seed}
use wsync.Conflict.Push.{
  on_push_update, park_both, push_update_pending, push_update_idle, push_update_free,
  push_update_pruned,
}
use wsync.Conflict.Decisions.{current, agreed}

module _ {c : Codec} where
  -- An edit of an instance that is neither parked nor in a window opens one: the edit is sent, the
  -- agreement is kept, and no record changes.
  fs_update-opens :
      (s : EngineState c) (now : Now) (pre : Captured c) (post : ContentState c)
      → find_parked pre.info.id s.parked ≡ none
      → (current s now).pending pre.info.id ≡ none
      → post.hash ≢ agreed s now pre
      → let o = on_fs_update s now pre post in
        (o.decision ≡ propagate)
        × (o.state.pending pre.info.id
            ≡ some (record { prior = agreed s now pre; sent = post.hash; at = now.instant }))
        × (o.state.baselines pre.info.id ≡ some (agreed s now pre))
        × (o.state.parked ≡ s.parked)
        × (o.state.race_window ≡ s.race_window)
        × (o.state.park_limit ≡ s.park_limit)
  unfolding on_fs_update fs_update_pruned fs_update_free fs_update_idle prune
  fs_update-opens s now pre post free idle new =
      rw (free, idle, fs_update_pruned, fs_update_free) (ground arith)

  -- A push in an open window.
  push_update-in_window :
      (s : EngineState c) (now : Now) (pre : Captured c) (pushed : ContentState c)
      (kept : StudioApply c) (w : Pending)
      → find_parked pre.info.id s.parked ≡ none
      → s.pending pre.info.id ≡ some w
      → now.instant - w.at ≤ s.race_window
      → let o = on_push_update s now pre pushed kept in
        (pushed.hash ≡ w.sent
          → (o.decision ≡ no_change)
            × (o.state.baselines pre.info.id ≡ some w.sent)
            × (o.state.pending pre.info.id ≡ none))
        × (pushed.hash ≢ w.sent
            → pushed.hash ≡ w.prior
            → (o.decision ≡ no_change) × (o.state.parked ≡ s.parked))
        × (pushed.hash ≢ w.sent
            → pushed.hash ≢ w.prior
            → (o.decision ≡ conflict)
              × (o.state.baselines pre.info.id
                  ≡ some (unwrap_or (s.baselines pre.info.id) pre.content.hash))
              × (length s.parked < s.park_limit
                  → (p : Parked c) × (o.state.parked ≡ s.parked ++ p ∷ [])
                    × (o.notified ≡ some p)
                    × (p.instance_ref ≡ pre.info.id)
                    × (p.classification ≡ both_edited)
                    × (p.fs ≡ present_side pre.content)
                    × (p.studio ≡ present_side pushed)))
  unfolding on_push_update push_update_pruned push_update_free push_update_pending park_both
      park_conflict park prune
  push_update-in_window s now pre pushed kept w free inside h = (
    (λ e. ground arith),
    (λ n e. ground arith),
    (λ n m. (
      ground arith,
      ground arith,
      (λ room. (
        new_record (seed (current s now) pre.info.id pre.content.hash) both_edited pre.info.id
            pre.info (present_side pre.content) (present_side pushed) (some kept) now,
        ground arith,
        ground arith,
        refl,
        refl,
        refl,
        refl,
      )),
    )),
  )

  -- A push after the window, while disk holds what was sent.
  push_update-expired :
      (s : EngineState c) (now : Now) (pre : Captured c) (pushed : ContentState c)
      (kept : StudioApply c) (w : Pending)
      → find_parked pre.info.id s.parked ≡ none
      → s.pending pre.info.id ≡ some w
      → pre.content.hash ≡ w.sent
      → s.race_window < now.instant - w.at
      → let o = on_push_update s now pre pushed kept in
        (o.state.baselines pre.info.id ≡ some w.sent)
        × (o.state.pending pre.info.id ≡ none)
        × (o.state.parked ≡ s.parked)
        × (pushed.hash ≡ w.sent → o.decision ≡ no_change)
        × (pushed.hash ≢ w.sent → o.decision ≡ apply)
  unfolding on_push_update push_update_pruned push_update_free push_update_idle prune
  push_update-expired s now pre pushed kept w free inside disk late = ground arith

  -- Take an instance that is not parked and has no race window open when an edit from disk comes,
  -- an edit that differs from the agreed content, and the next call, a push of this instance by
  -- Studio at most the race window later. The edit is propagated. If the push is the edit, it is
  -- agreed. If the push is the agreed content, which Studio had before the edit, it is dropped. Any
  -- other push is a conflict: the agreement stays what it was, and a record with both contents is
  -- parked and announced, unless the limit is reached.
  pub racing_push :
      (s : EngineState c) (t₀ t₁ : Now) (pre pre' : Captured c) (post pushed : ContentState c)
      (kept : StudioApply c)
      → find_parked pre.info.id s.parked ≡ none
      → (current s t₀).pending pre.info.id ≡ none
      → post.hash ≢ agreed s t₀ pre
      → pre'.info.id ≡ pre.info.id
      → t₁.instant - t₀.instant ≤ s.race_window
      → let o = on_fs_update s t₀ pre post in
        let q = on_push_update o.state t₁ pre' pushed kept in
        (o.decision ≡ propagate)
        × (pushed.hash ≡ post.hash
            → (q.decision ≡ no_change) × (q.state.baselines pre.info.id ≡ some post.hash))
        × (pushed.hash ≢ post.hash
            → pushed.hash ≡ agreed s t₀ pre
            → (q.decision ≡ no_change) × (q.state.parked ≡ s.parked))
        × (pushed.hash ≢ post.hash
            → pushed.hash ≢ agreed s t₀ pre
            → (q.decision ≡ conflict)
              × (q.state.baselines pre.info.id ≡ some (agreed s t₀ pre))
              × (length s.parked < s.park_limit
                  → (p : Parked c) × (q.state.parked ≡ s.parked ++ p ∷ [])
                    × (q.notified ≡ some p)
                    × (p.instance_ref ≡ pre.info.id)
                    × (p.classification ≡ both_edited)
                    × (p.fs ≡ present_side pre'.content)
                    × (p.studio ≡ present_side pushed)))
  racing_push s t₀ t₁ pre pre' post pushed kept free idle new same inside =
      let t = (on_fs_update s t₀ pre post).state in
      let (sent, open_window, kept_base, records, window, limit) =
        fs_update-opens s t₀ pre post free idle new in
      let (echo, stale, clash) =
        push_update-in_window t t₁ pre' pushed kept
          (record { prior = agreed s t₀ pre; sent = post.hash; at = t₀.instant })
          (rw (same, records) free) (rw same open_window) (rw window inside) in
      (
        sent,
        (λ e. ground (arith, echo e)),
        (λ n e. ground (arith, stale n e)),
        (λ n m.
            let (held, base, store) = clash n m in
            (
              held,
              ground arith,
              (λ room.
                  let (p, listed, told, who, kind, disk, studio) =
                    store (rw (records, limit) room) in
                  (
                    p,
                    listed ∙ ap (λ l. l ++ p ∷ []) records,
                    told,
                    who ∙ same,
                    kind,
                    disk,
                    studio,
                  )),
            )),
      )

  -- Take the same edit, and as the next call a push of the instance that comes after the window,
  -- while disk still holds the edit. The edit is then agreed: a push of it changes nothing, and a
  -- push of anything else is applied.
  pub late_push :
      (s : EngineState c) (t₀ t₁ : Now) (pre pre' : Captured c) (post pushed : ContentState c)
      (kept : StudioApply c)
      → find_parked pre.info.id s.parked ≡ none
      → (current s t₀).pending pre.info.id ≡ none
      → post.hash ≢ agreed s t₀ pre
      → pre'.info.id ≡ pre.info.id
      → pre'.content.hash ≡ post.hash
      → s.race_window < t₁.instant - t₀.instant
      → let q = on_push_update (on_fs_update s t₀ pre post).state t₁ pre' pushed kept in
        (q.state.baselines pre.info.id ≡ some post.hash)
        × (q.state.pending pre.info.id ≡ none)
        × (q.state.parked ≡ s.parked)
        × (pushed.hash ≡ post.hash → q.decision ≡ no_change)
        × (pushed.hash ≢ post.hash → q.decision ≡ apply)
  late_push s t₀ t₁ pre pre' post pushed kept free idle new same disk late =
      let (sent, open_window, kept_base, records, window, limit) =
        fs_update-opens s t₀ pre post free idle new in
      let (base, closed, list, echo, other) =
        push_update-expired (on_fs_update s t₀ pre post).state t₁ pre' pushed kept
          (record { prior = agreed s t₀ pre; sent = post.hash; at = t₀.instant })
          (rw (same, records) free) (rw same open_window) disk (rw window late) in
      (ground (arith, base), ground (arith, closed), list ∙ records, echo, other)
