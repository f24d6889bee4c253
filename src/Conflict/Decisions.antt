-- ===== src/Conflict/Decisions.antt =====
-- When a change is let through, and when the engine holds it back.
use wsync.Prelude.{ℕ, ◌≡◌, ◌≢◌, ◌↔◌, refl, true, false, Option, none, some, arith, Text, unwrap_or}
use wsync.Conflict.Content.{Codec, Properties, ContentState}
use wsync.Conflict.State.{
  Now, Captured, StudioApply, Parked, EngineState, propagate, apply, no_change, find_parked,
  remove_parked, side_hash, is_parked, prune, park_conflict,
}
use wsync.Conflict.Fs.{
  on_fs_update, on_fs_removal, fs_update_parked, fs_update_pruned, fs_removal_parked,
  fs_removal_pruned,
}
use wsync.Conflict.Push.{
  on_push_update, on_push_update_missing, on_push_removal, push_update_parked, park_both,
  push_update_pending, push_update_idle, push_update_free, push_update_pruned,
  update_missing_pruned, push_removal_parked, push_removal_free, push_removal_pruned,
}

module _ {c : Codec} (s : EngineState c) (now : Now) where
  -- The state that a decision at this time looks at.
  abbrev pub current : EngineState c
  current = prune now.instant s

  -- What disk and Studio last agreed on; on first touch, what the tree holds.
  abbrev pub agreed : Captured c → ℕ
  agreed pre = unwrap_or (current.baselines pre.info.id) pre.content.hash

  park_conflict-decision :
      {D : Type 0} (d : D) (t : EngineState c) (p : Parked c) → (park_conflict d t p).decision ≡ d
  unfolding park_conflict
  park_conflict-decision d t p = refl

  -- A pushed update is applied exactly when the instance is not parked, no edit from disk is in
  -- its race window, the push differs from disk, and disk still holds what was agreed.
  pub push_update_applies_iff :
      (pre : Captured c) (pushed : ContentState c) (kept : StudioApply c)
      → ((on_push_update s now pre pushed kept).decision ≡ apply) ↔ (
          (is_parked s pre.info.id ≡ false)
          × (current.pending pre.info.id ≡ none)
          × (pushed.hash ≢ pre.content.hash)
          × (agreed pre ≡ pre.content.hash))
  unfolding on_push_update push_update_pruned push_update_parked push_update_free
      push_update_pending push_update_idle park_both park_conflict is_parked prune
  push_update_applies_iff pre pushed kept = ground arith

  -- A pushed removal is applied exactly when the instance is not parked, no edit from disk is in
  -- its race window, and disk still holds what was agreed.
  pub push_removal_applies_iff :
      (pre : Captured c)
      → ((on_push_removal s now pre).decision ≡ apply) ↔ (
          (is_parked s pre.info.id ≡ false)
          × (current.pending pre.info.id ≡ none)
          × (agreed pre ≡ pre.content.hash))
  unfolding on_push_removal push_removal_pruned push_removal_parked push_removal_free park_conflict
      is_parked prune
  push_removal_applies_iff pre = ground arith

  -- While an instance is parked, no update and no removal of it from disk is propagated to Studio, and no
  -- update and no removal of it from Studio is applied, whether or not the tree still has the instance
  -- when Studio's update comes.
  pub parked_withholds :
      (pre : Captured c) (post pushed : ContentState c) (kept : StudioApply c) (name : Option Text)
      (props : Option (Properties c))
      → is_parked s pre.info.id ≡ true
      → ((on_fs_update s now pre post).decision ≢ propagate)
        × ((on_fs_removal s now pre).decision ≢ propagate)
        × ((on_push_update s now pre pushed kept).decision ≢ apply)
        × ((on_push_update_missing s now pre.info.id name props).decision ≢ apply)
        × ((on_push_removal s now pre).decision ≢ apply)
  unfolding on_fs_update fs_update_pruned fs_update_parked on_fs_removal fs_removal_pruned
      fs_removal_parked on_push_update push_update_pruned push_update_parked on_push_update_missing
      update_missing_pruned on_push_removal push_removal_pruned push_removal_parked is_parked prune
  parked_withholds pre post pushed kept name props h = ground arith

  -- A parked conflict is over when disk takes Studio's content, or Studio takes the disk's: the
  -- record leaves, the common content is agreed, and nothing is sent.
  pub parked_converges :
      (pre : Captured c) (k : ContentState c) (kept : StudioApply c) (p : Parked c)
      → find_parked pre.info.id s.parked ≡ some p
      → (side_hash p.studio ≡ some k.hash
          → ((on_fs_update s now pre k).decision ≡ no_change)
            × ((on_fs_update s now pre k).state.parked ≡ remove_parked pre.info.id s.parked)
            × ((on_fs_update s now pre k).state.baselines pre.info.id ≡ some k.hash))
        × (side_hash p.fs ≡ some k.hash
            → ((on_push_update s now pre k kept).decision ≡ no_change)
              × ((on_push_update s now pre k kept).state.parked
                  ≡ remove_parked pre.info.id s.parked)
              × ((on_push_update s now pre k kept).state.baselines pre.info.id ≡ some k.hash))
  unfolding on_fs_update fs_update_pruned fs_update_parked on_push_update push_update_pruned
      push_update_parked prune
  parked_converges pre k kept p e =
      rw (e, fs_update_pruned, push_update_pruned)
        (
          (λ h. rw (h, fs_update_parked) (ground arith)),
          (λ h. rw (h, push_update_parked) (ground arith)),
        )

  -- A deletion on both sides ends a parked conflict: the instance has no record, no agreement and
  -- no tombstone that a later push could wake.
  pub both_deleted_dissolves :
      (pre : Captured c) (p : Parked c)
      → find_parked pre.info.id s.parked ≡ some p
      → (p.studio.present ≡ false
          → ((on_fs_removal s now pre).decision ≡ no_change)
            × ((on_fs_removal s now pre).state.parked ≡ remove_parked pre.info.id s.parked)
            × ((on_fs_removal s now pre).state.baselines pre.info.id ≡ none))
        × (p.fs.present ≡ false
            → ((on_push_removal s now pre).decision ≡ no_change)
              × ((on_push_removal s now pre).state.parked ≡ remove_parked pre.info.id s.parked)
              × ((on_push_removal s now pre).state.baselines pre.info.id ≡ none))
  unfolding on_fs_removal fs_removal_pruned fs_removal_parked on_push_removal push_removal_pruned
      push_removal_parked prune
  both_deleted_dissolves pre p e =
      rw (e, fs_removal_pruned, push_removal_pruned)
        (
          (λ h. rw (h, fs_removal_parked) (ground arith)),
          (λ h. rw (h, push_removal_parked) (ground arith)),
        )
