-- ===== src/Conflict/Push.antt =====
-- src/core/conflict/mod.rs: the decisions on changes that Studio pushes.
use wsync.Prelude.{
  ℕ, Bool, true, false, not, Option, none, some, ◌||◌, Text, ◌==◌, opt_eq, if◌then◌else◌, any,
  is_some, unwrap_or, insert, remove,
}
use wsync.Conflict.Content.{Codec, Properties, ContentState, new_content}
use wsync.Conflict.State.{
  PushDecision, apply, no_change, conflict, Classification, both_edited, fs_deleted_studio_edited,
  studio_deleted_fs_edited, Now, Captured, StudioApply, Parked, Pending, Tombstone, EngineState,
  Outcome, present_side, absent_side, side_hash, quiet, find_parked, remove_parked, modify_parked,
  prune, park_conflict, new_record,
}
use wsync.Conflict.Fs.{seed}

-- A push of a deleted instance turns a studio-deleted conflict back into a both-edited one.
abbrev pub studio_returns : Classification → Classification
studio_returns both_edited = both_edited
studio_returns fs_deleted_studio_edited = fs_deleted_studio_edited
studio_returns studio_deleted_fs_edited = both_edited

abbrev pub is_studio_deleted : Classification → Bool
is_studio_deleted studio_deleted_fs_edited = true
is_studio_deleted both_edited = false
is_studio_deleted fs_deleted_studio_edited = false

module _ {c : Codec} where
  unfoldable pub on_push_addition : EngineState c → Now → ℕ → Outcome c PushDecision
  on_push_addition s now id =
      let p = prune now.instant s in quiet (record p { tombstones = remove id p.tombstones }) apply

  abbrev pub fold_studio : ContentState c → StudioApply c → Parked c → Parked c
  fold_studio pushed kept p = record p {
    studio = present_side pushed;
    studio_apply = some kept;
    classification = studio_returns p.classification;
  }

  unfoldable pub push_update_parked :
      EngineState c → ℕ → ContentState c → StudioApply c → Parked c → Outcome c PushDecision
  push_update_parked s id pushed kept p =
      if opt_eq (side_hash p.fs) (some pushed.hash)
      then quiet
          (record s {
            parked = remove_parked id s.parked;
            baselines = insert id pushed.hash s.baselines;
          })
          no_change
      else record {
        state = record s { parked = modify_parked id (fold_studio pushed kept) s.parked };
        decision = conflict;
        notified =
            if is_studio_deleted p.classification then some (fold_studio pushed kept p) else none;
      }

  -- Both sides moved: park the disk content beside the pushed one.
  unfoldable pub park_both :
      EngineState c → Captured c → ContentState c → StudioApply c → Now → Outcome c PushDecision
  unfolding park_conflict
  park_both s pre pushed kept now = park_conflict conflict s (
      new_record s both_edited pre.info.id pre.info (present_side pre.content) (present_side pushed)
        (some kept) now)

  unfoldable pub push_update_pending :
      EngineState c
      → Captured c
      → ContentState c
      → StudioApply c
      → Now
      → Pending
      → Outcome c PushDecision
  unfolding park_both
  push_update_pending s pre pushed kept now w =
      let id = pre.info.id in
      if pushed.hash == w.sent
      then quiet
          (record s { pending = remove id s.pending; baselines = insert id w.sent s.baselines })
          no_change
      else if pushed.hash == w.prior
      then quiet s no_change
      else park_both s pre pushed kept now

  unfoldable pub push_update_idle :
      EngineState c → Captured c → ContentState c → StudioApply c → Now → ℕ → Outcome c PushDecision
  unfolding park_both
  push_update_idle s pre pushed kept now baseline =
      if pushed.hash == pre.content.hash
      then quiet (record s { baselines = insert pre.info.id pushed.hash s.baselines }) no_change
      else if baseline == pre.content.hash
      then quiet s apply
      else park_both s pre pushed kept now

  unfoldable pub push_update_free :
      EngineState c → Captured c → ContentState c → StudioApply c → Now → Outcome c PushDecision
  unfolding push_update_pending push_update_idle
  push_update_free s pre pushed kept now =
      let id = pre.info.id in
      let baseline = unwrap_or (s.baselines id) pre.content.hash in
      let s' = seed s id pre.content.hash in
      elim (s.pending id) [
        | some w ↦ push_update_pending s' pre pushed kept now w
        | none ↦ push_update_idle s' pre pushed kept now baseline
      ]

  unfoldable pub push_update_pruned :
      EngineState c → Captured c → ContentState c → StudioApply c → Now → Outcome c PushDecision
  unfolding push_update_parked push_update_free
  push_update_pruned s pre pushed kept now = elim (find_parked pre.info.id s.parked) [
    | some p ↦ push_update_parked s pre.info.id pushed kept p
    | none ↦ push_update_free s pre pushed kept now
  ]

  unfoldable pub on_push_update :
      EngineState c → Now → Captured c → ContentState c → StudioApply c → Outcome c PushDecision
  on_push_update s now pre pushed kept =
      push_update_pruned (prune now.instant s) pre pushed kept now

  -- The push carries a new name, new properties, or both.
  abbrev pub overlay : Option Text → Option (Properties c) → StudioApply c → StudioApply c
  overlay name props a = record a {
    name = unwrap_or name a.name;
    properties = unwrap_or props a.properties;
  }

  abbrev pub apply_content : StudioApply c → ContentState c
  apply_content a = new_content c a.name a.class a.properties

  abbrev pub overlay_parked : Option Text → Option (Properties c) → Parked c → Parked c
  overlay_parked name props p = elim p.studio_apply [
    | none ↦ p
    | some a ↦ record p {
      studio_apply = some (overlay name props a);
      studio = present_side (apply_content (overlay name props a));
    }
  ]

  unfoldable pub update_missing_buried :
      EngineState c → ℕ → StudioApply c → Tombstone c → Now → Outcome c PushDecision
  unfolding park_conflict
  update_missing_buried s id kept t now =
      let pushed = apply_content kept in
      let s' = record s { tombstones = remove id s.tombstones } in
      if any (λ h. h == pushed.hash) t.hashes
      then quiet s no_change
      else park_conflict conflict s' (
          new_record s' fs_deleted_studio_edited id t.info absent_side (present_side pushed)
            (some kept) now)

  unfoldable pub update_missing_free :
      EngineState c → ℕ → Option Text → Option (Properties c) → Now → Outcome c PushDecision
  unfolding update_missing_buried
  update_missing_free s id name props now = elim (s.tombstones id) [
    | none ↦ quiet s no_change
    | some t ↦ update_missing_buried s id (overlay name props t.base) t now
  ]

  unfoldable pub update_missing_pruned :
      EngineState c → ℕ → Option Text → Option (Properties c) → Now → Outcome c PushDecision
  unfolding update_missing_free
  update_missing_pruned s id name props now = elim (find_parked id s.parked) [
    | some p ↦
        quiet (record s { parked = modify_parked id (overlay_parked name props) s.parked }) conflict
    | none ↦ update_missing_free s id name props now
  ]

  unfoldable pub on_push_update_missing :
      EngineState c → Now → ℕ → Option Text → Option (Properties c) → Outcome c PushDecision
  on_push_update_missing s now id name props =
      update_missing_pruned (prune now.instant s) id name props now

  abbrev pub drop_studio : Parked c → Parked c
  drop_studio p = record p {
    studio = absent_side;
    studio_apply = none;
    classification = studio_deleted_fs_edited;
  }

  unfoldable pub push_removal_parked : EngineState c → ℕ → Parked c → Outcome c PushDecision
  push_removal_parked s id p =
      if not p.fs.present
      then quiet
          (record s { parked = remove_parked id s.parked; baselines = remove id s.baselines })
          no_change
      else record {
        state = record s { parked = modify_parked id drop_studio s.parked };
        decision = conflict;
        notified = if is_studio_deleted p.classification then none else some (drop_studio p);
      }

  unfoldable pub push_removal_free : EngineState c → Captured c → Now → Outcome c PushDecision
  unfolding park_conflict
  push_removal_free s pre now =
      let id = pre.info.id in
      let baseline = unwrap_or (s.baselines id) pre.content.hash in
      let s' = seed s id pre.content.hash in
      if is_some (s'.pending id) || not (baseline == pre.content.hash)
      then park_conflict conflict s' (
          new_record s' studio_deleted_fs_edited id pre.info (present_side pre.content) absent_side
            none now)
      else quiet s' apply

  unfoldable pub push_removal_pruned : EngineState c → Captured c → Now → Outcome c PushDecision
  unfolding push_removal_parked push_removal_free
  push_removal_pruned s pre now = elim (find_parked pre.info.id s.parked) [
    | some p ↦ push_removal_parked s pre.info.id p
    | none ↦ push_removal_free s pre now
  ]

  unfoldable pub on_push_removal : EngineState c → Now → Captured c → Outcome c PushDecision
  on_push_removal s now pre = push_removal_pruned (prune now.instant s) pre now

  unfoldable pub on_push_removal_missing : EngineState c → Now → ℕ → Outcome c PushDecision
  on_push_removal_missing s now id =
      let p = prune now.instant s in
      quiet
        (record p {
          parked = remove_parked id p.parked;
          tombstones = remove id p.tombstones;
          baselines = remove id p.baselines;
        })
        no_change
