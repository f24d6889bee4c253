-- ===== src/Conflict/Fs.antt =====
-- src/core/conflict/mod.rs: the decisions on changes that come from disk.
use wsync.Prelude.{
  ℕ, Bool, true, false, not, Option, none, some, List, [], ◌∷◌, ◌++◌, ◌==◌, opt_eq, if◌then◌else◌,
  any, unwrap_or, insert, remove,
}
use wsync.Conflict.Content.{Codec, ContentState}
use wsync.Conflict.State.{
  FsDecision, propagate, no_change, conflict, Classification, both_edited, fs_deleted_studio_edited,
  studio_deleted_fs_edited, Now, Captured, StudioApply, Parked, Pending, EngineState, Outcome,
  present_side, absent_side, side_hash, quiet, find_parked, remove_parked, modify_parked, prune,
}

-- A recreated file turns an fs-deleted conflict back into a both-edited one.
abbrev pub fs_returns : Classification → Classification
fs_returns both_edited = both_edited
fs_returns fs_deleted_studio_edited = both_edited
fs_returns studio_deleted_fs_edited = studio_deleted_fs_edited

abbrev pub is_fs_deleted : Classification → Bool
is_fs_deleted fs_deleted_studio_edited = true
is_fs_deleted both_edited = false
is_fs_deleted studio_deleted_fs_edited = false

-- `if !hashes.contains(h) { hashes.push(h) }` on an optional `h`.
abbrev pub push_new : List ℕ → Option ℕ → List ℕ
push_new hs none = hs
push_new hs (some h) = if any (λ k. k == h) hs then hs else hs ++ h ∷ []

abbrev pub prior_of : Option Pending → Option ℕ
prior_of none = none
prior_of (some p) = some p.prior

module _ {c : Codec} where
  unfoldable pub on_fs_addition : EngineState c → Now → ℕ → ContentState c → Outcome c FsDecision
  on_fs_addition s now id content =
      let p = prune now.instant s in
      quiet
        (record p {
          baselines = insert id content.hash p.baselines;
          tombstones = remove id p.tombstones;
        })
        propagate

  -- `parked.fs = Side::present(post)`, and the classification with it.
  abbrev pub fold_fs : ContentState c → Parked c → Parked c
  fold_fs post p = record p { fs = present_side post; classification = fs_returns p.classification }

  unfoldable pub fs_update_parked :
      EngineState c → ℕ → ContentState c → Parked c → Outcome c FsDecision
  fs_update_parked s id post p =
      if opt_eq (side_hash p.studio) (some post.hash)
      then quiet
          (record s {
            parked = remove_parked id s.parked;
            baselines = insert id post.hash s.baselines;
          })
          no_change
      else quiet (record s { parked = modify_parked id (fold_fs post) s.parked }) conflict

  -- An edit while an earlier one is still unconfirmed: back to the prior agreement, or the window
  -- starts anew for the new content.
  unfoldable pub fs_update_pending :
      EngineState c → ℕ → ContentState c → Now → Pending → Outcome c FsDecision
  fs_update_pending s id post now w =
      if post.hash == w.prior
      then quiet
          (record s { pending = remove id s.pending; baselines = insert id w.prior s.baselines })
          propagate
      else quiet
          (record s {
            pending = insert id (record w { sent = post.hash; at = now.instant }) s.pending;
          })
          propagate

  unfoldable pub fs_update_idle :
      EngineState c → ℕ → ContentState c → Now → ℕ → Outcome c FsDecision
  fs_update_idle s id post now baseline =
      if post.hash == baseline
      then quiet s no_change
      else quiet
          (record s {
            pending =
                insert id (record { prior = baseline; sent = post.hash; at = now.instant })
                  s.pending;
          })
          propagate

  -- `*state.baselines.entry(id).or_insert(hash)`: the value, and the state that holds it.
  abbrev pub seed : EngineState c → ℕ → ℕ → EngineState c
  seed s id hash = record s { baselines = insert id (unwrap_or (s.baselines id) hash) s.baselines }

  unfoldable pub fs_update_free :
      EngineState c → Captured c → ContentState c → Now → Outcome c FsDecision
  unfolding fs_update_pending fs_update_idle
  fs_update_free s pre post now =
      let id = pre.info.id in
      let baseline = unwrap_or (s.baselines id) pre.content.hash in
      let s' = seed s id pre.content.hash in
      elim (s.pending id) [
        | some w ↦ fs_update_pending s' id post now w
        | none ↦ fs_update_idle s' id post now baseline
      ]

  unfoldable pub fs_update_pruned :
      EngineState c → Captured c → ContentState c → Now → Outcome c FsDecision
  unfolding fs_update_parked fs_update_free
  fs_update_pruned s pre post now = elim (find_parked pre.info.id s.parked) [
    | some p ↦ fs_update_parked s pre.info.id post p
    | none ↦ fs_update_free s pre post now
  ]

  unfoldable pub on_fs_update :
      EngineState c → Now → Captured c → ContentState c → Outcome c FsDecision
  on_fs_update s now pre post = fs_update_pruned (prune now.instant s) pre post now

  -- The file of a parked instance is gone. If Studio deleted the instance too the conflict is over.
  abbrev pub drop_fs : Parked c → Parked c
  drop_fs p = record p { fs = absent_side; classification = fs_deleted_studio_edited }

  unfoldable pub fs_removal_parked : EngineState c → ℕ → Parked c → Outcome c FsDecision
  fs_removal_parked s id p =
      if not p.studio.present
      then quiet
          (record s {
            parked = remove_parked id s.parked;
            baselines = remove id s.baselines;
            pending = remove id s.pending;
          })
          no_change
      else record {
        state = record s { parked = modify_parked id drop_fs s.parked };
        decision = conflict;
        notified = if is_fs_deleted p.classification then none else some (drop_fs p);
      }

  -- The contents that a Studio push may still echo: the deleted one, the agreed one, and the one
  -- agreed before an edit that is still on its way.
  unfoldable pub echo_hashes : EngineState c → Captured c → List ℕ
  echo_hashes s pre =
      push_new (push_new (pre.content.hash ∷ []) (s.baselines pre.info.id))
        (prior_of (s.pending pre.info.id))

  abbrev pub captured_apply : Captured c → StudioApply c
  captured_apply pre = record {
    name = pre.content.name;
    class = pre.content.class;
    properties = pre.properties;
  }

  unfoldable pub fs_removal_free : EngineState c → Captured c → Now → Outcome c FsDecision
  unfolding echo_hashes
  fs_removal_free s pre now =
      let id = pre.info.id in
      quiet
        (record s {
          baselines = remove id s.baselines;
          pending = remove id s.pending;
          tombstones =
              insert id
                (record {
                  hashes = echo_hashes s pre;
                  info = pre.info;
                  base = captured_apply pre;
                  at = now.instant;
                })
                s.tombstones;
        })
        propagate

  unfoldable pub fs_removal_pruned : EngineState c → Captured c → Now → Outcome c FsDecision
  unfolding fs_removal_parked fs_removal_free
  fs_removal_pruned s pre now = elim (find_parked pre.info.id s.parked) [
    | some p ↦ fs_removal_parked s pre.info.id p
    | none ↦ fs_removal_free s pre now
  ]

  unfoldable pub on_fs_removal : EngineState c → Now → Captured c → Outcome c FsDecision
  on_fs_removal s now pre = fs_removal_pruned (prune now.instant s) pre now
