-- ===== src/Conflict/Tombstones.antt =====
-- A deletion on disk that Studio has not seen yet, and a push of the deleted instance.
use wsync.Prelude.{
  ℕ, ◌∙◌, ap, ◌-◌, ◌≤◌, ◌<◌, ◌≡◌, ◌↔◌, refl, Bool, true, false, Option, none, some, List, ◌∷◌, ◌++◌,
  [], inl, inr, arith, Text, ◌==◌, ◌⊎◌, length, any, Bool-cases, remove,
}
use wsync.Conflict.Content.{Codec, Properties}
use wsync.Conflict.State.{
  Now, Captured, Parked, Tombstone, EngineState, propagate, conflict, no_change, find_parked, prune,
  park, park_conflict, new_record, present_side, absent_side, fs_deleted_studio_edited,
}
use wsync.Conflict.Fs.{
  on_fs_removal, fs_removal_free, fs_removal_pruned, echo_hashes, push_new, prior_of,
  captured_apply,
}
use wsync.Conflict.Push.{
  on_push_update_missing, update_missing_buried, update_missing_free, update_missing_pruned,
  overlay, apply_content,
}
use wsync.Conflict.Decisions.{current}

not_true : {b : Bool} → ¬ (b ≡ true) → b ≡ false
not_true {b} h = ground arith

any-append_one :
    (x h : ℕ) (l : List ℕ)
    → (any (λ k. k == x) (l ++ h ∷ []) ≡ true) ↔ ((any (λ k. k == x) l ≡ true) ⊎ (h ≡ x))
any-append_one x h [] = ground arith
any-append_one x h (k ∷ l) = ground (arith, any-append_one x h l)

any-same : (l : List ℕ) (h x : ℕ) → any (λ k. k == h) l ≡ true → h ≡ x → any (λ k. k == x) l ≡ true
any-same l h x e same = rw (← same) e

-- `push_new` adds its value as a set does.
any-push_new :
    (x : ℕ) (l : List ℕ) (h : Option ℕ)
    → (any (λ k. k == x) (push_new l h) ≡ true) ↔ ((any (λ k. k == x) l ≡ true) ⊎ (h ≡ some x))
any-push_new x l none = ground arith
any-push_new x l (some h) = elim (Bool-cases (any (λ k. k == h) l)) [
  | inl e ↦ rw e (ground (arith, any-same l h x e))
  | inr e ↦ rw e (ground (arith, any-append_one x h l))
]

module _ {c : Codec} where
  -- The contents that a deletion takes for an echo: the deleted content, the agreed one, and the
  -- one before an unconfirmed edit.
  pub IsEcho : EngineState c → Captured c → ℕ → Type 0
  IsEcho s pre x =
      (pre.content.hash ≡ x)
      ⊎ ((s.baselines pre.info.id ≡ some x) ⊎ (prior_of (s.pending pre.info.id) ≡ some x))

  echo_hashes_iff :
      (s : EngineState c) (pre : Captured c) (x : ℕ)
      → (any (λ k. k == x) (echo_hashes s pre) ≡ true) ↔ IsEcho s pre x
  unfolding echo_hashes IsEcho
  echo_hashes_iff s pre x =
      let seen = push_new (pre.content.hash ∷ []) (s.baselines pre.info.id) in
      ground (
        arith,
        any-push_new x (pre.content.hash ∷ []) (s.baselines pre.info.id),
        any-push_new x seen (prior_of (s.pending pre.info.id)),
      )

  -- A deletion of an instance that is not parked is sent, and buries the instance.
  fs_removal-buries :
      (s : EngineState c) (now : Now) (pre : Captured c)
      → find_parked pre.info.id s.parked ≡ none
      → let o = on_fs_removal s now pre in
        (o.decision ≡ propagate)
        × (o.state.tombstones pre.info.id
            ≡ some (record {
              hashes = echo_hashes (current s now) pre;
              info = pre.info;
              base = captured_apply pre;
              at = now.instant;
            }))
        × (o.state.baselines pre.info.id ≡ none)
        × (o.state.parked ≡ s.parked)
        × (o.state.race_window ≡ s.race_window)
        × (o.state.park_limit ≡ s.park_limit)
  unfolding on_fs_removal fs_removal_pruned fs_removal_free prune
  fs_removal-buries s now pre free = rw (free, fs_removal_pruned) (ground arith)

  -- A push of a buried instance.
  update_missing-buried :
      (s : EngineState c) (now : Now) (id : ℕ) (name : Option Text) (props : Option (Properties c))
      (t : Tombstone c)
      → find_parked id s.parked ≡ none
      → s.tombstones id ≡ some t
      → let o = on_push_update_missing s now id name props in
        let pushed = apply_content (overlay name props t.base) in
        (s.race_window < now.instant - t.at
          → (o.decision ≡ no_change) × (o.state.parked ≡ s.parked))
        × (any (λ h. h == pushed.hash) t.hashes ≡ true
            → (o.decision ≡ no_change) × (o.state.parked ≡ s.parked))
        × (now.instant - t.at ≤ s.race_window
            → any (λ h. h == pushed.hash) t.hashes ≡ false
            → (o.decision ≡ conflict)
              × (length s.parked < s.park_limit
                  → (p : Parked c) × (o.state.parked ≡ s.parked ++ p ∷ [])
                    × (o.notified ≡ some p)
                    × (p.instance_ref ≡ id)
                    × (p.classification ≡ fs_deleted_studio_edited)
                    × (p.fs ≡ absent_side)
                    × (p.studio ≡ present_side pushed)
                    × (p.studio_apply ≡ some (overlay name props t.base))))
  unfolding on_push_update_missing update_missing_pruned update_missing_free update_missing_buried
      park_conflict park prune
  update_missing-buried s now id name props t free buried =
      let kept = overlay name props t.base in
      let s' = record (current s now) { tombstones = remove id (current s now).tombstones } in
      (
        (λ late. ground arith),
        (λ echo. ground arith),
        (λ inside new. (
          ground arith,
          (λ room. (
            new_record s' fs_deleted_studio_edited id t.info absent_side
                (present_side (apply_content kept)) (some kept) now,
            ground arith,
            ground arith,
            refl,
            refl,
            refl,
            refl,
            refl,
          )),
        )),
      )

  -- An instance that is not parked is deleted on disk, and Studio pushes it at a later time. What
  -- Studio then holds is the deleted state with the pushed name and properties. If that is an echo,
  -- or the window is over, the push is dropped and no record appears. Otherwise it is a conflict:
  -- the deletion stands beside Studio's edit in a record, unless the limit is reached.
  pub racing_deletion :
      (s : EngineState c) (t₀ t₁ : Now) (pre : Captured c) (name : Option Text)
      (props : Option (Properties c))
      → find_parked pre.info.id s.parked ≡ none
      → let o = on_fs_removal s t₀ pre in
        let q = on_push_update_missing o.state t₁ pre.info.id name props in
        let held = overlay name props (captured_apply pre) in
        (o.decision ≡ propagate)
        × (s.race_window < t₁.instant - t₀.instant
            → (q.decision ≡ no_change) × (q.state.parked ≡ s.parked))
        × (IsEcho (current s t₀) pre (apply_content held).hash
            → (q.decision ≡ no_change) × (q.state.parked ≡ s.parked))
        × (t₁.instant - t₀.instant ≤ s.race_window
            → ¬ IsEcho (current s t₀) pre (apply_content held).hash
            → (q.decision ≡ conflict)
              × (length s.parked < s.park_limit
                  → (p : Parked c) × (q.state.parked ≡ s.parked ++ p ∷ [])
                    × (q.notified ≡ some p)
                    × (p.instance_ref ≡ pre.info.id)
                    × (p.classification ≡ fs_deleted_studio_edited)
                    × (p.fs ≡ absent_side)
                    × (p.studio ≡ present_side (apply_content held))
                    × (p.studio_apply ≡ some held)))
  racing_deletion s t₀ t₁ pre name props free =
      let held = overlay name props (captured_apply pre) in
      let x = (apply_content held).hash in
      let (sent, buried, gone, records, window, limit) = fs_removal-buries s t₀ pre free in
      let iff = echo_hashes_iff (current s t₀) pre x in
      let (late, echo, clash) =
        update_missing-buried (on_fs_removal s t₀ pre).state t₁ pre.info.id name props
          (record {
            hashes = echo_hashes (current s t₀) pre;
            info = pre.info;
            base = captured_apply pre;
            at = t₀.instant;
          })
          (rw records free) buried in
      (
        sent,
        (λ h. ground (arith, late (rw window h))),
        (λ h. ground (arith, echo (iff.1 h))),
        (λ h n.
            let (held_back, store) = clash (rw window h) (not_true (λ e. n (iff.0 e))) in
            (
              held_back,
              (λ room.
                  let (p, listed, told, who, kind, disk, studio, raw) =
                    store (rw (records, limit) room) in
                  (p, listed ∙ ap (λ l. l ++ p ∷ []) records, told, who, kind, disk, studio, raw)),
            )),
      )
