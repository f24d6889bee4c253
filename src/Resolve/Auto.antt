-- ===== src/Resolve/Auto.antt =====
-- `auto_keep_studio` of src/server/resolve.rs: a conflict that is resolved as soon as it is parked. What
-- disk has goes to the backlog, and then Studio's state is written. The pause of the watcher around the
-- capture and the event to the watchers are left out.
use wsync.Prelude.{
  ℕ, ◌≡◌, refl, ap, ◌∙◌, Bool, true, false, Option, none, some, Text, text_eq_refl, any,
}
use wsync.Conflict.Content.{Codec}
use wsync.Conflict.State.{Parked, EngineState, take}
use wsync.Backlog.{Node, Reason, Store, Outcome, capture, safe_rel_path, has_id}
use wsync.Backlog.Copies.{is_tree}
use wsync.Backlog.Entries.{HasIds}
use wsync.Backlog.Captures.{capture-Keeps}
use wsync.Resolve.{Failure, LiveTree, Landing, landed, failed, keep_studio}

-- The capture, with its time, its new id and the length of the file.
unfoldable pub capture_disk : (now id bytes : ℕ) → Outcome → Option Text → Store → Store
capture_disk now id bytes o none s = s
capture_disk now id bytes o (some path) s = (capture now id bytes o path path Reason.conflict s).0

pub record Sides (c : Codec) : Type 0 where
  pub backlog : Store
  pub conflicts : EngineState c

module _ {c : Codec} where
  abbrev pub dropped : EngineState c → Option (Parked c × EngineState c) → EngineState c
  dropped s none = s
  dropped s (some r) = r.1

  abbrev pub settled : Parked c → Landing c → EngineState c → EngineState c
  settled p (landed ch) s = dropped s (take s p.id)
  settled p (failed f) s = s

  unfoldable pub auto_keep_studio :
      (now id bytes : ℕ)
      → Outcome
      → LiveTree c
      → (written : Option Bool) → (meanwhile : EngineState c → EngineState c) → Parked c
      → Sides c
      → Sides c
  auto_keep_studio now id bytes o t written meanwhile p s = record {
    backlog = capture_disk now id bytes o p.info.rel_path s.backlog;
    conflicts = settled p (keep_studio t written p) (meanwhile s.conflicts);
  }

  -- Where Studio's state cannot be written after a capture in which the file system failed nothing, the
  -- conflict stays as it is, and yet nothing stands at the file's path any more: what disk had is in
  -- the backlog only.
  auto_keep_studio-failed :
      (now id bytes : ℕ) (o : Outcome) (t : LiveTree c) (written : Option Bool)
      (meanwhile : EngineState c → EngineState c) (p : Parked c) (s : Sides c) (path : Text)
      (node : Node) (f : Failure)
      → keep_studio t written p ≡ failed f
      → p.info.rel_path ≡ some path
      → s.backlog.files path ≡ some node
      → safe_rel_path path ≡ true
      → any (has_id id) s.backlog.entries ≡ false
      → is_tree node ≡ true
      → HasIds s.backlog.entries
      → ((j : ℕ) (n : Node) → s.backlog.stored j ≡ some n → is_tree n ≡ true)
      → o.prepared ≡ true
      → o.fault ≡ none
      → o.left ≡ none
      → let r = auto_keep_studio now id bytes o t written meanwhile p s in
        (r.conflicts ≡ meanwhile s.conflicts) × (r.backlog.files path ≡ none)
  unfolding auto_keep_studio capture_disk
  auto_keep_studio-failed now id bytes o t written meanwhile p s path node f fails at there safe
        fresh tree d trees ok sound gone =
      let (e, held, given, ids, found, st, same, whole, at_path, at_now, files) =
        capture-Keeps now id bytes o path path Reason.conflict node s.backlog there safe fresh tree
          d trees ok sound gone in
      (
        ap (λ (x : Landing c). settled p x (meanwhile s.conflicts)) fails,
        ap (λ (x : Option Text). (capture_disk now id bytes o x s.backlog).files path) at
            ∙ ap (λ (g : Text → Option Node). g path) files
            ∙ rw (text_eq_refl path) refl,
      )
