-- ===== src/Backlog/Roundtrip.antt =====
-- src/server/backlog.rs: what is captured can be put back, until it expires.
use wsync.Prelude.{
  ℕ, ◌+◌, ◌<◌, ◌≡◌, refl, sym, ap, ◌∙◌, true, false, Option, none, some, Text, text_eq_refl, any,
  find_first, Bool-cases, inl, inr, arith,
}
use wsync.Backlog.{
  Node, same_tree, Reason, Entry, expired, Store, Outcome, safe_rel_path, has_id, capture, restore,
}
use wsync.Backlog.Copies.{is_tree}
use wsync.Backlog.Entries.{HasIds}
use wsync.Backlog.Captures.{restore-returns, capture-Keeps}

young-expired :
    (now later ttl : ℕ) (e : Entry)
    → e.captured_at ≡ now
    → later < now + ttl
    → expired later ttl e ≡ false
unfolding expired
young-expired now later ttl e c lt = elim (Bool-cases e.pinned) [
  | inl y ↦ rw y refl
  | inr n ↦ rw n (ground (arith, c))
]

-- Take a backlog in which no two entries have the same id and each entry's files form trees, and files
-- that form a tree at a safe path. Where the capture can make its directory, its copy, if it needs one,
-- does not fail and the removal of the source works, capturing the files under a new id gives an entry
-- and leaves nothing at the path, whether the same files were already held for it or not, and whether
-- the move was a rename or a copy. Restoring that entry before the lifetime is over, where the restore
-- can make the directory and its copy does not fail, succeeds, puts a tree with the same files back at
-- the path and forgets the entry.
pub restore-capture :
    (now later ttl id bytes : ℕ) (o o' : Outcome) (path : Text) (reason : Reason) (node : Node)
    (s : Store)
    → s.files path ≡ some node
    → safe_rel_path path ≡ true
    → any (has_id id) s.entries ≡ false
    → is_tree node ≡ true
    → HasIds s.entries
    → ((j : ℕ) (n : Node) → s.stored j ≡ some n → is_tree n ≡ true)
    → o.prepared ≡ true
    → o.fault ≡ none
    → o.left ≡ none
    → o'.prepared ≡ true
    → o'.fault ≡ none
    → later < now + ttl
    → let r = capture now id bytes o path path reason s in
      (e : Entry) × (held : Node) × (r.1 ≡ some e)
      × (r.0.files path ≡ none)
      × ((restore later ttl e.id o' r.0).1 ≡ some path)
      × ((restore later ttl e.id o' r.0).0.files path ≡ some held)
      × (same_tree held node ≡ true)
      × (find_first (has_id e.id) (restore later ttl e.id o' r.0).0.entries ≡ none)
restore-capture now later ttl id bytes o o' path reason node s there safe fresh tree d trees ok
      sound gone ok' sound' lt =
    let r = capture now id bytes o path path reason s in
    let (e, held, given, ids, found, st, same, whole, at_path, at_now, files) =
      capture-Keeps now id bytes o path path reason node s there safe fresh tree d trees ok sound
        gone in
    let empty : r.0.files path ≡ none =
      ap (λ (g : Text → Option Node). g path) files ∙ rw (text_eq_refl path) refl in
    let (answer, back, forgotten) =
      restore-returns later ttl o' e held r.0 ids found (young-expired now later ttl e at_now lt) st
        whole (ap r.0.files at_path ∙ empty) ok' sound' in
    (
      e,
      held,
      given,
      empty,
      answer ∙ ap some at_path,
      ap (restore later ttl e.id o' r.0).0.files (sym at_path) ∙ back,
      same,
      forgotten,
    )
