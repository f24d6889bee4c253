-- ===== src/Backlog/Captures.antt =====
-- The capture and the restore of src/server/backlog.rs, each by itself.
use wsync.Prelude.{
  ℕ, ◌⊎◌, ◌≡◌, refl, sym, ap, ◌∙◌, subst, true, false, Option, none, some, Text, text_eq_iff,
  text_eq_refl, any, find_first, find_first-true, find_first-modify_first, ==_refl, Bool-cases,
  Option-cases, inl, inr, arith,
}
use wsync.Backlog.{
  Node, copied, copy_tree, add_copied, same_tree, Reason, Entry, expired, Store, Outcome,
  safe_rel_path, set_file, sweep, is_identical, has_id, refreshed, refresh, new_entry, store_new,
  add_entry, capture, get, restored, put_back, restore_found, restore,
}
use wsync.Backlog.Copies.{is_tree, copy_node-new, same_tree_refl}
use wsync.Backlog.Entries.{
  HasIds, HasIds-modify_first, HasIds-append, find-append, find-by_id, sweep-keeps, forget-found,
}

-- A restore of an entry that is found by its id and has not expired, to a path where nothing stands,
-- puts the stored tree there and forgets the entry.
pub restore-returns :
    (now ttl : ℕ) (o : Outcome) (e : Entry) (held : Node) (s : Store)
    → HasIds s.entries
    → find_first (has_id e.id) s.entries ≡ some e
    → expired now ttl e ≡ false
    → s.stored e.id ≡ some held
    → is_tree held ≡ true
    → s.files e.path ≡ none
    → o.prepared ≡ true
    → o.fault ≡ none
    → ((restore now ttl e.id o s).1 ≡ some e.path)
      × ((restore now ttl e.id o s).0.files e.path ≡ some held)
      × (find_first (has_id e.id) (restore now ttl e.id o s).0.entries ≡ none)
unfolding restore get
restore-returns now ttl o e held s d f n st tree empty ok sound =
    let (found, kept, files) = sweep-keeps now ttl e.id o.written e s d f n in
    let s' = sweep now ttl o.written s in
    let copy : restored o.fault (s'.stored e.id) (s'.files e.path) ≡ copied held =
      ap (λ (f : Option (Option Node)). restored f (s'.stored e.id) (s'.files e.path)) sound
      ∙ ap (λ (x : Option Node). restored none x (s'.files e.path)) (kept ∙ st)
      ∙ ap (λ (g : Text → Option Node). restored none (some held) (g e.path)) files
      ∙ ap (restored none (some held)) empty
      ∙ copy_node-new held tree in
    let step : restore now ttl e.id o s ≡ put_back o.written e s' (copied held) =
      ap (restore_found o s') found ∙ rw ok (ap (put_back o.written e s') copy) in
    let put : Store = record s' { files = set_file e.path (some held) s'.files } in
    let (same, gone) = forget-found e.id o.written e put found in
    subst
      (λ (r : Store × Option Text).
        (r.1 ≡ some e.path)
        × (r.0.files e.path ≡ some held)
        × (find_first (has_id e.id) r.0.entries ≡ none))
      (sym step)
      (refl, ap (λ (g : Text → Option Node). g e.path) same ∙ rw (text_eq_refl e.path) refl, gone)

-- `Keeps`: the capture of `node` from `source` gave an entry, under which a tree with the same files is
-- stored, and `left` stands at the source.
abbrev pub Keeps :
    (now : ℕ)
    → (path source : Text) → Node
    → (left : Option Node) → (files : Text → Option Node) → Store × Option Entry
    → Type 0
Keeps now path source node left files r =
    (e : Entry) × (held : Node) × (r.1 ≡ some e)
    × HasIds r.0.entries
    × (find_first (has_id e.id) r.0.entries ≡ some e)
    × (r.0.stored e.id ≡ some held)
    × (same_tree held node ≡ true)
    × (is_tree held ≡ true)
    × (e.path ≡ path)
    × (e.captured_at ≡ now)
    × (r.0.files ≡ set_file source left files)

-- `Saves`: the capture of `node` from `source` gave no entry and left the entries and every file as they
-- were, or it gave an entry that keeps the files, whatever is left at the source.
abbrev pub Saves : (now : ℕ) → (path source : Text) → Node → Store → Store × Option Entry → Type 0
Saves now path source node s r =
    ((r.1 ≡ none) × (r.0.entries ≡ s.entries) × (r.0.files ≡ s.files))
    ⊎ ((left : Option Node) × Keeps now path source node left s.files r)

module _ (now id bytes : ℕ) (o : Outcome) (path source : Text) (reason : Reason) (node : Node)
    (s : Store) where
  pub add_entry-Keeps :
      (left : Option Node)
      → any (has_id id) s.entries ≡ false
      → is_tree node ≡ true
      → HasIds s.entries
      → Keeps now path source node left s.files
          (add_entry o (new_entry now id path bytes reason) source left node s)
  add_entry-Keeps left fresh tree d =
      let e = new_entry now id path bytes reason in
      (
        e,
        node,
        refl,
        HasIds-append s.entries e d fresh,
        find-append s.entries e fresh,
        rw (==_refl id) refl,
        same_tree_refl node tree,
        tree,
        refl,
        refl,
        refl,
      )

  pub store_new-Keeps :
      any (has_id id) s.entries ≡ false
      → is_tree node ≡ true
      → HasIds s.entries
      → o.prepared ≡ true
      → o.fault ≡ none
      → o.left ≡ none
      → Keeps now path source node none s.files
          (store_new o (new_entry now id path bytes reason) source node s)
  unfolding store_new
  store_new-Keeps fresh tree d ok sound gone = elim (Bool-cases o.renamed) [
    | inl y ↦ rw (ok, y) (add_entry-Keeps none fresh tree d)
    | inr n ↦ rw (ok, n, sound, copy_node-new node tree, gone) (add_entry-Keeps none fresh tree d)
  ]

  -- The copy of a source that could not be renamed, whether it fails or not.
  add_copied-Saves :
      (fault : Option (Option Node))
      → any (has_id id) s.entries ≡ false
      → is_tree node ≡ true
      → HasIds s.entries
      → Saves now path source node s
          (add_copied o (new_entry now id path bytes reason) source s (copy_tree fault node none))
  add_copied-Saves none fresh tree d =
      rw (copy_node-new node tree) (inr (o.left, add_entry-Keeps o.left fresh tree d))
  add_copied-Saves (some none) fresh tree d = inl (refl, refl, refl)
  add_copied-Saves (some (some left)) fresh tree d = inl (refl, refl, refl)

  pub store_new-Saves :
      any (has_id id) s.entries ≡ false
      → is_tree node ≡ true
      → HasIds s.entries
      → Saves now path source node s
          (store_new o (new_entry now id path bytes reason) source node s)
  unfolding store_new
  store_new-Saves fresh tree d = elim (Bool-cases o.prepared) [
    | inr x ↦ rw x (inl (refl, refl, refl))
    | inl ok ↦ elim (Bool-cases o.renamed) [
      | inl y ↦ rw (ok, y) (inr (none, add_entry-Keeps none fresh tree d))
      | inr n ↦ rw (ok, n) (add_copied-Saves o.fault fresh tree d)
    ]
  ]

  pub refresh-Keeps :
      (e : Entry)
      → find_first (is_identical path node s.stored) s.entries ≡ some e
      → HasIds s.entries
      → ((j : ℕ) (n : Node) → s.stored j ≡ some n → is_tree n ≡ true)
      → Keeps now path source node o.left s.files (refresh now o source reason e s)
  unfolding refresh
  refresh-Keeps e f d trees =
      let same = find_first-true (is_identical path node s.stored) s.entries e f in
      let by_id = find-by_id (is_identical path node s.stored) s.entries e d f in
      let found =
        find_first-modify_first (has_id e.id) (refreshed now reason) s.entries e by_id
          (==_refl e.id) in
      elim (Option-cases (s.stored e.id)) [
        | inl n ↦ absurd (ground (arith, same, n))
        | inr (held, h) ↦ (
          refreshed now reason e,
          held,
          found,
          HasIds-modify_first (has_id e.id) now reason s.entries d,
          found,
          h,
          ground (arith, same, h),
          trees e.id held h,
          (text_eq_iff e.path path).0 (ground (arith, same)),
          refl,
          refl,
        )
      ]

  pub capture-Keeps :
      s.files source ≡ some node
      → safe_rel_path path ≡ true
      → any (has_id id) s.entries ≡ false
      → is_tree node ≡ true
      → HasIds s.entries
      → ((j : ℕ) (n : Node) → s.stored j ≡ some n → is_tree n ≡ true)
      → o.prepared ≡ true
      → o.fault ≡ none
      → o.left ≡ none
      → Keeps now path source node none s.files (capture now id bytes o path source reason s)
  unfolding capture
  capture-Keeps there safe fresh tree d trees ok sound gone =
      elim (Option-cases (find_first (is_identical path node s.stored) s.entries)) [
        | inl n ↦ rw (there, safe, n) (store_new-Keeps fresh tree d ok sound gone)
        | inr (e, f) ↦
            rw (there, safe, f)
              (subst
                (λ (x : Option Node).
                  Keeps now path source node x s.files (refresh now o source reason e s))
                gone (refresh-Keeps e f d trees))
      ]
