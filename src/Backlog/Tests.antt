-- ===== src/Backlog/Tests.antt =====
-- A directory that is captured and put back, an identical capture, and an entry that expires.
use wsync.Prelude.{
  ◌≡◌, refl, true, false, Option, none, some, [], ◌∷◌, Text, length, find_first, empty_map, arith,
}
use wsync.Backlog.{
  Node, file, dir, nil, entry, same_tree, initial_sync, conflict, Entry, Store, Outcome,
  safe_rel_path, has_id, capture, restore, sweep, expired, store_new, refresh, copy_node,
}
use wsync.Backlog.Copies.{is_tree}
use wsync.Backlog.Roundtrip.{restore-capture}

abbrev folder : Node
folder = dir (entry (b'a' ∷ []) (file (1 ∷ [])) (entry (b'b' ∷ []) (dir nil) nil))

abbrev folder_path : Text
folder_path = b's' ∷ b'/' ∷ b'd' ∷ []

abbrev fresh_store : Store
fresh_store = record { entries = []; index = []; stored = empty_map; files = λ p. some folder }

abbrev across_devices : Outcome
across_devices = record {
  prepared = true;
  renamed = false;
  fault = none;
  left = none;
  written = true;
}

-- The source is on a full disk: the copy stops with one file less.
abbrev disk_full : Outcome
disk_full = record across_devices {
  fault = some (some (dir (entry (b'a' ∷ []) (file (1 ∷ [])) nil)));
}

-- The source is in use: it is copied and stays.
abbrev in_use : Outcome
in_use = record across_devices { left = some folder }

abbrev captured : Store × Option Entry
captured = capture 100 1 0 across_devices folder_path folder_path initial_sync fresh_store

held_once : length captured.0.entries ≡ 1
unfolding capture safe_rel_path store_new copy_node
held_once = refl

-- The same files lose again: the entry is refreshed.
held_once_more :
    length (capture 200 2 0 across_devices folder_path (b'x' ∷ []) conflict captured.0).0.entries
    ≡ 1
unfolding capture safe_rel_path store_new copy_node refresh same_tree
held_once_more = refl

not_held :
    length (capture 100 1 0 disk_full folder_path folder_path conflict fresh_store).0.entries ≡ 0
unfolding capture safe_rel_path store_new copy_node
not_held = refl

stays :
    (capture 100 1 0 in_use folder_path folder_path conflict fresh_store).0.files folder_path
    ≡ some folder
unfolding capture safe_rel_path store_new copy_node
stays = refl

swept_later : (sweep 200 100 true captured.0).entries ≡ []
unfolding capture safe_rel_path store_new copy_node sweep expired
swept_later = refl

leaves_the_workspace : safe_rel_path (b'a' ∷ b'/' ∷ b'.' ∷ b'.' ∷ []) ≡ false
unfolding safe_rel_path
leaves_the_workspace = refl

restore-capture_example :
    (e : Entry) × (held : Node) × (captured.1 ≡ some e)
    × (captured.0.files folder_path ≡ none)
    × ((restore 150 100 e.id across_devices captured.0).1 ≡ some folder_path)
    × ((restore 150 100 e.id across_devices captured.0).0.files folder_path ≡ some held)
    × (same_tree held folder ≡ true)
    × (find_first (has_id e.id) (restore 150 100 e.id across_devices captured.0).0.entries ≡ none)
unfolding safe_rel_path is_tree
restore-capture_example =
    restore-capture 100 150 100 1 0 across_devices across_devices folder_path initial_sync folder
      fresh_store refl refl refl refl tt (λ j n e. absurd (cc)) refl refl refl refl refl
      (omega arith)
