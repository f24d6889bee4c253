-- ===== src/SyncBase/Tests.antt =====
-- The base on concrete trees, and a writer's tick.
use wsync.Prelude.{
  ◌≡◌, refl, true, none, some, [], ◌∷◌, Text, codes, get, put, range_from, take_while, starts_with,
  text_lt, retain, map, if◌then◌else◌,
}
use wsync.SyncBase.{Key, Snapshot, Stored}
use wsync.SyncBase.View.{
  BaseView, IsOrdered, lookup, strip, descendants, descendants_lem, view, below, is_empty,
}
use wsync.SyncBase.Session.{
  Inner, keep_held, merge, load, begin_compare, commit, on_disconnect, on_reconnect, tick_commit,
  tick_store,
}
use wsync.SyncBase.Held.{get-merge}
use wsync.SyncBase.Interleaving.{
  disconnects, Inv, step, steps, after_tick, interrupted-stored, undisturbed-stored, commits-Inv,
}

program : Unit {0}
unfolding get put range_from take_while starts_with text_lt lookup strip descendants view keep_held
    merge load begin_compare commit on_disconnect on_reconnect tick_commit tick_store step steps
program = tt

abbrev folder : Key
folder = record { class = codes "Folder"; source = none }

abbrev script : Text → Key
script h = record { class = codes "Script"; source = some h }

abbrev base : BaseView
base = record {
  entries =
      (codes "A", folder)
      ∷ (codes "A/x", script (codes "1"))
      ∷ (codes "A/y", script (codes "2"))
      ∷ (codes "B", folder)
      ∷ [];
  ambiguous = (codes "B/z", tt) ∷ [];
}

base-IsOrdered : IsOrdered base
unfolding program
base-IsOrdered = record {
  entries_sorted = ((refl, (refl, (refl, tt))), ((refl, (refl, tt)), ((refl, tt), (tt, tt))));
  ambiguous_sorted = (tt, tt);
}

descendants_below :
    (descendants base (codes "A")
      ≡ some ((codes "x", script (codes "1")) ∷ (codes "y", script (codes "2")) ∷ []))
    × (descendants base (codes "B") ≡ none)
unfolding program
descendants_below = (refl, refl)

descendants_lem_example : descendants base (codes "A") ≡ (
    if is_empty (retain (λ e. starts_with (below (codes "A")) e.0) base.ambiguous)
    then some (
        map
          (λ e. (strip (below (codes "A")) e.0, e.1))
          (retain (λ e. starts_with (below (codes "A")) e.0) base.entries))
    else none)
descendants_lem_example = descendants_lem base (codes "A") base-IsOrdered

abbrev stored : Stored
stored = record {
  version = 1;
  place = some (record { place_id = 1; game_id = 2 });
  saved_at = 0;
  entries = base.entries;
  ambiguous = base.ambiguous;
}

-- `A/x` is held and keeps its key; `A/y` is gone.
abbrev snapshot : Snapshot
snapshot = record {
  entries = (codes "A", folder) ∷ [];
  ambiguous = [];
  held = (codes "A/x", tt) ∷ [];
}

get-merge_example :
    get (codes "A/x") (merge (some stored) snapshot none 5).entries ≡ some (script (codes "1"))
unfolding program
get-merge_example = (get-merge (some stored) snapshot none 5 (codes "A/x") (tt, tt)).0

abbrev synced : Inner
synced = commit snapshot 3 true 5 true (load (some stored))

synced-Inv : Inv synced
unfolding program
synced-Inv = commits-Inv (load (some stored)) snapshot 3 true 5 true

interrupted-stored_example :
    let t =
      steps
        (tick_store 1 snapshot 3
          (steps (after_tick synced 3 3 true true 6 8 true true 1 snapshot 3) (disconnects 3 ∷ [])))
        [] in
    (tick_commit 3 true 8 true t).0.stored ≡ t.stored
unfolding program
interrupted-stored_example =
    (interrupted-stored synced 3 3 true true 6 8 true true 1 snapshot 3 [] [] [] (disconnects 3)
        synced-Inv refl).0
      refl

undisturbed-stored_example :
    let t = tick_store 1 snapshot 3 (tick_commit 3 true 6 true synced).0 in
    (tick_commit 3 true 8 true t).0.stored ≡ some (merge t.stored snapshot t.place 8)
unfolding program
undisturbed-stored_example = undisturbed-stored synced 3 3 6 8 true true true 1 snapshot 3 refl
