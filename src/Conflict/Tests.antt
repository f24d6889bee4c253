-- ===== src/Conflict/Tests.antt =====
-- The engine on concrete calls.
use wsync.Prelude.{
  ℕ, ◌+◌, ◌*◌, ◌≡◌, ◌≢◌, refl, true, none, some, List, [], ◌∷◌, arith, Text, codes, decimal,
}
use wsync.Conflict.Content.{Codec, ContentState}
use wsync.Conflict.State.{
  Now, Captured, StudioApply, Parked, EngineState, propagate, apply, conflict, no_change, is_parked,
  prune, new_engine, park_conflict, restore, take, stamp, forget, both_edited, present_side,
}
use wsync.Conflict.Fs.{
  on_fs_addition, on_fs_update, on_fs_removal, fs_update_pruned, fs_update_parked, fs_update_free,
  fs_removal_pruned, fs_removal_parked, fs_removal_free,
}
use wsync.Conflict.Push.{
  on_push_addition, on_push_update, on_push_update_missing, on_push_removal,
  on_push_removal_missing, push_update_pruned, push_update_parked, push_update_free,
  update_missing_pruned, update_missing_free, push_removal_pruned, push_removal_parked,
  push_removal_free,
}
use wsync.Conflict.Run.{Op, step, run}
use wsync.Conflict.Invariant.{Inv}
use wsync.Conflict.Records.{Distinct}
use wsync.Conflict.Safety.{run-Inv, restore-not-Distinct}
use wsync.Conflict.Decisions.{push_update_applies_iff, push_removal_applies_iff, parked_withholds}
use wsync.Conflict.Races.{racing_push}
use wsync.Conflict.Tombstones.{racing_deletion}
use wsync.Conflict.Isolation.{Untouched, step-Untouched}

-- All that runs in these tests.
program : Unit {0}
unfolding new_engine stamp forget take restore is_parked prune on_fs_addition on_fs_update
    on_fs_removal fs_update_pruned fs_update_parked fs_update_free fs_removal_pruned
    fs_removal_parked fs_removal_free on_push_addition on_push_update on_push_update_missing
    on_push_removal on_push_removal_missing push_update_pruned push_update_parked push_update_free
    update_missing_pruned update_missing_free push_removal_pruned push_removal_parked
    push_removal_free park_conflict step run decimal
program = tt

abbrev digest : Text → ℕ
digest [] = 1
digest (b ∷ bs) = b + 257 * digest bs

-- A codec over texts: JSON is its own text, and an opaque value is a number.
abbrev plain : Codec
plain = record {
  Opaque = ℕ;
  Json = Text;
  string_json = λ s. s;
  opaque_json = λ n. n ∷ [];
  json_string = λ j. some j;
  print = λ j. j;
  sha256 = digest;
}

abbrev at : ℕ → Now
at t = record { instant = t; utc = codes "2026-01-01T00:00:00.000Z" }

abbrev state_of : ℕ → ContentState plain
state_of h = record { name = codes "Main"; class = codes "Script"; properties = []; hash = h }

abbrev captured : ℕ → Captured plain
captured h = record {
  info = record { id = 7; parent = 1; instance_path = codes "Main"; rel_path = none };
  content = state_of h;
  properties = [];
}

abbrev studio_state : StudioApply plain
studio_state = record { name = codes "Main"; class = codes "Script"; properties = [] }

abbrev fresh_engine : EngineState plain
fresh_engine = new_engine plain

-- The unit test `racing_push_inside_window_parks_both_edited` of the source.
abbrev edited : EngineState plain
edited = (on_fs_update fresh_engine (at 0) (captured 10) (state_of 20)).state

abbrev clashed : EngineState plain
clashed = (on_push_update edited (at 500) (captured 20) (state_of 30) studio_state).state

clashed_parks : (is_parked clashed 7 ≡ true) × (clashed.next_id ≡ 2)
unfolding program
clashed_parks = (refl, refl)

abbrev history : List (Op plain)
history =
    Op.fs_update (at 0) (captured 10) (state_of 20)
    ∷ Op.push_update (at 500) (captured 20) (state_of 30) studio_state
    ∷ Op.fs_removal (at 600) (captured 20)
    ∷ []

run-Inv_example : Inv plain (run (new_engine plain) history)
run-Inv_example = run-Inv history

clashed-Inv : Inv plain clashed
unfolding program
clashed-Inv = run-Inv (
    Op.fs_update (at 0) (captured 10) (state_of 20)
    ∷ Op.push_update (at 500) (captured 20) (state_of 30) studio_state
    ∷ [])

-- The record that the clash leaves, put back on an engine that does not have it.
abbrev clash_record : Parked plain
clash_record = record {
  id = codes "c1";
  instance_ref = 7;
  info = (captured 10).info;
  classification = both_edited;
  fs = present_side (state_of 20);
  studio = present_side (state_of 30);
  studio_apply = some studio_state;
  detected_at = codes "2026-01-01T00:00:00.000Z";
}

restore-not-Distinct_example : ¬ Distinct (restore clashed clash_record).parked
restore-not-Distinct_example = restore-not-Distinct clashed clash_record clashed_parks.0

push_update_applies_iff_example :
    (on_push_update fresh_engine (at 0) (captured 10) (state_of 30) studio_state).decision ≡ apply
unfolding program
push_update_applies_iff_example =
    (push_update_applies_iff fresh_engine (at 0) (captured 10) (state_of 30) studio_state).1
      (refl, refl, omega arith, refl)

push_removal_applies_iff_example :
    (on_push_removal fresh_engine (at 0) (captured 10)).decision ≡ apply
unfolding program
push_removal_applies_iff_example =
    (push_removal_applies_iff fresh_engine (at 0) (captured 10)).1 (refl, refl, refl)

parked_withholds_example :
    (on_fs_update clashed (at 600) (captured 20) (state_of 40)).decision ≢ propagate
parked_withholds_example =
    (parked_withholds clashed (at 600) (captured 20) (state_of 40) (state_of 50) studio_state none
      none clashed_parks.0).0

-- Studio deletes the parked instance, and then disk does.
abbrev studio_gone : EngineState plain
studio_gone = (on_push_removal clashed (at 600) (captured 20)).state

racing_push_example :
    (on_push_update
      (on_fs_update fresh_engine (at 0) (captured 10) (state_of 20)).state
      (at 500)
      (captured 20)
      (state_of 30)
      studio_state).decision
    ≡ conflict
unfolding program
racing_push_example =
    ((racing_push fresh_engine (at 0) (at 500) (captured 10) (captured 20) (state_of 20)
        (state_of 30) studio_state refl refl (omega arith) refl (omega arith)).3
      (omega arith) (omega arith)).0

racing_deletion_example :
    (on_push_update_missing
      (on_fs_removal fresh_engine (at 0) (captured 10)).state
      (at 5000)
      7
      (some (codes "Renamed"))
      none).decision
    ≡ no_change
unfolding program
racing_deletion_example =
    ((racing_deletion fresh_engine (at 0) (at 5000) (captured 10) (some (codes "Renamed")) none
        refl).1
      (omega arith)).0

step-Untouched_example :
    Untouched plain 8 (prune 600 clashed) (step clashed (Op.fs_removal (at 600) (captured 20)))
step-Untouched_example =
    step-Untouched 8 7 (omega arith) clashed (Op.fs_removal (at 600) (captured 20)) refl
