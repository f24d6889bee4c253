-- ===== src/Divergence/Tests.antt =====
-- A submission of two chunks, its pages, and a pending set beside an upload.
use wsync.Prelude.{
  ℕ, ◌≡◌, refl, true, false, none, some, [], ◌∷◌, Text, codes, get, put, OrdMap, IsSorted, Option,
  subst, any, text_eq,
}
use wsync.Scope.{Scope, allows_class, parse_ref, from_studio, from_hash, trim, is_whitespace}
use wsync.SyncBase.Session.{begin_compare, commit, merge, merge_entries, keep_held, load}
use wsync.Conflict.Content.{Codec, is_script}
use wsync.Conflict.State.{new_engine, stamp}
use mathlib.Core.Option.{some-injective}
use wsync.SyncBase.{Key}
use wsync.SyncBase.View.{BaseView, IsOrdered, lookup, opt_key_eq}
use wsync.ThreeWay.{differs, disk, classify, classify_agreed, classify_differs}
use wsync.ThreeWay.Rules.{DiskMayWin}
use wsync.Divergence.Decide.{TreeKeys, decide, input_of, has_path, decide-disk_safe}
use wsync.Divergence.{
  EntryChange, parse_change, Entry, Item, DivergenceSet, Inner, CompareEntry, entry_studio, freeze,
  invalidate, new_inner,
}
use wsync.Divergence.Compare.{
  TreeView, ServerState, studio_first, read_entries, fine, compare, ingest_chunk, ingest_started,
  accept, commit_upload, set_upload, drop_for_restart, seed_all_baselines,
}
use wsync.Divergence.Choice.{
  take_page, choice_details, choice_get, choice_selection, choice_post, select_ids, select_in,
  staged_items, parse_choice,
}
use wsync.Divergence.Protocol.{
  chunk, upload_of, send_chunks, send_chunks-commits, is_refused, ingest_chunk-refuses,
}
use wsync.Divergence.Pending.{Op, step, run, run-never_pending}

program : Unit {0}
unfolding allows_class parse_ref from_studio from_hash trim is_whitespace begin_compare commit merge
    merge_entries keep_held load is_script new_engine stamp parse_change entry_studio freeze
    invalidate read_entries compare ingest_chunk ingest_started accept commit_upload set_upload
    drop_for_restart seed_all_baselines take_page choice_details choice_get choice_selection
    choice_post select_ids select_in staged_items parse_choice send_chunks step run get put
program = tt

abbrev codec : Codec
codec = record {
  Opaque = ℕ;
  Json = Text;
  string_json = λ t. t;
  opaque_json = λ n. n ∷ [];
  json_string = λ t. some t;
  print = λ t. t;
  sha256 = λ t. 0;
}

abbrev view : TreeView
view = record {
  contents = (1, 11) ∷ [];
  snapshot = record { entries = []; ambiguous = []; held = [] };
  generation = 4;
  rel_paths = λ id. none;
  seconds = 9;
  written = true;
}

abbrev server : ServerState codec
server = record { divergence = new_inner; sync_base = load none; conflicts = new_engine codec }

abbrev entry : ℕ → Entry
entry id = record {
  instance_ref = id;
  change = EntryChange.update;
  class = codes "Folder";
  instance_path = codes "Workspace/A";
  studio = record { key = none; descendants = none };
}

abbrev sent : CompareEntry
sent = record {
  instance_text = codes "0123456789abcdef0123456789abcdef";
  change = codes "update";
  class = codes "Folder";
  instance_path = codes "Workspace/A";
  source_sha256 = none;
  descendants = none;
  descendants_truncated = false;
}

abbrev pending : DivergenceSet
pending = record {
  choice_id = codes "choice";
  items = (freeze (λ id. none) (entry 5 ∷ entry 6 ∷ [])).0;
  stats = (freeze (λ id. none) (entry 5 ∷ entry 6 ∷ [])).1;
  selection = none;
}

abbrev both : Inner
both = record { upload = some (upload_of (codes "s") none 1 []); set = some pending }

read_one :
    read_entries (λ t. some 5) Scope.code 0 (sent ∷ [])
    ≡ fine (
        record (entry 5) {
          studio = record {
            key = some (record { class = codes "Folder"; source = none });
            descendants = none;
          };
        }
        ∷ [])
unfolding program
read_one = refl

send_chunks-commits_example :
    send_chunks {c = codec} view (codes "s") none 0 ((entry 5 ∷ []) ∷ []) (entry 6 ∷ []) server ≡ (
      record server { sync_base = begin_compare none server.sync_base },
      studio_first pending.items 1 2 none,
    )
unfolding program
send_chunks-commits_example =
    send_chunks-commits {c = codec} view (codes "s") none ((entry 5 ∷ []) ∷ []) (entry 6 ∷ [])
      server refl

ingest_chunk-refuses_example :
    (is_refused (ingest_chunk view (chunk (codes "s") none 1 false) [] server).1 ≡ true)
    × (server ≡ (ingest_chunk view (chunk (codes "s") none 1 false) [] server).0)
unfolding program
ingest_chunk-refuses_example =
    ingest_chunk-refuses view (chunk (codes "s") none 1 false) [] server refl

run-never_pending_example :
    choice_get
      (run
        (λ t. some 5)
        (Op.compares Scope.code view 100
            (some (record (chunk (codes "s") none 0 true) { entries = sent ∷ [] }))
          ∷ Op.invalidates
          ∷ [])
        server).divergence
    ≡ none
unfolding program
run-never_pending_example =
    run-never_pending (λ t. some 5)
      (Op.compares Scope.code view 100
          (some (record (chunk (codes "s") none 0 true) { entries = sent ∷ [] }))
        ∷ Op.invalidates
        ∷ [])
      (load none) (new_engine codec)

verdicts : Unit {0}
unfolding decide classify classify_agreed classify_differs lookup opt_key_eq get
verdicts = tt

abbrev script_key : Text → Key
script_key h = record { class = codes "Script"; source = some h }

abbrev agreed_base : BaseView
agreed_base = record { entries = (codes "S", script_key (codes "2")) ∷ []; ambiguous = [] }

agreed_base-IsOrdered : IsOrdered agreed_base
agreed_base-IsOrdered = record { entries_sorted = (tt, tt); ambiguous_sorted = tt }

-- The script has changed on disk, and Studio has what was agreed.
abbrev moved_item : Item
moved_item = record {
  id = 0;
  instance_ref = 5;
  path = none;
  instance_path = codes "S";
  state = differs;
  class = codes "Script";
  studio = record { key = some (script_key (codes "2")); descendants = none };
}

abbrev disk_keys : TreeKeys
disk_keys = record { key_of = λ id. some (script_key (codes "3")); ambiguous_paths = [] }

disk_wins : decide disk_keys (moved_item ∷ []) (some agreed_base) ≡ disk ∷ []
unfolding verdicts
disk_wins = refl

none_descendants-IsSorted :
    (d : OrdMap (Option Key)) → ◌≡◌ {A = Option (OrdMap (Option Key))} none (some d) → IsSorted d
none_descendants-IsSorted d e = absurd (cc)

some_base-IsOrdered : (b : BaseView) → some agreed_base ≡ some b → IsOrdered b
some_base-IsOrdered b e = subst IsOrdered (some-injective _ _ e) agreed_base-IsOrdered

decide-disk_safe_example :
    (b : BaseView) × (some agreed_base ≡ some b)
    × DiskMayWin b (input_of disk_keys (moved_item ∷ []) moved_item)
    × (any (has_path (codes "S")) [] ≡ false)
    × (any (λ p. text_eq p (codes "S")) disk_keys.ambiguous_paths ≡ false)
decide-disk_safe_example =
    decide-disk_safe disk_keys (some agreed_base) [] [] moved_item [] [] refl disk_wins
      some_base-IsOrdered none_descendants-IsSorted
