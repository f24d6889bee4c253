-- ===== src/ThreeWay/Tests.antt =====
-- Differences of the source's unit tests.
use wsync.Prelude.{
  ◌≡◌, ◌⊎◌, refl, false, Option, none, some, [], ◌∷◌, arith, Text, codes, OrdMap, get, range_from,
  take_while, starts_with, text_lt, IsSorted,
}
use wsync.SyncBase.{Key}
use wsync.SyncBase.View.{BaseView, IsOrdered, lookup, strip, descendants, known, opt_key_eq}
use wsync.ThreeWay.{
  differs, missing_on_disk, studio, disk, Input, unchanged, classify_differs, classify_missing,
  classify_agreed, classify,
}
use wsync.ThreeWay.Rules.{DiskMayWin, classify-studio_safe, classify-disk_safe}

program : Unit {0}
unfolding get range_from take_while starts_with text_lt lookup strip descendants opt_key_eq
    unchanged classify_differs classify_missing classify_agreed classify
program = tt

abbrev folder : Key
folder = record { class = codes "Folder"; source = none }

abbrev script : Text → Key
script h = record { class = codes "Script"; source = some h }

abbrev base : BaseView
base = record {
  entries =
      (codes "A", folder)
      ∷ (codes "A/x", script (codes "1"))
      ∷ (codes "S", script (codes "2"))
      ∷ [];
  ambiguous = [];
}

base-IsOrdered : IsOrdered base
unfolding program
base-IsOrdered = record {
  entries_sorted = ((refl, (refl, tt)), ((refl, tt), (tt, tt)));
  ambiguous_sorted = tt;
}

-- The script `S` on both sides.
abbrev script_input : Option Key → Option Key → Input
script_input disk_key studio_key = record {
  state = differs;
  instance_path = codes "S";
  disk_key = disk_key;
  studio_key = studio_key;
  studio_descendants = none;
  ambiguous = false;
}

abbrev below_folder : OrdMap (Option Key)
below_folder = (codes "x", some (script (codes "1"))) ∷ []

-- The folder `A` is gone from disk, and untouched in Studio.
abbrev folder_input : Input
folder_input = record {
  state = missing_on_disk;
  instance_path = codes "A";
  disk_key = none;
  studio_key = some folder;
  studio_descendants = some below_folder;
  ambiguous = false;
}

abbrev studio_moved : Input
studio_moved = script_input (some (script (codes "2"))) none

studio_moved-studio : classify (some base) studio_moved ≡ studio
unfolding program
studio_moved-studio = refl

classify-studio_safe_example :
    (studio_moved.state ≡ missing_on_disk)
    ⊎ ((k : Key) × (lookup base studio_moved.instance_path ≡ known k)
        × (studio_moved.disk_key ≡ some k))
classify-studio_safe_example = classify-studio_safe base studio_moved studio_moved-studio

folder_input-disk : classify (some base) folder_input ≡ disk
unfolding program
folder_input-disk = refl

some-IsSorted :
    (a d : OrdMap (Option Key))
    → ◌≡◌ {A = Option (OrdMap (Option Key))} (some a) (some d)
    → IsSorted a
    → IsSorted d
some-IsSorted a d e s = ground arith

below_folder-IsSorted :
    (d : OrdMap (Option Key)) → folder_input.studio_descendants ≡ some d → IsSorted d
below_folder-IsSorted d e = some-IsSorted below_folder d e (tt, tt)

classify-disk_safe_example : DiskMayWin base folder_input
classify-disk_safe_example =
    classify-disk_safe base folder_input base-IsOrdered below_folder-IsSorted folder_input-disk
