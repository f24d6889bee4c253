-- ===== src/Divergence.antt =====
-- src/server/divergence.rs: the differences that a connecting plugin uploads in chunks, the set that
-- they freeze into, and the choice over a pending set. A ref is a natural number, as is a `u32` id.
pub mod Compare
pub mod Decide
pub mod Choice
pub mod Protocol
pub mod Pending
mod Tests
use wsync.Prelude.{
  ℕ, ◌+◌, Bool, true, false, not, ◌&&◌, Option, none, some, List, [], ◌∷◌, ◌++◌, Text, codes,
  text_eq, OrdMap, put, length, if◌then◌else◌,
}
use wsync.Scope.{Scope, allows_class, from_studio}
use wsync.SyncBase.{Key, Place}
use wsync.ThreeWay.{State, only_on_disk, differs, missing_on_disk}

pub data EntryChange : Type 0 where
  add update remove : EntryChange

unfoldable pub parse_change : Text → Option EntryChange
parse_change t =
    if text_eq t (codes "add")
    then some EntryChange.add
    else (if text_eq t (codes "update")
        then some EntryChange.update
        else (if text_eq t (codes "remove") then some EntryChange.remove else none))

abbrev pub change_state : EntryChange → State
change_state EntryChange.add = only_on_disk
change_state EntryChange.update = differs
change_state EntryChange.remove = missing_on_disk

pub record Studio : Type 0 where
  pub key : Option Key
  pub descendants : Option (OrdMap (Option Key))

pub record Entry : Type 0 where
  pub instance_ref : ℕ
  pub change : EntryChange
  pub class : Text
  pub instance_path : Text
  pub studio : Studio

pub record Item : Type 0 where
  pub id : ℕ
  pub instance_ref : ℕ
  pub path : Option Text
  pub instance_path : Text
  pub state : State
  pub class : Text
  pub studio : Studio

pub record Stats : Type 0 where
  pub total : ℕ
  pub studio_count : ℕ
  pub disk_count : ℕ
  pub only_on_disk : ℕ
  pub differs : ℕ
  pub missing_on_disk : ℕ

pub record Upload : Type 0 where
  pub submission_id : Text
  pub next_chunk : ℕ
  pub entries : List Entry
  pub place : Option Place

-- `ids` is a `BTreeSet`, as its members in ascending order.
pub record Selection : Type 0 where
  pub submission_id : Text
  pub next_chunk : ℕ
  pub ids : List ℕ
  pub committed : Bool

pub record DivergenceSet : Type 0 where
  pub choice_id : Text
  pub items : List Item
  pub stats : Stats
  pub selection : Option Selection

pub record Inner : Type 0 where
  pub upload : Option Upload
  pub set : Option DivergenceSet

abbrev pub new_inner : Inner
new_inner = record { upload = none; set = none }

-- The second `take` of the condition runs only where the first one found nothing.
unfoldable pub invalidate : Inner → Inner
invalidate s = elim s.upload [
  | none ↦ record s { set = none }
  | some u ↦ record s { upload = none }
]

pub record CompareDescendant : Type 0 where
  pub path : Text
  pub class : Text
  pub source_sha256 : Option Text

pub record CompareEntry : Type 0 where
  pub instance_text : Text
  pub change : Text
  pub class : Text
  pub instance_path : Text
  pub source_sha256 : Option Text
  pub descendants : Option (List CompareDescendant)
  pub descendants_truncated : Bool

pub record CompareRequest : Type 0 where
  pub submission_id : Text
  pub chunk_index : ℕ
  pub final_chunk : Bool
  pub restart : Bool
  pub place : Option Place
  pub entries : List CompareEntry

abbrev pub collect_descendants :
    Scope → List CompareDescendant → OrdMap (Option Key) → OrdMap (Option Key)
collect_descendants scope [] m = m
collect_descendants scope (d ∷ ds) m =
    collect_descendants scope ds
      (if allows_class scope d.class then put d.path (from_studio d.class d.source_sha256) m else m)

abbrev pub studio_descendants :
    Scope → EntryChange → Bool → Option (List CompareDescendant) → Option (OrdMap (Option Key))
studio_descendants scope EntryChange.remove false (some ds) = some (collect_descendants scope ds [])
studio_descendants scope EntryChange.remove true (some ds) = none
studio_descendants scope EntryChange.remove truncated none = none
studio_descendants scope EntryChange.add truncated ds = none
studio_descendants scope EntryChange.update truncated ds = none

-- `CompareEntry::studio`
unfoldable pub entry_studio : Scope → EntryChange → CompareEntry → Studio
entry_studio scope EntryChange.add e = record { key = none; descendants = none }
entry_studio scope EntryChange.update e = record {
  key = from_studio e.class e.source_sha256;
  descendants = studio_descendants scope EntryChange.update e.descendants_truncated e.descendants;
}
entry_studio scope EntryChange.remove e = record {
  key = from_studio e.class e.source_sha256;
  descendants = studio_descendants scope EntryChange.remove e.descendants_truncated e.descendants;
}

-- What `freeze` reads of the tree: the file of an instance, relative to the workspace.
abbrev pub RelPaths : Type 0
RelPaths = ℕ → Option Text

abbrev pub freeze_from : RelPaths → ℕ → List Entry → List Item
freeze_from rel index [] = []
freeze_from rel index (e ∷ es) =
    record {
      id = index;
      instance_ref = e.instance_ref;
      path = rel e.instance_ref;
      instance_path = e.instance_path;
      state = change_state e.change;
      class = e.class;
      studio = e.studio;
    }
    ∷ freeze_from rel (index + 1) es

abbrev pub is_add : EntryChange → Bool
is_add EntryChange.add = true
is_add _ = false

abbrev pub is_update : EntryChange → Bool
is_update EntryChange.update = true
is_update _ = false

abbrev pub is_remove : EntryChange → Bool
is_remove EntryChange.remove = true
is_remove _ = false

abbrev pub count_changes : (EntryChange → Bool) → List Entry → ℕ
count_changes t [] = 0
count_changes t (e ∷ es) = if t e.change then count_changes t es + 1 else count_changes t es

unfoldable pub freeze : RelPaths → List Entry → List Item × Stats
freeze rel es =
    let items = freeze_from rel 0 es in
    (
      items,
      record {
        total = length items;
        studio_count = count_changes is_update es + count_changes is_remove es;
        disk_count = count_changes is_update es + count_changes is_add es;
        only_on_disk = count_changes is_add es;
        differs = count_changes is_update es;
        missing_on_disk = count_changes is_remove es;
      },
    )
