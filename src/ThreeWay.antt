-- ===== src/ThreeWay.antt =====
-- src/server/three_way.rs: which side wins each difference that a connect reports.
pub mod Rules
mod Tests
use wsync.Prelude.{
  ℕ, Bool, true, false, not, ◌&&◌, Option, none, some, List, [], ◌∷◌, map, Text, OrdMap, get, all,
  length, ◌==◌, if◌then◌else◌,
}
use wsync.SyncBase.{Key}
use wsync.SyncBase.View.{BaseView, Lookup, known, absent, unknown, lookup, descendants, opt_key_eq}

pub data State : Type 0 where
  only_on_disk differs missing_on_disk : State

pub data Winner : Type 0 where
  studio studio_keep_disk disk : Winner

pub record Input : Type 0 where
  pub state : State
  pub instance_path : Text
  pub disk_key : Option Key
  pub studio_key : Option Key
  pub studio_descendants : Option (OrdMap (Option Key))
  pub ambiguous : Bool

abbrev pub studio_first : State → Winner
studio_first only_on_disk = studio_keep_disk
studio_first differs = studio_keep_disk
studio_first missing_on_disk = studio

-- The base's word on the path: `none` for an ambiguous path, else what was agreed, if anything.
abbrev pub known_key : Lookup → Option (Option Key)
known_key unknown = none
known_key absent = some none
known_key (known k) = some (some k)

unfoldable pub classify_differs : Option Key → Option Key → Option Key → Winner
classify_differs none disk_key studio_key = studio_keep_disk
classify_differs (some agreed) disk_key studio_key =
    let disk_moved = not (opt_key_eq disk_key (some agreed)) in
    let studio_moved = not (opt_key_eq studio_key (some agreed)) in
    if not disk_moved && studio_moved
    then studio
    else if disk_moved && not studio_moved
    then disk
    else studio_keep_disk

-- `studio.get(path).is_some_and(|studio| studio.as_ref() == Some(*key))`
unfoldable pub same_entry : OrdMap (Option Key) → Text × Key → Bool
same_entry studio_below e = elim (get e.0 studio_below) [
  | none ↦ false
  | some k ↦ opt_key_eq k (some e.1)
]

unfoldable pub unchanged : OrdMap (Option Key) → OrdMap Key → Bool
unfolding same_entry
unchanged studio_below agreed_below =
    length studio_below == length agreed_below && all (same_entry studio_below) agreed_below

abbrev pub classify_subtree : Option (OrdMap (Option Key)) → Option (OrdMap Key) → Winner
classify_subtree none b = studio
classify_subtree (some a) none = studio
classify_subtree (some a) (some b) = if unchanged a b then disk else studio

unfoldable pub classify_missing : BaseView → Input → Option Key → Winner
classify_missing base i none = studio
classify_missing base i (some agreed) =
    if not (opt_key_eq i.studio_key (some agreed))
    then studio
    else classify_subtree i.studio_descendants (descendants base i.instance_path)

unfoldable pub classify_agreed : BaseView → Input → Option Key → State → Winner
classify_agreed base i none only_on_disk = disk
classify_agreed base i (some k) only_on_disk = studio_keep_disk
classify_agreed base i agreed differs = classify_differs agreed i.disk_key i.studio_key
classify_agreed base i agreed missing_on_disk = classify_missing base i agreed

unfoldable pub classify : Option BaseView → Input → Winner
classify none i = studio_first i.state
classify (some base) i =
    if i.ambiguous then studio_first i.state else (elim (known_key (lookup base i.instance_path)) [
      | none ↦ studio_first i.state
      | some agreed ↦ classify_agreed base i agreed i.state
    ])
