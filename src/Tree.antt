-- ===== src/Tree.antt =====
-- src/core/tree.rs and the sources of src/core/meta.rs: the instances with their metadata, and the
-- index from paths to instances. A ref is a natural number, and a path is its text, of which equal
-- paths have one. The generation is left unbounded.
pub mod Index
pub mod Removal
pub mod Operations
pub mod Run
mod Tests
use wsync.Prelude.{
  ℕ, zero, suc, ◌+◌, Bool, true, false, not, Option, none, some, List, [], ◌∷◌, ◌++◌, map, Text,
  text_eq, any, retain, NatMap, empty_map, insert, remove, ◌==◌, if◌then◌else◌, unwrap_or,
  Option-cases,
}

pub data SourceEntry : Type 0 where
  file folder data_file project : Text → SourceEntry

abbrev pub entry_path : SourceEntry → Text
entry_path (file p) = p
entry_path (folder p) = p
entry_path (data_file p) = p
entry_path (project p) = p

-- `Source` without the part that is only read to build the snapshot again.
pub record Source : Type 0 where
  pub relevant : List SourceEntry

abbrev pub is_data : SourceEntry → Bool
is_data (data_file p) = true
is_data _ = false

abbrev pub source_file : Text → Source
source_file path = record { relevant = file path ∷ [] }

abbrev pub add_data : Text → Source → Source
add_data path s = record { relevant = s.relevant ++ data_file path ∷ [] }

unfoldable pub set_data : Option Text → Source → Source
set_data path s =
    let kept : Source = record { relevant = retain (λ e. not (is_data e)) s.relevant } in
    elim path [ none ↦ kept | some p ↦ add_data p kept ]

abbrev pub paths : Source → List Text
paths s = map entry_path s.relevant

-- The rest of `Meta` is only carried along.
pub record Meta : Type 0 where
  pub source : Source
  pub original_name : Option Text

-- What the code takes from rbx_dom_weak and from multimap.
pub record Lib : Type 1 where
  pub Properties : Type 0
  pub Dom : Type 0
  pub new_dom : (name class : Text) → Properties → Dom
  pub root_ref : Dom → ℕ
  pub insert_dom :
      (parent : ℕ) (referent : Option ℕ) (name class : Text) → Properties → Dom → Dom × ℕ
  pub destroy : ℕ → Dom → Dom
  pub children : ℕ → Dom → Option (List ℕ)
  pub Index : Type 0
  pub empty_index : Index
  pub insert_index : Text → ℕ → Index → Index
  pub get_vec : Text → Index → Option (List ℕ)
  pub set_vec : Text → List ℕ → Index → Index
  pub remove_index : Text → Index → Index

mutual
  pub data Snapshot (l : Lib) : Type 0 where
    snapshot : (id : ℕ) → Meta → (name class : Text) → l.Properties → Snapshots l → Snapshot l

  pub data Snapshots (l : Lib) : Type 0 where
    nil : Snapshots l
    cons : Snapshot l → Snapshots l → Snapshots l

pub record Tree (l : Lib) : Type 0 where
  pub dom : l.Dom
  pub path_to_ids : l.Index
  pub id_to_meta : NatMap Meta
  pub generation : ℕ

abbrev pub contains_path : List Text → Text → Bool
contains_path ps p = any (λ q. text_eq q p) ps

abbrev pub is_empty {ℓ} : {A : Type ℓ} → List A → Bool
is_empty [] = true
is_empty (x ∷ xs) = false

-- `walk`, without the instance itself: the children below each child stand behind it.
abbrev pub walk_list : (ℕ → Option (List ℕ)) → List ℕ → Option (List ℕ)
walk_list f [] = some []
walk_list f (c ∷ cs) =
    let rest = walk_list f cs in
    elim (f c) [
      | none ↦ none
      | some below ↦ elim rest [ none ↦ none | some more ↦ some (c ∷ below ++ more) ]
    ]

module _ (l : Lib) where
  unfoldable pub map_paths : ℕ → List Text → l.Index → l.Index
  map_paths id [] m = m
  map_paths id (p ∷ ps) m = map_paths id ps (l.insert_index p id m)

  unfoldable pub unmap_path : Text → ℕ → l.Index → l.Index
  unmap_path p id m = elim (l.get_vec p m) [
    | none ↦ m
    | some ids ↦
        let kept = retain (λ j. not (j == id)) ids in
        if is_empty kept then l.remove_index p (l.set_vec p kept m) else l.set_vec p kept m
  ]

  unfoldable pub unmap_paths : ℕ → List Text → l.Index → l.Index
  unmap_paths id [] m = m
  unmap_paths id (p ∷ ps) m = unmap_paths id ps (unmap_path p id m)

  unfoldable pub remap : ℕ → Option Meta → Meta → l.Index → l.Index
  remap id none meta m = m
  remap id (some old) meta m =
      map_paths id (retain (λ p. not (contains_path (paths old.source) p)) (paths meta.source)) (
        unmap_paths id (retain (λ p. not (contains_path (paths meta.source) p)) (paths old.source))
          m)

  unfoldable pub unmap_meta : ℕ → Option Meta → l.Index → l.Index
  unmap_meta id none m = m
  unmap_meta id (some meta) m = unmap_paths id (paths meta.source) m

  unfoldable pub walk : ℕ → ℕ → l.Dom → Option (List ℕ)
  walk zero id d = none
  walk (suc fuel) id d = elim (l.children id d) [
    | none ↦ none
    | some cs ↦ walk_list (λ c. walk fuel c d) cs
  ]

module _ {l : Lib} where
  abbrev pub bump : Tree l → Tree l
  bump t = record t { generation = t.generation + 1 }

  unfoldable pub insert_meta : ℕ → Meta → Tree l → Tree l
  insert_meta id meta t = record t {
    path_to_ids = map_paths l id (paths meta.source) t.path_to_ids;
    id_to_meta = insert id meta t.id_to_meta;
    generation = t.generation + 1;
  }

  unfoldable pub update_meta : ℕ → Meta → Tree l → Tree l
  update_meta id meta t = record {
    dom = t.dom;
    path_to_ids = remap l id (t.id_to_meta id) meta t.path_to_ids;
    id_to_meta = insert id meta t.id_to_meta;
    generation = t.generation + 1;
  }

  unfoldable pub remove_meta : ℕ → Tree l → Tree l
  remove_meta id t = record {
    dom = t.dom;
    path_to_ids = unmap_meta l id (t.id_to_meta id) t.path_to_ids;
    id_to_meta = remove id t.id_to_meta;
    generation = t.generation + 1;
  }

  -- `get_meta_mut`, and `set_source` on what it gives.
  unfoldable pub set_source : ℕ → Source → Tree l → Tree l
  set_source id source t = elim (t.id_to_meta id) [
    | none ↦ bump t
    | some meta ↦ record (bump t) {
      id_to_meta = insert id (record meta { source = source }) t.id_to_meta;
    }
  ]

  abbrev pub insert_built :
      (referent : Option ℕ) (name : Text)
      → Meta
      → (class : Text) → l.Properties
      → (parent : ℕ) → Tree l
      → Tree l × ℕ
  insert_built referent name meta class properties parent t =
      let r =
        l.insert_dom parent referent (unwrap_or meta.original_name name) class properties t.dom in
      (insert_meta r.1 meta (record (bump t) { dom = r.0 }), r.1)

  unfoldable pub insert_instance : Snapshot l → ℕ → Tree l → Tree l × ℕ
  insert_instance (snapshot id meta name class properties children) parent t =
      insert_built none name meta class properties parent t

  unfoldable pub insert_instance_with_ref : Snapshot l → ℕ → Tree l → Tree l
  insert_instance_with_ref (snapshot id meta name class properties children) parent t =
      (insert_built (some id) name meta class properties parent t).0

  unfoldable pub remove_metas : List ℕ → Tree l → Tree l
  remove_metas [] t = t
  remove_metas (id ∷ ids) t = remove_metas ids (remove_meta id t)

  -- `none` where an `unwrap` of `walk` panics.
  unfoldable pub remove_instance : (fuel id : ℕ) → Tree l → Option (Tree l)
  remove_instance fuel id t =
      if id == l.root_ref t.dom then some (bump t) else (elim (walk l fuel id t.dom) [
        | none ↦ none
        | some below ↦
            let t' = remove_metas (id ∷ below) (bump t) in
            some (record t' { dom = l.destroy id t'.dom })
      ])

unfoldable mutual
  pub insert_instance_recursive : {l : Lib} → Snapshot l → ℕ → Tree l → Tree l × ℕ
  insert_instance_recursive (snapshot id meta name class properties children) parent t =
      let r = insert_built none name meta class properties parent t in
      (insert_children children r.1 r.0, r.1)

  pub insert_children : {l : Lib} → Snapshots l → ℕ → Tree l → Tree l
  insert_children nil parent t = t
  insert_children (cons s ss) parent t =
      insert_children ss parent (insert_instance_recursive s parent t).0

module _ {l : Lib} where
  unfoldable pub new_tree : Snapshot l → Tree l
  new_tree (snapshot id meta name class properties children) =
      let d = l.new_dom name class properties in
      let root = l.root_ref d in
      insert_children children root (
        insert_meta root meta
          (record { dom = d; path_to_ids = l.empty_index; id_to_meta = empty_map; generation = 0 }))
