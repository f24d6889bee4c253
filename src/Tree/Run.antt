-- ===== src/Tree/Run.antt =====
-- The tree of src/core/tree.rs over a run: the operations that its callers make, one after another,
-- and what the write processor does beside them.
use wsync.Prelude.{
  ℕ, suc, ◌≡◌, refl, sym, ap, subst, true, false, some, Text, insert, ◌==◌, ==_iff, ==_refl,
  unwrap_or, is_some, arith,
}
use wsync.Tree.{
  Source, Meta, Lib, Snapshot, snapshot, Snapshots, Tree, paths, contains_path, bump, map_paths,
  insert_meta, insert_instance, insert_instance_with_ref, insert_instance_recursive, new_tree,
  update_meta, remove_instance, set_source,
}
use wsync.Tree.Index.{
  has, IsLib, holds, names_path, holds-map_paths, IsIndexed, update_meta-IsIndexed,
}
use wsync.Tree.Operations.{
  snapshot_id, insert_instance-IsIndexed, remove_instance-IsIndexed,
  insert_instance_recursive-IsIndexed, insert_instance_with_ref-IsIndexed, new_tree-IsIndexed,
}

-- What the callers do with a tree, one operation after another.
pub data Reaches {l : Lib} (w : IsLib l) : Tree l → Type 1 where
  start : (s : Snapshot l) {t : Tree l} → t ≡ new_tree s → Reaches w t
  inserted :
      (s : Snapshot l) (parent : ℕ) {t t' : Tree l}
      → t' ≡ (insert_instance s parent t).0
      → Reaches w t
      → Reaches w t'
  inserted_all :
      (s : Snapshot l) (parent : ℕ) {t t' : Tree l}
      → t' ≡ (insert_instance_recursive s parent t).0
      → Reaches w t
      → Reaches w t'
  inserted_at :
      (s : Snapshot l) (parent : ℕ) {t t' : Tree l}
      → t' ≡ insert_instance_with_ref s parent t
      → Reaches w t
      → Reaches w t'
  updated :
      (id : ℕ) (meta : Meta) {t t' : Tree l}
      → t' ≡ update_meta id meta t
      → Reaches w t
      → Reaches w t'
  removed :
      (id : ℕ) {t t' : Tree l}
      → remove_instance (suc (w.height t.dom id)) id t ≡ some t'
      → Reaches w t
      → Reaches w t'

-- `IsOrderly`: each `insert_instance_with_ref` of the run was given a ref that no instance had, and each
-- `update_meta` an instance with metadata.
abbrev pub IsOrderly : {l : Lib} {w : IsLib l} {t : Tree l} → Reaches w t → Type 0
IsOrderly (start s e) = Unit
IsOrderly (inserted s parent e r) = IsOrderly r
IsOrderly (inserted_all s parent e r) = IsOrderly r
IsOrderly {l} (inserted_at s parent {t} e r) = (has l t.dom (snapshot_id s) ≡ false) × IsOrderly r
IsOrderly (updated id meta {t} e r) = (is_some (t.id_to_meta id) ≡ true) × IsOrderly r
IsOrderly (removed id e r) = IsOrderly r

-- Take a run of the tree's operations in which each insertion under a given ref was given a ref that no
-- instance had, each update of metadata was of an instance with metadata, and no removal panicked.
-- In the tree that it leads to, the ids kept for a path are exactly those of the instances whose source
-- names the path, no path has an empty list of ids, and every instance with metadata is in the dom.
pub reached-IsIndexed :
    {l : Lib} (w : IsLib l) {t : Tree l} (r : Reaches w t) → IsOrderly r → IsIndexed l t
reached-IsIndexed {l} w (start s e) o = subst (IsIndexed l) (sym e) (new_tree-IsIndexed w s)
reached-IsIndexed {l} w (inserted s parent {t} e r) o =
    subst (IsIndexed l) (sym e) (insert_instance-IsIndexed w s parent t (reached-IsIndexed w r o))
reached-IsIndexed {l} w (inserted_all s parent {t} e r) o =
    subst (IsIndexed l) (sym e)
      (insert_instance_recursive-IsIndexed w s parent t (reached-IsIndexed w r o))
reached-IsIndexed {l} w (inserted_at s parent {t} e r) (fresh, o) =
    subst (IsIndexed l) (sym e)
      (insert_instance_with_ref-IsIndexed w s parent t fresh (reached-IsIndexed w r o))
reached-IsIndexed {l} w (updated id meta {t} e r) (there, o) =
    subst (IsIndexed l) (sym e) (update_meta-IsIndexed w id meta t there (reached-IsIndexed w r o))
reached-IsIndexed {l} w (removed id {t} {t'} e r) o =
    remove_instance-IsIndexed w id t t' e (reached-IsIndexed w r o)

-- Where the index of a tree agrees with its metadata, inserting a snapshot under a ref that has metadata,
-- whose source names a path that the snapshot's source does not name, leaves the path leading to the
-- instance, though its source no longer names it: the index no longer agrees.
pub insert_instance_with_ref-breaks :
    {l : Lib} (w : IsLib l) (id : ℕ) (meta : Meta) (name class : Text) (properties : l.Properties)
    (children : Snapshots l) (parent : ℕ) (t : Tree l) (old : Meta) (p : Text)
    → IsIndexed l t
    → t.id_to_meta id ≡ some old
    → contains_path (paths old.source) p ≡ true
    → contains_path (paths meta.source) p ≡ false
    → let t' =
        insert_instance_with_ref (snapshot id meta name class properties children) parent t in
      (t'.id_to_meta id ≡ some meta)
      × (holds (l.get_vec p t'.path_to_ids) id ≡ true)
      × ¬ IsIndexed l t'
unfolding insert_instance_with_ref insert_meta
insert_instance_with_ref-breaks {l} w id meta name class properties children parent t old p a e y
      n =
    let r : ℕ =
      (l.insert_dom parent (some id) (unwrap_or meta.original_name name) class properties
        t.dom).1 in
    let given : r ≡ id =
      w.insert_given parent id (unwrap_or meta.original_name name) class properties t.dom in
    let same : (r == id) ≡ true = (==_iff r id).1 given in
    let stale : holds (l.get_vec p (map_paths l r (paths meta.source) t.path_to_ids)) id ≡ true =
      ground (
        arith,
        holds-map_paths w (paths meta.source) r t.path_to_ids p id,
        a.same p id,
        ap (λ o. names_path o p) e,
        y,
      ) in
    (rw same refl, stale, λ b. absurd (ground (arith, b.same p id, stale, same, n)))

set_source-some :
    {l : Lib} (id : ℕ) (source : Source) (t : Tree l) (meta : Meta)
    → t.id_to_meta id ≡ some meta
    → set_source id source t
      ≡ record (bump t) { id_to_meta = insert id (record meta { source = source }) t.id_to_meta }
unfolding set_source
set_source-some id source t meta e = rw (set_source, e) refl

-- Where the index of a tree agrees with its metadata, setting the source of an instance in place to one
-- that names a path the old source did not name leaves the path without the instance: the index no
-- longer agrees.
pub set_source-breaks :
    {l : Lib} (id : ℕ) (source : Source) (t : Tree l) (meta : Meta) (p : Text)
    → IsIndexed l t
    → t.id_to_meta id ≡ some meta
    → contains_path (paths source) p ≡ true
    → contains_path (paths meta.source) p ≡ false
    → (holds (l.get_vec p (set_source id source t).path_to_ids) id ≡ false)
      × ¬ IsIndexed l (set_source id source t)
set_source-breaks {l} id source t meta p a e y n =
    let t' = record (bump t) {
      id_to_meta = insert id (record meta { source = source }) t.id_to_meta;
    } in
    let old : holds (l.get_vec p t.path_to_ids) id ≡ false = ground (arith, a.same p id, e) in
    subst (λ u. (holds (l.get_vec p u.path_to_ids) id ≡ false) × ¬ IsIndexed l u)
      (sym (set_source-some id source t meta e))
      (old, λ b. absurd (ground (arith, b.same p id, ==_refl id)))
