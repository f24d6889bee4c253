-- ===== src/Tree/Operations.antt =====
-- Each operation of src/core/tree.rs by itself keeps the index in agreement with the metadata.
use wsync.Prelude.{
  ℕ, suc, ◌≡◌, inl, inr, refl, sym, ap, ◌∙◌, subst, false, Option, none, some, Text, empty_map,
  ◌==◌, ==_iff, unwrap_or, Option-cases, Bool-cases, is_some,
}
use mathlib.Core.Option.{some-injective}
use wsync.Tree.{
  Meta, Lib, Snapshot, snapshot, Snapshots, nil, cons, Tree, bump, walk, insert_built, insert_meta,
  insert_instance, insert_instance_with_ref, insert_instance_recursive, insert_children, new_tree,
  remove_instance,
}
use wsync.Tree.Index.{has, IsLib, Agrees, IsIndexed, insert_meta-IsIndexed}
use wsync.Tree.Removal.{remove_instance-removes, remove_instance-root}

module _ {l : Lib} (w : IsLib l) where
  no_meta : (t : Tree l) (id : ℕ) → IsIndexed l t → has l t.dom id ≡ false → t.id_to_meta id ≡ none
  no_meta t id a e = elim (Option-cases (t.id_to_meta id)) [
    | inl n ↦ n
    | inr (meta, o) ↦ let there = a.known id (ap is_some o) in absurd (cc)
  ]

  insert_built-IsIndexed :
      (r : Option ℕ) (name : Text) (meta : Meta) (class : Text) (ps : l.Properties) (parent : ℕ)
      (t : Tree l)
      → has l t.dom (l.insert_dom parent r (unwrap_or meta.original_name name) class ps t.dom).1
        ≡ false
      → IsIndexed l t
      → IsIndexed l (insert_built r name meta class ps parent t).0
  insert_built-IsIndexed r name meta class ps parent t fresh a =
      let n : Text = unwrap_or meta.original_name name in
      let e = l.insert_dom parent r n class ps t.dom in
      insert_meta-IsIndexed w e.1 meta (record (bump t) { dom = e.0 }) (no_meta t e.1 a fresh)
        (w.insert_has parent r n class ps t.dom)
        (record {
          same = a.same;
          occupied = a.occupied;
          known = λ j h. w.insert_keeps parent j r n class ps t.dom (a.known j h);
        })

  pub insert_instance-IsIndexed :
      (s : Snapshot l) (parent : ℕ) (t : Tree l)
      → IsIndexed l t
      → IsIndexed l (insert_instance s parent t).0
  unfolding insert_instance
  insert_instance-IsIndexed (snapshot id meta name class ps cs) parent t a =
      insert_built-IsIndexed none name meta class ps parent t
        (w.insert_fresh parent (unwrap_or meta.original_name name) class ps t.dom) a

abbrev pub snapshot_id : {l : Lib} → Snapshot l → ℕ
snapshot_id (snapshot id meta name class ps cs) = id

missing-walk :
    (l : Lib) (fuel id : ℕ) (d : l.Dom) → has l d id ≡ false → walk l (suc fuel) id d ≡ none
unfolding walk
missing-walk l fuel id d h = elim (Option-cases (l.children id d)) [
  | inl n ↦ rw (walk, n) refl
  | inr (cs, e) ↦ absurd (cc (h, ap is_some e))
]

-- A removal that does not panic: of the root, which only counts, or of an instance that is there.
pub remove_instance-IsIndexed :
    {l : Lib} (w : IsLib l) (id : ℕ) (t t' : Tree l)
    → remove_instance (suc (w.height t.dom id)) id t ≡ some t'
    → IsIndexed l t
    → IsIndexed l t'
unfolding remove_instance
remove_instance-IsIndexed {l} w id t t' e a =
    let fuel : ℕ = suc (w.height t.dom id) in
    elim (Bool-cases (id == l.root_ref t.dom)) [
      | inl b ↦
          subst (IsIndexed l)
            (some-injective _ _
              (sym (remove_instance-root fuel id t ((==_iff id (l.root_ref t.dom)).0 b)) ∙ e))
            (record { same = a.same; occupied = a.occupied; known = a.known })
      | inr f ↦ elim (Bool-cases (has l t.dom id)) [
        | inl there ↦
            let (t1, e1, r) =
              remove_instance-removes w id t a there
                (λ r. absurd (cc (f, (==_iff id (l.root_ref t.dom)).1 r))) in
            subst (IsIndexed l) (some-injective _ _ (sym e1 ∙ e)) r.0
        | inr missing ↦
            let nothing : remove_instance fuel id t ≡ none =
              rw (f, missing-walk l (w.height t.dom id) id t.dom missing) refl in
            absurd (cc (nothing, e))
      ]
    ]

mutual
  unfolding insert_instance_recursive

  pub insert_instance_recursive-IsIndexed :
      {l : Lib} (w : IsLib l) (s : Snapshot l) (parent : ℕ) (t : Tree l)
      → IsIndexed l t
      → IsIndexed l (insert_instance_recursive s parent t).0
  insert_instance_recursive-IsIndexed {l} w (snapshot id meta name class ps cs) parent t a =
      let n : Text = unwrap_or meta.original_name name in
      let r = insert_built none name meta class ps parent t in
      insert_children-IsIndexed w cs r.1 r.0 (
        insert_built-IsIndexed w none name meta class ps parent t
          (w.insert_fresh parent n class ps t.dom) a)

  insert_children-IsIndexed :
      {l : Lib} (w : IsLib l) (ss : Snapshots l) (parent : ℕ) (t : Tree l)
      → IsIndexed l t
      → IsIndexed l (insert_children ss parent t)
  insert_children-IsIndexed w nil parent t a = a
  insert_children-IsIndexed w (cons s ss) parent t a =
      insert_children-IsIndexed w ss parent (insert_instance_recursive s parent t).0
        (insert_instance_recursive-IsIndexed w s parent t a)

pub insert_instance_with_ref-IsIndexed :
    {l : Lib} (w : IsLib l) (s : Snapshot l) (parent : ℕ) (t : Tree l)
    → has l t.dom (snapshot_id s) ≡ false
    → IsIndexed l t
    → IsIndexed l (insert_instance_with_ref s parent t)
unfolding insert_instance_with_ref
insert_instance_with_ref-IsIndexed {l} w (snapshot id meta name class ps cs) parent t fresh a =
    let n : Text = unwrap_or meta.original_name name in
    insert_built-IsIndexed w (some id) name meta class ps parent t
      (subst (λ r. has l t.dom r ≡ false) (sym (w.insert_given parent id n class ps t.dom)) fresh) a

empty-Agrees : {l : Lib} (w : IsLib l) (d : l.Dom) → Agrees l d l.empty_index empty_map
empty-Agrees w d = record {
  same = λ p id. rw (w.get_empty p) refl;
  occupied = λ p. rw (w.get_empty p) refl;
  known = λ id e. absurd (cc);
}

pub new_tree-IsIndexed : {l : Lib} (w : IsLib l) (s : Snapshot l) → IsIndexed l (new_tree s)
unfolding new_tree
new_tree-IsIndexed {l} w (snapshot id meta name class ps cs) =
    let d = l.new_dom name class ps in
    let root = l.root_ref d in
    let t : Tree l = record {
      dom = d;
      path_to_ids = l.empty_index;
      id_to_meta = empty_map;
      generation = 0;
    } in
    insert_children-IsIndexed w cs root (insert_meta root meta t)
      (insert_meta-IsIndexed w root meta t refl (w.new_has name class ps) (empty-Agrees w d))
