-- ===== src/Tree/Tests.antt =====
-- The tree of src/core/tree.rs over a small dom and a small multimap, at concrete values.
use wsync.Prelude.{
  ℕ, suc, ◌<◌, ◌≡◌, ◌≢◌, inl, inr, refl, sym, ap, ◌∙◌, true, false, not, ◌||◌, Option, none, some,
  List, [], ◌∷◌, ◌++◌, Text, text_eq, any, ◌==◌, ==_iff, ==_refl, if◌then◌else◌, unwrap_or,
  Option-cases, Bool-cases, is_some, subst, retain, max, arith,
}
use mathlib.Core.Option.{some-injective}
use wsync.Tree.{
  SourceEntry, Meta, Lib, Snapshot, snapshot, nil, cons, Tree, source_file, walk,
  insert_instance_recursive, insert_instance_with_ref, new_tree, update_meta, remove_instance,
  set_source, remove_metas, remove_meta, insert_meta, map_paths, unmap_path, unmap_paths,
  unmap_meta,
}
use wsync.Tree.Index.{Below, itself, IsLib, holds, IsIndexed}
use wsync.Tree.Removal.{remove_instance-removes, IsRemoved}
use wsync.Tree.Run.{
  Reaches, start, updated, reached-IsIndexed, insert_instance_with_ref-breaks, set_source-breaks,
}

-- An instance with the one it was inserted under, the newest first.
abbrev Small : Type 0
Small = List (ℕ × ℕ)

abbrev children_of : ℕ → Small → Option (List ℕ)
children_of i [] = none
children_of i ((c, p) ∷ d) = if c == i then some [] else (elim (children_of i d) [
  | none ↦ none
  | some cs ↦ if p == i then some (c ∷ cs) else some cs
])

abbrev height_of : Small → ℕ → ℕ
height_of [] i = 0
height_of ((c, p) ∷ d) i = if c == i then 0 else suc (height_of d i)

abbrev next_ref : Small → ℕ
next_ref [] = 1
next_ref ((c, p) ∷ d) = max (suc c) (next_ref d)

abbrev small_dom : Lib
small_dom = record {
  Properties = ℕ;
  Dom = Small;
  new_dom = λ n c p. (0, 0) ∷ [];
  root_ref = λ d. 0;
  insert_dom = λ parent r n c p d. let id = unwrap_or r (next_ref d) in ((id, parent) ∷ d, id);
  destroy = λ i d. retain (λ e. not (e.0 == i)) d;
  children = children_of;
  Index = Text → Option (List ℕ);
  empty_index = λ q. none;
  insert_index = λ p id m q. if text_eq p q then some (unwrap_or (m p) [] ++ id ∷ []) else m q;
  get_vec = λ q m. m q;
  set_vec = λ p v m q. if text_eq p q then some v else m q;
  remove_index = λ p m q. if text_eq p q then none else m q;
}

small-has :
    (i c p : ℕ) (d : Small)
    → is_some (children_of i ((c, p) ∷ d)) ≡ ((c == i) || is_some (children_of i d))
small-has i c p d = elim (Option-cases (children_of i d)) [
  | inl n ↦ ground (arith, n)
  | inr (cs, e) ↦ ground (arith, e)
]

small-next : (i : ℕ) (d : Small) → next_ref d < suc i → is_some (children_of i d) ≡ false
small-next i [] h = refl
small-next i ((c, p) ∷ d) h = ground (arith, small-has i c p d, small-next i d)

small-retain :
    (i j : ℕ) (d : Small)
    → is_some (children_of j d) ≡ true
    → i ≢ j
    → is_some (children_of j (retain (λ e. not (e.0 == i)) d)) ≡ true
small-retain i j [] h n = absurd (cc)
small-retain i j ((c, p) ∷ d) h n =
    let rest : List (ℕ × ℕ) = retain (λ e. not (e.0 == i)) d in
    ground (
      arith,
      small-has j c p d,
      small-has j c p rest,
      small-retain i j d,
      ==_iff c i,
      ==_iff c j,
      n,
    )

small-itself : (i a p : ℕ) (d : Small) → (a == i) ≡ true → children_of i ((a, p) ∷ d) ≡ some []
small-itself i a p d y = rw y refl

small-older :
    (i a p : ℕ) (d : Small) (ds : List ℕ)
    → (a == i) ≡ false
    → children_of i d ≡ some ds
    → children_of i ((a, p) ∷ d) ≡ some (if p == i then a ∷ ds else ds)
small-older i a p d ds f e = ground (arith, f, e)

small-below :
    (i c : ℕ) (cs : List ℕ) (d : Small)
    → children_of i d ≡ some cs
    → any (λ k. k == c) cs ≡ true
    → (is_some (children_of c d) ≡ true) × (height_of d c < height_of d i)
small-below i c cs [] e m = absurd (cc)
small-below i c cs ((a, p) ∷ d) e m = elim (Bool-cases (a == i)) [
  | inl y ↦
      let empty : some [] ≡ some cs = sym (small-itself i a p d y) ∙ e in
      absurd (cc (m, some-injective _ _ empty))
  | inr f ↦ elim (Option-cases (children_of i d)) [
    | inl n ↦ absurd (ground (arith, small-has i a p d, ap is_some e, ap is_some n, f))
    | inr (ds, e') ↦
        let same : (if p == i then a ∷ ds else ds) ≡ cs =
          some-injective _ _ (sym (small-older i a p d ds f e') ∙ e) in
        let older = small-below i c ds d e' in
        elim (Bool-cases (a == c)) [
          | inl y ↦ ground (arith, small-has c a p d)
          | inr z ↦
              let (there, lower) = older (ground (arith, same, m)) in
              (ground (arith, small-has c a p d), ground arith)
        ]
  ]
]

small_dom-IsLib : IsLib small_dom
small_dom-IsLib = record {
  new_has = λ n c p. refl;
  insert_fresh = λ i n c p d. small-next (next_ref d) d (omega arith);
  insert_given = λ i r n c p d. refl;
  insert_has = λ i r n c p d.
      let id : ℕ = unwrap_or r (next_ref d) in ground (arith, small-has id id i d, ==_refl id);
  insert_keeps = λ i j r n c p d h. ground (arith, small-has j (unwrap_or r (next_ref d)) i d);
  destroy_keeps = λ i j d h b.
      small-retain i j d h (λ e. b (subst (λ k. Below small_dom d j k) (sym e) itself));
  height = height_of;
  children_below = small-below;
  get_empty = λ q. refl;
  get_insert = λ p q id m. refl;
  get_set = λ p q v m h. refl;
  get_remove = λ p q m. refl;
}

abbrev project_file : Text
project_file = b'p' ∷ []

abbrev flat_file : Text
flat_file = b'f' ∷ []

abbrev init_file : Text
init_file = b'i' ∷ []

abbrev folder_path : Text
folder_path = b'd' ∷ []

abbrev name : Text
name = b'n' ∷ []

abbrev project_meta : Meta
project_meta = record { source = source_file project_file; original_name = none }

abbrev script_meta : Meta
script_meta = record { source = source_file flat_file; original_name = none }

abbrev folder_meta : Meta
folder_meta = record {
  source = record { relevant = SourceEntry.folder folder_path ∷ SourceEntry.file init_file ∷ [] };
  original_name = none;
}

abbrev script : Snapshot small_dom
script = snapshot 0 script_meta name (b'M' ∷ []) 0 nil

abbrev place : Snapshot small_dom
place =
    snapshot 0 project_meta project_file (b'D' ∷ []) 0
      (cons (snapshot 0 folder_meta name (b'M' ∷ []) 0 (cons script nil)) nil)

abbrev built : Tree small_dom
built = new_tree place

abbrev built-reached : Reaches small_dom-IsLib built
built-reached = start place refl

after_removal : Option (Tree small_dom)
after_removal = remove_instance 3 1 built

-- What the removal of the folder form, with the script below it, leaves of a path.
abbrev left_of : Text → Option (List ℕ)
left_of p = elim after_removal [ none ↦ none | some t ↦ t.path_to_ids p ]

frees_the_paths : left_of init_file ≡ none
unfolding new_tree insert_instance_recursive insert_meta remove_instance remove_metas after_removal
    walk remove_meta unmap_meta unmap_paths unmap_path map_paths
frees_the_paths = refl

frees_the_script : left_of flat_file ≡ none
unfolding new_tree insert_instance_recursive insert_meta remove_instance remove_metas after_removal
    walk remove_meta unmap_meta unmap_paths unmap_path map_paths
frees_the_script = refl

remove_instance-removes_example :
    (t' : Tree small_dom) × (remove_instance (suc (small_dom-IsLib.height built.dom 1)) 1 built
      ≡ some t')
    × IsRemoved small_dom built 1 t'
unfolding new_tree insert_instance_recursive insert_meta
remove_instance-removes_example =
    remove_instance-removes small_dom-IsLib 1 built
      (reached-IsIndexed small_dom-IsLib built-reached tt) refl (omega arith)

abbrev renamed : Tree small_dom
renamed = update_meta 1 script_meta built

abbrev renamed-reached : Reaches small_dom-IsLib renamed
renamed-reached = updated 1 script_meta refl built-reached

reached-IsIndexed_example : IsIndexed small_dom renamed
unfolding new_tree insert_instance_recursive insert_meta
reached-IsIndexed_example = reached-IsIndexed small_dom-IsLib renamed-reached (refl, tt)

-- The instance in folder form, with no script below it.
abbrev folder_only : Snapshot small_dom
folder_only =
    snapshot 0 project_meta project_file (b'D' ∷ []) 0
      (cons (snapshot 0 folder_meta name (b'M' ∷ []) 0 nil) nil)

abbrev bare : Tree small_dom
bare = new_tree folder_only

set_source-breaks_example :
    (holds (small_dom.get_vec flat_file (set_source 1 (source_file flat_file) bare).path_to_ids) 1
      ≡ false)
    × ¬ IsIndexed small_dom (set_source 1 (source_file flat_file) bare)
unfolding new_tree insert_instance_recursive insert_meta
set_source-breaks_example =
    set_source-breaks 1 (source_file flat_file) bare folder_meta flat_file
      (reached-IsIndexed small_dom-IsLib (start folder_only refl) tt) refl refl refl

-- Studio sends the instance in folder form again, as a file.
insert_instance_with_ref-breaks_example :
    let t' = insert_instance_with_ref (snapshot 1 script_meta name (b'M' ∷ []) 0 nil) 0 bare in
    (t'.id_to_meta 1 ≡ some script_meta)
    × (holds (small_dom.get_vec init_file t'.path_to_ids) 1 ≡ true)
    × ¬ IsIndexed small_dom t'
unfolding new_tree insert_instance_recursive insert_meta
insert_instance_with_ref-breaks_example =
    insert_instance_with_ref-breaks small_dom-IsLib 1 script_meta name (b'M' ∷ []) 0 nil 0 bare
      folder_meta init_file (reached-IsIndexed small_dom-IsLib (start folder_only refl) tt) refl
      refl refl
