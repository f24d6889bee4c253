-- ===== src/Tree/Index.antt =====
-- The index and the metadata agree: a path leads to an instance exactly where the instance's source
-- names the path.
use wsync.Prelude.{
  ℕ, ◌<◌, ◌≡◌, refl, sym, Bool, true, false, not, ◌&&◌, ◌||◌, Option, none, some, List, [], ◌∷◌,
  ◌++◌, Text, text_eq, text_eq_iff, text_eq_refl, any, retain, NatMap, insert, remove, ◌==◌, ==_iff,
  if◌then◌else◌, unwrap_or, Option-cases, Bool-cases, is_some, inl, inr, subst, arith,
}
use wsync.Tree.{
  Meta, Lib, Tree, paths, contains_path, is_empty, map_paths, insert_meta, unmap_path, unmap_paths,
  remap, update_meta, unmap_meta, remove_meta,
}

abbrev pub has : (l : Lib) → l.Dom → ℕ → Bool
has l d id = is_some (l.children id d)

-- `Below l d i j`: the instance `j` is `i` or stands below it.
pub data Below (l : Lib) (d : l.Dom) (j : ℕ) : ℕ → Type 0 where
  itself : Below l d j j
  child :
      {i c : ℕ} {cs : List ℕ}
      → l.children i d ≡ some cs
      → any (λ k. k == c) cs ≡ true
      → Below l d j c
      → Below l d j i

-- What is documented of rbx_dom_weak and of multimap: an inserted instance has a new ref, or the one
-- that was asked for; it is there, and so is what was there before; destroying an instance leaves
-- all that does not stand below it; an instance stands above its children; and the index is a map
-- from paths to lists.
pub record IsLib (l : Lib) : Type 0 where
  pub new_has :
      (n c : Text) (p : l.Properties) → let d = l.new_dom n c p in has l d (l.root_ref d) ≡ true
  pub insert_fresh :
      (i : ℕ) (n c : Text) (p : l.Properties) (d : l.Dom)
      → has l d (l.insert_dom i none n c p d).1 ≡ false
  pub insert_given :
      (i r : ℕ) (n c : Text) (p : l.Properties) (d : l.Dom)
      → (l.insert_dom i (some r) n c p d).1 ≡ r
  pub insert_has :
      (i : ℕ) (r : Option ℕ) (n c : Text) (p : l.Properties) (d : l.Dom)
      → let e = l.insert_dom i r n c p d in has l e.0 e.1 ≡ true
  pub insert_keeps :
      (i j : ℕ) (r : Option ℕ) (n c : Text) (p : l.Properties) (d : l.Dom)
      → has l d j ≡ true
      → has l (l.insert_dom i r n c p d).0 j ≡ true
  pub destroy_keeps :
      (i j : ℕ) (d : l.Dom) → has l d j ≡ true → ¬ Below l d j i → has l (l.destroy i d) j ≡ true
  pub height : l.Dom → ℕ → ℕ
  pub children_below :
      (i c : ℕ) (cs : List ℕ) (d : l.Dom)
      → l.children i d ≡ some cs
      → any (λ k. k == c) cs ≡ true
      → (has l d c ≡ true) × (height d c < height d i)
  pub get_empty : (q : Text) → l.get_vec q l.empty_index ≡ none
  pub get_insert :
      (p q : Text) (id : ℕ) (m : l.Index)
      → l.get_vec q (l.insert_index p id m)
        ≡ (if text_eq p q then some (unwrap_or (l.get_vec p m) [] ++ id ∷ []) else l.get_vec q m)
  pub get_set :
      (p q : Text) (v : List ℕ) (m : l.Index)
      → is_some (l.get_vec p m) ≡ true
      → l.get_vec q (l.set_vec p v m) ≡ (if text_eq p q then some v else l.get_vec q m)
  pub get_remove :
      (p q : Text) (m : l.Index)
      → l.get_vec q (l.remove_index p m) ≡ (if text_eq p q then none else l.get_vec q m)

abbrev pub holds : Option (List ℕ) → ℕ → Bool
holds none id = false
holds (some ids) id = any (λ j. j == id) ids

abbrev pub is_occupied : Option (List ℕ) → Bool
is_occupied none = true
is_occupied (some ids) = not (is_empty ids)

abbrev pub names_path : Option Meta → Text → Bool
names_path none p = false
names_path (some meta) p = contains_path (paths meta.source) p

pub record Agrees (l : Lib) (d : l.Dom) (m : l.Index) (metas : NatMap Meta) : Type 0 where
  pub same : (p : Text) (id : ℕ) → holds (l.get_vec p m) id ≡ names_path (metas id) p
  pub occupied : (p : Text) → is_occupied (l.get_vec p m) ≡ true
  pub known : (id : ℕ) → is_some (metas id) ≡ true → has l d id ≡ true

abbrev pub IsIndexed : (l : Lib) → Tree l → Type 0
IsIndexed l t = Agrees l t.dom t.path_to_ids t.id_to_meta

any-append :
    (ids : List ℕ) (id j : ℕ)
    → any (λ k. k == j) (ids ++ id ∷ []) ≡ (any (λ k. k == j) ids || (id == j))
any-append [] id j = ground arith
any-append (k ∷ ids) id j = ground (arith, any-append ids id j)

any-retain :
    (ids : List ℕ) (id j : ℕ)
    → any (λ k. k == j) (retain (λ k. not (k == id)) ids) ≡ (any (λ k. k == j) ids && not (id == j))
any-retain [] id j = ground arith
any-retain (k ∷ ids) id j = ground (arith, any-retain ids id j)

append_occupied : (ids : List ℕ) (id : ℕ) → is_empty (ids ++ id ∷ []) ≡ false
append_occupied [] id = refl
append_occupied (k ∷ ids) id = refl

contains_path-retain :
    (ps qs : List Text) (q : Text)
    → contains_path (retain (λ p. not (contains_path qs p)) ps) q
      ≡ (contains_path ps q && not (contains_path qs q))
contains_path-retain [] qs q = refl
contains_path-retain (p ∷ ps) qs q = elim (Bool-cases (text_eq p q)) [
  | inl e ↦
      rw ((text_eq_iff p q).0 e) (ground (arith, contains_path-retain ps qs q, text_eq_refl q))
  | inr e ↦ ground (arith, contains_path-retain ps qs q)
]

any_empty : (ids : List ℕ) (j : ℕ) → is_empty ids ≡ true → any (λ k. k == j) ids ≡ false
any_empty [] j e = refl
any_empty (k ∷ ids) j e = cc

unmap_path-none :
    (l : Lib) (p : Text) (id : ℕ) (m : l.Index) → l.get_vec p m ≡ none → unmap_path l p id m ≡ m
unfolding unmap_path
unmap_path-none l p id m e = rw (unmap_path, e) refl

module _ {l : Lib} (w : IsLib l) where
  holds-insert :
      (p q : Text) (id j : ℕ) (m : l.Index)
      → holds (l.get_vec q (l.insert_index p id m)) j
        ≡ (holds (l.get_vec q m) j || (text_eq p q && (id == j)))
  holds-insert p q id j m = elim (Bool-cases (text_eq p q)) [
    | inl e ↦
        let same : p ≡ q = (text_eq_iff p q).0 e in
        elim (Option-cases (l.get_vec q m)) [
          | inl n ↦ rw (w.get_insert p q id m, e, same, n) (ground arith)
          | inr (ids, n) ↦ rw (w.get_insert p q id m, e, same, n) (any-append ids id j)
        ]
    | inr e ↦ rw (w.get_insert p q id m, e) (ground arith)
  ]

  occupied-insert :
      (p q : Text) (id : ℕ) (m : l.Index)
      → is_occupied (l.get_vec q m) ≡ true
      → is_occupied (l.get_vec q (l.insert_index p id m)) ≡ true
  occupied-insert p q id m h = elim (Bool-cases (text_eq p q)) [
    | inl e ↦
        rw (w.get_insert p q id m, e) (rw (append_occupied (unwrap_or (l.get_vec p m) []) id) refl)
    | inr e ↦ rw (w.get_insert p q id m, e) h
  ]

  pub holds-map_paths :
      (ps : List Text) (id : ℕ) (m : l.Index) (q : Text) (j : ℕ)
      → holds (l.get_vec q (map_paths l id ps m)) j
        ≡ (holds (l.get_vec q m) j || (contains_path ps q && (id == j)))
  unfolding map_paths
  holds-map_paths [] id m q j = ground arith
  holds-map_paths (p ∷ ps) id m q j =
      ground (arith, holds-map_paths ps id (l.insert_index p id m) q j, holds-insert p q id j m)

  occupied-map_paths :
      (ps : List Text) (id : ℕ) (m : l.Index) (q : Text)
      → is_occupied (l.get_vec q m) ≡ true
      → is_occupied (l.get_vec q (map_paths l id ps m)) ≡ true
  unfolding map_paths
  occupied-map_paths [] id m q h = h
  occupied-map_paths (p ∷ ps) id m q h =
      occupied-map_paths ps id (l.insert_index p id m) q (occupied-insert p q id m h)

  get-unmap_path :
      (p q : Text) (id : ℕ) (ids : List ℕ) (m : l.Index)
      → l.get_vec p m ≡ some ids
      → l.get_vec q (unmap_path l p id m) ≡ (
          if text_eq p q
          then (let kept = retain (λ j. not (j == id)) ids in
              if is_empty kept then none else some kept)
          else l.get_vec q m)
  unfolding unmap_path
  get-unmap_path p q id ids m e =
      let kept : List ℕ = retain (λ j. not (j == id)) ids in
      let set : is_some (l.get_vec p m) ≡ true = rw e refl in
      elim (Bool-cases (is_empty kept)) [
        | inl z ↦
            rw (unmap_path, e, z)
              (ground (arith, w.get_remove p q (l.set_vec p kept m), w.get_set p q kept m set))
        | inr z ↦ rw (unmap_path, e, z) (w.get_set p q kept m set)
      ]

  holds-unmap_path :
      (p q : Text) (id j : ℕ) (m : l.Index)
      → holds (l.get_vec q (unmap_path l p id m)) j
        ≡ (holds (l.get_vec q m) j && not (text_eq p q && (id == j)))
  holds-unmap_path p q id j m = elim (Option-cases (l.get_vec p m)) [
    | inl n ↦ rw (unmap_path-none l p id m n) (elim (Bool-cases (text_eq p q)) [
      | inl t ↦ let at_q : l.get_vec q m ≡ none = rw (sym ((text_eq_iff p q).0 t)) n in rw at_q refl
      | inr t ↦ rw t (ground arith)
    ])
    | inr (ids, e) ↦
        let kept : List ℕ = retain (λ k. not (k == id)) ids in
        elim (Bool-cases (text_eq p q)) [
          | inl t ↦
              let at_q : l.get_vec q m ≡ some ids = rw (sym ((text_eq_iff p q).0 t)) e in
              elim (Bool-cases (is_empty kept)) [
                | inl z ↦
                    rw (get-unmap_path p q id ids m e, t, at_q, z)
                      (ground (arith, any-retain ids id j, any_empty kept j z))
                | inr z ↦ rw (get-unmap_path p q id ids m e, t, at_q, z) (any-retain ids id j)
              ]
          | inr t ↦ rw (get-unmap_path p q id ids m e, t) (ground arith)
        ]
  ]

  occupied-unmap_path :
      (p q : Text) (id : ℕ) (m : l.Index)
      → is_occupied (l.get_vec q m) ≡ true
      → is_occupied (l.get_vec q (unmap_path l p id m)) ≡ true
  occupied-unmap_path p q id m h = elim (Option-cases (l.get_vec p m)) [
    | inl n ↦ rw (unmap_path-none l p id m n) h
    | inr (ids, e) ↦
        let kept : List ℕ = retain (λ k. not (k == id)) ids in
        elim (Bool-cases (text_eq p q)) [
          | inl t ↦ elim (Bool-cases (is_empty kept)) [
            | inl z ↦ rw (get-unmap_path p q id ids m e, t, z) refl
            | inr z ↦ rw (get-unmap_path p q id ids m e, t, z) (rw z refl)
          ]
          | inr t ↦ rw (get-unmap_path p q id ids m e, t) h
        ]
  ]

  holds-unmap_paths :
      (ps : List Text) (id : ℕ) (m : l.Index) (q : Text) (j : ℕ)
      → holds (l.get_vec q (unmap_paths l id ps m)) j
        ≡ (holds (l.get_vec q m) j && not (contains_path ps q && (id == j)))
  unfolding unmap_paths
  holds-unmap_paths [] id m q j = ground arith
  holds-unmap_paths (p ∷ ps) id m q j =
      ground (arith, holds-unmap_paths ps id (unmap_path l p id m) q j, holds-unmap_path p q id j m)

  occupied-unmap_paths :
      (ps : List Text) (id : ℕ) (m : l.Index) (q : Text)
      → is_occupied (l.get_vec q m) ≡ true
      → is_occupied (l.get_vec q (unmap_paths l id ps m)) ≡ true
  unfolding unmap_paths
  occupied-unmap_paths [] id m q h = h
  occupied-unmap_paths (p ∷ ps) id m q h =
      occupied-unmap_paths ps id (unmap_path l p id m) q (occupied-unmap_path p q id m h)

  insert-Agrees :
      (id : ℕ) (meta : Meta) (d : l.Dom) (m : l.Index) (metas : NatMap Meta)
      → metas id ≡ none
      → has l d id ≡ true
      → Agrees l d m metas
      → Agrees l d (map_paths l id (paths meta.source) m) (insert id meta metas)
  insert-Agrees id meta d m metas fresh there a = record {
    same = λ p j.
        ground (arith, holds-map_paths (paths meta.source) id m p j, a.same p j, ==_iff id j);
    occupied = λ p. occupied-map_paths (paths meta.source) id m p (a.occupied p);
    known = λ j e. ground (arith, a.known j, ==_iff id j);
  }

  remap-Agrees :
      (id : ℕ) (old meta : Meta) (d : l.Dom) (m : l.Index) (metas : NatMap Meta)
      → metas id ≡ some old
      → Agrees l d m metas
      → Agrees l d (remap l id (some old) meta m) (insert id meta metas)
  unfolding remap
  remap-Agrees id old meta d m metas e a =
      let gone = λ (p : Text). not (contains_path (paths meta.source) p) in
      let new = λ (p : Text). not (contains_path (paths old.source) p) in
      let left : List Text = retain gone (paths old.source) in
      let added : List Text = retain new (paths meta.source) in
      let kept : l.Index = unmap_paths l id left m in
      record {
        same = λ p j. ground (
          arith,
          holds-map_paths added id kept p j,
          holds-unmap_paths left id m p j,
          contains_path-retain (paths old.source) (paths meta.source) p,
          contains_path-retain (paths meta.source) (paths old.source) p,
          a.same p j,
          ==_iff id j,
        );
        occupied = λ p.
            occupied-map_paths added id kept p (occupied-unmap_paths left id m p (a.occupied p));
        known = λ j e'. ground (arith, a.known j, ==_iff id j);
      }

  unmap-Agrees :
      (id : ℕ) (meta : Meta) (d : l.Dom) (m : l.Index) (metas : NatMap Meta)
      → metas id ≡ some meta
      → Agrees l d m metas
      → Agrees l d (unmap_paths l id (paths meta.source) m) (remove id metas)
  unmap-Agrees id meta d m metas e a = record {
    same = λ p j.
        ground (arith, holds-unmap_paths (paths meta.source) id m p j, a.same p j, ==_iff id j);
    occupied = λ p. occupied-unmap_paths (paths meta.source) id m p (a.occupied p);
    known = λ j e. ground (arith, a.known j, ==_iff id j);
  }

  pub insert_meta-IsIndexed :
      (id : ℕ) (meta : Meta) (t : Tree l)
      → t.id_to_meta id ≡ none
      → has l t.dom id ≡ true
      → IsIndexed l t
      → IsIndexed l (insert_meta id meta t)
  unfolding insert_meta
  insert_meta-IsIndexed id meta t fresh there a =
      insert-Agrees id meta t.dom t.path_to_ids t.id_to_meta fresh there a

  pub update_meta-IsIndexed :
      (id : ℕ) (meta : Meta) (t : Tree l)
      → is_some (t.id_to_meta id) ≡ true
      → IsIndexed l t
      → IsIndexed l (update_meta id meta t)
  unfolding update_meta
  update_meta-IsIndexed id meta t e a = elim (Option-cases (t.id_to_meta id)) [
    | inl n ↦ absurd (cc)
    | inr (old, o) ↦
        subst (λ x. Agrees l t.dom (remap l id x meta t.path_to_ids) (insert id meta t.id_to_meta))
          (sym o) (remap-Agrees id old meta t.dom t.path_to_ids t.id_to_meta o a)
  ]

  pub remove_meta-IsIndexed : (id : ℕ) (t : Tree l) → IsIndexed l t → IsIndexed l (remove_meta id t)
  unfolding remove_meta unmap_meta
  remove_meta-IsIndexed id t a = elim (Option-cases (t.id_to_meta id)) [
    | inl n ↦
        subst (λ x. Agrees l t.dom (unmap_meta l id x t.path_to_ids) (remove id t.id_to_meta))
          (sym n)
          (record {
            same = λ p j. ground (arith, a.same p j, ==_iff id j);
            occupied = a.occupied;
            known = λ j e. ground (arith, a.known j, ==_iff id j);
          })
    | inr (meta, o) ↦
        subst (λ x. Agrees l t.dom (unmap_meta l id x t.path_to_ids) (remove id t.id_to_meta))
          (sym o) (unmap-Agrees id meta t.dom t.path_to_ids t.id_to_meta o a)
  ]
