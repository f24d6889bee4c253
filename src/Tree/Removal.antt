-- ===== src/Tree/Removal.antt =====
-- `remove_instance` of src/core/tree.rs: the walk reaches exactly the instances below, and the
-- metadata and the paths of exactly these go.
use wsync.Prelude.{
  ℕ, zero, suc, ◌<◌, ◌≡◌, ◌≢◌, ◌↔◌, ◌⊎◌, inl, inr, refl, sym, ap, ◌∙◌, subst, Bool, true, ◌||◌,
  Option, none, some, List, [], ◌∷◌, ◌++◌, any, ◌==◌, ==_iff, ==_refl, if◌then◌else◌, Option-cases,
  Bool-cases, is_some, arith,
}
use mathlib.Core.Option.{some-injective}
use wsync.Tree.{Lib, Tree, walk_list, walk, remove_meta, bump, remove_metas, remove_instance}
use wsync.Tree.Index.{has, Below, itself, child, IsLib, IsIndexed, remove_meta-IsIndexed}

abbrev pub contains_id : List ℕ → ℕ → Bool
contains_id ks j = any (λ k. k == j) ks

contains_id-append :
    (xs ys : List ℕ) (j : ℕ) → contains_id (xs ++ ys) j ≡ (contains_id xs j || contains_id ys j)
contains_id-append [] ys j = refl
contains_id-append (x ∷ xs) ys j = ground (arith, contains_id-append xs ys j)

-- `Covers P i r`: the walk from `i` gives a list, and `i` with this list is what `P` holds of.
abbrev pub Covers : (ℕ → ℕ → Type 0) → ℕ → Option (List ℕ) → Type 0
Covers P i r = (ks : List ℕ) × (r ≡ some ks) × ((j : ℕ) → contains_id (i ∷ ks) j ≡ true ↔ P j i)

-- Some instance of the list `cs` has `j` below it.
abbrev pub Among : (ℕ → ℕ → Type 0) → List ℕ → ℕ → Type 0
Among P cs j = (c : ℕ) × (contains_id cs c ≡ true) × P j c

module _ (P : ℕ → ℕ → Type 0) where
  Among-cons :
      (c : ℕ) (cs ks ms : List ℕ) (j : ℕ)
      → (contains_id (c ∷ ks) j ≡ true ↔ P j c)
      → (contains_id ms j ≡ true ↔ Among P cs j)
      → contains_id (c ∷ ks ++ ms) j ≡ true ↔ Among P (c ∷ cs) j
  Among-cons c cs ks ms j k k' = (
    λ e. elim (Bool-cases (contains_id (c ∷ ks) j)) [
      | inl y ↦ (c, ground (arith, ==_refl c), k.0 y)
      | inr n ↦
          let (c', m, p) = k'.0 (ground (arith, contains_id-append ks ms j)) in
          (c', ground arith, p)
    ],
    λ (c', m, p). elim (Bool-cases (c == c')) [
      | inl y ↦
          let there : contains_id (c ∷ ks) j ≡ true =
            k.1 (subst (P j) (sym ((==_iff c c').0 y)) p) in
          ground (arith, contains_id-append ks ms j)
      | inr n ↦
          let there : contains_id ms j ≡ true = k'.1 (c', ground arith, p) in
          ground (arith, contains_id-append ks ms j)
    ],
  )

  walk_list-Covers :
      (f : ℕ → Option (List ℕ)) (cs : List ℕ)
      → ((c : ℕ) → contains_id cs c ≡ true → Covers P c (f c))
      → (ks : List ℕ) × (walk_list f cs ≡ some ks)
        × ((j : ℕ) → contains_id ks j ≡ true ↔ Among P cs j)
  walk_list-Covers f [] h = ([], refl, λ j. ((λ e. absurd (cc)), λ (c, e, p). absurd (cc)))
  walk_list-Covers f (c ∷ cs) h =
      let (ks, e, k) = h c (ground (arith, ==_refl c)) in
      let (ms, e', k') = walk_list-Covers f cs (λ c' m. h c' (ground (arith, m))) in
      (c ∷ ks ++ ms, rw (walk_list, e, e') refl, λ j. Among-cons c cs ks ms j (k j) (k' j))

Below-cases :
    {l : Lib} {d : l.Dom} {j i : ℕ}
    → Below l d j i
    → (i ≡ j)
      ⊎ ((c : ℕ) × (cs : List ℕ) × (l.children i d ≡ some cs)
          × (contains_id cs c ≡ true)
          × Below l d j c)
Below-cases itself = inl refl
Below-cases (child {c = c} {cs = cs} e m b) = inr (c, cs, e, m, b)

module _ {l : Lib} (d : l.Dom) (i j : ℕ) where
  Below-children :
      (cs ks : List ℕ)
      → l.children i d ≡ some cs
      → (contains_id ks j ≡ true ↔ Among (Below l d) cs j)
      → contains_id (i ∷ ks) j ≡ true ↔ Below l d j i
  Below-children cs ks e k = (to, from)
    where
      to : contains_id (i ∷ ks) j ≡ true → Below l d j i
      to m = elim (Bool-cases (i == j)) [
        | inl y ↦ subst (Below l d j) (sym ((==_iff i j).0 y)) itself
        | inr n ↦ let (c, m', b) = k.0 (ground arith) in child e m' b
      ]

      from : Below l d j i → contains_id (i ∷ ks) j ≡ true
      from b = elim (Below-cases b) [
        | inl y ↦ ground (arith, (==_iff i j).1 y)
        | inr (c, cs', e', m, b') ↦
            let there : contains_id ks j ≡ true =
              k.1 (
                c,
                subst (λ xs. contains_id xs c ≡ true) (some-injective _ _ (sym e' ∙ e)) m,
                b',
              ) in
            ground arith
      ]

walk-children :
    (l : Lib) (fuel i : ℕ) (cs : List ℕ) (d : l.Dom)
    → l.children i d ≡ some cs
    → walk l (suc fuel) i d ≡ walk_list (λ c. walk l fuel c d) cs
unfolding walk
walk-children l fuel i cs d e = rw (walk, e) refl

module _ {l : Lib} (w : IsLib l) where
  walk-Covers :
      (fuel i : ℕ) (d : l.Dom)
      → has l d i ≡ true
      → w.height d i < fuel
      → Covers (Below l d) i (walk l fuel i d)
  walk-Covers zero i d h lt = absurd (omega arith)
  walk-Covers (suc fuel) i d h lt = elim (Option-cases (l.children i d)) [
    | inl n ↦ absurd (ground (arith, ap is_some n))
    | inr (cs, e) ↦
        let (ks, r, k) =
          walk_list-Covers (Below l d) (λ c. walk l fuel c d) cs
            (λ c m.
              let (there, lower) = w.children_below i c cs d e m in
              walk-Covers fuel c d there (omega arith)) in
        (ks, walk-children l fuel i cs d e ∙ r, λ j. Below-children d i j cs ks e (k j))
  ]

  -- The metadata of exactly the listed instances goes, and the index follows.
  remove_metas-IsIndexed :
      (ids : List ℕ) (t : Tree l) → IsIndexed l t → IsIndexed l (remove_metas ids t)
  unfolding remove_metas
  remove_metas-IsIndexed [] t a = a
  remove_metas-IsIndexed (id ∷ ids) t a =
      remove_metas-IsIndexed ids (remove_meta id t) (remove_meta-IsIndexed w id t a)

module _ {l : Lib} where
  remove_metas-dom : (ids : List ℕ) (t : Tree l) → (remove_metas ids t).dom ≡ t.dom
  unfolding remove_metas remove_meta
  remove_metas-dom [] t = refl
  remove_metas-dom (id ∷ ids) t = remove_metas-dom ids (remove_meta id t)

  remove_metas-id_to_meta :
      (ids : List ℕ) (t : Tree l) (j : ℕ)
      → (remove_metas ids t).id_to_meta j ≡ (if contains_id ids j then none else t.id_to_meta j)
  unfolding remove_metas remove_meta
  remove_metas-id_to_meta [] t j = refl
  remove_metas-id_to_meta (id ∷ ids) t j = elim (Bool-cases (id == j)) [
    | inl y ↦ ground (arith, remove_metas-id_to_meta ids (remove_meta id t) j)
    | inr n ↦ ground (arith, remove_metas-id_to_meta ids (remove_meta id t) j)
  ]

-- Removing the root changes nothing but the generation.
pub remove_instance-root :
    {l : Lib} (fuel id : ℕ) (t : Tree l)
    → id ≡ l.root_ref t.dom
    → remove_instance fuel id t ≡ some (bump t)
unfolding remove_instance
remove_instance-root {l} fuel id t e = rw ((==_iff id (l.root_ref t.dom)).1 e) refl

-- `Removed l t t' id`: the instances below `id` have lost their metadata, all others have theirs, and
-- the index is still right.
abbrev pub IsRemoved : (l : Lib) → Tree l → ℕ → Tree l → Type 0
IsRemoved l t id t' =
    IsIndexed l t'
    × ((j : ℕ) → Below l t.dom j id → t'.id_to_meta j ≡ none)
    × ((j : ℕ) → ¬ Below l t.dom j id → t'.id_to_meta j ≡ t.id_to_meta j)

removed_tree : {l : Lib} → ℕ → List ℕ → Tree l → Tree l
removed_tree {l} id below t =
    let t' = remove_metas (id ∷ below) (bump t) in record t' { dom = l.destroy id t'.dom }

remove_instance-below :
    {l : Lib} (fuel id : ℕ) (below : List ℕ) (t : Tree l)
    → id ≢ l.root_ref t.dom
    → walk l fuel id t.dom ≡ some below
    → remove_instance fuel id t ≡ some (removed_tree id below t)
unfolding remove_instance removed_tree
remove_instance-below {l} fuel id below t n e = elim (Bool-cases (id == l.root_ref t.dom)) [
  | inl y ↦ absurd (n ((==_iff id (l.root_ref t.dom)).0 y))
  | inr f ↦ rw (f, e) refl
]

removed_tree-id_to_meta :
    {l : Lib} (id : ℕ) (below : List ℕ) (t : Tree l) (j : ℕ)
    → (removed_tree id below t).id_to_meta j
      ≡ (if contains_id (id ∷ below) j then none else t.id_to_meta j)
unfolding removed_tree
removed_tree-id_to_meta id below t j = remove_metas-id_to_meta (id ∷ below) (bump t) j

removed_tree-IsIndexed :
    {l : Lib} (w : IsLib l) (id : ℕ) (below : List ℕ) (t : Tree l)
    → ((j : ℕ) → Below l t.dom j id → contains_id (id ∷ below) j ≡ true)
    → IsIndexed l t
    → IsIndexed l (removed_tree id below t)
unfolding removed_tree
removed_tree-IsIndexed {l} w id below t covers a =
    let b = remove_metas-IsIndexed w (id ∷ below) (bump t) a in
    record {
      same = b.same;
      occupied = b.occupied;
      known = λ j e.
          let meta : is_some (if contains_id (id ∷ below) j then none else t.id_to_meta j) ≡ true =
            ap is_some (sym (removed_tree-id_to_meta id below t j)) ∙ e in
          elim (Bool-cases (contains_id (id ∷ below) j)) [
            | inl y ↦
                absurd (
                  ground (arith, ap (λ (b : Bool). is_some (if b then none else t.id_to_meta j)) y))
            | inr out ↦
                let kept : has l t.dom j ≡ true = a.known j (
                  ground
                    (arith, ap (λ (b : Bool). is_some (if b then none else t.id_to_meta j)) out)) in
                subst (λ d. has l (l.destroy id d) j ≡ true)
                  (sym (remove_metas-dom (id ∷ below) (bump t)))
                  (w.destroy_keeps id j t.dom kept (λ b. ground (arith, covers j b)))
          ];
    }

-- In a tree whose index agrees with its metadata, removing an instance that is there and is
-- not the root, with fuel above its height, ends in a tree in which the
-- instances that were at or below it have no metadata, all others have what they had, and the index
-- agrees with the metadata again.
pub remove_instance-removes :
    {l : Lib} (w : IsLib l) (id : ℕ) (t : Tree l)
    → IsIndexed l t
    → has l t.dom id ≡ true
    → id ≢ l.root_ref t.dom
    → (t' : Tree l) × (remove_instance (suc (w.height t.dom id)) id t ≡ some t')
      × IsRemoved l t id t'
remove_instance-removes {l} w id t a there n =
    let (below, e, k) = walk-Covers w (suc (w.height t.dom id)) id t.dom there (omega arith) in
    (
      removed_tree id below t,
      remove_instance-below (suc (w.height t.dom id)) id below t n e,
      (
        removed_tree-IsIndexed w id below t (λ j. (k j).1) a,
        (λ j b. ground (arith, removed_tree-id_to_meta id below t j, (k j).1 b)),
        λ j b. elim (Bool-cases (contains_id (id ∷ below) j)) [
          | inl y ↦ absurd (b ((k j).0 y))
          | inr out ↦ rw (removed_tree-id_to_meta id below t j, out) refl
        ],
      ),
    )
