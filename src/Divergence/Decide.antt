-- ===== src/Divergence/Decide.antt =====
-- `decide` of src/server/divergence.rs: which side wins each frozen item of a connect.
use wsync.Prelude.{
  ℕ, suc, ◌+◌, ◌≡◌, refl, ap, Bool, false, ◌||◌, Option, none, some, List, [], ◌∷◌, ◌++◌, map, Text,
  text_eq, text_eq_refl, length, any, ltb, OrdMap, IsSorted, if◌then◌else◌, Bool-cases, inl, inr,
  arith,
}
use wsync.SyncBase.{Key}
use wsync.SyncBase.View.{BaseView, IsOrdered}
use wsync.ThreeWay.{Winner, disk, Input, classify, only_on_disk, differs, missing_on_disk, State}
use wsync.ThreeWay.Rules.{DiskMayWin, classify-disk_safe, classify-studio_first}
use wsync.Divergence.{Item}

-- What is read of the tree: the key of an instance, and the paths that several instances have.
pub record TreeKeys : Type 0 where
  pub key_of : ℕ → Option Key
  pub ambiguous_paths : List Text

abbrev pub count_path : Text → List Item → ℕ
count_path p [] = 0
count_path p (i ∷ is) =
    let rest = count_path p is in if text_eq i.instance_path p then suc rest else rest

abbrev pub disk_key_of : TreeKeys → State → ℕ → Option Key
disk_key_of t missing_on_disk id = none
disk_key_of t only_on_disk id = t.key_of id
disk_key_of t differs id = t.key_of id

abbrev pub input_of : TreeKeys → List Item → Item → Input
input_of t items i = record {
  state = i.state;
  instance_path = i.instance_path;
  disk_key = disk_key_of t i.state i.instance_ref;
  studio_key = i.studio.key;
  studio_descendants = i.studio.descendants;
  ambiguous =
      ltb 1 (count_path i.instance_path items)
      || any (λ p. text_eq p i.instance_path) t.ambiguous_paths;
}

abbrev pub decide_item : TreeKeys → Option BaseView → List Item → Item → Winner
decide_item t base items i = classify base (input_of t items i)

unfoldable pub decide : TreeKeys → List Item → Option BaseView → List Winner
decide t items base = map (decide_item t base items) items

abbrev pub has_path : Text → Item → Bool
has_path p i = text_eq i.instance_path p

count_path-append :
    (p : Text) (xs ys : List Item) → count_path p (xs ++ ys) ≡ count_path p xs + count_path p ys
count_path-append p [] ys = ground arith
count_path-append p (x ∷ xs) ys = ground (arith, count_path-append p xs ys)

count_path-none : (p : Text) (xs : List Item) → count_path p xs ≡ 0 → any (has_path p) xs ≡ false
count_path-none p [] e = refl
count_path-none p (x ∷ xs) e = ground (arith, count_path-none p xs)

abbrev head_or : Winner → List Winner → Winner
head_or d [] = d
head_or d (w ∷ ws) = w

abbrev tail_of : List Winner → List Winner
tail_of [] = []
tail_of (w ∷ ws) = ws

map_at :
    (f : Item → Winner) (pre post : List Item) (i : Item) (ws vs : List Winner) (v : Winner)
    → length ws ≡ length pre
    → map f (pre ++ i ∷ post) ≡ ws ++ v ∷ vs
    → f i ≡ v
map_at f [] post i [] vs v n e = ap (head_or v) e
map_at f [] post i (w ∷ ws) vs v n e = absurd (omega arith)
map_at f (p ∷ pre) post i [] vs v n e = absurd (omega arith)
map_at f (p ∷ pre) post i (w ∷ ws) vs v n e =
    map_at f pre post i ws vs v (omega arith) (ap tail_of e)

count_path-alone :
    (pre post : List Item) (i : Item)
    → ltb 1 (count_path i.instance_path (pre ++ i ∷ post)) ≡ false
    → any (has_path i.instance_path) (pre ++ post) ≡ false
count_path-alone pre post i e =
    let here : count_path i.instance_path (i ∷ post) ≡ suc (count_path i.instance_path post) =
      rw (text_eq_refl i.instance_path) refl in
    let both = count_path-append i.instance_path pre (i ∷ post) in
    let without = count_path-append i.instance_path pre post in
    count_path-none i.instance_path (pre ++ post) (ground (arith, here, both, without))

-- Let a connect decide its items, and let disk win one of them. Then there is a base, no other item of
-- the connect and no two instances of the tree have the item's path, and Studio has nothing new there:
-- what it holds is what the base says was agreed, down to the last descendant where the instance is
-- to be removed.
pub decide-disk_safe :
    (t : TreeKeys) (base : Option BaseView) (pre post : List Item) (i : Item) (ws vs : List Winner)
    → length ws ≡ length pre
    → decide t (pre ++ i ∷ post) base ≡ ws ++ disk ∷ vs
    → ((b : BaseView) → base ≡ some b → IsOrdered b)
    → ((d : OrdMap (Option Key)) → i.studio.descendants ≡ some d → IsSorted d)
    → (b : BaseView) × (base ≡ some b)
      × DiskMayWin b (input_of t (pre ++ i ∷ post) i)
      × (any (has_path i.instance_path) (pre ++ post) ≡ false)
      × (any (λ p. text_eq p i.instance_path) t.ambiguous_paths ≡ false)
unfolding decide
decide-disk_safe t none pre post i ws vs n e ordered sorted =
    let items = pre ++ i ∷ post in
    let won = map_at (decide_item t none items) pre post i ws vs disk n e in
    absurd ((classify-studio_first none (input_of t items i) (inl refl)).0 won)
decide-disk_safe t (some b) pre post i ws vs n e ordered sorted =
    let items = pre ++ i ∷ post in
    let input = input_of t items i in
    let won = map_at (decide_item t (some b) items) pre post i ws vs disk n e in
    elim (Bool-cases input.ambiguous) [
      | inl y ↦ absurd ((classify-studio_first (some b) input (inr (inl y))).0 won)
      | inr z ↦ (
        b,
        refl,
        classify-disk_safe b input (ordered b refl) sorted won,
        count_path-alone pre post i (ground (arith, z)),
        ground (arith, z),
      )
    ]
