-- ===== src/Backlog/Copies.antt =====
-- `copy_tree` and `same_tree` of src/server/backlog.rs, where the file system fails nothing, on file trees in
-- which no directory names a child twice.
use wsync.Prelude.{
  ◌≡◌, refl, sym, ap, ◌∙◌, Bool, true, false, not, ◌&&◌, none, some, Text, text_eq, text_eq_iff,
  text_eq_refl, ==_refl, if◌then◌else◌, is_some, Bool-cases, inl, inr, arith,
}
use wsync.Backlog.{
  Node, file, dir, Listing, nil, entry, find_name, set_name, size_of, Copied, copied, stopped,
  copy_node, copy_entries, same_tree, same_entries, set_left,
}

unfoldable mutual
  pub is_tree : Node → Bool
  is_tree (file b) = true
  is_tree (dir l) = is_listing l

  pub is_listing : Listing → Bool
  is_listing nil = true
  is_listing (entry n x l) = not (is_some (find_name n l)) && (is_tree x && is_listing l)

abbrev pub join : Listing → Listing → Listing
join nil l = l
join (entry n x k) l = entry n x (join k l)

join-nil : (k : Listing) → join k nil ≡ k
join-nil nil = refl
join-nil (entry n x k) = ap (entry n x) (join-nil k)

join-entry :
    (k l : Listing) (n : Text) (x : Node) → join (join k (entry n x nil)) l ≡ join k (entry n x l)
join-entry nil l n x = refl
join-entry (entry m y k) l n x = ap (entry m y) (join-entry k l n x)

find_name-join :
    (n m : Text) (x : Node) (k : Listing)
    → find_name n (join k (entry m x nil))
      ≡ (if is_some (find_name n k) then find_name n k else (if text_eq m n then some x else none))
find_name-join n m x nil = refl
find_name-join n m x (entry p y k) = elim (Bool-cases (text_eq p n)) [
  | inl e ↦ rw e refl
  | inr e ↦ rw e (find_name-join n m x k)
]

set_name-new :
    (n : Text) (x : Node) (k : Listing)
    → find_name n k ≡ none
    → set_name n x k ≡ join k (entry n x nil)
set_name-new n x nil e = refl
set_name-new n x (entry m y k) e = elim (Bool-cases (text_eq m n)) [
  | inl t ↦ absurd (ground (arith, t))
  | inr t ↦ rw t (ap (entry m y) (set_name-new n x k (ground (arith, t))))
]

other_name :
    (n m : Text) (l : Listing)
    → is_some (find_name n l) ≡ false
    → is_some (find_name m l) ≡ true
    → text_eq n m ≡ false
other_name n m l a b = elim (Bool-cases (text_eq n m)) [
  | inl t ↦ absurd (cc (a, b, ap (λ p. is_some (find_name p l)) ((text_eq_iff n m).0 t)))
  | inr t ↦ t
]

mutual
  unfolding copy_node is_tree

  -- A tree that is copied to where nothing stands arrives as it is.
  pub copy_node-new : (node : Node) → is_tree node ≡ true → copy_node node none ≡ copied node
  copy_node-new (file b) h = refl
  copy_node-new (dir l) h = copy_entries-join l nil h (λ n e. refl)

  copy_entries-join :
      (ls k : Listing)
      → is_listing ls ≡ true
      → ((n : Text) → is_some (find_name n ls) ≡ true → find_name n k ≡ none)
      → copy_entries ls k ≡ copied (dir (join k ls))
  copy_entries-join nil k h new = ap (λ (l : Listing). copied (dir l)) (sym (join-nil k))
  copy_entries-join (entry n x ls) k h new =
      let absent : find_name n k ≡ none = new n (ground (arith, text_eq_refl n)) in
      let here : copy_node x (find_name n k) ≡ copied x =
        ap (copy_node x) absent ∙ copy_node-new x (ground (arith, h)) in
      let fresh : is_some (find_name n ls) ≡ false = ground (arith, h) in
      let later : (m : Text)
          → is_some (find_name m ls) ≡ true
          → find_name m (join k (entry n x nil)) ≡ none =
        λ m e.
          let other : text_eq n m ≡ false = other_name n m ls fresh e in
          ground (arith, find_name-join m n x k, other, new m (ground (arith, other, e))) in
      ap
        (λ (r : Copied). elim r as (λ c. Copied) [
          | copied y ↦ copy_entries ls (set_name n y k)
          | stopped left ↦ stopped (some (dir (set_left n left k)))
        ])
        here
      ∙ ap (copy_entries ls) (set_name-new n x k absent)
      ∙ copy_entries-join ls (join k (entry n x nil)) (ground (arith, h)) later
      ∙ ap (λ (l : Listing). copied (dir l)) (join-entry k ls n x)

mutual
  unfolding same_tree is_tree

  pub same_tree_refl : (node : Node) → is_tree node ≡ true → same_tree node node ≡ true
  same_tree_refl (file b) h = text_eq_refl b
  same_tree_refl (dir l) h =
      ground (arith, ==_refl (size_of l), same_entries-sub l l h (λ n x e. e))

  same_entries-sub :
      (l r : Listing)
      → is_listing l ≡ true
      → ((n : Text) (x : Node) → find_name n l ≡ some x → find_name n r ≡ some x)
      → same_entries l r ≡ true
  same_entries-sub nil r h sub = refl
  same_entries-sub (entry n x l) r h sub =
      let there : find_name n r ≡ some x = sub n x (rw (text_eq_refl n) refl) in
      let same : same_tree x x ≡ true = same_tree_refl x (ground (arith, h)) in
      let rest : same_entries l r ≡ true = same_entries-sub l r (ground (arith, h)) (λ m y e.
        let other : text_eq n m ≡ false = other_name n m l (ground (arith, h)) (ap is_some e) in
        sub m y (rw other e)) in
      rw (same_tree, there) (ground (arith, same, rest))
