-- ===== src/Operation/Lookup.antt =====
-- What `get` finds after `begin`.
use wsync.Prelude.{
  ℕ, ◌-◌, ◌≡◌, refl, ap, sym, ◌∙◌, Bool, true, false, not, some, List, [], ◌∷◌, ◌++◌, inl, inr,
  arith, Text, text_eq, text_eq_refl, ltb, if◌then◌else◌, any, retain, find_first, Bool-cases,
  is_some,
}
use wsync.Operation.{Receipt, Receipts, retain_for, prune, new_receipt, begin_pruned, begin, get}
use wsync.Operation.Receipts.{has_receipt, make_room, make_room-has_receipt, has_receipt-retain}

module _ {A : Type 0} (t : A → Bool) where
  retain-retain : (xs : List A) → retain t (retain t xs) ≡ retain t xs
  retain-retain [] = refl
  retain-retain (x ∷ xs) = elim (Bool-cases (t x)) [
    | inl e ↦ rw e (rw e (ap (λ l. x ∷ l) (retain-retain xs)))
    | inr e ↦ rw e (retain-retain xs)
  ]

  retain-append :
      (xs : List A) (x : A) → t x ≡ true → retain t (xs ++ x ∷ []) ≡ retain t xs ++ x ∷ []
  retain-append [] x h = rw h refl
  retain-append (y ∷ xs) x h = ground (arith, retain-append xs x h)

  pub find_first-append :
      (xs : List A) (x : A) → any t xs ≡ false → t x ≡ true → find_first t (xs ++ x ∷ []) ≡ some x
  find_first-append [] x h k = rw k refl
  find_first-append (y ∷ xs) x h k = ground (arith, find_first-append xs x)

  any-find_first : (xs : List A) → any t xs ≡ is_some (find_first t xs)
  any-find_first [] = refl
  any-find_first (y ∷ xs) = ground (arith, any-find_first xs)

-- `begin` succeeds exactly where `get` at that time finds no receipt of the operation; `get` then
-- finds the new receipt, which is not finished, and otherwise the one it found before.
pub get-begin :
    (now request_id : ℕ) (operation_id op : Text) (rs : Receipts)
    → (let r = begin now request_id operation_id op rs in
        (r.1 ≡ not (is_some (get now operation_id rs).1))
        × ((get now operation_id r.0).1 ≡ (
            if r.1
            then some (new_receipt now request_id operation_id op)
            else (get now operation_id rs).1)))
unfolding begin begin_pruned get prune make_room
get-begin now request_id operation_id op rs =
    let live : Receipt → Bool = λ r. ltb (now - r.created) retain_for in
    let mine : Receipt → Bool = λ r. text_eq r.operation_id operation_id in
    let found = any-find_first mine (retain live rs) in
    elim (Bool-cases (has_receipt (prune now rs) operation_id)) [
      | inl e ↦ (rw e (ap not (sym e ∙ found)), rw e (ap (find_first mine) (retain-retain live rs)))
      | inr e ↦
          let new = new_receipt now request_id operation_id op in
          let room = make_room (prune now rs) in
          let free =
            has_receipt-retain live room operation_id
              (make_room-has_receipt (prune now rs) operation_id e) in
          (
            rw e (ap not (sym e ∙ found)),
            rw e (
                ap (find_first mine) (retain-append live room new (ground arith))
                ∙ find_first-append mine (retain live room) new free (text_eq_refl operation_id)),
          )
    ]
