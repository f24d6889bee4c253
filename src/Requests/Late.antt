-- ===== src/Requests/Late.antt =====
-- A response that comes after its caller gave up.
use wsync.Prelude.{
  ℕ, ◌≡◌, refl, Bool, true, false, not, ◌&&◌, some, List, [], ◌∷◌, ◌++◌, inl, inr, arith, Text,
  ◌==◌, ==_refl, any, retain, find_first, modify_first, Bool-cases, map_option,
}
use wsync.Operation.{
  Json, ResponseFrame, Receipt, Receipts, new_receipt, prune, begin_pruned, begin, op, finish,
  conclude, completion,
}
use wsync.Operation.Receipts.{has_receipt, make_room}
use wsync.Operation.Lookup.{find_first-append}
use wsync.Requests.{Router, register_request, abort_request, record_response, resolve_request}

module _ {A : Type 0} (t : A → Bool) where
  any-retain : (u : A → Bool) (xs : List A) → any t xs ≡ false → any t (retain u xs) ≡ false
  any-retain u [] h = refl
  any-retain u (x ∷ xs) h = ground (arith, any-retain u xs)

  any-and : (u : A → Bool) (xs : List A) → any t xs ≡ false → any (λ x. t x && u x) xs ≡ false
  any-and u [] h = refl
  any-and u (x ∷ xs) h = ground (arith, any-and u xs)

  modify_first-append :
      (f : A → A) (xs : List A) (x : A)
      → any t xs ≡ false
      → t x ≡ true
      → modify_first t f (xs ++ x ∷ []) ≡ xs ++ f x ∷ []
  modify_first-append f [] x h k = rw k refl
  modify_first-append f (y ∷ xs) x h k = ground (arith, modify_first-append f xs x)

abbrev pub has_request : ℕ → Receipts → Bool
has_request request_id rs = any (λ r. r.request_id == request_id) rs

make_room-has_request :
    (request_id : ℕ) (rs : Receipts)
    → has_request request_id rs ≡ false
    → has_request request_id (make_room rs) ≡ false
unfolding make_room
make_room-has_request request_id [] h = refl
make_room-has_request request_id (r ∷ rs) h = ground arith

-- The receipts after `begin`.
begun :
    (now request_id : ℕ) (operation_id name : Text) (rs : Receipts)
    → (begin now request_id operation_id name rs).1 ≡ true
    → has_request request_id rs ≡ false
    → (room : Receipts) × ((begin now request_id operation_id name rs).0
        ≡ room ++ new_receipt now request_id operation_id name ∷ [])
      × (has_request request_id room ≡ false)
unfolding begin begin_pruned make_room prune
begun now request_id operation_id name rs ok fresh =
    elim (Bool-cases (has_receipt (prune now rs) operation_id)) [
      | inl e ↦ absurd (ground (arith, ok, e))
      | inr e ↦ (
        make_room (prune now rs),
        rw e refl,
        make_room-has_request request_id (prune now rs)
            (any-retain (λ r. r.request_id == request_id) _ rs fresh),
      )
    ]

module _ {j : Json} where
  recorded :
      (response : ResponseFrame j) (room : Receipts) (r : Receipt)
      → has_request response.request_id room ≡ false
      → (r.request_id == response.request_id) ≡ true
      → r.finished ≡ false
      → record_response response (room ++ r ∷ [])
        ≡ room
          ++ conclude (completion response (some r.op)) (map_option (λ e. e.code) response.error) r
            ∷ []
  unfolding record_response op finish
  recorded response room r free mine unfinished =
      let asks : Receipt → Bool = λ x. x.request_id == response.request_id in
      let found =
        find_first-append (λ x. asks x && not x.finished) room r
          (any-and asks (λ x. not x.finished) room free) (rw (mine, unfinished) refl) in
      rw (found, record_response) (modify_first-append asks _ room r free mine)

  -- A response that comes after the timeout of its request reaches no caller, and its completion
  -- still stands in the receipt: where the operation began under an id of a request that no
  -- receipt has, the first receipt of that request afterwards is its own, concluded by what the
  -- response proves.
  pub resolve_request-late :
      (now : ℕ) (operation_id name : Text) (s : Router) (response : ResponseFrame j)
      → has_request response.request_id s.receipts ≡ false
      → (begin now response.request_id operation_id name s.receipts).1 ≡ true
      → (let started : Router = record s {
        receipts = (begin now response.request_id operation_id name s.receipts).0;
      } in
          let late =
            resolve_request response
              (abort_request response.request_id (register_request response.request_id started)) in
          (late.1 ≡ false)
          × (find_first (λ r. r.request_id == response.request_id) late.0.receipts
              ≡ some (
                  conclude
                    (completion response (some name))
                    (map_option (λ e. e.code) response.error)
                    (new_receipt now response.request_id operation_id name))))
  unfolding resolve_request abort_request register_request conclude
  resolve_request-late now operation_id name s response fresh ok =
      let (room, e, free) = begun now response.request_id operation_id name s.receipts ok fresh in
      (
        ground (arith, ==_refl response.request_id),
        rw
            (
              e,
              recorded response room (new_receipt now response.request_id operation_id name) free
                  (==_refl response.request_id) refl,
            )
            (find_first-append (λ r. r.request_id == response.request_id) room _ free
              (==_refl response.request_id)),
      )
