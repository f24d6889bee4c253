-- ===== src/Operation/Receipts.antt =====
-- The receipts: bounded, one for each operation, and final once they say something.
use wsync.Prelude.{
  ℕ, ◌-◌, ◌≤◌, ◌<◌, ◌≡◌, refl, ap, ◌∙◌, Bool, true, false, not, ◌&&◌, Option, List, [], ◌∷◌, ◌++◌,
  inl, inr, arith, Text, text_eq, text_eq_iff, text_eq_refl, ltb, leb, ◌==◌, if◌then◌else◌, any,
  retain, length, length-append, length-modify_first, Bool-cases,
}
use wsync.Operation.{
  Receipt, Receipts, retain_for, max_receipts, unknown, prune, pop_front, new_receipt, begin_pruned,
  begin, conclude, finish, get, op,
}

abbrev pub has_receipt : Receipts → Text → Bool
has_receipt rs id = any (λ r. text_eq r.operation_id id) rs

abbrev pub Distinct : Receipts → Type 0
Distinct [] = Unit
Distinct (r ∷ rs) = (has_receipt rs r.operation_id ≡ false) × Distinct rs

pub record Inv (rs : Receipts) : Type 0 where
  pub bounded : length rs ≤ max_receipts
  pub distinct : Distinct rs

pub has_receipt-retain :
    (t : Receipt → Bool) (rs : Receipts) (id : Text)
    → has_receipt rs id ≡ false
    → has_receipt (retain t rs) id ≡ false
has_receipt-retain t [] id h = refl
has_receipt-retain t (r ∷ rs) id h = ground (arith, has_receipt-retain t rs id)

retain-Distinct : (t : Receipt → Bool) (rs : Receipts) → Distinct rs → Distinct (retain t rs)
retain-Distinct t [] d = tt
retain-Distinct t (r ∷ rs) d =
    ground (arith, has_receipt-retain t rs r.operation_id, retain-Distinct t rs d.1)

length-retain : (t : Receipt → Bool) (rs : Receipts) → length (retain t rs) ≤ length rs
length-retain t [] = omega arith
length-retain t (r ∷ rs) = ground (arith, length-retain t rs)

pub prune-Inv : (now : ℕ) (rs : Receipts) → Inv rs → Inv (prune now rs)
unfolding prune
prune-Inv now rs v = record {
  bounded = omega (arith, v.bounded, length-retain (λ r. ltb (now - r.created) retain_for) rs);
  distinct = retain-Distinct (λ r. ltb (now - r.created) retain_for) rs v.distinct;
}

has_receipt-append :
    (rs : Receipts) (r : Receipt) (id : Text)
    → has_receipt rs id ≡ false
    → text_eq r.operation_id id ≡ false
    → has_receipt (rs ++ r ∷ []) id ≡ false
has_receipt-append [] r id h k = ground arith
has_receipt-append (x ∷ rs) r id h k = ground (arith, has_receipt-append rs r id)

text_eq_sym : (a b : Text) → text_eq a b ≡ false → text_eq b a ≡ false
text_eq_sym a b h = elim (Bool-cases (text_eq b a)) [
  | inl e ↦ let same : b ≡ a = (text_eq_iff b a).0 e in absurd (ground (arith, text_eq_refl a))
  | inr e ↦ e
]

append-Distinct :
    (rs : Receipts) (r : Receipt)
    → has_receipt rs r.operation_id ≡ false
    → Distinct rs
    → Distinct (rs ++ r ∷ [])
append-Distinct [] r h d = (refl, tt)
append-Distinct (x ∷ rs) r h d = (
  has_receipt-append rs r x.operation_id d.0
      (text_eq_sym x.operation_id r.operation_id (ground arith)),
  append-Distinct rs r (ground arith) d.1,
)

unfoldable pub make_room : Receipts → Receipts
make_room rs = if leb max_receipts (length rs) then pop_front rs else rs

make_room-Distinct : (rs : Receipts) → Distinct rs → Distinct (make_room rs)
unfolding make_room
make_room-Distinct [] d = tt
make_room-Distinct (r ∷ rs) d = ground arith

pub make_room-has_receipt :
    (rs : Receipts) (id : Text) → has_receipt rs id ≡ false → has_receipt (make_room rs) id ≡ false
unfolding make_room
make_room-has_receipt [] id h = refl
make_room-has_receipt (r ∷ rs) id h = ground arith

length-make_room : (rs : Receipts) → length rs ≤ max_receipts → length (make_room rs) < max_receipts
unfolding make_room
length-make_room [] h = omega arith
length-make_room (r ∷ rs) h = ground arith

pub begin-Inv :
    (now request_id : ℕ) (operation_id op : Text) (rs : Receipts)
    → Inv rs
    → Inv (begin now request_id operation_id op rs).0
unfolding begin begin_pruned make_room
begin-Inv now request_id operation_id op rs v =
    let w = prune-Inv now rs v in
    elim (Bool-cases (has_receipt (prune now rs) operation_id)) [
      | inl e ↦ rw e w
      | inr e ↦
          let room = make_room (prune now rs) in
          let new = new_receipt now request_id operation_id op in
          rw e (record {
            bounded =
                omega
                  (arith, length-append room (new ∷ []), length-make_room (prune now rs) w.bounded);
            distinct =
                append-Distinct room new (make_room-has_receipt (prune now rs) operation_id e)
                  (make_room-Distinct (prune now rs) w.distinct);
          })
    ]

conclude_id :
    (c : Text) (e : Option Text) (r : Receipt)
    → ((conclude c e r).operation_id ≡ r.operation_id)
      × ((conclude c e r).request_id ≡ r.request_id)
unfolding conclude
conclude_id c e r = ground arith

has_receipt-finish :
    (request_id : ℕ) (c : Text) (e : Option Text) (rs : Receipts) (id : Text)
    → has_receipt (finish request_id c e rs) id ≡ has_receipt rs id
unfolding finish
has_receipt-finish request_id c e [] id = refl
has_receipt-finish request_id c e (r ∷ rs) id = elim (Bool-cases (r.request_id == request_id)) [
  | inl h ↦ rw (h, (conclude_id c e r).0) refl
  | inr h ↦ rw (h, has_receipt-finish request_id c e rs id) refl
]

finish-Distinct :
    (request_id : ℕ) (c : Text) (e : Option Text) (rs : Receipts)
    → Distinct rs
    → Distinct (finish request_id c e rs)
unfolding finish
finish-Distinct request_id c e [] d = tt
finish-Distinct request_id c e (r ∷ rs) d = elim (Bool-cases (r.request_id == request_id)) [
  | inl h ↦ rw h (rw (conclude_id c e r).0 d.0, d.1)
  | inr h ↦ rw h (
    has_receipt-finish request_id c e rs r.operation_id ∙ d.0,
    finish-Distinct request_id c e rs d.1,
  )
]

pub finish-Inv :
    (request_id : ℕ) (c : Text) (e : Option Text) (rs : Receipts)
    → Inv rs
    → Inv (finish request_id c e rs)
unfolding finish
finish-Inv request_id c e rs v = record {
  bounded =
      omega
        (arith, v.bounded, length-modify_first (λ r. r.request_id == request_id) (conclude c e) rs);
  distinct = finish-Distinct request_id c e rs v.distinct;
}

pub data Op : Type 0 where
  begins : (now request_id : ℕ) (operation_id op : Text) → Op
  finishes : ℕ → Text → Option Text → Op
  gets : (now : ℕ) → Text → Op

unfoldable pub replay : List Op → Receipts → Receipts
replay [] rs = rs
replay (Op.begins now request_id operation_id op ∷ os) rs =
    replay os (begin now request_id operation_id op rs).0
replay (Op.finishes request_id completion error_code ∷ os) rs =
    replay os (finish request_id completion error_code rs)
replay (Op.gets now operation_id ∷ os) rs = replay os (get now operation_id rs).0

replay_from : (os : List Op) (rs : Receipts) → Inv rs → Inv (replay os rs)
unfolding replay get
replay_from [] rs v = v
replay_from (Op.begins now request_id operation_id op ∷ os) rs v =
    replay_from os _ (begin-Inv now request_id operation_id op rs v)
replay_from (Op.finishes request_id completion error_code ∷ os) rs v =
    replay_from os _ (finish-Inv request_id completion error_code rs v)
replay_from (Op.gets now operation_id ∷ os) rs v = replay_from os _ (prune-Inv now rs v)

-- After any sequence of calls on no receipts there are at most 256 of them, and no two are of one
-- operation.
pub replay-Inv : (os : List Op) → Inv (replay os [])
replay-Inv os = replay_from os [] (record { bounded = omega arith; distinct = tt })

conclude_twice :
    (c c' : Text) (e e' : Option Text) (r : Receipt)
    → text_eq c unknown ≡ false
    → conclude c' e' (conclude c e r) ≡ conclude c e r
unfolding conclude
conclude_twice c c' e e' r h =
    elim (Bool-cases (r.finished && not (text_eq r.completion unknown))) [
      | inl k ↦ rw k (rw k refl)
      | inr k ↦ rw k (rw h refl)
    ]

-- After `finish` with a completion other than `unknown`, another `finish` of that request, whatever
-- it says, changes nothing.
pub finish-final :
    (request_id : ℕ) (c c' : Text) (e e' : Option Text) (rs : Receipts)
    → text_eq c unknown ≡ false
    → finish request_id c' e' (finish request_id c e rs) ≡ finish request_id c e rs
unfolding finish
finish-final request_id c c' e e' [] h = refl
finish-final request_id c c' e e' (r ∷ rs) h = elim (Bool-cases (r.request_id == request_id)) [
  | inl k ↦
      let again : ((conclude c e r).request_id == request_id) ≡ true = rw (conclude_id c e r).1 k in
      rw k (rw again (ap (λ x. x ∷ rs) (conclude_twice c c' e e' r h)))
  | inr k ↦ rw k (rw k (ap (λ l. r ∷ l) (finish-final request_id c c' e e' rs h)))
]
