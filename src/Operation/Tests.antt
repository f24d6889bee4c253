-- ===== src/Operation/Tests.antt =====
-- Two responses to one request, over JSON values with the fields that are read.
use wsync.Prelude.{
  ℕ, ◌≡◌, refl, Bool, true, false, Option, none, some, List, [], ◌∷◌, Text, codes, text_eq,
  if◌then◌else◌,
}
use wsync.Operation.{
  Json, ResponseFrame, Receipts, completed, partial, not_started, new_receipt, prune, begin_pruned,
  begin, conclude, finish, get, acknowledgement_only, task_failed, reported, completion,
}
use wsync.Operation.Receipts.{Inv, Op, replay, replay-Inv}
use wsync.Operation.Evidence.{IsExplicit, retry_safe-IsExplicit}

program : Unit {0}
unfolding prune begin_pruned begin conclude finish get acknowledgement_only task_failed reported
    completion replay
program = tt

data Scalar : Type 0 where
  flag : Bool → Scalar
  number : ℕ → Scalar
  word : Text → Scalar

data Value : Type 0 where
  scalar : Scalar → Value
  fields : List (Text × Scalar) → Value

look : Text → List (Text × Scalar) → Option Value
look name [] = none
look name (f ∷ fs) = if text_eq f.0 name then some (scalar f.1) else look name fs

field : Text → Value → Option Value
field name (fields fs) = look name fs
field name _ = none

flag_of : Value → Option Bool
flag_of (scalar (flag b)) = some b
flag_of _ = none

number_of : Value → Option ℕ
number_of (scalar (number n)) = some n
number_of _ = none

word_of : Value → Option Text
word_of (scalar (word t)) = some t
word_of _ = none

abbrev json : Json
json = record {
  Value = Value;
  get = field;
  as_bool = flag_of;
  as_u64 = number_of;
  as_array = λ v. none;
  as_str = word_of;
}

abbrev refused : ResponseFrame json
refused = record {
  request_id = 3;
  ok = false;
  value = none;
  error = none;
  meta = some (fields ((codes "completion", word not_started) ∷ []));
}

abbrev mutated : ResponseFrame json
mutated = record {
  request_id = 3;
  ok = false;
  value = none;
  error = none;
  meta =
      some (fields ((codes "mutation", flag true) ∷ (codes "completion", word not_started) ∷ []));
}

abbrev set_op : Option Text
set_op = some (codes "set")

abbrev begun : Receipts
begun = new_receipt 0 3 (codes "op-1") (codes "set") ∷ []

completions : (completion refused set_op ≡ not_started) × (completion mutated set_op ≡ partial)
unfolding program field look flag_of word_of
completions = (refl, refl)

replay-Inv_example : Inv (
    replay
      (Op.begins 0 3 (codes "op-1") (codes "set")
        ∷ Op.finishes 3 completed none
        ∷ Op.gets 700000000000 (codes "op-1")
        ∷ [])
      [])
replay-Inv_example = replay-Inv (
    Op.begins 0 3 (codes "op-1") (codes "set")
    ∷ Op.finishes 3 completed none
    ∷ Op.gets 700000000000 (codes "op-1")
    ∷ [])

retry_safe-IsExplicit_example : IsExplicit json refused set_op
unfolding program field look flag_of word_of
retry_safe-IsExplicit_example =
    retry_safe-IsExplicit refused set_op none (new_receipt 0 3 (codes "op-1") (codes "set")) refl
      refl
