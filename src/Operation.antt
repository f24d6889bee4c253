-- ===== src/Operation.antt =====
-- src/server/operation.rs: the receipts of the operations sent to Studio, and what a response proves
-- of its operation. Instants are natural numbers of nanoseconds, and the calls take the time at
-- which they run. The JSON values of serde_json are a parameter.
pub mod Receipts
pub mod Lookup
pub mod Evidence
mod Tests
use wsync.Prelude.{
  ℕ, suc, ◌-◌, Bool, true, false, not, ◌&&◌, ◌||◌, Option, none, some, List, [], ◌∷◌, ◌++◌, Text,
  codes, text_eq, ltb, leb, ◌==◌, if◌then◌else◌, any, retain, length, find_first, modify_first,
  map_option, is_some,
}

pub record Receipt : Type 0 where
  pub operation_id : Text
  pub request_id : ℕ
  pub op : Text
  pub completion : Text
  pub completion_scope : Text
  pub retry_safe : Bool
  pub finished : Bool
  pub error_code : Option Text
  pub created : ℕ

-- The oldest receipt comes first.
abbrev pub Receipts : Type 0
Receipts = List Receipt

abbrev pub retain_for : ℕ
retain_for = 600000000000

abbrev pub max_receipts : ℕ
max_receipts = 256

abbrev pub unknown : Text
unknown = codes "unknown"

abbrev pub completed : Text
completed = codes "completed"

abbrev pub partial : Text
partial = codes "partial"

abbrev pub not_started : Text
not_started = codes "notStarted"

unfoldable pub prune : ℕ → Receipts → Receipts
prune now rs = retain (λ r. ltb (now - r.created) retain_for) rs

abbrev pub pop_front : Receipts → Receipts
pop_front [] = []
pop_front (r ∷ rs) = rs

abbrev pub new_receipt : ℕ → ℕ → Text → Text → Receipt
new_receipt now request_id operation_id op = record {
  operation_id = operation_id;
  request_id = request_id;
  op = op;
  completion = unknown;
  completion_scope = codes "requestedEffects";
  retry_safe = false;
  finished = false;
  error_code = none;
  created = now;
}

unfoldable pub begin_pruned : ℕ → ℕ → Text → Text → Receipts → Receipts × Bool
begin_pruned now request_id operation_id op rs =
    if any (λ r. text_eq r.operation_id operation_id) rs then (rs, false) else (
      (if leb max_receipts (length rs) then pop_front rs else rs)
          ++ new_receipt now request_id operation_id op ∷ [],
      true,
    )

unfoldable pub begin : ℕ → ℕ → Text → Text → Receipts → Receipts × Bool
begin now request_id operation_id op rs = begin_pruned now request_id operation_id op (prune now rs)

unfoldable pub conclude : Text → Option Text → Receipt → Receipt
conclude completion error_code r =
    if r.finished && not (text_eq r.completion unknown) then r else (record r {
      completion = completion;
      retry_safe = text_eq completion not_started;
      finished = true;
      error_code = error_code;
    })

unfoldable pub finish : ℕ → Text → Option Text → Receipts → Receipts
finish request_id completion error_code rs =
    modify_first (λ r. r.request_id == request_id) (conclude completion error_code) rs

unfoldable pub get : ℕ → Text → Receipts → Receipts × Option Receipt
get now operation_id rs =
    let live = prune now rs in (live, find_first (λ r. text_eq r.operation_id operation_id) live)

unfoldable pub op : ℕ → Receipts → Option Text
op request_id rs =
    map_option (λ r. r.op) (find_first (λ r. r.request_id == request_id && not r.finished) rs)

-- The accessors of serde_json's `Value`.
pub record Json : Type 1 where
  pub Value : Type 0
  pub get : Text → Value → Option Value
  pub as_bool : Value → Option Bool
  pub as_u64 : Value → Option ℕ
  pub as_array : Value → Option (List Value)
  pub as_str : Value → Option Text

pub record OpError : Type 0 where
  pub code : Text
  pub message : Text

pub record ResponseFrame (j : Json) : Type 0 where
  pub request_id : ℕ
  pub ok : Bool
  pub value : Option j.Value
  pub error : Option OpError
  pub meta : Option j.Value

abbrev pub op_is : Text → Option Text → Bool
op_is name none = false
op_is name (some op) = text_eq op name

unfoldable pub acknowledgement_only : Option Text → Bool
acknowledgement_only op =
    op_is (codes "undo") op
    || op_is (codes "redo") op
    || op_is (codes "playtest_start") op
    || op_is (codes "playtest_run_start") op

abbrev pub and_then {ℓ κ} : {A : Type ℓ} {B : Type κ} → (A → Option B) → Option A → Option B
and_then f none = none
and_then f (some a) = f a

abbrev pub is_positive : Option ℕ → Bool
is_positive none = false
is_positive (some n) = ltb 0 n

abbrev pub is_bool : Bool → Option Bool → Bool
is_bool b none = false
is_bool true (some c) = c
is_bool false (some c) = not c

unfoldable pub reported : Option Text → Text
reported none = unknown
reported (some text) =
    if text_eq text not_started
    then not_started
    else (if text_eq text completed
        then completed
        else (if text_eq text partial then partial else unknown))

abbrev pub bool_field : (j : Json) → Text → Option j.Value → Option Bool
bool_field j name v = and_then j.as_bool (and_then (j.get name) v)

abbrev pub u64_field : (j : Json) → Text → Option j.Value → Option ℕ
u64_field j name v = and_then j.as_u64 (and_then (j.get name) v)

abbrev pub any_failed : (j : Json) → Option (List j.Value) → Bool
any_failed j none = false
any_failed j (some results) =
    any (λ entry. is_bool false (bool_field j (codes "ok") (some entry))) results

module _ {j : Json} where
  unfoldable pub task_failed : ResponseFrame j → Option Text → Bool
  task_failed response op =
      if op_is (codes "playtest_exec") op
      then is_bool false (bool_field j (codes "ok") response.value)
      else (if op_is (codes "set_batch") op
          then is_positive (u64_field j (codes "failed") response.value)
            || any_failed j
                (and_then j.as_array (and_then (j.get (codes "results")) response.value))
          else false)

  unfoldable pub completion : ResponseFrame j → Option Text → Text
  completion response op =
      if response.ok && acknowledgement_only op
      then unknown
      else (if response.ok && not (task_failed response op)
          then completed
          else (if op_is (codes "set_batch") op
                && is_positive (u64_field j (codes "applied") response.value)
              then partial
              else (if is_bool true (bool_field j (codes "mutation") response.meta)
                  then partial
                  else reported
                      (and_then j.as_str (and_then (j.get (codes "completion")) response.meta)))))
